-- ===== src/Asn1/Types/Derived.antt =====
-- python/ct/crypto/asn1/types.py: what the tagging decorators make of the tags of a class.
use sky_zadro_docs.Common.{
  ℕ, ◌==◌, All, List, [], ◌∷◌, ◌++◌, drop, ◌≡◌, refl, ◌∙◌, Bool-cases, inl, inr,
}
use sky_zadro_docs.Errors.{ok, raise, bind-returned, ok_injective, raise≢ok, type_error}
use sky_zadro_docs.Asn1.Tags.{Tag, make_tag, universal, constructed}
use sky_zadro_docs.Asn1.Types.{universal_tag, explicit_tag, replace_last, implicit_tag}
use mathlib.Core.Path.{subst}
use sky_zadro_docs.Asn1.Tags.RoundTrip.{made, make_tag-eq_ok}

-- A tag that the constructor of Tag has made.
abbrev pub IsMade : Tag → Type 0
IsMade t = make_tag t.number t.tag_class t.encoding ≡ ok t

abbrev pub IsConstructed : Tag → Type 0
IsConstructed t = t.encoding ≡ constructed

-- Every tag is one that the constructor makes, and all but the innermost one are constructed.
abbrev pub IsTagging : List Tag → Type 0
IsTagging tags = All IsMade tags × All IsConstructed (drop 1 tags)

-- The tags that a class can have: those of Abstract, and what the decorators make of them.
pub data Derived : List Tag → Type 0 where
  untagged : Derived []
  by_universal :
      (number encoding : ℕ) {tags new : List Tag}
      → Derived tags
      → universal_tag number encoding tags ≡ ok new
      → Derived new
  by_explicit :
      (number tag_class : ℕ) {tags new : List Tag}
      → Derived tags
      → explicit_tag number tag_class tags ≡ ok new
      → Derived new
  by_implicit :
      (number tag_class : ℕ) {tags new : List Tag}
      → Derived tags
      → implicit_tag number tag_class tags ≡ ok new
      → Derived new

make_tag-IsMade : (n c e : ℕ) (t : Tag) → make_tag n c e ≡ ok t → IsMade t × (t.encoding ≡ e)
make_tag-IsMade n c e t h =
    let (class_ok, encoding_ok, same) = make_tag-eq_ok n c e h in
    subst (λ (u : Tag). IsMade u × (u.encoding ≡ e)) same (made n c e class_ok encoding_ok, refl)

All-snoc :
    (P : Tag → Type 0) (tags : List Tag) (t : Tag) → All P tags → P t → All P (tags ++ t ∷ [])
All-snoc P [] t h p = (p, tt)
All-snoc P (u ∷ tags) t h p = (h.0, All-snoc P tags t h.1 p)

universal_made :
    (number encoding : ℕ) (tags new : List Tag)
    → universal_tag number encoding tags ≡ ok new
    → IsTagging new
unfolding universal_tag
universal_made number encoding [] new h =
    let (t, e, same) =
      bind-returned (λ (t : Tag). ok (t ∷ [])) (make_tag number universal encoding) h in
    subst IsTagging (ok_injective same)
      (((make_tag-IsMade number universal encoding t e).0, tt), tt)
universal_made number encoding (u ∷ tags) new h =
    let (t, e, same) =
      bind-returned (λ (t : Tag). raise type_error) (make_tag number universal encoding) h in
    absurd (raise≢ok same)

explicit_made :
    (number tag_class : ℕ) (tags new : List Tag)
    → IsTagging tags
    → explicit_tag number tag_class tags ≡ ok new
    → IsTagging new
unfolding explicit_tag
explicit_made number tag_class tags new good h = elim (Bool-cases (tag_class == universal)) [
  | inl refused ↦ absurd (raise≢ok (rw refused at h))
  | inr allowed ↦
      let (t, e, same) =
        bind-returned (λ (t : Tag). ok (tags ++ t ∷ [])) (make_tag number tag_class constructed)
          (rw allowed at h) in
      subst IsTagging (ok_injective same)
        (extended tags t good (make_tag-IsMade number tag_class constructed t e))
]
  where
    extended :
        (tags : List Tag) (t : Tag)
        → IsTagging tags
        → IsMade t × IsConstructed t
        → IsTagging (tags ++ t ∷ [])
    extended [] t good new_tag = ((new_tag.0, tt), tt)
    extended (u ∷ tags) t good new_tag = (
      (good.0.0, All-snoc IsMade tags t good.0.1 new_tag.0),
      All-snoc IsConstructed tags t good.1 new_tag.1,
    )

-- The last tag is replaced by one of the same encoding.
replaced :
    (P : Tag → Type 0) (number tag_class : ℕ) (tags new : List Tag)
    → ((t u : Tag) → u.encoding ≡ t.encoding → IsMade u → P t → P u)
    → All P tags
    → replace_last number tag_class tags ≡ ok new
    → All P new
replaced P number tag_class [] new keep good h = absurd (raise≢ok h)
replaced P number tag_class (t ∷ []) new keep good h =
    let (u, e, same) =
      bind-returned (λ (u : Tag). ok (u ∷ [])) (make_tag number tag_class t.encoding) h in
    let (is_made, encoding) = make_tag-IsMade number tag_class t.encoding u e in
    subst (All P) (ok_injective same) (keep t u encoding is_made good.0, tt)
replaced P number tag_class (t ∷ u ∷ tags) new keep good h =
    let (more, e, same) =
      bind-returned (λ (more : List Tag). ok (t ∷ more)) (replace_last number tag_class (u ∷ tags))
        h in
    subst (All P) (ok_injective same)
      (good.0, replaced P number tag_class (u ∷ tags) more keep good.1 e)

replaced_outer :
    (number tag_class : ℕ) (tags new : List Tag)
    → All IsConstructed (drop 1 tags)
    → replace_last number tag_class tags ≡ ok new
    → All IsConstructed (drop 1 new)
replaced_outer number tag_class [] new good h = absurd (raise≢ok h)
replaced_outer number tag_class (t ∷ []) new good h =
    let (u, e, same) =
      bind-returned (λ (u : Tag). ok (u ∷ [])) (make_tag number tag_class t.encoding) h in
    subst (λ (l : List Tag). All IsConstructed (drop 1 l)) (ok_injective same) tt
replaced_outer number tag_class (t ∷ u ∷ tags) new good h =
    let (more, e, same) =
      bind-returned (λ (more : List Tag). ok (t ∷ more)) (replace_last number tag_class (u ∷ tags))
        h in
    subst (λ (l : List Tag). All IsConstructed (drop 1 l)) (ok_injective same)
      (replaced IsConstructed number tag_class (u ∷ tags) more
        (λ s v same_encoding _ c. same_encoding ∙ c) good e)

implicit_made :
    (number tag_class : ℕ) (tags new : List Tag)
    → IsTagging tags
    → implicit_tag number tag_class tags ≡ ok new
    → IsTagging new
unfolding implicit_tag
implicit_made number tag_class tags new good h = elim (Bool-cases (tag_class == universal)) [
  | inl refused ↦ absurd (raise≢ok (rw refused at h))
  | inr allowed ↦ (
    replaced IsMade number tag_class tags new (λ s v _ is_made _. is_made) good.0 (rw allowed at h),
    replaced_outer number tag_class tags new good.1 (rw allowed at h),
  )
]

-- However a class was derived from Abstract by the decorators, each of its tags is one that the
-- constructor of Tag makes of its number, class and encoding, and all tags but the innermost one have a
-- constructed encoding.
pub Derived-IsTagging : (tags : List Tag) → Derived tags → IsTagging tags
Derived-IsTagging tags untagged = (tt, tt)
Derived-IsTagging new (by_universal number encoding {tags} d e) =
    universal_made number encoding tags new e
Derived-IsTagging new (by_explicit number tag_class {tags} d e) =
    explicit_made number tag_class tags new (Derived-IsTagging tags d) e
Derived-IsTagging new (by_implicit number tag_class {tags} d e) =
    implicit_made number tag_class tags new (Derived-IsTagging tags d) e
