-- ===== src/Asn1/Types/Wrap.antt =====
-- python/ct/crypto/asn1/types.py: tags and lengths that were put round the contents are read again.
use sky_zadro_docs.Common.{
  ℕ, ◌≤◌, ◌<◌, ◌^◌, ◌||◌, if◌then◌else◌, ◌==◌, Bool, true, false, List, [], ◌∷◌, ◌++◌, length,
  length-append, take-length_append, drop-length_append, append_assoc, append-nil, ◌≡◌, refl, sym,
  ap, ◌∙◌, arith, le→leb,
}
use sky_zadro_docs.Common.Int.{ℤ, pos}
use sky_zadro_docs.Errors.{Result, ok, ◌>>=◌, bind-returned, ok_injective}
use sky_zadro_docs.Merkle.Hasher.{Bytes, bytes_eq_refl}
use sky_zadro_docs.Asn1.Integers.{encode_length}
use sky_zadro_docs.Asn1.Integers.Lengths.{encode_length-read_length}
use sky_zadro_docs.Asn1.Tags.{Tag, constructed}
use sky_zadro_docs.Asn1.Types.{
  Asn1Object, Asn1Type, TagsRead, wrap_tags, read_tags, strip_eoc, from_serialized, read_contents,
  read,
}
use mathlib.Core.List.{reverse, reverse-append}

abbrev pub tags_read : ℤ → ℕ → Bytes → TagsRead
tags_read n indefinite buf = record { decoded_length = n; indefinite = indefinite; buf = buf }

-- The length of the contents after the tags `tags`.
abbrev last_length : List Tag → ℤ → Bytes → ℤ
last_length [] n v = n
last_length (t ∷ tags) n v = pos (length v)

-- One tag, with a length that is not above the bytes that follow.
pub read_one_tag :
    (strict : Bool) (t : Tag) (tags : List Tag) (n : ℤ) (indefinite k : ℕ) (encoded rest : Bytes)
    → k < 256 ^ 127
    → encode_length k ≡ ok encoded
    → k ≤ length rest
    → read_tags strict (t ∷ tags) (tags_read n indefinite (t.value ++ (encoded ++ rest)))
      ≡ read_tags strict tags (tags_read (pos k) indefinite rest)
unfolding read_tags
read_one_tag strict t tags n indefinite k encoded rest small e inside =
    let (encoded', e', back) = encode_length-read_length k small in
    let same : encoded' ≡ encoded = ok_injective (sym e' ∙ e) in
    rw (
      take-length_append t.value (encoded ++ rest),
      bytes_eq_refl t.value,
      drop-length_append t.value (encoded ++ rest),
      sym same,
      back (strict || (if t.encoding == constructed then false else true)) rest,
      le→leb k (length rest) inside,
    )

-- `tags` put round `v` leave it at the end, so nothing becomes shorter.
pub wrap_longer : (tags : List Tag) (v w : Bytes) → wrap_tags tags v ≡ ok w → length v ≤ length w
unfolding wrap_tags
wrap_longer [] v w h = omega (arith, ap length (ok_injective h))
wrap_longer (t ∷ tags) v w h =
    let (n, e, more) =
      bind-returned (λ (n : Bytes). wrap_tags tags (t.value ++ (n ++ v))) (encode_length (length v))
        h in
    omega (
      arith,
      wrap_longer tags (t.value ++ (n ++ v)) w more,
      length-append t.value (n ++ v),
      length-append n v,
    )

pub wrap_tags-read_tags :
    (strict : Bool) (tags more : List Tag) (v w : Bytes) (n : ℤ) (indefinite : ℕ) (rest : Bytes)
    → wrap_tags tags v ≡ ok w
    → length w < 256 ^ 127
    → read_tags strict (reverse tags ++ more) (tags_read n indefinite (w ++ rest))
      ≡ read_tags strict more (tags_read (last_length tags n v) indefinite (v ++ rest))
unfolding wrap_tags
wrap_tags-read_tags strict [] more v w n indefinite rest h small =
    ap (λ (t : Bytes). read_tags strict more (tags_read n indefinite (t ++ rest)))
      (sym (ok_injective h))
wrap_tags-read_tags strict (t ∷ tags) more v w n indefinite rest h small =
    let (k, e, h') =
      bind-returned (λ (k : Bytes). wrap_tags tags (t.value ++ (k ++ v))) (encode_length (length v))
        h in
    let inner : Bytes = t.value ++ (k ++ v) in
    let shorter : length inner ≤ length w = wrap_longer tags inner w h' in
    ap (λ (l : List Tag). read_tags strict l (tags_read n indefinite (w ++ rest)))
      (ap (λ (l : List Tag). l ++ more) (reverse-append (t ∷ []) tags)
        ∙ append_assoc (reverse tags) (t ∷ []) more)
    ∙ wrap_tags-read_tags strict tags (t ∷ more) inner w n indefinite rest h' small
    ∙ ap
        (λ (b : Bytes).
          read_tags strict (t ∷ more) (tags_read (last_length tags n inner) indefinite b))
        (append_assoc t.value (k ++ v) rest
          ∙ ap (λ (b : Bytes). t.value ++ b) (append_assoc k v rest))
    ∙ read_one_tag strict t more (last_length tags n inner) indefinite (length v) k (v ++ rest)
        (omega (arith, shorter, small, length-append t.value (k ++ v), length-append k v)) e
        (omega (arith, length-append v rest))

module _ {V : Type 0} (cls : Asn1Type V) where
  -- What `read` makes of contents.
  abbrev pub contents_read : Bool → Bytes → Bytes → Result (Asn1Object V × Bytes)
  contents_read strict v rest = from_serialized cls strict v >>= λ o. ok (o, rest)

  pub definite_contents :
      (strict : Bool) (v rest : Bytes)
      → read_contents cls strict (tags_read (pos (length v)) 0 (v ++ rest))
        ≡ contents_read strict v rest
  unfolding read_contents strip_eoc
  definite_contents strict v rest = rw (take-length_append v rest, drop-length_append v rest)

  pub read_tagged :
      (strict : Bool) (buf : Bytes)
      → 0 < length cls.tags
      → read cls strict buf ≡ (
          read_tags strict (reverse cls.tags) (tags_read (pos 0) 0 buf)
          >>= read_contents cls strict)
  unfolding read
  read_tagged strict buf p =
      elim cls.tags
          as (λ tags.
            0 < length tags
            → (elim tags [
              | [] ↦ cls.read_untagged strict buf
              | t ∷ r ↦
                  (read_tags strict (reverse (t ∷ r)) (tags_read (pos 0) 0 buf)
                    >>= read_contents cls strict)
            ])
              ≡ (read_tags strict (reverse tags) (tags_read (pos 0) 0 buf)
                  >>= read_contents cls strict)) [
                    | [] ↦ λ q. absurd (omega arith)
                    | t ∷ r ↦ λ q. refl
                  ]
        p

  read_last :
      (strict : Bool) (tags : List Tag) (v rest : Bytes)
      → 0 < length tags
      → (read_tags strict [] (tags_read (last_length tags (pos 0) v) 0 (v ++ rest))
          >>= read_contents cls strict)
        ≡ contents_read strict v rest
  unfolding read_tags
  read_last strict [] v rest p = absurd (omega arith)
  read_last strict (t ∷ tags) v rest p = definite_contents strict v rest

  -- Reading what was wrapped.
  pub wrap_tags-read :
      (strict : Bool) (v w rest : Bytes)
      → 0 < length cls.tags
      → wrap_tags cls.tags v ≡ ok w
      → length w < 256 ^ 127
      → read cls strict (w ++ rest) ≡ contents_read strict v rest
  wrap_tags-read strict v w rest p h small =
      read_tagged strict (w ++ rest) p
      ∙ ap
          (λ (l : List Tag).
            read_tags strict l (tags_read (pos 0) 0 (w ++ rest)) >>= read_contents cls strict)
          (sym (append-nil (reverse cls.tags)))
      ∙ ap (λ (r : Result TagsRead). r >>= read_contents cls strict)
          (wrap_tags-read_tags strict cls.tags [] v w (pos 0) 0 rest h small)
      ∙ read_last strict cls.tags v rest p
