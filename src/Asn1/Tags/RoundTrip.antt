-- ===== src/Asn1/Tags/RoundTrip.antt =====
-- python/ct/crypto/asn1/tag.py: a tag is read from its value.
use sky_zadro_docs.Common.{
  ℕ, zero, suc, ◌+◌, ◌-◌, ◌*◌, ◌/◌, ◌%◌, ◌^◌, ◌≤◌, ◌<◌, leb, true, [], ◌∷◌, ◌++◌, length,
  append_assoc, ◌≡◌, sym, ap, ◌∙◌, arith, inl, inr, Bool-cases, ==_iff, ne→==, le→leb, lt→leb,
  leb→lt, leb→le,
}
use sky_zadro_docs.Errors.{ok, ok_injective, raise≢ok}
use sky_zadro_docs.Merkle.Hasher.{Bytes}
use sky_zadro_docs.Asn1.Tags.{
  Tag, is_class, is_encoding, marked_octets, unmark_first, tag_value, make_tag, read_octets,
  read_tag,
}
use sky_zadro_docs.Asn1.Tags.Octets.{first_byte_parts, read_octets-marked, length-marked_octets}
use mathlib.Core.List.{reverse, reverse-append}

abbrev pub tag_of : ℕ → ℕ → ℕ → Tag
tag_of n c e = record { number = n; tag_class = c; encoding = e; value = tag_value n c e }

pub made :
    (n c e : ℕ) → is_class c ≡ true → is_encoding e ≡ true → make_tag n c e ≡ ok (tag_of n c e)
unfolding make_tag
made n c e h k = rw (h, k)

pub make_tag-eq_ok :
    (n c e : ℕ) {t : Tag}
    → make_tag n c e ≡ ok t
    → (is_class c ≡ true) × (is_encoding e ≡ true) × (tag_of n c e ≡ t)
unfolding make_tag
make_tag-eq_ok n c e h = elim (Bool-cases (is_class c)) [
  | inr no_class ↦ absurd (raise≢ok (rw no_class at h))
  | inl class_ok ↦ elim (Bool-cases (is_encoding e)) [
    | inr no_encoding ↦ absurd (raise≢ok (rw (class_ok, no_encoding) at h))
    | inl encoding_ok ↦ (class_ok, encoding_ok, ok_injective (rw (class_ok, encoding_ok) at h))
  ]
]

read_low :
    (n c e : ℕ) (rest : Bytes)
    → is_class c ≡ true
    → is_encoding e ≡ true
    → n ≤ 30
    → read_tag (tag_value n c e ++ rest) ≡ ok (tag_of n c e, rest)
unfolding read_tag tag_value
read_low n c e rest h k le =
    let (p, q, r) = first_byte_parts c e n h k (omega (arith, le)) in
    rw (
      le→leb n 30 le,
      p,
      q,
      r,
      ne→== n 31 (omega (arith, le)),
      made n c e h k,
      tag_value,
      le→leb n 30 le,
    )

last_octet :
    (m octets b : ℕ) (rest : Bytes)
    → b < 128
    → read_octets m octets (b ∷ rest) ≡ ok (m * 128 + b, octets + 1, rest)
unfolding read_octets
last_octet m octets b rest h =
    rw ((==_iff (b / 128 % 2) 0).1 (omega arith)) (λ i. ok (m * 128 + same i, octets + 1, rest))
  where
    same : b % 128 ≡ b
    same = omega arith

-- The octets of a number above 30, with the mark of the last one taken off.
octets_back :
    (n : ℕ) (rest : Bytes)
    → 0 < n
    → read_octets 0 0 (reverse (unmark_first (marked_octets n n)) ++ rest)
      ≡ ok (n, length (marked_octets (n - 1) (n / 128)) + 1, rest)
octets_back zero rest h = absurd (omega arith)
octets_back (suc m) rest h =
    ap (λ (t : Bytes). read_octets 0 0 (t ++ rest)) (reverse-append (d ∷ []) more)
    ∙ ap (read_octets 0 0) (append_assoc (reverse more) (d ∷ []) rest)
    ∙ read_octets-marked m (suc m / 128) 0 (d ∷ rest) (omega arith)
    ∙ last_octet (suc m / 128) (0 + length more) d rest (omega arith)
    ∙ (λ i. ok (whole i, counted i, rest))
  where
    d : ℕ
    d = suc m % 128 + 128 - 128

    more : Bytes
    more = marked_octets m (suc m / 128)

    whole : suc m / 128 * 128 + d ≡ suc m
    whole = omega arith

    fuel : m ≡ suc m - 1
    fuel = omega arith

    counted : 0 + length more + 1 ≡ length (marked_octets (suc m - 1) (suc m / 128)) + 1
    counted = ap (λ (f : ℕ). 0 + length (marked_octets f (suc m / 128)) + 1) fuel ∙ omega arith

read_high :
    (n c e : ℕ) (rest : Bytes)
    → is_class c ≡ true
    → is_encoding e ≡ true
    → 30 < n
    → n < 128 ^ 5
    → read_tag (tag_value n c e ++ rest) ≡ ok (tag_of n c e, rest)
unfolding read_tag tag_value
read_high n c e rest h k gt lt =
    let (p, q, r) = first_byte_parts c e 31 h k (omega arith) in
    let few : length (marked_octets (n - 1) (n / 128)) ≤ 4 =
      length-marked_octets 4 (n - 1) (n / 128) (omega (arith, lt)) in
    rw (
      lt→leb n 30 gt,
      p,
      q,
      r,
      octets_back n rest (omega (arith, gt)),
      le→leb (length (marked_octets (n - 1) (n / 128)) + 1) 5 (omega (arith, few)),
      made n c e h k,
      tag_value,
      lt→leb n 30 gt,
    )

-- A tag with a number below 2 ^ 35 that the constructor accepts is read from any buffer that begins
-- with its value; what follows is left.
pub make_tag-read_tag :
    (n c e : ℕ) (t : Tag) (rest : Bytes)
    → make_tag n c e ≡ ok t
    → n < 2 ^ 35
    → read_tag (t.value ++ rest) ≡ ok (t, rest)
make_tag-read_tag n c e t rest h lt =
    let (class_ok, encoding_ok, same) = make_tag-eq_ok n c e h in
    rw (sym same) (elim (Bool-cases (leb n 30)) [
      | inl low ↦ read_low n c e rest class_ok encoding_ok (leb→le n 30 low)
      | inr high ↦ read_high n c e rest class_ok encoding_ok (leb→lt n 30 high) lt
    ])
