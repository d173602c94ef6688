-- ===== src/Asn1/Tags/Octets.antt =====
-- python/ct/crypto/asn1/tag.py: the first byte of a tag, and the octets of a number above 30.
use sky_zadro_docs.Common.{
  ℕ, zero, suc, ◌+◌, ◌*◌, ◌/◌, ◌%◌, ◌^◌, ◌≤◌, ◌<◌, ◌==◌, ◌&&◌, Bool, true, [], ◌∷◌, ◌++◌, bit_and,
  bit_or, length, append_assoc, ◌≡◌, refl, ap, ◌∙◌, arith, ◌⊎◌, inl, inr, ==_iff, ne→==,
}
use sky_zadro_docs.Common.Tables.{all_below, all_below-lt, and-cases}
use sky_zadro_docs.Merkle.Hasher.{Bytes}
use sky_zadro_docs.Asn1.Tags.{is_class, is_encoding, marked_octets, read_octets}
use mathlib.Core.List.{reverse, reverse-append}
use native.Mathlib.Nat.{pow-suc}

abbrev parts_back : ℕ → ℕ → ℕ → Bool
parts_back c e n =
    bit_and (bit_or (bit_or c e) n) 0xc0 == c
    && (bit_and (bit_or (bit_or c e) n) 0x20 == e && bit_and (bit_or (bit_or c e) n) 0x1f == n)

class_cases : (c : ℕ) → is_class c ≡ true → (c ≡ 0x00) ⊎ ((c ≡ 0x40) ⊎ ((c ≡ 0x80) ⊎ (c ≡ 0xc0)))
class_cases c h = ground arith

encoding_cases : (e : ℕ) → is_encoding e ≡ true → (e ≡ 0x00) ⊎ (e ≡ 0x20)
encoding_cases e h = ground arith

tables_for :
    (c e : ℕ)
    → all_below 32 (parts_back c 0x00) ≡ true
    → all_below 32 (parts_back c 0x20) ≡ true
    → is_encoding e ≡ true
    → all_below 32 (parts_back c e) ≡ true
tables_for c e p q h = elim (encoding_cases e h) [ inl z ↦ rw z p | inr z ↦ rw z q ]

tables : (c e : ℕ) → is_class c ≡ true → is_encoding e ≡ true → all_below 32 (parts_back c e) ≡ true
tables c e h k = elim (class_cases c h) [
  | inl z ↦ rw z (tables_for 0x00 e refl refl k)
  | inr (inl z) ↦ rw z (tables_for 0x40 e refl refl k)
  | inr (inr (inl z)) ↦ rw z (tables_for 0x80 e refl refl k)
  | inr (inr (inr z)) ↦ rw z (tables_for 0xc0 e refl refl k)
]

-- The three parts of the first byte do not overlap.
pub first_byte_parts :
    (c e n : ℕ)
    → is_class c ≡ true
    → is_encoding e ≡ true
    → n < 32
    → (bit_and (bit_or (bit_or c e) n) 0xc0 ≡ c)
      × (bit_and (bit_or (bit_or c e) n) 0x20 ≡ e)
      × (bit_and (bit_or (bit_or c e) n) 0x1f ≡ n)
first_byte_parts c e n h k lt =
    let (one, more) = and-cases (all_below-lt 32 (parts_back c e) n (tables c e h k) lt) in
    let (two, three) = and-cases more in
    ((==_iff _ c).0 one, (==_iff _ e).0 two, (==_iff _ n).0 three)

-- Marked octets are read on, to the number that they stand for.
pub read_octets-marked :
    (f m octets : ℕ) (xs : Bytes)
    → m ≤ f
    → read_octets 0 octets (reverse (marked_octets f m) ++ xs)
      ≡ read_octets m (octets + length (marked_octets f m)) xs
read_octets-marked zero zero octets xs h = ap (λ (t : ℕ). read_octets 0 t xs) (omega arith)
read_octets-marked zero (suc m) octets xs h = absurd (omega arith)
read_octets-marked (suc f) zero octets xs h = ap (λ (t : ℕ). read_octets 0 t xs) (omega arith)
read_octets-marked (suc f) (suc m) octets xs h =
    ap (λ (t : Bytes). read_octets 0 octets (t ++ xs)) (reverse-append (d ∷ []) more)
    ∙ ap (read_octets 0 octets) (append_assoc (reverse more) (d ∷ []) xs)
    ∙ read_octets-marked f (suc m / 128) octets (d ∷ xs) (omega arith)
    ∙ one_octet (suc m / 128) (octets + length more) d
    ∙ (λ i. read_octets (whole i) (counted i) xs)
  where
    d : ℕ
    d = suc m % 128 + 128

    more : Bytes
    more = marked_octets f (suc m / 128)

    one_octet : (n c b : ℕ) → read_octets n c (d ∷ xs) ≡ read_octets (n * 128 + d % 128) (c + 1) xs
    one_octet n c b = unfold read_octets in rw (ne→== (d / 128 % 2) 0 (omega arith))

    whole : suc m / 128 * 128 + d % 128 ≡ suc m
    whole = omega arith

    counted : octets + length more + 1 ≡ octets + length (marked_octets (suc f) (suc m))
    counted = omega arith

pub length-marked_octets : (k f m : ℕ) → m < 128 ^ k → length (marked_octets f m) ≤ k
length-marked_octets k zero m h = omega arith
length-marked_octets k (suc f) zero h = omega arith
length-marked_octets zero (suc f) (suc m) h = absurd (omega arith)
length-marked_octets (suc k) (suc f) (suc m) h =
    omega (arith, length-marked_octets k f (suc m / 128) (omega (arith, h, pow-suc 128 k)))
