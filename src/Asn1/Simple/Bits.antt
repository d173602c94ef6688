-- ===== src/Asn1/Simple/Bits.antt =====
-- python/ct/crypto/asn1/types.py: BitString, packed and unpacked.
use sky_zadro_docs.Common.{
  ℕ, zero, suc, ◌+◌, ◌-◌, ◌*◌, ◌/◌, ◌%◌, ◌<◌, ◌==◌, if◌then◌else◌, Bool, true, false, List, [], ◌∷◌,
  ◌++◌, length, length-append, length-take, length-drop, take, drop, take-append-drop,
  take-length_append, drop-length_append, append-nil, ◌≡◌, refl, sym, ap, ◌∙◌, arith, ◌⊎◌, inl, inr,
  Bool-cases, ==_iff, ne→==, le→ltb,
}
use sky_zadro_docs.Errors.{ok, ok_injective}
use sky_zadro_docs.Merkle.Hasher.{Bytes}
use sky_zadro_docs.Asn1.Simple.{
  bit, from_bits, to_bits, pack, unpack, zeros, any_one, encode_bit_string, strip_padding,
  decode_bit_string,
}
use mathlib.Core.List.{foldl-append}

-- A list that is not empty has a last element.
last_bit :
    (n : ℕ) (bits : List Bool)
    → length bits ≡ suc n
    → (front : List Bool) × (b : Bool) × (bits ≡ front ++ b ∷ []) × (length front ≡ n)
last_bit n [] p = absurd (omega arith)
last_bit zero (a ∷ b ∷ r) p = absurd (omega arith)
last_bit zero (a ∷ []) p = ([], a, refl, refl)
last_bit (suc n) (a ∷ []) p = absurd (omega arith)
last_bit (suc n) (a ∷ b ∷ r) p =
    let (front, y, e, c) = last_bit n (b ∷ r) (omega (arith, p)) in
    (a ∷ front, y, ap (λ (t : List Bool). a ∷ t) e, omega (arith, c))

from_bits-append : (xs : List Bool) (b : Bool) → from_bits (xs ++ b ∷ []) ≡ 2 * from_bits xs + bit b
from_bits-append xs b = foldl-append (λ n b. 2 * n + bit b) 0 xs (b ∷ [])

half : (n : ℕ) (b : Bool) → (2 * n + bit b) / 2 ≡ n
half n true = omega arith
half n false = omega arith

low_bit : (n : ℕ) (b : Bool) → ((2 * n + bit b) % 2 == 1) ≡ b
low_bit n true = (==_iff ((2 * n + 1) % 2) 1).1 (omega arith)
low_bit n false = ne→== ((2 * n + 0) % 2) 1 (omega arith)

-- So many digits of a number made of so many bits are these bits.
to_bits-from_bits : (k : ℕ) (bits : List Bool) → length bits ≡ k → to_bits k (from_bits bits) ≡ bits
to_bits-from_bits zero [] h = refl
to_bits-from_bits zero (b ∷ r) h = absurd (omega arith)
to_bits-from_bits (suc k) bits h =
    let (front, b, e, c) = last_bit k bits h in
    ap (λ (t : List Bool). to_bits (suc k) (from_bits t)) e
    ∙ ap (to_bits (suc k)) (from_bits-append front b)
    ∙ (λ i. to_bits k (half (from_bits front) b i) ++ low_bit (from_bits front) b i ∷ [])
    ∙ ap (λ (t : List Bool). t ++ b ∷ []) (to_bits-from_bits k front c)
    ∙ sym e

unpack-pack : (f : ℕ) (bits : List Bool) → length bits ≡ f * 8 → unpack (pack f bits) ≡ bits
unpack-pack zero [] h = refl
unpack-pack zero (b ∷ r) h = absurd (omega arith)
unpack-pack (suc f) bits h =
    (λ i. first i ++ unpack (pack f (drop 8 bits)))
    ∙ ap (λ (t : List Bool). take 8 bits ++ t)
        (unpack-pack f (drop 8 bits) (omega (arith, h, length-drop 8 bits)))
    ∙ take-append-drop 8 bits
  where
    first : to_bits 8 (from_bits (take 8 bits)) ≡ take 8 bits
    first = to_bits-from_bits 8 (take 8 bits) (omega (arith, h, length-take 8 bits))

length-zeros : (n : ℕ) → length (zeros n) ≡ n
length-zeros zero = refl
length-zeros (suc n) = ap suc (length-zeros n)

any_one-zeros : (n : ℕ) → any_one (zeros n) ≡ false
any_one-zeros zero = refl
any_one-zeros (suc n) = any_one-zeros n

abbrev padding : List Bool → ℕ
padding bits = (8 - length bits % 8) % 8

whole_bytes : (n : ℕ) → n + (8 - n % 8) % 8 ≡ (n + (8 - n % 8) % 8) / 8 * 8
whole_bytes n = omega arith

padded_length :
    (bits : List Bool) → length (bits ++ zeros (padding bits)) ≡ length bits + padding bits
padded_length bits =
    omega (arith, length-append bits (zeros (padding bits)), length-zeros (padding bits))

stripped_cons :
    (pad : ℕ) (all : List Bool)
    → 0 < length all
    → any_one (drop (length all - pad) all) ≡ false
    → strip_padding pad all ≡ ok (take (length all - pad) all)
unfolding strip_padding
stripped_cons pad [] p h = absurd (omega arith)
stripped_cons pad (b ∷ r) p h = rw h

stripped : (bits : List Bool) (pad : ℕ) → 0 < pad → strip_padding pad (bits ++ zeros pad) ≡ ok bits
stripped bits pad p =
    stripped_cons pad (bits ++ zeros pad) (omega (arith, size, p)) (
      ap (λ (n : ℕ). any_one (drop n (bits ++ zeros pad))) kept
      ∙ ap any_one (drop-length_append bits (zeros pad))
      ∙ any_one-zeros pad)
    ∙ ap (λ (n : ℕ). ok (take n (bits ++ zeros pad))) kept
    ∙ ap ok (take-length_append bits (zeros pad))
  where
    size : length (bits ++ zeros pad) ≡ length bits + pad
    size = omega (arith, length-append bits (zeros pad), length-zeros pad)

    kept : length (bits ++ zeros pad) - pad ≡ length bits
    kept = omega (arith, size)

no_padding : (bits : List Bool) → padding bits ≡ 0 → bits ++ zeros (padding bits) ≡ bits
no_padding bits e = ap (λ (n : ℕ). bits ++ zeros n) e ∙ append-nil bits

-- Every bit string is decoded from its contents.
pub encode_bit_string-decode_bit_string :
    (bits : List Bool) (buf : Bytes)
    → encode_bit_string bits ≡ ok buf
    → (strict : Bool) → decode_bit_string strict buf ≡ ok bits
unfolding encode_bit_string decode_bit_string
encode_bit_string-decode_bit_string bits buf h strict =
    ap (decode_bit_string strict) (sym (ok_injective h))
    ∙ rw (le→ltb 7 (padding bits) (omega arith), unpacked)
        (by_padding (Bool-cases (padding bits == 0)))
  where
    padded : List Bool
    padded = bits ++ zeros (padding bits)

    unpacked : unpack (pack (length padded / 8) padded) ≡ padded
    unpacked = unpack-pack (length padded / 8) padded (
        padded_length bits
        ∙ whole_bytes (length bits)
        ∙ ap (λ (n : ℕ). n / 8 * 8) (sym (padded_length bits)))

    by_padding :
        ((padding bits == 0) ≡ true) ⊎ ((padding bits == 0) ≡ false)
        → (if padding bits == 0 then ok padded else strip_padding (padding bits) padded) ≡ ok bits
    by_padding (inl full) = rw full (ap ok (no_padding bits ((==_iff (padding bits) 0).0 full)))
    by_padding (inr partial) = rw partial (stripped bits (padding bits) (omega (arith, nonzero)))
      where
        nonzero : padding bits ≡ 0 → ⊥
        nonzero z = cc (partial, (==_iff (padding bits) 0).1 z)
