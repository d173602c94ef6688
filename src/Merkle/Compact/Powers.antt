-- ===== src/Merkle/Compact/Powers.antt =====
-- The bits of sizes that are multiples of a power of two, for python/ct/crypto/merkle.py.
use sky_zadro_docs.Common.{
  ℕ, zero, suc, ◌+◌, ◌-◌, ◌*◌, ◌/◌, ◌^◌, ◌≤◌, ◌<◌, ◌≡◌, ap, ◌∙◌, arith, ◌⊎◌, inl, inr,
}
use sky_zadro_docs.Merkle.Bits.{
  count_bits_set, count_bits_set_even, lowest_bit_set, lowest_bit_set_even, lowest_bit_set_odd,
}
use native.Mathlib.Nat.{pow-suc}

double_power : (s j : ℕ) → s * 2 ^ suc j ≡ 2 * (s * 2 ^ j)
double_power s j = omega (arith, ap (λ (t : ℕ). s * t) (pow-suc 2 j))

pub times_one : (s : ℕ) → s * 2 ^ 0 ≡ s
times_one s = omega arith

pub count_bits_set_shift : (s j : ℕ) → count_bits_set (s * 2 ^ j) ≡ count_bits_set s
count_bits_set_shift s zero = ap count_bits_set (times_one s)
count_bits_set_shift s (suc j) =
    ap count_bits_set (double_power s j)
    ∙ count_bits_set_even (s * 2 ^ j)
    ∙ count_bits_set_shift s j

pos_product : (s j : ℕ) → 0 < s → 0 < s * 2 ^ j
pos_product s zero p = omega arith
pos_product s (suc j) p = omega (arith, pos_product s j p, double_power s j)

pub lowest_bit_set_shift : (s j : ℕ) → 0 < s → lowest_bit_set (s * 2 ^ j) ≡ lowest_bit_set s + j
lowest_bit_set_shift s zero p = ap lowest_bit_set (times_one s) ∙ omega arith
lowest_bit_set_shift s (suc j) p =
    ap lowest_bit_set (double_power s j)
    ∙ lowest_bit_set_even (s * 2 ^ j) (pos_product s j p)
    ∙ omega (arith, lowest_bit_set_shift s j p)

parity : (n : ℕ) → (n ≡ 2 * (n / 2)) ⊎ (n ≡ 2 * (n / 2) + 1)
parity n = omega arith

pub lowest_bit_set_pos : (n : ℕ) → 0 < n → 0 < lowest_bit_set n
lowest_bit_set_pos n p = elim (parity n) [
  | inl even ↦ omega (arith, ap lowest_bit_set even, lowest_bit_set_even (n / 2) (omega arith))
  | inr odd ↦ omega (arith, ap lowest_bit_set odd, lowest_bit_set_odd (n / 2))
]

-- A positive number is a multiple of its lowest bit.
multiple_below : (b n : ℕ) → 0 < n → n ≤ b → (s : ℕ) × (n ≡ s * 2 ^ (lowest_bit_set n - 1))
multiple_below zero n p q = absurd (omega arith)
multiple_below (suc b) n p q = elim (parity n) [
  | inr odd ↦ (n, omega (arith, ap (λ (t : ℕ). n * 2 ^ t) (first odd)))
  | inl even ↦
      let (s, e) = multiple_below b (n / 2) (omega arith) (omega arith) in
      (
        s,
        omega (
          arith,
          even,
          e,
          double_power s (lowest_bit_set (n / 2) - 1),
          ap (λ (t : ℕ). s * 2 ^ t) (second even),
        ),
      )
]
  where
    first : n ≡ 2 * (n / 2) + 1 → lowest_bit_set n - 1 ≡ 0
    first odd = omega (arith, ap lowest_bit_set odd, lowest_bit_set_odd (n / 2))

    second : n ≡ 2 * (n / 2) → lowest_bit_set n - 1 ≡ suc (lowest_bit_set (n / 2) - 1)
    second even = omega (
      arith,
      ap lowest_bit_set even,
      lowest_bit_set_even (n / 2) (omega arith),
      lowest_bit_set_pos (n / 2) (omega arith),
    )

pub multiple_of_lowest : (n : ℕ) → 0 < n → (s : ℕ) × (n ≡ s * 2 ^ (lowest_bit_set n - 1))
multiple_of_lowest n p = multiple_below n n p (omega arith)
