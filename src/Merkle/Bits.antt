-- ===== src/Merkle/Bits.antt =====
-- python/ct/crypto/merkle.py: count_bits_set and lowest_bit_set.
use sky_zadro_docs.Common.{
  ℕ, zero, suc, ◌+◌, ◌-◌, ◌*◌, ◌/◌, ◌%◌, ◌≤◌, ◌<◌, bit_and, ◌≡◌, refl, sym, ap, ◌∙◌, arith, ◌⊎◌,
  inl, inr,
}
use sky_zadro_docs.Common.Bits.{clear_lowest_odd, clear_lowest_even, bit_and_le_right}

-- `while i: i &= i - 1; count += 1`. The fuel `f` bounds the rounds.
abbrev count_loop : ℕ → ℕ → ℕ → ℕ
count_loop zero i count = count
count_loop (suc f) i count = elim i [
  | zero ↦ count
  | suc n ↦ count_loop f (bit_and (suc n) (suc n - 1)) (count + 1)
]

-- Each round makes `i` smaller, so `i` rounds are enough.
unfoldable pub count_bits_set : ℕ → ℕ
count_bits_set i = count_loop i i 0

-- `while low: low >>= 1; low_bit += 1`
abbrev shift_loop : ℕ → ℕ → ℕ → ℕ
shift_loop zero low low_bit = low_bit
shift_loop (suc f) low low_bit = elim low [
  | zero ↦ low_bit
  | suc n ↦ shift_loop f (suc n / 2) (low_bit + 1)
]

-- `i & -i` on Python's integers. `-i` is the complement of `i - 1`, so what stays of `i` is what
-- `i & (i - 1)` takes away.
unfoldable pub and_minus : ℕ → ℕ
and_minus i = i - bit_and i (i - 1)

unfoldable pub lowest_bit_set : ℕ → ℕ
unfolding and_minus
lowest_bit_set i = shift_loop (and_minus i) (and_minus i) 0

count_loop_fuel : (f g i count : ℕ) → i ≤ f → i ≤ g → count_loop f i count ≡ count_loop g i count
count_loop_fuel zero zero i count p q = refl
count_loop_fuel zero (suc g) zero count p q = refl
count_loop_fuel zero (suc g) (suc n) count p q = absurd (omega arith)
count_loop_fuel (suc f) zero zero count p q = refl
count_loop_fuel (suc f) zero (suc n) count p q = absurd (omega arith)
count_loop_fuel (suc f) (suc g) zero count p q = refl
count_loop_fuel (suc f) (suc g) (suc n) count p q =
    count_loop_fuel f g (bit_and (suc n) (suc n - 1)) (count + 1)
      (omega (arith, bit_and_le_right (suc n) (suc n - 1)))
      (omega (arith, bit_and_le_right (suc n) (suc n - 1)))

count_loop_add : (f i count : ℕ) → count_loop f i count ≡ count + count_loop f i 0
count_loop_add zero i count = omega arith
count_loop_add (suc f) zero count = omega arith
count_loop_add (suc f) (suc n) count = omega (
  arith,
  count_loop_add f (bit_and (suc n) (suc n - 1)) (count + 1),
  count_loop_add f (bit_and (suc n) (suc n - 1)) (0 + 1),
)

-- A round of the loop, as an equation.
count_bits_set_step : (i : ℕ) → 0 < i → count_bits_set i ≡ suc (count_bits_set (bit_and i (i - 1)))
unfolding count_bits_set
count_bits_set_step zero h = absurd (omega arith)
count_bits_set_step (suc n) h = omega (
  arith,
  count_loop_add n (bit_and (suc n) (suc n - 1)) (0 + 1),
  count_loop_fuel n (bit_and (suc n) (suc n - 1)) (bit_and (suc n) (suc n - 1)) 0
      (omega (arith, bit_and_le_right (suc n) (suc n - 1))) (omega arith),
)

pub count_bits_set_odd : (i : ℕ) → count_bits_set (2 * i + 1) ≡ suc (count_bits_set (2 * i))
count_bits_set_odd i =
    count_bits_set_step (2 * i + 1) (omega arith)
    ∙ ap (λ (t : ℕ). suc (count_bits_set t)) (clear_lowest_odd i)

count_bits_set_even_below : (n i : ℕ) → i ≤ n → count_bits_set (2 * i) ≡ count_bits_set i
count_bits_set_even_below n zero h = refl
count_bits_set_even_below zero (suc i) h = absurd (omega arith)
count_bits_set_even_below (suc n) (suc i) h =
    count_bits_set_step (2 * suc i) (omega arith)
    ∙ ap (λ (t : ℕ). suc (count_bits_set t)) (clear_lowest_even (suc i) (omega arith))
    ∙ ap suc (
        count_bits_set_even_below n (bit_and (suc i) (suc i - 1))
          (omega (arith, bit_and_le_right (suc i) (suc i - 1))))
    ∙ sym (count_bits_set_step (suc i) (omega arith))

pub count_bits_set_even : (i : ℕ) → count_bits_set (2 * i) ≡ count_bits_set i
count_bits_set_even i = count_bits_set_even_below i i (omega arith)

pub count_bits_set_zero : count_bits_set 0 ≡ 0
unfolding count_bits_set
count_bits_set_zero = refl

parity : (i : ℕ) → (i ≡ 2 * (i / 2)) ⊎ (i ≡ 2 * (i / 2) + 1)
parity i = omega arith

-- The number of ones of `i` from the number of ones of its half.
pub count_bits_set_half : (i : ℕ) → count_bits_set i ≡ count_bits_set (i / 2) + i % 2
count_bits_set_half i = elim (parity i) [
  | inl even ↦ omega (arith, ap count_bits_set even, count_bits_set_even (i / 2))
  | inr odd ↦
      omega (arith, ap count_bits_set odd, count_bits_set_odd (i / 2), count_bits_set_even (i / 2))
]

shift_loop_fuel : (f g n c : ℕ) → n ≤ f → n ≤ g → shift_loop f n c ≡ shift_loop g n c
shift_loop_fuel zero zero n c p q = refl
shift_loop_fuel zero (suc g) zero c p q = refl
shift_loop_fuel zero (suc g) (suc n) c p q = absurd (omega arith)
shift_loop_fuel (suc f) zero zero c p q = refl
shift_loop_fuel (suc f) zero (suc n) c p q = absurd (omega arith)
shift_loop_fuel (suc f) (suc g) zero c p q = refl
shift_loop_fuel (suc f) (suc g) (suc n) c p q =
    shift_loop_fuel f g (suc n / 2) (c + 1) (omega arith) (omega arith)

shift_loop_add : (f n c : ℕ) → shift_loop f n c ≡ c + shift_loop f n 0
shift_loop_add zero n c = omega arith
shift_loop_add (suc f) zero c = omega arith
shift_loop_add (suc f) (suc n) c =
    omega (arith, shift_loop_add f (suc n / 2) (c + 1), shift_loop_add f (suc n / 2) (0 + 1))

shift_double : (n : ℕ) → 0 < n → shift_loop (2 * n) (2 * n) 0 ≡ suc (shift_loop n n 0)
shift_double n h = omega (
  arith,
  unroll (2 * n) (omega arith),
  shift_loop_add (2 * n - 1) (2 * n / 2) 1,
  shift_loop_fuel (2 * n - 1) n (2 * n / 2) 0 (omega arith) (omega arith),
  ap (λ (t : ℕ). shift_loop n t 0) half,
)
  where
    unroll : (m : ℕ) → 0 < m → shift_loop m m 0 ≡ shift_loop (m - 1) (m / 2) 1
    unroll zero p = absurd (omega arith)
    unroll (suc m) p = λ i. shift_loop (pred_suc i) (suc m / 2) 1
      where
        pred_suc : m ≡ suc m - 1
        pred_suc = omega arith

    half : 2 * n / 2 ≡ n
    half = omega arith

pub lowest_bit_set_odd : (i : ℕ) → lowest_bit_set (2 * i + 1) ≡ 1
unfolding lowest_bit_set
lowest_bit_set_odd i = ap (λ (t : ℕ). shift_loop t t 0) one
  where
    one : and_minus (2 * i + 1) ≡ 1
    one = omega (arith, clear_lowest_odd i)

pub lowest_bit_set_even : (i : ℕ) → 0 < i → lowest_bit_set (2 * i) ≡ suc (lowest_bit_set i)
unfolding lowest_bit_set
lowest_bit_set_even i h =
    ap (λ (t : ℕ). shift_loop t t 0) double
    ∙ shift_double (and_minus i) (omega (arith, bit_and_le_right i (i - 1)))
  where
    double : and_minus (2 * i) ≡ 2 * and_minus i
    double = omega (arith, clear_lowest_even i h)

pub lowest_bit_set_zero : lowest_bit_set 0 ≡ 0
unfolding lowest_bit_set
lowest_bit_set_zero = refl
