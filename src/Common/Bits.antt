-- ===== src/Common/Bits.antt =====
-- Python's `i & (i - 1)` clears the lowest one of `i`: what that says for an odd and an even number.
use Prim.Native.Nat.{
  ℕ, zero, suc, ◌+◌, ◌-◌, ◌*◌, ◌/◌, ◌%◌, ◌≤◌, ◌<◌, min, bit_and, digits, bit_and-bitwise,
}
use mathlib.Core.Path.{◌≡◌, refl, sym, ◌∙◌}
use native.Mathlib.Omega.{arith}

-- What `&` stands for: the digits of both numbers, as many of them as `rounds` allows.
abbrev common_digits : ℕ → ℕ → ℕ → ℕ
common_digits rounds x y = digits (λ _. zero) min rounds x y

-- A number `x` has no digits beyond `x` rounds.
enough_rounds :
    (bound rounds x y : ℕ)
    → rounds ≤ bound
    → x ≤ rounds
    → common_digits rounds x y ≡ common_digits x x y
enough_rounds bound zero zero y p q = refl
enough_rounds bound (suc rounds) zero y p q = refl
enough_rounds bound zero (suc x) y p q = absurd (omega arith)
enough_rounds zero (suc rounds) (suc x) y p q = absurd (omega arith)
enough_rounds (suc bound) (suc rounds) (suc x) y p q =
    let half : ℕ = suc x / 2 in
    let fewer : common_digits rounds half (y / 2) ≡ common_digits half half (y / 2) =
      enough_rounds bound rounds half (y / 2) (omega arith) (omega arith) in
    let own : common_digits x half (y / 2) ≡ common_digits half half (y / 2) =
      enough_rounds bound x half (y / 2) (omega arith) (omega arith) in
    omega (arith, fewer, own)

no_digits : (y : ℕ) → bit_and 0 y ≡ 0
no_digits y = bit_and-bitwise 0 y

lowest_digit : (x y : ℕ) → bit_and x y ≡ min (x % 2) (y % 2) + 2 * bit_and (x / 2) (y / 2)
lowest_digit zero y = omega (arith, no_digits y, no_digits (y / 2))
lowest_digit (suc x) y =
    let half : ℕ = suc x / 2 in
    let rest : common_digits x half (y / 2) ≡ bit_and half (y / 2) =
      enough_rounds x x half (y / 2) (omega arith) (omega arith)
      ∙ sym (bit_and-bitwise half (y / 2)) in
    omega (arith, rest, bit_and-bitwise (suc x) y)

-- Both by induction on a bound of the first number, which halves.
own_digits : (bound x : ℕ) → x ≤ bound → bit_and x x ≡ x
own_digits bound zero p = refl
own_digits zero (suc x) p = absurd (omega arith)
own_digits (suc bound) (suc x) p =
    omega (arith, own_digits bound (suc x / 2) (omega arith), lowest_digit (suc x) (suc x))

digits_within : (bound x y : ℕ) → x ≤ bound → bit_and x y ≤ y
digits_within bound zero y p = omega (arith, no_digits y)
digits_within zero (suc x) y p = absurd (omega arith)
digits_within (suc bound) (suc x) y p =
    omega (arith, digits_within bound (suc x / 2) (y / 2) (omega arith), lowest_digit (suc x) y)

pub bit_and_le_right : (x y : ℕ) → bit_and x y ≤ y
bit_and_le_right x y = digits_within x x y (omega arith)

same_halves : (a b x y : ℕ) → a / 2 ≡ x → b / 2 ≡ y → bit_and (a / 2) (b / 2) ≡ bit_and x y
same_halves a b x y p q = λ k. bit_and (p k) (q k)

pub clear_lowest_odd : (i : ℕ) → bit_and (2 * i + 1) (2 * i + 1 - 1) ≡ 2 * i
clear_lowest_odd i = omega (
  arith,
  lowest_digit (2 * i + 1) (2 * i + 1 - 1),
  same_halves (2 * i + 1) (2 * i + 1 - 1) i i (omega arith) (omega arith),
  own_digits i i (omega arith),
)

pub clear_lowest_even : (i : ℕ) → 0 < i → bit_and (2 * i) (2 * i - 1) ≡ 2 * bit_and i (i - 1)
clear_lowest_even i h = omega (
  arith,
  lowest_digit (2 * i) (2 * i - 1),
  same_halves (2 * i) (2 * i - 1) i (i - 1) (omega arith) (omega arith),
)
