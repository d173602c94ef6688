-- ===== src/Levels/Split.antt =====
-- Where RFC 6962 splits a list: at the largest power of two below its length.
use sky_zadro_docs.Common.{
  ℕ, zero, suc, ◌+◌, ◌-◌, ◌*◌, ◌/◌, ◌^◌, ◌≤◌, ◌<◌, ◌≡◌, refl, sym, ap, arith, List, [], ◌∷◌, ◌++◌,
  length, take, drop, take-append-drop, length-take, length-drop,
}
use mathlib.Core.Path.{subst}
use native.Mathlib.Nat.{pow-suc, one-le-pow}

-- Python's `n.bit_length()`: the number of halvings down to zero. `f` bounds them.
abbrev bits_in : ℕ → ℕ → ℕ
bits_in zero n = 0
bits_in (suc f) n = elim n [ zero ↦ 0 | suc m ↦ suc (bits_in f (suc m / 2)) ]

unfoldable pub bit_length : ℕ → ℕ
bit_length n = bits_in n n

bits_in_zero : (f : ℕ) → bits_in f 0 ≡ 0
bits_in_zero zero = refl
bits_in_zero (suc f) = refl

pub pow_pred : (b : ℕ) → 0 < b → 2 ^ b ≡ 2 * 2 ^ (b - 1)
pow_pred zero h = absurd (omega arith)
pow_pred (suc b) h = omega (arith, pow-suc 2 b, ap (λ (t : ℕ). 2 ^ t) pred_suc)
  where
    pred_suc : suc b - 1 ≡ b
    pred_suc = omega arith

-- `b` bits are what a positive number `n` has.
abbrev HasBits : ℕ → ℕ → Type 0
HasBits b n = (0 < b) × (2 ^ (b - 1) ≤ n) × (n < 2 ^ b)

HasBits-half : (b n : ℕ) → HasBits b (n / 2) → HasBits (suc b) n
HasBits-half b n h = omega (arith, pow_pred b, pow-suc 2 b, ap (λ (t : ℕ). 2 ^ t) pred_suc)
  where
    pred_suc : suc b - 1 ≡ b
    pred_suc = omega arith

bits_in-HasBits : (f n : ℕ) → 0 < n → n ≤ f → HasBits (bits_in f n) n
bits_in-HasBits zero n h p = absurd (omega arith)
bits_in-HasBits (suc f) zero h p = absurd (omega arith)
bits_in-HasBits (suc f) (suc zero) h p =
    subst (λ (b : ℕ). HasBits (suc b) 1) (sym (bits_in_zero f)) (omega arith)
bits_in-HasBits (suc f) (suc (suc m)) h p =
    HasBits-half (bits_in f (suc (suc m) / 2)) (suc (suc m))
      (bits_in-HasBits f (suc (suc m) / 2) (omega arith) (omega arith))

pub bit_length-HasBits : (n : ℕ) → 0 < n → HasBits (bit_length n) n
unfolding bit_length
bit_length-HasBits n h = bits_in-HasBits n n h (omega arith)

-- The largest power of two below `n`.
unfoldable pub split_exp : ℕ → ℕ
split_exp n = bit_length (n - 1) - 1

pub split_bounds : (n : ℕ) → 1 < n → (2 ^ split_exp n < n) × (n ≤ 2 * 2 ^ split_exp n)
unfolding split_exp
split_bounds n h =
    omega (arith, bit_length-HasBits (n - 1) (omega arith), pow_pred (bit_length (n - 1)))

pow_lt : (i j : ℕ) → i < j → 2 * 2 ^ i ≤ 2 ^ j
pow_lt i zero h = absurd (omega arith)
pow_lt zero (suc j) h = omega (arith, pow-suc 2 j, one-le-pow j 2)
pow_lt (suc i) (suc j) h = omega (arith, pow-suc 2 i, pow-suc 2 j, pow_lt i j)

-- Only one power of two splits `n`.
pub split_unique : (n i j : ℕ) → 2 ^ i < n → n ≤ 2 * 2 ^ i → 2 ^ j < n → n ≤ 2 * 2 ^ j → i ≡ j
split_unique n i j a b c d = grind (arith, pow_lt i j, pow_lt j i)

module _ {ℓ} {A : Type ℓ} where
  -- The two parts of a list, where it is split.
  abbrev pub SplitParts : List A → Type 0
  SplitParts xs =
      (length (take (2 ^ split_exp (length xs)) xs) ≡ 2 ^ split_exp (length xs))
      × (length (drop (2 ^ split_exp (length xs)) xs) + 2 ^ split_exp (length xs) ≡ length xs)
      × (0 < length (drop (2 ^ split_exp (length xs)) xs))
      × (length (drop (2 ^ split_exp (length xs)) xs) ≤ 2 ^ split_exp (length xs))
      × (0 < 2 ^ split_exp (length xs))

  pub split_parts : (xs : List A) → 1 < length xs → SplitParts xs
  split_parts xs h = omega (
    arith,
    length-take (2 ^ split_exp (length xs)) xs,
    length-drop (2 ^ split_exp (length xs)) xs,
    split_bounds (length xs) h,
    one-le-pow (split_exp (length xs)) 2 (omega arith),
  )

-- Induction along the recursion of RFC 6962: single nodes, and splits with a full tree on the left.
module _ {ℓ κ} {A : Type ℓ} (P : List A → Type κ) where
  abbrev pub SplitStep : Type (ℓ ⊔ κ)
  SplitStep =
      (j : ℕ) (xs ys : List A)
      → length xs ≡ 2 ^ j
      → 0 < length ys
      → length ys ≤ 2 ^ j
      → P xs
      → P ys
      → P (xs ++ ys)

  tree_induction_in :
      ((a : A) → P (a ∷ []))
      → SplitStep
      → (f : ℕ) (xs : List A) → 0 < length xs
      → length xs ≤ f
      → P xs
  tree_induction_in single step f [] h p = absurd (omega arith)
  tree_induction_in single step f (a ∷ []) h p = single a
  tree_induction_in single step zero (a ∷ b ∷ r) h p = absurd (omega arith)
  tree_induction_in single step (suc f) (a ∷ b ∷ r) h p =
      let xs : List A = a ∷ b ∷ r in
      let j : ℕ = split_exp (length xs) in
      let parts : SplitParts xs = split_parts xs (omega arith) in
      subst P (take-append-drop (2 ^ j) xs) (
        step j (take (2 ^ j) xs) (drop (2 ^ j) xs) (omega (arith, parts)) (omega (arith, parts))
          (omega (arith, parts))
          (tree_induction_in single step f (take (2 ^ j) xs) (omega (arith, parts))
            (omega (arith, parts)))
          (tree_induction_in single step f (drop (2 ^ j) xs) (omega (arith, parts))
            (omega (arith, parts))))

  pub tree_induction : ((a : A) → P (a ∷ [])) → SplitStep → (xs : List A) → 0 < length xs → P xs
  tree_induction single step xs h = tree_induction_in single step (length xs) xs h (omega arith)
