-- ===== src/InMemory/Split.antt =====
-- Where the proofs of python/ct/crypto/in_memory_merkle_tree.py split a list of leaves.
use sky_zadro_docs.Common.{
  ℕ, zero, suc, ◌-◌, ◌*◌, ◌^◌, ◌≤◌, ◌<◌, if◌then◌else◌, List, ◌++◌, length, take, drop,
  take-append-drop, length-map, ◌≡◌, sym, ap, ◌∙◌, arith, inl, inr, Bool-cases, true,
}
use sky_zadro_docs.Levels.Split.{split_exp, split_unique, split_bounds, split_parts, pow_pred}
use sky_zadro_docs.Levels.Audit.{IsSplit}
use sky_zadro_docs.Merkle.Hasher.{Bytes, TreeHasher, hash_empty, hash_leaf, hash_children}
use sky_zadro_docs.Merkle.Full.{nodes}
use sky_zadro_docs.InMemory.Log.{MathLog, IsExact}
use mathlib.Core.List.{map-append}

exponent_pos : (p n : ℕ) → 2 ≤ n → n ≡ 2 ^ p → 0 < p
exponent_pos zero n h e = absurd (omega arith)
exponent_pos (suc p) n h e = omega arith

-- With an exact logarithm _down_to_power_of_two returns the largest power of two below `n`.
pub split_of_exact :
    (m : MathLog) (n : ℕ)
    → 2 ≤ n
    → IsExact m n
    → 2 ^ (if m.equals (m.int (m.log n)) (m.log n) then m.int (m.log n) - 1 else m.int (m.log n))
      ≡ 2 ^ split_exp n
split_of_exact m n h exact = elim (Bool-cases (m.equals p (m.log n))) [
  | inl power ↦ rw power (
      ap (λ (t : ℕ). 2 ^ t)
        (split_unique n (p - 1) (split_exp n) (omega (arith, halved power))
          (omega (arith, halved power)) bounds.0 bounds.1))
  | inr other ↦ rw other (
      ap (λ (t : ℕ). 2 ^ t)
        (split_unique n p (split_exp n) (exact.no_power other) (omega (arith, exact.above)) bounds.0
          bounds.1))
]
  where
    p : ℕ
    p = m.int (m.log n)

    bounds : (2 ^ split_exp n < n) × (n ≤ 2 * 2 ^ split_exp n)
    bounds = split_bounds n h

    halved :
        m.equals p (m.log n) ≡ true → (n ≡ 2 ^ p) × (2 ^ p ≡ 2 * 2 ^ (p - 1)) × (0 < 2 ^ (p - 1))
    halved e =
        let q = exact.power e in let r = pow_pred p (exponent_pos p n h q) in (q, r, omega arith)

module _ (h : TreeHasher) (leaves : List Bytes) where
  abbrev pub cut : ℕ
  cut = 2 ^ split_exp (length leaves)

  pub split_whole : nodes h (take cut leaves) ++ nodes h (drop cut leaves) ≡ nodes h leaves
  split_whole =
      sym (map-append (hash_leaf h) (take cut leaves) (drop cut leaves))
      ∙ ap (nodes h) (take-append-drop cut leaves)

  pub IsSplit-nodes :
      1 < length leaves
      → IsSplit
          (hash_children h)
          (hash_empty h)
          (split_exp (length leaves))
          (nodes h (take cut leaves))
          (nodes h (drop cut leaves))
  IsSplit-nodes p = omega (
    arith,
    split_parts leaves p,
    length-map (take cut leaves) (hash_leaf h),
    length-map (drop cut leaves) (hash_leaf h),
  )
