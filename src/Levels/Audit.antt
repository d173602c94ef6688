-- ===== src/Levels/Audit.antt =====
-- The audit path of a node (RFC 6962 section 2.1.1) by levels, from the bottom up.
use sky_zadro_docs.Common.{
  ℕ, zero, suc, ◌+◌, ◌*◌, ◌/◌, ◌^◌, ◌≤◌, ◌<◌, ◌≡◌, refl, ap, arith, List, [], ◌∷◌, ◌++◌, length,
  append_assoc,
}
use sky_zadro_docs.Levels.Pairing.{
  pair, sibling, length-pair, pair-append, sibling-append_left, sibling-append_right,
}
use sky_zadro_docs.Levels.Root.{root, root-pair}
use native.Mathlib.Nat.{pow-suc}

module _ {ℓ} {A : Type ℓ} (join : A → A → A) (empty : A) where
  abbrev audit_in : ℕ → List A → ℕ → List A
  audit_in f [] i = []
  audit_in f (a ∷ []) i = []
  audit_in zero (a ∷ b ∷ r) i = []
  audit_in (suc f) (a ∷ b ∷ r) i =
      sibling join (a ∷ b ∷ r) i ++ audit_in f (pair join (a ∷ b ∷ r)) (i / 2)

  unfoldable pub audit : List A → ℕ → List A
  audit xs i = audit_in (length xs) xs i

  audit_in_fuel :
      (f g : ℕ) (xs : List A) (i : ℕ)
      → length xs ≤ suc f
      → length xs ≤ suc g
      → audit_in f xs i ≡ audit_in g xs i
  audit_in_fuel f g [] i p q = refl
  audit_in_fuel f g (a ∷ []) i p q = refl
  audit_in_fuel zero g (a ∷ b ∷ r) i p q = absurd (omega arith)
  audit_in_fuel (suc f) zero (a ∷ b ∷ r) i p q = absurd (omega arith)
  audit_in_fuel (suc f) (suc g) (a ∷ b ∷ r) i p q =
      ap (λ (t : List A). sibling join (a ∷ b ∷ r) i ++ t)
        (audit_in_fuel f g (pair join (a ∷ b ∷ r)) (i / 2) (omega (arith, length-pair join r))
          (omega (arith, length-pair join r)))

  pub audit-pair :
      (xs : List A) (i : ℕ) → audit xs i ≡ sibling join xs i ++ audit (pair join xs) (i / 2)
  unfolding audit
  audit-pair [] i = refl
  audit-pair (a ∷ []) i = refl
  audit-pair (a ∷ b ∷ r) i =
      ap (λ (t : List A). sibling join (a ∷ b ∷ r) i ++ t)
        (audit_in_fuel (suc (length r)) (length (pair join (a ∷ b ∷ r))) (pair join (a ∷ b ∷ r))
          (i / 2) (omega (arith, length-pair join r)) (omega arith))

  pub audit_single : (a : A) (i : ℕ) → audit (a ∷ []) i ≡ []
  unfolding audit
  audit_single a i = refl

  module _ (j : ℕ) (xs ys : List A) where
    abbrev pub IsSplit : Type 0
    IsSplit = (length xs ≡ 2 ^ j) × (0 < length ys) × (length ys ≤ 2 ^ j)

  pub IsSplit-pair :
      (j : ℕ) (xs ys : List A) → IsSplit (suc j) xs ys → IsSplit j (pair join xs) (pair join ys)
  IsSplit-pair j xs ys h = omega (arith, pow-suc 2 j, length-pair join xs, length-pair join ys)

  pub audit-append_left :
      (j : ℕ) (xs ys : List A) (i : ℕ)
      → IsSplit j xs ys
      → i < length xs
      → audit (xs ++ ys) i ≡ audit xs i ++ root join empty ys ∷ []
  audit-append_left zero [] ys i h lt = absurd (omega arith)
  audit-append_left zero (a ∷ b ∷ r) ys i h lt = absurd (omega arith)
  audit-append_left zero (a ∷ []) [] i h lt = absurd (omega arith)
  audit-append_left zero (a ∷ []) (b ∷ c ∷ r) i h lt = absurd (omega arith)
  audit-append_left zero (a ∷ []) (b ∷ []) zero h lt = unfold root audit in refl
  audit-append_left zero (a ∷ []) (b ∷ []) (suc i) h lt = absurd (omega arith)
  audit-append_left (suc j) xs ys i h lt = simp (
    audit-pair (xs ++ ys) i,
    audit-pair xs i,
    sibling-append_left join xs ys (2 ^ j) i (omega (arith, pow-suc 2 j)) lt,
    pair-append join xs ys (2 ^ j) (omega (arith, pow-suc 2 j)),
    audit-append_left j (pair join xs) (pair join ys) (i / 2) (IsSplit-pair j xs ys h)
        (omega (arith, pow-suc 2 j, length-pair join xs)),
    root-pair,
    append_assoc,
  )

  pub audit-append_right :
      (j : ℕ) (xs ys : List A) (i : ℕ)
      → IsSplit j xs ys
      → i < length ys
      → audit (xs ++ ys) (2 ^ j + i) ≡ audit ys i ++ root join empty xs ∷ []
  audit-append_right zero [] ys i h lt = absurd (omega arith)
  audit-append_right zero (a ∷ b ∷ r) ys i h lt = absurd (omega arith)
  audit-append_right zero (a ∷ []) [] i h lt = absurd (omega arith)
  audit-append_right zero (a ∷ []) (b ∷ c ∷ r) i h lt = absurd (omega arith)
  audit-append_right zero (a ∷ []) (b ∷ []) zero h lt = unfold root audit in refl
  audit-append_right zero (a ∷ []) (b ∷ []) (suc i) h lt = absurd (omega arith)
  audit-append_right (suc j) xs ys i h lt = simp (
    index,
    audit-pair (xs ++ ys) (2 * 2 ^ j + i),
    audit-pair ys i,
    half_index,
    sibling-append_right join xs ys (2 ^ j) i (omega (arith, pow-suc 2 j)),
    pair-append join xs ys (2 ^ j) (omega (arith, pow-suc 2 j)),
    audit-append_right j (pair join xs) (pair join ys) (i / 2) (IsSplit-pair j xs ys h)
        (omega (arith, length-pair join ys)),
    root-pair,
    append_assoc,
  )
    where
      index : 2 ^ suc j + i ≡ 2 * 2 ^ j + i
      index = omega (arith, pow-suc 2 j)

      half_index : (2 * 2 ^ j + i) / 2 ≡ 2 ^ j + i / 2
      half_index = omega arith
