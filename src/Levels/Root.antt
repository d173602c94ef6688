-- ===== src/Levels/Root.antt =====
-- The root of a Merkle tree, by levels, and the recursion of RFC 6962 section 2.1 that it meets.
use sky_zadro_docs.Common.{
  ℕ, zero, suc, ◌^◌, ◌≤◌, ◌<◌, ◌≡◌, refl, sym, ap, ◌∙◌, arith, List, [], ◌∷◌, ◌++◌, length,
}
use sky_zadro_docs.Levels.Pairing.{pair, length-pair, pair-append}
use native.Mathlib.Nat.{pow-suc}

module _ {ℓ} {A : Type ℓ} (join : A → A → A) (empty : A) where
  -- Level after level, for at most `f` levels above a list of nodes.
  abbrev root_in : ℕ → List A → A
  root_in f [] = empty
  root_in f (a ∷ []) = a
  root_in zero (a ∷ b ∷ r) = empty
  root_in (suc f) (a ∷ b ∷ r) = root_in f (pair join (a ∷ b ∷ r))

  unfoldable pub root : List A → A
  root xs = root_in (length xs) xs

  root_in_fuel :
      (f g : ℕ) (xs : List A) → length xs ≤ suc f → length xs ≤ suc g → root_in f xs ≡ root_in g xs
  root_in_fuel f g [] p q = refl
  root_in_fuel f g (a ∷ []) p q = refl
  root_in_fuel zero g (a ∷ b ∷ r) p q = absurd (omega arith)
  root_in_fuel (suc f) zero (a ∷ b ∷ r) p q = absurd (omega arith)
  root_in_fuel (suc f) (suc g) (a ∷ b ∷ r) p q =
      root_in_fuel f g (pair join (a ∷ b ∷ r)) (omega (arith, length-pair join r))
        (omega (arith, length-pair join r))

  pub root-pair : (xs : List A) → root (pair join xs) ≡ root xs
  unfolding root
  root-pair [] = refl
  root-pair (a ∷ []) = refl
  root-pair (a ∷ b ∷ r) =
      root_in_fuel (length (pair join (a ∷ b ∷ r))) (suc (length r)) (pair join (a ∷ b ∷ r))
        (omega arith) (omega (arith, length-pair join r))

  pub root_single : (a : A) → root (a ∷ []) ≡ a
  unfolding root
  root_single a = refl

  pub root_empty : root [] ≡ empty
  unfolding root
  root_empty = refl

  -- Whole tree of 2 ^ j nodes on the left, at most as many on the right.
  pub root-append :
      (j : ℕ) (xs ys : List A)
      → length xs ≡ 2 ^ j
      → 0 < length ys
      → length ys ≤ 2 ^ j
      → root (xs ++ ys) ≡ join (root xs) (root ys)
  root-append zero [] ys h p q = absurd (omega arith)
  root-append zero (a ∷ b ∷ r) ys h p q = absurd (omega arith)
  root-append zero (a ∷ []) [] h p q = absurd (omega arith)
  root-append zero (a ∷ []) (b ∷ c ∷ r) h p q = absurd (omega arith)
  root-append zero (a ∷ []) (b ∷ []) h p q = unfold root in refl
  root-append (suc j) xs ys h p q =
      sym (root-pair (xs ++ ys))
      ∙ ap root (pair-append join xs ys (2 ^ j) (omega (arith, pow-suc 2 j)))
      ∙ root-append j (pair join xs) (pair join ys)
          (omega (arith, pow-suc 2 j, length-pair join xs)) (omega (arith, length-pair join ys))
          (omega (arith, pow-suc 2 j, length-pair join ys))
      ∙ (λ i. join (root-pair xs i) (root-pair ys i))
