-- ===== src/Merkle/Compact/Lift.antt =====
-- A list of nodes seen from some levels above: the peaks of a multiple of a power of two.
use sky_zadro_docs.Common.{
  ℕ, zero, suc, ◌*◌, ◌^◌, List, [], ◌∷◌, ◌++◌, length, ◌≡◌, refl, sym, ap, ◌∙◌, arith,
}
use sky_zadro_docs.Levels.Pairing.{pair, length-pair, pair-append}
use sky_zadro_docs.Levels.Root.{root, root-pair, root_single}
use sky_zadro_docs.Levels.Peaks.{peaks, joined-eq-pair}
use sky_zadro_docs.Levels.Push.{peaks_even}
use native.Mathlib.Nat.{pow-suc}

double_power : (s j : ℕ) → s * 2 ^ suc j ≡ 2 * (s * 2 ^ j)
double_power s j = omega (arith, ap (λ (t : ℕ). s * t) (pow-suc 2 j))

module _ {ℓ} {A : Type ℓ} (join : A → A → A) (empty : A) where
  abbrev pub lift : ℕ → List A → List A
  lift zero xs = xs
  lift (suc j) xs = lift j (pair join xs)

  pub length-lift : (j s : ℕ) (xs : List A) → length xs ≡ s * 2 ^ j → length (lift j xs) ≡ s
  length-lift zero s xs e = omega arith
  length-lift (suc j) s xs e =
      length-lift j s (pair join xs) (omega (arith, length-pair join xs, double_power s j))

  pub lift-append :
      (j s : ℕ) (xs ys : List A)
      → length xs ≡ s * 2 ^ j
      → lift j (xs ++ ys) ≡ lift j xs ++ lift j ys
  lift-append zero s xs ys e = refl
  lift-append (suc j) s xs ys e =
      ap (lift j) (pair-append join xs ys (s * 2 ^ j) (omega (arith, double_power s j)))
      ∙ lift-append j s (pair join xs) (pair join ys)
          (omega (arith, length-pair join xs, double_power s j))

  pub peaks-lift :
      (j s : ℕ) (xs : List A)
      → length xs ≡ s * 2 ^ j
      → peaks join empty (lift j xs) ≡ peaks join empty xs
  peaks-lift zero s xs e = refl
  peaks-lift (suc j) s xs e =
      peaks-lift j s (pair join xs) (omega (arith, length-pair join xs, double_power s j))
      ∙ ap (peaks join empty)
          (sym (joined-eq-pair join empty xs (s * 2 ^ j) (omega (arith, double_power s j))))
      ∙ sym (peaks_even join empty (s * 2 ^ j) xs (omega (arith, double_power s j)))

  root-lift : (j : ℕ) (xs : List A) → root join empty (lift j xs) ≡ root join empty xs
  root-lift zero xs = refl
  root-lift (suc j) xs = root-lift j (pair join xs) ∙ root-pair join empty xs

  one_node : (xs : List A) → length xs ≡ 1 → xs ≡ root join empty xs ∷ []
  one_node [] e = absurd (omega arith)
  one_node (a ∷ b ∷ r) e = absurd (omega arith)
  one_node (a ∷ []) e = ap (λ (t : A). t ∷ []) (sym (root_single join empty a))

  -- A full tree is one node, from above.
  pub lift_full : (j : ℕ) (xs : List A) → length xs ≡ 2 ^ j → lift j xs ≡ root join empty xs ∷ []
  lift_full j xs e =
      one_node (lift j xs) (length-lift j 1 xs (omega arith))
      ∙ ap (λ (t : A). t ∷ []) (root-lift j xs)
