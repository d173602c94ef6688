-- ===== src/Levels/Peaks.antt =====
-- The roots of the full subtrees (of 2 ^ k nodes) that a tree consists of, in descending size.
use sky_zadro_docs.Common.{
  ℕ, zero, suc, ◌*◌, ◌/◌, ◌%◌, ◌^◌, ◌≤◌, ◌<◌, ◌≡◌, refl, ap, arith, List, [], ◌∷◌, ◌++◌, length,
  append_assoc, append-nil,
}
use sky_zadro_docs.Levels.Pairing.{pair, length-pair}
use sky_zadro_docs.Levels.Root.{root, root-pair}
use native.Mathlib.Nat.{pow-suc}

module _ {ℓ} {A : Type ℓ} (join : A → A → A) (empty : A) where
  -- The full pairs of a level, and the node that is left over.
  abbrev pub joined : List A → List A
  joined [] = []
  joined (a ∷ []) = []
  joined (a ∷ b ∷ r) = join a b ∷ joined r

  abbrev pub odd_one : List A → List A
  odd_one [] = []
  odd_one (a ∷ []) = a ∷ []
  odd_one (a ∷ b ∷ r) = odd_one r

  abbrev peaks_in : ℕ → List A → List A
  peaks_in f [] = []
  peaks_in f (a ∷ []) = a ∷ []
  peaks_in zero (a ∷ b ∷ r) = []
  peaks_in (suc f) (a ∷ b ∷ r) = peaks_in f (joined (a ∷ b ∷ r)) ++ odd_one (a ∷ b ∷ r)

  unfoldable pub peaks : List A → List A
  peaks xs = peaks_in (length xs) xs

  pub length-joined : (xs : List A) → length (joined xs) ≡ length xs / 2
  length-joined [] = omega arith
  length-joined (a ∷ []) = omega arith
  length-joined (a ∷ b ∷ r) = omega (arith, length-joined r)

  pub length-odd_one : (xs : List A) → length (odd_one xs) ≡ length xs % 2
  length-odd_one [] = omega arith
  length-odd_one (a ∷ []) = omega arith
  length-odd_one (a ∷ b ∷ r) = omega (arith, length-odd_one r)

  peaks_in_fuel :
      (f g : ℕ) (xs : List A)
      → length xs ≤ suc f
      → length xs ≤ suc g
      → peaks_in f xs ≡ peaks_in g xs
  peaks_in_fuel f g [] p q = refl
  peaks_in_fuel f g (a ∷ []) p q = refl
  peaks_in_fuel zero g (a ∷ b ∷ r) p q = absurd (omega arith)
  peaks_in_fuel (suc f) zero (a ∷ b ∷ r) p q = absurd (omega arith)
  peaks_in_fuel (suc f) (suc g) (a ∷ b ∷ r) p q =
      ap (λ (t : List A). t ++ odd_one (a ∷ b ∷ r))
        (peaks_in_fuel f g (joined (a ∷ b ∷ r)) (omega (arith, length-joined r))
          (omega (arith, length-joined r)))

  pub peaks_step : (xs : List A) → peaks xs ≡ peaks (joined xs) ++ odd_one xs
  unfolding peaks
  peaks_step [] = refl
  peaks_step (a ∷ []) = refl
  peaks_step (a ∷ b ∷ r) =
      ap (λ (t : List A). t ++ odd_one (a ∷ b ∷ r))
        (peaks_in_fuel (suc (length r)) (length (joined (a ∷ b ∷ r))) (joined (a ∷ b ∷ r))
          (omega (arith, length-joined r)) (omega arith))

  pub joined-eq-pair : (xs : List A) (m : ℕ) → length xs ≡ 2 * m → joined xs ≡ pair join xs
  joined-eq-pair [] m h = refl
  joined-eq-pair (a ∷ []) m h = absurd (omega arith)
  joined-eq-pair (a ∷ b ∷ r) zero h = absurd (omega arith)
  joined-eq-pair (a ∷ b ∷ r) (suc m) h =
      ap (λ (t : List A). join a b ∷ t) (joined-eq-pair r m (omega arith))

  pub odd_one_even : (xs : List A) (m : ℕ) → length xs ≡ 2 * m → odd_one xs ≡ []
  odd_one_even [] m h = refl
  odd_one_even (a ∷ []) m h = absurd (omega arith)
  odd_one_even (a ∷ b ∷ r) zero h = absurd (omega arith)
  odd_one_even (a ∷ b ∷ r) (suc m) h = odd_one_even r m (omega arith)

  pub joined-append :
      (xs ys : List A) (m : ℕ) → length xs ≡ 2 * m → joined (xs ++ ys) ≡ joined xs ++ joined ys
  joined-append [] ys m h = refl
  joined-append (a ∷ []) ys m h = absurd (omega arith)
  joined-append (a ∷ b ∷ r) ys zero h = absurd (omega arith)
  joined-append (a ∷ b ∷ r) ys (suc m) h =
      ap (λ (t : List A). join a b ∷ t) (joined-append r ys m (omega arith))

  pub odd_one-append :
      (xs ys : List A) (m : ℕ) → length xs ≡ 2 * m → odd_one (xs ++ ys) ≡ odd_one ys
  odd_one-append [] ys m h = refl
  odd_one-append (a ∷ []) ys m h = absurd (omega arith)
  odd_one-append (a ∷ b ∷ r) ys zero h = absurd (omega arith)
  odd_one-append (a ∷ b ∷ r) ys (suc m) h = odd_one-append r ys m (omega arith)

  pub peaks_full : (j : ℕ) (xs : List A) → length xs ≡ 2 ^ j → peaks xs ≡ root join empty xs ∷ []
  peaks_full zero [] h = absurd (omega arith)
  peaks_full zero (a ∷ b ∷ r) h = absurd (omega arith)
  peaks_full zero (a ∷ []) h = unfold peaks root in refl
  peaks_full (suc j) xs h = simp (
    peaks_step xs,
    odd_one_even xs (2 ^ j) (omega (arith, pow-suc 2 j)),
    joined-eq-pair xs (2 ^ j) (omega (arith, pow-suc 2 j)),
    peaks_full j (pair join xs) (omega (arith, pow-suc 2 j, length-pair join xs)),
    append-nil,
    root-pair,
  )

  -- Peaks of trees that end on a multiple of 2 ^ j, followed by fewer than 2 ^ j nodes.
  pub peaks-append :
      (j m : ℕ) (xs ys : List A)
      → length xs ≡ m * 2 ^ j
      → length ys < 2 ^ j
      → peaks (xs ++ ys) ≡ peaks xs ++ peaks ys
  peaks-append zero m xs (b ∷ r) h lt = absurd (omega arith)
  peaks-append zero m xs [] h lt = unfold peaks in simp append-nil
  peaks-append (suc j) m xs ys h lt = simp (
    peaks_step (xs ++ ys),
    peaks_step xs,
    peaks_step ys,
    joined-append xs ys (m * 2 ^ j) even,
    odd_one-append xs ys (m * 2 ^ j) even,
    odd_one_even xs (m * 2 ^ j) even,
    append-nil,
    peaks-append j m (joined xs) (joined ys) (omega (arith, even, length-joined xs))
        (omega (arith, pow-suc 2 j, length-joined ys)),
    append_assoc,
  )
    where
      even : length xs ≡ 2 * (m * 2 ^ j)
      even = omega (arith, h, ap (λ (t : ℕ). m * t) (pow-suc 2 j))
