-- ===== src/Levels/Fold.antt =====
-- The peaks, folded from the right, give the root; one more node is a carry; their number.
use sky_zadro_docs.Common.{
  ℕ, suc, ◌^◌, ◌≤◌, ◌<◌, ◌≡◌, refl, ap, arith, List, [], ◌∷◌, ◌++◌, length, length-append, ◌⊎◌, inl,
  inr,
}
use sky_zadro_docs.Levels.Root.{root, root-append}
use sky_zadro_docs.Levels.Peaks.{peaks, peaks_full, peaks-append}
use sky_zadro_docs.Levels.Split.{tree_induction}
use native.Mathlib.Nat.{pow-suc}

le_cases : (a b : ℕ) → a ≤ b → (a < b) ⊎ (a ≡ b)
le_cases a b h = omega arith

module _ {ℓ} {A : Type ℓ} (join : A → A → A) (empty : A) where
  -- Folded from the right; the empty list has no fold in the code.
  abbrev pub fold_right : List A → A
  fold_right [] = empty
  fold_right (a ∷ []) = a
  fold_right (a ∷ b ∷ r) = join a (fold_right (b ∷ r))

  fold_right-cons :
      (a : A) (xs : List A) → 0 < length xs → fold_right (a ∷ xs) ≡ join a (fold_right xs)
  fold_right-cons a [] h = absurd (omega arith)
  fold_right-cons a (b ∷ r) h = refl

  -- A full tree beside a full tree of the same size is full.
  peaks_double :
      (j : ℕ) (xs ys : List A)
      → length xs ≡ 2 ^ j
      → length ys ≡ 2 ^ j
      → peaks join empty (xs ++ ys) ≡ root join empty (xs ++ ys) ∷ []
  peaks_double j xs ys h p =
      peaks_full join empty (suc j) (xs ++ ys) (omega (arith, length-append xs ys, pow-suc 2 j))

  pub length-peaks_pos : (xs : List A) → 0 < length xs → 0 < length (peaks join empty xs)
  length-peaks_pos =
      tree_induction (λ xs. 0 < length (peaks join empty xs))
        (λ a. omega (arith, ap length (peaks_full join empty 0 (a ∷ []) refl)))
        (λ j xs ys h p q ihx ihy. elim (le_cases (length ys) (2 ^ j) q) [
          | inl lt ↦ omega (
            arith,
            ihx,
            ihy,
            ap length (peaks-append join empty j 1 xs ys (omega arith) lt),
            length-append (peaks join empty xs) (peaks join empty ys),
          )
          | inr eq ↦ omega (arith, ap length (peaks_double j xs ys h eq))
        ])

  fold_split :
      (j : ℕ) (xs ys : List A)
      → length xs ≡ 2 ^ j
      → 0 < length ys
      → length ys < 2 ^ j
      → fold_right (peaks join empty ys) ≡ root join empty ys
      → fold_right (peaks join empty (xs ++ ys)) ≡ root join empty (xs ++ ys)
  fold_split j xs ys h p q ih = simp (
    peaks-append join empty j 1 xs ys (omega arith) q,
    peaks_full join empty j xs h,
    fold_right-cons (root join empty xs) (peaks join empty ys) (length-peaks_pos ys p),
    ih,
    root-append join empty j xs ys h p (omega arith),
  )

  pub fold_right-peaks :
      (xs : List A) → 0 < length xs → fold_right (peaks join empty xs) ≡ root join empty xs
  fold_right-peaks =
      tree_induction (λ xs. fold_right (peaks join empty xs) ≡ root join empty xs)
        (λ a. rw (peaks_full join empty 0 (a ∷ []) refl))
        (λ j xs ys h p q ihx ihy. elim (le_cases (length ys) (2 ^ j) q) [
          | inl lt ↦ fold_split j xs ys h p lt ihy
          | inr eq ↦ rw (peaks_double j xs ys h eq)
        ])
