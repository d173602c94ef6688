-- ===== src/Levels/Push.antt =====
-- One more node at the end of a level: either one more peak, or a carry into the level above.
use sky_zadro_docs.Common.{
  ℕ, ◌*◌, ◌≡◌, refl, ap, ◌∙◌, arith, List, [], ◌∷◌, ◌++◌, length, append_assoc, append-nil,
}
use sky_zadro_docs.Levels.Peaks.{
  peaks, peaks-append, peaks_step, joined, joined-append, odd_one-append, odd_one_even,
}

module _ {ℓ} {A : Type ℓ} (join : A → A → A) (empty : A) where
  pub peaks_single : (x : A) → peaks join empty (x ∷ []) ≡ x ∷ []
  unfolding peaks
  peaks_single x = refl

  pub peaks-push_even :
      (m : ℕ) (xs : List A) (x : A)
      → length xs ≡ 2 * m
      → peaks join empty (xs ++ x ∷ []) ≡ peaks join empty xs ++ x ∷ []
  peaks-push_even m xs x h =
      peaks-append join empty 1 m xs (x ∷ []) (omega arith) (omega arith)
      ∙ ap (λ (t : List A). peaks join empty xs ++ t) (peaks_single x)

  -- The level above the whole pairs, and the one node left over.
  pub peaks_odd :
      (m : ℕ) (zs : List A) (y : A)
      → length zs ≡ 2 * m
      → peaks join empty (zs ++ y ∷ []) ≡ peaks join empty (joined join empty zs) ++ y ∷ []
  peaks_odd m zs y h = simp (
    peaks_step join empty (zs ++ y ∷ []),
    joined-append join empty zs (y ∷ []) m h,
    odd_one-append join empty zs (y ∷ []) m h,
    append-nil,
  )

  pub peaks_even :
      (m : ℕ) (zs : List A)
      → length zs ≡ 2 * m
      → peaks join empty zs ≡ peaks join empty (joined join empty zs)
  peaks_even m zs h = simp (peaks_step join empty zs, odd_one_even join empty zs m h, append-nil)

  pub peaks-push_odd :
      (m : ℕ) (zs : List A) (y x : A)
      → length zs ≡ 2 * m
      → peaks join empty ((zs ++ y ∷ []) ++ x ∷ [])
        ≡ peaks join empty (joined join empty zs ++ join y x ∷ [])
  peaks-push_odd m zs y x h = simp (
    append_assoc,
    peaks_step join empty (zs ++ (y ∷ x ∷ [])),
    joined-append join empty zs (y ∷ x ∷ []) m h,
    odd_one-append join empty zs (y ∷ x ∷ []) m h,
    append-nil,
  )
