-- ===== src/Levels/Pairing.antt =====
-- One level of a tree from the level below: neighbours are joined, and an odd one out moves up.
use sky_zadro_docs.Common.{
  ℕ, zero, suc, ◌+◌, ◌*◌, ◌/◌, ◌%◌, ◌<◌, ◌≡◌, refl, ap, ◌∙◌, arith, List, [], ◌∷◌, ◌++◌, length,
  some, get_elem?,
}

halves_together : (i : ℕ) → suc (suc i) / 2 ≡ suc (i / 2)
halves_together i = omega arith

module _ {ℓ} {A : Type ℓ} (join : A → A → A) where
  abbrev pub pair : List A → List A
  pair [] = []
  pair (a ∷ []) = a ∷ []
  pair (a ∷ b ∷ r) = join a b ∷ pair r

  -- The siblings of node `i`: one, or none for an odd one out.
  abbrev pub sibling : List A → ℕ → List A
  sibling [] i = []
  sibling (a ∷ []) i = []
  sibling (a ∷ b ∷ r) zero = b ∷ []
  sibling (a ∷ b ∷ r) (suc zero) = a ∷ []
  sibling (a ∷ b ∷ r) (suc (suc i)) = sibling r i

  pub length-pair : (xs : List A) → length (pair xs) ≡ (length xs + 1) / 2
  length-pair [] = omega arith
  length-pair (a ∷ []) = omega arith
  length-pair (a ∷ b ∷ r) = omega (arith, length-pair r)

  pub pair-append :
      (xs ys : List A) (m : ℕ) → length xs ≡ 2 * m → pair (xs ++ ys) ≡ pair xs ++ pair ys
  pair-append [] ys m h = refl
  pair-append (a ∷ []) ys m h = absurd (omega arith)
  pair-append (a ∷ b ∷ r) ys zero h = absurd (omega arith)
  pair-append (a ∷ b ∷ r) ys (suc m) h =
      ap (λ (t : List A). join a b ∷ t) (pair-append r ys m (omega arith))

  pub sibling-append_left :
      (xs ys : List A) (m i : ℕ)
      → length xs ≡ 2 * m
      → i < length xs
      → sibling (xs ++ ys) i ≡ sibling xs i
  sibling-append_left [] ys m i h lt = elim lt [ ]
  sibling-append_left (a ∷ []) ys m i h lt = absurd (omega arith)
  sibling-append_left (a ∷ b ∷ r) ys zero i h lt = absurd (omega arith)
  sibling-append_left (a ∷ b ∷ r) ys (suc m) zero h lt = refl
  sibling-append_left (a ∷ b ∷ r) ys (suc m) (suc zero) h lt = refl
  sibling-append_left (a ∷ b ∷ r) ys (suc m) (suc (suc i)) h lt =
      sibling-append_left r ys m i (omega arith) (omega arith)

  pub sibling-append_right :
      (xs ys : List A) (m i : ℕ) → length xs ≡ 2 * m → sibling (xs ++ ys) (2 * m + i) ≡ sibling ys i
  sibling-append_right [] ys m i h = ap (sibling ys) (omega arith)
  sibling-append_right (a ∷ []) ys m i h = absurd (omega arith)
  sibling-append_right (a ∷ b ∷ r) ys zero i h = absurd (omega arith)
  sibling-append_right (a ∷ b ∷ r) ys (suc m) i h =
      ap (sibling (a ∷ b ∷ (r ++ ys))) shift ∙ sibling-append_right r ys m i (omega arith)
    where
      shift : 2 * suc m + i ≡ suc (suc (2 * m + i))
      shift = omega arith

  -- A node on the right of its sibling: the sibling is joined on the left.
  pub pair-get_right :
      (xs : List A) (i : ℕ) {c : A}
      → get_elem? xs i ≡ some c
      → i % 2 ≡ 1
      → (s : A) × (sibling xs i ≡ s ∷ []) × (get_elem? (pair xs) (i / 2) ≡ some (join s c))
  pair-get_right [] i h odd = cc
  pair-get_right (a ∷ []) zero h odd = absurd (omega arith)
  pair-get_right (a ∷ []) (suc i) h odd = cc
  pair-get_right (a ∷ b ∷ r) zero h odd = absurd (omega arith)
  pair-get_right (a ∷ b ∷ r) (suc zero) h odd = (a, refl, cc)
  pair-get_right (a ∷ b ∷ r) (suc (suc i)) h odd =
      let (s, e, g) = pair-get_right r i h (omega arith) in
      (s, e, ap (get_elem? (join a b ∷ pair r)) (halves_together i) ∙ g)

  -- A node on the left of a sibling.
  pub pair-get_left :
      (xs : List A) (i : ℕ) {c : A}
      → get_elem? xs i ≡ some c
      → i % 2 ≡ 0
      → suc i < length xs
      → (s : A) × (sibling xs i ≡ s ∷ []) × (get_elem? (pair xs) (i / 2) ≡ some (join c s))
  pair-get_left [] i h even lt = cc
  pair-get_left (a ∷ []) i h even lt = absurd (omega arith)
  pair-get_left (a ∷ b ∷ r) zero h even lt = (b, refl, cc)
  pair-get_left (a ∷ b ∷ r) (suc zero) h even lt = absurd (omega arith)
  pair-get_left (a ∷ b ∷ r) (suc (suc i)) h even lt =
      let (s, e, g) = pair-get_left r i h (omega arith) (omega arith) in
      (s, e, ap (get_elem? (join a b ∷ pair r)) (halves_together i) ∙ g)

  -- An odd one out.
  pub pair-get_last :
      (xs : List A) (i : ℕ) {c : A}
      → get_elem? xs i ≡ some c
      → i % 2 ≡ 0
      → length xs ≡ suc i
      → (sibling xs i ≡ []) × (get_elem? (pair xs) (i / 2) ≡ some c)
  pair-get_last [] i h even lt = cc
  pair-get_last (a ∷ []) zero h even lt = (refl, h)
  pair-get_last (a ∷ []) (suc i) h even lt = cc
  pair-get_last (a ∷ b ∷ r) zero h even lt = absurd (omega arith)
  pair-get_last (a ∷ b ∷ r) (suc zero) h even lt = absurd (omega arith)
  pair-get_last (a ∷ b ∷ r) (suc (suc i)) h even lt =
      let (e, g) = pair-get_last r i h (omega arith) (omega arith) in
      (e, ap (get_elem? (join a b ∷ pair r)) (halves_together i) ∙ g)
