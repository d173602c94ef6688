-- ===== src/Levels/Consistency.antt =====
-- Consistency proofs (RFC 6962 section 2.1.2) by levels, from the bottom up. `node` is the index of
-- the last node of the older tree; `known` says that its hash need not be sent.
use sky_zadro_docs.Common.{
  ℕ, zero, suc, ◌+◌, ◌-◌, ◌/◌, ◌%◌, ◌^◌, ◌≤◌, ◌<◌, ◌≡◌, refl, sym, ap, ◌∙◌, arith, List, [], ◌∷◌,
  ◌++◌, length, append_assoc, Bool, true, false, if◌then◌else◌, ◌==◌, get_elem?, Option, none, some,
  get_elem?-append_left, get_elem?-append_right, ==_iff, ne→==, ◌⊎◌, inl, inr,
}
use sky_zadro_docs.Levels.Pairing.{pair, length-pair, pair-append}
use sky_zadro_docs.Levels.Root.{root, root-pair}
use sky_zadro_docs.Levels.Audit.{
  audit, IsSplit, IsSplit-pair, audit-append_left, audit-append_right,
}
use native.Mathlib.Nat.{pow-suc, one-le-pow}

odd_cases : (n : ℕ) → (n % 2 ≡ 1) ⊎ (n % 2 ≡ 0)
odd_cases n = omega arith

module _ {ℓ} {A : Type ℓ} (join : A → A → A) (empty : A) where
  abbrev pub to_list : Option A → List A
  to_list none = []
  to_list (some a) = a ∷ []

  abbrev pub node_at : List A → ℕ → List A
  node_at xs i = to_list (get_elem? xs i)

  -- The first hash of the proof, where the path starts.
  abbrev pub start : Bool → List A → ℕ → List A
  start known xs zero = if known then [] else node_at xs zero
  start known xs (suc i) = node_at xs (suc i)

  -- As long as the node is a right child, both trees have all below it.
  abbrev consistency_in : ℕ → Bool → List A → ℕ → List A
  consistency_in zero known xs node = start known xs node ++ audit join empty xs node
  consistency_in (suc f) known xs node =
      let above = consistency_in f known (pair join xs) (node / 2) in
      if node % 2 == 1 then above else start known xs node ++ audit join empty xs node

  -- `node` halves as often as the tree has levels, at most.
  unfoldable pub consistency : Bool → List A → ℕ → List A
  consistency known xs node = consistency_in node known xs node

  consistency_in_fuel :
      (f g : ℕ) (known : Bool) (xs : List A) (node : ℕ)
      → node ≤ f
      → node ≤ g
      → consistency_in f known xs node ≡ consistency_in g known xs node
  consistency_in_fuel zero zero known xs node p q = refl
  consistency_in_fuel zero (suc g) known xs zero p q = refl
  consistency_in_fuel zero (suc g) known xs (suc n) p q = absurd (omega arith)
  consistency_in_fuel (suc f) zero known xs zero p q = refl
  consistency_in_fuel (suc f) zero known xs (suc n) p q = absurd (omega arith)
  consistency_in_fuel (suc f) (suc g) known xs node p q = elim (odd_cases node) [
    | inl odd ↦
        rw ((==_iff (node % 2) 1).1 odd)
          (consistency_in_fuel f g known (pair join xs) (node / 2) (omega arith) (omega arith))
    | inr even ↦ rw (ne→== (node % 2) 1 (omega arith))
  ]

  pub consistency_odd :
      (known : Bool) (xs : List A) (node : ℕ)
      → node % 2 ≡ 1
      → consistency known xs node ≡ consistency known (pair join xs) (node / 2)
  unfolding consistency
  consistency_odd known xs zero odd = absurd (omega arith)
  consistency_odd known xs (suc n) odd = rw ((==_iff (suc n % 2) 1).1 odd) (
      consistency_in_fuel n (suc n / 2) known (pair join xs) (suc n / 2) (omega arith)
        (omega arith))

  pub consistency_even :
      (known : Bool) (xs : List A) (node : ℕ)
      → node % 2 ≡ 0
      → consistency known xs node ≡ start known xs node ++ audit join empty xs node
  unfolding consistency
  consistency_even known xs zero even = refl
  consistency_even known xs (suc n) even = rw (ne→== (suc n % 2) 1 (omega arith))

  start-append_left :
      (known : Bool) (xs ys : List A) (node : ℕ)
      → node < length xs
      → start known (xs ++ ys) node ≡ start known xs node
  start-append_left known [] ys node h = elim h [ ]
  start-append_left known (x ∷ xs) ys zero h = refl
  start-append_left known (x ∷ xs) ys (suc i) h =
      ap to_list (get_elem?-append_left xs ys i (omega arith))

  start_unknown : (xs : List A) (node : ℕ) → start false xs node ≡ node_at xs node
  start_unknown xs zero = refl
  start_unknown xs (suc i) = refl

  start_pos :
      (known : Bool) (xs : List A) (node : ℕ) → 0 < node → start known xs node ≡ node_at xs node
  start_pos known xs zero h = absurd (omega arith)
  start_pos known xs (suc i) h = refl

  node_at-append_right :
      (xs ys : List A) (n i : ℕ) → length xs ≡ n → node_at (xs ++ ys) (n + i) ≡ node_at ys i
  node_at-append_right xs ys n i h =
      ap (λ (k : ℕ). node_at (xs ++ ys) (k + i)) (sym h)
      ∙ ap to_list (get_elem?-append_right xs ys i)

  pub consistency-append_left :
      (j : ℕ) (known : Bool) (xs ys : List A) (node : ℕ)
      → IsSplit join empty j xs ys
      → node < length xs
      → consistency known (xs ++ ys) node ≡ consistency known xs node ++ root join empty ys ∷ []
  consistency-append_left zero known [] ys node h lt = absurd (omega arith)
  consistency-append_left zero known (a ∷ b ∷ r) ys node h lt = absurd (omega arith)
  consistency-append_left zero known (a ∷ []) [] node h lt = absurd (omega arith)
  consistency-append_left zero known (a ∷ []) (b ∷ c ∷ r) node h lt = absurd (omega arith)
  consistency-append_left zero known (a ∷ []) (b ∷ []) (suc n) h lt = absurd (omega arith)
  consistency-append_left zero true (a ∷ []) (b ∷ []) zero h lt =
      unfold consistency root audit in refl
  consistency-append_left zero false (a ∷ []) (b ∷ []) zero h lt =
      unfold consistency root audit in refl
  consistency-append_left (suc j) known xs ys node h lt = elim (odd_cases node) [
    | inl odd ↦ simp (
      consistency_odd known (xs ++ ys) node odd,
      consistency_odd known xs node odd,
      pair-append join xs ys (2 ^ j) (omega (arith, pow-suc 2 j)),
      consistency-append_left j known (pair join xs) (pair join ys) (node / 2)
          (IsSplit-pair join empty j xs ys h) (omega (arith, pow-suc 2 j, length-pair join xs)),
      root-pair,
    )
    | inr even ↦ simp (
      consistency_even known (xs ++ ys) node even,
      consistency_even known xs node even,
      start-append_left known xs ys node lt,
      audit-append_left join empty (suc j) xs ys node h lt,
      append_assoc,
    )
  ]

  pub consistency-append_right :
      (j : ℕ) (known : Bool) (xs ys : List A) (i : ℕ)
      → IsSplit join empty j xs ys
      → suc i < length ys
      → consistency known (xs ++ ys) (2 ^ j + i) ≡ consistency false ys i ++ root join empty xs ∷ []
  consistency-append_right zero known xs ys i h lt = absurd (omega arith)
  consistency-append_right (suc j) known xs ys i h lt = elim (odd_cases i) [
    | inl odd ↦ simp (
      consistency_odd known (xs ++ ys) (2 ^ suc j + i) (omega (arith, pow-suc 2 j)),
      consistency_odd false ys i odd,
      pair-append join xs ys (2 ^ j) (omega (arith, pow-suc 2 j)),
      half_index,
      consistency-append_right j known (pair join xs) (pair join ys) (i / 2)
          (IsSplit-pair join empty j xs ys h) (omega (arith, pow-suc 2 j, length-pair join ys)),
      root-pair,
    )
    | inr even ↦ simp (
      consistency_even known (xs ++ ys) (2 ^ suc j + i) (omega (arith, pow-suc 2 j)),
      consistency_even false ys i even,
      start_pos known (xs ++ ys) (2 ^ suc j + i)
          (omega (arith, pow-suc 2 j, one-le-pow j 2 (omega arith))),
      start_unknown ys i,
      node_at-append_right xs ys (2 ^ suc j) i h.0,
      audit-append_right join empty (suc j) xs ys i h (omega arith),
      append_assoc,
    )
  ]
    where
      half_index : (2 ^ suc j + i) / 2 ≡ 2 ^ j + i / 2
      half_index = omega (arith, pow-suc 2 j)

  -- An older tree that fills a full subtree.
  pub consistency_full :
      (j : ℕ) (known : Bool) (xs : List A)
      → length xs ≡ 2 ^ j
      → consistency known xs (2 ^ j - 1) ≡ (if known then [] else root join empty xs ∷ [])
  consistency_full zero known [] h = absurd (omega arith)
  consistency_full zero known (a ∷ b ∷ r) h = absurd (omega arith)
  consistency_full zero true (a ∷ []) h = unfold consistency root audit in refl
  consistency_full zero false (a ∷ []) h = unfold consistency root audit in refl
  consistency_full (suc j) known xs h = simp (
    consistency_odd known xs (2 ^ suc j - 1)
        (omega (arith, pow-suc 2 j, one-le-pow j 2 (omega arith))),
    half_index,
    consistency_full j known (pair join xs) (omega (arith, pow-suc 2 j, length-pair join xs)),
    root-pair,
  )
    where
      half_index : (2 ^ suc j - 1) / 2 ≡ 2 ^ j - 1
      half_index = omega (arith, pow-suc 2 j, one-le-pow j 2 (omega arith))
