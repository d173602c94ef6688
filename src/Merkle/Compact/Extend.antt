-- ===== src/Merkle/Compact/Extend.antt =====
-- python/ct/crypto/merkle.py: CompactMerkleTree.extend, its loop and what the loop leaves over.
use sky_zadro_docs.Common.{
  ℕ, zero, suc, ◌+◌, ◌-◌, ◌*◌, ◌^◌, ◌≤◌, ◌<◌, ltb, leb, ◌&&◌, if◌then◌else◌, true, false, List,
  ◌++◌, length, length-append, length-map, length-take, Option, none, some, ◌≡◌, refl, sym, ap, ◌∙◌,
  arith, lt→ltb, le→ltb, le→leb, lt→leb, ◌⊎◌, inl, inr, slice, take, slice-add, length-slice,
  append_assoc,
}
use sky_zadro_docs.Errors.{ok}
use sky_zadro_docs.Merkle.Bits.{lowest_bit_set, lowest_bit_set_zero}
use sky_zadro_docs.Merkle.Compact.Powers.{lowest_bit_set_pos, multiple_of_lowest}
use sky_zadro_docs.Merkle.Hasher.{Bytes, TreeHasher, hash_leaf}
use sky_zadro_docs.Merkle.Full.{nodes, node_root}
use sky_zadro_docs.Merkle.Compact.{CompactMerkleTree, push_subtree, extend_loop}
use sky_zadro_docs.Merkle.Compact.Block.{tree_on, push_subtree_lem}
use native.Mathlib.Nat.{one-le-pow, pow-suc}
use mathlib.Core.List.{map-append}

lt_power : (n : ℕ) → n < 2 ^ n
lt_power zero = omega arith
lt_power (suc n) = omega (arith, lt_power n, pow-suc 2 n)

zero_or_pos : (n : ℕ) → (n ≡ 0) ⊎ (0 < n)
zero_or_pos n = omega arith

le_or_gt : (a b : ℕ) → (a ≤ b) ⊎ (b < a)
le_or_gt a b = omega arith

-- The loop's two cases.
loop_stop :
    (f : ℕ) (t : CompactMerkleTree) (new_leaves : List Bytes) (idx : ℕ)
    → (ltb 0 t.mintree_height
        && leb
            (if ltb 0 t.mintree_height then 2 ^ (t.mintree_height - 1) else 0)
            (length new_leaves - idx))
      ≡ false
    → extend_loop (suc f) t new_leaves idx ≡ ok (t, idx)
unfolding extend_loop
loop_stop f t new_leaves idx e = rw e

loop_push :
    (f : ℕ) (t t' : CompactMerkleTree) (new_leaves : List Bytes) (idx w : ℕ)
    → ltb 0 t.mintree_height ≡ true
    → 2 ^ (t.mintree_height - 1) ≡ w
    → leb w (length new_leaves - idx) ≡ true
    → push_subtree t (slice idx w new_leaves) ≡ ok t'
    → extend_loop (suc f) t new_leaves idx ≡ extend_loop f t' new_leaves (idx + w)
unfolding extend_loop
loop_push f t t' new_leaves idx w some_tree width fits pushed = rw (some_tree, width, fits, pushed)

module _ (h : TreeHasher) (base new_leaves : List Bytes) where
  -- The nodes after `idx` of the new leaves.
  abbrev pub nodes_to : ℕ → List Bytes
  nodes_to idx = base ++ nodes h (take idx new_leaves)

  pub nodes_to-add :
      (idx w : ℕ) → nodes_to (idx + w) ≡ nodes_to idx ++ nodes h (slice idx w new_leaves)
  nodes_to-add idx w =
      ap (λ (t : List Bytes). base ++ t)
        (ap (nodes h) (slice-add 0 idx w new_leaves ∙ ap parts start)
          ∙ map-append (hash_leaf h) (take idx new_leaves) (slice idx w new_leaves))
      ∙ sym (append_assoc base (nodes h (take idx new_leaves)) (nodes h (slice idx w new_leaves)))
    where
      parts : ℕ → List Bytes
      parts n = take idx new_leaves ++ slice n w new_leaves

      start : 0 + idx ≡ idx
      start = omega arith

  pub length-nodes_to :
      (idx : ℕ) → idx ≤ length new_leaves → length (nodes_to idx) ≡ length base + idx
  length-nodes_to idx p = omega (
    arith,
    length-append base (nodes h (take idx new_leaves)),
    length-map (take idx new_leaves) (hash_leaf h),
    length-take idx new_leaves,
  )

  -- A kept root hash is that of the tree.
  abbrev pub KeepsRoot : List Bytes → Option Bytes → Type 0
  KeepsRoot ns cache = (cache ≡ none) ⊎ (cache ≡ some (node_root h ns))

  -- The leaves left over are fewer than those of the smallest subtree.
  abbrev pub Leftover : ℕ → Type 0
  Leftover idx =
      (j : ℕ) × (s : ℕ) × (length (nodes_to idx) ≡ s * 2 ^ j) × (length new_leaves - idx < 2 ^ j)

  abbrev pub LoopEnds : ℕ → ℕ → Option Bytes → Type 0
  LoopEnds f idx cache =
      (end : ℕ) × (kept : Option Bytes) × (end ≤ length new_leaves)
      × (extend_loop f (tree_on h (nodes_to idx) cache) new_leaves idx
          ≡ ok (tree_on h (nodes_to end) kept, end))
      × KeepsRoot (nodes_to end) kept
      × Leftover end

  loop_empty :
      (f idx : ℕ) (cache : Option Bytes)
      → idx ≤ length new_leaves
      → KeepsRoot (nodes_to idx) cache
      → length (nodes_to idx) ≡ 0
      → LoopEnds (suc f) idx cache
  loop_empty f idx cache p keeps empty = (
    idx,
    cache,
    p,
    loop_stop f (tree_on h (nodes_to idx) cache) new_leaves idx stop,
    keeps,
    (length new_leaves, 0, empty ∙ omega arith, omega (arith, lt_power (length new_leaves))),
  )
    where
      stop :
          (ltb 0 (lowest_bit_set (length (nodes_to idx)))
            && leb
                (if ltb 0 (lowest_bit_set (length (nodes_to idx)))
                  then 2 ^ (lowest_bit_set (length (nodes_to idx)) - 1)
                  else 0)
                (length new_leaves - idx))
          ≡ false
      stop = rw (ap lowest_bit_set empty ∙ lowest_bit_set_zero, le→ltb 0 0 (omega arith))

  -- Where the tree has a smallest subtree, of 2 ^ j leaves.
  module _ (j s idx : ℕ) where
    abbrev Smallest : Type 0
    Smallest =
        (0 < length (nodes_to idx))
        × (lowest_bit_set (length (nodes_to idx)) - 1 ≡ j)
        × (length (nodes_to idx) ≡ s * 2 ^ j)

    has_subtree : Smallest → ltb 0 (lowest_bit_set (length (nodes_to idx))) ≡ true
    has_subtree small = lt→ltb 0 _ (lowest_bit_set_pos (length (nodes_to idx)) small.0)

    loop_left :
        (f : ℕ) (cache : Option Bytes)
        → idx ≤ length new_leaves
        → KeepsRoot (nodes_to idx) cache
        → Smallest
        → length new_leaves - idx < 2 ^ j
        → LoopEnds (suc f) idx cache
    loop_left f cache p keeps small few = (
      idx,
      cache,
      p,
      loop_stop f (tree_on h (nodes_to idx) cache) new_leaves idx stop,
      keeps,
      (j, s, small.2, few),
    )
      where
        stop :
            (ltb 0 (lowest_bit_set (length (nodes_to idx)))
              && leb
                  (if ltb 0 (lowest_bit_set (length (nodes_to idx)))
                    then 2 ^ (lowest_bit_set (length (nodes_to idx)) - 1)
                    else 0)
                  (length new_leaves - idx))
            ≡ false
        stop = rw (has_subtree small, small.1, lt→leb (2 ^ j) (length new_leaves - idx) few)

    loop_round :
        (f : ℕ) (cache : Option Bytes)
        → idx ≤ length new_leaves
        → Smallest
        → 2 ^ j ≤ length new_leaves - idx
        → LoopEnds f (idx + 2 ^ j) none
        → LoopEnds (suc f) idx cache
    loop_round f cache p small many (end, kept, q, run, keeps, left) = (
      end,
      kept,
      q,
      loop_push f (tree_on h (nodes_to idx) cache) (tree_on h (nodes_to (idx + 2 ^ j)) none)
            new_leaves idx (2 ^ j) (has_subtree small) (ap (λ (t : ℕ). 2 ^ t) small.1)
            (le→leb (2 ^ j) (length new_leaves - idx) many) pushed
          ∙ run,
      keeps,
      left,
    )
      where
        pushed :
            push_subtree (tree_on h (nodes_to idx) cache) (slice idx (2 ^ j) new_leaves)
            ≡ ok (tree_on h (nodes_to (idx + 2 ^ j)) none)
        pushed =
            push_subtree_lem h j s (nodes_to idx) (slice idx (2 ^ j) new_leaves) cache small.2
              (length-slice idx (2 ^ j) new_leaves (omega (arith, p, many)))
            ∙ ap (λ (t : List Bytes). ok (tree_on h t none)) (sym (nodes_to-add idx (2 ^ j)))

  pub loop_ends :
      (f idx : ℕ) (cache : Option Bytes)
      → idx ≤ length new_leaves
      → KeepsRoot (nodes_to idx) cache
      → length new_leaves - idx < f
      → LoopEnds f idx cache
  loop_ends zero idx cache p keeps q = absurd (omega arith)
  loop_ends (suc f) idx cache p keeps q = elim (zero_or_pos (length (nodes_to idx))) [
    | inl empty ↦ loop_empty f idx cache p keeps empty
    | inr pos ↦
        let j : ℕ = lowest_bit_set (length (nodes_to idx)) - 1 in
        let (s, e) = multiple_of_lowest (length (nodes_to idx)) pos in
        elim (le_or_gt (2 ^ j) (length new_leaves - idx)) [
          | inr few ↦ loop_left j s idx f cache p keeps (pos, refl, e) few
          | inl many ↦
              let one : 1 ≤ 2 ^ j = one-le-pow j 2 (omega arith) in
              loop_round j s idx f cache p (pos, refl, e) many
                (loop_ends f (idx + 2 ^ j) none (omega (arith, many, one, p)) (inl refl)
                  (omega (arith, many, one, q, p)))
        ]
  ]
