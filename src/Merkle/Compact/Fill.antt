-- ===== src/Merkle/Compact/Fill.antt =====
-- python/ct/crypto/merkle.py: CompactMerkleTree.extend, whole.
use sky_zadro_docs.Common.{
  ℕ, suc, ◌+◌, ◌-◌, ◌≤◌, ◌<◌, ltb, true, false, List, ◌++◌, length, length-append, length-map,
  Option, none, ◌≡◌, refl, sym, ap, ◌∙◌, arith, ==_iff, lt→ltb, le→ltb, ◌⊎◌, inl, inr, slice,
  take_all, length-slice, append-nil,
}
use sky_zadro_docs.Errors.{ok}
use sky_zadro_docs.Levels.Peaks.{peaks-append}
use sky_zadro_docs.Merkle.Hasher.{
  Bytes, TreeHasher, hash_empty, hash_leaf, hash_children, hash_full,
}
use sky_zadro_docs.Merkle.Full.{nodes, node_root, node_peaks, hash_full_lem}
use sky_zadro_docs.Merkle.Compact.{CompactMerkleTree, update, extend_loop, fill, extend}
use sky_zadro_docs.Merkle.Compact.Block.{tree_on, make-tree_on}
use mathlib.Core.Path.{subst}
use sky_zadro_docs.Merkle.Compact.Extend.{nodes_to, nodes_to-add, KeepsRoot, Leftover, loop_ends}

lt_or_ge : (a b : ℕ) → (a < b) ⊎ (b ≤ a)
lt_or_ge a b = omega arith

fill_steps :
    (t : CompactMerkleTree) (final_size : ℕ) (new_leaves : List Bytes) (idx : ℕ) (root : Bytes)
    (hashes : List Bytes)
    → ltb idx (length new_leaves) ≡ true
    → hash_full t.hasher (suc (length new_leaves)) new_leaves idx (length new_leaves)
      ≡ ok (root, hashes)
    → fill t final_size new_leaves idx ≡ update t final_size (t.hashes ++ hashes)
unfolding fill
fill_steps t final_size new_leaves idx root hashes some_left full = rw (some_left, full)

fill_nothing :
    (t : CompactMerkleTree) (final_size : ℕ) (new_leaves : List Bytes) (idx : ℕ)
    → ltb idx (length new_leaves) ≡ false
    → fill t final_size new_leaves idx ≡ ok t
unfolding fill
fill_nothing t final_size new_leaves idx none_left = rw none_left

extend_steps :
    (t t' t'' : CompactMerkleTree) (new_leaves : List Bytes) (idx : ℕ)
    → extend_loop (suc (length new_leaves)) t new_leaves 0 ≡ ok (t', idx)
    → fill t' (t.tree_size + length new_leaves) new_leaves idx ≡ ok t''
    → t''.tree_size ≡ t.tree_size + length new_leaves
    → extend t new_leaves ≡ ok t''
unfolding extend
extend_steps t t' t'' new_leaves idx loop rest size =
    rw (loop, rest, (==_iff t''.tree_size (t.tree_size + length new_leaves)).1 size)

module _ (h : TreeHasher) (base new_leaves : List Bytes) where
  abbrev all_nodes : List Bytes
  all_nodes = base ++ nodes h new_leaves

  nodes_to_end : nodes_to h base new_leaves (length new_leaves) ≡ all_nodes
  nodes_to_end =
      ap (λ (t : List Bytes). base ++ nodes h t)
        (take_all (length new_leaves) new_leaves (omega arith))

  length-all_nodes : length all_nodes ≡ length base + length new_leaves
  length-all_nodes =
      length-append base (nodes h new_leaves)
      ∙ ap (λ (n : ℕ). length base + n) (length-map new_leaves (hash_leaf h))

  abbrev FillEnds : ℕ → Option Bytes → Type 0
  FillEnds idx cache =
      (kept : Option Bytes) × (fill (tree_on h (nodes_to h base new_leaves idx) cache)
          (length base + length new_leaves) new_leaves idx
        ≡ ok (tree_on h all_nodes kept))
      × KeepsRoot h base new_leaves all_nodes kept

  fill_rest :
      (idx : ℕ) (cache : Option Bytes)
      → idx < length new_leaves
      → Leftover h base new_leaves idx
      → FillEnds idx cache
  fill_rest idx cache p (j, s, e, few) = (
    none,
    fill_steps (tree_on h done cache) (length base + length new_leaves) new_leaves idx
          (node_root h (nodes h rest)) (node_peaks h (nodes h rest))
          (lt→ltb idx (length new_leaves) p) full
        ∙ unfold update in
          make-tree_on h (length base + length new_leaves) all_nodes
            (node_peaks h done ++ node_peaks h (nodes h rest)) (sym length-all_nodes) beside,
    inl refl,
  )
    where
      done : List Bytes
      done = nodes_to h base new_leaves idx

      rest : List Bytes
      rest = slice idx (length new_leaves - idx) new_leaves

      end : idx + (length new_leaves - idx) ≡ length new_leaves
      end = omega (arith, p)

      full :
          hash_full h (suc (length new_leaves)) new_leaves idx (length new_leaves)
          ≡ ok (node_root h (nodes h rest), node_peaks h (nodes h rest))
      full =
          ap (hash_full h (suc (length new_leaves)) new_leaves idx) (sym end)
          ∙ hash_full_lem h (suc (length new_leaves)) idx (length new_leaves - idx) new_leaves
              (omega arith) (omega (arith, p))

      width : length (nodes h rest) ≡ length new_leaves - idx
      width =
          length-map rest (hash_leaf h)
          ∙ length-slice idx (length new_leaves - idx) new_leaves (omega (arith, p))

      whole : done ++ nodes h rest ≡ all_nodes
      whole =
          sym (nodes_to-add h base new_leaves idx (length new_leaves - idx))
          ∙ ap (nodes_to h base new_leaves) end
          ∙ nodes_to_end

      beside : node_peaks h done ++ node_peaks h (nodes h rest) ≡ node_peaks h all_nodes
      beside =
          sym (
            peaks-append (hash_children h) (hash_empty h) j s done (nodes h rest) e
              (omega (arith, width, few)))
          ∙ ap (node_peaks h) whole

  fill_ends :
      (idx : ℕ) (cache : Option Bytes)
      → idx ≤ length new_leaves
      → KeepsRoot h base new_leaves (nodes_to h base new_leaves idx) cache
      → Leftover h base new_leaves idx
      → FillEnds idx cache
  fill_ends idx cache p keeps left = elim (lt_or_ge idx (length new_leaves)) [
    | inl lt ↦ fill_rest idx cache lt left
    | inr ge ↦
        let whole : nodes_to h base new_leaves idx ≡ all_nodes =
          ap (nodes_to h base new_leaves) (omega arith) ∙ nodes_to_end in
        (
          cache,
          fill_nothing (tree_on h (nodes_to h base new_leaves idx) cache)
                (length base + length new_leaves) new_leaves idx (le→ltb idx (length new_leaves) ge)
              ∙ ap (λ (t : List Bytes). ok (tree_on h t cache)) whole,
          subst (λ (t : List Bytes). KeepsRoot h base new_leaves t cache) whole keeps,
        )
  ]

  abbrev pub ExtendEnds : Option Bytes → Type 0
  ExtendEnds cache =
      (kept : Option Bytes) × (extend (tree_on h base cache) new_leaves
        ≡ ok (tree_on h all_nodes kept))
      × KeepsRoot h base new_leaves all_nodes kept

  pub extend_ends :
      (cache : Option Bytes) → KeepsRoot h base new_leaves base cache → ExtendEnds cache
  extend_ends cache keeps =
      let (idx, cache', p, run, keeps', left) =
        loop_ends h base new_leaves (suc (length new_leaves)) 0 cache (omega arith)
          (subst (λ (t : List Bytes). KeepsRoot h base new_leaves t cache) start keeps)
          (omega arith) in
      let (kept, filled, keeps'') = fill_ends idx cache' p keeps' left in
      (
        kept,
        extend_steps (tree_on h base cache) (tree_on h (nodes_to h base new_leaves idx) cache')
            (tree_on h all_nodes kept) new_leaves idx
            (ap
                (λ (t : List Bytes).
                  extend_loop (suc (length new_leaves)) (tree_on h t cache) new_leaves 0)
                start
              ∙ run)
            filled length-all_nodes,
        keeps'',
      )
    where
      start : base ≡ nodes_to h base new_leaves 0
      start = sym (append-nil base)
