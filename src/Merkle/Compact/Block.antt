-- ===== src/Merkle/Compact/Block.antt =====
-- python/ct/crypto/merkle.py: CompactMerkleTree._push_subtree, a full subtree after the leaves.
use sky_zadro_docs.Common.{
  ℕ, zero, suc, ◌+◌, ◌*◌, ◌^◌, ◌≤◌, ◌<◌, ltb, ◌&&◌, false, List, [], ◌∷◌, ◌++◌, length,
  length-append, length-map, Option, none, ◌≡◌, sym, ap, ◌∙◌, arith, lt→ltb, le→ltb, slice,
  take_all,
}
use sky_zadro_docs.Errors.{ok}
use sky_zadro_docs.Levels.Peaks.{peaks_full}
use sky_zadro_docs.Merkle.Bits.{
  count_bits_set, lowest_bit_set, lowest_bit_set_odd, lowest_bit_set_zero, count_bits_set_odd,
  count_bits_set_zero,
}
use sky_zadro_docs.Merkle.Compact.Powers.{
  count_bits_set_shift, lowest_bit_set_shift, lowest_bit_set_pos, times_one,
}
use sky_zadro_docs.Merkle.Hasher.{
  Bytes, bytes_eq_refl, TreeHasher, hash_empty, hash_children, hash_full,
}
use sky_zadro_docs.Merkle.Full.{nodes, node_root, node_peaks, hash_full_lem}
use sky_zadro_docs.Merkle.Compact.{
  CompactMerkleTree, make, push_subtree_hash, push_subtree, is_only,
}
use sky_zadro_docs.Merkle.Compact.Lift.{lift, length-lift, lift-append, peaks-lift, lift_full}
use sky_zadro_docs.Merkle.Compact.Push.{tree_of, tree_at, make-tree_at, push_subtree_hash_lem}
use native.Mathlib.Nat.{one-le-pow}

count_one : count_bits_set 1 ≡ 1
count_one = count_bits_set_odd 0 ∙ ap suc count_bits_set_zero

count_power : (j : ℕ) → count_bits_set (2 ^ j) ≡ 1
count_power j = ap count_bits_set (sym one) ∙ count_bits_set_shift 1 j ∙ count_one
  where
    one : 1 * 2 ^ j ≡ 2 ^ j
    one = omega arith

lowest_power : (j : ℕ) → lowest_bit_set (2 ^ j) ≡ suc j
lowest_power j =
    ap lowest_bit_set (sym one)
    ∙ lowest_bit_set_shift 1 j (omega arith)
    ∙ omega (arith, lowest_bit_set_odd 0)
  where
    one : 1 * 2 ^ j ≡ 2 ^ j
    one = omega arith

-- A multiple of 2 ^ j has no subtree that is smaller.
not_smaller :
    (j s n : ℕ)
    → n ≡ s * 2 ^ j
    → (ltb 0 (lowest_bit_set n) && ltb (lowest_bit_set n) (suc j)) ≡ false
not_smaller j zero n e =
    rw (ap lowest_bit_set (e ∙ empty) ∙ lowest_bit_set_zero, le→ltb 0 0 (omega arith))
  where
    empty : 0 * 2 ^ j ≡ 0
    empty = omega arith
not_smaller j (suc s) n e =
    rw (le→ltb (lowest_bit_set n) (suc j) high, lt→ltb 0 (lowest_bit_set n) (omega (arith, high)))
  where
    high : suc j ≤ lowest_bit_set n
    high = omega (
      arith,
      ap lowest_bit_set e,
      lowest_bit_set_shift (suc s) j (omega arith),
      lowest_bit_set_pos (suc s) (omega arith),
    )

le_product : (s p : ℕ) → 0 < p → s ≤ s * p
le_product s p h = grind arith

-- `_push_subtree` where its tests hold.
push_subtree_steps :
    (t : CompactMerkleTree) (leaves : List Bytes) (sh : ℕ) (root : Bytes)
    → count_bits_set (length leaves) ≡ 1
    → lowest_bit_set (length leaves) ≡ sh
    → (ltb 0 t.mintree_height && ltb t.mintree_height sh) ≡ false
    → hash_full t.hasher (suc (length leaves)) leaves 0 (length leaves) ≡ ok (root, root ∷ [])
    → push_subtree t leaves ≡ push_subtree_hash (suc t.tree_size) t sh root
unfolding push_subtree is_only
push_subtree_steps t leaves sh root one height small full =
    rw (one, height, small, full, bytes_eq_refl root)

module _ (h : TreeHasher) where
  -- The tree over the hashes of the leaves.
  abbrev pub tree_on : List Bytes → Option Bytes → CompactMerkleTree
  tree_on ns = tree_of h (length ns) (node_peaks h ns)

  pub make-tree_on :
      (n : ℕ) (ns hashes : List Bytes)
      → n ≡ length ns
      → hashes ≡ node_peaks h ns
      → make h n hashes ≡ ok (tree_on ns none)
  make-tree_on n ns hashes size same =
      make-tree_at h 0 n ns hashes (size ∙ sym (times_one (length ns))) same
      ∙ ap (λ (t : ℕ). ok (tree_of h t (node_peaks h ns) none)) (times_one (length ns))

  lifted_tree :
      (j s : ℕ) (ns : List Bytes) (cache : Option Bytes)
      → length ns ≡ s * 2 ^ j
      → tree_on ns cache ≡ tree_at h j (lift (hash_children h) (hash_empty h) j ns) cache
  lifted_tree j s ns cache e = λ i. tree_of h (size i) (same i) cache
    where
      above : List Bytes
      above = lift (hash_children h) (hash_empty h) j ns

      size : length ns ≡ length above * 2 ^ j
      size =
          e
          ∙ ap (λ (t : ℕ). t * 2 ^ j) (sym (length-lift (hash_children h) (hash_empty h) j s ns e))

      same : node_peaks h ns ≡ node_peaks h above
      same = sym (peaks-lift (hash_children h) (hash_empty h) j s ns e)

  push_block :
      (j s : ℕ) (ns block : List Bytes) (cache : Option Bytes)
      → length ns ≡ s * 2 ^ j
      → length block ≡ 2 ^ j
      → push_subtree_hash (suc (length ns)) (tree_on ns cache) (suc j) (node_root h block)
        ≡ ok (tree_on (ns ++ block) none)
  push_block j s ns block cache e b =
      ap
        (λ (t : CompactMerkleTree).
          push_subtree_hash (suc (length ns)) t (suc j) (node_root h block))
        (lifted_tree j s ns cache e)
      ∙ push_subtree_hash_lem h (suc (length ns)) j above (node_root h block) cache enough
      ∙ ap (λ (t : List Bytes). ok (tree_at h j t none)) whole
      ∙ ap ok (sym (lifted_tree j (s + 1) (ns ++ block) none size))
    where
      join : Bytes → Bytes → Bytes
      join = hash_children h

      above : List Bytes
      above = lift join (hash_empty h) j ns

      enough : length above < suc (length ns)
      enough = omega (
        arith,
        length-lift join (hash_empty h) j s ns e,
        le_product s (2 ^ j) (one-le-pow j 2 (omega arith)),
      )

      whole : above ++ node_root h block ∷ [] ≡ lift join (hash_empty h) j (ns ++ block)
      whole =
          ap (λ (t : List Bytes). above ++ t) (sym (lift_full join (hash_empty h) j block b))
          ∙ sym (lift-append join (hash_empty h) j s ns block e)

      size : length (ns ++ block) ≡ (s + 1) * 2 ^ j
      size = length-append ns block ∙ (λ i. e i + b i) ∙ grind arith

  -- `_push_subtree` raises nothing on 2 ^ j leaves after a multiple of 2 ^ j leaves.
  pub push_subtree_lem :
      (j s : ℕ) (ns block : List Bytes) (cache : Option Bytes)
      → length ns ≡ s * 2 ^ j
      → length block ≡ 2 ^ j
      → push_subtree (tree_on ns cache) block ≡ ok (tree_on (ns ++ nodes h block) none)
  push_subtree_lem j s ns block cache e b =
      push_subtree_steps (tree_on ns cache) block (suc j) (node_root h (nodes h block))
        (ap count_bits_set b ∙ count_power j) (ap lowest_bit_set b ∙ lowest_power j)
        (not_smaller j s (length ns) e) full
      ∙ push_block j s ns (nodes h block) cache e width
    where
      width : length (nodes h block) ≡ 2 ^ j
      width = length-map block _ ∙ b

      all : slice 0 (length block) block ≡ block
      all = take_all (length block) block (omega arith)

      full :
          hash_full h (suc (length block)) block 0 (length block)
          ≡ ok (node_root h (nodes h block), node_root h (nodes h block) ∷ [])
      full =
          ap (hash_full h (suc (length block)) block 0) (omega arith)
          ∙ hash_full_lem h (suc (length block)) 0 (length block) block (omega arith) (omega arith)
          ∙ (λ i. ok (node_root h (nodes h (all i)), node_peaks h (nodes h (all i))))
          ∙ ap (λ (t : List Bytes). ok (node_root h (nodes h block), t))
              (peaks_full (hash_children h) (hash_empty h) j (nodes h block) width)
