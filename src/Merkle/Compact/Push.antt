-- ===== src/Merkle/Compact/Push.antt =====
-- python/ct/crypto/merkle.py: CompactMerkleTree.__push_subtree_hash, a carry in a tree of nodes.
use sky_zadro_docs.Common.{
  ℕ, zero, suc, ◌+◌, ◌-◌, ◌*◌, ◌/◌, ◌^◌, ◌<◌, ◌==◌, ltb, ◌||◌, false, List, [], ◌∷◌, ◌++◌, length,
  length-append, Option, none, ◌≡◌, refl, sym, ap, ◌∙◌, arith, ==_iff, le→ltb, ne→==, inl, inr,
}
use sky_zadro_docs.Errors.{ok}
use sky_zadro_docs.Levels.Peaks.{joined, length-joined}
use sky_zadro_docs.Levels.Push.{peaks_odd, peaks-push_even, peaks-push_odd}
use sky_zadro_docs.Merkle.Bits.{count_bits_set, lowest_bit_set}
use sky_zadro_docs.Merkle.Compact.Powers.{count_bits_set_shift}
use sky_zadro_docs.Merkle.Hasher.{Bytes, TreeHasher, hash_empty, hash_children}
use sky_zadro_docs.Merkle.Full.{node_peaks}
use sky_zadro_docs.Merkle.Tree.{length-node_peaks}
use sky_zadro_docs.Merkle.Compact.{CompactMerkleTree, make, update, last_hash, push_subtree_hash}
use native.Mathlib.Nat.{pow-suc}
use sky_zadro_docs.Merkle.Compact.Steps.{
  last_hash-append, last_element, parity, grown_by, shrunk_by, free, taken, push_free, push_carry,
}

module _ (h : TreeHasher) where
  -- The tree of `size` leaves with the hashes of its full subtrees.
  abbrev pub tree_of : ℕ → List Bytes → Option Bytes → CompactMerkleTree
  tree_of size hashes cache = record {
    hasher = h;
    tree_size = size;
    hashes = hashes;
    mintree_height = lowest_bit_set size;
    cached_root = cache;
  }

  -- The tree over a list of nodes that stand for 2 ^ j leaves each.
  abbrev pub tree_at : ℕ → List Bytes → Option Bytes → CompactMerkleTree
  tree_at j ns = tree_of (length ns * 2 ^ j) (node_peaks h ns)

  pub make-tree_at :
      (j n : ℕ) (ns hashes : List Bytes)
      → n ≡ length ns * 2 ^ j
      → hashes ≡ node_peaks h ns
      → make h n hashes ≡ ok (tree_at j ns none)
  unfolding make
  make-tree_at j n ns hashes size same =
      (λ i. make h (size i) (same i))
      ∙ rw ((==_iff (length (node_peaks h ns)) (count_bits_set (length ns * 2 ^ j))).1 count)
    where
      count : length (node_peaks h ns) ≡ count_bits_set (length ns * 2 ^ j)
      count = length-node_peaks h ns ∙ sym (count_bits_set_shift (length ns) j)

  -- A node more on a level of an even number of nodes.
  push_even :
      (f j m : ℕ) (ns : List Bytes) (x : Bytes) (cache : Option Bytes)
      → length ns ≡ 2 * m
      → push_subtree_hash (suc f) (tree_at j ns cache) (suc j) x
        ≡ ok (tree_at j (ns ++ x ∷ []) none)
  push_even f j m ns x cache e =
      push_free f (tree_at j ns cache) (suc j) x (free j m (length ns * 2 ^ j) size)
      ∙ unfold update in
        make-tree_at j (length ns * 2 ^ j + 2 ^ (suc j - 1)) (ns ++ x ∷ [])
          (node_peaks h ns ++ x ∷ []) grown
          (sym (peaks-push_even (hash_children h) (hash_empty h) m ns x e))
    where
      size : length ns * 2 ^ j ≡ m * 2 ^ suc j
      size = ap (λ (t : ℕ). t * 2 ^ j) e ∙ omega (arith, ap (λ (t : ℕ). m * t) (pow-suc 2 j))

      grown : length ns * 2 ^ j + 2 ^ (suc j - 1) ≡ length (ns ++ x ∷ []) * 2 ^ j
      grown = grown_by (length ns) j ∙ ap (λ (t : ℕ). t * 2 ^ j) (sym (length-append ns (x ∷ [])))

  -- The same after one carry, which leaves the level above and a higher subtree to push.
  push_odd :
      (f j m : ℕ) (zs : List Bytes) (y x : Bytes) (cache : Option Bytes)
      → length zs ≡ 2 * m
      → push_subtree_hash (suc f) (tree_at j (zs ++ y ∷ []) cache) (suc j) x
        ≡ push_subtree_hash f
            (tree_at (suc j) (joined (hash_children h) (hash_empty h) zs) none)
            (suc j + 1)
            (hash_children h y x)
  push_odd f j m zs y x cache e =
      push_carry f (tree_at j (zs ++ y ∷ []) cache) (tree_at (suc j) above none) (suc j) x y
        (node_peaks h above) blocked ((==_iff (suc j) _).1 (sym height))
        (ap last_hash (peaks_odd (hash_children h) (hash_empty h) m zs y e)
          ∙ last_hash-append (node_peaks h above) y)
        (unfold update in make-tree_at (suc j) _ above (node_peaks h above) smaller refl)
        (ap (λ (t : ℕ). ltb t (lowest_bit_set higher) || lowest_bit_set higher == 0) height
          ∙ free j (length above) higher refl)
    where
      above : List Bytes
      above = joined (hash_children h) (hash_empty h) zs

      higher : ℕ
      higher = length above * 2 ^ suc j

      old_size : ℕ
      old_size = length (zs ++ y ∷ []) * 2 ^ j

      size : old_size ≡ (2 * m + 1) * 2 ^ j
      size = ap (λ (t : ℕ). t * 2 ^ j) (length-append zs (y ∷ []) ∙ ap (λ (t : ℕ). t + 1) e)

      height : lowest_bit_set old_size ≡ suc j
      height = taken j m old_size size

      blocked : (ltb (suc j) (lowest_bit_set old_size) || lowest_bit_set old_size == 0) ≡ false
      blocked = rw (height, le→ltb (suc j) (suc j) (omega arith), ne→== (suc j) 0 (omega arith))

      half : length above ≡ m
      half = omega (arith, length-joined (hash_children h) (hash_empty h) zs)

      smaller : old_size - 2 ^ (suc j - 1) ≡ length above * 2 ^ suc j
      smaller =
          ap (λ (t : ℕ). t - 2 ^ (suc j - 1)) size
          ∙ shrunk_by (2 * m) j
          ∙ omega (arith, ap (λ (t : ℕ). m * t) (pow-suc 2 j))
          ∙ ap (λ (t : ℕ). t * 2 ^ suc j) (sym half)

  after_carry :
      (j m : ℕ) (zs : List Bytes) (y x : Bytes)
      → length zs ≡ 2 * m
      → tree_at
          (suc j)
          (joined (hash_children h) (hash_empty h) zs ++ hash_children h y x ∷ [])
          none
        ≡ tree_at j ((zs ++ y ∷ []) ++ x ∷ []) none
  after_carry j m zs y x e = λ i. tree_of (size i) (same i) none
    where
      above : List Bytes
      above = joined (hash_children h) (hash_empty h) zs

      same :
          node_peaks h (above ++ hash_children h y x ∷ []) ≡ node_peaks h ((zs ++ y ∷ []) ++ x ∷ [])
      same = sym (peaks-push_odd (hash_children h) (hash_empty h) m zs y x e)

      pushed : length (above ++ hash_children h y x ∷ []) ≡ m + 1
      pushed = omega (
        arith,
        length-append above (hash_children h y x ∷ []),
        length-joined (hash_children h) (hash_empty h) zs,
      )

      all : length ((zs ++ y ∷ []) ++ x ∷ []) ≡ 2 * (m + 1)
      all = omega (arith, length-append (zs ++ y ∷ []) (x ∷ []), length-append zs (y ∷ []))

      size :
          length (above ++ hash_children h y x ∷ []) * 2 ^ suc j
          ≡ length ((zs ++ y ∷ []) ++ x ∷ []) * 2 ^ j
      size =
          ap (λ (t : ℕ). t * 2 ^ suc j) pushed
          ∙ omega (arith, ap (λ (t : ℕ). (m + 1) * t) (pow-suc 2 j))
          ∙ ap (λ (t : ℕ). t * 2 ^ j) (sym all)

  abbrev PushesAt : ℕ → ℕ → Type 0
  PushesAt f j =
      (ns : List Bytes) (x : Bytes) (cache : Option Bytes)
      → length ns < f
      → push_subtree_hash f (tree_at j ns cache) (suc j) x ≡ ok (tree_at j (ns ++ x ∷ []) none)

  carried :
      (f j m : ℕ) (zs : List Bytes) (y x : Bytes) (cache : Option Bytes)
      → length zs ≡ 2 * m
      → length zs < f
      → PushesAt f (suc j)
      → push_subtree_hash (suc f) (tree_at j (zs ++ y ∷ []) cache) (suc j) x
        ≡ ok (tree_at j ((zs ++ y ∷ []) ++ x ∷ []) none)
  carried f j m zs y x cache e q ih =
      push_odd f j m zs y x cache e
      ∙ ap (λ (t : ℕ). push_subtree_hash f (tree_at (suc j) above none) t (hash_children h y x))
          next
      ∙ ih above (hash_children h y x) none
          (omega (arith, length-joined (hash_children h) (hash_empty h) zs))
      ∙ ap ok (after_carry j m zs y x e)
    where
      above : List Bytes
      above = joined (hash_children h) (hash_empty h) zs

      next : suc j + 1 ≡ suc (suc j)
      next = omega arith

  -- `__push_subtree_hash` ends, raises nothing, and puts the subtree's hash at the end of its level.
  pub push_subtree_hash_lem : (f j : ℕ) → PushesAt f j
  push_subtree_hash_lem zero j ns x cache p = absurd (omega arith)
  push_subtree_hash_lem (suc f) j ns x cache p = elim (parity (length ns)) [
    | inl even ↦ push_even f j (length ns / 2) ns x cache even
    | inr odd ↦
        let (zs, y, e) = last_element ns (omega arith) in
        let count : length ns ≡ length zs + 1 = ap length e ∙ length-append zs (y ∷ []) in
        ap (λ (t : List Bytes). push_subtree_hash (suc f) (tree_at j t cache) (suc j) x) e
        ∙ carried f j (length ns / 2) zs y x cache (omega (arith, count)) (omega (arith, count))
            (push_subtree_hash_lem f (suc j))
        ∙ ap (λ (t : List Bytes). ok (tree_at j (t ++ x ∷ []) none)) (sym e)
  ]
