-- ===== src/Merkle/Tree.antt =====
-- TreeHasher.hash_full_tree and _hash_fold of python/ct/crypto/merkle.py, against the Merkle tree
-- hash of RFC 6962 section 2.1.
use sky_zadro_docs.Common.{
  ℕ, zero, suc, ◌≤◌, ◌<◌, List, [], ◌∷◌, ◌++◌, length, length-append, length-map, ◌≡◌, refl, sym,
  ap, ◌∙◌, arith, slice, take_all, ==_iff,
}
use sky_zadro_docs.Errors.{Result, ok, ◌>>=◌}
use sky_zadro_docs.Levels.Root.{root_empty}
use sky_zadro_docs.Levels.Peaks.{peaks, peaks_step, joined, odd_one, length-joined, length-odd_one}
use sky_zadro_docs.Levels.Fold.{fold_right, fold_right-peaks, length-peaks_pos}
use sky_zadro_docs.Merkle.Bits.{count_bits_set, count_bits_set_half, count_bits_set_zero}
use sky_zadro_docs.Merkle.Hasher.{
  Bytes, bytes_eq_refl, TreeHasher, hash_empty, hash_leaf, hash_children, fold_reversed, hash_fold,
  hash_full, assert_root, hash_full_tree,
}
use sky_zadro_docs.Merkle.Full.{nodes, node_root, node_peaks, hash_full_lem}
use mathlib.Core.List.{reverse, reverse-append, foldl-append}

module _ (h : TreeHasher) where
  fold_reversed-append :
      (zs : List Bytes) (a v : Bytes)
      → fold_reversed h zs ≡ ok v
      → fold_reversed h (zs ++ a ∷ []) ≡ ok (hash_children h a v)
  fold_reversed-append [] a v e = cc
  fold_reversed-append (c ∷ t) a v e =
      ap ok (foldl-append (λ accum cur. hash_children h cur accum) c t (a ∷ []))
      ∙ ap (λ (r : Result Bytes). r >>= λ accum. ok (hash_children h a accum)) e

  pub hash_fold_lem :
      (a : Bytes) (r : List Bytes)
      → hash_fold h (a ∷ r) ≡ ok (fold_right (hash_children h) (hash_empty h) (a ∷ r))
  unfolding hash_fold
  hash_fold_lem a [] = refl
  hash_fold_lem a (b ∷ r) =
      ap (fold_reversed h) (reverse-append (a ∷ []) (b ∷ r))
      ∙ fold_reversed-append (reverse (b ∷ r)) a _ (hash_fold_lem b r)

  -- As many full subtrees as the number of leaves has ones in binary.
  length-peaks_below :
      (n : ℕ) (xs : List Bytes)
      → length xs ≤ n
      → length (node_peaks h xs) ≡ count_bits_set (length xs)
  length-peaks_below n [] p = unfold peaks in sym count_bits_set_zero
  length-peaks_below zero (x ∷ xs) p = absurd (omega arith)
  length-peaks_below (suc n) (x ∷ xs) p = omega (
    arith,
    ap length (peaks_step join empty (x ∷ xs)),
    length-append (node_peaks h above) (odd_one join empty (x ∷ xs)),
    length-odd_one join empty (x ∷ xs),
    length-peaks_below n above (omega (arith, length-joined join empty (x ∷ xs))),
    ap count_bits_set (length-joined join empty (x ∷ xs)),
    count_bits_set_half (length (x ∷ xs)),
  )
    where
      join : Bytes → Bytes → Bytes
      join = hash_children h

      empty : Bytes
      empty = hash_empty h

      above : List Bytes
      above = joined join empty (x ∷ xs)

  pub length-node_peaks : (xs : List Bytes) → length (node_peaks h xs) ≡ count_bits_set (length xs)
  length-node_peaks xs = length-peaks_below (length xs) xs (omega arith)

  -- The fold of the full subtrees is the root.
  pub hash_fold-peaks :
      (xs : List Bytes) → 0 < length xs → hash_fold h (node_peaks h xs) ≡ ok (node_root h xs)
  hash_fold-peaks xs p =
      fold_nonempty (node_peaks h xs) (length-peaks_pos (hash_children h) (hash_empty h) xs p)
      ∙ ap ok (fold_right-peaks (hash_children h) (hash_empty h) xs p)
    where
      fold_nonempty :
          (ys : List Bytes)
          → 0 < length ys
          → hash_fold h ys ≡ ok (fold_right (hash_children h) (hash_empty h) ys)
      fold_nonempty [] q = absurd (omega arith)
      fold_nonempty (y ∷ ys) q = hash_fold_lem y ys

  assert_root-peaks : (xs : List Bytes) → assert_root h (node_peaks h xs) (node_root h xs) ≡ ok tt
  assert_root-peaks [] =
      unfold assert_root peaks in
      rw (root_empty (hash_children h) (hash_empty h), bytes_eq_refl (hash_empty h))
  assert_root-peaks (x ∷ xs) =
      go (node_peaks h (x ∷ xs))
        (length-peaks_pos (hash_children h) (hash_empty h) (x ∷ xs) (omega arith))
        (hash_fold-peaks (x ∷ xs) (omega arith))
    where
      go :
          (ps : List Bytes)
          → 0 < length ps
          → hash_fold h ps ≡ ok (node_root h (x ∷ xs))
          → assert_root h ps (node_root h (x ∷ xs)) ≡ ok tt
      go [] q e = absurd (omega arith)
      go (p ∷ ps) q e = unfold assert_root in rw (e, bytes_eq_refl (node_root h (x ∷ xs)))

  -- The Merkle tree hash of a list of leaves.
  unfoldable pub merkle_root : List Bytes → Bytes
  merkle_root leaves = node_root h (nodes h leaves)

  full_range :
      (leaves : List Bytes)
      → hash_full h (suc (length leaves)) leaves 0 (length leaves)
        ≡ ok (node_root h (nodes h leaves), node_peaks h (nodes h leaves))
  full_range leaves =
      ap (hash_full h (suc (length leaves)) leaves 0) (omega arith)
      ∙ hash_full_lem h (suc (length leaves)) 0 (length leaves) leaves (omega arith) (omega arith)
      ∙ (λ i. ok (node_root h (nodes h (all i)), node_peaks h (nodes h (all i))))
    where
      all : slice 0 (length leaves) leaves ≡ leaves
      all = take_all (length leaves) leaves (omega arith)

  -- hash_full_tree returns the Merkle tree hash on every list of leaves: it ends, and neither the
  -- range check nor an assertion fails.
  pub hash_full_tree_lem : (leaves : List Bytes) → hash_full_tree h leaves ≡ ok (merkle_root leaves)
  unfolding hash_full_tree merkle_root
  hash_full_tree_lem leaves = rw (
    full_range leaves,
    (==_iff (length (node_peaks h (nodes h leaves))) (count_bits_set (length leaves))).1 count,
    assert_root-peaks (nodes h leaves),
  )
    where
      count : length (node_peaks h (nodes h leaves)) ≡ count_bits_set (length leaves)
      count =
          length-node_peaks (nodes h leaves) ∙ ap count_bits_set (length-map leaves (hash_leaf h))
