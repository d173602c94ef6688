-- ===== src/Merkle/Full.antt =====
-- TreeHasher._hash_full and hash_full_tree of python/ct/crypto/merkle.py compute the Merkle tree hash
-- of RFC 6962 section 2.1, and none of their assertions fails.
use sky_zadro_docs.Common.{
  ℕ, zero, suc, ◌+◌, ◌-◌, ◌*◌, ◌^◌, ◌≤◌, ◌<◌, ◌==◌, if◌then◌else◌, Bool, List, [], ◌∷◌, ◌++◌, map,
  length, length-append, length-map, ◌≡◌, refl, sym, ap, ◌∙◌, arith, inl, inr, slice, slice-add,
  length-slice, slice_one, get_elem?-some, lt→ltb, le→leb, le→ltb, ==_iff, ne→==, Bool-cases,
}
use sky_zadro_docs.Errors.{ok}
use sky_zadro_docs.Levels.Split.{split_exp, split_bounds}
use sky_zadro_docs.Levels.Root.{root, root-append, root_single, root_empty}
use sky_zadro_docs.Levels.Peaks.{peaks, peaks_full, peaks-append}
use sky_zadro_docs.Levels.Consistency.{consistency}
use sky_zadro_docs.Merkle.Hasher.{
  Bytes, TreeHasher, hash_empty, hash_leaf, hash_children, hash_one, hash_full,
}
use mathlib.Core.Bool.{false≢true}
use sky_zadro_docs.Levels.Push.{peaks_single}
use mathlib.Core.List.{map-append}
use native.Mathlib.Nat.{one-le-pow, pow-suc}

module _ (h : TreeHasher) where
  -- The hashes of the leaves: the lowest level of the tree.
  abbrev pub nodes : List Bytes → List Bytes
  nodes leaves = map (hash_leaf h) leaves

  -- The Merkle tree hash of a list of leaves, and the hashes of its full subtrees.
  abbrev pub node_root : List Bytes → Bytes
  node_root = root (hash_children h) (hash_empty h)

  abbrev pub node_peaks : List Bytes → List Bytes
  node_peaks = peaks (hash_children h) (hash_empty h)

  abbrev pub node_consistency : Bool → List Bytes → ℕ → List Bytes
  node_consistency = consistency (hash_children h) (hash_empty h)

  -- Two or more leaves, when both halves are known.
  hash_full_split :
      (f l w : ℕ) (leaves : List Bytes) (a b : Bytes) (xs ys : List Bytes)
      → 1 < w
      → l + w ≤ length leaves
      → hash_full h f leaves l (l + 2 ^ split_exp w) ≡ ok (a, xs)
      → length xs ≡ 1
      → hash_full h f leaves (l + 2 ^ split_exp w) (l + w) ≡ ok (b, ys)
      → hash_full h (suc f) leaves l (l + w)
        ≡ ok (
          hash_children h a b,
          (if 2 ^ split_exp w * 2 == w then hash_children h a b ∷ [] else xs ++ ys),
        )
  unfolding hash_full split_exp
  hash_full_split f l w leaves a b xs ys p q left one right = rw (
    width,
    le→ltb (l + w) l (omega arith),
    le→ltb (length leaves) (l + w) q,
    ne→== w 0 (omega arith),
    ne→== w 1 (omega arith),
    lt→ltb (2 ^ split_exp w) w bounds.0,
    le→leb w (2 * 2 ^ split_exp w) bounds.1,
    left,
    (==_iff (length xs) 1).1 one,
    right,
  )
    where
      width : l + w - l ≡ w
      width = omega arith

      bounds : (2 ^ split_exp w < w) × (w ≤ 2 * 2 ^ split_exp w)
      bounds = split_bounds w p

  -- The hashes of the full subtrees, where a tree is split.
  node_peaks_split :
      (j w : ℕ) (xs ys : List Bytes)
      → length xs ≡ 2 ^ j
      → length xs + length ys ≡ w
      → 0 < length ys
      → length ys ≤ 2 ^ j
      → (if 2 ^ j * 2 == w
          then hash_children h (node_root xs) (node_root ys) ∷ []
          else node_peaks xs ++ node_peaks ys)
        ≡ node_peaks (xs ++ ys)
  node_peaks_split j w xs ys p q r s = elim (Bool-cases (2 ^ j * 2 == w)) [
    | inl full ↦ rw full (
        ap (λ (t : Bytes). t ∷ [])
          (sym (root-append (hash_children h) (hash_empty h) j xs ys p r s))
        ∙ sym (
            peaks_full (hash_children h) (hash_empty h) (suc j) (xs ++ ys)
              (omega (arith, length-append xs ys, pow-suc 2 j, (==_iff (2 ^ j * 2) w).0 full))))
    | inr partial ↦ rw partial (
        sym (
          peaks-append (hash_children h) (hash_empty h) j 1 xs ys (omega arith) (
            omega (
              arith,
              λ (e : 2 ^ j * 2 ≡ w). false≢true (sym partial ∙ (==_iff (2 ^ j * 2) w).1 e),
            ))))
  ]

  length-nodes :
      (l w : ℕ) (leaves : List Bytes)
      → l + w ≤ length leaves
      → length (nodes (slice l w leaves)) ≡ w
  length-nodes l w leaves p =
      length-map (slice l w leaves) (hash_leaf h) ∙ length-slice l w leaves p

  -- `_hash_full` of leaves[l:l + w], with fuel above the number of leaves.
  abbrev FullAt : ℕ → List Bytes → ℕ → ℕ → Type 0
  FullAt f leaves l w =
      hash_full h f leaves l (l + w)
      ≡ ok (node_root (nodes (slice l w leaves)), node_peaks (nodes (slice l w leaves)))

  full_none : (f l : ℕ) (leaves : List Bytes) → l ≤ length leaves → FullAt (suc f) leaves l 0
  unfolding hash_full
  full_none f l leaves q = rw (
    width,
    le→ltb (l + 0) l (omega arith),
    le→ltb (length leaves) (l + 0) (omega arith),
    root_empty (hash_children h) (hash_empty h),
    peaks_empty,
  )
    where
      width : l + 0 - l ≡ 0
      width = omega arith

      peaks_empty : node_peaks [] ≡ []
      peaks_empty = unfold peaks in refl

  full_one : (f l : ℕ) (leaves : List Bytes) → l + 1 ≤ length leaves → FullAt (suc f) leaves l 1
  unfolding hash_full hash_one
  full_one f l leaves q =
      let (leaf, e) = get_elem?-some leaves l (omega arith) in
      rw (
        width,
        le→ltb (l + 1) l (omega arith),
        le→ltb (length leaves) (l + 1) q,
        e,
        slice_one l leaves e,
        root_single (hash_children h) (hash_empty h) (hash_leaf h leaf),
        peaks_single (hash_children h) (hash_empty h) (hash_leaf h leaf),
      )
    where
      width : l + 1 - l ≡ 1
      width = omega arith

  -- leaves[l:l + w] in two parts.
  module _ (l w : ℕ) (leaves : List Bytes) (p : 1 < w) (q : l + w ≤ length leaves) where
    abbrev split_at : ℕ
    split_at = 2 ^ split_exp w

    abbrev left_nodes : List Bytes
    left_nodes = nodes (slice l split_at leaves)

    abbrev right_nodes : List Bytes
    right_nodes = nodes (slice (l + split_at) (w - split_at) leaves)

    split_lengths :
        (length left_nodes ≡ split_at)
        × (length left_nodes + length right_nodes ≡ w)
        × (0 < length right_nodes)
        × (length right_nodes ≤ split_at)
    split_lengths = omega (
      arith,
      split_bounds w p,
      length-nodes l split_at leaves (omega (arith, split_bounds w p)),
      length-nodes (l + split_at) (w - split_at) leaves (omega (arith, split_bounds w p)),
    )

    nodes_split : left_nodes ++ right_nodes ≡ nodes (slice l w leaves)
    nodes_split =
        sym (
          map-append (hash_leaf h) (slice l split_at leaves)
            (slice (l + split_at) (w - split_at) leaves))
        ∙ ap nodes (sym (slice-add l split_at (w - split_at) leaves))
        ∙ ap (λ (n : ℕ). nodes (slice l n leaves)) whole
      where
        whole : split_at + (w - split_at) ≡ w
        whole = omega (arith, split_bounds w p)

    full_split :
        (f : ℕ)
        → FullAt f leaves l split_at
        → FullAt f leaves (l + split_at) (w - split_at)
        → FullAt (suc f) leaves l w
    full_split f left right =
        hash_full_split f l w leaves (node_root left_nodes) (node_root right_nodes)
          (node_peaks left_nodes) (node_peaks right_nodes) p q left
          (ap length
            (peaks_full (hash_children h) (hash_empty h) (split_exp w) left_nodes split_lengths.0))
          (ap (hash_full h f leaves (l + split_at)) end ∙ right)
        ∙ (λ i. ok (roots i, parts i))
        ∙ (λ i. ok (node_root (nodes_split i), node_peaks (nodes_split i)))
      where
        end : l + w ≡ l + split_at + (w - split_at)
        end = omega (arith, split_bounds w p)

        roots :
            hash_children h (node_root left_nodes) (node_root right_nodes)
            ≡ node_root (left_nodes ++ right_nodes)
        roots = sym (
            root-append (hash_children h) (hash_empty h) (split_exp w) left_nodes right_nodes
              split_lengths.0 split_lengths.2 split_lengths.3)

        parts :
            (if split_at * 2 == w
              then hash_children h (node_root left_nodes) (node_root right_nodes) ∷ []
              else node_peaks left_nodes ++ node_peaks right_nodes)
            ≡ node_peaks (left_nodes ++ right_nodes)
        parts =
            node_peaks_split (split_exp w) w left_nodes right_nodes split_lengths.0 split_lengths.1
              split_lengths.2 split_lengths.3

  -- `_hash_full` ends whenever the fuel is above the number of leaves, raises nothing on a range of
  -- the leaves, and returns the root and the full subtrees of that range.
  pub hash_full_lem :
      (f l w : ℕ) (leaves : List Bytes) → w < f → l + w ≤ length leaves → FullAt f leaves l w
  hash_full_lem zero l w leaves p q = absurd (omega arith)
  hash_full_lem (suc f) l zero leaves p q = full_none f l leaves (omega arith)
  hash_full_lem (suc f) l (suc zero) leaves p q = full_one f l leaves q
  hash_full_lem (suc f) l (suc (suc n)) leaves p q =
      full_split l (suc (suc n)) leaves (omega arith) q f
        (hash_full_lem f l (2 ^ split_exp (suc (suc n))) leaves
          (omega (arith, split_bounds (suc (suc n)) (omega arith)))
          (omega (arith, split_bounds (suc (suc n)) (omega arith))))
        (hash_full_lem f (l + 2 ^ split_exp (suc (suc n)))
          (suc (suc n) - 2 ^ split_exp (suc (suc n))) leaves
          (omega (arith, one-le-pow (split_exp (suc (suc n))) 2 (omega arith)))
          (omega (arith, split_bounds (suc (suc n)) (omega arith))))
