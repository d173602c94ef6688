-- ===== src/Merkle/Compact/Session.antt =====
-- python/ct/crypto/merkle.py: the root hash of a CompactMerkleTree, its copies, and its whole life.
use sky_zadro_docs.Common.{
  ◌<◌, List, [], ◌∷◌, ◌++◌, length, some, ◌≡◌, refl, sym, ap, ◌∙◌, arith, inl, inr, append-nil,
  append_assoc,
}
use sky_zadro_docs.Errors.{Result, ok, ◌>>=◌}
use sky_zadro_docs.Levels.Root.{root_empty}
use sky_zadro_docs.Levels.Peaks.{peaks}
use sky_zadro_docs.Levels.Fold.{length-peaks_pos}
use sky_zadro_docs.Merkle.Hasher.{
  Bytes, TreeHasher, hash_empty, hash_children, hash_fold, hash_full_tree,
}
use sky_zadro_docs.Merkle.Full.{nodes, node_root, node_peaks}
use sky_zadro_docs.Merkle.Tree.{merkle_root, hash_full_tree_lem, hash_fold-peaks}
use sky_zadro_docs.Merkle.Compact.{
  CompactMerkleTree, make, update, load, save, copy, compute_root, root_hash, extend, extended,
}
use sky_zadro_docs.Merkle.Compact.Refines.{
  Represents, Gives, make-Gives, make_empty, extend_refines,
}

-- A tree that takes blocks of leaves one after another.
unfoldable pub grow : CompactMerkleTree → List (List Bytes) → Result CompactMerkleTree
grow t [] = ok t
grow t (block ∷ rest) = extend t block >>= λ u. grow u rest

-- A new tree, the blocks, and the root hash.
unfoldable pub grown_root : TreeHasher → List (List Bytes) → Result Bytes
grown_root h blocks = do t ← make h 0 []; u ← grow t blocks; (root, kept) ← root_hash u; ok root

abbrev pub all_leaves : List (List Bytes) → List Bytes
all_leaves [] = []
all_leaves (block ∷ rest) = block ++ all_leaves rest

module _ (h : TreeHasher) where
  compute_fold :
      (hashes : List Bytes) → 0 < length hashes → compute_root h hashes ≡ hash_fold h hashes
  unfolding compute_root
  compute_fold [] p = absurd (omega arith)
  compute_fold (a ∷ r) p = refl

  compute_root-peaks : (ns : List Bytes) → compute_root h (node_peaks h ns) ≡ ok (node_root h ns)
  compute_root-peaks [] =
      unfold compute_root peaks in ap ok (sym (root_empty (hash_children h) (hash_empty h)))
  compute_root-peaks (a ∷ r) =
      compute_fold (node_peaks h (a ∷ r))
        (length-peaks_pos (hash_children h) (hash_empty h) (a ∷ r) (omega arith))
      ∙ hash_fold-peaks h (a ∷ r) (omega arith)

  -- The root hash of a tree for some leaves is the Merkle tree hash of these leaves, kept or not, and
  -- the tree that keeps it is a tree for the same leaves.
  pub root_hash_refines :
      (leaves : List Bytes) (t : CompactMerkleTree)
      → Represents h leaves t
      → (u : CompactMerkleTree) × (root_hash t ≡ ok (merkle_root h leaves, u))
        × Represents h leaves u
  unfolding root_hash merkle_root
  root_hash_refines leaves t r = elim r.kept [
    | inr kept ↦ (t, rw kept, r)
    | inl fresh ↦ (
      record t { cached_root = some (node_root h (nodes h leaves)) },
      rw (fresh, r.same_hasher, r.subtrees, compute_root-peaks (nodes h leaves)),
      record {
        same_hasher = r.same_hasher;
        size = r.size;
        subtrees = r.subtrees;
        smallest = r.smallest;
        kept = inr refl;
      },
    )
  ]

  -- Loading what a tree for some leaves has saved, into any tree with the same hasher, raises nothing
  -- and gives a tree for the same leaves.
  pub load-save_refines :
      (leaves : List Bytes) (t other : CompactMerkleTree)
      → Represents h leaves t
      → other.hasher ≡ h
      → Gives h (load other (save t)) leaves
  unfolding load update save
  load-save_refines leaves t other r e =
      let (u, run, good) = make-Gives h leaves t.hashes t.tree_size r.size r.subtrees in
      (u, ap (λ (g : TreeHasher). make g t.tree_size t.hashes) e ∙ run, good)

  -- Extending a copy raises nothing and gives a tree for the leaves of the original and the new ones.
  pub extended_refines :
      (leaves new_leaves : List Bytes) (t : CompactMerkleTree)
      → Represents h leaves t
      → Gives h (extended t new_leaves) (leaves ++ new_leaves)
  unfolding extended copy
  extended_refines leaves new_leaves t r =
      let (u, run, good) = make-Gives h leaves t.hashes t.tree_size r.size r.subtrees in
      let (v, run', good') = extend_refines h leaves new_leaves u good in
      (
        v,
        ap (λ (g : TreeHasher). make g t.tree_size t.hashes >>= λ w. extend w new_leaves)
              r.same_hasher
            ∙ ap (λ (w : Result CompactMerkleTree). w >>= λ w. extend w new_leaves) run
            ∙ run',
        good',
      )

  grow_refines :
      (blocks : List (List Bytes)) (leaves : List Bytes) (t : CompactMerkleTree)
      → Represents h leaves t
      → Gives h (grow t blocks) (leaves ++ all_leaves blocks)
  unfolding grow
  grow_refines [] leaves t r = (t, refl, rw (append-nil leaves) r)
  grow_refines (block ∷ rest) leaves t r =
      let (u, run, good) = extend_refines h leaves block t r in
      let (v, run', good') = grow_refines rest (leaves ++ block) u good in
      (
        v,
        ap (λ (w : Result CompactMerkleTree). w >>= λ w. grow w rest) run ∙ run',
        rw (sym (append_assoc leaves block (all_leaves rest))) good',
      )

  -- A new tree that takes blocks of leaves of any sizes, one after another, has in the end the root
  -- hash that hash_full_tree computes of all the leaves at once.
  pub grown_root-hash_full_tree :
      (blocks : List (List Bytes)) → grown_root h blocks ≡ hash_full_tree h (all_leaves blocks)
  unfolding grown_root
  grown_root-hash_full_tree blocks =
      let (t, made, start) = make_empty h in
      let (u, grown, good) = grow_refines blocks [] t start in
      let (v, rooted, kept) = root_hash_refines (all_leaves blocks) u good in
      rw (made, grown, rooted, hash_full_tree_lem h (all_leaves blocks))
