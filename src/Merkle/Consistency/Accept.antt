-- ===== src/Merkle/Consistency/Accept.antt =====
-- verify_tree_consistency of python/ct/crypto/merkle.py accepts the consistency proofs of RFC 6962.
use sky_zadro_docs.Common.{
  ℕ, zero, suc, ◌-◌, ◌≤◌, ◌<◌, List, [], ◌++◌, length, length-map, take, map-take, get_elem?,
  get_elem?-some, Option, some, true, ne→==, ◌≡◌, sym, ap, ◌∙◌, arith,
}
use sky_zadro_docs.Errors.{Result, ok, ◌>>=◌}
use sky_zadro_docs.Levels.Root.{root_single}
use sky_zadro_docs.Levels.Consistency.{start, to_list, consistency_even}
use sky_zadro_docs.Levels.Older.{older, older_self}
use sky_zadro_docs.Merkle.Hasher.{
  Bytes, bytes_eq_refl, TreeHasher, hash_empty, hash_leaf, hash_children,
}
use sky_zadro_docs.Merkle.Full.{nodes, node_root, node_consistency}
use sky_zadro_docs.Merkle.Tree.{merkle_root}
use sky_zadro_docs.Merkle.Inclusion.Complete.{node_audit}
use sky_zadro_docs.Merkle.Verifier.{
  Hashes, hashes, climb_right, next, both_loop, new_loop, first_hashes, compare_roots, too_short,
  verify_path,
}
use sky_zadro_docs.Merkle.Consistency.Climb.{Climbed, climb_right_lem}
use sky_zadro_docs.Merkle.Consistency.Complete.{BothDone, both_loop_complete, new_loop_complete}

compare_roots_same : (a b : Bytes) → compare_roots a b (hashes a b []) ≡ ok true
unfolding compare_roots
compare_roots_same a b = rw (bytes_eq_refl b, bytes_eq_refl a)

module _ (h : TreeHasher) where
  -- Both hashes begin as the hash of the node at which the first loop ends.
  first_hashes_lem :
      (ns : List Bytes) (node : ℕ) (old_root c : Bytes)
      → get_elem? ns node ≡ some c
      → old_root ≡ node_root h (take (suc node) ns)
      → first_hashes node old_root
          (start (hash_children h) (hash_empty h) true ns node ++ node_audit h ns node)
        ≡ ok (hashes c c (node_audit h ns node))
  unfolding first_hashes next
  first_hashes_lem ns zero old_root c e p =
      ap (λ (x : Bytes). ok (hashes x x (node_audit h ns 0)))
        (p
          ∙ ap (node_root h) (sym (older_self (hash_children h) ns 0 e))
          ∙ root_single (hash_children h) (hash_empty h) c)
  first_hashes_lem ns (suc node) old_root c e p = rw (ne→== (suc node) 0 (omega arith)) (
      ap
        (λ (o : Option Bytes).
          next (to_list (hash_children h) (hash_empty h) o ++ node_audit h ns (suc node)) >>= after)
        e)
    where
      after : Bytes × List Bytes → Result Hashes
      after (first, rest) = ok (hashes first first rest)

  loops_accept :
      (f : ℕ) (ns : List Bytes) (node : ℕ) (old_root c : Bytes)
      → node < f
      → length ns ≤ f
      → get_elem? ns node ≡ some c
      → old_root ≡ node_root h (take (suc node) ns)
      → (do
        (last', s') ← both_loop h f node (length ns - 1) (hashes c c (node_audit h ns node))
        s'' ← new_loop h f last' s'
        compare_roots old_root (node_root h ns) s'')
        ≡ ok true
  loops_accept f ns node old_root c p q e r =
      let d : BothDone h ns node c
          (both_loop h f node (length ns - 1) (hashes c c (node_audit h ns node))) =
        both_loop_complete h f ns node c c p e in
      let x : Bytes = node_root h (older (hash_children h) ns node c) in
      rw (d.result, new_loop_complete h f d.level x d.new (omega (arith, d.fits)) d.at_zero)
        ((λ i. compare_roots (old i) (sym d.same_root i) (hashes x (node_root h d.level) []))
          ∙ compare_roots_same x (node_root h d.level))
    where
      old : old_root ≡ node_root h (older (hash_children h) ns node c)
      old = r ∙ ap (node_root h) (sym (older_self (hash_children h) ns node e))

  -- The proof by levels is accepted for every older tree of some, but not all, leaves.
  pub verify_path_accepts :
      (leaves : List Bytes) (m : ℕ)
      → 0 < m
      → m < length leaves
      → verify_path h m
          (length leaves)
          (merkle_root h (take m leaves))
          (merkle_root h leaves)
          (node_consistency h true (nodes h leaves) (m - 1))
        ≡ ok true
  unfolding verify_path merkle_root
  verify_path_accepts leaves m some_old lt =
      let n : ℕ = length leaves in
      let climbed : Climbed h (nodes h leaves) (m - 1)
          (climb_right (suc n) (m - 1) (length (nodes h leaves) - 1)) =
        climb_right_lem h (suc n) (nodes h leaves) (m - 1) (omega arith)
          (omega (arith, length-map leaves (hash_leaf h))) in
      let begin : climb_right (suc n) (m - 1) (n - 1) ≡ ok (climbed.at, length climbed.level - 1) =
        ap (λ (k : ℕ). climb_right (suc n) (m - 1) (k - 1)) (sym (length-map leaves (hash_leaf h)))
        ∙ climbed.result in
      let (c, e) = get_elem?-some climbed.level climbed.at climbed.inside in
      let old_root : Bytes = node_root h (nodes h (take m leaves)) in
      let same_old : old_root ≡ node_root h (take (suc climbed.at) climbed.level) =
        ap (node_root h) (sym prefix) ∙ sym climbed.same_old in
      let proof : node_consistency h true (nodes h leaves) (m - 1)
          ≡ start (hash_children h) (hash_empty h) true climbed.level climbed.at
            ++ node_audit h climbed.level climbed.at =
        climbed.same_proof true
        ∙ consistency_even (hash_children h) (hash_empty h) true climbed.level climbed.at
            climbed.is_even in
      rw
        (
          begin,
          proof,
          first_hashes_lem climbed.level climbed.at old_root c e same_old,
          sym climbed.same_root,
        )
        (ap too_short (
          loops_accept (suc n) climbed.level climbed.at old_root c
            (omega (arith, climbed.inside, climbed.fits, length-map leaves (hash_leaf h)))
            (omega (arith, climbed.fits, length-map leaves (hash_leaf h))) e same_old))
    where
      suc_pred : suc (m - 1) ≡ m
      suc_pred = omega arith

      prefix : take (suc (m - 1)) (nodes h leaves) ≡ nodes h (take m leaves)
      prefix =
          ap (λ (k : ℕ). take k (nodes h leaves)) suc_pred ∙ sym (map-take (hash_leaf h) m leaves)
