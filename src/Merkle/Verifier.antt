-- ===== src/Merkle/Verifier.antt =====
-- python/ct/crypto/merkle.py: MerkleVerifier.
use sky_zadro_docs.Common.{
  ℕ, zero, suc, ◌+◌, ◌-◌, ◌/◌, ◌%◌, ◌==◌, ltb, leb, if◌then◌else◌, ◌||◌, Bool, true, List, [], ◌∷◌,
  length,
}
use sky_zadro_docs.Common.Int.{ℤ, pos}
use sky_zadro_docs.Errors.{
  Result, ok, raise, ◌>>=◌, value_error, consistency_error, proof_error, stop_iteration,
  out_of_fuel, returns_true_or_raises,
}
use sky_zadro_docs.Merkle.Hasher.{Bytes, bytes_eq, TreeHasher, hash_leaf, hash_children}

-- The parts of a signed tree head that the verifier reads.
pub record TreeHead : Type 0 where
  pub tree_size : ℤ
  pub sha256_root_hash : Bytes

-- `while node % 2: node //= 2; last_node //= 2`
unfoldable pub climb_right : ℕ → ℕ → ℕ → Result (ℕ × ℕ)
climb_right zero node last_node = raise out_of_fuel
climb_right (suc f) node last_node =
    let rest = climb_right f (node / 2) (last_node / 2) in
    if node % 2 == 1 then rest else ok (node, last_node)

-- `p.next()`: the next hash, and those after it
unfoldable pub next : List Bytes → Result (Bytes × List Bytes)
next [] = raise stop_iteration
next (a ∷ r) = ok (a, r)

-- The two hashes of verify_tree_consistency, and the hashes that are left.
pub record Hashes : Type 0 where
  pub old_hash : Bytes
  pub new_hash : Bytes
  pub rest : List Bytes

abbrev pub hashes : Bytes → Bytes → List Bytes → Hashes
hashes old new rest = record { old_hash = old; new_hash = new; rest = rest }

-- `if node: new_hash = old_hash = p.next() else: new_hash = old_hash = old_root`
unfoldable pub first_hashes : ℕ → Bytes → List Bytes → Result Hashes
first_hashes node old_root proof =
    let sent : Result Hashes = do (first, rest) ← next proof; ok (hashes first first rest)
    in if node == 0 then ok (hashes old_root old_root proof) else sent

-- The comparison with the two given roots, last in the `try` block.
unfoldable pub compare_roots : Bytes → Bytes → Hashes → Result Bool
compare_roots old_root new_root s =
    if bytes_eq s.new_hash new_root
    then (if bytes_eq s.old_hash old_root then ok true else raise consistency_error)
    else raise proof_error

-- `except StopIteration: raise error.ProofError`
abbrev pub too_short : Result Bool → Result Bool
too_short (ok b) = ok b
too_short (raise stop_iteration) = raise proof_error
too_short (raise e) = raise e

module _ (h : TreeHasher) where
  -- `while node: …`, with last_node
  unfoldable pub both_loop : ℕ → ℕ → ℕ → Hashes → Result (ℕ × Hashes)
  both_loop zero node last_node s = raise out_of_fuel
  both_loop (suc f) node last_node s =
      let right : Result (ℕ × Hashes) = do
        (next_node, rest) ← next s.rest
        both_loop f (node / 2) (last_node / 2) (
            hashes (hash_children h next_node s.old_hash) (hash_children h next_node s.new_hash)
              rest)
      in let left : Result (ℕ × Hashes) = do
        (next_node, rest) ← next s.rest
        both_loop f (node / 2) (last_node / 2)
            (hashes s.old_hash (hash_children h s.new_hash next_node) rest)
        in let alone = both_loop f (node / 2) (last_node / 2) s in
          if node == 0
          then ok (last_node, s)
          else if node % 2 == 1
          then right
          else if ltb node last_node
          then left
          else alone

  -- `while last_node: …`
  unfoldable pub new_loop : ℕ → ℕ → Hashes → Result Hashes
  new_loop zero last_node s = raise out_of_fuel
  new_loop (suc f) last_node s =
      let left : Result Hashes = do
        (next_node, rest) ← next s.rest
        new_loop f (last_node / 2) (hashes s.old_hash (hash_children h s.new_hash next_node) rest)
      in if last_node == 0 then ok s else left

  -- From `node = old_size - 1` on, for 0 < old_size < new_size.
  unfoldable pub verify_path : ℕ → ℕ → Bytes → Bytes → List Bytes → Result Bool
  verify_path old_size new_size old_root new_root proof = do
    (node, last_node) ← climb_right (suc new_size) (old_size - 1) (new_size - 1)
    too_short (do
      s ← first_hashes node old_root proof
      (last', s') ← both_loop (suc new_size) node last_node s
      s'' ← new_loop (suc new_size) last' s'
      compare_roots old_root new_root s'')

  unfoldable pub check_tree_consistency : ℤ → ℤ → Bytes → Bytes → List Bytes → Result Bool
  check_tree_consistency (pos old_size) (pos new_size) old_root new_root proof =
      if ltb new_size old_size
      then raise value_error
      else if old_size == new_size
      then (if bytes_eq old_root new_root then ok true else raise consistency_error)
      else if old_size == 0
      then ok true
      else verify_path old_size new_size old_root new_root proof
  check_tree_consistency _ _ old_root new_root proof = raise value_error

  unfoldable pub verify_tree_consistency : ℤ → ℤ → Bytes → Bytes → List Bytes → Result Bool
  unfolding check_tree_consistency returns_true_or_raises
  verify_tree_consistency old_size new_size old_root new_root proof =
      returns_true_or_raises (check_tree_consistency old_size new_size old_root new_root proof)

  -- `while last_node > 0: …` and the test for hashes that are left, of
  -- _calculate_root_hash_from_audit_path. The list is what `audit_path` still holds.
  unfoldable pub audit_loop : ℕ → Bytes → ℕ → List Bytes → ℕ → Result Bytes
  audit_loop zero calculated_hash node_index audit_path last_node = raise out_of_fuel
  audit_loop (suc f) calculated_hash node_index [] last_node =
      if last_node == 0 then ok calculated_hash else raise proof_error
  audit_loop (suc f) calculated_hash node_index (audit_hash ∷ rest) last_node =
      let right =
        audit_loop f (hash_children h audit_hash calculated_hash) (node_index / 2) rest
          (last_node / 2) in
      let left =
        audit_loop f (hash_children h calculated_hash audit_hash) (node_index / 2) rest
          (last_node / 2) in
      let alone =
        audit_loop f calculated_hash (node_index / 2) (audit_hash ∷ rest) (last_node / 2) in
      if last_node == 0
      then raise proof_error
      else if node_index % 2 == 1
      then right
      else if ltb node_index last_node
      then left
      else alone

  -- For a tree of no leaf `last_node` is -1, and the loop ends at once as it does for 0.
  unfoldable pub calculate_root_hash_from_audit_path : Bytes → ℕ → List Bytes → ℕ → Result Bytes
  calculate_root_hash_from_audit_path leaf_hash node_index audit_path tree_size =
      audit_loop (suc tree_size) leaf_hash node_index audit_path (tree_size - 1)

  -- For two sizes that are not negative.
  unfoldable pub check_leaf_at : Bytes → ℕ → List Bytes → ℕ → Bytes → Result Bool
  check_leaf_at leaf_hash leaf_index proof tree_size root_hash =
      if leb tree_size leaf_index then raise value_error else (do
        calculated ← calculate_root_hash_from_audit_path leaf_hash leaf_index proof tree_size
        if bytes_eq calculated root_hash then ok true else raise proof_error)

  unfoldable pub check_leaf_hash_inclusion : Bytes → ℤ → List Bytes → ℤ → Bytes → Result Bool
  check_leaf_hash_inclusion leaf_hash (pos leaf_index) proof (pos tree_size) root_hash =
      check_leaf_at leaf_hash leaf_index proof tree_size root_hash
  check_leaf_hash_inclusion leaf_hash _ proof _ root_hash = raise value_error

  unfoldable pub verify_leaf_hash_inclusion : Bytes → ℤ → List Bytes → TreeHead → Result Bool
  unfolding check_leaf_hash_inclusion returns_true_or_raises
  verify_leaf_hash_inclusion leaf_hash leaf_index proof sth =
      returns_true_or_raises
        (check_leaf_hash_inclusion leaf_hash leaf_index proof sth.tree_size sth.sha256_root_hash)

  unfoldable pub verify_leaf_inclusion : Bytes → ℤ → List Bytes → TreeHead → Result Bool
  unfolding verify_leaf_hash_inclusion
  verify_leaf_inclusion leaf leaf_index proof sth =
      returns_true_or_raises (verify_leaf_hash_inclusion (hash_leaf h leaf) leaf_index proof sth)

-- audit_path_length; a round adds to `length` before the indices are halved.
unfoldable pub audit_length_loop : ℕ → ℕ → ℕ → ℕ → Result ℕ
audit_length_loop zero index last_node length = raise out_of_fuel
audit_length_loop (suc f) index last_node length =
    let more =
      audit_length_loop f (index / 2) (last_node / 2)
        (if index % 2 == 1 || ltb index last_node then length + 1 else length) in
    if last_node == 0 then ok length else more

unfoldable pub audit_path_length : ℕ → ℕ → Result ℕ
audit_path_length index tree_size = audit_length_loop (suc tree_size) index (tree_size - 1) 0
