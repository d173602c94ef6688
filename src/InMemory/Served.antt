-- ===== src/InMemory/Served.antt =====
-- The proofs that python/ct/crypto/in_memory_merkle_tree.py serves pass the checks of
-- python/ct/crypto/merkle.py.
use sky_zadro_docs.Common.{
  ℕ, suc, ◌-◌, ◌≤◌, ◌<◌, List, length, take, length-map, length-take, get_elem?, get_elem?-lt,
  get_elem?-map, get_elem?-take, some, ◌≡◌, sym, ap, ◌∙◌, arith, lt→leb, le→ltb, Bool, true,
}
use sky_zadro_docs.Common.Int.{pos}
use sky_zadro_docs.Errors.{Result, ok, ◌>>=◌}
use sky_zadro_docs.Merkle.Hasher.{Bytes, bytes_eq_refl, hash_leaf}
use sky_zadro_docs.Merkle.Full.{nodes, node_root}
use sky_zadro_docs.Merkle.Tree.{merkle_root, hash_full_tree_lem}
use sky_zadro_docs.Merkle.Verifier.{
  audit_loop, calculate_root_hash_from_audit_path, check_leaf_at, verify_leaf_inclusion,
}
use sky_zadro_docs.Merkle.Inclusion.Complete.{node_audit, audit_loop_complete}
use sky_zadro_docs.InMemory.{InMemoryMerkleTree, get_root_hash, get_inclusion_proof}
use sky_zadro_docs.InMemory.Log.{MathLog, ExactUpTo}
use sky_zadro_docs.InMemory.Inclusion.{calculate_inclusion_proof_lem}

module _ (m : MathLog) (t : InMemoryMerkleTree) where
  pub get_root_hash_lem :
      (n : ℕ)
      → n ≤ length t.leaves
      → get_root_hash t (some n) ≡ ok (merkle_root t.hasher (take n t.leaves))
  unfolding get_root_hash
  get_root_hash_lem n p =
      rw (le→ltb (length t.leaves) n p) (hash_full_tree_lem t.hasher (take n t.leaves))

  pub get_inclusion_proof_lem :
      (i n : ℕ)
      → i < n
      → n ≤ length t.leaves
      → ExactUpTo m n
      → get_inclusion_proof m t i n ≡ ok (node_audit t.hasher (nodes t.hasher (take n t.leaves)) i)
  unfolding get_inclusion_proof
  get_inclusion_proof_lem i n lt le exact =
      rw (le→ltb (length t.leaves) n le, lt→leb (length t.leaves) i (omega arith))
        (calculate_inclusion_proof_lem m t.hasher (suc n) (take n t.leaves) i
          (omega (arith, length-take n t.leaves)) (omega (arith, length-take n t.leaves))
          (λ k a b. exact k a (omega (arith, length-take n t.leaves))))

  check_leaf_accepts :
      (leaves : List Bytes) (i : ℕ) (leaf : Bytes)
      → get_elem? leaves i ≡ some leaf
      → check_leaf_at t.hasher
          (hash_leaf t.hasher leaf)
          i
          (node_audit t.hasher (nodes t.hasher leaves) i)
          (length leaves)
          (merkle_root t.hasher leaves)
        ≡ ok true
  unfolding check_leaf_at calculate_root_hash_from_audit_path merkle_root
  check_leaf_accepts leaves i leaf e = rw (
    lt→leb (length leaves) i (get_elem?-lt leaves i e),
    path,
    bytes_eq_refl (node_root t.hasher (nodes t.hasher leaves)),
  )
    where
      path :
          audit_loop t.hasher
            (suc (length leaves))
            (hash_leaf t.hasher leaf)
            i
            (node_audit t.hasher (nodes t.hasher leaves) i)
            (length leaves - 1)
          ≡ ok (node_root t.hasher (nodes t.hasher leaves))
      path =
          ap
            (λ (n : ℕ).
              audit_loop t.hasher (suc (length leaves)) (hash_leaf t.hasher leaf) i
                (node_audit t.hasher (nodes t.hasher leaves) i) (n - 1))
            (sym (length-map leaves (hash_leaf t.hasher)))
          ∙ audit_loop_complete t.hasher (suc (length leaves)) (nodes t.hasher leaves) i
              (get_elem?-map (hash_leaf t.hasher) leaves i e)
              (omega (arith, length-map leaves (hash_leaf t.hasher)))

-- An auditor's session with the log: the root of the first `n` leaves, the proof for leaf `i` in
-- that tree, and the verification.
unfoldable pub audit_session : MathLog → InMemoryMerkleTree → ℕ → ℕ → Bytes → Result Bool
audit_session m t i n leaf = do
  root ← get_root_hash t (some n)
  proof ← get_inclusion_proof m t i n
  verify_leaf_inclusion t.hasher leaf (pos i) proof
      (record { tree_size = pos n; sha256_root_hash = root })

-- For every in-memory tree, tree size `n` up to its own and index `i` below `n`, and a logarithm
-- that is exact up to `n`: the leaf at `i` is accepted by verify_leaf_inclusion under the root hash
-- of size `n` and the inclusion proof that the tree serves; nothing on the way raises.
pub audit_session_accepts :
    (m : MathLog) (t : InMemoryMerkleTree) (i n : ℕ) (leaf : Bytes)
    → i < n
    → n ≤ length t.leaves
    → ExactUpTo m n
    → get_elem? t.leaves i ≡ some leaf
    → audit_session m t i n leaf ≡ ok true
unfolding audit_session verify_leaf_inclusion
audit_session_accepts m t i n leaf lt le exact e =
    rw (get_root_hash_lem m t n le, get_inclusion_proof_lem m t i n lt le exact, accepted)
  where
    size : length (take n t.leaves) ≡ n
    size = omega (arith, length-take n t.leaves)

    accepted :
        check_leaf_at t.hasher
          (hash_leaf t.hasher leaf)
          i
          (node_audit t.hasher (nodes t.hasher (take n t.leaves)) i)
          n
          (merkle_root t.hasher (take n t.leaves))
        ≡ ok true
    accepted =
        ap
          (λ (k : ℕ).
            check_leaf_at t.hasher (hash_leaf t.hasher leaf) i
              (node_audit t.hasher (nodes t.hasher (take n t.leaves)) i) k
              (merkle_root t.hasher (take n t.leaves)))
          (sym size)
        ∙ check_leaf_accepts m t (take n t.leaves) i leaf (get_elem?-take n i t.leaves lt ∙ e)
