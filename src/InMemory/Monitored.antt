-- ===== src/InMemory/Monitored.antt =====
-- The consistency proofs that python/ct/crypto/in_memory_merkle_tree.py serves pass
-- verify_tree_consistency of python/ct/crypto/merkle.py.
use sky_zadro_docs.Common.{
  ℕ, suc, ◌-◌, ◌≤◌, ◌<◌, List, [], length, length-take, take, take-take, some, Bool, true, ne→==,
  ==_iff, le→ltb, ◌≡◌, sym, ◌∙◌, arith, ◌⊎◌, inl, inr,
}
use sky_zadro_docs.Common.Int.{pos}
use sky_zadro_docs.Errors.{Result, ok, ◌>>=◌}
use sky_zadro_docs.Merkle.Hasher.{Bytes, bytes_eq_refl}
use sky_zadro_docs.Merkle.Full.{nodes, node_consistency}
use sky_zadro_docs.Merkle.Tree.{merkle_root}
use sky_zadro_docs.Merkle.Verifier.{verify_path, verify_tree_consistency}
use sky_zadro_docs.Merkle.Consistency.Accept.{verify_path_accepts}
use sky_zadro_docs.InMemory.{InMemoryMerkleTree, get_root_hash, get_consistency_proof}
use sky_zadro_docs.InMemory.Log.{MathLog, ExactUpTo}
use sky_zadro_docs.InMemory.Subproof.{calculate_subproof_lem}
use sky_zadro_docs.InMemory.Served.{get_root_hash_lem}

-- A monitor's session with the log: the two roots, the consistency proof, and the verification.
unfoldable pub monitor_session : MathLog → InMemoryMerkleTree → ℕ → ℕ → Result Bool
monitor_session m t old n = do
  old_root ← get_root_hash t (some old)
  new_root ← get_root_hash t (some n)
  proof ← get_consistency_proof m t old (some n)
  verify_tree_consistency t.hasher (pos old) (pos n) old_root new_root proof

module _ (m : MathLog) (t : InMemoryMerkleTree) (old n : ℕ) (le : n ≤ length t.leaves) where
  verify_all : Bytes → Bytes → List Bytes → Result Bool
  verify_all = verify_tree_consistency t.hasher (pos old) (pos n)

  -- Between two equal sizes, and from the empty tree, the proof is empty.
  trivial_proof :
      (old ≡ n) ⊎ ((old ≡ 0) × (old < n)) → get_consistency_proof m t old (some n) ≡ ok []
  unfolding get_consistency_proof
  trivial_proof (inl same) = rw (
    le→ltb (length t.leaves) old (omega arith),
    le→ltb (length t.leaves) n le,
    le→ltb n old (omega arith),
    (==_iff old n).1 same,
  )
  trivial_proof (inr (none_old, lt)) = rw (
    le→ltb (length t.leaves) old (omega arith),
    le→ltb (length t.leaves) n le,
    le→ltb n old (omega arith),
    ne→== old n (omega arith),
    (==_iff old 0).1 none_old,
  )

  accept_same : (r : Bytes) → old ≡ n → verify_all r r [] ≡ ok true
  unfolding verify_all verify_tree_consistency
  accept_same r same = rw (le→ltb n old (omega arith), (==_iff old n).1 same, bytes_eq_refl r)

  accept_empty : (a b : Bytes) → old ≡ 0 → old < n → verify_all a b [] ≡ ok true
  unfolding verify_all verify_tree_consistency
  accept_empty a b none_old lt =
      rw (le→ltb n old (omega arith), ne→== old n (omega arith), (==_iff old 0).1 none_old)

  size : length (take n t.leaves) ≡ n
  size = omega (arith, length-take n t.leaves)

  abbrev served : List Bytes
  served = node_consistency t.hasher true (nodes t.hasher (take n t.leaves)) (old - 1)

  real_proof :
      0 < old → old < n → ExactUpTo m n → get_consistency_proof m t old (some n) ≡ ok served
  unfolding get_consistency_proof
  real_proof some_old lt exact =
      rw
        (
          le→ltb (length t.leaves) old (omega arith),
          le→ltb (length t.leaves) n le,
          le→ltb n old (omega arith),
          ne→== old n (omega arith),
          ne→== old 0 (omega arith),
        )
        (calculate_subproof_lem m t.hasher (suc n) old (take n t.leaves) true (omega (arith, size))
          (some_old, inl (omega (arith, size))) (λ k a b. exact k a (omega (arith, size))))

  accept_real :
      0 < old
      → old < n
      → verify_all
          (merkle_root t.hasher (take old t.leaves))
          (merkle_root t.hasher (take n t.leaves))
          served
        ≡ ok true
  unfolding verify_all verify_tree_consistency
  accept_real some_old lt =
      rw
        (le→ltb n old (omega arith), ne→== old n (omega arith), ne→== old 0 (omega arith), accepted)
    where
      accepted :
          verify_path t.hasher old n
            (merkle_root t.hasher (take old t.leaves))
            (merkle_root t.hasher (take n t.leaves))
            served
          ≡ ok true
      accepted =
          (λ i.
            verify_path t.hasher old (sym size i)
              (merkle_root t.hasher (sym (take-take old n t.leaves (omega arith)) i))
              (merkle_root t.hasher (take n t.leaves)) served)
          ∙ verify_path_accepts t.hasher (take n t.leaves) old some_old (omega (arith, size))

  abbrev Proved : Type 0
  Proved =
      (proof : List Bytes) × (get_consistency_proof m t old (some n) ≡ ok proof)
      × (verify_all (merkle_root t.hasher (take old t.leaves))
            (merkle_root t.hasher (take n t.leaves)) proof
          ≡ ok true)

  prove : old ≤ n → ExactUpTo m n → Proved
  prove older exact = elim (order old n older) [
    | inl same ↦ (
      [],
      trivial_proof (inl same),
      (λ i.
            verify_all (merkle_root t.hasher (take (same i) t.leaves))
              (merkle_root t.hasher (take n t.leaves)) [])
          ∙ accept_same (merkle_root t.hasher (take n t.leaves)) same,
    )
    | inr (inl none_old) ↦
        ([], trivial_proof (inr none_old), accept_empty _ _ none_old.0 none_old.1)
    | inr (inr (some_old, lt)) ↦ (served, real_proof some_old lt exact, accept_real some_old lt)
  ]
    where
      order : (a b : ℕ) → a ≤ b → (a ≡ b) ⊎ ((a ≡ 0) × (a < b)) ⊎ ((0 < a) × (a < b))
      order a b p = omega arith

-- The tree serves a proof that is accepted for the Merkle tree hashes of its first leaves.
pub served_proof :
    (m : MathLog) (t : InMemoryMerkleTree) (old n : ℕ)
    → old ≤ n
    → n ≤ length t.leaves
    → ExactUpTo m n
    → (proof : List Bytes) × (get_consistency_proof m t old (some n) ≡ ok proof)
      × (verify_tree_consistency t.hasher
            (pos old)
            (pos n)
            (merkle_root t.hasher (take old t.leaves))
            (merkle_root t.hasher (take n t.leaves))
            proof
          ≡ ok true)
unfolding verify_all
served_proof m t old n older le exact = prove m t old n le older exact

-- For every in-memory tree, sizes `old` up to `n` up to the tree's own, and a logarithm that is exact
-- up to `n`: verify_tree_consistency accepts the consistency proof that the tree serves, between the
-- root hashes that it has at the two sizes; nothing on the way raises.
pub monitor_session_accepts :
    (m : MathLog) (t : InMemoryMerkleTree) (old n : ℕ)
    → old ≤ n
    → n ≤ length t.leaves
    → ExactUpTo m n
    → monitor_session m t old n ≡ ok true
unfolding monitor_session verify_all
monitor_session_accepts m t old n older le exact =
    let (proof, made, accepted) = prove m t old n le older exact in
    rw (get_root_hash_lem m t old (omega arith), get_root_hash_lem m t n le, made) accepted
