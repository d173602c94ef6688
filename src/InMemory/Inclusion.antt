-- ===== src/InMemory/Inclusion.antt =====
-- get_inclusion_proof of python/ct/crypto/in_memory_merkle_tree.py makes the audit paths that
-- verify_leaf_inclusion of python/ct/crypto/merkle.py accepts.
use sky_zadro_docs.Common.{
  ℕ, zero, suc, ◌+◌, ◌-◌, ◌^◌, ◌≤◌, ◌<◌, List, [], ◌∷◌, ◌++◌, length, take, drop, length-map, ◌≡◌,
  sym, ap, ◌∙◌, arith, ◌⊎◌, inl, inr, le→ltb, lt→ltb, ne→==,
}
use sky_zadro_docs.Errors.{ok}
use sky_zadro_docs.Levels.Split.{split_exp, split_parts, SplitParts}
use sky_zadro_docs.Levels.Audit.{audit_single, audit-append_left, audit-append_right}
use sky_zadro_docs.Merkle.Hasher.{Bytes, TreeHasher, hash_empty, hash_leaf, hash_children}
use sky_zadro_docs.Merkle.Full.{nodes}
use sky_zadro_docs.Merkle.Tree.{merkle_root, hash_full_tree_lem}
use sky_zadro_docs.Merkle.Inclusion.Complete.{node_audit}
use sky_zadro_docs.InMemory.{down_to_power_of_two, calculate_inclusion_proof}
use sky_zadro_docs.InMemory.Log.{MathLog, IsExact, ExactUpTo}
use sky_zadro_docs.InMemory.Split.{split_of_exact, cut, split_whole, IsSplit-nodes}

pub down_to_power_of_two_lem :
    (m : MathLog) (n : ℕ) → 2 ≤ n → IsExact m n → down_to_power_of_two m n ≡ ok (2 ^ split_exp n)
unfolding down_to_power_of_two
down_to_power_of_two_lem m n h exact = rw (le→ltb n 2 h) (ap ok (split_of_exact m n h exact))

module _ (m : MathLog) (h : TreeHasher) where
  abbrev PathAt : ℕ → List Bytes → ℕ → Type 0
  PathAt f leaves i =
      calculate_inclusion_proof m h f leaves i ≡ ok (node_audit h (nodes h leaves) i)

  -- The recursion of the code and that of the audit path by levels, at a split.
  audit_left :
      (leaves : List Bytes) (i : ℕ)
      → 1 < length leaves
      → i < cut h leaves
      → node_audit h (nodes h (take (cut h leaves) leaves)) i
          ++ merkle_root h (drop (cut h leaves) leaves) ∷ []
        ≡ node_audit h (nodes h leaves) i
  unfolding merkle_root
  audit_left leaves i p lt =
      sym (
        audit-append_left (hash_children h) (hash_empty h) (split_exp (length leaves))
          (nodes h (take (cut h leaves) leaves)) (nodes h (drop (cut h leaves) leaves)) i
          (IsSplit-nodes h leaves p) (omega (arith, (IsSplit-nodes h leaves p).0)))
      ∙ ap (λ (t : List Bytes). node_audit h t i) (split_whole h leaves)

  audit_right :
      (leaves : List Bytes) (i : ℕ)
      → 1 < length leaves
      → cut h leaves ≤ i
      → i < length leaves
      → node_audit h (nodes h (drop (cut h leaves) leaves)) (i - cut h leaves)
          ++ merkle_root h (take (cut h leaves) leaves) ∷ []
        ≡ node_audit h (nodes h leaves) i
  unfolding merkle_root
  audit_right leaves i p le lt =
      sym (
        audit-append_right (hash_children h) (hash_empty h) (split_exp (length leaves))
          (nodes h (take (cut h leaves) leaves)) (nodes h (drop (cut h leaves) leaves))
          (i - cut h leaves) (IsSplit-nodes h leaves p)
          (omega
            (arith, split_parts leaves p, length-map (drop (cut h leaves) leaves) (hash_leaf h))))
      ∙ (λ k. node_audit h (split_whole h leaves k) (index k))
    where
      index : cut h leaves + (i - cut h leaves) ≡ i
      index = omega arith

  path_left :
      (f : ℕ) (leaves : List Bytes) (i : ℕ)
      → 1 < length leaves
      → IsExact m (length leaves)
      → i < cut h leaves
      → PathAt f (take (cut h leaves) leaves) i
      → PathAt (suc f) leaves i
  unfolding calculate_inclusion_proof
  path_left f leaves i p exact lt ih =
      rw
        (
          ne→== (length leaves) 0 (omega arith),
          ne→== (length leaves) 1 (omega arith),
          down_to_power_of_two_lem m (length leaves) p exact,
          lt→ltb i (cut h leaves) lt,
          hash_full_tree_lem h (drop (cut h leaves) leaves),
          ih,
        )
        (ap ok (audit_left leaves i p lt))

  path_right :
      (f : ℕ) (leaves : List Bytes) (i : ℕ)
      → 1 < length leaves
      → IsExact m (length leaves)
      → cut h leaves ≤ i
      → i < length leaves
      → PathAt f (drop (cut h leaves) leaves) (i - cut h leaves)
      → PathAt (suc f) leaves i
  unfolding calculate_inclusion_proof
  path_right f leaves i p exact le lt ih =
      rw
        (
          ne→== (length leaves) 0 (omega arith),
          ne→== (length leaves) 1 (omega arith),
          down_to_power_of_two_lem m (length leaves) p exact,
          le→ltb i (cut h leaves) le,
          hash_full_tree_lem h (take (cut h leaves) leaves),
          ih,
        )
        (ap ok (audit_right leaves i p le lt))

  -- With fuel above the number of leaves the recursion ends, and gives the audit path.
  pub calculate_inclusion_proof_lem :
      (f : ℕ) (leaves : List Bytes) (i : ℕ)
      → length leaves < f
      → i < length leaves
      → ExactUpTo m (length leaves)
      → PathAt f leaves i
  calculate_inclusion_proof_lem zero leaves i p lt exact = absurd (omega arith)
  calculate_inclusion_proof_lem (suc f) [] i p lt exact = absurd (omega arith)
  calculate_inclusion_proof_lem (suc f) (d ∷ []) i p lt exact =
      unfold calculate_inclusion_proof in
      ap ok (sym (audit_single (hash_children h) (hash_empty h) (hash_leaf h d) i))
  calculate_inclusion_proof_lem (suc f) (d ∷ e ∷ r) i p lt exact =
      let leaves : List Bytes = d ∷ e ∷ r in
      let parts : SplitParts leaves = split_parts leaves (omega arith) in
      let now : IsExact m (length leaves) = exact (length leaves) (omega arith) (omega arith) in
      elim (side i (cut h leaves)) [
        | inl left ↦ path_left f leaves i (omega arith) now left (
            calculate_inclusion_proof_lem f (take (cut h leaves) leaves) i (omega (arith, parts))
              (omega (arith, parts)) (λ n a b. exact n a (omega (arith, parts))))
        | inr right ↦ path_right f leaves i (omega arith) now right lt (
            calculate_inclusion_proof_lem f (drop (cut h leaves) leaves) (i - cut h leaves)
              (omega (arith, parts)) (omega (arith, parts))
              (λ n a b. exact n a (omega (arith, parts))))
      ]
    where
      side : (a b : ℕ) → (a < b) ⊎ (b ≤ a)
      side a b = omega arith
