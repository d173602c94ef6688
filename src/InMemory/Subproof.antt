-- ===== src/InMemory/Subproof.antt =====
-- _calculate_subproof of python/ct/crypto/in_memory_merkle_tree.py makes the consistency proofs of
-- RFC 6962 section 2.1.2, which are those by levels.
use sky_zadro_docs.Common.{
  ℕ, zero, suc, ◌+◌, ◌-◌, ◌^◌, ◌≤◌, ◌<◌, if◌then◌else◌, List, [], ◌∷◌, ◌++◌, length, take, drop,
  length-map, ◌≡◌, refl, sym, ap, ◌∙◌, arith, ◌⊎◌, inl, inr, le→leb, lt→leb, ne→==, ==_iff, Bool,
  true, false,
}
use sky_zadro_docs.Errors.{ok}
use sky_zadro_docs.Levels.Split.{split_exp, split_parts, SplitParts}
use sky_zadro_docs.Levels.Consistency.{
  consistency-append_left, consistency-append_right, consistency_full,
}
use sky_zadro_docs.Merkle.Hasher.{Bytes, TreeHasher, hash_empty, hash_leaf, hash_children}
use sky_zadro_docs.Merkle.Full.{nodes, node_root, node_consistency}
use sky_zadro_docs.Merkle.Tree.{merkle_root, hash_full_tree_lem}
use sky_zadro_docs.InMemory.{calculate_subproof}
use sky_zadro_docs.InMemory.Log.{MathLog, IsExact, ExactUpTo}
use sky_zadro_docs.InMemory.Split.{cut, split_whole, IsSplit-nodes}
use sky_zadro_docs.InMemory.Inclusion.{down_to_power_of_two_lem}

-- The older tree has some leaves and lacks some, or it is the whole of a full tree.
abbrev pub Older : ℕ → ℕ → Type 0
Older old n = (0 < old) × ((old < n) ⊎ ((old ≡ n) × ((j : ℕ) × (n ≡ 2 ^ j))))

module _ (m : MathLog) (h : TreeHasher) where
  abbrev ProofAt : ℕ → ℕ → List Bytes → Bool → Type 0
  ProofAt f old leaves complete =
      calculate_subproof m h f old leaves complete
      ≡ ok (node_consistency h complete (nodes h leaves) (old - 1))

  proof_whole :
      (f old : ℕ) (leaves : List Bytes) (complete : Bool) (j : ℕ)
      → old ≡ length leaves
      → length leaves ≡ 2 ^ j
      → ProofAt (suc f) old leaves complete
  unfolding calculate_subproof merkle_root
  proof_whole f old leaves complete j e full =
      rw
        (
          (==_iff old (length leaves)).1 e,
          hash_full_tree_lem h leaves,
          index,
          consistency_full (hash_children h) (hash_empty h) j complete (nodes h leaves)
              (length-map leaves (hash_leaf h) ∙ full),
        )
        (by_flag complete)
    where
      index : old - 1 ≡ 2 ^ j - 1
      index = omega arith

      by_flag :
          (b : Bool)
          → (if b then ok [] else ok (merkle_root h leaves ∷ []))
            ≡ ok (if b then [] else node_root h (nodes h leaves) ∷ [])
      by_flag true = refl
      by_flag false = refl

  consistency_left :
      (old : ℕ) (leaves : List Bytes) (complete : Bool)
      → 1 < length leaves
      → 0 < old
      → old ≤ cut h leaves
      → node_consistency h complete (nodes h (take (cut h leaves) leaves)) (old - 1)
          ++ merkle_root h (drop (cut h leaves) leaves) ∷ []
        ≡ node_consistency h complete (nodes h leaves) (old - 1)
  unfolding merkle_root
  consistency_left old leaves complete p pos le =
      sym (
        consistency-append_left (hash_children h) (hash_empty h) (split_exp (length leaves))
          complete (nodes h (take (cut h leaves) leaves)) (nodes h (drop (cut h leaves) leaves))
          (old - 1) (IsSplit-nodes h leaves p) (omega (arith, (IsSplit-nodes h leaves p).0)))
      ∙ ap (λ (t : List Bytes). node_consistency h complete t (old - 1)) (split_whole h leaves)

  consistency_right :
      (old : ℕ) (leaves : List Bytes) (complete : Bool)
      → 1 < length leaves
      → cut h leaves < old
      → old < length leaves
      → node_consistency h false (nodes h (drop (cut h leaves) leaves)) (old - cut h leaves - 1)
          ++ merkle_root h (take (cut h leaves) leaves) ∷ []
        ≡ node_consistency h complete (nodes h leaves) (old - 1)
  unfolding merkle_root
  consistency_right old leaves complete p lt gt =
      sym (
        consistency-append_right (hash_children h) (hash_empty h) (split_exp (length leaves))
          complete (nodes h (take (cut h leaves) leaves)) (nodes h (drop (cut h leaves) leaves))
          (old - cut h leaves - 1) (IsSplit-nodes h leaves p)
          (omega
            (arith, split_parts leaves p, length-map (drop (cut h leaves) leaves) (hash_leaf h))))
      ∙ (λ k. node_consistency h complete (split_whole h leaves k) (index k))
    where
      index : cut h leaves + (old - cut h leaves - 1) ≡ old - 1
      index = omega arith

  proof_left :
      (f old : ℕ) (leaves : List Bytes) (complete : Bool)
      → 1 < length leaves
      → IsExact m (length leaves)
      → 0 < old
      → old < length leaves
      → old ≤ cut h leaves
      → ProofAt f old (take (cut h leaves) leaves) complete
      → ProofAt (suc f) old leaves complete
  unfolding calculate_subproof
  proof_left f old leaves complete p exact pos lt le ih =
      rw
        (
          ne→== old (length leaves) (omega arith),
          ne→== (length leaves) 1 (omega arith),
          down_to_power_of_two_lem m (length leaves) p exact,
          le→leb old (cut h leaves) le,
          hash_full_tree_lem h (drop (cut h leaves) leaves),
          ih,
        )
        (ap ok (consistency_left old leaves complete p pos le))

  proof_right :
      (f old : ℕ) (leaves : List Bytes) (complete : Bool)
      → 1 < length leaves
      → IsExact m (length leaves)
      → old < length leaves
      → cut h leaves < old
      → ProofAt f (old - cut h leaves) (drop (cut h leaves) leaves) false
      → ProofAt (suc f) old leaves complete
  unfolding calculate_subproof
  proof_right f old leaves complete p exact lt gt ih =
      rw
        (
          ne→== old (length leaves) (omega arith),
          ne→== (length leaves) 1 (omega arith),
          down_to_power_of_two_lem m (length leaves) p exact,
          lt→leb old (cut h leaves) gt,
          hash_full_tree_lem h (take (cut h leaves) leaves),
          ih,
        )
        (ap ok (consistency_right old leaves complete p gt lt))

  -- With fuel above the number of leaves the recursion ends, and gives the proof by levels.
  pub calculate_subproof_lem :
      (f old : ℕ) (leaves : List Bytes) (complete : Bool)
      → length leaves < f
      → Older old (length leaves)
      → ExactUpTo m (length leaves)
      → ProofAt f old leaves complete
  calculate_subproof_lem zero old leaves complete p older exact = absurd (omega arith)
  calculate_subproof_lem (suc f) old leaves complete p (pos, inr (whole, (j, full))) exact =
      proof_whole f old leaves complete j whole full
  calculate_subproof_lem (suc f) old leaves complete p (pos, inl lt) exact =
      let parts : SplitParts leaves = split_parts leaves (omega arith) in
      let now : IsExact m (length leaves) = exact (length leaves) (omega arith) (omega arith) in
      elim (side old (cut h leaves)) [
        | inl left ↦ proof_left f old leaves complete (omega arith) now pos lt left (
            calculate_subproof_lem f old (take (cut h leaves) leaves) complete
              (omega (arith, parts)) (pos, fits (omega (arith, parts)))
              (λ n a b. exact n a (omega (arith, parts))))
        | inr right ↦ proof_right f old leaves complete (omega arith) now lt right (
            calculate_subproof_lem f (old - cut h leaves) (drop (cut h leaves) leaves) false
              (omega (arith, parts)) (omega arith, inl (omega (arith, parts)))
              (λ n a b. exact n a (omega (arith, parts))))
      ]
    where
      side : (a b : ℕ) → (a ≤ b) ⊎ (b < a)
      side a b = omega arith

      split_le : (a b : ℕ) → a ≤ b → (a < b) ⊎ (a ≡ b)
      split_le a b e = omega arith

      fits :
          (length (take (cut h leaves) leaves) ≡ cut h leaves) × (old ≤ cut h leaves)
          → (old < length (take (cut h leaves) leaves))
            ⊎ ((old ≡ length (take (cut h leaves) leaves))
                × ((j : ℕ) × (length (take (cut h leaves) leaves) ≡ 2 ^ j)))
      fits (len, le) = elim (split_le old (cut h leaves) le) [
        | inl less ↦ inl (omega arith)
        | inr same ↦ inr (omega arith, (split_exp (length leaves), len))
      ]
