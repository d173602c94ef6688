-- ===== src/InMemory/Lengths.antt =====
-- audit_path_length of python/ct/crypto/merkle.py, against the audit paths that the tree of
-- python/ct/crypto/in_memory_merkle_tree.py serves.
use sky_zadro_docs.Common.{
  ℕ, zero, suc, ◌+◌, ◌-◌, ◌/◌, ◌%◌, ◌≤◌, ◌<◌, ◌==◌, ltb, ◌||◌, if◌then◌else◌, List, [], ◌∷◌, length,
  length-append, length-map, length-take, take, get_elem?-some, ==_iff, ne→==, lt→ltb, le→ltb, ◌≡◌,
  refl, sym, ap, ◌∙◌, arith, inl, inr,
}
use sky_zadro_docs.Errors.{ok}
use sky_zadro_docs.Levels.Pairing.{
  pair, sibling, length-pair, pair-get_right, pair-get_left, pair-get_last,
}
use sky_zadro_docs.Levels.Audit.{audit-pair, audit_single}
use sky_zadro_docs.Merkle.Hasher.{Bytes, TreeHasher, hash_empty, hash_leaf, hash_children}
use sky_zadro_docs.Merkle.Full.{nodes}
use sky_zadro_docs.Merkle.Verifier.{audit_length_loop, audit_path_length}
use sky_zadro_docs.Merkle.Inclusion.Complete.{position, node_audit}
use sky_zadro_docs.InMemory.{InMemoryMerkleTree, get_inclusion_proof}
use sky_zadro_docs.InMemory.Log.{MathLog, ExactUpTo}
use sky_zadro_docs.InMemory.Served.{get_inclusion_proof_lem}

-- What a round adds.
abbrev counted : ℕ → ℕ → ℕ → ℕ
counted index last_node n = if index % 2 == 1 || ltb index last_node then n + 1 else n

length_round :
    (f index last_node n : ℕ)
    → 0 < last_node
    → audit_length_loop (suc f) index last_node n
      ≡ audit_length_loop f (index / 2) (last_node / 2) (counted index last_node n)
unfolding audit_length_loop
length_round f index last_node n p = rw (ne→== last_node 0 (omega arith))

length_done : (f index n : ℕ) → audit_length_loop (suc f) index 0 n ≡ ok n
unfolding audit_length_loop
length_done f index n = refl

module _ (h : TreeHasher) where
  counted-sibling :
      (ns : List Bytes) (i n : ℕ)
      → i < length ns
      → counted i (length ns - 1) n ≡ n + length (sibling (hash_children h) ns i)
  counted-sibling ns i n lt =
      let (c, e) = get_elem?-some ns i lt in
      elim (position i (length ns) lt) [
        | inl odd ↦
            let (s, sib, _) = pair-get_right (hash_children h) ns i e odd in
            rw ((==_iff (i % 2) 1).1 odd, sib)
        | inr (inl (even, next)) ↦
            let (s, sib, _) = pair-get_left (hash_children h) ns i e even next in
            rw (
              ne→== (i % 2) 1 (omega (arith, even)),
              lt→ltb i (length ns - 1) (omega (arith, next)),
              sib,
            )
        | inr (inr (even, end)) ↦
            let (sib, _) = pair-get_last (hash_children h) ns i e even end in
            rw
              (
                ne→== (i % 2) 1 (omega (arith, even)),
                le→ltb i (length ns - 1) (omega (arith, end)),
                sib,
              )
              (omega arith)
      ]

  length_loop_lem :
      (f : ℕ) (ns : List Bytes) (i n : ℕ)
      → i < length ns
      → length ns ≤ f
      → audit_length_loop f i (length ns - 1) n ≡ ok (n + length (node_audit h ns i))
  length_loop_lem f [] i n lt q = absurd (omega arith)
  length_loop_lem zero (a ∷ r) i n lt q = absurd (omega arith)
  length_loop_lem (suc f) (a ∷ []) i n lt q =
      length_done f i n
      ∙ ap ok (omega (arith, ap length (audit_single (hash_children h) (hash_empty h) a i)))
  length_loop_lem (suc f) (a ∷ b ∷ r) i n lt q =
      length_round f i (length ns - 1) n (omega arith)
      ∙ ap (λ (l : ℕ). audit_length_loop f (i / 2) l (counted i (length ns - 1) n))
          (omega (arith, length-pair (hash_children h) ns))
      ∙ length_loop_lem f (pair (hash_children h) ns) (i / 2) (counted i (length ns - 1) n)
          (omega (arith, length-pair (hash_children h) ns))
          (omega (arith, length-pair (hash_children h) ns))
      ∙ ap ok (
          omega (
            arith,
            counted-sibling ns i n lt,
            ap length (audit-pair (hash_children h) (hash_empty h) ns i),
            length-append (sibling (hash_children h) ns i)
                (node_audit h (pair (hash_children h) ns) (i / 2)),
          ))
    where
      ns : List Bytes
      ns = a ∷ b ∷ r

-- For every leaf index below a size up to that of the tree, and a logarithm that is exact up to the
-- size: get_inclusion_proof returns a path, and audit_path_length returns its length.
pub get_inclusion_proof-audit_path_length :
    (m : MathLog) (t : InMemoryMerkleTree) (i n : ℕ)
    → i < n
    → n ≤ length t.leaves
    → ExactUpTo m n
    → (path : List Bytes) × (get_inclusion_proof m t i n ≡ ok path)
      × (audit_path_length i n ≡ ok (length path))
unfolding audit_path_length
get_inclusion_proof-audit_path_length m t i n lt le exact = (
  node_audit t.hasher ns i,
  get_inclusion_proof_lem m t i n lt le exact,
  ap (λ (k : ℕ). audit_length_loop (suc n) i (k - 1) 0) (sym size)
      ∙ length_loop_lem t.hasher (suc n) ns i 0 (omega (arith, size)) (omega (arith, size))
      ∙ ap ok (omega arith),
)
  where
    ns : List Bytes
    ns = nodes t.hasher (take n t.leaves)

    size : length ns ≡ n
    size = length-map (take n t.leaves) (hash_leaf t.hasher) ∙ omega (arith, length-take n t.leaves)
