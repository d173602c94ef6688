-- ===== src/Merkle/Leaves.antt =====
-- Lists of leaves with one Merkle tree hash, by the inclusion proofs of python/ct/crypto/merkle.py.
use sky_zadro_docs.Common.{
  ℕ, suc, ◌-◌, List, [], ◌∷◌, ◌++◌, length, length-map, get_elem?, get_elem?-map, some, ◌≡◌, refl,
  ap, ◌∙◌, arith, ◌⊎◌, inl, inr,
}
use sky_zadro_docs.Errors.{ok}
use sky_zadro_docs.Merkle.Hasher.{Bytes, TreeHasher, hash_empty, hash_leaf, hash_children}
use sky_zadro_docs.Merkle.Full.{nodes, node_root}
use sky_zadro_docs.Merkle.Tree.{merkle_root, hash_full_tree_lem}
use sky_zadro_docs.Merkle.Rfc.{Mth, leaf, split, hash_full_tree-Mth}
use sky_zadro_docs.Merkle.Collision.{Collision, HasSize, Sized-leaves, length-hash_leaf, same_leaf}
use sky_zadro_docs.Merkle.Verifier.{audit_loop}
use sky_zadro_docs.Merkle.Inclusion.Complete.{node_audit, audit_loop_complete}
use sky_zadro_docs.Merkle.Inclusion.Sound.{audit_loop_sound}

-- Lists of one length that agree at every index, or else something else holds.
agree :
    {C : Type 0} (xs ys : List Bytes)
    → length xs ≡ length ys
    → ((i : ℕ) (a b : Bytes) → get_elem? xs i ≡ some a → get_elem? ys i ≡ some b → (a ≡ b) ⊎ C)
    → (xs ≡ ys) ⊎ C
agree [] [] e same = inl refl
agree [] (y ∷ ys) e same = absurd (omega arith)
agree (x ∷ xs) [] e same = absurd (omega arith)
agree {C} (x ∷ xs) (y ∷ ys) e same =
    both (same 0 x y refl refl) (agree xs ys (omega arith) (λ i a b p q. same (suc i) a b p q))
  where
    both : (x ≡ y) ⊎ C → (xs ≡ ys) ⊎ C → (x ∷ xs ≡ y ∷ ys) ⊎ C
    both (inr c) rest = inr c
    both (inl p) (inr c) = inr c
    both (inl p) (inl q) = inl (λ i. p i ∷ q i)

module _ (h : TreeHasher) (size : ℕ) (sized : HasSize h size) where
  Mth-length : {leaves : List Bytes} {r : Bytes} → Mth h leaves r → length r ≡ size
  unfolding hash_empty hash_leaf hash_children
  Mth-length Mth.none = sized []
  Mth-length (leaf d) = sized (0 ∷ d)
  Mth-length (split k front back a b long some_leaf short left right joined root) =
      ap length root ∙ sized (1 ∷ (a ++ b))

  -- A Merkle tree hash has the size of the hashes.
  pub length-merkle_root : (leaves : List Bytes) → length (merkle_root h leaves) ≡ size
  length-merkle_root leaves =
      Mth-length
        ((hash_full_tree-Mth h leaves (merkle_root h leaves)).0 (hash_full_tree_lem h leaves))

  -- An inclusion proof from one list shows a leaf of the other.
  same_leaf_at :
      (xs ys : List Bytes) (i : ℕ) (a b : Bytes)
      → length xs ≡ length ys
      → merkle_root h xs ≡ merkle_root h ys
      → get_elem? xs i ≡ some a
      → get_elem? ys i ≡ some b
      → (a ≡ b) ⊎ Collision h
  unfolding merkle_root
  same_leaf_at xs ys i a b n root p q =
      elim (audit_loop_sound h size sized (suc (length xs)) (nodes h ys) i (hash_leaf h a)
        (hash_leaf h b) (node_audit h (nodes h xs) i) (Sized-leaves h size sized ys)
        (get_elem?-map (hash_leaf h) ys i q) (length-hash_leaf h size sized a) audited) [
          | inl same ↦ same_leaf h a b same
          | inr collision ↦ inr collision
        ]
    where
      lengths : length (nodes h ys) - 1 ≡ length (nodes h xs) - 1
      lengths = omega (arith, length-map xs (hash_leaf h), length-map ys (hash_leaf h), n)

      audited :
          audit_loop h
            (suc (length xs))
            (hash_leaf h a)
            i
            (node_audit h (nodes h xs) i)
            (length (nodes h ys) - 1)
          ≡ ok (node_root h (nodes h ys))
      audited =
          ap
            (λ (k : ℕ).
              audit_loop h (suc (length xs)) (hash_leaf h a) i (node_audit h (nodes h xs) i) k)
            lengths
          ∙ audit_loop_complete h (suc (length xs)) (nodes h xs) i
              (get_elem?-map (hash_leaf h) xs i p) (omega (arith, length-map xs (hash_leaf h)))
          ∙ ap ok root

  -- Lists of leaves of one length and one Merkle tree hash are the same, or a collision of the hash
  -- function is at hand.
  pub merkle_root_injective :
      (xs ys : List Bytes)
      → length xs ≡ length ys
      → merkle_root h xs ≡ merkle_root h ys
      → (xs ≡ ys) ⊎ Collision h
  merkle_root_injective xs ys n root =
      agree xs ys n (λ i a b p q. same_leaf_at xs ys i a b n root p q)
