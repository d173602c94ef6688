-- ===== src/Merkle/Rfc.antt =====
-- hash_full_tree of python/ct/crypto/merkle.py against the definition in RFC 6962 section 2.1.
use sky_zadro_docs.Common.{
  ℕ, ◌^◌, ◌≤◌, ◌<◌, List, [], ◌∷◌, ◌++◌, length, length-map, ◌≡◌, refl, sym, ap, ◌∙◌, arith, ◌↔◌,
}
use sky_zadro_docs.Errors.{ok, ok_injective}
use sky_zadro_docs.Levels.Split.{tree_induction}
use sky_zadro_docs.Levels.Root.{root-append, root_single, root_empty}
use sky_zadro_docs.Merkle.Hasher.{
  Bytes, TreeHasher, hash_empty, hash_leaf, hash_children, hash_full_tree,
}
use sky_zadro_docs.Merkle.Full.{nodes, node_root}
use sky_zadro_docs.Merkle.Tree.{merkle_root, hash_full_tree_lem}
use mathlib.Core.List.{map-append}
use mathlib.Core.Path.{subst}

-- The Merkle tree hash MTH of RFC 6962 section 2.1, as a relation.
pub data Mth (h : TreeHasher) : List Bytes → Bytes → Type 0 where
  none : Mth h [] (hash_empty h)
  leaf : (d : Bytes) → Mth h (d ∷ []) (hash_leaf h d)
  split :
      (k : ℕ) (front back : List Bytes) (a b : Bytes) {leaves : List Bytes} {root : Bytes}
      → length front ≡ 2 ^ k
      → 0 < length back
      → length back ≤ 2 ^ k
      → Mth h front a
      → Mth h back b
      → leaves ≡ front ++ back
      → root ≡ hash_children h a b
      → Mth h leaves root

module _ (h : TreeHasher) where
  pub merkle_root_empty : merkle_root h [] ≡ hash_empty h
  unfolding merkle_root
  merkle_root_empty = root_empty (hash_children h) (hash_empty h)

  pub merkle_root_single : (d : Bytes) → merkle_root h (d ∷ []) ≡ hash_leaf h d
  unfolding merkle_root
  merkle_root_single d = root_single (hash_children h) (hash_empty h) (hash_leaf h d)

  pub merkle_root-append :
      (k : ℕ) (front back : List Bytes)
      → length front ≡ 2 ^ k
      → 0 < length back
      → length back ≤ 2 ^ k
      → merkle_root h (front ++ back) ≡ hash_children h (merkle_root h front) (merkle_root h back)
  unfolding merkle_root
  merkle_root-append k front back p q r =
      ap (node_root h) (map-append (hash_leaf h) front back)
      ∙ root-append (hash_children h) (hash_empty h) k (nodes h front) (nodes h back)
          (omega (arith, length-map front (hash_leaf h)))
          (omega (arith, length-map back (hash_leaf h)))
          (omega (arith, length-map back (hash_leaf h)))

  Mth-merkle_root_pos :
      (leaves : List Bytes) → 0 < length leaves → Mth h leaves (merkle_root h leaves)
  Mth-merkle_root_pos =
      tree_induction (λ leaves. Mth h leaves (merkle_root h leaves))
        (λ d. rw (merkle_root_single d) (Mth.leaf d))
        (λ k front back p q r a b.
          Mth.split k front back (merkle_root h front) (merkle_root h back) p q r a b refl
            (merkle_root-append k front back p q r))

  pub Mth-merkle_root : (leaves : List Bytes) → Mth h leaves (merkle_root h leaves)
  Mth-merkle_root [] = rw merkle_root_empty Mth.none
  Mth-merkle_root (d ∷ r) = Mth-merkle_root_pos (d ∷ r) (omega arith)

  pub Mth-unique : {leaves : List Bytes} {r : Bytes} → Mth h leaves r → r ≡ merkle_root h leaves
  Mth-unique Mth.none = sym merkle_root_empty
  Mth-unique (Mth.leaf d) = sym (merkle_root_single d)
  Mth-unique (Mth.split k front back a b p q r ma mb e f) =
      f
      ∙ (λ i. hash_children h (Mth-unique ma i) (Mth-unique mb i))
      ∙ sym (merkle_root-append k front back p q r)
      ∙ ap (merkle_root h) (sym e)

-- For every hash function, list of leaves and byte string `r`: hash_full_tree returns `r`, with no
-- exception and with the fuel of the model unspent, exactly when `r` is the RFC's tree hash MTH of
-- the leaves.
pub hash_full_tree-Mth :
    (h : TreeHasher) (leaves : List Bytes) (r : Bytes)
    → (hash_full_tree h leaves ≡ ok r) ↔ Mth h leaves r
hash_full_tree-Mth h leaves r = (
  (λ e.
      subst (Mth h leaves) (ok_injective (sym (hash_full_tree_lem h leaves) ∙ e))
        (Mth-merkle_root h leaves)),
  (λ m. hash_full_tree_lem h leaves ∙ ap ok (sym (Mth-unique h m))),
)
