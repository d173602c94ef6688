-- ===== src/InMemory.antt =====
-- python/ct/crypto/in_memory_merkle_tree.py: InMemoryMerkleTree, a list of leaves and its proofs.
pub mod Log
pub mod Split
pub mod Inclusion
pub mod Subproof
pub mod Served
pub mod Lengths
pub mod Monitored
use Log.{MathLog}
use sky_zadro_docs.Common.{
  ℕ, zero, suc, ◌+◌, ◌-◌, ◌^◌, ◌==◌, ltb, leb, if◌then◌else◌, ◌||◌, Bool, true, false, List, [],
  ◌∷◌, ◌++◌, length, map, take, drop, Option, none, some,
}
use sky_zadro_docs.Common.Int.{ℤ, pos, negsuc}
use sky_zadro_docs.Errors.{Result, ok, raise, ◌>>=◌, ◌>>◌, value_error, out_of_fuel}
use sky_zadro_docs.Merkle.Hasher.{Bytes, bytes_eq, TreeHasher, hash_leaf, hash_full_tree}

-- _down_to_power_of_two
unfoldable pub down_to_power_of_two : MathLog → ℕ → Result ℕ
down_to_power_of_two m n =
    if ltb n 2
    then raise value_error
    else (let log_n = m.log n in
        let p = m.int log_n in ok (2 ^ (if m.equals p log_n then p - 1 else p)))

pub record InMemoryMerkleTree : Type 0 where
  pub leaves : List Bytes
  pub hasher : TreeHasher

-- list.index(leaf_hash), with `i` the index of the first hash of the list
unfoldable pub index_from : ℕ → Bytes → List Bytes → ℤ
index_from i leaf_hash [] = negsuc 0
index_from i leaf_hash (a ∷ r) =
    if bytes_eq a leaf_hash then pos i else index_from (i + 1) leaf_hash r

module _ (m : MathLog) (h : TreeHasher) where
  -- _calculate_inclusion_proof. The fuel `f` bounds the depth of the recursion.
  unfoldable pub calculate_inclusion_proof : ℕ → List Bytes → ℕ → Result (List Bytes)
  calculate_inclusion_proof zero leaves leaf_index = raise out_of_fuel
  calculate_inclusion_proof (suc f) leaves leaf_index =
      let n = length leaves in
      let halves : Result (List Bytes) = do
        k ← down_to_power_of_two m n
        let left : Result (List Bytes) = do
          mth_k_to_n ← hash_full_tree h (drop k leaves)
          path ← calculate_inclusion_proof f (take k leaves) leaf_index
          ok (path ++ mth_k_to_n ∷ [])
        let right : Result (List Bytes) = do
          mth_0_to_k ← hash_full_tree h (take k leaves)
          path ← calculate_inclusion_proof f (drop k leaves) (leaf_index - k)
          ok (path ++ mth_0_to_k ∷ [])
        if ltb leaf_index k then left else right
      in if n == 0 || n == 1 then ok [] else halves

  -- _calculate_subproof
  unfoldable pub calculate_subproof : ℕ → ℕ → List Bytes → Bool → Result (List Bytes)
  calculate_subproof zero old leaves complete_subtree = raise out_of_fuel
  calculate_subproof (suc f) old leaves complete_subtree =
      let n = length leaves in
      let whole : Result (List Bytes) = do root ← hash_full_tree h leaves; ok (root ∷ [])
      in let halves : Result (List Bytes) = do
        k ← down_to_power_of_two m n
        let left : Result (List Bytes) = do
          node ← hash_full_tree h (drop k leaves)
          res ← calculate_subproof f old (take k leaves) complete_subtree
          ok (res ++ node ∷ [])
        let right : Result (List Bytes) = do
          node ← hash_full_tree h (take k leaves)
          res ← calculate_subproof f (old - k) (drop k leaves) false
          ok (res ++ node ∷ [])
        if leb old k then left else right
        in if old == n || n == 1 then (if complete_subtree then ok [] else whole) else halves

-- add_leaf: the tree with the leaf, and the leaf's index
unfoldable pub add_leaf : InMemoryMerkleTree → Bytes → InMemoryMerkleTree × ℕ
add_leaf t leaf =
    let leaves = t.leaves ++ leaf ∷ [] in (record t { leaves = leaves }, length leaves - 1)

unfoldable pub tree_size : InMemoryMerkleTree → ℕ
tree_size t = length t.leaves

-- A default argument `tree_size=None` is the size of the tree.
abbrev pub size_or_all : InMemoryMerkleTree → Option ℕ → ℕ
size_or_all t none = length t.leaves
size_or_all t (some n) = n

unfoldable pub get_root_hash : InMemoryMerkleTree → Option ℕ → Result Bytes
get_root_hash t size =
    let n = size_or_all t size in
    if ltb (length t.leaves) n then raise value_error else hash_full_tree t.hasher (take n t.leaves)

unfoldable pub get_leaf_index : InMemoryMerkleTree → Bytes → ℤ
get_leaf_index t leaf_hash = index_from 0 leaf_hash (map (hash_leaf t.hasher) t.leaves)

unfoldable pub get_consistency_proof :
    MathLog → InMemoryMerkleTree → ℕ → Option ℕ → Result (List Bytes)
get_consistency_proof m t tree_size_1 size =
    let tree_size_2 = size_or_all t size in
    if ltb (length t.leaves) tree_size_1 || ltb (length t.leaves) tree_size_2
    then raise value_error
    else if ltb tree_size_2 tree_size_1
    then raise value_error
    else if tree_size_1 == tree_size_2 || tree_size_1 == 0
    then ok []
    else calculate_subproof m t.hasher (suc tree_size_2) tree_size_1 (take tree_size_2 t.leaves)
        true

unfoldable pub get_inclusion_proof : MathLog → InMemoryMerkleTree → ℕ → ℕ → Result (List Bytes)
get_inclusion_proof m t leaf_index tree_size =
    if ltb (length t.leaves) tree_size
    then raise value_error
    else if leb (length t.leaves) leaf_index
    then raise value_error
    else calculate_inclusion_proof m t.hasher (suc tree_size) (take tree_size t.leaves) leaf_index
