-- ===== src/Merkle/Compact.antt =====
-- python/ct/crypto/merkle.py: CompactMerkleTree.
pub mod Powers
pub mod Lift
pub mod Steps
pub mod Push
pub mod Block
pub mod Extend
pub mod Fill
pub mod Refines
pub mod Session
use sky_zadro_docs.Common.{
  ℕ, zero, suc, ◌+◌, ◌-◌, ◌^◌, ◌==◌, ltb, leb, if◌then◌else◌, ◌&&◌, ◌||◌, Bool, true, false, List,
  [], ◌∷◌, ◌++◌, length, slice, Option, none, some,
}
use sky_zadro_docs.Errors.{
  Result, ok, raise, ◌>>=◌, ◌>>◌, require, value_error, index_error, assertion_error, out_of_fuel,
}
use sky_zadro_docs.Merkle.Bits.{count_bits_set, lowest_bit_set}
use sky_zadro_docs.Merkle.Hasher.{
  Bytes, bytes_eq, TreeHasher, hash_empty, hash_children, hash_full, hash_fold,
}

pub record CompactMerkleTree : Type 0 where
  pub hasher : TreeHasher
  pub tree_size : ℕ
  pub hashes : List Bytes
  pub mintree_height : ℕ
  pub cached_root : Option Bytes

-- The object of `load` and `save`.
pub record SavedTree : Type 0 where
  pub tree_size : ℕ
  pub hashes : List Bytes

-- `__init__`, which is `_update` of an object with a hasher
unfoldable pub make : TreeHasher → ℕ → List Bytes → Result CompactMerkleTree
make hasher tree_size hashes =
    if length hashes == count_bits_set tree_size
    then ok (record {
      hasher = hasher;
      tree_size = tree_size;
      hashes = hashes;
      mintree_height = lowest_bit_set tree_size;
      cached_root = none;
    })
    else raise value_error

unfoldable pub update : CompactMerkleTree → ℕ → List Bytes → Result CompactMerkleTree
unfolding make
update t tree_size hashes = make t.hasher tree_size hashes

unfoldable pub load : CompactMerkleTree → SavedTree → Result CompactMerkleTree
unfolding update
load t other = update t other.tree_size other.hashes

-- `save`: what the other object holds afterwards
unfoldable pub save : CompactMerkleTree → SavedTree
save t = record { tree_size = t.tree_size; hashes = t.hashes }

unfoldable pub copy : CompactMerkleTree → Result CompactMerkleTree
unfolding make
copy t = make t.hasher t.tree_size t.hashes

-- The hash that `root_hash` computes where none is kept.
unfoldable pub compute_root : TreeHasher → List Bytes → Result Bytes
compute_root h [] = ok (hash_empty h)
compute_root h (a ∷ r) = hash_fold h (a ∷ r)

-- `root_hash`: the hash, and the tree that keeps it
unfoldable pub root_hash : CompactMerkleTree → Result (Bytes × CompactMerkleTree)
root_hash t = elim t.cached_root [
  | some root ↦ ok (root, t)
  | none ↦
      compute_root t.hasher t.hashes >>= λ root. ok (root, record t { cached_root = some root })
]

-- `hashes[-1]` and `hashes[:-1]`
unfoldable pub last_hash : List Bytes → Result (List Bytes × Bytes)
last_hash [] = raise index_error
last_hash (a ∷ []) = ok ([], a)
last_hash (a ∷ b ∷ r) = last_hash (b ∷ r) >>= λ parts. ok (a ∷ parts.0, parts.1)

-- `__push_subtree_hash`. The fuel `f` bounds the carries.
unfoldable pub push_subtree_hash : ℕ → CompactMerkleTree → ℕ → Bytes → Result CompactMerkleTree
push_subtree_hash zero t subtree_h sub_hash = raise out_of_fuel
push_subtree_hash (suc f) t subtree_h sub_hash =
    let size = 2 ^ (subtree_h - 1) in
    let carry : Result CompactMerkleTree = do
      require (subtree_h == t.mintree_height) assertion_error
      (front, prev_hash) ← last_hash t.hashes
      t' ← update t (t.tree_size - size) front
      require (ltb t.mintree_height t'.mintree_height || t'.mintree_height == 0) assertion_error
      push_subtree_hash f t' (subtree_h + 1) (hash_children t.hasher prev_hash sub_hash)
    in if ltb subtree_h t.mintree_height || t.mintree_height == 0
      then update t (t.tree_size + size) (t.hashes ++ sub_hash ∷ [])
      else carry

-- `hashes == (root_hash,)`
unfoldable pub is_only : List Bytes → Bytes → Bool
is_only (a ∷ []) root = bytes_eq a root
is_only _ root = false

-- `_push_subtree`
unfoldable pub push_subtree : CompactMerkleTree → List Bytes → Result CompactMerkleTree
push_subtree t leaves =
    let size = length leaves in
    let subtree_h = lowest_bit_set size in
    if count_bits_set size == 1
    then (if ltb 0 t.mintree_height && ltb t.mintree_height subtree_h
        then raise value_error
        else (do
          (root, hashes) ← hash_full t.hasher (suc size) leaves 0 size
          require (is_only hashes root) assertion_error
          push_subtree_hash (suc t.tree_size) t subtree_h root))
    else raise value_error

unfoldable pub append : CompactMerkleTree → Bytes → Result CompactMerkleTree
append t new_leaf = push_subtree t (new_leaf ∷ [])

-- The loop of `extend`: the tree, and the index of the first leaf that is left.
unfoldable pub extend_loop : ℕ → CompactMerkleTree → List Bytes → ℕ → Result (CompactMerkleTree × ℕ)
extend_loop zero t new_leaves idx = raise out_of_fuel
extend_loop (suc f) t new_leaves idx =
    let max_size = if ltb 0 t.mintree_height then 2 ^ (t.mintree_height - 1) else 0 in
    let push : Result (CompactMerkleTree × ℕ) = do
      t' ← push_subtree t (slice idx max_size new_leaves)
      extend_loop f t' new_leaves (idx + max_size)
    in if ltb 0 t.mintree_height && leb max_size (length new_leaves - idx)
      then push
      else ok (t, idx)

-- The leaves that the loop leaves over, in one go.
unfoldable pub fill : CompactMerkleTree → ℕ → List Bytes → ℕ → Result CompactMerkleTree
fill t final_size new_leaves idx =
    if ltb idx (length new_leaves)
    then (do
      (root, hashes) ←
          hash_full t.hasher (suc (length new_leaves)) new_leaves idx (length new_leaves)
      update t final_size (t.hashes ++ hashes))
    else ok t

unfoldable pub extend : CompactMerkleTree → List Bytes → Result CompactMerkleTree
extend t new_leaves = do
  let final_size = t.tree_size + length new_leaves
  (t', idx) ← extend_loop (suc (length new_leaves)) t new_leaves 0
  t'' ← fill t' final_size new_leaves idx
  require (t''.tree_size == final_size) assertion_error
  ok t''

unfoldable pub extended : CompactMerkleTree → List Bytes → Result CompactMerkleTree
extended t new_leaves = do new_tree ← copy t; extend new_tree new_leaves
