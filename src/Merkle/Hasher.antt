-- ===== src/Merkle/Hasher.antt =====
-- python/ct/crypto/merkle.py: TreeHasher. A byte string is a list of numbers, and the hash function
-- is a parameter.
use sky_zadro_docs.Common.{
  ℕ, zero, suc, ◌+◌, ◌-◌, ◌*◌, ◌^◌, ◌==◌, ltb, leb, if◌then◌else◌, ◌&&◌, ◌||◌, Bool, true, false,
  List, [], ◌∷◌, ◌++◌, length, get_elem?, Option, none, some, ◌≡◌, refl, arith,
}
use sky_zadro_docs.Errors.{
  Result, ok, raise, ◌>>=◌, ◌>>◌, require, index_error, assertion_error, stop_iteration,
  out_of_fuel,
}
use sky_zadro_docs.Levels.Split.{bit_length}
use sky_zadro_docs.Merkle.Bits.{count_bits_set}
use mathlib.Core.List.{foldl, reverse}

abbrev pub Bytes : Type 0
Bytes = List ℕ

-- `==` on byte strings
abbrev pub bytes_eq : Bytes → Bytes → Bool
bytes_eq [] [] = true
bytes_eq [] (y ∷ ys) = false
bytes_eq (x ∷ xs) [] = false
bytes_eq (x ∷ xs) (y ∷ ys) = x == y && bytes_eq xs ys

pub bytes_eq→eq : (xs ys : Bytes) → bytes_eq xs ys ≡ true → xs ≡ ys
bytes_eq→eq [] [] h = refl
bytes_eq→eq [] (y ∷ ys) h = cc
bytes_eq→eq (x ∷ xs) [] h = cc
bytes_eq→eq (x ∷ xs) (y ∷ ys) h = ground (arith, bytes_eq→eq xs ys)

pub bytes_eq_refl : (xs : Bytes) → bytes_eq xs xs ≡ true
bytes_eq_refl [] = refl
bytes_eq_refl (x ∷ xs) = ground (arith, bytes_eq_refl xs)

pub record TreeHasher : Type 0 where
  pub hashfunc : Bytes → Bytes

unfoldable pub hash_empty : TreeHasher → Bytes
hash_empty h = h.hashfunc []

unfoldable pub hash_leaf : TreeHasher → Bytes → Bytes
hash_leaf h leaf = h.hashfunc (0 ∷ leaf)

unfoldable pub hash_children : TreeHasher → Bytes → Bytes → Bytes
hash_children h left right = h.hashfunc (1 ∷ (left ++ right))

module _ (h : TreeHasher) where
  -- `leaves[l_idx]` hashed, with the one hash of a tree of one leaf
  unfoldable pub hash_one : Option Bytes → Result (Bytes × List Bytes)
  hash_one none = raise index_error
  hash_one (some leaf) = ok (hash_leaf h leaf, hash_leaf h leaf ∷ [])

  -- `_hash_full`. The fuel `f` bounds the depth of the recursion. The indices are numbers, so the
  -- guard against negative ones has nothing to do.
  unfoldable pub hash_full : ℕ → List Bytes → ℕ → ℕ → Result (Bytes × List Bytes)
  hash_full zero leaves l_idx r_idx = raise out_of_fuel
  hash_full (suc f) leaves l_idx r_idx =
      let width = r_idx - l_idx in
      let split_width = 2 ^ (bit_length (width - 1) - 1) in
      let halves : Result (Bytes × List Bytes) = do
        require (ltb split_width width && leb width (2 * split_width)) assertion_error
        (l_root, l_hashes) ← hash_full f leaves l_idx (l_idx + split_width)
        require (length l_hashes == 1) assertion_error
        (r_root, r_hashes) ← hash_full f leaves (l_idx + split_width) r_idx
        let root_hash = hash_children h l_root r_root
        ok (root_hash, if split_width * 2 == width then root_hash ∷ [] else l_hashes ++ r_hashes)
      in if ltb r_idx l_idx || ltb (length leaves) r_idx
        then raise index_error
        else if width == 0
        then ok (hash_empty h, [])
        else if width == 1
        then hash_one (get_elem? leaves l_idx)
        else halves

  -- `_hash_fold` over the reversed hashes; `next` on no hash raises StopIteration
  abbrev pub fold_reversed : List Bytes → Result Bytes
  fold_reversed [] = raise stop_iteration
  fold_reversed (accum ∷ rest) = ok (foldl (λ accum cur. hash_children h cur accum) accum rest)

  unfoldable pub hash_fold : List Bytes → Result Bytes
  hash_fold hashes = fold_reversed (reverse hashes)

  -- The second assertion of hash_full_tree.
  unfoldable pub assert_root : List Bytes → Bytes → Result (Unit {0})
  assert_root [] root_hash = require (bytes_eq root_hash (hash_empty h)) assertion_error
  assert_root (a ∷ r) root_hash = do
    folded ← hash_fold (a ∷ r)
    require (bytes_eq folded root_hash) assertion_error

  unfoldable pub hash_full_tree : List Bytes → Result Bytes
  hash_full_tree leaves = do
    (root_hash, hashes) ← hash_full (suc (length leaves)) leaves 0 (length leaves)
    require (length hashes == count_bits_set (length leaves)) assertion_error
    assert_root hashes root_hash
    ok root_hash
