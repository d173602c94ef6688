-- ===== src/Tests/Compact.antt =====
-- Compact Merkle trees at concrete inputs.
use sky_zadro_docs.Common.{List, [], ◌∷◌, ◌++◌, take, none, ◌≡◌, refl, inl}
use sky_zadro_docs.Errors.{ok}
use sky_zadro_docs.Levels.Peaks.{peaks}
use sky_zadro_docs.Merkle.Bits.{count_bits_set, lowest_bit_set}
use sky_zadro_docs.Merkle.Hasher.{Bytes, hash_leaf, hash_children, hash_full_tree}
use sky_zadro_docs.Merkle.Tree.{merkle_root}
use sky_zadro_docs.Merkle.Compact.{
  CompactMerkleTree, load, save, root_hash, append, extend, extended,
}
use sky_zadro_docs.Merkle.Compact.Refines.{Represents, Gives, append_refines, extend_refines}
use sky_zadro_docs.Merkle.Compact.Session.{
  grown_root, all_leaves, root_hash_refines, load-save_refines, extended_refines,
  grown_root-hash_full_tree,
}
use sky_zadro_docs.Tests.Toy.{toy, five}

bits_sample : count_bits_set 13 ≡ 3
unfolding count_bits_set
bits_sample = refl

lowest_sample : lowest_bit_set 12 ≡ 3
unfolding lowest_bit_set
lowest_sample = refl

abbrev three : List Bytes
three = take 3 five

abbrev tree_of_three : CompactMerkleTree
tree_of_three = record {
  hasher = toy;
  tree_size = 3;
  hashes = (240 ∷ []) ∷ (218 ∷ []) ∷ [];
  mintree_height = 1;
  cached_root = none;
}

tree_of_three-Represents : Represents toy three tree_of_three
unfolding peaks hash_leaf hash_children lowest_bit_set
tree_of_three-Represents = record {
  same_hasher = refl;
  size = refl;
  subtrees = refl;
  smallest = refl;
  kept = inl refl;
}

abbrev blocks : List (List Bytes)
blocks = take 2 five ∷ [] ∷ five ∷ take 1 five ∷ []

grown_root-hash_full_tree_example : grown_root toy blocks ≡ hash_full_tree toy (all_leaves blocks)
grown_root-hash_full_tree_example = grown_root-hash_full_tree toy blocks

extend_refines_example : Gives toy (extend tree_of_three five) (three ++ five)
extend_refines_example = extend_refines toy three five tree_of_three tree_of_three-Represents

append_refines_example : Gives toy (append tree_of_three (40 ∷ [])) (three ++ (40 ∷ []) ∷ [])
append_refines_example = append_refines toy three (40 ∷ []) tree_of_three tree_of_three-Represents

root_hash_refines_example :
    (u : CompactMerkleTree) × (root_hash tree_of_three ≡ ok (merkle_root toy three, u))
    × Represents toy three u
root_hash_refines_example = root_hash_refines toy three tree_of_three tree_of_three-Represents

load-save_refines_example : Gives toy (load tree_of_three (save tree_of_three)) three
load-save_refines_example =
    load-save_refines toy three tree_of_three tree_of_three tree_of_three-Represents refl

extended_refines_example : Gives toy (extended tree_of_three five) (three ++ five)
extended_refines_example = extended_refines toy three five tree_of_three tree_of_three-Represents
