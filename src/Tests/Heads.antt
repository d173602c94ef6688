-- ===== src/Tests/Heads.antt =====
-- Tree heads of a log of five leaves.
use sky_zadro_docs.Common.{List, [], ◌∷◌, take, some, true, ◌≡◌, refl, arith, ◌⊎◌}
use sky_zadro_docs.Errors.{ok, returns_true_or_raises}
use sky_zadro_docs.Levels.Root.{root}
use sky_zadro_docs.Merkle.Hasher.{
  Bytes, hash_leaf, hash_children, hash_full_tree, hash_full, hash_one, hash_fold, assert_root,
}
use sky_zadro_docs.Merkle.Bits.{count_bits_set}
use sky_zadro_docs.Levels.Split.{bit_length}
use sky_zadro_docs.Merkle.Tree.{merkle_root}
use sky_zadro_docs.Merkle.Collision.{Collision}
use sky_zadro_docs.Merkle.Verifier.{
  verify_tree_consistency, verify_path, climb_right, first_hashes, next, both_loop, new_loop,
  compare_roots,
}
use sky_zadro_docs.InMemory.{InMemoryMerkleTree, get_root_hash, get_consistency_proof}
use sky_zadro_docs.Statements.{SthResponse, verify_sth_temporal_consistency, verify_sth_consistency}
use sky_zadro_docs.Statements.Proved.{Succeeds, verify_sth_consistency_sound, served_heads_accepted}
use sky_zadro_docs.Tests.Toy.{toy, toy-HasSize, integer_log, integer_log-ExactUpTo, five}

abbrev tree : InMemoryMerkleTree
tree = record { leaves = five; hasher = toy }

abbrev old_head : SthResponse
old_head = record {
  timestamp = 7;
  tree_size = 3;
  sha256_root_hash = 30 ∷ [];
  tree_head_signature = [];
}

abbrev new_head : SthResponse
new_head = record {
  timestamp = 8;
  tree_size = 5;
  sha256_root_hash = merkle_root toy five;
  tree_head_signature = [];
}

abbrev proof : List Bytes
proof = (218 ∷ []) ∷ (22 ∷ []) ∷ (240 ∷ []) ∷ (32 ∷ []) ∷ []

heads_accepted : verify_sth_consistency toy old_head new_head proof ≡ ok true
unfolding verify_sth_consistency verify_sth_temporal_consistency verify_tree_consistency verify_path
    climb_right first_hashes next both_loop new_loop compare_roots returns_true_or_raises hash_leaf
    hash_children merkle_root root
heads_accepted = refl

verify_sth_consistency_sound_example :
    Succeeds old_head new_head × ((30 ∷ [] ≡ merkle_root toy (take 3 five)) ⊎ Collision toy)
verify_sth_consistency_sound_example =
    verify_sth_consistency_sound toy 1 toy-HasSize five old_head new_head proof true refl refl refl
      (omega arith) (omega arith) heads_accepted

old_root : get_root_hash tree (some 3) ≡ ok (30 ∷ [])
unfolding get_root_hash hash_full_tree hash_full hash_one hash_fold assert_root hash_leaf
    hash_children count_bits_set bit_length
old_root = refl

new_root : get_root_hash tree (some 5) ≡ ok (merkle_root toy five)
unfolding get_root_hash hash_full_tree hash_full hash_one hash_fold assert_root hash_leaf
    hash_children count_bits_set bit_length merkle_root root
new_root = refl

served_heads_accepted_example :
    (served : List Bytes) × (get_consistency_proof integer_log tree 3 (some 5) ≡ ok served)
    × (verify_sth_consistency toy old_head new_head served ≡ ok true)
served_heads_accepted_example =
    served_heads_accepted integer_log tree old_head new_head old_root new_root (omega arith)
      (omega arith) (omega arith) (integer_log-ExactUpTo 5)
