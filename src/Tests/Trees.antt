-- ===== src/Tests/Trees.antt =====
-- Merkle trees, audit paths and consistency proofs at concrete inputs.
use sky_zadro_docs.Common.{
  ◌≤◌, List, [], ◌∷◌, take, get_elem?, some, true, ◌≡◌, refl, arith, ◌⊎◌, ◌↔◌, length,
}
use sky_zadro_docs.Common.Int.{pos, negsuc}
use sky_zadro_docs.Errors.{ok, raise, value_error, proof_error}
use sky_zadro_docs.Levels.Root.{root}
use sky_zadro_docs.Levels.Split.{bit_length}
use sky_zadro_docs.Merkle.Bits.{count_bits_set}
use sky_zadro_docs.Merkle.Hasher.{
  Bytes, hash_leaf, hash_children, hash_one, hash_full, hash_fold, assert_root, hash_full_tree,
}
use sky_zadro_docs.Merkle.Tree.{merkle_root}
use sky_zadro_docs.Merkle.Rfc.{Mth, hash_full_tree-Mth}
use sky_zadro_docs.Merkle.Collision.{Collision}
use sky_zadro_docs.Merkle.Verifier.{
  TreeHead, audit_path_length, audit_loop, calculate_root_hash_from_audit_path, check_leaf_at,
  verify_leaf_inclusion, climb_right, first_hashes, next, both_loop, new_loop, compare_roots,
  verify_path, verify_tree_consistency,
}
use sky_zadro_docs.Merkle.Inclusion.Verdict.{
  InRange, verify_leaf_inclusion_verdict, verify_leaf_inclusion_sound,
}
use sky_zadro_docs.Merkle.Consistency.Verdict.{verify_tree_consistency_sound}
use sky_zadro_docs.Merkle.Consistency.Answers.{VerdictOn, verify_tree_consistency_verdict}
use sky_zadro_docs.InMemory.{
  InMemoryMerkleTree, get_inclusion_proof, calculate_inclusion_proof, down_to_power_of_two,
}
use sky_zadro_docs.InMemory.Lengths.{get_inclusion_proof-audit_path_length}
use sky_zadro_docs.InMemory.Served.{audit_session, audit_session_accepts}
use sky_zadro_docs.InMemory.Monitored.{monitor_session, monitor_session_accepts}
use sky_zadro_docs.Tests.Toy.{toy, toy-HasSize, integer_log, integer_log-ExactUpTo, five}

abbrev tree : InMemoryMerkleTree
tree = record { leaves = five; hasher = toy }

hash_full_tree-Mth_example :
    (hash_full_tree toy five ≡ ok (merkle_root toy five)) ↔ Mth toy five (merkle_root toy five)
hash_full_tree-Mth_example = hash_full_tree-Mth toy five (merkle_root toy five)

audit_session_accepts_example : audit_session integer_log tree 3 5 (40 ∷ []) ≡ ok true
audit_session_accepts_example =
    audit_session_accepts integer_log tree 3 5 (40 ∷ []) (omega arith) (omega arith)
      (integer_log-ExactUpTo 5) refl

monitor_session_accepts_example : monitor_session integer_log tree 3 5 ≡ ok true
monitor_session_accepts_example =
    monitor_session_accepts integer_log tree 3 5 (omega arith) (omega arith)
      (integer_log-ExactUpTo 5)

abbrev audit_path : List Bytes
audit_path = (218 ∷ []) ∷ (240 ∷ []) ∷ (32 ∷ []) ∷ []

abbrev consistency_proof : List Bytes
consistency_proof = (218 ∷ []) ∷ (22 ∷ []) ∷ (240 ∷ []) ∷ (32 ∷ []) ∷ []

abbrev head_of_five : TreeHead
head_of_five = record { tree_size = pos 5; sha256_root_hash = merkle_root toy five }

served_path : get_inclusion_proof integer_log tree 3 5 ≡ ok audit_path
unfolding get_inclusion_proof calculate_inclusion_proof down_to_power_of_two hash_full_tree
    hash_full hash_one hash_fold assert_root hash_leaf hash_children count_bits_set bit_length
served_path = refl

leaf_accepted : verify_leaf_inclusion toy (40 ∷ []) (pos 3) audit_path head_of_five ≡ ok true
unfolding verify_leaf_inclusion check_leaf_at calculate_root_hash_from_audit_path audit_loop
    hash_leaf hash_children merkle_root root
leaf_accepted = refl

older_accepted :
    verify_tree_consistency toy (pos 3) (pos 5) (30 ∷ []) (merkle_root toy five) consistency_proof
    ≡ ok true
unfolding verify_tree_consistency verify_path climb_right first_hashes next both_loop new_loop
    compare_roots hash_leaf hash_children merkle_root root
older_accepted = refl

verify_leaf_inclusion_verdict_example :
    ((¬ InRange toy (negsuc 0) (pos 5))
      × (verify_leaf_inclusion toy (40 ∷ []) (negsuc 0) audit_path head_of_five
          ≡ raise value_error))
    ⊎ (InRange toy (negsuc 0) (pos 5)
        × ((verify_leaf_inclusion toy (40 ∷ []) (negsuc 0) audit_path head_of_five ≡ ok true)
            ⊎ (verify_leaf_inclusion toy (40 ∷ []) (negsuc 0) audit_path head_of_five
                ≡ raise proof_error)))
verify_leaf_inclusion_verdict_example =
    verify_leaf_inclusion_verdict toy (40 ∷ []) (negsuc 0) audit_path head_of_five

verify_leaf_inclusion_sound_example : (get_elem? five 3 ≡ some (40 ∷ [])) ⊎ Collision toy
verify_leaf_inclusion_sound_example =
    verify_leaf_inclusion_sound toy 1 toy-HasSize five (40 ∷ []) 3 audit_path true leaf_accepted

verify_tree_consistency_sound_example :
    (3 ≤ 5) × ((30 ∷ [] ≡ merkle_root toy (take 3 five)) ⊎ Collision toy)
verify_tree_consistency_sound_example =
    verify_tree_consistency_sound toy 1 toy-HasSize five 3 (30 ∷ []) consistency_proof true refl
      (omega arith) (omega arith) older_accepted

verify_tree_consistency_verdict_example :
    VerdictOn toy
      (30 ∷ [])
      (merkle_root toy five)
      []
      (pos 3)
      (pos 5)
      (verify_tree_consistency toy (pos 3) (pos 5) (30 ∷ []) (merkle_root toy five) [])
verify_tree_consistency_verdict_example =
    verify_tree_consistency_verdict toy (30 ∷ []) (merkle_root toy five) [] (pos 3) (pos 5)

get_inclusion_proof-audit_path_length_example :
    (path : List Bytes) × (get_inclusion_proof integer_log tree 3 5 ≡ ok path)
    × (audit_path_length 3 5 ≡ ok (length path))
get_inclusion_proof-audit_path_length_example =
    get_inclusion_proof-audit_path_length integer_log tree 3 5 (omega arith) (omega arith)
      (integer_log-ExactUpTo 5)
