-- ===== src/Tests/Watch.antt =====
-- A monitor and its log at concrete inputs.
use sky_zadro_docs.Common.{
  ℕ, zero, suc, List, [], ◌∷◌, true, false, none, some, ◌≡◌, refl, arith, ◌⊎◌, inl,
}
use sky_zadro_docs.Errors.{ok, ok_injective, returns_true_or_raises}
use sky_zadro_docs.Merkle.Hasher.{Bytes, TreeHasher, hash_leaf, hash_children}
use sky_zadro_docs.Merkle.Bits.{count_bits_set, lowest_bit_set}
use sky_zadro_docs.Levels.Root.{root}
use sky_zadro_docs.Merkle.Tree.{merkle_root}
use sky_zadro_docs.Merkle.Compact.{CompactMerkleTree, make, load, update}
use sky_zadro_docs.Statements.{
  SthResponse, SigVerifier, sha256, ecdsa, decode_signature, decode_remaining, encode_sth_input,
  assert_correct_signature_algorithms, verify_sth, verify_sth_temporal_consistency,
  verify_sth_consistency,
}
use sky_zadro_docs.Statements.Signatures.{encoded, encoded-decode_signature}
use sky_zadro_docs.Merkle.Collision.{HasSize, Sized}
use sky_zadro_docs.Monitor.Views.{Unmoved, Extends, no_other_view}
use sky_zadro_docs.Client.{EntryResponse}
use sky_zadro_docs.Monitor.{Monitor, Answers, make_monitor, unset, value_of, update_sth}
use sky_zadro_docs.Monitor.Update
use sky_zadro_docs.Monitor.Tracking.{core, Holds}
use sky_zadro_docs.Monitor.Settling.{Follows}
use sky_zadro_docs.Monitor.Reach.{
  new, updated, new_monitor-Holds, same_monitor, update-Follows, restart-Holds, Reach-Holds,
}
use sky_zadro_docs.Tls.{from_bytes}
use sky_zadro_docs.Monitor.Entries.{leaf_inputs}
use sky_zadro_docs.Monitor.Checks.{UpToDate, Delivers}
use sky_zadro_docs.Monitor.Honest.{honest_update}
use sky_zadro_docs.Monitor.Unset.{empty_log_refused}
use sky_zadro_docs.Merkle.Verifier.{verify_tree_consistency, check_tree_consistency}
use sky_zadro_docs.Tests.Toy.{weigh}
use mathlib.Core.Path.{subst}

encoded-decode_signature_example :
    decode_signature (encoded sha256 ecdsa (7 ∷ 8 ∷ [])) ≡ ok (sha256, ecdsa, 7 ∷ 8 ∷ [])
encoded-decode_signature_example =
    encoded-decode_signature ecdsa (7 ∷ 8 ∷ []) (inl refl) (omega arith)

abbrev repeated : ℕ → ℕ → Bytes
repeated zero b = []
repeated (suc n) b = b ∷ repeated n b

-- A hash function with results as long as those of SHA-256.
abbrev wide : TreeHasher
wide = record { hashfunc = λ x. repeated 32 (weigh 7 x) }

abbrev entry : ℕ → EntryResponse
entry n = record { leaf_input = n ∷ []; extra_data = [] }

-- Every signature is good.
abbrev trusting : SigVerifier
trusting = record {
  hash_algorithm = 4;
  signature_algorithm = 3;
  verify = λ input signature. ok true;
}

abbrev head_of_two : SthResponse
head_of_two = record {
  timestamp = 5;
  tree_size = 2;
  sha256_root_hash = merkle_root wide ((1 ∷ []) ∷ (2 ∷ []) ∷ []);
  tree_head_signature = encoded sha256 ecdsa [];
}

-- A log of two entries, that come in two batches.
abbrev log_of_two : Answers
log_of_two = record {
  sth = ok head_of_two;
  consistency = λ old_size new_size. ok [];
  entries = λ start end. record {
    batches = (entry 1 ∷ [], true) ∷ (entry 2 ∷ [], true) ∷ [];
    result = some 2;
  };
}

abbrev blank_tree : CompactMerkleTree
blank_tree = record {
  hasher = wide;
  tree_size = 0;
  hashes = [];
  mintree_height = 0;
  cached_root = none;
}

abbrev blank : Monitor
blank = record {
  state = record {
    verified_sth = none;
    pending_sth = none;
    verified_tree = record { tree_size = 0; hashes = [] };
    unverified_tree = record { tree_size = 0; hashes = [] };
  };
  verified_tree = blank_tree;
  unverified_tree = blank_tree;
  file = none;
  stored = [];
  reports = 0;
}

made_blank : make_monitor wide none [] ≡ ok blank
unfolding make_monitor make load update count_bits_set lowest_bit_set
made_blank = refl

blank-Holds : Holds wide [] [] (core blank)
blank-Holds =
    let (m, made, holds) = new_monitor-Holds wide trusting [] in
    subst (λ (k : Monitor). Holds wide [] [] (core k))
      (same_monitor wide trusting m blank (make_monitor wide none []) made made_blank) holds

update-Follows_example :
    Follows wide [] (core blank) (core (Update.update wide trusting log_of_two blank).1)
update-Follows_example = update-Follows wide trusting log_of_two [] [] blank blank-Holds

restart-Holds_example :
    (m : Monitor) × (make_monitor wide blank.file [] ≡ ok m)
    × Holds wide [] [] (core m)
    × (m.state ≡ blank.state)
restart-Holds_example = restart-Holds wide trusting [] [] blank [] blank-Holds

Reach-Holds_example :
    (leaves : List Bytes) × (more : List Bytes) × Holds wide leaves more
      (core (Update.update wide trusting log_of_two blank).1)
Reach-Holds_example =
    Reach-Holds wide trusting (Update.update wide trusting log_of_two blank).1
      (updated blank log_of_two (new blank [] made_blank))

head_signed : verify_sth trusting head_of_two ≡ ok true
unfolding verify_sth encode_sth_input decode_signature decode_remaining
    assert_correct_signature_algorithms returns_true_or_raises from_bytes merkle_root root hash_leaf
    hash_children
head_signed = refl

head_proof : verify_sth_consistency wide unset head_of_two [] ≡ ok true
unfolding verify_sth_consistency verify_sth_temporal_consistency verify_tree_consistency
    check_tree_consistency returns_true_or_raises merkle_root root hash_leaf hash_children
head_proof = refl

two_delivered : Delivers wide trusting log_of_two [] [] 0 head_of_two
unfolding leaf_inputs
two_delivered = record {
  first = entry 1 ∷ [];
  batches = (entry 2 ∷ []) ∷ [];
  produced = 2;
  proof = [];
  wanted = omega arith;
  answer = refl;
  whole = omega arith;
  size = refl;
  root = refl;
  late = omega arith;
  proved = refl;
}

honest_update_example :
    UpToDate wide trusting log_of_two [] [] head_of_two
      (Update.update wide trusting log_of_two blank)
honest_update_example =
    honest_update wide trusting log_of_two [] [] blank head_of_two [] blank-Holds refl refl
      head_signed refl head_proof (omega arith) (omega arith) two_delivered

abbrev empty_head : SthResponse
empty_head = record {
  timestamp = 5;
  tree_size = 0;
  sha256_root_hash = merkle_root wide [];
  tree_head_signature = encoded sha256 ecdsa [];
}

abbrev empty_log : Answers
empty_log = record {
  sth = ok empty_head;
  consistency = λ old_size new_size. ok [];
  entries = λ start end. record { batches = []; result = some 0 };
}

empty_log_refused_example : (Update.update wide trusting empty_log blank).0 ≡ ok false
empty_log_refused_example =
    empty_log_refused wide trusting empty_log blank empty_head refl refl refl refl

wide-HasSize : HasSize wide 32
wide-HasSize x = refl

abbrev three : List Bytes
three = (1 ∷ []) ∷ (2 ∷ []) ∷ (3 ∷ []) ∷ []

abbrev head_of_three : SthResponse
head_of_three = record {
  timestamp = 9;
  tree_size = 3;
  sha256_root_hash = merkle_root wide three;
  tree_head_signature = encoded sha256 ecdsa [];
}

-- The log after another entry, with the proof from two entries to three.
abbrev log_of_three : Answers
log_of_three = record {
  sth = ok head_of_three;
  consistency = λ old_size new_size. ok (hash_leaf wide (3 ∷ []) ∷ []);
  entries = λ start end. record { batches = (entry 3 ∷ [], true) ∷ []; result = some 1 };
}

proofs_sized :
    (old_size new_size : ℕ) (proof : List Bytes)
    → log_of_three.consistency old_size new_size ≡ ok proof
    → Sized wide 32 wide-HasSize proof
unfolding hash_leaf
proofs_sized old_size new_size proof e =
    subst (Sized wide 32 wide-HasSize) (ok_injective e) (refl, tt)

-- The monitor after its first update.
abbrev grown : Monitor
grown = (Update.update wide trusting log_of_two blank).1

no_other_view_example :
    Unmoved wide trusting log_of_three grown (update_sth wide trusting log_of_three grown)
    ⊎ ((verify_sth trusting head_of_three ≡ ok true)
        × Extends wide trusting log_of_three wide-HasSize proofs_sized
            update-Follows_example.new_leaves three
            (value_of grown.state.verified_sth).tree_size)
no_other_view_example =
    no_other_view wide trusting log_of_three wide-HasSize proofs_sized
      update-Follows_example.new_leaves three grown update-Follows_example.more head_of_three
      update-Follows_example.holds refl refl refl
