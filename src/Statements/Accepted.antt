-- ===== src/Statements/Accepted.antt =====
-- What verify_sth and verify_sth_consistency of python/ct/crypto/verify.py have checked when they
-- accept.
use sky_zadro_docs.Common.{
  refl, true, le→ltb, lt→ltb, ne→==, ℕ, ◌≤◌, ◌<◌, List, Bool, Bool-cases, ==_iff, length, ◌≡◌,
  arith, inl, inr,
}
use sky_zadro_docs.Common.Int.{pos}
use sky_zadro_docs.Errors.{ok, bind-returned, returns_true_or_raises, returns_true_or_raises-eq-ok}
use mathlib.Core.Path.{subst}
use sky_zadro_docs.Merkle.Hasher.{
  Bytes, bytes_eq, bytes_eq→eq, bytes_eq_refl, bytes_eq_refl, TreeHasher,
}
use sky_zadro_docs.Merkle.Verifier.{verify_tree_consistency, check_tree_consistency}
use sky_zadro_docs.Statements.{
  SthResponse, SigVerifier, encode_sth_input, verify_sth, verify_sth_temporal_consistency,
  verify_sth_consistency,
}

-- In the order of time, sizes do not fall, and two sizes at one time are the same.
pub record InTime (old_sth new_sth : SthResponse) : Type 0 where
  pub later : old_sth.timestamp ≤ new_sth.timestamp
  pub larger : old_sth.tree_size ≤ new_sth.tree_size
  pub at_once : old_sth.timestamp ≡ new_sth.timestamp → old_sth.tree_size ≡ new_sth.tree_size

temporal-InTime :
    (old_sth new_sth : SthResponse) {b : Bool}
    → verify_sth_temporal_consistency old_sth new_sth ≡ ok b
    → InTime old_sth new_sth
unfolding verify_sth_temporal_consistency returns_true_or_raises
temporal-InTime old_sth new_sth e = record {
  later = ground arith;
  larger = ground arith;
  at_once = λ same. ground arith;
}

-- Equal sizes go with equal roots.
same_root :
    (h : TreeHasher) (n : ℕ) (old_root new_root : Bytes) (proof : List Bytes) {b : Bool}
    → verify_tree_consistency h (pos n) (pos n) old_root new_root proof ≡ ok b
    → old_root ≡ new_root
unfolding verify_tree_consistency check_tree_consistency
same_root h n old_root new_root proof e = elim (Bool-cases (bytes_eq old_root new_root)) [
  | inl same ↦ bytes_eq→eq old_root new_root same
  | inr differ ↦ ground (arith, differ)
]

same_root_of :
    (h : TreeHasher) (m n : ℕ) (old_root new_root : Bytes) (proof : List Bytes) {b : Bool}
    → verify_tree_consistency h (pos m) (pos n) old_root new_root proof ≡ ok b
    → m ≡ n
    → old_root ≡ new_root
same_root_of h m n old_root new_root proof {b} e same = same_root h n old_root new_root proof (
    subst (λ (k : ℕ). verify_tree_consistency h (pos k) (pos n) old_root new_root proof ≡ ok b) same
      e)

-- Accepted: in the order of time, and of the same root where the sizes are the same.
pub record Accepts (old_sth new_sth : SthResponse) : Type 0 where
  pub in_time : InTime old_sth new_sth
  pub same :
      old_sth.tree_size ≡ new_sth.tree_size → old_sth.sha256_root_hash ≡ new_sth.sha256_root_hash

pub verify_sth_consistency-Accepts :
    (h : TreeHasher) (old_sth new_sth : SthResponse) (proof : List Bytes) {b : Bool}
    → verify_sth_consistency h old_sth new_sth proof ≡ ok b
    → Accepts old_sth new_sth
unfolding verify_sth_consistency
verify_sth_consistency-Accepts h old_sth new_sth proof e =
    let (a, timed, rest) = bind-returned _ _ (returns_true_or_raises-eq-ok _ e) in
    let (c, proved, done) = bind-returned _ _ rest in
    record {
      in_time = temporal-InTime old_sth new_sth timed;
      same =
          same_root_of h old_sth.tree_size new_sth.tree_size old_sth.sha256_root_hash
            new_sth.sha256_root_hash proof proved;
    }

-- A later tree head of the same size and root is accepted, with any hashes for a proof.
pub same_head-accepted :
    (h : TreeHasher) (old_sth new_sth : SthResponse) (proof : List Bytes)
    → old_sth.timestamp < new_sth.timestamp
    → old_sth.tree_size ≡ new_sth.tree_size
    → old_sth.sha256_root_hash ≡ new_sth.sha256_root_hash
    → verify_sth_consistency h old_sth new_sth proof ≡ ok true
unfolding verify_sth_consistency verify_sth_temporal_consistency verify_tree_consistency
    check_tree_consistency returns_true_or_raises
same_head-accepted h old_sth new_sth proof later size root =
    rw
      (
        le→ltb new_sth.timestamp old_sth.timestamp (omega (arith, later)),
        ne→== old_sth.timestamp new_sth.timestamp (λ e. omega (arith, e, later)),
        lt→ltb old_sth.timestamp new_sth.timestamp later,
        le→ltb new_sth.tree_size old_sth.tree_size (omega (arith, size)),
        (==_iff old_sth.tree_size new_sth.tree_size).1 size,
        same_bytes,
      )
      refl
  where
    same_bytes : bytes_eq old_sth.sha256_root_hash new_sth.sha256_root_hash ≡ true
    same_bytes =
        subst (λ (r : Bytes). bytes_eq old_sth.sha256_root_hash r ≡ true) root
          (bytes_eq_refl old_sth.sha256_root_hash)

encode-length :
    (sth : SthResponse) {input : Bytes}
    → encode_sth_input sth ≡ ok input
    → length sth.sha256_root_hash ≡ 32
unfolding encode_sth_input
encode-length sth e = ground arith

-- The root hash of an accepted tree head has the size of SHA-256.
pub verify_sth-length :
    (sig : SigVerifier) (sth : SthResponse) {b : Bool}
    → verify_sth sig sth ≡ ok b
    → length sth.sha256_root_hash ≡ 32
unfolding verify_sth
verify_sth-length sig sth e =
    let (input, encoded, rest) = bind-returned _ _ (returns_true_or_raises-eq-ok _ e) in
    encode-length sth encoded
