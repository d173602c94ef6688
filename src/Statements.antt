-- ===== src/Statements.antt =====
-- python/ct/crypto/verify.py: the signed tree heads and signatures of a log, and LogVerifier on tree
-- heads. The verifier of signatures, a call of a cryptographic library, is a parameter.
pub mod Accepted
pub mod Proved
pub mod Signatures
use sky_zadro_docs.Common.{
  ℕ, ◌+◌, ◌*◌, ◌≡◌, ◌==◌, ltb, if◌then◌else◌, ◌&&◌, ◌||◌, Bool, true, false, List, [], ◌∷◌, ◌++◌,
  length, take, drop,
}
use sky_zadro_docs.Common.Int.{pos}
use sky_zadro_docs.Errors.{
  Result, ok, raise, ◌>>=◌, ◌>>◌, require, value_error, consistency_error, encoding_error,
  signature_error, returns_true_or_raises,
}
use sky_zadro_docs.Merkle.Hasher.{Bytes, TreeHasher}
use sky_zadro_docs.Merkle.Verifier.{verify_tree_consistency}
use sky_zadro_docs.Tls.{low_bytes, from_bytes}
use mathlib.Core.List.{reverse}

-- The message of a signed tree head.
pub record SthResponse : Type 0 where
  pub timestamp : ℕ
  pub tree_size : ℕ
  pub sha256_root_hash : Bytes
  pub tree_head_signature : Bytes

-- ct_pb2.DigitallySigned, ct_pb2.V1 and ct_pb2.TREE_HEAD
abbrev pub sha256 : ℕ
sha256 = 4

abbrev pub rsa : ℕ
rsa = 1

abbrev pub ecdsa : ℕ
ecdsa = 3

-- `struct.pack` of a number in so many bytes, the highest first
abbrev pub pack : ℕ → ℕ → Bytes
pack width value = reverse (low_bytes width value)

-- The tests of decode_signature on its parts: the prefix, the length prefix and what remains.
unfoldable pub decode_remaining : ℕ → ℕ → Bytes → Bytes → Result (ℕ × ℕ × Bytes)
decode_remaining hash_algo sig_algo length_prefix remaining =
    if length length_prefix == 2
    then (if length remaining == from_bytes length_prefix
        then ok (hash_algo, sig_algo, remaining)
        else raise encoding_error)
    else raise encoding_error

unfoldable pub decode_signature : Bytes → Result (ℕ × ℕ × Bytes)
decode_signature [] = raise encoding_error
decode_signature (hash_algo ∷ []) = raise encoding_error
decode_signature (hash_algo ∷ sig_algo ∷ sig_stream) =
    if hash_algo == sha256 && (sig_algo == ecdsa || sig_algo == rsa)
    then decode_remaining hash_algo sig_algo (take 2 sig_stream) (drop 2 sig_stream)
    else raise encoding_error

-- A verifier of signatures, with the algorithms of its key.
pub record SigVerifier : Type 0 where
  pub hash_algorithm : ℕ
  pub signature_algorithm : ℕ
  pub verify : Bytes → Bytes → Result Bool

unfoldable pub encode_sth_input : SthResponse → Result Bytes
encode_sth_input sth =
    if length sth.sha256_root_hash == 32
    then ok (0 ∷ 1 ∷ pack 8 sth.timestamp ++ (pack 8 sth.tree_size ++ sth.sha256_root_hash))
    else raise encoding_error

unfoldable pub assert_correct_signature_algorithms : SigVerifier → ℕ → ℕ → Result Bool
unfolding returns_true_or_raises
assert_correct_signature_algorithms sig hash_algo sig_algo = returns_true_or_raises (do
  require (hash_algo == sig.hash_algorithm) signature_error
  require (sig_algo == sig.signature_algorithm) signature_error
  ok true)

unfoldable pub verify_sth : SigVerifier → SthResponse → Result Bool
unfolding returns_true_or_raises
verify_sth sig sth = returns_true_or_raises (do
  signature_input ← encode_sth_input sth
  (hash_algo, sig_algo, signature) ← decode_signature sth.tree_head_signature
  correct ← assert_correct_signature_algorithms sig hash_algo sig_algo
  sig.verify signature_input signature)

unfoldable pub verify_sth_temporal_consistency : SthResponse → SthResponse → Result Bool
unfolding returns_true_or_raises
verify_sth_temporal_consistency old_sth new_sth = returns_true_or_raises (
    if ltb new_sth.timestamp old_sth.timestamp
    then raise value_error
    else if (old_sth.timestamp == new_sth.timestamp)
        && (if old_sth.tree_size == new_sth.tree_size then false else true)
    then raise consistency_error
    else if ltb old_sth.timestamp new_sth.timestamp && ltb new_sth.tree_size old_sth.tree_size
    then raise consistency_error
    else ok true)

unfoldable pub verify_sth_consistency :
    TreeHasher → SthResponse → SthResponse → List Bytes → Result Bool
unfolding returns_true_or_raises
verify_sth_consistency h old_sth new_sth proof = returns_true_or_raises (do
  in_time ← verify_sth_temporal_consistency old_sth new_sth
  consistent ←
      verify_tree_consistency h (pos old_sth.tree_size) (pos new_sth.tree_size)
        old_sth.sha256_root_hash new_sth.sha256_root_hash proof
  ok true)
