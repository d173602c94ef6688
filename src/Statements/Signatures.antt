-- ===== src/Statements/Signatures.antt =====
-- decode_signature of python/ct/crypto/verify.py reads the TLS encoding of a signature.
use sky_zadro_docs.Common.{ℕ, ◌<◌, ◌∷◌, ◌++◌, length, ◌≡◌, refl, arith, ◌⊎◌, inl, inr, take, drop}
use sky_zadro_docs.Errors.{ok}
use sky_zadro_docs.Merkle.Hasher.{Bytes}
use sky_zadro_docs.Tls.Numbers.{from_bytes-low}
use sky_zadro_docs.Statements.{sha256, rsa, ecdsa, pack, decode_remaining, decode_signature}

-- The TLS encoding: two algorithms, and the signature after its length in two bytes.
abbrev pub encoded : ℕ → ℕ → Bytes → Bytes
encoded hash_algo sig_algo signature = hash_algo ∷ sig_algo ∷ pack 2 (length signature) ++ signature

two_bytes :
    (signature : Bytes)
    → take 2 (pack 2 (length signature) ++ signature) ≡ pack 2 (length signature)
two_bytes signature = refl

after_two : (signature : Bytes) → drop 2 (pack 2 (length signature) ++ signature) ≡ signature
after_two signature = refl

remaining_lem :
    (sig_algo : ℕ) (signature : Bytes)
    → length signature < 65536
    → decode_remaining sha256 sig_algo (pack 2 (length signature)) signature
      ≡ ok (sha256, sig_algo, signature)
unfolding decode_remaining
remaining_lem sig_algo signature small =
    ground (arith, from_bytes-low 2 (length signature) (omega arith))

-- A signature of less than 2 ^ 16 bytes under a supported algorithm, encoded, is decoded as it was.
pub encoded-decode_signature :
    (sig_algo : ℕ) (signature : Bytes)
    → (sig_algo ≡ ecdsa) ⊎ (sig_algo ≡ rsa)
    → length signature < 65536
    → decode_signature (encoded sha256 sig_algo signature) ≡ ok (sha256, sig_algo, signature)
unfolding decode_signature
encoded-decode_signature sig_algo signature (inl e) small =
    rw e (remaining_lem ecdsa signature small)
encoded-decode_signature sig_algo signature (inr e) small = rw e (remaining_lem rsa signature small)
