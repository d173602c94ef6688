-- ===== src/Errors.antt =====
-- python/ct/crypto/error.py and the built-in exceptions: a function that may raise returns a
-- `Result`. The text of an exception is not modelled.
use sky_zadro_docs.Common.{◌≡◌, refl, Bool, true, false}

pub data Exception : Type 0 where
  value_error index_error type_error assertion_error runtime_error stop_iteration : Exception
  unsupported_algorithm_error consistency_error proof_error encoding_error : Exception
  incomplete_chain_error signature_error unsupported_version_error : Exception
  asn1_error asn1_tag_error unknown_asn1_type_error asn1_illegal_character : Exception
  -- python/ct/serialization/tls_message.py
  tls_decoding_error tls_encoding_error : Exception
  -- python/ct/client/log_client.py
  client_error http_error http_client_error http_server_error : Exception
  invalid_request_error invalid_response_error : Exception
  -- python/ct/crypto/pem.py, a subclass of EncodingError
  pem_error : Exception
  -- Python's own
  not_implemented_error key_error : Exception
  -- no exception of the program: a loop of the model has used up its fuel
  out_of_fuel : Exception

-- The subclasses of VerifyError.
unfoldable pub is_verify_error : Exception → Bool
is_verify_error consistency_error = true
is_verify_error proof_error = true
is_verify_error incomplete_chain_error = true
is_verify_error signature_error = true
is_verify_error _ = false

-- The subclasses of EncodingError, itself included.
unfoldable pub is_encoding_error : Exception → Bool
is_encoding_error encoding_error = true
is_encoding_error pem_error = true
is_encoding_error asn1_error = true
is_encoding_error asn1_tag_error = true
is_encoding_error unknown_asn1_type_error = true
is_encoding_error asn1_illegal_character = true
is_encoding_error _ = false

pub data Result {ℓ} (A : Type ℓ) : Type ℓ where
  ok : A → Result A
  raise : Exception → Result A

infixl 5 ◌>>=◌ ◌>>◌
abbrev pub ◌>>=◌ {ℓ κ} : {A : Type ℓ} {B : Type κ} → Result A → (A → Result B) → Result B
ok a >>= f = f a
raise e >>= f = raise e

abbrev pub ◌>>◌ {ℓ} : {B : Type ℓ} → Result (Unit {0}) → Result B → Result B
m >> k = m >>= λ _. k

-- `if not test: raise e`, and an assertion
abbrev pub require : Bool → Exception → Result (Unit {0})
require true e = ok tt
require false e = raise e

-- The decorator @returns_true_or_raises: any other value than True is a RuntimeError.
unfoldable pub returns_true_or_raises : Result Bool → Result Bool
returns_true_or_raises (ok true) = ok true
returns_true_or_raises (ok false) = raise runtime_error
returns_true_or_raises (raise e) = raise e

-- A chain that returned: its first part returned a value, and the rest went on from that.
module _ {ℓ κ} {A : Type ℓ} {B : Type κ} (next : A → Result B) {result : B} where
  pub bind-returned :
      (first : Result A)
      → (first >>= next) ≡ ok result
      → (value : A) × (first ≡ ok value) × (next value ≡ ok result)
  bind-returned (raise x) returned = cc
  bind-returned (ok value) returned = (value, refl, returned)

pub require-eq-ok : (b : Bool) (e : Exception) → require b e ≡ ok tt → b ≡ true
require-eq-ok true e h = refl
require-eq-ok false e h = cc

pub returns_true_or_raises-eq-ok :
    (r : Result Bool) {b : Bool} → returns_true_or_raises r ≡ ok b → r ≡ ok true
unfolding returns_true_or_raises
returns_true_or_raises-eq-ok (ok true) h = refl
returns_true_or_raises-eq-ok (ok false) h = cc
returns_true_or_raises-eq-ok (raise e) h = cc

pub ok_injective {ℓ} : {A : Type ℓ} {a b : A} → ok a ≡ ok b → a ≡ b
ok_injective e = cc

pub raise≢ok {ℓ} : {A : Type ℓ} {x : Exception} {a : A} → raise x ≡ ok a → ⊥
raise≢ok e = cc
