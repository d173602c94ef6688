-- ===== src/Client.antt =====
-- python/ct/client/log_client.py: the synchronous client of a log. The network, JSON and base64 are
-- parameters; a call passes the state of the network on.
pub mod Ranges
pub mod Limits
pub mod Guards
use sky_zadro_docs.Common.{
  ℕ, zero, suc, ◌+◌, ◌-◌, ◌==◌, ltb, leb, if◌then◌else◌, ◌&&◌, ◌||◌, Bool, true, false, List, [],
  ◌∷◌, ◌++◌, length, Option, none, some,
}
use sky_zadro_docs.Common.Int.{ℤ, pos, negsuc}
use sky_zadro_docs.Errors.{
  Exception, Result, ok, raise, ◌>>=◌, ◌>>◌, value_error, type_error, key_error, http_error,
  http_client_error, http_server_error, invalid_request_error, invalid_response_error, out_of_fuel,
}
use sky_zadro_docs.Merkle.Hasher.{Bytes}
use sky_zadro_docs.Statements.{SthResponse}
use Prim.Native.Nat.{min}

pub record EntryResponse : Type 0 where
  pub leaf_input : Bytes
  pub extra_data : Bytes

pub record ProofByHashResponse : Type 0 where
  pub leaf_index : ℕ
  pub audit_path : List Bytes

pub record EntryAndProofResponse : Type 0 where
  pub entry : EntryResponse
  pub audit_path : List Bytes

-- The paths of the requests, with their parameters.
pub data Request : Type 0 where
  get_sth_path get_roots_path : Request
  get_entries_path get_sth_consistency_path get_entry_and_proof_path : ℕ → ℕ → Request
  get_proof_by_hash_path : Bytes → ℕ → Request

-- The names of JSON fields.
pub data Key : Type 0 where
  timestamp_key tree_size_key sha256_root_hash_key tree_head_signature_key : Key
  leaf_input_key extra_data_key entries_key consistency_key : Key
  leaf_index_key audit_path_key certificates_key : Key

-- The calls of json and base64, and the use of JSON values as objects, arrays and numbers.
pub record Json : Type 1 where
  pub Value : Type 0
  pub loads : Bytes → Result Value
  pub field : Key → Value → Result Value
  pub items : Value → Result (List Value)
  pub number : Value → Result ℕ
  pub b64decode : Value → Result Bytes
  pub b64encode : Bytes → Bytes

pub record Response : Type 0 where
  pub status_code : ℕ
  pub content : Bytes

-- What `requests.get` does: a response, a ConnectionError, or another exception.
pub data Attempt : Type 0 where
  answered : Response → Attempt
  connection_error : Attempt
  failed : Exception → Attempt

pub record Network : Type 1 where
  pub State : Type 0
  pub get : Request → State → Attempt × State

-- `except (TypeError, ValueError, KeyError): raise InvalidResponseError`
abbrev pub invalid_if_wrong {ℓ} : {A : Type ℓ} → Result A → Result A
invalid_if_wrong (raise type_error) = raise invalid_response_error
invalid_if_wrong (raise value_error) = raise invalid_response_error
invalid_if_wrong (raise key_error) = raise invalid_response_error
invalid_if_wrong r = r

-- `except ValueError: raise InvalidResponseError`
abbrev pub invalid_if_no_json {ℓ} : {A : Type ℓ} → Result A → Result A
invalid_if_no_json (raise value_error) = raise invalid_response_error
invalid_if_no_json r = r

-- `except (TypeError, KeyError): raise InvalidResponseError`
abbrev pub invalid_if_no_array {ℓ} : {A : Type ℓ} → Result A → Result A
invalid_if_no_array (raise type_error) = raise invalid_response_error
invalid_if_no_array (raise key_error) = raise invalid_response_error
invalid_if_no_array r = r

-- RequestHandler.check_response_status
unfoldable pub check_response_status : ℕ → Result (Unit {0})
check_response_status code =
    if code == 200
    then ok tt
    else if leb 400 code && ltb code 500
    then raise http_client_error
    else if leb 500 code && ltb code 600
    then raise http_server_error
    else raise http_error

module _ (json : Json) where
  open json use {Value}

  -- `[f(u) for u in us]`
  abbrev pub each : {A : Type 0} → (Value → Result A) → List Value → Result (List A)
  each f [] = ok []
  each f (u ∷ us) = do a ← f u; rest ← each f us; ok (a ∷ rest)

  unfoldable pub parse_sth : Bytes → Result SthResponse
  parse_sth sth_body = invalid_if_wrong (do
    sth ← json.loads sth_body
    time ← json.field timestamp_key sth >>= json.number
    size ← json.field tree_size_key sth >>= json.number
    root ← json.field sha256_root_hash_key sth >>= json.b64decode
    signature ← json.field tree_head_signature_key sth >>= json.b64decode
    ok (record {
      timestamp = time;
      tree_size = size;
      sha256_root_hash = root;
      tree_head_signature = signature;
    }))

  unfoldable pub parse_entry : Value → Result EntryResponse
  parse_entry json_entry = invalid_if_wrong (do
    leaf ← json.field leaf_input_key json_entry >>= json.b64decode
    extra ← json.field extra_data_key json_entry >>= json.b64decode
    ok (record { leaf_input = leaf; extra_data = extra }))

  -- Neither no entries nor more than expected.
  unfoldable pub sized : List Value → ℕ → Result (List EntryResponse)
  sized us expected_response_size =
      if length us == 0 || ltb expected_response_size (length us)
      then raise invalid_response_error
      else each parse_entry us

  -- The two `try` blocks of parse_entries.
  unfoldable pub listed_entries : Bytes → Result (List Value)
  listed_entries entries_body = do
    response ← invalid_if_no_json (json.loads entries_body)
    invalid_if_no_array (json.field entries_key response >>= json.items)

  unfoldable pub parse_entries : Bytes → ℕ → Result (List EntryResponse)
  parse_entries entries_body expected_response_size = do
    us ← listed_entries entries_body
    sized us expected_response_size

  unfoldable pub parse_consistency_proof : Bytes → Result (List Bytes)
  parse_consistency_proof body = invalid_if_wrong (do
    response ← json.loads body
    us ← json.field consistency_key response >>= json.items
    each json.b64decode us)

-- A call, and what follows it if it returns.
abbrev pub then_with :
    {A B : Type 0} {S : Type 0} → Result A × S → (A → S → Result B × S) → Result B × S
then_with (ok a, s) f = f a s
then_with (raise e, s) f = (raise e, s)

-- One attempt: only a ConnectionError leads to another one.
abbrev pub retried : {S : Type 0} → Attempt × S → (S → Result Response × S) → Result Response × S
retried (answered r, s) again = (ok r, s)
retried (connection_error, s) again = again s
retried (failed e, s) again = (raise e, s)

module _ (net : Network) where
  open net use {State, get}

  -- The loop of RequestHandler.get_response, over the attempts that are left.
  unfoldable pub get_response : ℕ → Request → State → Result Response × State
  get_response zero uri s = (raise http_error, s)
  get_response (suc num_get_attempts) uri s =
      retried (get uri s) (λ s'. get_response num_get_attempts uri s')

  -- `get_response` of a handler with so many retries, and the check of the status
  unfoldable pub get_response_body : ℕ → Request → State → Result Bytes × State
  get_response_body num_retries uri s =
      then_with (get_response (suc num_retries) uri s)
        (λ r s'. (check_response_status r.status_code >> ok r.content, s'))

-- What a generator has yielded, and the exception that ended it.
pub record Yielded : Type 0 where
  pub items : List EntryResponse
  pub raised : Option Exception

abbrev pub yielded : List EntryResponse → Option Exception → Yielded
yielded items raised = record { items = items; raised = raised }

-- `for entry in entries: yield entry`, before the rest
abbrev pub yield_first : {S : Type 0} → List EntryResponse → Yielded × S → Yielded × S
yield_first entries (y, s) = (yielded (entries ++ y.items) y.raised, s)

-- The entries of one response, and the rest after them; or the exception.
abbrev pub yield_batch :
    {S : Type 0} → Result (List EntryResponse) × S → (ℕ → S → Yielded × S) → Yielded × S
yield_batch (ok batch, s) rest = yield_first batch (rest (length batch) s)
yield_batch (raise e, s) rest = (yielded [] (some e), s)

-- `batch_size or FLAGS.entry_fetch_batch_size`
abbrev pub batch_or_flag : ℕ → ℕ → ℕ
batch_or_flag zero entry_fetch_batch_size = entry_fetch_batch_size
batch_or_flag (suc n) entry_fetch_batch_size = suc n

-- LogClient, whose handler makes so many retries.
module _ (json : Json) (net : Network) (num_retries : ℕ) where
  open net use {State}

  -- One request of get_entries, for the entries from `first` to `last`.
  unfoldable pub fetch_range : ℕ → ℕ → State → Result (List EntryResponse) × State
  fetch_range first last s =
      then_with (get_response_body net num_retries (get_entries_path first last) s)
        (λ body s'. (parse_entries json body (last + 1 - first), s'))

  -- `while start <= end: …`; batch_size is not 0
  unfoldable pub get_entries_loop : ℕ → ℕ → ℕ → ℕ → State → Yielded × State
  get_entries_loop zero start end batch_size s = (yielded [] (some out_of_fuel), s)
  get_entries_loop (suc f) start end batch_size s =
      let more : Yielded × State =
        yield_batch (fetch_range start (min (start + batch_size - 1) end) s)
          (λ count s'. get_entries_loop f (start + count) end batch_size s') in
      if leb start end then more else (yielded [] none, s)

  unfoldable pub get_entries : ℤ → ℤ → ℕ → ℕ → State → Yielded × State
  get_entries (pos start) (pos end) batch_size entry_fetch_batch_size s =
      if ltb end start
      then (yielded [] (some invalid_request_error), s)
      else get_entries_loop (suc (end + 1 - start)) start end
          (batch_or_flag batch_size entry_fetch_batch_size) s
  get_entries _ _ batch_size entry_fetch_batch_size s = (yielded [] (some invalid_request_error), s)

  unfoldable pub get_sth : State → Result SthResponse × State
  get_sth s =
      then_with (get_response_body net num_retries get_sth_path s)
        (λ body s'. (parse_sth json body, s'))

  unfoldable pub get_sth_consistency : ℤ → ℤ → State → Result (List Bytes) × State
  get_sth_consistency (pos old_size) (pos new_size) s =
      if ltb new_size old_size
      then (raise invalid_request_error, s)
      else if old_size == 0 || old_size == new_size
      then (ok [], s)
      else then_with
          (get_response_body net num_retries (get_sth_consistency_path old_size new_size) s)
          (λ body s'. (parse_consistency_proof json body, s'))
  get_sth_consistency _ _ s = (raise invalid_request_error, s)

  -- `json.loads` stands outside of the `try` block here and in the next two.
  unfoldable pub parse_proof_by_hash : Bytes → Result ProofByHashResponse
  parse_proof_by_hash body = do
    response ← json.loads body
    invalid_if_wrong (do
      index ← json.field leaf_index_key response >>= json.number
      us ← json.field audit_path_key response >>= json.items
      path ← each json json.b64decode us
      ok (record { leaf_index = index; audit_path = path }))

  unfoldable pub get_proof_by_hash : Bytes → ℤ → State → Result ProofByHashResponse × State
  get_proof_by_hash leaf_hash (pos (suc size)) s =
      then_with
        (get_response_body net num_retries
          (get_proof_by_hash_path (json.b64encode leaf_hash) (suc size)) s)
        (λ body s'. (parse_proof_by_hash body, s'))
  get_proof_by_hash leaf_hash _ s = (raise invalid_request_error, s)

  unfoldable pub parse_entry_and_proof : Bytes → Result EntryAndProofResponse
  parse_entry_and_proof body = do
    response ← json.loads body
    invalid_if_wrong (do
      found ← parse_entry json response
      us ← json.field audit_path_key response >>= json.items
      path ← each json json.b64decode us
      ok (record { entry = found; audit_path = path }))

  unfoldable pub get_entry_and_proof : ℤ → ℤ → State → Result EntryAndProofResponse × State
  get_entry_and_proof (pos leaf_index) (pos tree_size) s =
      if tree_size == 0 || leb tree_size leaf_index
      then (raise invalid_request_error, s)
      else then_with
          (get_response_body net num_retries (get_entry_and_proof_path leaf_index tree_size) s)
          (λ body s'. (parse_entry_and_proof body, s'))
  get_entry_and_proof _ _ s = (raise invalid_request_error, s)

  unfoldable pub parse_roots : Bytes → Result (List Bytes)
  parse_roots body = do
    response ← json.loads body
    invalid_if_wrong
        (do us ← json.field certificates_key response >>= json.items; each json json.b64decode us)

  unfoldable pub get_roots : State → Result (List Bytes) × State
  get_roots s =
      then_with (get_response_body net num_retries get_roots_path s)
        (λ body s'. (parse_roots body, s'))
