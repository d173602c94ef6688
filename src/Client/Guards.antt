-- ===== src/Client/Guards.antt =====
-- RequestHandler of python/ct/client/log_client.py: attempts and status codes.
use sky_zadro_docs.Common.{ℕ, zero, suc, ◌+◌, ◌-◌, ◌≤◌, ◌<◌, ◌≡◌, refl, ap, ◌∙◌, arith, ◌↔◌}
use sky_zadro_docs.Errors.{ok, raise, ◌>>◌, http_error, http_client_error, http_server_error}
use sky_zadro_docs.Client.{
  Request, Response, answered, connection_error, Network, check_response_status, then_with,
  get_response, get_response_body,
}

module _ (net : Network) where
  open net use {State, get}

  -- The network refuses so many connections, one after another, and is then in this state.
  pub data Refuses (uri : Request) : ℕ → State → State → Type 0 where
    never : (s : State) → Refuses uri zero s s
    again :
        (n : ℕ) (s t u : State)
        → get uri s ≡ (connection_error, t)
        → Refuses uri n t u
        → Refuses uri (suc n) s u

  get_response_again :
      (k : ℕ) (uri : Request) (s t : State)
      → get uri s ≡ (connection_error, t)
      → get_response net (suc k) uri s ≡ get_response net k uri t
  unfolding get_response
  get_response_again k uri s t e = rw e refl

  get_response_refused :
      (uri : Request) (n k : ℕ) (s u : State)
      → Refuses uri n s u
      → get_response net (n + k) uri s ≡ get_response net k uri u
  get_response_refused uri n k s u (never t) =
      ap (λ (m : ℕ). get_response net m uri t) (omega arith)
  get_response_refused uri n k s u (again m t v w e r) =
      ap (λ (m : ℕ). get_response net m uri t) (omega arith)
      ∙ get_response_again (m + k) uri t v e
      ∙ get_response_refused uri m k v w r

  get_response_none :
      (uri : Request) (s : State) → get_response net zero uri s ≡ (raise http_error, s)
  unfolding get_response
  get_response_none uri s = refl

  get_response_answered :
      (k : ℕ) (uri : Request) (s t : State) (r : Response)
      → get uri s ≡ (answered r, t)
      → get_response net (suc k) uri s ≡ (ok r, t)
  unfolding get_response
  get_response_answered k uri s t r e = rw e refl

  -- Where the network refuses no more connections than retries are allowed and then answers,
  -- get_response_body returns the contents of the answer, or raises what check_response_status
  -- raises for its status.
  pub get_response_body_retries :
      (refused num_retries : ℕ) (uri : Request) (s u t : State) (r : Response)
      → Refuses uri refused s u
      → get uri u ≡ (answered r, t)
      → refused ≤ num_retries
      → get_response_body net num_retries uri s
        ≡ (check_response_status r.status_code >> ok r.content, t)
  unfolding get_response_body
  get_response_body_retries n num_retries uri s u t r refuses answer few =
      ap (λ w. then_with w (λ r s'. (check_response_status r.status_code >> ok r.content, s')))
        (ap (λ (m : ℕ). get_response net m uri s) attempts
          ∙ get_response_refused uri n (suc (num_retries - n)) s u refuses
          ∙ get_response_answered (num_retries - n) uri u t r answer)
    where
      attempts : suc num_retries ≡ n + suc (num_retries - n)
      attempts = omega arith

  -- Where it refuses one connection more, get_response_body raises HTTPError.
  pub get_response_body_refused :
      (num_retries : ℕ) (uri : Request) (s u : State)
      → Refuses uri (suc num_retries) s u
      → get_response_body net num_retries uri s ≡ (raise http_error, u)
  unfolding get_response_body
  get_response_body_refused num_retries uri s u refuses =
      ap (λ w. then_with w (λ r s'. (check_response_status r.status_code >> ok r.content, s')))
        (ap (λ (m : ℕ). get_response net m uri s) attempts
          ∙ get_response_refused uri (suc num_retries) 0 s u refuses
          ∙ get_response_none uri u)
    where
      attempts : suc num_retries ≡ suc num_retries + 0
      attempts = omega arith

-- check_response_status returns for 200, and raises HTTPClientError for 400 to 499,
-- HTTPServerError for 500 to 599, and HTTPError for all else.
pub check_response_status_verdict :
    (code : ℕ)
    → ((check_response_status code ≡ ok tt) ↔ (code ≡ 200))
      × ((check_response_status code ≡ raise http_client_error) ↔ ((400 ≤ code) × (code < 500)))
      × ((check_response_status code ≡ raise http_server_error) ↔ ((500 ≤ code) × (code < 600)))
unfolding check_response_status
check_response_status_verdict code = ground arith
