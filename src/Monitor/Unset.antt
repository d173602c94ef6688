-- ===== src/Monitor/Unset.antt =====
-- A first run of python/ct/client/monitor.py against a log that has no entries yet.
use sky_zadro_docs.Common.{
  ℕ, ◌||◌, Bool, true, false, Bool-cases, length, Option, none, some, ◌≡◌, refl, sym, ap, arith,
  inl, inr,
}
use sky_zadro_docs.Errors.{Result, ok, raise, ok_injective, is_verify_error, is_encoding_error}
use sky_zadro_docs.Merkle.Hasher.{TreeHasher}
use sky_zadro_docs.Statements.{SthResponse, SigVerifier, verify_sth}
use sky_zadro_docs.Statements.Accepted.{verify_sth-length}
use sky_zadro_docs.Monitor.{
  Monitor, Answers, Run, unset, value_of, verify_consistency, accept_consistent, accept_verified,
  accept_sth, compare_sth, update_sth_callback, update_sth, false_if_failed, received,
  unless_pending,
}
use sky_zadro_docs.Monitor.Update.{after_sth, update}
use sky_zadro_docs.Monitor.Tracking.{Checked, verify_consistency-Checked}
use mathlib.Core.Path.{subst}

module _ (h : TreeHasher) (sig : SigVerifier) (log : Answers) where
  abbrev NotTrue : Run Bool → Type 0
  NotTrue r = r.0 ≡ ok true → ⊥

  failed_lem : (r : Run Bool) → NotTrue r → (false_if_failed h sig log r).0 ≡ ok false
  failed_lem (ok true, m) no_success = absurd (no_success refl)
  failed_lem (ok false, m) no_success = refl
  failed_lem (raise e, m) no_success = refl

  after_sth_lem : (r : Run Bool) → r.0 ≡ ok false → (after_sth h sig log r).0 ≡ ok false
  after_sth_lem (ok true, m) e = cc
  after_sth_lem (ok false, m) e = refl
  after_sth_lem (raise x, m) e = cc

  module _ (m : Monitor) (sth : SthResponse) (empty : sth.tree_size ≡ 0) where
    accept_consistent-NotTrue :
        (r : Run (Unit {0}))
        → length sth.sha256_root_hash ≡ 32
        → Checked h sig log m unset sth r
        → NotTrue (accept_consistent h sig log r sth)
    unfolding accept_consistent
    accept_consistent-NotTrue r full (inl (e, m', raised, same)) =
        elim (Bool-cases (is_verify_error e)) [
          | inl wrong ↦ rw (raised, wrong) (λ t. cc)
          | inr other ↦ rw (raised, other) (λ t. cc)
        ]
    accept_consistent-NotTrue r full (inr (m', returned, same, accepted)) =
        absurd (omega (arith, full, ap (length {A = ℕ}) (accepted.same (sym empty))))

    accept_verified-NotTrue :
        (r : Result Bool)
        → m.state.verified_sth ≡ none
        → verify_sth sig sth ≡ r
        → NotTrue (accept_verified h sig log r m sth)
    unfolding accept_verified
    accept_verified-NotTrue (raise e) first checked =
        elim (Bool-cases (is_verify_error e || is_encoding_error e)) [
          | inl wrong ↦ rw wrong (λ t. cc)
          | inr other ↦ rw other (λ t. cc)
        ]
    accept_verified-NotTrue (ok b) first checked =
        subst
          (λ (old : SthResponse).
            NotTrue (accept_consistent h sig log (verify_consistency h sig log m old sth) sth))
          (sym (ap value_of first))
          (accept_consistent-NotTrue _ (verify_sth-length sig sth checked)
            (verify_consistency-Checked h sig log m unset sth))

    compare_sth-NotTrue :
        (current : Option SthResponse)
        → m.state.verified_sth ≡ current
        → current ≡ none
        → NotTrue (compare_sth h sig log current m sth)
    unfolding compare_sth accept_sth
    compare_sth-NotTrue none e first = accept_verified-NotTrue _ e refl
    compare_sth-NotTrue (some old) e first = cc

    received_lem :
        (answer : Result SthResponse)
        → answer ≡ ok sth
        → m.state.verified_sth ≡ none
        → (received h sig log answer m).0 ≡ ok false
    unfolding update_sth_callback
    received_lem (raise e) answer first = refl
    received_lem (ok other) answer first =
        subst
          (λ (s : SthResponse).
            (false_if_failed h sig log (update_sth_callback h sig log m s)).0 ≡ ok false)
          (sym (ok_injective answer))
          (failed_lem (update_sth_callback h sig log m sth)
            (compare_sth-NotTrue m.state.verified_sth refl first))

    unless_pending_lem :
        (pending : Option SthResponse)
        → pending ≡ none
        → (received h sig log log.sth m).0 ≡ ok false
        → (unless_pending h sig log pending (received h sig log log.sth m) m).0 ≡ ok false
    unless_pending_lem none nothing e = e
    unless_pending_lem (some other) nothing e = cc

    -- A monitor that has no verified tree head yet cannot take up a log of no entries: with a tree head
    -- of size 0, whatever else it says and however it is signed, the update returns False. The
    -- root of the tree head that is not set, an empty string, is compared with its root.
    pub empty_log_refused :
        m.state.verified_sth ≡ none
        → m.state.pending_sth ≡ none
        → log.sth ≡ ok sth
        → (update h sig log m).0 ≡ ok false
    unfolding update update_sth
    empty_log_refused first nothing answer =
        after_sth_lem (update_sth h sig log m)
          (unless_pending_lem m.state.pending_sth nothing (received_lem log.sth answer first))
