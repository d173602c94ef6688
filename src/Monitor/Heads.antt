-- ===== src/Monitor/Heads.antt =====
-- A new tree head, by _update_sth of python/ct/client/monitor.py, keeps what the monitor holds.
use sky_zadro_docs.Common.{
  ltb, Bool, Bool-cases, List, length, Option, none, some, ◌≡◌, refl, sym, ap, ◌∙◌, inl, inr,
}
use sky_zadro_docs.Errors.{Result, ok, raise}
use sky_zadro_docs.Merkle.Hasher.{Bytes, TreeHasher}
use sky_zadro_docs.Statements.{SthResponse, SigVerifier, verify_sth}
use sky_zadro_docs.Statements.Accepted.{Accepts, verify_sth-length}
use sky_zadro_docs.Monitor.{
  Monitor, Answers, Run, value_of, set_pending_sth, accept_consistent, accept_verified, accept_sth,
  compare_sth, update_sth_callback, update_sth, false_if_failed, false_if_not_verified, received,
  unless_pending, sth_eq,
}
use sky_zadro_docs.Monitor.Tracking.{
  Core, core, Holds, Kept, unchanged, Checked, verify_consistency-Checked, set_pending_sth-Kept,
}
use mathlib.Core.Path.{subst}

module _ (h : TreeHasher) (sig : SigVerifier) (log : Answers) (leaves more : List Bytes) where
  abbrev Keeps : Monitor → Run Bool → Type 0
  Keeps m r = Kept h leaves more (core m) (core r.1)

  not_verified-Keeps :
      (m : Monitor) (r : Run Bool) → Keeps m r → Keeps m (false_if_not_verified h sig log r)
  not_verified-Keeps m (ok b, m') kept = kept
  not_verified-Keeps m (raise e, m') kept = kept

  failed-Keeps : (m : Monitor) (r : Run Bool) → Keeps m r → Keeps m (false_if_failed h sig log r)
  failed-Keeps m (ok b, m') kept = kept
  failed-Keeps m (raise e, m') kept = kept

  -- With the parts of another monitor.
  moved :
      (m m' : Monitor) (c : Core)
      → core m' ≡ core m
      → Kept h leaves more (core m') c
      → Kept h leaves more (core m) c
  moved m m' c same kept = subst (λ (k : Core). Kept h leaves more k c) same kept

  module _ (m : Monitor) (holds : Holds h leaves more (core m)) where
    rest_same : (m' : Monitor) → core m' ≡ core m → Kept h leaves more (core m) (core m')
    rest_same m' same =
        subst (λ (k : Core). Kept h leaves more (core m) k) (sym same)
          (unchanged h leaves more (core m) holds)

    accept_consistent-Keeps :
        (sth : SthResponse) (r : Run (Unit {0}))
        → m.state.pending_sth ≡ none
        → length sth.sha256_root_hash ≡ 32
        → Checked h sig log m (value_of m.state.verified_sth) sth r
        → Keeps m (accept_consistent h sig log r sth)
    unfolding accept_consistent
    accept_consistent-Keeps sth r nothing full (inl (e, m', raised, same)) =
        rw raised (rest_same m' same)
    accept_consistent-Keeps sth r nothing full (inr (m', returned, same, accepted)) = rw returned (
        not_verified-Keeps m (set_pending_sth m' sth) (
          moved m m' _ same (
            set_pending_sth-Kept h leaves more m' sth
              (subst (λ (k : Core). Holds h leaves more k) (sym same) holds)
              (ap (λ (k : Core). k.state.pending_sth) same ∙ nothing)
              (subst (λ (k : Core). Accepts (value_of k.state.verified_sth) sth) (sym same)
                accepted)
              full)))

    accept_verified-Keeps :
        (sth : SthResponse) (r : Result Bool)
        → m.state.pending_sth ≡ none
        → verify_sth sig sth ≡ r
        → Keeps m (accept_verified h sig log r m sth)
    unfolding accept_verified
    accept_verified-Keeps sth (raise e) nothing checked = unchanged h leaves more (core m) holds
    accept_verified-Keeps sth (ok b) nothing checked =
        accept_consistent-Keeps sth _ nothing (verify_sth-length sig sth checked)
          (verify_consistency-Checked h sig log m (value_of m.state.verified_sth) sth)

    accept_sth-Keeps :
        (sth : SthResponse) → m.state.pending_sth ≡ none → Keeps m (accept_sth h sig log m sth)
    unfolding accept_sth
    accept_sth-Keeps sth nothing = accept_verified-Keeps sth _ nothing refl

    checked-Keeps :
        (old_sth new_sth : SthResponse) (r : Run (Unit {0}))
        → Checked h sig log m old_sth new_sth r
        → Kept h leaves more (core m) (core r.1)
    checked-Keeps old_sth new_sth r (inl (e, m', raised, same)) = rw raised (rest_same m' same)
    checked-Keeps old_sth new_sth r (inr (m', returned, same, accepted)) =
        rw returned (rest_same m' same)

    compare_sth-Keeps :
        (current : Option SthResponse) (sth : SthResponse)
        → m.state.pending_sth ≡ none
        → Keeps m (compare_sth h sig log current m sth)
    unfolding compare_sth
    compare_sth-Keeps none sth nothing = accept_sth-Keeps sth nothing
    compare_sth-Keeps (some current) sth nothing =
        elim (Bool-cases (sth_eq h sig log sth current)) [
          | inl same ↦ rw same (unchanged h leaves more (core m) holds)
          | inr other ↦ elim (Bool-cases (ltb sth.timestamp current.timestamp)) [
            | inl older ↦
                rw (other, older)
                  (checked-Keeps sth current _ (verify_consistency-Checked h sig log m sth current))
            | inr newer ↦ rw (other, newer) (accept_sth-Keeps sth nothing)
          ]
        ]

    received-Keeps :
        (answer : Result SthResponse)
        → m.state.pending_sth ≡ none
        → Keeps m (received h sig log answer m)
    unfolding update_sth_callback
    received-Keeps (raise e) nothing = unchanged h leaves more (core m) holds
    received-Keeps (ok sth) nothing =
        failed-Keeps m (update_sth_callback h sig log m sth)
          (compare_sth-Keeps m.state.verified_sth sth nothing)

    unless_pending-Keeps :
        (pending : Option SthResponse)
        → m.state.pending_sth ≡ pending
        → Keeps m (unless_pending h sig log pending (received h sig log log.sth m) m)
    unless_pending-Keeps none nothing = received-Keeps log.sth nothing
    unless_pending-Keeps (some sth) e = unchanged h leaves more (core m) holds

    -- Whatever the log answers, a new tree head leaves the trees as they are, and is the verified one or
    -- the pending one only where it is later and not smaller.
    pub update_sth-Keeps : Kept h leaves more (core m) (core (update_sth h sig log m).1)
    unfolding update_sth
    update_sth-Keeps = unless_pending-Keeps m.state.pending_sth refl
