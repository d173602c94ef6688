-- ===== src/Monitor/Checks.antt =====
-- _verify_new_tree of python/ct/client/monitor.py on the tree of all pending entries.
use sky_zadro_docs.Common.{
  ℕ, ◌-◌, ◌≤◌, ◌<◌, Bool, true, List, ◌∷◌, ◌++◌, length, none, some, ◌≡◌, refl, sym, ap, ◌∙◌, arith,
}
use sky_zadro_docs.Errors.{Result, ok, raise, raise≢ok}
use sky_zadro_docs.Merkle.Hasher.{Bytes, TreeHasher}
use sky_zadro_docs.Merkle.Tree.{merkle_root}
use sky_zadro_docs.Merkle.Compact.{CompactMerkleTree}
use sky_zadro_docs.Statements.{SthResponse, SigVerifier, verify_sth_consistency}
use sky_zadro_docs.Statements.Accepted.{verify_sth_consistency-Accepts, same_head-accepted}
use sky_zadro_docs.Client.{EntryResponse}
use sky_zadro_docs.Monitor.{
  Monitor, Answers, Run, value_of, VerifyStatus, store, store_verdict, verify_consistency_callback,
  set_verified_tree, verify_consistency, verify_new_tree, after_check, false_if_failed,
}
use sky_zadro_docs.Monitor.Update.{done}
use sky_zadro_docs.Monitor.Tracking.{core, Holds}
use sky_zadro_docs.Monitor.Settling.{Projects, set_verified_tree-Settles, all_there-settled}
use sky_zadro_docs.Monitor.Entries.{returned_lem}
use mathlib.Core.Path.{subst}
use sky_zadro_docs.Monitor.Deliveries.{delivered, all_scanned}

module _ (h : TreeHasher) (sig : SigVerifier) (log : Answers) (leaves more : List Bytes) where
  -- The monitor is up to date with a tree head.
  abbrev pub UpToDate : SthResponse → Run Bool → Type 0
  UpToDate sth r =
      (r.0 ≡ ok true) × (r.1.state.verified_sth ≡ some sth) × (r.1.state.pending_sth ≡ none)

  module _ (m : Monitor) (partial_sth : SthResponse) (t : CompactMerkleTree) where
    abbrev head : SthResponse
    head = value_of m.state.pending_sth

    abbrev after_verdicts : Monitor
    after_verdicts = store (store m head VerifyStatus.unverified) head VerifyStatus.verified

    checked_lem :
        (proof : List Bytes) {b : Bool}
        → log.consistency partial_sth.tree_size head.tree_size ≡ ok proof
        → verify_sth_consistency h partial_sth head proof ≡ ok b
        → verify_consistency h sig log m partial_sth head ≡ (ok tt, after_verdicts)
    unfolding verify_consistency verify_consistency_callback
    checked_lem proof answer accepted =
        ap (λ (a : Result (List Bytes)). verify_consistency_callback h sig log m a partial_sth head)
          answer
        ∙ ap
            (λ (r : Result Bool).
              store_verdict h sig log (store m head VerifyStatus.unverified) head r)
            accepted

    pub verify_new_tree-UpToDate :
        (sth : SthResponse) (proof : List Bytes)
        → Holds h leaves more (core m)
        → m.state.pending_sth ≡ some sth
        → Projects h (leaves ++ more) partial_sth t
        → head.tree_size ≡ length (leaves ++ more)
        → head.sha256_root_hash ≡ merkle_root h (leaves ++ more)
        → 0 < head.timestamp
        → log.consistency partial_sth.tree_size head.tree_size ≡ ok proof
        → UpToDate head (verify_new_tree h sig log m partial_sth t)
    unfolding verify_new_tree after_check
    verify_new_tree-UpToDate sth proof holds is_pending projected size root late proved =
        let matches : verify_sth_consistency h partial_sth head proof ≡ ok true =
          same_head-accepted h partial_sth head proof (omega (arith, projected.dated, late))
            (projected.size ∙ sym size) (projected.root ∙ sym root) in
        let accepted = verify_sth_consistency-Accepts h partial_sth head proof matches in
        let (settles, follows) =
          set_verified_tree-Settles h leaves more after_verdicts sth holds is_pending partial_sth t
            projected accepted in
        let (new_head, none_pending) =
          all_there-settled h leaves more after_verdicts sth holds is_pending partial_sth t
            projected accepted size in
        subst (λ (r : Run Bool). UpToDate head r)
          (sym (
            ap (λ (r : Run (Unit {0})). after_check h sig log r t)
              (checked_lem proof proved matches)
            ∙ returned_lem h sig log (set_verified_tree after_verdicts t) settles))
          (refl, new_head, none_pending)

  pub failed-UpToDate :
      (sth : SthResponse) (r : Run Bool)
      → UpToDate sth r
      → UpToDate sth (false_if_failed h sig log r)
  failed-UpToDate sth (ok b, m) done = done
  failed-UpToDate sth (raise e, m) (returned, verified, pending) = absurd (raise≢ok returned)

  -- What a log has to answer for all pending entries: batches that are scanned without an error, as
  -- many entries as are pending, whose leaves after those already there have the tree head's root.
  pub record Delivers (start : ℕ) (sth : SthResponse) : Type 0 where
    pub first : List EntryResponse
    pub batches : List (List EntryResponse)
    pub produced : ℕ
    pub proof : List Bytes
    pub wanted : start < sth.tree_size
    pub answer :
        log.entries start (sth.tree_size - 1)
        ≡ record { batches = all_scanned (first ∷ batches); result = some produced }
    pub whole : sth.tree_size - start ≤ produced
    pub size : sth.tree_size ≡ length (leaves ++ (more ++ delivered (first ∷ batches)))
    pub root :
        sth.sha256_root_hash ≡ merkle_root h (leaves ++ (more ++ delivered (first ∷ batches)))
    pub late : 0 < sth.timestamp
    pub proved : log.consistency sth.tree_size sth.tree_size ≡ ok proof
