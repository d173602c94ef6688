-- ===== src/Monitor/Taken.antt =====
-- A tree head that python/ct/client/monitor.py has nothing against is taken up.
use sky_zadro_docs.Common.{
  ◌<◌, Bool, true, le→ltb, lt→ltb, lt→leb, ne→==, List, Option, none, some, ◌≡◌, refl, ap, ◌∙◌,
  arith,
}
use sky_zadro_docs.Errors.{Result, ok}
use sky_zadro_docs.Merkle.Hasher.{Bytes, TreeHasher}
use sky_zadro_docs.Statements.{SthResponse, SigVerifier, verify_sth, verify_sth_consistency}
use sky_zadro_docs.Monitor.{
  Monitor, Answers, Run, value_of, store, VerifyStatus, unverified, update_state, set_pending_sth,
  store_verdict, verify_consistency_callback, verify_consistency, accept_consistent,
  accept_verified, accept_sth, compare_sth, update_sth_callback, update_sth, false_if_failed,
  false_if_not_verified, received, unless_pending,
}

module _ (h : TreeHasher) (sig : SigVerifier) (log : Answers) (m : Monitor)
    (sth : SthResponse) where
  abbrev current : SthResponse
  current = value_of m.state.verified_sth

  -- The monitor with the tree head in its database, first unverified and then verified.
  abbrev pub with_verdicts : Monitor
  with_verdicts = store (store m sth unverified) sth VerifyStatus.verified

  pub consistent_lem :
      (proof : List Bytes) {b : Bool}
      → log.consistency current.tree_size sth.tree_size ≡ ok proof
      → verify_sth_consistency h current sth proof ≡ ok b
      → verify_consistency h sig log m current sth ≡ (ok tt, with_verdicts)
  unfolding verify_consistency verify_consistency_callback
  consistent_lem proof answer accepted =
      ap (λ (a : Result (List Bytes)). verify_consistency_callback h sig log m a current sth) answer
      ∙ ap (λ (r : Result Bool). store_verdict h sig log (store m sth unverified) sth r) accepted

  set_pending_lem :
      current.tree_size < sth.tree_size
      → current.timestamp < sth.timestamp
      → set_pending_sth with_verdicts sth
        ≡ (ok true, update_state with_verdicts (record m.state { pending_sth = some sth }))
  unfolding set_pending_sth
  set_pending_lem larger later =
      rw
        (
          le→ltb sth.tree_size current.tree_size (omega arith),
          lt→leb sth.timestamp current.timestamp later,
          lt→ltb current.tree_size sth.tree_size larger,
        )
        refl

  compare_lem :
      (old : Option SthResponse)
      → (value_of old).timestamp < sth.timestamp
      → compare_sth h sig log old m sth ≡ accept_sth h sig log m sth
  unfolding compare_sth
  compare_lem none later = refl
  compare_lem (some c) later =
      rw
        (
          ne→== sth.timestamp c.timestamp (λ e. omega (arith, e, later)),
          le→ltb sth.timestamp c.timestamp (omega (arith, later)),
        )
        refl

  -- A larger and later tree head, whose signature verifies and that the log proves consistent with the
  -- verified one, is the pending one after update_sth, which returns True; it is stored as verified.
  pub larger_sth_taken :
      (proof : List Bytes) {b b' : Bool}
      → m.state.pending_sth ≡ none
      → log.sth ≡ ok sth
      → verify_sth sig sth ≡ ok b
      → log.consistency current.tree_size sth.tree_size ≡ ok proof
      → verify_sth_consistency h current sth proof ≡ ok b'
      → current.tree_size < sth.tree_size
      → current.timestamp < sth.timestamp
      → update_sth h sig log m
        ≡ (ok true, update_state with_verdicts (record m.state { pending_sth = some sth }))
  unfolding update_sth update_sth_callback accept_sth accept_verified accept_consistent
  larger_sth_taken proof nothing answer signed proved accepted larger later =
      ap (λ (p : Option SthResponse). unless_pending h sig log p (received h sig log log.sth m) m)
        nothing
      ∙ ap (λ (a : Result SthResponse). received h sig log a m) answer
      ∙ ap (λ (r : Run Bool). false_if_failed h sig log r)
          (compare_lem m.state.verified_sth later
            ∙ ap (λ (r : Result Bool). accept_verified h sig log r m sth) signed
            ∙ ap (λ (r : Run (Unit {0})). accept_consistent h sig log r sth)
                (consistent_lem proof proved accepted)
            ∙ ap (λ (r : Run Bool). false_if_not_verified h sig log r)
                (set_pending_lem larger later))
