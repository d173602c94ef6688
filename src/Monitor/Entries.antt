-- ===== src/Monitor/Entries.antt =====
-- _verify_new_tree, _fetch_entries and _update_entries of python/ct/client/monitor.py keep what the monitor
-- holds.
use sky_zadro_docs.Common.{
  ◌+◌, Bool, true, false, Bool-cases, List, [], ◌++◌, length, length-append, length-map, map, some,
  ◌≡◌, refl, sym, ap, ◌∙◌, arith, inl, inr, append-nil,
}
use sky_zadro_docs.Errors.{Exception, ok, raise, is_verify_error}
use sky_zadro_docs.Merkle.Hasher.{Bytes, TreeHasher}
use sky_zadro_docs.Merkle.Tree.{merkle_root}
use sky_zadro_docs.Merkle.Compact.{CompactMerkleTree}
use sky_zadro_docs.Merkle.Compact.Refines.{Represents}
use sky_zadro_docs.Merkle.Compact.Session.{root_hash_refines, extended_refines}
use sky_zadro_docs.Statements.{SthResponse, SigVerifier}
use sky_zadro_docs.Statements.Accepted.{Accepts}
use sky_zadro_docs.Client.{EntryResponse}
use sky_zadro_docs.Monitor.{
  Monitor, Answers, Run, value_of, set_verified_tree, update_state, update_unverified_data,
  after_check, verify_new_tree, verify_new_tree_errback, and_true, false_if_failed,
  compute_projected_sth_from_tree, verify_projected, verify_entries,
}
use sky_zadro_docs.Monitor.Tracking.{Core, core, Holds, Checked, verify_consistency-Checked}
use sky_zadro_docs.Monitor.Settling.{
  Follows, Projects, stays, reset-Holds, set_verified_tree-Settles,
}
use mathlib.Core.Path.{subst}

unfoldable pub leaf_inputs : List EntryResponse → List Bytes
leaf_inputs entries = map (λ (leaf : EntryResponse). leaf.leaf_input) entries

-- Projecting a tree for some leaves raises nothing.
pub projected_lem :
    (h : TreeHasher) (leaves : List Bytes) (t : CompactMerkleTree) (entries : List EntryResponse)
    → Represents h leaves t
    → (sth : SthResponse) × (u : CompactMerkleTree) × (compute_projected_sth_from_tree t entries
        ≡ ok (sth, u))
      × Projects h (leaves ++ leaf_inputs entries) sth u
unfolding compute_projected_sth_from_tree leaf_inputs
projected_lem h leaves t entries r =
    let (v, run, good) = extended_refines h leaves (leaf_inputs entries) t r in
    let (u, rooted, good') = root_hash_refines h (leaves ++ leaf_inputs entries) v good in
    (
      record {
        timestamp = 0;
        tree_size = t.tree_size + length entries;
        sha256_root_hash = merkle_root h (leaves ++ leaf_inputs entries);
        tree_head_signature = [];
      },
      u,
      rw (run, rooted) refl,
      record {
        tree = good';
        size = omega (
          arith,
          r.size,
          length-append leaves (leaf_inputs entries),
          length-map entries (λ (leaf : EntryResponse). leaf.leaf_input),
        );
        root = refl;
        dated = refl;
      },
    )

module _ (h : TreeHasher) (sig : SigVerifier) (log : Answers) where
  module _ (leaves : List Bytes) (m : Monitor) where
    abbrev pub FollowsRun : Run Bool → Type 0
    FollowsRun r = Follows h leaves (core m) (core r.1)

    pub failed-FollowsRun : (r : Run Bool) → FollowsRun r → FollowsRun (false_if_failed h sig log r)
    failed-FollowsRun (ok b, m') f = f
    failed-FollowsRun (raise e, m') f = f

    module _ (more : List Bytes) (pending : SthResponse) (holds : Holds h leaves more (core m))
        (is_pending : m.state.pending_sth ≡ some pending) where
      rest : FollowsRun (ok false, m)
      rest = stays h leaves more (core m) (core m) holds (inl refl)

      errback-FollowsRun :
          (e : Exception) → FollowsRun (verify_new_tree_errback h sig log (raise e, m))
      errback-FollowsRun e = elim (Bool-cases (is_verify_error e)) [
        | inl wrong ↦ rw wrong (
            stays h leaves [] (core m) _ (reset-Holds h leaves more m pending holds is_pending)
              (unfold update_unverified_data update_state in inl refl))
        | inr other ↦ rw other rest
      ]

  -- From the monitor before a check to that after it.
  moved :
      (leaves : List Bytes) (m m' : Monitor) (c : Core)
      → core m' ≡ core m
      → Follows h leaves (core m') c
      → Follows h leaves (core m) c
  moved leaves m m' c same f = subst (λ (k : Core). Follows h leaves k c) same f

  pub returned_lem :
      (r : Run (Unit {0}))
      → r.0 ≡ ok tt
      → verify_new_tree_errback h sig log (and_true h sig log r) ≡ (ok true, r.1)
  returned_lem (ok u, m) e = refl
  returned_lem (raise x, m) e = cc

  module _ (leaves more : List Bytes) (pending : SthResponse) where
    after_check-Follows :
        (m : Monitor) (partial_sth : SthResponse) (t : CompactMerkleTree) (r : Run (Unit {0}))
        → Holds h leaves more (core m)
        → m.state.pending_sth ≡ some pending
        → Projects h (leaves ++ more) partial_sth t
        → Checked h sig log m partial_sth (value_of m.state.pending_sth) r
        → FollowsRun leaves m (after_check h sig log r t)
    unfolding after_check
    after_check-Follows m partial_sth t r holds is_pending projected (inl (e, m', raised, same)) =
        rw raised (
          moved leaves m m' _ same (
            errback-FollowsRun leaves m' more pending
              (subst (λ (k : Core). Holds h leaves more k) (sym same) holds)
              (ap (λ (k : Core). k.state.pending_sth) same ∙ is_pending) e))
    after_check-Follows m partial_sth t r holds is_pending projected
          (inr (m', returned, same, accepted)) =
        let (no_error, follows) =
          set_verified_tree-Settles h leaves more m' pending
            (subst (λ (k : Core). Holds h leaves more k) (sym same) holds)
            (ap (λ (k : Core). k.state.pending_sth) same ∙ is_pending) partial_sth t projected
            (subst (λ (k : Core). Accepts partial_sth (value_of k.state.pending_sth)) (sym same)
              accepted) in
        rw (returned, returned_lem (set_verified_tree m' t) no_error)
          (moved leaves m m' _ same follows)

    pub verify_new_tree-Follows :
        (m : Monitor) (partial_sth : SthResponse) (t : CompactMerkleTree)
        → Holds h leaves more (core m)
        → m.state.pending_sth ≡ some pending
        → Projects h (leaves ++ more) partial_sth t
        → FollowsRun leaves m (verify_new_tree h sig log m partial_sth t)
    unfolding verify_new_tree
    verify_new_tree-Follows m partial_sth t holds is_pending projected =
        after_check-Follows m partial_sth t _ holds is_pending projected
          (verify_consistency-Checked h sig log m partial_sth (value_of m.state.pending_sth))

    pub verify_entries-Follows :
        (m : Monitor)
        → Holds h leaves more (core m)
        → m.state.pending_sth ≡ some pending
        → FollowsRun leaves m (verify_entries h sig log m)
    unfolding verify_entries verify_projected leaf_inputs
    verify_entries-Follows m holds is_pending =
        let (sth, t, run, projected) =
          projected_lem h (leaves ++ more) m.unverified_tree [] holds.unverified_leaves in
        rw run (
          failed-FollowsRun leaves m (verify_new_tree h sig log m sth t) (
            verify_new_tree-Follows m sth t holds is_pending (
              subst (λ (l : List Bytes). Projects h l sth t) (append-nil (leaves ++ more))
                projected)))
