-- ===== src/Monitor/Honest.antt =====
-- An update of python/ct/client/monitor.py from a log that answers as it should.
use sky_zadro_docs.Common.{
  ℕ, ◌+◌, ◌-◌, ◌≤◌, ◌<◌, ltb, if◌then◌else◌, Bool, le→ltb, lt→ltb, ne→==, List, ◌∷◌, ◌++◌, length,
  Option, none, some, ◌≡◌, refl, sym, ap, ◌∙◌, arith, append_assoc,
}
use sky_zadro_docs.Errors.{ok}
use sky_zadro_docs.Merkle.Hasher.{Bytes, TreeHasher}
use sky_zadro_docs.Statements.{SthResponse, SigVerifier, verify_sth, verify_sth_consistency}
use sky_zadro_docs.Monitor.{
  Monitor, Answers, Delivery, Run, value_of, update_state, verify_new_tree, verify_entries,
}
use sky_zadro_docs.Monitor.Update.{
  EntryConsumer, if_going, consume_all, verify_consumed, done, finish, fetch_entries, if_pending,
  update_entries, after_sth, update,
}
use sky_zadro_docs.Monitor.Tracking.{core, Holds, Kept}
use sky_zadro_docs.Monitor.Heads.{update_sth-Keeps}
use sky_zadro_docs.Monitor.Taken.{with_verdicts, larger_sth_taken}
use sky_zadro_docs.Monitor.Settling.{Projects}
use sky_zadro_docs.Monitor.Entries.{leaf_inputs}
use sky_zadro_docs.Monitor.Fetching.{Consumes}
use mathlib.Core.Path.{subst}
use sky_zadro_docs.Monitor.Deliveries.{
  delivered, all_scanned, Ready, Consumed, consume-Consumed, consume_all-Consumed,
}
use sky_zadro_docs.Monitor.Checks.{UpToDate, verify_new_tree-UpToDate, failed-UpToDate, Delivers}

module _ (h : TreeHasher) (sig : SigVerifier) (log : Answers) (leaves more : List Bytes) where
  module _ (m : Monitor) (sth : SthResponse) (holds : Holds h leaves more (core m))
      (is_pending : m.state.pending_sth ≡ some sth)
      (delivers : Delivers h sig log leaves more m.unverified_tree.tree_size
        (value_of m.state.pending_sth)) where
    first_consumer : EntryConsumer
    first_consumer = record { partial_sth = none; unverified_tree = m.unverified_tree }

    begun : Consumes h leaves sth (value_of m.state.verified_sth) more first_consumer m
    unfolding first_consumer
    begun = record {
      fetching = record { holds = holds; is_pending = is_pending; same_verified = refl };
      tree = holds.unverified_leaves;
      head = λ s e. cc;
    }

    all_leaves : List Bytes
    all_leaves = more ++ delivered (delivers.first ∷ delivers.batches)

    consumed :
        Consumed h leaves sth
          (value_of m.state.verified_sth)
          all_leaves
          (consume_all first_consumer m (all_scanned (delivers.first ∷ delivers.batches)))
    unfolding consume_all all_leaves
    consumed =
        let (c, m', run, ready) =
          consume-Consumed h leaves sth (value_of m.state.verified_sth) more first_consumer m
            delivers.first begun in
        let (c', m'', run', ready') =
          consume_all-Consumed h leaves sth (value_of m.state.verified_sth)
            (more ++ leaf_inputs delivers.first) c m' delivers.batches ready in
        (
          c',
          m'',
          ap (λ r. if_going r (λ c m. consume_all c m (all_scanned delivers.batches))) run ∙ run',
          subst (λ (l : List Bytes). Ready h leaves sth (value_of m.state.verified_sth) l c' m'')
              (append_assoc more (leaf_inputs delivers.first) (delivered delivers.batches)) ready',
        )

    done_lem :
        (c : EntryConsumer) (m' : Monitor) (query_size produced : ℕ)
        → 0 < query_size
        → query_size ≤ produced
        → done h sig log c m' query_size (some produced)
          ≡ verify_consumed h sig log c c.partial_sth m'
    unfolding done
    done_lem c m' query_size produced some_query enough =
        rw
          (
            ne→== produced 0 (λ e. omega (arith, e, some_query, enough)),
            le→ltb produced query_size enough,
          )
          refl

    done-UpToDate :
        (c : EntryConsumer) (m' : Monitor) (query_size : ℕ)
        → Ready h leaves sth (value_of m.state.verified_sth) all_leaves c m'
        → 0 < query_size
        → query_size ≤ delivers.produced
        → UpToDate h sig log leaves more sth
            (done h sig log c m' query_size (some delivers.produced))
    unfolding verify_consumed all_leaves
    done-UpToDate c m' query_size ready some_query enough =
        let s : SthResponse = ready.partial_sth in
        let still : m'.state.pending_sth ≡ some sth = ready.consumes.fetching.is_pending in
        let same : value_of m'.state.pending_sth ≡ value_of m.state.pending_sth =
          ap value_of still ∙ sym (ap value_of is_pending) in
        let size : (value_of m'.state.pending_sth).tree_size ≡ length (leaves ++ all_leaves) =
          ap (λ (x : SthResponse). x.tree_size) same ∙ delivers.size in
        let projected : Projects h (leaves ++ all_leaves) s c.unverified_tree =
          ready.consumes.head s ready.has_head in
        subst (λ (r : Run Bool). UpToDate h sig log leaves more sth r)
          (sym (
            done_lem c m' query_size delivers.produced some_query enough
            ∙ ap (λ p. verify_consumed h sig log c p m') ready.has_head))
          (subst
            (λ (x : SthResponse).
              UpToDate h sig log leaves more x (verify_new_tree h sig log m' s c.unverified_tree))
            (ap value_of still)
            (verify_new_tree-UpToDate h sig log leaves all_leaves m' s c.unverified_tree sth
              delivers.proof ready.consumes.fetching.holds still projected size
              (ap (λ (x : SthResponse). x.sha256_root_hash) same ∙ delivers.root)
              (subst (λ (x : SthResponse). 0 < x.timestamp) (sym same) delivers.late)
              (ap (λ (n : ℕ). log.consistency n (value_of m'.state.pending_sth).tree_size)
                  (projected.size ∙ sym delivers.size)
                ∙ ap
                    (λ (x : SthResponse).
                      log.consistency (value_of m.state.pending_sth).tree_size x.tree_size)
                    same
                ∙ delivers.proved)))

    fetched-UpToDate : UpToDate h sig log leaves more sth (
        fetch_entries h sig log m m.unverified_tree.tree_size
          ((value_of m.state.pending_sth).tree_size - 1))
    unfolding fetch_entries finish first_consumer
    fetched-UpToDate =
        let (c, m', run, ready) = consumed in
        subst
          (λ (d : Delivery). UpToDate h sig log leaves more sth (
            finish h sig log (consume_all first_consumer m d.batches)
              ((value_of m.state.pending_sth).tree_size - 1 - m.unverified_tree.tree_size + 1)
              d.result))
          (sym delivers.answer)
          (subst
            (λ r. UpToDate h sig log leaves more sth (
              finish h sig log r
                ((value_of m.state.pending_sth).tree_size - 1 - m.unverified_tree.tree_size + 1)
                (some delivers.produced)))
            (sym run)
            (failed-UpToDate h sig log leaves more sth _ (
              done-UpToDate c m' _ ready (omega arith)
                (omega (arith, delivers.wanted, delivers.whole)))))

    entries-UpToDate : UpToDate h sig log leaves more sth (update_entries h sig log m)
    unfolding update_entries
    entries-UpToDate =
        subst
          (λ (p : Option SthResponse). UpToDate h sig log leaves more sth (
            if_pending h sig log p m (
              if ltb m.unverified_tree.tree_size (value_of m.state.pending_sth).tree_size
              then fetch_entries h sig log m m.unverified_tree.tree_size
                  ((value_of m.state.pending_sth).tree_size - 1)
              else verify_entries h sig log m)))
          (sym is_pending)
          (rw
            (lt→ltb m.unverified_tree.tree_size (value_of m.state.pending_sth).tree_size
              delivers.wanted)
            fetched-UpToDate)

  -- An update that finds a new tree head, larger and later than the verified one, signed, and proved
  -- consistent with it, and that is delivered all entries up to it, returns True: the new tree head is the
  -- verified one, and none is pending.
  pub honest_update :
      (m : Monitor) (sth : SthResponse) (proof : List Bytes) {b b' : Bool}
      → Holds h leaves more (core m)
      → m.state.pending_sth ≡ none
      → log.sth ≡ ok sth
      → verify_sth sig sth ≡ ok b
      → log.consistency (value_of m.state.verified_sth).tree_size sth.tree_size ≡ ok proof
      → verify_sth_consistency h (value_of m.state.verified_sth) sth proof ≡ ok b'
      → (value_of m.state.verified_sth).tree_size < sth.tree_size
      → (value_of m.state.verified_sth).timestamp < sth.timestamp
      → Delivers h sig log leaves more m.unverified_tree.tree_size sth
      → UpToDate h sig log leaves more sth (update h sig log m)
  unfolding update update_state
  honest_update m sth proof holds nothing answer signed proved accepted larger later delivers =
      let taken =
        larger_sth_taken h sig log m sth proof nothing answer signed proved accepted larger later in
      let m' : Monitor =
        update_state (with_verdicts h sig log m sth) (record m.state { pending_sth = some sth }) in
      let (holds', grows) =
        subst (λ (r : Run Bool). Kept h leaves more (core m) (core r.1)) taken
          (update_sth-Keeps h sig log leaves more m holds) in
      subst (λ (r : Run Bool). UpToDate h sig log leaves more sth (after_sth h sig log r))
        (sym taken) (entries-UpToDate m' sth holds' refl delivers)
