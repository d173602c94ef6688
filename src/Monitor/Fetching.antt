-- ===== src/Monitor/Fetching.antt =====
-- EntryConsumer, _fetch_entries and _update_entries of python/ct/client/monitor.py keep what the monitor
-- holds, however many batches come and wherever they end.
use sky_zadro_docs.Common.{
  ℕ, ◌+◌, ◌-◌, ◌==◌, ltb, if◌then◌else◌, ◌||◌, Bool, true, false, Bool-cases, List, [], ◌∷◌, ◌++◌,
  Option, none, some, some_injective, ◌≡◌, refl, inl, inr, append_assoc,
}
use sky_zadro_docs.Errors.{ok, raise}
use sky_zadro_docs.Merkle.Hasher.{Bytes, TreeHasher}
use sky_zadro_docs.Merkle.Compact.{CompactMerkleTree}
use sky_zadro_docs.Merkle.Compact.Refines.{Represents}
use sky_zadro_docs.Statements.{SthResponse, SigVerifier}
use sky_zadro_docs.Client.{EntryResponse}
use sky_zadro_docs.Monitor.{
  Monitor, Answers, Run, value_of, update_state, update_unverified_data, false_if_failed,
  verify_new_tree, verify_entries,
}
use sky_zadro_docs.Monitor.Update.{
  EntryConsumer, take_batch, consume, if_going, consume_all, verify_consumed, done, finish,
  fetch_entries, if_pending, update_entries,
}
use sky_zadro_docs.Monitor.Tracking.{core, Holds, Grows}
use sky_zadro_docs.Monitor.Settling.{Projects, stays, unverified-Holds, reset-Holds}
use sky_zadro_docs.Monitor.Entries.{
  leaf_inputs, projected_lem, FollowsRun, verify_new_tree-Follows, verify_entries-Follows,
}
use mathlib.Core.Path.{subst}

module _ (h : TreeHasher) (leaves : List Bytes) (pending verified_sth : SthResponse) where
  -- The monitor while entries come in: nothing but its unverified tree changes.
  pub record Fetching (more : List Bytes) (m : Monitor) : Type 0 where
    pub holds : Holds h leaves more (core m)
    pub is_pending : m.state.pending_sth ≡ some pending
    pub same_verified : value_of m.state.verified_sth ≡ verified_sth

  -- The consumer's tree is the monitor's unverified one, and its tree head is that of the tree.
  pub record Consumes (more : List Bytes) (c : EntryConsumer) (m : Monitor) : Type 0 where
    pub fetching : Fetching more m
    pub tree : Represents h (leaves ++ more) c.unverified_tree
    pub head :
        (sth : SthResponse)
        → c.partial_sth ≡ some sth
        → Projects h (leaves ++ more) sth c.unverified_tree

  abbrev Outcome : EntryConsumer × Monitor × Bool → Type 0
  Outcome (c, m, true) = (more : List Bytes) × Consumes more c m
  Outcome (c, m, false) = (more : List Bytes) × Fetching more m

  pub another_tree :
      (more other : List Bytes) (m : Monitor) (t : CompactMerkleTree)
      → Fetching more m
      → Represents h (leaves ++ other) t
      → Fetching other (update_unverified_data m t)
  another_tree more other m t f good = record {
    holds = unverified-Holds h leaves more other m pending t f.holds f.is_pending good;
    is_pending = unfold update_unverified_data update_state in f.is_pending;
    same_verified = unfold update_unverified_data update_state in f.same_verified;
  }

  reset :
      (more : List Bytes) (m : Monitor)
      → Fetching more m
      → Fetching [] (update_unverified_data m m.verified_tree)
  reset more m f = record {
    holds = reset-Holds h leaves more m pending f.holds f.is_pending;
    is_pending = unfold update_unverified_data update_state in f.is_pending;
    same_verified = unfold update_unverified_data update_state in f.same_verified;
  }

  take_batch-Outcome :
      (more new : List Bytes) (c : EntryConsumer) (m : Monitor) (scanned : Bool) (sth : SthResponse)
      (t : CompactMerkleTree)
      → Consumes more c m
      → Projects h ((leaves ++ more) ++ new) sth t
      → Outcome (take_batch (ok (sth, t)) c m scanned)
  unfolding take_batch
  take_batch-Outcome more new c m true sth t consumes projected =
      let here : Projects h (leaves ++ (more ++ new)) sth t =
        subst (λ (l : List Bytes). Projects h l sth t) (append_assoc leaves more new) projected in
      (
        more ++ new,
        record {
          fetching = another_tree more (more ++ new) m t consumes.fetching here.tree;
          tree = here.tree;
          head = λ s e.
              subst (λ (s : SthResponse). Projects h (leaves ++ (more ++ new)) s t)
                (some_injective e) here;
        },
      )
  take_batch-Outcome more new c m false sth t consumes projected =
      let here : Projects h (leaves ++ (more ++ new)) sth t =
        subst (λ (l : List Bytes). Projects h l sth t) (append_assoc leaves more new) projected in
      (
        [],
        reset (more ++ new) (update_unverified_data m t)
            (another_tree more (more ++ new) m t consumes.fetching here.tree),
      )

  consume-Outcome :
      (more : List Bytes) (c : EntryConsumer) (m : Monitor) (entry_batch : List EntryResponse)
      (scanned : Bool)
      → Consumes more c m
      → Outcome (consume c m entry_batch scanned)
  unfolding consume
  consume-Outcome more c m entry_batch scanned consumes =
      let (sth, t, run, projected) =
        projected_lem h (leaves ++ more) c.unverified_tree entry_batch consumes.tree in
      rw run
        (take_batch-Outcome more (leaf_inputs entry_batch) c m scanned sth t consumes projected)

  consume_all-Outcome :
      (more : List Bytes) (c : EntryConsumer) (m : Monitor)
      (batches : List (List EntryResponse × Bool))
      → Consumes more c m
      → Outcome (consume_all c m batches)
  unfolding consume_all
  consume_all-Outcome more c m [] consumes = (more, consumes)
  consume_all-Outcome more c m ((entry_batch, scanned) ∷ batches) consumes =
      going (consume c m entry_batch scanned)
        (consume-Outcome more c m entry_batch scanned consumes)
        (λ more' c' m' consumes'. consume_all-Outcome more' c' m' batches consumes')
    where
      going :
          (r : EntryConsumer × Monitor × Bool)
          → Outcome r
          → ((more' : List Bytes) (c' : EntryConsumer) (m' : Monitor)
              → Consumes more' c' m'
              → Outcome (consume_all c' m' batches))
          → Outcome (if_going r (λ c' m'. consume_all c' m' batches))
      going (c', m', true) (more', consumes') later = later more' c' m' consumes'
      going (c', m', false) outcome later = outcome

module _ (h : TreeHasher) (sig : SigVerifier) (log : Answers) (leaves : List Bytes) where
  module _ (pending verified_sth : SthResponse) where
    -- What follows the monitor while it fetches, follows the monitor that began to.
    abbrev After : Run Bool → Type 0
    After r =
        (new_leaves : List Bytes) × (more : List Bytes) × Holds h (leaves ++ new_leaves) more
          (core r.1)
        × Grows verified_sth (value_of r.1.state.verified_sth)

    after :
        (more : List Bytes) (m : Monitor) (r : Run Bool)
        → Fetching h leaves pending verified_sth more m
        → FollowsRun h sig log leaves m r
        → After r
    after more m r f follows = (
      follows.new_leaves,
      follows.more,
      follows.holds,
      subst (λ (s : SthResponse). Grows s (value_of r.1.state.verified_sth)) f.same_verified
          follows.grows,
    )

    stopped :
        (more : List Bytes) (m : Monitor)
        → Fetching h leaves pending verified_sth more m
        → After (ok false, m)
    stopped more m f =
        after more m (ok false, m) f (stays h leaves more (core m) (core m) f.holds (inl refl))

    failed-After : (r : Run Bool) → After r → After (false_if_failed h sig log r)
    failed-After (ok b, m) a = a
    failed-After (raise e, m) a = a

    verify_consumed-After :
        (more : List Bytes) (c : EntryConsumer) (m : Monitor) (partial_sth : Option SthResponse)
        → Consumes h leaves pending verified_sth more c m
        → c.partial_sth ≡ partial_sth
        → After (verify_consumed h sig log c partial_sth m)
    unfolding verify_consumed
    verify_consumed-After more c m none consumes e = stopped more m consumes.fetching
    verify_consumed-After more c m (some sth) consumes e =
        after more m (verify_new_tree h sig log m sth c.unverified_tree) consumes.fetching (
          verify_new_tree-Follows h sig log leaves more pending m sth c.unverified_tree
            consumes.fetching.holds consumes.fetching.is_pending (consumes.head sth e))

    done-After :
        (more : List Bytes) (c : EntryConsumer) (m : Monitor) (query_size : ℕ) (result : Option ℕ)
        → Consumes h leaves pending verified_sth more c m
        → After (done h sig log c m query_size result)
    unfolding done
    done-After more c m query_size none consumes = stopped more m consumes.fetching
    done-After more c m query_size (some result) consumes =
        elim (Bool-cases (result == 0 || ltb result query_size)) [
          | inl short ↦ rw short (stopped more m consumes.fetching)
          | inr whole ↦ rw whole (verify_consumed-After more c m c.partial_sth consumes refl)
        ]

    finish-After :
        (r : EntryConsumer × Monitor × Bool) (query_size : ℕ) (result : Option ℕ)
        → Outcome h leaves pending verified_sth r
        → After (finish h sig log r query_size result)
    unfolding finish done
    finish-After (c, m, true) query_size result (more, consumes) =
        failed-After _ (done-After more c m query_size result consumes)
    finish-After (c, m, false) query_size result (more, f) = stopped more m f

  module _ (m : Monitor) (more : List Bytes) (holds : Holds h leaves more (core m)) where
    fetch_entries-Follows :
        (pending : SthResponse) (start end : ℕ)
        → m.state.pending_sth ≡ some pending
        → FollowsRun h sig log leaves m (fetch_entries h sig log m start end)
    unfolding fetch_entries
    fetch_entries-Follows pending start end is_pending =
        let (new_leaves, more', holds', grows) =
          finish-After pending (value_of m.state.verified_sth) _ (end - start + 1)
            (log.entries start end).result
            (consume_all-Outcome h leaves pending (value_of m.state.verified_sth) more first m
              (log.entries start end).batches begun) in
        record { new_leaves = new_leaves; more = more'; holds = holds'; grows = grows }
      where
        first : EntryConsumer
        first = record { partial_sth = none; unverified_tree = m.unverified_tree }

        begun : Consumes h leaves pending (value_of m.state.verified_sth) more first m
        begun = record {
          fetching = record { holds = holds; is_pending = is_pending; same_verified = refl };
          tree = holds.unverified_leaves;
          head = λ sth e. cc;
        }

    -- The branch of _update_entries for a pending tree head.
    fetched-Follows :
        (pending : SthResponse) (enough : Bool)
        → m.state.pending_sth ≡ some pending
        → FollowsRun h sig log leaves m (
            if enough
            then fetch_entries h sig log m m.unverified_tree.tree_size
                ((value_of m.state.pending_sth).tree_size - 1)
            else verify_entries h sig log m)
    fetched-Follows pending true e = fetch_entries-Follows pending _ _ e
    fetched-Follows pending false e = verify_entries-Follows h sig log leaves more pending m holds e

    pending-Follows :
        (pending_sth : Option SthResponse)
        → m.state.pending_sth ≡ pending_sth
        → FollowsRun h sig log leaves m (
            if_pending h sig log pending_sth m (
              if ltb m.unverified_tree.tree_size (value_of m.state.pending_sth).tree_size
              then fetch_entries h sig log m m.unverified_tree.tree_size
                  ((value_of m.state.pending_sth).tree_size - 1)
              else verify_entries h sig log m))
    pending-Follows none e = stays h leaves more (core m) (core m) holds (inl refl)
    pending-Follows (some pending) e = fetched-Follows pending _ e

    -- Whatever the log delivers, the verified leaves stay and are perhaps followed by more.
    pub update_entries-Follows : FollowsRun h sig log leaves m (update_entries h sig log m)
    unfolding update_entries
    update_entries-Follows = pending-Follows m.state.pending_sth refl
