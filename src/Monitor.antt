-- ===== src/Monitor.antt =====
-- python/ct/client/monitor.py: the monitor of a log. What the log answers while an update runs, the
-- verifier of signatures and the scanning of certificates are parameters.
pub mod Update
pub mod Tracking
pub mod Heads
pub mod Fetching
pub mod Entries
pub mod Reach
pub mod Unset
pub mod Taken
pub mod Deliveries
pub mod Checks
pub mod Honest
pub mod Views
pub mod Settling
use sky_zadro_docs.Common.{
  ℕ, zero, suc, ◌+◌, ◌-◌, ◌==◌, ltb, leb, if◌then◌else◌, ◌&&◌, ◌||◌, Bool, true, false, List, [],
  ◌∷◌, ◌++◌, length, map, Option, none, some,
}
use sky_zadro_docs.Errors.{
  Exception, Result, ok, raise, ◌>>=◌, ◌>>◌, require, is_verify_error, is_encoding_error,
  value_error, assertion_error,
}
use sky_zadro_docs.Merkle.Hasher.{Bytes, bytes_eq, TreeHasher}
use sky_zadro_docs.Merkle.Compact.{
  CompactMerkleTree, SavedTree, make, load, save, root_hash, extended,
}
use sky_zadro_docs.Statements.{SthResponse, SigVerifier, verify_sth, verify_sth_consistency}
use sky_zadro_docs.Client.{EntryResponse}

-- The message of a monitor's state. A tree head that is not set reads as one of default values.
pub record MonitorState : Type 0 where
  pub verified_sth : Option SthResponse
  pub pending_sth : Option SthResponse
  pub verified_tree : SavedTree
  pub unverified_tree : SavedTree

abbrev pub unset : SthResponse
unset = record { timestamp = 0; tree_size = 0; sha256_root_hash = []; tree_head_signature = [] }

abbrev pub value_of : Option SthResponse → SthResponse
value_of none = unset
value_of (some sth) = sth

pub data VerifyStatus : Type 0 where
  verified unverified verify_error : VerifyStatus

-- A monitor, with the file of its keeper, the tree heads in its database, and the number of reports.
pub record Monitor : Type 0 where
  pub state : MonitorState
  pub verified_tree : CompactMerkleTree
  pub unverified_tree : CompactMerkleTree
  pub file : Option MonitorState
  pub stored : List (SthResponse × VerifyStatus)
  pub reports : ℕ

-- What a log delivers for a range of entries: batches, and after each one whether its scan succeeds;
-- in the end the number of entries produced, or a failure.
pub record Delivery : Type 0 where
  pub batches : List (List EntryResponse × Bool)
  pub result : Option ℕ

-- What the log and the libraries answer during one update.
pub record Answers : Type 0 where
  pub sth : Result SthResponse
  pub consistency : ℕ → ℕ → Result (List Bytes)
  pub entries : ℕ → ℕ → Delivery

-- `self.__state` of a new monitor: what the keeper has in its file, or the empty message.
abbrev pub read_state : Option MonitorState → MonitorState
read_state none = record {
  verified_sth = none;
  pending_sth = none;
  verified_tree = record { tree_size = 0; hashes = [] };
  unverified_tree = record { tree_size = 0; hashes = [] };
}
read_state (some state) = state

-- `__init__`
unfoldable pub make_monitor :
    TreeHasher → Option MonitorState → List (SthResponse × VerifyStatus) → Result Monitor
make_monitor h file stored = do
  let state = read_state file
  fresh ← make h 0 []
  verified_tree ← load fresh state.verified_tree
  unverified_tree ← load fresh state.unverified_tree
  ok (record {
    state = state;
    verified_tree = verified_tree;
    unverified_tree = unverified_tree;
    file = file;
    stored = stored;
    reports = 0;
  })

-- `__update_state`
unfoldable pub update_state : Monitor → MonitorState → Monitor
update_state m new_state =
    let saved : MonitorState = record new_state {
      verified_tree = save m.verified_tree;
      unverified_tree = save m.unverified_tree;
    } in
    record m { state = saved; file = some saved }

abbrev pub data_timestamp : Monitor → ℕ
data_timestamp m = (value_of m.state.verified_sth).timestamp

-- The result of a call that may raise, and the monitor as it is then.
abbrev pub Run : Type 0 → Type 0
Run A = Result A × Monitor

unfoldable pub set_pending_sth : Monitor → SthResponse → Run Bool
set_pending_sth m new_sth =
    let old = value_of m.state.verified_sth in
    if ltb new_sth.tree_size old.tree_size
    then (raise value_error, m)
    else if leb new_sth.timestamp old.timestamp
    then (raise value_error, m)
    else (
      ok true,
      update_state m (
          if ltb old.tree_size new_sth.tree_size
          then record m.state { pending_sth = some new_sth }
          else record m.state { verified_sth = some new_sth }),
    )

-- The state after all pending entries were retrieved.
abbrev pub settled : MonitorState → MonitorState
settled state = record state {
  verified_sth = some (value_of state.pending_sth);
  pending_sth = none;
}

-- The second assertion of `_set_verified_tree`, and the settled state.
unfoldable pub settle : Result (Bytes × CompactMerkleTree) → Monitor → Run (Unit {0})
settle (raise e) m = (raise e, m)
settle (ok (root, tree)) m =
    let m' : Monitor = record m { verified_tree = tree } in
    if bytes_eq (value_of m.state.pending_sth).sha256_root_hash root
    then (ok tt, record (update_state m' (settled m.state)) { reports = suc m.reports })
    else (raise assertion_error, m')

-- `_set_verified_tree`, for the tree that is set already
unfoldable pub maybe_settle : Monitor → Run (Unit {0})
maybe_settle m =
    let pending = value_of m.state.pending_sth in
    if ltb pending.tree_size m.verified_tree.tree_size
    then (raise assertion_error, m)
    else if pending.tree_size == m.verified_tree.tree_size
    then settle (root_hash m.verified_tree) m
    else (ok tt, record (update_state m m.state) { reports = suc m.reports })

unfoldable pub set_verified_tree : Monitor → CompactMerkleTree → Run (Unit {0})
set_verified_tree m new_tree = maybe_settle (record m { verified_tree = new_tree })

unfoldable pub update_unverified_data : Monitor → CompactMerkleTree → Monitor
update_unverified_data m unverified_tree =
    let m' : Monitor = record m { unverified_tree = unverified_tree } in update_state m' m.state

abbrev pub store : Monitor → SthResponse → VerifyStatus → Monitor
store m sth status = record m { stored = m.stored ++ (sth, status) ∷ [] }

-- A tree head for the root hash of a tree with more leaves, and that tree.
unfoldable pub compute_projected_sth_from_tree :
    CompactMerkleTree → List EntryResponse → Result (SthResponse × CompactMerkleTree)
compute_projected_sth_from_tree tree extra_leaves = do
  extended_tree ← extended tree (map (λ (leaf : EntryResponse). leaf.leaf_input) extra_leaves)
  (root, new_tree) ← root_hash extended_tree
  ok (
    record {
      timestamp = 0;
      tree_size = tree.tree_size + length extra_leaves;
      sha256_root_hash = root;
      tree_head_signature = [];
    },
    new_tree,
  )

module _ (h : TreeHasher) (sig : SigVerifier) (log : Answers) where
  -- `__verify_consistency_callback`, by what verify_sth_consistency does
  abbrev pub store_verdict : Monitor → SthResponse → Result Bool → Run (Unit {0})
  store_verdict m new_sth (ok b) = (ok tt, store m new_sth verified)
  store_verdict m new_sth (raise e) =
      (raise e, if is_verify_error e then store m new_sth verify_error else m)

  unfoldable pub verify_consistency_callback :
      Monitor → Result (List Bytes) → SthResponse → SthResponse → Run (Unit {0})
  verify_consistency_callback m (ok proof) old_sth new_sth =
      store_verdict (store m new_sth unverified) new_sth
        (verify_sth_consistency h old_sth new_sth proof)
  verify_consistency_callback m (raise e) old_sth new_sth = (raise e, m)

  unfoldable pub verify_consistency : Monitor → SthResponse → SthResponse → Run (Unit {0})
  verify_consistency m old_sth new_sth =
      verify_consistency_callback m (log.consistency old_sth.tree_size new_sth.tree_size) old_sth
        new_sth

  -- `__update_sth_verify_consistency_before_accepting_errback`
  abbrev pub false_if_not_verified : Run Bool → Run Bool
  false_if_not_verified (ok b, m) = (ok b, m)
  false_if_not_verified (raise e, m) = (if is_verify_error e then ok false else raise e, m)

  -- The consistency check before a tree head is accepted, and the new state.
  unfoldable pub accept_consistent : Run (Unit {0}) → SthResponse → Run Bool
  accept_consistent (raise e, m) sth = false_if_not_verified (raise e, m)
  accept_consistent (ok u, m) sth = false_if_not_verified (set_pending_sth m sth)

  -- `__update_sth_callback` from its `try` block on, by what verify_sth does
  unfoldable pub accept_verified : Result Bool → Monitor → SthResponse → Run Bool
  accept_verified (raise e) m sth =
      (if is_verify_error e || is_encoding_error e then ok false else raise e, m)
  accept_verified (ok b) m sth =
      accept_consistent (verify_consistency m (value_of m.state.verified_sth) sth) sth

  unfoldable pub accept_sth : Monitor → SthResponse → Run Bool
  accept_sth m sth = accept_verified (verify_sth sig sth) m sth

  -- `==` on two messages of tree heads
  abbrev pub sth_eq : SthResponse → SthResponse → Bool
  sth_eq a b =
      (a.timestamp == b.timestamp)
      && (a.tree_size == b.tree_size)
      && bytes_eq a.sha256_root_hash b.sha256_root_hash
      && bytes_eq a.tree_head_signature b.tree_head_signature

  -- `__update_sth_callback`. The check of an older tree head runs on by itself: its result is not
  -- used, and its failures are logged.
  unfoldable pub compare_sth : Option SthResponse → Monitor → SthResponse → Run Bool
  compare_sth none m sth = accept_sth m sth
  compare_sth (some current) m sth =
      if sth_eq sth current
      then (ok true, m)
      else if ltb sth.timestamp current.timestamp
      then (ok false, (verify_consistency m sth current).1)
      else accept_sth m sth

  unfoldable pub update_sth_callback : Monitor → SthResponse → Run Bool
  unfolding compare_sth
  update_sth_callback m sth = compare_sth m.state.verified_sth m sth

  -- An errback that logs any failure: `__update_sth_errback` and `_update_entries_errback`
  abbrev pub false_if_failed : Run Bool → Run Bool
  false_if_failed (ok b, m) = (ok b, m)
  false_if_failed (raise e, m) = (ok false, m)

  abbrev pub received : Result SthResponse → Monitor → Run Bool
  received (raise e) m = (ok false, m)
  received (ok sth) m = false_if_failed (update_sth_callback m sth)

  abbrev pub unless_pending : Option SthResponse → Run Bool → Monitor → Run Bool
  unless_pending none run m = run
  unless_pending (some sth) run m = (ok true, m)

  unfoldable pub update_sth : Monitor → Run Bool
  update_sth m = unless_pending m.state.pending_sth (received log.sth m) m

  -- `_verify_new_tree_errback`
  abbrev pub verify_new_tree_errback : Run Bool → Run Bool
  verify_new_tree_errback (ok b, m) = (ok b, m)
  verify_new_tree_errback (raise e, m) =
      if is_verify_error e
      then (ok false, update_unverified_data m m.verified_tree)
      else (raise e, m)

  abbrev pub and_true : Run (Unit {0}) → Run Bool
  and_true (ok u, m) = (ok true, m)
  and_true (raise e, m) = (raise e, m)

  -- What `_verify_new_tree` does after the check.
  unfoldable pub after_check : Run (Unit {0}) → CompactMerkleTree → Run Bool
  after_check (raise e, m) new_tree = verify_new_tree_errback (raise e, m)
  after_check (ok u, m) new_tree = verify_new_tree_errback (and_true (set_verified_tree m new_tree))

  unfoldable pub verify_new_tree : Monitor → SthResponse → CompactMerkleTree → Run Bool
  verify_new_tree m partial_sth new_tree =
      after_check (verify_consistency m partial_sth (value_of m.state.pending_sth)) new_tree

  unfoldable pub verify_projected : Result (SthResponse × CompactMerkleTree) → Monitor → Run Bool
  verify_projected (raise e) m = (raise e, m)
  verify_projected (ok (projected_sth, new_tree)) m =
      false_if_failed (verify_new_tree m projected_sth new_tree)

  unfoldable pub verify_entries : Monitor → Run Bool
  verify_entries m = verify_projected (compute_projected_sth_from_tree m.unverified_tree []) m
