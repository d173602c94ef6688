-- ===== src/Monitor/Update.antt =====
-- python/ct/client/monitor.py: EntryConsumer, and an update of the monitor.
use sky_zadro_docs.Common.{
  ℕ, ◌+◌, ◌-◌, ◌==◌, ltb, if◌then◌else◌, ◌||◌, Bool, true, false, List, [], ◌∷◌, Option, none, some,
}
use sky_zadro_docs.Errors.{Result, ok, raise}
use sky_zadro_docs.Merkle.Hasher.{TreeHasher}
use sky_zadro_docs.Merkle.Compact.{CompactMerkleTree}
use sky_zadro_docs.Statements.{SthResponse, SigVerifier}
use sky_zadro_docs.Client.{EntryResponse}
use sky_zadro_docs.Monitor.{
  Monitor, Answers, Run, value_of, update_unverified_data, compute_projected_sth_from_tree,
  false_if_failed, verify_new_tree, verify_entries, update_sth,
}

-- The consumer's `_partial_sth`, not set before the first batch, and `_unverified_tree`.
pub record EntryConsumer : Type 0 where
  pub partial_sth : Option SthResponse
  pub unverified_tree : CompactMerkleTree

-- What a consumed batch does, by the tree head and tree that it makes.
unfoldable pub take_batch :
    Result (SthResponse × CompactMerkleTree)
    → EntryConsumer
    → Monitor
    → Bool
    → EntryConsumer × Monitor × Bool
take_batch (raise e) c m scanned = (c, m, false)
take_batch (ok (partial_sth, tree)) c m scanned =
    let m' = update_unverified_data m tree in
    (
      record { partial_sth = some partial_sth; unverified_tree = tree },
      if scanned then m' else update_unverified_data m' m'.verified_tree,
      scanned,
    )

-- `consume`: the consumer and the monitor afterwards, and whether the producer may go on. A failed
-- scan sets the unverified tree back to the verified one.
unfoldable pub consume :
    EntryConsumer → Monitor → List EntryResponse → Bool → EntryConsumer × Monitor × Bool
consume c m entry_batch scanned =
    take_batch (compute_projected_sth_from_tree c.unverified_tree entry_batch) c m scanned

-- Goes on after a batch, unless it failed.
abbrev pub if_going :
    EntryConsumer × Monitor × Bool
    → (EntryConsumer → Monitor → EntryConsumer × Monitor × Bool)
    → EntryConsumer × Monitor × Bool
if_going (c, m, true) rest = rest c m
if_going (c, m, false) rest = (c, m, false)

-- The batches that a producer delivers, up to the first failure.
unfoldable pub consume_all :
    EntryConsumer → Monitor → List (List EntryResponse × Bool) → EntryConsumer × Monitor × Bool
consume_all c m [] = (c, m, true)
consume_all c m ((entry_batch, scanned) ∷ rest) =
    if_going (consume c m entry_batch scanned) (λ c' m'. consume_all c' m' rest)

module _ (h : TreeHasher) (sig : SigVerifier) (log : Answers) where
  -- `done`, once all entries have come. Without a batch there is no `_partial_sth`, an exception
  -- like any other to its errback.
  unfoldable pub verify_consumed : EntryConsumer → Option SthResponse → Monitor → Run Bool
  verify_consumed c none m = (ok false, m)
  verify_consumed c (some partial_sth) m = verify_new_tree h sig log m partial_sth c.unverified_tree

  unfoldable pub done : EntryConsumer → Monitor → ℕ → Option ℕ → Run Bool
  done c m query_size none = (ok false, m)
  done c m query_size (some result) =
      if (result == 0) || ltb result query_size
      then (ok false, m)
      else verify_consumed c c.partial_sth m

  -- The producer's result reaches `done`, a failure as None.
  unfoldable pub finish : EntryConsumer × Monitor × Bool → ℕ → Option ℕ → Run Bool
  finish (c, m, true) query_size result = false_if_failed h sig log (done c m query_size result)
  finish (c, m, false) query_size result = false_if_failed h sig log (done c m query_size none)

  -- `_fetch_entries`, with the errback of `_update_entries`
  unfoldable pub fetch_entries : Monitor → ℕ → ℕ → Run Bool
  fetch_entries m start end =
      let c : EntryConsumer = record { partial_sth = none; unverified_tree = m.unverified_tree } in
      finish (consume_all c m (log.entries start end).batches) (end - start + 1)
        (log.entries start end).result

  abbrev pub if_pending : Option SthResponse → Monitor → Run Bool → Run Bool
  if_pending none m run = (ok true, m)
  if_pending (some sth) m run = run

  unfoldable pub update_entries : Monitor → Run Bool
  update_entries m =
      let wanted_entries = (value_of m.state.pending_sth).tree_size in
      let last_parsed_size = m.unverified_tree.tree_size in
      if_pending m.state.pending_sth m (
        if ltb last_parsed_size wanted_entries
        then fetch_entries m last_parsed_size (wanted_entries - 1)
        else verify_entries h sig log m)

  abbrev pub after_sth : Run Bool → Run Bool
  after_sth (ok true, m) = update_entries m
  after_sth (ok false, m) = (ok false, m)
  after_sth (raise e, m) = (raise e, m)

  unfoldable pub update : Monitor → Run Bool
  update m = after_sth (update_sth h sig log m)
