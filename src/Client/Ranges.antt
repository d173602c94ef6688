-- ===== src/Client/Ranges.antt =====
-- LogClient.get_entries of python/ct/client/log_client.py: the entries of a range, batch by batch.
use sky_zadro_docs.Common.{
  ℕ, zero, suc, ◌+◌, ◌-◌, ◌≤◌, ◌<◌, leb, le→ltb, true, false, Bool-cases, leb→le, leb→lt, List, [],
  ◌++◌, length, slice, slice-add, length-slice, none, ◌≡◌, refl, ap, ◌∙◌, arith, inl, inr,
}
use sky_zadro_docs.Common.Int.{pos}
use sky_zadro_docs.Errors.{ok}
use mathlib.Core.Path.{subst}
use sky_zadro_docs.Client.{
  EntryResponse, Json, Network, Yielded, yielded, yield_first, fetch_range, get_entries_loop,
  get_entries,
}
use Prim.Native.Nat.{min}

-- A log of these entries that answers every request for a range of them with one or more entries
-- from its beginning, in whatever state the network is.
pub record Serves (json : Json) (net : Network) (num_retries : ℕ) (log : List EntryResponse)
    : Type 0 where
  pub count : ℕ → ℕ → net.State → ℕ
  pub after : ℕ → ℕ → net.State → net.State
  pub count_pos : (first last : ℕ) (s : net.State) → 0 < count first last s
  pub count_most :
      (first last : ℕ) (s : net.State) → first ≤ last → count first last s ≤ last + 1 - first
  pub answer :
      (first last : ℕ) (s : net.State)
      → first ≤ last
      → last < length log
      → fetch_range json net num_retries first last s
        ≡ (ok (slice first (count first last s) log), after first last s)

module _ (json : Json) (net : Network) (num_retries : ℕ) where
  open net use {State}

  loop_step :
      (f start end batch_size : ℕ) (s s' : State) (batch : List EntryResponse)
      → leb start end ≡ true
      → fetch_range json net num_retries start (min (start + batch_size - 1) end) s ≡ (ok batch, s')
      → get_entries_loop json net num_retries (suc f) start end batch_size s
        ≡ yield_first batch
            (get_entries_loop json net num_retries f (start + length batch) end batch_size s')
  unfolding get_entries_loop
  loop_step f start end batch_size s s' batch go e = rw (go, e) refl

  loop_over :
      (f start end batch_size : ℕ) (s : State)
      → leb start end ≡ false
      → get_entries_loop json net num_retries (suc f) start end batch_size s ≡ (yielded [] none, s)
  unfolding get_entries_loop
  loop_over f start end batch_size s over = rw over refl

  -- What is left of the range, with no exception.
  abbrev Complete : List EntryResponse → Yielded × State → Type 0
  Complete log r = (r.0.items ≡ log) × (r.0.raised ≡ none)

  yield_first-Complete :
      (batch rest : List EntryResponse) (r : Yielded × State)
      → Complete rest r
      → Complete (batch ++ rest) (yield_first batch r)
  yield_first-Complete batch rest (y, s) (same, fine) =
      (ap (λ (t : List EntryResponse). batch ++ t) same, fine)

  module _ (log : List EntryResponse) (honest : Serves json net num_retries log) where
    -- The range is one batch, and the range behind it.
    range_split :
        (start width c : ℕ)
        → c ≤ width
        → start + width ≤ length log
        → slice start width log
          ≡ slice start c log
            ++ slice (start + length (slice start c log)) (width - length (slice start c log)) log
    range_split start width c small inside =
        rw (length-slice start c log (omega arith))
          (ap (λ (w : ℕ). slice start w log) (omega arith) ∙ slice-add start c (width - c) log)

    loop-Complete :
        (f start end batch_size : ℕ) (s : State)
        → end + 1 - start < f
        → end < length log
        → start ≤ end + 1
        → 0 < batch_size
        → Complete
            (slice start (end + 1 - start) log)
            (get_entries_loop json net num_retries f start end batch_size s)
    loop-Complete zero start end batch_size s enough p q b = absurd (omega arith)
    loop-Complete (suc f) start end batch_size s enough p q b = elim (Bool-cases (leb start end)) [
      | inr over ↦
          let none_left : end + 1 - start ≡ 0 = omega (arith, leb→lt start end over) in
          rw (loop_over f start end batch_size s over, none_left) (refl, refl)
      | inl go ↦
          let last : ℕ = min (start + batch_size - 1) end in
          let started : start ≤ end = leb→le start end go in
          let forward : start ≤ last = omega (arith, started) in
          let c : ℕ = honest.count start last s in
          let some_entry : 0 < c = honest.count_pos start last s in
          let not_more : c ≤ last + 1 - start = honest.count_most start last s forward in
          let size : length (slice start c log) ≡ c =
            length-slice start c log (omega (arith, not_more, p)) in
          rw
            (
              loop_step f start end batch_size s _ _ go
                  (honest.answer start last s forward (omega (arith, p))),
              range_split start (end + 1 - start) c (omega (arith, not_more))
                  (omega (arith, p, started)),
            )
            (yield_first-Complete (slice start c log) _
              (get_entries_loop json net num_retries f (start + length (slice start c log)) end
                batch_size (honest.after start last s))
              (subst
                (λ (w : ℕ). Complete (slice (start + length (slice start c log)) w log) (
                  get_entries_loop json net num_retries f (start + length (slice start c log)) end
                    batch_size (honest.after start last s)))
                (omega arith)
                (loop-Complete f (start + length (slice start c log)) end batch_size
                  (honest.after start last s) (omega (arith, size, some_entry)) p
                  (omega (arith, size, not_more)) b)))
    ]

    Complete-eq :
        (items : List EntryResponse) (r : Yielded × State)
        → Complete items r
        → r.0 ≡ yielded items none
    Complete-eq items (y, s) (same, fine) = λ i. yielded (same i) (fine i)

    -- From a log that serves its entries, in as small batches as it likes, get_entries yields for
    -- every range inside the log just the entries of the range, in order, and raises nothing.
    pub get_entries_complete :
        (start end batch_size entry_fetch_batch_size : ℕ) (s : State)
        → start ≤ end
        → end < length log
        → 0 < entry_fetch_batch_size
        → (get_entries json net num_retries
            (pos start)
            (pos end)
            batch_size
            entry_fetch_batch_size
            s).0
          ≡ yielded (slice start (end + 1 - start) log) none
    unfolding get_entries
    get_entries_complete start end zero flag s p q b = rw (le→ltb end start p) (
        Complete-eq _
          (get_entries_loop json net num_retries (suc (end + 1 - start)) start end flag s)
          (loop-Complete (suc (end + 1 - start)) start end flag s (omega arith) q (omega arith) b))
    get_entries_complete start end (suc n) flag s p q b = rw (le→ltb end start p) (
        Complete-eq _
          (get_entries_loop json net num_retries (suc (end + 1 - start)) start end (suc n) s)
          (loop-Complete (suc (end + 1 - start)) start end (suc n) s (omega arith) q (omega arith)
            (omega arith)))
