-- ===== src/Client/Limits.antt =====
-- What LogClient.get_entries of python/ct/client/log_client.py yields, whatever a log answers.
use sky_zadro_docs.Common.{
  ℕ, zero, suc, ◌+◌, ◌-◌, ◌≤◌, ◌<◌, ltb, leb, le→ltb, Bool-cases, leb→lt, List, [], ◌∷◌, length,
  length-append, some, ◌≡◌, refl, sym, ap, arith, ◌⊎◌, inl, inr, ◌==◌, ◌||◌,
}
use sky_zadro_docs.Common.Int.{pos}
use sky_zadro_docs.Errors.{Exception, Result, ok, raise, ◌>>=◌, bind-returned, raise≢ok}
use sky_zadro_docs.Merkle.Hasher.{Bytes}
use sky_zadro_docs.Client.{
  EntryResponse, Json, Network, Yielded, yield_batch, fetch_range, get_entries_loop, batch_or_flag,
  get_entries, parse_entries, listed_entries, sized, parse_entry, each, then_with,
  get_response_body,
}
use Prim.Native.Nat.{min}

module _ (json : Json) where
  -- As many results as arguments.
  length-each :
      {A : Type 0} (f : json.Value → Result A) (us : List json.Value) (found : List A)
      → each json f us ≡ ok found
      → length found ≡ length us
  length-each {A} f [] found e = ap (λ (r : Result (List A)). size r) (sym e)
    where
      size : Result (List A) → ℕ
      size (ok xs) = length xs
      size (raise x) = 0
  length-each f (u ∷ us) found e =
      let (a, first, rest) =
        bind-returned (λ a. each json f us >>= λ more. ok (a ∷ more)) (f u) e in
      let (more, others, done) = bind-returned (λ more. ok (a ∷ more)) (each json f us) rest in
      ground (arith, length-each f us more others, done)

  sized-length :
      (us : List json.Value) (expected : ℕ) (batch : List EntryResponse)
      → sized json us expected ≡ ok batch
      → (0 < length batch) × (length batch ≤ expected)
  unfolding sized
  sized-length us expected batch e =
      elim (Bool-cases (length us == 0 || ltb expected (length us))) [
        | inl wrong ↦ absurd (raise≢ok (rw wrong at e))
        | inr fits ↦ ground (arith, length-each (parse_entry json) us batch (rw fits at e))
      ]

  -- A response that parse_entries takes has between one entry and as many as expected.
  pub parse_entries-length :
      (body : Bytes) (expected : ℕ) (batch : List EntryResponse)
      → parse_entries json body expected ≡ ok batch
      → (0 < length batch) × (length batch ≤ expected)
  unfolding parse_entries
  parse_entries-length body expected batch e =
      let (us, listed, parsed) =
        bind-returned (λ us. sized json us expected) (listed_entries json body) e in
      sized-length us expected batch parsed

module _ (json : Json) (net : Network) (num_retries : ℕ) where
  open net use {State}

  -- So many entries at most, and just so many unless an exception is raised.
  abbrev pub Within : ℕ → Yielded → Type 0
  Within width y =
      (length y.items ≤ width)
      × (((e : Exception) × (y.raised ≡ some e)) ⊎ (length y.items ≡ width))

  batch-Within :
      (width : ℕ) (fetched : Result (List EntryResponse) × State)
      (rest : ℕ → State → Yielded × State)
      → ((batch : List EntryResponse)
          → fetched.0 ≡ ok batch
          → (0 < length batch) × (length batch ≤ width))
      → ((count : ℕ) (s : State)
          → 0 < count
          → count ≤ width
          → Within (width - count) (rest count s).0)
      → Within width (yield_batch fetched rest).0
  batch-Within width (raise e, s) rest fits later = (omega arith, inl (e, refl))
  batch-Within width (ok batch, s) rest fits later =
      let (some_entry, not_more) = fits batch refl in
      let (few, all_of) = later (length batch) s some_entry not_more in
      (
        omega (arith, length-append batch (rest (length batch) s).0.items, few, not_more),
        elim all_of [
          | inl stopped ↦ inl stopped
          | inr whole ↦
              inr (
                omega (arith, length-append batch (rest (length batch) s).0.items, whole, not_more))
        ],
      )

  fetch-length :
      (first last : ℕ) (s : State) (batch : List EntryResponse)
      → (fetch_range json net num_retries first last s).0 ≡ ok batch
      → (0 < length batch) × (length batch ≤ last + 1 - first)
  unfolding fetch_range
  fetch-length first last s batch e = of_body (get_response_body net num_retries _ s) e
    where
      of_body :
          (r : Result Bytes × State)
          → (then_with r (λ body s'. (parse_entries json body (last + 1 - first), s'))).0 ≡ ok batch
          → (0 < length batch) × (length batch ≤ last + 1 - first)
      of_body (ok body, s') parsed = parse_entries-length json body (last + 1 - first) batch parsed
      of_body (raise x, s') parsed = cc

  loop-Within :
      (f start end width batch_size : ℕ) (s : State)
      → width < f
      → start + width ≡ end + 1
      → Within width (get_entries_loop json net num_retries f start end batch_size s).0
  unfolding get_entries_loop
  loop-Within zero start end width batch_size s enough p = absurd (omega arith)
  loop-Within (suc f) start end width batch_size s enough p = elim (Bool-cases (leb start end)) [
    | inr over ↦
        let h : end < start = leb→lt start end over in rw over (omega arith, inr (omega (arith, h)))
    | inl go ↦
        let last : ℕ = min (start + batch_size - 1) end in
        rw go (
          batch-Within width (fetch_range json net num_retries start last s)
            (λ count s'. get_entries_loop json net num_retries f (start + count) end batch_size s')
            (λ batch e. omega (arith, fetch-length start last s batch e, p))
            (λ count s' more few.
              loop-Within f (start + count) end (width - count) batch_size s' (omega arith)
                (omega arith)))
  ]

  -- Whatever a log answers and in whatever batches: get_entries yields no more entries than a valid
  -- range has, and just so many where it ends without an exception.
  pub get_entries_bounded :
      (start end batch_size entry_fetch_batch_size : ℕ) (s : State)
      → start ≤ end
      → Within
          (end + 1 - start)
          (get_entries json net num_retries
            (pos start)
            (pos end)
            batch_size
            entry_fetch_batch_size
            s).0
  unfolding get_entries
  get_entries_bounded start end batch_size flag s p = rw (le→ltb end start p) (
      loop-Within (suc (end + 1 - start)) start end (end + 1 - start)
        (batch_or_flag batch_size flag) s (omega arith) (omega arith))
