-- ===== src/Monitor/Deliveries.antt =====
-- EntryConsumer of python/ct/client/monitor.py on batches that are all scanned without an error.
use sky_zadro_docs.Common.{
  Bool, true, List, [], ◌∷◌, ◌++◌, some, some_injective, ◌≡◌, refl, sym, ap, ◌∙◌, append-nil,
  append_assoc,
}
use sky_zadro_docs.Merkle.Hasher.{Bytes, TreeHasher}
use sky_zadro_docs.Statements.{SthResponse}
use sky_zadro_docs.Client.{EntryResponse}
use sky_zadro_docs.Monitor.{Monitor}
use sky_zadro_docs.Monitor.Update.{EntryConsumer, take_batch, consume, if_going, consume_all}
use sky_zadro_docs.Monitor.Settling.{Projects}
use sky_zadro_docs.Monitor.Entries.{leaf_inputs, projected_lem}
use sky_zadro_docs.Monitor.Fetching.{Consumes, another_tree}
use mathlib.Core.Path.{subst}

-- All leaves of the batches.
abbrev pub delivered : List (List EntryResponse) → List Bytes
delivered [] = []
delivered (entry_batch ∷ rest) = leaf_inputs entry_batch ++ delivered rest

-- The batches, each of which is scanned without an error.
abbrev pub all_scanned : List (List EntryResponse) → List (List EntryResponse × Bool)
all_scanned [] = []
all_scanned (entry_batch ∷ rest) = (entry_batch, true) ∷ all_scanned rest

module _ (h : TreeHasher) (leaves : List Bytes) (pending verified_sth : SthResponse) where
  -- A consumer with a tree head, after some leaves.
  pub record Ready (more : List Bytes) (c : EntryConsumer) (m : Monitor) : Type 0 where
    pub partial_sth : SthResponse
    pub has_head : c.partial_sth ≡ some partial_sth
    pub consumes : Consumes h leaves pending verified_sth more c m

  abbrev pub Consumed : List Bytes → EntryConsumer × Monitor × Bool → Type 0
  Consumed more r = (c : EntryConsumer) × (m : Monitor) × (r ≡ (c, m, true)) × Ready more c m

  pub consume-Consumed :
      (more : List Bytes) (c : EntryConsumer) (m : Monitor) (entry_batch : List EntryResponse)
      → Consumes h leaves pending verified_sth more c m
      → Consumed (more ++ leaf_inputs entry_batch) (consume c m entry_batch true)
  unfolding consume take_batch
  consume-Consumed more c m entry_batch consumes =
      let (sth, t, run, projected) =
        projected_lem h (leaves ++ more) c.unverified_tree entry_batch consumes.tree in
      let here : Projects h (leaves ++ (more ++ leaf_inputs entry_batch)) sth t =
        subst (λ (l : List Bytes). Projects h l sth t)
          (append_assoc leaves more (leaf_inputs entry_batch)) projected in
      (
        _,
        _,
        ap (λ r. take_batch r c m true) run,
        record {
          partial_sth = sth;
          has_head = refl;
          consumes = record {
            fetching =
                another_tree h leaves pending verified_sth more (more ++ leaf_inputs entry_batch) m
                  t consumes.fetching here.tree;
            tree = here.tree;
            head = λ s e.
                subst
                  (λ (s : SthResponse).
                    Projects h (leaves ++ (more ++ leaf_inputs entry_batch)) s t)
                  (some_injective e) here;
          };
        },
      )

  pub consume_all-Consumed :
      (more : List Bytes) (c : EntryConsumer) (m : Monitor) (batches : List (List EntryResponse))
      → Ready more c m
      → Consumed (more ++ delivered batches) (consume_all c m (all_scanned batches))
  unfolding consume_all
  consume_all-Consumed more c m [] ready =
      (c, m, refl, subst (λ (l : List Bytes). Ready l c m) (sym (append-nil more)) ready)
  consume_all-Consumed more c m (entry_batch ∷ batches) ready =
      let (c', m', run, ready') = consume-Consumed more c m entry_batch ready.consumes in
      let (c'', m'', run', ready'') =
        consume_all-Consumed (more ++ leaf_inputs entry_batch) c' m' batches ready' in
      (
        c'',
        m'',
        ap (λ r. if_going r (λ c' m'. consume_all c' m' (all_scanned batches))) run ∙ run',
        subst (λ (l : List Bytes). Ready l c'' m'')
            (append_assoc more (leaf_inputs entry_batch) (delivered batches)) ready'',
      )
