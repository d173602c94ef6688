-- ===== src/Monitor/Tracking.antt =====
-- What a monitor of python/ct/client/monitor.py holds between its operations, and that a new tree
-- head keeps it so.
use sky_zadro_docs.Common.{
  ℕ, ◌≤◌, ◌<◌, ltb, leb, Bool, Bool-cases, ltb→lt, le→ltb, some_injective, ltb→le, leb→lt, List, [],
  ◌++◌, length, take, Option, none, some, ◌≡◌, refl, sym, ap, ◌∙◌, arith, ◌⊎◌, inl, inr,
}
use sky_zadro_docs.Errors.{Exception, Result, ok, raise, is_verify_error}
use sky_zadro_docs.Merkle.Hasher.{Bytes, TreeHasher}
use sky_zadro_docs.Merkle.Tree.{merkle_root}
use sky_zadro_docs.Merkle.Compact.{CompactMerkleTree, save}
use sky_zadro_docs.Merkle.Compact.Refines.{Represents}
use sky_zadro_docs.Statements.{SthResponse, SigVerifier, verify_sth_consistency}
use sky_zadro_docs.Statements.Accepted.{Accepts, verify_sth_consistency-Accepts}
use sky_zadro_docs.Monitor.{
  MonitorState, Monitor, Answers, Run, value_of, read_state, update_state, set_pending_sth, store,
  store_verdict, VerifyStatus, unverified, verify_error, verify_consistency,
  verify_consistency_callback,
}
use mathlib.Core.Path.{subst}

-- The parts of a monitor that its database and its reports do not touch.
pub record Core : Type 0 where
  pub state : MonitorState
  pub verified_tree : CompactMerkleTree
  pub unverified_tree : CompactMerkleTree
  pub file : Option MonitorState

abbrev pub core : Monitor → Core
core m = record {
  state = m.state;
  verified_tree = m.verified_tree;
  unverified_tree = m.unverified_tree;
  file = m.file;
}

abbrev pub verified_of : Core → SthResponse
verified_of c = value_of c.state.verified_sth

-- The verified tree stands for the first leaves, the unverified one for more; the root of the verified
-- tree head is the Merkle tree hash of as many of the first leaves as it tells. A pending tree
-- head is later and larger than the verified one, and without one nothing is left to verify. The
-- file holds the state, and the state the trees.
pub record Holds (h : TreeHasher) (leaves more : List Bytes) (c : Core) : Type 0 where
  pub verified_leaves : Represents h leaves c.verified_tree
  pub unverified_leaves : Represents h (leaves ++ more) c.unverified_tree
  pub enough : (verified_of c).tree_size ≤ length leaves
  pub rooted :
      (sth : SthResponse)
      → c.state.verified_sth ≡ some sth
      → sth.sha256_root_hash ≡ merkle_root h (take sth.tree_size leaves)
  pub all_verified :
      c.state.pending_sth ≡ none → (length leaves ≤ (verified_of c).tree_size) × (more ≡ [])
  pub waiting :
      (sth : SthResponse)
      → c.state.pending_sth ≡ some sth
      → ((verified_of c).tree_size < sth.tree_size) × ((verified_of c).timestamp < sth.timestamp)
  pub saved_verified : c.state.verified_tree ≡ save c.verified_tree
  pub saved_unverified : c.state.unverified_tree ≡ save c.unverified_tree
  pub filed : read_state c.file ≡ c.state

-- A tree head gives way only to one that is later and not smaller.
abbrev pub Grows : SthResponse → SthResponse → Type 0
Grows a b = (a ≡ b) ⊎ ((a.timestamp < b.timestamp) × (a.tree_size ≤ b.tree_size))

pub Grows-trans : (a b c : SthResponse) → Grows a b → Grows b c → Grows a c
Grows-trans a b c (inl e) g = subst (λ (s : SthResponse). Grows s c) (sym e) g
Grows-trans a b c (inr p) (inl e) = subst (λ (s : SthResponse). Grows a s) e (inr p)
Grows-trans a b c (inr p) (inr q) = inr (omega (arith, p, q), omega (arith, p, q))

module _ (h : TreeHasher) (sig : SigVerifier) (log : Answers) where
  -- A consistency check changes the database alone, and returns only for tree heads that it accepts.
  abbrev pub Checked : Monitor → SthResponse → SthResponse → Run (Unit {0}) → Type 0
  Checked m old_sth new_sth r =
      ((e : Exception) × (m' : Monitor) × (r ≡ (raise e, m')) × (core m' ≡ core m))
      ⊎ ((m' : Monitor) × (r ≡ (ok tt, m')) × (core m' ≡ core m) × Accepts old_sth new_sth)

  verdict-Checked :
      (m m' : Monitor) (proof : List Bytes) (old_sth new_sth : SthResponse) (r : Result Bool)
      → core m' ≡ core m
      → verify_sth_consistency h old_sth new_sth proof ≡ r
      → Checked m old_sth new_sth (store_verdict h sig log m' new_sth r)
  verdict-Checked m m' proof old_sth new_sth (ok b) same e = inr (
    store m' new_sth VerifyStatus.verified,
    refl,
    same,
    verify_sth_consistency-Accepts h old_sth new_sth proof e,
  )
  verdict-Checked m m' proof old_sth new_sth (raise x) same e =
      elim (Bool-cases (is_verify_error x)) [
        | inl stored ↦ inl (x, store m' new_sth verify_error, rw stored refl, same)
        | inr other ↦ inl (x, m', rw other refl, same)
      ]

  callback-Checked :
      (m : Monitor) (answer : Result (List Bytes)) (old_sth new_sth : SthResponse)
      → Checked m old_sth new_sth (verify_consistency_callback h sig log m answer old_sth new_sth)
  unfolding verify_consistency_callback
  callback-Checked m (ok proof) old_sth new_sth =
      verdict-Checked m (store m new_sth unverified) proof old_sth new_sth _ refl refl
  callback-Checked m (raise x) old_sth new_sth = inl (x, m, refl, refl)

  pub verify_consistency-Checked :
      (m : Monitor) (old_sth new_sth : SthResponse)
      → Checked m old_sth new_sth (verify_consistency h sig log m old_sth new_sth)
  unfolding verify_consistency
  verify_consistency-Checked m old_sth new_sth =
      callback-Checked m (log.consistency old_sth.tree_size new_sth.tree_size) old_sth new_sth

module _ (h : TreeHasher) (leaves more : List Bytes) where
  abbrev pub Kept : Core → Core → Type 0
  Kept c c' = Holds h leaves more c' × Grows (verified_of c) (verified_of c')

  abbrev pub unchanged : (c : Core) → Holds h leaves more c → Kept c c
  unchanged c holds = (holds, inl refl)

  -- A larger tree head becomes the pending one.
  pending-Holds :
      (m : Monitor) (new_sth : SthResponse)
      → Holds h leaves more (core m)
      → (value_of m.state.verified_sth).tree_size < new_sth.tree_size
      → (value_of m.state.verified_sth).timestamp < new_sth.timestamp
      → Holds h leaves more (core (update_state m (record m.state { pending_sth = some new_sth })))
  unfolding update_state
  pending-Holds m new_sth holds larger later = record {
    verified_leaves = holds.verified_leaves;
    unverified_leaves = holds.unverified_leaves;
    enough = holds.enough;
    rooted = holds.rooted;
    all_verified = λ e. cc;
    waiting = λ sth e.
        subst
          (λ (s : SthResponse).
            ((value_of m.state.verified_sth).tree_size < s.tree_size)
            × ((value_of m.state.verified_sth).timestamp < s.timestamp))
          (some_injective e) (larger, later);
    saved_verified = refl;
    saved_unverified = refl;
    filed = refl;
  }

  -- The root of a tree head of the verified size.
  root_of_same :
      (verified_sth : Option SthResponse) (new_sth : SthResponse)
      → ((sth : SthResponse)
          → verified_sth ≡ some sth
          → sth.sha256_root_hash ≡ merkle_root h (take sth.tree_size leaves))
      → (value_of verified_sth).tree_size ≡ new_sth.tree_size
      → (value_of verified_sth).sha256_root_hash ≡ new_sth.sha256_root_hash
      → length new_sth.sha256_root_hash ≡ 32
      → new_sth.sha256_root_hash ≡ merkle_root h (take new_sth.tree_size leaves)
  root_of_same none new_sth rooted size root full = absurd (omega (arith, ap length root, full))
  root_of_same (some sth) new_sth rooted size root full =
      sym root ∙ rooted sth refl ∙ ap (λ (n : ℕ). merkle_root h (take n leaves)) size

  -- A tree head of the same size becomes the verified one.
  renewed-Holds :
      (m : Monitor) (new_sth : SthResponse)
      → Holds h leaves more (core m)
      → m.state.pending_sth ≡ none
      → (value_of m.state.verified_sth).tree_size ≡ new_sth.tree_size
      → (value_of m.state.verified_sth).sha256_root_hash ≡ new_sth.sha256_root_hash
      → length new_sth.sha256_root_hash ≡ 32
      → Holds h leaves more (core (update_state m (record m.state { verified_sth = some new_sth })))
  unfolding update_state
  renewed-Holds m new_sth holds nothing size root full = record {
    verified_leaves = holds.verified_leaves;
    unverified_leaves = holds.unverified_leaves;
    enough = omega (arith, holds.enough, size);
    rooted = λ sth e.
        subst (λ (s : SthResponse). s.sha256_root_hash ≡ merkle_root h (take s.tree_size leaves))
          (some_injective e)
          (root_of_same m.state.verified_sth new_sth holds.rooted size root full);
    all_verified = λ e. (omega (arith, holds.all_verified e, size), (holds.all_verified e).1);
    waiting = λ sth e. cc;
    saved_verified = refl;
    saved_unverified = refl;
    filed = refl;
  }

  pub set_pending_sth-Kept :
      (m : Monitor) (new_sth : SthResponse)
      → Holds h leaves more (core m)
      → m.state.pending_sth ≡ none
      → Accepts (value_of m.state.verified_sth) new_sth
      → length new_sth.sha256_root_hash ≡ 32
      → Kept (core m) (core (set_pending_sth m new_sth).1)
  unfolding set_pending_sth update_state
  set_pending_sth-Kept m new_sth holds nothing accepted full =
      let old : SthResponse = value_of m.state.verified_sth in
      let larger : old.tree_size ≤ new_sth.tree_size = accepted.in_time.larger in
      elim (Bool-cases (leb new_sth.timestamp old.timestamp)) [
        | inl early ↦
            rw (le→ltb new_sth.tree_size old.tree_size larger, early) (unchanged (core m) holds)
        | inr late ↦
            let later : old.timestamp < new_sth.timestamp =
              leb→lt new_sth.timestamp old.timestamp late in
            elim (Bool-cases (ltb old.tree_size new_sth.tree_size)) [
              | inl grown ↦
                  rw (le→ltb new_sth.tree_size old.tree_size larger, late, grown)
                    (
                      pending-Holds m new_sth holds (ltb→lt old.tree_size new_sth.tree_size grown)
                          later,
                      inl refl,
                    )
              | inr same ↦
                  let equal : old.tree_size ≡ new_sth.tree_size =
                    omega (arith, larger, ltb→le old.tree_size new_sth.tree_size same) in
                  rw (le→ltb new_sth.tree_size old.tree_size larger, late, same)
                    (
                      renewed-Holds m new_sth holds nothing equal (accepted.same equal) full,
                      inr (later, larger),
                    )
            ]
      ]
