-- ===== src/Monitor/Reach.antt =====
-- The life of a monitor of python/ct/client/monitor.py: updates, and restarts from its state file.
use sky_zadro_docs.Common.{
  List, [], ◌++◌, Option, none, some, Bool, true, false, ◌≡◌, refl, sym, ap, ◌∙◌, arith,
}
use sky_zadro_docs.Errors.{Result, ok, raise, ok_injective}
use sky_zadro_docs.Merkle.Hasher.{Bytes, TreeHasher}
use sky_zadro_docs.Levels.Peaks.{peaks}
use sky_zadro_docs.Merkle.Compact.{CompactMerkleTree, SavedTree, load, save}
use sky_zadro_docs.Merkle.Compact.Refines.{Represents, Gives, make_empty}
use sky_zadro_docs.Merkle.Compact.Session.{load-save_refines}
use sky_zadro_docs.Statements.{SthResponse, SigVerifier}
use sky_zadro_docs.Monitor.{
  Monitor, MonitorState, VerifyStatus, Answers, Run, value_of, read_state, make_monitor, update_sth,
}
use sky_zadro_docs.Monitor.Update.{after_sth, update}
use sky_zadro_docs.Monitor.Tracking.{Core, core, Holds, Grows-trans, Kept}
use sky_zadro_docs.Monitor.Heads.{update_sth-Keeps}
use sky_zadro_docs.Monitor.Settling.{Follows, stays}
use sky_zadro_docs.Monitor.Entries.{FollowsRun}
use sky_zadro_docs.Monitor.Fetching.{update_entries-Follows}
use mathlib.Core.Path.{subst}

module _ (h : TreeHasher) (sig : SigVerifier) where
  module _ (log : Answers) (leaves more : List Bytes) (m : Monitor) where
    after_sth-Follows :
        (r : Run Bool)
        → Kept h leaves more (core m) (core r.1)
        → FollowsRun h sig log leaves m (after_sth h sig log r)
    after_sth-Follows (raise e, m') (holds, grows) =
        stays h leaves more (core m) (core m') holds grows
    after_sth-Follows (ok false, m') (holds, grows) =
        stays h leaves more (core m) (core m') holds grows
    after_sth-Follows (ok true, m') (holds, grows) =
        let f = update_entries-Follows h sig log leaves m' more holds in
        record {
          new_leaves = f.new_leaves;
          more = f.more;
          holds = f.holds;
          grows =
              Grows-trans (value_of m.state.verified_sth) (value_of m'.state.verified_sth) _ grows
                f.grows;
        }

    -- Whatever the log answers to an update, the monitor still holds what it held: its verified leaves
    -- stay and are perhaps followed by more, its trees and its file stand for them, the root of its
    -- verified tree head is their Merkle tree hash, and the verified tree head is as before, or one
    -- that is later and not smaller.
    pub update-Follows :
        Holds h leaves more (core m) → Follows h leaves (core m) (core (update h sig log m).1)
    unfolding update
    update-Follows holds =
        after_sth-Follows (update_sth h sig log m) (update_sth-Keeps h sig log leaves more m holds)

  -- Loading the trees that a state was saved with.
  loads :
      (leaves : List Bytes) (t fresh : CompactMerkleTree) (saved : SavedTree)
      → Represents h leaves t
      → saved ≡ save t
      → Represents h [] fresh
      → Gives h (load fresh saved) leaves
  loads leaves t fresh saved good same new =
      subst (λ (s : SavedTree). Gives h (load fresh s) leaves) (sym same)
        (load-save_refines h leaves t fresh good new.same_hasher)

  same_save :
      (leaves : List Bytes) (t u : CompactMerkleTree)
      → Represents h leaves t
      → Represents h leaves u
      → save t ≡ save u
  unfolding save
  same_save leaves t u a b =
      λ i. record { tree_size = (a.size ∙ sym b.size) i; hashes = (a.subtrees ∙ sym b.subtrees) i }

  -- Trees for the same leaves in the place of a monitor's own.
  reloaded-Holds :
      (leaves more : List Bytes) (c : Core) (v u : CompactMerkleTree)
      → Holds h leaves more c
      → Represents h leaves v
      → Represents h (leaves ++ more) u
      → Holds h leaves more (record c { verified_tree = v; unverified_tree = u })
  reloaded-Holds leaves more c v u holds good good' = record {
    verified_leaves = good;
    unverified_leaves = good';
    enough = holds.enough;
    rooted = holds.rooted;
    all_verified = holds.all_verified;
    waiting = holds.waiting;
    saved_verified =
        holds.saved_verified ∙ same_save leaves c.verified_tree v holds.verified_leaves good;
    saved_unverified =
        holds.saved_unverified
        ∙ same_save (leaves ++ more) c.unverified_tree u holds.unverified_leaves good';
    filed = holds.filed;
  }

  abbrev from_file :
      Option MonitorState
      → List (SthResponse × VerifyStatus)
      → CompactMerkleTree
      → CompactMerkleTree
      → Monitor
  from_file file stored v u = record {
    state = read_state file;
    verified_tree = v;
    unverified_tree = u;
    file = file;
    stored = stored;
    reports = 0;
  }

  -- A monitor that is made from the file of another one holds what that one held.
  pub restart-Holds :
      (leaves more : List Bytes) (m : Monitor) (stored : List (SthResponse × VerifyStatus))
      → Holds h leaves more (core m)
      → (m' : Monitor) × (make_monitor h m.file stored ≡ ok m')
        × Holds h leaves more (core m')
        × (m'.state ≡ m.state)
  unfolding make_monitor
  restart-Holds leaves more m stored holds =
      let (fresh, made, new) = make_empty h in
      let (v, loaded, good) =
        loads leaves m.verified_tree fresh (read_state m.file).verified_tree holds.verified_leaves
          (ap (λ (s : MonitorState). s.verified_tree) holds.filed ∙ holds.saved_verified) new in
      let (u, loaded', good') =
        loads (leaves ++ more) m.unverified_tree fresh (read_state m.file).unverified_tree
          holds.unverified_leaves
          (ap (λ (s : MonitorState). s.unverified_tree) holds.filed ∙ holds.saved_unverified) new in
      (
        from_file m.file stored v u,
        rw (made, loaded, loaded') refl,
        subst
            (λ (state : MonitorState).
              Holds h leaves more
                (record (core m) { state = state; verified_tree = v; unverified_tree = u }))
            (sym holds.filed) (reloaded-Holds leaves more (core m) v u holds good good'),
        holds.filed,
      )

  empty_save :
      (t : CompactMerkleTree) → Represents h [] t → save t ≡ record { tree_size = 0; hashes = [] }
  unfolding save peaks
  empty_save t r = λ i. record { tree_size = r.size i; hashes = r.subtrees i }

  no_head : (sth : SthResponse) → none ≡ some sth → ⊥
  no_head sth e = cc

  -- A new monitor, without a file, holds no leaf.
  pub new_monitor-Holds :
      (stored : List (SthResponse × VerifyStatus))
      → (m : Monitor) × (make_monitor h none stored ≡ ok m) × Holds h [] [] (core m)
  unfolding make_monitor
  new_monitor-Holds stored =
      let (fresh, made, new) = make_empty h in
      let (v, loaded, good) =
        loads [] fresh fresh (record { tree_size = 0; hashes = [] }) new
          (sym (empty_save fresh new)) new in
      (
        from_file none stored v v,
        rw (made, loaded) refl,
        record {
          verified_leaves = good;
          unverified_leaves = good;
          enough = omega arith;
          rooted = λ sth e. absurd (no_head sth e);
          all_verified = λ e. (omega arith, refl);
          waiting = λ sth e. cc;
          saved_verified = sym (empty_save v good);
          saved_unverified = sym (empty_save v good);
          filed = refl;
        },
      )

  -- The monitors that come about: a new one, a monitor after an update, whatever the log answers, and
  -- one that is made from the file of another.
  pub data Reach : Monitor → Type 0 where
    new :
        (m : Monitor) (stored : List (SthResponse × VerifyStatus))
        → make_monitor h none stored ≡ ok m
        → Reach m
    updated : (m : Monitor) (log : Answers) → Reach m → Reach (update h sig log m).1
    restarted :
        (m m' : Monitor) (stored : List (SthResponse × VerifyStatus))
        → Reach m
        → make_monitor h m.file stored ≡ ok m'
        → Reach m'

  pub same_monitor : (m m' : Monitor) (r : Result Monitor) → r ≡ ok m → r ≡ ok m' → m ≡ m'
  same_monitor m m' r e e' = ok_injective (sym e ∙ e')

  -- However a monitor came about, by updates from any answers and restarts from its file, there are
  -- leaves that its verified tree stands for: the verified tree head's root is the Merkle tree hash
  -- of as many of them as it tells, a pending tree head is larger and later than the verified one, and
  -- the file holds the state.
  pub Reach-Holds :
      (m : Monitor)
      → Reach m
      → (leaves : List Bytes) × (more : List Bytes) × Holds h leaves more (core m)
  Reach-Holds m (new n stored e) =
      let (n', made, holds) = new_monitor-Holds stored in
      ([], [], subst (λ (k : Monitor). Holds h [] [] (core k)) (same_monitor n' n _ made e) holds)
  Reach-Holds m (updated n log r) =
      let (leaves, more, holds) = Reach-Holds n r in
      let f = update-Follows log leaves more n holds in (leaves ++ f.new_leaves, f.more, f.holds)
  Reach-Holds m (restarted n n' stored r e) =
      let (leaves, more, holds) = Reach-Holds n r in
      let (k, made, again, same) = restart-Holds leaves more n stored holds in
      (
        leaves,
        more,
        subst (λ (j : Monitor). Holds h leaves more (core j)) (same_monitor k n' _ made e) again,
      )
