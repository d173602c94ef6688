-- ===== src/Monitor/Settling.antt =====
-- _set_verified_tree and _verify_new_tree of python/ct/client/monitor.py: a tree that was checked becomes
-- the verified one, and neither assertion fails.
use sky_zadro_docs.Common.{
  none, ℕ, zero, suc, ◌≤◌, ◌==◌, ltb, true, false, Bool-cases, le→ltb, ==_iff, some_injective, List,
  [], ◌∷◌, ◌++◌, length, length-append, take, take_all, Option, some, ◌≡◌, refl, sym, ap, ◌∙◌,
  arith, inl, inr, append-nil,
}
use sky_zadro_docs.Errors.{ok}
use sky_zadro_docs.Merkle.Hasher.{Bytes, bytes_eq, bytes_eq_refl, TreeHasher}
use sky_zadro_docs.Merkle.Tree.{merkle_root}
use sky_zadro_docs.Merkle.Compact.{CompactMerkleTree, root_hash}
use sky_zadro_docs.Merkle.Compact.Refines.{Represents}
use sky_zadro_docs.Merkle.Compact.Session.{root_hash_refines}
use sky_zadro_docs.Statements.{SthResponse}
use sky_zadro_docs.Statements.Accepted.{Accepts}
use sky_zadro_docs.Monitor.{
  Monitor, Run, value_of, update_state, settled, settle, maybe_settle, set_verified_tree,
  update_unverified_data,
}
use sky_zadro_docs.Monitor.Tracking.{Core, core, verified_of, Holds, Grows}
use mathlib.Core.Path.{subst}

-- The monitor afterwards: its verified leaves are those before, and perhaps more.
pub record Follows (h : TreeHasher) (leaves : List Bytes) (c c' : Core) : Type 0 where
  pub new_leaves : List Bytes
  pub more : List Bytes
  pub holds : Holds h (leaves ++ new_leaves) more c'
  pub grows : Grows (verified_of c) (verified_of c')

-- The same leaves are verified.
pub stays :
    (h : TreeHasher) (leaves more : List Bytes) (c c' : Core)
    → Holds h leaves more c'
    → Grows (verified_of c) (verified_of c')
    → Follows h leaves c c'
stays h leaves more c c' holds grows = record {
  new_leaves = [];
  more = more;
  holds = subst (λ (l : List Bytes). Holds h l more c') (sym (append-nil leaves)) holds;
  grows = grows;
}

-- Another unverified tree, while a tree head is pending.
pub unverified-Holds :
    (h : TreeHasher) (leaves more other : List Bytes) (m : Monitor) (pending : SthResponse)
    (t : CompactMerkleTree)
    → Holds h leaves more (core m)
    → m.state.pending_sth ≡ some pending
    → Represents h (leaves ++ other) t
    → Holds h leaves other (core (update_unverified_data m t))
unfolding update_unverified_data update_state
unverified-Holds h leaves more other m pending t holds is_pending good = record {
  verified_leaves = holds.verified_leaves;
  unverified_leaves = good;
  enough = holds.enough;
  rooted = holds.rooted;
  all_verified = λ e. cc;
  waiting = holds.waiting;
  saved_verified = refl;
  saved_unverified = refl;
  filed = refl;
}

-- Back to the verified tree.
pub reset-Holds :
    (h : TreeHasher) (leaves more : List Bytes) (m : Monitor) (pending : SthResponse)
    → Holds h leaves more (core m)
    → m.state.pending_sth ≡ some pending
    → Holds h leaves [] (core (update_unverified_data m m.verified_tree))
reset-Holds h leaves more m pending holds is_pending =
    unverified-Holds h leaves more [] m pending m.verified_tree holds is_pending (
      subst (λ (l : List Bytes). Represents h l m.verified_tree) (sym (append-nil leaves))
        holds.verified_leaves)

take-append_left : (n : ℕ) (xs ys : List Bytes) → n ≤ length xs → take n (xs ++ ys) ≡ take n xs
take-append_left zero xs ys p = refl
take-append_left (suc n) [] ys p = absurd (omega arith)
take-append_left (suc n) (x ∷ xs) ys p =
    ap (λ (t : List Bytes). x ∷ t) (take-append_left n xs ys (omega arith))

-- A tree head of the leaves of a tree, as it is projected.
pub record Projects (h : TreeHasher) (leaves : List Bytes) (sth : SthResponse)
    (t : CompactMerkleTree) : Type 0 where
  pub tree : Represents h leaves t
  pub size : sth.tree_size ≡ length leaves
  pub root : sth.sha256_root_hash ≡ merkle_root h leaves
  pub dated : sth.timestamp ≡ 0

module _ (h : TreeHasher) (leaves more : List Bytes) (m : Monitor) (pending : SthResponse) where
  module _ (holds : Holds h leaves more (core m)) (is_pending : m.state.pending_sth ≡ some pending)
      (partial_sth : SthResponse) (t : CompactMerkleTree)
      (projected : Projects h (leaves ++ more) partial_sth t)
      (accepted : Accepts partial_sth (value_of m.state.pending_sth)) where
    named : value_of m.state.pending_sth ≡ pending
    named = ap value_of is_pending

    -- All pending entries are there: the pending tree head becomes the verified one.
    settled-Holds :
        (root : Bytes) (u : CompactMerkleTree)
        → Represents h (leaves ++ more) u
        → (value_of m.state.pending_sth).tree_size ≡ length (leaves ++ more)
        → (value_of m.state.pending_sth).sha256_root_hash ≡ merkle_root h (leaves ++ more)
        → Holds h
            (leaves ++ more)
            []
            (core (update_state (record m { verified_tree = u }) (settled m.state)))
    unfolding update_state
    settled-Holds root u good size same_root = record {
      verified_leaves = good;
      unverified_leaves =
          subst (λ (l : List Bytes). Represents h l m.unverified_tree)
            (sym (append-nil (leaves ++ more))) holds.unverified_leaves;
      enough = omega (arith, size);
      rooted = λ sth e.
          subst
            (λ (s : SthResponse).
              s.sha256_root_hash ≡ merkle_root h (take s.tree_size (leaves ++ more)))
            (some_injective e)
            (same_root
              ∙ ap (merkle_root h) (
                  sym (
                    take_all (value_of m.state.pending_sth).tree_size (leaves ++ more)
                      (omega (arith, size)))));
      all_verified = λ e. (omega (arith, size), refl);
      waiting = λ sth e. cc;
      saved_verified = refl;
      saved_unverified = refl;
      filed = refl;
    }

    -- Some are missing: the tree head stays pending.
    advanced-Holds :
        Holds h (leaves ++ more) [] (core (update_state (record m { verified_tree = t }) m.state))
    unfolding update_state
    advanced-Holds = record {
      verified_leaves = projected.tree;
      unverified_leaves =
          subst (λ (l : List Bytes). Represents h l m.unverified_tree)
            (sym (append-nil (leaves ++ more))) holds.unverified_leaves;
      enough = omega (arith, holds.enough, length-append leaves more);
      rooted = λ sth e.
          holds.rooted sth e
          ∙ ap (merkle_root h) (
              sym (
                take-append_left sth.tree_size leaves more (
                  subst (λ (o : Option SthResponse). (value_of o).tree_size ≤ length leaves) e
                    holds.enough)));
      all_verified = λ e. cc;
      waiting = holds.waiting;
      saved_verified = refl;
      saved_unverified = refl;
      filed = refl;
    }

    -- The tree becomes the verified one, and no assertion fails.
    abbrev pub Settles : Run (Unit {0}) → Type 0
    Settles r = (r.0 ≡ ok tt) × Follows h leaves (core m) (core r.1)

    all_there-Settles :
        (value_of m.state.pending_sth).tree_size ≡ length (leaves ++ more)
        → Settles (settle (root_hash t) (record m { verified_tree = t }))
    unfolding settle update_state
    all_there-Settles size =
        let (u, rooted, good) = root_hash_refines h (leaves ++ more) t projected.tree in
        let same_root : (value_of m.state.pending_sth).sha256_root_hash
            ≡ merkle_root h (leaves ++ more) =
          sym (accepted.same (projected.size ∙ sym size)) ∙ projected.root in
        let same : bytes_eq (value_of m.state.pending_sth).sha256_root_hash
              (merkle_root h (leaves ++ more))
            ≡ true =
          subst (λ (r : Bytes). bytes_eq (value_of m.state.pending_sth).sha256_root_hash r ≡ true)
            same_root (bytes_eq_refl (value_of m.state.pending_sth).sha256_root_hash) in
        rw (rooted, same)
          (
            refl,
            record {
              new_leaves = more;
              more = [];
              holds = settled-Holds (merkle_root h (leaves ++ more)) u good size same_root;
              grows = later;
            },
          )
      where
        later : Grows (value_of m.state.verified_sth) (value_of m.state.pending_sth)
        later =
            let (larger, after) = holds.waiting pending is_pending in
            subst (λ (s : SthResponse). Grows (value_of m.state.verified_sth) s) (sym named)
              (inr (after, omega (arith, larger)))

    -- Where all entries are there, the pending tree head is the verified one afterwards.
    pub all_there-settled :
        (value_of m.state.pending_sth).tree_size ≡ length (leaves ++ more)
        → ((set_verified_tree m t).1.state.verified_sth ≡ some (value_of m.state.pending_sth))
          × ((set_verified_tree m t).1.state.pending_sth ≡ none)
    unfolding set_verified_tree maybe_settle settle update_state
    all_there-settled size =
        let (u, rooted, good) = root_hash_refines h (leaves ++ more) t projected.tree in
        let same_root : (value_of m.state.pending_sth).sha256_root_hash
            ≡ merkle_root h (leaves ++ more) =
          sym (accepted.same (projected.size ∙ sym size)) ∙ projected.root in
        let same : bytes_eq (value_of m.state.pending_sth).sha256_root_hash
              (merkle_root h (leaves ++ more))
            ≡ true =
          subst (λ (r : Bytes). bytes_eq (value_of m.state.pending_sth).sha256_root_hash r ≡ true)
            same_root (bytes_eq_refl (value_of m.state.pending_sth).sha256_root_hash) in
        rw
          (
            le→ltb (value_of m.state.pending_sth).tree_size t.tree_size
                (omega (arith, projected.size, projected.tree.size, accepted.in_time.larger)),
            (==_iff (value_of m.state.pending_sth).tree_size t.tree_size).1
                (size ∙ sym projected.tree.size),
            rooted,
            same,
          )
          (refl, refl)

    pub set_verified_tree-Settles : Settles (set_verified_tree m t)
    unfolding set_verified_tree maybe_settle update_state
    set_verified_tree-Settles =
        elim (Bool-cases ((value_of m.state.pending_sth).tree_size == t.tree_size)) [
          | inl all_there ↦
              rw (not_larger, all_there)
                (all_there-Settles (
                  (==_iff (value_of m.state.pending_sth).tree_size t.tree_size).0 all_there
                  ∙ projected.tree.size))
          | inr missing ↦
              rw (not_larger, missing)
                (
                  refl,
                  record { new_leaves = more; more = []; holds = advanced-Holds; grows = inl refl },
                )
        ]
      where
        not_larger : ltb (value_of m.state.pending_sth).tree_size t.tree_size ≡ false
        not_larger =
            le→ltb (value_of m.state.pending_sth).tree_size t.tree_size
              (omega (arith, projected.size, projected.tree.size, accepted.in_time.larger))
