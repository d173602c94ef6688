-- ===== src/Monitor/Views.antt =====
-- python/ct/client/monitor.py takes up no tree head of a log that has changed what was verified before.
use sky_zadro_docs.Common.{
  ℕ, zero, suc, ◌≤◌, ◌<◌, ltb, Bool, true, false, Bool-cases, List, length, length-take, take,
  Option, none, some, ◌≡◌, refl, sym, ap, ◌∙◌, arith, ◌⊎◌, inl, inr,
}
use sky_zadro_docs.Errors.{
  Result, ok, raise, ok_injective, returns_true_or_raises, returns_true_or_raises-eq-ok,
}
use sky_zadro_docs.Merkle.Hasher.{Bytes, TreeHasher}
use sky_zadro_docs.Merkle.Tree.{merkle_root}
use sky_zadro_docs.Merkle.Leaves.{merkle_root_injective, length-merkle_root}
use sky_zadro_docs.Merkle.Collision.{Collision, HasSize, Sized}
use sky_zadro_docs.Statements.{SthResponse, SigVerifier, verify_sth, verify_sth_consistency}
use sky_zadro_docs.Statements.Accepted.{verify_sth_consistency-Accepts}
use sky_zadro_docs.Statements.Proved.{verify_sth_consistency_sound}
use sky_zadro_docs.Monitor.{
  Monitor, Answers, Run, value_of, store, unverified, store_verdict, verify_consistency_callback,
  verify_consistency, accept_consistent, accept_verified, accept_sth, compare_sth,
  update_sth_callback, update_sth, false_if_failed, received, unless_pending, sth_eq,
}
use sky_zadro_docs.Monitor.Tracking.{Core, core, Holds, Checked, verify_consistency-Checked}
use mathlib.Core.Path.{subst}

module _ (h : TreeHasher) (sig : SigVerifier) (log : Answers) where
  -- The verified and the pending tree head are what they were.
  abbrev pub Unmoved : Monitor → Run Bool → Type 0
  Unmoved m r =
      (r.1.state.verified_sth ≡ m.state.verified_sth)
      × (r.1.state.pending_sth ≡ m.state.pending_sth)

  callback_proof :
      (m : Monitor) (answer : Result (List Bytes)) (old_sth new_sth : SthResponse)
      → (verify_consistency_callback h sig log m answer old_sth new_sth).0 ≡ ok tt
      → (proof : List Bytes) × (b : Bool) × (answer ≡ ok proof)
        × (verify_sth_consistency h old_sth new_sth proof ≡ ok b)
  unfolding verify_consistency_callback
  callback_proof m (raise e) old_sth new_sth returned = cc
  callback_proof m (ok proof) old_sth new_sth returned =
      accepted (verify_sth_consistency h old_sth new_sth proof) refl returned
    where
      accepted :
          (r : Result Bool)
          → verify_sth_consistency h old_sth new_sth proof ≡ r
          → (store_verdict h sig log (store m new_sth unverified) new_sth r).0 ≡ ok tt
          → (proof' : List Bytes) × (b : Bool) × (ok proof ≡ ok proof')
            × (verify_sth_consistency h old_sth new_sth proof' ≡ ok b)
      accepted (ok b) e t = (proof, b, refl, e)
      accepted (raise x) e t = cc

  -- What a consistency check that returned was convinced by.
  pub consistency_proof :
      (m : Monitor) (old_sth new_sth : SthResponse)
      → (verify_consistency h sig log m old_sth new_sth).0 ≡ ok tt
      → (proof : List Bytes) × (b : Bool) × (log.consistency old_sth.tree_size new_sth.tree_size
          ≡ ok proof)
        × (verify_sth_consistency h old_sth new_sth proof ≡ ok b)
  unfolding verify_consistency
  consistency_proof m old_sth new_sth returned =
      callback_proof m (log.consistency old_sth.tree_size new_sth.tree_size) old_sth new_sth
        returned

  verify_sth-true :
      (sth : SthResponse) (b : Bool) → verify_sth sig sth ≡ ok b → verify_sth sig sth ≡ ok true
  unfolding verify_sth
  verify_sth-true sth b e = ap returns_true_or_raises (returns_true_or_raises-eq-ok _ e)

  module _ (m : Monitor) (sth : SthResponse) (Extends : Type 0)
      (convinced : (proof : List Bytes) (b : Bool)
        → log.consistency (value_of m.state.verified_sth).tree_size sth.tree_size ≡ ok proof
        → verify_sth_consistency h (value_of m.state.verified_sth) sth proof ≡ ok b
        → Extends) where
    -- Nothing moved, or the tree head is signed and a proof was convincing.
    abbrev Moves : Run Bool → Type 0
    Moves r = Unmoved m r ⊎ ((verify_sth sig sth ≡ ok true) × Extends)

    same_core : (r : Run Bool) → core r.1 ≡ core m → Unmoved m r
    same_core r same =
        (ap (λ (c : Core). c.state.verified_sth) same, ap (λ (c : Core). c.state.pending_sth) same)

    consistent-Moves :
        (r : Run (Unit {0}))
        → verify_sth sig sth ≡ ok true
        → verify_consistency h sig log m (value_of m.state.verified_sth) sth ≡ r
        → Checked h sig log m (value_of m.state.verified_sth) sth r
        → Moves (accept_consistent h sig log r sth)
    unfolding accept_consistent
    consistent-Moves r signed e (inl (x, m', raised, same)) =
        rw raised (inl (same_core (raise x, m') same))
    consistent-Moves r signed e (inr (m', returned, same, accepted)) =
        let (proof, b, answer, proved) =
          consistency_proof m (value_of m.state.verified_sth) sth
            (ap (λ (q : Run (Unit {0})). q.0) (e ∙ returned)) in
        inr (signed, convinced proof b answer proved)

    verified-Moves :
        (r : Result Bool) → verify_sth sig sth ≡ r → Moves (accept_verified h sig log r m sth)
    unfolding accept_verified
    verified-Moves (raise x) e = inl (refl, refl)
    verified-Moves (ok b) e =
        consistent-Moves (verify_consistency h sig log m (value_of m.state.verified_sth) sth)
          (verify_sth-true sth b e) refl
          (verify_consistency-Checked h sig log m (value_of m.state.verified_sth) sth)

    older-Moves :
        (current : SthResponse) (r : Run (Unit {0}))
        → Checked h sig log m sth current r
        → Moves (ok false, r.1)
    older-Moves current r (inl (x, m', raised, same)) =
        rw raised (inl (same_core (ok false, m') same))
    older-Moves current r (inr (m', returned, same, accepted)) =
        rw returned (inl (same_core (ok false, m') same))

    compare-Moves : (current : Option SthResponse) → Moves (compare_sth h sig log current m sth)
    unfolding compare_sth accept_sth
    compare-Moves none = verified-Moves _ refl
    compare-Moves (some current) = elim (Bool-cases (sth_eq h sig log sth current)) [
      | inl same ↦ rw same (inl (refl, refl))
      | inr other ↦ elim (Bool-cases (ltb sth.timestamp current.timestamp)) [
        | inl older ↦
            rw (other, older)
              (older-Moves current _ (verify_consistency-Checked h sig log m sth current))
        | inr newer ↦ rw (other, newer) (verified-Moves _ refl)
      ]
    ]

    failed-Moves : (r : Run Bool) → Moves r → Moves (false_if_failed h sig log r)
    failed-Moves (ok b, m') moves = moves
    failed-Moves (raise x, m') moves = moves

    received-Moves :
        (answer : Result SthResponse) → answer ≡ ok sth → Moves (received h sig log answer m)
    unfolding update_sth_callback
    received-Moves (raise x) e = inl (refl, refl)
    received-Moves (ok other) e =
        subst
          (λ (s : SthResponse).
            Moves (false_if_failed h sig log (update_sth_callback h sig log m s)))
          (sym (ok_injective e))
          (failed-Moves (update_sth_callback h sig log m sth) (compare-Moves m.state.verified_sth))

    unless_pending-Moves :
        (pending : Option SthResponse)
        → Moves (received h sig log log.sth m)
        → Moves (unless_pending h sig log pending (received h sig log log.sth m) m)
    unless_pending-Moves none moves = moves
    unless_pending-Moves (some p) moves = inl (refl, refl)

    pub update_sth-Moves : log.sth ≡ ok sth → Moves (update_sth h sig log m)
    unfolding update_sth
    update_sth-Moves answer =
        unless_pending-Moves m.state.pending_sth (received-Moves log.sth answer)

  module _ (sized : HasSize h 32)
      (proofs_sized : (old_size new_size : ℕ) (proof : List Bytes)
        → log.consistency old_size new_size ≡ ok proof
        → Sized h 32 sized proof)
      (leaves seen : List Bytes) where
    abbrev pub Extends : ℕ → Type 0
    Extends n = (take n leaves ≡ take n seen) ⊎ Collision h

    same_first :
        (n : ℕ) (root : Bytes)
        → n ≤ length leaves
        → n ≤ length seen
        → root ≡ merkle_root h (take n leaves)
        → (root ≡ merkle_root h (take n seen)) ⊎ Collision h
        → Extends n
    same_first n root p q e (inl e') =
        merkle_root_injective h 32 sized (take n leaves) (take n seen)
          (omega (arith, length-take n leaves, length-take n seen)) (sym e ∙ e')
    same_first n root p q e (inr collision) = inr collision

    no_leaf : (n : ℕ) → n ≡ 0 → Extends n
    no_leaf zero e = inl refl
    no_leaf (suc n) e = absurd (omega arith)

    convinced_lem :
        (verified_sth : Option SthResponse) (sth : SthResponse) (proof : List Bytes) (b : Bool)
        → (value_of verified_sth).tree_size ≤ length leaves
        → ((v : SthResponse)
            → verified_sth ≡ some v
            → v.sha256_root_hash ≡ merkle_root h (take v.tree_size leaves))
        → sth.tree_size ≡ length seen
        → sth.sha256_root_hash ≡ merkle_root h seen
        → Sized h 32 sized proof
        → verify_sth_consistency h (value_of verified_sth) sth proof ≡ ok b
        → Extends (value_of verified_sth).tree_size
    convinced_lem none sth proof b enough rooted size root z proved = inl refl
    convinced_lem (some v) sth proof b enough rooted size root z proved =
        let a = verify_sth_consistency-Accepts h v sth proof proved in
        elim (empty_or_not v.tree_size) [
          | inl empty ↦ no_leaf v.tree_size empty
          | inr some_leaf ↦
              same_first v.tree_size v.sha256_root_hash enough
                (omega (arith, a.in_time.larger, size)) (rooted v refl)
                (verify_sth_consistency_sound h 32 sized seen v sth proof b size root
                  (ap length (rooted v refl)
                    ∙ length-merkle_root h 32 sized (take v.tree_size leaves))
                  z some_leaf proved).1
        ]
      where
        empty_or_not : (n : ℕ) → (n ≡ 0) ⊎ (0 < n)
        empty_or_not n = omega arith

    -- For hashes of 32 bytes and a log that sends such hashes in its consistency proofs: let a monitor
    -- hold some verified leaves, and let the log answer with a tree head of the size and Merkle tree
    -- hash of the leaves `seen`. Then update_sth leaves the verified and the pending tree head as they
    -- are, or the tree head's signature verified and `seen` begins with the leaves of the verified
    -- tree head, just as the monitor holds them, or a collision of the hash function is at hand.
    pub no_other_view :
        (m : Monitor) (more : List Bytes) (sth : SthResponse)
        → Holds h leaves more (core m)
        → log.sth ≡ ok sth
        → sth.tree_size ≡ length seen
        → sth.sha256_root_hash ≡ merkle_root h seen
        → Unmoved m (update_sth h sig log m)
          ⊎ ((verify_sth sig sth ≡ ok true) × Extends (value_of m.state.verified_sth).tree_size)
    no_other_view m more sth holds answer size root =
        update_sth-Moves m sth (Extends (value_of m.state.verified_sth).tree_size)
          (λ proof b sent proved.
            convinced_lem m.state.verified_sth sth proof b holds.enough holds.rooted size root
              (proofs_sized (value_of m.state.verified_sth).tree_size sth.tree_size proof sent)
              proved)
          answer
