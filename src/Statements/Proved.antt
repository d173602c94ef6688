-- ===== src/Statements/Proved.antt =====
-- verify_sth_consistency of python/ct/crypto/verify.py as a proof about the leaves of a log: what it
-- accepts is true of them, and what python/ct/crypto/in_memory_merkle_tree.py serves is accepted.
use sky_zadro_docs.Common.{
  ℕ, ◌≤◌, ◌<◌, ◌==◌, le→ltb, lt→ltb, ne→==, List, length, take, some, Bool, true, Bool-cases,
  ==_iff, ◌≡◌, refl, sym, ◌∙◌, arith, ◌⊎◌, inl, inr,
}
use sky_zadro_docs.Common.Int.{pos}
use sky_zadro_docs.Errors.{
  Result, ok, ◌>>=◌, bind-returned, ok_injective, returns_true_or_raises,
  returns_true_or_raises-eq-ok,
}
use sky_zadro_docs.Merkle.Hasher.{Bytes, TreeHasher}
use sky_zadro_docs.Merkle.Tree.{merkle_root}
use sky_zadro_docs.Merkle.Collision.{Collision, HasSize, Sized}
use sky_zadro_docs.Merkle.Verifier.{verify_tree_consistency}
use sky_zadro_docs.Merkle.Consistency.Verdict.{verify_tree_consistency_sound}
use sky_zadro_docs.InMemory.{InMemoryMerkleTree, get_root_hash, get_consistency_proof}
use sky_zadro_docs.InMemory.Log.{MathLog, ExactUpTo}
use sky_zadro_docs.InMemory.Served.{get_root_hash_lem}
use sky_zadro_docs.InMemory.Monitored.{served_proof}
use sky_zadro_docs.Statements.{SthResponse, verify_sth_temporal_consistency, verify_sth_consistency}
use sky_zadro_docs.Statements.Accepted.{InTime, verify_sth_consistency-Accepts}
use mathlib.Core.Path.{subst}

-- Later and not smaller, or of the same time and size.
abbrev pub Succeeds : SthResponse → SthResponse → Type 0
Succeeds old_sth new_sth =
    ((old_sth.timestamp < new_sth.timestamp) × (old_sth.tree_size ≤ new_sth.tree_size))
    ⊎ ((old_sth.timestamp ≡ new_sth.timestamp) × (old_sth.tree_size ≡ new_sth.tree_size))

succeeds_lem : (old_sth new_sth : SthResponse) → InTime old_sth new_sth → Succeeds old_sth new_sth
succeeds_lem old_sth new_sth t = elim (Bool-cases (old_sth.timestamp == new_sth.timestamp)) [
  | inl at_once ↦
      let e = (==_iff old_sth.timestamp new_sth.timestamp).0 at_once in inr (e, t.at_once e)
  | inr apart ↦ inl (ground (arith, t.later, apart), t.larger)
]

-- The check of the proof returned.
pub proved_lem :
    (h : TreeHasher) (old_sth new_sth : SthResponse) (proof : List Bytes) {b : Bool}
    → verify_sth_consistency h old_sth new_sth proof ≡ ok b
    → (b' : Bool) × (verify_tree_consistency h
          (pos old_sth.tree_size)
          (pos new_sth.tree_size)
          old_sth.sha256_root_hash
          new_sth.sha256_root_hash
          proof
        ≡ ok b')
unfolding verify_sth_consistency
proved_lem h old_sth new_sth proof e =
    let tree : Result Bool =
      verify_tree_consistency h (pos old_sth.tree_size) (pos new_sth.tree_size)
        old_sth.sha256_root_hash new_sth.sha256_root_hash proof in
    let (a, timed, rest) =
      bind-returned (λ in_time. tree >>= λ consistent. ok true)
        (verify_sth_temporal_consistency old_sth new_sth) (returns_true_or_raises-eq-ok _ e) in
    let (b', proved, done) = bind-returned (λ consistent. ok true) tree rest in (b', proved)

-- For hashes of one size, a newer tree head of the size and Merkle tree hash of a list of leaves, and
-- an older one of at least one leaf and a root of the hash's size: if verify_sth_consistency accepts
-- them, with any hashes of that size for a proof, then the newer one is later and not smaller, or both
-- have one timestamp and one size; and the older root is the Merkle tree hash of the first leaves,
-- as many as the older tree head tells, or a collision of the hash function is at hand.
pub verify_sth_consistency_sound :
    (h : TreeHasher) (size : ℕ) (sized : HasSize h size) (leaves : List Bytes)
    (old_sth new_sth : SthResponse) (proof : List Bytes) (b : Bool)
    → new_sth.tree_size ≡ length leaves
    → new_sth.sha256_root_hash ≡ merkle_root h leaves
    → length old_sth.sha256_root_hash ≡ size
    → Sized h size sized proof
    → 0 < old_sth.tree_size
    → verify_sth_consistency h old_sth new_sth proof ≡ ok b
    → Succeeds old_sth new_sth
      × ((old_sth.sha256_root_hash ≡ merkle_root h (take old_sth.tree_size leaves)) ⊎ Collision h)
verify_sth_consistency_sound h size sized leaves old_sth new_sth proof b n root p z some_leaf e =
    let a = verify_sth_consistency-Accepts h old_sth new_sth proof e in
    let (b', proved) = proved_lem h old_sth new_sth proof e in
    let (larger, older) =
      verify_tree_consistency_sound h size sized leaves old_sth.tree_size old_sth.sha256_root_hash
        proof b' p z some_leaf
        (subst
          (λ (k : ℕ).
            verify_tree_consistency h (pos old_sth.tree_size) (pos k) old_sth.sha256_root_hash
              (merkle_root h leaves) proof
            ≡ ok b')
          n
          (subst
            (λ (r : Bytes).
              verify_tree_consistency h (pos old_sth.tree_size) (pos new_sth.tree_size)
                old_sth.sha256_root_hash r proof
              ≡ ok b')
            root proved)) in
    (succeeds_lem old_sth new_sth a.in_time, older)

in_time-accepted :
    (h : TreeHasher) (old_sth new_sth : SthResponse) (proof : List Bytes)
    → old_sth.timestamp < new_sth.timestamp
    → old_sth.tree_size ≤ new_sth.tree_size
    → verify_tree_consistency h
        (pos old_sth.tree_size)
        (pos new_sth.tree_size)
        old_sth.sha256_root_hash
        new_sth.sha256_root_hash
        proof
      ≡ ok true
    → verify_sth_consistency h old_sth new_sth proof ≡ ok true
unfolding verify_sth_consistency verify_sth_temporal_consistency returns_true_or_raises
in_time-accepted h old_sth new_sth proof later larger proved =
    rw
      (
        le→ltb new_sth.timestamp old_sth.timestamp (omega (arith, later)),
        ne→== old_sth.timestamp new_sth.timestamp (λ e. omega (arith, e, later)),
        lt→ltb old_sth.timestamp new_sth.timestamp later,
        le→ltb new_sth.tree_size old_sth.tree_size larger,
        proved,
      )
      refl

-- For every in-memory tree, a logarithm that is exact up to the newer size, and two tree heads with the
-- root hashes that the tree has at their sizes, the newer one later, not smaller, and up to the
-- tree's own size: the tree serves a consistency proof between the sizes, and verify_sth_consistency
-- accepts the tree heads with it.
pub served_heads_accepted :
    (m : MathLog) (t : InMemoryMerkleTree) (old_sth new_sth : SthResponse)
    → get_root_hash t (some old_sth.tree_size) ≡ ok old_sth.sha256_root_hash
    → get_root_hash t (some new_sth.tree_size) ≡ ok new_sth.sha256_root_hash
    → old_sth.timestamp < new_sth.timestamp
    → old_sth.tree_size ≤ new_sth.tree_size
    → new_sth.tree_size ≤ length t.leaves
    → ExactUpTo m new_sth.tree_size
    → (proof : List Bytes) × (get_consistency_proof m t old_sth.tree_size (some new_sth.tree_size)
        ≡ ok proof)
      × (verify_sth_consistency t.hasher old_sth new_sth proof ≡ ok true)
served_heads_accepted m t old_sth new_sth old_root new_root later larger le exact =
    let (proof, made, proved) =
      served_proof m t old_sth.tree_size new_sth.tree_size larger le exact in
    (
      proof,
      made,
      in_time-accepted t.hasher old_sth new_sth proof later larger (
          (λ i.
            verify_tree_consistency t.hasher (pos old_sth.tree_size) (pos new_sth.tree_size)
              (old_same i) (new_same i) proof)
          ∙ proved),
    )
  where
    old_same : old_sth.sha256_root_hash ≡ merkle_root t.hasher (take old_sth.tree_size t.leaves)
    old_same =
        ok_injective
          (sym old_root ∙ get_root_hash_lem m t old_sth.tree_size (omega (arith, larger, le)))

    new_same : new_sth.sha256_root_hash ≡ merkle_root t.hasher (take new_sth.tree_size t.leaves)
    new_same = ok_injective (sym new_root ∙ get_root_hash_lem m t new_sth.tree_size le)
