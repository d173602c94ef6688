-- ===== src/Merkle/Inclusion/Verdict.antt =====
-- What verify_leaf_inclusion of python/ct/crypto/merkle.py answers.
use sky_zadro_docs.Common.{
  ℕ, zero, suc, ◌-◌, ◌/◌, ◌%◌, ◌≤◌, ◌<◌, leb, if◌then◌else◌, List, [], ◌∷◌, length, length-map,
  get_elem?, get_elem?-some, get_elem?-map, some, Bool, true, false, Bool-cases, leb→lt, lt→leb,
  le→leb, ◌≡◌, refl, sym, ap, ◌∙◌, arith, ◌⊎◌, inl, inr,
}
use sky_zadro_docs.Common.Int.{ℤ, pos, negsuc}
use sky_zadro_docs.Errors.{
  Result, ok, raise, bind-returned, raise≢ok, value_error, proof_error, returns_true_or_raises,
  returns_true_or_raises-eq-ok,
}
use sky_zadro_docs.Merkle.Hasher.{
  Bytes, bytes_eq, bytes_eq→eq, TreeHasher, hash_leaf, hash_children,
}
use sky_zadro_docs.Merkle.Full.{nodes}
use sky_zadro_docs.Merkle.Tree.{merkle_root}
use sky_zadro_docs.Merkle.Collision.{Collision, HasSize, Sized-leaves, length-hash_leaf, same_leaf}
use sky_zadro_docs.Merkle.Verifier.{
  TreeHead, audit_loop, calculate_root_hash_from_audit_path, check_leaf_at, verify_leaf_inclusion,
}
use sky_zadro_docs.Merkle.Rounds.{
  audit_loop_done, audit_loop_right, audit_loop_left, audit_loop_alone, audit_loop_short,
  audit_loop_long,
}
use sky_zadro_docs.Merkle.Inclusion.Sound.{audit_loop_sound}

module _ (h : TreeHasher) where
  check_leaf_at-eq-ok :
      (lh : Bytes) (i : ℕ) (proof : List Bytes) (n : ℕ) (root : Bytes)
      → check_leaf_at h lh i proof n root ≡ ok true
      → (i < n) × (calculate_root_hash_from_audit_path h lh i proof n ≡ ok root)
  unfolding check_leaf_at
  check_leaf_at-eq-ok lh i proof n root e = elim (Bool-cases (leb n i)) [
    | inl out ↦ absurd (raise≢ok (rw out at e))
    | inr inside ↦
        let (c, path, same) =
          bind-returned _ (calculate_root_hash_from_audit_path h lh i proof n) (rw inside at e) in
        (leb→lt n i inside, path ∙ ap ok (accepted c same))
  ]
    where
      accepted :
          (c : Bytes)
          → (if bytes_eq c root then ok true else raise proof_error) ≡ ok true
          → c ≡ root
      accepted c same = elim (Bool-cases (bytes_eq c root)) [
        | inl yes' ↦ bytes_eq→eq c root yes'
        | inr no' ↦ absurd (raise≢ok (rw no' at same))
      ]

  verify_leaf_inclusion-eq-ok :
      (leaf : Bytes) (i : ℕ) (proof : List Bytes) (n : ℕ) (root : Bytes) (b : Bool)
      → verify_leaf_inclusion h leaf
          (pos i)
          proof
          (record { tree_size = pos n; sha256_root_hash = root })
        ≡ ok b
      → (i < n) × (calculate_root_hash_from_audit_path h (hash_leaf h leaf) i proof n ≡ ok root)
  unfolding verify_leaf_inclusion
  verify_leaf_inclusion-eq-ok leaf i proof n root b e =
      check_leaf_at-eq-ok (hash_leaf h leaf) i proof n root
        (returns_true_or_raises-eq-ok _ (returns_true_or_raises-eq-ok _ e))

  -- The loop ends with a hash or a ProofError, whatever the path: `last_node` halves in each round.
  audit_loop_total :
      (f : ℕ) (c : Bytes) (i : ℕ) (path : List Bytes) (last : ℕ)
      → last < f
      → ((r : Bytes) × (audit_loop h f c i path last ≡ ok r))
        ⊎ (audit_loop h f c i path last ≡ raise proof_error)
  audit_loop_total zero c i path last p = absurd (omega arith)
  audit_loop_total (suc f) c i [] zero p = inl (c, audit_loop_done h f c i)
  audit_loop_total (suc f) c i [] (suc last) p =
      inr (audit_loop_short h f c i (suc last) (omega arith))
  audit_loop_total (suc f) c i (s ∷ path) zero p = inr (audit_loop_long h f c s i path)
  audit_loop_total (suc f) c i (s ∷ path) (suc last) p = elim (round i (suc last)) [
    | inl odd ↦
        rw (audit_loop_right h f c s i path (suc last) (omega arith) odd)
          (audit_loop_total f (hash_children h s c) (i / 2) path (suc last / 2) (omega arith))
    | inr (inl (even, lt)) ↦
        rw (audit_loop_left h f c s i path (suc last) even lt)
          (audit_loop_total f (hash_children h c s) (i / 2) path (suc last / 2) (omega arith))
    | inr (inr (even, le)) ↦
        rw (audit_loop_alone h f c s i path (suc last) (omega arith) even le)
          (audit_loop_total f c (i / 2) (s ∷ path) (suc last / 2) (omega arith))
  ]
    where
      round : (a b : ℕ) → (a % 2 ≡ 1) ⊎ ((a % 2 ≡ 0) × (a < b)) ⊎ ((a % 2 ≡ 0) × (b ≤ a))
      round a b = omega arith

  abbrev pub InRange : ℤ → ℤ → Type 0
  InRange (pos i) (pos n) = i < n
  InRange _ _ = ⊥

  check_in_range :
      (lh : Bytes) (i : ℕ) (proof : List Bytes) (n : ℕ) (root : Bytes)
      → i < n
      → (check_leaf_at h lh i proof n root ≡ ok true)
        ⊎ (check_leaf_at h lh i proof n root ≡ raise proof_error)
  unfolding check_leaf_at calculate_root_hash_from_audit_path
  check_in_range lh i proof n root p =
      elim (audit_loop_total (suc n) lh i proof (n - 1) (omega arith)) [
        | inl (c, path) ↦ rw (lt→leb n i p, path) (compared (bytes_eq c root))
        | inr failed ↦ rw (lt→leb n i p, failed) (inr refl)
      ]
    where
      compared :
          (t : Bool)
          → ((if t then ok true else raise proof_error) ≡ ok true)
            ⊎ ((if t then ok true else raise proof_error) ≡ raise proof_error)
      compared true = inl refl
      compared false = inr refl

abbrev Verdict : TreeHasher → Bytes → ℤ → List Bytes → TreeHead → Type 0
Verdict h leaf index proof sth =
    ((¬ InRange h index sth.tree_size)
      × (verify_leaf_inclusion h leaf index proof sth ≡ raise value_error))
    ⊎ (InRange h index sth.tree_size
        × ((verify_leaf_inclusion h leaf index proof sth ≡ ok true)
            ⊎ (verify_leaf_inclusion h leaf index proof sth ≡ raise proof_error)))

module _ (h : TreeHasher) (leaf : Bytes) (proof : List Bytes) (root : Bytes) where
  through_decorators :
      (r : Result Bool)
      → (r ≡ ok true) ⊎ (r ≡ raise proof_error)
      → (returns_true_or_raises (returns_true_or_raises r) ≡ ok true)
        ⊎ (returns_true_or_raises (returns_true_or_raises r) ≡ raise proof_error)
  unfolding returns_true_or_raises
  through_decorators r (inl e) = rw e (inl refl)
  through_decorators r (inr e) = rw e (inr refl)

  Verdict-at :
      (index size : ℤ)
      → Verdict h leaf index proof (record { tree_size = size; sha256_root_hash = root })
  unfolding verify_leaf_inclusion check_leaf_at
  Verdict-at (negsuc i) (pos n) = inl ((λ r. r), refl)
  Verdict-at (negsuc i) (negsuc n) = inl ((λ r. r), refl)
  Verdict-at (pos i) (negsuc n) = inl ((λ r. r), refl)
  Verdict-at (pos i) (pos n) = elim (side i n) [
    | inl lt ↦
        inr (lt, through_decorators _ (check_in_range h (hash_leaf h leaf) i proof n root lt))
    | inr le ↦ inl ((λ lt. omega arith), rw (le→leb n i le))
  ]
    where
      side : (a b : ℕ) → (a < b) ⊎ (b ≤ a)
      side a b = omega arith

-- Whatever the leaf, the index, the hashes and the tree head: verify_leaf_inclusion raises a
-- ValueError where the index or the size is negative or the index is not below the size, and
-- otherwise ends by returning True or raising a ProofError. It raises nothing else.
pub verify_leaf_inclusion_verdict :
    (h : TreeHasher) (leaf : Bytes) (index : ℤ) (proof : List Bytes) (sth : TreeHead)
    → ((¬ InRange h index sth.tree_size)
        × (verify_leaf_inclusion h leaf index proof sth ≡ raise value_error))
      ⊎ (InRange h index sth.tree_size
          × ((verify_leaf_inclusion h leaf index proof sth ≡ ok true)
              ⊎ (verify_leaf_inclusion h leaf index proof sth ≡ raise proof_error)))
verify_leaf_inclusion_verdict h leaf index proof sth =
    Verdict-at h leaf proof sth.sha256_root_hash index sth.tree_size

-- For hashes of one size, a list of leaves and its Merkle tree hash and size for the tree head: if
-- verify_leaf_inclusion accepts a leaf at an index, with any hashes for a proof, then that leaf
-- stands at that index, or a collision of the hash function is at hand.
pub verify_leaf_inclusion_sound :
    (h : TreeHasher) (size : ℕ) (sized : HasSize h size) (leaves : List Bytes) (leaf : Bytes)
    (i : ℕ) (proof : List Bytes) (b : Bool)
    → verify_leaf_inclusion h leaf
        (pos i)
        proof
        (record { tree_size = pos (length leaves); sha256_root_hash = merkle_root h leaves })
      ≡ ok b
    → (get_elem? leaves i ≡ some leaf) ⊎ Collision h
unfolding calculate_root_hash_from_audit_path merkle_root
verify_leaf_inclusion_sound h size sized leaves leaf i proof b e =
    let (lt, path) =
      verify_leaf_inclusion-eq-ok h leaf i proof (length leaves) (merkle_root h leaves) b e in
    let (d, at) = get_elem?-some leaves i lt in
    elim (audit_loop_sound h size sized (suc (length leaves)) (nodes h leaves) i (hash_leaf h leaf)
      (hash_leaf h d) proof (Sized-leaves h size sized leaves)
      (get_elem?-map (hash_leaf h) leaves i at) (length-hash_leaf h size sized leaf)
      (ap (λ (n : ℕ). audit_loop h (suc (length leaves)) (hash_leaf h leaf) i proof (n - 1))
          (length-map leaves (hash_leaf h))
        ∙ path)) [ inl same ↦ found d at (same_leaf h leaf d same) | inr collision ↦ inr collision ]
  where
    found :
        (d : Bytes)
        → get_elem? leaves i ≡ some d
        → (leaf ≡ d) ⊎ Collision h
        → (get_elem? leaves i ≡ some leaf) ⊎ Collision h
    found d at (inl e) = inl (at ∙ ap some (sym e))
    found d at (inr collision) = inr collision
