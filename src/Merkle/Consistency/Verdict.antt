-- ===== src/Merkle/Consistency/Verdict.antt =====
-- What verify_tree_consistency of python/ct/crypto/merkle.py accepts.
use sky_zadro_docs.Common.{
  ℕ, zero, suc, ◌-◌, ◌≤◌, ◌<◌, if◌then◌else◌, List, [], ◌∷◌, length, length-map, take, take_all,
  map-take, get_elem?, get_elem?-some, some, Bool, true, false, Bool-cases, le→ltb, lt→ltb, ne→==,
  ==_iff, ◌≡◌, refl, sym, ap, ◌∙◌, arith, ◌⊎◌, inl, inr,
}
use sky_zadro_docs.Common.Int.{pos}
use sky_zadro_docs.Errors.{
  Exception, Result, ok, raise, bind-returned, ok_injective, raise≢ok, consistency_error,
  stop_iteration, returns_true_or_raises-eq-ok,
}
use sky_zadro_docs.Levels.Older.{older, older_self}
use sky_zadro_docs.Merkle.Hasher.{
  Bytes, bytes_eq, bytes_eq→eq, TreeHasher, hash_leaf, hash_children,
}
use sky_zadro_docs.Merkle.Full.{nodes, node_root}
use sky_zadro_docs.Merkle.Tree.{merkle_root}
use sky_zadro_docs.Merkle.Collision.{Collision, HasSize, Sized, Sized-leaves}
use sky_zadro_docs.Merkle.Verifier.{
  Hashes, hashes, climb_right, next, both_loop, new_loop, first_hashes, compare_roots, too_short,
  verify_path, check_tree_consistency, verify_tree_consistency,
}
use sky_zadro_docs.Merkle.Consistency.Climb.{Climbed, climb_right_lem}
use sky_zadro_docs.Merkle.Consistency.Sound.{BothSound, new_loop_sound}
use sky_zadro_docs.Merkle.Consistency.Walk.{both_loop_sound}

if_true-eq-ok : (t : Bool) (x : Exception) → (if t then ok true else raise x) ≡ ok true → t ≡ true
if_true-eq-ok true x e = refl
if_true-eq-ok false x e = cc

compare_roots-eq-ok :
    (old_root new_root : Bytes) (s : Hashes)
    → compare_roots old_root new_root s ≡ ok true
    → (s.new_hash ≡ new_root) × (s.old_hash ≡ old_root)
unfolding compare_roots
compare_roots-eq-ok old_root new_root s e = elim (Bool-cases (bytes_eq s.new_hash new_root)) [
  | inl same ↦ (
    bytes_eq→eq s.new_hash new_root same,
    bytes_eq→eq s.old_hash old_root (if_true-eq-ok _ consistency_error (rw same at e)),
  )
  | inr differ ↦ absurd (raise≢ok (rw differ at e))
]

too_short-eq-ok : (r : Result Bool) → too_short r ≡ ok true → r ≡ ok true
too_short-eq-ok (ok b) e = e
too_short-eq-ok (raise stop_iteration) e = cc
too_short-eq-ok (raise x) e = cc

module _ (h : TreeHasher) (size : ℕ) (sized : HasSize h size) where
  -- The two hashes with which the loops begin are one.
  first_hashes-eq-ok :
      (node : ℕ) (old_root : Bytes) (proof : List Bytes) (s : Hashes)
      → length old_root ≡ size
      → Sized h size sized proof
      → first_hashes node old_root proof ≡ ok s
      → (c : Bytes) × (rest : List Bytes) × (s ≡ hashes c c rest) × (length c ≡ size)
  unfolding first_hashes next
  first_hashes-eq-ok zero old_root proof s p z e = (old_root, proof, sym (ok_injective e), p)
  first_hashes-eq-ok (suc node) old_root [] s p z e =
      absurd (raise≢ok (rw (ne→== (suc node) 0 (omega arith)) at e))
  first_hashes-eq-ok (suc node) old_root (c ∷ rest) s p z e =
      (c, rest, sym (ok_injective (rw (ne→== (suc node) 0 (omega arith)) at e)), z.0)

  -- The three loops, from the node at which the first one ends.
  walk_sound :
      (f : ℕ) (ns : List Bytes) (node : ℕ) (c : Bytes) (rest : List Bytes) (l : ℕ) (s t : Hashes)
      → Sized h size sized ns
      → node < length ns
      → length c ≡ size
      → both_loop h f node (length ns - 1) (hashes c c rest) ≡ ok (l, s)
      → new_loop h f l s ≡ ok t
      → t.new_hash ≡ node_root h ns
      → (t.old_hash ≡ node_root h (take (suc node) ns)) ⊎ Collision h
  walk_sound f ns node c rest l s t z lt p both new w =
      let (a, at) = get_elem?-some ns node lt in
      let d : BothSound h size sized ns node c c a l s =
        both_loop_sound h size sized f ns node c c a rest l s z at p both in
      let (kept, verdict) =
        new_loop_sound h size sized f d.level s.old_hash s.new_hash d.end s.rest t d.sizes d.at_zero
          d.new_size (ap (λ (k : ℕ). new_loop h f k s) (sym d.last) ∙ new) (w ∙ sym d.same_root) in
      finish a at kept (d.verdict verdict)
    where
      finish :
          (a : Bytes)
          → get_elem? ns node ≡ some a
          → t.old_hash ≡ s.old_hash
          → ((c ≡ a) × (s.old_hash ≡ node_root h (older (hash_children h) ns node c))) ⊎ Collision h
          → (t.old_hash ≡ node_root h (take (suc node) ns)) ⊎ Collision h
      finish a at kept (inl (same, root)) = inl (
          kept
          ∙ root
          ∙ ap (λ (x : Bytes). node_root h (older (hash_children h) ns node x)) same
          ∙ ap (node_root h) (older_self (hash_children h) ns node at))
      finish a at kept (inr collision) = inr collision

  -- From the older tree's last leaf to the two roots.
  verify_path_sound :
      (leaves : List Bytes) (m : ℕ) (old_root : Bytes) (proof : List Bytes)
      → length old_root ≡ size
      → Sized h size sized proof
      → 0 < m
      → m < length leaves
      → verify_path h m (length leaves) old_root (merkle_root h leaves) proof ≡ ok true
      → (old_root ≡ merkle_root h (take m leaves)) ⊎ Collision h
  unfolding verify_path merkle_root
  verify_path_sound leaves m old_root proof p z old_pos lt e =
      let n : ℕ = length leaves in
      let climbed : Climbed h (nodes h leaves) (m - 1)
          (climb_right (suc n) (m - 1) (length (nodes h leaves) - 1)) =
        climb_right_lem h (suc n) (nodes h leaves) (m - 1) (omega arith)
          (omega (arith, length-map leaves (hash_leaf h))) in
      let start : climb_right (suc n) (m - 1) (n - 1) ≡ ok (climbed.at, length climbed.level - 1) =
        ap (λ (k : ℕ). climb_right (suc n) (m - 1) (k - 1)) (sym (length-map leaves (hash_leaf h)))
        ∙ climbed.result in
      let (s, first, e1) =
        bind-returned _ (first_hashes climbed.at old_root proof)
          (too_short-eq-ok _ (rw start at e)) in
      let (at, both, e2) =
        bind-returned _ (both_loop h (suc n) climbed.at (length climbed.level - 1) s) e1 in
      let (u, new, e3) = bind-returned _ (new_loop h (suc n) at.0 at.1) e2 in
      let (new_right, old_right) =
        compare_roots-eq-ok old_root (node_root h (nodes h leaves)) u e3 in
      let (c, rest, same, c_size) = first_hashes-eq-ok climbed.at old_root proof s p z first in
      older_root climbed u old_right (
        walk_sound (suc n) climbed.level climbed.at c rest at.0 at.1 u
          (climbed.sizes size sized (Sized-leaves h size sized leaves)) climbed.inside c_size
          (ap (both_loop h (suc n) climbed.at (length climbed.level - 1)) (sym same) ∙ both) new
          (new_right ∙ sym climbed.same_root))
    where
      suc_pred : suc (m - 1) ≡ m
      suc_pred = omega arith

      prefix : take (suc (m - 1)) (nodes h leaves) ≡ nodes h (take m leaves)
      prefix =
          ap (λ (k : ℕ). take k (nodes h leaves)) suc_pred ∙ sym (map-take (hash_leaf h) m leaves)

      older_root :
          {r : Result (ℕ × ℕ)}
          → (c : Climbed h (nodes h leaves) (m - 1) r) → (u : Hashes) → u.old_hash ≡ old_root
          → (u.old_hash ≡ node_root h (take (suc c.at) c.level)) ⊎ Collision h
          → (old_root ≡ node_root h (nodes h (take m leaves))) ⊎ Collision h
      older_root c u e (inl root) = inl (sym e ∙ root ∙ c.same_old ∙ ap (node_root h) prefix)
      older_root c u e (inr collision) = inr collision

  by_size_sound :
      (leaves : List Bytes) (m : ℕ) (old_root : Bytes) (proof : List Bytes)
      → length old_root ≡ size
      → Sized h size sized proof
      → 0 < m
      → check_tree_consistency h (pos m) (pos (length leaves)) old_root (merkle_root h leaves) proof
        ≡ ok true
      → (m ≤ length leaves) × ((old_root ≡ merkle_root h (take m leaves)) ⊎ Collision h)
  unfolding check_tree_consistency
  by_size_sound leaves m old_root proof p z old_pos e = elim (order m (length leaves)) [
    | inl lt ↦ (
      omega arith,
      verify_path_sound leaves m old_root proof p z old_pos lt (
          rw
            (
              le→ltb (length leaves) m (omega arith),
              ne→== m (length leaves) (omega arith),
              ne→== m 0 (omega arith),
            )
            at e),
    )
    | inr (inl same) ↦ (
      omega arith,
      inl (
          bytes_eq→eq old_root (merkle_root h leaves) (
            if_true-eq-ok _ consistency_error
              (rw (le→ltb (length leaves) m (omega arith), (==_iff m (length leaves)).1 same) at e))
          ∙ ap (merkle_root h) (sym (take_all m leaves (omega arith)))),
    )
    | inr (inr gt) ↦ absurd (raise≢ok (rw (lt→ltb (length leaves) m gt) at e))
  ]
    where
      order : (a b : ℕ) → (a < b) ⊎ (a ≡ b) ⊎ (b < a)
      order a b = omega arith

-- For hashes of one size, a list of leaves and its Merkle tree hash and size for the newer tree, and
-- an older tree of at least one leaf: if verify_tree_consistency accepts an older root of the hash's
-- size, with any hashes of that size for a proof, then the older tree has at most as many leaves,
-- and its root is the Merkle tree hash of the first leaves, as many as it has, or a collision of the
-- hash function is at hand.
pub verify_tree_consistency_sound :
    (h : TreeHasher) (size : ℕ) (sized : HasSize h size) (leaves : List Bytes) (m : ℕ)
    (old_root : Bytes) (proof : List Bytes) (b : Bool)
    → length old_root ≡ size
    → Sized h size sized proof
    → 0 < m
    → verify_tree_consistency h (pos m) (pos (length leaves)) old_root (merkle_root h leaves) proof
      ≡ ok b
    → (m ≤ length leaves) × ((old_root ≡ merkle_root h (take m leaves)) ⊎ Collision h)
unfolding verify_tree_consistency
verify_tree_consistency_sound h size sized leaves m old_root proof b p z old_pos e =
    by_size_sound h size sized leaves m old_root proof p z old_pos
      (returns_true_or_raises-eq-ok _ e)
