-- ===== src/Merkle/Rounds.antt =====
-- The loops of MerkleVerifier in python/ct/crypto/merkle.py, a round at a time.
use sky_zadro_docs.Common.{
  ℕ, zero, suc, ◌/◌, ◌%◌, ◌≤◌, ◌<◌, List, [], ◌∷◌, ◌≡◌, refl, arith, ==_iff, ne→==, lt→ltb, le→ltb,
  ◌⊎◌, inl, inr,
}
use sky_zadro_docs.Errors.{ok, raise, proof_error, out_of_fuel, stop_iteration}
use sky_zadro_docs.Merkle.Hasher.{Bytes, TreeHasher, hash_children}
use sky_zadro_docs.Merkle.Verifier.{
  audit_loop, climb_right, next, Hashes, both_loop, new_loop, hashes,
}

module _ (h : TreeHasher) (f : ℕ) where
  pub audit_loop_done : (c : Bytes) (i : ℕ) → audit_loop h (suc f) c i [] 0 ≡ ok c
  unfolding audit_loop
  audit_loop_done c i = refl

  pub audit_loop_right :
      (c s : Bytes) (i : ℕ) (rest : List Bytes) (last : ℕ)
      → 0 < last
      → i % 2 ≡ 1
      → audit_loop h (suc f) c i (s ∷ rest) last
        ≡ audit_loop h f (hash_children h s c) (i / 2) rest (last / 2)
  unfolding audit_loop
  audit_loop_right c s i rest last p odd = rw (ne→== last 0 (omega arith), (==_iff (i % 2) 1).1 odd)

  pub audit_loop_left :
      (c s : Bytes) (i : ℕ) (rest : List Bytes) (last : ℕ)
      → i % 2 ≡ 0
      → i < last
      → audit_loop h (suc f) c i (s ∷ rest) last
        ≡ audit_loop h f (hash_children h c s) (i / 2) rest (last / 2)
  unfolding audit_loop
  audit_loop_left c s i rest last even p =
      rw (ne→== last 0 (omega arith), ne→== (i % 2) 1 (omega arith), lt→ltb i last p)

  pub audit_loop_alone :
      (c s : Bytes) (i : ℕ) (rest : List Bytes) (last : ℕ)
      → 0 < last
      → i % 2 ≡ 0
      → last ≤ i
      → audit_loop h (suc f) c i (s ∷ rest) last ≡ audit_loop h f c (i / 2) (s ∷ rest) (last / 2)
  unfolding audit_loop
  audit_loop_alone c s i rest last q even p =
      rw (ne→== last 0 (omega arith), ne→== (i % 2) 1 (omega arith), le→ltb i last p)

  -- A path that ends too early, and one that goes on above the root.
  pub audit_loop_short :
      (c : Bytes) (i last : ℕ) → 0 < last → audit_loop h (suc f) c i [] last ≡ raise proof_error
  unfolding audit_loop
  audit_loop_short c i last p = rw (ne→== last 0 (omega arith))

  pub audit_loop_long :
      (c s : Bytes) (i : ℕ) (rest : List Bytes)
      → audit_loop h (suc f) c i (s ∷ rest) 0 ≡ raise proof_error
  unfolding audit_loop
  audit_loop_long c s i rest = refl

pub audit_loop_unfuelled :
    (h : TreeHasher) (c : Bytes) (i : ℕ) (path : List Bytes) (last : ℕ)
    → audit_loop h zero c i path last ≡ raise out_of_fuel
unfolding audit_loop
audit_loop_unfuelled h c i path last = refl

module _ (f : ℕ) where
  pub climb_right_even :
      (node last : ℕ) → node % 2 ≡ 0 → climb_right (suc f) node last ≡ ok (node, last)
  unfolding climb_right
  climb_right_even node last even = rw (ne→== (node % 2) 1 (omega arith))

  pub climb_right_odd :
      (node last : ℕ)
      → node % 2 ≡ 1
      → climb_right (suc f) node last ≡ climb_right f (node / 2) (last / 2)
  unfolding climb_right
  climb_right_odd node last odd = rw ((==_iff (node % 2) 1).1 odd)

module _ (h : TreeHasher) (f : ℕ) (old new : Bytes) where
  pub both_loop_done :
      (last : ℕ) (rest : List Bytes)
      → both_loop h (suc f) 0 last (hashes old new rest) ≡ ok (last, hashes old new rest)
  unfolding both_loop
  both_loop_done last rest = refl

  pub both_loop_right :
      (node last : ℕ) (s : Bytes) (rest : List Bytes)
      → node % 2 ≡ 1
      → both_loop h (suc f) node last (hashes old new (s ∷ rest))
        ≡ both_loop h f
            (node / 2)
            (last / 2)
            (hashes (hash_children h s old) (hash_children h s new) rest)
  unfolding both_loop next
  both_loop_right node last s rest odd =
      rw (ne→== node 0 (omega arith), (==_iff (node % 2) 1).1 odd)

  pub both_loop_left :
      (node last : ℕ) (s : Bytes) (rest : List Bytes)
      → 0 < node
      → node % 2 ≡ 0
      → node < last
      → both_loop h (suc f) node last (hashes old new (s ∷ rest))
        ≡ both_loop h f (node / 2) (last / 2) (hashes old (hash_children h new s) rest)
  unfolding both_loop next
  both_loop_left node last s rest p even lt =
      rw (ne→== node 0 (omega arith), ne→== (node % 2) 1 (omega arith), lt→ltb node last lt)

  -- No hash is left for a node that needs one.
  pub both_loop_short :
      (node last : ℕ)
      → (node % 2 ≡ 1) ⊎ ((0 < node) × (node % 2 ≡ 0) × (node < last))
      → both_loop h (suc f) node last (hashes old new []) ≡ raise stop_iteration
  unfolding both_loop next
  both_loop_short node last (inl odd) = rw (ne→== node 0 (omega arith), (==_iff (node % 2) 1).1 odd)
  both_loop_short node last (inr (p, even, lt)) =
      rw (ne→== node 0 (omega arith), ne→== (node % 2) 1 (omega arith), lt→ltb node last lt)

  pub both_loop_alone :
      (node last : ℕ) (rest : List Bytes)
      → 0 < node
      → node % 2 ≡ 0
      → last ≤ node
      → both_loop h (suc f) node last (hashes old new rest)
        ≡ both_loop h f (node / 2) (last / 2) (hashes old new rest)
  unfolding both_loop
  both_loop_alone node last rest p even le =
      rw (ne→== node 0 (omega arith), ne→== (node % 2) 1 (omega arith), le→ltb node last le)

  pub new_loop_done :
      (rest : List Bytes) → new_loop h (suc f) 0 (hashes old new rest) ≡ ok (hashes old new rest)
  unfolding new_loop
  new_loop_done rest = refl

  pub new_loop_left :
      (last : ℕ) (s : Bytes) (rest : List Bytes)
      → 0 < last
      → new_loop h (suc f) last (hashes old new (s ∷ rest))
        ≡ new_loop h f (last / 2) (hashes old (hash_children h new s) rest)
  unfolding new_loop next
  new_loop_left last s rest p = rw (ne→== last 0 (omega arith))

  pub new_loop_short :
      (last : ℕ) → 0 < last → new_loop h (suc f) last (hashes old new []) ≡ raise stop_iteration
  unfolding new_loop next
  new_loop_short last p = rw (ne→== last 0 (omega arith))

pub both_loop_unfuelled :
    (h : TreeHasher) (node last : ℕ) (s : Hashes) → both_loop h zero node last s ≡ raise out_of_fuel
unfolding both_loop
both_loop_unfuelled h node last s = refl

pub new_loop_unfuelled :
    (h : TreeHasher) (last : ℕ) (s : Hashes) → new_loop h zero last s ≡ raise out_of_fuel
unfolding new_loop
new_loop_unfuelled h last s = refl
