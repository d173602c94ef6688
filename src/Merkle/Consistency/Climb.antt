-- ===== src/Merkle/Consistency/Climb.antt =====
-- The first loop of verify_tree_consistency in python/ct/crypto/merkle.py: up, while the last node
-- of the older tree is a right child.
use sky_zadro_docs.Common.{
  ℕ, zero, suc, ◌-◌, ◌/◌, ◌%◌, ◌≤◌, ◌<◌, List, length, get_elem?-some, take, ◌≡◌, refl, sym, ap,
  ◌∙◌, arith, ◌⊎◌, inl, inr, Bool,
}
use sky_zadro_docs.Errors.{Result, ok}
use sky_zadro_docs.Levels.Pairing.{pair, length-pair, pair-get_right}
use sky_zadro_docs.Levels.Root.{root-pair}
use sky_zadro_docs.Levels.Consistency.{consistency_odd}
use sky_zadro_docs.Levels.Older.{older, older_self, pair-older_odd}
use sky_zadro_docs.Merkle.Hasher.{Bytes, TreeHasher, hash_empty, hash_children}
use sky_zadro_docs.Merkle.Full.{node_root, node_consistency}
use sky_zadro_docs.Merkle.Collision.{HasSize, Sized, Sized-pair}
use sky_zadro_docs.Merkle.Verifier.{climb_right}
use sky_zadro_docs.Merkle.Rounds.{climb_right_even, climb_right_odd}

-- The level and the node at which the loop ends, and what they share with those where it starts.
pub record Climbed (h : TreeHasher) (ns : List Bytes) (node : ℕ) (r : Result (ℕ × ℕ)) : Type 0 where
  pub level : List Bytes
  pub at : ℕ
  pub result : r ≡ ok (at, length level - 1)
  pub is_even : at % 2 ≡ 0
  pub inside : at < length level
  pub fits : length level ≤ length ns
  pub same_root : node_root h level ≡ node_root h ns
  pub same_old : node_root h (take (suc at) level) ≡ node_root h (take (suc node) ns)
  pub same_proof :
      (known : Bool) → node_consistency h known ns node ≡ node_consistency h known level at
  pub sizes : (size : ℕ) (sized : HasSize h size) → Sized h size sized ns → Sized h size sized level

module _ (h : TreeHasher) where
  -- The older tree is the same, seen from the level above its last node.
  old_above :
      (ns : List Bytes) (node : ℕ)
      → node < length ns
      → node % 2 ≡ 1
      → node_root h (take (suc (node / 2)) (pair (hash_children h) ns))
        ≡ node_root h (take (suc node) ns)
  old_above ns node p odd =
      let (c, e) = get_elem?-some ns node p in
      let (s, sib, up) = pair-get_right (hash_children h) ns node e odd in
      sym (
        ap (node_root h) (sym (older_self (hash_children h) ns node e))
        ∙ sym (root-pair (hash_children h) (hash_empty h) (older (hash_children h) ns node c))
        ∙ ap (node_root h) (
            pair-older_odd (hash_children h) ns node c s p odd sib
            ∙ older_self (hash_children h) (pair (hash_children h) ns) (node / 2) up))

  climb_up :
      (f : ℕ) (ns : List Bytes) (node : ℕ)
      → node < length ns
      → node % 2 ≡ 1
      → Climbed h
          (pair (hash_children h) ns)
          (node / 2)
          (climb_right f (node / 2) (length (pair (hash_children h) ns) - 1))
      → Climbed h ns node (climb_right (suc f) node (length ns - 1))
  climb_up f ns node p odd c = record {
    level = c.level;
    at = c.at;
    result =
        climb_right_odd f node (length ns - 1) odd
        ∙ ap (climb_right f (node / 2)) (omega (arith, length-pair (hash_children h) ns))
        ∙ c.result;
    is_even = c.is_even;
    inside = c.inside;
    fits = omega (arith, c.fits, length-pair (hash_children h) ns);
    same_root = c.same_root ∙ root-pair (hash_children h) (hash_empty h) ns;
    same_old = c.same_old ∙ old_above ns node p odd;
    same_proof = λ known.
        consistency_odd (hash_children h) (hash_empty h) known ns node odd ∙ c.same_proof known;
    sizes = λ size sized s. c.sizes size sized (Sized-pair h size sized ns s);
  }

  odd_cases : (n : ℕ) → (n % 2 ≡ 1) ⊎ (n % 2 ≡ 0)
  odd_cases n = omega arith

  -- The loop ends: `node` halves in each round.
  pub climb_right_lem :
      (f : ℕ) (ns : List Bytes) (node : ℕ)
      → node < f
      → node < length ns
      → Climbed h ns node (climb_right f node (length ns - 1))
  climb_right_lem zero ns node p q = absurd (omega arith)
  climb_right_lem (suc f) ns node p q = elim (odd_cases node) [
    | inl odd ↦ climb_up f ns node q odd (
        climb_right_lem f (pair (hash_children h) ns) (node / 2) (omega arith)
          (omega (arith, length-pair (hash_children h) ns)))
    | inr even ↦ record {
      level = ns;
      at = node;
      result = climb_right_even f node (length ns - 1) even;
      is_even = even;
      inside = q;
      fits = omega arith;
      same_root = refl;
      same_old = refl;
      same_proof = λ known. refl;
      sizes = λ size sized s. s;
    }
  ]
