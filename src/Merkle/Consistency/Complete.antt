-- ===== src/Merkle/Consistency/Complete.antt =====
-- The second and third loop of verify_tree_consistency in python/ct/crypto/merkle.py, along the
-- hashes of a consistency proof, compute the two roots.
use sky_zadro_docs.Common.{
  ℕ, zero, suc, ◌-◌, ◌/◌, ◌≤◌, ◌<◌, List, [], ◌∷◌, length, get_elem?, get_elem?-lt, some,
  some_injective, ◌≡◌, refl, sym, ap, ◌∙◌, arith, inl, inr,
}
use sky_zadro_docs.Errors.{Result, ok}
use sky_zadro_docs.Levels.Pairing.{pair, length-pair, pair-get_right, pair-get_left, pair-get_last}
use sky_zadro_docs.Levels.Root.{root-pair, root_single}
use sky_zadro_docs.Levels.Audit.{audit_single}
use sky_zadro_docs.Levels.Older.{older, pair-older_odd, pair-older_even}
use sky_zadro_docs.Merkle.Hasher.{Bytes, TreeHasher, hash_empty, hash_children}
use sky_zadro_docs.Merkle.Full.{node_root}
use sky_zadro_docs.Merkle.Inclusion.Complete.{node_audit, position, first_step}
use sky_zadro_docs.Merkle.Verifier.{Hashes, hashes, both_loop, new_loop}
use sky_zadro_docs.Merkle.Rounds.{
  both_loop_done, both_loop_right, both_loop_left, both_loop_alone, new_loop_done, new_loop_left,
}

-- Where the second loop ends: node 0 of a level, with the older root computed.
pub record BothDone (h : TreeHasher) (ns : List Bytes) (node : ℕ) (x : Bytes)
    (r : Result (ℕ × Hashes)) : Type 0 where
  pub level : List Bytes
  pub new : Bytes
  pub result :
      r
      ≡ ok (
        length level - 1,
        hashes (node_root h (older (hash_children h) ns node x)) new (node_audit h level 0),
      )
  pub at_zero : get_elem? level 0 ≡ some new
  pub same_root : node_root h level ≡ node_root h ns
  pub fits : length level ≤ length ns

module _ (h : TreeHasher) where
  abbrev above : List Bytes → List Bytes
  above = pair (hash_children h)

  -- One round of the second loop.
  both_up :
      (f : ℕ) (ns : List Bytes) (node : ℕ) (x y : Bytes) (r : Result (ℕ × Hashes))
      → above (older (hash_children h) ns node x) ≡ older (hash_children h) (above ns) (node / 2) y
      → (c : Bytes)
      → r
        ≡ both_loop h f
            (node / 2)
            ((length ns - 1) / 2)
            (hashes y c (node_audit h (above ns) (node / 2)))
      → BothDone h (above ns) (node / 2) y (
          both_loop h f
            (node / 2)
            (length (above ns) - 1)
            (hashes y c (node_audit h (above ns) (node / 2))))
      → BothDone h ns node x r
  both_up f ns node x y r old c e d = record {
    level = d.level;
    new = d.new;
    result =
        e
        ∙ ap
            (λ (t : ℕ).
              both_loop h f (node / 2) t (hashes y c (node_audit h (above ns) (node / 2))))
            (omega (arith, length-pair (hash_children h) ns))
        ∙ d.result
        ∙ ap (λ (t : Bytes). ok (length d.level - 1, hashes t d.new (node_audit h d.level 0)))
            (ap (node_root h) (sym old)
              ∙ root-pair (hash_children h) (hash_empty h) (older (hash_children h) ns node x));
    at_zero = d.at_zero;
    same_root = d.same_root ∙ root-pair (hash_children h) (hash_empty h) ns;
    fits = omega (arith, d.fits, length-pair (hash_children h) ns);
  }

  pub both_loop_complete :
      (f : ℕ) (ns : List Bytes) (node : ℕ) (x c : Bytes)
      → node < f
      → get_elem? ns node ≡ some c
      → BothDone h ns node x
          (both_loop h f node (length ns - 1) (hashes x c (node_audit h ns node)))
  both_loop_complete zero ns node x c p e = absurd (omega arith)
  both_loop_complete (suc f) ns zero x c p e = record {
    level = ns;
    new = c;
    result =
        both_loop_done h f x c (length ns - 1) (node_audit h ns 0)
        ∙ ap (λ (t : Bytes). ok (length ns - 1, hashes t c (node_audit h ns 0)))
            (sym (root_single (hash_children h) (hash_empty h) x));
    at_zero = e;
    same_root = refl;
    fits = omega arith;
  }
  both_loop_complete (suc f) ns (suc k) x c p e =
      let node : ℕ = suc k in
      let lt : node < length ns = get_elem?-lt ns node e in
      let last : ℕ = length ns - 1 in
      let path : List Bytes = node_audit h (above ns) (node / 2) in
      elim (position node (length ns) lt) [
        | inl odd ↦
            let (s, sib, up) = pair-get_right (hash_children h) ns node e odd in
            both_up f ns node x (hash_children h s x) _
              (pair-older_odd (hash_children h) ns node x s lt odd sib) (hash_children h s c)
              (ap (λ (t : List Bytes). both_loop h (suc f) node last (hashes x c t))
                  (first_step h ns node sib)
                ∙ both_loop_right h f x c node last s path odd)
              (both_loop_complete f (above ns) (node / 2) (hash_children h s x)
                (hash_children h s c) (omega arith) up)
        | inr (inl (even, next)) ↦
            let (s, sib, up) = pair-get_left (hash_children h) ns node e even next in
            both_up f ns node x x _ (pair-older_even (hash_children h) ns node x lt even)
              (hash_children h c s)
              (ap (λ (t : List Bytes). both_loop h (suc f) node last (hashes x c t))
                  (first_step h ns node sib)
                ∙ both_loop_left h f x c node last s path (omega arith) even (omega arith))
              (both_loop_complete f (above ns) (node / 2) x (hash_children h c s) (omega arith) up)
        | inr (inr (even, end)) ↦
            let (sib, up) = pair-get_last (hash_children h) ns node e even end in
            both_up f ns node x x _ (pair-older_even (hash_children h) ns node x lt even) c
              (ap (λ (t : List Bytes). both_loop h (suc f) node last (hashes x c t))
                  (first_step h ns node sib)
                ∙ both_loop_alone h f x c node last path (omega arith) even (omega arith))
              (both_loop_complete f (above ns) (node / 2) x c (omega arith) up)
      ]

  -- The third loop goes on to the newer root.
  pub new_loop_complete :
      (f : ℕ) (ns : List Bytes) (old c : Bytes)
      → length ns ≤ f
      → get_elem? ns 0 ≡ some c
      → new_loop h f (length ns - 1) (hashes old c (node_audit h ns 0))
        ≡ ok (hashes old (node_root h ns) [])
  new_loop_complete zero [] old c p e = cc
  new_loop_complete zero (a ∷ r) old c p e = absurd (omega arith)
  new_loop_complete (suc f) [] old c p e = cc
  new_loop_complete (suc f) (a ∷ []) old c p e =
      ap (λ (t : List Bytes). new_loop h (suc f) 0 (hashes old c t))
        (audit_single (hash_children h) (hash_empty h) a 0)
      ∙ new_loop_done h f old c []
      ∙ ap (λ (t : Bytes). ok (hashes old t []))
          (some_injective (sym e) ∙ sym (root_single (hash_children h) (hash_empty h) a))
  new_loop_complete (suc f) (a ∷ b ∷ r) old c p e =
      let ns : List Bytes = a ∷ b ∷ r in
      let (s, sib, up) = pair-get_left (hash_children h) ns 0 e refl (omega arith) in
      ap (λ (t : List Bytes). new_loop h (suc f) (length ns - 1) (hashes old c t))
        (first_step h ns 0 sib)
      ∙ new_loop_left h f old c (length ns - 1) s (node_audit h (above ns) 0) (omega arith)
      ∙ ap
          (λ (t : ℕ). new_loop h f t (hashes old (hash_children h c s) (node_audit h (above ns) 0)))
          (omega (arith, length-pair (hash_children h) ns))
      ∙ new_loop_complete f (above ns) old (hash_children h c s)
          (omega (arith, length-pair (hash_children h) ns)) up
      ∙ ap (λ (t : Bytes). ok (hashes old t [])) (root-pair (hash_children h) (hash_empty h) ns)
