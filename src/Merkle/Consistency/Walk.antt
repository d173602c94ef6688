-- ===== src/Merkle/Consistency/Walk.antt =====
-- The second loop of verify_tree_consistency in python/ct/crypto/merkle.py, along any hashes.
use sky_zadro_docs.Common.{
  ℕ, zero, suc, ◌-◌, ◌/◌, ◌<◌, List, [], ◌∷◌, length, get_elem?, get_elem?-lt, some, ◌≡◌, refl, sym,
  ap, ◌∙◌, arith, ◌⊎◌, inl, inr,
}
use sky_zadro_docs.Errors.{Result, ok, ok_injective, raise≢ok}
use sky_zadro_docs.Levels.Pairing.{length-pair, pair-get_right, pair-get_left, pair-get_last}
use sky_zadro_docs.Levels.Root.{root_single}
use sky_zadro_docs.Levels.Older.{older, pair-older_odd, pair-older_even}
use sky_zadro_docs.Merkle.Hasher.{Bytes, TreeHasher, hash_empty, hash_children}
use sky_zadro_docs.Merkle.Full.{node_root}
use sky_zadro_docs.Merkle.Collision.{
  Collision, HasSize, Sized, Sized-pair, Sized-get, length-hash_children,
}
use sky_zadro_docs.Merkle.Inclusion.Complete.{position}
use sky_zadro_docs.Merkle.Verifier.{Hashes, hashes, both_loop}
use sky_zadro_docs.Merkle.Rounds.{
  both_loop_done, both_loop_right, both_loop_left, both_loop_alone, both_loop_short,
  both_loop_unfuelled,
}
use sky_zadro_docs.Merkle.Consistency.Sound.{
  above, BothSound, BothSound-round, back_right, back_left, old_below,
}

module _ (h : TreeHasher) (size : ℕ) (sized : HasSize h size) where
  walk_done :
      (f : ℕ) (ns : List Bytes) (old c a : Bytes) (rest : List Bytes) (l : ℕ) (s : Hashes)
      → Sized h size sized ns
      → get_elem? ns 0 ≡ some a
      → length c ≡ size
      → both_loop h (suc f) 0 (length ns - 1) (hashes old c rest) ≡ ok (l, s)
      → BothSound h size sized ns 0 old c a l s
  walk_done f ns old c a rest l s z e p q =
      let both : (length ns - 1, hashes old c rest) ≡ (l, s) =
        ok_injective (sym (both_loop_done h f old c (length ns - 1) rest) ∙ q) in
      let new : s.new_hash ≡ c = ap (λ (t : ℕ × Hashes). t.1.new_hash) (sym both) in
      let kept : s.old_hash ≡ old = ap (λ (t : ℕ × Hashes). t.1.old_hash) (sym both) in
      record {
        level = ns;
        end = a;
        last = ap (λ (t : ℕ × Hashes). t.0) (sym both);
        at_zero = e;
        same_root = refl;
        sizes = z;
        new_size = ap length new ∙ p;
        verdict = by_verdict new (kept ∙ sym (root_single (hash_children h) (hash_empty h) old));
      }
    where
      by_verdict :
          s.new_hash ≡ c
          → s.old_hash ≡ node_root h (older (hash_children h) ns 0 old)
          → (s.new_hash ≡ a) ⊎ Collision h
          → ((c ≡ a) × (s.old_hash ≡ node_root h (older (hash_children h) ns 0 old))) ⊎ Collision h
      by_verdict new kept (inl v) = inl (sym new ∙ v, kept)
      by_verdict new kept (inr collision) = inr collision

  -- The loop on the level above, as the induction wants it.
  loop_above :
      (f : ℕ) (ns : List Bytes) (node : ℕ) (t : Hashes) {r : Result (ℕ × Hashes)}
      → both_loop h f (node / 2) ((length ns - 1) / 2) t ≡ r
      → both_loop h f (node / 2) (length (above h size sized ns) - 1) t ≡ r
  loop_above f ns node t e =
      ap (λ (last : ℕ). both_loop h f (node / 2) last t)
        (omega (arith, length-pair (hash_children h) ns))
      ∙ e

  alone_back :
      (ns : List Bytes) (node : ℕ) (old c a : Bytes) (s : Hashes)
      → above h size sized (older (hash_children h) ns node old)
        ≡ older (hash_children h) (above h size sized ns) (node / 2) old
      → ((c ≡ a)
          × (s.old_hash
              ≡ node_root h (older (hash_children h) (above h size sized ns) (node / 2) old)))
        ⊎ Collision h
      → ((c ≡ a) × (s.old_hash ≡ node_root h (older (hash_children h) ns node old))) ⊎ Collision h
  alone_back ns node old c a s up (inl (e, q)) =
      inl (e, old_below h size sized ns node old old up q)
  alone_back ns node old c a s up (inr collision) = inr collision

  pub both_loop_sound :
      (f : ℕ) (ns : List Bytes) (node : ℕ) (old c a : Bytes) (rest : List Bytes) (l : ℕ)
      (s : Hashes)
      → Sized h size sized ns
      → get_elem? ns node ≡ some a
      → length c ≡ size
      → both_loop h f node (length ns - 1) (hashes old c rest) ≡ ok (l, s)
      → BothSound h size sized ns node old c a l s
  both_loop_sound zero ns node old c a rest l s z e p q =
      absurd (raise≢ok (sym (both_loop_unfuelled h node (length ns - 1) (hashes old c rest)) ∙ q))
  both_loop_sound (suc f) ns zero old c a rest l s z e p q = walk_done f ns old c a rest l s z e p q
  both_loop_sound (suc f) ns (suc k) old c a [] l s z e p q =
      let node : ℕ = suc k in
      let lt : node < length ns = get_elem?-lt ns node e in
      elim (position node (length ns) lt) [
        | inl odd ↦
            absurd (raise≢ok (sym (both_loop_short h f old c node (length ns - 1) (inl odd)) ∙ q))
        | inr (inl (even, next)) ↦ absurd (
            raise≢ok (
              sym (
                both_loop_short h f old c node (length ns - 1)
                  (inr (omega arith, even, omega arith)))
              ∙ q))
        | inr (inr (even, end)) ↦
            let (_, up) = pair-get_last (hash_children h) ns node e even end in
            BothSound-round h size sized ns node old c a old c a l s
              (alone_back ns node old c a s (pair-older_even (hash_children h) ns node old lt even))
              (both_loop_sound f (above h size sized ns) (node / 2) old c a [] l s
                (Sized-pair h size sized ns z) up p
                (loop_above f ns node (hashes old c []) (
                  sym (
                    both_loop_alone h f old c node (length ns - 1) [] (omega arith) even
                      (omega arith))
                  ∙ q)))
      ]
  both_loop_sound (suc f) ns (suc k) old c a (t ∷ rest) l s z e p q =
      let node : ℕ = suc k in
      let lt : node < length ns = get_elem?-lt ns node e in
      let same_length : length c ≡ length a = p ∙ sym (Sized-get h size sized ns node z e) in
      let sized_up = Sized-pair h size sized ns z in
      elim (position node (length ns) lt) [
        | inl odd ↦
            let (b, sib, up) = pair-get_right (hash_children h) ns node e odd in
            BothSound-round h size sized ns node old c a (hash_children h t old)
              (hash_children h t c) (hash_children h b a) l s
              (back_right h size sized ns node old c a t b s same_length
                (pair-older_odd (hash_children h) ns node old b lt odd sib))
              (both_loop_sound f (above h size sized ns) (node / 2) (hash_children h t old)
                (hash_children h t c) (hash_children h b a) rest l s sized_up up
                (length-hash_children h size sized t c)
                (loop_above f ns node (hashes (hash_children h t old) (hash_children h t c) rest)
                  (sym (both_loop_right h f old c node (length ns - 1) t rest odd) ∙ q)))
        | inr (inl (even, next)) ↦
            let (b, sib, up) = pair-get_left (hash_children h) ns node e even next in
            BothSound-round h size sized ns node old c a old (hash_children h c t)
              (hash_children h a b) l s
              (back_left h size sized ns node old c a t b s same_length
                (pair-older_even (hash_children h) ns node old lt even))
              (both_loop_sound f (above h size sized ns) (node / 2) old (hash_children h c t)
                (hash_children h a b) rest l s sized_up up (length-hash_children h size sized c t)
                (loop_above f ns node (hashes old (hash_children h c t) rest) (
                  sym (
                    both_loop_left h f old c node (length ns - 1) t rest (omega arith) even
                      (omega arith))
                  ∙ q)))
        | inr (inr (even, end)) ↦
            let (_, up) = pair-get_last (hash_children h) ns node e even end in
            BothSound-round h size sized ns node old c a old c a l s
              (alone_back ns node old c a s (pair-older_even (hash_children h) ns node old lt even))
              (both_loop_sound f (above h size sized ns) (node / 2) old c a (t ∷ rest) l s sized_up
                up p
                (loop_above f ns node (hashes old c (t ∷ rest)) (
                  sym (
                    both_loop_alone h f old c node (length ns - 1) (t ∷ rest) (omega arith) even
                      (omega arith))
                  ∙ q)))
      ]
