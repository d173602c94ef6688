-- ===== src/Merkle/Consistency/Sound.antt =====
-- Where the loops of verify_tree_consistency in python/ct/crypto/merkle.py end at the newer root,
-- the older root that they compute is that of the first leaves, or the hash function has a
-- collision.
use sky_zadro_docs.Common.{
  ℕ, zero, suc, ◌-◌, ◌/◌, List, [], ◌∷◌, length, get_elem?, some, some_injective, ◌≡◌, refl, sym,
  ap, ◌∙◌, arith, ◌⊎◌, inl, inr,
}
use sky_zadro_docs.Errors.{ok, ok_injective, raise≢ok}
use sky_zadro_docs.Levels.Pairing.{pair, length-pair, pair-get_left}
use sky_zadro_docs.Levels.Root.{root-pair, root_single}
use sky_zadro_docs.Levels.Older.{older}
use sky_zadro_docs.Merkle.Hasher.{Bytes, TreeHasher, hash_empty, hash_children}
use sky_zadro_docs.Merkle.Full.{node_root}
use sky_zadro_docs.Merkle.Collision.{
  Collision, HasSize, Sized, Sized-pair, Sized-get, length-hash_children, down_left,
  same_children_right,
}
use sky_zadro_docs.Merkle.Verifier.{Hashes, hashes, new_loop}
use sky_zadro_docs.Merkle.Rounds.{new_loop_done, new_loop_left, new_loop_short, new_loop_unfuelled}

module _ (h : TreeHasher) (size : ℕ) (sized : HasSize h size) where
  abbrev pub above : List Bytes → List Bytes
  above = pair (hash_children h)

  -- The third loop, from the hash `c` of what should be node 0.
  pub new_loop_sound :
      (f : ℕ) (ns : List Bytes) (old c a : Bytes) (rest : List Bytes) (s : Hashes)
      → Sized h size sized ns
      → get_elem? ns 0 ≡ some a
      → length c ≡ size
      → new_loop h f (length ns - 1) (hashes old c rest) ≡ ok s
      → s.new_hash ≡ node_root h ns
      → (s.old_hash ≡ old) × ((c ≡ a) ⊎ Collision h)
  new_loop_sound zero ns old c a rest s z e p q w =
      absurd (raise≢ok (sym (new_loop_unfuelled h (length ns - 1) (hashes old c rest)) ∙ q))
  new_loop_sound (suc f) [] old c a rest s z e p q w = cc
  new_loop_sound (suc f) (x ∷ []) old c a rest s z e p q w =
      let same : hashes old c rest ≡ s = ok_injective (sym (new_loop_done h f old c rest) ∙ q) in
      (
        ap (λ (t : Hashes). t.old_hash) (sym same),
        inl (
            ap (λ (t : Hashes). t.new_hash) same
            ∙ w
            ∙ root_single (hash_children h) (hash_empty h) x
            ∙ some_injective e),
      )
  new_loop_sound (suc f) (x ∷ y ∷ r) old c a [] s z e p q w =
      absurd (raise≢ok (sym (new_loop_short h f old c (length (x ∷ y ∷ r) - 1) (omega arith)) ∙ q))
  new_loop_sound (suc f) (x ∷ y ∷ r) old c a (t ∷ rest) s z e p q w =
      let ns : List Bytes = x ∷ y ∷ r in
      let (b, _, up) = pair-get_left (hash_children h) ns 0 e refl (omega arith) in
      let (kept, verdict) =
        new_loop_sound f (above ns) old (hash_children h c t) (hash_children h a b) rest s
          (Sized-pair h size sized ns z) up (length-hash_children h size sized c t)
          (ap (λ (l : ℕ). new_loop h f l (hashes old (hash_children h c t) rest))
              (omega (arith, length-pair (hash_children h) ns))
            ∙ sym (new_loop_left h f old c (length ns - 1) t rest (omega arith))
            ∙ q)
          (w ∙ sym (root-pair (hash_children h) (hash_empty h) ns)) in
      (kept, down_left h t c b a (p ∙ sym (Sized-get h size sized ns 0 z e)) verdict)

-- Where the second loop ends, and what a right hash there says of the hashes where it started.
pub record BothSound (h : TreeHasher) (size : ℕ) (sized : HasSize h size) (ns : List Bytes)
    (node : ℕ) (old c a : Bytes) (l : ℕ) (s : Hashes) : Type 0 where
  pub level : List Bytes
  pub end : Bytes
  pub last : l ≡ length level - 1
  pub at_zero : get_elem? level 0 ≡ some end
  pub same_root : node_root h level ≡ node_root h ns
  pub sizes : Sized h size sized level
  pub new_size : length s.new_hash ≡ size
  pub verdict :
      (s.new_hash ≡ end) ⊎ Collision h
      → ((c ≡ a) × (s.old_hash ≡ node_root h (older (hash_children h) ns node old))) ⊎ Collision h

module _ (h : TreeHasher) (size : ℕ) (sized : HasSize h size) where
  -- A round of the second loop, when `back` leads from the verdict above to that below.
  pub BothSound-round :
      (ns : List Bytes) (node : ℕ) (old c a old' c' a' : Bytes) (l : ℕ) (s : Hashes)
      → (((c' ≡ a')
              × (s.old_hash
                  ≡ node_root h (older (hash_children h) (above h size sized ns) (node / 2) old')))
            ⊎ Collision h
          → ((c ≡ a) × (s.old_hash ≡ node_root h (older (hash_children h) ns node old)))
            ⊎ Collision h)
      → BothSound h size sized (above h size sized ns) (node / 2) old' c' a' l s
      → BothSound h size sized ns node old c a l s
  BothSound-round ns node old c a old' c' a' l s back d = record {
    level = d.level;
    end = d.end;
    last = d.last;
    at_zero = d.at_zero;
    same_root = d.same_root ∙ root-pair (hash_children h) (hash_empty h) ns;
    sizes = d.sizes;
    new_size = d.new_size;
    verdict = λ v. back (d.verdict v);
  }

  -- The older root, from that of the level above.
  pub old_below :
      (ns : List Bytes) (node : ℕ) (x y : Bytes) {r : Bytes}
      → above h size sized (older (hash_children h) ns node x)
        ≡ older (hash_children h) (above h size sized ns) (node / 2) y
      → r ≡ node_root h (older (hash_children h) (above h size sized ns) (node / 2) y)
      → r ≡ node_root h (older (hash_children h) ns node x)
  old_below ns node x y e p =
      p
      ∙ ap (node_root h) (sym e)
      ∙ root-pair (hash_children h) (hash_empty h) (older (hash_children h) ns node x)

  pub back_right :
      (ns : List Bytes) (node : ℕ) (old c a t b : Bytes) (s : Hashes)
      → length c ≡ length a
      → above h size sized (older (hash_children h) ns node old)
        ≡ older (hash_children h) (above h size sized ns) (node / 2) (hash_children h b old)
      → ((hash_children h t c ≡ hash_children h b a)
          × (s.old_hash
              ≡ node_root h (
                  older
                    (hash_children h)
                    (above h size sized ns)
                    (node / 2)
                    (hash_children h t old))))
        ⊎ Collision h
      → ((c ≡ a) × (s.old_hash ≡ node_root h (older (hash_children h) ns node old))) ⊎ Collision h
  back_right ns node old c a t b s p up (inr collision) = inr collision
  back_right ns node old c a t b s p up (inl (e, q)) = elim (same_children_right h t c b a p e) [
    | inl (same, below) ↦ inl (
      below,
      old_below ns node old (hash_children h b old) up (
          q
          ∙ ap
              (λ (k : Bytes). node_root h (
                older (hash_children h) (above h size sized ns) (node / 2) (hash_children h k old)))
              same),
    )
    | inr collision ↦ inr collision
  ]

  pub back_left :
      (ns : List Bytes) (node : ℕ) (old c a t b : Bytes) (s : Hashes)
      → length c ≡ length a
      → above h size sized (older (hash_children h) ns node old)
        ≡ older (hash_children h) (above h size sized ns) (node / 2) old
      → ((hash_children h c t ≡ hash_children h a b)
          × (s.old_hash
              ≡ node_root h (older (hash_children h) (above h size sized ns) (node / 2) old)))
        ⊎ Collision h
      → ((c ≡ a) × (s.old_hash ≡ node_root h (older (hash_children h) ns node old))) ⊎ Collision h
  back_left ns node old c a t b s p up (inr collision) = inr collision
  back_left ns node old c a t b s p up (inl (e, q)) = elim (down_left h t c b a p (inl e)) [
    | inl below ↦ inl (below, old_below ns node old old up q)
    | inr collision ↦ inr collision
  ]
