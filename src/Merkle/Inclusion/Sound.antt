-- ===== src/Merkle/Inclusion/Sound.antt =====
-- A node that the verifier of python/ct/crypto/merkle.py leads to the root is the tree's own, or
-- the hash function has a collision.
use sky_zadro_docs.Common.{
  ℕ, zero, suc, ◌-◌, ◌/◌, List, [], ◌∷◌, length, get_elem?, get_elem?-lt, some, some_injective, ◌≡◌,
  sym, ap, ◌∙◌, arith, ◌⊎◌, inl, inr,
}
use sky_zadro_docs.Errors.{ok, ok_injective, raise≢ok}
use sky_zadro_docs.Levels.Pairing.{pair, length-pair, pair-get_right, pair-get_left, pair-get_last}
use sky_zadro_docs.Levels.Root.{root-pair, root_single}
use sky_zadro_docs.Merkle.Hasher.{Bytes, TreeHasher, hash_empty, hash_children}
use sky_zadro_docs.Merkle.Full.{node_root}
use sky_zadro_docs.Merkle.Verifier.{audit_loop}
use sky_zadro_docs.Merkle.Rounds.{
  audit_loop_done, audit_loop_right, audit_loop_left, audit_loop_alone, audit_loop_short,
  audit_loop_long, audit_loop_unfuelled,
}
use sky_zadro_docs.Merkle.Collision.{
  Collision, HasSize, Sized, Sized-pair, Sized-get, length-hash_children, down_left, down_right,
}
use sky_zadro_docs.Merkle.Inclusion.Complete.{position}

module _ (h : TreeHasher) (size : ℕ) (sized : HasSize h size) where
  -- What the level above says, in terms of the level itself.
  lower :
      (f : ℕ) (ns : List Bytes) (i : ℕ) (c : Bytes) (path : List Bytes)
      → audit_loop h f c i path ((length ns - 1) / 2) ≡ ok (node_root h ns)
      → audit_loop h f c i path (length (pair (hash_children h) ns) - 1)
        ≡ ok (node_root h (pair (hash_children h) ns))
  lower f ns i c path e =
      ap (audit_loop h f c i path) (omega (arith, length-pair (hash_children h) ns))
      ∙ e
      ∙ ap ok (sym (root-pair (hash_children h) (hash_empty h) ns))

  pub audit_loop_sound :
      (f : ℕ) (ns : List Bytes) (i : ℕ) (c a : Bytes) (path : List Bytes)
      → Sized h size sized ns
      → get_elem? ns i ≡ some a
      → length c ≡ size
      → audit_loop h f c i path (length ns - 1) ≡ ok (node_root h ns)
      → (c ≡ a) ⊎ Collision h
  audit_loop_sound zero ns i c a path s e p q =
      absurd (raise≢ok (sym (audit_loop_unfuelled h c i path (length ns - 1)) ∙ q))
  audit_loop_sound (suc f) [] i c a path s e p q = cc
  audit_loop_sound (suc f) (x ∷ []) (suc i) c a path s e p q = cc
  audit_loop_sound (suc f) (x ∷ []) zero c a [] s e p q = inl (
      ok_injective (
        sym (audit_loop_done h f c 0)
        ∙ q
        ∙ ap ok (root_single (hash_children h) (hash_empty h) x ∙ some_injective e)))
  audit_loop_sound (suc f) (x ∷ []) zero c a (t ∷ path) s e p q =
      absurd (raise≢ok (sym (audit_loop_long h f c t 0 path) ∙ q))
  audit_loop_sound (suc f) (x ∷ y ∷ r) i c a [] s e p q =
      absurd (raise≢ok (sym (audit_loop_short h f c i (length (x ∷ y ∷ r) - 1) (omega arith)) ∙ q))
  audit_loop_sound (suc f) (x ∷ y ∷ r) i c a (t ∷ path) s e p q =
      let ns : List Bytes = x ∷ y ∷ r in
      let up : List Bytes = pair (hash_children h) ns in
      let sized_up : Sized h size sized up = Sized-pair h size sized ns s in
      let same_length : length c ≡ length a = p ∙ sym (Sized-get h size sized ns i s e) in
      elim (position i (length ns) (get_elem?-lt ns i e)) [
        | inl odd ↦
            let (b, _, at) = pair-get_right (hash_children h) ns i e odd in
            down_right h t c b a same_length (
              audit_loop_sound f up (i / 2) (hash_children h t c) (hash_children h b a) path
                sized_up at (length-hash_children h size sized t c)
                (lower f ns (i / 2) (hash_children h t c) path
                  (sym (audit_loop_right h f c t i path (length ns - 1) (omega arith) odd) ∙ q)))
        | inr (inl (even, lt)) ↦
            let (b, _, at) = pair-get_left (hash_children h) ns i e even lt in
            down_left h t c b a same_length (
              audit_loop_sound f up (i / 2) (hash_children h c t) (hash_children h a b) path
                sized_up at (length-hash_children h size sized c t)
                (lower f ns (i / 2) (hash_children h c t) path
                  (sym (audit_loop_left h f c t i path (length ns - 1) even (omega arith)) ∙ q)))
        | inr (inr (even, last)) ↦
            let (_, at) = pair-get_last (hash_children h) ns i e even last in
            audit_loop_sound f up (i / 2) c a (t ∷ path) sized_up at p (
              lower f ns (i / 2) c (t ∷ path) (
                sym
                  (audit_loop_alone h f c t i path (length ns - 1) (omega arith) even (omega arith))
                ∙ q))
      ]
