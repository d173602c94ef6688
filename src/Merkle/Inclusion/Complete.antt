-- ===== src/Merkle/Inclusion/Complete.antt =====
-- Audit paths by levels lead the verifier of python/ct/crypto/merkle.py to the root.
use sky_zadro_docs.Common.{
  ℕ, zero, suc, ◌+◌, ◌-◌, ◌/◌, ◌%◌, ◌^◌, ◌≤◌, ◌<◌, List, [], ◌∷◌, ◌++◌, length, get_elem?,
  get_elem?-lt, some, some_injective, ◌≡◌, refl, sym, ap, ◌∙◌, arith, ◌⊎◌, inl, inr, take, drop,
  take-append-drop,
}
use sky_zadro_docs.Errors.{ok}
use sky_zadro_docs.Levels.Pairing.{
  pair, sibling, length-pair, pair-get_right, pair-get_left, pair-get_last,
}
use sky_zadro_docs.Levels.Root.{root-pair, root_single}
use sky_zadro_docs.Levels.Split.{split_exp, split_parts, SplitParts}
use sky_zadro_docs.Levels.Audit.{
  audit, audit-pair, audit_single, audit-append_left, audit-append_right, IsSplit,
}
use sky_zadro_docs.Merkle.Hasher.{Bytes, TreeHasher, hash_empty, hash_children}
use sky_zadro_docs.Merkle.Full.{node_root}
use sky_zadro_docs.Merkle.Verifier.{audit_loop}
use sky_zadro_docs.Merkle.Rounds.{
  audit_loop_done, audit_loop_right, audit_loop_left, audit_loop_alone,
}

-- What a node is in its level: a right child, a left child with a sibling, or an odd one out.
pub position :
    (i n : ℕ) → i < n → (i % 2 ≡ 1) ⊎ ((i % 2 ≡ 0) × (suc i < n)) ⊎ ((i % 2 ≡ 0) × (n ≡ suc i))
position i n h = omega arith

module _ (h : TreeHasher) where
  abbrev pub node_audit : List Bytes → ℕ → List Bytes
  node_audit = audit (hash_children h) (hash_empty h)

  snoc_cons :
      (xs : List Bytes) (x : Bytes) → (s : Bytes) × (r : List Bytes) × (xs ++ x ∷ [] ≡ s ∷ r)
  snoc_cons [] x = (x, [], refl)
  snoc_cons (a ∷ xs) x = (a, xs ++ x ∷ [], refl)

  -- In a tree of two leaves or more no audit path is empty.
  node_audit_cons :
      (ns : List Bytes) (i : ℕ)
      → i < length ns
      → 1 < length ns
      → (s : Bytes) × (r : List Bytes) × (node_audit ns i ≡ s ∷ r)
  node_audit_cons ns i p q = elim (side i (2 ^ j)) [
    | inl left ↦
        let (s, r, e) = snoc_cons (node_audit front i) (node_root h back) in
        (
          s,
          r,
          ap (λ (t : List Bytes). node_audit t i) (sym whole)
              ∙ audit-append_left (hash_children h) (hash_empty h) j front back i is_split
                  (omega (arith, parts))
              ∙ e,
        )
    | inr right ↦
        let (s, r, e) = snoc_cons (node_audit back (i - 2 ^ j)) (node_root h front) in
        (
          s,
          r,
          (λ k. node_audit (sym whole k) (right k))
              ∙ audit-append_right (hash_children h) (hash_empty h) j front back (i - 2 ^ j)
                  is_split (omega (arith, parts, right))
              ∙ e,
        )
  ]
    where
      j : ℕ
      j = split_exp (length ns)

      front : List Bytes
      front = take (2 ^ j) ns

      back : List Bytes
      back = drop (2 ^ j) ns

      whole : front ++ back ≡ ns
      whole = take-append-drop (2 ^ j) ns

      parts : SplitParts ns
      parts = split_parts ns q

      is_split : IsSplit (hash_children h) (hash_empty h) j front back
      is_split = omega (arith, parts)

      side : (a b : ℕ) → (a < b) ⊎ (a ≡ b + (a - b))
      side a b = omega arith

  abbrev above : List Bytes → List Bytes
  above = pair (hash_children h)

  -- What the level above says, in terms of the level itself.
  rise :
      (f : ℕ) (ns : List Bytes) (i : ℕ) (c : Bytes) (path : List Bytes)
      → audit_loop h f c i path (length (above ns) - 1) ≡ ok (node_root h (above ns))
      → audit_loop h f c i path ((length ns - 1) / 2) ≡ ok (node_root h ns)
  rise f ns i c path e =
      ap (audit_loop h f c i path) (omega (arith, length-pair (hash_children h) ns))
      ∙ e
      ∙ ap ok (root-pair (hash_children h) (hash_empty h) ns)

  -- The audit path of a node is its sibling's hash, if any, and the path of the node above.
  pub first_step :
      (ns : List Bytes) (i : ℕ) {front : List Bytes}
      → sibling (hash_children h) ns i ≡ front
      → node_audit ns i ≡ front ++ node_audit (above ns) (i / 2)
  first_step ns i e =
      audit-pair (hash_children h) (hash_empty h) ns i
      ∙ ap (λ (t : List Bytes). t ++ node_audit (above ns) (i / 2)) e

  -- An odd one out keeps its hash.
  step_alone :
      (f : ℕ) (ns : List Bytes) (i : ℕ) (c : Bytes)
      → i % 2 ≡ 0
      → length ns ≡ suc i
      → 1 < length ns
      → audit_loop h (suc f) c i (node_audit (above ns) (i / 2)) (length ns - 1)
        ≡ audit_loop h f c (i / 2) (node_audit (above ns) (i / 2)) ((length ns - 1) / 2)
  step_alone f ns i c even last two =
      let (s, r, e) =
        node_audit_cons (above ns) (i / 2) (omega (arith, length-pair (hash_children h) ns))
          (omega (arith, length-pair (hash_children h) ns)) in
      ap (λ (t : List Bytes). audit_loop h (suc f) c i t (length ns - 1)) e
      ∙ audit_loop_alone h f c s i r (length ns - 1) (omega arith) even (omega arith)
      ∙ ap (λ (t : List Bytes). audit_loop h f c (i / 2) t ((length ns - 1) / 2)) (sym e)

  -- From node `i` of a level, along its audit path, to the root.
  pub audit_loop_complete :
      (f : ℕ) (ns : List Bytes) (i : ℕ) {c : Bytes}
      → get_elem? ns i ≡ some c
      → length ns ≤ f
      → audit_loop h f c i (node_audit ns i) (length ns - 1) ≡ ok (node_root h ns)
  audit_loop_complete zero [] i e p = cc
  audit_loop_complete zero (a ∷ r) i e p = absurd (omega arith)
  audit_loop_complete (suc f) [] i e p = cc
  audit_loop_complete (suc f) (a ∷ []) (suc i) e p = cc
  audit_loop_complete (suc f) (a ∷ []) zero {c} e p =
      ap (λ (t : List Bytes). audit_loop h (suc f) c 0 t 0)
        (audit_single (hash_children h) (hash_empty h) a 0)
      ∙ audit_loop_done h f c 0
      ∙ ap ok (some_injective (sym e) ∙ sym (root_single (hash_children h) (hash_empty h) a))
  audit_loop_complete (suc f) (a ∷ b ∷ r) i {c} e p =
      let ns : List Bytes = a ∷ b ∷ r in
      let path : List Bytes = node_audit (above ns) (i / 2) in
      let shorter : length (above ns) ≤ f = omega (arith, length-pair (hash_children h) ns) in
      elim (position i (length ns) (get_elem?-lt ns i e)) [
        | inl odd ↦
            let (s, sib, up) = pair-get_right (hash_children h) ns i e odd in
            ap (λ (t : List Bytes). audit_loop h (suc f) c i t (length ns - 1))
              (first_step ns i sib)
            ∙ audit_loop_right h f c s i path (length ns - 1) (omega arith) odd
            ∙ rise f ns (i / 2) (hash_children h s c) path
                (audit_loop_complete f (above ns) (i / 2) up shorter)
        | inr (inl (even, lt)) ↦
            let (s, sib, up) = pair-get_left (hash_children h) ns i e even lt in
            ap (λ (t : List Bytes). audit_loop h (suc f) c i t (length ns - 1))
              (first_step ns i sib)
            ∙ audit_loop_left h f c s i path (length ns - 1) even (omega arith)
            ∙ rise f ns (i / 2) (hash_children h c s) path
                (audit_loop_complete f (above ns) (i / 2) up shorter)
        | inr (inr (even, last)) ↦
            let (sib, up) = pair-get_last (hash_children h) ns i e even last in
            ap (λ (t : List Bytes). audit_loop h (suc f) c i t (length ns - 1))
              (first_step ns i sib)
            ∙ step_alone f ns i c even last (omega arith)
            ∙ rise f ns (i / 2) c path (audit_loop_complete f (above ns) (i / 2) up shorter)
      ]
