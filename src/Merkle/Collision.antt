-- ===== src/Merkle/Collision.antt =====
-- Collisions of the hash function of python/ct/crypto/merkle.py, and what equal node hashes say.
use sky_zadro_docs.Common.{
  ℕ, zero, suc, List, [], ◌∷◌, ◌++◌, length, length-append, map, All, some, some_injective,
  get_elem?, ◌≡◌, ◌≢◌, refl, sym, ap, ◌∙◌, arith, ◌⊎◌, inl, inr, Bool-cases,
}
use sky_zadro_docs.Merkle.Hasher.{
  Bytes, bytes_eq, bytes_eq→eq, bytes_eq_refl, TreeHasher, hash_leaf, hash_children,
}
use sky_zadro_docs.Levels.Pairing.{pair}

-- Two inputs with one hash.
abbrev pub Collision : TreeHasher → Type 0
Collision h = (x : Bytes) × (y : Bytes) × (x ≢ y) × (h.hashfunc x ≡ h.hashfunc y)

-- Hashes of `size` bytes, as SHA-256 has hashes of 32 bytes.
abbrev pub HasSize : TreeHasher → ℕ → Type 0
HasSize h size = (x : Bytes) → length (h.hashfunc x) ≡ size

head : {u v : ℕ} {s t : Bytes} → u ∷ s ≡ v ∷ t → u ≡ v
head k = cc

tail : {u v : ℕ} {s t : Bytes} → u ∷ s ≡ v ∷ t → s ≡ t
tail k = cc

append_injective : (a b c d : Bytes) → length a ≡ length c → a ++ b ≡ c ++ d → (a ≡ c) × (b ≡ d)
append_injective [] b [] d p e = (refl, e)
append_injective [] b (y ∷ c) d p e = absurd (omega arith)
append_injective (x ∷ a) b [] d p e = absurd (omega arith)
append_injective (x ∷ a) b (y ∷ c) d p e =
    let (q, r) = append_injective a b c d (omega arith) (tail e) in ((λ i. head e i ∷ q i), r)

module _ (h : TreeHasher) where
  pub same_input : (x y : Bytes) → h.hashfunc x ≡ h.hashfunc y → (x ≡ y) ⊎ Collision h
  same_input x y e = elim (Bool-cases (bytes_eq x y)) [
    | inl same ↦ inl (bytes_eq→eq x y same)
    | inr differ ↦ inr (x, y, (λ p. cc (ap (bytes_eq x) p, bytes_eq_refl x)), e)
  ]

  -- Equal hashes of two nodes whose left children are equally long.
  pub same_children :
      (a b c d : Bytes)
      → length a ≡ length c
      → hash_children h a b ≡ hash_children h c d
      → ((a ≡ c) × (b ≡ d)) ⊎ Collision h
  unfolding hash_children
  same_children a b c d p e = elim (same_input (1 ∷ (a ++ b)) (1 ∷ (c ++ d)) e) [
    | inl same ↦ inl (append_injective a b c d p (tail same))
    | inr collision ↦ inr collision
  ]

  -- The same for right children.
  pub same_children_right :
      (a b c d : Bytes)
      → length b ≡ length d
      → hash_children h a b ≡ hash_children h c d
      → ((a ≡ c) × (b ≡ d)) ⊎ Collision h
  unfolding hash_children
  same_children_right a b c d p e = elim (same_input (1 ∷ (a ++ b)) (1 ∷ (c ++ d)) e) [
    | inl same ↦ inl (
        append_injective a b c d
          (omega (arith, length-append a b, length-append c d, ap length (tail same))) (tail same))
    | inr collision ↦ inr collision
  ]

  -- The verdict on a node from that on the node above.
  pub down_right :
      (t c s a : Bytes)
      → length c ≡ length a
      → (hash_children h t c ≡ hash_children h s a) ⊎ Collision h
      → (c ≡ a) ⊎ Collision h
  down_right t c s a p (inr collision) = inr collision
  down_right t c s a p (inl e) = elim (same_children_right t c s a p e) [
    | inl (_, same) ↦ inl same
    | inr collision ↦ inr collision
  ]

  pub down_left :
      (t c s a : Bytes)
      → length c ≡ length a
      → (hash_children h c t ≡ hash_children h a s) ⊎ Collision h
      → (c ≡ a) ⊎ Collision h
  down_left t c s a p (inr collision) = inr collision
  down_left t c s a p (inl e) = elim (same_children c t a s p e) [
    | inl (same, _) ↦ inl same
    | inr collision ↦ inr collision
  ]

  pub same_leaf : (x y : Bytes) → hash_leaf h x ≡ hash_leaf h y → (x ≡ y) ⊎ Collision h
  unfolding hash_leaf
  same_leaf x y e = elim (same_input (0 ∷ x) (0 ∷ y) e) [
    | inl same ↦ inl (tail same)
    | inr collision ↦ inr collision
  ]

module _ (h : TreeHasher) (size : ℕ) (sized : HasSize h size) where
  abbrev pub Sized : List Bytes → Type 0
  Sized = All (λ a. length a ≡ size)

  pub length-hash_children : (a b : Bytes) → length (hash_children h a b) ≡ size
  unfolding hash_children
  length-hash_children a b = sized (1 ∷ (a ++ b))

  pub length-hash_leaf : (d : Bytes) → length (hash_leaf h d) ≡ size
  unfolding hash_leaf
  length-hash_leaf d = sized (0 ∷ d)

  pub Sized-pair : (ns : List Bytes) → Sized ns → Sized (pair (hash_children h) ns)
  Sized-pair [] s = s
  Sized-pair (a ∷ []) s = s
  Sized-pair (a ∷ b ∷ r) (sa, (sb, s)) = (length-hash_children a b, Sized-pair r s)

  pub Sized-get :
      (ns : List Bytes) (i : ℕ) {a : Bytes} → Sized ns → get_elem? ns i ≡ some a → length a ≡ size
  Sized-get [] i s e = cc
  Sized-get (x ∷ xs) zero (sx, s) e = ap length (some_injective (sym e)) ∙ sx
  Sized-get (x ∷ xs) (suc i) (sx, s) e = Sized-get xs i s e

  pub Sized-leaves : (leaves : List Bytes) → Sized (map (hash_leaf h) leaves)
  Sized-leaves [] = tt
  Sized-leaves (d ∷ r) = (length-hash_leaf d, Sized-leaves r)
