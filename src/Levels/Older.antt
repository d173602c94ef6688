-- ===== src/Levels/Older.antt =====
-- The nodes of an older tree at a level of a newer one: those before its last node, and that.
use sky_zadro_docs.Common.{
  ℕ, zero, suc, ◌/◌, ◌%◌, ◌<◌, ◌≡◌, refl, sym, ap, ◌∙◌, arith, List, [], ◌∷◌, ◌++◌, length, take,
  some, some_injective, get_elem?,
}
use sky_zadro_docs.Levels.Pairing.{pair, sibling}

halves_together : (i : ℕ) → suc (i / 2) ≡ suc (suc i) / 2
halves_together i = omega arith

module _ {ℓ} {A : Type ℓ} (join : A → A → A) where
  -- The level of an older tree, with `x` for its last node.
  abbrev pub older : List A → ℕ → A → List A
  older xs node x = take node xs ++ x ∷ []

  pub older_self :
      (xs : List A) (node : ℕ) {c : A}
      → get_elem? xs node ≡ some c
      → older xs node c ≡ take (suc node) xs
  older_self [] node e = cc
  older_self (a ∷ xs) zero e = ap (λ (t : A). t ∷ []) (some_injective (sym e))
  older_self (a ∷ xs) (suc node) e = ap (λ (t : List A). a ∷ t) (older_self xs node e)

  pub pair-older_even :
      (xs : List A) (node : ℕ) (x : A)
      → node < length xs
      → node % 2 ≡ 0
      → pair join (older xs node x) ≡ older (pair join xs) (node / 2) x
  pair-older_even [] node x p even = elim p [ ]
  pair-older_even (a ∷ xs) zero x p even = refl
  pair-older_even (a ∷ xs) (suc zero) x p even = absurd (omega arith)
  pair-older_even (a ∷ []) (suc (suc node)) x p even = absurd (omega arith)
  pair-older_even (a ∷ b ∷ r) (suc (suc node)) x p even =
      ap (λ (t : List A). join a b ∷ t) (pair-older_even r node x (omega arith) (omega arith))
      ∙ ap (λ (k : ℕ). older (join a b ∷ pair join r) k x) (halves_together node)

  pub pair-older_odd :
      (xs : List A) (node : ℕ) (x s : A)
      → node < length xs
      → node % 2 ≡ 1
      → sibling join xs node ≡ s ∷ []
      → pair join (older xs node x) ≡ older (pair join xs) (node / 2) (join s x)
  pair-older_odd [] node x s p odd e = elim p [ ]
  pair-older_odd (a ∷ xs) zero x s p odd e = absurd (omega arith)
  pair-older_odd (a ∷ []) (suc node) x s p odd e = absurd (omega arith)
  pair-older_odd (a ∷ b ∷ r) (suc zero) x s p odd e = ap (λ (t : A). join t x ∷ []) (cons_head e)
    where
      cons_head : {u v : A} {us vs : List A} → u ∷ us ≡ v ∷ vs → u ≡ v
      cons_head k = cc
  pair-older_odd (a ∷ b ∷ r) (suc (suc node)) x s p odd e =
      ap (λ (t : List A). join a b ∷ t) (pair-older_odd r node x s (omega arith) (omega arith) e)
      ∙ ap (λ (k : ℕ). older (join a b ∷ pair join r) k (join s x)) (halves_together node)
