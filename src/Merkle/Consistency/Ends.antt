-- ===== src/Merkle/Consistency/Ends.antt =====
-- The loops of verify_tree_consistency in python/ct/crypto/merkle.py end on every input, or use up the
-- proof.
use sky_zadro_docs.Common.{
  ℕ, zero, suc, ◌/◌, ◌%◌, ◌≤◌, ◌<◌, ◌==◌, ltb, List, [], ◌∷◌, false, Bool-cases, ==_iff, ◌≡◌, refl,
  sym, ap, ◌∙◌, arith, ◌⊎◌, inl, inr,
}
use sky_zadro_docs.Errors.{Result, ok, raise, ◌>>=◌, stop_iteration}
use sky_zadro_docs.Merkle.Hasher.{Bytes, TreeHasher, hash_children}
use sky_zadro_docs.Merkle.Verifier.{
  Hashes, hashes, climb_right, next, both_loop, new_loop, first_hashes,
}
use mathlib.Core.Bool.{false≢true}

zero_or_pos : (n : ℕ) → (n ≡ 0) ⊎ (0 < n)
zero_or_pos n = omega arith

-- A result, or the end of the proof.
abbrev pub OrShort {ℓ} : {A : Type ℓ} → (A → Type 0) → Result A → Type ℓ
OrShort {A = A} P r = ((a : A) × (r ≡ ok a) × P a) ⊎ (r ≡ raise stop_iteration)

OrShort-then {ℓ κ} :
    {A : Type ℓ} {B : Type κ} (P : A → Type 0) (Q : B → Type 0) (first : Result A)
    (rest : A → Result B)
    → OrShort P first
    → ((a : A) → P a → OrShort Q (rest a))
    → OrShort Q (first >>= rest)
OrShort-then P Q first rest (inr e) then = inr (ap (λ t. t >>= rest) e)
OrShort-then P Q first rest (inl (a, e, p)) then = elim (then a p) [
  | inl (b, f, q) ↦ inl (b, ap (λ t. t >>= rest) e ∙ f, q)
  | inr f ↦ inr (ap (λ t. t >>= rest) e ∙ f)
]

abbrev pub UpTo : ℕ → ℕ × Hashes → Type 0
UpTo last p = p.0 ≤ last

abbrev pub Any {ℓ} : {A : Type ℓ} → A → Type 0
Any a = Unit {0}

next-OrShort : (xs : List Bytes) → OrShort Any (next xs)
unfolding next
next-OrShort [] = inr refl
next-OrShort (x ∷ xs) = inl ((x, xs), refl, tt)

lower :
    (low high : ℕ) (r : Result (ℕ × Hashes))
    → low ≤ high
    → OrShort (UpTo low) r
    → OrShort (UpTo high) r
lower low high r p (inl (a, e, q)) = inl (a, e, omega (arith, p, q))
lower low high r p (inr e) = inr e

pub climb_ends :
    (f node last_node : ℕ)
    → node < f
    → (n : ℕ) × (l : ℕ) × (climb_right f node last_node ≡ ok (n, l)) × (n ≤ node) × (l ≤ last_node)
unfolding climb_right
climb_ends zero node last_node p = absurd (omega arith)
climb_ends (suc f) node last_node p = elim (Bool-cases (node % 2 == 1)) [
  | inr even ↦ (node, last_node, rw even, omega arith, omega arith)
  | inl odd ↦
      let one : node % 2 ≡ 1 = (==_iff (node % 2) 1).0 odd in
      let (n, l, e, a, b) = climb_ends f (node / 2) (last_node / 2) (omega (arith, one, p)) in
      (n, l, rw odd e, omega (arith, a), omega (arith, b))
]

module _ (h : TreeHasher) where
  pub both_ends :
      (f node last_node : ℕ) (s : Hashes)
      → node < f
      → OrShort (UpTo last_node) (both_loop h f node last_node s)
  unfolding both_loop
  both_ends zero node last_node s p = absurd (omega arith)
  both_ends (suc f) node last_node s p = elim (Bool-cases (node == 0)) [
    | inl done ↦ inl ((last_node, s), rw done, omega arith)
    | inr more ↦ elim (Bool-cases (node % 2 == 1)) [
      | inl odd ↦
          rw (more, odd)
            (OrShort-then Any (UpTo last_node) (next s.rest) _ (next-OrShort s.rest) (λ a _.
              up (half more) (λ q.
                both_ends f (node / 2) (last_node / 2)
                  (hashes (hash_children h a.0 s.old_hash) (hash_children h a.0 s.new_hash) a.1)
                  q)))
      | inr even ↦ elim (Bool-cases (ltb node last_node)) [
        | inl inside ↦
            rw (more, even, inside)
              (OrShort-then Any (UpTo last_node) (next s.rest) _ (next-OrShort s.rest) (λ a _.
                up (half more) (λ q.
                  both_ends f (node / 2) (last_node / 2)
                    (hashes s.old_hash (hash_children h s.new_hash a.0) a.1) q)))
        | inr end ↦
            rw (more, even, end) (up (half more) (λ q. both_ends f (node / 2) (last_node / 2) s q))
      ]
    ]
  ]
    where
      half : (node == 0) ≡ false → node / 2 < f
      half more = elim (zero_or_pos node) [
        | inl z ↦ absurd (false≢true (sym more ∙ (==_iff node 0).1 z))
        | inr q ↦ omega (arith, p, q)
      ]

      up :
          {r : Result (ℕ × Hashes)}
          → node / 2 < f
          → (node / 2 < f → OrShort (UpTo (last_node / 2)) r)
          → OrShort (UpTo last_node) r
      up q run = lower (last_node / 2) last_node _ (omega arith) (run q)

  pub new_ends :
      (f last_node : ℕ) (s : Hashes) → last_node < f → OrShort Any (new_loop h f last_node s)
  unfolding new_loop
  new_ends zero last_node s p = absurd (omega arith)
  new_ends (suc f) last_node s p = elim (Bool-cases (last_node == 0)) [
    | inl done ↦ inl (s, rw done, tt)
    | inr more ↦ rw more (
        OrShort-then Any Any (next s.rest) _ (next-OrShort s.rest) (λ a _.
          new_ends f (last_node / 2) (hashes s.old_hash (hash_children h s.new_hash a.0) a.1)
            (less more)))
  ]
    where
      less : (last_node == 0) ≡ false → last_node / 2 < f
      less more = elim (zero_or_pos last_node) [
        | inl z ↦ absurd (false≢true (sym more ∙ (==_iff last_node 0).1 z))
        | inr q ↦ omega (arith, p, q)
      ]

pub first-OrShort :
    (node : ℕ) (old_root : Bytes) (proof : List Bytes)
    → OrShort Any (first_hashes node old_root proof)
unfolding first_hashes
first-OrShort node old_root proof = elim (Bool-cases (node == 0)) [
  | inl start ↦ inl (hashes old_root old_root proof, rw start, tt)
  | inr sent ↦ rw sent (
      OrShort-then Any Any (next proof) _ (next-OrShort proof)
        (λ a _. inl (hashes a.0 a.0 a.1, refl, tt)))
]
