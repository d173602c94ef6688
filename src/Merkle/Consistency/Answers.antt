-- ===== src/Merkle/Consistency/Answers.antt =====
-- What verify_tree_consistency of python/ct/crypto/merkle.py answers, on every input.
use sky_zadro_docs.Common.{
  ℕ, suc, ◌-◌, ◌≤◌, ◌==◌, ltb, List, Bool, true, false, Bool-cases, ltb→le, ltb→lt, ◌≡◌, refl, ap,
  arith, ◌⊎◌, inl, inr,
}
use sky_zadro_docs.Common.Int.{ℤ, pos, negsuc}
use sky_zadro_docs.Errors.{
  Result, ok, raise, ◌>>=◌, value_error, consistency_error, proof_error, returns_true_or_raises,
}
use sky_zadro_docs.Merkle.Hasher.{Bytes, bytes_eq, TreeHasher}
use sky_zadro_docs.Merkle.Verifier.{
  Hashes, both_loop, new_loop, first_hashes, compare_roots, too_short, verify_path,
  check_tree_consistency, verify_tree_consistency,
}
use sky_zadro_docs.Merkle.Consistency.Ends.{
  OrShort, UpTo, Any, climb_ends, both_ends, new_ends, first-OrShort,
}

-- The verifier's answers on sizes in order.
abbrev pub Decided : Result Bool → Type 0
Decided r = (r ≡ ok true) ⊎ ((r ≡ raise consistency_error) ⊎ (r ≡ raise proof_error))

compare-Decided :
    (old_root new_root : Bytes) (s : Hashes) → Decided (compare_roots old_root new_root s)
unfolding compare_roots
compare-Decided old_root new_root s = elim (Bool-cases (bytes_eq s.new_hash new_root)) [
  | inr differ ↦ inr (inr (rw differ))
  | inl same ↦ elim (Bool-cases (bytes_eq s.old_hash old_root)) [
    | inl old_same ↦ inl (rw (same, old_same))
    | inr old_differ ↦ inr (inl (rw (same, old_differ)))
  ]
]

short-Decided : (r : Result Bool) → Decided r → Decided (too_short r)
short-Decided r (inl e) = inl (ap too_short e)
short-Decided r (inr (inl e)) = inr (inl (ap too_short e))
short-Decided r (inr (inr e)) = inr (inr (ap too_short e))

-- A part of the `try` block, and what follows it.
Decided-then {ℓ} :
    {A : Type ℓ} (P : A → Type 0) (first : Result A) (rest : A → Result Bool)
    → OrShort P first
    → ((a : A) → P a → Decided (too_short (rest a)))
    → Decided (too_short (first >>= rest))
Decided-then P first rest (inr e) then = inr (inr (ap (λ t. too_short (t >>= rest)) e))
Decided-then P first rest (inl (a, e, p)) then = rw e (then a p)

returned-Decided : (r : Result Bool) → Decided r → Decided (returns_true_or_raises r)
unfolding returns_true_or_raises
returned-Decided r (inl e) = inl (ap returns_true_or_raises e)
returned-Decided r (inr (inl e)) = inr (inl (ap returns_true_or_raises e))
returned-Decided r (inr (inr e)) = inr (inr (ap returns_true_or_raises e))

path-Decided :
    (h : TreeHasher) (old_size new_size : ℕ) (old_root new_root : Bytes) (proof : List Bytes)
    → old_size ≤ new_size
    → Decided (verify_path h old_size new_size old_root new_root proof)
unfolding verify_path
path-Decided h old_size new_size old_root new_root proof p =
    let (n, l, e, a, b) = climb_ends (suc new_size) (old_size - 1) (new_size - 1) (omega arith) in
    rw e (
      Decided-then Any (first_hashes n old_root proof) _ (first-OrShort n old_root proof) (λ s _.
        Decided-then (UpTo l) (both_loop h (suc new_size) n l s) _
          (both_ends h (suc new_size) n l s (omega (arith, a, p)))
          (λ t q.
            Decided-then Any (new_loop h (suc new_size) t.0 t.1) _
              (new_ends h (suc new_size) t.0 t.1 (omega (arith, b, q)))
              (λ u _. short-Decided _ (compare-Decided old_root new_root u)))))

-- Sizes that are not negative, the older one not above the newer one.
abbrev pub InOrder : ℤ → ℤ → Type 0
InOrder (pos old_size) (pos new_size) = old_size ≤ new_size
InOrder _ _ = ⊥

module _ (h : TreeHasher) (old_root new_root : Bytes) (proof : List Bytes) where
  abbrev pub VerdictOn : ℤ → ℤ → Result Bool → Type 0
  VerdictOn old_size new_size r =
      ((¬ InOrder old_size new_size) × (r ≡ raise value_error))
      ⊎ (InOrder old_size new_size × Decided r)

  check-Decided :
      (old_size new_size : ℕ)
      → old_size ≤ new_size
      → ltb new_size old_size ≡ false
      → Decided (check_tree_consistency h (pos old_size) (pos new_size) old_root new_root proof)
  unfolding check_tree_consistency
  check-Decided old_size new_size p order = elim (Bool-cases (old_size == new_size)) [
    | inl equal ↦ elim (Bool-cases (bytes_eq old_root new_root)) [
      | inl same ↦ inl (rw (order, equal, same))
      | inr differ ↦ inr (inl (rw (order, equal, differ)))
    ]
    | inr older ↦ elim (Bool-cases (old_size == 0)) [
      | inl empty ↦ inl (rw (order, older, empty))
      | inr some_leaf ↦
          rw (order, older, some_leaf) (path-Decided h old_size new_size old_root new_root proof p)
    ]
  ]

  -- verify_tree_consistency ends on every input: it raises ValueError exactly where a size is negative
  -- or the older size is above the newer one, and otherwise returns True or raises ConsistencyError
  -- or ProofError.
  pub verify_tree_consistency_verdict :
      (old_size new_size : ℤ)
      → VerdictOn old_size new_size
          (verify_tree_consistency h old_size new_size old_root new_root proof)
  unfolding verify_tree_consistency check_tree_consistency returns_true_or_raises
  verify_tree_consistency_verdict (negsuc a) new_size = inl (λ e. e, refl)
  verify_tree_consistency_verdict (pos a) (negsuc b) = inl (λ e. e, refl)
  verify_tree_consistency_verdict (pos a) (pos b) = elim (Bool-cases (ltb b a)) [
    | inl above ↦ inl (λ (e : a ≤ b). omega (arith, e, ltb→lt b a above), rw above)
    | inr order ↦
        let p : a ≤ b = ltb→le b a order in inr (p, returned-Decided _ (check-Decided a b p order))
  ]
