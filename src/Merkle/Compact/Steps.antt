-- ===== src/Merkle/Compact/Steps.antt =====
-- python/ct/crypto/merkle.py: the two branches of CompactMerkleTree.__push_subtree_hash, and the
-- smallest subtree of a size.
use sky_zadro_docs.Common.{
  ℕ, suc, ◌+◌, ◌-◌, ◌*◌, ◌/◌, ◌^◌, ◌<◌, ◌==◌, ltb, ◌||◌, true, false, List, [], ◌∷◌, ◌++◌, length,
  ◌≡◌, refl, ap, ◌∙◌, arith, lt→ltb, le→ltb, ◌⊎◌, inl, inr,
}
use sky_zadro_docs.Errors.{Result, ok, ◌>>=◌}
use sky_zadro_docs.Merkle.Bits.{lowest_bit_set, lowest_bit_set_odd, lowest_bit_set_zero}
use sky_zadro_docs.Merkle.Compact.Powers.{lowest_bit_set_shift, lowest_bit_set_pos}
use sky_zadro_docs.Merkle.Hasher.{Bytes, hash_children}
use sky_zadro_docs.Merkle.Compact.{CompactMerkleTree, update, last_hash, push_subtree_hash}

pub last_hash-append :
    (front : List Bytes) (y : Bytes) → last_hash (front ++ y ∷ []) ≡ ok (front, y)
unfolding last_hash
last_hash-append [] y = refl
last_hash-append (a ∷ []) y = refl
last_hash-append (a ∷ b ∷ r) y =
    ap (λ (t : Result (List Bytes × Bytes)). t >>= λ parts. ok (a ∷ parts.0, parts.1))
      (last_hash-append (b ∷ r) y)

-- A list that is not empty has a last element.
pub last_element :
    (ns : List Bytes) → 0 < length ns → (front : List Bytes) × (y : Bytes) × (ns ≡ front ++ y ∷ [])
last_element [] p = absurd (omega arith)
last_element (a ∷ []) p = ([], a, refl)
last_element (a ∷ b ∷ r) p =
    let (front, y, e) = last_element (b ∷ r) (omega arith) in
    (a ∷ front, y, ap (λ (t : List Bytes). a ∷ t) e)

pub parity : (n : ℕ) → (n ≡ 2 * (n / 2)) ⊎ (n ≡ 2 * (n / 2) + 1)
parity n = omega arith

zero_or_pos : (n : ℕ) → (n ≡ 0) ⊎ (0 < n)
zero_or_pos n = omega arith

-- The smallest subtree of a multiple of 2 ^ (j + 1) is higher than a subtree of 2 ^ j leaves.
pub free :
    (j m n : ℕ)
    → n ≡ m * 2 ^ suc j
    → (ltb (suc j) (lowest_bit_set n) || lowest_bit_set n == 0) ≡ true
free j m n e = elim (zero_or_pos m) [
  | inl none_left ↦
      rw (ap lowest_bit_set (empty none_left) ∙ lowest_bit_set_zero, le→ltb (suc j) 0 (omega arith))
  | inr p ↦ rw (lt→ltb (suc j) (lowest_bit_set n) (higher p))
]
  where
    empty : m ≡ 0 → n ≡ 0
    empty z = e ∙ ap (λ (t : ℕ). t * 2 ^ suc j) z ∙ omega arith

    higher : 0 < m → suc j < lowest_bit_set n
    higher p =
        omega (arith, ap lowest_bit_set e, lowest_bit_set_shift m (suc j) p, lowest_bit_set_pos m p)

-- The smallest subtree of an odd number of subtrees of 2 ^ j leaves.
pub taken : (j m n : ℕ) → n ≡ (2 * m + 1) * 2 ^ j → lowest_bit_set n ≡ suc j
taken j m n e = omega (
  arith,
  ap lowest_bit_set e,
  lowest_bit_set_shift (2 * m + 1) j (omega arith),
  lowest_bit_set_odd m,
)

one_more : (n p : ℕ) → n * p + p ≡ (n + 1) * p
one_more n p = grind arith

pub grown_by : (n j : ℕ) → n * 2 ^ j + 2 ^ (suc j - 1) ≡ (n + 1) * 2 ^ j
grown_by n j = ap (λ (t : ℕ). n * 2 ^ j + 2 ^ t) pred ∙ one_more n (2 ^ j)
  where
    pred : suc j - 1 ≡ j
    pred = omega arith

pub shrunk_by : (n j : ℕ) → (n + 1) * 2 ^ j - 2 ^ (suc j - 1) ≡ n * 2 ^ j
shrunk_by n j = omega (arith, grown_by n j)

-- The two branches of `__push_subtree_hash`.
pub push_free :
    (f : ℕ) (t : CompactMerkleTree) (sh : ℕ) (x : Bytes)
    → (ltb sh t.mintree_height || t.mintree_height == 0) ≡ true
    → push_subtree_hash (suc f) t sh x ≡ update t (t.tree_size + 2 ^ (sh - 1)) (t.hashes ++ x ∷ [])
unfolding push_subtree_hash
push_free f t sh x e = rw e

pub push_carry :
    (f : ℕ) (t t' : CompactMerkleTree) (sh : ℕ) (x prev : Bytes) (front : List Bytes)
    → (ltb sh t.mintree_height || t.mintree_height == 0) ≡ false
    → (sh == t.mintree_height) ≡ true
    → last_hash t.hashes ≡ ok (front, prev)
    → update t (t.tree_size - 2 ^ (sh - 1)) front ≡ ok t'
    → (ltb t.mintree_height t'.mintree_height || t'.mintree_height == 0) ≡ true
    → push_subtree_hash (suc f) t sh x
      ≡ push_subtree_hash f t' (sh + 1) (hash_children t.hasher prev x)
unfolding push_subtree_hash
push_carry f t t' sh x prev front blocked same last smaller rest =
    rw (blocked, same, last, smaller, rest)
