-- ===== src/Merkle/Compact/Refines.antt =====
-- python/ct/crypto/merkle.py: CompactMerkleTree stands for the list of all leaves that it was given.
use sky_zadro_docs.Common.{
  ℕ, List, [], ◌∷◌, ◌++◌, length, length-map, Option, none, some, ◌≡◌, refl, sym, ap, ◌∙◌, arith,
  ◌⊎◌, inl,
}
use sky_zadro_docs.Errors.{Result, ok}
use sky_zadro_docs.Levels.Peaks.{peaks}
use sky_zadro_docs.Merkle.Bits.{lowest_bit_set}
use sky_zadro_docs.Merkle.Hasher.{Bytes, TreeHasher, hash_leaf}
use sky_zadro_docs.Merkle.Full.{nodes, node_root, node_peaks}
use sky_zadro_docs.Merkle.Compact.{CompactMerkleTree, make, append, extend}
use sky_zadro_docs.Merkle.Compact.Block.{tree_on, make-tree_on, push_subtree_lem}
use sky_zadro_docs.Merkle.Compact.Fill.{extend_ends}
use mathlib.Core.List.{map-append}

-- What a tree holds for its leaves. A kept root hash is the right one.
pub record Represents (h : TreeHasher) (leaves : List Bytes) (t : CompactMerkleTree) : Type 0 where
  pub same_hasher : t.hasher ≡ h
  pub size : t.tree_size ≡ length leaves
  pub subtrees : t.hashes ≡ node_peaks h (nodes h leaves)
  pub smallest : t.mintree_height ≡ lowest_bit_set (length leaves)
  pub kept : (t.cached_root ≡ none) ⊎ (t.cached_root ≡ some (node_root h (nodes h leaves)))

module _ (h : TreeHasher) where
  represented :
      (leaves : List Bytes) (t : CompactMerkleTree)
      → Represents h leaves t
      → t ≡ tree_on h (nodes h leaves) t.cached_root
  represented leaves t r = λ i. record {
    hasher = r.same_hasher i;
    tree_size = size i;
    hashes = r.subtrees i;
    mintree_height = smallest i;
    cached_root = t.cached_root;
  }
    where
      size : t.tree_size ≡ length (nodes h leaves)
      size = r.size ∙ sym (length-map leaves (hash_leaf h))

      smallest : t.mintree_height ≡ lowest_bit_set (length (nodes h leaves))
      smallest = r.smallest ∙ ap lowest_bit_set (sym (length-map leaves (hash_leaf h)))

  tree_on-Represents :
      (leaves : List Bytes) (cache : Option Bytes)
      → (cache ≡ none) ⊎ (cache ≡ some (node_root h (nodes h leaves)))
      → Represents h leaves (tree_on h (nodes h leaves) cache)
  tree_on-Represents leaves cache keeps = record {
    same_hasher = refl;
    size = length-map leaves (hash_leaf h);
    subtrees = refl;
    smallest = ap lowest_bit_set (length-map leaves (hash_leaf h));
    kept = keeps;
  }

  -- A result that is a tree for these leaves.
  abbrev pub Gives : Result CompactMerkleTree → List Bytes → Type 0
  Gives result leaves = (t : CompactMerkleTree) × (result ≡ ok t) × Represents h leaves t

  pub make-Gives :
      (leaves hashes : List Bytes) (n : ℕ)
      → n ≡ length leaves
      → hashes ≡ node_peaks h (nodes h leaves)
      → Gives (make h n hashes) leaves
  make-Gives leaves hashes n size same = (
    tree_on h (nodes h leaves) none,
    make-tree_on h n (nodes h leaves) hashes (size ∙ sym (length-map leaves (hash_leaf h))) same,
    tree_on-Represents leaves none (inl refl),
  )

  -- A new tree, of no size and no hashes, has no leaf.
  pub make_empty : Gives (make h 0 []) []
  make_empty = make-Gives [] [] 0 refl (unfold peaks in refl)

  -- Extending a tree for some leaves ends, raises nothing, and gives a tree for these leaves and the
  -- new ones after them, whatever their number is.
  pub extend_refines :
      (leaves new_leaves : List Bytes) (t : CompactMerkleTree)
      → Represents h leaves t
      → Gives (extend t new_leaves) (leaves ++ new_leaves)
  extend_refines leaves new_leaves t r =
      let (cache, run, keeps) = extend_ends h (nodes h leaves) new_leaves t.cached_root r.kept in
      (
        tree_on h (nodes h (leaves ++ new_leaves)) cache,
        ap (λ (u : CompactMerkleTree). extend u new_leaves) (represented leaves t r)
            ∙ run
            ∙ ap (λ (ns : List Bytes). ok (tree_on h ns cache)) joined,
        tree_on-Represents (leaves ++ new_leaves) cache (rw (sym joined) keeps),
      )
    where
      joined : nodes h leaves ++ nodes h new_leaves ≡ nodes h (leaves ++ new_leaves)
      joined = sym (map-append (hash_leaf h) leaves new_leaves)

  -- Appending a leaf to a tree for some leaves ends, raises nothing, and gives a tree for these
  -- leaves and the new one, through as many carries as it takes.
  pub append_refines :
      (leaves : List Bytes) (new_leaf : Bytes) (t : CompactMerkleTree)
      → Represents h leaves t
      → Gives (append t new_leaf) (leaves ++ new_leaf ∷ [])
  unfolding append
  append_refines leaves new_leaf t r = (
    tree_on h (nodes h (leaves ++ new_leaf ∷ [])) none,
    ap (λ (u : CompactMerkleTree). append u new_leaf) (represented leaves t r)
        ∙ push_subtree_lem h 0 (length (nodes h leaves)) (nodes h leaves) (new_leaf ∷ [])
            t.cached_root (omega arith) refl
        ∙ ap (λ (ns : List Bytes). ok (tree_on h ns none))
            (sym (map-append (hash_leaf h) leaves (new_leaf ∷ []))),
    tree_on-Represents (leaves ++ new_leaf ∷ []) none (inl refl),
  )
