-- ===== src/Tests/Toy.antt =====
-- A toy hash function, and an exact logarithm.
use sky_zadro_docs.Common.{
  ℕ, ◌+◌, ◌-◌, ◌*◌, ◌%◌, ◌^◌, ◌≤◌, ◌<◌, ◌==◌, ==_iff, List, [], ◌∷◌, ◌≡◌, refl, sym, arith, false,
  ◌∙◌,
}
use sky_zadro_docs.Levels.Split.{bit_length, bit_length-HasBits, pow_pred}
use sky_zadro_docs.Merkle.Hasher.{Bytes, TreeHasher}
use sky_zadro_docs.Merkle.Collision.{HasSize}
use sky_zadro_docs.InMemory.Log.{MathLog, ExactUpTo}
use mathlib.Core.Bool.{false≢true}

abbrev pub weigh : ℕ → Bytes → ℕ
weigh acc [] = acc
weigh acc (b ∷ r) = weigh ((31 * acc + b + 1) % 251) r

abbrev pub toy : TreeHasher
toy = record { hashfunc = λ x. weigh 7 x ∷ [] }

pub toy-HasSize : HasSize toy 1
toy-HasSize x = refl

abbrev pub integer_log : MathLog
integer_log = record {
  Float = ℕ;
  log = λ n. n;
  int = λ x. bit_length x - 1;
  equals = λ p x. 2 ^ p == x;
}

pub integer_log-ExactUpTo : (n : ℕ) → ExactUpTo integer_log n
integer_log-ExactUpTo n i two le = record {
  below = bits.1;
  above = omega (arith, bits, pow_pred (bit_length i) bits.0);
  power = λ e. sym ((==_iff (2 ^ (bit_length i - 1)) i).0 e);
  no_power = λ e. strictly e;
}
  where
    bits : (0 < bit_length i) × (2 ^ (bit_length i - 1) ≤ i) × (i < 2 ^ bit_length i)
    bits = bit_length-HasBits i (omega arith)

    strictly : (2 ^ (bit_length i - 1) == i) ≡ false → 2 ^ (bit_length i - 1) < i
    strictly e = omega (
      arith,
      bits,
      λ (p : 2 ^ (bit_length i - 1) ≡ i).
          false≢true (sym e ∙ (==_iff (2 ^ (bit_length i - 1)) i).1 p),
    )

abbrev pub five : List Bytes
five = (10 ∷ []) ∷ (20 ∷ 21 ∷ []) ∷ [] ∷ (40 ∷ []) ∷ (50 ∷ []) ∷ []
