-- ===== src/InMemory/Log.antt =====
-- Python's `math.log(n, 2)` is a float, and floating point is not part of this repository: the
-- float, its truncation and its comparison with an integer are parameters.
use sky_zadro_docs.Common.{ℕ, ◌*◌, ◌^◌, ◌≤◌, ◌<◌, ◌≡◌, Bool, true, false}

pub record MathLog : Type 1 where
  pub Float : Type 0
  -- math.log(n, 2)
  pub log : ℕ → Float
  -- int(x), for a float that is not negative
  pub int : Float → ℕ
  -- `p == x`
  pub equals : ℕ → Float → Bool

-- The float is exact enough for `n`: truncated it is the exponent of the largest power of two up to
-- `n`, and it equals that exponent only where `n` is the power itself.
pub record IsExact (m : MathLog) (n : ℕ) : Type 0 where
  pub below : 2 ^ m.int (m.log n) ≤ n
  pub above : n < 2 * 2 ^ m.int (m.log n)
  pub power : m.equals (m.int (m.log n)) (m.log n) ≡ true → n ≡ 2 ^ m.int (m.log n)
  pub no_power : m.equals (m.int (m.log n)) (m.log n) ≡ false → 2 ^ m.int (m.log n) < n

-- Exact enough for every number from 2 up to `n`.
abbrev pub ExactUpTo : MathLog → ℕ → Type 0
ExactUpTo m n = (i : ℕ) → 2 ≤ i → i ≤ n → IsExact m i
