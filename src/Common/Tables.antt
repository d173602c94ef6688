-- ===== src/Common/Tables.antt =====
-- A test of every number below a bound, run once and used at any of them.
use Prim.Native.Nat.{ℕ, zero, suc, ◌<◌}
use mathlib.Core.Path.{◌≡◌, refl}
use mathlib.Core.Bool.{Bool, true, false, ◌&&◌}
use native.Mathlib.Omega.{arith}

abbrev pub all_below : ℕ → (ℕ → Bool) → Bool
all_below zero p = true
all_below (suc n) p = p n && all_below n p

pub all_below-lt : (n : ℕ) (p : ℕ → Bool) (x : ℕ) → all_below n p ≡ true → x < n → p x ≡ true
all_below-lt zero p x h lt = absurd (omega arith)
all_below-lt (suc n) p x h lt = ground (arith, all_below-lt n p x)

pub and-cases : {a b : Bool} → (a && b) ≡ true → (a ≡ true) × (b ≡ true)
and-cases {a = true} {b = true} h = (refl, refl)
and-cases {a = true} {b = false} h = cc
and-cases {a = false} {b} h = cc
