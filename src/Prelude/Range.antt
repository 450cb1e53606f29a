-- ===== src/Prelude/Range.antt =====
-- A property of all numbers below a bound, decided by evaluation.
use Prim.Native.Nat.{ℕ, zero, suc, ◌<◌}
use mathlib.Core.Path.{◌≡◌}
use mathlib.Core.Bool.{Bool, true, ◌&&◌}
use native.Mathlib.Omega.{arith}

unfoldable pub holds_below : (ℕ → Bool) → ℕ → Bool
holds_below p zero = true
holds_below p (suc n) = holds_below p n && p n

pub holds_below-at : (p : ℕ → Bool) (n : ℕ) → holds_below p n ≡ true → (x : ℕ) → x < n → p x ≡ true
unfolding holds_below
holds_below-at p zero h x lt = absurd (omega arith)
holds_below-at p (suc n) h x lt = ground (arith, holds_below-at p n (ground arith) x)
