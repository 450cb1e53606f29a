-- ===== src/Prelude/Bits/Bound.antt =====
-- Bounds on `&` and `|`.
use Prim.Native.Nat.{ℕ, zero, suc, ◌+◌, ◌*◌, ◌/◌, ◌%◌, ◌^◌, ◌≤◌, ◌<◌, bit_and, bit_or}
use mathlib.Core.Path.{◌≡◌}
use native.Mathlib.Omega.{arith}
use native.Mathlib.Nat.{pow-suc}
use nintendo_switch_pkg.Prelude.Bits.Step.{bit_and_step, bit_or_step}

and_fuel : (n x y : ℕ) → x + y < n → bit_and x y ≤ y
and_fuel zero x y small = absurd (omega arith)
and_fuel (suc n) zero zero small = omega (arith, bit_and_step 0 0)
and_fuel (suc n) (suc x) zero small =
    omega (arith, bit_and_step (suc x) 0, and_fuel n (suc x / 2) 0 (omega arith))
and_fuel (suc n) x (suc y) small =
    omega (arith, bit_and_step x (suc y), and_fuel n (x / 2) (suc y / 2) (omega arith))

pub bit_and-le : (x y : ℕ) → bit_and x y ≤ y
bit_and-le x y = and_fuel (suc (x + y)) x y (omega arith)

or_fuel : (n x y : ℕ) → x + y < n → bit_or x y ≤ x + y
or_fuel zero x y small = absurd (omega arith)
or_fuel (suc n) zero zero small = omega (arith, bit_or_step 0 0)
or_fuel (suc n) (suc x) y small =
    omega (arith, bit_or_step (suc x) y, or_fuel n (suc x / 2) (y / 2) (omega arith))
or_fuel (suc n) zero (suc y) small =
    omega (arith, bit_or_step 0 (suc y), or_fuel n 0 (suc y / 2) (omega arith))

pub bit_or-le : (x y : ℕ) → bit_or x y ≤ x + y
bit_or-le x y = or_fuel (suc (x + y)) x y (omega arith)

or_zero_fuel : (n x : ℕ) → x < n → bit_or x 0 ≡ x
or_zero_fuel zero x small = absurd (omega arith)
or_zero_fuel (suc n) zero small = omega (arith, bit_or_step 0 0)
or_zero_fuel (suc n) (suc x) small =
    omega (arith, bit_or_step (suc x) 0, or_zero_fuel n (suc x / 2) (omega arith))

-- `|` of parts that do not overlap.
pub bit_or-apart : (k x y : ℕ) → y < 2 ^ k → bit_or (x * 2 ^ k) y ≡ x * 2 ^ k + y
bit_or-apart zero x zero small = omega (arith, or_zero_fuel (suc (x * 1)) (x * 1) (omega arith))
bit_or-apart zero x (suc y) small = absurd (omega arith)
bit_or-apart (suc k) x y small =
    let half : y / 2 < 2 ^ k = omega (arith, pow-suc 2 k) in
    let shifted : x * 2 ^ suc k ≡ x * 2 ^ k * 2 = rw (pow-suc 2 k) (omega arith) in
    let halved : x * 2 ^ k * 2 / 2 ≡ x * 2 ^ k = omega arith in
    let even : x * 2 ^ k * 2 % 2 ≡ 0 = omega arith in
    rw (shifted, bit_or_step (x * 2 ^ k * 2) y, halved, even, bit_or-apart k x (y / 2) half)
      (omega arith)
