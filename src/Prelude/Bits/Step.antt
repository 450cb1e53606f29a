-- ===== src/Prelude/Bits/Step.antt =====
-- The lowest binary digit of `&` and `|`, from the recursion on digits that the native operations
-- stand for.
use Prim.Native.Nat.{ℕ, zero, suc, ◌+◌, ◌*◌, ◌/◌, ◌%◌, ◌≤◌, min, max, bit_and, bit_or}
use Prim.Native.Nat.{digits, bitwise, bit_and-bitwise, bit_or-bitwise}
use mathlib.Core.Path.{◌≡◌, refl}
use native.Mathlib.Omega.{arith}

-- `last` is the answer where the first number has run out, `op` the digit-wise operation.
module _ (last : ℕ → ℕ) (op : ℕ → ℕ → ℕ) where
  enough_fuel : (j k x y : ℕ) → x ≤ j → x ≤ k → digits last op j x y ≡ digits last op k x y
  enough_fuel zero zero x y hj hk = refl
  enough_fuel zero (suc k) zero y hj hk = refl
  enough_fuel zero (suc k) (suc x) y hj hk = absurd (omega arith)
  enough_fuel (suc j) zero zero y hj hk = refl
  enough_fuel (suc j) zero (suc x) y hj hk = absurd (omega arith)
  enough_fuel (suc j) (suc k) zero y hj hk = refl
  enough_fuel (suc j) (suc k) (suc x) y hj hk =
      omega (arith, enough_fuel j k (suc x / 2) (y / 2) (omega arith) (omega arith))

  lowest_digit :
      (x y : ℕ)
      → bitwise last op (suc x) y ≡ bitwise last op (suc x / 2) (y / 2) * 2 + op (suc x % 2) (y % 2)
  lowest_digit x y =
      omega (arith, enough_fuel x (suc x / 2) (suc x / 2) (y / 2) (omega arith) (omega arith))

pub bit_and_step : (x y : ℕ) → bit_and x y ≡ bit_and (x / 2) (y / 2) * 2 + min (x % 2) (y % 2)
bit_and_step zero y = omega (arith, bit_and-bitwise 0 y, bit_and-bitwise 0 (y / 2))
bit_and_step (suc x) y = omega (
  arith,
  bit_and-bitwise (suc x) y,
  bit_and-bitwise (suc x / 2) (y / 2),
  lowest_digit (λ _. 0) min x y,
)

pub bit_or_step : (x y : ℕ) → bit_or x y ≡ bit_or (x / 2) (y / 2) * 2 + max (x % 2) (y % 2)
bit_or_step zero y = omega (arith, bit_or-bitwise 0 y, bit_or-bitwise 0 (y / 2))
bit_or_step (suc x) y = omega (
  arith,
  bit_or-bitwise (suc x) y,
  bit_or-bitwise (suc x / 2) (y / 2),
  lowest_digit (λ d. d) max x y,
)
