-- ===== src/Prelude/Bits.antt =====
-- The bits of a word, and the C operators on them: `&`, `|`, `~`, `<<`, `>>` at 32 bits.
mod Step
pub mod Bound
use Step.{bit_and_step, bit_or_step}
use Prim.Native.Nat.{ℕ, zero, suc, ◌+◌, ◌-◌, ◌*◌, ◌/◌, ◌%◌, ◌^◌, ◌≤◌, ◌<◌, bit_and, bit_or}
use mathlib.Core.Path.{◌≡◌, refl, sym, ap, ◌∙◌}
use mathlib.Core.Bool.{Bool, true, false, not, ◌&&◌, ◌||◌}
use native.Mathlib.Omega.{arith}
use native.Mathlib.Nat.{
  pow-suc, one-le-pow, div-div-eq-div-mul, div-add-mod', mod-one, mod-lt, div-one, mod-eq_of_lt,
  zero-mod,
}
use mathlib.Core.Logic.{inl, inr}
use nintendo_switch_pkg.Prelude.Tests.{ltb, ◌==◌, if◌then◌else◌, Bool-cases}

-- Bit `i` of `x`.
unfoldable pub test_bit : ℕ → ℕ → Bool
test_bit x zero = x % 2 == 1
test_bit x (suc i) = test_bit (x / 2) i

-- `~x` of a 32-bit word.
unfoldable pub not32 : ℕ → ℕ
not32 x = 2 ^ 32 - 1 - x % 2 ^ 32

-- `x << k` of a 32-bit word.
unfoldable pub shl32 : ℕ → ℕ → ℕ
shl32 x k = (x * 2 ^ k) % 2 ^ 32

-- `x >> k`.
unfoldable pub shr : ℕ → ℕ → ℕ
shr x k = x / 2 ^ k

pub test_bit-bit_and : (i a b : ℕ) → test_bit (bit_and a b) i ≡ (test_bit a i && test_bit b i)
unfolding test_bit
test_bit-bit_and zero a b = ground (arith, bit_and_step a b)
test_bit-bit_and (suc i) a b =
    let halved : bit_and a b / 2 ≡ bit_and (a / 2) (b / 2) = omega (arith, bit_and_step a b) in
    rw halved (test_bit-bit_and i (a / 2) (b / 2))

pub test_bit-bit_or : (i a b : ℕ) → test_bit (bit_or a b) i ≡ (test_bit a i || test_bit b i)
unfolding test_bit
test_bit-bit_or zero a b = ground (arith, bit_or_step a b)
test_bit-bit_or (suc i) a b =
    let halved : bit_or a b / 2 ≡ bit_or (a / 2) (b / 2) = omega (arith, bit_or_step a b) in
    rw halved (test_bit-bit_or i (a / 2) (b / 2))

pub test_bit-zero : (i : ℕ) → test_bit 0 i ≡ false
unfolding test_bit
test_bit-zero zero = refl
test_bit-zero (suc i) = test_bit-zero i

halve_div : (x p : ℕ) → x / (p * 2) ≡ x / 2 / p
halve_div x p = ap (λ d. x / d) (omega arith) ∙ sym (div-div-eq-div-mul x 2 p)

halve_mod : (x p : ℕ) → x % (p * 2) / 2 ≡ x / 2 % p
halve_mod x p =
    omega
      (arith, ap (λ (d : ℕ). d * p) (halve_div x p), div-add-mod' x (p * 2), div-add-mod' (x / 2) p)

parity_mod : (x p : ℕ) → x % (p * 2) % 2 ≡ x % 2
parity_mod x p = omega (arith, div-add-mod' x (p * 2))

pub test_bit-low : (k x i : ℕ) → test_bit (x % 2 ^ k) i ≡ (ltb i k && test_bit x i)
unfolding test_bit
test_bit-low zero x i = ground (arith, test_bit-zero i, mod-one x)
test_bit-low (suc k) x zero = rw (pow-suc 2 k, parity_mod x (2 ^ k)) (ground arith)
test_bit-low (suc k) x (suc i) =
    rw (pow-suc 2 k, halve_mod x (2 ^ k), test_bit-low k (x / 2) i) (ground arith)

-- The complement of the low `k` bits.
test_bit-complement :
    (k x i : ℕ) → test_bit (2 ^ k - 1 - x % 2 ^ k) i ≡ (ltb i k && not (test_bit x i))
unfolding test_bit
test_bit-complement zero x i = ground (arith, test_bit-zero i, mod-one x)
test_bit-complement (suc k) x zero =
    rw (pow-suc 2 k)
      (ground (arith, parity_mod x (2 ^ k), mod-lt x {m = 2 ^ k * 2}, one-le-pow k 2))
test_bit-complement (suc k) x (suc i) =
    let halved : (2 ^ suc k - 1 - x % 2 ^ suc k) / 2 ≡ 2 ^ k - 1 - x / 2 % 2 ^ k =
      rw (pow-suc 2 k)
        (omega (arith, halve_mod x (2 ^ k), mod-lt x {m = 2 ^ k * 2}, one-le-pow k 2)) in
    rw (halved, test_bit-complement k (x / 2) i) (ground arith)

pub test_bit-not32 : (x i : ℕ) → test_bit (not32 x) i ≡ (ltb i 32 && not (test_bit x i))
unfolding not32
test_bit-not32 x i = test_bit-complement 32 x i

pub test_bit-shr : (k x i : ℕ) → test_bit (shr x k) i ≡ test_bit x (k + i)
unfolding shr test_bit
test_bit-shr zero x i = let index : 0 + i ≡ i = omega arith in rw (index, div-one x)
test_bit-shr (suc k) x i =
    let index : suc k + i ≡ suc (k + i) = omega arith in
    rw (index, pow-suc 2 k, halve_div x (2 ^ k)) (test_bit-shr k (x / 2) i)

test_bit-mul_pow :
    (k x i : ℕ) → test_bit (x * 2 ^ k) i ≡ (if ltb i k then false else test_bit x (i - k))
unfolding test_bit
test_bit-mul_pow zero x i =
    let same : x * 1 ≡ x = omega arith in
    let index : i - 0 ≡ i = omega arith in rw (same, index) (ground arith)
test_bit-mul_pow (suc k) x zero = rw (pow-suc 2 k) (ground arith)
test_bit-mul_pow (suc k) x (suc i) =
    let halved : x * 2 ^ suc k / 2 ≡ x * 2 ^ k = rw (pow-suc 2 k) (omega arith) in
    let index : suc i - suc k ≡ i - k = omega arith in
    rw (halved, index, test_bit-mul_pow k x i) (ground arith)

pub test_bit-shl32 :
    (k x i : ℕ)
    → test_bit (shl32 x k) i ≡ (ltb i 32 && (if ltb i k then false else test_bit x (i - k)))
unfolding shl32
test_bit-shl32 k x i = rw (test_bit-low 32 (x * 2 ^ k) i, test_bit-mul_pow k x i)

-- A word is determined by its bits.
bits_fuel : (n x y : ℕ) → x < n → y < n → ((i : ℕ) → test_bit x i ≡ test_bit y i) → x ≡ y
unfolding test_bit
bits_fuel zero x y hx hy same = absurd (omega arith)
bits_fuel (suc n) zero zero hx hy same = refl
bits_fuel (suc n) zero (suc y) hx hy same =
    ground
      (arith, same 0, bits_fuel n 0 (suc y / 2) (omega arith) (omega arith) (λ i. same (suc i)))
bits_fuel (suc n) (suc x) y hx hy same =
    ground (
      arith,
      same 0,
      bits_fuel n (suc x / 2) (y / 2) (omega arith) (omega arith) (λ i. same (suc i)),
    )

pub eq_of_bits : (x y : ℕ) → ((i : ℕ) → test_bit x i ≡ test_bit y i) → x ≡ y
eq_of_bits x y = bits_fuel (suc (x + y)) x y (omega arith) (omega arith)

-- A number below `2 ^ k` has no bit from `k` on.
pub test_bit-high : (k x i : ℕ) → x < 2 ^ k → k ≤ i → test_bit x i ≡ false
test_bit-high k x i small high = rw (← mod-eq_of_lt small, test_bit-low k x i) (ground arith)

-- `(1 << w) - 1`: the low `w` bits.
pub test_bit-ones : (w i : ℕ) → test_bit (2 ^ w - 1) i ≡ ltb i w
test_bit-ones w i =
    let none_set : 2 ^ w - 1 ≡ 2 ^ w - 1 - 0 % 2 ^ w = omega (arith, zero-mod (2 ^ w)) in
    rw (none_set, test_bit-complement w 0 i, test_bit-zero i) (ground arith)

pub bit_and-ones : (k x : ℕ) → bit_and x (2 ^ k - 1) ≡ x % 2 ^ k
bit_and-ones k x =
    eq_of_bits _ _ λ i.
      rw (test_bit-bit_and i x (2 ^ k - 1), test_bit-ones k i, test_bit-low k x i) (ground arith)

pub test_bit-pow : (k i : ℕ) → test_bit (2 ^ k) i ≡ (i == k)
test_bit-pow k i =
    let one : 2 ^ k ≡ 1 * 2 ^ k = omega arith in
    rw (one, test_bit-mul_pow k 1 i) (ground (arith, test_bit-ones 1 (i - k)))

-- The C test `x & (1 << k)`.
pub bit_and-pow_eq_zero : (k x : ℕ) → (bit_and x (2 ^ k) == 0) ≡ not (test_bit x k)
bit_and-pow_eq_zero k x = elim (Bool-cases (test_bit x k)) [
  | inl set ↦ ground (
    arith,
    ap (λ (w : ℕ). test_bit w k),
    test_bit-bit_and k x (2 ^ k),
    test_bit-pow k k,
    test_bit-zero k,
  )
  | inr clear ↦
      let none_set : bit_and x (2 ^ k) ≡ 0 =
        eq_of_bits _ _ λ i.
          rw (test_bit-bit_and i x (2 ^ k), test_bit-pow k i, test_bit-zero i) (ground arith) in
      rw (none_set, clear)
]
