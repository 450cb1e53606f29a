-- ===== src/Clock/Divider.antt =====
-- The divider that clk_get_divider of Drivers/ClockManagementDxe/clock.c chooses.
use nintendo_switch_pkg.Prelude.{
  ℕ, suc, ◌+◌, ◌-◌, ◌*◌, ◌/◌, ◌%◌, ◌^◌, ◌≤◌, ◌<◌, ◌≡◌, inl, inr, Option, none, some, arith, ltb,
  leb, Bool-cases,
}
use native.Mathlib.Nat.{
  div-lt_iff_lt-mul, div-le_of_le-mul, mul-le-mul_left, one-le-pow, pow-le-pow_right, div-add-mod',
  mod-lt,
}
use nintendo_switch_pkg.Clock.Rate.{clk_get_divider, get_rate_from_divider}

-- The rate with divider `d` is at most `rate`; twice over, so that halves count.
abbrev pub IsSlowEnough : ℕ → ℕ → ℕ → Type 0
IsSlowEnough parent_rate rate d = parent_rate * 2 ≤ rate * (d + 2)

-- The quotient rounded up.
module _ (x rate : ℕ) (pos : 1 ≤ rate) where
  round_up-enough : x ≤ rate * ((x + (rate - 1)) / rate)
  round_up-enough =
      omega (arith, div-add-mod' (x + (rate - 1)) rate, mod-lt (x + (rate - 1)) {m = rate})

  round_up-least : (q : ℕ) → x ≤ rate * q → (x + (rate - 1)) / rate ≤ q
  round_up-least q h =
      let below : x + (rate - 1) < suc q * rate = omega arith in
      omega (arith, (div-lt_iff_lt-mul {k = rate} {x = x + (rate - 1)} {y = suc q} pos).1 below)

-- What the choice of a divider of `bits` bits comes to: the least divider that is slow enough, and
-- the rate it gives; or no divider of so many bits is slow enough.
abbrev pub Best : ℕ → ℕ → ℕ → Option ℕ → Type 0
Best bits parent_rate rate none = (d : ℕ) → d < 2 ^ bits → ¬ IsSlowEnough parent_rate rate d
Best bits parent_rate rate (some d) =
    (d < 2 ^ bits)
    × IsSlowEnough parent_rate rate d
    × ((d' : ℕ) → IsSlowEnough parent_rate rate d' → d ≤ d')
    × (get_rate_from_divider parent_rate d ≤ rate)

pub get_rate-slow :
    (parent_rate rate d : ℕ)
    → parent_rate < 2 ^ 32
    → d < 2 ^ 31
    → IsSlowEnough parent_rate rate d
    → get_rate_from_divider parent_rate d ≤ rate
unfolding get_rate_from_divider
get_rate-slow parent_rate rate d hp hd slow =
    let whole : parent_rate * 2 % 2 ^ 64 ≡ parent_rate * 2 = omega arith in
    let word : (d + 2) % 2 ^ 32 ≡ d + 2 = omega arith in
    rw (whole, word) (div-le_of_le-mul (d + 2) {m = parent_rate * 2} {n = rate} (omega arith))

-- For rates below 2 ^ 32, that of the child not 0, and dividers of at most 31 bits, clk_get_divider
-- returns the least divider whose rate does not exceed the one asked for, and that rate is what
-- get_rate_from_divider returns; it fails only where no divider of so many bits is slow enough.
pub clk_get_divider-Best :
    (bits parent_rate rate : ℕ)
    → bits ≤ 31
    → parent_rate < 2 ^ 32
    → 1 ≤ rate
    → rate < 2 ^ 32
    → Best bits parent_rate rate (clk_get_divider bits parent_rate rate)
unfolding clk_get_divider
clk_get_divider-Best bits parent_rate rate hb hp pos hr =
    let x : ℕ = parent_rate * 2 in
    let q : ℕ = (x + (rate - 1)) / rate in
    let sum : (parent_rate * 2 + (rate + (2 ^ 64 - 1))) % 2 ^ 64 ≡ x + (rate - 1) = omega arith in
    let word : rate % 2 ^ 32 ≡ rate = omega arith in
    let enough : x ≤ rate * q = round_up-enough x rate pos in
    elim (Bool-cases (ltb q 2)) [
      | inl small ↦
          rw (clk_get_divider, sum, word, small)
            (let two : q ≤ 2 = ground arith in
              let slow : IsSlowEnough parent_rate rate 0 =
                omega (arith, mul-le-mul_left rate two) in
              (
                omega (arith, one-le-pow bits 2),
                slow,
                λ d' slow'. omega arith,
                get_rate-slow parent_rate rate 0 hp (omega arith) slow,
              ))
      | inr large ↦ elim (Bool-cases (leb (2 ^ bits) (q - 2))) [
        | inl over ↦
            rw (clk_get_divider, sum, word, large, over)
              (let high : 2 ^ bits ≤ q - 2 = ground arith in
                λ d below slow. absurd (omega (arith, round_up-least x rate pos (d + 2) slow)))
        | inr fits ↦
            rw (clk_get_divider, sum, word, large, fits)
              (let low : q - 2 < 2 ^ bits = ground arith in
                let whole : q - 2 + 2 ≡ q = ground arith in
                let slow : IsSlowEnough parent_rate rate (q - 2) = rw whole enough in
                let word' : q - 2 < 2 ^ 31 =
                  omega (arith, pow-le-pow_right {n = 2} (omega arith) {i = bits} {j = 31} hb) in
                (
                  low,
                  slow,
                  λ d' slow'. omega (arith, round_up-least x rate pos (d' + 2) slow'),
                  get_rate-slow parent_rate rate (q - 2) hp word' slow,
                ))
      ]
    ]
