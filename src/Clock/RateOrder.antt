-- ===== src/Clock/RateOrder.antt =====
-- The order of the rates and errors in find_best_divider of Drivers/ClockManagementDxe/clock.c.
use nintendo_switch_pkg.Prelude.{ℕ, ◌+◌, ◌-◌, ◌*◌, ◌/◌, ◌%◌, ◌^◌, ◌≤◌, ◌<◌, ◌≡◌, arith, ltb}
use nintendo_switch_pkg.Prelude.Bits.{shr}
use nintendo_switch_pkg.Clock.Rate.{get_rate_from_divider}
use native.Mathlib.Nat.{mul-le-mul_left, le-div_iff_mul-le, mul-div-le, div-le_self, mod-eq_of_lt}
use nintendo_switch_pkg.Clock.BestDivider.{is_positive, lt_int, divided_parent, rate_error}

pub get_rate-anti :
    (parent d d' : ℕ)
    → d ≤ d'
    → d' < 2 ^ 31
    → get_rate_from_divider parent d' ≤ get_rate_from_divider parent d
unfolding get_rate_from_divider
get_rate-anti parent d d' le small =
    let x : ℕ = parent * 2 % 2 ^ 64 in
    let q : ℕ = x / (d' + 2) in
    let le_2 : d + 2 ≤ d' + 2 = omega arith in
    let word : (d + 2) % 2 ^ 32 ≡ d + 2 = omega arith in
    let word' : (d' + 2) % 2 ^ 32 ≡ d' + 2 = omega arith in
    rw (word, word')
      ((le-div_iff_mul-le {k = d + 2} {x = q} {y = x} (omega arith)).1
        (omega (arith, mul-div-le x (d' + 2), mul-le-mul_left q le_2)))

pub divided_parent-div :
    (parent shift : ℕ) → parent < 2 ^ 32 → divided_parent parent shift ≡ parent / 2 ^ shift
unfolding divided_parent shr
divided_parent-div parent shift h = mod-eq_of_lt (omega (arith, div-le_self parent (2 ^ shift)))

pub rate_error-sub :
    (parent rate d : ℕ)
    → rate < 2 ^ 31
    → get_rate_from_divider parent d ≤ rate
    → rate_error parent rate d ≡ rate - get_rate_from_divider parent d
unfolding rate_error
rate_error-sub parent rate d h le = omega arith

pub lt_int-ltb : (a b : ℕ) → a < 2 ^ 31 → b < 2 ^ 31 → lt_int a b ≡ ltb a b
unfolding lt_int
lt_int-ltb a b ha hb = ground arith

pub is_positive-ltb : (a : ℕ) → a < 2 ^ 31 → is_positive a ≡ ltb 0 a
unfolding is_positive
is_positive-ltb a h = ground arith
