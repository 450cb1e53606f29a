-- ===== src/Clock/SecondStage.antt =====
-- What the second-stage divisor of find_best_divider of Drivers/ClockManagementDxe/clock.c is needed for.
use nintendo_switch_pkg.Prelude.{
  ℕ, zero, suc, ◌+◌, ◌*◌, ◌/◌, ◌%◌, ◌^◌, ◌≤◌, ◌<◌, ◌≡◌, ◌≢◌, inl, inr, some, arith, ◌==◌,
  Bool-cases,
}
use nintendo_switch_pkg.Clock.Rate.{get_rate_from_divider}
use native.Mathlib.Nat.{le-div_iff_mul-le, mul-div-le, div-le_self, div-zero}
use nintendo_switch_pkg.Clock.Divider.{IsSlowEnough}
use nintendo_switch_pkg.Clock.BestDivider.{Divided, find_best_divider}
use nintendo_switch_pkg.Clock.Closest.{Closest, find_best_divider-Closest}

get_rate_mono :
    (a b d : ℕ) → a ≤ b → b < 2 ^ 32 → get_rate_from_divider a d ≤ get_rate_from_divider b d
unfolding get_rate_from_divider
get_rate_mono a b d le hb = elim (Bool-cases ((d + 2) % 2 ^ 32 == 0)) [
  | inl none_left ↦
      let e : (d + 2) % 2 ^ 32 ≡ 0 = ground arith in
      rw e (omega (arith, div-zero (a * 2 % 2 ^ 64), div-zero (b * 2 % 2 ^ 64)))
  | inr some_left ↦
      let q : ℕ = a * 2 % 2 ^ 64 / ((d + 2) % 2 ^ 32) in
      (le-div_iff_mul-le {k = (d + 2) % 2 ^ 32} {x = q} {y = b * 2 % 2 ^ 64} (ground arith)).1
        (omega (arith, mul-div-le (a * 2 % 2 ^ 64) ((d + 2) % 2 ^ 32)))
]

pow_one_lt : (shift : ℕ) {x : ℕ} → x ≡ 2 ^ shift → x ≢ 1 → 0 < shift
pow_one_lt zero e ne = absurd (ne e)
pow_one_lt (suc shift) e ne = omega arith

-- Where find_best_divider uses a second-stage divisor other than 1, its divider without that divisor is
-- too fast: the rate from the whole parent exceeds the one asked for, before rounding.
pub find_best_divider-second_stage :
    (bits parent_rate rate : ℕ) (c : Divided)
    → bits ≤ 31
    → parent_rate < 2 ^ 32
    → 1 ≤ rate
    → rate < 2 ^ 31
    → find_best_divider bits parent_rate rate ≡ some c
    → c.extra_div ≢ 1
    → ¬ IsSlowEnough parent_rate rate c.divider
find_best_divider-second_stage bits parent_rate rate c hb hp pos hr e more slow =
    let (shift, below, x, fits, slow_enough, le, tops, under) : Closest bits parent_rate rate
        (some c) =
      rw e at (find_best_divider-Closest bits parent_rate rate hb hp pos hr) in
    let whole : parent_rate / 2 ^ 0 ≡ parent_rate = omega arith in
    let strict : get_rate_from_divider parent_rate c.divider
        < get_rate_from_divider (parent_rate / 2 ^ shift) c.divider =
      rw whole at (under 0 c.divider (pow_one_lt shift x more) fits (rw whole slow)) in
    absurd (
      omega
        (arith, get_rate_mono (parent_rate / 2 ^ shift) parent_rate c.divider (div-le_self _ _) hp))
