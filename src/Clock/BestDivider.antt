-- ===== src/Clock/BestDivider.antt =====
-- The divider and the second-stage divisor that find_best_divider of
-- Drivers/ClockManagementDxe/clock.c chooses.
use nintendo_switch_pkg.Prelude.{
  ℕ, zero, suc, ◌+◌, ◌-◌, ◌%◌, ◌^◌, Bool, ◌&&◌, Option, none, some, ltb, if◌then◌else◌,
}
use nintendo_switch_pkg.Prelude.Bits.{shr}
use nintendo_switch_pkg.Clock.Rate.{clk_get_divider, get_rate_from_divider}

-- An `int` is a word. Adding 2 ^ 31 to both turns the order of words into that of integers.
unfoldable pub is_positive : ℕ → Bool
is_positive x = ltb 0 x && ltb x (2 ^ 31)

unfoldable pub lt_int : ℕ → ℕ → Bool
lt_int a b = ltb ((a + 2 ^ 31) % 2 ^ 32) ((b + 2 ^ 31) % 2 ^ 32)

-- `best_divider` and `*extra_div`.
pub record Divided : Type 0 where
  pub divider : ℕ
  pub extra_div : ℕ

unfoldable pub divided_parent : ℕ → ℕ → ℕ
divided_parent parent_rate shift = shr parent_rate shift % 2 ^ 32

-- `error` of a divider.
unfoldable pub rate_error : ℕ → ℕ → ℕ → ℕ
rate_error parent rate divider =
    (rate + (2 ^ 64 - get_rate_from_divider parent divider % 2 ^ 32)) % 2 ^ 32

-- The rest of the loop, `n` steps from `shift` on. A divider of -1 is never kept.
unfoldable pub try_shifts : ℕ → ℕ → ℕ → ℕ → ℕ → ℕ → Option Divided → Option Divided
try_shifts divider_bits parent_rate rate zero shift best_error best = best
try_shifts divider_bits parent_rate rate (suc n) shift best_error best =
    let parent = divided_parent parent_rate shift in
    let next = try_shifts divider_bits parent_rate rate n (shift + 1) in
    if is_positive best_error
    then elim (clk_get_divider divider_bits parent rate) [
      | none ↦ next best_error best
      | some divider ↦
          if lt_int (rate_error parent rate divider) best_error
          then next (rate_error parent rate divider)
              (some (record { divider = divider; extra_div = 2 ^ shift }))
          else next best_error best
    ]
    else best

unfoldable pub find_best_divider : ℕ → ℕ → ℕ → Option Divided
find_best_divider divider_bits parent_rate rate =
    try_shifts divider_bits parent_rate rate 9 0 (rate % 2 ^ 32) none
