-- ===== src/Clock/Rate.antt =====
-- The dividers of Drivers/ClockManagementDxe/clock.c.
use nintendo_switch_pkg.Prelude.{
  ℕ, ◌+◌, ◌-◌, ◌*◌, ◌/◌, ◌%◌, ◌^◌, Option, none, some, ltb, leb, if◌then◌else◌,
}

-- `none` is -1. `do_div` takes its divisor as a 32-bit word.
unfoldable pub clk_get_divider : ℕ → ℕ → ℕ → Option ℕ
clk_get_divider divider_bits parent_rate rate =
    let sum = (parent_rate * 2 + (rate + (2 ^ 64 - 1))) % 2 ^ 64 in
    let divider = sum / (rate % 2 ^ 32) in
    if ltb divider 2
    then some 0
    else if leb (2 ^ divider_bits) (divider - 2)
    then none
    else some (divider - 2)

-- The divider is not negative here.
unfoldable pub get_rate_from_divider : ℕ → ℕ → ℕ
get_rate_from_divider parent_rate divider = parent_rate * 2 % 2 ^ 64 / ((divider + 2) % 2 ^ 32)
