-- ===== src/Clock/Protocol.antt =====
-- The clock manager's protocol: Drivers/ClockManagementDxe/UBootClockManagement.c. An id of the
-- protocol is a UINT64; it is cut to the word of the `enum`.
use nintendo_switch_pkg.Prelude.{ℕ, ◌%◌, ◌^◌, false, Option}
use nintendo_switch_pkg.Prelude.Assert.{◌>>=◌}
use nintendo_switch_pkg.Mmio.{Regs}
use nintendo_switch_pkg.Clock.Periph.{clock_enable, clock_disable, reset_set_enable, reset_periph}
use nintendo_switch_pkg.Clock.Pll.{PllSetting, clock_start_pll}
use nintendo_switch_pkg.Clock.Osc.{clock_get_osc_freq}
use nintendo_switch_pkg.Clock.PeriphRate.{
  Tuned, clock_get_periph_rate, clock_get_periph_parent, clock_adjust_periph_pll_div,
}
use nintendo_switch_pkg.Clock.Init.{Inited, clock_init}

unfoldable pub ub_enable_clk : ℕ → Regs → Option Regs
ub_enable_clk clk_id = clock_enable (clk_id % 2 ^ 32)

unfoldable pub ub_disable_clk : ℕ → Regs → Option Regs
ub_disable_clk clk_id = clock_disable (clk_id % 2 ^ 32)

unfoldable pub ub_clk_get_rate : ℕ → (ℕ → ℕ) → Regs → Option ℕ
ub_clk_get_rate clk_id pll_rate r = do
  parent ← clock_get_periph_parent (clk_id % 2 ^ 32) r
  clock_get_periph_rate (clk_id % 2 ^ 32) parent pll_rate r

-- The rate is cut to a word, and there is no place for the second-stage divisor.
unfoldable pub ub_clk_set_rate : ℕ → ℕ → (ℕ → ℕ) → Regs → Option Tuned
ub_clk_set_rate clk_id rate pll_rate r = do
  parent ← clock_get_periph_parent (clk_id % 2 ^ 32) r
  clock_adjust_periph_pll_div (clk_id % 2 ^ 32) parent (rate % 2 ^ 32) false pll_rate r

unfoldable pub ub_reset_assert : ℕ → Regs → Option Regs
ub_reset_assert id = reset_set_enable (id % 2 ^ 32) 1

unfoldable pub ub_reset_deassert : ℕ → Regs → Option Regs
ub_reset_deassert id = reset_set_enable (id % 2 ^ 32) 0

unfoldable pub ub_reset_periph : ℕ → Regs → Option Regs
ub_reset_periph id = reset_periph (id % 2 ^ 32)

unfoldable pub ub_get_osc_freq : Regs → ℕ
ub_get_osc_freq = clock_get_osc_freq

unfoldable pub ub_start_pll : ℕ → PllSetting → Regs → Option Regs
ub_start_pll = clock_start_pll

-- clock_verify only prints.
unfoldable pub ub_initialize : (ℕ → ℕ) → Regs → Option Inited
ub_initialize = clock_init
