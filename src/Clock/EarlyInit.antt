-- ===== src/Clock/EarlyInit.antt =====
-- The clocks before the machine's own set-up: tegra210_setup_pllp and clock_early_init of
-- Drivers/ClockManagementDxe/Tegra210/clock.c. The waits are left out.
use Prim.Native.Nat.{bit_or}
use nintendo_switch_pkg.Prelude.{ℕ, ◌+◌, ◌*◌, ◌^◌, Option, some, ◌==◌, if◌then◌else◌}
use nintendo_switch_pkg.Prelude.Assert.{◌>>=◌}
use nintendo_switch_pkg.Prelude.Bits.{shl32}
use nintendo_switch_pkg.Mmio.{Regs, writel, clrbits_le32}
use nintendo_switch_pkg.Clock.Pll.{pll_base, pll_misc}
use nintendo_switch_pkg.Clock.Osc.{clock_get_osc_freq}
use nintendo_switch_pkg.Clock.SetRate.{PllState, clock_set_rate}

-- `pll_out[0]` and `pll_out[1]` come after `pll_base`.
unfoldable pub pll_out : ℕ → ℕ → ℕ
pll_out id n = pll_base id + 4 + n * 4

-- Divisor 83 for OUT1, 6 for OUT3 and 2 for OUT4, with their override, enable and reset bits.
unfoldable pub tegra210_setup_pllp : Regs → Regs
tegra210_setup_pllp r =
    let out_1 = bit_or (bit_or (bit_or (shl32 83 8) (2 ^ 2)) (2 ^ 1)) (2 ^ 0) in
    let out_4 = bit_or (bit_or (bit_or (shl32 2 24) (2 ^ 18)) (2 ^ 17)) (2 ^ 16) in
    let out_3 = bit_or (bit_or (bit_or (shl32 6 8) (2 ^ 2)) (2 ^ 1)) (2 ^ 0) in
    let r_1 = writel out_1 (pll_out 2 0) (writel 0 (pll_out 2 0) r) in
    writel (bit_or out_4 out_3) (pll_out 2 1) (writel 0 (pll_out 2 1) r_1)

-- The result of clock_set_rate is not looked at.
unfoldable pub program : ℕ → ℕ → ℕ → ℕ → PllState → Option PllState
program id n m cpcon st = do out ← clock_set_rate id n m 0 cpcon st; some out.state

unfoldable pub program_both : ℕ → ℕ → ℕ → ℕ → ℕ → ℕ → PllState → Option PllState
program_both n_c m_c cpcon_c n_d m_d cpcon_d st = do
  st_1 ← program 0 n_c m_c cpcon_c st
  program 5 n_d m_d cpcon_d st_1

-- By the oscillator: 12, 26, 13, 19.2 and 38.4 MHz are 2, 3, 0, 1 and 4.
unfoldable pub program_by_osc : PllState → Option PllState
program_by_osc st =
    let osc = clock_get_osc_freq st.regs in
    if osc == 2
    then program_both 600 12 8 925 12 12 st
    else if osc == 3
    then program_both 600 26 8 925 26 12 st
    else if osc == 0
    then program_both 600 13 8 925 13 12 st
    else if osc == 1
    then program_both 125 4 0 96 2 12 st
    else if osc == 4
    then program_both 125 8 0 96 4 0 st
    else some st

-- PLLC_IDDQ is 27, PLLC_RESET 30, PLLD_ENABLE_CLK 21, and the lock bit of PLLD 18.
unfoldable pub release_plls : Regs → Regs
release_plls r =
    let r_1 = clrbits_le32 (pll_misc 0) (2 ^ 27) r in
    let r_2 = clrbits_le32 (pll_out 0 1) (2 ^ 30) r_1 in
    writel (bit_or (2 ^ 21) (2 ^ 18)) (pll_misc 5) r_2

unfoldable pub clock_early_init : PllState → Option PllState
clock_early_init st = do
  st_1 ← program_by_osc (record st { regs = tegra210_setup_pllp st.regs })
  some (record st_1 { regs = release_plls st_1.regs })
