-- ===== src/Clock/Osc.antt =====
-- The oscillator and the rates of the clocks, Drivers/ClockManagementDxe/clock.c and Tegra210/clock.c.
use Prim.Native.Nat.{bit_and}
use nintendo_switch_pkg.Prelude.{ℕ, ◌+◌, ◌*◌, ◌/◌, ◌%◌, ◌^◌, Option, some, ltb, ◌==◌, if◌then◌else◌}
use nintendo_switch_pkg.Prelude.Assert.{◌>>◌, assert}
use nintendo_switch_pkg.Prelude.Bits.{shl32, shr}
use nintendo_switch_pkg.Mmio.{Regs, readl}
use nintendo_switch_pkg.Mmio.Field.{extract_field}
use nintendo_switch_pkg.Clock.{clk_rst_base}
use nintendo_switch_pkg.Clock.Pll.{tegra_pll_info_table, pll_base}

-- `crc_osc_ctrl` and `crc_spare_reg0`.
abbrev pub osc_ctrl : ℕ
osc_ctrl = clk_rst_base + 0x50

abbrev pub spare_reg0 : ℕ
spare_reg0 = clk_rst_base + 0x55c

-- OSC_FREQ_SHIFT is 28; 38.4 MHz is told apart from the older frequencies.
unfoldable pub clock_get_osc_freq : Regs → ℕ
clock_get_osc_freq r =
    let reg = extract_field 0xF 28 (readl r osc_ctrl) in if reg == 5 then 4 else reg / 4

unfoldable pub clock_get_osc_bypass : Regs → ℕ
clock_get_osc_bypass r = shr (bit_and (readl r osc_ctrl) 2) 1

-- The oscillators of 13, 19.2, 12, 26, 38.4 and 48 MHz.
unfoldable pub osc_freq : ℕ → ℕ
osc_freq i =
    if i == 0
    then 13000000
    else if i == 1
    then 19200000
    else if i == 2
    then 12000000
    else if i == 3
    then 26000000
    else if i == 4
    then 38400000
    else 48000000

unfoldable pub clk_m_get_rate : ℕ → Regs → ℕ
clk_m_get_rate parent_rate r = parent_rate / (bit_and (shr (readl r spare_reg0) 2) 3 + 1)

-- The divisor of a PLL, from its base register: PLLP's own output is before its post divider.
unfoldable pub pll_divisor : ℕ → ℕ → ℕ
pll_divisor id base =
    let info = tegra_pll_info_table id in
    let divm = extract_field info.m_mask info.m_shift base in
    if id == 2 then divm else shl32 divm (extract_field info.p_mask info.p_shift base)

-- The rate is cut to a word. The division by 0 that an unprogrammed PLL comes to is 0 here.
unfoldable pub pll_output : ℕ → ℕ → ℕ → ℕ
pll_output id osc base =
    let info = tegra_pll_info_table id in
    osc * extract_field info.n_mask info.n_shift base % 2 ^ 64 / pll_divisor id base % 2 ^ 32

-- CLOCK_ID_OSC is 11 and CLOCK_ID_CLK_M 12. `get_pll` asserts that the clock is below CLOCK_ID_COUNT,
-- 13, and gives a null pointer from TEGRA_CLK_PLLS, 6, on.
unfoldable pub clock_get_rate : ℕ → Regs → Option ℕ
clock_get_rate id r =
    let osc = osc_freq (clock_get_osc_freq r) in
    if id == 11
    then some osc
    else if id == 12
    then some (clk_m_get_rate osc r)
    else (assert (ltb id 13)
        >> some (if ltb id 6 then pll_output id osc (readl r (pll_base id)) else 0))
