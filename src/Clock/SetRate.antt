-- ===== src/Clock/SetRate.antt =====
-- Programming a PLL while the machine runs, and the outputs of a PLL,
-- Drivers/ClockManagementDxe/clock.c.
use Prim.Native.Nat.{bit_and, bit_or}
use nintendo_switch_pkg.Prelude.{
  ℕ, ◌+◌, ◌*◌, ◌/◌, ◌^◌, Bool, false, ◌||◌, Option, none, some, ltb, ◌==◌, if◌then◌else◌,
}
use nintendo_switch_pkg.Prelude.Assert.{◌>>=◌, ◌>>◌, assert}
use nintendo_switch_pkg.Prelude.Bits.{not32, shl32}
use nintendo_switch_pkg.Mmio.{Regs, readl, writel, clrsetbits_le32}
use nintendo_switch_pkg.Mmio.Field.{insert_field}
use nintendo_switch_pkg.Clock.Pll.{PllInfo, tegra_pll_info_table, pll_base, pll_misc}
use nintendo_switch_pkg.Clock.Rate.{clk_get_divider}

-- The registers and `pllp_valid`.
pub record PllState : Type 0 where
  pub regs : Regs
  pub pllp_valid : Bool

-- What clock_set_rate returns: 0, 1 or -1.
pub data Code : Type 0 where
  done : Code
  already : Code
  refused : Code

pub record SetRate : Type 0 where
  pub code : Code
  pub state : PllState

-- The fields m, n and p put into the base register.
unfoldable pub base_fields : PllInfo → ℕ → ℕ → ℕ → ℕ → ℕ
base_fields info n m p base =
    insert_field info.p_mask info.p_shift p
      (insert_field info.n_mask info.n_shift n (insert_field info.m_mask info.m_shift m base))

-- The four writes: bypassed, the charge pump, enabled, and no longer bypassed. PLL_BYPASS_MASK is bit 31
-- and PLL_ENABLE_MASK bit 30.
unfoldable pub program_pll : ℕ → ℕ → ℕ → Regs → Regs
program_pll id cpcon base r =
    let info = tegra_pll_info_table id in
    let bypassed = bit_or base (2 ^ 31) in
    let enabled = bit_or bypassed (2 ^ 30) in
    let r_1 = writel bypassed (pll_base id) r in
    let misc = insert_field info.kcp_mask info.kcp_shift cpcon (readl r_1 (pll_misc id)) in
    let r_2 = writel misc (pll_misc id) r_1 in
    writel (bit_and enabled (not32 (2 ^ 31))) (pll_base id) (writel enabled (pll_base id) r_2)

-- PLLP, CLOCK_ID_PERIPH, is only checked if its override bit, bit 28, is set. A clock from
-- TEGRA_CLK_PLLS on has no registers: `none`.
unfoldable pub clock_set_rate : ℕ → ℕ → ℕ → ℕ → ℕ → PllState → Option SetRate
clock_set_rate id n m p cpcon st =
    let info = tegra_pll_info_table id in
    let old = readl st.regs (pll_base id) in
    let base = base_fields info n m p old in
    let valid = st.pllp_valid in
    let kept = if bit_or base (2 ^ 30) == old then valid else false in
    let checked : SetRate = record {
      code = if kept then already else refused;
      state = record { regs = st.regs; pllp_valid = kept };
    } in
    let overridden = if id == 2 then bit_or base (2 ^ 28) else base in
    let programmed : SetRate = record {
      code = done;
      state = record { regs = program_pll id cpcon overridden st.regs; pllp_valid = valid };
    } in
    assert (ltb id 6)
    >> some
        (if id == 2 then if bit_and base (2 ^ 28) == 0 then programmed else checked else programmed)

-- `clock_verify`: whether it returns 0.
unfoldable pub clock_verify : PllState → Bool
clock_verify st = st.pllp_valid

-- `pll_num_clkouts`: PLLC, PLLM and PLLA have one output, PLLP has four.
unfoldable pub pll_num_clkouts : ℕ → ℕ
pll_num_clkouts id = if id == 2 then 4 else if id == 4 || id == 5 then 0 else 1

-- Whether it returns 0, and the registers. PLL_OUT_RATIO_SHIFT is 8; PLL_OUT_OVRRIDE, PLL_OUT_CLKEN and
-- PLL_OUT_RSTN are the low three bits; `pll_out` comes after `pll_base`.
unfoldable pub clock_set_pllout : ℕ → ℕ → ℕ → (ℕ → ℕ) → Regs → Option (Option Regs)
clock_set_pllout id pllout rate pll_rate r =
    let offset = if pllout == 1 || pllout == 3 then 16 else 0 in
    let out_reg = pll_base id + 4 + pllout / 2 * 4 in
    let set = λ (div : ℕ). some (
      clrsetbits_le32 out_reg (shl32 (shl32 0xff 8) offset) (shl32 (bit_or (shl32 div 8) 7) offset)
        r) in
    assert (ltb id 6)
    >> some (
        if ltb (pll_num_clkouts id) (pllout + 1)
        then none
        else clk_get_divider 8 (pll_rate id) rate >>= set)
