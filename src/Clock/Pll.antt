-- ===== src/Clock/Pll.antt =====
-- The PLLs: clock_ll_read_pll and clock_start_pll of Drivers/ClockManagementDxe/clock.c, with the
-- fields of Tegra210/clock.c.
use Prim.Native.Nat.{bit_or}
use nintendo_switch_pkg.Prelude.{ℕ, ◌+◌, ◌*◌, not, Option, some, ltb, ◌==◌, if◌then◌else◌}
use nintendo_switch_pkg.Prelude.Assert.{◌>>◌, assert}
use nintendo_switch_pkg.Prelude.Bits.{shl32}
use nintendo_switch_pkg.Mmio.{Regs, readl, writel}
use nintendo_switch_pkg.Mmio.Field.{insert_field, extract_field}
use nintendo_switch_pkg.Clock.{clk_rst_base}

-- `struct clk_pll_info`, less the lock bits.
pub record PllInfo : Type 0 where
  pub m_shift : ℕ
  pub m_mask : ℕ
  pub n_shift : ℕ
  pub n_mask : ℕ
  pub p_shift : ℕ
  pub p_mask : ℕ
  pub kcp_shift : ℕ
  pub kcp_mask : ℕ
  pub kvco_shift : ℕ
  pub kvco_mask : ℕ

abbrev pub pll_info : ℕ → ℕ → ℕ → ℕ → ℕ → ℕ → ℕ → ℕ → PllInfo
pll_info n_s p_s p_m m_m kcp_s kcp_m kvco_s kvco_m = record {
  m_shift = 0;
  m_mask = m_m;
  n_shift = n_s;
  n_mask = m_m;
  p_shift = p_s;
  p_mask = p_m;
  kcp_shift = kcp_s;
  kcp_mask = kcp_m;
  kvco_shift = kvco_s;
  kvco_mask = kvco_m;
}

-- The entry of a PLL: PLLC, PLLM, PLLP, PLLA, PLLU, PLLD, PLLX, PLLE, PLLS and PLLDP.
unfoldable pub tegra_pll_info_table : ℕ → PllInfo
tegra_pll_info_table id =
    if id == 0
    then pll_info 10 20 0x1F 0xFF 0 0 0 0
    else if id == 1
    then pll_info 8 20 0x1F 0xFF 1 3 0 1
    else if id == 2
    then pll_info 10 20 0x1F 0xFF 0 3 2 1
    else if id == 3
    then pll_info 8 20 0x1F 0xFF 25 3 24 1
    else if id == 4
    then pll_info 8 16 0x1F 0xFF 25 3 24 1
    else if id == 5
    then pll_info 11 20 0x07 0xFF 23 3 22 1
    else if id == 6
    then pll_info 8 20 0x1F 0xFF 1 3 0 1
    else if id == 7
    then pll_info 8 0 0 0xFF 6 3 0 1
    else if id == 8
    then pll_info 0 0 0 0 0 0 0 0
    else pll_info 8 19 0x1F 0xFF 25 3 24 1

-- `crc_pll[id]`; `pll_misc` comes after `pll_base` and the two `pll_out`.
unfoldable pub pll_base : ℕ → ℕ
pll_base id = clk_rst_base + 0x80 + id * 16

unfoldable pub pll_misc : ℕ → ℕ
pll_misc id = clk_rst_base + 0x80 + id * 16 + 12

-- `divm`, `divn`, `divp`, `cpcon` and `lfcon`.
pub record PllSetting : Type 0 where
  pub divm : ℕ
  pub divn : ℕ
  pub divp : ℕ
  pub cpcon : ℕ
  pub lfcon : ℕ

-- The word written to `pll_base`: PLL_ENABLE_SHIFT is 30.
unfoldable pub base_word : PllInfo → PllSetting → ℕ
base_word info p =
    bit_or
      (bit_or (bit_or (shl32 p.divm info.m_shift) (shl32 p.divn info.n_shift))
        (shl32 p.divp info.p_shift))
      (shl32 1 30)

unfoldable pub misc_word : PllInfo → PllSetting → ℕ → ℕ
misc_word info p misc =
    insert_field info.kvco_mask info.kvco_shift p.lfcon
      (insert_field info.kcp_mask info.kcp_shift p.cpcon misc)

-- The stable time that is returned is read from a timer and left out. CLOCK_ID_COUNT is 13,
-- TEGRA_CLK_PLLS 6, CLOCK_ID_USB 4; `clock_get_simple_pll` finds none.
unfoldable pub clock_start_pll : ℕ → PllSetting → Regs → Option Regs
clock_start_pll id p r =
    let info = tegra_pll_info_table id in
    let misc = misc_word info p (readl r (pll_misc id)) in
    if ltb id 6
    then some (writel (base_word info p) (pll_base id) (writel misc (pll_misc id) r))
    else some r

-- `get_pll` gives a null pointer for a clock from TEGRA_CLK_PLLS on, through which the call reads:
-- `none`.
unfoldable pub clock_ll_read_pll : ℕ → Regs → Option PllSetting
clock_ll_read_pll id r = do
  assert (ltb id 6)
  assert (not (id == 4))
  let info = tegra_pll_info_table id
  some (record {
    divm = extract_field info.m_mask info.m_shift (readl r (pll_base id));
    divn = extract_field info.n_mask info.n_shift (readl r (pll_base id));
    divp = extract_field info.p_mask info.p_shift (readl r (pll_base id));
    cpcon = extract_field info.kcp_mask info.kcp_shift (readl r (pll_misc id));
    lfcon = extract_field info.kvco_mask info.kvco_shift (readl r (pll_misc id));
  })
