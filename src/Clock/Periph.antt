-- ===== src/Clock/Periph.antt =====
-- Peripherals: their enable and reset bits, and their source registers
-- (Drivers/ClockManagementDxe/Tegra210/clock.c, and the mux of clock.c).
use Prim.Native.Nat.{bit_and}
use nintendo_switch_pkg.Prelude.{
  ℕ, zero, suc, ◌+◌, ◌-◌, ◌*◌, ◌/◌, ◌%◌, ◌^◌, not, Option, none, some, List, ltb, leb, ◌==◌, ◌&&◌,
  if◌then◌else◌,
}
use nintendo_switch_pkg.Prelude.Assert.{◌>>=◌, ◌>>◌, assert}
use nintendo_switch_pkg.Prelude.Bits.{shl32, shr}
use nintendo_switch_pkg.Mmio.{Regs, readl, writel, clrsetbits_le32}
use nintendo_switch_pkg.Mmio.Field.{assign_bit}
use nintendo_switch_pkg.Clock.{
  clk_rst_base, periph_id_vw_first, periph_id_x_first, periph_id_y_first, periph_id_count,
}
use nintendo_switch_pkg.Clock.Table.{
  periph_id_to_internal_id, clock_periph_type, clock_source, table_at, row_at,
}

unfoldable pub periph_reg : ℕ → ℕ
periph_reg id = if ltb id periph_id_vw_first then id / 32 else (id - periph_id_vw_first) / 32

-- `crc_clk_out_enb[]`, `_vw[]`, `_x` or `_y`
unfoldable pub enable_reg : ℕ → ℕ
enable_reg id =
    if ltb id periph_id_vw_first
    then clk_rst_base + 0x10 + periph_reg id * 4
    else if ltb id periph_id_x_first
    then clk_rst_base + 0x360 + periph_reg id * 4
    else if ltb id periph_id_y_first
    then clk_rst_base + 0x280
    else clk_rst_base + 0x298

-- `crc_rst_dev[]`, `_vw[]`, `crc_rst_devices_x` or `_y`
unfoldable pub reset_reg : ℕ → ℕ
reset_reg id =
    if ltb id periph_id_vw_first
    then clk_rst_base + 0x04 + periph_reg id * 4
    else if ltb id periph_id_x_first
    then clk_rst_base + 0x358 + periph_reg id * 4
    else if ltb id periph_id_y_first
    then clk_rst_base + 0x28c
    else clk_rst_base + 0x2a4

-- PERIPH_MASK is `1 << (id & 0x1f)`.
unfoldable pub clock_set_enable : ℕ → ℕ → Regs → Option Regs
clock_set_enable id enable r = do
  assert (ltb id periph_id_count)
  some (
      writel (assign_bit (id % 32) (not (enable == 0)) (readl r (enable_reg id))) (enable_reg id) r)

unfoldable pub reset_set_enable : ℕ → ℕ → Regs → Option Regs
reset_set_enable id enable r = do
  assert (ltb id periph_id_count)
  some (writel (assign_bit (id % 32) (not (enable == 0)) (readl r (reset_reg id))) (reset_reg id) r)

unfoldable pub clock_enable : ℕ → Regs → Option Regs
clock_enable id = clock_set_enable id 1

unfoldable pub clock_disable : ℕ → Regs → Option Regs
clock_disable id = clock_set_enable id 0

unfoldable pub reset_periph : ℕ → Regs → Option Regs
reset_periph id r = do r' ← reset_set_enable id 1 r; reset_set_enable id 0 r'

-- The internal id is cut to a byte before it is compared with -1. PERIPHC_VW_FIRST, PERIPHC_X_FIRST
-- and PERIPHC_Y_FIRST are 64, 96 and 128; PERIPH_ID_CSI is 52.
unfoldable pub source_reg_of : ℕ → ℕ
source_reg_of internal_id =
    if ltb internal_id 64
    then clk_rst_base + 0x100 + internal_id * 4
    else if ltb internal_id 96
    then clk_rst_base + 0x3b0 + (internal_id - 64) * 4
    else if ltb internal_id 128
    then clk_rst_base + 0x600 + (internal_id - 96) * 4
    else clk_rst_base + 0x694 + (internal_id - 128) * 4

unfoldable pub get_periph_source_reg : ℕ → Option ℕ
get_periph_source_reg id = if id == 52 then some (clk_rst_base + 0x100 + 53 * 4) else do
  assert (ltb id periph_id_count)
  assert (not (table_at periph_id_to_internal_id id == 2 ^ 32 - 1))
  some (source_reg_of (table_at periph_id_to_internal_id id))

-- `mux_bits`, `divider_bits` and `type`.
pub record ClockInfo : Type 0 where
  pub mux_bits : ℕ
  pub divider_bits : ℕ
  pub type : ℕ

-- The INT8 is not cut to a byte here: 128 and above are negative, and invalid. PERIPHC_COUNT is 146,
-- CLOCK_TYPE_COUNT 21 and CLOCK_TYPE_PC2CC3M_T16 14; `none` is -1.
unfoldable pub get_periph_clock_info : ℕ → Option ClockInfo
get_periph_clock_info id =
    let internal_id = table_at periph_id_to_internal_id id in
    let type = table_at clock_periph_type internal_id in
    if not (ltb id periph_id_count)
    then none
    else if not (ltb internal_id 128 && ltb internal_id 146)
    then none
    else if not (ltb type 21)
    then none
    else some (record {
      mux_bits = table_at (row_at clock_source type) 8;
      divider_bits = if type == 14 then 16 else 8;
      type = type;
    })

-- CLOCK_ID_NONE, 255, for a peripheral without a clock type.
unfoldable pub get_periph_clock_id : ℕ → ℕ → ℕ
get_periph_clock_id id source = elim (get_periph_clock_info id) [
  | none ↦ 255
  | some info ↦ table_at (row_at clock_source info.type) source
]

-- The loop over the muxes of a row, `n` of which are left from `mux` on.
unfoldable pub find_mux : ℕ → ℕ → List ℕ → ℕ → Option ℕ
find_mux zero mux row parent = none
find_mux (suc n) mux row parent =
    let rest = find_mux n (suc mux) row parent in
    if table_at row mux == parent then some mux else rest

-- The mux, or `none` for the -1 of a parent that is not among the sources; outside, `none` is the
-- assertion.
unfoldable pub get_periph_clock_source : ℕ → ℕ → Option (Option ℕ)
get_periph_clock_source id parent = elim (get_periph_clock_info id) [
  | none ↦ none
  | some info ↦ some (find_mux 8 0 (row_at clock_source info.type) parent)
]

-- The shift and the mask of a mux field: MASK_BITS_31_30, _31_29 and _31_28 are 0, 1 and 2.
unfoldable pub source_mask : ℕ → ℕ
source_mask mux_bits = 2 ^ (mux_bits + 2) - 1

unfoldable pub clock_ll_set_source_bits : ℕ → ℕ → ℕ → Regs → Option (Option Regs)
clock_ll_set_source_bits id mux_bits source r = do
  reg ← get_periph_source_reg id
  some (
      if leb mux_bits 2
      then some (
          clrsetbits_le32 reg (shl32 (source_mask mux_bits) (30 - mux_bits))
            (shl32 source (30 - mux_bits)) r)
      else none)

-- The field is moved down, and then masked with the mask of its place in the register.
unfoldable pub clock_ll_get_source_bits : ℕ → ℕ → Regs → Option (Option ℕ)
clock_ll_get_source_bits id mux_bits r = do
  reg ← get_periph_source_reg id
  some (
      if leb mux_bits 2
      then some (
          bit_and (shr (readl r reg) (30 - mux_bits))
            (shl32 (source_mask mux_bits) (30 - mux_bits)))
      else none)
