-- ===== src/ClockLib.antt =====
-- The clocks of the boot firmware's own devices, Library/ClockLib/ClockLib.c: the generic descriptor and
-- the tables of ClockLibPrivate.h. `CLOCK(off)` is a register of the clock controller.
pub mod Running
pub mod Sdmmc
pub mod Devices
pub mod Enables
pub mod FallThrough
mod Tests
use Prim.Native.Nat.{bit_or}
use nintendo_switch_pkg.Prelude.{ℕ, ◌+◌, false, ◌==◌, if◌then◌else◌}
use nintendo_switch_pkg.Prelude.Bits.{shl32}
use nintendo_switch_pkg.Mmio.{Regs, readl, writel}
use nintendo_switch_pkg.Mmio.Field.{insert_field, assign_bit}

-- `clock_t`.
pub record LegacyClock : Type 0 where
  pub reset : ℕ
  pub enable : ℕ
  pub source : ℕ
  pub index : ℕ
  pub clk_src : ℕ
  pub clk_div : ℕ

-- CLOCK_BASE.
abbrev pub clock_base : ℕ
clock_base = 0x60006000

-- `(CLOCK(off) & ~(1 << index)) | (1 << index)`
unfoldable pub raise : ℕ → ℕ → Regs → Regs
raise off index r =
    writel (insert_field 1 index 1 (readl r (clock_base + off))) (clock_base + off) r

-- `CLOCK(off) &= ~(1 << index)`
unfoldable pub lower : ℕ → ℕ → Regs → Regs
lower off index r =
    writel (assign_bit index false (readl r (clock_base + off))) (clock_base + off) r

-- The clock source, if there is one.
unfoldable pub set_source : LegacyClock → Regs → Regs
set_source clk r =
    if clk.source == 0
    then r
    else writel (bit_or clk.clk_div (shl32 clk.clk_src 29)) (clock_base + clk.source) r

unfoldable pub legacy_clock_disable : LegacyClock → Regs → Regs
legacy_clock_disable clk r = lower clk.enable clk.index (raise clk.reset clk.index r)

-- Its first two statements are those of `legacy_clock_disable`.
unfoldable pub legacy_clock_enable : LegacyClock → Regs → Regs
legacy_clock_enable clk r =
    lower clk.reset clk.index
      (raise clk.enable clk.index (set_source clk (legacy_clock_disable clk r)))

abbrev clock : ℕ → ℕ → ℕ → ℕ → ℕ → ℕ → LegacyClock
clock reset enable source index clk_src clk_div = record {
  reset = reset;
  enable = enable;
  source = source;
  index = index;
  clk_src = clk_src;
  clk_div = clk_div;
}

-- `_clock_uart`, UART A to UART E.
unfoldable pub clock_uart : ℕ → LegacyClock
clock_uart idx =
    if idx == 0
    then clock 0x4 0x10 0x178 6 0 0
    else if idx == 1
    then clock 0x4 0x10 0x17C 7 0 0
    else if idx == 2
    then clock 0x8 0x14 0x1A0 23 0 0
    else if idx == 3
    then clock 0xC 0x18 0x1C0 1 0 0
    else clock 0xC 0x18 0 2 0 0

-- `_clock_i2c`, I2C1 to I2C6.
unfoldable pub clock_i2c : ℕ → LegacyClock
clock_i2c idx =
    if idx == 0
    then clock 0x4 0x10 0x124 12 6 0
    else if idx == 1
    then clock 0x8 0x14 0x198 22 6 0
    else if idx == 2
    then clock 0xC 0x18 0x1B8 3 6 0
    else if idx == 3
    then clock 0x358 0x360 0x3C4 7 6 0
    else if idx == 4
    then clock 0x8 0x14 0x128 15 6 0
    else clock 0x28C 0x280 0x65C 6 6 0

unfoldable pub clock_cl_dvfs : LegacyClock
clock_cl_dvfs = clock 0x35C 0x364 0 27 0 0

unfoldable pub clock_enable_uart : ℕ → Regs → Regs
clock_enable_uart idx = legacy_clock_enable (clock_uart idx)

unfoldable pub clock_enable_i2c : ℕ → Regs → Regs
clock_enable_i2c idx = legacy_clock_enable (clock_i2c idx)

unfoldable pub clock_enable_cl_dvfs : Regs → Regs
clock_enable_cl_dvfs = legacy_clock_enable clock_cl_dvfs
