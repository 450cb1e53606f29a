-- ===== src/PinMux.antt =====
-- Drivers/PinMuxDxe/pinmux-common.c, as configured by Include/Protocol/Utc/Tegra210/PinMux.h:
-- pins have the fields E_INPUT, LOCK, OD and E_IO_HV, there are drive groups, and no MIPI pads.
-- Each setter is a function from the registers to the registers, `none` where an assertion fails.
mod Table
pub mod Layout
pub mod Config
pub mod ConfigTable
pub mod Board
pub mod Drive
pub mod DriveLayout
mod Tests
use Prim.Native.Nat.{bit_and}
use nintendo_switch_pkg.Prelude.{
  ℕ, ◌+◌, ◌-◌, ◌*◌, ◌≡◌, Bool, true, false, ◌&&◌, Option, none, some, List, [], ◌∷◌, ltb, leb, ◌==◌,
  if◌then◌else◌,
}
use nintendo_switch_pkg.Prelude.Assert.{◌>>=◌, ◌>>◌, assert}
use nintendo_switch_pkg.Mmio.{Regs, readl, writel, setbits_le32, clrbits_le32}
use nintendo_switch_pkg.Mmio.Field.{insert_field, assign_bit}
use Table.{PingrpDesc, tegra210_pingroups, nth_pingroup}

-- PMUX_PINGRP_COUNT, PMUX_FUNC_COUNT, PMUX_FUNC_DEFAULT and PMUX_FUNC_RSVD1.
abbrev pub pingrp_count : ℕ
pingrp_count = 165

abbrev pub func_count : ℕ
func_count = 74

abbrev pub func_default : ℕ
func_default = 0

abbrev pub func_rsvd1 : ℕ
func_rsvd1 = 71

-- NV_PA_APB_MISC_BASE
abbrev pub apb_misc_base : ℕ
apb_misc_base = 0x70000000

-- `REG(pin)`
unfoldable pub pin_reg : ℕ → ℕ
pin_reg pin = apb_misc_base + 0x3000 + pin * 4

unfoldable pub pinmux_set_tristate_input_clamping : Regs → Regs
pinmux_set_tristate_input_clamping = setbits_le32 (apb_misc_base + 0x40) 1

unfoldable pub pinmux_clear_tristate_input_clamping : Regs → Regs
pinmux_clear_tristate_input_clamping = clrbits_le32 (apb_misc_base + 0x40) 1

-- The search in `tegra_soc_pingroups[pin].funcs`; `none` is the `mux` of -1.
unfoldable pub find_func : PingrpDesc → ℕ → Option ℕ
find_func d func =
    if d.f0 == func
    then some 0
    else if d.f1 == func
    then some 1
    else if d.f2 == func
    then some 2
    else if d.f3 == func
    then some 3
    else none

unfoldable pub mux_of : ℕ → ℕ → Option ℕ
mux_of pin func =
    if leb func_rsvd1 func
    then some (bit_and (func - func_rsvd1) 3)
    else find_func (nth_pingroup pin tegra210_pingroups) func

unfoldable pub pinmux_set_func : ℕ → ℕ → Regs → Option Regs
pinmux_set_func pin func r = if func == func_default then some r else do
  assert (ltb pin pingrp_count)
  assert (ltb func func_count)
  mux ← mux_of pin func
  some (writel (insert_field 3 0 mux (readl r (pin_reg pin))) (pin_reg pin) r)

-- PMUX_PULL_NORMAL, _DOWN and _UP are 0, 1 and 2.
unfoldable pub pinmux_set_pullupdown : ℕ → ℕ → Regs → Option Regs
pinmux_set_pullupdown pin pupd r = do
  assert (ltb pin pingrp_count)
  assert (leb pupd 2)
  some (writel (insert_field 3 2 pupd (readl r (pin_reg pin))) (pin_reg pin) r)

unfoldable pub pinmux_set_tristate : ℕ → ℕ → Regs → Option Regs
pinmux_set_tristate pin tri r = do
  assert (ltb pin pingrp_count)
  assert (leb tri 1)
  some (writel (assign_bit 4 (tri == 1) (readl r (pin_reg pin))) (pin_reg pin) r)

unfoldable pub pinmux_tristate_enable : ℕ → Regs → Option Regs
pinmux_tristate_enable pin = pinmux_set_tristate pin 1

unfoldable pub pinmux_tristate_disable : ℕ → Regs → Option Regs
pinmux_tristate_disable pin = pinmux_set_tristate pin 0

-- PMUX_PIN_OUTPUT, _INPUT and _NONE are 0, 1 and 2. Where `io` is 1, `(io & 1) << 6` is bit 6.
unfoldable pub pinmux_set_io : ℕ → ℕ → Regs → Option Regs
pinmux_set_io pin io r = if io == 2 then some r else do
  assert (ltb pin pingrp_count)
  assert (leb io 1)
  some (writel (assign_bit 6 (io == 1) (readl r (pin_reg pin))) (pin_reg pin) r)

-- In the next three, 0 is _DEFAULT, 1 is _DISABLE or _NORMAL, and 2 is _ENABLE or _HIGH.
unfoldable pub pinmux_set_lock : ℕ → ℕ → Regs → Option Regs
pinmux_set_lock pin lock r = if lock == 0 then some r else do
  assert (ltb pin pingrp_count)
  assert (leb 1 lock && leb lock 2)
  some (writel (assign_bit 7 (lock == 2) (readl r (pin_reg pin))) (pin_reg pin) r)

unfoldable pub pinmux_set_od : ℕ → ℕ → Regs → Option Regs
pinmux_set_od pin od r = if od == 0 then some r else do
  assert (ltb pin pingrp_count)
  assert (leb 1 od && leb od 2)
  some (writel (assign_bit 11 (od == 2) (readl r (pin_reg pin))) (pin_reg pin) r)

unfoldable pub pinmux_set_e_io_hv : ℕ → ℕ → Regs → Option Regs
pinmux_set_e_io_hv pin e_io_hv r = if e_io_hv == 0 then some r else do
  assert (ltb pin pingrp_count)
  assert (leb 1 e_io_hv && leb e_io_hv 2)
  some (writel (assign_bit 10 (e_io_hv == 2) (readl r (pin_reg pin))) (pin_reg pin) r)

-- `struct pmux_pingrp_config`
pub record PingrpConfig : Type 0 where
  pub pingrp : ℕ
  pub func : ℕ
  pub pull : ℕ
  pub tristate : ℕ
  pub io : ℕ
  pub lock : ℕ
  pub od : ℕ
  pub e_io_hv : ℕ

unfoldable pub pinmux_config_pingrp : PingrpConfig → Regs → Option Regs
pinmux_config_pingrp c r = do
  r1 ← pinmux_set_func c.pingrp c.func r
  r2 ← pinmux_set_pullupdown c.pingrp c.pull r1
  r3 ← pinmux_set_tristate c.pingrp c.tristate r2
  r4 ← pinmux_set_io c.pingrp c.io r3
  r5 ← pinmux_set_lock c.pingrp c.lock r4
  r6 ← pinmux_set_od c.pingrp c.od r5
  pinmux_set_e_io_hv c.pingrp c.e_io_hv r6

unfoldable pub pinmux_config_pingrp_table : List PingrpConfig → Regs → Option Regs
pinmux_config_pingrp_table [] r = some r
pinmux_config_pingrp_table (c ∷ cs) r = do
  r' ← pinmux_config_pingrp c r
  pinmux_config_pingrp_table cs r'
