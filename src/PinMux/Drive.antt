-- ===== src/PinMux/Drive.antt =====
-- The drive groups of Drivers/PinMuxDxe/pinmux-common.c. A setter takes an `int`, in which -1 is
-- PMUX_*_NONE; the caller passes a bit field of `struct pmux_drvgrp_config`, which is unsigned.
use nintendo_switch_pkg.Prelude.{
  ℕ, ◌+◌, ◌*◌, Option, none, some, List, [], ◌∷◌, ltb, leb, if◌then◌else◌,
}
use nintendo_switch_pkg.Prelude.Assert.{◌>>=◌, ◌>>◌, assert}
use nintendo_switch_pkg.Prelude.Int.{ℤ, pos, negsuc}
use nintendo_switch_pkg.Mmio.{Regs, readl, writel}
use nintendo_switch_pkg.Mmio.Field.{insert_field}
use nintendo_switch_pkg.PinMux.{apb_misc_base}

-- PMUX_DRVGRP_COUNT
abbrev pub drvgrp_count : ℕ
drvgrp_count = 167

-- `DRV_REG(group)`
unfoldable pub drv_reg : ℕ → ℕ
drv_reg group = apb_misc_base + 0x8d4 + group * 4

-- What the four setters below have in common: the value in the field at `shift`, unless it is NONE;
-- `mask` is also the largest valid value.
unfoldable pub set_drv_field : ℕ → ℕ → ℕ → ℤ → Regs → Option Regs
set_drv_field mask shift grp (negsuc n) r = if leb 1 n then none else some r
set_drv_field mask shift grp (pos v) r = do
  assert (ltb grp drvgrp_count)
  assert (leb v mask)
  some (writel (insert_field mask shift v (readl r (drv_reg grp))) (drv_reg grp) r)

unfoldable pub pinmux_set_drvup_slwf : ℕ → ℤ → Regs → Option Regs
pinmux_set_drvup_slwf = set_drv_field 3 30

unfoldable pub pinmux_set_drvdn_slwr : ℕ → ℤ → Regs → Option Regs
pinmux_set_drvdn_slwr = set_drv_field 3 28

unfoldable pub pinmux_set_drvup : ℕ → ℤ → Regs → Option Regs
pinmux_set_drvup = set_drv_field 0x7f 20

unfoldable pub pinmux_set_drvdn : ℕ → ℤ → Regs → Option Regs
pinmux_set_drvdn = set_drv_field 0x7f 12

-- `struct pmux_drvgrp_config`: `slwf` and `slwr` have 3 bits, `drvup` and `drvdn` have 8.
pub record DrvgrpConfig : Type 0 where
  pub drvgrp : ℕ
  pub slwf : ℕ
  pub slwr : ℕ
  pub drvup : ℕ
  pub drvdn : ℕ

unfoldable pub pinmux_config_drvgrp : DrvgrpConfig → Regs → Option Regs
pinmux_config_drvgrp c r = do
  r1 ← pinmux_set_drvup_slwf c.drvgrp (pos c.slwf) r
  r2 ← pinmux_set_drvdn_slwr c.drvgrp (pos c.slwr) r1
  r3 ← pinmux_set_drvup c.drvgrp (pos c.drvup) r2
  pinmux_set_drvdn c.drvgrp (pos c.drvdn) r3

unfoldable pub pinmux_config_drvgrp_table : List DrvgrpConfig → Regs → Option Regs
pinmux_config_drvgrp_table [] r = some r
pinmux_config_drvgrp_table (c ∷ cs) r = do
  r' ← pinmux_config_drvgrp c r
  pinmux_config_drvgrp_table cs r'
