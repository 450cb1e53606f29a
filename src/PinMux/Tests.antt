-- ===== src/PinMux/Tests.antt =====
-- Runs of the pin driver on concrete registers.
use nintendo_switch_pkg.Prelude.{◌+◌, ◌-◌, ◌^◌, ◌≡◌, refl, some, arith}
use nintendo_switch_pkg.Mmio.{Regs}
use nintendo_switch_pkg.Mmio.Update.{Sets}
use nintendo_switch_pkg.PinMux.{PingrpConfig, find_func, func_rsvd1}
use nintendo_switch_pkg.PinMux.Table.{tegra210_pingroups, nth_pingroup}
use nintendo_switch_pkg.PinMux.Drive.{DrvgrpConfig, drv_reg, pinmux_config_drvgrp}
use nintendo_switch_pkg.PinMux.Config
use nintendo_switch_pkg.PinMux.DriveLayout

abbrev ones : Regs
ones a = 2 ^ 32 - 1

-- UARTA_TX, an output with its pull disabled, and UARTA_RX, an input pulled up.
abbrev uart_tx : PingrpConfig
uart_tx = record {
  pingrp = 61;
  func = 58;
  pull = 0;
  tristate = 0;
  io = 0;
  lock = 0;
  od = 1;
  e_io_hv = 0;
}

abbrev uart_rx : PingrpConfig
uart_rx = record {
  pingrp = 62;
  func = 58;
  pull = 2;
  tristate = 1;
  io = 1;
  lock = 2;
  od = 2;
  e_io_hv = 2;
}

-- SDMMC1_CLK lists RSVD1 second.
clk_rsvd1 : find_func (nth_pingroup 0 tegra210_pingroups) (func_rsvd1 + 0) ≡ some 1
unfolding find_func nth_pingroup tegra210_pingroups
clk_rsvd1 = refl

abbrev drive : DrvgrpConfig
drive = record { drvgrp = 3; slwf = 1; slwr = 2; drvup = 100; drvdn = 64 }

drive-IsValid : DriveLayout.IsValid drive
drive-IsValid = record {
  drvgrp_in = omega arith;
  slwf_in = omega arith;
  slwr_in = omega arith;
  drvup_in = omega arith;
  drvdn_in = omega arith;
}

pinmux_config_drvgrp-Sets_example :
    Sets (drv_reg 3) (DriveLayout.configured drive) ones (pinmux_config_drvgrp drive ones)
pinmux_config_drvgrp-Sets_example = DriveLayout.pinmux_config_drvgrp-Sets drive ones drive-IsValid

-- The slew rates left to the hardware.
abbrev drive_only : DrvgrpConfig
drive_only = record { drvgrp = 3; slwf = 7; slwr = 7; drvup = 100; drvdn = 64 }
