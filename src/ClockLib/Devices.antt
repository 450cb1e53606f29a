-- ===== src/ClockLib/Devices.antt =====
-- The protocol for the boot firmware's own devices, Drivers/ClockManagementDxe/ClockManagement.c, over the
-- clock library. A call that returns EFI_SUCCESS whatever happens returns no status here.
use nintendo_switch_pkg.Prelude.{ℕ, Bool, Option, ltb, if◌then◌else◌}
use nintendo_switch_pkg.Mmio.{Regs}
use nintendo_switch_pkg.SdMmc.Controller.{Env, Io}
use nintendo_switch_pkg.ClockLib.{clock_enable_uart, clock_enable_i2c, clock_enable_cl_dvfs}
use nintendo_switch_pkg.ClockLib.Sdmmc.{
  Rate, Configured, clock_sdmmc_is_not_reset_and_enabled, clock_sdmmc_get_params,
  clock_sdmmc_enable, clock_sdmmc_disable, clock_sdmmc_config_clock_source,
}

-- EFI_SUCCESS, and EFI_INVALID_PARAMETER.
pub data DeviceStatus : Type 0 where
  success : DeviceStatus
  invalid_parameter : DeviceStatus

pub record Enabled : Type 0 where
  pub status : DeviceStatus
  pub regs : Regs

unfoldable pub enable_cl_dvfs : Regs → Enabled
enable_cl_dvfs r = record { status = success; regs = clock_enable_cl_dvfs r }

-- An index is a UINT32, so it is not below 0.
unfoldable pub enable_i2c : ℕ → Regs → Enabled
enable_i2c device_index r =
    if ltb 5 device_index
    then record { status = invalid_parameter; regs = r }
    else record { status = success; regs = clock_enable_i2c device_index r }

unfoldable pub enable_uart : ℕ → Regs → Enabled
enable_uart device_index r =
    if ltb 4 device_index
    then record { status = invalid_parameter; regs = r }
    else record { status = success; regs = clock_enable_uart device_index r }

unfoldable pub sd_mmc_clock_get_params : ℕ → Option Rate
sd_mmc_clock_get_params = clock_sdmmc_get_params

module _ (env : Env) where
  unfoldable pub sd_mmc_clock_not_reset_and_enabled : ℕ → Io Bool
  sd_mmc_clock_not_reset_and_enabled = clock_sdmmc_is_not_reset_and_enabled env

  unfoldable pub sd_mmc_clock_enable : ℕ → ℕ → (ℕ → ℕ) → Io (Option Configured)
  sd_mmc_clock_enable = clock_sdmmc_enable env

  unfoldable pub sd_mmc_clock_disable : ℕ → Io (Unit {0})
  sd_mmc_clock_disable = clock_sdmmc_disable env

  unfoldable pub sd_mmc_clock_config_source : ℕ → ℕ → ℕ → (ℕ → ℕ) → Io Configured
  sd_mmc_clock_config_source = clock_sdmmc_config_clock_source env
