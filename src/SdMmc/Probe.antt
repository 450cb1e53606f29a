-- ===== src/SdMmc/Probe.antt =====
-- SdControllerProbe of Drivers/SdMmcDxe/SdMmc.c, over the registers of the clock controller and of the
-- GPIO pins, and the records of the driver that it fills in.
use Prim.Native.Nat.{bit_or}
use nintendo_switch_pkg.Prelude.{
  ℕ, ◌-◌, ◌^◌, Bool, false, Option, some, [], ◌∷◌, leb, ◌==◌, if◌then◌else◌,
}
use nintendo_switch_pkg.Prelude.Assert.{◌>>=◌}
use nintendo_switch_pkg.Mmio.{Regs}
use nintendo_switch_pkg.Gpio.{gpio_config, gpio_output_enable, gpio_write, gpio_read}
use nintendo_switch_pkg.Clock.PeriphRate.{Tuned}
use nintendo_switch_pkg.Clock.Protocol.{
  ub_enable_clk, ub_clk_set_rate, ub_reset_assert, ub_reset_deassert,
}
use nintendo_switch_pkg.SdMmc.Ident.{Driver}

-- `mConfig`: MMC_MODE_4BIT, _HS_52MHz and _HS, and the three ranges of voltages. The other fields of the
-- instance but `clock`, and those of the block descriptor, are cleared.
unfoldable pub probe_records : {S : Type 0} → S → Driver S
probe_records host = record {
  sd = record {
    mmc = record {
      b_max = 65535;
      high_capacity = false;
      ddr_mode = false;
      rca = 0;
      part_config = 0;
      read_bl_len = 0;
      capacity = 0;
      capacity_user = 0;
      capacity_boot = 0;
      capacity_rpmb = 0;
      capacity_gp = 0 ∷ 0 ∷ 0 ∷ 0 ∷ [];
    };
    blk = record { hwpart = 0; lba = 0; blksz = 0 };
    host = host;
  };
  id = record {
    cfg = record {
      host_caps = bit_or (2 ^ 2) (bit_or (2 ^ 1) (2 ^ 0));
      voltages = bit_or (bit_or 0x100000 0x200000) 0x80;
      f_min = 375000;
      f_max = 48000000;
    };
    version = 0;
    has_init = 0;
    bus_width = 0;
    clock = 375000;
    card_caps = 0;
    ocr = 0;
    dsr = 0;
    dsr_imp = 0;
    scr_0 = 0;
    scr_1 = 0;
    csd_0 = 0;
    csd_1 = 0;
    csd_2 = 0;
    csd_3 = 0;
    tran_speed = 0;
    write_bl_len = 0;
    erase_grp_size = 0;
    ssr = record { au = 0; erase_timeout = 0; erase_offset = 0 };
    op_cond_pending = false;
    init_in_progress = 0;
  };
}

-- EFI_SUCCESS, EFI_DEVICE_ERROR and EFI_NOT_FOUND.
pub data ProbeStatus : Type 0 where
  success : ProbeStatus
  device_error : ProbeStatus
  not_found : ProbeStatus

pub record Probed : Type 0 where
  pub status : ProbeStatus
  pub regs : Regs

-- PERIPH_ID_SDMMC1.
abbrev pub periph_id_sdmmc1 : ℕ
periph_id_sdmmc1 = 14

-- IS_ERR_VALUE of an `int`: the last MAX_ERRNO words.
unfoldable pub is_err_value : ℕ → Bool
is_err_value ret = leb (2 ^ 32 - 4095) ret

-- Pin 4 of port E, 4, powers the card.
unfoldable pub power_card : Regs → Option Regs
power_card r =
    gpio_config 4 (2 ^ 4) 1 r >>= gpio_write 4 (2 ^ 4) 1 >>= gpio_output_enable 4 (2 ^ 4) 1

-- Pin 1 of port Z, 25, is low where a card is in.
unfoldable pub detect_card : Regs → Option Probed
detect_card r = do
  absent ← gpio_read 25 (2 ^ 1) r
  if absent == 0
      then (power_card r >>= λ q. some (record { status = success; regs = q }))
      else some (record { status = not_found; regs = r })

unfoldable pub finish_probe : Tuned → Option Probed
finish_probe tuned =
    if is_err_value tuned.rate
    then some (record { status = device_error; regs = tuned.regs })
    else (ub_reset_deassert periph_id_sdmmc1 tuned.regs >>= detect_card)

-- `pll_rate` is what clock_init noted.
unfoldable pub sd_controller_probe : (ℕ → ℕ) → Regs → Option Probed
sd_controller_probe pll_rate r = do
  r_1 ← ub_reset_assert periph_id_sdmmc1 r
  r_2 ← ub_enable_clk periph_id_sdmmc1 r_1
  tuned ← ub_clk_set_rate periph_id_sdmmc1 20000000 pll_rate r_2
  finish_probe tuned
