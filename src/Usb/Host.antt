-- ===== src/Usb/Host.antt =====
-- The rest of Drivers/EhciPciEmulationDxe/PciEmulation.c: the wait for the clock of the PHY, the power
-- of the bus, and ConfigController. The hardware decides what the wait and the test of the bus read.
use Prim.Native.Nat.{bit_and, bit_or}
use nintendo_switch_pkg.Prelude.{
  ℕ, zero, suc, ◌+◌, ◌^◌, Bool, true, false, not, ◌&&◌, ◌||◌, Option, some, ◌==◌, if◌then◌else◌,
}
use nintendo_switch_pkg.Prelude.Assert.{◌>>=◌}
use nintendo_switch_pkg.Prelude.Int.{ℤ, pos, negsuc, nonzero}
use nintendo_switch_pkg.Prelude.Bits.{shl32}
use nintendo_switch_pkg.Mmio.{Regs, clrbits_le32, clrsetbits_le32}
use nintendo_switch_pkg.Gpio.{gpio_config, gpio_output_enable, gpio_write}
use nintendo_switch_pkg.Clock.Protocol.{ub_start_pll}
use nintendo_switch_pkg.Usb.{
  FdtUsb, dr_mode_host, dr_mode_device, dr_mode_otg, usb_init_host, usb_init_device, periph_id_usbd,
  icusb_ctrl, hostpc1_devlc, usb_mode, utmip_xcvr_cfg0, utmip_bias_cfg0, utmip_xcvr_cfg1,
  utmip_bias_cfg1,
}
use nintendo_switch_pkg.Usb.Timing.{Timing, has_hostpc}
use nintendo_switch_pkg.Usb.Utmi.{get_pll_timing, usb1_base, start_phy}

-- What the hardware answers: `susp_ctrl` in each round of the wait, and `phy_vbus_sensors` after it.
pub record Readings : Type 0 where
  pub phy : ℕ → ℕ
  pub vbus : ℕ

-- A result, 0 or a negative error, with the state after.
pub record Ret : Type 0 where
  pub ret : ℤ
  pub config : FdtUsb
  pub regs : Regs

-- The wait with `n` rounds left, of which round `k` is next; `loop_count` is not 0 after it.
unfoldable pub wait_phy : (ℕ → ℕ) → ℕ → ℕ → Bool
wait_phy phy zero k = false
wait_phy phy (suc n) k =
    let rest = wait_phy phy n (k + 1) in if bit_and (phy k) (2 ^ 7) == 0 then rest else true

-- PTS_MASK is three bits from bit 29 on, and STS bit 28.
unfoldable pub init_phy_mux : FdtUsb → ℕ → ℕ → Regs → Regs
init_phy_mux config pts init r =
    let r_1 = clrsetbits_le32 (usb_mode config.reg) 3 (if init == usb_init_host then 3 else 0) r in
    let r_2 = clrsetbits_le32 (hostpc1_devlc config.reg) (shl32 7 29) (shl32 pts 29) r_1 in
    clrbits_le32 (hostpc1_devlc config.reg) (2 ^ 28) r_2

-- All that is done after the wait; PTS_UTMI is 0.
unfoldable pub finish_phy : FdtUsb → ℕ → Regs → Regs
finish_phy config init r =
    let r_1 = init_phy_mux config 0 init (clrbits_le32 (icusb_ctrl config.reg) (2 ^ 3) r) in
    let r_2 =
      clrbits_le32 (utmip_xcvr_cfg0 config.reg) (bit_or (bit_or (2 ^ 14) (2 ^ 16)) (2 ^ 18)) r_1 in
    let r_3 =
      clrbits_le32 (utmip_xcvr_cfg1 config.reg) (bit_or (bit_or (2 ^ 0) (2 ^ 2)) (2 ^ 4)) r_2 in
    if has_hostpc config.type
    then clrbits_le32 (utmip_bias_cfg1 (usb1_base config)) 1
        (clrbits_le32 (utmip_bias_cfg0 (usb1_base config)) (2 ^ 10) r_3)
    else r_3

-- ETIMEDOUT is 110. The wait has 100000 rounds.
unfoldable pub init_utmi_usb_controller : Readings → FdtUsb → ℕ → Regs → Option Ret
init_utmi_usb_controller seen config init r = do
  r_1 ← start_phy config init r
  some (
      if wait_phy seen.phy 100000 0
      then record { ret = pos 0; config = config; regs = finish_phy config init r_1 }
      else record { ret = negsuc 109; config = config; regs = r_1 })

-- VBUS_VLD_STS is bit 26; GPIO_PORT_CC is 28.
unfoldable pub set_up_vbus : Readings → FdtUsb → ℕ → Regs → Option Regs
set_up_vbus seen config init r =
    if init == usb_init_host
      && config.dr_mode == dr_mode_otg
      && not (bit_and seen.vbus (2 ^ 26) == 0)
    then some r
    else if config.vbus_gpio_valid
    then (gpio_config 28 (2 ^ 4) 1 r
        >>= gpio_write 28 (2 ^ 4) 1
        >>= gpio_output_enable 28 (2 ^ 4) 1)
    else some r

-- The checks before anything is done, of which each fails with -1.
unfoldable pub is_allowed : FdtUsb → ℕ → Bool
is_allowed config init =
    let mode = config.dr_mode in
    if init == usb_init_host
    then mode == dr_mode_host || mode == dr_mode_otg
    else if init == usb_init_device
    then config.periph_id == periph_id_usbd
      && config.utmi
      && (mode == dr_mode_device || mode == dr_mode_otg)
    else false

unfoldable pub init_controller : Readings → FdtUsb → ℕ → Regs → Option Ret
init_controller seen config init r =
    if config.utmi
    then init_utmi_usb_controller seen config init r
    else some (record { ret = if config.ulpi then negsuc 0 else pos 0; config = config; regs = r })

unfoldable pub finish_common : Readings → ℕ → Ret → Option Ret
finish_common seen init done =
    if nonzero done.ret
    then some done
    else (set_up_vbus seen done.config init done.regs >>= λ r.
        some (record { ret = pos 0; config = record done.config { init_type = init }; regs = r }))

unfoldable pub usb_common_init : Readings → FdtUsb → ℕ → Regs → Option Ret
usb_common_init seen config init r =
    if is_allowed config init
    then (init_controller seen config init r >>= finish_common seen init)
    else some (record { ret = negsuc 0; config = config; regs = r })

-- CLOCK_ID_USB is 4.
unfoldable pub config_clock : Timing → Regs → Option Regs
config_clock t =
    ub_start_pll 4
      (record { divm = t.divm; divn = t.divn; divp = t.divp; cpcon = t.cpcon; lfcon = t.lfcon })

-- `mPriv` as ConfigController fills it; USB_CTLR_T210 is 3.
unfoldable pub priv : FdtUsb
priv = record {
  reg = 0x7d000000;
  utmi = true;
  ulpi = false;
  has_legacy_mode = false;
  type = 3;
  init_type = usb_init_host;
  dr_mode = dr_mode_otg;
  periph_id = periph_id_usbd;
  vbus_gpio_valid = true;
  clk_done = false;
}

-- EFI_SUCCESS, or EFI_DEVICE_ERROR.
pub data ControllerStatus : Type 0 where
  success : ControllerStatus
  device_error : ControllerStatus

pub record Configured : Type 0 where
  pub status : ControllerStatus
  pub config : FdtUsb
  pub regs : Regs

unfoldable pub finish_config : Ret → Option Configured
finish_config done =
    if nonzero done.ret
    then some (record { status = device_error; config = done.config; regs = done.regs })
    else if done.config.clk_done
    then some (record { status = success; config = done.config; regs = done.regs })
    else (config_clock (get_pll_timing done.config.type done.regs) done.regs >>= λ r.
        some
          (record { status = success; config = record done.config { clk_done = true }; regs = r }))

unfoldable pub config_controller : Readings → Regs → Option Configured
config_controller seen r = usb_common_init seen priv usb_init_host r >>= finish_config
