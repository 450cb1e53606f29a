-- ===== src/Usb/Utmi.antt =====
-- init_utmi_usb_controller of Drivers/EhciPciEmulationDxe/PciEmulation.c, up to the wait for the clock of
-- the PHY, in the order of the code.
use Prim.Native.Nat.{bit_and, bit_or}
use nintendo_switch_pkg.Prelude.{ℕ, ◌^◌, ◌&&◌, Option, some, ltb, ◌==◌, if◌then◌else◌}
use nintendo_switch_pkg.Prelude.Assert.{◌>>=◌}
use nintendo_switch_pkg.Prelude.Bits.{shl32, shr}
use nintendo_switch_pkg.Mmio.{Regs, readl, writel, clrbits_le32, setbits_le32, clrsetbits_le32}
use nintendo_switch_pkg.Clock.Protocol.{
  ub_enable_clk, ub_reset_periph, ub_reset_deassert, ub_get_osc_freq,
}
use nintendo_switch_pkg.Usb.{
  FdtUsb, dr_mode_otg, usb_init_device, periph_id_usbd, periph_id_usb2, periph_id_usb3, susp_ctrl,
  phy_vbus_sensors, usb1_legacy_ctrl, utmip_pll_cfg1, utmip_xcvr_cfg0, utmip_bias_cfg0,
  utmip_hsrx_cfg0, utmip_hsrx_cfg1, utmip_tx_cfg0, utmip_misc_cfg0, utmip_misc_cfg1,
  utmip_debounce_cfg0, utmip_bat_chrg_cfg0, utmip_spare_cfg0, utmip_xcvr_cfg1, utmip_bias_cfg1,
  crc_utmip_pll_cfg1, crc_utmip_pll_cfg2, clrset,
}
use nintendo_switch_pkg.Usb.Timing.{Timing, has_hostpc, pll_parameter}

-- UTMIP_RESET is bit 11 of the register, UTMIP_PHY_ENB bit 12.
unfoldable pub usbf_reset_controller : FdtUsb → Regs → Option Regs
usbf_reset_controller config r = do
  r_1 ← ub_reset_periph config.periph_id r
  let r_2 = if config.has_legacy_mode then setbits_le32 (usb1_legacy_ctrl config.reg) 1 r_1 else r_1
  let r_3 = setbits_le32 (susp_ctrl config.reg) (2 ^ 11) r_2
  some (if config.utmi then setbits_le32 (susp_ctrl config.reg) (2 ^ 12) r_3 else r_3)

unfoldable pub get_pll_timing : ℕ → Regs → Timing
get_pll_timing type r = pll_parameter type (ub_get_osc_freq r)

-- The crystal clock is stopped; VBUS_B_SESS_VLD_SW_VALUE and _EN, and VBUS_SENSE_CTL.
unfoldable pub set_sense : FdtUsb → ℕ → Regs → Regs
set_sense config init r =
    let mask = bit_or (2 ^ 12) (2 ^ 11) in
    let r_1 = clrbits_le32 (utmip_misc_cfg1 config.reg) (2 ^ 30) r in
    let r_2 =
      clrsetbits_le32 (phy_vbus_sensors config.reg) mask
        (if init == usb_init_device then mask else 0) r_1 in
    if config.dr_mode == dr_mode_otg && config.vbus_gpio_valid
    then clrsetbits_le32 (usb1_legacy_ctrl config.reg) (shl32 3 1) (shl32 3 1) r_2
    else r_2

-- The two words of the PLL's delays, and where they are kept.
unfoldable pub set_pll_delays : ℕ → ℕ → Timing → Regs → Regs
set_pll_delays stable_at enable_at t r =
    let stable =
      clrset (shl32 0x1f 18) (shl32 t.active_delay_count 18)
        (clrset (shl32 0xfff 6) (shl32 t.stable_count 6) (readl r stable_at)) in
    let r_1 = writel stable stable_at r in
    let enable =
      clrset 0xfff t.xtal_freq_count
        (clrset (shl32 0x1f 27) (shl32 t.enable_delay_count 27) (readl r_1 enable_at)) in
    writel enable enable_at r_1

-- The settings of the transceiver for the eye diagram.
unfoldable pub set_eye : FdtUsb → Regs → Regs
set_eye config r =
    let val =
      clrset (shl32 0x7f 25) (shl32 8 25)
        (clrset (shl32 7 22) (shl32 3 22) (clrset 0xf 4 (readl r (utmip_xcvr_cfg0 config.reg)))) in
    clrsetbits_le32 (utmip_xcvr_cfg1 config.reg) (shl32 0xf 18) (shl32 7 18)
      (writel val (utmip_xcvr_cfg0 config.reg) r)

-- The registers that only the first controller has are at `reg & USB1_ADDR_MASK`.
abbrev pub usb1_base : FdtUsb → ℕ
usb1_base config = bit_and config.reg 0xFFFF0000

unfoldable pub enable_usb1 : FdtUsb → Regs → Option Regs
enable_usb1 config r =
    if config.periph_id == periph_id_usbd
    then some r
    else (ub_enable_clk periph_id_usbd r >>= ub_reset_deassert periph_id_usbd)

unfoldable pub set_bias : FdtUsb → Regs → Regs
set_bias config r =
    let bias = utmip_bias_cfg0 (usb1_base config) in
    let val = clrset 3 2 (clrset (shl32 3 2) (shl32 1 2) (clrset 0 (2 ^ 24) (readl r bias))) in
    clrbits_le32 (utmip_misc_cfg0 config.reg) (2 ^ 22) (writel val bias r)

-- The branch for a controller with the register HOSTPC: the delays are in the clock controller.
unfoldable pub set_up_hostpc : FdtUsb → Timing → Regs → Option Regs
set_up_hostpc config t r = do
  let r_1 = set_pll_delays crc_utmip_pll_cfg2 crc_utmip_pll_cfg1 t r
  let r_2 = clrbits_le32 crc_utmip_pll_cfg1 (bit_or (bit_or (2 ^ 16) (2 ^ 14)) (2 ^ 12)) r_1
  r_3 ← enable_usb1 config (set_eye config r_2)
  some (set_bias config r_3)

-- The time is not cut to its field in the first write.
unfoldable pub set_debounce : FdtUsb → Timing → Regs → Regs
set_debounce config t r =
    let r_1 = clrsetbits_le32 (utmip_bias_cfg1 config.reg) (shl32 0x1f 3) (shl32 t.bias_time 3) r in
    let r_2 = clrsetbits_le32 (utmip_debounce_cfg0 config.reg) 0xffff t.debounce_a_time r_1 in
    if ltb 0xFFFF t.debounce_a_time
    then clrsetbits_le32 (utmip_bias_cfg1 config.reg) (shl32 0x3f 8) (shl32 1 8)
        (clrsetbits_le32 (utmip_debounce_cfg0 config.reg) 0xffff (shr t.debounce_a_time 1) r_2)
    else r_2

-- From UTMIP_FS_PREAMBLE_J to the crystal clock: utmip_idle_wait_delay is 17, utmip_elastic_limit 16 and
-- utmip_hs_sync_start_delay 9.
unfoldable pub set_receiver : FdtUsb → Regs → Regs
set_receiver config r =
    let r_1 = setbits_le32 (utmip_tx_cfg0 config.reg) (2 ^ 19) r in
    let r_2 = setbits_le32 (utmip_bat_chrg_cfg0 config.reg) 1 r_1 in
    let r_3 = clrbits_le32 (utmip_xcvr_cfg0 config.reg) (2 ^ 21) r_2 in
    let r_4 = setbits_le32 (utmip_spare_cfg0 config.reg) (2 ^ 3) r_3 in
    let val =
      clrset (shl32 0x1f 10) (shl32 16 10)
        (clrset (shl32 0x1f 15) (shl32 17 15) (readl r_4 (utmip_hsrx_cfg0 config.reg))) in
    let r_5 = writel val (utmip_hsrx_cfg0 config.reg) r_4 in
    let r_6 = clrsetbits_le32 (utmip_hsrx_cfg1 config.reg) (shl32 0x1f 1) (shl32 9 1) r_5 in
    setbits_le32 (utmip_misc_cfg1 config.reg) (2 ^ 30) r_6

-- UTMIP_FORCE_PD_SAMP_A, _B and _C.
unfoldable pub power_sampler : FdtUsb → Regs → Regs
power_sampler config r =
    if config.periph_id == periph_id_usbd
    then clrbits_le32 crc_utmip_pll_cfg2 (2 ^ 0) r
    else if config.periph_id == periph_id_usb2
    then clrbits_le32 crc_utmip_pll_cfg2 (2 ^ 2) r
    else if config.periph_id == periph_id_usb3
    then clrbits_le32 crc_utmip_pll_cfg2 (2 ^ 4) r
    else r

unfoldable pub set_up_delays : FdtUsb → Timing → Regs → Option Regs
set_up_delays config t r =
    if has_hostpc config.type
    then set_up_hostpc config t r
    else some (set_pll_delays (utmip_misc_cfg1 config.reg) (utmip_pll_cfg1 config.reg) t r)

-- From the delays to the end of the reset of the PHY.
unfoldable pub set_up_phy : FdtUsb → Timing → Regs → Option Regs
set_up_phy config t r = do
  r_1 ← set_up_delays config t r
  let r_2 = set_receiver config (set_debounce config t r_1)
  let r_3 = if has_hostpc config.type then power_sampler config r_2 else r_2
  some (clrbits_le32 (susp_ctrl config.reg) (2 ^ 11) r_3)

-- All that is done before the wait.
unfoldable pub start_phy : FdtUsb → ℕ → Regs → Option Regs
start_phy config init r = do
  r_1 ← ub_enable_clk config.periph_id r
  r_2 ← usbf_reset_controller config r_1
  let r_3 = set_sense config init r_2
  set_up_phy config (get_pll_timing config.type r_3) r_3
