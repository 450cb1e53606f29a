-- ===== src/Usb.antt =====
-- The USB host controller, Drivers/EhciPciEmulationDxe/PciEmulation.c and its TegraUsb.h, over the
-- registers of the controller (Include/Protocol/Utc/TegraUsb.h), those of the clock controller and the
-- GPIO pins. A debug message is left out, and a delay changes no register.
pub mod Timing
pub mod Utmi
pub mod Host
pub mod Started
pub mod Finished
pub mod Powered
pub mod Ends
pub mod Debounce
mod Tests
use Prim.Native.Nat.{bit_and, bit_or}
use nintendo_switch_pkg.Prelude.{ℕ, ◌+◌, ◌%◌, ◌^◌, Bool}
use nintendo_switch_pkg.Prelude.Bits.{not32}
use nintendo_switch_pkg.Clock.{clk_rst_base}

-- `enum dr_mode`, less DR_MODE_NONE.
abbrev pub dr_mode_host : ℕ
dr_mode_host = 1

abbrev pub dr_mode_device : ℕ
dr_mode_device = 2

abbrev pub dr_mode_otg : ℕ
dr_mode_otg = 3

-- `enum usb_init_type`.
abbrev pub usb_init_host : ℕ
usb_init_host = 0

abbrev pub usb_init_device : ℕ
usb_init_device = 1

-- PERIPH_ID_USBD, PERIPH_ID_USB2 and PERIPH_ID_USB3.
abbrev pub periph_id_usbd : ℕ
periph_id_usbd = 22

abbrev pub periph_id_usb2 : ℕ
periph_id_usb2 = 58

abbrev pub periph_id_usb3 : ℕ
periph_id_usb3 = 59

-- `struct fdt_usb`; `enabled` is never read.
pub record FdtUsb : Type 0 where
  pub reg : ℕ
  pub utmi : Bool
  pub ulpi : Bool
  pub has_legacy_mode : Bool
  pub type : ℕ
  pub init_type : ℕ
  pub dr_mode : ℕ
  pub periph_id : ℕ
  pub vbus_gpio_valid : Bool
  pub clk_done : Bool

-- The registers of `struct usb_ctlr` at `base`.
abbrev pub icusb_ctrl : ℕ → ℕ
icusb_ctrl base = base + 0x15c

abbrev pub hostpc1_devlc : ℕ → ℕ
hostpc1_devlc base = base + 0x1b4

abbrev pub usb_mode : ℕ → ℕ
usb_mode base = base + 0x1f8

abbrev pub susp_ctrl : ℕ → ℕ
susp_ctrl base = base + 0x400

abbrev pub phy_vbus_sensors : ℕ → ℕ
phy_vbus_sensors base = base + 0x404

abbrev pub usb1_legacy_ctrl : ℕ → ℕ
usb1_legacy_ctrl base = base + 0x410

abbrev pub utmip_pll_cfg1 : ℕ → ℕ
utmip_pll_cfg1 base = base + 0x804

abbrev pub utmip_xcvr_cfg0 : ℕ → ℕ
utmip_xcvr_cfg0 base = base + 0x808

abbrev pub utmip_bias_cfg0 : ℕ → ℕ
utmip_bias_cfg0 base = base + 0x80c

abbrev pub utmip_hsrx_cfg0 : ℕ → ℕ
utmip_hsrx_cfg0 base = base + 0x810

abbrev pub utmip_hsrx_cfg1 : ℕ → ℕ
utmip_hsrx_cfg1 base = base + 0x814

abbrev pub utmip_tx_cfg0 : ℕ → ℕ
utmip_tx_cfg0 base = base + 0x820

abbrev pub utmip_misc_cfg0 : ℕ → ℕ
utmip_misc_cfg0 base = base + 0x824

abbrev pub utmip_misc_cfg1 : ℕ → ℕ
utmip_misc_cfg1 base = base + 0x828

abbrev pub utmip_debounce_cfg0 : ℕ → ℕ
utmip_debounce_cfg0 base = base + 0x82c

abbrev pub utmip_bat_chrg_cfg0 : ℕ → ℕ
utmip_bat_chrg_cfg0 base = base + 0x830

abbrev pub utmip_spare_cfg0 : ℕ → ℕ
utmip_spare_cfg0 base = base + 0x834

abbrev pub utmip_xcvr_cfg1 : ℕ → ℕ
utmip_xcvr_cfg1 base = base + 0x838

abbrev pub utmip_bias_cfg1 : ℕ → ℕ
utmip_bias_cfg1 base = base + 0x83c

-- `crc_utmip_pll_cfg1` and `crc_utmip_pll_cfg2`.
abbrev pub crc_utmip_pll_cfg1 : ℕ
crc_utmip_pll_cfg1 = clk_rst_base + 0x484

abbrev pub crc_utmip_pll_cfg2 : ℕ
crc_utmip_pll_cfg2 = clk_rst_base + 0x488

-- `clrsetbits_le32(&val, clear, set)` on a local word.
unfoldable pub clrset : ℕ → ℕ → ℕ → ℕ
clrset clear set val = bit_or (bit_and val (not32 clear)) set % 2 ^ 32
