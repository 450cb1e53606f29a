-- ===== src/Usb/Timing.antt =====
-- The USB timing parameters for each oscillator, Drivers/EhciPciEmulationDxe/TegraUsb.h.
use nintendo_switch_pkg.Prelude.{ℕ, Bool, false, true, ◌==◌, if◌then◌else◌}

-- A row of PARAM_COUNT words.
pub record Timing : Type 0 where
  pub divn : ℕ
  pub divm : ℕ
  pub divp : ℕ
  pub cpcon : ℕ
  pub lfcon : ℕ
  pub enable_delay_count : ℕ
  pub stable_count : ℕ
  pub active_delay_count : ℕ
  pub xtal_freq_count : ℕ
  pub debounce_a_time : ℕ
  pub bias_time : ℕ

abbrev timing : ℕ → ℕ → ℕ → ℕ → ℕ → ℕ → ℕ → ℕ → ℕ → ℕ → ℕ → Timing
timing n m p kcp kvco enable stable active xtal debounce bias = record {
  divn = n;
  divm = m;
  divp = p;
  cpcon = kcp;
  lfcon = kvco;
  enable_delay_count = enable;
  stable_count = stable;
  active_delay_count = active;
  xtal_freq_count = xtal;
  debounce_a_time = debounce;
  bias_time = bias;
}

abbrev zeros : Timing
zeros = timing 0 0 0 0 0 0 0 0 0 0 0

unfoldable pub t20_usb_pll : ℕ → Timing
t20_usb_pll osc =
    if osc == 0
    then timing 0x3C0 0x0D 0x00 0xC 0 0x02 0x33 0x05 0x7F 0x7EF4 5
    else if osc == 1
    then timing 0x0C8 0x04 0x00 0x3 0 0x03 0x4B 0x06 0xBB 0xBB80 7
    else if osc == 2
    then timing 0x3C0 0x0C 0x00 0xC 0 0x02 0x2F 0x04 0x76 0x7530 5
    else if osc == 3
    then timing 0x3C0 0x1A 0x00 0xC 0 0x04 0x66 0x09 0xFE 0xFDE8 9
    else zeros

unfoldable pub t30_usb_pll : ℕ → Timing
t30_usb_pll osc =
    if osc == 0
    then timing 0x3C0 0x0D 0x00 0xC 1 0x02 0x33 0x09 0x7F 0x7EF4 5
    else if osc == 1
    then timing 0x0C8 0x04 0x00 0x3 0 0x03 0x4B 0x0C 0xBB 0xBB80 7
    else if osc == 2
    then timing 0x3C0 0x0C 0x00 0xC 1 0x02 0x2F 0x08 0x76 0x7530 5
    else if osc == 3
    then timing 0x3C0 0x1A 0x00 0xC 1 0x04 0x66 0x09 0xFE 0xFDE8 9
    else zeros

unfoldable pub t114_usb_pll : ℕ → Timing
t114_usb_pll osc =
    if osc == 0
    then timing 0x3C0 0x0D 0x00 0xC 2 0x02 0x33 0x09 0x7F 0x7EF4 6
    else if osc == 1
    then timing 0x0C8 0x04 0x00 0x3 2 0x03 0x4B 0x0C 0xBB 0xBB80 8
    else if osc == 2
    then timing 0x3C0 0x0C 0x00 0xC 2 0x02 0x2F 0x08 0x76 0x7530 5
    else if osc == 3
    then timing 0x3C0 0x1A 0x00 0xC 2 0x04 0x66 0x09 0xFE 0xFDE8 11
    else zeros

unfoldable pub t210_usb_pll : ℕ → Timing
t210_usb_pll osc =
    if osc == 0
    then timing 0x028 0x01 0x01 0x0 0 0x02 0x2F 0x08 0x76 32500 5
    else if osc == 1
    then timing 0x019 0x01 0x01 0x0 0 0x03 0x4B 0x0C 0xBB 48000 8
    else if osc == 2
    then timing 0x028 0x01 0x01 0x0 0 0x02 0x2F 0x08 0x76 30000 5
    else if osc == 3
    then timing 0x028 0x01 0x01 0x0 0 0x02 0x2F 0x08 0x76 65000 5
    else if osc == 4
    then timing 0x019 0x02 0x01 0x0 0 0x05 0x96 0x18 0x177 96000 15
    else timing 0x028 0x04 0x01 0x0 0 0x04 0x66 0x09 0xFE 120000 20

-- `fdt_usb_controllers`, by the type of the controller: USB_CTLR_T20 to USB_CTLR_T210.
unfoldable pub has_hostpc : ℕ → Bool
has_hostpc type = if type == 0 then false else true

unfoldable pub pll_parameter : ℕ → ℕ → Timing
pll_parameter type =
    if type == 0
    then t20_usb_pll
    else if type == 1
    then t30_usb_pll
    else if type == 2
    then t114_usb_pll
    else t210_usb_pll
