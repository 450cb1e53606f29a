-- ===== src/Usb/Powered.antt =====
-- The power of the bus, and PLLU, in Drivers/EhciPciEmulationDxe/PciEmulation.c.
use Prim.Native.Nat.{bit_or}
use nintendo_switch_pkg.Prelude.{ℕ, ◌%◌, ◌^◌, ◌≡◌, refl, inl, inr, some, if◌then◌else◌, Bool-cases}
use nintendo_switch_pkg.Prelude.Assert.{◌>>=◌}
use nintendo_switch_pkg.Prelude.Bits.{test_bit, bit_and-pow_eq_zero}
use nintendo_switch_pkg.Mmio.{from, Regs, readl, writel}
use nintendo_switch_pkg.Clock.Osc.{osc_ctrl}
use nintendo_switch_pkg.Clock.Pll.{
  pll_base, pll_misc, tegra_pll_info_table, base_word, clock_start_pll,
}
use nintendo_switch_pkg.Clock.Periph.{enable_reg, reset_reg, periph_reg}
use nintendo_switch_pkg.Clock.Protocol.{ub_start_pll}
use nintendo_switch_pkg.Gpio.{
  pin_addr, config_array, dir_out_array, out_array, gpio_cnf, gpio_oe, gpio_out, entry, assign_pins,
  gpio_config, gpio_output_enable, gpio_write,
}
use nintendo_switch_pkg.Usb.{susp_ctrl, usb_mode, hostpc1_devlc}
use nintendo_switch_pkg.Usb.Timing.{Timing, pll_parameter}
use nintendo_switch_pkg.Usb.Host.{Readings, set_up_vbus, config_clock, priv}
use nintendo_switch_pkg.Usb.Started.{vbus_pin}

-- The pin after the power of the bus is switched on, or as before if another host drives it.
abbrev pub powered : ℕ → ℕ → ℕ
powered vbus word = if test_bit vbus 26 then word else bit_or word (2 ^ 4) % 2 ^ 32

-- The word of PLLU for an oscillator.
abbrev pub pllu_word : ℕ → ℕ
pllu_word osc =
    let t = pll_parameter 3 osc in
    base_word (tegra_pll_info_table 4)
      (record { divm = t.divm; divn = t.divn; divp = t.divp; cpcon = t.cpcon; lfcon = t.lfcon })
    % 2 ^ 32

pub record IsPowered (vbus : ℕ) (r q : Regs) : Type 0 where
  pub mode :
      readl q (pin_addr config_array vbus_pin)
      ≡ powered vbus (readl r (pin_addr config_array vbus_pin))
  pub direction :
      readl q (pin_addr dir_out_array vbus_pin)
      ≡ powered vbus (readl r (pin_addr dir_out_array vbus_pin))
  pub level :
      readl q (pin_addr out_array vbus_pin) ≡ powered vbus (readl r (pin_addr out_array vbus_pin))

pub record Same (r q : Regs) : Type 0 where
  pub susp : readl q (susp_ctrl 0x7d000000) ≡ readl r (susp_ctrl 0x7d000000)
  pub enable : readl q (enable_reg 22) ≡ readl r (enable_reg 22)
  pub reset : readl q (reset_reg 22) ≡ readl r (reset_reg 22)
  pub mode : readl q (usb_mode 0x7d000000) ≡ readl r (usb_mode 0x7d000000)
  pub devlc : readl q (hostpc1_devlc 0x7d000000) ≡ readl r (hostpc1_devlc 0x7d000000)
  pub osc : readl q osc_ctrl ≡ readl r osc_ctrl

-- The three calls that switch the pin on.
abbrev switched : Regs → Regs
switched r =
    from
      (gpio_config 28 (2 ^ 4) 1 r >>= gpio_write 28 (2 ^ 4) 1 >>= gpio_output_enable 28 (2 ^ 4) 1)

pub set_up_vbus-IsPowered :
    (seen : Readings) (r : Regs)
    → (q : Regs) × (set_up_vbus seen priv 0 r ≡ some q) × IsPowered seen.vbus r q × Same r q
unfolding set_up_vbus priv gpio_config gpio_write gpio_output_enable assign_pins entry gpio_cnf
    gpio_out gpio_oe pin_addr readl writel enable_reg reset_reg periph_reg
set_up_vbus-IsPowered seen r = elim (Bool-cases (test_bit seen.vbus 26)) [
  | inl driven ↦ (
    r,
    rw (bit_and-pow_eq_zero 26 seen.vbus, driven) refl,
    record { mode = rw driven refl; direction = rw driven refl; level = rw driven refl },
    record { susp = refl; enable = refl; reset = refl; mode = refl; devlc = refl; osc = refl },
  )
  | inr free ↦ (
    switched r,
    rw (bit_and-pow_eq_zero 26 seen.vbus, free) refl,
    record { mode = rw free refl; direction = rw free refl; level = rw free refl },
    record { susp = refl; enable = refl; reset = refl; mode = refl; devlc = refl; osc = refl },
  )
]

pub config_clock-word :
    (t : Timing) (r : Regs)
    → (q : Regs) × (config_clock t r ≡ some q)
      × (readl q (pll_base 4)
          ≡ base_word (tegra_pll_info_table 4) (record {
            divm = t.divm;
            divn = t.divn;
            divp = t.divp;
            cpcon = t.cpcon;
            lfcon = t.lfcon;
          })
            % 2 ^ 32)
      × Same r q
      × IsPowered (2 ^ 26) r q
unfolding config_clock ub_start_pll clock_start_pll pll_base pll_misc readl writel enable_reg
    reset_reg periph_reg test_bit pin_addr
config_clock-word t r = (
  from (config_clock t r),
  refl,
  refl,
  record { susp = refl; enable = refl; reset = refl; mode = refl; devlc = refl; osc = refl },
  record { mode = refl; direction = refl; level = refl },
)
