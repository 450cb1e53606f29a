-- ===== src/SdMmc/ProbeWords.antt =====
-- The words of the registers that SdControllerProbe of Drivers/SdMmcDxe/SdMmc.c changes, after each of its
-- calls.
use Prim.Native.Nat.{bit_or}
use nintendo_switch_pkg.Prelude.{
  ℕ, ◌%◌, ◌^◌, ◌≡◌, refl, true, false, Bool, some, arith, if◌then◌else◌,
}
use nintendo_switch_pkg.Prelude.Assert.{◌>>=◌}
use nintendo_switch_pkg.Prelude.Bits.{test_bit, bit_and-pow_eq_zero}
use nintendo_switch_pkg.Mmio.{from, Regs, readl, writel}
use nintendo_switch_pkg.Mmio.Update.{Updates}
use nintendo_switch_pkg.Mmio.Field.{assign_bit}
use nintendo_switch_pkg.Gpio.{
  pin_addr, config_array, dir_out_array, out_array, in_array, gpio_cnf, gpio_oe, gpio_out, gpio_in,
  entry, assign_pins, gpio_config, gpio_output_enable, gpio_write, gpio_read,
}
use nintendo_switch_pkg.Clock.Periph.{
  clock_enable, clock_set_enable, reset_set_enable, enable_reg, reset_reg, periph_reg,
}
use nintendo_switch_pkg.Clock.Protocol.{ub_enable_clk, ub_reset_assert, ub_reset_deassert}
use nintendo_switch_pkg.SdMmc.Probe.{power_card}

-- Pin 1 of port Z and pin 4 of port E.
abbrev pub detect_pin : ℕ
detect_pin = 201

abbrev pub power_pin : ℕ
power_pin = 36

-- The source register of SDMMC1.
abbrev pub sdmmc1_source : ℕ
sdmmc1_source = 0x60006150

-- The registers of the two pins are as before.
pub record Keeps (r q : Regs) : Type 0 where
  pub detect : readl q (pin_addr in_array detect_pin) ≡ readl r (pin_addr in_array detect_pin)
  pub mode : readl q (pin_addr config_array power_pin) ≡ readl r (pin_addr config_array power_pin)
  pub direction :
      readl q (pin_addr dir_out_array power_pin) ≡ readl r (pin_addr dir_out_array power_pin)
  pub level : readl q (pin_addr out_array power_pin) ≡ readl r (pin_addr out_array power_pin)

abbrev pub held : Regs → Regs
held r = from (ub_reset_assert 14 r >>= ub_enable_clk 14)

pub held-words :
    (r : Regs)
    → ((ub_reset_assert 14 r >>= ub_enable_clk 14) ≡ some (held r))
      × (readl (held r) (enable_reg 14) ≡ assign_bit 14 true (readl r (enable_reg 14)) % 2 ^ 32)
      × (readl (held r) (reset_reg 14) ≡ assign_bit 14 true (readl r (reset_reg 14)) % 2 ^ 32)
      × (readl (held r) sdmmc1_source ≡ readl r sdmmc1_source)
      × Keeps r (held r)
unfolding ub_reset_assert ub_enable_clk reset_set_enable clock_enable clock_set_enable enable_reg
    reset_reg periph_reg readl writel pin_addr
held-words r =
    (refl, refl, refl, refl, record { detect = refl; mode = refl; direction = refl; level = refl })

pub released-words :
    (r : Regs)
    → let q = from (ub_reset_deassert 14 r) in
      (ub_reset_deassert 14 r ≡ some q)
      × (readl q (enable_reg 14) ≡ readl r (enable_reg 14))
      × (readl q (reset_reg 14) ≡ assign_bit 14 false (readl r (reset_reg 14)) % 2 ^ 32)
      × Keeps r q
unfolding ub_reset_deassert reset_set_enable enable_reg reset_reg periph_reg readl writel pin_addr
released-words r =
    (refl, refl, refl, record { detect = refl; mode = refl; direction = refl; level = refl })

pub powered-words :
    (r : Regs)
    → let q = from (power_card r) in
      (power_card r ≡ some q)
      × (readl q (enable_reg 14) ≡ readl r (enable_reg 14))
      × (readl q (reset_reg 14) ≡ readl r (reset_reg 14))
      × (readl q (pin_addr config_array power_pin)
          ≡ bit_or (readl r (pin_addr config_array power_pin)) (2 ^ 4) % 2 ^ 32)
      × (readl q (pin_addr dir_out_array power_pin)
          ≡ bit_or (readl r (pin_addr dir_out_array power_pin)) (2 ^ 4) % 2 ^ 32)
      × (readl q (pin_addr out_array power_pin)
          ≡ bit_or (readl r (pin_addr out_array power_pin)) (2 ^ 4) % 2 ^ 32)
unfolding power_card gpio_config gpio_write gpio_output_enable assign_pins entry gpio_cnf gpio_out
    gpio_oe enable_reg reset_reg periph_reg readl writel pin_addr
powered-words r = (refl, refl, refl, refl, refl, refl)

pub detected :
    (r : Regs)
    → gpio_read 25 (2 ^ 1) r
      ≡ some (if test_bit (readl r (pin_addr in_array detect_pin)) 1 then 1 else 0)
unfolding gpio_read entry gpio_in pin_addr
detected r = ground (arith, bit_and-pow_eq_zero 1 (readl r 1610667572))

pub tuned-Keeps :
    (next : ℕ → Bool → Bool) (r q : Regs)
    → Updates sdmmc1_source next r q
    → Keeps r q
      × (readl q (enable_reg 14) ≡ readl r (enable_reg 14))
      × (readl q (reset_reg 14) ≡ readl r (reset_reg 14))
unfolding pin_addr enable_reg reset_reg periph_reg
tuned-Keeps next r q u = (
  record {
    detect = u.others _ (λ e. omega (arith, e));
    mode = u.others _ (λ e. omega (arith, e));
    direction = u.others _ (λ e. omega (arith, e));
    level = u.others _ (λ e. omega (arith, e));
  },
  u.others _ (λ e. omega (arith, e)),
  u.others _ (λ e. omega (arith, e)),
)
