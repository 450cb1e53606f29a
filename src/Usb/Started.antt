-- ===== src/Usb/Started.antt =====
-- What the start of the PHY in Drivers/EhciPciEmulationDxe/PciEmulation.c does to the registers of the
-- controller, to those of PLLU, and to the GPIO pin of the bus power.
use Prim.Native.Nat.{bit_and, bit_or}
use nintendo_switch_pkg.Prelude.{
  ℕ, ◌%◌, ◌^◌, ◌≡◌, refl, inl, inr, Bool, true, false, some, arith, ltb, Bool-cases, ◌∙◌,
}
use nintendo_switch_pkg.Prelude.Assert.{◌>>=◌}
use nintendo_switch_pkg.Prelude.Bits.{
  test_bit, not32, test_bit-bit_or, test_bit-bit_and, test_bit-low, test_bit-not32,
}
use nintendo_switch_pkg.Mmio.{
  from, Regs, readl, writel, clrbits_le32, setbits_le32, clrsetbits_le32,
}
use nintendo_switch_pkg.Mmio.Field.{assign_bit, test_bit-assign_bit}
use nintendo_switch_pkg.Clock.Osc.{osc_ctrl, clock_get_osc_freq}
use nintendo_switch_pkg.Clock.Pll.{pll_base}
use nintendo_switch_pkg.Clock.Protocol.{ub_enable_clk, ub_reset_periph}
use nintendo_switch_pkg.Clock.Periph.{
  clock_enable, clock_set_enable, reset_periph, reset_set_enable, enable_reg, reset_reg, periph_reg,
}
use nintendo_switch_pkg.Gpio.{pin_addr, config_array, dir_out_array, out_array}
use nintendo_switch_pkg.Usb.{susp_ctrl}
use nintendo_switch_pkg.Usb.Timing.{Timing, has_hostpc}
use nintendo_switch_pkg.Usb.Utmi.{
  start_phy, set_up_phy, set_pll_delays, usbf_reset_controller, set_up_delays, set_up_hostpc,
  enable_usb1, power_sampler, set_sense, set_eye, set_bias, set_debounce, set_receiver,
  get_pll_timing,
}
use nintendo_switch_pkg.Usb.Host.{priv}

-- GPIO_PORT_CC is 28; its pin 4 switches the power of the bus.
abbrev pub vbus_pin : ℕ
vbus_pin = 228

-- The oscillator, PLLU and the pin are as before.
pub record Keeps (r q : Regs) : Type 0 where
  pub osc : readl q osc_ctrl ≡ readl r osc_ctrl
  pub base : readl q (pll_base 4) ≡ readl r (pll_base 4)
  pub mode : readl q (pin_addr config_array vbus_pin) ≡ readl r (pin_addr config_array vbus_pin)
  pub direction :
      readl q (pin_addr dir_out_array vbus_pin) ≡ readl r (pin_addr dir_out_array vbus_pin)
  pub level : readl q (pin_addr out_array vbus_pin) ≡ readl r (pin_addr out_array vbus_pin)

pub Keeps-trans : {r s q : Regs} → Keeps r s → Keeps s q → Keeps r q
Keeps-trans h k = ground arith

-- Bit 11 of susp_ctrl holds the PHY in reset and bit 12 enables it; bit 22 of the first words of the clock
-- controller enables the controller and holds it in reset.
pub record IsRunning (q : Regs) : Type 0 where
  pub phy_reset : test_bit (readl q (susp_ctrl 0x7d000000)) 11 ≡ false
  pub phy_enabled : test_bit (readl q (susp_ctrl 0x7d000000)) 12 ≡ true
  pub enabled : test_bit (readl q (enable_reg 22)) 22 ≡ true
  pub reset : test_bit (readl q (reset_reg 22)) 22 ≡ false

pub set_up_phy-returns :
    (t : Timing) (r : Regs) → set_up_phy priv t r ≡ some (from (set_up_phy priv t r))
unfolding set_up_phy set_up_delays set_up_hostpc enable_usb1 priv has_hostpc power_sampler
set_up_phy-returns t r = refl

-- The words that `IsRunning` is about.
set_up_phy-words :
    (t : Timing) (r : Regs)
    → let q = from (set_up_phy priv t r) in
      (readl q (susp_ctrl 0x7d000000)
        ≡ bit_and (readl r (susp_ctrl 0x7d000000)) (not32 (2 ^ 11)) % 2 ^ 32)
      × (readl q (enable_reg 22) ≡ readl r (enable_reg 22))
      × (readl q (reset_reg 22) ≡ readl r (reset_reg 22))
      × Keeps r q
unfolding set_up_phy set_up_delays set_up_hostpc enable_usb1 priv has_hostpc power_sampler
    set_pll_delays set_eye set_bias set_debounce set_receiver readl writel clrbits_le32 setbits_le32
    clrsetbits_le32 pll_base pin_addr enable_reg reset_reg periph_reg
set_up_phy-words t r = elim (Bool-cases (ltb 0xFFFF t.debounce_a_time)) [
  | inl long ↦
      rw (long, set_debounce)
        (
          refl,
          refl,
          refl,
          record { osc = refl; base = refl; mode = refl; direction = refl; level = refl },
        )
  | inr short ↦
      rw (short, set_debounce)
        (
          refl,
          refl,
          refl,
          record { osc = refl; base = refl; mode = refl; direction = refl; level = refl },
        )
]

-- The registers before the delays are set.
abbrev pub sensed : Regs → Regs
sensed r =
    from (ub_enable_clk 22 r >>= usbf_reset_controller priv >>= λ q. some (set_sense priv 0 q))

pub start_phy-set_up_phy :
    (r : Regs) → start_phy priv 0 r ≡ set_up_phy priv (get_pll_timing 3 (sensed r)) (sensed r)
unfolding start_phy priv usbf_reset_controller ub_enable_clk ub_reset_periph clock_enable
    clock_set_enable reset_periph reset_set_enable
start_phy-set_up_phy r = refl

pub sensed-words :
    (r : Regs)
    → (readl (sensed r) (susp_ctrl 0x7d000000)
        ≡ bit_or (bit_or (readl r (susp_ctrl 0x7d000000)) (2 ^ 11) % 2 ^ 32) (2 ^ 12) % 2 ^ 32)
      × (readl (sensed r) (enable_reg 22) ≡ assign_bit 22 true (readl r (enable_reg 22)) % 2 ^ 32)
      × (readl (sensed r) (reset_reg 22)
          ≡ assign_bit 22 false (assign_bit 22 true (readl r (reset_reg 22)) % 2 ^ 32) % 2 ^ 32)
      × Keeps r (sensed r)
unfolding priv usbf_reset_controller ub_enable_clk ub_reset_periph clock_enable clock_set_enable
    reset_periph reset_set_enable set_sense readl writel clrbits_le32 setbits_le32 clrsetbits_le32
    pll_base pin_addr enable_reg reset_reg periph_reg
sensed-words r = (
  refl,
  refl,
  refl,
  record { osc = refl; base = refl; mode = refl; direction = refl; level = refl },
)

-- The bits of the words that are written.
susp_bits :
    (v : ℕ)
    → let w =
        bit_and (bit_or (bit_or v (2 ^ 11) % 2 ^ 32) (2 ^ 12) % 2 ^ 32) (not32 (2 ^ 11)) % 2 ^ 32 in
      (test_bit w 11 ≡ false) × (test_bit w 12 ≡ true)
unfolding test_bit
susp_bits v =
    let or = bit_or (bit_or v (2 ^ 11) % 2 ^ 32) (2 ^ 12) in
    let w = bit_and (or % 2 ^ 32) (not32 (2 ^ 11)) in
    (
      test_bit-low 32 w 11
          ∙ test_bit-bit_and 11 (or % 2 ^ 32) (not32 (2 ^ 11))
          ∙ ground (arith, test_bit-not32 (2 ^ 11) 11),
      test_bit-low 32 w 12
          ∙ test_bit-bit_and 12 (or % 2 ^ 32) (not32 (2 ^ 11))
          ∙ ground (
            arith,
            test_bit-not32 (2 ^ 11) 12,
            test_bit-low 32 or 12,
            test_bit-bit_or 12 (bit_or v (2 ^ 11) % 2 ^ 32) (2 ^ 12),
          ),
    )

assigned_bit : (on : Bool) (v : ℕ) → test_bit (assign_bit 22 on v % 2 ^ 32) 22 ≡ on
assigned_bit on v =
    test_bit-low 32 (assign_bit 22 on v) 22 ∙ test_bit-assign_bit 22 on v 22 (omega arith)

pub start_phy-IsRunning :
    (r : Regs) → (q : Regs) × (start_phy priv 0 r ≡ some q) × IsRunning q × Keeps r q
start_phy-IsRunning r =
    let t = get_pll_timing 3 (sensed r) in
    let (susp, enable, reset, keep) = set_up_phy-words t (sensed r) in
    let (susp', enable', reset', keep') = sensed-words r in
    let bits = susp_bits (readl r (susp_ctrl 0x7d000000)) in
    (
      from (set_up_phy priv t (sensed r)),
      start_phy-set_up_phy r ∙ set_up_phy-returns t (sensed r),
      record {
        phy_reset = rw (susp, susp') bits.0;
        phy_enabled = rw (susp, susp') bits.1;
        enabled = rw (enable, enable') (assigned_bit true (readl r (enable_reg 22)));
        reset = rw (reset, reset') (assigned_bit false _);
      },
      Keeps-trans keep' keep,
    )

pub same_osc :
    (r q : Regs) → readl q osc_ctrl ≡ readl r osc_ctrl → clock_get_osc_freq q ≡ clock_get_osc_freq r
unfolding clock_get_osc_freq
same_osc r q e = rw e refl
