-- ===== src/Usb/Debounce.antt =====
-- The debounce time in Drivers/EhciPciEmulationDxe/PciEmulation.c.
use Prim.Native.Nat.{bit_and, bit_or}
use nintendo_switch_pkg.Prelude.{
  ℕ, ◌%◌, ◌^◌, ◌≤◌, ◌<◌, ◌≡◌, refl, inl, inr, true, false, not, ◌&&◌, ◌||◌, some, arith, ◌==◌, ltb,
  if◌then◌else◌, Bool-cases, ◌∙◌,
}
use nintendo_switch_pkg.Prelude.Range.{holds_below, holds_below-at}
use nintendo_switch_pkg.Prelude.Bits.{
  test_bit, shr, not32, test_bit-bit_or, test_bit-bit_and, test_bit-low, test_bit-not32,
  test_bit-ones, test_bit-high,
}
use nintendo_switch_pkg.Prelude.Bits.Bound.{bit_and-le}
use nintendo_switch_pkg.Mmio.{
  from, Regs, readl, writel, clrbits_le32, setbits_le32, clrsetbits_le32,
}
use nintendo_switch_pkg.Mmio.Field.{extract_field}
use nintendo_switch_pkg.Clock.Osc.{osc_ctrl, clock_get_osc_freq}
use nintendo_switch_pkg.Clock.Protocol.{ub_enable_clk, ub_reset_periph, ub_get_osc_freq}
use nintendo_switch_pkg.Clock.Periph.{
  clock_enable, clock_set_enable, reset_periph, reset_set_enable, enable_reg, reset_reg, periph_reg,
}
use nintendo_switch_pkg.Usb.{utmip_debounce_cfg0}
use nintendo_switch_pkg.Usb.Timing.{Timing, has_hostpc, pll_parameter, t210_usb_pll}
use nintendo_switch_pkg.Usb.Utmi.{
  start_phy, set_up_phy, set_pll_delays, usbf_reset_controller, set_up_delays, set_up_hostpc,
  enable_usb1, power_sampler, set_sense, set_eye, set_bias, set_debounce, set_receiver,
  get_pll_timing,
}
use nintendo_switch_pkg.Usb.Host.{priv}
use nintendo_switch_pkg.Usb.Started.{
  sensed, set_up_phy-returns, start_phy-set_up_phy, sensed-words, same_osc,
}

-- `(val & ~0xffff) | time`, in a register.
abbrev with_time : ℕ → ℕ → ℕ
with_time time val = bit_or (bit_and val (not32 0xffff)) time % 2 ^ 32

set_up_phy-time :
    (t : Timing) (r : Regs)
    → readl (from (set_up_phy priv t r)) (utmip_debounce_cfg0 0x7d000000) ≡ (
        let once = with_time t.debounce_a_time (readl r (utmip_debounce_cfg0 0x7d000000)) in
        if ltb 0xFFFF t.debounce_a_time then with_time (shr t.debounce_a_time 1) once else once)
unfolding set_up_phy set_up_delays set_up_hostpc enable_usb1 priv has_hostpc power_sampler
    set_pll_delays set_eye set_bias set_debounce set_receiver readl writel clrbits_le32 setbits_le32
    clrsetbits_le32
set_up_phy-time t r = elim (Bool-cases (ltb 0xFFFF t.debounce_a_time)) [
  | inl long ↦ rw (long, set_debounce) refl
  | inr short ↦ rw (short, set_debounce) refl
]

sensed-time :
    (r : Regs)
    → readl (sensed r) (utmip_debounce_cfg0 0x7d000000) ≡ readl r (utmip_debounce_cfg0 0x7d000000)
unfolding priv usbf_reset_controller ub_enable_clk ub_reset_periph clock_enable clock_set_enable
    reset_periph reset_set_enable set_sense readl writel clrbits_le32 setbits_le32 clrsetbits_le32
    enable_reg reset_reg periph_reg
sensed-time r = refl

with_time_bit :
    (time val i : ℕ)
    → i < 32
    → test_bit (with_time time val) i ≡ ((not (ltb i 16) && test_bit val i) || test_bit time i)
with_time_bit time val i small =
    rw
      (
        test_bit-low 32 (bit_or (bit_and val (not32 0xffff)) time) i,
        test_bit-bit_or i (bit_and val (not32 0xffff)) time,
        test_bit-bit_and i val (not32 0xffff),
        test_bit-not32 0xffff i,
        test_bit-ones 16 i,
      )
      (ground arith)

-- The time of an oscillator, cut in half where it does not fit 16 bits.
abbrev pub debounce_of : ℕ → ℕ
debounce_of osc = if osc == 4 then 48000 else (pll_parameter 3 osc).debounce_a_time

clock_get_osc_freq-le : (r : Regs) → clock_get_osc_freq r ≤ 4
unfolding clock_get_osc_freq extract_field
clock_get_osc_freq-le r = ground (arith, bit_and-le (shr (readl r osc_ctrl) 28) 0xF)

times_fit : (osc : ℕ) → osc ≤ 4 → debounce_of osc < 2 ^ 16
unfolding pll_parameter t210_usb_pll
times_fit osc small = ground arith

short_time : (osc : ℕ) → osc < 4 → ltb 0xFFFF (pll_parameter 3 osc).debounce_a_time ≡ false
unfolding pll_parameter t210_usb_pll
short_time osc small = ground arith

bits_short :
    (time val i : ℕ)
    → i < 32
    → time < 2 ^ 16
    → test_bit (with_time time val) i ≡ (if ltb i 16 then test_bit time i else test_bit val i)
bits_short time val i small fits =
    ground (arith, with_time_bit time val i, test_bit-high 16 time i fits)

-- Of 96000, which is more than 16 bits, bit 16 is 1, and no bit above.
high_bits :
    (i : ℕ)
    → i < 32
    → (if i == 16 then test_bit 96000 i else (ltb i 16 || not (test_bit 96000 i))) ≡ true
unfolding holds_below test_bit
high_bits i small =
    holds_below-at (λ k. if k == 16 then test_bit 96000 k else (ltb k 16 || not (test_bit 96000 k)))
      32 refl i small

bits_long :
    (val i : ℕ)
    → i < 32
    → test_bit (with_time 48000 (with_time 96000 val)) i
      ≡ (if ltb i 16 then test_bit 48000 i else (test_bit val i || (i == 16)))
bits_long val i small =
    ground (arith, bits_short 48000 (with_time 96000 val) i, with_time_bit 96000 val i, high_bits i)

halved : shr 96000 1 ≡ 48000
unfolding shr
halved = refl

-- The bits of the register, by the oscillator.
time_bits :
    (osc val i : ℕ)
    → osc ≤ 4
    → i < 32
    → let t = pll_parameter 3 osc in
      test_bit
        (if ltb 0xFFFF t.debounce_a_time
          then with_time (shr t.debounce_a_time 1) (with_time t.debounce_a_time val)
          else with_time t.debounce_a_time val)
        i
      ≡ (if ltb i 16
          then test_bit (debounce_of osc) i
          else (test_bit val i || (osc == 4 && i == 16)))
unfolding pll_parameter t210_usb_pll
time_bits osc val i low small = elim (Bool-cases (osc == 4)) [
  | inl fast ↦ let e : osc ≡ 4 = ground arith in rw (e, halved) (bits_long val i small)
  | inr slow ↦
      rw (short_time osc (ground arith), slow)
        (ground (arith, bits_short (pll_parameter 3 osc).debounce_a_time val i, times_fit osc))
]

-- The start of the PHY returns and sets the debounce time, the low 16 bits of its register, to that of the
-- oscillator, or to half of it for 38.4 MHz, whose time does not fit; the bits above are as they were, but
-- for 38.4 MHz bit 16, the lowest of another field, is set.
pub start_phy-debounce :
    (r : Regs) (i : ℕ)
    → i < 32
    → (q : Regs) × (start_phy priv 0 r ≡ some q)
      × (test_bit (readl q (utmip_debounce_cfg0 0x7d000000)) i ≡ (
          let osc = clock_get_osc_freq r in
          if ltb i 16
          then test_bit (debounce_of osc) i
          else (test_bit (readl r (utmip_debounce_cfg0 0x7d000000)) i || (osc == 4 && i == 16))))
unfolding get_pll_timing ub_get_osc_freq
start_phy-debounce r i small =
    let t = get_pll_timing 3 (sensed r) in
    let keep = ((sensed-words r).3).osc in
    (
      from (set_up_phy priv t (sensed r)),
      start_phy-set_up_phy r ∙ set_up_phy-returns t (sensed r),
      rw (set_up_phy-time t (sensed r), sensed-time r, same_osc r (sensed r) keep)
          (time_bits (clock_get_osc_freq r) _ i (clock_get_osc_freq-le r) small),
    )
