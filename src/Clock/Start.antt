-- ===== src/Clock/Start.antt =====
-- A started peripheral: clock_adjust_periph_pll_div and clock_start_periph_pll of
-- Drivers/ClockManagementDxe/clock.c.
use Prim.Native.Nat.{bit_and}
use nintendo_switch_pkg.Prelude.{
  ℕ, ◌-◌, ◌%◌, ◌^◌, ◌≤◌, ◌<◌, ◌≡◌, ◌≢◌, refl, sym, true, false, not, some, arith, ◌==◌,
  if◌then◌else◌,
}
use native.Mathlib.Nat.{pow-le-pow_right}
use nintendo_switch_pkg.Prelude.Bits.{
  test_bit, test_bit-bit_and, test_bit-ones, test_bit-high, eq_of_bits,
}
use nintendo_switch_pkg.Mmio.{Regs, readl, writel, readl-writel_ne}
use nintendo_switch_pkg.Mmio.Field.{assign_bit}
use nintendo_switch_pkg.Mmio.Update.{Updates}
use nintendo_switch_pkg.Clock.{periph_id_count}
use nintendo_switch_pkg.Clock.Periph.{
  ClockInfo, enable_reg, reset_reg, get_periph_source_reg, get_periph_clock_info,
  get_periph_clock_source, reset_set_enable, clock_enable, clock_set_enable,
}
use nintendo_switch_pkg.Clock.Enable.{
  is_enabled, is_in_reset, clock_set_enable-bits, reset_set_enable-bits,
}
use nintendo_switch_pkg.Clock.Rate.{get_rate_from_divider}
use nintendo_switch_pkg.Clock.BestDivider.{Divided, find_best_divider}
use nintendo_switch_pkg.Clock.Closest.{Closest, find_best_divider-Closest}
use nintendo_switch_pkg.Clock.PeriphRate.{
  pll_rate_at, divider_seen, clock_get_periph_rate, clock_adjust_periph_pll_div,
  clock_start_periph_pll,
}
use nintendo_switch_pkg.Clock.SourceField.{
  get_periph_clock_info-Informed, mux-fits, mux_bits_le, Apart, source_reg-Apart, with_divisor,
  with_source, adjust_periph_pll-Updates,
}

-- The low 16 bits of a register with a divider in them.
divisor_back :
    (reg mux_bits source divider : ℕ) (r r' : Regs)
    → mux_bits ≤ 2
    → divider < 2 ^ 16
    → Updates reg (λ i b. with_source mux_bits source i (with_divisor divider i b)) r r'
    → bit_and (readl r' reg) (2 ^ 16 - 1) ≡ divider
divisor_back reg mux_bits source divider r r' hm hd u = eq_of_bits _ _ λ i.
    rw (test_bit-bit_and i (readl r' reg) (2 ^ 16 - 1), test_bit-ones 16 i)
      (ground (arith, u.bits i, test_bit-high 16 divider i hd))

pll_rate_at-known :
    (pll_rate : ℕ → ℕ) (parent : ℕ)
    → parent < 13
    → pll_rate_at pll_rate parent ≡ some (pll_rate parent)
unfolding pll_rate_at
pll_rate_at-known pll_rate parent h = ground arith

-- Of all peripherals, and of the other registers.
reset_all :
    (id enable : ℕ) (r : Regs)
    → id < periph_id_count
    → (r' : Regs) × (reset_set_enable id enable r ≡ some r')
      × ((q : ℕ)
          → q < periph_id_count
          → (is_in_reset q r' ≡ (if id == q then not (enable == 0) else is_in_reset q r))
            × (is_enabled q r' ≡ is_enabled q r))
      × ((a : ℕ) → reset_reg id ≢ a → readl r' a ≡ readl r a)
unfolding reset_set_enable
reset_all id enable r h =
    let w : ℕ = assign_bit (id % 32) (not (enable == 0)) (readl r (reset_reg id)) in
    let r' : Regs = writel w (reset_reg id) r in
    let e : reset_set_enable id enable r ≡ some r' = ground arith in
    (
      r',
      e,
      λ q hq.
          let (r'', e', bits) = reset_set_enable-bits id q r h hq enable in
          let same : r'' ≡ r' = cc in rw same at bits,
      λ a ne. readl-writel_ne w (reset_reg id) a r ne,
    )

enable_all :
    (id : ℕ) (r : Regs)
    → id < periph_id_count
    → (r' : Regs) × (clock_enable id r ≡ some r')
      × ((q : ℕ)
          → q < periph_id_count
          → (is_enabled q r' ≡ (if id == q then true else is_enabled q r))
            × (is_in_reset q r' ≡ is_in_reset q r))
      × ((a : ℕ) → enable_reg id ≢ a → readl r' a ≡ readl r a)
unfolding clock_enable clock_set_enable
enable_all id r h =
    let w : ℕ = assign_bit (id % 32) true (readl r (enable_reg id)) in
    let r' : Regs = writel w (enable_reg id) r in
    let e : clock_set_enable id 1 r ≡ some r' = ground arith in
    (
      r',
      e,
      λ q hq.
          let (r'', e', bits) = clock_set_enable-bits id q r h hq 1 in
          let same : r'' ≡ r' = cc in rw same at bits,
      λ a ne. readl-writel_ne w (enable_reg id) a r ne,
    )

module _ (id parent rate m : ℕ) (info : ClockInfo) (c : Divided) (pll_rate : ℕ → ℕ)
    (informed : get_periph_clock_info id ≡ some info) (clock : parent < 13)
    (found : get_periph_clock_source id parent ≡ some (some m)) (whole : pll_rate parent < 2 ^ 32)
    (pos : 1 ≤ rate) (small : rate < 2 ^ 31)
    (best : find_best_divider info.divider_bits (pll_rate parent) rate ≡ some c) where
  divider-fits : c.divider < 2 ^ 16
  divider-fits =
      let i = get_periph_clock_info-Informed id info informed in
      let (shift, below, x, fits, _, _, _, _) : Closest info.divider_bits (pll_rate parent) rate
          (some c) =
        rw best at (
          find_best_divider-Closest info.divider_bits (pll_rate parent) rate
            (omega (arith, i.width)) whole pos small) in
      omega (arith, pow-le-pow_right {n = 2} (omega arith) {i = info.divider_bits} {j = 16} i.width)

  -- What the register of the source is after, and what is returned.
  abbrev pub TunedAs : ℕ → Regs → Regs → Type 0
  TunedAs reg r r' =
      Updates reg (λ i b. with_source info.mux_bits m i (with_divisor c.divider i b)) r r'

  pub adjusted :
      (r : Regs)
      → (reg : ℕ) × (r' : Regs) × (get_periph_source_reg id ≡ some reg)
        × Apart reg
        × (clock_adjust_periph_pll_div id parent rate false pll_rate r
            ≡ some (record {
              rate = get_rate_from_divider (pll_rate parent) (divider_seen id c.divider) % 2 ^ 32;
              extra_div = c.extra_div;
              regs = r';
            }))
        × TunedAs reg r r'
  unfolding clock_adjust_periph_pll_div clock_get_periph_rate
  adjusted r =
      let mux = mux_bits_le id info informed in
      let (reg, at, apart) = source_reg-Apart id info informed in
      let (r', set, u) =
        adjust_periph_pll-Updates id m info.mux_bits c.divider reg r mux
          (mux-fits id parent m info informed clock found) divider-fits at in
      let known = pll_rate_at-known pll_rate parent clock in
      let back = divisor_back reg info.mux_bits m c.divider r r' mux divider-fits u in
      (reg, r', at, apart, rw (informed, found, known, best, set, at, known, back) refl, u)

  -- clock_start_periph_pll of a peripheral with clock information, for a clock among its sources, below
  -- CLOCK_ID_COUNT and below 2 ^ 32, and a rate below 2 ^ 31 and not 0 for which find_best_divider finds a
  -- divider, returns; after it the peripheral is enabled and out of reset, and the enable and reset bits
  -- of the others are as before; its source register holds that divider and the number of that clock,
  -- the bits between them as before; and the rate returned is that of the divider, as
  -- clock_get_periph_rate reads it, from the whole parent.
  pub clock_start_periph_pll-Started :
      (q i : ℕ) (r : Regs)
      → q < periph_id_count
      → i < 32
      → (reg : ℕ) × (r' : Regs) × (get_periph_source_reg id ≡ some reg)
        × (clock_start_periph_pll id parent rate pll_rate r
            ≡ some (record {
              rate = get_rate_from_divider (pll_rate parent) (divider_seen id c.divider) % 2 ^ 32;
              extra_div = c.extra_div;
              regs = r';
            }))
        × (is_enabled q r' ≡ (if id == q then true else is_enabled q r))
        × (is_in_reset q r' ≡ (if id == q then false else is_in_reset q r))
        × (test_bit (readl r' reg) i
            ≡ with_source info.mux_bits m i (with_divisor c.divider i (test_bit (readl r reg) i)))
  unfolding clock_start_periph_pll
  clock_start_periph_pll-Started q j r hq below =
      let i = get_periph_clock_info-Informed id info informed in
      let (r_1, e_1, bits_1, rest_1) = reset_all id 1 r i.valid in
      let (r_2, e_2, bits_2, rest_2) = enable_all id r_1 i.valid in
      let (reg, r_3, at, apart, e_3, u) = adjusted r_2 in
      let (r_4, e_4, bits_4, rest_4) = reset_all id 0 r_3 i.valid in
      let in_reset : is_in_reset q r_3 ≡ is_in_reset q r_2 =
        ground (arith, u.others (reset_reg q) λ e. apart.reset q hq (sym e)) in
      let enabled : is_enabled q r_3 ≡ is_enabled q r_2 =
        ground (arith, u.others (enable_reg q) λ e. apart.enable q hq (sym e)) in
      (
        reg,
        r_4,
        at,
        rw (e_1, e_2, e_3, e_4) refl,
        ground (arith, bits_4 q hq, bits_2 q hq, bits_1 q hq),
        ground (arith, bits_4 q hq, bits_2 q hq, bits_1 q hq),
        ground (
          arith,
          rest_4 reg (apart.reset id i.valid),
          u.bits j below,
          rest_2 reg (apart.enable id i.valid),
          rest_1 reg (apart.reset id i.valid),
        ),
      )
