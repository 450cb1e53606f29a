-- ===== src/Clock/Enable.antt =====
-- The enable and reset bits of the peripherals: clock_set_enable, reset_set_enable and
-- reset_periph of Drivers/ClockManagementDxe.
use nintendo_switch_pkg.Prelude.{
  ℕ, ◌%◌, ◌<◌, ◌≡◌, ◌≢◌, inl, inr, Bool, false, not, Option, some, arith, ◌==◌, if◌then◌else◌,
  Bool-cases, ◌&&◌, ◌∙◌,
}
use nintendo_switch_pkg.Prelude.Bits.{test_bit, test_bit-low}
use nintendo_switch_pkg.Mmio.{Regs, readl, writel, readl-writel_self, readl-writel_ne}
use nintendo_switch_pkg.Mmio.Field.{assign_bit, test_bit-assign_bit}
use nintendo_switch_pkg.Clock.{periph_id_count}
use nintendo_switch_pkg.Clock.Periph.{
  periph_reg, enable_reg, reset_reg, clock_set_enable, reset_set_enable, reset_periph,
}

-- The clock of `id` is enabled; `id` is in reset.
abbrev pub is_enabled : ℕ → Regs → Bool
is_enabled id r = test_bit (readl r (enable_reg id)) (id % 32)

abbrev pub is_in_reset : ℕ → Regs → Bool
is_in_reset id r = test_bit (readl r (reset_reg id)) (id % 32)

enable_reg_inj :
    (p q : ℕ)
    → p < periph_id_count
    → q < periph_id_count
    → enable_reg p ≡ enable_reg q
    → p % 32 ≡ q % 32
    → p ≡ q
unfolding enable_reg periph_reg
enable_reg_inj p q hp hq e f = ground arith

reset_reg_inj :
    (p q : ℕ)
    → p < periph_id_count
    → q < periph_id_count
    → reset_reg p ≡ reset_reg q
    → p % 32 ≡ q % 32
    → p ≡ q
unfolding reset_reg periph_reg
reset_reg_inj p q hp hq e f = ground arith

enable_reg-reset_reg :
    (p q : ℕ) → p < periph_id_count → q < periph_id_count → enable_reg p ≢ reset_reg q
unfolding enable_reg reset_reg periph_reg
enable_reg-reset_reg p q hp hq = ground arith

-- A bit of one register after another, or the same, is assigned.
bit_after :
    (a b i j : ℕ) (on : Bool) (r : Regs)
    → i < 32
    → j < 32
    → test_bit (readl (writel (assign_bit i on (readl r a)) a r) b) j
      ≡ (if a == b && i == j then on else test_bit (readl r b) j)
bit_after a b i j on r hi hj = elim (Bool-cases (a == b)) [
  | inl same ↦
      let e : a ≡ b = ground arith in
      rw
        (
          e,
          readl-writel_self (assign_bit i on (readl r b)) b r,
          test_bit-low 32 (assign_bit i on (readl r b)) j,
        )
        (ground (arith, test_bit-assign_bit i on (readl r b) j))
  | inr apart ↦
      let ne : a ≢ b = ground arith in
      rw (readl-writel_ne (assign_bit i on (readl r a)) a b r ne) (ground arith)
]

-- Where a call returns registers, a property of them.
abbrev pub Returns : Option Regs → (Regs → Type 0) → Type 0
Returns out P = (r' : Regs) × (out ≡ some r') × P r'

module _ (p q : ℕ) (r : Regs) (hp : p < periph_id_count) (hq : q < periph_id_count) where
  -- clock_set_enable of a peripheral sets or clears its enable bit; the enable bits of the other
  -- peripherals, and all reset bits, stay as they are.
  pub clock_set_enable-bits :
      (enable : ℕ)
      → Returns (clock_set_enable p enable r) (λ r'.
        (is_enabled q r' ≡ (if p == q then not (enable == 0) else is_enabled q r))
        × (is_in_reset q r' ≡ is_in_reset q r))
  unfolding clock_set_enable
  clock_set_enable-bits enable =
      let on : Bool = not (enable == 0) in
      (
        writel (assign_bit (p % 32) on (readl r (enable_reg p))) (enable_reg p) r,
        ground arith,
        (
          bit_after (enable_reg p) (enable_reg q) (p % 32) (q % 32) on r (omega arith) (omega arith)
              ∙ ground (arith, enable_reg_inj p q hp hq),
          bit_after (enable_reg p) (reset_reg q) (p % 32) (q % 32) on r (omega arith) (omega arith)
              ∙ ground (arith, enable_reg-reset_reg p q hp hq),
        ),
      )

  -- reset_set_enable of a peripheral sets or clears its reset bit; the reset bits of the other
  -- peripherals, and all enable bits, stay as they are.
  pub reset_set_enable-bits :
      (enable : ℕ)
      → Returns (reset_set_enable p enable r) (λ r'.
        (is_in_reset q r' ≡ (if p == q then not (enable == 0) else is_in_reset q r))
        × (is_enabled q r' ≡ is_enabled q r))
  unfolding reset_set_enable
  reset_set_enable-bits enable =
      let on : Bool = not (enable == 0) in
      (
        writel (assign_bit (p % 32) on (readl r (reset_reg p))) (reset_reg p) r,
        ground arith,
        (
          bit_after (reset_reg p) (reset_reg q) (p % 32) (q % 32) on r (omega arith) (omega arith)
              ∙ ground (arith, reset_reg_inj p q hp hq),
          bit_after (reset_reg p) (enable_reg q) (p % 32) (q % 32) on r (omega arith) (omega arith)
              ∙ ground (arith, enable_reg-reset_reg q p hq hp),
        ),
      )

-- reset_periph leaves its peripheral out of reset, the other peripherals in or out of reset as they
-- were, and all enable bits as they are.
pub reset_periph-bits :
    (p q : ℕ) (r : Regs)
    → p < periph_id_count
    → q < periph_id_count
    → Returns (reset_periph p r) (λ r'.
      (is_in_reset q r' ≡ (if p == q then false else is_in_reset q r))
      × (is_enabled q r' ≡ is_enabled q r))
unfolding reset_periph
reset_periph-bits p q r hp hq =
    let (r1, e1, (a1, b1)) = reset_set_enable-bits p q r hp hq 1 in
    let (r2, e2, (a2, b2)) = reset_set_enable-bits p q r1 hp hq 0 in
    (r2, rw e1 e2, (a2 ∙ ground (arith, a1), b2 ∙ b1))
