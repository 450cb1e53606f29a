-- ===== src/ClockLib/Running.antt =====
-- What `legacy_clock_enable` and `legacy_clock_disable` of ClockLib.c leave in the clock controller.
use Prim.Native.Nat.{bit_or}
use nintendo_switch_pkg.Prelude.{
  ℕ, ◌+◌, ◌-◌, ◌%◌, ◌^◌, ◌<◌, ◌≡◌, ◌≢◌, ◌⊎◌, refl, inl, inr, Bool, true, false, arith, ◌==◌,
  if◌then◌else◌, ◌∙◌, ap, Bool-cases,
}
use nintendo_switch_pkg.Prelude.Bits.{test_bit, shl32, test_bit-ones}
use nintendo_switch_pkg.Mmio.{Regs, readl, readl-writel_self, readl-writel_ne}
use nintendo_switch_pkg.Mmio.Field.{test_bit-insert_field, test_bit-assign_bit}
use nintendo_switch_pkg.Mmio.Update.{Updates, write-Updates}
use nintendo_switch_pkg.ClockLib.{
  LegacyClock, clock_base, raise, lower, set_source, legacy_clock_disable, legacy_clock_enable,
  clock_uart, clock_i2c,
}

-- The register of an offset.
abbrev pub at_clock : ℕ → ℕ
at_clock off = clock_base + off

-- Bit `i` becomes `on`.
abbrev pub with_bit : ℕ → Bool → ℕ → Bool → Bool
with_bit i on j b = if j == i then on else b

raise-Updates :
    (off i : ℕ) (r : Regs) → i < 32 → Updates (at_clock off) (with_bit i true) r (raise off i r)
unfolding raise
raise-Updates off i r small = write-Updates (at_clock off) _ (with_bit i true) r λ j inside.
    ground (arith, test_bit-insert_field 1 i 1 (readl r (at_clock off)) j, test_bit-ones 1 (j - i))

lower-Updates : (off i : ℕ) (r : Regs) → Updates (at_clock off) (with_bit i false) r (lower off i r)
unfolding lower
lower-Updates off i r =
    write-Updates (at_clock off) _ (with_bit i false) r
      λ j inside. test_bit-assign_bit i false (readl r (at_clock off)) j inside

-- The word that is written to the source register.
abbrev pub source_word : LegacyClock → ℕ
source_word clk = bit_or clk.clk_div (shl32 clk.clk_src 29) % 2 ^ 32

set_source_other :
    (clk : LegacyClock) (off : ℕ) (r : Regs)
    → (clk.source ≡ 0) ⊎ (clk.source ≢ off)
    → readl (set_source clk r) (at_clock off) ≡ readl r (at_clock off)
unfolding set_source
set_source_other clk off r (inl none) = rw none refl
set_source_other clk off r (inr apart) = elim (Bool-cases (clk.source == 0)) [
  | inl none ↦ rw none refl
  | inr some ↦
      rw some (readl-writel_ne _ (at_clock clk.source) (at_clock off) r (omega (arith, apart)))
]

set_source_kept :
    (clk : LegacyClock) (a : ℕ) (r : Regs)
    → at_clock clk.source ≢ a
    → readl (set_source clk r) a ≡ readl r a
unfolding set_source
set_source_kept clk a r apart = elim (Bool-cases (clk.source == 0)) [
  | inl none ↦ rw none refl
  | inr some ↦ rw some (readl-writel_ne _ (at_clock clk.source) a r apart)
]

set_source_self :
    (clk : LegacyClock) (r : Regs)
    → clk.source ≢ 0
    → readl (set_source clk r) (at_clock clk.source) ≡ source_word clk
unfolding set_source
set_source_self clk r some =
    let some' : (clk.source == 0) ≡ false = ground (arith, some) in
    rw some' (readl-writel_self _ (at_clock clk.source) r)

-- A descriptor whose bit is in a word, and whose registers differ; the offset 0 means no source.
pub record IsClock (clk : LegacyClock) : Type 0 where
  pub index : clk.index < 32
  pub apart : clk.reset ≢ clk.enable
  pub reset : (clk.source ≡ 0) ⊎ (clk.source ≢ clk.reset)
  pub enable : (clk.source ≡ 0) ⊎ (clk.source ≢ clk.enable)

pub clock_uart-IsClock : (idx : ℕ) → IsClock (clock_uart idx)
unfolding clock_uart
clock_uart-IsClock idx = record {
  index = ground arith;
  apart = ground arith;
  reset = ground arith;
  enable = ground arith;
}

pub clock_i2c-IsClock : (idx : ℕ) → IsClock (clock_i2c idx)
unfolding clock_i2c
clock_i2c-IsClock idx = record {
  index = ground arith;
  apart = ground arith;
  reset = ground arith;
  enable = ground arith;
}

-- The bits of the clock are `in_reset` and `on`; the other bits of the two registers are as they were.
pub record Bits (clk : LegacyClock) (in_reset on : Bool) (r r' : Regs) : Type 0 where
  pub reset :
      (j : ℕ)
      → j < 32
      → test_bit (readl r' (at_clock clk.reset)) j
        ≡ with_bit clk.index in_reset j (test_bit (readl r (at_clock clk.reset)) j)
  pub enable :
      (j : ℕ)
      → j < 32
      → test_bit (readl r' (at_clock clk.enable)) j
        ≡ with_bit clk.index on j (test_bit (readl r (at_clock clk.enable)) j)

-- A bit that is assigned again.
twice :
    (i : ℕ) (on before : Bool) (j : ℕ) (b b' b'' : Bool)
    → b ≡ b'
    → b' ≡ with_bit i before j b''
    → with_bit i on j b ≡ with_bit i on j b''
twice i on before j b b' b'' h h' = ground arith

source_differs :
    (source off : ℕ) → (source ≡ 0) ⊎ (source ≢ off) → source ≢ 0 → at_clock off ≢ at_clock source
source_differs source off (inl none) some = absurd (some none)
source_differs source off (inr apart) some = omega (arith, apart)

module _ (clk : LegacyClock) (ok : IsClock clk) (r : Regs) where
  differ : at_clock clk.reset ≢ at_clock clk.enable
  differ = omega (arith, ok.apart)

  differ' : at_clock clk.enable ≢ at_clock clk.reset
  differ' = omega (arith, ok.apart)

  -- legacy_clock_disable puts the clock into reset and disables it; the other bits of the two registers,
  -- and the other registers, stay as they are.
  pub legacy_clock_disable-Bits :
      Bits clk true false r (legacy_clock_disable clk r)
      × ((a : ℕ)
          → at_clock clk.reset ≢ a
          → at_clock clk.enable ≢ a
          → readl (legacy_clock_disable clk r) a ≡ readl r a)
  unfolding legacy_clock_disable
  legacy_clock_disable-Bits =
      let up = raise-Updates clk.reset clk.index r ok.index in
      let r1 = raise clk.reset clk.index r in
      let down = lower-Updates clk.enable clk.index r1 in
      (
        record {
          reset = λ j inside.
              ap (λ w. test_bit w j) (down.others (at_clock clk.reset) differ') ∙ up.bits j inside;
          enable = λ j inside.
              down.bits j inside
              ∙ ap (λ w. with_bit clk.index false j (test_bit w j))
                  (up.others (at_clock clk.enable) differ);
        },
        λ a not_reset not_enable. down.others a not_enable ∙ up.others a not_reset,
      )

  -- legacy_clock_enable leaves the clock enabled and out of reset, with its source and divisor in the
  -- source register if there is one; the other bits of the first two registers, and the other
  -- registers, stay as they are.
  pub legacy_clock_enable-Bits :
      Bits clk false true r (legacy_clock_enable clk r)
      × (clk.source ≢ 0 → readl (legacy_clock_enable clk r) (at_clock clk.source) ≡ source_word clk)
      × ((a : ℕ)
          → at_clock clk.reset ≢ a
          → at_clock clk.enable ≢ a
          → at_clock clk.source ≢ a
          → readl (legacy_clock_enable clk r) a ≡ readl r a)
  unfolding legacy_clock_enable
  legacy_clock_enable-Bits =
      let (off, kept) = legacy_clock_disable-Bits in
      let r2 = legacy_clock_disable clk r in
      let r3 = set_source clk r2 in
      let up = raise-Updates clk.enable clk.index r3 ok.index in
      let r4 = raise clk.enable clk.index r3 in
      let down = lower-Updates clk.reset clk.index r4 in
      let reset_3 : readl r4 (at_clock clk.reset) ≡ readl r2 (at_clock clk.reset) =
        up.others (at_clock clk.reset) differ' ∙ set_source_other clk clk.reset r2 ok.reset in
      let enable_3 : readl r3 (at_clock clk.enable) ≡ readl r2 (at_clock clk.enable) =
        set_source_other clk clk.enable r2 ok.enable in
      (
        record {
          reset = λ j inside.
              down.bits j inside
              ∙ twice clk.index false true j _ _ _ (ap (λ w. test_bit w j) reset_3)
                  (off.reset j inside);
          enable = λ j inside.
              ap (λ w. test_bit w j) (down.others (at_clock clk.enable) differ)
              ∙ up.bits j inside
              ∙ twice clk.index true false j _ _ _ (ap (λ w. test_bit w j) enable_3)
                  (off.enable j inside);
        },
        λ some.
            down.others (at_clock clk.source) (source_differs clk.source clk.reset ok.reset some)
            ∙ up.others (at_clock clk.source) (source_differs clk.source clk.enable ok.enable some)
            ∙ set_source_self clk r2 some,
        λ a not_reset not_enable not_source.
            down.others a not_reset
            ∙ up.others a not_enable
            ∙ set_source_kept clk a r2 not_source
            ∙ kept a not_reset not_enable,
      )
