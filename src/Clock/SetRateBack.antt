-- ===== src/Clock/SetRateBack.antt =====
-- The rate that clock_get_rate of Drivers/ClockManagementDxe/clock.c computes after clock_set_rate.
use Prim.Native.Nat.{bit_and, bit_or}
use nintendo_switch_pkg.Prelude.{
  ℕ, ◌*◌, ◌/◌, ◌%◌, ◌^◌, ◌≤◌, ◌<◌, ◌≡◌, ◌≢◌, refl, inl, inr, true, false, some, arith, ltb, ◌==◌,
  if◌then◌else◌, Bool-cases, ◌∙◌, ap,
}
use nintendo_switch_pkg.Prelude.Bits.{
  test_bit, not32, shl32, test_bit-bit_and, test_bit-bit_or, test_bit-not32, test_bit-pow,
  test_bit-low, bit_and-pow_eq_zero,
}
use nintendo_switch_pkg.Mmio.{Regs, readl, readl-writel_self, readl-writel_ne}
use nintendo_switch_pkg.Clock.Pll.{tegra_pll_info_table, pll_base, pll_misc}
use nintendo_switch_pkg.Clock.Osc.{
  osc_ctrl, osc_freq, clock_get_osc_freq, pll_divisor, pll_output, clock_get_rate,
}
use nintendo_switch_pkg.Clock.SetRate.{PllState, done, base_fields, program_pll, clock_set_rate}
use nintendo_switch_pkg.Clock.BaseFields.{FieldsBack, fields_back}

base_ne_osc : (id : ℕ) → pll_base id ≢ osc_ctrl
unfolding pll_base
base_ne_osc id = omega arith

misc_ne_osc : (id : ℕ) → pll_misc id ≢ osc_ctrl
unfolding pll_misc
misc_ne_osc id = omega arith

-- The last word that program_pll writes to the base register.
abbrev last_word : ℕ → ℕ
last_word base = bit_and (bit_or (bit_or base (2 ^ 31)) (2 ^ 30)) (not32 (2 ^ 31)) % 2 ^ 32

last_word-low : (base i : ℕ) → i < 28 → test_bit (last_word base) i ≡ test_bit base i
last_word-low base i small = ground (
  arith,
  test_bit-low 32 (bit_and (bit_or (bit_or base (2 ^ 31)) (2 ^ 30)) (not32 (2 ^ 31))) i,
  test_bit-bit_and i (bit_or (bit_or base (2 ^ 31)) (2 ^ 30)) (not32 (2 ^ 31)),
  test_bit-bit_or i (bit_or base (2 ^ 31)) (2 ^ 30),
  test_bit-bit_or i base (2 ^ 31),
  test_bit-not32 (2 ^ 31) i,
  test_bit-pow 31 i,
  test_bit-pow 30 i,
)

program_pll-base :
    (id cpcon base : ℕ) (r : Regs)
    → readl (program_pll id cpcon base r) (pll_base id) ≡ last_word base
unfolding program_pll
program_pll-base id cpcon base r = readl-writel_self _ (pll_base id) _

-- The rate by the settings.
abbrev pub rate_of : ℕ → ℕ → ℕ → ℕ → ℕ → ℕ
rate_of id osc n m p = osc * n % 2 ^ 64 / (if id == 2 then m else shl32 m p) % 2 ^ 32

output_back :
    (id n m p old osc b : ℕ)
    → FieldsBack id n m p old
    → ((i : ℕ)
        → i < 28
        → test_bit b i ≡ test_bit (base_fields (tegra_pll_info_table id) n m p old) i)
    → pll_output id osc b ≡ rate_of id osc n m p
unfolding pll_output pll_divisor
output_back id n m p old osc b back same = let (em, en, ep) = back.0 b same in rw (em, en, ep) refl

overridden : ℕ → ℕ → ℕ
overridden id base = if id == 2 then bit_or base (2 ^ 28) else base

overridden-low : (id base i : ℕ) → i < 28 → test_bit (overridden id base) i ≡ test_bit base i
unfolding overridden
overridden-low id base i h = ground (arith, test_bit-bit_or i base (2 ^ 28), test_bit-pow 28 i)

clock_set_rate-programs :
    (id n m p cpcon : ℕ) (st : PllState)
    → id < 6
    → FieldsBack id n m p (readl st.regs (pll_base id))
    → (id ≡ 2 → test_bit (readl st.regs (pll_base id)) 28 ≡ false)
    → clock_set_rate id n m p cpcon st
      ≡ some (record {
        code = done;
        state = record {
          regs =
              program_pll id cpcon
                (overridden id
                  (base_fields (tegra_pll_info_table id) n m p (readl st.regs (pll_base id))))
                st.regs;
          pllp_valid = st.pllp_valid;
        };
      })
unfolding clock_set_rate overridden
clock_set_rate-programs id n m p cpcon st small back free =
    let base : ℕ = base_fields (tegra_pll_info_table id) n m p (readl st.regs (pll_base id)) in
    let below : ltb id 6 ≡ true = ground arith in
    elim (Bool-cases (id == 2)) [
      | inl is_p ↦
          let clear : (bit_and base (2 ^ 28) == 0) ≡ true =
            ground (arith, bit_and-pow_eq_zero 28 base, back.1, free (ground arith)) in
          rw (below, is_p, clear) refl
      | inr other ↦ rw (below, other) refl
    ]

program_pll-others :
    (id cpcon base a : ℕ) (r : Regs)
    → pll_base id ≢ a
    → pll_misc id ≢ a
    → readl (program_pll id cpcon base r) a ≡ readl r a
unfolding program_pll
program_pll-others id cpcon base a r b m =
    readl-writel_ne _ (pll_base id) a _ b
    ∙ readl-writel_ne _ (pll_base id) a _ b
    ∙ readl-writel_ne _ (pll_misc id) a _ m
    ∙ readl-writel_ne _ (pll_base id) a _ b

-- What clock_set_rate comes to where it programs the PLL: the output by the base register, and the
-- other registers.
abbrev pub Programs : ℕ → ℕ → ℕ → ℕ → ℕ → PllState → Type 0
Programs id n m p cpcon st =
    (regs : Regs) × (clock_set_rate id n m p cpcon st
      ≡ some (record { code = done; state = record { regs = regs; pllp_valid = st.pllp_valid } }))
    × ((osc : ℕ) → pll_output id osc (readl regs (pll_base id)) ≡ rate_of id osc n m p)
    × ((a : ℕ) → pll_base id ≢ a → pll_misc id ≢ a → readl regs a ≡ readl st.regs a)

pub clock_set_rate-Programs :
    (id n m p cpcon : ℕ) (st : PllState)
    → id < 6
    → m ≤ (tegra_pll_info_table id).m_mask
    → n ≤ (tegra_pll_info_table id).n_mask
    → p ≤ (tegra_pll_info_table id).p_mask
    → (id ≡ 2 → test_bit (readl st.regs (pll_base id)) 28 ≡ false)
    → Programs id n m p cpcon st
clock_set_rate-Programs id n m p cpcon st small hm hn hp free =
    let old : ℕ = readl st.regs (pll_base id) in
    let base : ℕ = base_fields (tegra_pll_info_table id) n m p old in
    let back : FieldsBack id n m p old = fields_back id n m p old small hm hn hp in
    let regs : Regs = program_pll id cpcon (overridden id base) st.regs in
    let same : (i : ℕ) → i < 28 → test_bit (readl regs (pll_base id)) i ≡ test_bit base i = λ i h.
      rw (program_pll-base id cpcon (overridden id base) st.regs)
        (last_word-low (overridden id base) i h ∙ overridden-low id base i h) in
    (
      regs,
      clock_set_rate-programs id n m p cpcon st small back free,
      λ osc. output_back id n m p old osc (readl regs (pll_base id)) back same,
      λ a b m'. program_pll-others id cpcon (overridden id base) a st.regs b m',
    )

-- The rate of one of the PLLs that have registers.
pub clock_get_rate-pll :
    (id : ℕ) (r : Regs)
    → id < 6
    → clock_get_rate id r
      ≡ some (pll_output id (osc_freq (clock_get_osc_freq r)) (readl r (pll_base id)))
unfolding clock_get_rate
clock_get_rate-pll id r small =
    let e_11 : (id == 11) ≡ false = ground arith in
    let e_12 : (id == 12) ≡ false = ground arith in
    let below : ltb id 13 ≡ true = ground arith in
    let pll : ltb id 6 ≡ true = ground arith in rw (e_11, e_12, below, pll) refl

-- Programming one of the first six PLLs with values at most the masks of their fields, where PLLP has no
-- override bit yet, returns 0; then clock_get_rate computes from the registers the rate that these
-- values give with the oscillator of before: osc * n, over m for PLLP and over m << p for the others.
pub clock_get_rate-clock_set_rate :
    (id n m p cpcon : ℕ) (st : PllState)
    → id < 6
    → m ≤ (tegra_pll_info_table id).m_mask
    → n ≤ (tegra_pll_info_table id).n_mask
    → p ≤ (tegra_pll_info_table id).p_mask
    → (id ≡ 2 → test_bit (readl st.regs (pll_base id)) 28 ≡ false)
    → (regs : Regs) × (clock_set_rate id n m p cpcon st
        ≡ some (record { code = done; state = record { regs = regs; pllp_valid = st.pllp_valid } }))
      × (clock_get_rate id regs ≡ some (rate_of id (osc_freq (clock_get_osc_freq st.regs)) n m p))
unfolding clock_get_osc_freq
clock_get_rate-clock_set_rate id n m p cpcon st small hm hn hp free =
    let (regs, e, output, rest) = clock_set_rate-Programs id n m p cpcon st small hm hn hp free in
    let osc = rest osc_ctrl (base_ne_osc id) (misc_ne_osc id) in
    (regs, e, clock_get_rate-pll id regs small ∙ ap some (output _ ∙ rw osc refl))
