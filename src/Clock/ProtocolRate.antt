-- ===== src/Clock/ProtocolRate.antt =====
-- The rate that the clock manager's protocol sets: UbClkSetRate of
-- Drivers/ClockManagementDxe/UBootClockManagement.c.
use nintendo_switch_pkg.Prelude.{
  ℕ, ◌%◌, ◌^◌, ◌≤◌, ◌<◌, ◌≡◌, refl, inl, inr, Option, none, some, arith, ◌==◌, Bool-cases,
}
use nintendo_switch_pkg.Prelude.Bits.{test_bit}
use nintendo_switch_pkg.Mmio.{Regs, readl}
use nintendo_switch_pkg.Mmio.Update.{Updates}
use nintendo_switch_pkg.Clock.Periph.{
  ClockInfo, get_periph_source_reg, get_periph_clock_info, get_periph_clock_id,
  get_periph_clock_source,
}
use nintendo_switch_pkg.Clock.Mux.{
  Sourced, get_periph_clock_source-Sourced, clock_ll_get_source_bits-zero,
}
use nintendo_switch_pkg.Clock.Rate.{get_rate_from_divider}
use nintendo_switch_pkg.Clock.BestDivider.{Divided, find_best_divider}
use nintendo_switch_pkg.Clock.PeriphRate.{divider_seen, clock_get_periph_parent}
use nintendo_switch_pkg.Clock.SourceField.{
  get_periph_clock_info-Informed, mux_bits_le, with_divisor, with_source,
}
use nintendo_switch_pkg.Clock.Start.{adjusted}
use nintendo_switch_pkg.Clock.Protocol.{ub_clk_set_rate}

-- The parent that is found is the first source, whatever the mux.
clock_get_periph_parent-first :
    (id reg : ℕ) (info : ClockInfo) (r : Regs)
    → get_periph_clock_info id ≡ some info
    → get_periph_source_reg id ≡ some reg
    → readl r reg < 2 ^ 32
    → clock_get_periph_parent id r ≡ some (get_periph_clock_id id 0)
unfolding clock_get_periph_parent
clock_get_periph_parent-first id reg info r informed at word =
    let zero_read =
      clock_ll_get_source_bits-zero id info.mux_bits reg r (mux_bits_le id info informed) word at in
    rw (clock_get_periph_parent, informed, zero_read) refl

Sourced-first :
    (id : ℕ) (info : ClockInfo) (out : Option (Option ℕ))
    → get_periph_clock_info id ≡ some info
    → Sourced id (get_periph_clock_id id 0) out
    → out ≡ some (some 0)
Sourced-first id info none informed s = absurd (ground (arith, informed, s))
Sourced-first id info (some none) informed s = absurd (s 0 (omega arith) refl)
Sourced-first id info (some (some m)) informed (below, here, first) = elim (Bool-cases (m == 0)) [
  | inl is_zero ↦ let e : m ≡ 0 = ground arith in rw e refl
  | inr later ↦ absurd (first 0 (ground arith) refl)
]

-- What the call returns, and the register that it changes.
pub ub_clk_set_rate-Updates :
    (id rate reg : ℕ) (info : ClockInfo) (c : Divided) (pll_rate : ℕ → ℕ) (r : Regs)
    → get_periph_clock_info id ≡ some info
    → get_periph_clock_id id 0 < 13
    → pll_rate (get_periph_clock_id id 0) < 2 ^ 32
    → 1 ≤ rate
    → rate < 2 ^ 31
    → find_best_divider info.divider_bits (pll_rate (get_periph_clock_id id 0)) rate ≡ some c
    → get_periph_source_reg id ≡ some reg
    → readl r reg < 2 ^ 32
    → (r' : Regs) × (ub_clk_set_rate id rate pll_rate r
        ≡ some (record {
          rate =
              get_rate_from_divider
                (pll_rate (get_periph_clock_id id 0))
                (divider_seen id c.divider)
              % 2 ^ 32;
          extra_div = c.extra_div;
          regs = r';
        }))
      × Updates reg (λ i b. with_source info.mux_bits 0 i (with_divisor c.divider i b)) r r'
unfolding ub_clk_set_rate
ub_clk_set_rate-Updates id rate reg info c pll_rate r informed clock whole pos small best at word =
    let parent : ℕ = get_periph_clock_id id 0 in
    let checked = get_periph_clock_info-Informed id info informed in
    let id_word : id % 2 ^ 32 ≡ id = omega (arith, checked.valid) in
    let rate_word : rate % 2 ^ 32 ≡ rate = omega arith in
    let found : get_periph_clock_source id parent ≡ some (some 0) =
      Sourced-first id info (get_periph_clock_source id parent) informed
        (get_periph_clock_source-Sourced id parent) in
    let (reg', r', at', apart, e, u) =
      adjusted id parent rate 0 info c pll_rate informed clock found whole pos small best r in
    let same : reg' ≡ reg = cc in
    (
      r',
      rw (id_word, rate_word, clock_get_periph_parent-first id reg info r informed at word) e,
      rw same at u,
    )

-- For a peripheral with clock information whose first source is a clock below CLOCK_ID_COUNT and below
-- 2 ^ 32, and a rate below 2 ^ 31 and not 0 for which find_best_divider finds a divider from that clock,
-- UbClkSetRate returns, and puts the number 0 of that clock and the divider into the source register,
-- whatever source the peripheral had.
pub ub_clk_set_rate-first :
    (id rate reg i : ℕ) (info : ClockInfo) (c : Divided) (pll_rate : ℕ → ℕ) (r : Regs)
    → get_periph_clock_info id ≡ some info
    → get_periph_clock_id id 0 < 13
    → pll_rate (get_periph_clock_id id 0) < 2 ^ 32
    → 1 ≤ rate
    → rate < 2 ^ 31
    → find_best_divider info.divider_bits (pll_rate (get_periph_clock_id id 0)) rate ≡ some c
    → get_periph_source_reg id ≡ some reg
    → readl r reg < 2 ^ 32
    → i < 32
    → (r' : Regs) × (ub_clk_set_rate id rate pll_rate r
        ≡ some (record {
          rate =
              get_rate_from_divider
                (pll_rate (get_periph_clock_id id 0))
                (divider_seen id c.divider)
              % 2 ^ 32;
          extra_div = c.extra_div;
          regs = r';
        }))
      × (test_bit (readl r' reg) i
          ≡ with_source info.mux_bits 0 i (with_divisor c.divider i (test_bit (readl r reg) i)))
ub_clk_set_rate-first id rate reg i info c pll_rate r informed clock whole pos small best at word
      below =
    let (r', e, u) =
      ub_clk_set_rate-Updates id rate reg info c pll_rate r informed clock whole pos small best at
        word in
    (r', e, u.bits i below)
