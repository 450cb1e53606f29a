-- ===== src/SdMmc/ProbeEnds.antt =====
-- How SdControllerProbe of Drivers/SdMmcDxe/SdMmc.c ends.
use Prim.Native.Nat.{bit_or}
use nintendo_switch_pkg.Prelude.{
  ℕ, ◌%◌, ◌^◌, ◌<◌, ◌≡◌, ◌⊎◌, refl, inl, inr, true, false, Bool, some, arith, Bool-cases, ◌∙◌, ap,
}
use nintendo_switch_pkg.Prelude.Assert.{◌>>=◌}
use nintendo_switch_pkg.Prelude.Bits.{test_bit, test_bit-low}
use nintendo_switch_pkg.Mmio.{from, Regs, readl}
use nintendo_switch_pkg.Mmio.Update.{Updates}
use nintendo_switch_pkg.Mmio.Field.{assign_bit, test_bit-assign_bit}
use nintendo_switch_pkg.Gpio.{pin_addr, config_array, dir_out_array, out_array, in_array}
use nintendo_switch_pkg.Clock.Table.{
  table_at, row_at, periph_id_to_internal_id, clock_periph_type, clock_source,
}
use nintendo_switch_pkg.Clock.Periph.{
  get_periph_clock_id, get_periph_clock_info, get_periph_source_reg, source_reg_of,
  reset_set_enable, enable_reg, reset_reg,
}
use nintendo_switch_pkg.Clock.Rate.{get_rate_from_divider}
use nintendo_switch_pkg.Clock.BestDivider.{Divided, find_best_divider}
use nintendo_switch_pkg.Clock.PeriphRate.{divider_seen}
use nintendo_switch_pkg.Clock.Protocol.{
  ub_enable_clk, ub_clk_set_rate, ub_reset_assert, ub_reset_deassert,
}
use nintendo_switch_pkg.Clock.SourceField.{with_divisor, with_source}
use nintendo_switch_pkg.Clock.ProtocolRate.{ub_clk_set_rate-Updates}
use nintendo_switch_pkg.SdMmc.Probe.{
  success, device_error, not_found, Probed, is_err_value, power_card, detect_card, finish_probe,
  sd_controller_probe,
}
use nintendo_switch_pkg.SdMmc.ProbeWords.{
  detect_pin, power_pin, sdmmc1_source, Keeps, held, held-words, released-words, powered-words,
  detected, tuned-Keeps,
}

-- SDMMC1 is enabled, and held in reset or not.
pub record IsClocked (reset : Bool) (q : Regs) : Type 0 where
  pub enabled : test_bit (readl q (enable_reg 14)) 14 ≡ true
  pub held : test_bit (readl q (reset_reg 14)) 14 ≡ reset

-- The pin that powers the card is a high output; the rest of its registers is as before.
pub record IsPowered (r q : Regs) : Type 0 where
  pub mode :
      readl q (pin_addr config_array power_pin)
      ≡ bit_or (readl r (pin_addr config_array power_pin)) (2 ^ 4) % 2 ^ 32
  pub direction :
      readl q (pin_addr dir_out_array power_pin)
      ≡ bit_or (readl r (pin_addr dir_out_array power_pin)) (2 ^ 4) % 2 ^ 32
  pub level :
      readl q (pin_addr out_array power_pin)
      ≡ bit_or (readl r (pin_addr out_array power_pin)) (2 ^ 4) % 2 ^ 32

-- No card answers on the pin that detects it.
abbrev pub is_absent : Regs → Bool
is_absent r = test_bit (readl r (pin_addr in_array detect_pin)) 1

assigned_bit : (on : Bool) (v : ℕ) → test_bit (assign_bit 14 on v % 2 ^ 32) 14 ≡ on
assigned_bit on v =
    test_bit-low 32 (assign_bit 14 on v) 14 ∙ test_bit-assign_bit 14 on v 14 (omega arith)

info_14 : get_periph_clock_info 14 ≡ some (record { mux_bits = 1; divider_bits = 8; type = 13 })
unfolding get_periph_clock_info table_at row_at periph_id_to_internal_id clock_periph_type
    clock_source
info_14 = refl

reg_14 : get_periph_source_reg 14 ≡ some sdmmc1_source
unfolding get_periph_source_reg table_at periph_id_to_internal_id source_reg_of
reg_14 = refl

-- UbClkSetRate of SDMMC1, whose first source is PLLP, 2.
sdmmc1_rate :
    (c : Divided) (pll_rate : ℕ → ℕ) (r : Regs)
    → pll_rate 2 < 2 ^ 32
    → find_best_divider 8 (pll_rate 2) 20000000 ≡ some c
    → readl r sdmmc1_source < 2 ^ 32
    → (q : Regs) × (ub_clk_set_rate 14 20000000 pll_rate r
        ≡ some (record {
          rate = get_rate_from_divider (pll_rate 2) (divider_seen 14 c.divider) % 2 ^ 32;
          extra_div = c.extra_div;
          regs = q;
        }))
      × Updates sdmmc1_source (λ i b. with_source 1 0 i (with_divisor c.divider i b)) r q
unfolding get_periph_clock_id get_periph_clock_info table_at row_at periph_id_to_internal_id
    clock_periph_type clock_source
sdmmc1_rate c pll_rate r whole best word =
    ub_clk_set_rate-Updates 14 20000000 sdmmc1_source
      (record { mux_bits = 1; divider_bits = 8; type = 13 }) c pll_rate r info_14 (omega arith)
      whole (omega arith) (omega arith) best reg_14 word

-- From the card on, whose detection comes last.
detect_card-ends :
    (r : Regs)
    → IsClocked false r
    → (p : Probed) × (detect_card r ≡ some p)
      × IsClocked false p.regs
      × ((p.status ≡ not_found) × (is_absent r ≡ true) × (p.regs ≡ r)
          ⊎ (p.status ≡ success) × (is_absent r ≡ false) × IsPowered r p.regs)
unfolding detect_card
detect_card-ends r clocked = elim (Bool-cases (is_absent r)) [
  | inl absent ↦ (
    record { status = not_found; regs = r },
    rw (detected r, absent) refl,
    clocked,
    inl (refl, absent, refl),
  )
  | inr here ↦
      let (e, enable, reset, mode, direction, level) = powered-words r in
      (
        record { status = success; regs = from (power_card r) },
        rw (detected r, here, e) refl,
        record { enabled = rw enable clocked.enabled; held = rw reset clocked.held },
        inr (refl, here, record { mode = mode; direction = direction; level = level }),
      )
]

Keeps-trans : {r s q : Regs} → Keeps r s → Keeps s q → Keeps r q
Keeps-trans h k = ground arith

Keeps-IsPowered : {r s q : Regs} → Keeps r s → IsPowered s q → IsPowered r q
Keeps-IsPowered k p = record {
  mode = p.mode ∙ ap (λ w. bit_or w (2 ^ 4) % 2 ^ 32) k.mode;
  direction = p.direction ∙ ap (λ w. bit_or w (2 ^ 4) % 2 ^ 32) k.direction;
  level = p.level ∙ ap (λ w. bit_or w (2 ^ 4) % 2 ^ 32) k.level;
}

probe_fails :
    (c : Divided) (pll_rate : ℕ → ℕ) (r r_2 q : Regs) (rate : ℕ)
    → (ub_reset_assert 14 r >>= ub_enable_clk 14) ≡ some r_2
    → ub_clk_set_rate 14 20000000 pll_rate r_2
      ≡ some (record { rate = rate; extra_div = c.extra_div; regs = q })
    → is_err_value rate ≡ true
    → sd_controller_probe pll_rate r ≡ some (record { status = device_error; regs = q })
unfolding sd_controller_probe finish_probe ub_reset_assert reset_set_enable
probe_fails c pll_rate r r_2 q rate e_1 e_2 bad = rw (e_1, e_2, bad) refl

probe_goes_on :
    (c : Divided) (pll_rate : ℕ → ℕ) (r r_2 q free : Regs) (rate : ℕ)
    → (ub_reset_assert 14 r >>= ub_enable_clk 14) ≡ some r_2
    → ub_clk_set_rate 14 20000000 pll_rate r_2
      ≡ some (record { rate = rate; extra_div = c.extra_div; regs = q })
    → is_err_value rate ≡ false
    → ub_reset_deassert 14 q ≡ some free
    → sd_controller_probe pll_rate r ≡ detect_card free
unfolding sd_controller_probe finish_probe ub_reset_assert reset_set_enable
probe_goes_on c pll_rate r r_2 q free rate e_1 e_2 good e_3 = rw (e_1, e_2, good, e_3) refl

-- Where PLLP is below 2 ^ 32, find_best_divider finds a divider from it for 20 MHz, and the source register
-- of SDMMC1 holds a word: SdControllerProbe returns, with SDMMC1 enabled, and ends in one of three ways.
-- The rate that is set is the word of an error, and it is a device error with SDMMC1 held in reset; or
-- SDMMC1 is out of reset and no card is detected; or one is, the call succeeds, and pin 4 of port E is a
-- high output.
pub sd_controller_probe-ends :
    (c : Divided) (pll_rate : ℕ → ℕ) (r : Regs)
    → pll_rate 2 < 2 ^ 32
    → find_best_divider 8 (pll_rate 2) 20000000 ≡ some c
    → readl r sdmmc1_source < 2 ^ 32
    → let rate = get_rate_from_divider (pll_rate 2) (divider_seen 14 c.divider) % 2 ^ 32 in
      (p : Probed) × (sd_controller_probe pll_rate r ≡ some p)
      × ((p.status ≡ device_error) × (is_err_value rate ≡ true) × IsClocked true p.regs
          ⊎ (p.status ≡ not_found) × (is_absent r ≡ true) × IsClocked false p.regs
          ⊎ (p.status ≡ success)
            × (is_absent r ≡ false)
            × IsClocked false p.regs
            × IsPowered r p.regs)
sd_controller_probe-ends c pll_rate r whole best word =
    let (e_1, enable_1, reset_1, source_1, keep_1) = held-words r in
    let (q, e_2, u) = sdmmc1_rate c pll_rate (held r) whole best (rw source_1 word) in
    let (keep_2, enable_2, reset_2) = tuned-Keeps _ (held r) q u in
    let (e_3, enable_3, reset_3, keep_3) = released-words q in
    let free : Regs = from (ub_reset_deassert 14 q) in
    let keep = Keeps-trans keep_1 (Keeps-trans keep_2 keep_3) in
    let rate : ℕ = get_rate_from_divider (pll_rate 2) (divider_seen 14 c.divider) % 2 ^ 32 in
    elim (Bool-cases (is_err_value rate)) [
      | inl bad ↦ (
        record { status = device_error; regs = q },
        probe_fails c pll_rate r (held r) q rate e_1 e_2 bad,
        inl (
          refl,
          bad,
          record {
            enabled = rw (enable_2, enable_1) (assigned_bit true (readl r (enable_reg 14)));
            held = rw (reset_2, reset_1) (assigned_bit true (readl r (reset_reg 14)));
          },
        ),
      )
      | inr good ↦
          let clocked : IsClocked false free = record {
            enabled =
                rw (enable_3, enable_2, enable_1) (assigned_bit true (readl r (enable_reg 14)));
            held = rw reset_3 (assigned_bit false (readl q (reset_reg 14)));
          } in
          let (p, e_4, after, cases) = detect_card-ends free clocked in
          (
            p,
            probe_goes_on c pll_rate r (held r) q free rate e_1 e_2 good e_3 ∙ e_4,
            elim cases [
              | inl (status, absent, same) ↦ inr (inl (status, rw keep.detect at absent, after))
              | inr (status, here, on) ↦
                  inr (inr (status, rw keep.detect at here, after, Keeps-IsPowered keep on))
            ],
          )
    ]
