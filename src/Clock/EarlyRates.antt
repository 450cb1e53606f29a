-- ===== src/Clock/EarlyRates.antt =====
-- The rates after clock_early_init of Drivers/ClockManagementDxe/Tegra210/clock.c.
use nintendo_switch_pkg.Prelude.{ℕ, ◌≤◌, ◌≡◌, ◌≢◌, ◌⊎◌, inl, inr, refl, some, arith, ◌∙◌, ap}
use nintendo_switch_pkg.Prelude.Bits.{shl32}
use nintendo_switch_pkg.Mmio.{Regs, readl, clrbits_le32, readl-writel_ne}
use nintendo_switch_pkg.Clock.Pll.{tegra_pll_info_table, pll_base, pll_misc}
use nintendo_switch_pkg.Clock.Osc.{
  osc_ctrl, osc_freq, clock_get_osc_freq, pll_output, clock_get_rate,
}
use nintendo_switch_pkg.Clock.SetRate.{PllState}
use nintendo_switch_pkg.Clock.SetRateBack.{rate_of, clock_set_rate-Programs, clock_get_rate-pll}
use nintendo_switch_pkg.Clock.EarlyInit.{
  pll_out, tegra210_setup_pllp, program, program_both, program_by_osc, release_plls,
  clock_early_init,
}

-- The rates of PLLC and PLLD, and the oscillator, by the registers.
record Rates (rate_c rate_d osc : ℕ) (r : Regs) : Type 0 where
  out_c : pll_output 0 (osc_freq osc) (readl r (pll_base 0)) ≡ rate_c
  out_d : pll_output 5 (osc_freq osc) (readl r (pll_base 5)) ≡ rate_d
  same : clock_get_osc_freq r ≡ osc

clock_get_osc_freq-kept :
    (r r' : Regs)
    → readl r' osc_ctrl ≡ readl r osc_ctrl
    → clock_get_osc_freq r' ≡ clock_get_osc_freq r
unfolding clock_get_osc_freq
clock_get_osc_freq-kept r r' e = rw e refl

setup-osc : (r : Regs) → readl (tegra210_setup_pllp r) osc_ctrl ≡ readl r osc_ctrl
unfolding tegra210_setup_pllp pll_out pll_base
setup-osc r =
    readl-writel_ne _ _ osc_ctrl _ (omega arith)
    ∙ readl-writel_ne _ _ osc_ctrl _ (omega arith)
    ∙ readl-writel_ne _ _ osc_ctrl _ (omega arith)
    ∙ readl-writel_ne _ _ osc_ctrl _ (omega arith)

-- The base registers and the oscillator's are none of those that release_plls writes.
release_others :
    (a : ℕ) (r : Regs)
    → pll_misc 0 ≢ a
    → pll_out 0 1 ≢ a
    → pll_misc 5 ≢ a
    → readl (release_plls r) a ≡ readl r a
unfolding release_plls clrbits_le32
release_others a r m o d =
    readl-writel_ne _ (pll_misc 5) a _ d
    ∙ readl-writel_ne _ (pll_out 0 1) a _ o
    ∙ readl-writel_ne _ (pll_misc 0) a _ m

program_both-Rates :
    (n_c m_c cpcon_c n_d m_d cpcon_d osc : ℕ) (st : PllState)
    → clock_get_osc_freq st.regs ≡ osc
    → n_c ≤ 255
    → m_c ≤ 255
    → n_d ≤ 255
    → m_d ≤ 255
    → (st' : PllState) × (program_both n_c m_c cpcon_c n_d m_d cpcon_d st ≡ some st')
      × Rates (rate_of 0 (osc_freq osc) n_c m_c 0) (rate_of 5 (osc_freq osc) n_d m_d 0) osc st'.regs
unfolding program_both program pll_base pll_misc tegra_pll_info_table
program_both-Rates n_c m_c cpcon_c n_d m_d cpcon_d osc st now hnc hmc hnd hmd =
    let (r_1, e_1, out_1, rest_1) =
      clock_set_rate-Programs 0 n_c m_c 0 cpcon_c st (omega arith) hmc hnc (omega arith)
        λ h. absurd (omega arith) in
    let st_1 : PllState = record { regs = r_1; pllp_valid = st.pllp_valid } in
    let (r_2, e_2, out_2, rest_2) =
      clock_set_rate-Programs 5 n_d m_d 0 cpcon_d st_1 (omega arith) hmd hnd (omega arith)
        λ h. absurd (omega arith) in
    (
      record { regs = r_2; pllp_valid = st.pllp_valid },
      rw (e_1, e_2) refl,
      record {
        out_c = ap (pll_output 0 _) (rest_2 (pll_base 0) (omega arith) (omega arith)) ∙ out_1 _;
        out_d = out_2 _;
        same =
            clock_get_osc_freq-kept st.regs r_2 (
              rest_2 osc_ctrl (omega arith) (omega arith)
              ∙ rest_1 osc_ctrl (omega arith) (omega arith))
            ∙ now;
      },
    )

-- What clock_early_init comes to after its programming.
released :
    (rate_c rate_d osc : ℕ) (st st_1 : PllState)
    → program_by_osc (record st { regs = tegra210_setup_pllp st.regs }) ≡ some st_1
    → Rates rate_c rate_d osc st_1.regs
    → (st' : PllState) × (clock_early_init st ≡ some st')
      × (clock_get_rate 0 st'.regs ≡ some rate_c)
      × (clock_get_rate 5 st'.regs ≡ some rate_d)
unfolding clock_early_init pll_base pll_misc pll_out
released rate_c rate_d osc st st_1 e rates =
    let r' : Regs = release_plls st_1.regs in
    let kept : (a : ℕ)
        → pll_misc 0 ≢ a
        → pll_out 0 1 ≢ a
        → pll_misc 5 ≢ a
        → readl r' a ≡ readl st_1.regs a =
      λ a m o d. release_others a st_1.regs m o d in
    let same : clock_get_osc_freq r' ≡ osc =
      clock_get_osc_freq-kept st_1.regs r' (kept osc_ctrl (omega arith) (omega arith) (omega arith))
      ∙ rates.same in
    let base_c : readl r' (pll_base 0) ≡ readl st_1.regs (pll_base 0) =
      kept (pll_base 0) (omega arith) (omega arith) (omega arith) in
    let base_d : readl r' (pll_base 5) ≡ readl st_1.regs (pll_base 5) =
      kept (pll_base 5) (omega arith) (omega arith) (omega arith) in
    (
      record st_1 { regs = r' },
      rw e refl,
      clock_get_rate-pll 0 r' (omega arith)
          ∙ ap some (
              ap (λ o. pll_output 0 (osc_freq o) (readl r' (pll_base 0))) same
              ∙ ap (pll_output 0 (osc_freq osc)) base_c
              ∙ rates.out_c),
      clock_get_rate-pll 5 r' (omega arith)
          ∙ ap some (
              ap (λ o. pll_output 5 (osc_freq o) (readl r' (pll_base 5))) same
              ∙ ap (pll_output 5 (osc_freq osc)) base_d
              ∙ rates.out_d),
    )

by_osc_1 :
    (st : PllState)
    → clock_get_osc_freq st.regs ≡ 1
    → program_by_osc st ≡ program_both 125 4 0 96 2 12 st
unfolding program_by_osc
by_osc_1 st e = rw e refl

by_osc_4 :
    (st : PllState)
    → clock_get_osc_freq st.regs ≡ 4
    → program_by_osc st ≡ program_both 125 8 0 96 4 0 st
unfolding program_by_osc
by_osc_4 st e = rw e refl

-- With an oscillator of 19.2 or 38.4 MHz, clock_early_init returns, and leaves PLLC at 600 MHz and PLLD at
-- 921.6 MHz, as clock_get_rate computes them from the registers, whatever these held.
pub clock_early_init-rates :
    (st : PllState)
    → (clock_get_osc_freq st.regs ≡ 1) ⊎ (clock_get_osc_freq st.regs ≡ 4)
    → (st' : PllState) × (clock_early_init st ≡ some st')
      × (clock_get_rate 0 st'.regs ≡ some 600000000)
      × (clock_get_rate 5 st'.regs ≡ some 921600000)
unfolding osc_freq shl32
clock_early_init-rates st (inl slow) =
    let st_0 : PllState = record st { regs = tegra210_setup_pllp st.regs } in
    let e : clock_get_osc_freq st_0.regs ≡ 1 =
      clock_get_osc_freq-kept st.regs st_0.regs (setup-osc st.regs) ∙ slow in
    let (st_1, e_1, rates) =
      program_both-Rates 125 4 0 96 2 12 1 st_0 e (omega arith) (omega arith) (omega arith)
        (omega arith) in
    released 600000000 921600000 1 st st_1 (by_osc_1 st_0 e ∙ e_1) rates
clock_early_init-rates st (inr fast) =
    let st_0 : PllState = record st { regs = tegra210_setup_pllp st.regs } in
    let e : clock_get_osc_freq st_0.regs ≡ 4 =
      clock_get_osc_freq-kept st.regs st_0.regs (setup-osc st.regs) ∙ fast in
    let (st_1, e_1, rates) =
      program_both-Rates 125 8 0 96 4 0 4 st_0 e (omega arith) (omega arith) (omega arith)
        (omega arith) in
    released 600000000 921600000 4 st st_1 (by_osc_4 st_0 e ∙ e_1) rates
