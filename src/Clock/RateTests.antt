-- ===== src/Clock/RateTests.antt =====
-- Runs of the clock manager's rates on concrete registers.
use nintendo_switch_pkg.Prelude.{
  ℕ, ◌-◌, ◌*◌, ◌%◌, ◌^◌, ◌≡◌, refl, inr, true, false, some, none, [], ◌∷◌, arith, ◌==◌, ◌||◌,
  if◌then◌else◌,
}
use nintendo_switch_pkg.Prelude.Bits.{test_bit, shr}
use nintendo_switch_pkg.Mmio.{Regs, readl}
use nintendo_switch_pkg.Mmio.Field.{extract_field}
use nintendo_switch_pkg.Clock.Table.{
  periph_id_to_internal_id, clock_periph_type, clock_source, table_at, row_at,
}
use nintendo_switch_pkg.Clock.Periph.{
  ClockInfo, get_periph_clock_info, get_periph_clock_id, get_periph_clock_source, find_mux,
  get_periph_source_reg, source_reg_of,
}
use nintendo_switch_pkg.Clock.Rate.{clk_get_divider, get_rate_from_divider}
use nintendo_switch_pkg.Clock.BestDivider.{
  Divided, find_best_divider, try_shifts, is_positive, lt_int, divided_parent, rate_error,
}
use nintendo_switch_pkg.Clock.Enable.{is_enabled, is_in_reset}
use nintendo_switch_pkg.Clock.Divider.{IsSlowEnough}
use nintendo_switch_pkg.Clock.Closest.{Closest, find_best_divider-Closest}
use nintendo_switch_pkg.Clock.SecondStage.{find_best_divider-second_stage}
use nintendo_switch_pkg.Clock.PeriphRate.{divider_seen, clock_start_periph_pll}
use nintendo_switch_pkg.Clock.SourceField.{with_divisor, with_source}
use nintendo_switch_pkg.Clock.Start.{clock_start_periph_pll-Started}
use nintendo_switch_pkg.Clock.Pll.{tegra_pll_info_table}
use nintendo_switch_pkg.Clock.Osc.{osc_ctrl, osc_freq, clock_get_osc_freq, clock_get_rate}
use nintendo_switch_pkg.Clock.SetRate.{PllState, done, clock_set_rate}
use nintendo_switch_pkg.Clock.SetRateBack.{rate_of, clock_get_rate-clock_set_rate}
use nintendo_switch_pkg.Clock.Init.{periph_clk_init_table, clock_init}
use nintendo_switch_pkg.Clock.InitMux.{IsMuxed, entry_at, is_noted, rate_now, clock_init-IsMuxed}
use nintendo_switch_pkg.Clock.PllE.{plle_program, plle_finish, tegra_plle_enable}
use nintendo_switch_pkg.Clock.PllELock.{
  has_lock, is_empty, pllrefe_program, tegra_plle_enable-has_lock,
}
use nintendo_switch_pkg.Clock.EarlyInit.{clock_early_init}
use nintendo_switch_pkg.Clock.EarlyRates.{clock_early_init-rates}
use nintendo_switch_pkg.Clock.Protocol.{ub_clk_set_rate}
use nintendo_switch_pkg.Clock.ProtocolRate.{ub_clk_set_rate-first}

abbrev ones : Regs
ones a = 2 ^ 32 - 1

-- 408 MHz, for every clock.
abbrev pllp_only : ℕ → ℕ
pllp_only id = 408000000

-- An oscillator of 38.4 MHz, and nothing programmed.
abbrev osc_38 : Regs
osc_38 a = if a == osc_ctrl then 5 * 2 ^ 28 else 0

-- 100 kHz wants a second stage of 32, 20 MHz none.
abbrev slow : Divided
slow = record { divider = 253; extra_div = 32 }

abbrev fast : Divided
fast = record { divider = 39; extra_div = 1 }

find_slow : find_best_divider 8 408000000 100000 ≡ some slow
unfolding find_best_divider try_shifts is_positive lt_int divided_parent shr rate_error
    clk_get_divider get_rate_from_divider
find_slow = refl

find_fast : find_best_divider 8 408000000 20000000 ≡ some fast
unfolding find_best_divider try_shifts is_positive lt_int divided_parent shr rate_error
    clk_get_divider get_rate_from_divider
find_fast = refl

-- The exact rate of divider 1, 66666666 2/3 Hz, is above the rate asked for, though its rounded rate is not.
find_rounded : find_best_divider 8 100000000 66666666 ≡ some (record { divider = 2; extra_div = 1 })
unfolding find_best_divider try_shifts is_positive lt_int divided_parent shr rate_error
    clk_get_divider get_rate_from_divider
find_rounded = refl

rounded_rate : get_rate_from_divider 100000000 1 ≡ 66666666
unfolding get_rate_from_divider
rounded_rate = refl

find_best_divider-Closest_example :
    Closest 8 408000000 100000 (find_best_divider 8 408000000 100000)
find_best_divider-Closest_example =
    find_best_divider-Closest 8 408000000 100000 (omega arith) (omega arith) (omega arith)
      (omega arith)

find_best_divider-second_stage_example : ¬ IsSlowEnough 408000000 100000 253
find_best_divider-second_stage_example =
    find_best_divider-second_stage 8 408000000 100000 slow (omega arith) (omega arith) (omega arith)
      (omega arith) find_slow (omega arith)

-- PERIPH_ID_SDMMC1, 14.
abbrev sdmmc_info : ClockInfo
sdmmc_info = record { mux_bits = 1; divider_bits = 8; type = 13 }

info_14 : get_periph_clock_info 14 ≡ some sdmmc_info
unfolding get_periph_clock_info table_at row_at periph_id_to_internal_id clock_periph_type
    clock_source
info_14 = refl

source_14 : get_periph_clock_source 14 2 ≡ some (some 0)
unfolding get_periph_clock_source get_periph_clock_info find_mux table_at row_at
    periph_id_to_internal_id clock_periph_type clock_source
source_14 = refl

reg_14 : get_periph_source_reg 14 ≡ some 0x60006150
unfolding get_periph_source_reg table_at periph_id_to_internal_id source_reg_of
reg_14 = refl

clock_start_periph_pll-Started_example :
    (reg : ℕ) × (r' : Regs) × (get_periph_source_reg 14 ≡ some reg)
    × (clock_start_periph_pll 14 2 20000000 pllp_only ones
        ≡ some (record {
          rate = get_rate_from_divider 408000000 (divider_seen 14 39) % 2 ^ 32;
          extra_div = 1;
          regs = r';
        }))
    × (is_enabled 211 r' ≡ (if 14 == 211 then true else is_enabled 211 ones))
    × (is_in_reset 211 r' ≡ (if 14 == 211 then false else is_in_reset 211 ones))
    × (test_bit (readl r' reg) 3
        ≡ with_source 1 0 3 (with_divisor 39 3 (test_bit (readl ones reg) 3)))
clock_start_periph_pll-Started_example =
    clock_start_periph_pll-Started 14 2 20000000 0 sdmmc_info fast pllp_only info_14 (omega arith)
      source_14 (omega arith) (omega arith) (omega arith) find_fast 211 3 ones (omega arith)
      (omega arith)

clock_get_rate-clock_set_rate_example :
    (regs : Regs) × (clock_set_rate 0 125 8 0 0 (record { regs = osc_38; pllp_valid = true })
      ≡ some (record { code = done; state = record { regs = regs; pllp_valid = true } }))
    × (clock_get_rate 0 regs ≡ some (rate_of 0 (osc_freq (clock_get_osc_freq osc_38)) 125 8 0))
unfolding tegra_pll_info_table
clock_get_rate-clock_set_rate_example =
    clock_get_rate-clock_set_rate 0 125 8 0 0 (record { regs = osc_38; pllp_valid = true })
      (omega arith) (omega arith) (omega arith) (omega arith) λ h. absurd (omega arith)

-- The last entry of the table, I2C6; PLLP, whose rate is noted; and the oscillator's register.
clock_init-IsMuxed_example :
    (rates' : ℕ → ℕ) × (r' : Regs) × (clock_init pllp_only ones
      ≡ some (record { pll_rate = rates'; regs = r' }))
    × IsMuxed (entry_at periph_clk_init_table 18) r'
    × (readl r' osc_ctrl ≡ readl ones osc_ctrl)
    × (rates' 2 ≡ (if 2 == 8 then 32768 else if is_noted 2 then rate_now 2 ones else pllp_only 2))
unfolding periph_clk_init_table get_periph_source_reg table_at periph_id_to_internal_id
    source_reg_of
clock_init-IsMuxed_example =
    clock_init-IsMuxed pllp_only ones 18 2 osc_ctrl (omega arith) (omega arith) (omega arith)

-- PLLREFE locks at the second reading; PLLE is not read at all.
tegra_plle_enable-has_lock_example : tegra_plle_enable (0 ∷ 2 ^ 27 ∷ []) [] ones ≡ (
    if has_lock 27 (0 ∷ 2 ^ 27 ∷ [])
    then (if is_empty [] || has_lock 11 []
        then some (plle_finish (plle_program (pllrefe_program ones)))
        else none)
    else none)
tegra_plle_enable-has_lock_example = tegra_plle_enable-has_lock (0 ∷ 2 ^ 27 ∷ []) [] ones

osc_38_is_4 : clock_get_osc_freq osc_38 ≡ 4
unfolding clock_get_osc_freq extract_field shr readl
osc_38_is_4 = refl

clock_early_init-rates_example :
    (st' : PllState) × (clock_early_init (record { regs = osc_38; pllp_valid = true }) ≡ some st')
    × (clock_get_rate 0 st'.regs ≡ some 600000000)
    × (clock_get_rate 5 st'.regs ≡ some 921600000)
clock_early_init-rates_example =
    clock_early_init-rates (record { regs = osc_38; pllp_valid = true }) (inr osc_38_is_4)

first_14 : get_periph_clock_id 14 0 ≡ 2
unfolding get_periph_clock_id get_periph_clock_info table_at row_at periph_id_to_internal_id
    clock_periph_type clock_source
first_14 = refl

-- The mux of all ones is no source of the peripheral.
ub_clk_set_rate-first_example :
    (r' : Regs) × (ub_clk_set_rate 14 20000000 pllp_only ones
      ≡ some (record {
        rate = get_rate_from_divider 408000000 (divider_seen 14 39) % 2 ^ 32;
        extra_div = 1;
        regs = r';
      }))
    × (test_bit (readl r' 0x60006150) 30
        ≡ with_source 1 0 30 (with_divisor 39 30 (test_bit (readl ones 0x60006150) 30)))
unfolding readl
ub_clk_set_rate-first_example =
    ub_clk_set_rate-first 14 20000000 0x60006150 30 sdmmc_info fast pllp_only ones info_14
      (omega (arith, first_14)) (omega arith) (omega arith) (omega arith) find_fast reg_14
      (omega arith) (omega arith)
