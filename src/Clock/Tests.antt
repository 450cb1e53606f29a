-- ===== src/Clock/Tests.antt =====
-- Runs of the clock manager on concrete registers.
use nintendo_switch_pkg.Prelude.{◌+◌, ◌-◌, ◌*◌, ◌^◌, ◌<◌, ◌≡◌, ◌≢◌, refl, some, none, arith}
use nintendo_switch_pkg.Mmio.{Regs, readl}
use nintendo_switch_pkg.Clock.{clk_rst_base}
use nintendo_switch_pkg.Clock.Table.{periph_id_to_internal_id, table_at}
use nintendo_switch_pkg.Clock.Periph.{
  source_reg_of, get_periph_source_reg, get_periph_clock_info, get_periph_clock_source,
  clock_ll_get_source_bits,
}
use nintendo_switch_pkg.Clock.Source.{
  internal_id, get_periph_source_reg-distinct, get_periph_source_reg-missing,
  get_periph_clock_info-last_group,
}
use nintendo_switch_pkg.Clock.Mux.{
  Sourced, get_periph_clock_source-Sourced, clock_ll_get_source_bits-zero,
}
use nintendo_switch_pkg.Prelude.Assert.{◌>>=◌}
use nintendo_switch_pkg.Clock.Pll.{
  PllSetting, tegra_pll_info_table, clock_start_pll, clock_ll_read_pll,
}
use nintendo_switch_pkg.Clock.PllRoundTrip.{clock_ll_read_pll-clock_start_pll}

abbrev ones : Regs
ones a = 2 ^ 32 - 1

sdmmc1_reg : get_periph_source_reg 14 ≡ some 0x60006150
unfolding get_periph_source_reg table_at periph_id_to_internal_id source_reg_of
sdmmc1_reg = refl

get_periph_source_reg-distinct_example : get_periph_source_reg 14 ≢ get_periph_source_reg 211
unfolding table_at periph_id_to_internal_id
get_periph_source_reg-distinct_example =
    get_periph_source_reg-distinct 14 211 (omega arith) (omega arith) (omega arith) (omega arith)
      (omega arith) (omega arith) (omega arith)

-- PERIPH_ID_CPU has no source register.
get_periph_source_reg-missing_example :
    get_periph_source_reg 0 ≡ some (clk_rst_base + 0x694 + 127 * 4)
unfolding table_at periph_id_to_internal_id
get_periph_source_reg-missing_example =
    get_periph_source_reg-missing 0 (omega arith) (omega arith) refl

get_periph_clock_info-last_group_example :
    (get_periph_clock_info 211 ≡ none)
    × (get_periph_source_reg 211 ≡ some (clk_rst_base + 0x694 + (internal_id 211 - 128) * 4))
    × (internal_id 211 < 146)
unfolding table_at periph_id_to_internal_id
get_periph_clock_info-last_group_example =
    get_periph_clock_info-last_group 211 (omega arith) (omega arith) (omega arith) (omega arith)

-- CLOCK_ID_PERIPH is 2.
get_periph_clock_source-Sourced_example : Sourced 14 2 (get_periph_clock_source 14 2)
get_periph_clock_source-Sourced_example = get_periph_clock_source-Sourced 14 2

clock_ll_get_source_bits-zero_example : clock_ll_get_source_bits 14 1 ones ≡ some (some 0)
unfolding readl
clock_ll_get_source_bits-zero_example =
    clock_ll_get_source_bits-zero 14 1 0x60006150 ones (omega arith) (omega arith) sdmmc1_reg

-- PLLP, divided by 4, at 408 MHz.
abbrev pllp_408 : PllSetting
pllp_408 = record { divm = 4; divn = 85; divp = 1; cpcon = 2; lfcon = 1 }

clock_ll_read_pll-clock_start_pll_example :
    (clock_start_pll 2 pllp_408 ones >>= clock_ll_read_pll 2) ≡ some pllp_408
unfolding tegra_pll_info_table
clock_ll_read_pll-clock_start_pll_example =
    clock_ll_read_pll-clock_start_pll 2 pllp_408 ones (omega arith) (omega arith) (omega arith)
      (omega arith) (omega arith) (omega arith) (omega arith)
