-- ===== src/Clock/Init.antt =====
-- clock_init of Drivers/ClockManagementDxe/clock.c, and the smaller calls beside it.
use Prim.Native.Nat.{bit_or}
use nintendo_switch_pkg.Prelude.{
  ℕ, ◌+◌, ◌-◌, ◌*◌, ◌^◌, Bool, true, false, ◌&&◌, Option, none, some, List, [], ◌∷◌, ltb, leb, ◌==◌,
  if◌then◌else◌,
}
use nintendo_switch_pkg.Prelude.Int.{ℤ, pos, negsuc}
use nintendo_switch_pkg.Prelude.Assert.{◌>>=◌, ◌>>◌, assert}
use nintendo_switch_pkg.Prelude.Bits.{shl32}
use nintendo_switch_pkg.Mmio.{Regs, writel, setbits_le32}
use nintendo_switch_pkg.Clock.{clk_rst_base, periph_id_count}
use nintendo_switch_pkg.Clock.Periph.{get_periph_clock_info, get_periph_clock_source}
use nintendo_switch_pkg.Clock.Osc.{clock_get_rate}
use nintendo_switch_pkg.Clock.PeriphRate.{set_source_or_keep}

-- `struct periph_clk_init`.
pub record PeriphInit : Type 0 where
  pub periph_id : ℕ
  pub parent_clock_id : ℕ

abbrev pub init_of : ℕ → ℕ → PeriphInit
init_of id parent = record { periph_id = id; parent_clock_id = parent }

-- SBC1 to SBC6, HOST1X, DISP1, SDMMC1 to SDMMC4, PWM and I2C1 to I2C6, from CLOCK_ID_PERIPH, 2,
-- CLOCK_ID_DISPLAY, 5, or CLOCK_ID_SFROM32KHZ, 8.
unfoldable pub periph_clk_init_table : List PeriphInit
periph_clk_init_table =
    init_of 41 2
    ∷ init_of 44 2
    ∷ init_of 46 2
    ∷ init_of 68 2
    ∷ init_of 104 2
    ∷ init_of 105 2
    ∷ init_of 28 2
    ∷ init_of 27 5
    ∷ init_of 14 2
    ∷ init_of 9 2
    ∷ init_of 69 2
    ∷ init_of 15 2
    ∷ init_of 17 8
    ∷ init_of 12 2
    ∷ init_of 54 2
    ∷ init_of 67 2
    ∷ init_of 103 2
    ∷ init_of 47 2
    ∷ init_of 166 2
    ∷ []

-- The mux of one peripheral. A source of -1 would be set as a word.
unfoldable pub init_periph : PeriphInit → Regs → Option Regs
init_periph e r = do
  info ← get_periph_clock_info e.periph_id
  source ← get_periph_clock_source e.periph_id e.parent_clock_id
  set_source_or_keep e.periph_id info.mux_bits (elim source [ none ↦ 2 ^ 32 - 1 | some mux ↦ mux ])
      r

unfoldable pub init_periphs : List PeriphInit → Regs → Option Regs
init_periphs [] r = some r
init_periphs (e ∷ es) r = init_periph e r >>= init_periphs es

-- `pll_rate[id] = rate`
unfoldable pub set_rate_at : ℕ → ℕ → (ℕ → ℕ) → ℕ → ℕ
set_rate_at id rate rates k = if id == k then rate else rates k

unfoldable pub note_rate : ℕ → Regs → (ℕ → ℕ) → Option (ℕ → ℕ)
note_rate id r rates = do rate ← clock_get_rate id r; some (set_rate_at id rate rates)

-- `pll_rate[]` and the registers.
pub record Inited : Type 0 where
  pub pll_rate : ℕ → ℕ
  pub regs : Regs

-- PLLC, PLLM, PLLP, PLLU, PLLD, PLLX, the 32 kHz clock, the oscillator and CLK_M.
unfoldable pub note_rates : Regs → (ℕ → ℕ) → Option (ℕ → ℕ)
note_rates r rates = do
  rates_c ← note_rate 0 r rates
  rates_m ← note_rate 1 r rates_c
  rates_p ← note_rate 2 r rates_m
  rates_u ← note_rate 4 r rates_p
  rates_d ← note_rate 5 r rates_u
  rates_x ← note_rate 6 r rates_d
  rates_o ← note_rate 11 r (set_rate_at 8 32768 rates_x)
  note_rate 12 r rates_o

unfoldable pub clock_init : (ℕ → ℕ) → Regs → Option Inited
clock_init rates r = do
  pll_rate ← note_rates r rates
  regs ← init_periphs periph_clk_init_table r
  some (record { pll_rate = pll_rate; regs = regs })

-- A write of `which << cpu` to crc_cpu_cmplx_set or crc_cpu_cmplx_clr; MAX_NUM_CPU is 4.
unfoldable pub reset_cmplx_set_enable : ℤ → ℕ → Bool → Regs → Option Regs
reset_cmplx_set_enable (negsuc n) which reset r = none
reset_cmplx_set_enable (pos cpu) which reset r =
    assert (ltb cpu 4)
    >> some
        (writel (shl32 which cpu) (if reset then clk_rst_base + 0x340 else clk_rst_base + 0x344) r)

-- SCLK_SYS_STATE_RUN is 2 and its shift 28; crc_sclk_brst_pol.
unfoldable pub set_avp_clock_source : ℕ → Regs → Regs
set_avp_clock_source src r =
    writel
      (bit_or (bit_or (bit_or (bit_or (shl32 src 12) (shl32 src 8)) (shl32 src 4)) (shl32 src 0))
        (shl32 2 28))
      (clk_rst_base + 0x28) r

-- NV_PA_PMC_BASE and `pmc_clk_out_cntrl`; `none` is -EINVAL.
abbrev pub clk_out_cntrl : ℕ
clk_out_cntrl = 0x7000E400 + 0x1a8

unfoldable pub clock_external_output : ℤ → Regs → Option Regs
clock_external_output (negsuc n) r = none
clock_external_output (pos clk_id) r =
    if leb 1 clk_id && leb clk_id 3
    then some (setbits_le32 clk_out_cntrl (shl32 1 (2 + (clk_id - 1) * 8)) r)
    else none

-- The reserved ids: those of the words L, H and U, of V and of W.
unfoldable pub reserved_ids : List ℕ
reserved_ids =
    4 ∷ 25 ∷ 35 ∷ 36 ∷ 38 ∷ 43 ∷ 49 ∷ 53 ∷ 64 ∷ 84 ∷ 85 ∷ 86 ∷ 88 ∷ 90 ∷ 92 ∷ 93 ∷ 94 ∷ 98 ∷ 100
    ∷ 113 ∷ 114 ∷ 115 ∷ 116 ∷ 117 ∷ 118 ∷ 130 ∷ 131 ∷ 132 ∷ 133 ∷ 134 ∷ 135 ∷ 137 ∷ 138 ∷ 139 ∷ 140
    ∷ 141 ∷ 143 ∷ 144 ∷ 145 ∷ 146 ∷ 147 ∷ 148 ∷ 151 ∷ 157 ∷ 158 ∷ 159 ∷ []

unfoldable pub is_listed : List ℕ → ℕ → Bool
is_listed [] id = false
is_listed (x ∷ xs) id = let rest = is_listed xs id in if x == id then true else rest

-- PERIPH_ID_NONE is -1. The bound is not strict, and a negative id passes.
unfoldable pub clk_id_to_periph_id : ℤ → ℤ
clk_id_to_periph_id (negsuc n) = negsuc n
clk_id_to_periph_id (pos clk_id) =
    if ltb periph_id_count clk_id
    then negsuc 0
    else if is_listed reserved_ids clk_id
    then negsuc 0
    else pos clk_id
