-- ===== src/Clock/PeriphRate.antt =====
-- The rate of a peripheral, its parent, and the calls that start it:
-- Drivers/ClockManagementDxe/clock.c. The waits (`udelay`) and messages are left out.
use Prim.Native.Nat.{bit_and}
use nintendo_switch_pkg.Prelude.{
  ℕ, ◌+◌, ◌-◌, ◌/◌, ◌%◌, ◌^◌, Bool, true, false, ◌&&◌, ◌||◌, Option, none, some, ltb, leb, ◌==◌,
  if◌then◌else◌,
}
use nintendo_switch_pkg.Prelude.Assert.{◌>>=◌, ◌>>◌, assert}
use nintendo_switch_pkg.Mmio.{Regs, readl, writel, clrsetbits_le32}
use nintendo_switch_pkg.Mmio.Field.{insert_field}
use nintendo_switch_pkg.Clock.Periph.{
  get_periph_source_reg, get_periph_clock_info, get_periph_clock_id, get_periph_clock_source,
  clock_ll_set_source_bits, clock_ll_get_source_bits, reset_set_enable, clock_enable,
}
use nintendo_switch_pkg.Clock.Rate.{get_rate_from_divider}
use nintendo_switch_pkg.Clock.BestDivider.{find_best_divider}

-- The mask of bits 31 and 30 is 3 and that of the divisor 0xffff.
unfoldable pub clock_ll_set_source_divisor : ℕ → ℕ → ℕ → Regs → Option Regs
clock_ll_set_source_divisor id source divisor r = do
  reg ← get_periph_source_reg id
  some (writel (insert_field 0xffff 0 divisor (insert_field 3 30 source (readl r reg))) reg r)

-- The result of clock_ll_set_source_bits is not looked at.
unfoldable pub set_source_or_keep : ℕ → ℕ → ℕ → Regs → Option Regs
set_source_or_keep id mux_bits source r = do
  out ← clock_ll_set_source_bits id mux_bits source r
  some (elim out [ none ↦ r | some r' ↦ r' ])

unfoldable pub clock_ll_set_source : ℕ → ℕ → Regs → Option Regs
clock_ll_set_source id source = set_source_or_keep id 0 source

-- PERIPH_ID_UART1 to PERIPH_ID_UART5.
unfoldable pub is_uart : ℕ → Bool
is_uart id = id == 6 || id == 7 || id == 55 || id == 65 || id == 66

-- `pll_rate[]`, the rates that clock_init notes, has CLOCK_ID_COUNT, 13, entries.
unfoldable pub pll_rate_at : (ℕ → ℕ) → ℕ → Option ℕ
pll_rate_at pll_rate parent = assert (ltb parent 13) >> some (pll_rate parent)

-- The divider of a rate; `div - 2` of 1 is -1, as a word.
unfoldable pub divider_seen : ℕ → ℕ → ℕ
divider_seen id div = if is_uart id && leb 1 div then (div + (2 ^ 32 - 2)) % 2 ^ 32 else div

unfoldable pub clock_get_periph_rate : ℕ → ℕ → (ℕ → ℕ) → Regs → Option ℕ
clock_get_periph_rate id parent pll_rate r = do
  reg ← get_periph_source_reg id
  parent_rate ← pll_rate_at pll_rate parent
  some (get_rate_from_divider parent_rate (divider_seen id (bit_and (readl r reg) 0xffff)))

-- Whether a call returns 0, and the registers after it.
pub record Adjusted : Type 0 where
  pub ok : Bool
  pub regs : Regs

-- A source of -1 is `none`; the divisor is written before it is looked at.
unfoldable pub adjust_periph_pll : ℕ → Option ℕ → ℕ → ℕ → Regs → Option Adjusted
adjust_periph_pll id source mux_bits divider r = do
  reg ← get_periph_source_reg id
  let r_1 = clrsetbits_le32 reg 0xffff divider r
  elim source [
    | none ↦ some (record { ok = false; regs = r_1 })
    | some mux ↦ do
      r_2 ← set_source_or_keep id mux_bits mux r_1
      some (record { ok = true; regs = r_2 })
  ]

-- The number of the source picks the parent; CLOCK_ID_NONE, 255, for a peripheral without clock
-- information, and for a mux of -1, which the tables do not have.
unfoldable pub clock_get_periph_parent : ℕ → Regs → Option ℕ
clock_get_periph_parent id r = elim (get_periph_clock_info id) [
  | none ↦ some 255
  | some info ↦ do
    source ← clock_ll_get_source_bits id info.mux_bits r
    some (elim source [ none ↦ 255 | some mux ↦ get_periph_clock_id id mux ])
]

-- What clock_adjust_periph_pll_div returns, `*extra_div` and the registers.
pub record Tuned : Type 0 where
  pub rate : ℕ
  pub extra_div : ℕ
  pub regs : Regs

-- `wants_extra` is whether `extra_div` is not a null pointer. A source of -1 comes to -1U.
unfoldable pub clock_adjust_periph_pll_div : ℕ → ℕ → ℕ → Bool → (ℕ → ℕ) → Regs → Option Tuned
clock_adjust_periph_pll_div id parent rate wants_extra pll_rate r = do
  info ← get_periph_clock_info id
  source ← get_periph_clock_source id parent
  parent_rate ← pll_rate_at pll_rate parent
  best ← find_best_divider info.divider_bits parent_rate rate
  adjusted ← adjust_periph_pll id source info.mux_bits best.divider r
  elim adjusted.ok [
    | false ↦ some (record { rate = 2 ^ 32 - 1; extra_div = best.extra_div; regs = adjusted.regs })
    | true ↦ do
      effective ← clock_get_periph_rate id parent pll_rate adjusted.regs
      some (record {
        rate = if wants_extra then effective % 2 ^ 32 / best.extra_div else effective % 2 ^ 32;
        extra_div = best.extra_div;
        regs = adjusted.regs;
      })
  ]

-- Without a place for the second-stage divisor.
unfoldable pub clock_start_periph_pll : ℕ → ℕ → ℕ → (ℕ → ℕ) → Regs → Option Tuned
clock_start_periph_pll id parent rate pll_rate r = do
  r_1 ← reset_set_enable id 1 r
  r_2 ← clock_enable id r_1
  tuned ← clock_adjust_periph_pll_div id parent rate false pll_rate r_2
  r_3 ← reset_set_enable id 0 tuned.regs
  some (record tuned { regs = r_3 })

unfoldable pub clock_ll_start_uart : ℕ → Regs → Option Regs
clock_ll_start_uart id r = do
  r_1 ← reset_set_enable id 1 r
  r_2 ← clock_enable id r_1
  r_3 ← clock_ll_set_source id 0 r_2
  reset_set_enable id 0 r_3
