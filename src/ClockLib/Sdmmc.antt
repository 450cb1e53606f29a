-- ===== src/ClockLib/Sdmmc.antt =====
-- The clocks of the four SDMMC controllers, Library/ClockLib/ClockLib.c, on the accesses of
-- SdMmc/Controller: the registers that set and clear bits do not keep what is written to them. An id is 0
-- for SDMMC_1 to 3 for SDMMC_4.
use Prim.Native.Nat.{bit_and}
use nintendo_switch_pkg.Prelude.{
  ℕ, ◌+◌, ◌-◌, ◌*◌, ◌/◌, ◌^◌, Bool, false, not, ◌||◌, Option, none, some, ltb, ◌==◌, if◌then◌else◌,
}
use nintendo_switch_pkg.ClockLib.{clock_base}
use nintendo_switch_pkg.SdMmc.Controller.{Env, Io, ◌>>=◌, ◌>>◌, return, readl, writel, udelay}

-- The four statements of a switch without a `break`, from the one of `id` on: CLK_L_SDMMC1, CLK_L_SDMMC2,
-- CLK_U_SDMMC3 and CLK_L_SDMMC4, to the registers of the groups L and U.
unfoldable pub write_from : ℕ → ℕ → ℕ → Io (Unit {0})
write_from l u id =
    let fourth = writel (2 ^ 15) (clock_base + l) in
    let third = writel (2 ^ 5) (clock_base + u) >> fourth in
    let second = writel (2 ^ 9) (clock_base + l) >> third in
    let first = writel (2 ^ 14) (clock_base + l) >> second in
    if id == 0
    then first
    else if id == 1
    then second
    else if id == 2
    then third
    else if id == 3
    then fourth
    else return tt

unfoldable pub clock_sdmmc_set_reset : ℕ → Io (Unit {0})
clock_sdmmc_set_reset = write_from 0x300 0x310

unfoldable pub clock_sdmmc_clear_reset : ℕ → Io (Unit {0})
clock_sdmmc_clear_reset = write_from 0x304 0x314

unfoldable pub clock_sdmmc_set_enable : ℕ → Io (Unit {0})
clock_sdmmc_set_enable = write_from 0x320 0x330

unfoldable pub clock_sdmmc_clear_enable : ℕ → Io (Unit {0})
clock_sdmmc_clear_enable = write_from 0x324 0x334

-- The rate that is set, in kHz, and the divisor; `none` for a rate that is not known.
pub record Rate : Type 0 where
  pub out : ℕ
  pub divisor : ℕ

abbrev rate : ℕ → ℕ → Option Rate
rate out divisor = some (record { out = out; divisor = divisor })

unfoldable pub sdmmc_rate : ℕ → Option Rate
sdmmc_rate val =
    if val == 25000
    then rate 24728 31
    else if val == 26000
    then rate 25500 30
    else if val == 40800
    then rate 40800 18
    else if val == 50000
    then rate 48000 15
    else if val == 52000
    then rate 51000 14
    else if val == 100000
    then rate 90667 7
    else if val == 200000
    then rate 163200 3
    else if val == 208000
    then rate 204000 2
    else none

unfoldable pub source_offset : ℕ → ℕ
source_offset id =
    if id == 0 then 0x150 else if id == 1 then 0x154 else if id == 2 then 0x1BC else 0x164

-- `_clock_sdmmc_table`, in pairs of the rate asked for and the rate set.
unfoldable pub keep_rate : ℕ → ℕ → ℕ → (ℕ → ℕ) → ℕ → ℕ
keep_rate id val out table i = if i == 2 * id then val else if i == 2 * id + 1 then out else table i

-- The table, and `*pout`, after a call.
pub record Configured : Type 0 where
  pub table : ℕ → ℕ
  pub out : ℕ

unfoldable pub clock_sdmmc_config_clock_source_inner : ℕ → ℕ → ℕ → (ℕ → ℕ) → Io Configured
clock_sdmmc_config_clock_source_inner out id val table = config (sdmmc_rate val)
  where
    config : Option Rate → Io Configured
    config none = return (record { table = table; out = out })
    config (some r) =
        let write = writel r.divisor (clock_base + source_offset id) in
        (if ltb id 4 then write else return tt)
        >> return (record { table = keep_rate id val r.out table; out = r.out })

-- The rate and the divisor of a mode; the cases 5, 7 and 10 have no `break`. `none` leaves both.
unfoldable pub clock_sdmmc_get_params : ℕ → Option Rate
clock_sdmmc_get_params type =
    if type == 0
    then rate 26000 66
    else if type == 1
    then rate 26000 1
    else if type == 2
    then rate 52000 1
    else if type == 3 || type == 4 || type == 11
    then rate 200000 1
    else if type == 5 || type == 6 || type == 8
    then rate 25000 1
    else if type == 7 || type == 10 || type == 13
    then rate 40800 1
    else if type == 14
    then rate 200000 2
    else none

-- The bit of `id` in a register of the group L or U.
unfoldable pub sdmmc_bit : ℕ → ℕ
sdmmc_bit id =
    if id == 0 then 2 ^ 14 else if id == 1 then 2 ^ 9 else if id == 2 then 2 ^ 5 else 2 ^ 15

module _ (env : Env) where
  unfoldable pub read_bit : ℕ → ℕ → ℕ → Io Bool
  read_bit l u id =
      let off = if id == 2 then u else l in
      let bit =
        readl env (clock_base + off) >>= λ w. return (not (bit_and w (sdmmc_bit id) == 0)) in
      if ltb id 4 then bit else return false

  unfoldable pub clock_sdmmc_is_reset : ℕ → Io Bool
  clock_sdmmc_is_reset = read_bit 0x4 0xC

  unfoldable pub clock_sdmmc_is_enabled : ℕ → Io Bool
  clock_sdmmc_is_enabled = read_bit 0x10 0x18

  unfoldable pub clock_sdmmc_disable : ℕ → Io (Unit {0})
  clock_sdmmc_disable id = do
    clock_sdmmc_set_reset id
    clock_sdmmc_clear_enable id
    _ ← clock_sdmmc_is_reset id
    return tt

  unfoldable pub clock_sdmmc_config_clock_source : ℕ → ℕ → ℕ → (ℕ → ℕ) → Io Configured
  clock_sdmmc_config_clock_source out id val table =
      let config = (do
        on ← clock_sdmmc_is_enabled id
        if on then clock_sdmmc_clear_enable id else return tt
        c ← clock_sdmmc_config_clock_source_inner out id val table
        if on then clock_sdmmc_set_enable id else return tt
        _ ← clock_sdmmc_is_reset id
        return c) in
      if table (2 * id) == val
      then return (record { table = table; out = table (2 * id + 1) })
      else config

  unfoldable pub clock_sdmmc_is_not_reset_and_enabled : ℕ → Io Bool
  clock_sdmmc_is_not_reset_and_enabled id = clock_sdmmc_is_reset id >>= λ reset.
      let enabled = clock_sdmmc_is_enabled id in if reset then return false else enabled

  -- From the change of the source on. The wait divides by the rate, which is 0 if `val` is not known:
  -- `none`.
  unfoldable pub start_sdmmc : ℕ → Configured → Io (Option Configured)
  start_sdmmc id c = do
    clock_sdmmc_set_enable id
    _ ← clock_sdmmc_is_reset id
    let rest = do
      udelay ((100000 + c.out - 1) / c.out)
      clock_sdmmc_clear_reset id
      _ ← clock_sdmmc_is_reset id
      return (some c)
    if c.out == 0 then return none else rest

  unfoldable pub clock_sdmmc_enable : ℕ → ℕ → (ℕ → ℕ) → Io (Option Configured)
  clock_sdmmc_enable id val table = do
    on ← clock_sdmmc_is_enabled id
    if on then clock_sdmmc_clear_enable id else return tt
    clock_sdmmc_set_reset id
    c ← clock_sdmmc_config_clock_source_inner 0 id val table
    start_sdmmc id c
