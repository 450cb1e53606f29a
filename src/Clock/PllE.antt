-- ===== src/Clock/PllE.antt =====
-- PLLREFE and PLLE: tegra_pllref_enable and tegra_plle_enable of
-- Drivers/ClockManagementDxe/Tegra210/clock.c. The timer and the hardware decide what a loop that waits
-- for a lock bit reads: those readings, up to the one that ends the loop, are a list.
use Prim.Native.Nat.{bit_and, bit_or}
use nintendo_switch_pkg.Prelude.{ℕ, ◌+◌, ◌^◌, Option, some, List, [], ◌∷◌, ◌==◌, not, if◌then◌else◌}
use nintendo_switch_pkg.Prelude.Assert.{◌>>=◌, ◌>>◌, assert}
use nintendo_switch_pkg.Prelude.Bits.{shl32, not32}
use nintendo_switch_pkg.Mmio.{Regs, readl, writel, clrbits_le32}
use nintendo_switch_pkg.Clock.{clk_rst_base}

-- `value` after the loop: it has the value of before if the time is out at once.
unfoldable pub wait_lock : ℕ → ℕ → List ℕ → ℕ
wait_lock lock value [] = value
wait_lock lock value (x ∷ xs) =
    let rest = wait_lock lock x xs in if bit_and x lock == 0 then rest else x

abbrev pub pllrefe_misc : ℕ
pllrefe_misc = clk_rst_base + 0x4c8

abbrev pub pllrefe_base : ℕ
pllrefe_base = clk_rst_base + 0x4c4

-- Enabled, with KCP 0, P 0, N 0x41 and M 4.
abbrev pub pllrefe_value : ℕ
pllrefe_value = bit_or (bit_or (2 ^ 30) (shl32 0x41 8)) 4

-- IDDQ is bit 24 and the lock bit 27. Without a lock an assertion fails.
unfoldable pub tegra_pllref_enable : List ℕ → Regs → Option Regs
tegra_pllref_enable readings r = do
  let r_1 = clrbits_le32 pllrefe_misc (2 ^ 24) r
  let r_2 = writel pllrefe_value pllrefe_base r_1
  let value = wait_lock (2 ^ 27) pllrefe_value readings
  assert (not (bit_and value (2 ^ 27) == 0))
  some r_2

abbrev pub plle_ss_cntl : ℕ
plle_ss_cntl = clk_rst_base + 0x68

abbrev pub plle_base : ℕ
plle_base = clk_rst_base + 0xe8

abbrev pub plle_misc : ℕ
plle_misc = clk_rst_base + 0xec

abbrev pub plle_aux : ℕ
plle_aux = clk_rst_base + 0x48c

-- `value &= ~mask; value |= set`
unfoldable pub replace : ℕ → ℕ → ℕ → ℕ
replace mask set value = bit_or (bit_and value (not32 mask)) set

-- PLDIV_CML 0xe, NDIV 0x7d and MDIV 2.
unfoldable pub plle_dividers : ℕ → ℕ
plle_dividers value =
    let cleared =
      bit_and (bit_and (bit_and value (not32 (shl32 0x1f 24))) (not32 (shl32 0xff 8)))
        (not32 0xff) in
    bit_or (bit_or (bit_or cleared (shl32 0xe 24)) (shl32 0x7d 8)) 2

-- The spread spectrum word; the mask of SSCMAX is cut to its nine bits.
unfoldable pub plle_spread : ℕ → ℕ
plle_spread value =
    let inc = replace (shl32 0xff 16) (shl32 1 16) value in
    let intr = replace (shl32 0x3f 24) (shl32 0x23 24) inc in
    let max = replace 0x1ff 0x21 intr in
    bit_and (bit_and (bit_and (bit_and max (not32 (2 ^ 15))) (not32 (2 ^ 14))) (not32 (2 ^ 10)))
      (not32 (2 ^ 12))

-- Steps 1 to 3: the oscillator as the source, and the enable bit, bit 31.
unfoldable pub plle_program : Regs → Regs
plle_program r =
    let r_1 = clrbits_le32 plle_aux (2 ^ 28) r in
    let r_2 = clrbits_le32 plle_misc (2 ^ 13) r_1 in
    let r_3 = writel (plle_dividers (readl r_2 plle_base)) plle_base r_2 in
    let misc =
      bit_and
        (bit_and (bit_and (bit_or (readl r_3 plle_misc) (2 ^ 8)) (not32 (shl32 3 6)))
          (not32 (shl32 3 2)))
        (not32 (2 ^ 0)) in
    let r_4 = writel misc plle_misc r_3 in
    writel (bit_or (readl r_4 plle_base) (2 ^ 31)) plle_base r_4

-- Steps 5 to 8: spread spectrum, and the power sequencer.
unfoldable pub plle_finish : Regs → Regs
plle_finish r =
    let spread = plle_spread (readl r plle_ss_cntl) in
    let r_1 = writel spread plle_ss_cntl r in
    let r_2 = writel (bit_and spread (not32 (2 ^ 11))) plle_ss_cntl r_1 in
    let r_3 = clrbits_le32 plle_misc (2 ^ 14) r_2 in
    let aux =
      bit_or
        (bit_or (bit_and (bit_and (readl r_3 plle_aux) (not32 (2 ^ 6))) (not32 (2 ^ 4))) (2 ^ 31))
        (2 ^ 3) in
    let r_4 = writel aux plle_aux r_3 in writel (bit_or aux (2 ^ 24)) plle_aux r_4

-- Step 4 waits for bit 11 of the misc register; before its first reading `value` is the base word.
unfoldable pub tegra_plle_enable : List ℕ → List ℕ → Regs → Option Regs
tegra_plle_enable ref_readings readings r = do
  r_1 ← tegra_pllref_enable ref_readings r
  let r_2 = plle_program r_1
  let value = wait_lock (2 ^ 11) (readl r_2 plle_base) readings
  assert (not (bit_and value (2 ^ 11) == 0))
  some (plle_finish r_2)
