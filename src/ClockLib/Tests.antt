-- ===== src/ClockLib/Tests.antt =====
-- UART A, whose registers hold nothing before, and SDMMC_1 on hardware that reads as 0.
use nintendo_switch_pkg.Prelude.{ℕ, ◌≡◌, ◌≢◌, true, false, [], arith}
use nintendo_switch_pkg.SdMmc.Controller.{Env}
use nintendo_switch_pkg.ClockLib.Sdmmc.{sdmmc_bit, clock_sdmmc_disable}
use nintendo_switch_pkg.ClockLib.FallThrough.{wrote, group, clock_sdmmc_disable-wrote}
use nintendo_switch_pkg.Mmio.{Regs, readl}
use nintendo_switch_pkg.ClockLib.{clock_uart, legacy_clock_enable}
use nintendo_switch_pkg.ClockLib.Enables.{Enables}
use nintendo_switch_pkg.ClockLib.Running.{
  at_clock, source_word, clock_uart-IsClock, Bits, legacy_clock_enable-Bits,
}

abbrev blank : Regs
blank = λ a. 0

legacy_clock_enable-Bits_example :
    Bits (clock_uart 0) false true blank (legacy_clock_enable (clock_uart 0) blank)
    × ((clock_uart 0).source ≢ 0
        → readl (legacy_clock_enable (clock_uart 0) blank) (at_clock (clock_uart 0).source)
          ≡ source_word (clock_uart 0))
    × ((a : ℕ)
        → at_clock (clock_uart 0).reset ≢ a
        → at_clock (clock_uart 0).enable ≢ a
        → at_clock (clock_uart 0).source ≢ a
        → readl (legacy_clock_enable (clock_uart 0) blank) a ≡ readl blank a)
legacy_clock_enable-Bits_example =
    legacy_clock_enable-Bits (clock_uart 0) (clock_uart-IsClock 0) blank

abbrev silent : Env
silent = record { reg = λ width a past. 0; rate = λ hz past. 0; time = λ past. 0 }

-- SDMMC_4, by a call for SDMMC_1.
clock_sdmmc_disable-wrote_example :
    let after = (clock_sdmmc_disable silent 0 []).history in
    (wrote (group 0x300 0x310 3) (sdmmc_bit 3) after ≡ true)
    × (wrote (group 0x324 0x334 3) (sdmmc_bit 3) after ≡ true)
clock_sdmmc_disable-wrote_example =
    clock_sdmmc_disable-wrote silent 0 3 [] (omega arith) (omega arith)
