-- ===== src/SdMmc/ProbeTests.antt =====
-- The probe of the SD host controller at PLLP of 408 MHz, with all registers clear, so that a card is
-- detected.
use nintendo_switch_pkg.Prelude.{◌%◌, ◌^◌, ◌≡◌, ◌⊎◌, refl, true, false, some, arith}
use nintendo_switch_pkg.Prelude.Bits.{shr}
use nintendo_switch_pkg.SdMmc.Probe.{
  success, device_error, not_found, Probed, is_err_value, sd_controller_probe,
}
use nintendo_switch_pkg.Mmio.{Regs, readl}
use nintendo_switch_pkg.Clock.Rate.{get_rate_from_divider, clk_get_divider}
use nintendo_switch_pkg.Clock.BestDivider.{
  Divided, is_positive, lt_int, divided_parent, rate_error, try_shifts, find_best_divider,
}
use nintendo_switch_pkg.Clock.PeriphRate.{divider_seen}
use nintendo_switch_pkg.SdMmc.ProbeEnds.{IsClocked, IsPowered, is_absent, sd_controller_probe-ends}

abbrev fast : Divided
fast = record { divider = 39; extra_div = 1 }

abbrev clear : Regs
clear a = 0

find_fast : find_best_divider 8 408000000 20000000 ≡ some fast
unfolding find_best_divider try_shifts is_positive lt_int divided_parent shr rate_error
    clk_get_divider get_rate_from_divider
find_fast = refl

sd_controller_probe-ends_example :
    let rate = get_rate_from_divider 408000000 (divider_seen 14 39) % 2 ^ 32 in
    (p : Probed) × (sd_controller_probe (λ id. 408000000) clear ≡ some p)
    × ((p.status ≡ device_error) × (is_err_value rate ≡ true) × IsClocked true p.regs
        ⊎ (p.status ≡ not_found) × (is_absent clear ≡ true) × IsClocked false p.regs
        ⊎ (p.status ≡ success)
          × (is_absent clear ≡ false)
          × IsClocked false p.regs
          × IsPowered clear p.regs)
unfolding readl
sd_controller_probe-ends_example =
    sd_controller_probe-ends fast (λ id. 408000000) clear (omega arith) find_fast (omega arith)
