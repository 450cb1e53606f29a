-- ===== src/Usb/Tests.antt =====
-- Runs of the USB host controller with an oscillator of 38.4 MHz.
use nintendo_switch_pkg.Prelude.{
  ◌≡◌, ◌⊎◌, refl, true, some, ltb, ◌&&◌, ◌||◌, ◌==◌, if◌then◌else◌, arith,
}
use nintendo_switch_pkg.Prelude.Bits.{test_bit, shr}
use nintendo_switch_pkg.Mmio.{Regs, readl}
use nintendo_switch_pkg.Mmio.Field.{extract_field}
use nintendo_switch_pkg.Clock.Osc.{osc_ctrl, clock_get_osc_freq}
use nintendo_switch_pkg.Clock.Pll.{pll_base}
use nintendo_switch_pkg.Usb.{utmip_debounce_cfg0}
use nintendo_switch_pkg.Usb.Utmi.{start_phy}
use nintendo_switch_pkg.Usb.Host.{
  Readings, wait_phy, success, device_error, Configured, priv, config_controller,
}
use nintendo_switch_pkg.Usb.Started.{IsRunning, Keeps}
use nintendo_switch_pkg.Usb.Finished.{IsHost}
use nintendo_switch_pkg.Usb.Powered.{pllu_word, IsPowered}
use nintendo_switch_pkg.Usb.Ends.{ClockSeen, NoClock, config_controller-ends}
use nintendo_switch_pkg.Usb.Debounce.{debounce_of, start_phy-debounce}

abbrev fast : Regs
fast = λ a. if a == osc_ctrl then 0x50000000 else 0

-- The clock of the PHY is valid in the third round, and nothing drives the bus.
abbrev third : Readings
third = record { phy = λ k. if k == 2 then 0x80 else 0; vbus = 0 }

config_controller-ends_example :
    (c : Configured) × (config_controller third fast ≡ some c)
    × IsRunning c.regs
    × ((ClockSeen third
          × (c.status ≡ success)
          × (c.config.clk_done ≡ true)
          × IsHost c.regs
          × (readl c.regs (pll_base 4) ≡ pllu_word (clock_get_osc_freq fast))
          × IsPowered third.vbus fast c.regs)
        ⊎ (NoClock third × (c.status ≡ device_error) × Keeps fast c.regs))
config_controller-ends_example = config_controller-ends third fast

start_phy-debounce_example :
    (q : Regs) × (start_phy priv 0 fast ≡ some q)
    × (test_bit (readl q (utmip_debounce_cfg0 0x7d000000)) 16 ≡ (
        let osc = clock_get_osc_freq fast in
        if ltb 16 16
        then test_bit (debounce_of osc) 16
        else (test_bit (readl fast (utmip_debounce_cfg0 0x7d000000)) 16 || (osc == 4 && 16 == 16))))
start_phy-debounce_example = start_phy-debounce fast 16 (omega arith)

third_round : wait_phy third.phy 100000 0 ≡ true
unfolding wait_phy
third_round = refl

oscillator : clock_get_osc_freq fast ≡ 4
unfolding clock_get_osc_freq readl extract_field shr
oscillator = refl
