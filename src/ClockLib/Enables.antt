-- ===== src/ClockLib/Enables.antt =====
-- What the calls of ClockManagement.c for the UARTs, the I2C controllers and CL_DVFS leave in the clock
-- controller.
use nintendo_switch_pkg.Prelude.{ℕ, ◌≤◌, ◌<◌, ◌≡◌, ◌≢◌, ◌⊎◌, false, true}
use nintendo_switch_pkg.Mmio.{Regs, readl}
use nintendo_switch_pkg.ClockLib.{LegacyClock}
use nintendo_switch_pkg.ClockLib.Running.{at_clock, source_word, Bits}
use nintendo_switch_pkg.ClockLib.Devices.{success, invalid_parameter, Enabled}

-- A clock is enabled and out of reset, with its source if it has one, and nothing else has changed.
abbrev pub Runs : LegacyClock → Regs → Regs → Type 0
Runs clk r r' =
    Bits clk false true r r'
    × (clk.source ≢ 0 → readl r' (at_clock clk.source) ≡ source_word clk)
    × ((a : ℕ)
        → at_clock clk.reset ≢ a
        → at_clock clk.enable ≢ a
        → at_clock clk.source ≢ a
        → readl r' a ≡ readl r a)

-- The clock of a device runs, or there is no such device and no register has changed.
abbrev pub Enables : ℕ → (ℕ → LegacyClock) → ℕ → Regs → Enabled → Type 0
Enables most clocks i r e =
    ((e.status ≡ success) × (i ≤ most) × Runs (clocks i) r e.regs)
    ⊎ ((e.status ≡ invalid_parameter) × (most < i) × (e.regs ≡ r))
