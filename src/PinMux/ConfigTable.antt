-- ===== src/PinMux/ConfigTable.antt =====
-- `pinmux_config_pingrp_table` of Drivers/PinMuxDxe/pinmux-common.c on a table of pins.
use nintendo_switch_pkg.Prelude.{
  ℕ, ◌<◌, ◌≡◌, ◌≢◌, Bool, true, false, ◌&&◌, ◌||◌, not, Option, none, some, List, [], ◌∷◌, ltb, leb,
  ◌==◌, if◌then◌else◌,
}
use nintendo_switch_pkg.Prelude.Bits.{test_bit}
use nintendo_switch_pkg.Mmio.{Regs, readl}
use nintendo_switch_pkg.PinMux.{
  pingrp_count, func_count, func_default, pin_reg, mux_of, PingrpConfig,
}
use nintendo_switch_pkg.PinMux.Config.{configured}

found_or : Option ℕ → ℕ
found_or none = 4
found_or (some mux) = mux

-- The value programmed into the mux field; 4 where the search fails, and 0 where nothing is asked.
unfoldable pub mux_value : PingrpConfig → ℕ
unfolding found_or
mux_value c = if c.func == func_default then 0 else found_or (mux_of c.pingrp c.func)

unfoldable pub is_valid : PingrpConfig → Bool
is_valid c =
    ltb c.pingrp pingrp_count
    && ltb c.func func_count
    && ltb (mux_value c) 4
    && leb c.pull 2
    && leb c.tristate 1
    && leb c.io 2
    && leb c.lock 2
    && leb c.od 2
    && leb c.e_io_hv 2

pub has_pin : ℕ → List PingrpConfig → Bool
has_pin pin [] = false
has_pin pin (c ∷ cs) = c.pingrp == pin || has_pin pin cs

-- Each entry is in range, and no pin is listed twice.
unfoldable pub well_formed : List PingrpConfig → Bool
unfolding has_pin
well_formed [] = true
well_formed (c ∷ cs) = is_valid c && not (has_pin c.pingrp cs) && well_formed cs

-- The register of the configured pin holds what its entry asks for.
abbrev pub PinDone : Regs → Regs → PingrpConfig → Type 0
PinDone r r' c =
    (i : ℕ)
    → i < 32
    → test_bit (readl r' (pin_reg c.pingrp)) i
      ≡ configured c (mux_value c) i (test_bit (readl r (pin_reg c.pingrp)) i)

abbrev pub AllDone : Regs → Regs → List PingrpConfig → Type 0
AllDone r r' [] = Unit {0}
AllDone r r' (c ∷ cs) = PinDone r r' c × AllDone r r' cs

-- The table's pins are configured, and every other register is as before.
abbrev pub TableDone : List PingrpConfig → Regs → Option Regs → Type 0
TableDone cs r out =
    (r' : Regs) × (out ≡ some r')
    × AllDone r r' cs
    × ((a : ℕ) → ((pin : ℕ) → has_pin pin cs ≡ true → pin_reg pin ≢ a) → readl r' a ≡ readl r a)
