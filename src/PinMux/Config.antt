-- ===== src/PinMux/Config.antt =====
-- `pinmux_config_pingrp` and `pinmux_config_pingrp_table` of
-- Drivers/PinMuxDxe/pinmux-common.c: a whole pin, and a whole table of pins.
use nintendo_switch_pkg.Prelude.{ℕ, ◌-◌, ◌≤◌, ◌<◌, ◌≡◌, ◌⊎◌, Bool, some, ltb, ◌==◌, if◌then◌else◌}
use nintendo_switch_pkg.Prelude.Bits.{test_bit}
use nintendo_switch_pkg.PinMux.{pingrp_count, func_count, func_default, mux_of, PingrpConfig}
use nintendo_switch_pkg.PinMux.Layout.{func_bits, pull_bits, flag_bit, optional_bit}

-- The ranges that the assertions ask for; `mux` is the value programmed for the function.
pub record IsValid (c : PingrpConfig) (mux : ℕ) : Type 0 where
  pub pingrp_in : c.pingrp < pingrp_count
  pub func_in : c.func < func_count
  pub mux_in : mux < 4
  pub func_found : (c.func ≡ func_default) ⊎ (mux_of c.pingrp c.func ≡ some mux)
  pub pull_in : c.pull ≤ 2
  pub tristate_in : c.tristate ≤ 1
  pub io_in : c.io ≤ 2
  pub lock_in : c.lock ≤ 2
  pub od_in : c.od ≤ 2
  pub e_io_hv_in : c.e_io_hv ≤ 2

-- Bit `i` of the pin's register as the configuration asks for it, from the bit `b` before.
abbrev pub configured : PingrpConfig → ℕ → ℕ → Bool → Bool
configured c mux i b =
    if ltb i 2
    then (if c.func == func_default then b else test_bit mux i)
    else if ltb i 4
    then test_bit c.pull (i - 2)
    else if i == 4
    then c.tristate == 1
    else if i == 6
    then (if c.io == 2 then b else c.io == 1)
    else if i == 7
    then (if c.lock == 0 then b else c.lock == 2)
    else if i == 10
    then (if c.e_io_hv == 0 then b else c.e_io_hv == 2)
    else if i == 11
    then (if c.od == 0 then b else c.od == 2)
    else b

abbrev in_turn : PingrpConfig → ℕ → ℕ → Bool → Bool
in_turn c mux i b = optional_bit 10 (c.e_io_hv == 0) (c.e_io_hv == 2) i (
    optional_bit 11 (c.od == 0) (c.od == 2) i (
      optional_bit 7 (c.lock == 0) (c.lock == 2) i (
        optional_bit 6 (c.io == 2) (c.io == 1) i
          (flag_bit 4 (c.tristate == 1) i (pull_bits c.pull i (func_bits c.func mux i b))))))
