-- ===== src/PinMux/Table.antt =====
-- Drivers/PinMuxDxe/Tegra210/pinmux.c: the functions that each pin group can be switched to.
use nintendo_switch_pkg.Prelude.{ℕ, zero, suc, List, [], ◌∷◌}

-- `struct pmux_pingrp_desc`: PMUX_FUNC_* for the mux values 0 to 3.
pub record PingrpDesc : Type 0 where
  pub f0 : ℕ
  pub f1 : ℕ
  pub f2 : ℕ
  pub f3 : ℕ

abbrev pin : ℕ → ℕ → ℕ → ℕ → PingrpDesc
pin a b c d = record { f0 = a; f1 = b; f2 = c; f3 = d }

-- `PIN_RESERVED` is `{}`, so its four entries are 0, PMUX_FUNC_DEFAULT.
abbrev pub pin_reserved : PingrpDesc
pin_reserved = pin 0 0 0 0

unfoldable pub tegra210_pingroups : List PingrpDesc
tegra210_pingroups =
    pin 43 71 72 73
    ∷ pin 43 52 72 73
    ∷ pin 43 52 72 73
    ∷ pin 43 52 72 73
    ∷ pin 43 52 72 73
    ∷ pin 43 71 72 73
    ∷ pin_reserved
    ∷ pin 44 71 72 73
    ∷ pin 44 71 72 73
    ∷ pin 44 71 72 73
    ∷ pin 44 71 72 73
    ∷ pin 44 71 72 73
    ∷ pin 44 71 72 73
    ∷ pin_reserved
    ∷ pin 34 71 72 73
    ∷ pin 34 71 72 73
    ∷ pin 33 71 72 73
    ∷ pin 35 71 72 73
    ∷ pin 35 71 72 73
    ∷ pin 42 71 72 73
    ∷ pin 50 71 72 73
    ∷ pin 50 71 72 73
    ∷ pin 50 71 72 73
    ∷ pin 50 71 72 73
    ∷ pin 50 71 72 73
    ∷ pin 51 16 72 73
    ∷ pin 51 16 72 73
    ∷ pin 51 16 72 73
    ∷ pin 51 16 72 73
    ∷ pin 51 71 72 73
    ∷ pin 53 71 72 73
    ∷ pin 53 71 72 73
    ∷ pin 53 71 72 73
    ∷ pin 53 71 72 73
    ∷ pin 41 71 72 73
    ∷ pin 41 71 72 73
    ∷ pin 41 71 72 73
    ∷ pin 41 71 72 73
    ∷ pin 41 71 72 73
    ∷ pin 41 71 72 73
    ∷ pin_reserved
    ∷ pin 12 25 72 73
    ∷ pin 12 25 72 73
    ∷ pin 13 25 72 73
    ∷ pin 13 25 72 73
    ∷ pin 14 28 72 73
    ∷ pin 14 28 72 73
    ∷ pin 18 71 72 73
    ∷ pin 18 71 72 73
    ∷ pin 19 71 72 73
    ∷ pin 19 71 72 73
    ∷ pin 20 71 72 73
    ∷ pin 20 71 72 73
    ∷ pin 20 22 72 73
    ∷ pin 20 22 72 73
    ∷ pin 21 71 72 73
    ∷ pin 21 71 72 73
    ∷ pin 57 71 72 73
    ∷ pin 57 71 72 73
    ∷ pin 57 71 72 73
    ∷ pin 57 71 72 73
    ∷ pin 58 26 49 56
    ∷ pin 58 26 49 56
    ∷ pin 58 26 72 56
    ∷ pin 58 26 72 56
    ∷ pin 59 53 72 73
    ∷ pin 59 53 72 73
    ∷ pin 59 53 72 73
    ∷ pin 59 53 72 73
    ∷ pin 60 56 72 73
    ∷ pin 60 56 72 73
    ∷ pin 60 56 72 73
    ∷ pin 60 56 72 73
    ∷ pin 23 71 72 73
    ∷ pin 23 71 72 73
    ∷ pin 23 71 72 73
    ∷ pin 23 71 72 73
    ∷ pin 24 71 72 73
    ∷ pin 24 71 72 73
    ∷ pin 24 71 72 73
    ∷ pin 24 71 72 73
    ∷ pin 27 71 72 73
    ∷ pin 27 71 72 73
    ∷ pin 27 71 72 73
    ∷ pin 27 71 72 73
    ∷ pin 17 71 72 73
    ∷ pin 17 71 72 73
    ∷ pin 32 71 72 73
    ∷ pin 7 71 72 73
    ∷ pin 46 3 72 73
    ∷ pin 2 71 72 73
    ∷ pin 54 71 72 73
    ∷ pin 9 71 72 73
    ∷ pin 36 71 72 73
    ∷ pin 45 71 72 73
    ∷ pin 8 71 72 73
    ∷ pin 1 71 72 73
    ∷ pin 70 6 52 73
    ∷ pin 70 6 52 73
    ∷ pin 70 71 52 73
    ∷ pin 70 71 52 73
    ∷ pin 70 71 72 73
    ∷ pin 5 71 72 73
    ∷ pin 15 71 72 73
    ∷ pin 49 71 72 73
    ∷ pin 49 71 72 73
    ∷ pin 61 71 72 73
    ∷ pin 61 71 72 73
    ∷ pin 15 71 72 73
    ∷ pin 70 71 72 73
    ∷ pin 70 71 72 73
    ∷ pin 70 71 72 73
    ∷ pin 70 58 49 73
    ∷ pin 70 58 49 73
    ∷ pin 70 71 72 73
    ∷ pin 70 71 72 73
    ∷ pin 70 71 72 73
    ∷ pin 70 71 72 73
    ∷ pin 70 71 72 73
    ∷ pin 70 71 72 73
    ∷ pin 62 71 72 73
    ∷ pin 68 63 72 73
    ∷ pin 68 64 72 73
    ∷ pin 65 71 72 73
    ∷ pin 66 71 72 73
    ∷ pin 67 71 72 73
    ∷ pin 10 71 72 73
    ∷ pin 10 37 47 73
    ∷ pin 70 71 72 73
    ∷ pin 70 71 72 73
    ∷ pin 11 71 72 73
    ∷ pin 11 38 72 48
    ∷ pin 70 71 72 73
    ∷ pin 70 71 72 73
    ∷ pin 55 71 72 73
    ∷ pin 70 71 72 73
    ∷ pin 70 71 72 73
    ∷ pin 70 71 72 73
    ∷ pin 70 71 72 73
    ∷ pin 70 71 72 73
    ∷ pin 70 71 72 73
    ∷ pin 70 71 72 73
    ∷ pin 70 71 72 73
    ∷ pin 70 71 72 73
    ∷ pin 70 71 72 73
    ∷ pin 42 71 72 73
    ∷ pin 70 28 39 73
    ∷ pin 70 28 40 73
    ∷ pin 70 71 72 73
    ∷ pin 30 29 72 73
    ∷ pin 30 29 72 73
    ∷ pin 30 29 72 73
    ∷ pin 30 29 72 73
    ∷ pin 31 71 72 73
    ∷ pin 31 71 72 73
    ∷ pin 31 71 72 73
    ∷ pin 31 71 72 73
    ∷ pin 70 71 72 73
    ∷ pin 46 71 72 73
    ∷ pin 69 71 72 73
    ∷ pin 69 43 72 73
    ∷ pin 44 4 72 73
    ∷ pin 44 71 72 73
    ∷ pin 43 71 72 73
    ∷ pin 46 71 72 73
    ∷ []

unfoldable pub nth_pingroup : ℕ → List PingrpDesc → PingrpDesc
nth_pingroup n [] = pin_reserved
nth_pingroup zero (d ∷ ds) = d
nth_pingroup (suc n) (d ∷ ds) = nth_pingroup n ds
