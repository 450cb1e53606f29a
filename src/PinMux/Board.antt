-- ===== src/PinMux/Board.antt =====
-- The start-up table of Include/Device/PinMux.h, which Drivers/PinMuxDxe/PinMux.c hands to
-- `pinmux_config_pingrp_table`, and the descriptor table of Drivers/PinMuxDxe/Tegra210/pinmux.c.
use nintendo_switch_pkg.Prelude.{
  ℕ, zero, suc, ◌+◌, ◌≤◌, ◌≡◌, refl, Bool, true, ◌&&◌, Option, none, some, List, [], ◌∷◌, arith,
  ◌==◌,
}
use nintendo_switch_pkg.PinMux.{func_rsvd1, mux_of, find_func, PingrpConfig}
use nintendo_switch_pkg.PinMux.Table.{PingrpDesc, tegra210_pingroups, nth_pingroup}

-- `PINCFG(pingrp, mux, pull, tri, io, od, e_io_hv)`, with the lock left at its default.
abbrev pincfg : ℕ → ℕ → ℕ → ℕ → ℕ → ℕ → ℕ → PingrpConfig
pincfg p m pupd tri input drain hv = record {
  pingrp = p;
  func = m;
  pull = pupd;
  tristate = tri;
  io = input;
  lock = 0;
  od = drain;
  e_io_hv = hv;
}

abbrev pub nintendo_switch_pingrps : List PingrpConfig
nintendo_switch_pingrps =
    pincfg 61 58 0 0 0 1 0
    ∷ pincfg 62 58 2 0 1 1 0
    ∷ pincfg 63 58 0 0 0 1 0
    ∷ pincfg 64 58 2 0 1 1 0
    ∷ pincfg 0 43 0 0 1 1 0
    ∷ pincfg 1 43 2 0 1 1 0
    ∷ pincfg 2 43 2 0 1 1 0
    ∷ pincfg 3 43 2 0 1 1 0
    ∷ pincfg 4 43 2 0 1 1 0
    ∷ pincfg 5 43 2 0 1 1 0
    ∷ pincfg 160 43 2 0 1 1 0
    ∷ pincfg 45 0 0 0 0 1 0
    ∷ pincfg 127 37 0 0 0 1 0
    ∷ pincfg 128 0 0 0 0 1 0
    ∷ pincfg 141 0 2 0 1 1 0
    ∷ pincfg 142 0 2 0 1 1 0
    ∷ pincfg 48 18 0 0 1 1 1
    ∷ pincfg 47 18 0 0 1 1 1
    ∷ pincfg 49 19 0 0 1 1 1
    ∷ pincfg 50 19 0 0 1 1 1
    ∷ pincfg 51 20 0 0 1 1 1
    ∷ pincfg 52 20 0 0 1 1 1
    ∷ pincfg 55 21 0 0 1 1 1
    ∷ pincfg 56 21 0 0 1 1 1
    ∷ pincfg 99 0 0 0 0 1 0
    ∷ pincfg 109 0 0 0 0 1 0
    ∷ pincfg 110 0 0 0 0 1 0
    ∷ []

-- PMUX_FUNC_RSVD<k + 1> is listed at place k + 1, if at all.
listed_at : ℕ → Option ℕ → Bool
listed_at m none = true
listed_at m (some n) = n == m

rsvd_in_place : PingrpDesc → Bool
unfolding listed_at
rsvd_in_place d =
    listed_at 1 (find_func d 71) && listed_at 2 (find_func d 72) && listed_at 3 (find_func d 73)

all_in_place : List PingrpDesc → Bool
unfolding rsvd_in_place
all_in_place [] = true
all_in_place (d ∷ ds) = rsvd_in_place d && all_in_place ds

nth-in_place :
    (ds : List PingrpDesc) (n : ℕ)
    → all_in_place ds ≡ true
    → rsvd_in_place (nth_pingroup n ds) ≡ true
unfolding all_in_place nth_pingroup find_func
nth-in_place [] n h = refl
nth-in_place (d ∷ ds) zero h = ground arith
nth-in_place (d ∷ ds) (suc n) h = nth-in_place ds n (ground arith)

table_in_place : all_in_place tegra210_pingroups ≡ true
unfolding all_in_place tegra210_pingroups find_func
table_in_place = refl

-- Where the descriptor of a pin lists PMUX_FUNC_RSVD<k + 1> for mux value m, m is k + 1; but the
-- driver programs k, the value of the function listed before it.
pub mux_of-rsvd :
    (pin k m : ℕ)
    → k ≤ 2
    → find_func (nth_pingroup pin tegra210_pingroups) (func_rsvd1 + k) ≡ some m
    → (m ≡ k + 1) × (mux_of pin (func_rsvd1 + k) ≡ some k)
unfolding mux_of rsvd_in_place listed_at
mux_of-rsvd pin zero m h e =
    (ground (arith, nth-in_place tegra210_pingroups pin table_in_place), refl)
mux_of-rsvd pin (suc zero) m h e =
    (ground (arith, nth-in_place tegra210_pingroups pin table_in_place), refl)
mux_of-rsvd pin (suc (suc zero)) m h e =
    (ground (arith, nth-in_place tegra210_pingroups pin table_in_place), refl)
mux_of-rsvd pin (suc (suc (suc k))) m h e = absurd (omega arith)
