-- ===== src/Usb/Ends.antt =====
-- How ConfigController of Drivers/EhciPciEmulationDxe/PciEmulation.c ends.
use nintendo_switch_pkg.Prelude.{
  ℕ, zero, suc, ◌+◌, ◌^◌, ◌<◌, ◌≡◌, ◌⊎◌, refl, inl, inr, true, false, some, arith, Bool-cases, ◌∙◌,
  ap,
}
use nintendo_switch_pkg.Prelude.Int.{pos, negsuc}
use nintendo_switch_pkg.Prelude.Bits.{test_bit, bit_and-pow_eq_zero}
use nintendo_switch_pkg.Mmio.{Regs, readl}
use nintendo_switch_pkg.Clock.Osc.{clock_get_osc_freq}
use nintendo_switch_pkg.Clock.Pll.{pll_base}
use nintendo_switch_pkg.Clock.Protocol.{ub_get_osc_freq}
use nintendo_switch_pkg.Usb.Timing.{pll_parameter}
use nintendo_switch_pkg.Usb.Utmi.{start_phy, get_pll_timing}
use nintendo_switch_pkg.Usb.Host.{
  Readings, wait_phy, finish_phy, init_utmi_usb_controller, set_up_vbus, is_allowed,
  init_controller, finish_common, usb_common_init, config_clock, priv, success, device_error,
  Configured, finish_config, config_controller,
}
use nintendo_switch_pkg.Usb.Started.{Keeps, Keeps-trans, IsRunning, same_osc, start_phy-IsRunning}
use nintendo_switch_pkg.Usb.Finished.{IsHost, finish_phy-IsHost}
use nintendo_switch_pkg.Usb.Powered.{
  powered, pllu_word, IsPowered, Same, set_up_vbus-IsPowered, config_clock-word,
}

-- Some of the rounds from `k` on sees the clock of the PHY, or none of them does.
wait_phy-cases :
    (phy : ℕ → ℕ) (n k : ℕ)
    → ((j : ℕ) × (j < n) × (test_bit (phy (k + j)) 7 ≡ true) × (wait_phy phy n k ≡ true))
      ⊎ (((j : ℕ) → j < n → test_bit (phy (k + j)) 7 ≡ false) × (wait_phy phy n k ≡ false))
unfolding wait_phy
wait_phy-cases phy zero k = inr (λ j h. absurd (omega arith), refl)
wait_phy-cases phy (suc n) k = elim (Bool-cases (test_bit (phy k) 7)) [
  | inl valid ↦
      let at : k + 0 ≡ k = omega arith in
      inl (0, omega arith, rw at valid, rw (bit_and-pow_eq_zero 7 (phy k), valid) refl)
  | inr wait ↦ elim (wait_phy-cases phy n (k + 1)) [
    | inl (j, small, valid, e) ↦
        let at : k + suc j ≡ k + 1 + j = omega arith in
        inl (suc j, omega arith, rw at valid, rw (bit_and-pow_eq_zero 7 (phy k), wait) e)
    | inr (never, e) ↦
        inr
          (λ j small. rounds phy k j n small wait never, rw (bit_and-pow_eq_zero 7 (phy k), wait) e)
  ]
]
  where
    rounds :
        (phy : ℕ → ℕ) (k j n : ℕ)
        → j < suc n
        → test_bit (phy k) 7 ≡ false
        → ((i : ℕ) → i < n → test_bit (phy (k + 1 + i)) 7 ≡ false)
        → test_bit (phy (k + j)) 7 ≡ false
    rounds phy k zero n small wait never = let at : k + 0 ≡ k = omega arith in rw at wait
    rounds phy k (suc j) n small wait never =
        let at : k + suc j ≡ k + 1 + j = omega arith in rw at (never j (omega arith))

priv_fields :
    (is_allowed priv 0 ≡ true) × (priv.utmi ≡ true) × (priv.type ≡ 3) × (priv.clk_done ≡ false)
unfolding is_allowed priv
priv_fields = (refl, refl, refl, refl)

Same-IsRunning : {r q : Regs} → Same r q → IsRunning r → IsRunning q
Same-IsRunning s run = record {
  phy_reset = rw s.susp run.phy_reset;
  phy_enabled = rw s.susp run.phy_enabled;
  enabled = rw s.enable run.enabled;
  reset = rw s.reset run.reset;
}

Same-IsHost : {r q : Regs} → Same r q → IsHost r → IsHost q
Same-IsHost s h = record {
  mode = λ i small. rw s.mode (h.mode i small);
  utmi = λ i high. rw s.devlc (h.utmi i high);
}

-- The pin through the start of the PHY and of PLLU, which leave it alone.
IsPowered-between :
    (vbus : ℕ) {r s q p : Regs}
    → Keeps r s
    → IsPowered vbus s q
    → IsPowered (2 ^ 26) q p
    → IsPowered vbus r p
unfolding test_bit
IsPowered-between vbus k on off = record {
  mode = off.mode ∙ on.mode ∙ ap (powered vbus) k.mode;
  direction = off.direction ∙ on.direction ∙ ap (powered vbus) k.direction;
  level = off.level ∙ on.level ∙ ap (powered vbus) k.level;
}

usb_common_init-returns :
    (seen : Readings) (r r_1 r_3 : Regs)
    → start_phy priv 0 r ≡ some r_1
    → wait_phy seen.phy 100000 0 ≡ true
    → set_up_vbus seen priv 0 (finish_phy priv 0 r_1) ≡ some r_3
    → usb_common_init seen priv 0 r
      ≡ some (record { ret = pos 0; config = record priv { init_type = 0 }; regs = r_3 })
unfolding usb_common_init init_controller init_utmi_usb_controller finish_common
usb_common_init-returns seen r r_1 r_3 e_1 w e_3 =
    let (allowed, utmi, type, done) = priv_fields in simp (allowed, utmi, e_1, w, e_3)

usb_common_init-timed_out :
    (seen : Readings) (r r_1 : Regs)
    → start_phy priv 0 r ≡ some r_1
    → wait_phy seen.phy 100000 0 ≡ false
    → usb_common_init seen priv 0 r ≡ some (record { ret = negsuc 109; config = priv; regs = r_1 })
unfolding usb_common_init init_controller init_utmi_usb_controller finish_common
usb_common_init-timed_out seen r r_1 e_1 w =
    let (allowed, utmi, type, done) = priv_fields in simp (allowed, utmi, e_1, w)

finish_config-clocked :
    (r_3 r_4 : Regs)
    → config_clock (pll_parameter 3 (clock_get_osc_freq r_3)) r_3 ≡ some r_4
    → finish_config (record { ret = pos 0; config = record priv { init_type = 0 }; regs = r_3 })
      ≡ some (record {
        status = success;
        config = record priv { init_type = 0; clk_done = true };
        regs = r_4;
      })
unfolding finish_config get_pll_timing ub_get_osc_freq
finish_config-clocked r_3 r_4 e_4 =
    let (allowed, utmi, type, done) = priv_fields in simp (done, type, e_4)

from_zero : (j : ℕ) → 0 + j ≡ j
from_zero j = omega arith

-- One of the 100000 rounds of the wait sees the clock of the PHY valid, bit 7.
abbrev pub ClockSeen : Readings → Type 0
ClockSeen seen = (j : ℕ) × (j < 100000) × (test_bit (seen.phy j) 7 ≡ true)

abbrev pub NoClock : Readings → Type 0
NoClock seen = (j : ℕ) → j < 100000 → test_bit (seen.phy j) 7 ≡ false

-- ConfigController returns, and ends in one of two ways. Either a round of the wait sees the clock of the
-- PHY valid; then it succeeds, the controller is enabled and out of reset, its PHY enabled and out of
-- reset and the UTMI, its mode is host, PLLU has the word of the oscillator, and pin 4 of port CC is a
-- high output, or as before if the bus is driven already. Or no round does; then it is a device error,
-- and PLLU and the pin are as before, but the controller runs and its PHY is out of reset.
pub config_controller-ends :
    (seen : Readings) (r : Regs)
    → (c : Configured) × (config_controller seen r ≡ some c)
      × IsRunning c.regs
      × ((ClockSeen seen
            × (c.status ≡ success)
            × (c.config.clk_done ≡ true)
            × IsHost c.regs
            × (readl c.regs (pll_base 4) ≡ pllu_word (clock_get_osc_freq r))
            × IsPowered seen.vbus r c.regs)
          ⊎ (NoClock seen × (c.status ≡ device_error) × Keeps r c.regs))
unfolding config_controller finish_config
config_controller-ends seen r =
    let (r_1, e_1, run_1, keep_1) = start_phy-IsRunning r in
    elim (wait_phy-cases seen.phy 100000 0) [
      | inr (never, w) ↦ (
        record { status = device_error; config = priv; regs = r_1 },
        rw (usb_common_init-timed_out seen r r_1 e_1 w) refl,
        run_1,
        inr (λ j small. rw (from_zero j) at (never j small), refl, keep_1),
      )
      | inl (j, small, valid, w) ↦
          let (run_2, host, keep_2) = finish_phy-IsHost r_1 run_1 in
          let (r_3, e_3, on, same_3) = set_up_vbus-IsPowered seen (finish_phy priv 0 r_1) in
          let (r_4, e_4, word, same_4, off) =
            config_clock-word (pll_parameter 3 (clock_get_osc_freq r_3)) r_3 in
          let keep = Keeps-trans keep_1 keep_2 in
          (
            record {
              status = success;
              config = record priv { init_type = 0; clk_done = true };
              regs = r_4;
            },
            rw (usb_common_init-returns seen r r_1 r_3 e_1 w e_3)
                (finish_config-clocked r_3 r_4 e_4),
            Same-IsRunning same_4 (Same-IsRunning same_3 run_2),
            inl (
              (j, small, rw (from_zero j) at valid),
              refl,
              refl,
              Same-IsHost same_4 (Same-IsHost same_3 host),
              word ∙ ap pllu_word (same_osc _ _ same_3.osc ∙ same_osc _ _ keep.osc),
              IsPowered-between seen.vbus keep on off,
            ),
          )
    ]
