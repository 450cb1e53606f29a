-- ===== src/SdMmc/FxStarted.antt =====
-- SdFxInit, then SdFxInitFinalize, of Drivers/SdMmcDxe/MmcHostOp.c: the state that a card is read in.
use nintendo_switch_pkg.Prelude.{
  ℕ, ◌^◌, ◌≤◌, ◌<◌, ◌≡◌, refl, sym, ap, true, false, Option, some, arith, ◌∙◌,
}
use nintendo_switch_pkg.Prelude.Assert.{>>=-eq-some}
use nintendo_switch_pkg.SdMmc.{Host, Ret}
use nintendo_switch_pkg.SdMmc.Ident.{Driver, with_id, send, mmc_set_bus_width, mmc_set_clock}
use nintendo_switch_pkg.SdMmc.OpCond.{
  mmc_go_idle, mmc_send_if_cond, sd_send_op_cond, mmc_send_op_cond,
}
use nintendo_switch_pkg.SdMmc.Startup.{mmc_startup}
use nintendo_switch_pkg.SdMmc.CsdBounds.{IsCsd}
use nintendo_switch_pkg.SdMmc.StartupGeometry.{Started, mmc_startup-Started}
use nintendo_switch_pkg.SdMmc.FxInit.{
  sd_fx_init, sd_fx_init_finalize, start_up, set_has_init, sd_send_op_cond-Conditions,
}

some-inj {ℓ} : {A : Type ℓ} {a b : A} → ◌≡◌ {A = Option A} (some a) (some b) → a ≡ b
some-inj h = cc

module _ (h : Host) where
  -- The fields that the reset and the check for version 2 leave alone.
  record Same (st st' : Driver h.State) : Type 0 where
    mmc : st'.sd.mmc ≡ st.sd.mmc
    blk : st'.sd.blk ≡ st.sd.blk
    pending : st'.id.op_cond_pending ≡ st.id.op_cond_pending

  abbrev idle : Driver h.State → Driver h.State
  idle st = (mmc_go_idle h (mmc_set_clock h 1 (mmc_set_bus_width h 1 st))).state

  go_idle-Same : (st : Driver h.State) → Same st (idle st)
  unfolding mmc_go_idle send mmc_set_clock mmc_set_bus_width
  go_idle-Same st = record { mmc = ground arith; blk = ground arith; pending = ground arith }

  if_cond-Same : (st : Driver h.State) → Same st (mmc_send_if_cond h st).state
  unfolding mmc_send_if_cond send
  if_cond-Same st = record { mmc = ground arith; blk = ground arith; pending = ground arith }

  -- The call that waits for the card, after those two.
  abbrev waited : Driver h.State → Ret (Driver h.State)
  waited st = sd_send_op_cond h (mmc_send_if_cond h (idle st)).state

  mmc_send_op_cond-pending :
      (st : Driver h.State)
      → (mmc_send_op_cond h st).value ≡ 0
      → (mmc_send_op_cond h st).state.id.op_cond_pending ≡ true
  unfolding mmc_send_op_cond
  mmc_send_op_cond-pending st ok = ground arith

  -- Where no operating condition is pending, the card answered as an SD card.
  sd_fx_init-waited :
      (st : Driver h.State)
      → (sd_fx_init h st).value ≡ 0
      → (sd_fx_init h st).state.id.op_cond_pending ≡ false
      → ((waited st).value ≡ 0)
        × ((sd_fx_init h st).state
            ≡ with_id (record ((waited st).state.id) { init_in_progress = 1 }) (waited st).state)
  unfolding sd_fx_init
  sd_fx_init-waited st ok none_pending = ground (arith, mmc_send_op_cond-pending (waited st).state)

  finalize-start_up :
      (fuel scr status ssr : ℕ) (st : Driver h.State)
      → st.id.op_cond_pending ≡ false
      → sd_fx_init_finalize h fuel scr status ssr st
        ≡ start_up h scr status ssr (with_id (record (st.id) { init_in_progress = 0 }) st)
  unfolding sd_fx_init_finalize
  finalize-start_up fuel scr status ssr st none_pending = ground arith

  start_up-mmc_startup :
      (scr status ssr : ℕ) (st : Driver h.State) (r : Ret (Driver h.State))
      → start_up h scr status ssr st ≡ some r
      → (out : Ret (Driver h.State)) × (mmc_startup h scr status ssr st ≡ some out)
        × (r ≡ set_has_init h out)
  unfolding start_up
  start_up-mmc_startup scr status ssr st r e =
      let (out, started, finished) = >>=-eq-some _ _ e in (out, started, sym (some-inj finished))

  finalized-Started :
      (st : Driver h.State) (out : Ret (Driver h.State))
      → (out.value ≡ 0) × Started h out.state
      → ((set_has_init h out).value ≡ 0)
        × ((set_has_init h out).state.id.has_init ≡ 1)
        × Started h (set_has_init h out).state
  unfolding set_has_init
  finalized-Started st out (ok, started) = (ok, rw ok refl, started)

  -- For a driver whose records are as SdControllerProbe leaves them, SdFxInit followed by
  -- SdFxInitFinalize: if the first succeeds and no operating condition is pending after it, and the
  -- second returns with a CSD that the SD specification allows, then it succeeds, has_init is 1, and
  -- the block device has blocks of 512 bytes, as many as the CSD's capacity has, with a geometry
  -- whose block addresses fit the commands of mmc_bread.
  pub sd_fx_init_finalize-Started :
      (fuel scr status ssr : ℕ) (st : Driver h.State) (r : Ret (Driver h.State))
      → st.sd.mmc.ddr_mode ≡ false
      → 1 ≤ st.sd.mmc.b_max
      → st.sd.mmc.b_max < 2 ^ 32
      → st.sd.blk.hwpart ≡ 0
      → (sd_fx_init h st).value ≡ 0
      → (sd_fx_init h st).state.id.op_cond_pending ≡ false
      → sd_fx_init_finalize h fuel scr status ssr (sd_fx_init h st).state ≡ some r
      → IsCsd r.state.sd.mmc.high_capacity r.state.id.csd_1 r.state.id.csd_2
      → (r.value ≡ 0) × (r.state.id.has_init ≡ 1) × Started h r.state
  unfolding set_has_init
  sd_fx_init_finalize-Started fuel scr status ssr st r single pos fits user ok none_pending e v =
      let (waited_ok, state) = sd_fx_init-waited st ok none_pending in
      let k = sd_send_op_cond-Conditions h (mmc_send_if_cond h (idle st)).state in
      let i = go_idle-Same st in
      let c = if_cond-Same (idle st) in
      let begin =
        with_id (record ((sd_fx_init h st).state.id) { init_in_progress = 0 })
          (sd_fx_init h st).state in
      let (out, started, finished) =
        start_up-mmc_startup scr status ssr begin r
          (sym (finalize-start_up fuel scr status ssr (sd_fx_init h st).state none_pending) ∙ e) in
      let mmc_state : begin.sd.mmc ≡ (waited st).state.sd.mmc =
        ap (λ (d : Driver h.State). d.sd.mmc) state in
      let blk_state : begin.sd.blk ≡ (waited st).state.sd.blk =
        ap (λ (d : Driver h.State). d.sd.blk) state in
      let mmc_before : (mmc_send_if_cond h (idle st)).state.sd.mmc ≡ st.sd.mmc = c.mmc ∙ i.mmc in
      let b_max : begin.sd.mmc.b_max ≡ st.sd.mmc.b_max =
        ap (λ m. m.b_max) mmc_state ∙ k.b_max ∙ ap (λ m. m.b_max) mmc_before in
      let v' = rw finished at v in
      let main =
        mmc_startup-Started h scr status ssr begin out started
          (ap (λ m. m.ddr_mode) mmc_state ∙ k.ddr_mode ∙ ap (λ m. m.ddr_mode) mmc_before ∙ single)
          (rw b_max pos) (rw b_max fits)
          (ap (λ b. b.hwpart) (blk_state ∙ k.blk ∙ c.blk ∙ i.blk) ∙ user) v' in
      rw finished (finalized-Started st out main)
