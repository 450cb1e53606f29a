-- ===== src/SdMmc/FxInit.antt =====
-- SdFxInit and SdFxInitFinalize of Drivers/SdMmcDxe/MmcHostOp.c, and what the operating conditions
-- say of the card.
use nintendo_switch_pkg.Prelude.{
  ℕ, zero, suc, ◌≡◌, ◌≢◌, refl, ap, inl, inr, true, false, Option, none, some, arith, ◌==◌,
  if◌then◌else◌, Bool-cases,
}
use nintendo_switch_pkg.Prelude.Assert.{◌>>=◌}
use nintendo_switch_pkg.SdMmc.{Cmd, Outcome, Host, Ret}
use nintendo_switch_pkg.SdMmc.Command.{etimedout}
use nintendo_switch_pkg.SdMmc.Ident.{
  Driver, is_sd, with_host, with_id, done, send, mmc_set_bus_width, mmc_set_clock, eopnotsupp,
  sd_version_2,
}
use nintendo_switch_pkg.SdMmc.OpCond.{
  powered_up, has_high_capacity, sd_powered_up, mmc_go_idle, mmc_send_if_cond, poll_op_cond,
  sd_send_op_cond, mmc_send_op_cond, mmc_complete_op_cond,
}
use nintendo_switch_pkg.SdMmc.Startup.{mmc_startup}

module _ (h : Host) where
  -- The results of the reset and of the check for version 2 are not looked at.
  unfoldable pub sd_fx_init : Driver h.State → Ret (Driver h.State)
  sd_fx_init st =
      let idle = mmc_go_idle h (mmc_set_clock h 1 (mmc_set_bus_width h 1 st)) in
      let r = sd_send_op_cond h (mmc_send_if_cond h idle.state).state in
      let mmc = mmc_send_op_cond h r.state in
      let started =
        λ (st' : Driver h.State). done 0 (with_id (record (st'.id) { init_in_progress = 1 }) st') in
      if r.value == etimedout
      then if mmc.value == 0 then started mmc.state else done eopnotsupp mmc.state
      else if r.value == 0
      then started r.state
      else r

  -- `has_init` from the error.
  unfoldable pub set_has_init : Ret (Driver h.State) → Ret (Driver h.State)
  set_has_init r =
      let has = if r.value == 0 then 1 else 0 in
      done r.value (with_id (record (r.state.id) { has_init = has }) r.state)

  unfoldable pub start_up : ℕ → ℕ → ℕ → Driver h.State → Option (Ret (Driver h.State))
  start_up scr status ssr st = mmc_startup h scr status ssr st >>= λ out. some (set_has_init out)

  unfoldable pub sd_fx_init_finalize :
      ℕ → ℕ → ℕ → ℕ → Driver h.State → Option (Ret (Driver h.State))
  sd_fx_init_finalize fuel scr status ssr st =
      let st' = with_id (record (st.id) { init_in_progress = 0 }) st in
      (if st.id.op_cond_pending then mmc_complete_op_cond h fuel st' else some (done 0 st'))
      >>= λ r. if r.value == 0 then start_up scr status ssr r.state else some (set_has_init r)

  -- What the operating conditions say of the card, where the call succeeds; the partition and the
  -- block device are left in any case.
  pub record Conditions (st : Driver h.State) (r : Ret (Driver h.State)) : Type 0 where
    pub powered : r.value ≡ 0 → powered_up r.state.id.ocr ≡ true
    pub high_capacity :
        r.value ≡ 0 → r.state.sd.mmc.high_capacity ≡ has_high_capacity r.state.id.ocr
    pub sd_card : r.value ≡ 0 → is_sd r.state.id.version ≡ true
    pub rca : r.value ≡ 0 → r.state.sd.mmc.rca ≡ 0
    pub failed_mmc : r.value ≢ 0 → r.state.sd.mmc ≡ st.sd.mmc
    pub blk : r.state.sd.blk ≡ st.sd.blk
    pub ddr_mode : r.state.sd.mmc.ddr_mode ≡ st.sd.mmc.ddr_mode
    pub b_max : r.state.sd.mmc.b_max ≡ st.sd.mmc.b_max
    pub pending : r.state.id.op_cond_pending ≡ st.id.op_cond_pending

  unchanged-Conditions :
      (st st' : Driver h.State) (e : ℕ)
      → e ≢ 0
      → st'.sd.mmc ≡ st.sd.mmc
      → st'.sd.blk ≡ st.sd.blk
      → st'.id ≡ st.id
      → Conditions st (done e st')
  unchanged-Conditions st st' e bad mmc blk id = record {
    powered = λ ok. absurd (bad ok);
    high_capacity = λ ok. absurd (bad ok);
    sd_card = λ ok. absurd (bad ok);
    rca = λ ok. absurd (bad ok);
    failed_mmc = λ _. mmc;
    blk = blk;
    ddr_mode = ap (λ m. m.ddr_mode) mmc;
    b_max = ap (λ m. m.b_max) mmc;
    pending = ap (λ i. i.op_cond_pending) id;
  }

  not_zero : (e : ℕ) → (e == 0) ≡ false → e ≢ 0
  not_zero e failed zero_err = let f : ⊥ = ground arith in f

  -- The host's state does not count.
  rebase :
      (s : h.State) (st : Driver h.State) (r : Ret (Driver h.State))
      → Conditions (with_host s st) r
      → Conditions st r
  rebase s st r k = record {
    powered = k.powered;
    high_capacity = k.high_capacity;
    sd_card = k.sd_card;
    rca = k.rca;
    failed_mmc = k.failed_mmc;
    blk = k.blk;
    ddr_mode = k.ddr_mode;
    b_max = k.b_max;
    pending = k.pending;
  }

  send-Conditions :
      (c : Cmd) (st : Driver h.State)
      (next : Outcome h.State → Driver h.State → Ret (Driver h.State))
      → ((o : Outcome h.State) (s : h.State) → Conditions st (next o (with_host s st)))
      → Conditions st (send h c none st next)
  unfolding send
  send-Conditions c st next k =
      let o = h.send_cmd c none st.sd.host in
      elim (Bool-cases (o.err == 0)) [
        | inl fine ↦ rw fine (k o o.state)
        | inr failed ↦
            rw failed (unchanged-Conditions st _ o.err (not_zero o.err failed) refl refl refl)
      ]

  sd_powered_up-Conditions :
      (ocr : ℕ) (st : Driver h.State) → powered_up ocr ≡ true → Conditions st (sd_powered_up ocr st)
  unfolding sd_powered_up is_sd
  sd_powered_up-Conditions ocr st on = record {
    powered = λ _. on;
    high_capacity = λ _. refl;
    sd_card = λ _. elim (Bool-cases (st.id.version == sd_version_2)) [
      | inl two ↦ rw two refl
      | inr one ↦ rw one refl
    ];
    rca = λ _. refl;
    failed_mmc = λ bad. absurd (bad refl);
    blk = refl;
    ddr_mode = refl;
    b_max = refl;
    pending = refl;
  }

  -- The end of a round of the loop.
  round-Conditions :
      (ocr : ℕ) (st : Driver h.State) (other : Ret (Driver h.State))
      → Conditions st other
      → Conditions st (if powered_up ocr then sd_powered_up ocr st else other)
  round-Conditions ocr st other k = elim (Bool-cases (powered_up ocr)) [
    | inl on ↦ rw on (sd_powered_up-Conditions ocr st on)
    | inr off ↦ rw off k
  ]

  poll_op_cond-Conditions :
      (timeout : ℕ) (st : Driver h.State) → Conditions st (poll_op_cond h timeout st)
  unfolding poll_op_cond
  poll_op_cond-Conditions zero st = send-Conditions _ st _ λ o s. rebase s st _ (
      send-Conditions _ (with_host s st) _ λ o' s'. rebase s' (with_host s st) _ (
        round-Conditions o'.response _ _
          (unchanged-Conditions _ _ eopnotsupp (omega arith) refl refl refl)))
  poll_op_cond-Conditions (suc timeout) st = send-Conditions _ st _ λ o s. rebase s st _ (
      send-Conditions _ (with_host s st) _ λ o' s'.
        rebase s' (with_host s st) _
          (round-Conditions o'.response _ _ (poll_op_cond-Conditions timeout _)))

  pub sd_send_op_cond-Conditions : (st : Driver h.State) → Conditions st (sd_send_op_cond h st)
  unfolding sd_send_op_cond
  sd_send_op_cond-Conditions st = poll_op_cond-Conditions 1000 st
