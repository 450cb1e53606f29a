-- ===== src/SdMmc/StartupReturns.antt =====
-- `mmc_startup` of MmcHostOp.c returns for an SD card that answers every command.
use nintendo_switch_pkg.Prelude.{
  ℕ, zero, suc, ◌≡◌, refl, ap, inl, inr, Bool, true, false, Option, some, arith, ◌==◌,
  if◌then◌else◌, ◌∙◌, Bool-cases,
}
use nintendo_switch_pkg.SdMmc.{Cmd, Data, Outcome, Host, Ret}
use nintendo_switch_pkg.SdMmc.Command.{mmc_set_capacity, capacity_of}
use nintendo_switch_pkg.SdMmc.Ident.{
  Driver, is_sd, with_host, done, send, ok_then, mmc_version_unknown,
}
use nintendo_switch_pkg.SdMmc.SdFeatures.{
  send_again, sd_switch, read_scr, check_high_speed, switch_high_speed, sd_change_freq, sd_read_ssr,
}
use nintendo_switch_pkg.SdMmc.Startup.{
  keep_csd, keep_rca, read_csd, set_dsr, select_card, widen_bus, set_up_sd, set_capacity, finish_sd,
  start_card, mmc_startup,
}

-- Every command succeeds.
abbrev pub Answers : Host → Type 0
Answers h = (c : Cmd) (d : Option Data) (s : h.State) → (h.send_cmd c d s).err ≡ 0

module _ (h : Host) (answers : Answers h) where
  send-next :
      (c : Cmd) (d : Option Data) (st : Driver h.State)
      (next : Outcome h.State → Driver h.State → Ret (Driver h.State))
      → send h c d st next
        ≡ next (h.send_cmd c d st.sd.host) (with_host (h.send_cmd c d st.sd.host).state st)
  unfolding send
  send-next c d st next = rw (answers c d st.sd.host) refl

  -- A record, so that the call is known from the goal.
  record Fine (r : Ret (Driver h.State)) : Type 0 where
    value : r.value ≡ 0

  done-Fine : (st : Driver h.State) → Fine (done 0 st)
  done-Fine st = record { value = refl }

  send-Fine :
      (c : Cmd) (d : Option Data) (st : Driver h.State)
      (next : Outcome h.State → Driver h.State → Ret (Driver h.State))
      → ((o : Outcome h.State) (st' : Driver h.State) → Fine (next o st'))
      → Fine (send h c d st next)
  send-Fine c d st next fine = rw (send-next c d st next) (fine _ _)

  ok_then-Fine :
      (r : Ret (Driver h.State)) (next : Driver h.State → Ret (Driver h.State))
      → Fine r
      → ((st' : Driver h.State) → Fine (next st'))
      → Fine (ok_then h r next)
  unfolding ok_then
  ok_then-Fine r next k fine = rw k.value (fine r.state)

  if-Fine : (b : Bool) (x y : Ret (Driver h.State)) → Fine x → Fine y → Fine (if b then x else y)
  if-Fine true x y k k' = k
  if-Fine false x y k k' = k'

  send_again-Fine :
      (timeout : ℕ) (c : Cmd) (d : Data) (st : Driver h.State) → Fine (send_again h timeout c d st)
  unfolding send_again
  send_again-Fine zero c d st = send-Fine c (some d) st _ (λ _ st'. done-Fine st')
  send_again-Fine (suc timeout) c d st =
      if-Fine _ _ _ (send-Fine c (some d) st _ (λ _ st'. done-Fine st'))
        (send_again-Fine timeout c d _)

  sd_switch-Fine :
      (mode group value resp : ℕ) (st : Driver h.State)
      → Fine (sd_switch h mode group value resp st)
  unfolding sd_switch
  sd_switch-Fine mode group value resp st = send-Fine _ _ st _ (λ _ st'. done-Fine st')

  check_high_speed-Fine :
      (timeout status : ℕ) (st : Driver h.State) → Fine (check_high_speed h timeout status st)
  unfolding check_high_speed
  check_high_speed-Fine zero status st = done-Fine st
  check_high_speed-Fine (suc timeout) status st =
      if-Fine _ _ _ (if-Fine _ _ _ (done-Fine _) (check_high_speed-Fine timeout status _))
        (sd_switch-Fine 0 0 1 status st)

  switch_high_speed-Fine : (status : ℕ) (st : Driver h.State) → Fine (switch_high_speed h status st)
  unfolding switch_high_speed
  switch_high_speed-Fine status st = if-Fine _ _ _ (done-Fine st) (
      ok_then-Fine _ _ (sd_switch-Fine 1 0 1 status st)
        (λ st'. if-Fine _ _ _ (done-Fine _) (done-Fine _)))

  sd_change_freq-Fine :
      (scr status : ℕ) (st : Driver h.State) → Fine (sd_change_freq h scr status st)
  unfolding sd_change_freq read_scr
  sd_change_freq-Fine scr status st =
      ok_then-Fine _ _ (send-Fine _ _ _ _ (λ _ st'. send_again-Fine 3 _ _ st')) (λ st'.
        if-Fine _ _ _ (done-Fine _) (
          ok_then-Fine _ _ (check_high_speed-Fine 4 status _)
            (λ checked. if-Fine _ _ _ (done-Fine _) (switch_high_speed-Fine status checked))))

  finish_sd-Fine : (scr status ssr : ℕ) (st : Driver h.State) → Fine (finish_sd h scr status ssr st)
  unfolding finish_sd set_up_sd widen_bus sd_read_ssr
  finish_sd-Fine scr status ssr st =
      ok_then-Fine _ _
        (ok_then-Fine _ _ (sd_change_freq-Fine scr status st) (λ st'.
          ok_then-Fine _ _
            (if-Fine _ _ _ (done-Fine _)
              (send-Fine _ _ _ _ (λ _ st''. send-Fine _ _ st'' _ (λ _ st'''. done-Fine _))))
            (λ wide.
              ok_then-Fine _ _
                (ok_then-Fine _ _ (send-Fine _ _ wide _ (λ _ st''. send_again-Fine 3 _ _ st''))
                  (λ st''. done-Fine _))
                (λ read. done-Fine _))))
        (λ st'. done-Fine _)

  not_unknown : (version : ℕ) → is_sd version ≡ true → (version == mmc_version_unknown) ≡ false
  unfolding is_sd
  not_unknown version sd = elim (Bool-cases (version == mmc_version_unknown)) [
    | inl same ↦ let e : version ≡ mmc_version_unknown = ground arith in cc (rw e at sd)
    | inr other ↦ other
  ]

  keep_csd-version :
      (w_0 w_1 w_2 w_3 : ℕ) (st : Driver h.State)
      → is_sd st.id.version ≡ true
      → (keep_csd w_0 w_1 w_2 w_3 st).id.version ≡ st.id.version
  unfolding keep_csd
  keep_csd-version w_0 w_1 w_2 w_3 st sd = rw (not_unknown st.id.version sd) refl

  keep_csd-blk :
      (w_0 w_1 w_2 w_3 : ℕ) (st : Driver h.State) → (keep_csd w_0 w_1 w_2 w_3 st).sd.blk ≡ st.sd.blk
  unfolding keep_csd
  keep_csd-blk w_0 w_1 w_2 w_3 st = refl

  -- The CSD is read, and an SD card stays one.
  read_csd-done :
      (st : Driver h.State)
      → is_sd st.id.version ≡ true
      → ((read_csd h st).value ≡ 0)
        × ((read_csd h st).state.id.version ≡ st.id.version)
        × ((read_csd h st).state.sd.blk ≡ st.sd.blk)
  unfolding read_csd keep_rca
  read_csd-done st sd =
      let e = send-next _ _ st _ ∙ send-next _ _ _ _ ∙ send-next _ _ _ _ in
      (
        ap (λ (r : Ret (Driver h.State)). r.value) e,
        ap (λ (r : Ret (Driver h.State)). r.state.id.version) e ∙ keep_csd-version _ _ _ _ _ sd,
        ap (λ (r : Ret (Driver h.State)). r.state.sd.blk) e ∙ keep_csd-blk _ _ _ _ _,
      )

  select_card-kept :
      (st : Driver h.State)
      → ((select_card h (set_dsr h st)).id.version ≡ st.id.version)
        × ((select_card h (set_dsr h st)).sd.blk ≡ st.sd.blk)
  unfolding select_card set_dsr
  select_card-kept st = ground arith

  set_capacity-done : (st : Driver h.State) → st.sd.blk.hwpart ≡ 0 → (set_capacity h st).value ≡ 0
  unfolding set_capacity mmc_set_capacity capacity_of
  set_capacity-done st user = ground arith

  start_card-returns :
      (scr status ssr : ℕ) (st : Driver h.State)
      → is_sd st.id.version ≡ true
      → st.sd.blk.hwpart ≡ 0
      → start_card h scr status ssr st
        ≡ some (finish_sd h scr status ssr (set_capacity h (select_card h (set_dsr h st))).state)
  unfolding start_card
  start_card-returns scr status ssr st sd user =
      let (version, blk) = select_card-kept st in
      let sd' : is_sd (select_card h (set_dsr h st)).id.version ≡ true = rw version sd in
      let sized = set_capacity-done (select_card h (set_dsr h st)) (rw blk user) in
      rw (sd', sized) refl

  -- mmc_startup returns for an SD card, no partition in use, if every command succeeds.
  pub mmc_startup-returns :
      (scr status ssr : ℕ) (st : Driver h.State)
      → is_sd st.id.version ≡ true
      → st.sd.blk.hwpart ≡ 0
      → (r : Ret (Driver h.State)) × (mmc_startup h scr status ssr st ≡ some r)
  unfolding mmc_startup
  mmc_startup-returns scr status ssr st sd user =
      let (read, version, blk) = read_csd-done st sd in
      let csd = (read_csd h st).state in
      let started = start_card-returns scr status ssr csd (rw version sd) (rw blk user) in
      let sized = (set_capacity h (select_card h (set_dsr h csd))).state in
      (
        finish_sd h scr status ssr sized,
        rw (read, started, (finish_sd-Fine scr status ssr sized).value) refl,
      )
