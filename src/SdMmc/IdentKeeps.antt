-- ===== src/SdMmc/IdentKeeps.antt =====
-- What the commands of identification leave alone: the features of an SD card and its bus do not
-- change the capacity and the addressing that `mmc_startup` of MmcHostOp.c took from the CSD.
use nintendo_switch_pkg.Prelude.{
  ℕ, zero, suc, ◌≡◌, refl, inl, inr, Bool, true, false, Option, some, ◌==◌, if◌then◌else◌, ◌∙◌,
  Bool-cases,
}
use nintendo_switch_pkg.SdMmc.{Cmd, Data, Outcome, Host, Ret}
use nintendo_switch_pkg.SdMmc.Ident.{Driver, with_host, done, send, ok_then, mmc_set_bus_width}
use nintendo_switch_pkg.SdMmc.SdFeatures.{
  send_again, sd_switch, read_scr, keep_scr, check_high_speed, switch_high_speed, sd_change_freq,
  sd_read_ssr,
}
use nintendo_switch_pkg.SdMmc.Startup.{widen_bus, set_up_sd}

-- `struct mmc` but for the fields of `Ident`, the block device, and the CSD.
pub record Kept {S : Type 0} (st st' : Driver S) : Type 0 where
  pub mmc : st'.sd.mmc ≡ st.sd.mmc
  pub blk : st'.sd.blk ≡ st.sd.blk
  pub csd_1 : st'.id.csd_1 ≡ st.id.csd_1
  pub csd_2 : st'.id.csd_2 ≡ st.id.csd_2

pub Kept-refl : {S : Type 0} (st : Driver S) → Kept st st
Kept-refl st = record { mmc = refl; blk = refl; csd_1 = refl; csd_2 = refl }

pub Kept-trans : {S : Type 0} (a b c : Driver S) → Kept a b → Kept b c → Kept a c
Kept-trans a b c p q = record {
  mmc = q.mmc ∙ p.mmc;
  blk = q.blk ∙ p.blk;
  csd_1 = q.csd_1 ∙ p.csd_1;
  csd_2 = q.csd_2 ∙ p.csd_2;
}

-- The same of a call that returns.
pub record Keeps {S : Type 0} (st : Driver S) (r : Ret (Driver S)) : Type 0 where
  pub kept : Kept st r.state

module _ (h : Host) where
  same : (st : Driver h.State) (value : ℕ) → Keeps st (done value st)
  same st value = record { kept = Kept-refl st }

  send-Keeps :
      (c : Cmd) (d : Option Data) (st : Driver h.State)
      (next : Outcome h.State → Driver h.State → Ret (Driver h.State))
      → ((o : Outcome h.State) (st' : Driver h.State) → Keeps st' (next o st'))
      → Keeps st (send h c d st next)
  unfolding send
  send-Keeps c d st next keep =
      let o = h.send_cmd c d st.sd.host in
      elim (Bool-cases (o.err == 0)) [
        | inl fine ↦ rw fine (
            let k = (keep o (with_host o.state st)).kept in
            record { kept = record { mmc = k.mmc; blk = k.blk; csd_1 = k.csd_1; csd_2 = k.csd_2 } })
        | inr failed ↦
            rw failed
              (record { kept = record { mmc = refl; blk = refl; csd_1 = refl; csd_2 = refl } })
      ]

  ok_then-Keeps :
      (st : Driver h.State) (r : Ret (Driver h.State))
      (next : Driver h.State → Ret (Driver h.State))
      → Keeps st r
      → ((st' : Driver h.State) → Keeps st' (next st'))
      → Keeps st (ok_then h r next)
  unfolding ok_then
  ok_then-Keeps st r next k keep = elim (Bool-cases (r.value == 0)) [
    | inl fine ↦ rw fine (record { kept = Kept-trans st r.state _ k.kept (keep r.state).kept })
    | inr failed ↦ rw failed k
  ]

  -- A change of other fields before the call.
  from :
      (st st' : Driver h.State) (r : Ret (Driver h.State)) → Kept st st' → Keeps st' r → Keeps st r
  from st st' r k k' = record { kept = Kept-trans st st' r.state k k'.kept }

  if-Keeps :
      (b : Bool) (st : Driver h.State) (x y : Ret (Driver h.State))
      → Keeps st x
      → Keeps st y
      → Keeps st (if b then x else y)
  if-Keeps true st x y k k' = k
  if-Keeps false st x y k k' = k'

  -- A change of other fields at the end.
  ends : (st st' : Driver h.State) (value : ℕ) → Kept st st' → Keeps st (done value st')
  ends st st' value k = record { kept = k }

  send_again-Keeps :
      (timeout : ℕ) (c : Cmd) (d : Data) (st : Driver h.State)
      → Keeps st (send_again h timeout c d st)
  unfolding send_again
  send_again-Keeps zero c d st = send-Keeps c (some d) st _ (λ _ st'. same st' 0)
  send_again-Keeps (suc timeout) c d st =
      let r = send h c (some d) st (λ _ st'. done 0 st') in
      let first : Keeps st r = send-Keeps c (some d) st _ (λ _ st'. same st' 0) in
      if-Keeps (r.value == 0) st r (send_again h timeout c d r.state) first
        (from st r.state _ first.kept (send_again-Keeps timeout c d r.state))

  sd_switch-Keeps :
      (mode group value resp : ℕ) (st : Driver h.State)
      → Keeps st (sd_switch h mode group value resp st)
  unfolding sd_switch
  sd_switch-Keeps mode group value resp st = send-Keeps _ _ st _ (λ _ st'. same st' 0)

  check_high_speed-Keeps :
      (timeout status : ℕ) (st : Driver h.State) → Keeps st (check_high_speed h timeout status st)
  unfolding check_high_speed
  check_high_speed-Keeps zero status st = same st 0
  check_high_speed-Keeps (suc timeout) status st =
      let r = sd_switch h 0 0 1 status st in
      let first : Keeps st r = sd_switch-Keeps 0 0 1 status st in
      if-Keeps _ st _ r
        (if-Keeps _ st _ _ (ends st r.state 0 first.kept)
          (from st r.state _ first.kept (check_high_speed-Keeps timeout status r.state)))
        first

  switch_high_speed-Keeps :
      (status : ℕ) (st : Driver h.State) → Keeps st (switch_high_speed h status st)
  unfolding switch_high_speed
  switch_high_speed-Keeps status st = if-Keeps _ st _ _ (same st 0) (
      ok_then-Keeps st _ _ (sd_switch-Keeps 1 0 1 status st) (λ st'.
        if-Keeps _ st' _ _
          (ends st' _ 0 (record { mmc = refl; blk = refl; csd_1 = refl; csd_2 = refl }))
          (same st' 0)))

  read_scr-Keeps : (scr : ℕ) (st : Driver h.State) → Keeps st (read_scr h scr st)
  unfolding read_scr
  read_scr-Keeps scr st = send-Keeps _ _ st _ (λ _ st'. send_again-Keeps 3 _ _ st')

  keep_scr-Kept : (scr : ℕ) (st : Driver h.State) → Kept st (keep_scr h scr st)
  unfolding keep_scr
  keep_scr-Kept scr st = record { mmc = refl; blk = refl; csd_1 = refl; csd_2 = refl }

  sd_change_freq-Keeps :
      (scr status : ℕ) (st : Driver h.State) → Keeps st (sd_change_freq h scr status st)
  unfolding sd_change_freq
  sd_change_freq-Keeps scr status st =
      let cleared : Driver h.State = record st { id = record (st.id) { card_caps = 0 } } in
      ok_then-Keeps st _ _
        (from st cleared _ (record { mmc = refl; blk = refl; csd_1 = refl; csd_2 = refl })
          (read_scr-Keeps scr cleared))
        (λ st'.
          let k = keep_scr-Kept scr st' in
          if-Keeps _ st' _ _ (ends st' _ 0 k) (
            from st' (keep_scr h scr st') _ k (
              ok_then-Keeps (keep_scr h scr st') _ _
                (check_high_speed-Keeps 4 status (keep_scr h scr st'))
                (λ checked.
                  if-Keeps _ checked _ _ (same checked 0)
                    (switch_high_speed-Keeps status checked)))))

  widen_bus-Keeps : (st : Driver h.State) → Keeps st (widen_bus h st)
  unfolding widen_bus mmc_set_bus_width
  widen_bus-Keeps st = if-Keeps _ st _ _ (same st 0) (
      send-Keeps _ _ st _ (λ _ st'.
        send-Keeps _ _ st' _ (λ _ st''.
          ends st'' _ 0 (record { mmc = refl; blk = refl; csd_1 = refl; csd_2 = refl }))))

  sd_read_ssr-Keeps : (ssr : ℕ) (st : Driver h.State) → Keeps st (sd_read_ssr h ssr st)
  unfolding sd_read_ssr
  sd_read_ssr-Keeps ssr st =
      ok_then-Keeps st _ _ (send-Keeps _ _ st _ (λ _ st'. send_again-Keeps 3 _ _ st'))
        (λ st'. ends st' _ 0 (record { mmc = refl; blk = refl; csd_1 = refl; csd_2 = refl }))

  pub set_up_sd-Keeps :
      (scr status ssr : ℕ) (st : Driver h.State) → Keeps st (set_up_sd h scr status ssr st)
  unfolding set_up_sd
  set_up_sd-Keeps scr status ssr st =
      ok_then-Keeps st _ _ (sd_change_freq-Keeps scr status st) (λ st'.
        ok_then-Keeps st' _ _
          (from st' _ _ (record { mmc = refl; blk = refl; csd_1 = refl; csd_2 = refl })
            (widen_bus-Keeps _))
          (λ wide. ok_then-Keeps wide _ _ (sd_read_ssr-Keeps ssr wide) (λ read.
            ends read _ 0 (record { mmc = refl; blk = refl; csd_1 = refl; csd_2 = refl }))))
