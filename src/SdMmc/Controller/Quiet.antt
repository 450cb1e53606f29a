-- ===== src/SdMmc/Controller/Quiet.antt =====
-- The parts of `tegra_mmc_send_cmd_bounced` of Drivers/SdMmcDxe/SdMmc.c that issue no command: a write
-- of the command register starts one.
use nintendo_switch_pkg.Prelude.{
  ℕ, zero, suc, ◌+◌, ◌-◌, ◌%◌, ◌^◌, ◌≡◌, refl, inl, inr, Bool, true, false, Option, none, some,
  List, [], ◌∷◌, ltb, ◌==◌, if◌then◌else◌, ◌∙◌, Bool-cases,
}
use nintendo_switch_pkg.SdMmc.{Cmd, Data}
use nintendo_switch_pkg.SdMmc.Controller.{
  rd, wr, stall, set_rate, History, Env, Io, ◌>>=◌, return, sysad, blksize, blkcnt, argument,
  trnmod, cmdreg, rspreg0, rspreg3, prnsts, hostctl, norintsts, writel, writew, writeb, udelay,
  read,
}
use nintendo_switch_pkg.SdMmc.Controller.Transfer.{
  End, ended, broken, late, poll_inhibit, tegra_mmc_prepare_data, tegra_mmc_set_transfer_mode,
  wait_command, wait_busy, long_word, long_response, if_late, on_status, wait_transfer,
}
use nintendo_switch_pkg.SdMmc.Controller.SendCmd.{
  fail, done_after, after_transfer, with_data, set_up, finish_data, read_response, complete,
}

-- The values written to the command register, the latest first.
abbrev pub commands : History → List ℕ
commands [] = []
commands (rd w a v ∷ past) = commands past
commands (wr w a v ∷ past) = if a == cmdreg then v ∷ commands past else commands past
commands (stall us ∷ past) = commands past
commands (set_rate hz ∷ past) = commands past

-- A record, so that the call is known from the goal.
pub record Quiet {A : Type 0} (m : Io A) : Type 0 where
  pub quiet : (past : History) → commands (m past).history ≡ commands past

return-Quiet : {A : Type 0} (x : A) → Quiet (return x)
unfolding return
return-Quiet x = record { quiet = λ past. refl }

bind-Quiet :
    {A B : Type 0} (m : Io A) (f : A → Io B) → Quiet m → ((x : A) → Quiet (f x)) → Quiet (m >>= f)
unfolding ◌>>=◌
bind-Quiet m f k l = record {
  quiet = λ past. (l (m past).value).quiet (m past).history ∙ k.quiet past;
}

if-Quiet : {A : Type 0} (b : Bool) (m n : Io A) → Quiet m → Quiet n → Quiet (if b then m else n)
if-Quiet true m n k l = k
if-Quiet false m n k l = l

writel-Quiet : (v a : ℕ) → (a == cmdreg) ≡ false → Quiet (writel v a)
unfolding writel
writel-Quiet v a other = record { quiet = λ past. rw other refl }

writew-Quiet : (v a : ℕ) → (a == cmdreg) ≡ false → Quiet (writew v a)
unfolding writew
writew-Quiet v a other = record { quiet = λ past. rw other refl }

writeb-Quiet : (v a : ℕ) → (a == cmdreg) ≡ false → Quiet (writeb v a)
unfolding writeb
writeb-Quiet v a other = record { quiet = λ past. rw other refl }

udelay-Quiet : (us : ℕ) → Quiet (udelay us)
unfolding udelay
udelay-Quiet us = record { quiet = λ past. refl }

module _ (env : Env) where
  read-Quiet : (width a : ℕ) → Quiet (read env width a)
  unfolding read
  read-Quiet width a = record { quiet = λ past. refl }

  pub poll_inhibit-Quiet : (timeout mask : ℕ) → Quiet (poll_inhibit env timeout mask)
  unfolding poll_inhibit
  poll_inhibit-Quiet zero mask = bind-Quiet _ _ (read-Quiet 4 prnsts) (λ v. return-Quiet _)
  poll_inhibit-Quiet (suc timeout) mask = bind-Quiet _ _ (read-Quiet 4 prnsts) (λ v.
      if-Quiet _ _ _ (return-Quiet true)
        (bind-Quiet _ _ (udelay-Quiet 1000) (λ _. poll_inhibit-Quiet timeout mask)))

  wait_command-Quiet : (d : Bool) (retry mask : ℕ) → Quiet (wait_command env d retry mask)
  unfolding wait_command
  wait_command-Quiet d zero mask = return-Quiet _
  wait_command-Quiet d (suc retry) mask = bind-Quiet _ _ (read-Quiet 4 norintsts) (λ v.
      if-Quiet _ _ _
        (if-Quiet _ _ _ (return-Quiet _)
          (bind-Quiet _ _ (writel-Quiet v norintsts refl) (λ _. return-Quiet _)))
        (wait_command-Quiet d retry v))

  wait_busy-Quiet : (retry : ℕ) → Quiet (wait_busy env retry)
  unfolding wait_busy
  wait_busy-Quiet zero = return-Quiet false
  wait_busy-Quiet (suc retry) =
      bind-Quiet _ _ (read-Quiet 4 prnsts)
        (λ v. if-Quiet _ _ _ (return-Quiet true) (wait_busy-Quiet retry))

  long_word-Quiet : (offset : ℕ) → Quiet (long_word env offset)
  unfolding long_word
  long_word-Quiet offset =
      bind-Quiet _ _ (read-Quiet 4 offset)
        (λ v. bind-Quiet _ _ (read-Quiet 1 (offset - 1)) (λ b. return-Quiet _))

  long_response-Quiet : Quiet (long_response env)
  unfolding long_response
  long_response-Quiet = bind-Quiet _ _ (long_word-Quiet rspreg3) (λ w_0.
      bind-Quiet _ _ (long_word-Quiet (rspreg3 - 4)) (λ w_1.
        bind-Quiet _ _ (long_word-Quiet (rspreg3 - 8))
          (λ w_2. bind-Quiet _ _ (read-Quiet 4 (rspreg3 - 12)) (λ w_3. return-Quiet _))))

  if_late-Quiet :
      (start : ℕ) (m n : Io (Option End)) → Quiet m → Quiet n → Quiet (if_late env start m n)
  unfolding if_late
  if_late-Quiet start m n k l = record {
    quiet = λ past. elim (Bool-cases (ltb 8000 ((env.time past + 2 ^ 64 - start) % 2 ^ 64))) [
      | inl expired ↦ rw expired (k.quiet past)
      | inr not_yet ↦ rw not_yet (l.quiet past)
    ];
  }

  on_status-Quiet :
      (start : ℕ) (again : Io (Option End)) (mask : ℕ)
      → Quiet again
      → Quiet (on_status env start again mask)
  unfolding on_status
  on_status-Quiet start again mask k =
      let end = λ (e : End).
        bind-Quiet _ _ (writel-Quiet mask norintsts refl) (λ _. return-Quiet (some e)) in
      if-Quiet _ _ _ (end broken) (
        if-Quiet _ _ _
          (bind-Quiet _ _ (read-Quiet 4 sysad) (λ address.
            bind-Quiet _ _ (writel-Quiet 8 norintsts refl)
              (λ _. bind-Quiet _ _ (writel-Quiet address sysad refl) (λ _. k))))
          (if-Quiet _ _ _ (end (ended mask)) (if_late-Quiet start _ _ (end late) k)))

  wait_transfer-Quiet : (fuel start : ℕ) → Quiet (wait_transfer env fuel start)
  unfolding wait_transfer
  wait_transfer-Quiet zero start = return-Quiet none
  wait_transfer-Quiet (suc fuel) start =
      bind-Quiet _ _ (read-Quiet 4 norintsts)
        (λ mask. on_status-Quiet start _ mask (wait_transfer-Quiet fuel start))

  done_after-Quiet : (response : List ℕ) → Quiet (done_after response)
  unfolding done_after
  done_after-Quiet response = bind-Quiet _ _ (udelay-Quiet 1000) (λ _. return-Quiet _)

  fail-Quiet : (e : ℕ) → Quiet (fail e)
  fail-Quiet e = return-Quiet _

  after_transfer-Quiet : (response : List ℕ) (e : Option End) → Quiet (after_transfer response e)
  unfolding after_transfer
  after_transfer-Quiet response none = return-Quiet none
  after_transfer-Quiet response (some (ended mask)) = done_after-Quiet response
  after_transfer-Quiet response (some broken) = fail-Quiet 1
  after_transfer-Quiet response (some late) = fail-Quiet 1

  finish_data-Quiet :
      (fuel : ℕ) (d : Option Data) (response : List ℕ) → Quiet (finish_data env fuel d response)
  unfolding finish_data
  finish_data-Quiet fuel none response = record { quiet = (done_after-Quiet response).quiet }
  finish_data-Quiet fuel (some d) response = record {
    quiet = λ past.
        (bind-Quiet _ _ (wait_transfer-Quiet fuel (env.time past))
            (after_transfer-Quiet response)).quiet
          past;
  }

  read_response-Quiet :
      (fuel : ℕ) (c : Cmd) (d : Option Data) (mask : ℕ) → Quiet (read_response env fuel c d mask)
  unfolding read_response
  read_response-Quiet fuel c d mask =
      let short = bind-Quiet _ _ (read-Quiet 4 rspreg0) (λ w. finish_data-Quiet fuel d (w ∷ [])) in
      if-Quiet _ _ _
        (if-Quiet _ _ _ (bind-Quiet _ _ long_response-Quiet (finish_data-Quiet fuel d)) (
          if-Quiet _ _ _
            (bind-Quiet _ _ (wait_busy-Quiet 0x100000) (λ free.
              if-Quiet _ _ _ short
                (bind-Quiet _ _ (writel-Quiet mask norintsts refl) (λ _. fail-Quiet 110))))
            short))
        (finish_data-Quiet fuel d [])

  pub complete-Quiet :
      (fuel retry : ℕ) (c : Cmd) (d : Option Data) → Quiet (complete env fuel retry c d)
  unfolding complete
  complete-Quiet fuel retry c d = bind-Quiet _ _ (wait_command-Quiet (with_data d) retry 0) (λ seen.
      let stop =
        λ (e : ℕ). bind-Quiet _ _ (writel-Quiet seen.mask norintsts refl) (λ _. fail-Quiet e) in
      if-Quiet _ _ _
        (if-Quiet _ _ _ (stop 110)
          (if-Quiet _ _ _ (stop 1) (read_response-Quiet fuel c d seen.mask)))
        (stop 110))

  pub set_up-Quiet : (c : Cmd) (d : Option Data) (buffer : ℕ) → Quiet (set_up c d buffer env)
  unfolding set_up tegra_mmc_prepare_data tegra_mmc_set_transfer_mode
  set_up-Quiet c none buffer = writel-Quiet c.cmdarg argument refl
  set_up-Quiet c (some d) buffer =
      bind-Quiet _ _
        (bind-Quiet _ _ (writel-Quiet buffer sysad refl) (λ _.
          bind-Quiet _ _ (read-Quiet 1 hostctl) (λ ctrl.
            bind-Quiet _ _ (writeb-Quiet _ hostctl refl) (λ _.
              bind-Quiet _ _ (writew-Quiet _ blksize refl) (λ _. writew-Quiet _ blkcnt refl)))))
        (λ _.
          bind-Quiet _ _ (writel-Quiet c.cmdarg argument refl) (λ _. writew-Quiet _ trnmod refl))
