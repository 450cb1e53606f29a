-- ===== src/SdMmc/Controller/Completion.antt =====
-- When `tegra_mmc_send_cmd_bounced` of Drivers/SdMmcDxe/SdMmc.c reports that a transfer succeeded.
use nintendo_switch_pkg.Prelude.{
  ℕ, zero, suc, ◌+◌, ◌-◌, ◌%◌, ◌^◌, ◌≡◌, ◌≢◌, refl, inl, inr, Bool, true, false, Option, none, some,
  List, [], ◌∷◌, arith, ltb, if◌then◌else◌, Bool-cases,
}
use nintendo_switch_pkg.SdMmc.{Cmd, Data}
use nintendo_switch_pkg.SdMmc.Controller.{
  rd, wr, stall, History, Env, Io, ◌>>=◌, return, cmdreg, rspreg0, norintsts, writel, writew,
  udelay, read, readl,
}
use nintendo_switch_pkg.SdMmc.Controller.Transfer.{
  has, End, ended, broken, late, tegra_mmc_wait_inhibit, wait_command, wait_busy, long_response,
  if_late, on_status, wait_transfer,
}
use nintendo_switch_pkg.SdMmc.Controller.SendCmd.{
  Reply, fail, done_after, after_transfer, with_data, command_word, is_refused, is_high, set_up,
  finish_data, read_response, complete, issue, tegra_mmc_send_cmd_bounced,
}

-- The last two accesses read a status with the transfer complete, no error and no DMA interrupt
-- pending, and acknowledge it.
abbrev pub Ends : ℕ → History → Type 0
Ends mask past =
    (before : History) × (past ≡ wr 4 norintsts (mask % 2 ^ 32) ∷ rd 4 norintsts mask ∷ before)
    × (has mask 2 ≡ true)
    × (has mask (2 ^ 15) ≡ false)
    × (has mask 8 ≡ false)

record Ending (m : Io (Option End)) : Type 0 where
  ends :
      (past : History) (mask : ℕ) → (m past).value ≡ some (ended mask) → Ends mask (m past).history

-- The end of a transfer that succeeded, and the last wait.
abbrev pub Completed : History → Type 0
Completed past = (mask : ℕ) × (before : History) × (past ≡ stall 1000 ∷ before) × Ends mask before

module _ (env : Env) where
  on_status-Ends :
      (start : ℕ) (again : Io (Option End)) (mask mask' : ℕ) (before : History)
      → Ending again
      → (on_status env start again mask (rd 4 norintsts mask ∷ before)).value ≡ some (ended mask')
      → Ends mask' (on_status env start again mask (rd 4 norintsts mask ∷ before)).history
  unfolding on_status ◌>>=◌ return writel read if_late
  on_status-Ends start again mask mask' before k e = elim (Bool-cases (has mask (2 ^ 15))) [
    | inl error ↦ cc (rw (error, on_status) at e)
    | inr fine ↦ elim (Bool-cases (has mask 8)) [
      | inl dma ↦ rw (fine, dma) (k.ends _ mask' (rw (fine, dma, on_status) at e))
      | inr no_dma ↦ elim (Bool-cases (has mask 2)) [
        | inl done ↦
            let e' = rw (fine, no_dma, done, on_status) at e in
            let same : mask ≡ mask' = cc e' in
            rw (fine, no_dma, done, ← same) (before, refl, done, fine, no_dma)
        | inr not_done ↦
            let at_wait = rd 4 norintsts mask ∷ before in
            elim (Bool-cases (ltb 8000 ((env.time at_wait + 2 ^ 64 - start) % 2 ^ 64))) [
              | inl expired ↦ cc (rw (fine, no_dma, not_done, expired, on_status) at e)
              | inr not_yet ↦
                  rw (fine, no_dma, not_done, not_yet)
                    (k.ends _ mask' (rw (fine, no_dma, not_done, not_yet, on_status) at e))
            ]
      ]
    ]
  ]

  wait_transfer-Ending : (fuel start : ℕ) → Ending (wait_transfer env fuel start)
  unfolding wait_transfer ◌>>=◌ return read
  wait_transfer-Ending zero start = record { ends = λ past mask e. cc }
  wait_transfer-Ending (suc fuel) start = record {
    ends = λ past mask e. on_status-Ends start _ _ mask past (wait_transfer-Ending fuel start) e;
  }

  record Completes (m : Io (Option Reply)) : Type 0 where
    completes :
        (past : History) (words : List ℕ)
        → (m past).value ≡ some (record { err = 0; response = words })
        → Completed (m past).history

  bind-Completes :
      {A : Type 0} (m : Io A) (f : A → Io (Option Reply))
      → ((x : A) → Completes (f x))
      → Completes (m >>= f)
  unfolding ◌>>=◌
  bind-Completes m f k = record {
    completes = λ past words e. (k (m past).value).completes (m past).history words e;
  }

  if-Completes :
      (b : Bool) (m n : Io (Option Reply))
      → Completes m
      → Completes n
      → Completes (if b then m else n)
  if-Completes true m n k l = k
  if-Completes false m n k l = l

  fail-Completes : (e : ℕ) → e ≢ 0 → Completes (fail e)
  unfolding return
  fail-Completes e bad = record { completes = λ past words h. absurd (bad (cc h)) }

  stuck-Completes : Completes (return none)
  unfolding return
  stuck-Completes = record { completes = λ past words h. cc }

  after_transfer-Completed :
      (words words' : List ℕ) (e : Option End) (past : History)
      → ((mask : ℕ) → e ≡ some (ended mask) → Ends mask past)
      → (after_transfer words e past).value ≡ some (record { err = 0; response = words' })
      → Completed (after_transfer words e past).history
  unfolding after_transfer done_after udelay return ◌>>=◌
  after_transfer-Completed words words' none past k h = cc
  after_transfer-Completed words words' (some (ended mask)) past k h =
      (mask, past, refl, k mask refl)
  after_transfer-Completed words words' (some broken) past k h =
      absurd (let f : ⊥ = ground arith in f)
  after_transfer-Completed words words' (some late) past k h =
      absurd (let f : ⊥ = ground arith in f)

  finish_data-Completes :
      (fuel : ℕ) (d : Data) (words : List ℕ) → Completes (finish_data env fuel (some d) words)
  unfolding finish_data ◌>>=◌
  finish_data-Completes fuel d words = record {
    completes = λ past words' h.
        let w = wait_transfer env fuel (env.time past) past in
        after_transfer-Completed words words' w.value w.history
          ((wait_transfer-Ending fuel (env.time past)).ends past) h;
  }

  read_response-Completes :
      (fuel : ℕ) (c : Cmd) (d : Data) (mask : ℕ)
      → Completes (read_response env fuel c (some d) mask)
  unfolding read_response
  read_response-Completes fuel c d mask =
      let short =
        bind-Completes (readl env rspreg0) _ (λ w. finish_data-Completes fuel d (w ∷ [])) in
      let stuck =
        bind-Completes (writel mask norintsts) _ (λ _. fail-Completes 110 (omega arith)) in
      let busy =
        bind-Completes (wait_busy env 0x100000) _ (λ free. if-Completes free _ _ short stuck) in
      if-Completes (has c.resp_type 1) _ _
        (if-Completes (has c.resp_type 2) _ _
          (bind-Completes (long_response env) _ (finish_data-Completes fuel d))
          (if-Completes (has c.resp_type 8) _ _ busy short))
        (finish_data-Completes fuel d [])

  complete-Completes :
      (fuel retry : ℕ) (c : Cmd) (d : Data) → Completes (complete env fuel retry c (some d))
  unfolding complete with_data
  complete-Completes fuel retry c d = bind-Completes (wait_command env true retry 0) _ (λ seen.
      let timed_out =
        bind-Completes (writel seen.mask norintsts) _ (λ _. fail-Completes 110 (omega arith)) in
      let failed =
        bind-Completes (writel seen.mask norintsts) _ (λ _. fail-Completes 1 (omega arith)) in
      if-Completes seen.found _ _
        (if-Completes (has seen.mask (2 ^ 16)) _ _ timed_out (
          if-Completes (has seen.mask (2 ^ 15)) _ _ failed
            (read_response-Completes fuel c d seen.mask)))
        timed_out)

  bounced-Completes :
      (fuel : ℕ) (c : Cmd) (d : Data) (buffer : ℕ)
      → Completes (tegra_mmc_send_cmd_bounced env fuel c (some d) buffer)
  unfolding tegra_mmc_send_cmd_bounced issue
  bounced-Completes fuel c d buffer =
      bind-Completes (tegra_mmc_wait_inhibit env c (some d) 10) _ (λ free.
        if-Completes free _ _
          (if-Completes (is_high (some d) buffer) _ _ stuck-Completes (
            bind-Completes (set_up c (some d) buffer env) _ (λ _.
              if-Completes (is_refused c) _ _ (fail-Completes 1 (omega arith)) (
                bind-Completes (writew (command_word c (some d)) cmdreg) _
                  (λ _. complete-Completes fuel 0x100000 c d)))))
          (fail-Completes 1 (omega arith)))

  -- A transfer, on any hardware: where the call returns 0, the last status it read had the transfer
  -- complete, no error and no DMA interrupt pending, and it wrote that status back and waited 1 ms.
  pub tegra_mmc_send_cmd_bounced-Completed :
      (fuel : ℕ) (c : Cmd) (d : Data) (buffer : ℕ) (past : History) (words : List ℕ)
      → (tegra_mmc_send_cmd_bounced env fuel c (some d) buffer past).value
        ≡ some (record { err = 0; response = words })
      → Completed (tegra_mmc_send_cmd_bounced env fuel c (some d) buffer past).history
  tegra_mmc_send_cmd_bounced-Completed fuel c d buffer past words h =
      (bounced-Completes fuel c d buffer).completes past words h
