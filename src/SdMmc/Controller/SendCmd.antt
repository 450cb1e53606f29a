-- ===== src/SdMmc/Controller/SendCmd.antt =====
-- `tegra_mmc_send_cmd_bounced` of Drivers/SdMmcDxe/SdMmc.c. The errors are magnitudes: 1 and 110, which
-- is -ETIMEDOUT. `none` where the assertion on the buffer fails, or where the fuel of the last wait is
-- used up.
use Prim.Native.Nat.{bit_or}
use nintendo_switch_pkg.Prelude.{
  ℕ, ◌-◌, ◌^◌, Bool, true, false, not, ◌&&◌, Option, none, some, List, [], ◌∷◌, ltb, if◌then◌else◌,
}
use nintendo_switch_pkg.Prelude.Bits.{shl32}
use nintendo_switch_pkg.SdMmc.{Cmd, Data}
use nintendo_switch_pkg.SdMmc.Controller.{
  Env, Io, ◌>>=◌, ◌>>◌, return, argument, cmdreg, rspreg0, norintsts, writel, writew, udelay, readl,
}
use nintendo_switch_pkg.SdMmc.Controller.Transfer.{
  has, End, ended, broken, late, tegra_mmc_wait_inhibit, tegra_mmc_prepare_data,
  tegra_mmc_set_transfer_mode, wait_command, wait_busy, long_response, wait_transfer,
}

-- What is returned, and the words of `cmd->response` that are written.
pub record Reply : Type 0 where
  pub err : ℕ
  pub response : List ℕ

abbrev pub fail : ℕ → Io (Option Reply)
fail e = return (some (record { err = e; response = [] }))

-- The last wait of a call that succeeds.
unfoldable pub done_after : List ℕ → Io (Option Reply)
done_after response = udelay 1000 >> return (some (record { err = 0; response = response }))

unfoldable pub after_transfer : List ℕ → Option End → Io (Option Reply)
after_transfer response none = return none
after_transfer response (some (ended mask)) = done_after response
after_transfer response (some broken) = fail 1
after_transfer response (some late) = fail 1

unfoldable pub with_data : Option Data → Bool
with_data none = false
with_data (some d) = true

-- The low byte of the command register.
unfoldable pub response_type : ℕ → ℕ
response_type resp_type =
    if has resp_type 1 then if has resp_type 2 then 1 else if has resp_type 8 then 3 else 2 else 0

unfoldable pub command_flags : Cmd → Option Data → ℕ
command_flags c d =
    let crc =
      if has c.resp_type 4
      then bit_or (response_type c.resp_type) 8
      else response_type c.resp_type in
    let index = if has c.resp_type 16 then bit_or crc 16 else crc in
    if with_data d then bit_or index 32 else index

unfoldable pub command_word : Cmd → Option Data → ℕ
command_word c d = bit_or (shl32 c.cmdidx 8) (command_flags c d)

-- A response of 136 bits that may be busy is refused.
unfoldable pub is_refused : Cmd → Bool
is_refused c = has c.resp_type 2 && has c.resp_type 8

-- `__UINT32_MAX__` and above.
unfoldable pub is_high : Option Data → ℕ → Bool
is_high d buffer = with_data d && not (ltb buffer (2 ^ 32 - 1))

-- The set-up of a transfer and of its mode, around the argument.
unfoldable pub set_up : Cmd → Option Data → ℕ → Env → Io (Unit {0})
set_up c none buffer env = writel c.cmdarg argument
set_up c (some d) buffer env = do
  tegra_mmc_prepare_data env d buffer
  writel c.cmdarg argument
  tegra_mmc_set_transfer_mode d

module _ (env : Env) where
  -- From the read of the response to the return.
  unfoldable pub finish_data : ℕ → Option Data → List ℕ → Io (Option Reply)
  finish_data fuel none response past = done_after response past
  finish_data fuel (some d) response past =
      (wait_transfer env fuel (env.time past) >>= after_transfer response) past

  unfoldable pub read_response : ℕ → Cmd → Option Data → ℕ → Io (Option Reply)
  read_response fuel c d mask =
      let long = long_response env >>= finish_data fuel d in
      let short = readl env rspreg0 >>= λ w. finish_data fuel d (w ∷ []) in
      let stuck = writel mask norintsts >> fail 110 in
      let busy = wait_busy env 0x100000 >>= λ free. if free then short else stuck in
      if has c.resp_type 1
      then if has c.resp_type 2 then long else if has c.resp_type 8 then busy else short
      else finish_data fuel d []

  -- From the loop that waits for the command on.
  unfoldable pub complete : ℕ → ℕ → Cmd → Option Data → Io (Option Reply)
  complete fuel retry c d = wait_command env (with_data d) retry 0 >>= λ seen.
      let timed_out = writel seen.mask norintsts >> fail 110 in
      let failed = writel seen.mask norintsts >> fail 1 in
      let answered = read_response fuel c d seen.mask in
      if seen.found
      then if has seen.mask (2 ^ 16)
        then timed_out
        else if has seen.mask (2 ^ 15)
        then failed
        else answered
      else timed_out

  unfoldable pub issue : ℕ → Cmd → Option Data → ℕ → Io (Option Reply)
  issue fuel c d buffer =
      set_up c d buffer env
      >> (let sent = writew (command_word c d) cmdreg >> complete fuel 0x100000 c d in
          if is_refused c then fail 1 else sent)

  -- `ASSERT(bounce_buffer < __UINT32_MAX__)`, for a transfer.
  unfoldable pub tegra_mmc_send_cmd_bounced : ℕ → Cmd → Option Data → ℕ → Io (Option Reply)
  tegra_mmc_send_cmd_bounced fuel c d buffer = tegra_mmc_wait_inhibit env c d 10 >>= λ free.
      let go = issue fuel c d buffer in
      if free then if is_high d buffer then return none else go else fail 1
