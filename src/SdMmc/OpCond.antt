-- ===== src/SdMmc/OpCond.antt =====
-- The operating conditions, of Drivers/SdMmcDxe/MmcHostOp.c: reset, the check for version 2 of the SD
-- specification, and the loops that wait for the card to power up.
use Prim.Native.Nat.{bit_and, bit_or}
use nintendo_switch_pkg.Prelude.{
  ℕ, zero, suc, ◌+◌, ◌-◌, ◌%◌, ◌^◌, Bool, true, false, not, Option, none, some, ltb, ◌==◌,
  if◌then◌else◌,
}
use nintendo_switch_pkg.Prelude.Bits.{shl32}
use nintendo_switch_pkg.SdMmc.{Cmd, Host, Ret, rsp_r1}
use nintendo_switch_pkg.SdMmc.Ident.{
  Config, Ident, Driver, with_id, with_mmc, done, app_cmd, send, sd_version_1_0, sd_version_2,
  mmc_version_unknown, eopnotsupp,
}

-- OCR_BUSY, which is set when the card has powered up.
unfoldable pub powered_up : ℕ → Bool
powered_up ocr = not (bit_and ocr 0x80000000 == 0)

-- `(ocr & OCR_HCS) == OCR_HCS`
unfoldable pub has_high_capacity : ℕ → Bool
has_high_capacity ocr = bit_and ocr 0x40000000 == 0x40000000

-- SD_CMD_SEND_IF_COND, MMC_RSP_R7.
unfoldable pub if_cond_cmd : Config → Cmd
if_cond_cmd cfg = record {
  cmdidx = 8;
  resp_type = rsp_r1;
  cmdarg = bit_or (shl32 (if bit_and cfg.voltages 0xff8000 == 0 then 0 else 1) 8) 0xaa;
}

-- SD_CMD_APP_SEND_OP_COND, MMC_RSP_R3.
unfoldable pub op_cond_cmd : Ident → Cmd
op_cond_cmd id =
    let voltages = bit_and id.cfg.voltages 0xff8000 in
    record {
      cmdidx = 41;
      resp_type = 1;
      cmdarg = if id.version == sd_version_2 then bit_or voltages 0x40000000 else voltages;
    }

-- MMC_CMD_SEND_OP_COND: OCR_HCS, OCR_VOLTAGE_MASK and OCR_ACCESS_MODE.
unfoldable pub mmc_op_cond_cmd : Ident → Bool → Cmd
mmc_op_cond_cmd id use_arg =
    let voltages = bit_and id.cfg.voltages (bit_and id.ocr 0x007FFF80) in
    let arg = bit_or (bit_or 0x40000000 voltages) (bit_and id.ocr 0x60000000) in
    record { cmdidx = 1; resp_type = 1; cmdarg = if use_arg then arg else 0 }

-- What `sd_send_op_cond` keeps of the OCR, after its loop.
unfoldable pub sd_powered_up : {S : Type 0} → ℕ → Driver S → Ret (Driver S)
sd_powered_up ocr st =
    let version = if st.id.version == sd_version_2 then sd_version_2 else sd_version_1_0 in
    let mmc = record (st.sd.mmc) { high_capacity = has_high_capacity ocr; rca = 0 } in
    done 0 (with_mmc mmc (with_id (record (st.id) { version = version; ocr = ocr }) st))

module _ (h : Host) where
  unfoldable pub mmc_go_idle : Driver h.State → Ret (Driver h.State)
  mmc_go_idle st =
      send h (record { cmdidx = 0; resp_type = 0; cmdarg = 0 }) none st (λ o st'. done 0 st')

  unfoldable pub mmc_send_if_cond : Driver h.State → Ret (Driver h.State)
  mmc_send_if_cond st = send h (if_cond_cmd st.id.cfg) none st (λ o st'.
      if bit_and o.response 0xff == 0xaa
      then done 0 (with_id (record (st'.id) { version = sd_version_2 }) st')
      else done eopnotsupp st')

  -- The loop of `sd_send_op_cond`, on the value of `timeout`.
  unfoldable pub poll_op_cond : ℕ → Driver h.State → Ret (Driver h.State)
  poll_op_cond zero st = send h (app_cmd 0) none st (λ _ st'.
      send h (op_cond_cmd st'.id) none st' (λ o st''.
        if powered_up o.response then sd_powered_up o.response st'' else done eopnotsupp st''))
  poll_op_cond (suc timeout) st = send h (app_cmd 0) none st (λ _ st'.
      send h (op_cond_cmd st'.id) none st' (λ o st''.
        let again = poll_op_cond timeout st'' in
        if powered_up o.response then sd_powered_up o.response st'' else again))

  unfoldable pub sd_send_op_cond : Driver h.State → Ret (Driver h.State)
  sd_send_op_cond st = poll_op_cond 1000 st

  unfoldable pub mmc_send_op_cond_iter : Bool → Driver h.State → Ret (Driver h.State)
  mmc_send_op_cond_iter use_arg st =
      send h (mmc_op_cond_cmd st.id use_arg) none st
        (λ o st'. done 0 (with_id (record (st'.id) { ocr = o.response }) st'))

  -- The first round asks without an argument, the second only if the card is not powered up; the
  -- result of the reset is not looked at.
  unfoldable pub mmc_send_op_cond : Driver h.State → Ret (Driver h.State)
  mmc_send_op_cond st =
      let pending = λ (st' : Driver h.State).
        done 0 (with_id (record (st'.id) { op_cond_pending = true }) st') in
      let first = mmc_send_op_cond_iter false ((mmc_go_idle st).state) in
      let second = mmc_send_op_cond_iter true first.state in
      if first.value == 0
      then if powered_up first.state.id.ocr
        then pending first.state
        else if second.value == 0
        then pending second.state
        else second
      else first

  -- The loop of `mmc_complete_op_cond`, which a timer ends: `none` when the fuel is used up.
  unfoldable pub poll_mmc_op_cond : ℕ → ℕ → Driver h.State → Option (Ret (Driver h.State))
  poll_mmc_op_cond zero start st = none
  poll_mmc_op_cond (suc fuel) start st =
      let r = mmc_send_op_cond_iter true st in
      let again = poll_mmc_op_cond fuel start r.state in
      let elapsed = (h.get_timer r.state.sd.host + 2 ^ 64 - start) % 2 ^ 64 in
      if r.value == 0
      then if powered_up r.state.id.ocr
        then some r
        else if ltb 1000 elapsed
        then some (done eopnotsupp r.state)
        else again
      else some r

  -- The end of `mmc_complete_op_cond`.
  unfoldable pub mmc_powered_up : Driver h.State → Ret (Driver h.State)
  mmc_powered_up st =
      let mmc = record (st.sd.mmc) { high_capacity = has_high_capacity st.id.ocr; rca = 1 } in
      done 0 (with_mmc mmc (with_id (record (st.id) { version = mmc_version_unknown }) st))

  unfoldable pub mmc_complete_op_cond : ℕ → Driver h.State → Option (Ret (Driver h.State))
  mmc_complete_op_cond fuel st =
      let st' = with_id (record (st.id) { op_cond_pending = false }) st in
      let idle = (mmc_go_idle st').state in
      if powered_up st.id.ocr
      then some (mmc_powered_up st')
      else elim (poll_mmc_op_cond fuel (h.get_timer idle.sd.host % 2 ^ 32) idle) [
        | none ↦ none
        | some r ↦ if r.value == 0 then some (mmc_powered_up r.state) else some r
      ]
