-- ===== src/SdMmc/SdFeatures.antt =====
-- What an SD card can do, of Drivers/SdMmcDxe/MmcHostOp.c: the configuration register and the switch
-- to high speed (`sd_change_freq`), and the status register (`sd_read_ssr`). The buffers on the stack
-- are addresses.
use Prim.Native.Nat.{bit_and, bit_or}
use nintendo_switch_pkg.Prelude.{
  ℕ, zero, suc, ◌+◌, ◌*◌, ◌/◌, not, ◌&&◌, ◌||◌, none, some, List, [], ◌∷◌, leb, ◌==◌, if◌then◌else◌,
}
use nintendo_switch_pkg.Prelude.Bits.{not32, shl32, shr}
use nintendo_switch_pkg.SdMmc.{Cmd, Data, Host, Ret, rsp_r1}
use nintendo_switch_pkg.SdMmc.Ident.{
  Ssr, Driver, with_id, done, rca_arg, app_cmd, be32_at, send, ok_then, sd_version_1_0,
  sd_version_1_10, sd_version_2, sd_version_3,
}

-- A transfer of one block from the card, MMC_DATA_READ.
unfoldable pub one_block : ℕ → ℕ → Data
one_block dest size = record { dest = dest; flags = 1; blocks = 1; blocksize = size }

-- SD_CMD_SWITCH_FUNC.
unfoldable pub switch_func_cmd : ℕ → ℕ → ℕ → Cmd
switch_func_cmd mode group value =
    let others = bit_and (bit_or (shl32 mode 31) 0xffffff) (not32 (shl32 0xf (group * 4))) in
    record { cmdidx = 6; resp_type = rsp_r1; cmdarg = bit_or others (shl32 value (group * 4)) }

-- The version in the first word of the SCR.
unfoldable pub scr_version : ℕ → ℕ
scr_version scr_0 =
    let spec = bit_and (shr scr_0 24) 0xf in
    if spec == 1
    then sd_version_1_10
    else if spec == 2
    then if bit_and (shr scr_0 15) 1 == 0 then sd_version_2 else sd_version_3
    else sd_version_1_0

-- `sd_au_size`, in blocks of 512 bytes.
unfoldable pub nth_au_size : ℕ → List ℕ → ℕ
nth_au_size n [] = 0
nth_au_size zero (x ∷ xs) = x
nth_au_size (suc n) (x ∷ xs) = nth_au_size n xs

unfoldable pub sd_au_size : ℕ → ℕ
sd_au_size au = nth_au_size au (
    0 ∷ 32 ∷ 64 ∷ 128 ∷ 256 ∷ 512 ∷ 1024 ∷ 2048 ∷ 4096 ∷ 8192 ∷ 16384 ∷ 24576 ∷ 32768 ∷ 49152
    ∷ 65536 ∷ 131072 ∷ [])

-- The fields of the status register, from its third and fourth words.
unfoldable pub read_ssr : ℕ → ℕ → ℕ → Ssr → Ssr
read_ssr version ssr_2 ssr_3 old =
    let au = bit_and (shr ssr_2 12) 0xF in
    let es = bit_or (bit_and (shr ssr_3 24) 0xFF) (shl32 (bit_and ssr_2 0xFF) 8) in
    let et = bit_and (shr ssr_3 18) 0x3F in
    let eo = bit_and (shr ssr_3 16) 0x3 in
    if leb au 9 || version == sd_version_3
    then if not (es == 0) && not (et == 0)
      then record { au = sd_au_size au; erase_timeout = et * 1000 / es; erase_offset = eo * 1000 }
      else record old { au = sd_au_size au }
    else old

module _ (h : Host) where
  -- A transfer that is tried again so many times: `if (timeout--) goto retry;`.
  unfoldable pub send_again : ℕ → Cmd → Data → Driver h.State → Ret (Driver h.State)
  send_again zero c d st = send h c (some d) st (λ _ st'. done 0 st')
  send_again (suc timeout) c d st =
      let r = send h c (some d) st (λ _ st'. done 0 st') in
      let again = send_again timeout c d r.state in if r.value == 0 then r else again

  unfoldable pub sd_switch : ℕ → ℕ → ℕ → ℕ → Driver h.State → Ret (Driver h.State)
  sd_switch mode group value resp st =
      send h (switch_func_cmd mode group value) (some (one_block resp 64)) st (λ _ st'. done 0 st')

  -- `be32_to_cpu(buffer[i])`
  unfoldable pub word_of : ℕ → ℕ → Driver h.State → ℕ
  word_of buffer i st = be32_at (h.memory st.sd.host) (buffer + 4 * i)

  -- The SCR: SD_CMD_APP_SEND_SCR.
  unfoldable pub read_scr : ℕ → Driver h.State → Ret (Driver h.State)
  read_scr scr st = send h (app_cmd (rca_arg st)) none st (λ _ st'.
      send_again 3 (record { cmdidx = 51; resp_type = rsp_r1; cmdarg = 0 }) (one_block scr 8) st')

  -- What `sd_change_freq` takes from the SCR; SD_DATA_4BIT and MMC_MODE_4BIT.
  unfoldable pub keep_scr : ℕ → Driver h.State → Driver h.State
  keep_scr scr st =
      let scr_0 = word_of scr 0 st in
      let caps = st.id.card_caps in
      with_id
        (record (st.id) {
          scr_0 = scr_0;
          scr_1 = word_of scr 1 st;
          version = scr_version scr_0;
          card_caps = if bit_and scr_0 0x00040000 == 0 then caps else bit_or caps 4;
        })
        st

  -- The loop that asks whether high speed is supported, while SD_HIGHSPEED_BUSY is set.
  unfoldable pub check_high_speed : ℕ → ℕ → Driver h.State → Ret (Driver h.State)
  check_high_speed zero status st = done 0 st
  check_high_speed (suc timeout) status st =
      let r = sd_switch 0 0 1 status st in
      let again = check_high_speed timeout status r.state in
      if r.value == 0
      then if bit_and (word_of status 7 r.state) 0x00020000 == 0 then done 0 r.state else again
      else r

  -- MMC_MODE_HS_52MHz and MMC_MODE_HS of the host, then the switch itself.
  unfoldable pub switch_high_speed : ℕ → Driver h.State → Ret (Driver h.State)
  switch_high_speed status st =
      let caps = st.id.cfg.host_caps in
      if bit_and caps 2 == 0 || bit_and caps 1 == 0
      then done 0 st
      else ok_then h (sd_switch 1 0 1 status st) (λ st'.
        if bit_and (word_of status 4 st') 0x0f000000 == 0x01000000
        then done 0 (with_id (record (st'.id) { card_caps = bit_or st'.id.card_caps 1 }) st')
        else done 0 st')

  unfoldable pub sd_change_freq : ℕ → ℕ → Driver h.State → Ret (Driver h.State)
  sd_change_freq scr status st =
      ok_then h (read_scr scr (with_id (record (st.id) { card_caps = 0 }) st)) (λ st'.
        let st'' = keep_scr scr st' in
        if st''.id.version == sd_version_1_0
        then done 0 st''
        else ok_then h (check_high_speed 4 status st'') (λ checked.
          if bit_and (word_of status 3 checked) 0x00020000 == 0
          then done 0 checked
          else switch_high_speed status checked))

  -- SD_CMD_APP_SD_STATUS.
  unfoldable pub sd_read_ssr : ℕ → Driver h.State → Ret (Driver h.State)
  sd_read_ssr ssr st =
      let c : Cmd = record { cmdidx = 13; resp_type = rsp_r1; cmdarg = 0 } in
      ok_then h
        (send h (app_cmd (rca_arg st)) none st (λ _ st'. send_again 3 c (one_block ssr 64) st'))
        (λ st'.
          let kept = read_ssr st'.id.version (word_of ssr 2 st') (word_of ssr 3 st') st'.id.ssr in
          done 0 (with_id (record (st'.id) { ssr = kept }) st'))
