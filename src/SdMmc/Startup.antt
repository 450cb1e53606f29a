-- ===== src/SdMmc/Startup.antt =====
-- `mmc_startup` of Drivers/SdMmcDxe/MmcHostOp.c: the card's address and its data (CSD), its capacity,
-- the bus width and the clock, and the description of the block device. The CID is not kept.
use Prim.Native.Nat.{bit_and, bit_or}
use nintendo_switch_pkg.Prelude.{
  ℕ, zero, suc, ◌+◌, ◌*◌, ◌/◌, ◌%◌, ◌^◌, Bool, not, ◌&&◌, ◌||◌, Option, none, some, List, [], ◌∷◌,
  ltb, ◌==◌, if◌then◌else◌,
}
use nintendo_switch_pkg.Prelude.Assert.{◌>>=◌, ◌>>◌, assert}
use nintendo_switch_pkg.Prelude.Bits.{shl32, shr}
use nintendo_switch_pkg.SdMmc.{Cmd, Host, Ret, rsp_r1}
use nintendo_switch_pkg.SdMmc.Command.{mmc_set_capacity}
use nintendo_switch_pkg.SdMmc.Ident.{
  Driver, is_sd, with_host, with_id, with_mmc, done, rca_arg, app_cmd, send, ok_then,
  mmc_set_bus_width, mmc_set_clock, mmc_version_unknown,
}
use nintendo_switch_pkg.SdMmc.SdFeatures.{sd_change_freq, sd_read_ssr}

-- MMC_VERSION_4.
abbrev mmc_version_4 : ℕ
mmc_version_4 = 0x40040000

-- MMC_RSP_R2.
abbrev rsp_r2 : ℕ
rsp_r2 = 7

-- The version of an MMC card, from the CSD: MMC_VERSION_1_2 where the field is not known.
unfoldable pub csd_version : ℕ → ℕ
csd_version csd_0 =
    let version = bit_and (shr csd_0 26) 0xf in
    if version == 1
    then 0x40010400
    else if version == 2
    then 0x40020200
    else if version == 3
    then 0x40030000
    else if version == 4
    then mmc_version_4
    else 0x40010200

unfoldable pub nth_number : ℕ → List ℕ → ℕ
nth_number n [] = 0
nth_number zero (x ∷ xs) = x
nth_number (suc n) (x ∷ xs) = nth_number n xs

-- `fbase` has four entries; the code reads past them where the three bits say so: 0 here.
unfoldable pub fbase : ℕ → ℕ
fbase n = nth_number n (10000 ∷ 100000 ∷ 1000000 ∷ 10000000 ∷ [])

unfoldable pub multipliers : ℕ → ℕ
multipliers n =
    nth_number n (0 ∷ 10 ∷ 12 ∷ 13 ∷ 15 ∷ 20 ∷ 25 ∷ 30 ∷ 35 ∷ 40 ∷ 45 ∷ 50 ∷ 55 ∷ 60 ∷ 70 ∷ 80 ∷ [])

-- `csize` and `cmult` of a card, from the words of the CSD.
unfoldable pub csd_size : Bool → ℕ → ℕ → ℕ
csd_size high_capacity csd_1 csd_2 =
    if high_capacity
    then bit_or (shl32 (bit_and csd_1 0x3f) 16) (shr (bit_and csd_2 0xffff0000) 16)
    else bit_or (shl32 (bit_and csd_1 0x3ff) 2) (shr (bit_and csd_2 0xc0000000) 30)

unfoldable pub csd_mult : Bool → ℕ → ℕ
csd_mult high_capacity csd_2 = if high_capacity then 8 else shr (bit_and csd_2 0x00038000) 15

-- READ_BL_LEN and WRITE_BL_LEN.
unfoldable pub csd_read_bl : ℕ → ℕ
csd_read_bl csd_1 = bit_and (shr csd_1 16) 0xf

unfoldable pub csd_write_bl : ℕ → ℕ
csd_write_bl csd_3 = bit_and (shr csd_3 22) 0xf

-- MMC_MAX_BLOCK_LEN is 512.
unfoldable pub at_most_512 : ℕ → ℕ
at_most_512 len = if ltb 512 len then 512 else len

unfoldable pub csd_capacity : Bool → ℕ → ℕ → ℕ
csd_capacity high_capacity csd_1 csd_2 =
    let blocks =
      (csd_size high_capacity csd_1 csd_2 + 1) * 2 ^ (csd_mult high_capacity csd_2 + 2) % 2 ^ 64 in
    blocks * 2 ^ csd_read_bl csd_1 % 2 ^ 64

-- What `mmc_startup` takes from the four words of the CSD.
unfoldable pub keep_csd : {S : Type 0} → ℕ → ℕ → ℕ → ℕ → Driver S → Driver S
keep_csd w_0 w_1 w_2 w_3 st =
    let version = if st.id.version == mmc_version_unknown then csd_version w_0 else st.id.version in
    let read_len = 2 ^ csd_read_bl w_1 in
    let write_len = if is_sd version then read_len else 2 ^ csd_write_bl w_3 in
    let id = record (st.id) {
      csd_0 = w_0;
      csd_1 = w_1;
      csd_2 = w_2;
      csd_3 = w_3;
      version = version;
      tran_speed = fbase (bit_and w_0 7) * multipliers (bit_and (shr w_0 3) 0xf) % 2 ^ 32;
      dsr_imp = bit_and (shr w_1 12) 1;
      write_bl_len = at_most_512 write_len;
    } in
    let mmc = record (st.sd.mmc) {
      read_bl_len = at_most_512 read_len;
      capacity_user = csd_capacity st.sd.mmc.high_capacity w_1 w_2;
      capacity_boot = 0;
      capacity_rpmb = 0;
      capacity_gp = 0 ∷ 0 ∷ 0 ∷ 0 ∷ [];
    } in
    with_mmc mmc (with_id id st)

-- `lldiv(mmc->capacity, mmc->read_bl_len)`, and the fields of the block device that reading uses.
unfoldable pub describe : {S : Type 0} → Driver S → Driver S
describe st =
    let len = if st.sd.mmc.ddr_mode then 512 else st.sd.mmc.read_bl_len in
    let write_len = if st.sd.mmc.ddr_mode then 512 else st.id.write_bl_len in
    record {
      id = record (st.id) { write_bl_len = write_len };
      sd = record {
        mmc = record (st.sd.mmc) { read_bl_len = len };
        blk = record (st.sd.blk) { hwpart = 0; blksz = len; lba = st.sd.mmc.capacity / len };
        host = st.sd.host;
      };
    }

-- The address that a card gives itself is kept, if it is an SD card.
unfoldable pub keep_rca : {S : Type 0} → ℕ → Driver S → Driver S
keep_rca response st =
    let rca = if is_sd st.id.version then bit_and (shr response 16) 0xffff else st.sd.mmc.rca in
    with_mmc (record (st.sd.mmc) { rca = rca }) st

module _ (h : Host) where
  -- MMC_CMD_ALL_SEND_CID, SD_CMD_SEND_RELATIVE_ADDR and MMC_CMD_SEND_CSD.
  unfoldable pub read_csd : Driver h.State → Ret (Driver h.State)
  read_csd st =
      send h (record { cmdidx = 2; resp_type = rsp_r2; cmdarg = 0 }) none st
        (λ _ st'.
          send h (record { cmdidx = 3; resp_type = rsp_r1; cmdarg = rca_arg st' }) none st'
            (λ o st''.
              let named = keep_rca o.response st'' in
              send h (record { cmdidx = 9; resp_type = rsp_r2; cmdarg = rca_arg named }) none named
                (λ csd st'''.
                  done 0
                    (keep_csd csd.response csd.response_1 csd.response_2 csd.response_3 st'''))))

  -- MMC_CMD_SET_DSR, a failure of which is only printed.
  unfoldable pub set_dsr : Driver h.State → Driver h.State
  set_dsr st =
      let c : Cmd = record {
        cmdidx = 4;
        resp_type = 0;
        cmdarg = shl32 (bit_and st.id.dsr 0xffff) 16;
      } in
      if not (st.id.dsr_imp == 0) && not (st.id.dsr == 0xffffffff)
      then with_host ((h.send_cmd c none st.sd.host).state) st
      else st

  -- MMC_CMD_SELECT_CARD, whose result is overwritten; then `erase_grp_size` and `part_config`.
  unfoldable pub select_card : Driver h.State → Driver h.State
  select_card st =
      let c : Cmd = record { cmdidx = 7; resp_type = rsp_r1; cmdarg = rca_arg st } in
      let selected = with_host ((h.send_cmd c none st.sd.host).state) st in
      with_mmc (record (st.sd.mmc) { part_config = 0xff })
        (with_id (record (st.id) { erase_grp_size = 1 }) selected)

  -- SD_CMD_APP_SET_BUS_WIDTH, for four lines.
  unfoldable pub widen_bus : Driver h.State → Ret (Driver h.State)
  widen_bus st =
      if bit_and st.id.card_caps 4 == 0
      then done 0 st
      else send h (app_cmd (rca_arg st)) none st (λ _ st'.
        send h (record { cmdidx = 6; resp_type = rsp_r1; cmdarg = 2 }) none st'
          (λ _ st''. done 0 (mmc_set_bus_width h 4 st'')))

  -- From `sd_change_freq` to the choice of `tran_speed`.
  unfoldable pub set_up_sd : ℕ → ℕ → ℕ → Driver h.State → Ret (Driver h.State)
  set_up_sd scr status ssr st = ok_then h (sd_change_freq h scr status st) (λ st'.
      let caps = bit_and st'.id.card_caps st'.id.cfg.host_caps in
      ok_then h (widen_bus (with_id (record (st'.id) { card_caps = caps }) st')) (λ wide.
        ok_then h (sd_read_ssr h ssr wide) (λ read.
          let speed = if bit_and read.id.card_caps 1 == 0 then 25000000 else 50000000 in
          done 0 (with_id (record (read.id) { tran_speed = speed }) read))))

  -- `mmc_set_capacity(mmc, mBlkDesc.hwpart)`
  unfoldable pub set_capacity : Driver h.State → Ret (Driver h.State)
  set_capacity st =
      let r = mmc_set_capacity st.sd.blk.hwpart st.sd in done r.value (record st { sd = r.state })

  -- The end of `mmc_startup`, for an SD card; the version that `sd_change_freq` sets is one of SD.
  unfoldable pub finish_sd : ℕ → ℕ → ℕ → Driver h.State → Ret (Driver h.State)
  finish_sd scr status ssr st =
      ok_then h (set_up_sd scr status ssr st)
        (λ st'. done 0 (describe (mmc_set_clock h st'.id.tran_speed st')))

  -- The rest, once the CSD is read. A card that is not an SD card meets an `ASSERT(FALSE)`.
  unfoldable pub start_card : ℕ → ℕ → ℕ → Driver h.State → Option (Ret (Driver h.State))
  start_card scr status ssr st =
      let selected = select_card (set_dsr st) in
      let sized = set_capacity selected in
      let finished =
        assert (is_sd selected.id.version) >> some (finish_sd scr status ssr sized.state) in
      assert (is_sd selected.id.version || ltb selected.id.version mmc_version_4)
      >> (if sized.value == 0 then finished else some sized)

  -- `ASSERT(err == 0)` on the way out.
  unfoldable pub mmc_startup : ℕ → ℕ → ℕ → Driver h.State → Option (Ret (Driver h.State))
  mmc_startup scr status ssr st =
      let r = read_csd st in
      let rest = start_card scr status ssr r.state in
      (if r.value == 0 then rest else some r) >>= λ out. assert (out.value == 0) >> some out
