-- ===== src/SdMmc/Command.antt =====
-- Commands without a transfer, of Drivers/SdMmcDxe/MmcHostOp.c: polling the card's status, and
-- switching the hardware partition.
use Prim.Native.Nat.{bit_and, bit_or}
use nintendo_switch_pkg.Prelude.{
  ℕ, zero, suc, ◌-◌, ◌/◌, ◌%◌, ◌^◌, Bool, ◌&&◌, ◌||◌, not, Option, none, some, List, [], ◌∷◌, leb,
  ◌==◌, if◌then◌else◌,
}
use nintendo_switch_pkg.Prelude.Bits.{not32, shl32}
use nintendo_switch_pkg.SdMmc.{Cmd, Host, Ret, Mmc, Sd, rsp_r1, rsp_r1b}

-- The errors of ErrNo.h by their magnitudes; `eperm` is the -1 of `mmc_set_capacity`.
abbrev pub eperm : ℕ
eperm = 1

abbrev pub enodev : ℕ
enodev = 19

abbrev pub ecomm : ℕ
ecomm = 70

abbrev pub etimedout : ℕ
etimedout = 110

abbrev pub emediumtype : ℕ
emediumtype = 124

-- MMC_STATUS_RDY_FOR_DATA set, and MMC_STATUS_CURR_STATE not MMC_STATE_PRG.
unfoldable pub is_ready : ℕ → Bool
is_ready response = not (bit_and response 0x100 == 0) && not (bit_and response 0x1e00 == 0xe00)

-- A bit of MMC_STATUS_MASK set.
unfoldable pub has_error : ℕ → Bool
has_error response = not (bit_and response (not32 0x0206BF7F) == 0)

-- What a round of the loop of `mmc_send_status` comes to: the card is ready, an error is returned,
-- or the loop goes on with so many retries.
pub data Verdict : Type 0 where
  ready : Verdict
  fail : ℕ → Verdict
  wait : ℕ → Verdict

unfoldable pub verdict : ℕ → ℕ → ℕ → Verdict
verdict retries err response =
    if err == 0
    then if is_ready response
      then ready
      else if has_error response
      then fail ecomm
      else wait retries
    else if retries == 0
    then fail err
    else wait (retries - 1)

-- `cmd.cmdarg = mmc->rca << 16`, for MMC_CMD_SEND_STATUS.
unfoldable pub status_cmd : Mmc → Cmd
status_cmd mmc = record { cmdidx = 13; resp_type = rsp_r1; cmdarg = shl32 mmc.rca 16 }

-- MMC_CMD_SWITCH: MMC_SWITCH_MODE_WRITE_BYTE, an index and a value.
unfoldable pub switch_cmd : ℕ → ℕ → Cmd
switch_cmd index value = record {
  cmdidx = 6;
  resp_type = rsp_r1b;
  cmdarg = bit_or (bit_or (shl32 3 24) (shl32 index 16)) (shl32 value 8);
}

-- `capacity_gp[part_num - 4]`
unfoldable pub nth_capacity : ℕ → List ℕ → Option ℕ
nth_capacity n [] = none
nth_capacity zero (x ∷ xs) = some x
nth_capacity (suc n) (x ∷ xs) = nth_capacity n xs

unfoldable pub capacity_of : Mmc → ℕ → Option ℕ
capacity_of mmc part_num =
    if part_num == 0
    then some mmc.capacity_user
    else if leb part_num 2
    then some mmc.capacity_boot
    else if part_num == 3
    then some mmc.capacity_rpmb
    else nth_capacity (part_num - 4) mmc.capacity_gp

-- `lldiv` truncates the divisor to 32 bits, which a block length fits.
unfoldable pub mmc_set_capacity : {S : Type 0} → ℕ → Sd S → Ret (Sd S)
mmc_set_capacity part_num sd = elim (capacity_of sd.mmc part_num) [
  | none ↦ record { value = eperm; state = sd }
  | some capacity ↦ record {
    value = 0;
    state = record {
      mmc = record (sd.mmc) { capacity = capacity };
      blk = record (sd.blk) { lba = capacity / sd.mmc.read_bl_len };
      host = sd.host;
    };
  }
]

module _ (h : Host) where
  -- The loop of `mmc_send_status` and the test after it, on the values of the two counters: where
  -- no time is left, it fails even if the card is ready.
  unfoldable pub poll_status : ℕ → ℕ → Cmd → h.State → Ret h.State
  poll_status zero retries c s =
      let o = h.send_cmd c none s in
      elim (verdict retries o.err o.response) [
        | ready ↦ record { value = etimedout; state = o.state }
        | fail e ↦ record { value = e; state = o.state }
        | wait r ↦ record { value = etimedout; state = o.state }
      ]
  poll_status (suc timeout) retries c s =
      let o = h.send_cmd c none s in
      elim (verdict retries o.err o.response) [
        | ready ↦ record { value = 0; state = o.state }
        | fail e ↦ record { value = e; state = o.state }
        | wait r ↦ poll_status timeout r c o.state
      ]

  unfoldable pub mmc_send_status : Mmc → ℕ → h.State → Ret h.State
  mmc_send_status mmc timeout s = poll_status timeout 5 (status_cmd mmc) s

  -- The loop of `mmc_switch`; `ret` is the error of the last try.
  unfoldable pub try_switch : ℕ → ℕ → Mmc → Cmd → h.State → Ret h.State
  try_switch zero ret mmc c s = record { value = ret; state = s }
  try_switch (suc retries) ret mmc c s =
      let o = h.send_cmd c none s in
      let rest = try_switch retries o.err mmc c o.state in
      if o.err == 0 then mmc_send_status mmc 1000 o.state else rest

  unfoldable pub mmc_switch : Mmc → ℕ → ℕ → h.State → Ret h.State
  mmc_switch mmc index value s = try_switch 3 0 mmc (switch_cmd index value) s

  -- EXT_CSD_PART_CONF is 179, PART_ACCESS_MASK 7. `hwpart` is an unsigned char.
  unfoldable pub mmc_switch_part : ℕ → Sd h.State → Ret (Sd h.State)
  mmc_switch_part part_num sd =
      let access = bit_or (bit_and sd.mmc.part_config (not32 7)) (bit_and part_num 7) in
      let r = mmc_switch sd.mmc 179 (access % 2 ^ 8) sd.host in
      let switched = record sd { host = r.state } in
      let c = mmc_set_capacity part_num switched in
      let blk = record (c.state.blk) { hwpart = part_num % 2 ^ 8 } in
      if r.value == 0 || (r.value == enodev && part_num == 0)
      then record { value = c.value; state = record (c.state) { blk = blk } }
      else record { value = r.value; state = switched }

  unfoldable pub mmc_select_hwpart : ℕ → Sd h.State → Ret (Sd h.State)
  mmc_select_hwpart hwpart sd =
      if sd.blk.hwpart == hwpart
      then record { value = 0; state = sd }
      else if sd.mmc.part_config == 0xff
      then record { value = emediumtype; state = sd }
      else mmc_switch_part hwpart sd

  unfoldable pub mmc_set_blocklen : Mmc → ℕ → h.State → Ret h.State
  mmc_set_blocklen mmc len s =
      if mmc.ddr_mode
      then record { value = 0; state = s }
      else let o = h.send_cmd (record { cmdidx = 16; resp_type = rsp_r1; cmdarg = len }) none s in
        record { value = o.err; state = o.state }
