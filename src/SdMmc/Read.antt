-- ===== src/SdMmc/Read.antt =====
-- Block reads of Drivers/SdMmcDxe/MmcHostOp.c: `mmc_read_blocks` and `mmc_bread`.
use nintendo_switch_pkg.Prelude.{
  ℕ, zero, suc, ◌+◌, ◌-◌, ◌*◌, ◌%◌, ◌^◌, Bool, not, Option, none, some, ltb, ◌==◌, if◌then◌else◌,
}
use nintendo_switch_pkg.SdMmc.{Cmd, Data, Host, Ret, Mmc, Sd, rsp_r1, rsp_r1b}
use nintendo_switch_pkg.SdMmc.Command.{mmc_select_hwpart, mmc_set_blocklen}

-- MMC_CMD_READ_MULTIPLE_BLOCK or MMC_CMD_READ_SINGLE_BLOCK; `cmdarg` has 32 bits.
unfoldable pub read_cmd : Mmc → ℕ → ℕ → Cmd
read_cmd mmc start blkcnt = record {
  cmdidx = if ltb 1 blkcnt then 18 else 17;
  resp_type = rsp_r1;
  cmdarg = (if mmc.high_capacity then start else start * mmc.read_bl_len) % 2 ^ 32;
}

-- `blocks` has 32 bits.
unfoldable pub read_data : Mmc → ℕ → ℕ → Data
read_data mmc dst blkcnt = record {
  dest = dst;
  flags = 1;
  blocks = blkcnt % 2 ^ 32;
  blocksize = mmc.read_bl_len;
}

-- MMC_CMD_STOP_TRANSMISSION
abbrev pub stop_cmd : Cmd
stop_cmd = record { cmdidx = 12; resp_type = rsp_r1b; cmdarg = 0 }

-- The C test of an error.
unfoldable pub not_zero : ℕ → Bool
not_zero e = not (e == 0)

module _ (h : Host) where
  unfoldable pub mmc_read_blocks : Mmc → ℕ → ℕ → ℕ → h.State → Ret h.State
  mmc_read_blocks mmc dst start blkcnt s =
      let o = h.send_cmd (read_cmd mmc start blkcnt) (some (read_data mmc dst blkcnt)) s in
      let stop = h.send_cmd stop_cmd none o.state in
      if not_zero o.err
      then record { value = 0; state = o.state }
      else if not (ltb 1 blkcnt)
      then record { value = blkcnt; state = o.state }
      else if not_zero stop.err
      then record { value = 0; state = stop.state }
      else record { value = blkcnt; state = stop.state }

  -- The loop of `mmc_bread`, which returns whether it is left at its end; `none` where the fuel is
  -- used up. The counters have 64 bits.
  unfoldable pub bread_loop : ℕ → Mmc → ℕ → ℕ → ℕ → h.State → Option (Ret h.State)
  bread_loop zero mmc todo start dst s = none
  bread_loop (suc fuel) mmc todo start dst s =
      let cur = if ltb mmc.b_max todo then mmc.b_max else todo in
      let r = mmc_read_blocks mmc dst start cur s in
      let rest =
        bread_loop fuel mmc (todo - cur) ((start + cur) % 2 ^ 64) (dst + cur * mmc.read_bl_len)
          r.state in
      if r.value == cur
      then if todo - cur == 0 then some (record { value = 1; state = r.state }) else rest
      else some (record { value = 0; state = r.state })

  -- `mmc_bread` from its test of the range on.
  unfoldable pub checked_bread : ℕ → ℕ → ℕ → Sd h.State → Option (Ret (Sd h.State))
  checked_bread start blkcnt dst sd =
      if ltb sd.blk.lba ((start + blkcnt) % 2 ^ 64)
      then some (record { value = 0; state = sd })
      else let len = mmc_set_blocklen h sd.mmc sd.mmc.read_bl_len sd.host in
        if not_zero len.value
        then some (record { value = 0; state = record sd { host = len.state } })
        else elim (bread_loop (suc blkcnt) sd.mmc blkcnt start dst len.state) [
          | none ↦ none
          | some r ↦ some (record {
            value = if r.value == 1 then blkcnt else 0;
            state = record sd { host = r.state };
          })
        ]

  -- An error of `mmc_select_hwpart` is returned as an unsigned long.
  unfoldable pub mmc_bread : ℕ → ℕ → ℕ → Sd h.State → Option (Ret (Sd h.State))
  mmc_bread start blkcnt dst sd =
      let part = mmc_select_hwpart h sd.blk.hwpart sd in
      if not_zero part.value
      then some (record { value = 2 ^ 64 - part.value; state = part.state })
      else checked_bread start blkcnt dst part.state
