-- ===== src/SdMmc/BlockIo.antt =====
-- The block device of Drivers/SdMmcDxe/EfiBlkDeviceOp.c.
use nintendo_switch_pkg.Prelude.{
  ℕ, zero, suc, ◌+◌, ◌-◌, ◌*◌, ◌/◌, ◌%◌, ◌^◌, not, Option, none, some, ltb, ◌==◌, if◌then◌else◌,
}
use nintendo_switch_pkg.Prelude.Assert.{◌>>=◌, ◌>>◌, assert}
use nintendo_switch_pkg.SdMmc.{Host, Ret, BlkDesc, Sd}
use nintendo_switch_pkg.SdMmc.Read.{mmc_bread}

-- The statuses that the device returns.
pub data EfiStatus : Type 0 where
  success : EfiStatus
  media_changed : EfiStatus
  invalid_parameter : EfiStatus
  bad_buffer_size : EfiStatus
  device_error : EfiStatus
  unsupported : EfiStatus

-- The fields of EFI_BLOCK_IO_MEDIA that the device reads.
pub record BlockMedia : Type 0 where
  pub media_id : ℕ
  pub block_size : ℕ
  pub last_block : ℕ

-- The medium that SdMmc.c fills in from the descriptor of the card: `MediaId` is the template's
-- SIGNATURE_32('e', 'm', 'm', 'c'), and `LastBlock` the number of blocks.
unfoldable pub block_media : BlkDesc → BlockMedia
block_media blk = record { media_id = 0x636d6d65; block_size = blk.blksz; last_block = blk.lba }

-- What a round of `MmcReadInternal` comes to: a result, or the variables of the next round.
pub data Next (S : Type 0) : Type 0 where
  done : ℕ → S → Next S
  go : ℕ → ℕ → ℕ → ℕ → S → Next S

module _ (h : Host) (bs : ℕ) where
  -- A round at label `read`: a read of `ReadSize` bytes where more is left, else of what is left.
  -- Where a read fails, `OpBlkSize` is halved. `Ret` has 32 bits, `DataAddr` 64.
  unfoldable pub read_step : ℕ → ℕ → ℕ → ℕ → Sd h.State → Option (Next (Sd h.State))
  read_step op addr buf len sd =
      let read_size = bs * op % 2 ^ 32 in
      let more = ltb read_size len in
      let cur = if more then read_size else len in
      if len == 0 then some (done 1 sd) else do
        r ← mmc_bread h (addr / bs) (cur / bs) buf sd
        some (
            if r.value % 2 ^ 32 == 0
            then if ltb 1 op then go (op / 2) addr buf len r.state else done 0 r.state
            else if more
            then go op ((addr + cur) % 2 ^ 64) (buf + cur) (len - cur) r.state
            else done 1 r.state)

  -- The rounds; `none` where the fuel is used up.
  unfoldable pub read_loop : ℕ → ℕ → ℕ → ℕ → ℕ → Sd h.State → Option (Ret (Sd h.State))
  read_loop zero op addr buf len sd = none
  read_loop (suc fuel) op addr buf len sd = elim (read_step op addr buf len sd) [
    | none ↦ none
    | some (done value s) ↦ some (record { value = value; state = s })
    | some (go op' addr' buf' len' s) ↦ read_loop fuel op' addr' buf' len' s
  ]

  -- The operation size starts at 64 blocks.
  unfoldable pub mmc_read_internal : ℕ → ℕ → ℕ → Sd h.State → Option (Ret (Sd h.State))
  mmc_read_internal addr buf len sd = do
    assert (addr % bs == 0)
    assert (len % bs == 0)
    read_loop (suc (64 + len)) 64 addr buf len sd

-- The status of `MMCHSReadBlocks`, and the state after.
pub record Served (S : Type 0) : Type 0 where
  pub status : EfiStatus
  pub state : S

-- The checks of `MMCHSReadBlocks` in their order, on 64-bit words; `none` where they all pass. A
-- buffer at 0 is NULL.
unfoldable pub read_check : BlockMedia → ℕ → ℕ → ℕ → ℕ → Option EfiStatus
read_check media media_id lba size buffer =
    if not (media_id == media.media_id)
    then some media_changed
    else if ltb media.last_block lba
    then some invalid_parameter
    else if ltb media.last_block ((lba + size / media.block_size + (2 ^ 64 - 1)) % 2 ^ 64)
    then some invalid_parameter
    else if not (size % media.block_size == 0)
    then some bad_buffer_size
    else if buffer == 0
    then some invalid_parameter
    else if size == 0
    then some success
    else none

module _ (h : Host) where
  -- `DataLen` has 32 bits.
  unfoldable pub mmchs_read_blocks :
      BlockMedia → ℕ → ℕ → ℕ → ℕ → Sd h.State → Option (Served (Sd h.State))
  mmchs_read_blocks media media_id lba size buffer sd =
      elim (read_check media media_id lba size buffer) [
        | some status ↦ some (record { status = status; state = sd })
        | none ↦ do
          r ←
              mmc_read_internal h media.block_size (lba * media.block_size % 2 ^ 64) buffer
                (size % 2 ^ 32) sd
          some (record { status = if r.value == 1 then success else device_error; state = r.state })
      ]

-- The other operations leave the device alone.
unfoldable pub mmchs_reset : EfiStatus
mmchs_reset = success

unfoldable pub mmchs_write_blocks : EfiStatus
mmchs_write_blocks = unsupported

unfoldable pub mmchs_flush_blocks : EfiStatus
mmchs_flush_blocks = success
