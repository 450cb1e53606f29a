-- ===== src/SdMmc/DeviceEdges.antt =====
-- Two requests at the edges of what MMCHSReadBlocks of Drivers/SdMmcDxe/EfiBlkDeviceOp.c checks.
use nintendo_switch_pkg.Prelude.{
  ℕ, ◌*◌, ◌%◌, ◌^◌, ◌≤◌, ◌<◌, ◌≡◌, ◌≢◌, refl, inl, inr, true, none, some, arith, ◌==◌, ==_iff,
}
use native.Mathlib.Nat.{mul-mod_left, zero-mod, div_self, mod_self}
use nintendo_switch_pkg.SdMmc.{Host, Mmc, BlkDesc, Sd}
use nintendo_switch_pkg.SdMmc.BlockIo.{
  success, device_error, BlockMedia, block_media, mmc_read_internal, read_loop, read_step,
  read_check, mmchs_read_blocks,
}
use nintendo_switch_pkg.SdMmc.Card.{KeepsOutside, Card, Geometry}
use nintendo_switch_pkg.SdMmc.BlockContent.{card_in}
use nintendo_switch_pkg.SdMmc.BlockDevice.{mmchs_read_blocks-Answered}

-- A request of a multiple of 4 GiB that passes the checks, from an address below 2 ^ 64, succeeds with
-- nothing read: the length is cut to 32 bits on its way to MmcReadInternal.
pub mmchs_read_blocks-truncated :
    (h : Host) (media : BlockMedia) (media_id lba size buf : ℕ) (sd : Sd h.State)
    → read_check media media_id lba size buf ≡ none
    → size % 2 ^ 32 ≡ 0
    → lba * media.block_size < 2 ^ 64
    → mmchs_read_blocks h media media_id lba size buf sd
      ≡ some (record { status = success; state = sd })
unfolding mmchs_read_blocks mmc_read_internal read_loop read_step
mmchs_read_blocks-truncated h media media_id lba size buf sd e multiple fits =
    let first : lba * media.block_size % 2 ^ 64 ≡ lba * media.block_size = omega arith in
    rw
      (
        mmchs_read_blocks,
        e,
        multiple,
        first,
        mul-mod_left lba media.block_size,
        zero-mod media.block_size,
      )
      refl

edge_check :
    (id lba bs buf : ℕ)
    → 1 ≤ bs
    → lba < 2 ^ 32
    → buf ≢ 0
    → read_check (record { media_id = id; block_size = bs; last_block = lba }) id lba bs buf ≡ none
unfolding read_check
edge_check id lba bs buf pos fits given =
    let same : (id == id) ≡ true = (==_iff id id).1 refl in
    rw (same, div_self {n = bs} pos, mod_self bs) (ground arith)

-- The block after the last one passes the checks, since LastBlock is the number of blocks; the read
-- of it is a device error.
pub mmchs_read_blocks-past_end :
    (h : Host) (disk : ℕ → ℕ) (mmc : Mmc) (blk : BlkDesc) (buf : ℕ) (s : h.State)
    → Card h mmc.high_capacity disk
    → Geometry mmc blk
    → blk.blksz ≡ mmc.read_bl_len
    → buf ≢ 0
    → (read_check (block_media blk) 0x636d6d65 blk.lba mmc.read_bl_len buf ≡ none)
      × (s' : h.State) × (mmchs_read_blocks h
            (block_media blk)
            0x636d6d65
            blk.lba
            mmc.read_bl_len
            buf
            (card_in h mmc blk s)
          ≡ some (record { status = device_error; state = card_in h mmc blk s' }))
      × KeepsOutside h buf mmc.read_bl_len s s'
unfolding block_media
mmchs_read_blocks-past_end h disk mmc blk buf s card g same given =
    let passes : read_check (block_media blk) 0x636d6d65 blk.lba mmc.read_bl_len buf ≡ none =
      rw same
        (edge_check 0x636d6d65 blk.lba mmc.read_bl_len buf g.block_len_pos g.blocks_fit given) in
    elim (mmchs_read_blocks-Answered h disk mmc blk card g 0x636d6d65 blk.lba mmc.read_bl_len buf s
      same (omega (arith, g.block_len_max))) [
        | inl (status, refused, e) ↦ absurd cc
        | inr (inl (s', e, keeps, filled, inside)) ↦
            absurd (omega (arith, div_self {n = mmc.read_bl_len} g.block_len_pos))
        | inr (inr (s', e, keeps, bad)) ↦ (passes, s', e, keeps)
      ]
