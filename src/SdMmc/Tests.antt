-- ===== src/SdMmc/Tests.antt =====
-- The driver's runs on the card of Sim.
use nintendo_switch_pkg.Prelude.{
  ap, ℕ, ◌*◌, ◌^◌, ◌≤◌, ◌<◌, ◌≡◌, ◌≢◌, ◌⊎◌, refl, inl, inr, Option, none, some, arith, ◌==◌,
  Bool-cases,
}
use nintendo_switch_pkg.SdMmc.{Ret, Sd}
use nintendo_switch_pkg.SdMmc.Sim.{
  Sim, sim_disk, sim_send, sim, sim-Card, sim_mmc, sim_blk, sim-Geometry, idle,
}
use nintendo_switch_pkg.SdMmc.Command.{
  poll_status, mmc_send_status, verdict, mmc_select_hwpart, mmc_switch_part, mmc_switch, try_switch,
  mmc_set_capacity, mmc_set_blocklen, capacity_of, is_ready,
}
use nintendo_switch_pkg.SdMmc.Read.{
  mmc_bread, not_zero, checked_bread, bread_loop, mmc_read_blocks, read_cmd, read_data,
}
use nintendo_switch_pkg.SdMmc.Card.{Filled, KeepsOutside}
use nintendo_switch_pkg.SdMmc.BlockIo.{
  success, device_error, BlockMedia, block_media, read_check, mmc_read_internal, mmchs_read_blocks,
}
use nintendo_switch_pkg.SdMmc.BreadContent.{Bread, mmc_bread-Bread}
use nintendo_switch_pkg.SdMmc.BlockContent.{card_in, Unreadable, ReadAll}
use nintendo_switch_pkg.SdMmc.BlockDevice.{
  Answered, mmc_read_internal-ReadAll, mmc_read_internal-Complete, mmchs_read_blocks-Answered,
}
use nintendo_switch_pkg.SdMmc.DeviceEdges.{mmchs_read_blocks-truncated, mmchs_read_blocks-past_end}
use nintendo_switch_pkg.SdMmc.Status.{Selected, mmc_select_hwpart-Selected}

mmc_bread-Bread_example :
    Bread sim sim_disk sim_mmc sim_blk 5 1 0x1000 idle
      (mmc_bread sim 5 1 0x1000 (card_in sim sim_mmc sim_blk idle))
mmc_bread-Bread_example =
    mmc_bread-Bread sim sim_disk sim_mmc sim_blk sim-Card sim-Geometry 5 1 0x1000 idle (omega arith)
      (omega arith)

mmc_read_internal-ReadAll_example :
    ReadAll sim sim_disk sim_mmc sim_blk 5 0x1000 3 idle
      (mmc_read_internal sim 512 (5 * 512) 0x1000 (3 * 512) (card_in sim sim_mmc sim_blk idle))
mmc_read_internal-ReadAll_example =
    mmc_read_internal-ReadAll sim sim_disk sim_mmc sim_blk sim-Card sim-Geometry 5 0x1000 3 idle
      (omega arith)

mmchs_read_blocks-Answered_example :
    Answered sim sim_disk sim_mmc sim_blk 0x636d6d65 5 1536 0x1000 idle (
      mmchs_read_blocks sim
        (block_media sim_blk)
        0x636d6d65
        5
        1536
        0x1000
        (card_in sim sim_mmc sim_blk idle))
mmchs_read_blocks-Answered_example =
    mmchs_read_blocks-Answered sim sim_disk sim_mmc sim_blk sim-Card sim-Geometry 0x636d6d65 5 1536
      0x1000 idle refl (omega arith)

mmchs_read_blocks-past_end_example :
    (read_check (block_media sim_blk) 0x636d6d65 32 512 0x1000 ≡ none)
    × (s' : Sim) × (mmchs_read_blocks sim
          (block_media sim_blk)
          0x636d6d65
          32
          512
          0x1000
          (card_in sim sim_mmc sim_blk idle)
        ≡ some (record { status = device_error; state = card_in sim sim_mmc sim_blk s' }))
    × KeepsOutside sim 0x1000 512 idle s'
mmchs_read_blocks-past_end_example =
    mmchs_read_blocks-past_end sim sim_disk sim_mmc sim_blk 0x1000 idle sim-Card sim-Geometry refl
      (omega arith)

-- A card of 8 GiB.
abbrev big_media : BlockMedia
big_media = record { media_id = 7; block_size = 512; last_block = 2 ^ 24 }

big_check : read_check big_media 7 0 (2 ^ 32) 0x1000 ≡ none
unfolding read_check
big_check = refl

mmchs_read_blocks-truncated_example :
    mmchs_read_blocks sim big_media 7 0 (2 ^ 32) 0x1000 (card_in sim sim_mmc sim_blk idle)
    ≡ some (record { status = success; state = card_in sim sim_mmc sim_blk idle })
mmchs_read_blocks-truncated_example =
    mmchs_read_blocks-truncated sim big_media 7 0 (2 ^ 32) 0x1000 (card_in sim sim_mmc sim_blk idle)
      big_check refl (omega arith)

-- The first boot partition.
boot_selected : (mmc_select_hwpart sim 1 (card_in sim sim_mmc sim_blk idle)).value ≡ 0
unfolding mmc_select_hwpart mmc_switch_part mmc_switch try_switch mmc_send_status poll_status
    mmc_set_capacity capacity_of sim_send verdict is_ready
boot_selected = refl

mmc_select_hwpart-Selected_example :
    ((sim_blk.hwpart ≡ 1)
      × ((mmc_select_hwpart sim 1 (card_in sim sim_mmc sim_blk idle)).state
          ≡ card_in sim sim_mmc sim_blk idle))
    ⊎ ((sim_mmc.part_config ≢ 0xff)
        × Selected 1
            (card_in sim sim_mmc sim_blk idle)
            ((mmc_select_hwpart sim 1 (card_in sim sim_mmc sim_blk idle)).state))
mmc_select_hwpart-Selected_example =
    mmc_select_hwpart-Selected sim 1 (card_in sim sim_mmc sim_blk idle) (omega arith) boot_selected

value_of : Option (Ret (Sd Sim)) → ℕ
value_of none = 2
value_of (some r) = r.value

served_5 :
    (buf : ℕ) (s : Sim) → value_of (mmc_bread sim 5 1 buf (card_in sim sim_mmc sim_blk s)) ≡ 1
unfolding value_of mmc_bread mmc_select_hwpart not_zero checked_bread mmc_set_blocklen bread_loop
    mmc_read_blocks read_cmd read_data sim_send
served_5 buf s = refl

served_6 :
    (buf : ℕ) (s : Sim) → value_of (mmc_bread sim 6 1 buf (card_in sim sim_mmc sim_blk s)) ≡ 1
unfolding value_of mmc_bread mmc_select_hwpart not_zero checked_bread mmc_set_blocklen bread_loop
    mmc_read_blocks read_cmd read_data sim_send
served_6 buf s = refl

readable : (b : ℕ) → 5 ≤ b → b < 7 → ¬ Unreadable sim sim_mmc sim_blk b
unfolding value_of
readable b lo hi (buf, s, s', e) = elim (Bool-cases (b == 5)) [
  | inl five ↦
      let e' : b ≡ 5 = ground arith in
      let f = ap value_of (rw e' at e) in omega (arith, served_5 buf s)
  | inr other ↦
      let e' : b ≡ 6 = ground arith in
      let f = ap value_of (rw e' at e) in omega (arith, served_6 buf s)
]

mmc_read_internal-Complete_example :
    (s' : Sim) × (mmc_read_internal sim 512
        (5 * 512)
        0x1000
        (2 * 512)
        (card_in sim sim_mmc sim_blk idle)
      ≡ some (record { value = 1; state = card_in sim sim_mmc sim_blk s' }))
    × Filled sim sim_disk 0x1000 (2 * 512) (5 * 512) s'
mmc_read_internal-Complete_example =
    mmc_read_internal-Complete sim sim_disk sim_mmc sim_blk sim-Card sim-Geometry 5 0x1000 2 idle
      (omega arith) readable
