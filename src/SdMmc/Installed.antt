-- ===== src/SdMmc/Installed.antt =====
-- How SdMmcDxeInitialize of Drivers/SdMmcDxe/SdMmc.c ends, from SdFxInit on.
use nintendo_switch_pkg.Prelude.{
  ℕ, ◌+◌, ◌*◌, ◌/◌, ◌≤◌, ◌<◌, ◌≡◌, ◌⊎◌, refl, inl, inr, false, Option, none, some, arith, ◌==◌, ◌∙◌,
  ◌≢◌, Bool-cases,
}
use nintendo_switch_pkg.SdMmc.{Host, Ret, BlkDesc}
use nintendo_switch_pkg.SdMmc.Card.{KeepsOutside, Card}
use nintendo_switch_pkg.SdMmc.BlockIo.{BlockMedia, block_media}
use nintendo_switch_pkg.SdMmc.BlockContent.{card_in}
use nintendo_switch_pkg.SdMmc.Ident.{Driver}
use nintendo_switch_pkg.SdMmc.Startup.{csd_capacity}
use nintendo_switch_pkg.SdMmc.CsdBounds.{IsCsd}
use nintendo_switch_pkg.SdMmc.StartupGeometry.{Started}
use nintendo_switch_pkg.SdMmc.FxInit.{sd_fx_init, sd_fx_init_finalize}
use nintendo_switch_pkg.SdMmc.FxStarted.{sd_fx_init_finalize-Started}
use nintendo_switch_pkg.SdMmc.Probe.{probe_records}
use nintendo_switch_pkg.SdMmc.SelfTest.{
  not_installed, out_of_resources, dead_loop, offered, Dxe, Services, bio_instance_contructor,
  install, finish_self_test, finish_initialize, sd_mmc_dxe_initialize,
}
use nintendo_switch_pkg.SdMmc.MbrFound.{Failed, IsFirst, self_test-Searched}

module _ (h : Host) (disk : ℕ → ℕ) (services : Services h.State) (dump : ℕ) where
  -- The number of blocks by the CSD.
  abbrev pub blocks_of : Driver h.State → ℕ
  blocks_of st = csd_capacity st.sd.mmc.high_capacity st.id.csd_1 st.id.csd_2 / 512

  -- Block `k` is one of the card and ends in 55 AA.
  abbrev pub IsSigned : Driver h.State → ℕ → Type 0
  IsSigned st k = (k < blocks_of st) × (disk (k * 512 + 510) ≡ 0x55) × (disk (k * 512 + 511) ≡ 0xAA)

  -- The loop's own read of block `k` fails; it starts when the buffer has been cleared.
  abbrev pub LoopFails : Driver h.State → ℕ → Type 0
  LoopFails st k = Failed h dump st.sd.mmc st.sd.blk (services.zero_mem dump 512 st.sd.host) k

  -- From the state `t` on: the firmware has no memory for the instance, and nothing is installed; or the
  -- medium, of blocks of 512 bytes and as many as the CSD's capacity has, goes to
  -- InstallMultipleProtocolInterfaces, and its status is the one that is returned.
  abbrev pub Offers : Driver h.State → h.State → Dxe h.State → Type 0
  Offers st t x =
      let pool = services.copy_pool t in
      (pool.value ≡ 0) × (x.end ≡ not_installed out_of_resources) × (x.state.sd.host ≡ pool.state)
      ⊎ (pool.value ≢ 0)
        × (media : BlockMedia) × (media.block_size ≡ 512)
        × (media.last_block ≡ blocks_of st)
        × (x.end ≡ offered media (services.install_protocols media pool.state).value)
        × (x.state.sd.host ≡ (services.install_protocols media pool.state).state)

  -- The processor is stopped in the state `t` after the loop, which has found nothing; or one of the first
  -- 51 blocks ends in 55 AA, and the medium is offered.
  abbrev pub Ends : Driver h.State → h.State → Dxe h.State → Type 0
  Ends st t x =
      (x.end ≡ dead_loop)
        × (x.state.sd.host ≡ t)
        × ((k : ℕ) → k ≤ 50 → k ≤ blocks_of st → LoopFails st k ⊎ (IsSigned st k → ⊥))
      ⊎ (k : ℕ) × (k ≤ 50) × IsSigned st k × Offers st t x

  probed-fields :
      (s : h.State)
      → let d : Driver h.State = probe_records s in
        (d.sd.mmc.ddr_mode ≡ false) × (d.sd.mmc.b_max ≡ 65535) × (d.sd.blk.hwpart ≡ 0)
  unfolding probe_records
  probed-fields s = (refl, refl, refl)

  media-fields :
      (blk : BlkDesc)
      → ((block_media blk).last_block ≡ blk.lba) × ((block_media blk).block_size ≡ blk.blksz)
  unfolding block_media
  media-fields blk = (refl, refl)

  -- The number of blocks by the CSD, in place of that of the block device.
  passed :
      (st : Driver h.State) (started : Started h st) (k : ℕ)
      → LoopFails st k
        ⊎ ((k < st.sd.blk.lba) × (disk (k * 512 + 510) ≡ 0x55) × (disk (k * 512 + 511) ≡ 0xAA) → ⊥)
      → LoopFails st k ⊎ (IsSigned st k → ⊥)
  passed st started k (inl bad) = inl bad
  passed st started k (inr other) = inr (λ m. other (rw started.3 (m.0), m.1, m.2))

  -- `s` is the state after the loop.
  install-Offers :
      (st : Driver h.State) (started : Started h st) (s : h.State)
      → Offers st s (install h dump services (record st { sd = card_in h st.sd.mmc st.sd.blk s }))
  unfolding install bio_instance_contructor
  install-Offers st started s = elim (Bool-cases ((services.copy_pool s).value == 0)) [
    | inl full ↦ rw full (inl (ground arith, refl, refl))
    | inr granted ↦
        let (lba, size) = media-fields st.sd.blk in
        rw granted
          (inr (ground arith, block_media st.sd.blk, size ∙ started.4, lba ∙ started.3, refl, refl))
  ]

  finish-Ends :
      (st : Driver h.State) (card : Card h st.sd.mmc.high_capacity disk) (started : Started h st)
      (found : Option ℕ) (s : h.State)
      → IsFirst h disk st.sd.mmc st.sd.blk card started.0 started.1 dump
          (services.zero_mem dump 512 st.sd.host)
          0
          found
      → Ends st s (
          finish_self_test h dump services st
            (record { found = found; state = card_in h st.sd.mmc st.sd.blk s }))
  unfolding finish_self_test
  finish-Ends st card started none s first = inl (
    refl,
    refl,
    λ k high within. passed st started k (first k (omega arith) high (rw started.3 within)),
  )
  finish-Ends st card started (some k) s (low, high, (below, a, b), before) =
      let blocks : (st.sd.blk.lba == 0) ≡ false = ground arith in
      let sized : (st.sd.blk.blksz == 0) ≡ false = rw (started.4) refl in
      rw (blocks, sized)
        (inr (k, high, (rw (started.3) at below, a, b), install-Offers st started s))

  finish_initialize-Ends :
      (r : Ret (Driver h.State))
      → Card h r.state.sd.mmc.high_capacity disk
      → ((a n : ℕ) (t : h.State) → KeepsOutside h a n t (services.zero_mem a n t))
      → r.value ≡ 0
      → r.state.id.has_init ≡ 1
      → Started h r.state
      → (x : Dxe h.State) × (finish_initialize h dump services r ≡ some x)
        × (t : h.State) × KeepsOutside h dump 512 r.state.sd.host t
        × Ends r.state t x
  unfolding finish_initialize
  finish_initialize-Ends r card clears ok has started =
      let st = r.state in
      let (found, s', e, keep, first) =
        self_test-Searched h disk st.sd.mmc st.sd.blk card started.0 started.1 services dump
          st.sd.host clears in
      (
        finish_self_test h dump services st
            (record { found = found; state = card_in h st.sd.mmc st.sd.blk s' }),
        rw (ok, has, e) refl,
        s',
        keep,
        finish-Ends st card started found s' first,
      )

  -- From SdFxInit on, over the records that SdControllerProbe leaves: where SdFxInit succeeds, no operating
  -- condition is pending after it, SdFxInitFinalize returns with a CSD that the SD specification allows,
  -- the card keeps the laws of Card, and ZeroMem changes only what it clears: the loop of the self test
  -- ends in a state in which no memory but the buffer on the stack has changed since SdFxInitFinalize, and
  -- SdMmcDxeInitialize comes to one of three ends. The processor is stopped there, and for each of the
  -- blocks up to 50 and the number of blocks, the loop's read of it failed or it does not end in 55 AA. Or
  -- one of the first 51 blocks ends in 55 AA, and AllocateCopyPool gives no memory, and the call returns
  -- out of resources with nothing installed. Or one does, the medium with blocks of 512 bytes, as many as
  -- the capacity of the CSD has, is given to InstallMultipleProtocolInterfaces, and the call returns its
  -- status.
  pub sd_mmc_dxe_initialize-Ends :
      (fuel scr status ssr : ℕ) (s : h.State) (r : Ret (Driver h.State))
      → ((a n : ℕ) (t : h.State) → KeepsOutside h a n t (services.zero_mem a n t))
      → (sd_fx_init h (probe_records s)).value ≡ 0
      → (sd_fx_init h (probe_records s)).state.id.op_cond_pending ≡ false
      → sd_fx_init_finalize h fuel scr status ssr (sd_fx_init h (probe_records s)).state ≡ some r
      → IsCsd r.state.sd.mmc.high_capacity r.state.id.csd_1 r.state.id.csd_2
      → Card h r.state.sd.mmc.high_capacity disk
      → (x : Dxe h.State) × (sd_mmc_dxe_initialize h dump services fuel scr status ssr
            (probe_records s)
          ≡ some x)
        × (t : h.State) × KeepsOutside h dump 512 r.state.sd.host t
        × Ends r.state t x
  unfolding sd_mmc_dxe_initialize
  sd_mmc_dxe_initialize-Ends fuel scr status ssr s r clears ok none_pending e v card =
      let (single, most, user) = probed-fields s in
      let (done, has, started) =
        sd_fx_init_finalize-Started h fuel scr status ssr (probe_records s) r single
          (rw most (omega arith)) (rw most (omega arith)) user ok none_pending e v in
      let (x, ends, t, keep, result) = finish_initialize-Ends r card clears done has started in
      (x, rw (ok, e) ends, t, keep, result)
