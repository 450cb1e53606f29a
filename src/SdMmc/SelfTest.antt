-- ===== src/SdMmc/SelfTest.antt =====
-- The self test of SdMmcDxeInitialize, Drivers/SdMmcDxe/SdMmc.c, and what surrounds it there, from
-- SdFxInit on, with BioInstanceContructor of EfiBlkDeviceOp.c. The buffer on the stack is at the address
-- `dump`; what the firmware does is a parameter.
use nintendo_switch_pkg.Prelude.{
  ℕ, zero, suc, ◌+◌, ◌%◌, ◌^◌, min, Bool, ◌&&◌, Option, none, some, leb, ◌==◌, if◌then◌else◌,
}
use nintendo_switch_pkg.Prelude.Assert.{◌>>=◌}
use nintendo_switch_pkg.SdMmc.{Host, Ret, Sd}
use nintendo_switch_pkg.SdMmc.Read.{mmc_bread}
use nintendo_switch_pkg.SdMmc.BlockIo.{BlockMedia, block_media}
use nintendo_switch_pkg.SdMmc.Ident.{Driver}
use nintendo_switch_pkg.SdMmc.FxInit.{sd_fx_init, sd_fx_init_finalize}

-- The block at which a record is found, and the state after.
pub record Search (S : Type 0) : Type 0 where
  pub found : Option ℕ
  pub state : S

-- EFI_SUCCESS, EFI_DEVICE_ERROR and EFI_OUT_OF_RESOURCES.
pub data DxeStatus : Type 0 where
  success : DxeStatus
  device_error : DxeStatus
  out_of_resources : DxeStatus

-- A return before the protocols are installed; CpuDeadLoop; or a return with what
-- InstallMultipleProtocolInterfaces returns for a medium.
pub data DxeEnd : Type 0 where
  not_installed : DxeStatus → DxeEnd
  dead_loop : DxeEnd
  offered : BlockMedia → ℕ → DxeEnd

pub record Dxe (S : Type 0) : Type 0 where
  pub end : DxeEnd
  pub state : Driver S

-- The firmware's ZeroMem, AllocateCopyPool of the template, of which 0 is NULL, and
-- InstallMultipleProtocolInterfaces with its status, 0 for success.
pub record Services (S : Type 0) : Type 0 where
  pub zero_mem : ℕ → ℕ → S → S
  pub copy_pool : S → Ret S
  pub install_protocols : BlockMedia → S → Ret S

-- BioInstanceContructor, of which the result is 0 for EFI_OUT_OF_RESOURCES. The instance is its medium,
-- which the caller fills in.
unfoldable pub bio_instance_contructor : {S : Type 0} → Services S → S → Ret S
bio_instance_contructor services = services.copy_pool

module _ (h : Host) (dump : ℕ) where
  -- The last two bytes of the block that was read.
  unfoldable pub has_signature : h.State → Bool
  has_signature s = h.memory s (dump + 510) == 0x55 && h.memory s (dump + 511) == 0xAA

  -- The loop from block `i` on; `blk` is an `int`. `none` where the fuel is used up.
  unfoldable pub find_mbr : ℕ → ℕ → Sd h.State → Option (Search (Sd h.State))
  find_mbr zero i sd = none
  find_mbr (suc fuel) i sd =
      let round = mmc_bread h i 1 dump sd >>= λ r.
      let rest = find_mbr fuel (i + 1) r.state in
      if r.value % 2 ^ 32 == 0
      then rest
      else if has_signature r.state.host
      then some (record { found = some i; state = r.state })
      else rest in
      if leb i (min sd.blk.lba 50) then round else some (record { found = none; state = sd })

  -- The loop has 51 rounds at most, and its last test.
  unfoldable pub self_test : Services h.State → Sd h.State → Option (Search (Sd h.State))
  self_test services sd = find_mbr 52 0 (record sd { host = services.zero_mem dump 512 sd.host })

  -- From BioInstanceContructor on.
  unfoldable pub install : Services h.State → Driver h.State → Dxe h.State
  install services st =
      let after = λ (s : h.State). record st { sd = record (st.sd) { host = s } } in
      let pool = bio_instance_contructor services st.sd.host in
      let answer = services.install_protocols (block_media st.sd.blk) pool.state in
      if pool.value == 0
      then record { end = not_installed out_of_resources; state = after pool.state }
      else record { end = offered (block_media st.sd.blk) answer.value; state = after answer.state }

  -- After the loop. The assertions that `lba` and `blksz` are not 0 do not return, as the dead loop.
  unfoldable pub finish_self_test :
      Services h.State → Driver h.State → Search (Sd h.State) → Dxe h.State
  finish_self_test services st s =
      let after = record st { sd = s.state } in
      let installs = install services after in
      elim s.found [
        | none ↦ record { end = dead_loop; state = after }
        | some k ↦
            if s.state.blk.lba == 0
            then record { end = dead_loop; state = after }
            else if s.state.blk.blksz == 0
            then record { end = dead_loop; state = after }
            else installs
      ]

  unfoldable pub finish_initialize : Services h.State → Ret (Driver h.State) → Option (Dxe h.State)
  finish_initialize services r =
      if r.value == 0
      then (if r.state.id.has_init == 1
          then (self_test services r.state.sd >>= λ s. some (finish_self_test services r.state s))
          else some (record { end = not_installed success; state = r.state }))
      else some (record { end = not_installed device_error; state = r.state })

  -- The arguments after the services are those of SdFxInitFinalize.
  unfoldable pub sd_mmc_dxe_initialize :
      Services h.State → ℕ → ℕ → ℕ → ℕ → Driver h.State → Option (Dxe h.State)
  sd_mmc_dxe_initialize services fuel scr status ssr st =
      let r = sd_fx_init h st in
      if r.value == 0
      then (sd_fx_init_finalize h fuel scr status ssr r.state >>= finish_initialize services)
      else some (record { end = not_installed device_error; state = r.state })
