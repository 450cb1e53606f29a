-- ===== src/SdMmc/Controller/Transfer.antt =====
-- What comes before and after a command, Drivers/SdMmcDxe/SdMmc.c: the wait for the lines, the set-up
-- of a transfer, the waits for the command and for the end of the transfer, and the response.
use Prim.Native.Nat.{bit_and, bit_or}
use nintendo_switch_pkg.Prelude.{
  ℕ, zero, suc, ◌+◌, ◌-◌, ◌%◌, ◌^◌, Bool, true, false, not, Option, none, some, List, [], ◌∷◌, ltb,
  ◌==◌, if◌then◌else◌,
}
use nintendo_switch_pkg.Prelude.Bits.{not32, shl32}
use nintendo_switch_pkg.SdMmc.{Cmd, Data}
use nintendo_switch_pkg.SdMmc.Controller.{
  Env, Io, ◌>>=◌, ◌>>◌, return, sysad, blksize, blkcnt, trnmod, rspreg3, prnsts, hostctl, norintsts,
  writel, writew, writeb, udelay, readl, readb,
}

-- A bit of a mask, `mask & bit`.
abbrev pub has : ℕ → ℕ → Bool
has mask bit = not (bit_and mask bit == 0)

-- MMC_RSP_PRESENT, MMC_RSP_136, MMC_RSP_CRC, MMC_RSP_BUSY and MMC_RSP_OPCODE are 1, 2, 4, 8 and 16.
unfoldable pub inhibit_mask : Cmd → Option Data → ℕ
inhibit_mask c none = if has c.resp_type 8 then 3 else 1
inhibit_mask c (some d) = 1

-- Auto CMD12 is not used.
unfoldable pub transfer_mode : Data → ℕ
transfer_mode d =
    let multi = if ltb 1 d.blocks then bit_or 3 0x20 else 3 in
    if has d.flags 1 then bit_or multi 0x10 else multi

unfoldable pub tegra_mmc_set_transfer_mode : Data → Io (Unit {0})
tegra_mmc_set_transfer_mode d = writew (transfer_mode d) trnmod

-- What a wait came to: whether it saw its bit, and the last status.
pub record Seen : Type 0 where
  pub found : Bool
  pub mask : ℕ

-- How the transfer ended: `broken` and `late` are the errors, and `ended` has the last status.
pub data End : Type 0 where
  ended : ℕ → End
  broken : End
  late : End

module _ (env : Env) where
  -- Whether the lines became free.
  unfoldable pub poll_inhibit : ℕ → ℕ → Io Bool
  poll_inhibit zero mask = do v ← readl env prnsts; return (bit_and v mask == 0)
  poll_inhibit (suc timeout) mask = readl env prnsts >>= λ v.
      let again = udelay 1000 >> poll_inhibit timeout mask in
      if bit_and v mask == 0 then return true else again

  unfoldable pub tegra_mmc_wait_inhibit : Cmd → Option Data → ℕ → Io Bool
  tegra_mmc_wait_inhibit c d timeout = poll_inhibit timeout (inhibit_mask c d)

  -- DMASEL is bits 3 and 4, and 0 is SDMA; the boundary is the largest, 7.
  unfoldable pub tegra_mmc_prepare_data : Data → ℕ → Io (Unit {0})
  tegra_mmc_prepare_data d buffer = do
    writel buffer sysad
    ctrl ← readb env hostctl
    writeb (bit_and ctrl (not32 0x18)) hostctl
    writew (bit_or (shl32 7 12) (bit_and d.blocksize 0xFFF)) blksize
    writew d.blocks blkcnt

  -- The loop that waits for TEGRA_MMC_NORINTSTS_CMD_COMPLETE, which is acknowledged at once if no data
  -- follows.
  unfoldable pub wait_command : Bool → ℕ → ℕ → Io Seen
  wait_command with_data zero mask = return (record { found = false; mask = mask })
  wait_command with_data (suc retry) mask = readl env norintsts >>= λ v.
      let again = wait_command with_data retry v in
      let seen = return (record { found = true; mask = v }) in
      if has v 1 then if with_data then seen else writel v norintsts >> seen else again

  -- The loop that waits for DAT[0], bit 20: whether the card is no longer busy.
  unfoldable pub wait_busy : ℕ → Io Bool
  wait_busy zero = return false
  wait_busy (suc retry) = readl env prnsts >>= λ v.
      let again = wait_busy retry in if has v (2 ^ 20) then return true else again

  -- A word of a response of 136 bits: the register at `offset`, and the byte below it.
  unfoldable pub long_word : ℕ → Io ℕ
  long_word offset = do
    word ← readl env offset
    low ← readb env (offset - 1)
    return (bit_or (shl32 word 8) low)

  unfoldable pub long_response : Io (List ℕ)
  long_response = do
    w_0 ← long_word rspreg3
    w_1 ← long_word (rspreg3 - 4)
    w_2 ← long_word (rspreg3 - 8)
    last ← readl env (rspreg3 - 12)
    return (w_0 ∷ w_1 ∷ w_2 ∷ shl32 last 8 ∷ [])

  -- `get_timer(start) > 8000UL`
  unfoldable pub if_late : ℕ → Io (Option End) → Io (Option End) → Io (Option End)
  if_late start timed_out again past =
      if ltb 8000 ((env.time past + 2 ^ 64 - start) % 2 ^ 64) then timed_out past else again past

  -- A round of the loop that waits for the end of the transfer, on the status it read:
  -- TEGRA_MMC_NORINTSTS_ERR_INTERRUPT is bit 15, DMA_INTERRUPT bit 3, XFER_COMPLETE bit 1.
  unfoldable pub on_status : ℕ → Io (Option End) → ℕ → Io (Option End)
  on_status start again mask =
      let end = λ (e : End). writel mask norintsts >> return (some e) in
      let restart = do address ← readl env sysad; writel 8 norintsts; writel address sysad; again
      in if has mask (2 ^ 15)
        then end broken
        else if has mask 8
        then restart
        else if has mask 2
        then end (ended mask)
        else if_late start (end late) again

  -- `none` where the fuel is used up.
  unfoldable pub wait_transfer : ℕ → ℕ → Io (Option End)
  wait_transfer zero start = return none
  wait_transfer (suc fuel) start =
      readl env norintsts >>= on_status start (wait_transfer fuel start)
