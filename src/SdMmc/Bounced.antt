-- ===== src/SdMmc/Bounced.antt =====
-- `tegra_mmc_send_cmd` of Drivers/SdMmcDxe/SdMmc.c: a command with a bounce buffer around its transfer.
-- `tegra_mmc_send_cmd_bounced` with the controller and the card is a parameter.
use Prim.Native.Nat.{bit_and}
use nintendo_switch_pkg.Prelude.{ℕ, ◌*◌, ◌%◌, ◌^◌, Option, none, some, ◌==◌, if◌then◌else◌}
use nintendo_switch_pkg.Prelude.Assert.{◌>>=◌}
use nintendo_switch_pkg.SdMmc.{Cmd, Data, Outcome}
use nintendo_switch_pkg.BounceBuf.{Machine, bounce_buffer_start, bounce_buffer_stop}

-- The length of a transfer, in the 32 bits of `data->blocks * data->blocksize`.
unfoldable pub transfer_len : Data → ℕ
transfer_len d = d.blocks * d.blocksize % 2 ^ 32

-- GEN_BB_WRITE for a read from the card, GEN_BB_READ for a write.
unfoldable pub bounce_flags : Data → ℕ
bounce_flags d = if bit_and d.flags 1 == 0 then 1 else 2

module _ (m : Machine)
    (send_bounced : Cmd → Option Data → ℕ → m.State → Option (Outcome m.State)) where
  -- The result of `bounce_buffer_start` is not looked at.
  unfoldable pub tegra_mmc_send_cmd : Cmd → Option Data → m.State → Option (Outcome m.State)
  tegra_mmc_send_cmd c none st = send_bounced c none 0 st
  tegra_mmc_send_cmd c (some d) st =
      bounce_buffer_start m d.dest (transfer_len d) (bounce_flags d) st >>= λ s.
      send_bounced c (some d) s.buffer.bounce_buffer s.state >>= λ o.
      bounce_buffer_stop m s.buffer o.state >>= λ st'. some (record o { state = st' })
