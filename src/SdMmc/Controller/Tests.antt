-- ===== src/SdMmc/Controller/Tests.antt =====
-- Runs of the host controller on hardware that answers at once.
use nintendo_switch_pkg.Prelude.{◌*◌, ◌^◌, ◌≡◌, refl, some, [], ◌∷◌, arith, ◌==◌, if◌then◌else◌}
use nintendo_switch_pkg.SdMmc.{Cmd, Data}
use nintendo_switch_pkg.SdMmc.Controller.{Env, ◌>>=◌, return, writel, writew, writeb, udelay, read}
use nintendo_switch_pkg.SdMmc.Controller.Transfer.{
  poll_inhibit, tegra_mmc_wait_inhibit, inhibit_mask, tegra_mmc_prepare_data,
  tegra_mmc_set_transfer_mode, wait_command, long_response, on_status, wait_transfer,
}
use nintendo_switch_pkg.SdMmc.Controller.SendCmd.{
  done_after, after_transfer, with_data, is_refused, is_high, set_up, finish_data, read_response,
  complete, issue, tegra_mmc_send_cmd_bounced,
}
use nintendo_switch_pkg.SdMmc.Controller.Response.{Holds, number, long_response-number}
use nintendo_switch_pkg.SdMmc.Controller.Completion.{
  Completed, tegra_mmc_send_cmd_bounced-Completed,
}

-- Free lines, a command and a transfer that are complete, and a response of 136 bits.
abbrev prompt : Env
prompt = record {
  reg = λ width a past.
      if a == 0x30
      then 3
      else if a == 0x10
      then 0x12345678
      else if a == 0x13
      then 0x12
      else if a == 0x1c
      then 0x400e00
      else 0;
  rate = λ hz past. hz;
  time = λ past. 0;
}

read_one : Cmd
read_one = record { cmdidx = 17; resp_type = 0x15; cmdarg = 5 }

abbrev block : Data
block = record { dest = 0x1000; flags = 1; blocks = 1; blocksize = 512 }

prompt_reads :
    (tegra_mmc_send_cmd_bounced prompt 10 read_one (some block) 0x1000 []).value
    ≡ some (record { err = 0; response = 0x12345678 ∷ [] })
unfolding tegra_mmc_send_cmd_bounced read_one ◌>>=◌ tegra_mmc_wait_inhibit poll_inhibit read
    inhibit_mask return is_high with_data issue is_refused complete wait_command read_response
    finish_data after_transfer wait_transfer on_status done_after set_up tegra_mmc_prepare_data
    tegra_mmc_set_transfer_mode udelay writeb writel writew
prompt_reads = refl

tegra_mmc_send_cmd_bounced-Completed_example :
    Completed (tegra_mmc_send_cmd_bounced prompt 10 read_one (some block) 0x1000 []).history
tegra_mmc_send_cmd_bounced-Completed_example =
    tegra_mmc_send_cmd_bounced-Completed prompt 10 read_one block 0x1000 [] (0x12345678 ∷ [])
      prompt_reads

prompt-Holds : Holds prompt 0x12345678 0 0 0x400e00
prompt-Holds = record {
  word_0 = λ past. refl;
  word_1 = λ past. refl;
  word_2 = λ past. refl;
  word_3 = λ past. refl;
  byte_0 = λ past. refl;
  byte_1 = λ past. refl;
  byte_2 = λ past. refl;
}

long_response-number_example :
    number 0 (long_response prompt []).value ≡ number 0 (0x400e00 ∷ 0 ∷ 0 ∷ 0x12345678 ∷ []) * 2 ^ 8
long_response-number_example =
    long_response-number prompt 0x12345678 0 0 0x400e00 [] prompt-Holds (omega arith) (omega arith)
      (omega arith) (omega arith)
