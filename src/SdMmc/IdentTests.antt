-- ===== src/SdMmc/IdentTests.antt =====
-- Runs of card identification on a high-capacity card that answers every command, of 7530 times 1024
-- blocks.
use nintendo_switch_pkg.Prelude.{
  ℕ, ◌+◌, ◌≡◌, refl, ap, ◌∙◌, true, false, some, [], ◌∷◌, arith, ◌==◌, if◌then◌else◌,
}
use nintendo_switch_pkg.Prelude.Bits.{not32, shl32, shr}
use nintendo_switch_pkg.SdMmc.{Host, Ret}
use nintendo_switch_pkg.SdMmc.Command.{capacity_of, mmc_set_capacity}
use nintendo_switch_pkg.SdMmc.Ident.{
  Driver, is_sd, sd_version_1_0, sd_version_2, done, send, app_cmd, rca_arg, be32_at, ok_then,
  mmc_set_clock, mmc_set_bus_width,
}
use nintendo_switch_pkg.SdMmc.OpCond.{
  powered_up, has_high_capacity, sd_send_op_cond, poll_op_cond, op_cond_cmd, sd_powered_up,
  mmc_send_if_cond, if_cond_cmd, mmc_go_idle,
}
use nintendo_switch_pkg.SdMmc.SdFeatures.{
  keep_scr, one_block, read_scr, read_ssr, scr_version, sd_change_freq, sd_read_ssr, send_again,
  word_of, nth_au_size, sd_au_size,
}
use nintendo_switch_pkg.SdMmc.Startup.{
  csd_size, csd_read_bl, mmc_startup, read_csd, start_card, select_card, at_most_512, csd_capacity,
  csd_mult, csd_write_bl, csd_version, describe, fbase, finish_sd, keep_csd, keep_rca, multipliers,
  nth_number, set_capacity, set_dsr, set_up_sd, widen_bus,
}
use nintendo_switch_pkg.SdMmc.CsdBounds.{IsCsd}
use nintendo_switch_pkg.SdMmc.StartupGeometry.{Started}
use nintendo_switch_pkg.SdMmc.StartupReturns.{Answers, mmc_startup-returns}
use nintendo_switch_pkg.SdMmc.FxInit.{sd_fx_init, sd_fx_init_finalize, start_up, set_has_init}
use nintendo_switch_pkg.SdMmc.FxStarted.{sd_fx_init_finalize-Started}

abbrev answer : ℕ → ℕ
answer cmdidx =
    if cmdidx == 8
    then 0xaa
    else if cmdidx == 41
    then 0xC0FF8000
    else if cmdidx == 3
    then 0x12340000
    else 0x900

abbrev card : Host
card = record {
  State = ℕ;
  send_cmd = λ c d s. record {
    err = 0;
    response = answer c.cmdidx;
    response_1 = if c.cmdidx == 9 then 0x5b590000 else 0;
    response_2 = if c.cmdidx == 9 then 0x1d69ffff else 0;
    response_3 = 0;
    state = s + 1;
  };
  set_ios = λ width clock s. s;
  memory = λ s a. 0;
  get_timer = λ s. s;
}

-- What SdControllerProbe leaves.
abbrev probed : Driver ℕ
probed = record {
  sd = record {
    mmc = record {
      b_max = 65535;
      high_capacity = false;
      ddr_mode = false;
      rca = 0;
      part_config = 0;
      read_bl_len = 0;
      capacity = 0;
      capacity_user = 0;
      capacity_boot = 0;
      capacity_rpmb = 0;
      capacity_gp = 0 ∷ 0 ∷ 0 ∷ 0 ∷ [];
    };
    blk = record { hwpart = 0; lba = 0; blksz = 0 };
    host = 0;
  };
  id = record {
    cfg = record { host_caps = 7; voltages = 0x300080; f_min = 375000; f_max = 48000000 };
    version = 0;
    has_init = 0;
    bus_width = 0;
    clock = 375000;
    card_caps = 0;
    ocr = 0;
    dsr = 0;
    dsr_imp = 0;
    scr_0 = 0;
    scr_1 = 0;
    csd_0 = 0;
    csd_1 = 0;
    csd_2 = 0;
    csd_3 = 0;
    tran_speed = 0;
    write_bl_len = 0;
    erase_grp_size = 0;
    ssr = record { au = 0; erase_timeout = 0; erase_offset = 0 };
    op_cond_pending = false;
    init_in_progress = 0;
  };
}

card-Answers : Answers card
card-Answers c d s = refl

abbrev known_sd : Driver ℕ
known_sd = record probed { id = record (probed.id) { version = sd_version_2 } }

mmc_startup-returns_example :
    (r : Ret (Driver ℕ)) × (mmc_startup card 0x1000 0x2000 0x3000 known_sd ≡ some r)
unfolding is_sd
mmc_startup-returns_example =
    mmc_startup-returns card card-Answers 0x1000 0x2000 0x3000 known_sd refl refl

abbrev begun : Driver ℕ
begun = record {
  sd = record (probed.sd) { mmc = record (probed.sd.mmc) { high_capacity = true }; host = 4 };
  id = record (probed.id) {
    version = sd_version_2;
    bus_width = 1;
    ocr = 0xC0FF8000;
    init_in_progress = 1;
  };
}

begins : sd_fx_init card probed ≡ done 0 begun
unfolding send sd_fx_init sd_send_op_cond poll_op_cond powered_up op_cond_cmd sd_powered_up
    has_high_capacity mmc_send_if_cond if_cond_cmd mmc_go_idle mmc_set_clock mmc_set_bus_width shl32
    app_cmd
begins = refl

abbrev finished : Driver ℕ
finished = record {
  sd = record {
    mmc = record (begun.sd.mmc) {
      rca = 0x1234;
      part_config = 0xff;
      read_bl_len = 512;
      capacity = 3947888640;
      capacity_user = 3947888640;
    };
    blk = record { hwpart = 0; lba = 7710720; blksz = 512 };
    host = 12;
  };
  id = record (begun.id) {
    version = sd_version_1_0;
    has_init = 1;
    clock = 25000000;
    csd_0 = 0x900;
    csd_1 = 0x5b590000;
    csd_2 = 0x1d69ffff;
    tran_speed = 25000000;
    write_bl_len = 512;
    erase_grp_size = 1;
    init_in_progress = 0;
  };
}

ends : sd_fx_init_finalize card 10 0x1000 0x2000 0x3000 begun ≡ some (done 0 finished)
unfolding send sd_fx_init_finalize start_up set_has_init mmc_startup read_csd start_card is_sd
    select_card not32 shl32 shr capacity_of mmc_set_capacity app_cmd be32_at ok_then rca_arg
    keep_scr one_block read_scr read_ssr scr_version sd_change_freq sd_read_ssr send_again word_of
    at_most_512 csd_capacity csd_mult csd_read_bl csd_size csd_write_bl csd_version describe fbase
    finish_sd keep_csd keep_rca multipliers nth_number set_capacity set_dsr set_up_sd widen_bus
    mmc_set_clock nth_au_size sd_au_size
ends = refl

started-IsCsd : IsCsd true 0x5b590000 0x1d69ffff
unfolding csd_read_bl csd_size shl32 shr
started-IsCsd = record {
  block_len_min = omega arith;
  block_len_max = omega arith;
  high_block_len = λ _. refl;
  high_size = λ _. omega arith;
}

sd_fx_init_finalize-Started_example :
    (◌≡◌ {A = ℕ} 0 0) × (finished.id.has_init ≡ 1) × Started card finished
sd_fx_init_finalize-Started_example =
    sd_fx_init_finalize-Started card 10 0x1000 0x2000 0x3000 probed (done 0 finished) refl
      (omega arith) (omega arith) refl (ap (λ (r : Ret (Driver ℕ)). r.value) begins)
      (ap (λ (r : Ret (Driver ℕ)). r.state.id.op_cond_pending) begins)
      (ap (λ (r : Ret (Driver ℕ)). sd_fx_init_finalize card 10 0x1000 0x2000 0x3000 r.state) begins
        ∙ ends)
      started-IsCsd
