-- ===== src/SdMmc/DxeTests.antt =====
-- The start of the SD card driver on a high-capacity card that answers every command, of 7530 times 1024
-- blocks, each of which ends in 55 AA.
use nintendo_switch_pkg.Prelude.{
  ℕ, ◌+◌, ◌-◌, ◌*◌, ◌%◌, ◌<◌, ◌≡◌, refl, ap, ◌∙◌, true, ◌&&◌, ◌||◌, Option, none, some, arith, ltb,
  leb, ◌==◌, if◌then◌else◌,
}
use nintendo_switch_pkg.Prelude.Bits.{not32, shl32, shr}
use nintendo_switch_pkg.SdMmc.{Cmd, Data, Host, Ret}
use nintendo_switch_pkg.SdMmc.Command.{capacity_of, mmc_set_capacity}
use nintendo_switch_pkg.SdMmc.Card.{Filled, KeepsOutside, Card}
use nintendo_switch_pkg.SdMmc.Ident.{
  Driver, is_sd, sd_version_1_0, sd_version_2, done, send, app_cmd, rca_arg, be32_at, ok_then,
  mmc_set_clock, mmc_set_bus_width,
}
use nintendo_switch_pkg.SdMmc.OpCond.{
  powered_up, has_high_capacity, sd_send_op_cond, poll_op_cond, op_cond_cmd, sd_powered_up,
  mmc_send_if_cond, if_cond_cmd, mmc_go_idle,
}
use nintendo_switch_pkg.SdMmc.SdFeatures.{
  keep_scr, one_block, read_scr, read_ssr, scr_version, sd_change_freq, sd_read_ssr, send_again,
  word_of, nth_au_size, sd_au_size,
}
use nintendo_switch_pkg.SdMmc.Startup.{
  csd_size, csd_read_bl, mmc_startup, read_csd, start_card, select_card, at_most_512, csd_capacity,
  csd_mult, csd_write_bl, csd_version, describe, fbase, finish_sd, keep_csd, keep_rca, multipliers,
  nth_number, set_capacity, set_dsr, set_up_sd, widen_bus,
}
use nintendo_switch_pkg.SdMmc.CsdBounds.{IsCsd}
use nintendo_switch_pkg.SdMmc.FxInit.{sd_fx_init, sd_fx_init_finalize, start_up, set_has_init}
use nintendo_switch_pkg.SdMmc.Probe.{probe_records}
use nintendo_switch_pkg.SdMmc.SelfTest.{Dxe, Services, sd_mmc_dxe_initialize}
use nintendo_switch_pkg.SdMmc.Installed.{Ends, sd_mmc_dxe_initialize-Ends}

record Reader : Type 0 where
  pub mem : ℕ → ℕ
  pub len : ℕ

-- The bytes of the card.
abbrev signed : ℕ → ℕ
signed i = if i % 512 == 510 then 0x55 else if i % 512 == 511 then 0xAA else 0

abbrev answer : ℕ → ℕ
answer cmdidx =
    if cmdidx == 8
    then 0xaa
    else if cmdidx == 41
    then 0xC0FF8000
    else if cmdidx == 3
    then 0x12340000
    else 0x900

copied : ℕ → ℕ → ℕ → (ℕ → ℕ) → ℕ → ℕ
copied dst n src m a = if leb dst a && ltb a (dst + n) then signed (src + (a - dst)) else m a

next : Cmd → Option Data → Reader → Reader
next c none s = if c.cmdidx == 16 then record s { len = c.cmdarg } else s
next c (some d) s =
    if c.cmdidx == 17 || c.cmdidx == 18
    then record s { mem = copied d.dest (d.blocks * d.blocksize) (c.cmdarg * 512) s.mem }
    else s

abbrev reader : Host
reader = record {
  State = Reader;
  send_cmd = λ c d s. record {
    err = 0;
    response = answer c.cmdidx;
    response_1 = if c.cmdidx == 9 then 0x5b590000 else 0;
    response_2 = if c.cmdidx == 9 then 0x1d69ffff else 0;
    response_3 = 0;
    state = next c d s;
  };
  set_ios = λ width clock s. s;
  memory = λ s. s.mem;
  get_timer = λ s. 0;
}

copied-inside :
    (dst n src : ℕ) (m : ℕ → ℕ) (i : ℕ) → i < n → copied dst n src m (dst + i) ≡ signed (src + i)
unfolding copied
copied-inside dst n src m i below =
    let e : dst + i - dst ≡ i = omega arith in
    let t : (leb dst (dst + i) && ltb (dst + i) (dst + n)) ≡ true = ground arith in rw (t, e) refl

read_inside :
    (c : Cmd) (d : Data) (s : Reader)
    → (c.cmdidx == 17 || c.cmdidx == 18) ≡ true
    → Filled reader signed d.dest (d.blocks * d.blocksize) (c.cmdarg * 512) (next c (some d) s)
unfolding next
read_inside c d s reads i below =
    rw reads (copied-inside d.dest (d.blocks * d.blocksize) (c.cmdarg * 512) s.mem i below)

read_outside :
    (c : Cmd) (d : Data) (s : Reader)
    → KeepsOutside reader d.dest (d.blocks * d.blocksize) s (next c (some d) s)
unfolding next copied
read_outside c d s a away = ground arith

reader-Card : Card reader true signed
unfolding next
reader-Card = record {
  block_len = λ s. s.len;
  command_memory = λ c s a. ground arith;
  stop_block_len = λ s. refl;
  set_block_len = λ c s e ok. ground arith;
  read_block_len = λ c d s. ground arith;
  read_outside = λ c d s r. read_outside c d s;
  read_inside = λ c d s r e ok. read_inside c d s (ground arith);
}

abbrev asleep : Reader
asleep = record { mem = λ a. 0; len = 0 }

abbrev begun : Driver Reader
begun =
    let probed : Driver Reader = probe_records asleep in
    record {
      sd = record (probed.sd) { mmc = record (probed.sd.mmc) { high_capacity = true } };
      id = record (probed.id) {
        version = sd_version_2;
        bus_width = 1;
        ocr = 0xC0FF8000;
        init_in_progress = 1;
      };
    }

begins : sd_fx_init reader (probe_records asleep) ≡ done 0 begun
unfolding probe_records next send sd_fx_init sd_send_op_cond poll_op_cond powered_up op_cond_cmd
    sd_powered_up has_high_capacity mmc_send_if_cond if_cond_cmd mmc_go_idle mmc_set_clock
    mmc_set_bus_width shl32 app_cmd
begins = refl

abbrev finished : Driver Reader
finished = record {
  sd = record {
    mmc = record (begun.sd.mmc) {
      rca = 0x1234;
      part_config = 0xff;
      read_bl_len = 512;
      capacity = 3947888640;
      capacity_user = 3947888640;
    };
    blk = record { hwpart = 0; lba = 7710720; blksz = 512 };
    host = asleep;
  };
  id = record (begun.id) {
    version = sd_version_1_0;
    has_init = 1;
    clock = 25000000;
    csd_0 = 0x900;
    csd_1 = 0x5b590000;
    csd_2 = 0x1d69ffff;
    tran_speed = 25000000;
    write_bl_len = 512;
    erase_grp_size = 1;
    init_in_progress = 0;
  };
}

finishes : sd_fx_init_finalize reader 10 0x1000 0x2000 0x3000 begun ≡ some (done 0 finished)
unfolding probe_records next send sd_fx_init_finalize start_up set_has_init mmc_startup read_csd
    start_card is_sd select_card not32 shl32 shr capacity_of mmc_set_capacity app_cmd be32_at
    ok_then rca_arg keep_scr one_block read_scr read_ssr scr_version sd_change_freq sd_read_ssr
    send_again word_of at_most_512 csd_capacity csd_mult csd_read_bl csd_size csd_write_bl
    csd_version describe fbase finish_sd keep_csd keep_rca multipliers nth_number set_capacity
    set_dsr set_up_sd widen_bus mmc_set_clock nth_au_size sd_au_size
finishes = refl

started-IsCsd : IsCsd true 0x5b590000 0x1d69ffff
unfolding csd_read_bl csd_size shl32 shr
started-IsCsd = record {
  block_len_min = omega arith;
  block_len_max = omega arith;
  high_block_len = λ _. refl;
  high_size = λ _. omega arith;
}

-- The firmware has memory, at 0x8000, and installs what it is given.
abbrev willing : Services Reader
willing = record {
  zero_mem = λ a n s. s;
  copy_pool = λ s. record { value = 0x8000; state = s };
  install_protocols = λ media s. record { value = 0; state = s };
}

sd_mmc_dxe_initialize-Ends_example :
    (x : Dxe Reader) × (sd_mmc_dxe_initialize reader 0x9000 willing 10 0x1000 0x2000 0x3000
        (probe_records asleep)
      ≡ some x)
    × (t : Reader) × KeepsOutside reader 0x9000 512 asleep t
    × Ends reader signed willing 0x9000 finished t x
unfolding probe_records
sd_mmc_dxe_initialize-Ends_example =
    sd_mmc_dxe_initialize-Ends reader signed willing 0x9000 10 0x1000 0x2000 0x3000 asleep
      (done 0 finished) (λ a n t b away. refl) (ap (λ (r : Ret (Driver Reader)). r.value) begins)
      (ap (λ (r : Ret (Driver Reader)). r.state.id.op_cond_pending) begins)
      (ap (λ (r : Ret (Driver Reader)). sd_fx_init_finalize reader 10 0x1000 0x2000 0x3000 r.state)
          begins
        ∙ finishes)
      started-IsCsd reader-Card
