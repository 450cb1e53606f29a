-- ===== src/SdMmc/Sim.antt =====
-- A card that serves single-block reads only, of 32 blocks of 512 bytes.
use nintendo_switch_pkg.Prelude.{
  ℕ, ◌+◌, ◌-◌, ◌*◌, ◌%◌, ◌<◌, ◌≡◌, refl, inl, inr, true, false, ◌&&◌, Option, none, some, [], arith,
  ltb, leb, ◌==◌, if◌then◌else◌, Bool-cases,
}
use nintendo_switch_pkg.SdMmc.{Cmd, Data, Outcome, Host, Mmc, BlkDesc}
use nintendo_switch_pkg.SdMmc.Card.{Filled, KeepsOutside, Card, Geometry}

pub record Sim : Type 0 where
  pub mem : ℕ → ℕ
  pub len : ℕ

-- The bytes of the card.
abbrev pub sim_disk : ℕ → ℕ
sim_disk i = i % 251

unfoldable pub sim_copy : ℕ → ℕ → ℕ → (ℕ → ℕ) → ℕ → ℕ
sim_copy dst n src m a = if leb dst a && ltb a (dst + n) then sim_disk (src + (a - dst)) else m a

unfoldable pub sim_send : Cmd → Option Data → Sim → Outcome Sim
sim_send c none s = record {
  err = 0;
  response = 0x900;
  response_1 = 0;
  response_2 = 0;
  response_3 = 0;
  state = record s { len = if c.cmdidx == 16 then c.cmdarg else s.len };
}
sim_send c (some d) s =
    if c.cmdidx == 17 && s.len == d.blocksize
    then record {
      err = 0;
      response = 0x900;
      response_1 = 0;
      response_2 = 0;
      response_3 = 0;
      state = record s { mem = sim_copy d.dest (d.blocks * d.blocksize) (c.cmdarg * 512) s.mem };
    }
    else record {
      err = 110;
      response = 0;
      response_1 = 0;
      response_2 = 0;
      response_3 = 0;
      state = s;
    }

abbrev pub sim : Host
sim = record {
  State = Sim;
  send_cmd = sim_send;
  set_ios = λ width clock s. s;
  memory = λ s. s.mem;
  get_timer = λ s. 0;
}

sim_read_outside :
    (c : Cmd) (d : Data) (s : Sim)
    → KeepsOutside sim d.dest (d.blocks * d.blocksize) s ((sim_send c (some d) s).state)
unfolding sim_send sim_copy
sim_read_outside c d s a away = ground arith

sim_copy-inside :
    (dst n src : ℕ) (m : ℕ → ℕ) (i : ℕ)
    → i < n
    → sim_copy dst n src m (dst + i) ≡ sim_disk (src + i)
unfolding sim_copy
sim_copy-inside dst n src m i below =
    let e : dst + i - dst ≡ i = omega arith in
    let t : (leb dst (dst + i) && ltb (dst + i) (dst + n)) ≡ true = ground arith in rw (t, e) refl

sim_read_inside :
    (c : Cmd) (d : Data) (s : Sim)
    → (sim_send c (some d) s).err ≡ 0
    → Filled sim sim_disk d.dest
        (d.blocks * d.blocksize)
        (c.cmdarg * 512)
        ((sim_send c (some d) s).state)
unfolding sim_send
sim_read_inside c d s fine i below = elim (Bool-cases (c.cmdidx == 17 && s.len == d.blocksize)) [
  | inl served ↦
      rw (sim_send, served)
        (sim_copy-inside d.dest (d.blocks * d.blocksize) (c.cmdarg * 512) s.mem i below)
  | inr refused ↦ absurd (let f = rw (sim_send, refused) at fine in omega arith)
]

pub sim-Card : Card sim true sim_disk
unfolding sim_send
sim-Card = record {
  block_len = λ s. s.len;
  command_memory = λ c s a. refl;
  stop_block_len = λ s. refl;
  set_block_len = λ c s e ok. ground arith;
  read_block_len = λ c d s. ground arith;
  read_outside = λ c d s r. sim_read_outside c d s;
  read_inside = λ c d s r e ok. sim_read_inside c d s ok;
}

-- A card of 32 blocks of 512 bytes.
abbrev pub sim_mmc : Mmc
sim_mmc = record {
  b_max = 65535;
  high_capacity = true;
  ddr_mode = false;
  rca = 1;
  part_config = 0;
  read_bl_len = 512;
  capacity = 16384;
  capacity_user = 16384;
  capacity_boot = 1024;
  capacity_rpmb = 0;
  capacity_gp = [];
}

abbrev pub sim_blk : BlkDesc
sim_blk = record { hwpart = 0; lba = 32; blksz = 512 }

pub sim-Geometry : Geometry sim_mmc sim_blk
sim-Geometry = record {
  single_rate = refl;
  block_len_pos = omega arith;
  block_len_max = omega arith;
  b_max_pos = omega arith;
  b_max_fits = omega arith;
  blocks_fit = omega arith;
  bytes_fit = inl (refl, refl);
}

abbrev pub idle : Sim
idle = record { mem = λ a. 0; len = 0 }
