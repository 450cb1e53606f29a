-- ===== src/SdMmc/Ident.antt =====
-- Card identification of Drivers/SdMmcDxe/MmcHostOp.c: the rest of `struct mmc`, and how the commands
-- that `return err` on a failure are chained.
use Prim.Native.Nat.{bit_and}
use nintendo_switch_pkg.Prelude.{ℕ, ◌+◌, ◌*◌, ◌%◌, ◌^◌, Bool, not, Option, ltb, ◌==◌, if◌then◌else◌}
use nintendo_switch_pkg.Prelude.Bits.{shl32}
use nintendo_switch_pkg.SdMmc.{Cmd, Data, Outcome, Host, Ret, Mmc, Sd, rsp_r1}

-- The versions of Mmc.h, SD_VERSION_1_0 and so on.
abbrev pub sd_version_1_0 : ℕ
sd_version_1_0 = 0x80010000

abbrev pub sd_version_1_10 : ℕ
sd_version_1_10 = 0x80010a00

abbrev pub sd_version_2 : ℕ
sd_version_2 = 0x80020000

abbrev pub sd_version_3 : ℕ
sd_version_3 = 0x80030000

abbrev pub mmc_version_unknown : ℕ
mmc_version_unknown = 0x40000000

abbrev pub eopnotsupp : ℕ
eopnotsupp = 95

-- `struct mmc_config`, less `b_max`.
pub record Config : Type 0 where
  pub host_caps : ℕ
  pub voltages : ℕ
  pub f_min : ℕ
  pub f_max : ℕ

-- `struct sd_ssr`.
pub record Ssr : Type 0 where
  pub au : ℕ
  pub erase_timeout : ℕ
  pub erase_offset : ℕ

-- The fields of `struct mmc` that identification uses besides those of `Mmc`.
pub record Ident : Type 0 where
  pub cfg : Config
  pub version : ℕ
  pub has_init : ℕ
  pub bus_width : ℕ
  pub clock : ℕ
  pub card_caps : ℕ
  pub ocr : ℕ
  pub dsr : ℕ
  pub dsr_imp : ℕ
  pub scr_0 : ℕ
  pub scr_1 : ℕ
  pub csd_0 : ℕ
  pub csd_1 : ℕ
  pub csd_2 : ℕ
  pub csd_3 : ℕ
  pub tran_speed : ℕ
  pub write_bl_len : ℕ
  pub erase_grp_size : ℕ
  pub ssr : Ssr
  pub op_cond_pending : Bool
  pub init_in_progress : ℕ

-- `mMmcInstance`, `mBlkDesc` and the host.
pub record Driver (S : Type 0) : Type 0 where
  pub sd : Sd S
  pub id : Ident

-- SD_VERSION_SD is bit 31.
unfoldable pub is_sd : ℕ → Bool
is_sd version = not (bit_and version (2 ^ 31) == 0)

abbrev pub with_host : {S : Type 0} → S → Driver S → Driver S
with_host s st = record st { sd = record (st.sd) { host = s } }

abbrev pub with_id : {S : Type 0} → Ident → Driver S → Driver S
with_id id st = record st { id = id }

abbrev pub with_mmc : {S : Type 0} → Mmc → Driver S → Driver S
with_mmc mmc st = record st { sd = record (st.sd) { mmc = mmc } }

abbrev pub done : {S : Type 0} → ℕ → Driver S → Ret (Driver S)
done value st = record { value = value; state = st }

-- `cmd.cmdarg = mmc->rca << 16`
unfoldable pub rca_arg : {S : Type 0} → Driver S → ℕ
rca_arg st = shl32 st.sd.mmc.rca 16

-- MMC_CMD_APP_CMD.
unfoldable pub app_cmd : ℕ → Cmd
app_cmd arg = record { cmdidx = 55; resp_type = rsp_r1; cmdarg = arg }

-- A word in memory, `be32_to_cpu` of which is taken.
unfoldable pub be32_at : (ℕ → ℕ) → ℕ → ℕ
be32_at m a =
    (m a % 2 ^ 8) * 2 ^ 24
    + (m (a + 1) % 2 ^ 8) * 2 ^ 16
    + (m (a + 2) % 2 ^ 8) * 2 ^ 8
    + m (a + 3) % 2 ^ 8

module _ (h : Host) where
  -- `err = tegra_mmc_send_cmd(&mPriv, &cmd, data); if (err) return err;`, and what follows.
  unfoldable pub send :
      Cmd
      → Option Data
      → Driver h.State
      → (Outcome h.State → Driver h.State → Ret (Driver h.State))
      → Ret (Driver h.State)
  send c d st next =
      let o = h.send_cmd c d st.sd.host in
      if o.err == 0 then next o (with_host o.state st) else done o.err (with_host o.state st)

  -- `if (err) return err;` after a call.
  unfoldable pub ok_then :
      Ret (Driver h.State) → (Driver h.State → Ret (Driver h.State)) → Ret (Driver h.State)
  ok_then r next = if r.value == 0 then next r.state else r

  -- `mmc_set_bus_width`
  unfoldable pub mmc_set_bus_width : ℕ → Driver h.State → Driver h.State
  mmc_set_bus_width width st =
      with_host (h.set_ios width st.id.clock st.sd.host)
        (with_id (record (st.id) { bus_width = width }) st)

  -- The clock is limited by `f_max`, then by `f_min`.
  unfoldable pub mmc_set_clock : ℕ → Driver h.State → Driver h.State
  mmc_set_clock clock st =
      let high = if ltb st.id.cfg.f_max clock then st.id.cfg.f_max else clock in
      let rate = if ltb high st.id.cfg.f_min then st.id.cfg.f_min else high in
      with_host (h.set_ios st.id.bus_width rate st.sd.host)
        (with_id (record (st.id) { clock = rate }) st)
