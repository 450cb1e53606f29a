-- ===== src/SdMmc.antt =====
-- The SD card driver, Drivers/SdMmcDxe: the records of Include/Protocol/Utc/Mmc.h and UBootBlk.h,
-- and the interface of the host controller that the commands of MmcHostOp.c are sent through.
-- An `int` error is its magnitude: 0 is success, and 110 is -ETIMEDOUT.
pub mod Command
pub mod Read
pub mod BlockIo
pub mod Card
pub mod ReadContent
pub mod BreadContent
pub mod BlockStep
pub mod BlockContent
pub mod BlockDevice
pub mod DeviceEdges
pub mod Status
pub mod Ident
pub mod OpCond
pub mod SdFeatures
pub mod Startup
pub mod CsdBounds
pub mod IdentKeeps
pub mod StartupGeometry
pub mod StartupReturns
pub mod FxInit
pub mod FxStarted
pub mod SelfTest
pub mod MbrFound
pub mod Probe
pub mod ProbeWords
pub mod ProbeEnds
pub mod Installed
mod ProbeTests
mod DxeTests
pub mod Controller
pub mod Bounced
pub mod Reach
pub mod BouncedReads
mod BouncedTests
mod Sim
mod Tests
mod IdentTests
use nintendo_switch_pkg.Prelude.{ℕ, Bool, Option, List}

-- `struct mmc_cmd`, less the response.
pub record Cmd : Type 0 where
  pub cmdidx : ℕ
  pub resp_type : ℕ
  pub cmdarg : ℕ

-- `struct mmc_data`; `dest` is an address.
pub record Data : Type 0 where
  pub dest : ℕ
  pub flags : ℕ
  pub blocks : ℕ
  pub blocksize : ℕ

-- What a call of `tegra_mmc_send_cmd` returns, and `cmd->response` after it: the first word, and the
-- other three.
pub record Outcome (S : Type 0) : Type 0 where
  pub err : ℕ
  pub response : ℕ
  pub response_1 : ℕ
  pub response_2 : ℕ
  pub response_3 : ℕ
  pub state : S

-- The host controller with the card in it: `tegra_mmc_send_cmd`, `tegra_mmc_set_ios` for a bus width
-- and a clock, the bytes of main memory, to which it transfers, and the timer, in microseconds.
pub record Host : Type 1 where
  pub State : Type 0
  pub send_cmd : Cmd → Option Data → State → Outcome State
  pub set_ios : ℕ → ℕ → State → State
  pub memory : State → ℕ → ℕ
  pub get_timer : State → ℕ

-- A value returned, and the state after.
pub record Ret (S : Type 0) : Type 0 where
  pub value : ℕ
  pub state : S

-- The fields of `struct mmc` that reading uses; `b_max` is `cfg->b_max`.
pub record Mmc : Type 0 where
  pub b_max : ℕ
  pub high_capacity : Bool
  pub ddr_mode : Bool
  pub rca : ℕ
  pub part_config : ℕ
  pub read_bl_len : ℕ
  pub capacity : ℕ
  pub capacity_user : ℕ
  pub capacity_boot : ℕ
  pub capacity_rpmb : ℕ
  pub capacity_gp : List ℕ

-- The fields of `struct blk_desc` that reading uses.
pub record BlkDesc : Type 0 where
  pub hwpart : ℕ
  pub lba : ℕ
  pub blksz : ℕ

-- The driver's globals `mMmcInstance` and `mBlkDesc`, and the host.
pub record Sd (S : Type 0) : Type 0 where
  pub mmc : Mmc
  pub blk : BlkDesc
  pub host : S

-- MMC_RSP_R1 and MMC_RSP_R1b.
abbrev pub rsp_r1 : ℕ
rsp_r1 = 0x15

abbrev pub rsp_r1b : ℕ
rsp_r1b = 0x1d
