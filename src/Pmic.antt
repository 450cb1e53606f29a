-- ===== src/Pmic.antt =====
-- The power controller MAX77620, Library/Max7762xPmicLib/Max7762xPmicLib.c: its regulators. The bus to it,
-- `i2c_send_byte` and `i2c_recv_byte` of Library/I2cLib, is a parameter.
pub mod Voltage
pub mod Overflow
pub mod Rails
mod Tests
use Prim.Native.Nat.{bit_and, bit_or}
use nintendo_switch_pkg.Prelude.{
  ℕ, zero, suc, ◌+◌, ◌-◌, ◌/◌, ◌%◌, ◌^◌, ◌<◌, ◌≡◌, ◌≢◌, Bool, true, false, not, ◌||◌, ltb, ◌==◌,
  if◌then◌else◌,
}
use nintendo_switch_pkg.Prelude.Bits.{not32, shl32}

-- The bytes of the controller's registers, through the bus.
pub record Bus : Type 1 where
  pub State : Type 0
  pub recv_byte : ℕ → State → ℕ
  pub send_byte : ℕ → ℕ → State → State

-- A register keeps the byte that was last sent to it.
pub record KeepsBytes (bus : Bus) : Type 0 where
  pub sent : (a v : ℕ) (s : bus.State) → v < 2 ^ 8 → bus.recv_byte a (bus.send_byte a v s) ≡ v
  pub others :
      (a b v : ℕ) (s : bus.State)
      → a ≢ b
      → bus.recv_byte b (bus.send_byte a v s) ≡ bus.recv_byte b s

-- `max77620_regulator_t`, less the name and `reg_sd`.
pub record Regulator : Type 0 where
  pub is_sd : Bool
  pub mv_step : ℕ
  pub mv_min : ℕ
  pub mv_default : ℕ
  pub mv_max : ℕ
  pub volt_addr : ℕ
  pub cfg_addr : ℕ
  pub volt_mask : ℕ
  pub enable_mask : ℕ
  pub enable_shift : ℕ
  pub status_mask : ℕ
  pub fps_addr : ℕ
  pub fps_src : ℕ
  pub pd_period : ℕ
  pub pu_period : ℕ

-- The rows of the two kinds: MAX77620_SD_POWER_MODE_MASK and MAX77620_LDO_POWER_MODE_MASK.
abbrev sd : ℕ → ℕ → ℕ → ℕ → ℕ → ℕ → ℕ → ℕ → ℕ → ℕ → ℕ → ℕ → Regulator
sd step lowest usual highest volt cfg mask status fps src pd pu = record {
  is_sd = true;
  mv_step = step;
  mv_min = lowest;
  mv_default = usual;
  mv_max = highest;
  volt_addr = volt;
  cfg_addr = cfg;
  volt_mask = mask;
  enable_mask = 0x30;
  enable_shift = 4;
  status_mask = status;
  fps_addr = fps;
  fps_src = src;
  pd_period = pd;
  pu_period = pu;
}

abbrev ldo : ℕ → ℕ → ℕ → ℕ → ℕ → ℕ → ℕ → ℕ → ℕ → ℕ → ℕ → Regulator
ldo step lowest usual highest volt cfg mask fps src pd pu = record {
  is_sd = false;
  mv_step = step;
  mv_min = lowest;
  mv_default = usual;
  mv_max = highest;
  volt_addr = volt;
  cfg_addr = cfg;
  volt_mask = mask;
  enable_mask = 0xC0;
  enable_shift = 6;
  status_mask = 0;
  fps_addr = fps;
  fps_src = src;
  pd_period = pd;
  pu_period = pu;
}

-- The regulators sd0 to sd3 and ldo0 to ldo8; REGULATOR_MAX is 12.
unfoldable pub pmic_regulators : ℕ → Regulator
pmic_regulators id =
    if id == 0
    then sd 12500 600000 625000 1400000 0x16 0x1d 0x3F 0x80 0x4f 1 7 1
    else if id == 1
    then sd 12500 600000 1100000 1125000 0x17 0x1e 0x7F 0x40 0x50 0 1 5
    else if id == 2
    then sd 12500 600000 1325000 1350000 0x18 0x1f 0xFF 0x20 0x51 1 5 2
    else if id == 3
    then sd 12500 600000 1800000 1800000 0x19 0x20 0xFF 0x10 0x52 0 3 3
    else if id == 4
    then ldo 25000 800000 1200000 1200000 0x23 0x24 0x3F 0x46 3 7 0
    else if id == 5
    then ldo 25000 800000 1050000 1050000 0x25 0x26 0x3F 0x47 3 7 0
    else if id == 6
    then ldo 50000 800000 1800000 3300000 0x27 0x28 0x3F 0x48 3 7 0
    else if id == 7
    then ldo 50000 800000 3100000 3100000 0x29 0x2a 0x3F 0x49 3 7 0
    else if id == 8
    then ldo 12500 800000 850000 850000 0x2b 0x2c 0x3F 0x4a 0 7 1
    else if id == 9
    then ldo 50000 800000 1800000 1800000 0x2d 0x2e 0x3F 0x4b 3 7 0
    else if id == 10
    then ldo 50000 800000 2900000 2900000 0x2f 0x30 0x3F 0x4c 3 7 0
    else if id == 11
    then ldo 50000 800000 1050000 1050000 0x31 0x32 0x3F 0x4d 1 4 3
    else ldo 50000 800000 1050000 1050000 0x33 0x34 0x3F 0x4e 3 7 0

-- A value returned, and the state of the bus after.
pub record Ret (S : Type 0) : Type 0 where
  pub value : ℕ
  pub state : S

-- `(val & ~mask) | (v & mask)`, in a byte.
unfoldable pub merge : ℕ → ℕ → ℕ → ℕ
merge mask v val = bit_or (bit_and val (not32 mask)) (bit_and v mask) % 2 ^ 8

-- The least number of steps that gives the voltage.
unfoldable pub steps_for : Regulator → ℕ → ℕ
steps_for reg mv = (mv + reg.mv_step - 1 - reg.mv_min) / reg.mv_step

module _ (bus : Bus) where
  unfoldable pub max77620_regulator_get_status : ℕ → bus.State → ℕ
  max77620_regulator_get_status id s =
      let reg = pmic_regulators id in
      if ltb 12 id
      then 0
      else if reg.is_sd
      then if bit_and (bus.recv_byte 0x14 s) reg.status_mask == 0 then 1 else 0
      else if bit_and (bus.recv_byte reg.cfg_addr s) 8 == 0
      then 0
      else 1

  unfoldable pub max77620_regulator_config_fps : ℕ → bus.State → Ret bus.State
  max77620_regulator_config_fps id s =
      let reg = pmic_regulators id in
      let fps =
        bit_or (bit_or (shl32 reg.fps_src 6) (shl32 reg.pu_period 3)) reg.pd_period % 2 ^ 8 in
      if ltb 12 id
      then record { value = 0; state = s }
      else record { value = 1; state = bus.send_byte reg.fps_addr fps s }

  unfoldable pub max77620_regulator_set_voltage : ℕ → ℕ → bus.State → Ret bus.State
  max77620_regulator_set_voltage id mv s =
      let reg = pmic_regulators id in
      let val = merge reg.volt_mask (steps_for reg mv) (bus.recv_byte reg.volt_addr s) in
      if ltb 12 id
      then record { value = 0; state = s }
      else if ltb mv reg.mv_min || ltb reg.mv_max mv
      then record { value = 0; state = s }
      else record { value = 1; state = bus.send_byte reg.volt_addr val s }

  unfoldable pub max77620_regulator_enable : ℕ → Bool → bus.State → Ret bus.State
  max77620_regulator_enable id enable s =
      let reg = pmic_regulators id in
      let addr = if reg.is_sd then reg.cfg_addr else reg.volt_addr in
      let mode = if enable then shl32 3 reg.enable_shift else 0 in
      let val = merge reg.enable_mask mode (bus.recv_byte addr s) in
      if ltb 12 id
      then record { value = 0; state = s }
      else record { value = 1; state = bus.send_byte addr val s }

  -- A round of the loop of `max77620_config_default`; MAX77620_FPS_SRC_NONE is 3.
  unfoldable pub config_regulator : ℕ → bus.State → bus.State
  config_regulator i s =
      let reg = pmic_regulators i in
      let timed = (max77620_regulator_config_fps i s).state in
      let volt = (max77620_regulator_set_voltage i reg.mv_default timed).state in
      if reg.fps_src == 3 then volt else (max77620_regulator_enable i true volt).state

  -- The loop runs from 1 to REGULATOR_MAX, and leaves sd0 out.
  unfoldable pub config_from : ℕ → ℕ → bus.State → bus.State
  config_from zero i s = s
  config_from (suc n) i s = config_from n (i + 1) (config_regulator i s)

  unfoldable pub max77620_config_default : bus.State → bus.State
  max77620_config_default s = bus.send_byte 0x22 4 (config_from 12 1 s)
