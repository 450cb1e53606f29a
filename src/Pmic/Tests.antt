-- ===== src/Pmic/Tests.antt =====
-- Runs of the power controller on a register file that keeps its bytes.
use Prim.Native.Nat.{bit_and}
use nintendo_switch_pkg.Prelude.{
  ℕ, ◌+◌, ◌≤◌, ◌<◌, ◌≡◌, ◌≢◌, refl, not, ◌&&◌, ◌||◌, arith, ◌==◌, if◌then◌else◌,
}
use nintendo_switch_pkg.Prelude.Bits.{test_bit, not32}
use nintendo_switch_pkg.Pmic.{
  Bus, KeepsBytes, pmic_regulators, merge, steps_for, max77620_regulator_set_voltage,
}
use nintendo_switch_pkg.Pmic.Voltage.{voltage, field_width, max77620_regulator_set_voltage-voltage}
use nintendo_switch_pkg.Pmic.Rails.{start_rails, stop_discharge, set_mblpd, start_rails-sets}
use nintendo_switch_pkg.Pmic.Overflow.{max77620_regulator_set_voltage-sd0}

abbrev file : Bus
file = record {
  State = ℕ → ℕ;
  recv_byte = λ a s. s a;
  send_byte = λ a v s b. if b == a then v else s b;
}

file-KeepsBytes : KeepsBytes file
file-KeepsBytes = record {
  sent = λ a v s small. ground arith;
  others = λ a b v s apart. ground arith;
}

abbrev ldo2_on : ℕ → ℕ
ldo2_on = λ a. if a == 0x27 then 0xC0 else 0

max77620_regulator_set_voltage-voltage_example :
    let reg = pmic_regulators 6 in
    let r = max77620_regulator_set_voltage file 6 1810000 ldo2_on in
    let byte = file.recv_byte reg.volt_addr r.state in
    (r.value ≡ 1)
    × (1810000 ≤ voltage reg byte)
    × (voltage reg byte < 1810000 + reg.mv_step)
    × ((i : ℕ)
        → field_width 6 ≤ i
        → test_bit byte i ≡ test_bit (file.recv_byte reg.volt_addr ldo2_on) i)
unfolding pmic_regulators
max77620_regulator_set_voltage-voltage_example =
    max77620_regulator_set_voltage-voltage file 6 1810000 ldo2_on file-KeepsBytes (omega arith)
      (omega arith) (omega arith) (λ e. omega (arith, e)) (omega arith)

ldo2_byte : file.recv_byte 0x27 (max77620_regulator_set_voltage file 6 1810000 ldo2_on).state ≡ 0xD5
unfolding max77620_regulator_set_voltage pmic_regulators merge steps_for not32
ldo2_byte = refl

max77620_regulator_set_voltage-sd0_example :
    let r = max77620_regulator_set_voltage file 0 1400000 (λ a. 0) in
    (r.value ≡ 1)
    × (voltage (pmic_regulators 0) (file.recv_byte (pmic_regulators 0).volt_addr r.state) ≡ 600000)
max77620_regulator_set_voltage-sd0_example =
    max77620_regulator_set_voltage-sd0 file 1400000 (λ a. 0) file-KeepsBytes (omega arith)
      (omega arith)

start_rails-sets_example :
    let t = start_rails file (λ a. 0xFF) in
    (voltage (pmic_regulators 6) (file.recv_byte 0x27 t) ≡ 3300000)
    × (bit_and (file.recv_byte 0x27 t) 0xC0 ≡ 0xC0)
    × (voltage (pmic_regulators 5) (file.recv_byte 0x25 t) ≡ 1050000)
    × (bit_and (file.recv_byte 0x25 t) 0xC0 ≡ 0xC0)
    × (test_bit (file.recv_byte 0x2B t) 1 ≡ (test_bit 0xFF 1 && not (1 == 1)))
    × (test_bit (file.recv_byte 0x00 t) 1 ≡ (test_bit 0xFF 1 || (1 == 6)))
    × ((a : ℕ) → 0x27 ≢ a → 0x2B ≢ a → 0x00 ≢ a → 0x25 ≢ a → file.recv_byte a t ≡ 0xFF)
start_rails-sets_example = start_rails-sets file file-KeepsBytes (λ a. 0xFF) 1 (omega arith)

ldo4_byte : file.recv_byte 0x2B (start_rails file (λ a. 0xFF)) ≡ 0xFD
unfolding start_rails stop_discharge set_mblpd not32
ldo4_byte = refl
