-- ===== src/Pmic/Overflow.antt =====
-- The upper end of the range of sd0 in Max7762xPmicLib.c.
use Prim.Native.Nat.{bit_and, bit_or}
use nintendo_switch_pkg.Prelude.{ℕ, ◌%◌, ◌^◌, ◌≤◌, ◌<◌, ◌≡◌, refl, arith}
use nintendo_switch_pkg.Prelude.Bits.{
  not32, test_bit-bit_and, test_bit-bit_or, test_bit-not32, test_bit-low, test_bit-ones,
  test_bit-zero, eq_of_bits,
}
use nintendo_switch_pkg.Pmic.{
  Bus, KeepsBytes, pmic_regulators, merge, steps_for, max77620_regulator_set_voltage,
}
use nintendo_switch_pkg.Pmic.Voltage.{voltage, set_voltage-sent, merge-lt}

steps_for-sd0 : (mv : ℕ) → 1387500 < mv → mv ≤ 1400000 → steps_for (pmic_regulators 0) mv ≡ 64
unfolding steps_for pmic_regulators
steps_for-sd0 mv above most = omega arith

merge-sd0 : (val : ℕ) → bit_and (merge 0x3F 64 val) 0x3F ≡ 0
unfolding merge
merge-sd0 val = eq_of_bits _ _ λ i.
    rw
      (
        test_bit-bit_and i (bit_or (bit_and val (not32 0x3F)) 0 % 2 ^ 8) 0x3F,
        test_bit-low 8 (bit_or (bit_and val (not32 0x3F)) 0) i,
        test_bit-bit_or i (bit_and val (not32 0x3F)) 0,
        test_bit-bit_and i val (not32 0x3F),
        test_bit-not32 0x3F i,
        test_bit-ones 6 i,
        test_bit-zero i,
      )
      (ground arith)

-- For sd0 and a voltage above 1.3875 V and in its range: the call reports success, and the regulator is
-- set to its lowest voltage, 0.6 V.
pub max77620_regulator_set_voltage-sd0 :
    (bus : Bus) (mv : ℕ) (s : bus.State)
    → KeepsBytes bus
    → 1387500 < mv
    → mv ≤ 1400000
    → let r = max77620_regulator_set_voltage bus 0 mv s in
      (r.value ≡ 1)
      × (voltage (pmic_regulators 0) (bus.recv_byte (pmic_regulators 0).volt_addr r.state) ≡ 600000)
unfolding pmic_regulators
max77620_regulator_set_voltage-sd0 bus mv s keeps above most =
    let old = bus.recv_byte 0x16 s in
    rw
      (
        set_voltage-sent bus 0 mv s (omega arith) (omega arith) most,
        steps_for-sd0 mv above most,
        keeps.sent 0x16 (merge 0x3F 64 old) s (merge-lt 0x3F 64 old),
        merge-sd0 old,
      )
      (refl, refl)
