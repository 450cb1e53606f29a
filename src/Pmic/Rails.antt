-- ===== src/Pmic/Rails.antt =====
-- The driver of the power controller, Drivers/PmicDxe/Pmic.c, and the power-off of
-- Library/UtilLib/UtilLib.c.
use Prim.Native.Nat.{bit_and, bit_or}
use nintendo_switch_pkg.Prelude.{
  ℕ, ◌%◌, ◌^◌, ◌<◌, ◌≡◌, ◌≢◌, true, false, not, ◌&&◌, ◌||◌, arith, ◌==◌, if◌then◌else◌, ◌∙◌, ap,
}
use nintendo_switch_pkg.Prelude.Bits.{
  test_bit, not32, test_bit-bit_and, test_bit-bit_or, test_bit-not32, test_bit-low, test_bit-pow,
}
use nintendo_switch_pkg.Pmic.{
  Bus, KeepsBytes, pmic_regulators, max77620_regulator_set_voltage, max77620_regulator_enable,
}
use nintendo_switch_pkg.Pmic.Voltage.{voltage}

-- The codes that SetRegulatorVoltage returns.
data PmicStatus : Type 0 where
  success : PmicStatus
  invalid_parameter : PmicStatus

record Regulated (S : Type 0) : Type 0 where
  pub status : PmicStatus
  pub state : S

module _ (bus : Bus) where
  unfoldable query_power_button : bus.State → ℕ
  query_power_button s = bit_and (bus.recv_byte 0x15 s) 4

  unfoldable set_regulator_voltage : ℕ → ℕ → bus.State → Regulated bus.State
  set_regulator_voltage id mv s =
      let r = max77620_regulator_set_voltage bus id mv s in
      record { status = if r.value == 1 then success else invalid_parameter; state = r.state }

  unfoldable enable_regulator : ℕ → bus.State → bus.State
  enable_regulator id s = (max77620_regulator_enable bus id true s).state

  unfoldable disable_regulator : ℕ → bus.State → bus.State
  disable_regulator id s = (max77620_regulator_enable bus id false s).state

  -- Of PmicDxeInitialize: the registers it sets, in the order LDO2, LDO4, CNFGGLBL1 and LDO1.
  unfoldable pub stop_discharge : bus.State → bus.State
  stop_discharge s = bus.send_byte 0x2B (bit_and (bus.recv_byte 0x2B s) (not32 (2 ^ 1)) % 2 ^ 8) s

  unfoldable pub set_mblpd : bus.State → bus.State
  set_mblpd s = bus.send_byte 0x00 (bit_or (bus.recv_byte 0x00 s) (2 ^ 6) % 2 ^ 8) s

  unfoldable pub start_rails : bus.State → bus.State
  start_rails s = bus.send_byte 0x25 0xCA (set_mblpd (stop_discharge (bus.send_byte 0x27 0xF2 s)))

  unfoldable shutdown_using_pmic : bus.State → bus.State
  shutdown_using_pmic s = bus.send_byte 0x41 (bit_or (bus.recv_byte 0x41 s) (2 ^ 1) % 2 ^ 8) s

bit_set :
    (v k i : ℕ) → k < 8 → i < 8 → test_bit (bit_or v (2 ^ k) % 2 ^ 8) i ≡ (test_bit v i || (i == k))
bit_set v k i below small =
    rw (test_bit-low 8 (bit_or v (2 ^ k)) i, test_bit-bit_or i v (2 ^ k), test_bit-pow k i)
      (ground arith)

bit_cleared :
    (v k i : ℕ)
    → i < 8
    → test_bit (bit_and v (not32 (2 ^ k)) % 2 ^ 8) i ≡ (test_bit v i && not (i == k))
bit_cleared v k i small =
    rw
      (
        test_bit-low 8 (bit_and v (not32 (2 ^ k))) i,
        test_bit-bit_and i v (not32 (2 ^ k)),
        test_bit-not32 (2 ^ k) i,
        test_bit-pow k i,
      )
      (ground arith)

module _ (bus : Bus) (keeps : KeepsBytes bus) where
  -- Where a register keeps the byte last sent to it: after PmicDxeInitialize has set its registers, ldo2 is
  -- at 3.3 V and ldo1 at 1.05 V, as the table of the regulators gives the voltage of a byte, both with
  -- their mode bits on; of the byte of ldo4's register bit 1 is 0, of that of CNFGGLBL1 bit 6 is 1, and
  -- their other bits are as they were; and so are the other registers.
  pub start_rails-sets :
      (s : bus.State) (i : ℕ)
      → i < 8
      → let t = start_rails bus s in
        (voltage (pmic_regulators 6) (bus.recv_byte 0x27 t) ≡ 3300000)
        × (bit_and (bus.recv_byte 0x27 t) 0xC0 ≡ 0xC0)
        × (voltage (pmic_regulators 5) (bus.recv_byte 0x25 t) ≡ 1050000)
        × (bit_and (bus.recv_byte 0x25 t) 0xC0 ≡ 0xC0)
        × (test_bit (bus.recv_byte 0x2B t) i ≡ (test_bit (bus.recv_byte 0x2B s) i && not (i == 1)))
        × (test_bit (bus.recv_byte 0x00 t) i ≡ (test_bit (bus.recv_byte 0x00 s) i || (i == 6)))
        × ((a : ℕ)
            → 0x27 ≢ a
            → 0x2B ≢ a
            → 0x00 ≢ a
            → 0x25 ≢ a
            → bus.recv_byte a t ≡ bus.recv_byte a s)
  unfolding start_rails stop_discharge set_mblpd pmic_regulators
  start_rails-sets s i small =
      let s_1 = bus.send_byte 0x27 0xF2 s in
      let s_2 = stop_discharge bus s_1 in
      let s_3 = set_mblpd bus s_2 in
      let ldo4 : ℕ = bit_and (bus.recv_byte 0x2B s_1) (not32 (2 ^ 1)) % 2 ^ 8 in
      let glbl : ℕ = bit_or (bus.recv_byte 0x00 s_2) (2 ^ 6) % 2 ^ 8 in
      let far_25 = λ (a : ℕ) (h : 0x25 ≢ a). keeps.others 0x25 a 0xCA s_3 h in
      let far_0 = λ (a : ℕ) (h : 0x00 ≢ a). keeps.others 0x00 a glbl s_2 h in
      let far_2b = λ (a : ℕ) (h : 0x2B ≢ a). keeps.others 0x2B a ldo4 s_1 h in
      let far_27 = λ (a : ℕ) (h : 0x27 ≢ a). keeps.others 0x27 a 0xF2 s h in
      let at_27 : bus.recv_byte 0x27 (start_rails bus s) ≡ 0xF2 =
        far_25 0x27 (λ e. omega (arith, e))
        ∙ far_0 0x27 (λ e. omega (arith, e))
        ∙ far_2b 0x27 (λ e. omega (arith, e))
        ∙ keeps.sent 0x27 0xF2 s (omega arith) in
      let at_25 : bus.recv_byte 0x25 (start_rails bus s) ≡ 0xCA =
        keeps.sent 0x25 0xCA s_3 (omega arith) in
      let at_2b : bus.recv_byte 0x2B (start_rails bus s) ≡ ldo4 =
        far_25 0x2B (λ e. omega (arith, e))
        ∙ far_0 0x2B (λ e. omega (arith, e))
        ∙ keeps.sent 0x2B ldo4 s_1 (omega arith) in
      let at_0 : bus.recv_byte 0x00 (start_rails bus s) ≡ glbl =
        far_25 0x00 (λ e. omega (arith, e)) ∙ keeps.sent 0x00 glbl s_2 (omega arith) in
      (
        ap (voltage (pmic_regulators 6)) at_27,
        ap (λ b. bit_and b 0xC0) at_27,
        ap (voltage (pmic_regulators 5)) at_25,
        ap (λ b. bit_and b 0xC0) at_25,
        ap (λ b. test_bit b i) at_2b
            ∙ bit_cleared (bus.recv_byte 0x2B s_1) 1 i small
            ∙ ap (λ b. test_bit b i && not (i == 1)) (far_27 0x2B (λ e. omega (arith, e))),
        ap (λ b. test_bit b i) at_0
            ∙ bit_set (bus.recv_byte 0x00 s_2) 6 i (omega arith) small
            ∙ ap (λ b. test_bit b i || (i == 6))
                (far_2b 0x00 (λ e. omega (arith, e)) ∙ far_27 0x00 (λ e. omega (arith, e))),
        λ a h_27 h_2b h_0 h_25. far_25 a h_25 ∙ far_0 a h_0 ∙ far_2b a h_2b ∙ far_27 a h_27,
      )
