-- ===== src/Pmic/Voltage.antt =====
-- The voltage that `max77620_regulator_set_voltage` of Max7762xPmicLib.c sets.
use Prim.Native.Nat.{bit_and, bit_or}
use native.Mathlib.Nat.{div-add-mod', mod-lt, one-le-pow}
use nintendo_switch_pkg.Prelude.{
  ℕ, ◌+◌, ◌-◌, ◌*◌, ◌/◌, ◌^◌, ◌≤◌, ◌<◌, ◌≡◌, ◌⊎◌, refl, inl, inr, Bool, true, ◌&&◌, ◌||◌, arith,
  ltb, leb, ◌==◌, if◌then◌else◌, Bool-cases,
}
use nintendo_switch_pkg.Prelude.Bits.{
  test_bit, not32, test_bit-bit_and, test_bit-bit_or, test_bit-not32, test_bit-low, test_bit-ones,
  test_bit-high, eq_of_bits,
}
use nintendo_switch_pkg.Prelude.Range.{holds_below, holds_below-at}
use nintendo_switch_pkg.Pmic.{
  Bus, KeepsBytes, Regulator, pmic_regulators, merge, steps_for, max77620_regulator_set_voltage,
}

-- The steps are the least that reach the voltage.
steps_bounds :
    (lowest step mv : ℕ)
    → 0 < step
    → lowest ≤ mv
    → (mv ≤ lowest + (mv + step - 1 - lowest) / step * step)
      × (lowest + (mv + step - 1 - lowest) / step * step < mv + step)
steps_bounds lowest step mv pos low =
    let x = mv + step - 1 - lowest in omega (arith, div-add-mod' x step, mod-lt x {m = step} pos)

steps_fit :
    (lowest step mask mv : ℕ)
    → 0 < step
    → lowest ≤ mv
    → mv ≤ lowest + mask * step
    → (mv + step - 1 - lowest) / step ≤ mask
steps_fit lowest step mask mv pos low high =
    elim (Bool-cases (leb ((mv + step - 1 - lowest) / step) mask)) [
      | inl fits ↦ ground arith
      | inr over ↦
          let q = (mv + step - 1 - lowest) / step in
          let above : mask + 1 ≤ q = ground arith in
          let product : (mask + 1) * step ≤ q * step = grind arith in
          absurd (omega (arith, steps_bounds lowest step mv pos low, product))
    ]

-- The bits of the mask are the value's, the others are as they were.
merge_bit :
    (w v val i : ℕ)
    → w ≤ 8
    → v < 2 ^ w
    → val < 2 ^ 8
    → test_bit (merge (2 ^ w - 1) v val) i ≡ (if ltb i w then test_bit v i else test_bit val i)
unfolding merge
merge_bit w v val i width fits byte =
    rw
      (
        test_bit-low 8 (bit_or (bit_and val (not32 (2 ^ w - 1))) (bit_and v (2 ^ w - 1))) i,
        test_bit-bit_or i (bit_and val (not32 (2 ^ w - 1))) (bit_and v (2 ^ w - 1)),
        test_bit-bit_and i val (not32 (2 ^ w - 1)),
        test_bit-bit_and i v (2 ^ w - 1),
        test_bit-not32 (2 ^ w - 1) i,
        test_bit-ones w i,
      )
      (ground (arith, test_bit-high w v i fits, test_bit-high 8 val i byte))

merge-field :
    (w v val : ℕ)
    → w ≤ 8
    → v < 2 ^ w
    → val < 2 ^ 8
    → bit_and (merge (2 ^ w - 1) v val) (2 ^ w - 1) ≡ v
merge-field w v val width fits byte = eq_of_bits _ _ λ i.
    rw
      (
        test_bit-bit_and i (merge (2 ^ w - 1) v val) (2 ^ w - 1),
        test_bit-ones w i,
        merge_bit w v val i width fits byte,
      )
      (ground (arith, test_bit-high w v i fits))

-- The width of a regulator's field.
abbrev pub field_width : ℕ → ℕ
field_width id = if id == 1 then 7 else if id == 2 || id == 3 then 8 else 6

-- Of every regulator: its mask, its step, and that its highest voltage is in reach, but for sd0.
abbrev row_holds : ℕ → Bool
row_holds id =
    let reg = pmic_regulators id in
    (reg.volt_mask == 2 ^ field_width id - 1)
    && ltb 0 reg.mv_step
    && (id == 0 || leb reg.mv_max (reg.mv_min + reg.volt_mask * reg.mv_step))

rows_hold : holds_below row_holds 13 ≡ true
unfolding holds_below pmic_regulators
rows_hold = refl

row_read :
    (mask p step id highest reach : ℕ)
    → ((mask == p) && ltb 0 step && (id == 0 || leb highest reach)) ≡ true
    → (mask ≡ p) × (0 < step) × ((id ≡ 0) ⊎ (highest ≤ reach))
row_read mask p step id highest reach h = ground arith

row_facts :
    (id : ℕ)
    → id ≤ 12
    → ((pmic_regulators id).volt_mask ≡ 2 ^ field_width id - 1)
      × (0 < (pmic_regulators id).mv_step)
      × ((id ≡ 0)
          ⊎ ((pmic_regulators id).mv_max
              ≤ (pmic_regulators id).mv_min
                + (pmic_regulators id).volt_mask * (pmic_regulators id).mv_step))
row_facts id small =
    let h = holds_below-at row_holds 13 rows_hold id (omega arith) in row_read _ _ _ id _ _ h

-- The voltage that a byte of the regulator's register stands for.
abbrev pub voltage : Regulator → ℕ → ℕ
voltage reg byte = reg.mv_min + bit_and byte reg.volt_mask * reg.mv_step

field_width-le : (id : ℕ) → field_width id ≤ 8
field_width-le id = ground arith

sd0_reach :
    (id : ℕ)
    → id ≡ 0
    → (pmic_regulators id).mv_min + (pmic_regulators id).volt_mask * (pmic_regulators id).mv_step
      ≡ 1387500
unfolding pmic_regulators
sd0_reach id e = rw e refl

pub set_voltage-sent :
    (bus : Bus) (id mv : ℕ) (s : bus.State)
    → id ≤ 12
    → (pmic_regulators id).mv_min ≤ mv
    → mv ≤ (pmic_regulators id).mv_max
    → let reg = pmic_regulators id in
      max77620_regulator_set_voltage bus id mv s ≡ record {
        value = 1;
        state =
            bus.send_byte reg.volt_addr
              (merge reg.volt_mask (steps_for reg mv) (bus.recv_byte reg.volt_addr s))
              s;
      }
unfolding max77620_regulator_set_voltage
set_voltage-sent bus id mv s small low high = ground arith

pub merge-lt : (mask v val : ℕ) → merge mask v val < 2 ^ 8
unfolding merge
merge-lt mask v val = omega arith

-- The field's steps, of a regulator whose range is in reach of its field.
module _ (id mv : ℕ) (small : id ≤ 12) (low : (pmic_regulators id).mv_min ≤ mv)
    (high : mv ≤ (pmic_regulators id).mv_max) (sd0 : id ≡ 0 → mv ≤ 1387500) where
  in_reach :
      mv
      ≤ (pmic_regulators id).mv_min + (pmic_regulators id).volt_mask * (pmic_regulators id).mv_step
  in_reach = elim ((row_facts id small).2) [
    | inl first ↦ omega (arith, sd0 first, sd0_reach id first)
    | inr reach ↦ omega (arith, reach)
  ]

  steps-lt : steps_for (pmic_regulators id) mv < 2 ^ field_width id
  unfolding steps_for
  steps-lt =
      let (mask, pos, _) = row_facts id small in
      let fit =
        steps_fit (pmic_regulators id).mv_min (pmic_regulators id).mv_step
          (pmic_regulators id).volt_mask mv pos low in_reach in
      omega (arith, mask, fit, one-le-pow (field_width id) 2)

-- For a regulator and a voltage in its range, which for sd0 is at most 1.3875 V: the call succeeds, the
-- regulator is then set to the least of its voltages that is not below, and the bits of its register
-- above the field are as they were.
pub max77620_regulator_set_voltage-voltage :
    (bus : Bus) (id mv : ℕ) (s : bus.State)
    → KeepsBytes bus
    → id ≤ 12
    → (pmic_regulators id).mv_min ≤ mv
    → mv ≤ (pmic_regulators id).mv_max
    → (id ≡ 0 → mv ≤ 1387500)
    → bus.recv_byte (pmic_regulators id).volt_addr s < 2 ^ 8
    → let reg = pmic_regulators id in
      let r = max77620_regulator_set_voltage bus id mv s in
      let byte = bus.recv_byte reg.volt_addr r.state in
      (r.value ≡ 1)
      × (mv ≤ voltage reg byte)
      × (voltage reg byte < mv + reg.mv_step)
      × ((i : ℕ)
          → field_width id ≤ i
          → test_bit byte i ≡ test_bit (bus.recv_byte reg.volt_addr s) i)
unfolding steps_for
max77620_regulator_set_voltage-voltage bus id mv s keeps small low high sd0 byte =
    let reg = pmic_regulators id in
    let w = field_width id in
    let old = bus.recv_byte reg.volt_addr s in
    let v = steps_for reg mv in
    let (mask, pos, _) = row_facts id small in
    let fits = steps-lt id mv small low high sd0 in
    let kept : bus.recv_byte reg.volt_addr
          (bus.send_byte reg.volt_addr (merge reg.volt_mask v old) s)
        ≡ merge reg.volt_mask v old =
      keeps.sent reg.volt_addr (merge reg.volt_mask v old) s (merge-lt reg.volt_mask v old) in
    let field : bit_and (merge reg.volt_mask v old) reg.volt_mask ≡ v =
      rw mask (merge-field w v old (field_width-le id) fits byte) in
    let (above, below) = steps_bounds reg.mv_min reg.mv_step mv pos low in
    rw (set_voltage-sent bus id mv s small low high, kept, field)
      (
        refl,
        above,
        below,
        λ i outside. rw (mask, merge_bit w v old i (field_width-le id) fits byte) (ground arith),
      )
