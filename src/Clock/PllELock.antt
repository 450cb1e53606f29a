-- ===== src/Clock/PllELock.antt =====
-- When tegra_plle_enable of Drivers/ClockManagementDxe/Tegra210/clock.c goes on.
use Prim.Native.Nat.{bit_and, bit_or}
use nintendo_switch_pkg.Prelude.{
  ℕ, ◌^◌, ◌≡◌, refl, inl, inr, Bool, true, false, not, ◌||◌, none, some, List, [], ◌∷◌, arith, ◌==◌,
  if◌then◌else◌, Bool-cases,
}
use nintendo_switch_pkg.Prelude.Assert.{◌>>◌, assert}
use nintendo_switch_pkg.Prelude.Bits.{
  test_bit, shl32, not32, test_bit-bit_or, test_bit-low, bit_and-pow_eq_zero,
}
use nintendo_switch_pkg.Mmio.{Regs, readl, writel, clrbits_le32, readl-writel_self, readl-writel_ne}
use nintendo_switch_pkg.Clock.PllE.{
  wait_lock, pllrefe_misc, pllrefe_base, pllrefe_value, tegra_pllref_enable, plle_base, plle_misc,
  plle_aux, plle_dividers, plle_program, plle_finish, tegra_plle_enable,
}

-- One of the readings has the bit.
abbrev pub has_lock : ℕ → List ℕ → Bool
has_lock bit [] = false
has_lock bit (x ∷ xs) = test_bit x bit || has_lock bit xs

abbrev pub is_empty : List ℕ → Bool
is_empty [] = true
is_empty (x ∷ xs) = false

wait_lock-has_lock :
    (bit value : ℕ) (readings : List ℕ)
    → test_bit (wait_lock (2 ^ bit) value readings) bit
      ≡ (if is_empty readings then test_bit value bit else has_lock bit readings)
unfolding wait_lock
wait_lock-has_lock bit value [] = refl
wait_lock-has_lock bit value (x ∷ []) = ground (arith, bit_and-pow_eq_zero bit x)
wait_lock-has_lock bit value (x ∷ y ∷ ys) =
    ground (arith, bit_and-pow_eq_zero bit x, wait_lock-has_lock bit x (y ∷ ys))

-- The test that the code makes of it.
lock_seen :
    (bit value : ℕ) (readings : List ℕ)
    → not (bit_and (wait_lock (2 ^ bit) value readings) (2 ^ bit) == 0)
      ≡ (if is_empty readings then test_bit value bit else has_lock bit readings)
lock_seen bit value readings = ground (
  arith,
  bit_and-pow_eq_zero bit (wait_lock (2 ^ bit) value readings),
  wait_lock-has_lock bit value readings,
)

-- The registers after PLLREFE is set up.
abbrev pub pllrefe_program : Regs → Regs
pllrefe_program r = writel pllrefe_value pllrefe_base (clrbits_le32 pllrefe_misc (2 ^ 24) r)

pllrefe_value-unlocked : test_bit pllrefe_value 27 ≡ false
unfolding test_bit shl32
pllrefe_value-unlocked = refl

tegra_pllref_enable-has_lock :
    (readings : List ℕ) (r : Regs)
    → tegra_pllref_enable readings r
      ≡ (if has_lock 27 readings then some (pllrefe_program r) else none)
unfolding tegra_pllref_enable
tegra_pllref_enable-has_lock [] r = rw (lock_seen 27 pllrefe_value [], pllrefe_value-unlocked) refl
tegra_pllref_enable-has_lock (x ∷ xs) r = elim (Bool-cases (has_lock 27 (x ∷ xs))) [
  | inl locked ↦ rw (lock_seen 27 pllrefe_value (x ∷ xs), locked) refl
  | inr unlocked ↦ rw (lock_seen 27 pllrefe_value (x ∷ xs), unlocked) refl
]

-- NDIV has the bit that is the lock bit of the other register.
ndiv_bit : test_bit (shl32 0x7d 8) 11 ≡ true
unfolding test_bit shl32
ndiv_bit = refl

dividers_bit : (value : ℕ) → test_bit (plle_dividers value) 11 ≡ true
unfolding plle_dividers
dividers_bit value =
    let cleared : ℕ =
      bit_and (bit_and (bit_and value (not32 (shl32 0x1f 24))) (not32 (shl32 0xff 8)))
        (not32 0xff) in
    ground (
      arith,
      test_bit-bit_or 11 (bit_or (bit_or cleared (shl32 0xe 24)) (shl32 0x7d 8)) 2,
      test_bit-bit_or 11 (bit_or cleared (shl32 0xe 24)) (shl32 0x7d 8),
      ndiv_bit,
    )

-- The enable bit is set over a base word that a write of the misc register does not touch.
bit_kept :
    (v m : ℕ) (r q : Regs)
    → test_bit v 11 ≡ true
    → test_bit
        (readl
          (writel
            (bit_or (readl (writel m plle_misc (writel v plle_base r)) plle_base) (2 ^ 31))
            plle_base
            q)
          plle_base)
        11
      ≡ true
bit_kept v m r q h =
    let word : ℕ = bit_or (readl (writel m plle_misc (writel v plle_base r)) plle_base) (2 ^ 31) in
    rw (readl-writel_self word plle_base q) (
      ground (
        arith,
        test_bit-low 32 word 11,
        test_bit-bit_or 11 (readl (writel m plle_misc (writel v plle_base r)) plle_base) (2 ^ 31),
        readl-writel_ne m plle_misc plle_base (writel v plle_base r) (omega arith),
        readl-writel_self v plle_base r,
        test_bit-low 32 v 11,
      ))

plle_program-bit : (r : Regs) → test_bit (readl (plle_program r) plle_base) 11 ≡ true
unfolding plle_program
plle_program-bit r =
    let r_1 : Regs = clrbits_le32 plle_aux (2 ^ 28) r in
    let r_2 : Regs = clrbits_le32 plle_misc (2 ^ 13) r_1 in
    bit_kept (plle_dividers (readl r_2 plle_base)) _ r_2 _ (dividers_bit (readl r_2 plle_base))

plle_goes_on :
    (readings : List ℕ) (r : Regs)
    → (assert (
          not (
            bit_and (wait_lock (2 ^ 11) (readl (plle_program r) plle_base) readings) (2 ^ 11) == 0))
        >> some (plle_finish (plle_program r)))
      ≡ (if is_empty readings || has_lock 11 readings
          then some (plle_finish (plle_program r))
          else none)
plle_goes_on [] r = rw (lock_seen 11 (readl (plle_program r) plle_base) [], plle_program-bit r) refl
plle_goes_on (x ∷ xs) r = elim (Bool-cases (has_lock 11 (x ∷ xs))) [
  | inl locked ↦ rw (lock_seen 11 (readl (plle_program r) plle_base) (x ∷ xs), locked) refl
  | inr unlocked ↦ rw (lock_seen 11 (readl (plle_program r) plle_base) (x ∷ xs), unlocked) refl
]

-- tegra_plle_enable goes on to enable spread spectrum and the power sequencer where one of the readings
-- for PLLREFE has its lock bit, bit 27, and one of those for PLLE has its own, bit 11, or there is no
-- reading for PLLE at all; else it stops at an assertion.
pub tegra_plle_enable-has_lock :
    (ref_readings readings : List ℕ) (r : Regs)
    → tegra_plle_enable ref_readings readings r ≡ (
        if has_lock 27 ref_readings
        then (if is_empty readings || has_lock 11 readings
            then some (plle_finish (plle_program (pllrefe_program r)))
            else none)
        else none)
unfolding tegra_plle_enable
tegra_plle_enable-has_lock ref_readings readings r = elim (Bool-cases (has_lock 27 ref_readings)) [
  | inr unlocked ↦ rw (tegra_pllref_enable-has_lock ref_readings r, unlocked) refl
  | inl locked ↦
      rw (tegra_pllref_enable-has_lock ref_readings r, locked)
        (plle_goes_on readings (pllrefe_program r))
]
