-- ===== src/SdMmc/CsdBounds.antt =====
-- The capacity that `mmc_startup` of MmcHostOp.c computes from the CSD, for a CSD that the SD
-- specification allows.
use nintendo_switch_pkg.Prelude.{
  ℕ, ◌+◌, ◌*◌, ◌/◌, ◌%◌, ◌^◌, ◌≤◌, ◌<◌, ◌≡◌, refl, inl, inr, Bool, true, false, arith, ◌⊎◌,
}
use native.Mathlib.Nat.{pow-le-pow_right}
use Prim.Native.Nat.{bit_and}
use nintendo_switch_pkg.Prelude.Bits.{shl32, shr}
use nintendo_switch_pkg.Prelude.Bits.Bound.{bit_and-le, bit_or-le}
use nintendo_switch_pkg.SdMmc.Startup.{csd_size, csd_mult, csd_read_bl, csd_capacity, at_most_512}

-- The physical layer specification: READ_BL_LEN is 9 to 11, and 9 on a high-capacity card, whose
-- C_SIZE is below 2 ^ 22 - 1.
pub record IsCsd (high_capacity : Bool) (csd_1 csd_2 : ℕ) : Type 0 where
  pub block_len_min : 9 ≤ csd_read_bl csd_1
  pub block_len_max : csd_read_bl csd_1 ≤ 11
  pub high_block_len : high_capacity ≡ true → csd_read_bl csd_1 ≡ 9
  pub high_size : high_capacity ≡ true → csd_size true csd_1 csd_2 + 1 < 2 ^ 22

three_widths : (w : ℕ) → 9 ≤ w → w ≤ 11 → (w ≡ 9) ⊎ ((w ≡ 10) ⊎ (w ≡ 11))
three_widths w lo hi = ground arith

product-le : (a b c d : ℕ) → a ≤ c → b ≤ d → a * b ≤ c * d
product-le a b c d p q = grind arith

pub csd_block_len : (w : ℕ) → 9 ≤ w → w ≤ 11 → at_most_512 (2 ^ w) ≡ 512
unfolding at_most_512
csd_block_len w lo hi = elim (three_widths w lo hi) [
  | inl nine ↦ rw nine
  | inr (inl ten) ↦ rw ten
  | inr (inr eleven) ↦ rw eleven
]

pub csd_capacity-high :
    (csd_1 csd_2 : ℕ)
    → IsCsd true csd_1 csd_2
    → csd_capacity true csd_1 csd_2 ≡ (csd_size true csd_1 csd_2 + 1) * 2 ^ 19
unfolding csd_capacity csd_mult
csd_capacity-high csd_1 csd_2 v = rw (v.high_block_len refl) (omega (arith, v.high_size refl))

csd_size-le : (csd_1 csd_2 : ℕ) → csd_size false csd_1 csd_2 ≤ 4095
unfolding csd_size shl32 shr
csd_size-le csd_1 csd_2 = omega (
  arith,
  bit_or-le (bit_and csd_1 0x3ff * 2 ^ 2 % 2 ^ 32) (bit_and csd_2 0xc0000000 / 2 ^ 30),
  bit_and-le csd_1 0x3ff,
  bit_and-le csd_2 0xc0000000,
)

csd_mult-le : (csd_2 : ℕ) → csd_mult false csd_2 ≤ 7
unfolding csd_mult shr
csd_mult-le csd_2 = omega (arith, bit_and-le csd_2 0x00038000)

pub csd_capacity-le :
    (csd_1 csd_2 : ℕ) → IsCsd false csd_1 csd_2 → csd_capacity false csd_1 csd_2 ≤ 2 ^ 32
unfolding csd_capacity
csd_capacity-le csd_1 csd_2 v =
    let p = 2 ^ (csd_mult false csd_2 + 2) in
    let q = 2 ^ csd_read_bl csd_1 in
    let n = csd_size false csd_1 csd_2 + 1 in
    let p_le : p ≤ 2 ^ 9 =
      pow-le-pow_right (omega arith) {j = 9} (omega (arith, csd_mult-le csd_2)) in
    let q_le : q ≤ 2 ^ 11 = pow-le-pow_right (omega arith) v.block_len_max in
    let blocks : n * p ≤ 4096 * 2 ^ 9 =
      product-le n p 4096 (2 ^ 9) (omega (arith, csd_size-le csd_1 csd_2)) p_le in
    let bytes : n * p % 2 ^ 64 * q ≤ 4096 * 2 ^ 9 * 2 ^ 11 =
      product-le (n * p % 2 ^ 64) q (4096 * 2 ^ 9) (2 ^ 11) (omega arith) q_le in
    omega arith
