-- ===== src/Mmio/Field.antt =====
-- The idiom `val &= ~(mask << shift); val |= v << shift;` of the clock and pin drivers, and the
-- reads `(val >> shift) & mask`, by the bits of the word.
use Prim.Native.Nat.{bit_and, bit_or}
use nintendo_switch_pkg.Prelude.{
  ℕ, ◌+◌, ◌-◌, ◌^◌, ◌≤◌, ◌<◌, ◌≡◌, ◌⊎◌, Bool, ◌&&◌, arith, ltb, leb, ◌==◌, if◌then◌else◌,
}
use nintendo_switch_pkg.Prelude.Bits.{
  test_bit, not32, shl32, shr, test_bit-bit_and, test_bit-bit_or, test_bit-not32, test_bit-shl32,
  test_bit-shr, test_bit-high, test_bit-ones, eq_of_bits,
}

-- Bits `shift` to `shift + w - 1` of `reg` replaced by `v`.
unfoldable pub insert_field : ℕ → ℕ → ℕ → ℕ → ℕ
insert_field mask shift v reg = bit_or (bit_and reg (not32 (shl32 mask shift))) (shl32 v shift)

unfoldable pub extract_field : ℕ → ℕ → ℕ → ℕ
extract_field mask shift reg = bit_and (shr reg shift) mask

pub test_bit-insert_field :
    (w shift v reg i : ℕ)
    → v < 2 ^ w
    → shift + w ≤ 32
    → i < 32
    → test_bit (insert_field (2 ^ w - 1) shift v reg) i
      ≡ (if leb shift i && ltb i (shift + w) then test_bit v (i - shift) else test_bit reg i)
unfolding insert_field
test_bit-insert_field w shift v reg i fits room small =
    rw
      (
        test_bit-bit_or i (bit_and reg (not32 (shl32 (2 ^ w - 1) shift))) (shl32 v shift),
        test_bit-bit_and i reg (not32 (shl32 (2 ^ w - 1) shift)),
        test_bit-not32 (shl32 (2 ^ w - 1) shift) i,
        test_bit-shl32 shift (2 ^ w - 1) i,
        test_bit-shl32 shift v i,
        test_bit-ones w (i - shift),
      )
      (ground (arith, test_bit-high w v (i - shift)))

pub test_bit-extract_field :
    (w shift reg i : ℕ)
    → test_bit (extract_field (2 ^ w - 1) shift reg) i ≡ (test_bit reg (shift + i) && ltb i w)
unfolding extract_field
test_bit-extract_field w shift reg i =
    rw (test_bit-bit_and i (shr reg shift) (2 ^ w - 1), test_bit-shr shift reg i, test_bit-ones w i)

-- What was put into a field is read back.
pub extract_field-insert_field :
    (w shift v reg : ℕ)
    → v < 2 ^ w
    → shift + w ≤ 32
    → extract_field (2 ^ w - 1) shift (insert_field (2 ^ w - 1) shift v reg) ≡ v
extract_field-insert_field w shift v reg fits room = eq_of_bits _ _ λ i. rw test_bit-extract_field (
    ground (
      arith,
      test_bit-insert_field w shift v reg (shift + i),
      test_bit-high w v i,
      (let e : shift + i - shift ≡ i = omega arith in e),
    ))

-- A field that does not overlap the one written is read as before.
pub extract_field-insert_field_apart :
    (w shift v reg w' shift' : ℕ)
    → v < 2 ^ w
    → shift + w ≤ 32
    → shift' + w' ≤ 32
    → (shift + w ≤ shift') ⊎ (shift' + w' ≤ shift)
    → extract_field (2 ^ w' - 1) shift' (insert_field (2 ^ w - 1) shift v reg)
      ≡ extract_field (2 ^ w' - 1) shift' reg
extract_field-insert_field_apart w shift v reg w' shift' fits room room' apart = eq_of_bits _ _ λ i.
    rw
      (
        test_bit-extract_field w' shift' (insert_field (2 ^ w - 1) shift v reg) i,
        test_bit-extract_field w' shift' reg i,
      )
      (ground (arith, test_bit-insert_field w shift v reg (shift' + i)))

-- `val |= 1 << shift` or `val &= ~(1 << shift)`.
unfoldable pub assign_bit : ℕ → Bool → ℕ → ℕ
assign_bit shift on reg =
    if on then bit_or reg (shl32 1 shift) else bit_and reg (not32 (shl32 1 shift))

pub test_bit-assign_bit :
    (shift : ℕ) (on : Bool) (reg i : ℕ)
    → i < 32
    → test_bit (assign_bit shift on reg) i ≡ (if i == shift then on else test_bit reg i)
unfolding assign_bit
test_bit-assign_bit shift on reg i small = ground (
  arith,
  test_bit-bit_or i reg (shl32 1 shift),
  test_bit-bit_and i reg (not32 (shl32 1 shift)),
  test_bit-not32 (shl32 1 shift) i,
  test_bit-shl32 shift 1 i,
  test_bit-ones 1 (i - shift),
)
