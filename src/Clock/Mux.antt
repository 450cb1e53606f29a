-- ===== src/Clock/Mux.antt =====
-- The mux of a peripheral clock: the search for a source in
-- Drivers/ClockManagementDxe/Tegra210/clock.c, and the mux field in clock.c.
use Prim.Native.Nat.{bit_and}
use nintendo_switch_pkg.Prelude.{
  ℕ, zero, suc, ◌+◌, ◌-◌, ◌^◌, ◌≤◌, ◌<◌, ◌≡◌, ◌≢◌, refl, inl, inr, true, Option, none, some, List,
  arith, leb, ◌==◌, if◌then◌else◌, Bool-cases, Option-cases,
}
use nintendo_switch_pkg.Prelude.Bits.{
  test_bit, shl32, shr, test_bit-bit_and, test_bit-shr, test_bit-shl32, test_bit-high,
  test_bit-zero, eq_of_bits,
}
use nintendo_switch_pkg.Mmio.{Regs, readl, writel, clrsetbits_le32}
use nintendo_switch_pkg.Mmio.Field.{insert_field, test_bit-insert_field}
use nintendo_switch_pkg.Mmio.Update.{Updates, write-Updates}
use nintendo_switch_pkg.Clock.Table.{clock_source, table_at, row_at}
use nintendo_switch_pkg.Clock.Periph.{
  ClockInfo, get_periph_clock_info, get_periph_clock_id, find_mux, get_periph_clock_source,
  source_mask, get_periph_source_reg, clock_ll_set_source_bits, clock_ll_get_source_bits,
}

-- Where the search succeeds, it finds the first mux with the parent; where it fails, there is none.
abbrev Found : ℕ → ℕ → List ℕ → ℕ → Option ℕ → Type 0
Found mux end row parent none = (k : ℕ) → mux ≤ k → k < end → table_at row k ≢ parent
Found mux end row parent (some m) =
    (mux ≤ m)
    × (m < end)
    × (table_at row m ≡ parent)
    × ((k : ℕ) → mux ≤ k → k < m → table_at row k ≢ parent)

Found-next :
    (mux end : ℕ) (row : List ℕ) (parent : ℕ) (out : Option ℕ)
    → table_at row mux ≢ parent
    → Found (suc mux) end row parent out
    → Found mux end row parent out
Found-next mux end row parent none ne f = λ k lo hi. elim (Bool-cases (mux == k)) [
  | inl same ↦ let e : mux ≡ k = ground arith in rw e at ne
  | inr other ↦ f k (ground arith) hi
]
Found-next mux end row parent (some m) ne (lo, hi, e, f) = (
  omega arith,
  hi,
  e,
  λ k klo khi. elim (Bool-cases (mux == k)) [
    | inl same ↦ let e' : mux ≡ k = ground arith in rw e' at ne
    | inr other ↦ f k (ground arith) khi
  ],
)

find_mux-Found :
    (n mux : ℕ) (row : List ℕ) (parent : ℕ)
    → Found mux (mux + n) row parent (find_mux n mux row parent)
unfolding find_mux
find_mux-Found zero mux row parent = λ k lo hi. absurd (omega arith)
find_mux-Found (suc n) mux row parent = elim (Bool-cases (table_at row mux == parent)) [
  | inl here ↦
      rw (find_mux, here) (omega arith, omega arith, ground arith, λ k lo hi. absurd (omega arith))
  | inr other ↦
      let end : mux + suc n ≡ suc mux + n = omega arith in
      rw (find_mux, other, end)
        (Found-next mux (suc mux + n) row parent _ (ground arith)
          (find_mux-Found n (suc mux) row parent))
]

-- What the search for a parent comes to, by the sources of the peripheral.
abbrev pub Sourced : ℕ → ℕ → Option (Option ℕ) → Type 0
Sourced id parent none = get_periph_clock_info id ≡ none
Sourced id parent (some none) = (k : ℕ) → k < 8 → get_periph_clock_id id k ≢ parent
Sourced id parent (some (some m)) =
    (m < 8)
    × (get_periph_clock_id id m ≡ parent)
    × ((k : ℕ) → k < m → get_periph_clock_id id k ≢ parent)

pub get_periph_clock_id-info :
    (id k : ℕ) (info : ClockInfo)
    → get_periph_clock_info id ≡ some info
    → get_periph_clock_id id k ≡ table_at (row_at clock_source info.type) k
unfolding get_periph_clock_id
get_periph_clock_id-info id k info e = rw (get_periph_clock_id, e) refl

Sourced-Found :
    (id parent : ℕ) (info : ClockInfo) (out : Option ℕ)
    → get_periph_clock_info id ≡ some info
    → Found 0 8 (row_at clock_source info.type) parent out
    → Sourced id parent (some out)
Sourced-Found id parent info none e f =
    λ k below same. f k (omega arith) below (ground (arith, get_periph_clock_id-info id k info e))
Sourced-Found id parent info (some m) e (lo, hi, here, f) = (
  hi,
  rw here at (get_periph_clock_id-info id m info e),
  λ k below same. f k (omega arith) below (ground (arith, get_periph_clock_id-info id k info e)),
)

-- get_periph_clock_source fails only for a peripheral without clock information. Else it returns the
-- first of the eight muxes for which get_periph_clock_id gives the parent, and -1 where none does.
pub get_periph_clock_source-Sourced :
    (id parent : ℕ) → Sourced id parent (get_periph_clock_source id parent)
unfolding get_periph_clock_source
get_periph_clock_source-Sourced id parent = elim (Option-cases (get_periph_clock_info id)) [
  | inl missing ↦ rw (get_periph_clock_source, missing) missing
  | inr (info, e) ↦
      rw (get_periph_clock_source, e)
        (Sourced-Found id parent info _ e
          (find_mux-Found 8 0 (row_at clock_source info.type) parent))
]

-- Whatever the register holds, clock_ll_get_source_bits of one of the three kinds of mux returns 0:
-- it moves the field down and then masks it with the mask of its place in the register.
pub clock_ll_get_source_bits-zero :
    (id mux_bits reg : ℕ) (r : Regs)
    → mux_bits ≤ 2
    → readl r reg < 2 ^ 32
    → get_periph_source_reg id ≡ some reg
    → clock_ll_get_source_bits id mux_bits r ≡ some (some 0)
unfolding clock_ll_get_source_bits source_mask
clock_ll_get_source_bits-zero id mux_bits reg r hm word e =
    let zero_bits : bit_and (shr (readl r reg) (30 - mux_bits))
          (shl32 (2 ^ (mux_bits + 2) - 1) (30 - mux_bits))
        ≡ 0 =
      eq_of_bits _ _ λ i.
        rw
          (
            test_bit-bit_and i (shr (readl r reg) (30 - mux_bits))
                (shl32 (2 ^ (mux_bits + 2) - 1) (30 - mux_bits)),
            test_bit-shr (30 - mux_bits) (readl r reg) i,
            test_bit-shl32 (30 - mux_bits) (2 ^ (mux_bits + 2) - 1) i,
            test_bit-zero i,
          )
          (ground (arith, test_bit-high 32 (readl r reg) (30 - mux_bits + i) word)) in
    let small : leb mux_bits 2 ≡ true = ground arith in
    rw (clock_ll_get_source_bits, e, small, zero_bits) refl

-- clock_ll_set_source_bits of one of the three kinds of mux, with a source that fits its field, puts
-- the source into the top bits of the peripheral's source register, and changes nothing else.
pub clock_ll_set_source_bits-Updates :
    (id mux_bits source reg : ℕ) (r : Regs)
    → mux_bits ≤ 2
    → source < 2 ^ (mux_bits + 2)
    → get_periph_source_reg id ≡ some reg
    → (r' : Regs) × (clock_ll_set_source_bits id mux_bits source r ≡ some (some r'))
      × Updates reg
          (λ i b. if leb (30 - mux_bits) i then test_bit source (i - (30 - mux_bits)) else b)
          r
          r'
unfolding clock_ll_set_source_bits source_mask clrsetbits_le32 insert_field
clock_ll_set_source_bits-Updates id mux_bits source reg r hm hs e =
    let w : ℕ = insert_field (2 ^ (mux_bits + 2) - 1) (30 - mux_bits) source (readl r reg) in
    let small : leb mux_bits 2 ≡ true = ground arith in
    (
      writel w reg r,
      rw (clock_ll_set_source_bits, e, small) refl,
      write-Updates reg w _ r λ i below. ground (
        arith,
        test_bit-insert_field (mux_bits + 2) (30 - mux_bits) source (readl r reg) i hs (omega arith)
            below,
      ),
    )
