-- ===== src/Clock/SourceField.antt =====
-- The mux and the divisor in the source register of a peripheral, as adjust_periph_pll of
-- Drivers/ClockManagementDxe/clock.c sets them.
use nintendo_switch_pkg.Prelude.{
  ℕ, ◌+◌, ◌-◌, ◌^◌, ◌≤◌, ◌<◌, ◌≡◌, ◌≢◌, refl, inl, inr, Bool, true, some, arith, ltb, leb, ◌==◌,
  ◌&&◌, ◌||◌, if◌then◌else◌, Bool-cases, ◌∙◌,
}
use nintendo_switch_pkg.Prelude.Range.{holds_below, holds_below-at}
use Prim.Native.Nat.{bit_and}
use nintendo_switch_pkg.Prelude.Bits.{
  test_bit, not32, test_bit-bit_or, test_bit-bit_and, test_bit-not32, test_bit-ones, test_bit-high,
}
use nintendo_switch_pkg.Mmio.{Regs, readl, clrsetbits_le32}
use nintendo_switch_pkg.Mmio.Update.{Updates, write-Updates}
use nintendo_switch_pkg.Clock.{periph_id_count}
use nintendo_switch_pkg.Clock.Table.{clock_source, table_at, row_at}
use nintendo_switch_pkg.Clock.Periph.{
  ClockInfo, periph_reg, enable_reg, reset_reg, source_reg_of, get_periph_source_reg,
  get_periph_clock_info, get_periph_clock_source,
}
use nintendo_switch_pkg.Clock.Source.{internal_id}
use nintendo_switch_pkg.Clock.Mux.{
  Sourced, get_periph_clock_source-Sourced, get_periph_clock_id-info,
  clock_ll_set_source_bits-Updates,
}
use nintendo_switch_pkg.Clock.PeriphRate.{set_source_or_keep, adjust_periph_pll}

-- Each row's mux field holds the number of each clock that the row has.
row_fits : ℕ → Bool
row_fits type =
    let row = row_at clock_source type in
    leb (table_at row 8) 2
    && holds_below (λ m. leb 13 (table_at row m) || ltb m (2 ^ (table_at row 8 + 2))) 8

rows_fit : holds_below row_fits 21 ≡ true
unfolding row_fits holds_below table_at row_at clock_source
rows_fit = refl

row_fits-mux_bits : (type : ℕ) → type < 21 → table_at (row_at clock_source type) 8 ≤ 2
unfolding row_fits
row_fits-mux_bits type h = ground (arith, holds_below-at row_fits 21 rows_fit type h)

row_fits-mux :
    (type m : ℕ)
    → type < 21
    → m < 8
    → table_at (row_at clock_source type) m < 13
    → m < 2 ^ (table_at (row_at clock_source type) 8 + 2)
unfolding row_fits
row_fits-mux type m h hm clock =
    let row = row_at clock_source type in
    let all : holds_below (λ m. leb 13 (table_at row m) || ltb m (2 ^ (table_at row 8 + 2))) 8
        ≡ true =
      ground (arith, holds_below-at row_fits 21 rows_fit type h) in
    ground (
      arith,
      holds_below-at (λ m. leb 13 (table_at row m) || ltb m (2 ^ (table_at row 8 + 2))) 8 all m hm,
    )

-- What get_periph_clock_info checks.
pub record Informed (id : ℕ) (info : ClockInfo) : Type 0 where
  pub valid : id < periph_id_count
  pub known : internal_id id < 128
  pub type : info.type < 21
  pub row : info.mux_bits ≡ table_at (row_at clock_source info.type) 8
  pub width : info.divider_bits ≤ 16

pub get_periph_clock_info-Informed :
    (id : ℕ) (info : ClockInfo) → get_periph_clock_info id ≡ some info → Informed id info
unfolding get_periph_clock_info
get_periph_clock_info-Informed id info e = record {
  valid = ground arith;
  known = ground arith;
  type = ground arith;
  row = ground arith;
  width = ground arith;
}

pub mux_bits_le :
    (id : ℕ) (info : ClockInfo) → get_periph_clock_info id ≡ some info → info.mux_bits ≤ 2
mux_bits_le id info e =
    let i = get_periph_clock_info-Informed id info e in
    rw i.row (row_fits-mux_bits info.type i.type)

-- A source that is found fits the mux field.
pub mux-fits :
    (id parent m : ℕ) (info : ClockInfo)
    → get_periph_clock_info id ≡ some info
    → parent < 13
    → get_periph_clock_source id parent ≡ some (some m)
    → m < 2 ^ (info.mux_bits + 2)
mux-fits id parent m info e small found =
    let i = get_periph_clock_info-Informed id info e in
    let (below, at, _) : Sourced id parent (some (some m)) =
      rw found at (get_periph_clock_source-Sourced id parent) in
    let clock : table_at (row_at clock_source info.type) m < 13 =
      omega (arith, get_periph_clock_id-info id m info e, at) in
    rw i.row (row_fits-mux info.type m i.type below clock)

-- The source register of a peripheral with clock information is no enable or reset register.
pub record Apart (reg : ℕ) : Type 0 where
  pub enable : (q : ℕ) → q < periph_id_count → enable_reg q ≢ reg
  pub reset : (q : ℕ) → q < periph_id_count → reset_reg q ≢ reg

enable_reg-source : (q i : ℕ) → q < periph_id_count → i < 128 → enable_reg q ≢ source_reg_of i
unfolding enable_reg periph_reg source_reg_of
enable_reg-source q i hq hi = ground arith

reset_reg-source : (q i : ℕ) → q < periph_id_count → i < 128 → reset_reg q ≢ source_reg_of i
unfolding reset_reg periph_reg source_reg_of
reset_reg-source q i hq hi = ground arith

-- CSI has that of the internal id 53.
pub source_reg-Apart :
    (id : ℕ) (info : ClockInfo)
    → get_periph_clock_info id ≡ some info
    → (reg : ℕ) × (get_periph_source_reg id ≡ some reg) × Apart reg
unfolding get_periph_source_reg source_reg_of
source_reg-Apart id info e =
    let i = get_periph_clock_info-Informed id info e in
    let of : (k : ℕ) → k < 128 → Apart (source_reg_of k) = λ k h. record {
      enable = λ q hq. enable_reg-source q k hq h;
      reset = λ q hq. reset_reg-source q k hq h;
    } in
    elim (Bool-cases (id == 52)) [
      | inl csi ↦ (source_reg_of 53, rw csi refl, of 53 (omega arith))
      | inr other ↦ (
        source_reg_of (internal_id id),
        ground (arith, i.valid, i.known),
        of (internal_id id) i.known,
      )
    ]

-- Bit `i` of the source register, with a divider in the low 16 bits.
abbrev pub with_divisor : ℕ → ℕ → Bool → Bool
with_divisor divider i b = if ltb i 16 then test_bit divider i else b

-- The same with a source in the top bits, from bit `30 - mux_bits` on.
abbrev pub with_source : ℕ → ℕ → ℕ → Bool → Bool
with_source mux_bits source i b =
    if leb (30 - mux_bits) i then test_bit source (i - (30 - mux_bits)) else b

divisor-Updates :
    (reg divider : ℕ) (r : Regs)
    → divider < 2 ^ 16
    → Updates reg (with_divisor divider) r (clrsetbits_le32 reg 0xffff divider r)
unfolding clrsetbits_le32
divisor-Updates reg divider r small = write-Updates reg _ _ r λ i below. ground (
  arith,
  test_bit-bit_or i (bit_and (readl r reg) (not32 (2 ^ 16 - 1))) divider,
  test_bit-bit_and i (readl r reg) (not32 (2 ^ 16 - 1)),
  test_bit-not32 (2 ^ 16 - 1) i,
  test_bit-ones 16 i,
  test_bit-high 16 divider i small,
)

-- adjust_periph_pll puts a divider of 16 bits and a source that fits into the source register of a
-- peripheral, and changes nothing else.
pub adjust_periph_pll-Updates :
    (id source mux_bits divider reg : ℕ) (r : Regs)
    → mux_bits ≤ 2
    → source < 2 ^ (mux_bits + 2)
    → divider < 2 ^ 16
    → get_periph_source_reg id ≡ some reg
    → (r' : Regs) × (adjust_periph_pll id (some source) mux_bits divider r
        ≡ some (record { ok = true; regs = r' }))
      × Updates reg (λ i b. with_source mux_bits source i (with_divisor divider i b)) r r'
unfolding adjust_periph_pll set_source_or_keep
adjust_periph_pll-Updates id source mux_bits divider reg r hm hs hd e =
    let r_1 : Regs = clrsetbits_le32 reg 0xffff divider r in
    let (r_2, set, u) = clock_ll_set_source_bits-Updates id mux_bits source reg r_1 hm hs e in
    let first : Updates reg (with_divisor divider) r r_1 = divisor-Updates reg divider r hd in
    (
      r_2,
      rw (e, set) refl,
      record {
        bits = λ i below. u.bits i below ∙ ground (arith, first.bits i below);
        others = λ a ne. u.others a ne ∙ first.others a ne;
      },
    )
