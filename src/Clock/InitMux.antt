-- ===== src/Clock/InitMux.antt =====
-- What clock_init of Drivers/ClockManagementDxe/clock.c leaves in the muxes and in pll_rate.
use nintendo_switch_pkg.Prelude.{
  ℕ, zero, suc, ◌-◌, ◌≤◌, ◌<◌, ◌≡◌, ◌≢◌, refl, inl, inr, Bool, true, false, not, ◌&&◌, ◌||◌, none,
  some, List, [], ◌∷◌, arith, ltb, ◌==◌, if◌then◌else◌, Option-cases, ◌∙◌,
}
use nintendo_switch_pkg.Prelude.Bits.{test_bit}
use nintendo_switch_pkg.Mmio.{Regs, readl}
use nintendo_switch_pkg.Clock.Table.{
  clock_source, clock_periph_type, periph_id_to_internal_id, table_at, row_at,
}
use nintendo_switch_pkg.Clock.Periph.{
  ClockInfo, source_reg_of, get_periph_source_reg, get_periph_clock_info, get_periph_clock_id,
  find_mux, get_periph_clock_source,
}
use nintendo_switch_pkg.Clock.Mux.{
  Sourced, get_periph_clock_source-Sourced, clock_ll_set_source_bits-Updates,
}
use nintendo_switch_pkg.Clock.Osc.{clock_get_rate}
use nintendo_switch_pkg.Clock.PeriphRate.{set_source_or_keep}
use nintendo_switch_pkg.Clock.SourceField.{mux-fits, mux_bits_le, source_reg-Apart}
use nintendo_switch_pkg.Clock.Init.{
  PeriphInit, periph_clk_init_table, init_periph, init_periphs, set_rate_at, note_rate, note_rates,
  clock_init,
}

-- The mux field of the entry's peripheral holds a number by which get_periph_clock_id gives the
-- entry's clock: bit `i` of its source register, from bit `30 - mux_bits` on, is that of the number.
abbrev pub IsMuxed : PeriphInit → Regs → Type 0
IsMuxed e r =
    (info : ClockInfo) × (m : ℕ) × (reg : ℕ) × (get_periph_clock_info e.periph_id ≡ some info)
    × (get_periph_clock_id e.periph_id m ≡ e.parent_clock_id)
    × (get_periph_source_reg e.periph_id ≡ some reg)
    × ((i : ℕ)
        → i < 32
        → 30 - info.mux_bits ≤ i
        → test_bit (readl r reg) i ≡ test_bit m (i - (30 - info.mux_bits)))

-- The address of a source register; 0 where get_periph_source_reg does not return.
abbrev pub address : PeriphInit → ℕ
address e = elim (get_periph_source_reg e.periph_id) [ none ↦ 0 | some reg ↦ reg ]

-- No source register of the entries.
abbrev pub Elsewhere : ℕ → List PeriphInit → Type 0
Elsewhere a [] = Unit {0}
Elsewhere a (e ∷ es) = (address e ≢ a) × Elsewhere a es

abbrev AllMuxed : List PeriphInit → Regs → Type 0
AllMuxed [] r = Unit {0}
AllMuxed (e ∷ es) r = IsMuxed e r × AllMuxed es r

-- The entry's clock is among the sources of its peripheral.
is_sourced : PeriphInit → Bool
is_sourced e = elim (get_periph_clock_source e.periph_id e.parent_clock_id) [
  | some (some m) ↦ ltb e.parent_clock_id 13
  | some none ↦ false
  | none ↦ false
]

is_elsewhere : ℕ → List PeriphInit → Bool
is_elsewhere a [] = true
is_elsewhere a (e ∷ es) = not (address e == a) && is_elsewhere a es

-- Each entry is sourced, and its source register is no other's.
is_sound : List PeriphInit → Bool
is_sound [] = true
is_sound (e ∷ es) = is_sourced e && is_elsewhere (address e) es && is_sound es

table_sound : is_sound periph_clk_init_table ≡ true
unfolding is_sound is_sourced is_elsewhere periph_clk_init_table get_periph_clock_source
    get_periph_clock_info find_mux get_periph_source_reg source_reg_of periph_id_to_internal_id
    clock_periph_type clock_source table_at row_at
table_sound = refl

is_elsewhere-Elsewhere : (a : ℕ) (es : List PeriphInit) → is_elsewhere a es ≡ true → Elsewhere a es
unfolding is_elsewhere
is_elsewhere-Elsewhere a [] h = tt
is_elsewhere-Elsewhere a (e ∷ es) h = (ground arith, is_elsewhere-Elsewhere a es (ground arith))

address-at :
    (e : PeriphInit) (reg : ℕ) → get_periph_source_reg e.periph_id ≡ some reg → address e ≡ reg
address-at e reg at = rw (address, at) refl

-- The parts of a sourced entry.
abbrev Sound : PeriphInit → Type 0
Sound e =
    (info : ClockInfo) × (m : ℕ) × (get_periph_clock_info e.periph_id ≡ some info)
    × (get_periph_clock_source e.periph_id e.parent_clock_id ≡ some (some m))
    × (e.parent_clock_id < 13)

is_sourced-Sound : (e : PeriphInit) → is_sourced e ≡ true → Sound e
unfolding is_sourced get_periph_clock_source
is_sourced-Sound e h = elim (Option-cases (get_periph_clock_info e.periph_id)) [
  | inl missing ↦ absurd (ground (arith, missing))
  | inr (info, informed) ↦
      elim (Option-cases (find_mux 8 0 (row_at clock_source info.type) e.parent_clock_id)) [
        | inl none_fits ↦ absurd (ground (arith, informed, none_fits))
        | inr (m, found) ↦
            (info, m, informed, ground (arith, informed, found), ground (arith, informed, found))
      ]
]

init_periph-IsMuxed :
    (e : PeriphInit) (r : Regs)
    → is_sourced e ≡ true
    → (r' : Regs) × (init_periph e r ≡ some r')
      × IsMuxed e r'
      × ((a : ℕ) → address e ≢ a → readl r' a ≡ readl r a)
unfolding init_periph set_source_or_keep
init_periph-IsMuxed e r h =
    let (info, m, informed, found, small) = is_sourced-Sound e h in
    let (_, given, _) : Sourced e.periph_id e.parent_clock_id (some (some m)) =
      rw found at (get_periph_clock_source-Sourced e.periph_id e.parent_clock_id) in
    let (reg, at, apart) = source_reg-Apart e.periph_id info informed in
    let (r', set, u) =
      clock_ll_set_source_bits-Updates e.periph_id info.mux_bits m reg r
        (mux_bits_le e.periph_id info informed)
        (mux-fits e.periph_id e.parent_clock_id m info informed small found) at in
    (
      r',
      rw (init_periph, informed, found, set) refl,
      (info, m, reg, informed, given, at, λ i below high. ground (arith, u.bits i below)),
      λ a ne. u.others a (rw (address-at e reg at) at ne),
    )

IsMuxed-kept :
    (e : PeriphInit) (r r' : Regs)
    → IsMuxed e r
    → readl r' (address e) ≡ readl r (address e)
    → IsMuxed e r'
IsMuxed-kept e r r' (info, m, reg, informed, given, at, bits) same =
    let kept : readl r' reg ≡ readl r reg = rw (address-at e reg at) at same in
    (info, m, reg, informed, given, at, λ i below high. rw kept (bits i below high))

init_periphs-AllMuxed :
    (es : List PeriphInit) (r : Regs)
    → is_sound es ≡ true
    → (r' : Regs) × (init_periphs es r ≡ some r')
      × AllMuxed es r'
      × ((a : ℕ) → Elsewhere a es → readl r' a ≡ readl r a)
unfolding is_sound init_periphs
init_periphs-AllMuxed [] r h = (r, refl, tt, λ a out. refl)
init_periphs-AllMuxed (e ∷ es) r h =
    let (r_1, e_1, muxed, rest) = init_periph-IsMuxed e r (ground arith) in
    let (r_2, e_2, all, rest_2) = init_periphs-AllMuxed es r_1 (ground arith) in
    let out : Elsewhere (address e) es = is_elsewhere-Elsewhere (address e) es (ground arith) in
    (
      r_2,
      rw e_1 e_2,
      (IsMuxed-kept e r_1 r_2 muxed (rest_2 (address e) out), all),
      λ a (ne, away). rest_2 a away ∙ rest a ne,
    )

abbrev count : List PeriphInit → ℕ
count [] = 0
count (e ∷ es) = suc (count es)

-- An entry by its place; past the end, as the first peripheral without a clock.
abbrev pub entry_at : List PeriphInit → ℕ → PeriphInit
entry_at [] k = record { periph_id = 0; parent_clock_id = 0 }
entry_at (e ∷ es) zero = e
entry_at (e ∷ es) (suc k) = entry_at es k

AllMuxed-at :
    (es : List PeriphInit) (r : Regs) (k : ℕ)
    → AllMuxed es r
    → k < count es
    → IsMuxed (entry_at es k) r
AllMuxed-at [] r k all h = absurd (omega arith)
AllMuxed-at (e ∷ es) r zero all h = all.0
AllMuxed-at (e ∷ es) r (suc k) all h = AllMuxed-at es r k all.1 (omega arith)

table_count : count periph_clk_init_table ≡ 19
unfolding periph_clk_init_table
table_count = refl

-- The rate that clock_get_rate gives; 0 where it does not return.
abbrev pub rate_now : ℕ → Regs → ℕ
rate_now id r = elim (clock_get_rate id r) [ none ↦ 0 | some rate ↦ rate ]

-- The clocks whose rates clock_init notes, the 32 kHz clock aside.
abbrev pub is_noted : ℕ → Bool
is_noted id = id == 0 || id == 1 || id == 2 || id == 4 || id == 5 || id == 6 || id == 11 || id == 12

clock_get_rate-ne : (id : ℕ) (r : Regs) → id < 13 → clock_get_rate id r ≢ none
unfolding clock_get_rate
clock_get_rate-ne id r h e = ground arith

clock_get_rate-now : (id : ℕ) (r : Regs) → id < 13 → clock_get_rate id r ≡ some (rate_now id r)
clock_get_rate-now id r h = elim (Option-cases (clock_get_rate id r)) [
  | inl missing ↦ absurd (clock_get_rate-ne id r h missing)
  | inr (rate, e) ↦ let same : rate_now id r ≡ rate = rw (rate_now, e) refl in rw same e
]

note_rate-now :
    (id : ℕ) (r : Regs) (rates : ℕ → ℕ)
    → id < 13
    → note_rate id r rates ≡ some (set_rate_at id (rate_now id r) rates)
unfolding note_rate
note_rate-now id r rates h = rw (clock_get_rate-now id r h) refl

-- `pll_rate` after the nine assignments.
abbrev noted_rates : Regs → (ℕ → ℕ) → ℕ → ℕ
noted_rates r rates =
    let noted = λ (id : ℕ) (f : ℕ → ℕ). set_rate_at id (rate_now id r) f in
    noted 12 (
      noted 11
        (set_rate_at 8 32768 (noted 6 (noted 5 (noted 4 (noted 2 (noted 1 (noted 0 rates))))))))

note_rates-now : (r : Regs) (rates : ℕ → ℕ) → note_rates r rates ≡ some (noted_rates r rates)
unfolding note_rates
note_rates-now r rates =
    let now = λ (id : ℕ) (h : id < 13) (f : ℕ → ℕ). note_rate-now id r f h in
    rw
      (
        now 0 (omega arith),
        now 1 (omega arith),
        now 2 (omega arith),
        now 4 (omega arith),
        now 5 (omega arith),
        now 6 (omega arith),
        now 11 (omega arith),
        now 12 (omega arith),
      )
      refl

-- Whatever the registers hold, clock_init returns. After it, each peripheral of its table has its mux at
-- the clock of the table, and the registers that are not their source registers are as before;
-- pll_rate has the rates that clock_get_rate gives for the noted clocks, 32768 for the 32 kHz clock,
-- and what it had for the others.
pub clock_init-IsMuxed :
    (rates : ℕ → ℕ) (r : Regs) (k id a : ℕ)
    → k < 19
    → id < 13
    → Elsewhere a periph_clk_init_table
    → (rates' : ℕ → ℕ) × (r' : Regs) × (clock_init rates r
        ≡ some (record { pll_rate = rates'; regs = r' }))
      × IsMuxed (entry_at periph_clk_init_table k) r'
      × (readl r' a ≡ readl r a)
      × (rates' id ≡ (if id == 8 then 32768 else if is_noted id then rate_now id r else rates id))
unfolding clock_init set_rate_at
clock_init-IsMuxed rates r k id a hk hid out =
    let (r', e, all, rest) = init_periphs-AllMuxed periph_clk_init_table r table_sound in
    (
      noted_rates r rates,
      r',
      rw (note_rates-now, e) refl,
      AllMuxed-at periph_clk_init_table r' k all (rw table_count hk),
      rest a out,
      ground arith,
    )
