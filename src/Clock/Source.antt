-- ===== src/Clock/Source.antt =====
-- The source registers and the clock types of the peripherals, from the tables of
-- Drivers/ClockManagementDxe/Tegra210/clock.c.
use nintendo_switch_pkg.Prelude.{
  ℕ, suc, ◌+◌, ◌-◌, ◌*◌, ◌^◌, ◌≤◌, ◌<◌, ◌≡◌, ◌≢◌, refl, Bool, true, none, some, List, [], ◌∷◌,
  arith, ltb, ◌==◌, ◌&&◌, ◌||◌, if◌then◌else◌, ap, ◌∙◌, sym,
}
use nintendo_switch_pkg.Prelude.Range.{holds_below, holds_below-at}
use nintendo_switch_pkg.Clock.{clk_rst_base, periph_id_count}
use nintendo_switch_pkg.Clock.Table.{periph_id_to_internal_id, table_at}
use nintendo_switch_pkg.Clock.Periph.{source_reg_of, get_periph_source_reg, get_periph_clock_info}

-- The first place of `x` in a table.
index_of : List ℕ → ℕ → ℕ
index_of [] x = 0
index_of (y ∷ ys) x = let rest = index_of ys x in if y == x then 0 else suc rest

-- No other peripheral has the internal id of `id`, which is 255 or below the end of the registers.
own_id : ℕ → Bool
unfolding index_of
own_id id =
    table_at periph_id_to_internal_id id == 255
    || (index_of periph_id_to_internal_id (table_at periph_id_to_internal_id id) == id
        && ltb (table_at periph_id_to_internal_id id) 146)

own_ids : holds_below own_id 224 ≡ true
unfolding own_id index_of holds_below table_at periph_id_to_internal_id
own_ids = refl

-- INTERNAL_ID of a peripheral, which is 255 for one that has no source register.
abbrev pub internal_id : ℕ → ℕ
internal_id id = table_at periph_id_to_internal_id id

internal_id-index :
    (id : ℕ)
    → id < periph_id_count
    → internal_id id ≢ 255
    → index_of periph_id_to_internal_id (internal_id id) ≡ id
unfolding own_id
internal_id-index id h known = ground (arith, holds_below-at own_id 224 own_ids id h)

internal_id-small : (id : ℕ) → id < periph_id_count → internal_id id ≢ 255 → internal_id id < 146
unfolding own_id
internal_id-small id h known = ground (arith, holds_below-at own_id 224 own_ids id h)

source_reg_of-inj : (a b : ℕ) → a < 146 → b < 146 → source_reg_of a ≡ source_reg_of b → a ≡ b
unfolding source_reg_of
source_reg_of-inj a b ha hb e = ground arith

get_periph_source_reg-of :
    (id : ℕ)
    → id < periph_id_count
    → id ≢ 52
    → get_periph_source_reg id
      ≡ (if internal_id id == 2 ^ 32 - 1 then none else some (source_reg_of (internal_id id)))
unfolding get_periph_source_reg
get_periph_source_reg-of id h other = ground arith

-- The source registers of two peripherals that have one, CSI aside, are different.
pub get_periph_source_reg-distinct :
    (p q : ℕ)
    → p < periph_id_count
    → q < periph_id_count
    → p ≢ 52
    → q ≢ 52
    → internal_id p ≢ 255
    → internal_id q ≢ 255
    → p ≢ q
    → get_periph_source_reg p ≢ get_periph_source_reg q
get_periph_source_reg-distinct p q hp hq op oq kp kq apart e =
    let sp : internal_id p < 146 = internal_id-small p hp kp in
    let sq : internal_id q < 146 = internal_id-small q hq kq in
    let regs : source_reg_of (internal_id p) ≡ source_reg_of (internal_id q) =
      ground (arith, get_periph_source_reg-of p hp op, get_periph_source_reg-of q hq oq) in
    let same : internal_id p ≡ internal_id q =
      source_reg_of-inj (internal_id p) (internal_id q) sp sq regs in
    apart (
      sym (internal_id-index p hp kp)
      ∙ ap (index_of periph_id_to_internal_id) same
      ∙ internal_id-index q hq kq)

-- For a peripheral that has no source register, CSI aside, get_periph_source_reg trips no assertion:
-- it returns the address of entry 127 of the 18 source registers of the last group.
pub get_periph_source_reg-missing :
    (id : ℕ)
    → id < periph_id_count
    → id ≢ 52
    → internal_id id ≡ 255
    → get_periph_source_reg id ≡ some (clk_rst_base + 0x694 + 127 * 4)
unfolding source_reg_of
get_periph_source_reg-missing id h other missing =
    ground (arith, get_periph_source_reg-of id h other)

-- For a peripheral whose source register is in the last group, get_periph_clock_info fails, although
-- get_periph_source_reg finds that register.
pub get_periph_clock_info-last_group :
    (id : ℕ)
    → id < periph_id_count
    → id ≢ 52
    → 128 ≤ internal_id id
    → internal_id id ≢ 255
    → (get_periph_clock_info id ≡ none)
      × (get_periph_source_reg id ≡ some (clk_rst_base + 0x694 + (internal_id id - 128) * 4))
      × (internal_id id < 146)
unfolding get_periph_clock_info source_reg_of
get_periph_clock_info-last_group id h other high known =
    let small : internal_id id < 146 = internal_id-small id h known in
    (ground arith, ground (arith, get_periph_source_reg-of id h other), small)
