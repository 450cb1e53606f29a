-- ===== src/Clock/BaseFields.antt =====
-- The fields that clock_set_rate of Drivers/ClockManagementDxe/clock.c puts into a base register.
use nintendo_switch_pkg.Prelude.{ℕ, zero, suc, ◌+◌, ◌-◌, ◌^◌, ◌≤◌, ◌<◌, ◌≡◌, inr, arith, ◌∙◌}
use nintendo_switch_pkg.Prelude.Bits.{test_bit, eq_of_bits}
use nintendo_switch_pkg.Mmio.Field.{
  insert_field, extract_field, test_bit-extract_field, test_bit-insert_field,
  extract_field-insert_field, extract_field-insert_field_apart,
}
use nintendo_switch_pkg.Clock.Pll.{tegra_pll_info_table}
use nintendo_switch_pkg.Clock.SetRate.{base_fields}

-- Words that agree in their low 28 bits have the same fields there.
extract_field-agree :
    (w s a b : ℕ)
    → s + w ≤ 28
    → ((i : ℕ) → i < 28 → test_bit a i ≡ test_bit b i)
    → extract_field (2 ^ w - 1) s a ≡ extract_field (2 ^ w - 1) s b
extract_field-agree w s a b room same = eq_of_bits _ _ λ i.
    rw (test_bit-extract_field w s a i, test_bit-extract_field w s b i)
      (ground (arith, same (s + i)))

-- The three fields of a word with them in it: m at 0 and n at `ns`, of eight bits, and p at `ps`.
module _ (ns ps wp n m p old : ℕ) (hm : m < 2 ^ 8) (hn : n < 2 ^ 8) (hp : p < 2 ^ wp) (mn : 8 ≤ ns)
    (np : ns + 8 ≤ ps) (pe : ps + wp ≤ 28) where
  abbrev with_m : ℕ
  with_m = insert_field (2 ^ 8 - 1) 0 m old

  abbrev with_n : ℕ
  with_n = insert_field (2 ^ 8 - 1) ns n with_m

  abbrev with_p : ℕ
  with_p = insert_field (2 ^ wp - 1) ps p with_n

  three_back :
      (b : ℕ)
      → ((i : ℕ) → i < 28 → test_bit b i ≡ test_bit with_p i)
      → (extract_field (2 ^ 8 - 1) 0 b ≡ m)
        × (extract_field (2 ^ 8 - 1) ns b ≡ n)
        × (extract_field (2 ^ wp - 1) ps b ≡ p)
  three_back b same = (
    extract_field-agree 8 0 b with_p (omega arith) same
        ∙ extract_field-insert_field_apart wp ps p with_n 8 0 hp (omega arith) (omega arith)
            (inr (omega arith))
        ∙ extract_field-insert_field_apart 8 ns n with_m 8 0 hn (omega arith) (omega arith)
            (inr (omega arith))
        ∙ extract_field-insert_field 8 0 m old hm (omega arith),
    extract_field-agree 8 ns b with_p (omega arith) same
        ∙ extract_field-insert_field_apart wp ps p with_n 8 ns hp (omega arith) (omega arith)
            (inr (omega arith))
        ∙ extract_field-insert_field 8 ns n with_m hn (omega arith),
    extract_field-agree wp ps b with_p (omega arith) same
        ∙ extract_field-insert_field wp ps p with_n hp (omega arith),
  )

  bit_28 : test_bit with_p 28 ≡ test_bit old 28
  bit_28 = ground (
    arith,
    test_bit-insert_field wp ps p with_n 28 hp (omega arith) (omega arith),
    test_bit-insert_field 8 ns n with_m 28 hn (omega arith) (omega arith),
    test_bit-insert_field 8 0 m old 28 hm (omega arith) (omega arith),
  )

  fields_and_28 :
      ((b : ℕ)
        → ((i : ℕ) → i < 28 → test_bit b i ≡ test_bit with_p i)
        → (extract_field (2 ^ 8 - 1) 0 b ≡ m)
          × (extract_field (2 ^ 8 - 1) ns b ≡ n)
          × (extract_field (2 ^ wp - 1) ps b ≡ p))
      × (test_bit with_p 28 ≡ test_bit old 28)
  fields_and_28 = (three_back, bit_28)

-- The same for the PLLs' own fields.
abbrev pub FieldsBack : ℕ → ℕ → ℕ → ℕ → ℕ → Type 0
FieldsBack id n m p old =
    let info = tegra_pll_info_table id in
    ((b : ℕ)
      → ((i : ℕ) → i < 28 → test_bit b i ≡ test_bit (base_fields info n m p old) i)
      → (extract_field info.m_mask info.m_shift b ≡ m)
        × (extract_field info.n_mask info.n_shift b ≡ n)
        × (extract_field info.p_mask info.p_shift b ≡ p))
    × (test_bit (base_fields info n m p old) 28 ≡ test_bit old 28)

pub fields_back :
    (id n m p old : ℕ)
    → id < 6
    → m ≤ (tegra_pll_info_table id).m_mask
    → n ≤ (tegra_pll_info_table id).n_mask
    → p ≤ (tegra_pll_info_table id).p_mask
    → FieldsBack id n m p old
unfolding tegra_pll_info_table base_fields
fields_back zero n m p old small hm hn hp =
    fields_and_28 10 20 5 n m p old (omega arith) (omega arith) (omega arith) (omega arith)
      (omega arith) (omega arith)
fields_back (suc zero) n m p old small hm hn hp =
    fields_and_28 8 20 5 n m p old (omega arith) (omega arith) (omega arith) (omega arith)
      (omega arith) (omega arith)
fields_back (suc (suc zero)) n m p old small hm hn hp =
    fields_and_28 10 20 5 n m p old (omega arith) (omega arith) (omega arith) (omega arith)
      (omega arith) (omega arith)
fields_back (suc (suc (suc zero))) n m p old small hm hn hp =
    fields_and_28 8 20 5 n m p old (omega arith) (omega arith) (omega arith) (omega arith)
      (omega arith) (omega arith)
fields_back (suc (suc (suc (suc zero)))) n m p old small hm hn hp =
    fields_and_28 8 16 5 n m p old (omega arith) (omega arith) (omega arith) (omega arith)
      (omega arith) (omega arith)
fields_back (suc (suc (suc (suc (suc zero))))) n m p old small hm hn hp =
    fields_and_28 11 20 3 n m p old (omega arith) (omega arith) (omega arith) (omega arith)
      (omega arith) (omega arith)
fields_back (suc (suc (suc (suc (suc (suc n')))))) n m p old small hm hn hp = absurd (omega arith)
