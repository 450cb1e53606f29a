-- ===== src/Clock/PllRoundTrip.antt =====
-- What clock_start_pll of Drivers/ClockManagementDxe/clock.c programs, clock_ll_read_pll reads back.
use nintendo_switch_pkg.Prelude.{
  zero, suc, ℕ, ◌%◌, ◌^◌, ◌≤◌, ◌<◌, ◌≡◌, ◌≢◌, refl, inl, inr, true, false, some, arith, ltb, ◌==◌,
  ap, ◌∙◌,
}
use nintendo_switch_pkg.Prelude.Assert.{◌>>=◌}
use nintendo_switch_pkg.Mmio.{Regs, readl, writel, readl-writel_self, readl-writel_ne}
use nintendo_switch_pkg.Clock.Pll.{
  tegra_pll_info_table, pll_base, pll_misc, PllSetting, base_word, misc_word, clock_start_pll,
  clock_ll_read_pll,
}
use nintendo_switch_pkg.Clock.PllFields.{setting_of, setting_back}

misc_ne_base : (id : ℕ) → pll_base id ≢ pll_misc id
unfolding pll_base pll_misc
misc_ne_base id = omega arith

misc_after :
    (id b m : ℕ) (r : Regs)
    → readl (writel b (pll_base id) (writel m (pll_misc id) r)) (pll_misc id) ≡ m % 2 ^ 32
misc_after id b m r =
    readl-writel_ne b (pll_base id) (pll_misc id) (writel m (pll_misc id) r) (misc_ne_base id)
    ∙ readl-writel_self m (pll_misc id) r

read_words :
    (id : ℕ) (p : PllSetting) (r : Regs)
    → id < 6
    → id ≢ 4
    → (clock_start_pll id p r >>= clock_ll_read_pll id)
      ≡ some (
          setting_of
            (tegra_pll_info_table id)
            (base_word (tegra_pll_info_table id) p % 2 ^ 32)
            (misc_word (tegra_pll_info_table id) p (readl r (pll_misc id)) % 2 ^ 32))
unfolding clock_start_pll clock_ll_read_pll
read_words id p r small usb =
    rw
      (
        (let e : ltb id 6 ≡ true = ground arith in e),
        (let e : ltb id 6 ≡ true = ground arith in e),
        (let e : (id == 4) ≡ false = ground arith in e),
        readl-writel_self,
        misc_after,
      )
      refl

table_back :
    (id : ℕ) (p : PllSetting) (misc : ℕ)
    → id < 6
    → id ≢ 4
    → p.divm ≤ (tegra_pll_info_table id).m_mask
    → p.divn ≤ (tegra_pll_info_table id).n_mask
    → p.divp ≤ (tegra_pll_info_table id).p_mask
    → p.cpcon ≤ (tegra_pll_info_table id).kcp_mask
    → p.lfcon ≤ (tegra_pll_info_table id).kvco_mask
    → setting_of
        (tegra_pll_info_table id)
        (base_word (tegra_pll_info_table id) p % 2 ^ 32)
        (misc_word (tegra_pll_info_table id) p misc % 2 ^ 32)
      ≡ p
unfolding tegra_pll_info_table
table_back zero p misc _ _ hm hn hp hk hv =
    setting_back 0 8 10 8 20 5 0 0 0 0 p misc (omega arith) (omega arith) (omega arith)
      (omega arith) (omega arith) (inl (omega arith)) (omega arith) (omega arith) (omega arith)
      (omega arith) (omega arith)
table_back (suc zero) p misc _ _ hm hn hp hk hv =
    setting_back 0 8 8 8 20 5 1 2 0 1 p misc (omega arith) (omega arith) (omega arith) (omega arith)
      (omega arith) (inl (omega arith)) (omega arith) (omega arith) (omega arith) (omega arith)
      (omega arith)
table_back (suc (suc zero)) p misc _ _ hm hn hp hk hv =
    setting_back 0 8 10 8 20 5 0 2 2 1 p misc (omega arith) (omega arith) (omega arith)
      (omega arith) (omega arith) (inr (omega arith)) (omega arith) (omega arith) (omega arith)
      (omega arith) (omega arith)
table_back (suc (suc (suc zero))) p misc _ _ hm hn hp hk hv =
    setting_back 0 8 8 8 20 5 25 2 24 1 p misc (omega arith) (omega arith) (omega arith)
      (omega arith) (omega arith) (inl (omega arith)) (omega arith) (omega arith) (omega arith)
      (omega arith) (omega arith)
table_back (suc (suc (suc (suc zero)))) p misc _ usb hm hn hp hk hv = absurd (usb refl)
table_back (suc (suc (suc (suc (suc zero))))) p misc _ _ hm hn hp hk hv =
    setting_back 0 8 11 8 20 3 23 2 22 1 p misc (omega arith) (omega arith) (omega arith)
      (omega arith) (omega arith) (inl (omega arith)) (omega arith) (omega arith) (omega arith)
      (omega arith) (omega arith)
table_back (suc (suc (suc (suc (suc (suc n)))))) p misc small _ hm hn hp hk hv =
    absurd (omega arith)

-- What clock_start_pll programs into one of the first six PLLs, PLLU excepted, clock_ll_read_pll
-- reads back, whatever the registers held, when each value is at most the mask of its field.
pub clock_ll_read_pll-clock_start_pll :
    (id : ℕ) (p : PllSetting) (r : Regs)
    → id < 6
    → id ≢ 4
    → p.divm ≤ (tegra_pll_info_table id).m_mask
    → p.divn ≤ (tegra_pll_info_table id).n_mask
    → p.divp ≤ (tegra_pll_info_table id).p_mask
    → p.cpcon ≤ (tegra_pll_info_table id).kcp_mask
    → p.lfcon ≤ (tegra_pll_info_table id).kvco_mask
    → (clock_start_pll id p r >>= clock_ll_read_pll id) ≡ some p
clock_ll_read_pll-clock_start_pll id p r small usb hm hn hp hk hv =
    read_words id p r small usb
    ∙ ap some (table_back id p (readl r (pll_misc id)) small usb hm hn hp hk hv)
