-- ===== src/PinMux/DriveLayout.antt =====
-- What `pinmux_config_drvgrp` of Drivers/PinMuxDxe/pinmux-common.c leaves in the register of a
-- drive group, and when it stops in an assertion.
use nintendo_switch_pkg.Prelude.{
  ℕ, ◌+◌, ◌-◌, ◌^◌, ◌≤◌, ◌<◌, ◌≡◌, ◌⊎◌, Bool, ◌&&◌, none, arith, ltb, leb, if◌then◌else◌, ◌∙◌,
}
use nintendo_switch_pkg.Prelude.Bits.{test_bit}
use nintendo_switch_pkg.Prelude.Int.{pos}
use nintendo_switch_pkg.Mmio.{Regs, readl, writel}
use nintendo_switch_pkg.Mmio.Field.{insert_field, test_bit-insert_field}
use nintendo_switch_pkg.Mmio.Update.{Sets, Sets-bind, write-Updates}
use nintendo_switch_pkg.PinMux.Drive.{
  drvgrp_count, drv_reg, set_drv_field, pinmux_set_drvup_slwf, pinmux_set_drvdn_slwr,
  pinmux_set_drvup, pinmux_set_drvdn, DrvgrpConfig, pinmux_config_drvgrp,
}

abbrev field_bits : ℕ → ℕ → ℕ → ℕ → Bool → Bool
field_bits w shift v i b = if leb shift i && ltb i (shift + w) then test_bit v (i - shift) else b

set_drv_field-Sets :
    (w shift grp v : ℕ) (r : Regs)
    → grp < drvgrp_count
    → v < 2 ^ w
    → shift + w ≤ 32
    → Sets (drv_reg grp) (field_bits w shift v) r (set_drv_field (2 ^ w - 1) shift grp (pos v) r)
unfolding set_drv_field
set_drv_field-Sets w shift grp v r hg hv room =
    let word : ℕ = insert_field (2 ^ w - 1) shift v (readl r (drv_reg grp)) in
    (
      writel word (drv_reg grp) r,
      ground arith,
      write-Updates (drv_reg grp) word _ r
          λ i small. test_bit-insert_field w shift v (readl r (drv_reg grp)) i hv room small,
    )

pub record IsValid (c : DrvgrpConfig) : Type 0 where
  pub drvgrp_in : c.drvgrp < drvgrp_count
  pub slwf_in : c.slwf ≤ 3
  pub slwr_in : c.slwr ≤ 3
  pub drvup_in : c.drvup ≤ 127
  pub drvdn_in : c.drvdn ≤ 127

-- Bit `i` of the group's register as the configuration asks for it, from the bit `b` before.
abbrev pub configured : DrvgrpConfig → ℕ → Bool → Bool
configured c i b =
    if leb 30 i
    then test_bit c.slwf (i - 30)
    else if leb 28 i
    then test_bit c.slwr (i - 28)
    else if leb 27 i
    then b
    else if leb 20 i
    then test_bit c.drvup (i - 20)
    else if leb 19 i
    then b
    else if leb 12 i
    then test_bit c.drvdn (i - 12)
    else b

chain-Sets :
    (c : DrvgrpConfig) (r : Regs)
    → IsValid c
    → Sets
        (drv_reg c.drvgrp)
        (λ i b.
          field_bits 7 12 c.drvdn i
            (field_bits 7 20 c.drvup i (field_bits 2 28 c.slwr i (field_bits 2 30 c.slwf i b))))
        r
        (pinmux_config_drvgrp c r)
unfolding pinmux_config_drvgrp pinmux_set_drvup_slwf pinmux_set_drvdn_slwr pinmux_set_drvup
    pinmux_set_drvdn
chain-Sets c r v =
    Sets-bind (drv_reg c.drvgrp) (field_bits 2 30 c.slwf) _ r _ _
      (set_drv_field-Sets 2 30 c.drvgrp c.slwf r v.drvgrp_in (omega arith) (omega arith))
      λ r1.
        Sets-bind (drv_reg c.drvgrp) (field_bits 2 28 c.slwr) _ r1 _ _
          (set_drv_field-Sets 2 28 c.drvgrp c.slwr r1 v.drvgrp_in (omega arith) (omega arith))
          λ r2.
            Sets-bind (drv_reg c.drvgrp) (field_bits 7 20 c.drvup) _ r2 _ _
              (set_drv_field-Sets 7 20 c.drvgrp c.drvup r2 v.drvgrp_in (omega arith) (omega arith))
              λ r3.
                set_drv_field-Sets 7 12 c.drvgrp c.drvdn r3 v.drvgrp_in (omega arith) (omega arith)

-- For a configuration in range, pinmux_config_drvgrp returns, puts the four values into their
-- fields of the group's register, keeps its other bits, and writes no other register.
pub pinmux_config_drvgrp-Sets :
    (c : DrvgrpConfig) (r : Regs)
    → IsValid c
    → Sets (drv_reg c.drvgrp) (configured c) r (pinmux_config_drvgrp c r)
pinmux_config_drvgrp-Sets c r v =
    let (r', e, u) = chain-Sets c r v in
    (r', e, record { bits = λ i small. u.bits i small ∙ ground arith; others = u.others })

-- PMUX_SLWF_NONE and PMUX_SLWR_NONE are -1, which the 3-bit fields of the configuration hold as 7,
-- and PMUX_DRVUP_NONE and PMUX_DRVDN_NONE are 255 in theirs. Such a configuration does not skip the
-- field: the call stops in an assertion.
pub pinmux_config_drvgrp-none :
    (c : DrvgrpConfig) (r : Regs)
    → (c.slwf ≡ 7) ⊎ (c.slwr ≡ 7) ⊎ (c.drvup ≡ 255) ⊎ (c.drvdn ≡ 255)
    → pinmux_config_drvgrp c r ≡ none
unfolding pinmux_config_drvgrp pinmux_set_drvup_slwf pinmux_set_drvdn_slwr pinmux_set_drvup
    pinmux_set_drvdn set_drv_field
pinmux_config_drvgrp-none c r h = ground arith
