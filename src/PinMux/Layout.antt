-- ===== src/PinMux/Layout.antt =====
-- What the setters of Drivers/PinMuxDxe/pinmux-common.c do to the register of a pin, bit by bit,
-- and that they write no other register.
use nintendo_switch_pkg.Prelude.{
  Bool-cases, true, false, ℕ, ◌-◌, ◌≤◌, ◌<◌, ◌≡◌, refl, ◌⊎◌, inl, inr, Bool, ◌&&◌, Option, some,
  arith, ltb, leb, ◌==◌, if◌then◌else◌,
}
use nintendo_switch_pkg.Prelude.Bits.{test_bit}
use nintendo_switch_pkg.Mmio.{Regs, readl, writel}
use nintendo_switch_pkg.Mmio.Update.{Sets, keeps-Updates, write-Updates}
use nintendo_switch_pkg.Mmio.Field.{
  insert_field, assign_bit, test_bit-insert_field, test_bit-assign_bit,
}
use nintendo_switch_pkg.PinMux.{
  pingrp_count, func_count, func_default, pin_reg, mux_of, pinmux_set_func, pinmux_set_pullupdown,
  pinmux_set_tristate, pinmux_set_io, pinmux_set_lock, pinmux_set_od, pinmux_set_e_io_hv,
}

-- How each setter changes a bit.
abbrev pub func_bits : ℕ → ℕ → ℕ → Bool → Bool
func_bits func mux i b = if func == 0 then b else if ltb i 2 then test_bit mux i else b

abbrev pub pull_bits : ℕ → ℕ → Bool → Bool
pull_bits pupd i b = if leb 2 i && ltb i 4 then test_bit pupd (i - 2) else b

abbrev pub flag_bit : ℕ → Bool → ℕ → Bool → Bool
flag_bit shift on i b = if i == shift then on else b

abbrev pub optional_bit : ℕ → Bool → Bool → ℕ → Bool → Bool
optional_bit shift leave on i b = if leave then b else flag_bit shift on i b

module _ (pin : ℕ) (r : Regs) (hp : pin < pingrp_count) where
  pub pinmux_set_func-Sets :
      (func mux : ℕ)
      → func < func_count
      → (func ≡ func_default) ⊎ (mux_of pin func ≡ some mux)
      → mux < 4
      → Sets (pin_reg pin) (func_bits func mux) r (pinmux_set_func pin func r)
  unfolding pinmux_set_func
  pinmux_set_func-Sets func mux hf known hm = elim (Bool-cases (func == 0)) [
    | inl default ↦
        (r, rw default, record { bits = λ i small. ground arith; others = λ a ne. refl })
    | inr named ↦
        let e : mux_of pin func ≡ some mux = ground arith in
        let w : ℕ = insert_field 3 0 mux (readl r (pin_reg pin)) in
        rw named (
          writel w (pin_reg pin) r,
          ground arith,
          write-Updates (pin_reg pin) w _ r
              λ i small. ground (arith, test_bit-insert_field 2 0 mux (readl r (pin_reg pin)) i),
        )
  ]

  pub pinmux_set_pullupdown-Sets :
      (pupd : ℕ)
      → pupd ≤ 2
      → Sets (pin_reg pin) (pull_bits pupd) r (pinmux_set_pullupdown pin pupd r)
  unfolding pinmux_set_pullupdown
  pinmux_set_pullupdown-Sets pupd h =
      let w : ℕ = insert_field 3 2 pupd (readl r (pin_reg pin)) in
      (
        writel w (pin_reg pin) r,
        ground arith,
        write-Updates (pin_reg pin) w _ r
            λ i small. ground (arith, test_bit-insert_field 2 2 pupd (readl r (pin_reg pin)) i),
      )

  pub pinmux_set_tristate-Sets :
      (tri : ℕ)
      → tri ≤ 1
      → Sets (pin_reg pin) (flag_bit 4 (tri == 1)) r (pinmux_set_tristate pin tri r)
  unfolding pinmux_set_tristate
  pinmux_set_tristate-Sets tri h =
      let w : ℕ = assign_bit 4 (tri == 1) (readl r (pin_reg pin)) in
      (
        writel w (pin_reg pin) r,
        ground arith,
        write-Updates (pin_reg pin) w _ r
            (test_bit-assign_bit 4 (tri == 1) (readl r (pin_reg pin))),
      )

  -- The four setters that leave the bit alone at one value of their argument.
  optional-Sets :
      (shift : ℕ) (leave on : Bool) (out : Option Regs)
      → out ≡ (
          if leave
          then some r
          else some (writel (assign_bit shift on (readl r (pin_reg pin))) (pin_reg pin) r))
      → Sets (pin_reg pin) (optional_bit shift leave on) r out
  optional-Sets shift true on out e = (r, e, keeps-Updates (pin_reg pin) r)
  optional-Sets shift false on out e = (
    writel (assign_bit shift on (readl r (pin_reg pin))) (pin_reg pin) r,
    e,
    write-Updates (pin_reg pin) _ _ r (test_bit-assign_bit shift on (readl r (pin_reg pin))),
  )

  pub pinmux_set_io-Sets :
      (io : ℕ)
      → io ≤ 2
      → Sets (pin_reg pin) (optional_bit 6 (io == 2) (io == 1)) r (pinmux_set_io pin io r)
  unfolding pinmux_set_io
  pinmux_set_io-Sets io h = optional-Sets 6 (io == 2) (io == 1) _ (ground arith)

  pub pinmux_set_lock-Sets :
      (lock : ℕ)
      → lock ≤ 2
      → Sets (pin_reg pin) (optional_bit 7 (lock == 0) (lock == 2)) r (pinmux_set_lock pin lock r)
  unfolding pinmux_set_lock
  pinmux_set_lock-Sets lock h = optional-Sets 7 (lock == 0) (lock == 2) _ (ground arith)

  pub pinmux_set_od-Sets :
      (od : ℕ)
      → od ≤ 2
      → Sets (pin_reg pin) (optional_bit 11 (od == 0) (od == 2)) r (pinmux_set_od pin od r)
  unfolding pinmux_set_od
  pinmux_set_od-Sets od h = optional-Sets 11 (od == 0) (od == 2) _ (ground arith)

  pub pinmux_set_e_io_hv-Sets :
      (e_io_hv : ℕ)
      → e_io_hv ≤ 2
      → Sets
          (pin_reg pin)
          (optional_bit 10 (e_io_hv == 0) (e_io_hv == 2))
          r
          (pinmux_set_e_io_hv pin e_io_hv r)
  unfolding pinmux_set_e_io_hv
  pinmux_set_e_io_hv-Sets e_io_hv h =
      optional-Sets 10 (e_io_hv == 0) (e_io_hv == 2) _ (ground arith)
