-- ===== src/Gpio/Pins.antt =====
-- Drivers/PinMuxDxe/Gpio.c by pins: each call changes one bit of one array, that of its pin.
use nintendo_switch_pkg.Prelude.{
  ℕ, ◌/◌, ◌%◌, ◌<◌, ◌≡◌, refl, ◌≢◌, ◌⊎◌, inl, inr, Bool, true, false, ◌&&◌, not, List, [], ◌∷◌,
  arith, ltb, ◌==◌, if◌then◌else◌, Bool-cases, ◌∙◌, ap,
}
use nintendo_switch_pkg.Prelude.Bits.{test_bit, test_bit-low}
use nintendo_switch_pkg.Mmio.{Regs, readl, writel, readl-writel_self, readl-writel_ne}
use nintendo_switch_pkg.Mmio.Field.{assign_bit, test_bit-assign_bit}
use nintendo_switch_pkg.Gpio.{
  pin_addr, config_array, dir_out_array, out_array, assign_pin, set_direction, set_level,
  set_config, GpioConfig, gpio_config_entry, gpio_config_table,
}

-- The controller has 256 pins.
abbrev pub gpio_count : ℕ
gpio_count = 256

-- The bit of pin `gpio` in an array.
unfoldable pub pin_bit : ℕ → ℕ → Regs → Bool
pin_bit array gpio r = test_bit (readl r (pin_addr array gpio)) (gpio % 8)

-- The offset of one of the four arrays of a bank.
abbrev pub IsArray : ℕ → Type 0
IsArray a = (a ≡ 0x00) ⊎ (a ≡ 0x10) ⊎ (a ≡ 0x20) ⊎ (a ≡ 0x30)

pin_addr_inj :
    (a b g h : ℕ)
    → IsArray a
    → IsArray b
    → g < gpio_count
    → h < gpio_count
    → pin_addr a g ≡ pin_addr b h
    → (a ≡ b) × (g / 8 ≡ h / 8)
unfolding pin_addr
pin_addr_inj a b g h ha hb hg hh e = omega arith

written_bit :
    (addr shift : ℕ) (on : Bool) (r : Regs) (i : ℕ)
    → i < 32
    → test_bit (readl (writel (assign_bit shift on (readl r addr)) addr r) addr) i
      ≡ (if i == shift then on else test_bit (readl r addr) i)
written_bit addr shift on r i small =
    rw
      (
        readl-writel_self (assign_bit shift on (readl r addr)) addr r,
        test_bit-low 32 (assign_bit shift on (readl r addr)) i,
      )
      (ground (arith, test_bit-assign_bit shift on (readl r addr) i))

-- Assigning a pin in one array changes that pin in that array, and no other pin in any array.
pub pin_bit-assign_pin :
    (a b g h : ℕ) (on : Bool) (r : Regs)
    → IsArray a
    → IsArray b
    → g < gpio_count
    → h < gpio_count
    → pin_bit b h (assign_pin a g on r) ≡ (if a == b && g == h then on else pin_bit b h r)
unfolding pin_bit assign_pin
pin_bit-assign_pin a b g h on r ha hb hg hh = elim (Bool-cases (pin_addr a g == pin_addr b h)) [
  | inl same ↦
      let e : pin_addr a g ≡ pin_addr b h = ground arith in
      let (ea, eg) = pin_addr_inj a b g h ha hb hg hh e in
      rw e (rw (written_bit (pin_addr b h) (g % 8) on r (h % 8) (omega arith)) (ground arith))
  | inr apart ↦
      let ne : pin_addr a g ≢ pin_addr b h = ground arith in
      rw
        (readl-writel_ne (assign_bit (g % 8) on (readl r (pin_addr a g))) (pin_addr a g)
          (pin_addr b h) r ne)
        (ground arith)
]

module _ (g h b : ℕ) (r : Regs) (hb : IsArray b) (hg : g < gpio_count) (hh : h < gpio_count) where
  pin_bit-set_direction :
      (output : ℕ)
      → pin_bit b h (set_direction g output r)
        ≡ (if dir_out_array == b && g == h then not (output == 0) else pin_bit b h r)
  unfolding set_direction
  pin_bit-set_direction output =
      pin_bit-assign_pin dir_out_array b g h (not (output == 0)) r (omega arith) hb hg hh

  pin_bit-set_level :
      (high : ℕ)
      → pin_bit b h (set_level g high r)
        ≡ (if out_array == b && g == h then not (high == 0) else pin_bit b h r)
  unfolding set_level
  pin_bit-set_level high =
      pin_bit-assign_pin out_array b g h (not (high == 0)) r (omega arith) hb hg hh

  pin_bit-set_config :
      (type : ℕ)
      → pin_bit b h (set_config g type r)
        ≡ (if config_array == b && g == h then not (type == 0) else pin_bit b h r)
  unfolding set_config
  pin_bit-set_config type =
      pin_bit-assign_pin config_array b g h (not (type == 0)) r (omega arith) hb hg hh

-- What an entry of the table asks of its pin, in each array; `v` is the bit before.
abbrev pub asked : ℕ → ℕ → Bool → Bool
asked init array v =
    if array == config_array
    then true
    else if array == dir_out_array
    then (if init == 0 then false else if ltb init 3 then true else v)
    else if array == out_array
    then (if init == 1 then false else if init == 2 then true else v)
    else v

-- One entry makes its pin a GPIO, an input or an output as asked, at the level asked, and changes
-- no other pin.
pub pin_bit-gpio_config_entry :
    (c : GpioConfig) (b h : ℕ) (r : Regs)
    → IsArray b
    → c.gpio < gpio_count
    → h < gpio_count
    → pin_bit b h (gpio_config_entry c r)
      ≡ (if c.gpio == h then asked c.init b (pin_bit b h r) else pin_bit b h r)
unfolding gpio_config_entry
pin_bit-gpio_config_entry c b h r hb hg hh = ground (
  arith,
  pin_bit-set_direction c.gpio h b r hb hg hh 0,
  pin_bit-set_direction c.gpio h b (set_level c.gpio 0 r) hb hg hh 1,
  pin_bit-set_direction c.gpio h b (set_level c.gpio 1 r) hb hg hh 1,
  pin_bit-set_level c.gpio h b r hb hg hh 0,
  pin_bit-set_level c.gpio h b r hb hg hh 1,
  pin_bit-set_config c.gpio h b (set_direction c.gpio 0 r) hb hg hh 1,
  pin_bit-set_config c.gpio h b (set_direction c.gpio 1 (set_level c.gpio 0 r)) hb hg hh 1,
  pin_bit-set_config c.gpio h b (set_direction c.gpio 1 (set_level c.gpio 1 r)) hb hg hh 1,
  pin_bit-set_config c.gpio h b r hb hg hh 1,
)

-- The bit of pin `h` that a table asks for: its entries in turn, from the bit `v` before.
abbrev pub asked_by : List GpioConfig → ℕ → ℕ → Bool → Bool
asked_by [] array h v = v
asked_by (c ∷ cs) array h v = asked_by cs array h (if c.gpio == h then asked c.init array v else v)

abbrev pub AllInRange : List GpioConfig → Type 0
AllInRange [] = Unit {0}
AllInRange (c ∷ cs) = (c.gpio < gpio_count) × AllInRange cs

-- For a table of pins of the controller, gpio_config_table leaves every pin of the controller in the mode,
-- direction and level that its entries in the table ask for, the last one deciding, and every pin that is
-- not listed as it was.
pub pin_bit-gpio_config_table :
    (cs : List GpioConfig) (b h : ℕ) (r : Regs)
    → AllInRange cs
    → IsArray b
    → h < gpio_count
    → pin_bit b h (gpio_config_table cs r) ≡ asked_by cs b h (pin_bit b h r)
unfolding gpio_config_table
pin_bit-gpio_config_table [] b h r hc hb hh = refl
pin_bit-gpio_config_table (c ∷ cs) b h r hc hb hh =
    pin_bit-gpio_config_table cs b h (gpio_config_entry c r) hc.1 hb hh
    ∙ ap (asked_by cs b h) (pin_bit-gpio_config_entry c b h r hb hc.0 hh)
