-- ===== src/Gpio/Agree.antt =====
-- Library/GpioLib/GpioLib.c against Drivers/PinMuxDxe/Gpio.c: the library's tables of offsets are
-- the layout of the banks, and its calls on one pin are those of the driver.
use Prim.Native.Nat.{bit_and}
use nintendo_switch_pkg.Prelude.{
  ℕ, ◌+◌, ◌*◌, ◌/◌, ◌%◌, ◌^◌, ◌<◌, ◌≡◌, refl, Bool, true, false, not, none, some, List, arith, ◌==◌,
  ==_iff, if◌then◌else◌, ◌∙◌,
}
use nintendo_switch_pkg.Prelude.Range.{holds_below, holds_below-at}
use nintendo_switch_pkg.Prelude.Bits.{test_bit, shl32, shr, bit_and-pow_eq_zero, test_bit-shr}
use nintendo_switch_pkg.Mmio.{Regs, readl}
use nintendo_switch_pkg.Mmio.Field.{assign_bit}
use nintendo_switch_pkg.Gpio.{
  gpio_base, pin_addr, config_array, dir_out_array, out_array, in_array, assign_pin, set_direction,
  set_level, set_config, get_config, gpio_cnf, gpio_oe, gpio_out, gpio_in, entry, assign_pins,
  gpio_config, gpio_output_enable, gpio_write, gpio_read,
}
use nintendo_switch_pkg.Gpio.Pins.{pin_bit}

-- The offset of `port` in the array at offset `array` of the banks.
abbrev layout : ℕ → ℕ → ℕ
layout array port = port / 4 * 0x100 + array + port % 4 * 4

is_layout : ℕ → List ℕ → ℕ → Bool
is_layout array table port = elim (entry table port) [
  | none ↦ false
  | some off ↦ off == layout array port
]

is_layout-entry :
    (array : ℕ) (table : List ℕ) (port : ℕ)
    → is_layout array table port ≡ true
    → entry table port ≡ some (layout array port)
unfolding is_layout
is_layout-entry array table port h = ground arith

module _ (port : ℕ) (hp : port < 31) where
  entry-cnf : entry gpio_cnf port ≡ some (layout config_array port)
  unfolding holds_below is_layout entry gpio_cnf
  entry-cnf =
      is_layout-entry config_array gpio_cnf port
        (holds_below-at (is_layout config_array gpio_cnf) 31 refl port hp)

  entry-oe : entry gpio_oe port ≡ some (layout dir_out_array port)
  unfolding holds_below is_layout entry gpio_oe
  entry-oe =
      is_layout-entry dir_out_array gpio_oe port
        (holds_below-at (is_layout dir_out_array gpio_oe) 31 refl port hp)

  entry-out : entry gpio_out port ≡ some (layout out_array port)
  unfolding holds_below is_layout entry gpio_out
  entry-out =
      is_layout-entry out_array gpio_out port
        (holds_below-at (is_layout out_array gpio_out) 31 refl port hp)

  entry-in : entry gpio_in port ≡ some (layout in_array port)
  unfolding holds_below is_layout entry gpio_in
  entry-in =
      is_layout-entry in_array gpio_in port
        (holds_below-at (is_layout in_array gpio_in) 31 refl port hp)

shl32-one : (bit : ℕ) → bit < 8 → shl32 1 bit ≡ 2 ^ bit
unfolding holds_below shl32
shl32-one bit h = (==_iff _ _).0 (holds_below-at (λ b. shl32 1 b == 2 ^ b) 8 refl bit h)

module _ (array port bit : ℕ) (hb : bit < 8) where
  pin_addr-layout : pin_addr array (port * 8 + bit) ≡ gpio_base + layout array port
  unfolding pin_addr
  pin_addr-layout = omega arith

  assign_pins-assign_pin :
      (table : List ℕ) (on : ℕ) (r : Regs)
      → entry table port ≡ some (layout array port)
      → assign_pins table port (2 ^ bit) on r
        ≡ some (assign_pin array (port * 8 + bit) (not (on == 0)) r)
  unfolding assign_pins assign_pin assign_bit
  assign_pins-assign_pin table on r e =
      let index : (port * 8 + bit) % 8 ≡ bit = omega arith in
      rw (e, pin_addr-layout, index, shl32-one bit hb) (ground arith)

-- gpio_config, gpio_output_enable and gpio_write of the library, on the mask of one pin, are
-- set_config, set_direction and set_level of the driver on the number of that pin.
pub GpioLib-Gpio :
    (port bit on : ℕ) (r : Regs)
    → port < 31
    → bit < 8
    → (gpio_config port (2 ^ bit) on r ≡ some (set_config (port * 8 + bit) on r))
      × (gpio_output_enable port (2 ^ bit) on r ≡ some (set_direction (port * 8 + bit) on r))
      × (gpio_write port (2 ^ bit) on r ≡ some (set_level (port * 8 + bit) on r))
unfolding gpio_config gpio_output_enable gpio_write set_config set_direction set_level
GpioLib-Gpio port bit on r hp hb = (
  assign_pins-assign_pin config_array port bit hb gpio_cnf on r (entry-cnf port hp),
  assign_pins-assign_pin dir_out_array port bit hb gpio_oe on r (entry-oe port hp),
  assign_pins-assign_pin out_array port bit hb gpio_out on r (entry-out port hp),
)

-- The C test `(x >> k) & 1`.
shifted_bit : (k x : ℕ) → (bit_and (shr x k) 1 == 0) ≡ not (test_bit x k)
shifted_bit k x =
    let index : k + 0 ≡ k = omega arith in
    bit_and-pow_eq_zero 0 (shr x k) ∙ rw (test_bit-shr k x 0, index) refl

-- gpio_read is the pin's bit of the input array, and get_config that of the config array.
pub gpio_read-pin_bit :
    (port bit : ℕ) (r : Regs)
    → port < 31
    → bit < 8
    → (gpio_read port (2 ^ bit) r ≡ some (if pin_bit in_array (port * 8 + bit) r then 1 else 0))
      × (get_config (port * 8 + bit) r ≡ (if pin_bit config_array (port * 8 + bit) r then 1 else 0))
unfolding gpio_read get_config pin_bit
gpio_read-pin_bit port bit r hp hb =
    let index : (port * 8 + bit) % 8 ≡ bit = omega arith in
    (
      rw
          (
            entry-in port hp,
            pin_addr-layout in_array port bit hb,
            index,
            bit_and-pow_eq_zero bit (readl r (gpio_base + layout in_array port)),
          )
          (ground arith),
      rw (shifted_bit ((port * 8 + bit) % 8) (readl r (pin_addr config_array (port * 8 + bit))))
          (ground arith),
    )
