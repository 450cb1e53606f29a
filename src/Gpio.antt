-- ===== src/Gpio.antt =====
-- The two GPIO drivers, over one register block: Drivers/PinMuxDxe/Gpio.c, which addresses a pin by
-- number, and Library/GpioLib/GpioLib.c, which takes a port and a mask of pins.
pub mod Pins
pub mod Agree
mod Tests
use Prim.Native.Nat.{bit_and, bit_or}
use nintendo_switch_pkg.Prelude.{
  ℕ, zero, suc, ◌+◌, ◌*◌, ◌/◌, ◌%◌, Bool, true, false, not, Option, none, some, List, [], ◌∷◌, ◌==◌,
  if◌then◌else◌,
}
use nintendo_switch_pkg.Prelude.Assert.{◌>>=◌}
use nintendo_switch_pkg.Prelude.Bits.{not32, shr}
use nintendo_switch_pkg.Mmio.{Regs, readl, writel}
use nintendo_switch_pkg.Mmio.Field.{assign_bit}

-- NV_PA_GPIO_BASE
abbrev pub gpio_base : ℕ
gpio_base = 0x6000D000

-- The address of `gpio_bank[GPIO_BANK(gpio)].<array>[GPIO_PORT(gpio)]`, for the array at offset
-- `array` of a bank; a bank takes 0x100 bytes. The pin is bit GPIO_BIT(gpio), `gpio % 8`.
unfoldable pub pin_addr : ℕ → ℕ → ℕ
pin_addr array gpio = gpio_base + gpio / 32 * 0x100 + array + gpio / 8 % 4 * 4

abbrev pub config_array : ℕ
config_array = 0x00

abbrev pub dir_out_array : ℕ
dir_out_array = 0x10

abbrev pub out_array : ℕ
out_array = 0x20

abbrev pub in_array : ℕ
in_array = 0x30

-- What `set_direction`, `set_level` and `set_config` do to one of the arrays.
unfoldable pub assign_pin : ℕ → ℕ → Bool → Regs → Regs
assign_pin array gpio on r =
    writel (assign_bit (gpio % 8) on (readl r (pin_addr array gpio))) (pin_addr array gpio) r

unfoldable pub set_direction : ℕ → ℕ → Regs → Regs
set_direction gpio output = assign_pin dir_out_array gpio (not (output == 0))

unfoldable pub set_level : ℕ → ℕ → Regs → Regs
set_level gpio high = assign_pin out_array gpio (not (high == 0))

unfoldable pub set_config : ℕ → ℕ → Regs → Regs
set_config gpio type = assign_pin config_array gpio (not (type == 0))

unfoldable pub get_config : ℕ → Regs → ℕ
get_config gpio r =
    let type = bit_and (shr (readl r (pin_addr config_array gpio)) (gpio % 8)) 1 in
    if type == 0 then 0 else 1

-- `struct tegra_gpio_config`: TEGRA_GPIO_INIT_IN, _OUT0 and _OUT1 are 0, 1 and 2.
pub record GpioConfig : Type 0 where
  pub gpio : ℕ
  pub init : ℕ

-- One round of the loop of `gpio_config_table`.
unfoldable pub gpio_config_entry : GpioConfig → Regs → Regs
gpio_config_entry c r =
    let switched =
      if c.init == 0
      then set_direction c.gpio 0 r
      else if c.init == 1
      then set_direction c.gpio 1 (set_level c.gpio 0 r)
      else if c.init == 2
      then set_direction c.gpio 1 (set_level c.gpio 1 r)
      else r in
    set_config c.gpio 1 switched

unfoldable pub gpio_config_table : List GpioConfig → Regs → Regs
gpio_config_table [] r = r
gpio_config_table (c ∷ cs) r = gpio_config_table cs (gpio_config_entry c r)

-- The tables `_gpio_cnf`, `_gpio_oe`, `_gpio_out` and `_gpio_in` of the library have 31 entries;
-- an index past them is undefined behaviour in C, here `none`.
unfoldable pub gpio_cnf : List ℕ
gpio_cnf =
    0x000 ∷ 0x004 ∷ 0x008 ∷ 0x00C ∷ 0x100 ∷ 0x104 ∷ 0x108 ∷ 0x10C ∷ 0x200 ∷ 0x204 ∷ 0x208 ∷ 0x20C
    ∷ 0x300 ∷ 0x304 ∷ 0x308 ∷ 0x30C ∷ 0x400 ∷ 0x404 ∷ 0x408 ∷ 0x40C ∷ 0x500 ∷ 0x504 ∷ 0x508 ∷ 0x50C
    ∷ 0x600 ∷ 0x604 ∷ 0x608 ∷ 0x60C ∷ 0x700 ∷ 0x704 ∷ 0x708 ∷ []

unfoldable pub gpio_oe : List ℕ
gpio_oe =
    0x010 ∷ 0x014 ∷ 0x018 ∷ 0x01C ∷ 0x110 ∷ 0x114 ∷ 0x118 ∷ 0x11C ∷ 0x210 ∷ 0x214 ∷ 0x218 ∷ 0x21C
    ∷ 0x310 ∷ 0x314 ∷ 0x318 ∷ 0x31C ∷ 0x410 ∷ 0x414 ∷ 0x418 ∷ 0x41C ∷ 0x510 ∷ 0x514 ∷ 0x518 ∷ 0x51C
    ∷ 0x610 ∷ 0x614 ∷ 0x618 ∷ 0x61C ∷ 0x710 ∷ 0x714 ∷ 0x718 ∷ []

unfoldable pub gpio_out : List ℕ
gpio_out =
    0x020 ∷ 0x024 ∷ 0x028 ∷ 0x02C ∷ 0x120 ∷ 0x124 ∷ 0x128 ∷ 0x12C ∷ 0x220 ∷ 0x224 ∷ 0x228 ∷ 0x22C
    ∷ 0x320 ∷ 0x324 ∷ 0x328 ∷ 0x32C ∷ 0x420 ∷ 0x424 ∷ 0x428 ∷ 0x42C ∷ 0x520 ∷ 0x524 ∷ 0x528 ∷ 0x52C
    ∷ 0x620 ∷ 0x624 ∷ 0x628 ∷ 0x62C ∷ 0x720 ∷ 0x724 ∷ 0x728 ∷ []

unfoldable pub gpio_in : List ℕ
gpio_in =
    0x030 ∷ 0x034 ∷ 0x038 ∷ 0x03C ∷ 0x130 ∷ 0x134 ∷ 0x138 ∷ 0x13C ∷ 0x230 ∷ 0x234 ∷ 0x238 ∷ 0x23C
    ∷ 0x330 ∷ 0x334 ∷ 0x338 ∷ 0x33C ∷ 0x430 ∷ 0x434 ∷ 0x438 ∷ 0x43C ∷ 0x530 ∷ 0x534 ∷ 0x538 ∷ 0x53C
    ∷ 0x630 ∷ 0x634 ∷ 0x638 ∷ 0x63C ∷ 0x730 ∷ 0x734 ∷ 0x738 ∷ []

unfoldable pub entry : List ℕ → ℕ → Option ℕ
entry [] n = none
entry (x ∷ xs) zero = some x
entry (x ∷ xs) (suc n) = entry xs n

-- `if (on) GPIO(table[port]) |= pins; else GPIO(table[port]) &= ~pins;`
unfoldable pub assign_pins : List ℕ → ℕ → ℕ → ℕ → Regs → Option Regs
assign_pins table port pins on r = do
  off ← entry table port
  let a = gpio_base + off
  some (
      if on == 0
      then writel (bit_and (readl r a) (not32 pins)) a r
      else writel (bit_or (readl r a) pins) a r)

unfoldable pub gpio_config : ℕ → ℕ → ℕ → Regs → Option Regs
gpio_config = assign_pins gpio_cnf

unfoldable pub gpio_output_enable : ℕ → ℕ → ℕ → Regs → Option Regs
gpio_output_enable = assign_pins gpio_oe

unfoldable pub gpio_write : ℕ → ℕ → ℕ → Regs → Option Regs
gpio_write = assign_pins gpio_out

unfoldable pub gpio_read : ℕ → ℕ → Regs → Option ℕ
gpio_read port pins r = do
  off ← entry gpio_in port
  some (if bit_and (readl r (gpio_base + off)) pins == 0 then 0 else 1)
