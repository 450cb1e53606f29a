-- ===== src/Gpio/Tests.antt =====
-- Runs of the two GPIO drivers on concrete registers.
use nintendo_switch_pkg.Prelude.{◌-◌, ◌^◌, ◌≡◌, refl, some, List, [], ◌∷◌, arith, inl, inr}
use nintendo_switch_pkg.Mmio.{Regs}
use nintendo_switch_pkg.Gpio.{
  GpioConfig, gpio_config_table, dir_out_array, set_config, set_direction, set_level, gpio_config,
  gpio_output_enable, gpio_write,
}
use nintendo_switch_pkg.Gpio.Pins.{pin_bit, asked_by, pin_bit-gpio_config_table}
use nintendo_switch_pkg.Gpio.Agree.{GpioLib-Gpio}

abbrev ones : Regs
ones a = 2 ^ 32 - 1

-- Pin 13 an input, pin 200 an output at 0.
abbrev two_pins : List GpioConfig
two_pins = record { gpio = 13; init = 0 } ∷ record { gpio = 200; init = 1 } ∷ []

pin_bit-gpio_config_table_example :
    pin_bit dir_out_array 13 (gpio_config_table two_pins ones)
    ≡ asked_by two_pins dir_out_array 13 (pin_bit dir_out_array 13 ones)
pin_bit-gpio_config_table_example =
    pin_bit-gpio_config_table two_pins dir_out_array 13 ones (omega arith, (omega arith, tt))
      (inr (inl refl)) (omega arith)

GpioLib-Gpio_example :
    (gpio_config 1 (2 ^ 5) 0 ones ≡ some (set_config 13 0 ones))
    × (gpio_output_enable 1 (2 ^ 5) 0 ones ≡ some (set_direction 13 0 ones))
    × (gpio_write 1 (2 ^ 5) 0 ones ≡ some (set_level 13 0 ones))
GpioLib-Gpio_example = GpioLib-Gpio 1 5 0 ones (omega arith) (omega arith)
