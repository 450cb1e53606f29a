-- ===== src/Serial/Tests.antt =====
-- Runs of the serial port whose transmitter is always empty.
use nintendo_switch_pkg.Prelude.{ℕ, ◌+◌, ◌≡◌, refl, some, [], ◌∷◌}
use nintendo_switch_pkg.I2c.{wr, History, Env, ◌>>=◌, then_do, return, read, write}
use nintendo_switch_pkg.I2c.Sent.{writes}
use nintendo_switch_pkg.Serial.{
  thr, ier, fcr, lcr, mcr, wait_lsr, read8, write8, serial_port_write, tegra210_uart_init,
  tegra210_uart_tx_flush,
}
use nintendo_switch_pkg.Serial.Paced.{sent, IsPaced, Empties, serial_port_write-sent}

abbrev empty : Env
empty = λ a past. 0x60

abbrev letters : ℕ → ℕ
letters = λ k. 0x41 + k

empty-Empties : Empties empty 1
unfolding wait_lsr read8 read ◌>>=◌ then_do return
empty-Empties past = refl

serial_port_write-sent_example :
    (h : History) × (serial_port_write empty 1 letters 2 []
      ≡ record { value = some 2; history = h })
    × (writes h ≡ sent letters 0 2 [])
    × IsPaced h
serial_port_write-sent_example = serial_port_write-sent empty 1 letters 2 empty-Empties

two_letters : sent letters 0 2 [] ≡ wr thr 0x42 ∷ wr thr 0x41 ∷ []
two_letters = refl

-- The divisor of the baud rate is written while the latches show.
start_writes :
    writes (tegra210_uart_init empty 1 []).history
    ≡ wr fcr 7 ∷ wr lcr 3 ∷ wr ier 0 ∷ wr thr 221 ∷ wr lcr 0x83 ∷ wr mcr 3 ∷ wr ier 0 ∷ []
unfolding tegra210_uart_init tegra210_uart_tx_flush wait_lsr read8 write8 read write ◌>>=◌ then_do
    return
start_writes = refl
