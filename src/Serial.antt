-- ===== src/Serial.antt =====
-- The serial port, Library/Tegra8250SerialPortLib/Tegra8250SerialPortLib.c: UARTB, whose registers change on
-- their own, so that the state is a history of accesses as in I2c. A loop without a bound takes fuel.
pub mod Paced
mod Tests
use Prim.Native.Nat.{bit_and}
use nintendo_switch_pkg.Prelude.{
  ℕ, zero, suc, ◌+◌, ◌/◌, ◌%◌, ◌^◌, Bool, true, false, not, Option, none, some, List, [], ◌∷◌, ◌==◌,
  if◌then◌else◌,
}
use nintendo_switch_pkg.I2c.{Env, Io, ◌>>=◌, ◌>>◌, return, stuck, write, read}

-- CONFIG_CONSOLE_SERIAL_TEGRA210_UART_ADDRESS; `thr`, `rbr` and `dll` are one register, and `ier` and
-- `dlm`.
abbrev pub thr : ℕ
thr = 0x70006040

abbrev pub ier : ℕ
ier = 0x70006044

abbrev pub fcr : ℕ
fcr = 0x70006048

abbrev pub lcr : ℕ
lcr = 0x7000604c

abbrev pub mcr : ℕ
mcr = 0x70006050

abbrev pub lsr : ℕ
lsr = 0x70006054

-- RETURN_SUCCESS, or RETURN_UNSUPPORTED.
pub data ReturnStatus : Type 0 where
  success : ReturnStatus
  unsupported : ReturnStatus

unfoldable pub write8 : ℕ → ℕ → Io (Unit {0})
write8 a v = write (v % 2 ^ 8) a

module _ (env : Env) where
  unfoldable pub read8 : ℕ → Io ℕ
  read8 a = read env a >>= λ v. return (v % 2 ^ 8)

  -- `while (!(read8(&uart_ptr->lsr) & mask));`
  unfoldable pub wait_lsr : ℕ → ℕ → Io (Unit {0})
  wait_lsr mask zero = stuck
  wait_lsr mask (suc fuel) = read8 lsr >>= λ v.
      let rest = wait_lsr mask fuel in if bit_and v mask == 0 then rest else return tt

  -- UART8250_LSR_TEMT is bit 6.
  unfoldable pub tegra210_uart_tx_flush : ℕ → Io (Unit {0})
  tegra210_uart_tx_flush = wait_lsr (2 ^ 6)

  -- The divisor is 221.
  unfoldable pub tegra210_uart_init : ℕ → Io (Unit {0})
  tegra210_uart_init fuel =
      tegra210_uart_tx_flush fuel
      >> write8 ier 0
      >> write8 mcr 3
      >> write8 lcr 0x83
      >> write8 thr (bit_and 221 0xff)
      >> write8 ier (bit_and (221 / 2 ^ 8) 0xff)
      >> write8 lcr 3
      >> write8 fcr 7

  -- UART8250_LSR_THRE is bit 5.
  unfoldable pub tegra210_uart_tx_byte : ℕ → ℕ → Io (Unit {0})
  tegra210_uart_tx_byte fuel byte = wait_lsr (2 ^ 5) fuel >> write8 thr byte

  unfoldable pub tegra210_uart_tst_byte : Io Bool
  tegra210_uart_tst_byte = read8 lsr >>= λ v. return (bit_and v 1 == 1)

  unfoldable pub tegra210_uart_rx_byte : Io ℕ
  tegra210_uart_rx_byte = tegra210_uart_tst_byte >>= λ ready. if ready then read8 thr else return 0

  unfoldable pub serial_port_initialize : ℕ → Io ReturnStatus
  serial_port_initialize fuel = tegra210_uart_init fuel >> return success

  -- The bytes of the buffer from `at` on, `n` of them; the fuel is that of each wait.
  unfoldable pub send_bytes : ℕ → (ℕ → ℕ) → ℕ → ℕ → Io (Unit {0})
  send_bytes fuel buffer at zero = return tt
  send_bytes fuel buffer at (suc n) =
      tegra210_uart_tx_byte fuel (buffer at) >> send_bytes fuel buffer (at + 1) n

  unfoldable pub serial_port_write : ℕ → (ℕ → ℕ) → ℕ → Io ℕ
  serial_port_write fuel buffer number_of_bytes =
      send_bytes fuel buffer 0 number_of_bytes >> return number_of_bytes

  -- `while (tegra210_uart_tst_byte() == 0)`
  unfoldable pub wait_byte : ℕ → Io (Unit {0})
  wait_byte zero = stuck
  wait_byte (suc fuel) = tegra210_uart_tst_byte >>= λ ready.
      let rest = wait_byte fuel in if ready then return tt else rest

  -- The bytes that the loop puts into the buffer.
  unfoldable pub receive_bytes : ℕ → ℕ → Io (List ℕ)
  receive_bytes fuel zero = return []
  receive_bytes fuel (suc n) =
      wait_byte fuel >> (read8 thr >>= λ b. receive_bytes fuel n >>= λ bs. return (b ∷ bs))

  -- The result is the number of the bytes; a buffer that is NULL takes none.
  unfoldable pub serial_port_read : ℕ → Bool → ℕ → Io (List ℕ)
  serial_port_read fuel is_null number_of_bytes =
      if is_null then return [] else receive_bytes fuel number_of_bytes

  unfoldable pub serial_port_poll : Io Bool
  serial_port_poll = tegra210_uart_tst_byte >>= λ ready. if ready then return true else return false

  unfoldable pub serial_port_flush : ℕ → Io ℕ
  serial_port_flush fuel = tegra210_uart_tx_flush fuel >> return 0

unfoldable pub serial_port_set_control : ℕ → ReturnStatus
serial_port_set_control control = unsupported

-- GetControl and SetAttributes.
unfoldable pub serial_port_get_control : ReturnStatus
serial_port_get_control = unsupported
