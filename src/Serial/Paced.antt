-- ===== src/Serial/Paced.antt =====
-- What SerialPortWrite and SerialPortRead of Library/Tegra8250SerialPortLib/Tegra8250SerialPortLib.c do to
-- the UART.
use Prim.Native.Nat.{bit_and}
use nintendo_switch_pkg.Prelude.{
  ℕ, zero, suc, ◌+◌, ◌%◌, ◌^◌, ◌≡◌, refl, inl, inr, Bool, true, false, ◌&&◌, some, [], ◌∷◌, arith,
  ◌==◌, Bool-cases, ◌∙◌, ap,
}
use nintendo_switch_pkg.Prelude.Bits.{test_bit, bit_and-pow_eq_zero, test_bit-low}
use nintendo_switch_pkg.I2c.{
  rd, wr, pause, History, Env, ◌>>=◌, return, stuck, write, read, then_do,
}
use nintendo_switch_pkg.I2c.Sent.{writes}
use nintendo_switch_pkg.Serial.{
  thr, lsr, write8, read8, wait_lsr, tegra210_uart_tx_byte, send_bytes, serial_port_write,
}

-- The writes of the bytes of a buffer from `at` on, after those of before; the last byte comes first.
abbrev pub sent : (ℕ → ℕ) → ℕ → ℕ → History → History
sent buffer at zero past = past
sent buffer at (suc n) past = sent buffer (at + 1) n (wr thr (buffer at % 2 ^ 8) ∷ past)

-- An access just before a byte is sent: a reading of the line status with bit 5, that the transmitter is
-- empty.
abbrev pub is_empty : History → Bool
is_empty [] = false
is_empty (rd a v ∷ past) = (a == lsr) && test_bit v 5
is_empty (wr a v ∷ past) = false
is_empty (pause us ∷ past) = false

-- Each write comes just after such a reading.
abbrev pub IsPaced : History → Type 0
IsPaced [] = Unit {0}
IsPaced (rd a v ∷ past) = IsPaced past
IsPaced (pause us ∷ past) = IsPaced past
IsPaced (wr a v ∷ past) = (is_empty past ≡ true) × IsPaced past

module _ (env : Env) where
  -- The transmitter is empty within `fuel` readings of the line status.
  abbrev pub Empties : ℕ → Type 0
  Empties fuel = (past : History) → (wait_lsr env (2 ^ 5) fuel past).value ≡ some tt

  wait_lsr-is_empty :
      (fuel : ℕ) (past : History)
      → (wait_lsr env (2 ^ 5) fuel past).value ≡ some tt
      → let h = (wait_lsr env (2 ^ 5) fuel past).history in
        (is_empty h ≡ true) × (writes h ≡ writes past) × (IsPaced past → IsPaced h)
  unfolding wait_lsr read8 read ◌>>=◌ then_do return stuck
  wait_lsr-is_empty zero past e = cc
  wait_lsr-is_empty (suc fuel) past e =
      let v : ℕ = env lsr past % 2 ^ 32 in
      let next : History = rd lsr v ∷ past in
      elim (Bool-cases (bit_and (v % 2 ^ 8) (2 ^ 5) == 0)) [
        | inl busy ↦ rw busy (wait_lsr-is_empty fuel next (rw busy at e))
        | inr ready ↦
            rw ready
              (ground (arith, bit_and-pow_eq_zero 5 (v % 2 ^ 8), test_bit-low 8 v 5), refl, λ p. p)
      ]

  tx_byte-IsPaced :
      (fuel byte : ℕ) (past : History)
      → Empties fuel
      → (h : History) × (tegra210_uart_tx_byte env fuel byte past
          ≡ record { value = some tt; history = wr thr (byte % 2 ^ 8) ∷ h })
        × (writes h ≡ writes past)
        × (IsPaced past → IsPaced (wr thr (byte % 2 ^ 8) ∷ h))
  unfolding tegra210_uart_tx_byte write8 write ◌>>=◌ then_do
  tx_byte-IsPaced fuel byte past empties =
      let (ready, same, paced) = wait_lsr-is_empty fuel past (empties past) in
      let byte_fits : byte % 2 ^ 8 % 2 ^ 32 ≡ byte % 2 ^ 8 = omega arith in
      (
        (wait_lsr env (2 ^ 5) fuel past).history,
        rw (empties past, byte_fits) refl,
        same,
        λ p. (ready, paced p),
      )

  send_bytes-sent :
      (fuel : ℕ) (buffer : ℕ → ℕ) (at n : ℕ) (past : History)
      → Empties fuel
      → (h : History) × (send_bytes env fuel buffer at n past
          ≡ record { value = some tt; history = h })
        × (writes h ≡ sent buffer at n (writes past))
        × (IsPaced past → IsPaced h)
  unfolding send_bytes ◌>>=◌ then_do return
  send_bytes-sent fuel buffer at zero past empties = (past, refl, refl, λ p. p)
  send_bytes-sent fuel buffer at (suc n) past empties =
      let (h, e, same, paced) = tx_byte-IsPaced fuel (buffer at) past empties in
      let (h', e', same', paced') =
        send_bytes-sent fuel buffer (at + 1) n (wr thr (buffer at % 2 ^ 8) ∷ h) empties in
      (
        h',
        rw (e, e') refl,
        same' ∙ ap (λ l. sent buffer (at + 1) n (wr thr (buffer at % 2 ^ 8) ∷ l)) same,
        λ p. paced' (paced p),
      )

  -- Where the transmitter is empty within `fuel` readings of the line status, whenever it is waited for:
  -- SerialPortWrite returns the number of bytes it was given; it writes those bytes of the buffer, in
  -- their order and nothing else; and each comes just after a reading that says that the transmitter is
  -- empty.
  pub serial_port_write-sent :
      (fuel : ℕ) (buffer : ℕ → ℕ) (number_of_bytes : ℕ)
      → Empties fuel
      → (h : History) × (serial_port_write env fuel buffer number_of_bytes []
          ≡ record { value = some number_of_bytes; history = h })
        × (writes h ≡ sent buffer 0 number_of_bytes [])
        × IsPaced h
  unfolding serial_port_write ◌>>=◌ then_do return
  serial_port_write-sent fuel buffer number_of_bytes empties =
      let (h, e, same, paced) = send_bytes-sent fuel buffer 0 number_of_bytes [] empties in
      (h, rw e refl, same, paced tt)
