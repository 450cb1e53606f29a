-- ===== src/I2c/Tests.antt =====
-- Runs of the I2C library on a controller that is never busy and answers 0.
use nintendo_switch_pkg.Prelude.{
  ℕ, ◌+◌, ◌-◌, ◌%◌, ◌^◌, ◌≡◌, refl, some, [], ◌∷◌, arith, ◌==◌, if◌then◌else◌,
}
use nintendo_switch_pkg.Prelude.Bits.{shl32}
use nintendo_switch_pkg.I2c.{
  rd, wr, History, Env, ◌>>=◌, then_do, return, write, sleep, i2c_addr, at_base, byte_of, read,
  wait_rounds, i2c_wait, wait_idle, finish_pkt, i2c_send_pkt, i2c_recv_buf_small,
  i2c_send_buf_small, i2c_recv_byte,
}
use nintendo_switch_pkg.I2c.Sent.{
  writes, latest, result_of, Idles, go_word, size_word, i2c_send_buf_small-writes,
}

abbrev quiet : Env
quiet a past = 0

quiet-Idles : Idles quiet 0x7000D000 1
unfolding wait_idle read ◌>>=◌ then_do return
quiet-Idles past = refl

-- Two bytes to register 0x16 of the device 0x3c, behind the fifth controller.
abbrev two_bytes : ℕ → ℕ
two_bytes k = if k == 0 then 0x2a else 0x80

i2c_send_buf_small-writes_example :
    (cnfg : ℕ) × (status : ℕ) × (word : ℕ) × (h : History) × (i2c_send_buf_small quiet 1 4 0x3c 0x16
        two_bytes 2 []
      ≡ record { value = some (result_of status); history = rd (0x7000D000 + 0x1c) status ∷ h })
    × (latest 0x7000D000 h ≡ some cnfg)
    × (writes h
        ≡ wr 0x7000D000 (go_word quiet 0x7000D000 cnfg)
          ∷ wr (0x7000D000 + 0x8c) 0x25
          ∷ wr 0x7000D000 (size_word 2)
          ∷ wr (0x7000D000 + 0xc) (word % 2 ^ 32)
          ∷ wr (0x7000D000 + 4) (shl32 0x3c 1 % 2 ^ 32)
          ∷ [])
    × (byte_of word 2 ≡ (if 2 == 0 then 0x16 else two_bytes (2 - 1)) % 256)
unfolding i2c_addr
i2c_send_buf_small-writes_example =
    i2c_send_buf_small-writes quiet 1 4 0x3c 0x16 2 0x7000D000 2 two_bytes [] refl quiet-Idles
      (omega arith) (omega arith)

-- A failed transfer gives the byte that was on the stack.
abbrev failing : Env
failing a past = if a == 0x7000D01c then 1 else 0

stack_byte : (i2c_recv_byte failing 77 1 4 0x3c 0x16 []).value ≡ some 77
unfolding i2c_recv_byte i2c_recv_buf_small i2c_send_pkt at_base i2c_addr finish_pkt i2c_wait
    wait_rounds wait_idle read write sleep ◌>>=◌ then_do return shl32
stack_byte = refl
