-- ===== src/I2c/Sent.antt =====
-- What the I2C library, Library/I2cLib/I2cLib.c, writes to a controller for a packet.
use Prim.Native.Nat.{bit_and, bit_or}
use nintendo_switch_pkg.Prelude.{
  ℕ, zero, suc, ◌+◌, ◌-◌, ◌*◌, ◌%◌, ◌^◌, ◌≤◌, ◌<◌, ◌≡◌, refl, inl, inr, true, false, Option, none,
  some, [], ◌∷◌, arith, ltb, ◌==◌, if◌then◌else◌, Bool-cases, ◌∙◌, ap,
}
use nintendo_switch_pkg.Prelude.Bits.{shl32}
use nintendo_switch_pkg.I2c.{
  rd, wr, pause, History, Env, Io, then_do, ◌>>=◌, return, stuck, write, sleep, i2c_addr, at_base,
  word_of, byte_of, with_register, read, wait_rounds, i2c_wait, wait_idle, finish_pkt, i2c_send_pkt,
  i2c_send_buf_small,
}
use nintendo_switch_pkg.I2c.Words.{byte_of-word_of}

-- The writes among the accesses.
abbrev pub writes : History → History
writes [] = []
writes (rd a v ∷ past) = writes past
writes (pause us ∷ past) = writes past
writes (wr a v ∷ past) = wr a v ∷ writes past

-- The value of the latest reading of a register.
abbrev pub latest : ℕ → History → Option ℕ
latest a [] = none
latest a (rd b v ∷ past) = if b == a then some v else latest a past
latest a (wr b v ∷ past) = latest a past
latest a (pause us ∷ past) = latest a past

-- 1 where the low four bits of a status are 0, else 0.
abbrev pub result_of : ℕ → ℕ
result_of status = if status % 2 ^ 4 == 0 then 1 else 0

result_of-shl32 : (status : ℕ) → (if shl32 status 28 == 0 then 1 else 0) ≡ result_of status
unfolding shl32
result_of-shl32 status = ground arith

-- The size of a packet with the register's number before its bytes, less 1, and the send mode.
abbrev pub size_word : ℕ → ℕ
size_word size = bit_or ((2 * (size + 1) + (2 ^ 32 - 2)) % 2 ^ 32) 0x2800 % 2 ^ 32

module _ (env : Env) (base : ℕ) where
  -- The controller is idle within `fuel` readings of its status.
  abbrev pub Idles : ℕ → Type 0
  Idles fuel = (past : History) → (wait_idle env fuel base past).value ≡ some tt

  wait_rounds-quiet :
      (n : ℕ) (past : History)
      → (h : History) × (wait_rounds env base n past ≡ record { value = some tt; history = h })
        × (writes h ≡ writes past)
  unfolding wait_rounds ◌>>=◌ then_do return sleep read
  wait_rounds-quiet zero past = (past, refl, refl)
  wait_rounds-quiet (suc n) past =
      let v : ℕ = env (base + 0x8c) (pause 1 ∷ past) % 2 ^ 32 in
      let next : History = rd (base + 0x8c) v ∷ pause 1 ∷ past in
      elim (Bool-cases (bit_and v 1 == 0)) [
        | inl over ↦ (next, rw over refl, refl)
        | inr busy ↦ let (h, e, q) = wait_rounds-quiet n next in (h, rw busy e, q)
      ]

  wait_idle-quiet :
      (fuel : ℕ) (past : History) → writes (wait_idle env fuel base past).history ≡ writes past
  unfolding wait_idle ◌>>=◌ then_do return read stuck
  wait_idle-quiet zero past = refl
  wait_idle-quiet (suc fuel) past =
      let v : ℕ = env (base + 0x1c) past % 2 ^ 32 in
      elim (Bool-cases (bit_and v 0x100 == 0)) [
        | inl over ↦ rw over refl
        | inr busy ↦ rw busy (wait_idle-quiet fuel (rd (base + 0x1c) v ∷ past))
      ]

  wait_idle-latest :
      (fuel : ℕ) (past : History)
      → latest base (wait_idle env fuel base past).history ≡ latest base past
  unfolding wait_idle ◌>>=◌ then_do return read stuck
  wait_idle-latest zero past = refl
  wait_idle-latest (suc fuel) past =
      let v : ℕ = env (base + 0x1c) past % 2 ^ 32 in
      let next : History = rd (base + 0x1c) v ∷ past in
      let other : (base + 0x1c == base) ≡ false = ground arith in
      let same : latest base next ≡ latest base past = rw other refl in
      elim (Bool-cases (bit_and v 0x100 == 0)) [
        | inl over ↦ rw over same
        | inr busy ↦ rw busy (wait_idle-latest fuel next ∙ same)
      ]

  -- The configuration read last is written with one bit replaced.
  abbrev pub go_word : ℕ → ℕ
  go_word cnfg = bit_or (bit_and cnfg 0xFFFFFDFF) 0x200 % 2 ^ 32

  -- `h` is the history up to the last access, the reading of `status`.
  finish_pkt-writes :
      (fuel : ℕ) (past : History)
      → Idles fuel
      → (cnfg : ℕ) × (status : ℕ) × (h : History) × (finish_pkt env fuel base past
          ≡ record { value = some (result_of status); history = rd (base + 0x1c) status ∷ h })
        × (latest base h ≡ some cnfg)
        × (writes h ≡ wr base (go_word cnfg) ∷ wr (base + 0x8c) 0x25 ∷ writes past)
  unfolding finish_pkt i2c_wait ◌>>=◌ then_do return read write
  finish_pkt-writes fuel past idles =
      let (h_1, e_1, q_1) = wait_rounds-quiet 20 (wr (base + 0x8c) (0x25 % 2 ^ 32) ∷ past) in
      let cnfg : ℕ = env base h_1 % 2 ^ 32 in
      let h_2 : History = wr base (go_word cnfg) ∷ rd base cnfg ∷ h_1 in
      let h_3 : History = (wait_idle env fuel base h_2).history in
      let status : ℕ = env (base + 0x1c) h_3 % 2 ^ 32 in
      let self : (base == base) ≡ true = ground arith in
      let last : latest base h_2 ≡ some cnfg = rw self refl in
      (
        cnfg,
        status,
        h_3,
        rw (e_1, idles h_2, result_of-shl32 status) refl,
        wait_idle-latest fuel h_2 ∙ last,
        wait_idle-quiet fuel h_2 ∙ ap (λ l. wr base (go_word cnfg) ∷ l) q_1,
      )

at_base_known :
    {A : Type 0} (idx base : ℕ) → i2c_addr idx ≡ some base → (f : ℕ → Io A) → at_base idx f ≡ f base
unfolding at_base
at_base_known idx base at f = rw (at_base, at) refl

send_pkt_at :
    (env : Env) (fuel idx x size base : ℕ) (buf : ℕ → ℕ) (past : History)
    → i2c_addr idx ≡ some base
    → size ≤ 4
    → i2c_send_pkt env fuel idx x buf size past
      ≡ finish_pkt env fuel base (
          wr base (bit_or ((2 * size + (2 ^ 32 - 2)) % 2 ^ 32) 0x2800 % 2 ^ 32)
          ∷ wr (base + 0xc) (word_of size buf % 2 ^ 32)
          ∷ wr (base + 4) (shl32 x 1 % 2 ^ 32)
          ∷ past)
unfolding i2c_send_pkt at_base ◌>>=◌ then_do write
send_pkt_at env fuel idx x size base buf past at small =
    let fits : ltb 4 size ≡ false = ground arith in rw (fits, at_base_known idx base at _) refl

with_register_bytes :
    (y k : ℕ) (buf : ℕ → ℕ)
    → with_register y buf k % 256 ≡ (if k == 0 then y else buf (k - 1)) % 256
unfolding with_register
with_register_bytes y zero buf = omega arith
with_register_bytes y (suc k) buf = ground arith

-- For one of the six controllers, idle within `fuel` readings of its status, and at most three bytes:
-- i2c_send_buf_small returns; it writes the address of the device, the data word, the size, the wait for
-- the configuration and the start, in this order and nothing else; the start is the latest reading of that
-- register with one bit replaced; the data word holds the number of the register and then the bytes; and
-- the last access reads the status, and the result is 1 where the low four bits read are 0, else 0.
pub i2c_send_buf_small-writes :
    (env : Env) (fuel idx x y size base k : ℕ) (buf : ℕ → ℕ) (past : History)
    → i2c_addr idx ≡ some base
    → Idles env base fuel
    → size ≤ 3
    → k < size + 1
    → (cnfg : ℕ) × (status : ℕ) × (word : ℕ) × (h : History) × (i2c_send_buf_small env fuel idx x y
          buf size past
        ≡ record { value = some (result_of status); history = rd (base + 0x1c) status ∷ h })
      × (latest base h ≡ some cnfg)
      × (writes h
          ≡ wr base (go_word env base cnfg)
            ∷ wr (base + 0x8c) 0x25
            ∷ wr base (size_word size)
            ∷ wr (base + 0xc) (word % 2 ^ 32)
            ∷ wr (base + 4) (shl32 x 1 % 2 ^ 32)
            ∷ writes past)
      × (byte_of word k ≡ (if k == 0 then y else buf (k - 1)) % 256)
unfolding i2c_send_buf_small
i2c_send_buf_small-writes env fuel idx x y size base k buf past at idles small below =
    let word : ℕ = word_of (size + 1) (with_register y buf) in
    let large : ltb 3 size ≡ false = ground arith in
    let before : History =
      wr base (size_word size)
      ∷ wr (base + 0xc) (word % 2 ^ 32)
      ∷ wr (base + 4) (shl32 x 1 % 2 ^ 32)
      ∷ past in
    let (cnfg, status, h, e, last, q) = finish_pkt-writes env base fuel before idles in
    (
      cnfg,
      status,
      word,
      h,
      rw large (
          send_pkt_at env fuel idx x (size + 1) base (with_register y buf) past at (omega arith)
          ∙ e),
      last,
      q,
      byte_of-word_of (size + 1) k (with_register y buf) (omega arith) below
          ∙ with_register_bytes y k buf,
    )
