-- ===== src/I2c.antt =====
-- The I2C library, Library/I2cLib/I2cLib.c. A register changes on its own, so the state is the history
-- of accesses, the latest first, and a read gives any function of it (`Env`). A call that does not
-- return, on fuel that is used up or for a controller past the table, has no value.
pub mod Words
pub mod Sent
mod Tests
use Prim.Native.Nat.{bit_and, bit_or}
use nintendo_switch_pkg.Prelude.{
  ℕ, zero, suc, ◌+◌, ◌-◌, ◌*◌, ◌/◌, ◌%◌, ◌^◌, Option, none, some, List, [], ◌∷◌, ltb, ◌==◌,
  if◌then◌else◌,
}
use nintendo_switch_pkg.Prelude.Bits.{shl32}

-- A read or a write of a register at an address, or `sleep` in microseconds.
pub data Access : Type 0 where
  rd : ℕ → ℕ → Access
  wr : ℕ → ℕ → Access
  pause : ℕ → Access

abbrev pub History : Type 0
History = List Access

abbrev pub Env : Type 0
Env = ℕ → History → ℕ

pub record Step (A : Type 0) : Type 0 where
  pub value : Option A
  pub history : History

abbrev pub Io : Type 0 → Type 0
Io A = History → Step A

-- A call without a value ends what is done after it.
unfoldable pub then_do : {A B : Type 0} → (A → Io B) → Option A → Io B
then_do f none past = record { value = none; history = past }
then_do f (some a) past = f a past

infixl 5 ◌>>=◌ ◌>>◌
unfoldable pub ◌>>=◌ : {A B : Type 0} → Io A → (A → Io B) → Io B
◌>>=◌ m f past = let s = m past in then_do f s.value s.history

abbrev pub ◌>>◌ : {A B : Type 0} → Io A → Io B → Io B
m >> k = m >>= λ _. k

unfoldable pub return : {A : Type 0} → A → Io A
return a past = record { value = some a; history = past }

unfoldable pub stuck : {A : Type 0} → Io A
stuck past = record { value = none; history = past }

-- `base[n] = v`, and `sleep`.
unfoldable pub write : ℕ → ℕ → Io (Unit {0})
write v a past = record { value = some tt; history = wr a (v % 2 ^ 32) ∷ past }

unfoldable pub sleep : ℕ → Io (Unit {0})
sleep us past = record { value = some tt; history = pause us ∷ past }

-- `i2c_addrs[idx]`
unfoldable pub i2c_addr : ℕ → Option ℕ
i2c_addr idx =
    if idx == 0
    then some 0x7000C000
    else if idx == 1
    then some 0x7000C400
    else if idx == 2
    then some 0x7000C500
    else if idx == 3
    then some 0x7000C700
    else if idx == 4
    then some 0x7000D000
    else if idx == 5
    then some 0x7000D100
    else none

unfoldable pub at_base : {A : Type 0} → ℕ → (ℕ → Io A) → Io A
at_base idx f = elim (i2c_addr idx) [ none ↦ stuck | some base ↦ f base ]

-- `memcpy(&tmp, buf, size)` to a word of 0, and back; a buffer is its bytes by their offsets.
unfoldable pub word_of : ℕ → (ℕ → ℕ) → ℕ
word_of zero buf = 0
word_of (suc n) buf = word_of n buf + buf n % 256 * 256 ^ n

unfoldable pub byte_of : ℕ → ℕ → ℕ
byte_of word k = word / 256 ^ k % 256

-- `tmp` of i2c_send_buf_small: the register's number, and then the bytes.
unfoldable pub with_register : ℕ → (ℕ → ℕ) → ℕ → ℕ
with_register y buf zero = y % 256
with_register y buf (suc k) = buf k

module _ (env : Env) where
  unfoldable pub read : ℕ → Io ℕ
  read a past = let v = env a past % 2 ^ 32 in record { value = some v; history = rd a v ∷ past }

  -- The rest of the wait, `n` rounds.
  unfoldable pub wait_rounds : ℕ → ℕ → Io (Unit {0})
  wait_rounds base zero = return tt
  wait_rounds base (suc n) =
      sleep 1
      >> (read (base + 0x8c) >>= λ v.
          let rest = wait_rounds base n in if bit_and v 1 == 0 then return tt else rest)

  unfoldable pub i2c_wait : ℕ → Io (Unit {0})
  i2c_wait base = write 0x25 (base + 0x8c) >> wait_rounds base 20

  -- `while (base[7] & 0x100);`
  unfoldable pub wait_idle : ℕ → ℕ → Io (Unit {0})
  wait_idle zero base = stuck
  wait_idle (suc fuel) base = read (base + 0x1c) >>= λ v.
      let rest = wait_idle fuel base in if bit_and v 0x100 == 0 then return tt else rest

  -- The second half of a packet: 1 where the low four bits of the status are 0.
  unfoldable pub finish_pkt : ℕ → ℕ → Io ℕ
  finish_pkt fuel base =
      i2c_wait base
      >> (read base >>= λ cnfg.
          write (bit_or (bit_and cnfg 0xFFFFFDFF) 0x200) base
          >> wait_idle fuel base
          >> (read (base + 0x1c) >>= λ status. return (if shl32 status 28 == 0 then 1 else 0)))

  unfoldable pub i2c_send_pkt : ℕ → ℕ → ℕ → (ℕ → ℕ) → ℕ → Io ℕ
  i2c_send_pkt fuel idx x buf size =
      let send = at_base idx λ base.
        write (shl32 x 1) (base + 4)
        >> write (word_of size buf) (base + 0xc)
        >> write (bit_or ((2 * size + (2 ^ 32 - 2)) % 2 ^ 32) 0x2800) base
        >> finish_pkt fuel base in
      if ltb 4 size then return 0 else send

  -- The bytes, by their offsets, where i2c_recv_pkt returns 1; it puts the first `size` into the
  -- buffer.
  unfoldable pub keep_bytes : ℕ → ℕ → Io (Option (ℕ → ℕ))
  keep_bytes base ok =
      let kept = read (base + 0xc) >>= λ v. return (some (byte_of v)) in
      if ok == 0 then return none else kept

  unfoldable pub i2c_recv_pkt : ℕ → ℕ → ℕ → ℕ → Io (Option (ℕ → ℕ))
  i2c_recv_pkt fuel idx size x =
      let receive = at_base idx λ base.
        write (bit_or (shl32 x 1) 1) (base + 4)
        >> write (bit_or ((2 * size + (2 ^ 32 - 2)) % 2 ^ 32) 0x2840) base
        >> finish_pkt fuel base
        >>= keep_bytes base in
      if ltb 4 size then return none else receive

  unfoldable pub wait_cleared : ℕ → ℕ → Io (Unit {0})
  wait_cleared base zero = return tt
  wait_cleared base (suc n) =
      sleep 20000
      >> (read (base + 0x68) >>= λ v.
          let rest = wait_cleared base n in if bit_and v 0x800 == 0 then rest else return tt)

  unfoldable pub i2c_init : ℕ → Io (Unit {0})
  i2c_init idx = at_base idx λ base.
      write 0x50001 (base + 0x6c)
      >> write 0x90003 (base + 0x84)
      >> i2c_wait base
      >> wait_cleared base 10
      >> read (base + 0x88)
      >> (read (base + 0x68) >>= λ v. write v (base + 0x68))

  unfoldable pub i2c_send_buf_small : ℕ → ℕ → ℕ → ℕ → (ℕ → ℕ) → ℕ → Io ℕ
  i2c_send_buf_small fuel idx x y buf size =
      let send = i2c_send_pkt fuel idx x (with_register y buf) (size + 1) in
      if ltb 3 size then return 0 else send

  unfoldable pub i2c_recv_buf_small : ℕ → ℕ → ℕ → ℕ → ℕ → Io (Option (ℕ → ℕ))
  i2c_recv_buf_small fuel size idx x y =
      i2c_send_pkt fuel idx x (λ k. y / 256 ^ k % 256) 1 >>= λ res.
      let receive = i2c_recv_pkt fuel idx size x in if res == 0 then return none else receive

  unfoldable pub i2c_send_byte : ℕ → ℕ → ℕ → ℕ → ℕ → Io ℕ
  i2c_send_byte fuel idx x y b = i2c_send_buf_small fuel idx x y (λ k. b) 1

  -- The byte is not set where the transfer fails: `garbage` is what the stack held.
  unfoldable pub i2c_recv_byte : ℕ → ℕ → ℕ → ℕ → ℕ → Io ℕ
  i2c_recv_byte garbage fuel idx x y = i2c_recv_buf_small fuel 1 idx x y >>= λ got.
      return (elim got [ none ↦ garbage | some bytes ↦ bytes 0 ])
