-- ===== src/SdMmc/Controller/Response.antt =====
-- The response of 136 bits, as Drivers/SdMmcDxe/SdMmc.c reads it: the controller holds it without its
-- last byte.
use nintendo_switch_pkg.Prelude.{ℕ, ◌+◌, ◌-◌, ◌*◌, ◌/◌, ◌%◌, ◌^◌, ◌<◌, ◌≡◌, List, [], ◌∷◌, arith}
use Prim.Native.Nat.{bit_or}
use nintendo_switch_pkg.Prelude.Bits.{shl32}
use nintendo_switch_pkg.Prelude.Bits.Bound.{bit_or-apart}
use nintendo_switch_pkg.SdMmc.Controller.{History, Env, ◌>>=◌, return, rspreg0, rspreg3, read}
use nintendo_switch_pkg.SdMmc.Controller.Transfer.{long_word, long_response}

-- The response registers hold these words, and a byte of a register is the byte of its word.
pub record Holds (env : Env) (w_0 w_1 w_2 w_3 : ℕ) : Type 0 where
  pub word_0 : (past : History) → env.reg 4 rspreg0 past ≡ w_0
  pub word_1 : (past : History) → env.reg 4 (rspreg0 + 4) past ≡ w_1
  pub word_2 : (past : History) → env.reg 4 (rspreg0 + 8) past ≡ w_2
  pub word_3 : (past : History) → env.reg 4 rspreg3 past ≡ w_3
  pub byte_0 : (past : History) → env.reg 1 (rspreg0 + 3) past ≡ w_0 / 2 ^ 24
  pub byte_1 : (past : History) → env.reg 1 (rspreg0 + 7) past ≡ w_1 / 2 ^ 24
  pub byte_2 : (past : History) → env.reg 1 (rspreg0 + 11) past ≡ w_2 / 2 ^ 24

-- Words of 32 bits as one number, the first the highest.
abbrev pub number : ℕ → List ℕ → ℕ
number acc [] = acc
number acc (w ∷ words) = number (acc * 2 ^ 32 + w) words

shifted : (w low : ℕ) → low < 2 ^ 8 → bit_or (shl32 w 8) low ≡ w % 2 ^ 24 * 2 ^ 8 + low
unfolding shl32
shifted w low small =
    let e : w * 2 ^ 8 % 2 ^ 32 ≡ w % 2 ^ 24 * 2 ^ 8 = omega arith in
    rw e (bit_or-apart 8 (w % 2 ^ 24) low small)

module _ (env : Env) where
  long_word-value :
      (offset w low : ℕ) (past : History)
      → ((p : History) → env.reg 4 offset p ≡ w)
      → ((p : History) → env.reg 1 (offset - 1) p ≡ low / 2 ^ 24)
      → w < 2 ^ 32
      → low < 2 ^ 32
      → (long_word env offset past).value ≡ w % 2 ^ 24 * 2 ^ 8 + low / 2 ^ 24
  unfolding long_word ◌>>=◌ return read
  long_word-value offset w low past hw hl w_fits low_fits =
      let e : w % 2 ^ 32 ≡ w = omega arith in
      let b : low / 2 ^ 24 % 2 ^ 8 ≡ low / 2 ^ 24 = omega arith in
      rw (hw, hl, e, b) (shifted w (low / 2 ^ 24) (omega arith))

  -- The four words of the response, read as one number, are the 120 bits that the controller holds,
  -- followed by a byte of zeros in the place of the last byte of the response.
  pub long_response-number :
      (w_0 w_1 w_2 w_3 : ℕ) (past : History)
      → Holds env w_0 w_1 w_2 w_3
      → w_0 < 2 ^ 32
      → w_1 < 2 ^ 32
      → w_2 < 2 ^ 32
      → w_3 < 2 ^ 24
      → number 0 (long_response env past).value ≡ number 0 (w_3 ∷ w_2 ∷ w_1 ∷ w_0 ∷ []) * 2 ^ 8
  unfolding long_response ◌>>=◌ return read shl32
  long_response-number w_0 w_1 w_2 w_3 past r b_0 b_1 b_2 b_3 =
      let last : w_0 % 2 ^ 32 ≡ w_0 = omega arith in
      rw
        (
          long_word-value rspreg3 w_3 w_2 _ r.word_3 r.byte_2 (omega arith) b_2,
          long_word-value (rspreg3 - 4) w_2 w_1 _ r.word_2 r.byte_1 b_2 b_1,
          long_word-value (rspreg3 - 8) w_1 w_0 _ r.word_1 r.byte_0 b_1 b_0,
          r.word_0,
          last,
        )
        (omega arith)
