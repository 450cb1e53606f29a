-- ===== src/I2c/Words.antt =====
-- The packing of bytes into a data register, Library/I2cLib/I2cLib.c.
use nintendo_switch_pkg.Prelude.{ℕ, zero, suc, ◌%◌, ◌≤◌, ◌<◌, ◌≡◌, arith}
use nintendo_switch_pkg.I2c.{word_of, byte_of}

-- Each byte of a word of up to four bytes is the one that was put there.
pub byte_of-word_of :
    (size k : ℕ) (buf : ℕ → ℕ) → size ≤ 4 → k < size → byte_of (word_of size buf) k ≡ buf k % 256
unfolding word_of byte_of
byte_of-word_of zero k buf le lt = absurd (omega arith)
byte_of-word_of (suc zero) zero buf le lt = omega arith
byte_of-word_of (suc zero) (suc k) buf le lt = absurd (omega arith)
byte_of-word_of (suc (suc zero)) zero buf le lt = omega arith
byte_of-word_of (suc (suc zero)) (suc zero) buf le lt = omega arith
byte_of-word_of (suc (suc zero)) (suc (suc k)) buf le lt = absurd (omega arith)
byte_of-word_of (suc (suc (suc zero))) zero buf le lt = omega arith
byte_of-word_of (suc (suc (suc zero))) (suc zero) buf le lt = omega arith
byte_of-word_of (suc (suc (suc zero))) (suc (suc zero)) buf le lt = omega arith
byte_of-word_of (suc (suc (suc zero))) (suc (suc (suc k))) buf le lt = absurd (omega arith)
byte_of-word_of (suc (suc (suc (suc zero)))) zero buf le lt = omega arith
byte_of-word_of (suc (suc (suc (suc zero)))) (suc zero) buf le lt = omega arith
byte_of-word_of (suc (suc (suc (suc zero)))) (suc (suc zero)) buf le lt = omega arith
byte_of-word_of (suc (suc (suc (suc zero)))) (suc (suc (suc zero))) buf le lt = omega arith
byte_of-word_of (suc (suc (suc (suc zero)))) (suc (suc (suc (suc k)))) buf le lt =
    absurd (omega arith)
byte_of-word_of (suc (suc (suc (suc (suc size))))) k buf le lt = absurd (omega arith)
