-- ===== src/Mmio.antt =====
-- Memory-mapped registers: Include/Foundation/Types.h (`readl`, `writel`) and
-- Include/Shim/UBootIo.h (`clrbits_le32`, `setbits_le32`, `clrsetbits_le32`).
-- A register block is a map from addresses to 32-bit words that keeps what was last written.
pub mod Field
pub mod Update
use Prim.Native.Nat.{bit_and, bit_or}
use nintendo_switch_pkg.Prelude.{ℕ, ◌%◌, ◌^◌, ◌≡◌, ◌==◌, arith, if◌then◌else◌, refl, true, false}
use nintendo_switch_pkg.Prelude.{◌≢◌, Option, none, some}
use nintendo_switch_pkg.Prelude.Bits.{not32}

abbrev pub Regs : Type 0
Regs = ℕ → ℕ

-- The registers of a call that returns.
abbrev pub from : Option Regs → Regs
from none = λ a. 0
from (some r) = r

unfoldable pub readl : Regs → ℕ → ℕ
readl r a = r a

-- `writel(v, a)` casts the value to 32 bits.
unfoldable pub writel : ℕ → ℕ → Regs → Regs
writel v a r b = if a == b then v % 2 ^ 32 else r b

unfoldable pub clrbits_le32 : ℕ → ℕ → Regs → Regs
clrbits_le32 a clear r = writel (bit_and (readl r a) (not32 clear)) a r

unfoldable pub setbits_le32 : ℕ → ℕ → Regs → Regs
setbits_le32 a set r = writel (bit_or (readl r a) set) a r

unfoldable pub clrsetbits_le32 : ℕ → ℕ → ℕ → Regs → Regs
clrsetbits_le32 a clear set r = writel (bit_or (bit_and (readl r a) (not32 clear)) set) a r

pub readl-writel_self : (v a : ℕ) (r : Regs) → readl (writel v a r) a ≡ v % 2 ^ 32
unfolding readl writel
readl-writel_self v a r = ground arith

pub readl-writel_ne : (v a b : ℕ) (r : Regs) → a ≢ b → readl (writel v a r) b ≡ readl r b
unfolding readl writel
readl-writel_ne v a b r h = ground arith
