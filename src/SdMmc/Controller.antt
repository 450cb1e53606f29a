-- ===== src/SdMmc/Controller.antt =====
-- The host controller's registers as Drivers/SdMmcDxe/SdMmc.c drives them: `struct tegra_mmc` of
-- Drivers/SdMmcDxe/Include/SdMmc.h. The hardware and the clock manager answer as they like, by all
-- that was done before: the state is the history of accesses, the latest first.
pub mod Setup
pub mod SendCmd
pub mod Transfer
pub mod Response
pub mod Quiet
pub mod Issue
pub mod Completion
mod Tests
use nintendo_switch_pkg.Prelude.{ℕ, ◌+◌, ◌*◌, ◌%◌, ◌^◌, Bool, List, [], ◌∷◌, if◌then◌else◌}

-- A read or a write of so many bytes at an offset, a wait, or a rate asked of the clock manager.
pub data Access : Type 0 where
  rd : ℕ → ℕ → ℕ → Access
  wr : ℕ → ℕ → ℕ → Access
  stall : ℕ → Access
  set_rate : ℕ → Access

abbrev pub History : Type 0
History = List Access

-- What a read of a register gives, a rate the clock manager sets, and the timer, in microseconds.
pub record Env : Type 0 where
  pub reg : ℕ → ℕ → History → ℕ
  pub rate : ℕ → History → ℕ
  pub time : History → ℕ

-- A value, and the history after.
pub record Step (A : Type 0) : Type 0 where
  pub value : A
  pub history : History

abbrev pub Io : Type 0 → Type 0
Io A = History → Step A

infixl 5 ◌>>=◌ ◌>>◌
unfoldable pub ◌>>=◌ : {A B : Type 0} → Io A → (A → Io B) → Io B
◌>>=◌ m f past = let s = m past in f s.value s.history

abbrev pub ◌>>◌ : {A B : Type 0} → Io A → Io B → Io B
m >> k = m >>= λ _. k

unfoldable pub return : {A : Type 0} → A → Io A
return a past = record { value = a; history = past }

-- The offsets of the registers.
abbrev pub sysad : ℕ
sysad = 0x00

abbrev pub blksize : ℕ
blksize = 0x04

abbrev pub blkcnt : ℕ
blkcnt = 0x06

abbrev pub argument : ℕ
argument = 0x08

abbrev pub trnmod : ℕ
trnmod = 0x0c

abbrev pub cmdreg : ℕ
cmdreg = 0x0e

abbrev pub rspreg0 : ℕ
rspreg0 = 0x10

abbrev pub rspreg3 : ℕ
rspreg3 = 0x1c

abbrev pub prnsts : ℕ
prnsts = 0x24

abbrev pub hostctl : ℕ
hostctl = 0x28

abbrev pub pwrcon : ℕ
pwrcon = 0x29

abbrev pub clkcon : ℕ
clkcon = 0x2c

abbrev pub timeoutcon : ℕ
timeoutcon = 0x2e

abbrev pub swrst : ℕ
swrst = 0x2f

abbrev pub norintsts : ℕ
norintsts = 0x30

abbrev pub norintstsen : ℕ
norintstsen = 0x34

abbrev pub norintsigen : ℕ
norintsigen = 0x38

abbrev pub hcver : ℕ
hcver = 0xfe

-- `writel`, `writew` and `writeb` cut the value to their width; `udelay`.
unfoldable pub writel : ℕ → ℕ → Io (Unit {0})
writel v a past = record { value = tt; history = wr 4 a (v % 2 ^ 32) ∷ past }

unfoldable pub writew : ℕ → ℕ → Io (Unit {0})
writew v a past = record { value = tt; history = wr 2 a (v % 2 ^ 16) ∷ past }

unfoldable pub writeb : ℕ → ℕ → Io (Unit {0})
writeb v a past = record { value = tt; history = wr 1 a (v % 2 ^ 8) ∷ past }

unfoldable pub udelay : ℕ → Io (Unit {0})
udelay us past = record { value = tt; history = stall us ∷ past }

module _ (env : Env) where
  -- A read of so many bytes; the value is cut to its width.
  unfoldable pub read : ℕ → ℕ → Io ℕ
  read width a past =
      let v = env.reg width a past % 2 ^ (8 * width) in
      record { value = v; history = rd width a v ∷ past }

  abbrev pub readl : ℕ → Io ℕ
  readl = read 4

  abbrev pub readw : ℕ → Io ℕ
  readw = read 2

  abbrev pub readb : ℕ → Io ℕ
  readb = read 1
