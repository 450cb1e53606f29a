-- ===== src/Mmio/Update.antt =====
-- The effect of a driver call on one register, bit by bit, and on no other.
use nintendo_switch_pkg.Prelude.{ℕ, ◌<◌, ◌≡◌, refl, ◌≢◌, Bool, Option, some, arith, ◌∙◌}
use nintendo_switch_pkg.Prelude.Assert.{◌>>=◌}
use nintendo_switch_pkg.Prelude.Bits.{test_bit, test_bit-low}
use nintendo_switch_pkg.Mmio.{Regs, readl, writel, readl-writel_self, readl-writel_ne}

-- Bit `i` of the register at `addr` goes from `b` to `next i b`; no other register changes.
pub record Updates (addr : ℕ) (next : ℕ → Bool → Bool) (r r' : Regs) : Type 0 where
  pub bits : (i : ℕ) → i < 32 → test_bit (readl r' addr) i ≡ next i (test_bit (readl r addr) i)
  pub others : (a : ℕ) → addr ≢ a → readl r' a ≡ readl r a

-- The call returns, and its result differs from `r` as `Updates` says.
abbrev pub Sets : ℕ → (ℕ → Bool → Bool) → Regs → Option Regs → Type 0
Sets addr next r out = (r' : Regs) × (out ≡ some r') × Updates addr next r r'

pub keeps-Updates : (addr : ℕ) (r : Regs) → Updates addr (λ i b. b) r r
keeps-Updates addr r = record { bits = λ i h. refl; others = λ a h. refl }

pub write-Updates :
    (addr w : ℕ) (next : ℕ → Bool → Bool) (r : Regs)
    → ((i : ℕ) → i < 32 → test_bit w i ≡ next i (test_bit (readl r addr) i))
    → Updates addr next r (writel w addr r)
write-Updates addr w next r h = record {
  bits =
      λ i small. rw (readl-writel_self w addr r, test_bit-low 32 w i) (ground (arith, h i small));
  others = λ a ne. readl-writel_ne w addr a r ne;
}

pub Sets-bind :
    (addr : ℕ) (next next' : ℕ → Bool → Bool) (r : Regs) (out : Option Regs)
    (then_set : Regs → Option Regs)
    → Sets addr next r out
    → ((r' : Regs) → Sets addr next' r' (then_set r'))
    → Sets addr (λ i b. next' i (next i b)) r (out >>= then_set)
Sets-bind addr next next' r out then_set (r', e, u) h =
    let (r'', e', u') = h r' in
    (
      r'',
      rw e e',
      record {
        bits = λ i small. u'.bits i small ∙ ground (arith, u.bits i small);
        others = λ a ne. u'.others a ne ∙ u.others a ne;
      },
    )
