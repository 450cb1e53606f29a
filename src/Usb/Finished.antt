-- ===== src/Usb/Finished.antt =====
-- The registers after the wait for the PHY in Drivers/EhciPciEmulationDxe/PciEmulation.c.
use Prim.Native.Nat.{bit_and, bit_or}
use nintendo_switch_pkg.Prelude.{ℕ, ◌%◌, ◌^◌, ◌<◌, ◌≡◌, refl, true, false, arith, ◌≤◌, ◌-◌}
use nintendo_switch_pkg.Prelude.Bits.{
  test_bit, shl32, not32, test_bit-bit_or, test_bit-bit_and, test_bit-low, test_bit-not32,
  test_bit-shl32, test_bit-ones, test_bit-pow, test_bit-zero,
}
use nintendo_switch_pkg.Mmio.{Regs, readl, writel, clrbits_le32, setbits_le32, clrsetbits_le32}
use nintendo_switch_pkg.Clock.Pll.{pll_base}
use nintendo_switch_pkg.Clock.Periph.{enable_reg, reset_reg, periph_reg}
use nintendo_switch_pkg.Gpio.{pin_addr}
use nintendo_switch_pkg.Usb.{susp_ctrl, usb_mode, hostpc1_devlc}
use nintendo_switch_pkg.Usb.Timing.{has_hostpc}
use nintendo_switch_pkg.Usb.Host.{init_phy_mux, finish_phy, priv}
use nintendo_switch_pkg.Usb.Started.{Keeps, IsRunning}

-- Bits 0 and 1 of usb_mode are the mode of a host; bit 28 and the bits above it in hostpc1_devlc choose the
-- interface of the PHY, which for UTMI is 0.
pub record IsHost (q : Regs) : Type 0 where
  pub mode : (i : ℕ) → i < 2 → test_bit (readl q (usb_mode 0x7d000000)) i ≡ true
  pub utmi : (i : ℕ) → 28 ≤ i → test_bit (readl q (hostpc1_devlc 0x7d000000)) i ≡ false

mode_bits : (v i : ℕ) → i < 2 → test_bit (bit_or (bit_and v (not32 3)) 3 % 2 ^ 32) i ≡ true
mode_bits v i small =
    rw
      (
        test_bit-low 32 (bit_or (bit_and v (not32 3)) 3) i,
        test_bit-bit_or i (bit_and v (not32 3)) 3,
        test_bit-ones 2 i,
      )
      (ground arith)

utmi_bits :
    (v i : ℕ)
    → 28 ≤ i
    → test_bit
        (bit_and (bit_or (bit_and v (not32 (shl32 7 29))) (shl32 0 29) % 2 ^ 32) (not32 (2 ^ 28))
          % 2 ^ 32)
        i
      ≡ false
utmi_bits v i high =
    let or = bit_or (bit_and v (not32 (shl32 7 29))) (shl32 0 29) in
    rw
      (
        test_bit-low 32 (bit_and (or % 2 ^ 32) (not32 (2 ^ 28))) i,
        test_bit-bit_and i (or % 2 ^ 32) (not32 (2 ^ 28)),
        test_bit-low 32 or i,
        test_bit-bit_or i (bit_and v (not32 (shl32 7 29))) (shl32 0 29),
        test_bit-bit_and i v (not32 (shl32 7 29)),
        test_bit-not32 (shl32 7 29) i,
        test_bit-not32 (2 ^ 28) i,
        test_bit-shl32 29 7 i,
        test_bit-shl32 29 0 i,
        test_bit-pow 28 i,
        test_bit-ones 3 (i - 29),
        test_bit-zero (i - 29),
      )
      (ground arith)

finish_phy-words :
    (r : Regs)
    → let q = finish_phy priv 0 r in
      (readl q (susp_ctrl 0x7d000000) ≡ readl r (susp_ctrl 0x7d000000))
      × (readl q (enable_reg 22) ≡ readl r (enable_reg 22))
      × (readl q (reset_reg 22) ≡ readl r (reset_reg 22))
      × (readl q (usb_mode 0x7d000000)
          ≡ bit_or (bit_and (readl r (usb_mode 0x7d000000)) (not32 3)) 3 % 2 ^ 32)
      × (readl q (hostpc1_devlc 0x7d000000)
          ≡ bit_and
              (bit_or
                  (bit_and (readl r (hostpc1_devlc 0x7d000000)) (not32 (shl32 7 29)))
                  (shl32 0 29)
                % 2 ^ 32)
              (not32 (2 ^ 28))
            % 2 ^ 32)
      × Keeps r q
unfolding finish_phy init_phy_mux priv has_hostpc readl writel clrbits_le32 setbits_le32
    clrsetbits_le32 pll_base pin_addr enable_reg reset_reg periph_reg
finish_phy-words r = (
  refl,
  refl,
  refl,
  refl,
  refl,
  record { osc = refl; base = refl; mode = refl; direction = refl; level = refl },
)

pub finish_phy-IsHost :
    (r : Regs)
    → IsRunning r
    → IsRunning (finish_phy priv 0 r) × IsHost (finish_phy priv 0 r) × Keeps r (finish_phy priv 0 r)
finish_phy-IsHost r run =
    let (susp, enable, reset, mode, devlc, keep) = finish_phy-words r in
    (
      record {
        phy_reset = rw susp run.phy_reset;
        phy_enabled = rw susp run.phy_enabled;
        enabled = rw enable run.enabled;
        reset = rw reset run.reset;
      },
      record { mode = λ i h. rw mode (mode_bits _ i h); utmi = λ i h. rw devlc (utmi_bits _ i h) },
      keep,
    )
