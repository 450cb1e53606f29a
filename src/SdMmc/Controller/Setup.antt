-- ===== src/SdMmc/Controller/Setup.antt =====
-- Setting the controller up, Drivers/SdMmcDxe/SdMmc.c: power, clock, bus width, reset and the interrupt
-- masks. `priv->clock` is passed and returned.
use Prim.Native.Nat.{bit_and, bit_or}
use nintendo_switch_pkg.Prelude.{
  ℕ, zero, suc, ◌+◌, ◌-◌, ◌/◌, ◌%◌, ◌^◌, Bool, true, false, not, ◌||◌, ◌∷◌, ◌==◌, if◌then◌else◌,
}
use nintendo_switch_pkg.Prelude.Bits.{not32, shl32}
use nintendo_switch_pkg.SdMmc.Controller.{
  set_rate, Env, Io, ◌>>=◌, ◌>>◌, return, hostctl, pwrcon, clkcon, timeoutcon, swrst, norintstsen,
  norintsigen, hcver, writel, writew, writeb, udelay, readl, readw, readb,
}

-- The bus voltage of a bit of the OCR: 1.8, 3.0 or 3.3 volts, or none. 0xffff is `(unsigned short)-1`.
unfoldable pub power_bits : ℕ → ℕ
power_bits power =
    if power == 7
    then 10
    else if power == 17 || power == 18
    then 12
    else if power == 20 || power == 21
    then 14
    else 0

unfoldable pub tegra_mmc_set_power : ℕ → Io (Unit {0})
tegra_mmc_set_power power =
    let pwr = power_bits power in
    let bus_power = writeb (bit_or pwr 1) pwrcon in
    writeb pwr pwrcon >> (if pwr == 0 then return tt else bus_power)

module _ (env : Env) where
  -- `while (!(readw(&priv->reg->clkcon) & TEGRA_MMC_CLKCON_INTERNAL_CLOCK_STABLE))`: whether the
  -- clock became stable.
  unfoldable pub wait_stable : ℕ → Io Bool
  wait_stable zero = do v ← readw env clkcon; return (not (bit_and v 2 == 0))
  wait_stable (suc timeout) = readw env clkcon >>= λ v.
      let again = udelay 1000 >> wait_stable timeout in
      if bit_and v 2 == 0 then again else return true

  -- The rest of `tegra_mmc_change_clock` for a clock that is not 0; the return on a timeout keeps
  -- `priv->clock`.
  unfoldable pub start_clock : ℕ → ℕ → ℕ → Io ℕ
  start_clock old clock rate = do
    let div = (rate + clock - 1) / clock
    let clk = bit_or (shl32 (div / 2) 8) 1 % 2 ^ 16
    writew 0 clkcon
    writew clk clkcon
    stable ← wait_stable 10
    let on = writew (bit_or clk 4) clkcon >> return clock
    if stable then on else return old

  unfoldable pub tegra_mmc_change_clock : ℕ → ℕ → Io ℕ
  tegra_mmc_change_clock old clock =
      let change : Io ℕ =
        λ past. start_clock old clock (env.rate clock past) (set_rate clock ∷ past) in
      if clock == 0 then return clock else change

  -- WIDE8 is bit 5 and WIDE4 bit 1.
  unfoldable pub width_bits : ℕ → ℕ → ℕ
  width_bits bus_width ctrl =
      if bus_width == 8
      then bit_or ctrl 0x20
      else if bus_width == 4
      then bit_or ctrl 2
      else bit_and ctrl (not32 0x22)

  unfoldable pub tegra_mmc_set_ios : ℕ → ℕ → ℕ → Io ℕ
  tegra_mmc_set_ios old bus_width clock = do
    now ← tegra_mmc_change_clock old clock
    ctrl ← readb env hostctl
    writeb (width_bits bus_width ctrl) hostctl
    return now

  -- The wait for the end of a reset: whether it ended.
  unfoldable pub wait_reset : ℕ → Io Bool
  wait_reset zero = do v ← readb env swrst; return (bit_and v 1 == 0)
  wait_reset (suc timeout) = readb env swrst >>= λ v.
      let again = udelay 1000 >> wait_reset timeout in
      if bit_and v 1 == 0 then return true else again

  -- `TegraMmcReset`, for the bit of the highest voltage: whether it succeeds. The clock that it
  -- records, 0, is not returned.
  unfoldable pub tegra_mmc_reset : ℕ → Io Bool
  tegra_mmc_reset power = do
    writeb 1 swrst
    ended ← wait_reset 100
    let powered = tegra_mmc_set_power power >> return true
    if ended then powered else return false

  -- The low 16 bits replaced.
  unfoldable pub enable_low : ℕ → ℕ → Io (Unit {0})
  enable_low a bits = do mask ← readl env a; writel (bit_or (bit_and mask (not32 0xffff)) bits) a

  unfoldable pub tegra_mmc_init : ℕ → Io Bool
  tegra_mmc_init power = do
    ok ← tegra_mmc_reset power
    let rest = do
      version ← readw env hcver
      writel 0xffffffff norintstsen
      writel 0xffffffff norintsigen
      writeb 0xe timeoutcon
      enable_low norintstsen 0x3b
      enable_low norintsigen 0x02
      return true
    if ok then rest else return false
