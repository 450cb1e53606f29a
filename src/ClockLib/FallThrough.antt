-- ===== src/ClockLib/FallThrough.antt =====
-- What a call for one SDMMC controller in ClockLib.c does to those after it.
use nintendo_switch_pkg.Prelude.{
  ℕ, ◌+◌, ◌≤◌, ◌<◌, ◌≡◌, Bool, true, false, ◌&&◌, ◌||◌, arith, [], ◌∷◌, ◌==◌, if◌then◌else◌,
}
use nintendo_switch_pkg.SdMmc.Controller.{
  rd, wr, stall, set_rate, History, Env, ◌>>=◌, return, writel, read,
}
use nintendo_switch_pkg.ClockLib.{clock_base}
use nintendo_switch_pkg.ClockLib.Sdmmc.{
  write_from, sdmmc_bit, read_bit, clock_sdmmc_set_reset, clock_sdmmc_clear_enable,
  clock_sdmmc_is_reset, clock_sdmmc_disable,
}

-- Whether the word was written to the register.
unfoldable pub wrote : ℕ → ℕ → History → Bool
wrote a v [] = false
wrote a v (rd w b u ∷ past) = wrote a v past
wrote a v (wr w b u ∷ past) = ((a == b) && (u == v)) || wrote a v past
wrote a v (stall us ∷ past) = wrote a v past
wrote a v (set_rate hz ∷ past) = wrote a v past

-- The register of the group L, or U for SDMMC_3.
abbrev pub group : ℕ → ℕ → ℕ → ℕ
group l u q = clock_base + (if q == 2 then u else l)

write_from-wrote :
    (l u id q : ℕ) (past : History)
    → id ≤ q
    → q < 4
    → wrote (group l u q) (sdmmc_bit q) (write_from l u id past).history ≡ true
unfolding write_from wrote sdmmc_bit writel ◌>>=◌ return
write_from-wrote l u id q past low high = ground arith

write_from-keeps :
    (a v l u id : ℕ) (past : History)
    → wrote a v past ≡ true
    → wrote a v (write_from l u id past).history ≡ true
unfolding write_from wrote writel ◌>>=◌ return
write_from-keeps a v l u id past h = ground arith

read_bit-keeps :
    (env : Env) (a v l u id : ℕ) (past : History)
    → wrote a v past ≡ true
    → wrote a v (read_bit env l u id past).history ≡ true
unfolding read_bit wrote ◌>>=◌ return read
read_bit-keeps env a v l u id past h = ground arith

-- clock_sdmmc_disable of one SDMMC controller writes the bit of each controller from it on, not of that
-- one alone, to the register that puts a controller into reset and to the one that stops its clock.
pub clock_sdmmc_disable-wrote :
    (env : Env) (id q : ℕ) (past : History)
    → id ≤ q
    → q < 4
    → let after = (clock_sdmmc_disable env id past).history in
      (wrote (group 0x300 0x310 q) (sdmmc_bit q) after ≡ true)
      × (wrote (group 0x324 0x334 q) (sdmmc_bit q) after ≡ true)
unfolding clock_sdmmc_disable clock_sdmmc_set_reset clock_sdmmc_clear_enable clock_sdmmc_is_reset
    ◌>>=◌ return
clock_sdmmc_disable-wrote env id q past low high =
    let reset = (write_from 0x300 0x310 id past).history in
    let off = (write_from 0x324 0x334 id reset).history in
    (
      read_bit-keeps env _ _ 0x4 0xC id off (
          write_from-keeps _ _ 0x324 0x334 id reset
            (write_from-wrote 0x300 0x310 id q past low high)),
      read_bit-keeps env _ _ 0x4 0xC id off (write_from-wrote 0x324 0x334 id q reset low high),
    )
