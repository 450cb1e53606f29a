-- ===== src/SdMmc/BouncedTests.antt =====
-- A read through the bounce buffer on a small machine.
use Prim.Native.Nat.{bit_and}
use nintendo_switch_pkg.Prelude.{
  ◌⊎◌, ◌*◌, ℕ, ◌+◌, ◌-◌, ◌%◌, ◌^◌, ◌≤◌, ◌<◌, ◌≡◌, refl, true, ◌&&◌, Option, none, some, arith, ltb,
  leb, if◌then◌else◌,
}
use nintendo_switch_pkg.Prelude.Bits.{
  test_bit, test_bit-bit_and, test_bit-low, test_bit-ones, test_bit-zero, eq_of_bits,
}
use nintendo_switch_pkg.SdMmc.{Cmd, Data, Outcome}
use nintendo_switch_pkg.BounceBuf.{Machine, size_to_pages, roundup}
use nintendo_switch_pkg.SdMmc.Bounced.{transfer_len, tegra_mmc_send_cmd}
use nintendo_switch_pkg.SdMmc.Reach.{Firmware, Dma}
use nintendo_switch_pkg.SdMmc.BouncedReads.{Reads, tegra_mmc_send_cmd-Reads}

-- Sixteen pages that are always given out from the start, and the rest of memory in use.
abbrev pool : ℕ
pool = 0x80000000

abbrev ram : Machine
ram = record {
  State = ℕ → ℕ;
  memory = λ s a. s a;
  min_align = 16;
  copy_mem = λ dst src n s a. if leb dst a && ltb a (dst + n) then s (src + (a - dst)) else s a;
  allocate_pages = λ top pages s. record {
    address = if leb pages 16 && leb (pool + 0x10000) top then some pool else none;
    state = s;
  };
  free_pages = λ page pages s. record { ok = true; state = s };
}

pool_page : (page : ℕ) → page % 4096 ≡ 0 → bit_and page 15 ≡ 0
pool_page page h = eq_of_bits _ _ λ i.
    let zero_low : test_bit (page % 2 ^ 12) i ≡ test_bit 0 i = rw h refl in
    rw (test_bit-bit_and i page 15, test_bit-ones 4 i, test_bit-zero i)
      (ground (arith, zero_low, test_bit-low 12 page i, test_bit-zero i))

pool-granted :
    (top pages page : ℕ)
    → 0 < pages
    → (if leb pages 16 && leb (pool + 0x10000) top then some pool else none) ≡ some page
    → (page ≡ pool) × (pages ≤ 16) × (pool + 0x10000 ≤ top)
pool-granted top pages page pos h = ground arith

-- A byte that is written to a range of memory, at an offset in the range.
moved_at :
    (dst n i : ℕ) (from : ℕ → ℕ) (s : ℕ → ℕ)
    → i < n
    → (if leb dst (dst + i) && ltb (dst + i) (dst + n) then from (dst + i - dst) else s (dst + i))
      ≡ from i
moved_at dst n i from s inside = let back : dst + i - dst ≡ i = omega arith in ground (arith, back)

moved_outside :
    (dst n x v w : ℕ)
    → (x < dst) ⊎ (dst + n ≤ x)
    → (if leb dst x && ltb x (dst + n) then v else w) ≡ w
moved_outside dst n x v w outside = ground arith

pool_free :
    (pages page i : ℕ)
    → page ≡ pool
    → pages ≤ 16
    → i < pages * 4096
    → (leb pool (page + i) && ltb (page + i) (pool + 0x10000)) ≡ true
pool_free pages page i at_pool few inside = ground arith

abbrev ram_firmware : Firmware ram
ram_firmware = record {
  is_free = λ s x. leb pool x && ltb x (pool + 0x10000);
  is_allocated = λ s page pages. true;
  align_small = omega arith;
  align_pos = omega arith;
  align_power = refl;
  page_aligned = pool_page;
  granted = λ top pages page s pos h.
      let (at_pool, few, high) = pool-granted top pages page pos h in
      (
        rw at_pool refl,
        omega (arith, at_pool, few, high),
        λ i inside. pool_free pages page i at_pool few inside,
        refl,
      );
  allocate_kept = λ top pages s x. refl;
  copied =
      λ dst src n s i inside. let back : dst + i - dst ≡ i = omega arith in ground (arith, back);
  copy_kept = λ dst src n s x outside. moved_outside dst n x _ _ outside;
  copy_allocated = λ dst src n s page pages. refl;
  freed = λ page pages s held. refl;
  free_kept = λ page pages s x outside. refl;
}

-- A controller whose card holds, from its argument on, the numbers from there.
abbrev transfer : Cmd → Option Data → ℕ → (ℕ → ℕ) → Option (Outcome (ℕ → ℕ))
transfer c none buffer s = none
transfer c (some d) buffer s = some (record {
  err = 0;
  response = 0;
  response_1 = 0;
  response_2 = 0;
  response_3 = 0;
  state =
      λ a. if leb buffer a && ltb a (buffer + transfer_len d) then c.cmdarg + (a - buffer) else s a;
})

abbrev block : Data
block = record { dest = 0x1001; flags = 1; blocks = 1; blocksize = 512 }

abbrev read_7 : Cmd
read_7 = record { cmdidx = 17; resp_type = 0x15; cmdarg = 7 }

abbrev transfer_dma : Dma ram ram_firmware transfer
transfer_dma = record {
  code = λ c d s. 0;
  content = λ c d s i. c.cmdarg + i;
  allocate_code = λ c d top pages s. refl;
  allocate_content = λ c d top pages s i. refl;
  reads = λ c d buffer s read aligned low. (
    _,
    refl,
    refl,
    λ ok i inside. moved_at buffer (transfer_len d) i (λ k. c.cmdarg + k) s inside,
    λ x outside. moved_outside buffer (transfer_len d) x _ _ outside,
    λ page pages. refl,
  );
}

tegra_mmc_send_cmd-Reads_example :
    (o : Outcome (ℕ → ℕ)) × (tegra_mmc_send_cmd ram transfer read_7 (some block) (λ a. 0) ≡ some o)
    × Reads ram ram_firmware transfer transfer_dma read_7 block (λ a. 0) o
unfolding size_to_pages roundup transfer_len
tegra_mmc_send_cmd-Reads_example =
    tegra_mmc_send_cmd-Reads ram ram_firmware transfer transfer_dma read_7 block (λ a. 0) pool
      (omega arith) (omega arith) refl (λ i inside. ground arith)
