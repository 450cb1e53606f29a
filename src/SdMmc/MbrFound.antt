-- ===== src/SdMmc/MbrFound.antt =====
-- What the self test of SdMmcDxeInitialize, Drivers/SdMmcDxe/SdMmc.c, finds.
use native.Mathlib.Nat.{le-min, min-le_right}
use nintendo_switch_pkg.Prelude.{
  ℕ, zero, suc, ◌+◌, ◌*◌, ◌%◌, ◌^◌, ◌≤◌, ◌<◌, ◌≡◌, ◌⊎◌, refl, inl, inr, min, Bool, true, false,
  ◌&&◌, Option, none, some, arith, leb, ◌==◌, if◌then◌else◌, Bool-cases, ◌∙◌, sym, ap,
}
use nintendo_switch_pkg.SdMmc.{Host, Ret, Mmc, BlkDesc, Sd}
use nintendo_switch_pkg.SdMmc.Read.{mmc_bread}
use nintendo_switch_pkg.SdMmc.Card.{Filled, KeepsOutside, Card, Geometry}
use nintendo_switch_pkg.SdMmc.BreadContent.{mmc_bread-Bread}
use nintendo_switch_pkg.SdMmc.BlockContent.{card_in}
use nintendo_switch_pkg.SdMmc.SelfTest.{Search, Services, has_signature, find_mbr, self_test}

-- The state of the host after a read that returned; else as it was.
abbrev pub host_after : (h : Host) → h.State → Option (Ret (Sd h.State)) → h.State
host_after h s none = s
host_after h s (some r) = r.state.host

-- The state before the read of block `k`, where the blocks from 0 on are read one after the other, each
-- into the buffer, from the state `start` on.
unfoldable pub before : (h : Host) → ℕ → Mmc → BlkDesc → h.State → ℕ → h.State
before h dump mmc blk start zero = start
before h dump mmc blk start (suc k) =
    let s = before h dump mmc blk start k in
    host_after h s (mmc_bread h k 1 dump (card_in h mmc blk s))

-- The read of block `k` in that sequence returns 0.
abbrev pub Failed : (h : Host) → ℕ → Mmc → BlkDesc → h.State → ℕ → Type 0
Failed h dump mmc blk start k =
    mmc_bread h k 1 dump (card_in h mmc blk (before h dump mmc blk start k))
    ≡ some (record { value = 0; state = card_in h mmc blk (before h dump mmc blk start (k + 1)) })

module _ (h : Host) (disk : ℕ → ℕ) (mmc : Mmc) (blk : BlkDesc)
    (card : Card h mmc.high_capacity disk) (g : Geometry mmc blk) (whole : mmc.read_bl_len ≡ 512)
    (dump : ℕ) (start : h.State) where
  -- The block is one of the card and ends in 55 AA.
  abbrev pub IsMbr : ℕ → Type 0
  IsMbr k = (k < blk.lba) × (disk (k * 512 + 510) ≡ 0x55) × (disk (k * 512 + 511) ≡ 0xAA)

  -- Why a block is passed over, where the loop starts in `start`: its own read of it failed.
  abbrev pub Passed : ℕ → Type 0
  Passed k = Failed h dump mmc blk start k ⊎ (IsMbr k → ⊥)

  -- The first block from `i` on, up to 50, that is not passed over; or there is none.
  abbrev pub IsFirst : ℕ → Option ℕ → Type 0
  IsFirst i none = (k : ℕ) → i ≤ k → k ≤ 50 → k ≤ blk.lba → Passed k
  IsFirst i (some k) = (i ≤ k) × (k ≤ 50) × IsMbr k × ((j : ℕ) → i ≤ j → j < k → Passed j)

  abbrev pub Searched : ℕ → h.State → Option (Search (Sd h.State)) → Type 0
  Searched i s out =
      (found : Option ℕ) × (s' : h.State) × (out
        ≡ some (record { found = found; state = card_in h mmc blk s' }))
      × KeepsOutside h dump 512 s s'
      × IsFirst i found

  Passed-from : (i j : ℕ) → i ≤ j → Passed i → (suc i ≤ j → Passed j) → Passed j
  Passed-from i j low here later = elim (Bool-cases (i == j)) [
    | inl same ↦ let e : j ≡ i = ground arith in rw e here
    | inr other ↦ later (ground arith)
  ]

  IsFirst-later : (i : ℕ) (found : Option ℕ) → Passed i → IsFirst (i + 1) found → IsFirst i found
  IsFirst-later i none here f =
      λ k low high within. Passed-from i k low here (λ later. f k (omega arith) high within)
  IsFirst-later i (some k) here (low, high, mbr, before) = (
    omega arith,
    high,
    mbr,
    λ j from below. Passed-from i j from here (λ later. before j (omega arith) below),
  )

  Searched-later :
      (i : ℕ) (s s_1 : h.State) (out : Option (Search (Sd h.State)))
      → KeepsOutside h dump 512 s s_1
      → Passed i
      → Searched (i + 1) s_1 out
      → Searched i s out
  Searched-later i s s_1 out keep here (found, s', e, keep', f) =
      (found, s', e, λ a away. keep' a away ∙ keep a away, IsFirst-later i found here f)

  -- The bytes that the test looks at are those of the block.
  signature_read :
      (i : ℕ) (s : h.State)
      → Filled h disk dump (1 * mmc.read_bl_len) (i * mmc.read_bl_len) s
      → has_signature h dump s ≡ (disk (i * 512 + 510) == 0x55 && disk (i * 512 + 511) == 0xAA)
  unfolding has_signature
  signature_read i s filled =
      let f : Filled h disk dump (1 * 512) (i * 512) s = rw whole at filled in
      rw (f 510 (omega arith), f 511 (omega arith)) refl

  leb_le : (a b : ℕ) → leb a b ≡ true → a ≤ b
  leb_le a b e = ground arith

  past_end : (i k : ℕ) → leb i (min blk.lba 50) ≡ false → i ≤ k → k ≤ 50 → k ≤ blk.lba → ⊥
  past_end i k over low high within = let least = le-min within high in absurd (ground arith)

  before-next :
      (i : ℕ) (s s_1 : h.State) (value : ℕ)
      → s ≡ before h dump mmc blk start i
      → mmc_bread h i 1 dump (card_in h mmc blk s)
        ≡ some (record { value = value; state = card_in h mmc blk s_1 })
      → s_1 ≡ before h dump mmc blk start (i + 1)
  unfolding before
  before-next i s s_1 value here e =
      let one : i + 1 ≡ suc i = omega arith in
      rw one (sym (ap (host_after h (before h dump mmc blk start i)) (rw here at e)))

  -- What the loop does after the read of block `i`, over the rest of the loop.
  abbrev judge : ℕ → Option (Search (Sd h.State)) → Ret (Sd h.State) → Option (Search (Sd h.State))
  judge i rest r =
      if r.value % 2 ^ 32 == 0
      then rest
      else if has_signature h dump r.state.host
      then some (record { found = some i; state = r.state })
      else rest

  judge-Searched :
      (i : ℕ) (s s_1 : h.State) (rest : Option (Search (Sd h.State))) (ok : Bool)
      → i ≤ 50
      → s ≡ before h dump mmc blk start i
      → s_1 ≡ before h dump mmc blk start (i + 1)
      → mmc_bread h i 1 dump (card_in h mmc blk s)
        ≡ some (record { value = if ok then 1 else 0; state = card_in h mmc blk s_1 })
      → KeepsOutside h dump 512 s s_1
      → (ok ≡ true
          → (i + 1 ≤ blk.lba) × Filled h disk dump (1 * mmc.read_bl_len) (i * mmc.read_bl_len) s_1)
      → Searched (i + 1) s_1 rest
      → Searched i s
          (judge i rest (record { value = if ok then 1 else 0; state = card_in h mmc blk s_1 }))
  judge-Searched i s s_1 rest false small here next e keep filled later =
      Searched-later i s s_1 rest keep (inl (rw (here, next) at e)) later
  judge-Searched i s s_1 rest true small here next e keep filled later =
      let (within, bytes) = filled refl in
      let read = signature_read i s_1 bytes in
      elim (Bool-cases (has_signature h dump s_1)) [
        | inl signed ↦
            let mbr : IsMbr i = ground (arith, read) in
            (
              some i,
              s_1,
              rw signed refl,
              keep,
              (omega arith, small, mbr, λ j low below. absurd (omega arith)),
            )
        | inr other ↦
            let no_mbr : IsMbr i → ⊥ = λ (m : IsMbr i). ground (arith, read) in
            rw other (Searched-later i s s_1 rest keep (inr no_mbr) later)
      ]

  find_mbr-Searched :
      (fuel i : ℕ) (s : h.State)
      → s ≡ before h dump mmc blk start i
      → i + fuel ≡ 52
      → 1 ≤ fuel
      → Searched i s (find_mbr h dump fuel i (card_in h mmc blk s))
  unfolding find_mbr
  find_mbr-Searched zero i s here e pos = absurd (omega arith)
  find_mbr-Searched (suc fuel) i s here e pos = elim (Bool-cases (leb i (min blk.lba 50))) [
    | inr over ↦ (
      none,
      s,
      rw over refl,
      λ a away. refl,
      λ k low high within. absurd (past_end i k over low high within),
    )
    | inl goes ↦
        let small : i ≤ 50 =
          omega (arith, min-le_right blk.lba 50, leb_le i (min blk.lba 50) goes) in
        let (ok, s_1, e_1, keep, filled) =
          mmc_bread-Bread h disk mmc blk card g i 1 dump s (omega arith) (omega (arith, e)) in
        let size : 1 * mmc.read_bl_len ≡ 512 = omega (arith, whole) in
        let next : s_1 ≡ before h dump mmc blk start (i + 1) = before-next i s s_1 _ here e_1 in
        rw (goes, e_1)
          (judge-Searched i s s_1 _ ok small here next e_1 (rw size at keep) filled
            (find_mbr-Searched fuel (i + 1) s_1 next (omega (arith, e)) (omega (arith, e, small))))
  ]

-- On a card that keeps the laws of Card, with blocks of 512 bytes, the self test of SdMmcDxeInitialize
-- returns, where ZeroMem changes no memory but what it clears. It finds the first block, up to block 50,
-- whose read in the loop succeeds and that ends in 55 AA, and it is one of the card; or there is none, and
-- for each of the blocks up to 50 and the number of blocks the loop's read of it failed or it ends
-- otherwise. No other memory than the buffer has changed, and no record of the driver.
pub self_test-Searched :
    (h : Host) (disk : ℕ → ℕ) (mmc : Mmc) (blk : BlkDesc) (card : Card h mmc.high_capacity disk)
    (g : Geometry mmc blk) (whole : mmc.read_bl_len ≡ 512) (services : Services h.State) (dump : ℕ)
    (s : h.State)
    → ((a n : ℕ) (t : h.State) → KeepsOutside h a n t (services.zero_mem a n t))
    → Searched h disk mmc blk card g whole dump
        (services.zero_mem dump 512 s)
        0
        s
        (self_test h dump services (card_in h mmc blk s))
unfolding self_test before
self_test-Searched h disk mmc blk card g whole services dump s clears =
    let s_0 : h.State = services.zero_mem dump 512 s in
    let (found, s', e, keep, first) =
      find_mbr-Searched h disk mmc blk card g whole dump s_0 52 0 s_0 refl refl (omega arith) in
    (found, s', e, λ a away. keep a away ∙ clears dump 512 s a away, first)
