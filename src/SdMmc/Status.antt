-- ===== src/SdMmc/Status.antt =====
-- `mmc_send_status` and `mmc_select_hwpart` of Drivers/SdMmcDxe/MmcHostOp.c.
use nintendo_switch_pkg.Prelude.{
  ℕ, suc, ◌/◌, ◌%◌, ◌^◌, ◌≤◌, ◌<◌, ◌≡◌, ◌≢◌, refl, ◌⊎◌, inl, inr, ◌&&◌, ◌||◌, none, some, arith,
  ◌==◌, if◌then◌else◌, Bool-cases, Option-cases,
}
use Prim.Native.Nat.{bit_and, bit_or}
use nintendo_switch_pkg.Prelude.Bits.{not32}
use nintendo_switch_pkg.SdMmc.{Cmd, Host, Ret, Sd}
use nintendo_switch_pkg.SdMmc.Command.{
  Verdict, ready, fail, wait, verdict, etimedout, capacity_of, mmc_set_capacity, mmc_switch_part,
  mmc_select_hwpart, mmc_switch, enodev,
}

-- The verdict on a poll of the card in state `s`, with `retries` left, and the state after it.
abbrev pub polled : (h : Host) → Cmd → ℕ → h.State → Verdict
polled h c retries s = let o = h.send_cmd c none s in verdict retries o.err o.response

abbrev pub after_poll : (h : Host) → Cmd → h.State → h.State
after_poll h c s = (h.send_cmd c none s).state

-- `k` polls in a row that leave the loop going, from `retries` and `s` to `retries'` and `s'`.
pub data Waits (h : Host) (c : Cmd) : ℕ → ℕ → h.State → ℕ → h.State → Type 0 where
  here : (retries : ℕ) (s : h.State) → Waits h c 0 retries s retries s
  next :
      (k retries retries1 retries' : ℕ) (s s' : h.State)
      → polled h c retries s ≡ wait retries1
      → Waits h c k retries1 (after_poll h c s) retries' s'
      → Waits h c (suc k) retries s retries' s'

-- How the loop ends. After `k` waiting polls, `k` not above `timeout`, the card is ready: that is a
-- success, but a timeout where `k` is `timeout`. Or, after as many, an error is returned. Or
-- `timeout + 1` polls are waited through, and that is a timeout.
abbrev pub Traced : (h : Host) → Cmd → ℕ → ℕ → h.State → Ret h.State → Type 0
Traced h c timeout retries s out =
    ((k : ℕ) × (r : ℕ) × (s' : h.State) × (k ≤ timeout)
      × Waits h c k retries s r s'
      × (polled h c r s' ≡ ready)
      × (out ≡ record { value = if k == timeout then etimedout else 0; state = after_poll h c s' }))
    ⊎ ((k : ℕ) × (r : ℕ) × (s' : h.State) × (k ≤ timeout)
        × Waits h c k retries s r s'
        × ((e : ℕ) × (polled h c r s' ≡ fail e)
            × (out ≡ record { value = e; state = after_poll h c s' })))
    ⊎ ((r : ℕ) × (s' : h.State) × Waits h c (suc timeout) retries s r s'
        × (out ≡ record { value = etimedout; state = s' }))

-- The capacity and the number of blocks are those of part `part_num`, which is selected.
abbrev pub Selected : {S : Type 0} → ℕ → Sd S → Sd S → Type 0
Selected part_num sd sd' =
    (capacity : ℕ) × (capacity_of sd.mmc part_num ≡ some capacity)
    × (sd'.mmc ≡ record (sd.mmc) { capacity = capacity })
    × (sd'.blk
        ≡ record { hwpart = part_num; lba = capacity / sd.mmc.read_bl_len; blksz = sd.blk.blksz })

mmc_switch_part-Selected :
    (h : Host) (part_num : ℕ) (sd : Sd h.State)
    → part_num < 2 ^ 8
    → (mmc_switch_part h part_num sd).value ≡ 0
    → Selected part_num sd (mmc_switch_part h part_num sd).state
unfolding mmc_switch_part mmc_set_capacity
mmc_switch_part-Selected h part_num sd small fine =
    let access : ℕ = bit_or (bit_and sd.mmc.part_config (not32 7)) (bit_and part_num 7) in
    let r : Ret h.State = mmc_switch h sd.mmc 179 (access % 2 ^ 8) sd.host in
    let byte : part_num % 2 ^ 8 ≡ part_num = omega arith in
    elim (Bool-cases (r.value == 0 || (r.value == enodev && part_num == 0))) [
      | inl switched ↦ elim (Option-cases (capacity_of sd.mmc part_num)) [
        | inl missing ↦
            absurd (let f = rw (switched, mmc_set_capacity, missing) at fine in omega arith)
        | inr (capacity, e) ↦ rw (switched, mmc_set_capacity, e, byte) (capacity, refl, refl, refl)
      ]
      | inr failed ↦ absurd (let f = rw failed at fine in ground arith)
    ]

-- Where mmc_select_hwpart of a part below 256 succeeds, the part was selected already and nothing
-- changes, or the card has parts, and then the part is selected, with its capacity and its number of
-- blocks in the driver's records and nothing else changed in them.
pub mmc_select_hwpart-Selected :
    (h : Host) (part_num : ℕ) (sd : Sd h.State)
    → part_num < 2 ^ 8
    → (mmc_select_hwpart h part_num sd).value ≡ 0
    → ((sd.blk.hwpart ≡ part_num) × ((mmc_select_hwpart h part_num sd).state ≡ sd))
      ⊎ ((sd.mmc.part_config ≢ 0xff) × Selected part_num sd (mmc_select_hwpart h part_num sd).state)
unfolding mmc_select_hwpart
mmc_select_hwpart-Selected h part_num sd small fine =
    elim (Bool-cases (sd.blk.hwpart == part_num)) [
      | inl same ↦ inl (ground arith, rw (mmc_select_hwpart, same) refl)
      | inr other ↦ elim (Bool-cases (sd.mmc.part_config == 0xff)) [
        | inl missing ↦
            absurd (let f = rw (mmc_select_hwpart, other, missing) at fine in omega arith)
        | inr parts ↦ inr (
          ground arith,
          rw (mmc_select_hwpart, other, parts)
              (mmc_switch_part-Selected h part_num sd small
                (rw (mmc_select_hwpart, other, parts) at fine)),
        )
      ]
    ]
