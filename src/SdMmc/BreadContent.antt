-- ===== src/SdMmc/BreadContent.antt =====
-- `mmc_bread` of Drivers/SdMmcDxe/MmcHostOp.c: what it returns, and what it leaves in memory.
use nintendo_switch_pkg.Prelude.{
  ℕ, suc, ◌+◌, ◌*◌, ◌%◌, ◌^◌, ◌≤◌, ◌<◌, ◌≡◌, refl, inl, inr, Bool, true, false, Option, none, some,
  arith, ltb, ◌==◌, ==_iff, if◌then◌else◌, ◌∙◌, Bool-cases,
}
use nintendo_switch_pkg.SdMmc.{Outcome, Host, Ret, Mmc, BlkDesc, Sd, rsp_r1}
use nintendo_switch_pkg.SdMmc.Command.{mmc_select_hwpart, mmc_set_blocklen}
use nintendo_switch_pkg.SdMmc.Read.{not_zero, bread_loop, checked_bread, mmc_bread}
use nintendo_switch_pkg.SdMmc.Card.{Filled, KeepsOutside, Card, Geometry}
use nintendo_switch_pkg.SdMmc.ReadContent.{Transfer, bread_loop-Moves}

-- The call returns `n` or 0. It returns `n` only for blocks of the card, and then the `n` blocks
-- from `start` on are in memory at `dst`; it changes no other memory, nor the driver's records.
abbrev pub Bread :
    (h : Host) → (ℕ → ℕ) → Mmc → BlkDesc → ℕ → ℕ → ℕ → h.State → Option (Ret (Sd h.State)) → Type 0
Bread h disk mmc blk start n dst s out =
    (ok : Bool) × (s' : h.State) × (out
      ≡ some (record {
        value = if ok then n else 0;
        state = record { mmc = mmc; blk = blk; host = s' };
      }))
    × KeepsOutside h dst (n * mmc.read_bl_len) s s'
    × (ok ≡ true
        → (start + n ≤ blk.lba)
          × Filled h disk dst (n * mmc.read_bl_len) (start * mmc.read_bl_len) s')

module _ (h : Host) (disk : ℕ → ℕ) (mmc : Mmc) (blk : BlkDesc)
    (card : Card h mmc.high_capacity disk) (g : Geometry mmc blk) where
  abbrev card_in : h.State → Sd h.State
  card_in s = record { mmc = mmc; blk = blk; host = s }

  abbrev set_blocklen : h.State → Outcome h.State
  set_blocklen s =
      h.send_cmd (record { cmdidx = 16; resp_type = rsp_r1; cmdarg = mmc.read_bl_len }) none s

  set_blocklen-sent :
      (s : h.State)
      → mmc_set_blocklen h mmc mmc.read_bl_len s
        ≡ record { value = (set_blocklen s).err; state = (set_blocklen s).state }
  unfolding mmc_set_blocklen
  set_blocklen-sent s = rw g.single_rate refl

  -- The call whose checks pass, from its loop.
  passed-Bread :
      (start n dst : ℕ) (s : h.State) (r : Ret h.State)
      → (start + n) % 2 ^ 64 ≡ start + n
      → ltb blk.lba (start + n) ≡ false
      → ((set_blocklen s).err == 0) ≡ true
      → bread_loop h (suc n) mmc n start dst (set_blocklen s).state ≡ some r
      → Transfer h disk card.block_len dst
          (n * mmc.read_bl_len)
          (start * mmc.read_bl_len)
          (r.value == 1)
          (set_blocklen s).state
          r.state
      → Bread h disk mmc blk start n dst s (checked_bread h start n dst (card_in s))
  unfolding checked_bread not_zero
  passed-Bread start n dst s r sum within fine e m = (
    r.value == 1,
    r.state,
    rw (sum, within, set_blocklen-sent s, fine, e) refl,
    λ a out. m.outside a out ∙ card.command_memory _ s a,
    λ done. (ground arith, m.filled done),
  )

  checked_bread-Bread :
      (start n dst : ℕ) (s : h.State)
      → 1 ≤ n
      → start + n < 2 ^ 64
      → Bread h disk mmc blk start n dst s (checked_bread h start n dst (card_in s))
  unfolding checked_bread not_zero
  checked_bread-Bread start n dst s pos wrap =
      let o : Outcome h.State = set_blocklen s in
      let sum : (start + n) % 2 ^ 64 ≡ start + n = omega arith in
      elim (Bool-cases (ltb blk.lba (start + n))) [
        | inl over ↦ (false, s, rw (sum, over) refl, λ a out. refl, λ e. absurd (ground arith))
        | inr within ↦ elim (Bool-cases (o.err == 0)) [
          | inr failed ↦ (
            false,
            o.state,
            rw (sum, within, set_blocklen-sent s, failed) refl,
            λ a out. card.command_memory _ s a,
            λ e. absurd (ground arith),
          )
          | inl fine ↦
              let (r, e, m) =
                bread_loop-Moves h disk mmc blk card g (suc n) n start dst o.state (omega arith) pos
                  (ground arith) (card.set_block_len _ s refl (ground arith)) in
              passed-Bread start n dst s r sum within fine e m
        ]
      ]

  -- On a card that keeps the laws of Card, with a geometry whose addresses fit a command, mmc_bread
  -- of `n` blocks, `n` not 0 and the range below 2 ^ 64, returns `n` or 0. It returns `n` only for
  -- blocks of the card, and then they are in memory at `dst`. No other memory and no record of the
  -- driver has changed.
  pub mmc_bread-Bread :
      (start n dst : ℕ) (s : h.State)
      → 1 ≤ n
      → start + n < 2 ^ 64
      → Bread h disk mmc blk start n dst s (mmc_bread h start n dst (card_in s))
  unfolding mmc_bread mmc_select_hwpart not_zero
  mmc_bread-Bread start n dst s pos wrap =
      let same : (blk.hwpart == blk.hwpart) ≡ true = (==_iff _ _).1 refl in
      rw same (checked_bread-Bread start n dst s pos wrap)
