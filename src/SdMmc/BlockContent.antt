-- ===== src/SdMmc/BlockContent.antt =====
-- `MmcReadInternal` of Drivers/SdMmcDxe/EfiBlkDeviceOp.c: it returns, with the disk's bytes in the
-- buffer, or after a block that could not be read on its own.
use nintendo_switch_pkg.Prelude.{
  ℕ, zero, suc, ◌+◌, ◌-◌, ◌*◌, ◌/◌, ◌^◌, ◌≤◌, ◌<◌, ◌≡◌, ◌⊎◌, refl, inl, inr, Bool, true, false,
  Option, some, arith, ltb, if◌then◌else◌, ◌∙◌, Bool-cases,
}
use native.Mathlib.Nat.{mul-le-mul_left, mul-le-mul_right, add-mul}
use nintendo_switch_pkg.SdMmc.{Host, Ret, Mmc, BlkDesc, Sd}
use nintendo_switch_pkg.SdMmc.Read.{mmc_bread}
use nintendo_switch_pkg.SdMmc.BlockIo.{read_step, read_loop}
use nintendo_switch_pkg.SdMmc.BlockStep.{after, read_step-after}
use nintendo_switch_pkg.SdMmc.Card.{
  Filled, KeepsOutside, Filled-append, KeepsOutside-append, Card, Geometry,
}
use nintendo_switch_pkg.SdMmc.BreadContent.{mmc_bread-Bread}

module _ (h : Host) (mmc : Mmc) (blk : BlkDesc) where
  abbrev pub card_in : h.State → Sd h.State
  card_in s = record { mmc = mmc; blk = blk; host = s }

  -- In some state, a read of the one block `b` failed.
  abbrev pub Unreadable : ℕ → Type 0
  Unreadable b =
      (buf : ℕ) × (s : h.State) × (s' : h.State) × (mmc_bread h b 1 buf (card_in s)
        ≡ some (record { value = 0; state = card_in s' }))

module _ (h : Host) (disk : ℕ → ℕ) (mmc : Mmc) (blk : BlkDesc) where
  -- The outcome of a read of `n` blocks from `start`: 1 with the blocks in memory at `buf`, all of
  -- them blocks of the card, or 0 and one of the blocks was not readable on its own. No other
  -- memory has changed.
  abbrev pub ReadAll : ℕ → ℕ → ℕ → h.State → Option (Ret (Sd h.State)) → Type 0
  ReadAll start buf n s out =
      (ok : Bool) × (s' : h.State) × (out
        ≡ some (record { value = if ok then 1 else 0; state = card_in h mmc blk s' }))
      × KeepsOutside h buf (n * mmc.read_bl_len) s s'
      × (ok ≡ true
          → ((n ≡ 0) ⊎ (start + n ≤ blk.lba))
            × Filled h disk buf (n * mmc.read_bl_len) (start * mmc.read_bl_len) s')
      × (ok ≡ false → (b : ℕ) × (start ≤ b) × (b < start + n) × Unreadable h mmc blk b)

  ReadAll-append :
      (start buf k m : ℕ) (s s' : h.State) (out : Option (Ret (Sd h.State)))
      → KeepsOutside h buf (k * mmc.read_bl_len) s s'
      → start + k ≤ blk.lba
      → Filled h disk buf (k * mmc.read_bl_len) (start * mmc.read_bl_len) s'
      → ReadAll (start + k) (buf + k * mmc.read_bl_len) m s' out
      → ReadAll start buf (k + m) s out
  ReadAll-append start buf k m s s' out keeps room filled (ok, s'', e, keeps', filled', bad) =
      let bs : ℕ = mmc.read_bl_len in
      let size : (k + m) * bs ≡ k * bs + m * bs = add-mul k m bs in
      let from : (start + k) * bs ≡ start * bs + k * bs = add-mul start k bs in
      (
        ok,
        s'',
        e,
        rw size (KeepsOutside-append h disk buf (k * bs) (m * bs) s s' s'' keeps keeps'),
        λ fine.
            let (within, f) = filled' fine in
            (
              omega arith,
              rw size (
                  Filled-append h disk buf (k * bs) (m * bs) (start * bs) s' s'' filled keeps'
                    (rw from at f)),
            ),
        λ failed. let (b, lo, hi, u) = bad failed in (b, omega arith, omega arith, u),
      )

  -- The read again, after one that left its buffer in disorder.
  ReadAll-retry :
      (start buf k n : ℕ) (s s' : h.State) (out : Option (Ret (Sd h.State)))
      → k ≤ n
      → KeepsOutside h buf (k * mmc.read_bl_len) s s'
      → ReadAll start buf n s' out
      → ReadAll start buf n s out
  ReadAll-retry start buf k n s s' out le keeps (ok, s'', e, keeps', filled, bad) = (
    ok,
    s'',
    e,
    λ a away. keeps' a away ∙ keeps a (omega (arith, mul-le-mul_right mmc.read_bl_len le)),
    filled,
    bad,
  )

  module _ (card : Card h mmc.high_capacity disk) (g : Geometry mmc blk) where
    -- What the rounds from some state on come to.
    abbrev pub Rounds : ℕ → ℕ → ℕ → ℕ → ℕ → h.State → Type 0
    Rounds fuel op start buf n s =
        op + n < fuel
        → 1 ≤ op
        → op ≤ 64
        → (start + n) * mmc.read_bl_len < 2 ^ 64
        → ReadAll start buf n s (
            read_loop h mmc.read_bl_len fuel op (start * mmc.read_bl_len) buf (n * mmc.read_bl_len)
              (card_in h mmc blk s))

    -- A round whose read is of `k` blocks, from the rounds after it.
    round-ReadAll :
        (fuel op start buf n k : ℕ) (s s' : h.State) (ok : Bool)
        → ((op' start' buf' n' : ℕ) (s'' : h.State) → Rounds fuel op' start' buf' n' s'')
        → op + n < suc fuel
        → 1 ≤ op
        → op ≤ 64
        → 1 ≤ n
        → (start + n) * mmc.read_bl_len < 2 ^ 64
        → k ≡ (if ltb op n then op else n)
        → mmc_bread h start k buf (card_in h mmc blk s)
          ≡ some (record { value = if ok then k else 0; state = card_in h mmc blk s' })
        → KeepsOutside h buf (k * mmc.read_bl_len) s s'
        → (ok ≡ true
            → (start + k ≤ blk.lba)
              × Filled h disk buf (k * mmc.read_bl_len) (start * mmc.read_bl_len) s')
        → ReadAll start buf n s (
            read_loop h mmc.read_bl_len
              (suc fuel)
              op
              (start * mmc.read_bl_len)
              buf
              (n * mmc.read_bl_len)
              (card_in h mmc blk s))
    unfolding read_loop
    round-ReadAll fuel op start buf n k s s' ok rest hf op_pos op_max n_pos room hk e keeps filled =
        let bs : ℕ = mmc.read_bl_len in
        let step : read_step h bs op (start * bs) buf (n * bs) (card_in h mmc blk s)
            ≡ some (
                after h bs g.block_len_pos g.block_len_max ok op start k buf n
                  (card_in h mmc blk s')) =
          read_step-after h bs g.block_len_pos g.block_len_max op start k buf n
            (card_in h mmc blk s) (card_in h mmc blk s') ok op_pos op_max n_pos room hk e in
        let le : k ≤ n = ground arith in
        rw (read_loop, step)
          (elim (Bool-cases ok) [
            | inl fine ↦ elim (Bool-cases (ltb op n)) [
              | inl more ↦
                  rw (fine, more)
                    (let all : k + (n - k) ≡ n = omega arith in
                      let room' : (start + k + (n - k)) * mmc.read_bl_len < 2 ^ 64 =
                        (let e' : start + k + (n - k) ≡ start + n = omega arith in rw e' room) in
                      rw all at (
                        ReadAll-append start buf k (n - k) s s' _ keeps (filled fine).0
                          (filled fine).1
                          (rest op (start + k) (buf + k * mmc.read_bl_len) (n - k) s' (ground arith)
                            op_pos op_max room')))
              | inr last ↦
                  rw (fine, last)
                    (let same : k ≡ n = ground arith in
                      (
                        true,
                        s',
                        refl,
                        rw same at keeps,
                        λ t. (inr (rw same at (filled fine).0), rw same at (filled fine).1),
                        λ f. absurd (ground arith),
                      ))
            ]
            | inr failed ↦ elim (Bool-cases (ltb 1 op)) [
              | inl again ↦
                  rw (failed, again)
                    (ReadAll-retry start buf k n s s' _ le keeps (
                      rest (op / 2) start buf n s' (omega arith) (ground arith) (omega arith) room))
              | inr single ↦
                  rw (failed, single)
                    (let one : k ≡ 1 = ground arith in
                      (
                        false,
                        s',
                        refl,
                        λ a away. keeps a (omega (arith, mul-le-mul_right mmc.read_bl_len le)),
                        λ t. absurd (ground arith),
                        λ f. (start, omega arith, omega arith, (buf, s, s', rw (one, failed) at e)),
                      ))
            ]
          ])

    -- The rounds return, whatever the card does.
    pub read_loop-ReadAll : (fuel op start buf n : ℕ) (s : h.State) → Rounds fuel op start buf n s
    unfolding read_loop read_step
    read_loop-ReadAll zero op start buf n s hf op_pos op_max room = absurd (omega arith)
    read_loop-ReadAll (suc fuel) op start buf zero s hf op_pos op_max room =
        let nothing : 0 * mmc.read_bl_len ≡ 0 = omega arith in
        rw (nothing, read_loop, read_step)
          (
            true,
            s,
            refl,
            λ a away. refl,
            λ t. (inl refl, λ i below. absurd (omega arith)),
            λ f. absurd (ground arith),
          )
    read_loop-ReadAll (suc fuel) op start buf (suc n) s hf op_pos op_max room =
        let k : ℕ = if ltb op (suc n) then op else suc n in
        let k_pos : 1 ≤ k = ground arith in
        let (ok, s', e, keeps, filled) = mmc_bread-Bread h disk mmc blk card g start k buf s k_pos (
          let le : k ≤ suc n = ground arith in
          omega (arith, mul-le-mul_left (start + suc n) (g.block_len_pos))) in
        round-ReadAll fuel op start buf (suc n) k s s' ok
          (λ op' start' buf' n' s''. read_loop-ReadAll fuel op' start' buf' n' s'') hf op_pos op_max
          (omega arith) room refl e keeps filled
