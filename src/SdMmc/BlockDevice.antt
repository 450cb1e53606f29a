-- ===== src/SdMmc/BlockDevice.antt =====
-- The block device of Drivers/SdMmcDxe/EfiBlkDeviceOp.c, as its callers see it.
use nintendo_switch_pkg.Prelude.{
  ℕ, suc, ◌+◌, ◌*◌, ◌/◌, ◌%◌, ◌^◌, ◌≤◌, ◌<◌, ◌≡◌, ◌⊎◌, refl, inl, inr, Option, none, some, arith,
  ◌==◌, if◌then◌else◌, Bool-cases, Option-cases, ap,
}
use native.Mathlib.Nat.{
  mul-mod_left, mul-le-mul_left, mul-le-mul_right, mul-le-mul, mul-div_left, div-add-mod',
}
use nintendo_switch_pkg.SdMmc.{Host, Mmc, BlkDesc, Sd}
use nintendo_switch_pkg.SdMmc.BlockIo.{
  EfiStatus, success, device_error, BlockMedia, block_media, mmc_read_internal, Served, read_check,
  mmchs_read_blocks,
}
use nintendo_switch_pkg.SdMmc.Card.{Filled, KeepsOutside, Card, Geometry}
use nintendo_switch_pkg.SdMmc.BlockContent.{card_in, Unreadable, ReadAll, read_loop-ReadAll}

-- A call whose checks pass, from its read.
mmchs_read_blocks-read :
    (h : Host) (media : BlockMedia) (media_id lba size buf bs value : ℕ) (sd sd' : Sd h.State)
    → read_check media media_id lba size buf ≡ none
    → media.block_size ≡ bs
    → lba * bs < 2 ^ 64
    → size < 2 ^ 32
    → mmc_read_internal h bs (lba * bs) buf size sd ≡ some (record { value = value; state = sd' })
    → mmchs_read_blocks h media media_id lba size buf sd
      ≡ some (record { status = if value == 1 then success else device_error; state = sd' })
unfolding mmchs_read_blocks
mmchs_read_blocks-read h media media_id lba size buf bs value sd sd' e same fits small done =
    let first : lba * bs % 2 ^ 64 ≡ lba * bs = omega arith in
    let len : size % 2 ^ 32 ≡ size = omega arith in
    rw (mmchs_read_blocks, e, same, first, len, done) refl

module _ (h : Host) (disk : ℕ → ℕ) (mmc : Mmc) (blk : BlkDesc) where
  -- How a call of MMCHSReadBlocks ends.
  abbrev pub Answered : ℕ → ℕ → ℕ → ℕ → h.State → Option (Served (Sd h.State)) → Type 0
  Answered media_id lba size buf s out =
      ((status : EfiStatus) × (read_check (block_media blk) media_id lba size buf ≡ some status)
        × (out ≡ some (record { status = status; state = card_in h mmc blk s })))
      ⊎ ((s' : h.State) × (out ≡ some (record { status = success; state = card_in h mmc blk s' }))
          × KeepsOutside h buf size s s'
          × Filled h disk buf size (lba * mmc.read_bl_len) s'
          × (lba + size / mmc.read_bl_len ≤ blk.lba))
      ⊎ ((s' : h.State) × (out
            ≡ some (record { status = device_error; state = card_in h mmc blk s' }))
          × KeepsOutside h buf size s s'
          × ((b : ℕ) × (lba ≤ b) × (b < lba + size / mmc.read_bl_len) × Unreadable h mmc blk b))

module _ (h : Host) (disk : ℕ → ℕ) (mmc : Mmc) (blk : BlkDesc)
    (card : Card h mmc.high_capacity disk) (g : Geometry mmc blk) where
  -- On a card that keeps the laws of Card, with a geometry whose addresses fit a command:
  -- MmcReadInternal of `n` blocks from `start`, the range below 2 ^ 64 bytes, returns 1 with the blocks
  -- in the buffer, all of them on the card, or 0, and the read of one of the blocks on its own failed in
  -- some state of the host. Memory outside the buffer and the driver's records are as before.
  pub mmc_read_internal-ReadAll :
      (start buf n : ℕ) (s : h.State)
      → (start + n) * mmc.read_bl_len < 2 ^ 64
      → ReadAll h disk mmc blk start buf n s (
          mmc_read_internal h mmc.read_bl_len
            (start * mmc.read_bl_len)
            buf
            (n * mmc.read_bl_len)
            (card_in h mmc blk s))
  unfolding mmc_read_internal
  mmc_read_internal-ReadAll start buf n s room =
      let fuel : 64 + n < suc (64 + n * mmc.read_bl_len) =
        omega (arith, mul-le-mul_left n (g.block_len_pos)) in
      rw (mul-mod_left start mmc.read_bl_len, mul-mod_left n mmc.read_bl_len)
        (read_loop-ReadAll h disk mmc blk card g (suc (64 + n * mmc.read_bl_len)) 64 start buf n s
          fuel (omega arith) (omega arith) room)

  -- On a card that keeps the laws of Card, with a geometry whose addresses fit a command: if no read of a
  -- single block of [start, start + n) fails, in any state of the host, MmcReadInternal of these blocks,
  -- below 2 ^ 64 bytes, returns 1, with their bytes in the buffer: halving the operation size finds a
  -- size that the card serves.
  pub mmc_read_internal-Complete :
      (start buf n : ℕ) (s : h.State)
      → (start + n) * mmc.read_bl_len < 2 ^ 64
      → ((b : ℕ) → start ≤ b → b < start + n → ¬ Unreadable h mmc blk b)
      → (s' : h.State) × (mmc_read_internal h mmc.read_bl_len
            (start * mmc.read_bl_len)
            buf
            (n * mmc.read_bl_len)
            (card_in h mmc blk s)
          ≡ some (record { value = 1; state = card_in h mmc blk s' }))
        × Filled h disk buf (n * mmc.read_bl_len) (start * mmc.read_bl_len) s'
  mmc_read_internal-Complete start buf n s room good =
      let (ok, s', e, keeps, filled, bad) = mmc_read_internal-ReadAll start buf n s room in
      elim (Bool-cases ok) [
        | inl fine ↦ (s', rw fine at e, (filled fine).1)
        | inr failed ↦ let (b, lo, hi, u) = bad failed in absurd (good b lo hi u)
      ]

  -- What the checks leave.
  checked :
      (media_id lba size buf : ℕ)
      → read_check (block_media blk) media_id lba size buf ≡ none
      → (lba ≤ blk.lba) × (size % blk.blksz ≡ 0) × (1 ≤ size)
  unfolding read_check block_media
  checked media_id lba size buf e = ground arith

  block_bound : (lba n : ℕ) → lba < 2 ^ 32 → n < 2 ^ 32 → (lba + n) * mmc.read_bl_len < 2 ^ 64
  block_bound lba n hl hn =
      let sum : lba + n ≤ 2 ^ 33 = omega arith in omega (arith, mul-le-mul sum (g.block_len_max))

  answered :
      (media_id lba n buf : ℕ) (s : h.State)
      → blk.blksz ≡ mmc.read_bl_len
      → 1 ≤ n
      → n * mmc.read_bl_len < 2 ^ 32
      → lba ≤ blk.lba
      → read_check (block_media blk) media_id lba (n * mmc.read_bl_len) buf ≡ none
      → Answered h disk mmc blk media_id lba (n * mmc.read_bl_len) buf s (
          mmchs_read_blocks h
            (block_media blk)
            media_id
            lba
            (n * mmc.read_bl_len)
            buf
            (card_in h mmc blk s))
  answered media_id lba n buf s same pos small within e =
      let bs : ℕ = mmc.read_bl_len in
      let hn : n ≤ n * bs = omega (arith, mul-le-mul_left n (g.block_len_pos)) in
      let count : n * bs / bs ≡ n = mul-div_left n (g.block_len_pos) in
      let room : (lba + n) * bs < 2 ^ 64 =
        block_bound lba n (omega (arith, g.blocks_fit)) (omega arith) in
      let (ok, s', done, keeps, filled, bad) = mmc_read_internal-ReadAll lba buf n s room in
      let call =
        mmchs_read_blocks-read h (block_media blk) media_id lba (n * bs) buf bs _ _ _ e
          (unfold block_media in same)
          (omega (arith, mul-le-mul_right {m = lba} {n = lba + n} bs (omega arith))) small done in
      elim (Bool-cases ok) [
        | inl fine ↦
            let (inside, f) = filled fine in
            inr (inl (s', rw fine at call, keeps, f, rw count (omega arith)))
        | inr failed ↦
            let (b, lo, hi, u) = bad failed in
            inr (inr (s', rw failed at call, keeps, (b, lo, rw count hi, u)))
      ]

  -- On a card that keeps the laws of Card, with a geometry whose addresses fit a command, and a device
  -- with the blocks of the card: MMCHSReadBlocks of less than 4 GiB returns, and ends in one of three
  -- ways. The checks refuse it or find nothing to read, and the state is as before. Or it succeeds: all
  -- the blocks are on the card and the buffer holds their bytes. Or it is a device error, and the read
  -- of one of the blocks on its own failed in some state of the host. It never changes memory outside
  -- the buffer.
  pub mmchs_read_blocks-Answered :
      (media_id lba size buf : ℕ) (s : h.State)
      → blk.blksz ≡ mmc.read_bl_len
      → size < 2 ^ 32
      → Answered h disk mmc blk media_id lba size buf s
          (mmchs_read_blocks h (block_media blk) media_id lba size buf (card_in h mmc blk s))
  unfolding mmchs_read_blocks
  mmchs_read_blocks-Answered media_id lba size buf s same small =
      elim (Option-cases (read_check (block_media blk) media_id lba size buf)) [
        | inr (status, e) ↦ inl (status, e, rw (mmchs_read_blocks, e) refl)
        | inl e ↦
            let (within, whole, pos) = checked media_id lba size buf e in
            let split : size / mmc.read_bl_len * mmc.read_bl_len ≡ size =
              (let whole' : size % mmc.read_bl_len ≡ 0 = rw same at whole in
                omega (arith, div-add-mod' size mmc.read_bl_len)) in
            rw split at (
              answered media_id lba (size / mmc.read_bl_len) buf s same
                (ground
                  (arith, ap (λ (q : ℕ). q * mmc.read_bl_len) {x = size / mmc.read_bl_len} {y = 0}))
                (rw split small) within (rw split e))
      ]
