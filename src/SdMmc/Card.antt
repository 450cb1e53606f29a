-- ===== src/SdMmc/Card.antt =====
-- What the driver relies on of the host controller and the card (the SD specification's CMD12,
-- CMD16, CMD17 and CMD18), and the shape of a transfer to main memory.
use nintendo_switch_pkg.Prelude.{
  ℕ, ◌+◌, ◌-◌, ◌*◌, ◌^◌, ◌≤◌, ◌<◌, ◌≡◌, ◌⊎◌, inl, inr, Bool, true, false, none, some, arith,
  if◌then◌else◌, ◌∙◌, Bool-cases, ltb,
}
use nintendo_switch_pkg.SdMmc.{Cmd, Data, Host, Mmc, BlkDesc}
use nintendo_switch_pkg.SdMmc.Read.{stop_cmd}

-- A single-block read of one block, or a multiple-block read of more.
abbrev pub IsRead : Cmd → Data → Type 0
IsRead c d = ((c.cmdidx ≡ 17) × (d.blocks ≡ 1)) ⊎ ((c.cmdidx ≡ 18) × (1 < d.blocks))

-- The byte that a read starts at: a high-capacity card counts in blocks of 512 bytes.
abbrev pub position : Bool → ℕ → ℕ
position high_capacity arg = if high_capacity then arg * 512 else arg

-- The addresses from `dst` to `dst + n - 1` hold the bytes of the disk from `src` on.
abbrev pub Filled : (h : Host) → (ℕ → ℕ) → ℕ → ℕ → ℕ → h.State → Type 0
Filled h disk dst n src s = (i : ℕ) → i < n → h.memory s (dst + i) ≡ disk (src + i)

-- The other addresses hold what they held.
abbrev pub KeepsOutside : (h : Host) → ℕ → ℕ → h.State → h.State → Type 0
KeepsOutside h dst n s s' = (a : ℕ) → (a < dst) ⊎ (dst + n ≤ a) → h.memory s' a ≡ h.memory s a

-- A card with the bytes `disk`. A command without a transfer leaves memory alone; a read writes to
-- its destination only, and, where it succeeds at the block length in force, writes the bytes that
-- its argument names; CMD16 sets the block length, which reads and CMD12 leave.
pub record Card (h : Host) (high_capacity : Bool) (disk : ℕ → ℕ) : Type 0 where
  pub block_len : h.State → ℕ
  pub command_memory :
      (c : Cmd) (s : h.State) (a : ℕ) → h.memory ((h.send_cmd c none s).state) a ≡ h.memory s a
  pub stop_block_len : (s : h.State) → block_len ((h.send_cmd stop_cmd none s).state) ≡ block_len s
  pub set_block_len :
      (c : Cmd) (s : h.State)
      → c.cmdidx ≡ 16
      → (h.send_cmd c none s).err ≡ 0
      → block_len ((h.send_cmd c none s).state) ≡ c.cmdarg
  pub read_block_len :
      (c : Cmd) (d : Data) (s : h.State) → block_len ((h.send_cmd c (some d) s).state) ≡ block_len s
  pub read_outside :
      (c : Cmd) (d : Data) (s : h.State)
      → IsRead c d
      → KeepsOutside h d.dest (d.blocks * d.blocksize) s ((h.send_cmd c (some d) s).state)
  pub read_inside :
      (c : Cmd) (d : Data) (s : h.State)
      → IsRead c d
      → block_len s ≡ d.blocksize
      → (h.send_cmd c (some d) s).err ≡ 0
      → Filled h disk d.dest
          (d.blocks * d.blocksize)
          (position high_capacity c.cmdarg)
          ((h.send_cmd c (some d) s).state)

-- The driver's view of the card: block addresses fit the argument of a command, and
-- the card is not in double data rate mode, which the driver never enters.
pub record Geometry (mmc : Mmc) (blk : BlkDesc) : Type 0 where
  pub single_rate : mmc.ddr_mode ≡ false
  pub block_len_pos : 1 ≤ mmc.read_bl_len
  pub block_len_max : mmc.read_bl_len ≤ 512
  pub b_max_pos : 1 ≤ mmc.b_max
  pub b_max_fits : mmc.b_max < 2 ^ 32
  pub blocks_fit : blk.lba < 2 ^ 32
  pub bytes_fit :
      (mmc.high_capacity ≡ true) × (mmc.read_bl_len ≡ 512)
      ⊎ (mmc.high_capacity ≡ false) × (blk.lba * mmc.read_bl_len ≤ 2 ^ 32)

module _ (h : Host) (disk : ℕ → ℕ) where
  -- A transfer followed by one that starts where it ends.
  pub Filled-append :
      (dst n m src : ℕ) (s s' : h.State)
      → Filled h disk dst n src s
      → KeepsOutside h (dst + n) m s s'
      → Filled h disk (dst + n) m (src + n) s'
      → Filled h disk dst (n + m) src s'
  Filled-append dst n m src s s' f k g i small = elim (Bool-cases (ltb i n)) [
    | inl first ↦ let below : i < n = ground arith in k (dst + i) (inl (omega arith)) ∙ f i below
    | inr second ↦
        let above : n ≤ i = ground arith in
        let e : dst + i ≡ dst + n + (i - n) = omega arith in
        let e' : src + i ≡ src + n + (i - n) = omega arith in rw (e, e') (g (i - n) (omega arith))
  ]

  pub KeepsOutside-append :
      (dst n m : ℕ) (s s' s'' : h.State)
      → KeepsOutside h dst n s s'
      → KeepsOutside h (dst + n) m s' s''
      → KeepsOutside h dst (n + m) s s''
  KeepsOutside-append dst n m s s' s'' k k' a out = k' a (omega arith) ∙ k a (omega arith)
