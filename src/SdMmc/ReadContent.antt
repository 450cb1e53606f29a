-- ===== src/SdMmc/ReadContent.antt =====
-- What `mmc_read_blocks` and `mmc_bread` of Drivers/SdMmcDxe/MmcHostOp.c leave in main memory.
use nintendo_switch_pkg.Prelude.{
  ℕ, zero, suc, ◌+◌, ◌-◌, ◌*◌, ◌%◌, ◌^◌, ◌≤◌, ◌<◌, ◌≡◌, refl, inl, inr, Bool, true, false, none,
  some, arith, ltb, ◌==◌, if◌then◌else◌, ◌∙◌, Bool-cases, ap,
}
use native.Mathlib.Nat.{mul-lt-mul_of_pos_right, mul-le-mul_right, add-mul}
use nintendo_switch_pkg.SdMmc.{Cmd, Data, Outcome, Host, Ret, Mmc, BlkDesc}
use nintendo_switch_pkg.SdMmc.Read.{
  read_cmd, read_data, stop_cmd, not_zero, mmc_read_blocks, bread_loop,
}
use nintendo_switch_pkg.SdMmc.Card.{
  IsRead, position, Filled, KeepsOutside, Card, Geometry, Filled-append, KeepsOutside-append,
}

IsRead-read_cmd :
    (mmc : Mmc) (dst start n : ℕ)
    → 1 ≤ n
    → n < 2 ^ 32
    → IsRead (read_cmd mmc start n) (read_data mmc dst n)
unfolding read_cmd read_data
IsRead-read_cmd mmc dst start n h h' = ground arith

read-position :
    (mmc : Mmc) (blk : BlkDesc) (start n : ℕ)
    → Geometry mmc blk
    → 1 ≤ n
    → start + n ≤ blk.lba
    → position mmc.high_capacity (read_cmd mmc start n).cmdarg ≡ start * mmc.read_bl_len
unfolding read_cmd
read-position mmc blk start n g h room = elim (g.bytes_fit) [
  | inl (hc, e) ↦ rw (hc, e) (omega arith)
  | inr (sc, e) ↦
      let fits : start * mmc.read_bl_len < 2 ^ 32 = omega (
        arith,
        mul-lt-mul_of_pos_right {m = start} {n = blk.lba} {k = mmc.read_bl_len} (omega arith)
            (omega arith),
      ) in
      rw sc (omega arith)
]

-- The effect of a read of `n` bytes to `dst`, where `ok` says whether it went well.
pub record Transfer (h : Host) (disk : ℕ → ℕ) (block_len : h.State → ℕ) (dst n src : ℕ) (ok : Bool)
    (s s' : h.State) : Type 0 where
  pub outside : KeepsOutside h dst n s s'
  pub kept_len : block_len s' ≡ block_len s
  pub filled : ok ≡ true → Filled h disk dst n src s'

module _ (h : Host) (disk : ℕ → ℕ) (mmc : Mmc) (blk : BlkDesc)
    (card : Card h mmc.high_capacity disk) (g : Geometry mmc blk) where
  abbrev pub Moves : ℕ → ℕ → ℕ → Bool → h.State → h.State → Type 0
  Moves dst n start ok s s' =
      Transfer h disk card.block_len dst (n * mmc.read_bl_len) (start * mmc.read_bl_len) ok s s'

  -- The command with the transfer.
  read_command-Moves :
      (dst start n : ℕ) (s : h.State)
      → 1 ≤ n
      → n < 2 ^ 32
      → start + n ≤ blk.lba
      → card.block_len s ≡ mmc.read_bl_len
      → Moves dst n start
          ((h.send_cmd (read_cmd mmc start n) (some (read_data mmc dst n)) s).err == 0)
          s
          ((h.send_cmd (read_cmd mmc start n) (some (read_data mmc dst n)) s).state)
  unfolding read_data
  read_command-Moves dst start n s pos small room len =
      let c : Cmd = read_cmd mmc start n in
      let d : Data = read_data mmc dst n in
      let r : IsRead c d = IsRead-read_cmd mmc dst start n pos small in
      let size : d.blocks * d.blocksize ≡ n * mmc.read_bl_len =
        ap (λ b. b * mmc.read_bl_len) (omega arith) in
      let from : position mmc.high_capacity c.cmdarg ≡ start * mmc.read_bl_len =
        read-position mmc blk start n g pos room in
      record {
        outside = λ a out. card.read_outside c d s r a (rw size out);
        kept_len = card.read_block_len c d s;
        filled = λ e i below.
            rw (← from) (card.read_inside c d s r len (ground arith) i (rw size below));
      }

  Moves-stop :
      (dst start n : ℕ) (ok : Bool) (s s' : h.State)
      → Moves dst n start ok s s'
      → Moves dst n start ok s ((h.send_cmd stop_cmd none s').state)
  Moves-stop dst start n ok s s' m = record {
    outside = λ a out. card.command_memory stop_cmd s' a ∙ m.outside a out;
    kept_len = card.stop_block_len s' ∙ m.kept_len;
    filled = λ e i small. card.command_memory stop_cmd s' _ ∙ m.filled e i small;
  }

  Moves-weaken :
      (dst start n : ℕ) (ok ok' : Bool) (s s' : h.State)
      → (ok' ≡ true → ok ≡ true)
      → Moves dst n start ok s s'
      → Moves dst n start ok' s s'
  Moves-weaken dst start n ok ok' s s' w m = record {
    outside = m.outside;
    kept_len = m.kept_len;
    filled = λ e. m.filled (w e);
  }

  mmc_read_blocks-Moves :
      (dst start n : ℕ) (s : h.State)
      → 1 ≤ n
      → n < 2 ^ 32
      → start + n ≤ blk.lba
      → card.block_len s ≡ mmc.read_bl_len
      → Moves dst n start
          ((mmc_read_blocks h mmc dst start n s).value == n)
          s
          (mmc_read_blocks h mmc dst start n s).state
  unfolding mmc_read_blocks not_zero
  mmc_read_blocks-Moves dst start n s pos small room len =
      let o : Outcome h.State = h.send_cmd (read_cmd mmc start n) (some (read_data mmc dst n)) s in
      let moved : Moves dst n start (o.err == 0) s o.state =
        read_command-Moves dst start n s pos small room len in
      let stop : Outcome h.State = h.send_cmd stop_cmd none o.state in
      elim (Bool-cases (o.err == 0)) [
        | inl fine ↦ elim (Bool-cases (ltb 1 n)) [
          | inl many ↦ elim (Bool-cases (stop.err == 0)) [
            | inl stopped ↦
                rw (fine, many, stopped)
                  (Moves-weaken dst start n _ _ s _ (λ e. fine)
                    (Moves-stop dst start n _ s o.state moved))
            | inr broken ↦
                rw (fine, many, broken)
                  (Moves-weaken dst start n _ _ s _ (λ e. fine)
                    (Moves-stop dst start n _ s o.state moved))
          ]
          | inr one ↦ rw (fine, one) (Moves-weaken dst start n _ _ s _ (λ e. fine) moved)
        ]
        | inr failed ↦ rw failed (Moves-weaken dst start n _ _ s _ (λ e. ground arith) moved)
      ]

  Moves-append :
      (dst n m start : ℕ) (ok : Bool) (s s' s'' : h.State)
      → Moves dst n start true s s'
      → Moves (dst + n * mmc.read_bl_len) m (start + n) ok s' s''
      → Moves dst (n + m) start ok s s''
  Moves-append dst n m start ok s s' s'' a b =
      let k : ℕ = mmc.read_bl_len in
      let size : (n + m) * k ≡ n * k + m * k = add-mul n m k in
      let from : (start + n) * k ≡ start * k + n * k = add-mul start n k in
      record {
        outside =
            rw size (KeepsOutside-append h disk dst (n * k) (m * k) s s' s'' a.outside b.outside);
        kept_len = b.kept_len ∙ a.kept_len;
        filled = λ e. rw size (
            Filled-append h disk dst (n * k) (m * k) (start * k) s' s'' (a.filled refl) b.outside
              (rw from at (b.filled e)));
      }

  -- A failed read of a part.
  Moves-part :
      (dst n m start : ℕ) (ok : Bool) (s s' : h.State)
      → n ≤ m
      → Moves dst n start ok s s'
      → Moves dst m start false s s'
  Moves-part dst n m start ok s s' le a = record {
    outside = λ x out. a.outside x (omega (arith, mul-le-mul_right mmc.read_bl_len le));
    kept_len = a.kept_len;
    filled = λ e. absurd (ground arith);
  }

  abbrev pub LoopMoves : ℕ → ℕ → ℕ → ℕ → h.State → Type 0
  LoopMoves fuel todo start dst s =
      (r : Ret h.State) × (bread_loop h fuel mmc todo start dst s ≡ some r)
      × Moves dst todo start (r.value == 1) s r.state

  -- A round, from the rounds after it.
  bread_round-Moves :
      (fuel todo cur start dst : ℕ) (s : h.State)
      → cur ≡ (if ltb mmc.b_max todo then mmc.b_max else todo)
      → 1 ≤ todo
      → start + todo ≤ blk.lba
      → Moves dst cur start
          ((mmc_read_blocks h mmc dst start cur s).value == cur)
          s
          (mmc_read_blocks h mmc dst start cur s).state
      → ((s' : h.State)
          → card.block_len s' ≡ mmc.read_bl_len
          → 1 ≤ todo - cur
          → LoopMoves fuel (todo - cur) (start + cur) (dst + cur * mmc.read_bl_len) s')
      → card.block_len s ≡ mmc.read_bl_len
      → LoopMoves (suc fuel) todo start dst s
  unfolding bread_loop
  bread_round-Moves fuel todo cur start dst s hc pos room moved rest len =
      let r : Ret h.State = mmc_read_blocks h mmc dst start cur s in
      let le : cur ≤ todo = ground arith in
      elim (Bool-cases (r.value == cur)) [
        | inr failed ↦ (
          record { value = 0; state = r.state },
          rw (← hc, failed) refl,
          Moves-part dst cur todo start _ s r.state le moved,
        )
        | inl fine ↦ elim (Bool-cases (todo - cur == 0)) [
          | inl last ↦ (
            record { value = 1; state = r.state },
            rw (← hc, fine, last) refl,
            (let all : cur ≡ todo = ground arith in rw (← all) (rw fine at moved)),
          )
          | inr more ↦
              let (r', e', m') = rest r.state (moved.kept_len ∙ len) (ground arith) in
              let next : (start + cur) % 2 ^ 64 ≡ start + cur = omega (arith, g.blocks_fit) in
              let all : cur + (todo - cur) ≡ todo = omega arith in
              (
                r',
                rw (← hc, fine, more, next) e',
                rw all at (
                    Moves-append dst cur (todo - cur) start _ s r.state r'.state (rw fine at moved)
                      m'),
              )
        ]
      ]

  -- The loop returns, and what it returns tells whether all the blocks were moved.
  pub bread_loop-Moves :
      (fuel todo start dst : ℕ) (s : h.State)
      → todo < fuel
      → 1 ≤ todo
      → start + todo ≤ blk.lba
      → card.block_len s ≡ mmc.read_bl_len
      → LoopMoves fuel todo start dst s
  bread_loop-Moves zero todo start dst s hf pos room len = absurd (omega arith)
  bread_loop-Moves (suc fuel) todo start dst s hf pos room len =
      let cur : ℕ = if ltb mmc.b_max todo then mmc.b_max else todo in
      let pos' : 1 ≤ cur = ground (arith, g.b_max_pos) in
      let small : cur < 2 ^ 32 = ground (arith, g.b_max_fits, g.blocks_fit) in
      let le : cur ≤ todo = ground arith in
      bread_round-Moves fuel todo cur start dst s refl pos room
        (mmc_read_blocks-Moves dst start cur s pos' small (omega arith) len)
        (λ s' len' more.
          bread_loop-Moves fuel (todo - cur) (start + cur) (dst + cur * mmc.read_bl_len) s'
            (omega arith) more (omega arith) len')
        len
