-- ===== src/SdMmc/BlockStep.antt =====
-- A round of `MmcReadInternal` of Drivers/SdMmcDxe/EfiBlkDeviceOp.c, counted in blocks.
use nintendo_switch_pkg.Prelude.{
  ℕ, ◌+◌, ◌-◌, ◌*◌, ◌/◌, ◌%◌, ◌^◌, ◌≤◌, ◌<◌, ◌≡◌, refl, inl, inr, Bool, false, some, arith, ltb,
  ◌==◌, if◌then◌else◌, Bool-cases, ap,
}
use native.Mathlib.Nat.{
  mul-le-mul, mul-le-mul_right, mul-lt-mul_of_pos_right, mul-div_left, add-mul,
}
use nintendo_switch_pkg.SdMmc.{Host, Sd}
use nintendo_switch_pkg.SdMmc.Read.{mmc_bread}
use nintendo_switch_pkg.SdMmc.BlockIo.{Next, done, go, read_step}

module _ (h : Host) (bs : ℕ) (pos : 1 ≤ bs) (max : bs ≤ 512) where
  -- What a round does from the outcome `ok` of its read of `k` blocks.
  abbrev pub after : Bool → ℕ → ℕ → ℕ → ℕ → ℕ → Sd h.State → Next (Sd h.State)
  after ok op start k buf n sd =
      if ok
      then if ltb op n then go op ((start + k) * bs) (buf + k * bs) ((n - k) * bs) sd else done 1 sd
      else if ltb 1 op
      then go (op / 2) (start * bs) buf (n * bs) sd
      else done 0 sd

  more_blocks : (op n : ℕ) → ltb (bs * op) (n * bs) ≡ ltb op n
  more_blocks op n = elim (Bool-cases (ltb op n)) [
    | inl less ↦
        let small : op < n = ground arith in
        ground (arith, mul-lt-mul_of_pos_right {m = op} {n = n} {k = bs} small pos)
    | inr more ↦
        let large : n ≤ op = ground arith in
        ground (arith, mul-le-mul_right {m = n} {n = op} bs large)
  ]

  cur_blocks :
      (op n k : ℕ)
      → k ≡ (if ltb op n then op else n)
      → (if ltb op n then bs * op else n * bs) ≡ k * bs
  cur_blocks op n k hk = elim (Bool-cases (ltb op n)) [
    | inl less ↦ let e : k ≡ op = ground arith in rw (less, e) (omega arith)
    | inr more ↦ let e : k ≡ n = ground arith in rw (more, e) refl
  ]

  op_size : (op : ℕ) → op ≤ 64 → bs * op % 2 ^ 32 ≡ bs * op
  op_size op small = omega (arith, mul-le-mul max small)

  next_block :
      (start k n : ℕ)
      → k ≤ n
      → (start + n) * bs < 2 ^ 64
      → (start * bs + k * bs) % 2 ^ 64 ≡ (start + k) * bs
  next_block start k n le room = omega (arith, mul-le-mul_right {m = k} {n = n} bs le)

  blocks_left : (n k : ℕ) → k ≤ n → n * bs - k * bs ≡ (n - k) * bs
  blocks_left n k le =
      let all : k + (n - k) ≡ n = omega arith in
      omega (arith, ap (λ (x : ℕ). x * bs) all, add-mul k (n - k) bs)

  some_left : (n : ℕ) → 1 ≤ n → (n * bs == 0) ≡ false
  some_left n h' = ground (arith, mul-le-mul h' pos)

  pub read_step-after :
      (op start k buf n : ℕ) (sd sd' : Sd h.State) (ok : Bool)
      → 1 ≤ op
      → op ≤ 64
      → 1 ≤ n
      → (start + n) * bs < 2 ^ 64
      → k ≡ (if ltb op n then op else n)
      → mmc_bread h start k buf sd ≡ some (record { value = if ok then k else 0; state = sd' })
      → read_step h bs op (start * bs) buf (n * bs) sd ≡ some (after ok op start k buf n sd')
  unfolding read_step
  read_step-after op start k buf n sd sd' ok op_pos op_max n_pos room hk e =
      let le : k ≤ n = ground arith in
      let small : (k % 2 ^ 32 == 0) ≡ false = ground arith in
      rw
        (
          op_size op op_max,
          some_left n n_pos,
          more_blocks op n,
          cur_blocks op n k hk,
          mul-div_left start pos,
          mul-div_left k pos,
          e,
          next_block start k n le room,
          blocks_left n k le,
        )
        (elim (Bool-cases ok) [ inl fine ↦ rw (fine, small) refl | inr failed ↦ rw failed refl ])
