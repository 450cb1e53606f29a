-- ===== src/SimpleFb/Rows.antt =====
-- A block transfer of Drivers/SimpleFbDxe/SimpleFbDxe.c, row by row.
use nintendo_switch_pkg.Prelude.{
  ℕ, zero, suc, ◌+◌, ◌≤◌, ◌<◌, ◌≡◌, ◌⊎◌, refl, inl, inr, arith, ◌==◌, Bool-cases, ◌∙◌,
}
use nintendo_switch_pkg.SimpleFb.{Bytes, Firmware, MovesBytes, each_row}

-- Address `a` is in none of the rows at `dst i`, of `len` bytes, from `i` up to `end`.
abbrev pub OffRows : (ℕ → ℕ) → ℕ → ℕ → ℕ → ℕ → Type 0
OffRows dst len start end a = (i : ℕ) → start ≤ i → i < end → (a < dst i) ⊎ (dst i + len ≤ a)

each_row-outside :
    (body : ℕ → Bytes → Bytes) (dst : ℕ → ℕ) (len n start a : ℕ) (mem : Bytes)
    → ((i : ℕ) (mem' : Bytes) → (a < dst i) ⊎ (dst i + len ≤ a) → body i mem' a ≡ mem' a)
    → OffRows dst len start (start + n) a
    → each_row body n start mem a ≡ mem a
unfolding each_row
each_row-outside body dst len zero start a mem keeps off = refl
each_row-outside body dst len (suc n) start a mem keeps off =
    each_row-outside body dst len n (start + 1) a (body start mem) keeps
      (λ i lo hi. off i (omega arith) (omega arith))
    ∙ keeps start mem (off start (omega arith) (omega arith))

-- Rows that do not overlap each other, and that are read before they are written.
module _ (fw : Firmware) (moves : MovesBytes fw) (dst src : ℕ → ℕ) (len : ℕ) where
  abbrev pub copy_rows : ℕ → ℕ → Bytes → Bytes
  copy_rows n start = each_row (λ i. fw.copy_mem (dst i) (src i) len) n start

  pub copy_rows-outside :
      (n a : ℕ) (mem : Bytes) → OffRows dst len 0 n a → copy_rows n 0 mem a ≡ mem a
  copy_rows-outside n a mem off =
      let whole : 0 + n ≡ n = omega arith in
      each_row-outside _ dst len n 0 a mem
        (λ i mem' out. moves.copy_outside (dst i) (src i) len a mem' out) (rw whole off)

  -- Byte `k` of row `i` is off the later rows, and its source off the earlier ones.
  abbrev pub Apart : ℕ → ℕ → Type 0
  Apart n k =
      (i : ℕ) → i < n → OffRows dst len (i + 1) n (dst i + k) × OffRows dst len 0 i (src i + k)

  copied_from :
      (n start end i k : ℕ) (mem : Bytes)
      → start + n ≡ end
      → Apart end k
      → start ≤ i
      → i < end
      → k < len
      → copy_rows n start mem (dst i + k) ≡ mem (src i + k)
  unfolding each_row
  copied_from zero start end i k mem whole apart lo hi small = absurd (omega arith)
  copied_from (suc n) start end i k mem whole apart lo hi small =
      let next : Bytes = fw.copy_mem (dst start) (src start) len mem in
      elim (Bool-cases (start == i)) [
        | inl here ↦
            let e : start ≡ i = ground arith in
            rw e (
              each_row-outside _ dst len n (i + 1) (dst i + k) (fw.copy_mem (dst i) (src i) len mem)
                (λ j mem' out. moves.copy_outside (dst j) (src j) len (dst i + k) mem' out)
                (λ j lo' hi'. (apart i hi).0 j lo' (omega arith))
              ∙ moves.copied (dst i) (src i) len k mem small)
        | inr later ↦
            copied_from n (start + 1) end i k next (omega arith) apart (ground arith) hi small
            ∙ moves.copy_outside (dst start) (src start) len (src i + k) mem
                ((apart i hi).1 start (omega arith) (ground arith))
      ]

  pub copy_rows-copied :
      (n i k : ℕ) (mem : Bytes)
      → Apart n k
      → i < n
      → k < len
      → copy_rows n 0 mem (dst i + k) ≡ mem (src i + k)
  copy_rows-copied n i k mem apart hi small =
      copied_from n 0 n i k mem (omega arith) apart (omega arith) hi small
