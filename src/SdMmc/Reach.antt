-- ===== src/SdMmc/Reach.antt =====
-- What `tegra_mmc_send_cmd` of Drivers/SdMmcDxe/SdMmc.c and the bounce buffer rely on: the firmware's
-- services, and a controller that transfers to the buffers that DMA reaches.
use Prim.Native.Nat.{bit_and}
use native.Mathlib.Nat.{div-add-mod', mod-lt}
use nintendo_switch_pkg.Prelude.{
  ℕ, ◌+◌, ◌-◌, ◌*◌, ◌%◌, ◌≤◌, ◌<◌, ◌≡◌, ◌≢◌, ◌⊎◌, Bool, true, Option, some, arith,
}
use nintendo_switch_pkg.SdMmc.{Cmd, Data, Outcome}
use nintendo_switch_pkg.BounceBuf.{Machine, low_memory_top, size_to_pages, roundup}
use nintendo_switch_pkg.SdMmc.Bounced.{transfer_len}

-- What UEFI says of its services: pages that are allocated were free, start at a page and end by the
-- highest address asked for, and can be freed; CopyMem copies; none of them changes other memory. The
-- alignment for DMA is a power of two and at most a page.
pub record Firmware (m : Machine) : Type 0 where
  pub is_free : m.State → ℕ → Bool
  pub is_allocated : m.State → ℕ → ℕ → Bool
  pub align_small : m.min_align ≤ 4096
  pub align_pos : 0 < m.min_align
  pub align_power : bit_and m.min_align (m.min_align - 1) ≡ 0
  pub page_aligned : (page : ℕ) → page % 4096 ≡ 0 → bit_and page (m.min_align - 1) ≡ 0
  pub granted :
      (top pages page : ℕ) (st : m.State)
      → 0 < pages
      → (m.allocate_pages top pages st).address ≡ some page
      → (page % 4096 ≡ 0)
        × (page + pages * 4096 ≤ top + 1)
        × ((i : ℕ) → i < pages * 4096 → is_free st (page + i) ≡ true)
        × (is_allocated (m.allocate_pages top pages st).state page pages ≡ true)
  pub allocate_kept :
      (top pages : ℕ) (st : m.State) (x : ℕ)
      → m.memory (m.allocate_pages top pages st).state x ≡ m.memory st x
  pub copied :
      (dst src n : ℕ) (st : m.State) (i : ℕ)
      → i < n
      → m.memory (m.copy_mem dst src n st) (dst + i) ≡ m.memory st (src + i)
  pub copy_kept :
      (dst src n : ℕ) (st : m.State) (x : ℕ)
      → (x < dst) ⊎ (dst + n ≤ x)
      → m.memory (m.copy_mem dst src n st) x ≡ m.memory st x
  pub copy_allocated :
      (dst src n : ℕ) (st : m.State) (page pages : ℕ)
      → is_allocated (m.copy_mem dst src n st) page pages ≡ is_allocated st page pages
  pub freed :
      (page pages : ℕ) (st : m.State)
      → is_allocated st page pages ≡ true
      → (m.free_pages page pages st).ok ≡ true
  pub free_kept :
      (page pages : ℕ) (st : m.State) (x : ℕ)
      → (x < page) ⊎ (page + pages * 4096 ≤ x)
      → m.memory (m.free_pages page pages st).state x ≡ m.memory st x

-- A read is a read of the card: `bit_and flags 1` is MMC_DATA_READ.
abbrev pub IsCardRead : Data → Type 0
IsCardRead d = bit_and d.flags 1 ≢ 0

-- The controller with the card, called with a buffer that DMA reaches: the error and the bytes depend
-- on the command and on what the card holds, the bytes go to the buffer, and other memory is left.
pub record Dma (m : Machine) (fw : Firmware m)
    (send_bounced : Cmd → Option Data → ℕ → m.State → Option (Outcome m.State)) : Type 0 where
  pub code : Cmd → Data → m.State → ℕ
  pub content : Cmd → Data → m.State → ℕ → ℕ
  pub allocate_code :
      (c : Cmd) (d : Data) (top pages : ℕ) (st : m.State)
      → code c d (m.allocate_pages top pages st).state ≡ code c d st
  pub allocate_content :
      (c : Cmd) (d : Data) (top pages : ℕ) (st : m.State) (i : ℕ)
      → content c d (m.allocate_pages top pages st).state i ≡ content c d st i
  pub reads :
      (c : Cmd) (d : Data) (buffer : ℕ) (st : m.State)
      → IsCardRead d
      → bit_and buffer (m.min_align - 1) ≡ 0
      → buffer < low_memory_top
      → (o : Outcome m.State) × (send_bounced c (some d) buffer st ≡ some o)
        × (o.err ≡ code c d st)
        × (o.err ≡ 0
            → (i : ℕ) → i < transfer_len d
            → m.memory o.state (buffer + i) ≡ content c d st i)
        × ((x : ℕ)
            → (x < buffer) ⊎ (buffer + transfer_len d ≤ x)
            → m.memory o.state x ≡ m.memory st x)
        × ((page pages : ℕ) → fw.is_allocated o.state page pages ≡ fw.is_allocated st page pages)

pub len-le-roundup : (len align : ℕ) → 0 < align → len ≤ roundup len align
unfolding roundup
len-le-roundup len align pos =
    let x = len + (align - 1) in omega (arith, div-add-mod' x align, mod-lt x {m = align} pos)

pub le-size_to_pages : (size : ℕ) → size ≤ size_to_pages size * 4096
unfolding size_to_pages
le-size_to_pages size = ground arith

pub size_to_pages-pos : (size : ℕ) → 0 < size → 0 < size_to_pages size
unfolding size_to_pages
size_to_pages-pos size pos = ground arith
