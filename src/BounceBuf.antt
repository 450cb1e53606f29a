-- ===== src/BounceBuf.antt =====
-- The buffer between a caller's memory and DMA, Library/DmaBounceBufferLib/BounceBuf.c. The page
-- allocator and CopyMem of the firmware are parameters; the cache is not modelled.
use Prim.Native.Nat.{bit_and}
use nintendo_switch_pkg.Prelude.{
  ℕ, ◌+◌, ◌-◌, ◌*◌, ◌/◌, ◌%◌, ◌^◌, Bool, not, ◌&&◌, ◌||◌, Option, none, some, ltb, ◌==◌,
  if◌then◌else◌,
}
use nintendo_switch_pkg.Prelude.Assert.{◌>>=◌, ◌>>◌, assert}

-- `gBS->AllocatePages`: `none` where it fails. `gBS->FreePages`: whether it succeeds.
pub record Allocation (S : Type 0) : Type 0 where
  pub address : Option ℕ
  pub state : S

pub record Freed (S : Type 0) : Type 0 where
  pub ok : Bool
  pub state : S

-- The firmware's services, with the bytes of main memory. `copy_mem` has CopyMem's arguments: the
-- destination, the source and the length. `min_align` is ARCH_DMA_MINALIGN, a constant of the compiler.
pub record Machine : Type 1 where
  pub State : Type 0
  pub memory : State → ℕ → ℕ
  pub min_align : ℕ
  pub copy_mem : ℕ → ℕ → ℕ → State → State
  pub allocate_pages : ℕ → ℕ → State → Allocation State
  pub free_pages : ℕ → ℕ → State → Freed State

-- `struct bounce_buffer`.
pub record BounceBuffer : Type 0 where
  pub user_buffer : ℕ
  pub bounce_buffer : ℕ
  pub len : ℕ
  pub len_aligned : ℕ
  pub flags : ℕ

-- A buffer that was allocated; the address 0 is NULL.
pub record Buffer (S : Type 0) : Type 0 where
  pub address : ℕ
  pub state : S

-- What `bounce_buffer_start` returns, and leaves.
pub record Started (S : Type 0) : Type 0 where
  pub err : ℕ
  pub buffer : BounceBuffer
  pub state : S

-- PcdSystemMemoryBase is 2 GiB.
abbrev pub low_memory_top : ℕ
low_memory_top = 0xC0000000

abbrev pub enomem : ℕ
enomem = 12

-- EFI_SIZE_TO_PAGES and `roundup`.
unfoldable pub size_to_pages : ℕ → ℕ
size_to_pages size = size / 4096 + (if size % 4096 == 0 then 0 else 1)

unfoldable pub roundup : ℕ → ℕ → ℕ
roundup x y = (x + (y - 1)) / y * y

unfoldable pub or_null : {S : Type 0} → Allocation S → Buffer S
or_null r = let a = or_zero r.address in record { address = a; state = r.state }
  where
    or_zero : Option ℕ → ℕ
    or_zero none = 0
    or_zero (some a) = a

unfoldable pub addr_lower_32bit : BounceBuffer → Bool
addr_lower_32bit b = ltb b.bounce_buffer low_memory_top

module _ (m : Machine) where
  -- Pages before or after the aligned ones are given back.
  unfoldable pub free_some : ℕ → ℕ → m.State → Option m.State
  free_some a pages st =
      let r = m.free_pages a pages st in
      if ltb 0 pages then assert r.ok >> some r.state else some st

  -- `InternalAllocateAlignedPages32`, for an alignment above the size of a page.
  unfoldable pub trim : ℕ → ℕ → ℕ → Allocation m.State → Option (Buffer m.State)
  trim pages alignment real r = at r.address
    where
      at : Option ℕ → Option (Buffer m.State)
      at none = some (record { address = 0; state = r.state })
      at (some a) =
          let top = (a + (alignment - 1)) % 2 ^ 64 in
          let aligned = top - bit_and top (alignment - 1) in
          let unaligned = size_to_pages (aligned - a) in
          free_some a unaligned r.state >>= λ st.
          free_some (aligned + pages * 4096) (real - pages - unaligned) st >>= λ st'.
          some (record { address = aligned; state = st' })

  unfoldable pub internal_allocate_aligned_pages_32 : ℕ → ℕ → m.State → Option (Buffer m.State)
  internal_allocate_aligned_pages_32 pages alignment st =
      let real = (pages + size_to_pages alignment) % 2 ^ 64 in
      let more =
        assert (ltb pages real)
        >> trim pages alignment real (m.allocate_pages low_memory_top real st) in
      let plain = some (or_null (m.allocate_pages low_memory_top pages st)) in
      assert (bit_and alignment (alignment - 1) == 0)
      >> (if pages == 0
          then some (record { address = 0; state = st })
          else if ltb 4096 alignment
          then more
          else plain)

  unfoldable pub free_aligned_pages_32 : ℕ → ℕ → m.State → Option m.State
  free_aligned_pages_32 a pages st =
      let r = m.free_pages a pages st in assert (ltb 0 pages) >> (assert r.ok >> some r.state)

  unfoldable pub addr_aligned : BounceBuffer → Bool
  addr_aligned b = (bit_and b.user_buffer (m.min_align - 1) == 0) && (b.len == b.len_aligned)

  -- GEN_BB_READ is 1. A failed allocation is the error, and leaves NULL in the buffer.
  unfoldable pub bounce_buffer_start : ℕ → ℕ → ℕ → m.State → Option (Started m.State)
  bounce_buffer_start user len flags st =
      let b : BounceBuffer = record {
        user_buffer = user;
        bounce_buffer = user;
        len = len;
        len_aligned = roundup len m.min_align;
        flags = flags;
      } in
      let bounced =
        internal_allocate_aligned_pages_32 (size_to_pages b.len_aligned) m.min_align st >>= λ a.
        let b' = record b { bounce_buffer = a.address } in
        let copied =
          if bit_and flags 1 == 0 then a.state else m.copy_mem a.address user len a.state in
        if a.address == 0
        then some (record { err = enomem; buffer = b'; state = a.state })
        else some (record { err = 0; buffer = b'; state = copied }) in
      if not (addr_aligned b) || not (addr_lower_32bit b)
      then bounced
      else some (record { err = 0; buffer = b; state = st })

  -- GEN_BB_WRITE is 2.
  unfoldable pub bounce_buffer_stop : BounceBuffer → m.State → Option m.State
  bounce_buffer_stop b st =
      let copied =
        if bit_and b.flags 2 == 0 then st else m.copy_mem b.user_buffer b.bounce_buffer b.len st in
      let freed = free_aligned_pages_32 b.bounce_buffer (size_to_pages b.len_aligned) copied in
      if b.bounce_buffer == b.user_buffer then some st else freed
