-- ===== src/SdMmc/BouncedReads.antt =====
-- A read from the card through `tegra_mmc_send_cmd` of Drivers/SdMmcDxe/SdMmc.c and the bounce buffer,
-- against the read that its caller sees: of any buffer, wherever it lies.
use Prim.Native.Nat.{bit_and}
use nintendo_switch_pkg.Prelude.{
  ℕ, ◌+◌, ◌-◌, ◌*◌, ◌≤◌, ◌<◌, ◌≡◌, ◌≢◌, ◌⊎◌, refl, sym, inl, inr, true, false, not, ◌||◌, Option,
  some, arith, ltb, ◌==◌, ◌∙◌, ap, Bool-cases,
}
use nintendo_switch_pkg.SdMmc.{Cmd, Data, Outcome}
use nintendo_switch_pkg.BounceBuf.{
  Machine, BounceBuffer, low_memory_top, size_to_pages, roundup, addr_aligned, addr_lower_32bit,
  or_null, internal_allocate_aligned_pages_32, free_aligned_pages_32, bounce_buffer_start,
  bounce_buffer_stop,
}
use nintendo_switch_pkg.SdMmc.Bounced.{transfer_len, bounce_flags, tegra_mmc_send_cmd}
use nintendo_switch_pkg.SdMmc.Reach.{Firmware, IsCardRead, Dma, len-le-roundup, le-size_to_pages}

module _ (m : Machine) (fw : Firmware m)
    (send_bounced : Cmd → Option Data → ℕ → m.State → Option (Outcome m.State))
    (dma : Dma m fw send_bounced) (c : Cmd) (d : Data) (st : m.State) where
  -- What the caller of a read sees: the error, its buffer filled where there is none, and the rest of
  -- the memory in use as it was.
  pub record Reads (o : Outcome m.State) : Type 0 where
    pub err : o.err ≡ dma.code c d st
    pub filled :
        o.err ≡ 0
        → (i : ℕ) → i < transfer_len d
        → m.memory o.state (d.dest + i) ≡ dma.content c d st i
    pub kept :
        (x : ℕ)
        → fw.is_free st x ≡ false
        → (x < d.dest) ⊎ (d.dest + transfer_len d ≤ x)
        → m.memory o.state x ≡ m.memory st x

  outside_free :
      (page n x : ℕ)
      → ((i : ℕ) → i < n → fw.is_free st (page + i) ≡ true)
      → fw.is_free st x ≡ false
      → (x < page) ⊎ (page + n ≤ x)
  outside_free page n x free used = elim (Bool-cases (ltb x page)) [
    | inl below ↦ inl (ground arith)
    | inr above ↦ elim (Bool-cases (ltb x (page + n))) [
      | inl inside ↦
          let i : page + (x - page) ≡ x = ground arith in
          let f : fw.is_free st x ≡ true =
            sym (ap (fw.is_free st) i) ∙ free (x - page) (ground arith) in
          absurd (let no : ⊥ = cc in no)
      | inr past ↦ inr (ground arith)
    ]
  ]

  -- The pages that the bounce buffer needs.
  abbrev pages : ℕ
  pages = size_to_pages (roundup (transfer_len d) m.min_align)

  -- The state after the pages are allocated.
  abbrev with_pages : m.State
  with_pages = (m.allocate_pages low_memory_top pages st).state

  abbrev direct : BounceBuffer
  direct = record {
    user_buffer = d.dest;
    bounce_buffer = d.dest;
    len = transfer_len d;
    len_aligned = roundup (transfer_len d) m.min_align;
    flags = bounce_flags d;
  }

  module _ (read : IsCardRead d) where
    flags-read : bounce_flags d ≡ 2
    unfolding bounce_flags
    flags-read = ground arith

    start-direct :
        not (addr_aligned m direct) || not (addr_lower_32bit direct) ≡ false
        → bounce_buffer_start m d.dest (transfer_len d) (bounce_flags d) st
          ≡ some (record { err = 0; buffer = direct; state = st })
    unfolding bounce_buffer_start
    start-direct fits = rw fits refl

    stop-direct : (s : m.State) → bounce_buffer_stop m direct s ≡ some s
    unfolding bounce_buffer_stop
    stop-direct s = ground arith

    direct-reaches :
        not (addr_aligned m direct) || not (addr_lower_32bit direct) ≡ false
        → (bit_and d.dest (m.min_align - 1) ≡ 0) × (d.dest < low_memory_top)
    unfolding addr_aligned addr_lower_32bit
    direct-reaches fits = ground arith

    -- The buffer is used as it is.
    direct-Reads :
        not (addr_aligned m direct) || not (addr_lower_32bit direct) ≡ false
        → (o : Outcome m.State) × (tegra_mmc_send_cmd m send_bounced c (some d) st ≡ some o)
          × Reads o
    unfolding tegra_mmc_send_cmd
    direct-Reads fits =
        let (aligned, low) = direct-reaches fits in
        let (o, sent, err, filled, kept, _) = dma.reads c d d.dest st read aligned low in
        (
          o,
          rw (start-direct fits, sent, stop-direct o.state) refl,
          record { err = err; filled = filled; kept = λ x _ outside. kept x outside },
        )

    -- The pages that the transfer goes to, which the allocator grants.
    module _ (page : ℕ) (some_data : 0 < transfer_len d)
        (granted : (m.allocate_pages low_memory_top pages st).address ≡ some page) where
      abbrev bounced : BounceBuffer
      bounced = record direct { bounce_buffer = page }

      fits-pages : transfer_len d ≤ pages * 4096
      fits-pages = omega (
        arith,
        len-le-roundup (transfer_len d) m.min_align fw.align_pos,
        le-size_to_pages (roundup (transfer_len d) m.min_align),
      )

      pages-pos : 0 < pages
      pages-pos = omega (arith, fits-pages)

      allocated :
          internal_allocate_aligned_pages_32 m pages m.min_align st
          ≡ some (record { address = page; state = with_pages })
      unfolding internal_allocate_aligned_pages_32 or_null
      allocated =
          let some_pages : (pages == 0) ≡ false = ground (arith, pages-pos) in
          let small : ltb 4096 m.min_align ≡ false = ground (arith, fw.align_small) in
          rw (fw.align_power, some_pages, small, granted) refl

      start-bounced :
          not (addr_aligned m direct) || not (addr_lower_32bit direct) ≡ true
          → (e : ℕ) × (bounce_buffer_start m d.dest (transfer_len d) (bounce_flags d) st
              ≡ some (record { err = e; buffer = bounced; state = with_pages }))
      unfolding bounce_buffer_start
      start-bounced far = elim (Bool-cases (page == 0)) [
        | inl null ↦ (12, rw (far, allocated, null, flags-read) refl)
        | inr mapped ↦ (0, rw (far, allocated, mapped, flags-read) refl)
      ]

      -- The copy back, and the release of the pages.
      abbrev copied_back : m.State → m.State
      copied_back s = m.copy_mem d.dest page (transfer_len d) s

      abbrev stopped : m.State → m.State
      stopped s = (m.free_pages page pages (copied_back s)).state

      stop-bounced :
          (s : m.State)
          → page ≢ d.dest
          → fw.is_allocated s page pages ≡ true
          → bounce_buffer_stop m bounced s ≡ some (stopped s)
      unfolding bounce_buffer_stop free_aligned_pages_32
      stop-bounced s apart held =
          let other : (page == d.dest) ≡ false = ground (arith, apart) in
          let ok =
            fw.freed page pages (copied_back s)
              (fw.copy_allocated d.dest page (transfer_len d) s page pages ∙ held) in
          let some_pages : ltb 0 pages ≡ true = ground (arith, pages-pos) in
          rw (other, flags-read, some_pages, ok) refl

      -- The caller's buffer is in use.
      module _ (used : (i : ℕ) → i < transfer_len d → fw.is_free st (d.dest + i) ≡ false) where
        pages-free : (i : ℕ) → i < pages * 4096 → fw.is_free st (page + i) ≡ true
        pages-free =
            let (_, _, free, _) = fw.granted low_memory_top pages page st pages-pos granted in free

        page-apart : page ≢ d.dest
        page-apart same =
            let free : fw.is_free st (page + 0) ≡ true = pages-free 0 (omega (arith, pages-pos)) in
            let held : fw.is_free st (d.dest + 0) ≡ false = used 0 some_data in let f : ⊥ = cc in f

        stopped-filled :
            (s : m.State) (i : ℕ)
            → i < transfer_len d
            → m.memory (stopped s) (d.dest + i) ≡ m.memory s (page + i)
        stopped-filled s i inside =
            fw.free_kept page pages (copied_back s) (d.dest + i)
              (outside_free page (pages * 4096) (d.dest + i) pages-free (used i inside))
            ∙ fw.copied d.dest page (transfer_len d) s i inside

        stopped-kept :
            (s : m.State) (x : ℕ)
            → fw.is_free st x ≡ false
            → (x < d.dest) ⊎ (d.dest + transfer_len d ≤ x)
            → m.memory (stopped s) x ≡ m.memory s x
        stopped-kept s x held outside =
            fw.free_kept page pages (copied_back s) x
              (outside_free page (pages * 4096) x pages-free held)
            ∙ fw.copy_kept d.dest page (transfer_len d) s x outside

        outside_page :
            (x : ℕ)
            → (x < page) ⊎ (page + pages * 4096 ≤ x)
            → (x < page) ⊎ (page + transfer_len d ≤ x)
        outside_page x (inl below) = inl below
        outside_page x (inr above) = inr (omega (arith, above, fits-pages))

        bounced-Reads :
            not (addr_aligned m direct) || not (addr_lower_32bit direct) ≡ true
            → (o : Outcome m.State) × (tegra_mmc_send_cmd m send_bounced c (some d) st ≡ some o)
              × Reads o
        unfolding tegra_mmc_send_cmd
        bounced-Reads far =
            let (at_page, below_top, free, held) =
              fw.granted low_memory_top pages page st pages-pos granted in
            let (e, started) = start-bounced far in
            let low : page < low_memory_top = omega (arith, below_top, pages-pos) in
            let (o, sent, err, filled, kept, same) =
              dma.reads c d page with_pages read (fw.page_aligned page at_page) low in
            let stop = stop-bounced o.state page-apart (same page pages ∙ held) in
            (
              record o { state = stopped o.state },
              rw (started, sent, stop) refl,
              record {
                err = err ∙ dma.allocate_code c d low_memory_top pages st;
                filled = λ ok i inside.
                    stopped-filled o.state i inside
                    ∙ filled ok i inside
                    ∙ dma.allocate_content c d low_memory_top pages st i;
                kept = λ x used_x outside.
                    stopped-kept o.state x used_x outside
                    ∙ kept x (outside_page x (outside_free page (pages * 4096) x free used_x))
                    ∙ fw.allocate_kept low_memory_top pages st x;
              },
            )

-- A read of the card into any buffer that is in use, where the allocator grants the pages of a bounce
-- buffer: the call returns with the error of the transfer; where there is none, the buffer holds the
-- bytes that the card holds, wherever it lies; and all other memory in use is as it was.
pub tegra_mmc_send_cmd-Reads :
    (m : Machine) (fw : Firmware m)
    (send_bounced : Cmd → Option Data → ℕ → m.State → Option (Outcome m.State))
    (dma : Dma m fw send_bounced) (c : Cmd) (d : Data) (st : m.State) (page : ℕ)
    → IsCardRead d
    → 0 < transfer_len d
    → (m.allocate_pages low_memory_top
        (size_to_pages (roundup (transfer_len d) m.min_align))
        st).address
      ≡ some page
    → ((i : ℕ) → i < transfer_len d → fw.is_free st (d.dest + i) ≡ false)
    → (o : Outcome m.State) × (tegra_mmc_send_cmd m send_bounced c (some d) st ≡ some o)
      × Reads m fw send_bounced dma c d st o
tegra_mmc_send_cmd-Reads m fw send_bounced dma c d st page read some_data granted used =
    elim (Bool-cases (
      not (addr_aligned m (direct m fw send_bounced dma c d st))
      || not (addr_lower_32bit (direct m fw send_bounced dma c d st)))) [
        | inl far ↦ bounced-Reads m fw send_bounced dma c d st read page some_data granted used far
        | inr fits ↦ direct-Reads m fw send_bounced dma c d st read fits
      ]
