-- ===== src/SimpleFb/Tests.antt =====
-- Runs of the frame buffer driver on a small frame.
use nintendo_switch_pkg.Prelude.{
  ℕ, ◌+◌, ◌-◌, ◌/◌, ◌%◌, ◌^◌, ◌≡◌, refl, inl, inr, arith, ltb, leb, ◌==◌, ◌&&◌, if◌then◌else◌, none,
}
use nintendo_switch_pkg.SimpleFb.{
  Bytes, Firmware, MovesBytes, Mode, pos_to_fb, each_row, word_at, fill_row, video_fill,
  buffer_to_video, video_to_video, buffer_row, delta_or, display_blt, simple_fb_mode,
}
use nintendo_switch_pkg.SimpleFb.Blt.{display_blt-to_video, display_blt-within_video}

-- A firmware that copies through another buffer.
abbrev firmware : Firmware
firmware = record {
  copy_mem =
      λ dst src len mem a. if leb dst a && ltb a (dst + len) then mem (src + (a - dst)) else mem a;
  set_mem32 = λ dst len value mem a.
      if leb dst a && ltb a (dst + len) then value / 256 ^ ((a - dst) % 4) % 256 else mem a;
}

offset : (dst k : ℕ) → dst + k - dst ≡ k
offset dst k = omega arith

firmware-MovesBytes : MovesBytes firmware
firmware-MovesBytes = record {
  copied = λ dst src len k mem small. ground (arith, offset dst k);
  copy_outside = λ dst src len a mem out. ground arith;
  filled = λ dst len value k mem whole small. ground (arith, offset dst k);
  fill_outside = λ dst len value a mem out. ground arith;
}

-- Eight pixels by four, at 4096.
abbrev small_frame : Mode
small_frame = record {
  max_mode = 1;
  mode = 0;
  info = record {
    version = 0;
    horizontal_resolution = 8;
    vertical_resolution = 4;
    pixel_format = 1;
    pixels_per_scan_line = 8;
  };
  frame_buffer_base = 4096;
  frame_buffer_size = 128;
}

-- Each byte is its address.
abbrev addresses : Bytes
addresses a = a

-- Two pixels by two, from a buffer at 65536 to (3, 1).
display_blt-to_video_example :
    (display_blt firmware small_frame 65536 buffer_to_video 0 0 3 1 2 2 0 addresses
        (pos_to_fb small_frame 3 (1 + 1) + 5)
      ≡ buffer_row 65536 (delta_or 0 2) 0 (0 + 1) + 5)
    × (display_blt firmware small_frame 65536 buffer_to_video 0 0 3 1 2 2 0 addresses 5000 ≡ 5000)
unfolding pos_to_fb delta_or
display_blt-to_video_example =
    display_blt-to_video firmware small_frame 65536 0 0 3 1 2 2 0 1 5 5000 addresses
      firmware-MovesBytes
      (record {
        fits = omega arith;
        frame = omega arith;
        buffer = omega arith;
        apart = inl (omega arith);
      })
      (omega arith) (omega arith) λ j lo hi. inr (omega arith)

-- One row up, onto itself.
display_blt-within_video_example :
    (display_blt firmware small_frame 0 video_to_video 3 1 3 0 2 2 0 addresses
        (pos_to_fb small_frame 3 (0 + 1) + 5)
      ≡ pos_to_fb small_frame 3 (1 + 1) + 5)
    × (display_blt firmware small_frame 0 video_to_video 3 1 3 0 2 2 0 addresses 5000 ≡ 5000)
unfolding pos_to_fb
display_blt-within_video_example =
    display_blt-within_video firmware small_frame 0 3 1 3 0 2 2 0 1 5 5000 addresses
      firmware-MovesBytes (omega arith) (omega arith) (omega arith) (omega arith) (omega arith)
      (omega arith) λ j lo hi. inr (omega arith)

-- One row down, the second row comes from the first, which was copied over it: it is row 0 and not
-- row 1.
moved_down :
    display_blt firmware small_frame 0 video_to_video 0 0 0 1 2 2 0 addresses
      (pos_to_fb small_frame 0 2)
    ≡ pos_to_fb small_frame 0 0
unfolding display_blt each_row pos_to_fb
moved_down = refl

-- The colour of a fill is that of the first pixel, not of the buffer.
filled :
    display_blt firmware small_frame 65536 video_fill 0 0 1 1 1 1 0
      (λ a. if a == 4096 then 7 else if a == 65536 then 9 else 0)
      (pos_to_fb small_frame 1 1)
    ≡ 7
unfolding display_blt each_row fill_row pos_to_fb word_at
filled = refl

no_frame : simple_fb_mode 0 1280 720 ≡ none
unfolding simple_fb_mode
no_frame = refl
