-- ===== src/SimpleFb/Blt.antt =====
-- What the block transfers of Drivers/SimpleFbDxe/SimpleFbDxe.c copy.
use native.Mathlib.Nat.{mod-eq_of_lt}
use nintendo_switch_pkg.Prelude.{ℕ, ◌+◌, ◌*◌, ◌%◌, ◌^◌, ◌≤◌, ◌<◌, ◌≡◌, ◌⊎◌, inl, inr, arith}
use nintendo_switch_pkg.SimpleFb.{
  Bytes, Firmware, MovesBytes, Mode, pos_to_fb, video_to_blt_buffer, buffer_to_video,
  video_to_video, buffer_row, delta_or, display_blt,
}
use nintendo_switch_pkg.SimpleFb.Rows.{OffRows, Apart, copy_rows-outside, copy_rows-copied}
use nintendo_switch_pkg.SimpleFb.Places.{
  row_le, frame_end, buffer_end, pos_to_fb-plain, buffer_row-plain, frame_rows-apart,
}

-- A rectangle of the frame, at (`dx`, `dy`), and one of a buffer of rows `stride` bytes apart, at
-- (`sx`, `sy`), of which the memory lies one before the other.
pub record Rectangles (m : Mode) (blt stride sx sy dx dy w h : ℕ) : Type 0 where
  pub fits : dx + w ≤ m.info.pixels_per_scan_line
  pub frame : frame_end m (dy + h) < 2 ^ 64
  pub buffer : buffer_end blt stride (sx + w) (sy + h) ≤ 2 ^ 64
  pub apart :
      (frame_end m (dy + h) ≤ blt) ⊎ (buffer_end blt stride (sx + w) (sy + h) ≤ m.frame_buffer_base)

to_video-Apart :
    (fw : Firmware) (moves : MovesBytes fw) (m : Mode) (blt stride sx sy dx dy w h k len : ℕ)
    → Rectangles m blt stride sx sy dx dy w h
    → k < w * 4
    → len ≡ w * 4
    → Apart fw moves (λ i. pos_to_fb m dx (dy + i)) (λ i. buffer_row blt stride sx (sy + i)) len h k
to_video-Apart fw moves m blt stride sx sy dx dy w h k len r small plain i hi = (
  λ j lo below. inl (
      (frame_rows-apart m dx w (dy + i) (dy + j) (dy + h) k small r.fits (omega arith) (omega arith)
        r.frame).0),
  λ j lo below.
      let (e_s, end_s) =
        buffer_row-plain blt stride sx w (sy + i) (sy + h) (omega arith) (omega arith) r.buffer in
      let (e_d, end_d, le_d) =
        pos_to_fb-plain m dx w (dy + j) (dy + h) (omega arith) r.fits (omega arith) r.frame in
      elim r.apart [
        | inl frame_first ↦ inr (omega (arith, e_s, end_d, le_d))
        | inr buffer_first ↦ inl (omega (arith, e_d, end_s))
      ],
)

-- A width that fits is not cut.
width_plain :
    (m : Mode) (x w y end : ℕ)
    → 1 ≤ w
    → x + w ≤ m.info.pixels_per_scan_line
    → y < end
    → frame_end m end < 2 ^ 64
    → w * 4 % 2 ^ 64 ≡ w * 4
width_plain m x w y end pos fits below frame =
    mod-eq_of_lt (omega (arith, row_le m.info.pixels_per_scan_line y end below))

-- Over a CopyMem that copies as if by way of another buffer: DisplayBlt of a buffer to the frame, for
-- rectangles that fit and do not pass the end of the address space, where the memory of the frame up to
-- the end of its rectangle and that of the buffer lie one before the other, puts byte `k` of each row of
-- the buffer's rectangle to its place in the frame's, and leaves every byte outside the frame's rectangle
-- as it is.
pub display_blt-to_video :
    (fw : Firmware) (m : Mode) (blt sx sy dx dy w h delta i k a : ℕ) (mem : Bytes)
    → MovesBytes fw
    → Rectangles m blt (delta_or delta w) sx sy dx dy w h
    → i < h
    → k < w * 4
    → OffRows (λ j. pos_to_fb m dx (dy + j)) (w * 4) 0 h a
    → (display_blt fw m blt buffer_to_video sx sy dx dy w h delta mem (pos_to_fb m dx (dy + i) + k)
        ≡ mem (buffer_row blt (delta_or delta w) sx (sy + i) + k))
      × (display_blt fw m blt buffer_to_video sx sy dx dy w h delta mem a ≡ mem a)
unfolding display_blt
display_blt-to_video fw m blt sx sy dx dy w h delta i k a mem moves r hi small off =
    let dst : ℕ → ℕ = λ j. pos_to_fb m dx (dy + j) in
    let src : ℕ → ℕ = λ j. buffer_row blt (delta_or delta w) sx (sy + j) in
    let len : ℕ = w * 4 % 2 ^ 64 in
    let plain : len ≡ w * 4 =
      width_plain m dx w (dy + i) (dy + h) (omega arith) r.fits (omega arith) r.frame in
    let rows =
      to_video-Apart fw moves m blt (delta_or delta w) sx sy dx dy w h k len r small plain in
    (
      copy_rows-copied fw moves dst src len h i k mem rows hi (omega (arith, plain)),
      copy_rows-outside fw moves dst src len h a mem λ j lo below. rw plain (off j lo below),
    )

from_video-Apart :
    (fw : Firmware) (moves : MovesBytes fw) (m : Mode) (blt stride sx sy dx dy w h k len : ℕ)
    → Rectangles m blt stride dx dy sx sy w h
    → w * 4 ≤ stride
    → k < w * 4
    → len ≡ w * 4
    → Apart fw moves (λ i. buffer_row blt stride dx (dy + i)) (λ i. pos_to_fb m sx (sy + i)) len h k
from_video-Apart fw moves m blt stride sx sy dx dy w h k len r wide small plain i hi = (
  λ j lo below.
      let step = row_le stride (dy + i) (dy + j) (omega arith) in
      let (e_i, _) =
        buffer_row-plain blt stride dx w (dy + i) (dy + h) (omega arith) (omega arith) r.buffer in
      let (e_j, _) =
        buffer_row-plain blt stride dx w (dy + j) (dy + h) (omega arith) (omega arith) r.buffer in
      inl (omega (arith, e_i, e_j, step)),
  λ j lo below.
      let (e_d, end_d) =
        buffer_row-plain blt stride dx w (dy + j) (dy + h) (omega arith) (omega arith) r.buffer in
      let (e_s, end_s, le_s) =
        pos_to_fb-plain m sx w (sy + i) (sy + h) (omega arith) r.fits (omega arith) r.frame in
      elim r.apart [
        | inl frame_first ↦ inl (omega (arith, e_d, end_s, le_s))
        | inr buffer_first ↦ inr (omega (arith, e_s, end_d))
      ],
)

-- Over a CopyMem that copies as if by way of another buffer: DisplayBlt of the frame to a buffer whose
-- rows are at least as far apart as the rectangle is wide, for rectangles that fit, do not overlap and
-- do not pass the end of the address space, puts byte `k` of each row of the frame's rectangle to its
-- place in the buffer's, and leaves every byte outside the buffer's rectangle as it is.
pub display_blt-from_video :
    (fw : Firmware) (m : Mode) (blt sx sy dx dy w h delta i k a : ℕ) (mem : Bytes)
    → MovesBytes fw
    → Rectangles m blt (delta_or delta w) dx dy sx sy w h
    → w * 4 ≤ delta_or delta w
    → i < h
    → k < w * 4
    → OffRows (λ j. buffer_row blt (delta_or delta w) dx (dy + j)) (w * 4) 0 h a
    → (display_blt fw m blt video_to_blt_buffer sx sy dx dy w h delta mem
          (buffer_row blt (delta_or delta w) dx (dy + i) + k)
        ≡ mem (pos_to_fb m sx (sy + i) + k))
      × (display_blt fw m blt video_to_blt_buffer sx sy dx dy w h delta mem a ≡ mem a)
unfolding display_blt
display_blt-from_video fw m blt sx sy dx dy w h delta i k a mem moves r wide hi small off =
    let dst : ℕ → ℕ = λ j. buffer_row blt (delta_or delta w) dx (dy + j) in
    let src : ℕ → ℕ = λ j. pos_to_fb m sx (sy + j) in
    let len : ℕ = 4 * w % 2 ^ 64 in
    let plain : len ≡ w * 4 =
      omega
        (arith, width_plain m sx w (sy + i) (sy + h) (omega arith) r.fits (omega arith) r.frame) in
    let rows =
      from_video-Apart fw moves m blt (delta_or delta w) sx sy dx dy w h k len r wide small plain in
    (
      copy_rows-copied fw moves dst src len h i k mem rows hi (omega (arith, plain)),
      copy_rows-outside fw moves dst src len h a mem λ j lo below. rw plain (off j lo below),
    )

within_video-Apart :
    (fw : Firmware) (moves : MovesBytes fw) (m : Mode) (sx sy dx dy w h k len : ℕ)
    → sx + w ≤ m.info.pixels_per_scan_line
    → dx + w ≤ m.info.pixels_per_scan_line
    → dy ≤ sy
    → frame_end m (sy + h) < 2 ^ 64
    → k < w * 4
    → len ≡ w * 4
    → Apart fw moves (λ i. pos_to_fb m dx (dy + i)) (λ i. pos_to_fb m sx (sy + i)) len h k
within_video-Apart fw moves m sx sy dx dy w h k len fits_s fits_d up frame small plain i hi =
    let row = m.info.pixels_per_scan_line in
    (
      λ j lo below. inl (
          (frame_rows-apart m dx w (dy + i) (dy + j) (sy + h) k small fits_d (omega arith)
            (omega arith) frame).0),
      λ j lo below.
          let step = row_le row (dy + j) (sy + i) (omega arith) in
          let (e_s, _, _) =
            pos_to_fb-plain m sx w (sy + i) (sy + h) (omega arith) fits_s (omega arith) frame in
          let (e_d, _, _) =
            pos_to_fb-plain m dx w (dy + j) (sy + h) (omega arith) fits_d (omega arith) frame in
          inr (omega (arith, e_s, e_d, step)),
    )

-- Over a CopyMem that copies as if by way of another buffer: DisplayBlt within the frame, to a rectangle
-- that begins no lower than the one it is from, both within the scan lines and the address space, puts
-- byte `k` of each row to its place, also where the rectangles overlap, and leaves every byte outside
-- the second rectangle as it is.
pub display_blt-within_video :
    (fw : Firmware) (m : Mode) (blt sx sy dx dy w h delta i k a : ℕ) (mem : Bytes)
    → MovesBytes fw
    → sx + w ≤ m.info.pixels_per_scan_line
    → dx + w ≤ m.info.pixels_per_scan_line
    → dy ≤ sy
    → frame_end m (sy + h) < 2 ^ 64
    → i < h
    → k < w * 4
    → OffRows (λ j. pos_to_fb m dx (dy + j)) (w * 4) 0 h a
    → (display_blt fw m blt video_to_video sx sy dx dy w h delta mem (pos_to_fb m dx (dy + i) + k)
        ≡ mem (pos_to_fb m sx (sy + i) + k))
      × (display_blt fw m blt video_to_video sx sy dx dy w h delta mem a ≡ mem a)
unfolding display_blt
display_blt-within_video fw m blt sx sy dx dy w h delta i k a mem moves fits_s fits_d up frame hi
      small off =
    let dst : ℕ → ℕ = λ j. pos_to_fb m dx (dy + j) in
    let src : ℕ → ℕ = λ j. pos_to_fb m sx (sy + j) in
    let len : ℕ = w * 4 % 2 ^ 64 in
    let plain : len ≡ w * 4 =
      width_plain m sx w (sy + i) (sy + h) (omega arith) fits_s (omega arith) frame in
    let rows =
      within_video-Apart fw moves m sx sy dx dy w h k len fits_s fits_d up frame small plain in
    (
      copy_rows-copied fw moves dst src len h i k mem rows hi (omega (arith, plain)),
      copy_rows-outside fw moves dst src len h a mem λ j lo below. rw plain (off j lo below),
    )
