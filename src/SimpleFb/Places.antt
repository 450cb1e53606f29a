-- ===== src/SimpleFb/Places.antt =====
-- The places of rows in the frame and in a buffer, Drivers/SimpleFbDxe/SimpleFbDxe.c.
use native.Mathlib.Nat.{mul-le-mul_left, mod-eq_of_lt}
use nintendo_switch_pkg.Prelude.{ℕ, ◌+◌, ◌*◌, ◌^◌, ◌≤◌, ◌<◌, ◌≡◌, arith}
use nintendo_switch_pkg.SimpleFb.{Mode, pos_to_fb, buffer_row}

pub row_le : (s y z : ℕ) → y < z → y * s + s ≤ z * s
row_le s y z h = let next : y + 1 ≤ z = omega arith in omega (arith, mul-le-mul_left s next)

-- The end of the frame's rows up to `y`, and of a buffer's, from its pixel `x` on.
abbrev pub frame_end : Mode → ℕ → ℕ
frame_end m y = m.frame_buffer_base + y * m.info.pixels_per_scan_line * 4

abbrev pub buffer_end : ℕ → ℕ → ℕ → ℕ → ℕ
buffer_end blt delta x y = blt + y * delta + x * 4

pub pos_to_fb-plain :
    (m : Mode) (x w y end : ℕ)
    → 1 ≤ w
    → x + w ≤ m.info.pixels_per_scan_line
    → y < end
    → frame_end m end < 2 ^ 64
    → (pos_to_fb m x y ≡ m.frame_buffer_base + y * m.info.pixels_per_scan_line * 4 + x * 4)
      × (pos_to_fb m x y + w * 4 ≤ frame_end m (y + 1))
      × (frame_end m (y + 1) ≤ frame_end m end)
unfolding pos_to_fb
pos_to_fb-plain m x w y end pos fits below frame =
    let step = row_le m.info.pixels_per_scan_line y end below in
    let e : pos_to_fb m x y ≡ m.frame_buffer_base + y * m.info.pixels_per_scan_line * 4 + x * 4 =
      mod-eq_of_lt (omega (arith, step)) in
    (e, omega (arith, e, step), omega (arith, step))

pub buffer_row-plain :
    (blt delta x w y end : ℕ)
    → 1 ≤ w
    → y < end
    → buffer_end blt delta (x + w) end ≤ 2 ^ 64
    → (buffer_row blt delta x y ≡ blt + y * delta + x * 4)
      × (buffer_row blt delta x y + w * 4 ≤ buffer_end blt delta (x + w) end)
unfolding buffer_row
buffer_row-plain blt delta x w y end pos below room =
    let step = row_le delta y end below in
    let e : buffer_row blt delta x y ≡ blt + y * delta + x * 4 =
      mod-eq_of_lt (omega (arith, step)) in
    (e, omega (arith, e, step))

-- A byte of a row of the frame is before the later rows, and after the earlier ones.
pub frame_rows-apart :
    (m : Mode) (x w y z end k : ℕ)
    → k < w * 4
    → x + w ≤ m.info.pixels_per_scan_line
    → y < z
    → z < end
    → frame_end m end < 2 ^ 64
    → (pos_to_fb m x y + k < pos_to_fb m x z) × (pos_to_fb m x y + w * 4 ≤ pos_to_fb m x z)
frame_rows-apart m x w y z end k small fits order below frame =
    let step = row_le m.info.pixels_per_scan_line y z order in
    let (e_y, _, _) = pos_to_fb-plain m x w y end (omega arith) fits (omega arith) frame in
    let (e_z, _, _) = pos_to_fb-plain m x w z end (omega arith) fits below frame in
    (omega (arith, e_y, e_z, step), omega (arith, e_y, e_z, step))
