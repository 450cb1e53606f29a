-- ===== src/SimpleFb.antt =====
-- The frame buffer driver, Drivers/SimpleFbDxe/SimpleFbDxe.c: its graphics output protocol. Memory is
-- the bytes by their addresses. CopyMem and SetMem32 are the firmware's. The colours that the entry
-- point paints to show how far it came are left out.
pub mod Rows
pub mod Places
pub mod Blt
mod Tests
use nintendo_switch_pkg.Prelude.{
  ℕ, zero, suc, ◌+◌, ◌*◌, ◌/◌, ◌%◌, ◌^◌, ◌≤◌, ◌<◌, ◌≡◌, ◌⊎◌, ◌||◌, Option, none, some, ◌==◌,
  if◌then◌else◌,
}

abbrev pub Bytes : Type 0
Bytes = ℕ → ℕ

-- CopyMem (destination, source, length) and SetMem32 (buffer, length, value).
pub record Firmware : Type 0 where
  pub copy_mem : ℕ → ℕ → ℕ → Bytes → Bytes
  pub set_mem32 : ℕ → ℕ → ℕ → Bytes → Bytes

-- What is relied on of them: CopyMem copies as if by way of another buffer, SetMem32 fills with the
-- four bytes of the value, the lowest first, and both leave the other bytes as they are.
pub record MovesBytes (fw : Firmware) : Type 0 where
  pub copied :
      (dst src len k : ℕ) (mem : Bytes)
      → k < len
      → fw.copy_mem dst src len mem (dst + k) ≡ mem (src + k)
  pub copy_outside :
      (dst src len a : ℕ) (mem : Bytes)
      → (a < dst) ⊎ (dst + len ≤ a)
      → fw.copy_mem dst src len mem a ≡ mem a
  pub filled :
      (dst len value k : ℕ) (mem : Bytes)
      → len % 4 ≡ 0
      → k < len
      → fw.set_mem32 dst len value mem (dst + k) ≡ value / 256 ^ (k % 4) % 256
  pub fill_outside :
      (dst len value a : ℕ) (mem : Bytes)
      → (a < dst) ⊎ (dst + len ≤ a)
      → fw.set_mem32 dst len value mem a ≡ mem a

-- EFI_GRAPHICS_OUTPUT_MODE_INFORMATION and EFI_GRAPHICS_OUTPUT_PROTOCOL_MODE, less the pixel masks.
pub record ModeInfo : Type 0 where
  pub version : ℕ
  pub horizontal_resolution : ℕ
  pub vertical_resolution : ℕ
  pub pixel_format : ℕ
  pub pixels_per_scan_line : ℕ

pub record Mode : Type 0 where
  pub max_mode : ℕ
  pub mode : ℕ
  pub info : ModeInfo
  pub frame_buffer_base : ℕ
  pub frame_buffer_size : ℕ

-- POS_TO_FB, and FB_BYTES_PER_PIXEL.
abbrev pub bytes_per_pixel : ℕ
bytes_per_pixel = 4

unfoldable pub pos_to_fb : Mode → ℕ → ℕ → ℕ
pos_to_fb m x y =
    (m.frame_buffer_base + y * m.info.pixels_per_scan_line * bytes_per_pixel + x * bytes_per_pixel)
    % 2 ^ 64

-- `*(UINT32 *) a`
unfoldable pub word_at : Bytes → ℕ → ℕ
word_at mem a = mem a + 256 * mem (a + 1) + 256 ^ 2 * mem (a + 2) + 256 ^ 3 * mem (a + 3)

-- EFI_GRAPHICS_OUTPUT_BLT_OPERATION; `other` is any further value.
pub data BltOperation : Type 0 where
  video_fill : BltOperation
  video_to_blt_buffer : BltOperation
  buffer_to_video : BltOperation
  video_to_video : BltOperation
  other : BltOperation

-- A loop over `n` rows, from row `i` on.
unfoldable pub each_row : (ℕ → Bytes → Bytes) → ℕ → ℕ → Bytes → Bytes
each_row body zero i mem = mem
each_row body (suc n) i mem = each_row body n (i + 1) (body i mem)

-- Row `y` of a buffer whose rows are `delta` bytes apart, from pixel `x` on.
unfoldable pub buffer_row : ℕ → ℕ → ℕ → ℕ → ℕ
buffer_row blt_buffer delta x y = (blt_buffer + y * delta + x * bytes_per_pixel) % 2 ^ 64

-- A `Delta` of 0 stands for rows without a gap.
unfoldable pub delta_or : ℕ → ℕ → ℕ
delta_or delta width = if delta == 0 then width * bytes_per_pixel % 2 ^ 64 else delta

module _ (fw : Firmware) (m : Mode) where
  -- The colour is that of the first pixel of the frame buffer; it is read again for each row.
  unfoldable pub fill_row : ℕ → ℕ → ℕ → ℕ → Bytes → Bytes
  fill_row x y width i mem =
      fw.set_mem32 (pos_to_fb m x (y + i)) (width * bytes_per_pixel % 2 ^ 64)
        (word_at mem m.frame_buffer_base) mem

  -- The status is EFI_SUCCESS in every case; these are the bytes after.
  unfoldable pub display_blt : ℕ → BltOperation → ℕ → ℕ → ℕ → ℕ → ℕ → ℕ → ℕ → Bytes → Bytes
  display_blt blt_buffer video_fill sx sy dx dy width height delta mem =
      each_row (fill_row dx dy width) height 0 mem
  display_blt blt_buffer video_to_blt_buffer sx sy dx dy width height delta mem =
      each_row
        (λ i.
          fw.copy_mem (buffer_row blt_buffer (delta_or delta width) dx (dy + i))
            (pos_to_fb m sx (sy + i)) (bytes_per_pixel * width % 2 ^ 64))
        height 0 mem
  display_blt blt_buffer buffer_to_video sx sy dx dy width height delta mem =
      each_row
        (λ i.
          fw.copy_mem (pos_to_fb m dx (dy + i))
            (buffer_row blt_buffer (delta_or delta width) sx (sy + i))
            (width * bytes_per_pixel % 2 ^ 64))
        height 0 mem
  display_blt blt_buffer video_to_video sx sy dx dy width height delta mem =
      each_row
        (λ i.
          fw.copy_mem (pos_to_fb m dx (dy + i)) (pos_to_fb m sx (sy + i))
            (width * bytes_per_pixel % 2 ^ 64))
        height 0 mem
  display_blt blt_buffer other sx sy dx dy width height delta mem = mem

-- What DisplayQueryMode puts into the record that it allocates, whatever mode is asked for, and
-- DisplaySetMode, which does nothing.
unfoldable pub display_query_mode : Mode → ℕ → ModeInfo
display_query_mode m mode_number = m.info

unfoldable pub display_set_mode : Mode → ℕ → Mode
display_set_mode m mode_number = m

-- The mode that SimpleFbDxeInitialize sets, of an address, a width and a height of 32 bits;
-- PixelBlueGreenRedReserved8BitPerColor is 1; `none` is EFI_DEVICE_ERROR.
unfoldable pub simple_fb_mode : ℕ → ℕ → ℕ → Option Mode
simple_fb_mode address width height =
    if address == 0 || width == 0 || height == 0
    then none
    else some (record {
      max_mode = 1;
      mode = 0;
      info = record {
        version = 0;
        horizontal_resolution = width;
        vertical_resolution = height;
        pixel_format = 1;
        pixels_per_scan_line = width;
      };
      frame_buffer_base = address;
      frame_buffer_size = width * 2 ^ 5 % 2 ^ 32 / 8 * height % 2 ^ 32;
    })
