-- ===== src/Display.antt =====
-- Kernel/Drivers/Display/VirtIO/VirtIO.c, drawing: `virtio_gpu_draw_pixel` and
-- `virtio_gpu_fill_rect`, which Kernel/Drivers/Display/Display_Main.c passes on under the names
-- `display_draw_pixel` and `display_fill_rect`. The frame buffer is indexed by pixel.
pub mod Rect
mod Tests
use implus_os.Base.{
  ℕ, zero, suc, ◌+◌, ◌-◌, ◌*◌, ◌%◌, ◌^◌, Bool, true, false, not, ◌||◌, if◌then◌else◌, ltb, leb,
  ◌==◌, update,
}

-- `g_gpu_ready`, `g_gpu_fb` with the pixels behind it, `g_gpu_width` and `g_gpu_height`.
pub record Gpu : Type 0 where
  pub ready : Bool
  pub fb : ℕ
  pub pixel : ℕ → ℕ
  pub width : ℕ
  pub height : ℕ

-- `x >= g_gpu_width || y >= g_gpu_height`.
abbrev pub is_outside : Gpu → ℕ → ℕ → Bool
is_outside g x y = leb g.width x || leb g.height y

unfoldable pub virtio_gpu_draw_pixel : Gpu → ℕ → ℕ → ℕ → Gpu
virtio_gpu_draw_pixel g x y color =
    if (not g.ready || g.fb == 0) || is_outside g x y
    then g
    else record g { pixel = update g.pixel (y * g.width + x) color }

-- `n` pixels of a row from the column `px` on.
pub fill_row : ℕ → ℕ → ℕ → ℕ → (ℕ → ℕ) → ℕ → ℕ
fill_row zero row px color pixel = pixel
fill_row (suc n) row px color pixel = fill_row n row (px + 1) color (update pixel (row + px) color)

-- `n` rows from `py` on, in each of them `w` pixels from `x` on.
pub fill_rows : ℕ → ℕ → ℕ → ℕ → ℕ → ℕ → (ℕ → ℕ) → ℕ → ℕ
fill_rows zero py x w width color pixel = pixel
fill_rows (suc n) py x w width color pixel =
    fill_rows n (py + 1) x w width color (fill_row w (py * width) x color pixel)

-- The end of a range of 32-bit coordinates, cut at the border, also where the sum wraps round.
abbrev pub clip_end : ℕ → ℕ → ℕ → ℕ
clip_end start count limit =
    let sum = (start + count) % 2 ^ 32 in if ltb limit sum || ltb sum start then limit else sum

unfoldable pub virtio_gpu_fill_rect : Gpu → ℕ → ℕ → ℕ → ℕ → ℕ → Gpu
virtio_gpu_fill_rect g x y w h color =
    if ((not g.ready || g.fb == 0) || (w == 0 || h == 0)) || is_outside g x y then g else record g {
      pixel =
          fill_rows (clip_end y h g.height - y) y x (clip_end x w g.width - x) g.width color
            g.pixel;
    }
