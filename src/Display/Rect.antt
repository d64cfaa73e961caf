-- ===== src/Display/Rect.antt =====
-- What drawing changes in the frame buffer.
use mathlib.Core.Path.{subst}
use implus_os.Base.{
  mul_step, multiples_apart, ℕ, zero, suc, ◌+◌, ◌-◌, ◌*◌, ◌^◌, ◌≤◌, ◌<◌, ◌≡◌, refl, inl, inr, Bool,
  true, false, not, ◌&&◌, ◌||◌, if◌then◌else◌, ltb, leb, ◌==◌, update, arith, Bool-cases, ==→eq,
  sym,
}
use implus_os.Display.{
  Gpu, is_outside, virtio_gpu_draw_pixel, fill_row, fill_rows, clip_end, virtio_gpu_fill_rect,
}

fill_row_lem :
    (n row px color : ℕ) (pixel : ℕ → ℕ) (j : ℕ)
    → fill_row n row px color pixel j
      ≡ (if leb (row + px) j && ltb j (row + px + n) then color else pixel j)
unfolding fill_row
fill_row_lem zero row px color pixel j = ground arith
fill_row_lem (suc n) row px color pixel j =
    ground (arith, fill_row_lem n row (px + 1) color (update pixel (row + px) color) j)

differ : (a b w : ℕ) → 0 < w → a * w + w ≤ b * w → (a == b) ≡ false
differ a b w nz h = elim (Bool-cases (a == b)) [
  | inl e ↦ absurd (omega (arith, nz, subst (λ k. a * w + w ≤ k * w) (sym (==→eq a b e)) h))
  | inr e ↦ e
]

==-flip : (a b : ℕ) → (a == b) ≡ (b == a)
==-flip a b = ground arith

row_index :
    (width row py px x w : ℕ)
    → px < width
    → x + w ≤ width
    → (leb (row * width + x) (py * width + px) && ltb (py * width + px) (row * width + x + w))
      ≡ ((row == py) && (leb x px && ltb px (x + w)))
row_index width row py px x w lt fits = elim (multiples_apart width row py) [
  | inl e ↦ rw e (ground arith)
  | inr (inl h) ↦ ground (arith, lt, fits, h, differ row py width (omega arith) h)
  | inr (inr h) ↦ ground (arith, lt, fits, h, ==-flip row py, differ py row width (omega arith) h)
]

fill_rows_lem :
    (n row x w width color : ℕ) (pixel : ℕ → ℕ) (py px : ℕ)
    → px < width
    → x + w ≤ width
    → fill_rows n row x w width color pixel (py * width + px) ≡ (
        if (leb row py && ltb py (row + n)) && (leb x px && ltb px (x + w))
        then color
        else pixel (py * width + px))
unfolding fill_rows
fill_rows_lem zero row x w width color pixel py px lt fits = ground arith
fill_rows_lem (suc n) row x w width color pixel py px lt fits = ground (
  arith,
  row_index width row py px x w lt fits,
  fill_rows_lem n (row + 1) x w width color (fill_row w (row * width) x color pixel) py px lt fits,
  fill_row_lem w (row * width) x color pixel (py * width + px),
)

-- The cut range stays on the screen, and on the screen it is the range.
clip_fits :
    (start count limit : ℕ) → start < limit → start + (clip_end start count limit - start) ≤ limit
clip_fits start count limit lt = ground arith

clip_same :
    (start count limit p : ℕ)
    → start < limit
    → limit < 2 ^ 32
    → count < 2 ^ 32
    → p < limit
    → (leb start p && ltb p (start + (clip_end start count limit - start)))
      ≡ (leb start p && ltb p (start + count))
clip_same start count limit p lt small few ltp = ground (arith, lt, small, few, ltp)

-- The rectangle as a test on a pixel.
abbrev pub within : ℕ → ℕ → ℕ → ℕ → ℕ → ℕ → Bool
within x y w h px py = (leb y py && ltb py (y + h)) && (leb x px && ltb px (x + w))

empty_within : (x y w h px py : ℕ) → (w == 0 || h == 0) ≡ true → within x y w h px py ≡ false
empty_within x y w h px py e = ground (arith, e)

outside_within :
    (g : Gpu) (x y w h px py : ℕ)
    → px < g.width
    → py < g.height
    → is_outside g x y ≡ true
    → within x y w h px py ≡ false
outside_within g x y w h px py ltx lty e = ground (arith, e, ltx, lty)

-- The guard of `virtio_gpu_fill_rect`, for any tests.
guarded {ℓ} :
    {A : Type ℓ} (ready null empty outside inside : Bool) (old new : Gpu) (read : Gpu → A)
    (color : A)
    → (empty ≡ true → inside ≡ false)
    → (outside ≡ true → inside ≡ false)
    → (outside ≡ false → read new ≡ (if inside then color else read old))
    → read (if ((not ready || null) || empty) || outside then old else new)
      ≡ (if (ready && not null) && inside then color else read old)
guarded false null empty outside inside old new read color e o n = refl
guarded true true empty outside inside old new read color e o n = refl
guarded true false true outside inside old new read color e o n = rw (e refl) refl
guarded true false false true inside old new read color e o n = rw (o refl) refl
guarded true false false false inside old new read color e o n = n refl

inside_bounds : (g : Gpu) (x y : ℕ) → is_outside g x y ≡ false → (x < g.width) × (y < g.height)
inside_bounds g x y e = (ground (arith, e), ground (arith, e))

module _ (g : Gpu) (x y w h color px py : ℕ) (sw : g.width < 2 ^ 32) (sh : g.height < 2 ^ 32)
    (bw : w < 2 ^ 32) (bh : h < 2 ^ 32) (ltx : px < g.width) (lty : py < g.height) where
  drawn_rows :
      is_outside g x y ≡ false
      → fill_rows
          (clip_end y h g.height - y)
          y
          x
          (clip_end x w g.width - x)
          g.width
          color
          g.pixel
          (py * g.width + px)
        ≡ (if within x y w h px py then color else g.pixel (py * g.width + px))
  drawn_rows e =
      let (inx, iny) = inside_bounds g x y e in
      subst
        (λ b.
          fill_rows (clip_end y h g.height - y) y x (clip_end x w g.width - x) g.width color g.pixel
            (py * g.width + px)
          ≡ (if b && (leb x px && ltb px (x + w)) then color else g.pixel (py * g.width + px)))
        (clip_same y h g.height py iny sh bh lty)
        (subst
          (λ b.
            fill_rows (clip_end y h g.height - y) y x (clip_end x w g.width - x) g.width color
              g.pixel (py * g.width + px)
            ≡ (if (leb y py && ltb py (y + (clip_end y h g.height - y))) && b
                then color
                else g.pixel (py * g.width + px)))
          (clip_same x w g.width px inx sw bw ltx)
          (fill_rows_lem (clip_end y h g.height - y) y x (clip_end x w g.width - x) g.width color
            g.pixel py px ltx (clip_fits x w g.width inx)))

  -- On a screen and with a rectangle of 32-bit sizes, `virtio_gpu_fill_rect` gives the colour to
  -- exactly the pixels of the screen that lie in the rectangle, if the display is ready; a rectangle
  -- that reaches beyond the border, or whose end wraps round 32 bits, is cut at the border.
  pub virtio_gpu_fill_rect_lem :
      (virtio_gpu_fill_rect g x y w h color).pixel (py * g.width + px) ≡ (
        if (g.ready && not (g.fb == 0)) && within x y w h px py
        then color
        else g.pixel (py * g.width + px))
  unfolding virtio_gpu_fill_rect
  virtio_gpu_fill_rect_lem =
      guarded g.ready (g.fb == 0) (w == 0 || h == 0) (is_outside g x y) (within x y w h px py) g _
        (λ d. d.pixel (py * g.width + px)) color (empty_within x y w h px py)
        (outside_within g x y w h px py ltx lty) drawn_rows

fill_rows_outside :
    (n row x w width height color : ℕ) (pixel : ℕ → ℕ) (j : ℕ)
    → x + w ≤ width
    → row + n ≤ height
    → height * width ≤ j
    → fill_rows n row x w width color pixel j ≡ pixel j
unfolding fill_rows
fill_rows_outside zero row x w width height color pixel j fits rows out = refl
fill_rows_outside (suc n) row x w width height color pixel j fits rows out = ground (
  arith,
  fits,
  out,
  mul_step row height width (omega arith),
  fill_rows_outside n (row + 1) x w width height color (fill_row w (row * width) x color pixel) j
      fits (omega arith) out,
  fill_row_lem w (row * width) x color pixel j,
)

clip_inside :
    (g : Gpu) (x y w h : ℕ)
    → is_outside g x y ≡ false
    → (x + (clip_end x w g.width - x) ≤ g.width) × (y + (clip_end y h g.height - y) ≤ g.height)
clip_inside g x y w h e =
    let (inx, iny) = inside_bounds g x y e in
    (clip_fits x w g.width inx, clip_fits y h g.height iny)

-- `virtio_gpu_fill_rect` writes nothing beyond the `width * height` pixels of the frame buffer,
-- whatever its arguments.
pub virtio_gpu_fill_rect_inside :
    (g : Gpu) (x y w h color j : ℕ)
    → g.height * g.width ≤ j
    → (virtio_gpu_fill_rect g x y w h color).pixel j ≡ g.pixel j
unfolding virtio_gpu_fill_rect
virtio_gpu_fill_rect_inside g x y w h color j out =
    elim (Bool-cases (((not g.ready || g.fb == 0) || (w == 0 || h == 0)) || is_outside g x y)) [
      | inl e ↦ rw e refl
      | inr e ↦
          let (fx, fy) = clip_inside g x y w h (or_false _ _ e) in
          rw e (
            fill_rows_outside (clip_end y h g.height - y) y x (clip_end x w g.width - x) g.width
              g.height color g.pixel j fx fy out)
    ]
  where
    or_false : (a b : Bool) → (a || b) ≡ false → b ≡ false
    or_false true b e = absurd (cc e)
    or_false false b e = e

-- `virtio_gpu_draw_pixel` gives the colour to the pixel at its coordinates, if that is on the screen
-- and the display is ready, and to no other pixel of the screen.
pub virtio_gpu_draw_pixel_lem :
    (g : Gpu) (x y color px py : ℕ)
    → px < g.width
    → py < g.height
    → (virtio_gpu_draw_pixel g x y color).pixel (py * g.width + px) ≡ (
        if (g.ready && not (g.fb == 0)) && ((x == px) && (y == py))
        then color
        else g.pixel (py * g.width + px))
unfolding virtio_gpu_draw_pixel
virtio_gpu_draw_pixel_lem g x y color px py ltx lty = elim (multiples_apart g.width y py) [
  | inl e ↦ ground (arith, e, ltx, lty)
  | inr (inl h) ↦ ground (arith, h, ltx, lty, differ y py g.width (omega arith) h)
  | inr (inr h) ↦ ground (arith, h, ltx, lty, ==-flip y py, differ py y g.width (omega arith) h)
]
