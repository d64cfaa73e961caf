-- ===== src/Virtio/Init/Outcome.antt =====
-- How `virtio_gpu_init` can end, and what the drawing functions do after it.
use implus_os.Base.{
  ℕ, ◌*◌, ◌%◌, ◌^◌, ◌≤◌, ◌≡◌, ◌≢◌, ◌⊎◌, inl, inr, refl, sym, ap, ◌∙◌, Bool, true, false, not, ◌||◌,
  ltb, ◌==◌, Option, none, some, arith, if-cases,
}
use mathlib.Core.Path.{subst}
use implus_os.Display.{Gpu, virtio_gpu_fill_rect}
use implus_os.Display.Rect.{virtio_gpu_fill_rect_inside}
use implus_os.Virtio.{GpuPci, Bars, find_virtio_gpu}
use implus_os.Virtio.Bus.{Platform, Transport}
use implus_os.Virtio.Queue.{Virtqueue}
use implus_os.Virtio.Commands.{
  gpu_cmd_resource_create_2d, gpu_cmd_resource_attach_backing, gpu_cmd_set_scanout,
}
use implus_os.Virtio.Init.{
  Globals, reset, max_pixels, show_buffer, set_up_buffer, start_display, start_queue,
  start_transport, start_gpu, virtio_gpu_init,
}

-- The variables as the drawing functions see them, with the pixels behind the pointer.
abbrev pub screen : Globals → (ℕ → ℕ) → Gpu
screen g pixel = record {
  ready = g.ready;
  fb = g.fb;
  pixel = pixel;
  width = g.width;
  height = g.height;
}

module _ {D : Type 0} (platform : Platform D) where
  -- The display is ready, with four bytes from the heap for each of its pixels.
  pub record Backed (g : Globals) : Type 0 where
    pub is_on : g.ready ≡ true
    pub pixels : g.width * g.height ≢ 0
    pub few : g.width * g.height ≤ max_pixels
    pub heap_before : D
    pub block : (platform.heap.kmalloc heap_before (g.width * g.height * 4)).0 ≡ g.fb
    pub present : g.fb ≢ 0

  pub record Ended (start : Globals) (r : Bool × (Globals × D)) : Type 0 where
    pub how : ((r.0 ≡ false) × (r.1.0 ≡ start)) ⊎ ((r.0 ≡ true) × Backed r.1.0)

module _ {D : Type 0} (platform : Platform D) (cmd resp : ℕ) (g : Globals) where
  failed : {d : D} → Ended platform g (false, (g, d))
  failed = record { how = inl (refl, refl) }

  show_buffer-Ended :
      (width height fb : ℕ) (vq : Virtqueue) (d d0 : D)
      → width * height ≢ 0
      → width * height ≤ max_pixels
      → (platform.heap.kmalloc d0 (width * height * 4)).0 ≡ fb
      → fb ≢ 0
      → (fb_bytes : ℕ)
      → Ended platform g (show_buffer platform cmd resp width height fb fb_bytes vq g d)
  unfolding show_buffer
  show_buffer-Ended width height fb vq d d0 some_pixels few block ne fb_bytes =
      let created = gpu_cmd_resource_create_2d platform cmd resp vq width height d in
      let attached =
        gpu_cmd_resource_attach_backing platform cmd resp created.1.0 fb fb_bytes created.1.1 in
      let scanned = gpu_cmd_set_scanout platform cmd resp attached.1.0 width height attached.1.1 in
      if-cases (Ended platform g) (not created.0) _ _ (λ e. failed)
        (λ e.
          if-cases (Ended platform g) (not attached.0) _ _ (λ e. failed)
            (λ e.
              if-cases (Ended platform g) (not scanned.0) _ _ (λ e. failed)
                (λ e. record {
                  how = inr (
                    refl,
                    record {
                      is_on = refl;
                      pixels = some_pixels;
                      few = few;
                      heap_before = d0;
                      block = block;
                      present = ne;
                    },
                  );
                })))

  set_up_buffer-Ended :
      (width height : ℕ) (vq : Virtqueue) (d : D)
      → Ended platform g (set_up_buffer platform cmd resp width height vq g d)
  unfolding set_up_buffer
  set_up_buffer-Ended width height vq d =
      let fb = platform.heap.kmalloc d (width * height * 4 % 2 ^ 32) in
      let is_bad = width * height == 0 || ltb max_pixels (width * height) in
      if-cases (Ended platform g) is_bad _ _ (λ e. failed)
        (λ e.
          if-cases (Ended platform g) (fb.0 == 0) _ _ (λ e. failed)
            (λ f.
              let (nonzero, few) = size_fits (width * height) e in
              let exact : width * height * 4 % 2 ^ 32 ≡ width * height * 4 =
                small (width * height) few in
              show_buffer-Ended width height _ vq _ d nonzero few
                (ap (λ n. (platform.heap.kmalloc d n).0) (sym exact)) (not_null _ f) _))
    where
      size_fits : (n : ℕ) → (n == 0 || ltb max_pixels n) ≡ false → (n ≢ 0) × (n ≤ max_pixels)
      size_fits n e = ground (arith, e)

      small : (n : ℕ) → n ≤ max_pixels → n * 4 % 2 ^ 32 ≡ n * 4
      small n h = omega (arith, h)

      not_null : (n : ℕ) → (n == 0) ≡ false → n ≢ 0
      not_null n e = ground (arith, e)

  start_display-Ended :
      (t : Transport) (r : Option Virtqueue × D)
      → Ended platform g (start_display platform cmd resp t g r)
  unfolding start_display
  start_display-Ended t (none, d) = failed
  start_display-Ended t (some vq, d) = set_up_buffer-Ended _ _ _ _

  start_queue-Ended :
      (t : Transport) (r : Bool × D) → Ended platform g (start_queue platform cmd resp t g r)
  unfolding start_queue
  start_queue-Ended t (false, d) = failed
  start_queue-Ended t (true, d) = start_display-Ended t _

  start_transport-Ended :
      (gpu : GpuPci) (r : Option Transport × D)
      → Ended platform g (start_transport platform cmd resp gpu g r)
  unfolding start_transport
  start_transport-Ended gpu (none, d) = failed
  start_transport-Ended gpu (some t, d) = start_queue-Ended t _

  start_gpu-Ended : (r : Option GpuPci × D) → Ended platform g (start_gpu platform cmd resp g r)
  unfolding start_gpu
  start_gpu-Ended (none, d) = failed
  start_gpu-Ended (some gpu, d) = start_transport-Ended gpu _

not_ready :
    (pixel : ℕ → ℕ) (x y w h color j : ℕ)
    → (virtio_gpu_fill_rect
          (record { ready = false; fb = 0; pixel = pixel; width = 0; height = 0 })
          x
          y
          w
          h
          color).pixel
        j
      ≡ pixel j
unfolding virtio_gpu_fill_rect
not_ready pixel x y w h color j = refl

confined :
    {D : Type 0} (platform : Platform D) (g : Globals) (r : Bool × (Globals × D))
    → Ended platform (reset g) r
    → (pixel : ℕ → ℕ) (x y w h color j : ℕ) → (r.0 ≡ false) ⊎ (r.1.0.height * r.1.0.width ≤ j)
    → (virtio_gpu_fill_rect (screen r.1.0 pixel) x y w h color).pixel j ≡ pixel j
unfolding reset
confined platform g r ended pixel x y w h color j out = elim ended.how [
  | inl (off, same) ↦ still r.1.0 (same ∙ reset_lem g)
  | inr (on, backed) ↦ elim out [
    | inl off ↦ absurd (cc (on, off))
    | inr out ↦ virtio_gpu_fill_rect_inside (screen r.1.0 pixel) x y w h color j out
  ]
]
  where
    reset_lem : (g : Globals) → reset g ≡ record g { ready = false; width = 0; height = 0; fb = 0 }
    reset_lem g = refl

    still :
        (g' : Globals)
        → g' ≡ record g { ready = false; width = 0; height = 0; fb = 0 }
        → (virtio_gpu_fill_rect (screen g' pixel) x y w h color).pixel j ≡ pixel j
    still g' e =
        subst (λ k. (virtio_gpu_fill_rect (screen k pixel) x y w h color).pixel j ≡ pixel j) (sym e)
          (not_ready pixel x y w h color j)

-- `virtio_gpu_init` either fails and leaves the display off, so that `virtio_gpu_fill_rect` changes no
-- pixel, or succeeds with at least one and at most 64 M pixels and a block for which the heap was asked
-- for four bytes per pixel, beyond which `virtio_gpu_fill_rect` writes nothing.
pub virtio_gpu_init_lem :
    {D : Type 0} (platform : Platform D) (cmd resp : ℕ) (before : Bars) (g : Globals) (d : D)
    → Ended platform (reset g) (virtio_gpu_init platform cmd resp before g d)
      × ((pixel : ℕ → ℕ) (x y w h color j : ℕ)
          → let r = virtio_gpu_init platform cmd resp before g d in
            (r.0 ≡ false) ⊎ (r.1.0.height * r.1.0.width ≤ j)
            → (virtio_gpu_fill_rect (screen r.1.0 pixel) x y w h color).pixel j ≡ pixel j)
unfolding virtio_gpu_init
virtio_gpu_init_lem platform cmd resp before g d =
    let ended =
      start_gpu-Ended platform cmd resp (reset g) (find_virtio_gpu platform.ports before d) in
    (ended, λ pixel x y w h color j out. confined platform g _ ended pixel x y w h color j out)
