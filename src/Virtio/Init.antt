-- ===== src/Virtio/Init.antt =====
-- Kernel/Drivers/Display/VirtIO/VirtIO.c: `virtio_gpu_init`, the variables that it sets last, and
-- `virtio_gpu_present`, which shows the frame buffer. What the functions print is left out.
pub mod Outcome
use implus_os.Base.{
  ℕ, ◌+◌, ◌*◌, ◌/◌, ◌%◌, ◌^◌, Bool, true, false, not, ◌||◌, if◌then◌else◌, ltb, ◌==◌, Option, none,
  some,
}
use implus_os.Virtio.{GpuPci, Bars, find_virtio_gpu}
use implus_os.Virtio.Bus.{Platform, Transport, clear, common_read8, common_write8}
use implus_os.Virtio.Caps.{with_bit, virtio_pci_find_caps, virtio_pci_device_init}
use implus_os.Virtio.Queue.{Virtqueue, virtqueue_init_ctrl}
use implus_os.Virtio.Commands.{
  gpu_cmd_get_display_info, gpu_cmd_resource_create_2d, gpu_cmd_resource_attach_backing,
  gpu_cmd_set_scanout, gpu_cmd_transfer_to_host_2d, gpu_cmd_resource_flush,
}

-- `g_gpu_ready`, `g_gpu_width`, `g_gpu_height`, `g_gpu_fb` and `g_gpu_controlq`.
pub record Globals : Type 0 where
  pub ready : Bool
  pub width : ℕ
  pub height : ℕ
  pub fb : ℕ
  pub controlq : Virtqueue

-- The first four, reset.
unfoldable pub reset : Globals → Globals
reset g = record g { ready = false; width = 0; height = 0; fb = 0 }

abbrev pub virtio_gpu_is_ready : Globals → Bool
virtio_gpu_is_ready g = g.ready

abbrev pub virtio_gpu_width : Globals → ℕ
virtio_gpu_width g = g.width

abbrev pub virtio_gpu_height : Globals → ℕ
virtio_gpu_height g = g.height

abbrev pub max_pixels : ℕ
max_pixels = 64 * 1024 * 1024

-- A size of the display and the queue, after the request for it. Without an answer the size is 1024
-- by 768.
abbrev pub size_or_default : Option (ℕ × ℕ) → ℕ × ℕ
size_or_default none = (1024, 768)
size_or_default (some size) = size

-- `cmd` and `resp` are the addresses of the variables on the stack of the functions for the commands.
module _ {D : Type 0} (platform : Platform D) (cmd resp : ℕ) where
  -- The three commands, each of which has to succeed, and the variables.
  unfoldable pub show_buffer :
      (width height fb fb_bytes : ℕ) → Virtqueue → Globals → D → Bool × (Globals × D)
  show_buffer width height fb fb_bytes vq g d =
      let created = gpu_cmd_resource_create_2d platform cmd resp vq width height d in
      let attached =
        gpu_cmd_resource_attach_backing platform cmd resp created.1.0 fb fb_bytes created.1.1 in
      let scanned = gpu_cmd_set_scanout platform cmd resp attached.1.0 width height attached.1.1 in
      if not created.0
      then (false, (g, created.1.1))
      else if not attached.0
      then (false, (g, attached.1.1))
      else if not scanned.0
      then (false, (g, scanned.1.1))
      else (
        true,
        (
          record { ready = true; width = width; height = height; fb = fb; controlq = scanned.1.0 },
          scanned.1.1,
        ),
      )

  -- The frame buffer for a display of that size.
  unfoldable pub set_up_buffer : (width height : ℕ) → Virtqueue → Globals → D → Bool × (Globals × D)
  set_up_buffer width height vq g d =
      let pixel_count = width * height in
      let fb_bytes = pixel_count * 4 % 2 ^ 32 in
      let fb = platform.heap.kmalloc d fb_bytes in
      if pixel_count == 0 || ltb max_pixels pixel_count
      then (false, (g, d))
      else if fb.0 == 0
      then (false, (g, fb.1))
      else show_buffer width height fb.0 fb_bytes vq g (clear platform fb_bytes fb.0 fb.1)

  -- From the control queue on, if there is one.
  unfoldable pub start_display : Transport → Globals → Option Virtqueue × D → Bool × (Globals × D)
  start_display t g (none, d) = (false, (g, d))
  start_display t g (some vq, d) =
      let status = common_read8 platform t.common_cfg 20 d in
      let d' = common_write8 platform t.common_cfg 20 (with_bit 2 status.0) status.1 in
      let display = gpu_cmd_get_display_info platform cmd resp vq d' in
      let size = size_or_default display.0 in set_up_buffer size.0 size.1 display.1.0 g display.1.1

  unfoldable pub start_queue : Transport → Globals → Bool × D → Bool × (Globals × D)
  start_queue t g (false, d) = (false, (g, d))
  start_queue t g (true, d) = start_display t g (virtqueue_init_ctrl platform t 0 d)

  unfoldable pub start_transport : GpuPci → Globals → Option Transport × D → Bool × (Globals × D)
  start_transport gpu g (none, d) = (false, (g, d))
  start_transport gpu g (some t, d) = start_queue t g (virtio_pci_device_init platform gpu t d)

  unfoldable pub start_gpu : Globals → Option GpuPci × D → Bool × (Globals × D)
  start_gpu g (none, d) = (false, (g, d))
  start_gpu g (some gpu, d) = start_transport gpu g (virtio_pci_find_caps platform gpu d)

  -- `before` is what the addresses on the stack held.
  unfoldable pub virtio_gpu_init : Bars → Globals → D → Bool × (Globals × D)
  virtio_gpu_init before g d = start_gpu (reset g) (find_virtio_gpu platform.ports before d)

  unfoldable pub virtio_gpu_present : Globals → D → Globals × D
  virtio_gpu_present g d =
      let moved = gpu_cmd_transfer_to_host_2d platform cmd resp g.controlq g.width g.height d in
      let flushed = gpu_cmd_resource_flush platform cmd resp moved.1.0 g.width g.height moved.1.1 in
      if not g.ready
      then (g, d)
      else if not moved.0
      then (record g { controlq = moved.1.0 }, moved.1.1)
      else (record g { controlq = flushed.1.0 }, flushed.1.1)
