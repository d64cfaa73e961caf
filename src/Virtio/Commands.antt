-- ===== src/Virtio/Commands.antt =====
-- Kernel/Drivers/Display/VirtIO/VirtIO.c: the `gpu_cmd_` functions, each of which fills in a command,
-- submits it and looks at the answer. The structures are packed, so a field stands at the sum of the
-- sizes before it.
use implus_os.Base.{
  ℕ, ◌+◌, ◌*◌, Bool, true, false, not, ◌||◌, if◌then◌else◌, ◌==◌, List, [], ◌∷◌, Option, none, some,
  ◌%◌, ◌^◌,
}
use implus_os.Virtio.Bus.{Platform, Field, field, assign, clear}
use implus_os.Virtio.Queue.{Virtqueue, virtqueue_submit_sync}

-- VIRTIO_GPU_CMD_GET_DISPLAY_INFO and the other commands.
abbrev pub cmd_get_display_info : ℕ
cmd_get_display_info = 0x0100

abbrev pub cmd_resource_create_2d : ℕ
cmd_resource_create_2d = 0x0101

abbrev pub cmd_set_scanout : ℕ
cmd_set_scanout = 0x0103

abbrev pub cmd_resource_flush : ℕ
cmd_resource_flush = 0x0104

abbrev pub cmd_transfer_to_host_2d : ℕ
cmd_transfer_to_host_2d = 0x0105

abbrev pub cmd_resource_attach_backing : ℕ
cmd_resource_attach_backing = 0x0106

abbrev pub resp_ok_nodata : ℕ
resp_ok_nodata = 0x1100

abbrev pub resp_ok_display_info : ℕ
resp_ok_display_info = 0x1101

abbrev pub format_b8g8r8x8_unorm : ℕ
format_b8g8r8x8_unorm = 1

abbrev pub gpu_resource_id : ℕ
gpu_resource_id = 1

abbrev pub gpu_scanout_id : ℕ
gpu_scanout_id = 0

-- `sizeof(virtio_gpu_ctrl_hdr_t)`, which is also that of an answer without data.
abbrev pub hdr_size : ℕ
hdr_size = 24

-- A `virtio_gpu_rect_t` at the origin.
abbrev pub rect_fields : (addr width height : ℕ) → List Field → List Field
rect_fields addr width height rest =
    field 4 addr 0
    ∷ field 4 (addr + 4) 0
    ∷ field 4 (addr + 8) width
    ∷ field 4 (addr + 12) height
    ∷ rest

-- `cmd` and `resp` are the addresses of the two variables on the stack.
module _ {D : Type 0} (platform : Platform D) (cmd resp : ℕ) where
  -- What the functions have in common: both structures are cleared, the fields are assigned, and the
  -- request is submitted.
  unfoldable pub send : (cmd_len resp_len : ℕ) → List Field → Virtqueue → D → Bool × (Virtqueue × D)
  send cmd_len resp_len fields vq d =
      virtqueue_submit_sync platform vq cmd cmd_len resp resp_len
        (assign platform fields (clear platform resp_len resp (clear platform cmd_len cmd d)))

  -- `return resp.hdr.type == VIRTIO_GPU_RESP_OK_NODATA`, for a request that was answered.
  unfoldable pub accepted : Bool × (Virtqueue × D) → Bool × (Virtqueue × D)
  accepted (false, (vq, d)) = (false, (vq, d))
  accepted (true, (vq, d)) =
      let (resp_type, d') = platform.load d 4 resp in
      (resp_type % 2 ^ 32 == resp_ok_nodata, (vq, d'))

  -- The size of the first display, if the answer has one.
  unfoldable pub display_of : Bool × (Virtqueue × D) → Option (ℕ × ℕ) × (Virtqueue × D)
  display_of (false, (vq, d)) = (none, (vq, d))
  display_of (true, (vq, d)) =
      let (resp_type, d1) = platform.load d 4 resp in
      let (width, d2) = platform.load d1 4 (resp + hdr_size + 8) in
      let (height, d3) = platform.load d2 4 (resp + hdr_size + 12) in
      if not (resp_type % 2 ^ 32 == resp_ok_display_info)
      then (none, (vq, d1))
      else if width % 2 ^ 32 == 0 || height % 2 ^ 32 == 0
      then (none, (vq, d3))
      else (some (width % 2 ^ 32, height % 2 ^ 32), (vq, d3))

  unfoldable pub gpu_cmd_get_display_info : Virtqueue → D → Option (ℕ × ℕ) × (Virtqueue × D)
  gpu_cmd_get_display_info vq d =
      display_of (send hdr_size (hdr_size + 16 * 24) (field 4 cmd cmd_get_display_info ∷ []) vq d)

  abbrev pub create_fields : (width height : ℕ) → List Field
  create_fields width height =
      field 4 cmd cmd_resource_create_2d
      ∷ field 4 (cmd + 24) gpu_resource_id
      ∷ field 4 (cmd + 28) format_b8g8r8x8_unorm
      ∷ field 4 (cmd + 32) width
      ∷ field 4 (cmd + 36) height
      ∷ []

  unfoldable pub gpu_cmd_resource_create_2d :
      Virtqueue → (width height : ℕ) → D → Bool × (Virtqueue × D)
  gpu_cmd_resource_create_2d vq width height d =
      accepted (send 40 hdr_size (create_fields width height) vq d)

  abbrev pub attach_fields : (fb bytes : ℕ) → List Field
  attach_fields fb bytes =
      field 4 cmd cmd_resource_attach_backing
      ∷ field 4 (cmd + 24) gpu_resource_id
      ∷ field 4 (cmd + 28) 1
      ∷ field 8 (cmd + 32) fb
      ∷ field 4 (cmd + 40) bytes
      ∷ []

  unfoldable pub gpu_cmd_resource_attach_backing :
      Virtqueue → (fb bytes : ℕ) → D → Bool × (Virtqueue × D)
  gpu_cmd_resource_attach_backing vq fb bytes d =
      accepted (send 48 hdr_size (attach_fields fb bytes) vq d)

  abbrev pub scanout_fields : (width height : ℕ) → List Field
  scanout_fields width height =
      field 4 cmd cmd_set_scanout
      ∷ rect_fields (cmd + 24) width height
          (field 4 (cmd + 40) gpu_scanout_id ∷ field 4 (cmd + 44) gpu_resource_id ∷ [])

  unfoldable pub gpu_cmd_set_scanout : Virtqueue → (width height : ℕ) → D → Bool × (Virtqueue × D)
  gpu_cmd_set_scanout vq width height d =
      accepted (send 48 hdr_size (scanout_fields width height) vq d)

  abbrev pub transfer_fields : (width height : ℕ) → List Field
  transfer_fields width height =
      field 4 cmd cmd_transfer_to_host_2d
      ∷ rect_fields (cmd + 24) width height
          (field 8 (cmd + 40) 0 ∷ field 4 (cmd + 48) gpu_resource_id ∷ [])

  unfoldable pub gpu_cmd_transfer_to_host_2d :
      Virtqueue → (width height : ℕ) → D → Bool × (Virtqueue × D)
  gpu_cmd_transfer_to_host_2d vq width height d =
      accepted (send 56 hdr_size (transfer_fields width height) vq d)

  abbrev pub flush_fields : (width height : ℕ) → List Field
  flush_fields width height =
      field 4 cmd cmd_resource_flush
      ∷ rect_fields (cmd + 24) width height (field 4 (cmd + 40) gpu_resource_id ∷ [])

  unfoldable pub gpu_cmd_resource_flush :
      Virtqueue → (width height : ℕ) → D → Bool × (Virtqueue × D)
  gpu_cmd_resource_flush vq width height d =
      accepted (send 48 hdr_size (flush_fields width height) vq d)
