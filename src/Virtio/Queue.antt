-- ===== src/Virtio/Queue.antt =====
-- Kernel/Drivers/Display/VirtIO/VirtIO.c: the control queue, which the driver shares with the device.
-- `virtqueue_init_ctrl` lays it out in a block of the heap; `virtqueue_submit_sync` puts a request and
-- the place for its answer in it and waits.
pub mod Layout
pub mod Published
pub mod Waits
use implus_os.Base.{
  ℕ, zero, suc, ◌+◌, ◌-◌, ◌*◌, ◌/◌, ◌%◌, ◌^◌, Bool, true, false, not, if◌then◌else◌, ltb, ◌==◌,
  List, [], ◌∷◌, Option, none, some,
}
use implus_os.Virtio.Bus.{
  Platform, Transport, Field, field, assign, clear, common_read16, common_write16, common_write64,
}

-- `virtqueue_t`.
pub record Virtqueue : Type 0 where
  pub queue_index : ℕ
  pub queue_size : ℕ
  pub desc : ℕ
  pub avail : ℕ
  pub used : ℕ
  pub avail_idx : ℕ
  pub used_idx_seen : ℕ
  pub notify_addr : ℕ

abbrev pub align_up_u32 : (value align : ℕ) → ℕ
align_up_u32 value align = (value + (align - 1)) % 2 ^ 32 / align * align

-- The sizes of the parts for a queue of 16 bits, in bytes.
abbrev pub desc_bytes : ℕ → ℕ
desc_bytes qsize = qsize * 16 % 2 ^ 32

abbrev pub avail_bytes : ℕ → ℕ
avail_bytes qsize = (6 + qsize * 2) % 2 ^ 32

abbrev pub used_off : ℕ → ℕ
used_off qsize = align_up_u32 ((desc_bytes qsize + avail_bytes qsize) % 2 ^ 32) 4

abbrev pub used_bytes : ℕ → ℕ
used_bytes qsize = (6 + qsize * 8) % 2 ^ 32

abbrev pub total_bytes : ℕ → ℕ
total_bytes qsize = (used_off qsize + used_bytes qsize) % 2 ^ 32

abbrev pub desc_f_next : ℕ
desc_f_next = 1

abbrev pub desc_f_write : ℕ
desc_f_write = 2

abbrev pub virtio_mmio_timeout : ℕ
virtio_mmio_timeout = 10000000

abbrev pub queue_at : (ring queue_index qsize : ℕ) → Virtqueue
queue_at ring queue_index qsize = record {
  queue_index = queue_index;
  queue_size = qsize;
  desc = ring;
  avail = ring + desc_bytes qsize;
  used = ring + used_off qsize;
  avail_idx = 0;
  used_idx_seen = 0;
  notify_addr = 0;
}

-- The two descriptors, the slot of the ring, and the index behind it.
abbrev pub descriptors : Virtqueue → (cmd cmd_len resp resp_len : ℕ) → List Field
descriptors vq cmd cmd_len resp resp_len =
    field 8 vq.desc cmd
    ∷ field 4 (vq.desc + 8) cmd_len
    ∷ field 2 (vq.desc + 12) desc_f_next
    ∷ field 2 (vq.desc + 14) 1
    ∷ field 8 (vq.desc + 16) resp
    ∷ field 4 (vq.desc + 24) resp_len
    ∷ field 2 (vq.desc + 28) desc_f_write
    ∷ field 2 (vq.desc + 30) 0
    ∷ field 2 (vq.avail + 4 + vq.avail_idx % vq.queue_size * 2) 0
    ∷ []

abbrev pub next_avail : Virtqueue → ℕ
next_avail vq = (vq.avail_idx + 1) % 2 ^ 16

module _ {D : Type 0} (platform : Platform D) where
  unfoldable pub alloc_aligned : (size align : ℕ) → D → ℕ × D
  alloc_aligned size align d =
      let (raw, d') = platform.heap.kmalloc d ((size + (align - 1)) % 2 ^ 32) in
      if raw == 0 then (0, d') else ((raw + (align - 1)) % 2 ^ 64 / align * align, d')

  -- The queue is made known to the device and switched on.
  unfoldable pub register_queue : Transport → Virtqueue → D → Option Virtqueue × D
  register_queue t vq d =
      let d1 = common_write16 platform t.common_cfg 26 0xffff d in
      let d2 = common_write64 platform t.common_cfg 32 vq.desc d1 in
      let d3 = common_write64 platform t.common_cfg 40 vq.avail d2 in
      let d4 = common_write64 platform t.common_cfg 48 vq.used d3 in
      let d5 = common_write16 platform t.common_cfg 28 1 d4 in
      let (notify_off, d6) = common_read16 platform t.common_cfg 30 d5 in
      let notify = t.notify_base + notify_off * t.notify_off_multiplier % 2 ^ 32 in
      let d7 = common_write16 platform t.common_cfg 22 vq.queue_index d6 in
      let (enabled, d8) = common_read16 platform t.common_cfg 28 d7 in
      if enabled == 0 then (none, d8) else (some (record vq { notify_addr = notify }), d8)

  -- With the block that `alloc_aligned` returned.
  unfoldable pub init_ring : Transport → (queue_index qsize : ℕ) → ℕ × D → Option Virtqueue × D
  init_ring t queue_index qsize (ring, d) =
      if ring == 0
      then (none, d)
      else register_queue t (queue_at ring queue_index qsize)
          (clear platform (total_bytes qsize) ring d)

  unfoldable pub virtqueue_init_ctrl : Transport → (queue_index : ℕ) → D → Option Virtqueue × D
  virtqueue_init_ctrl t queue_index d =
      let d1 = common_write16 platform t.common_cfg 22 queue_index d in
      let (qsize, d2) = common_read16 platform t.common_cfg 24 d1 in
      if ltb qsize 2
      then (none, d2)
      else init_ring t queue_index qsize (alloc_aligned (total_bytes qsize) 4096 d2)

  -- The queue as the device finds it when it is notified.
  unfoldable pub publish : Virtqueue → (cmd cmd_len resp resp_len : ℕ) → D → D
  publish vq cmd cmd_len resp resp_len d =
      platform.store (assign platform (descriptors vq cmd cmd_len resp resp_len) d) 2 (vq.avail + 2)
        (next_avail vq)

  -- The loop, with what is left of `timeout`: whether the device has moved its index.
  pub poll : (timeout : ℕ) → Virtqueue → D → Bool × D
  poll zero vq d = (false, d)
  poll (suc timeout) vq d =
      let (idx, d') = platform.load d 2 (vq.used + 2) in
      let rest = poll timeout vq d' in
      if (idx + 2 ^ 16 - vq.used_idx_seen) % 2 ^ 16 == 0 then rest else (true, d')

  -- The wait for the answer, by the queue whose request is published.
  unfoldable pub await : Virtqueue → Bool × D → Bool × (Virtqueue × D)
  await vq (false, d) = (false, (vq, d))
  await vq (true, d) =
      let (idx, d') = platform.load d 2 (vq.used + 2) in
      (true, (record vq { used_idx_seen = idx % 2 ^ 16 }, d'))

  unfoldable pub virtqueue_submit_sync :
      Virtqueue → (cmd cmd_len resp resp_len : ℕ) → D → Bool × (Virtqueue × D)
  virtqueue_submit_sync vq cmd cmd_len resp resp_len d =
      let published = record vq { avail_idx = next_avail vq } in
      let d1 = publish vq cmd cmd_len resp resp_len d in
      let d2 = platform.store d1 2 vq.notify_addr vq.queue_index in
      if ltb vq.queue_size 2
      then (false, (vq, d))
      else await published (poll virtio_mmio_timeout published d2)
