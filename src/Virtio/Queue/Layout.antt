-- ===== src/Virtio/Queue/Layout.antt =====
-- The parts of the queue in the block that the heap gave.
use mathlib.Core.Path.{subst}
use implus_os.Base.{
  ℕ, ◌+◌, ◌*◌, ◌/◌, ◌%◌, ◌^◌, ◌≤◌, ◌<◌, ◌≡◌, ◌≢◌, refl, false, ltb, ◌==◌, Option, none, some, arith,
  if-cases,
}
use implus_os.Virtio.Bus.{Platform, Transport, common_read16, common_write16}
use implus_os.Virtio.Queue.{
  Virtqueue, total_bytes, queue_at, alloc_aligned, register_queue, init_ring, virtqueue_init_ctrl,
}

-- The parts of a queue between the addresses `first` and `last`.
pub record Parts (first last : ℕ) (vq : Virtqueue) : Type 0 where
  pub size_small : vq.queue_size < 2 ^ 16
  pub size_large : 2 ≤ vq.queue_size
  pub begins : first ≤ vq.desc
  pub behind_desc : vq.desc + vq.queue_size * 16 ≤ vq.avail
  pub behind_avail : vq.avail + 6 + vq.queue_size * 2 ≤ vq.used
  pub behind_used : vq.used + 6 + vq.queue_size * 8 ≤ last
  pub desc_aligned : vq.desc % 4096 ≡ 0
  pub avail_aligned : vq.avail % 2 ≡ 0
  pub used_aligned : vq.used % 4 ≡ 0
  pub not_submitted : vq.avail_idx ≡ 0
  pub not_seen : vq.used_idx_seen ≡ 0

module _ {D : Type 0} (platform : Platform D) where
  -- They lie in a block that the heap gave for the number of bytes that were asked for.
  pub record InBlock (vq : Virtqueue) : Type 0 where
    pub heap_before : D
    pub requested : ℕ
    pub block : ℕ
    pub given : (platform.heap.kmalloc heap_before requested).0 ≡ block
    pub present : block ≢ 0
    pub parts : Parts block (block + requested) vq

  pub record AllInBlock (r : Option Virtqueue × D) : Type 0 where
    pub in_block : (vq : Virtqueue) → r.0 ≡ some vq → InBlock vq

  -- A block of the size in which a multiple of 4096 begins the part that is used.
  record Aligned (size : ℕ) (r : ℕ × D) : Type 0 where
    pub heap_before : D
    pub requested : ℕ
    pub block : ℕ
    pub given : (platform.heap.kmalloc heap_before requested).0 ≡ block
    pub present : r.0 ≢ 0 → block ≢ 0
    pub begins : r.0 ≢ 0 → block ≤ r.0
    pub ends : r.0 ≢ 0 → r.0 + size ≤ block + requested
    pub multiple : r.0 % 4096 ≡ 0

queue_at-Parts :
    (first last ring queue_index qsize : ℕ)
    → 2 ≤ qsize
    → qsize < 2 ^ 16
    → ring % 4096 ≡ 0
    → first ≤ ring
    → ring + total_bytes qsize ≤ last
    → (notify : ℕ)
    → Parts first last (record (queue_at ring queue_index qsize) { notify_addr = notify })
queue_at-Parts first last ring queue_index qsize large small multiple begins ends notify = record {
  size_small = small;
  size_large = large;
  begins = begins;
  behind_desc = omega (arith, small);
  behind_avail = omega (arith, small);
  behind_used = omega (arith, small, ends);
  desc_aligned = multiple;
  avail_aligned = omega (arith, small, multiple);
  used_aligned = omega (arith, small, multiple);
  not_submitted = refl;
  not_seen = refl;
}

total_small : (qsize : ℕ) → qsize < 2 ^ 16 → total_bytes qsize < 2 ^ 22
total_small qsize h = omega (arith, h)

module _ {D : Type 0} (platform : Platform D)
    (low : (d : D) (n : ℕ) → (platform.heap.kmalloc d n).0 < 2 ^ 63) where
  alloc_aligned-Aligned :
      (size : ℕ) (d : D)
      → size < 2 ^ 22
      → Aligned platform size (alloc_aligned platform size 4096 d)
  unfolding alloc_aligned
  alloc_aligned-Aligned size d small =
      let raw = platform.heap.kmalloc d ((size + 4095) % 2 ^ 32) in
      let fits = low d ((size + 4095) % 2 ^ 32) in
      if-cases (Aligned platform size) (raw.0 == 0) _ _
        (λ e. record {
          heap_before = d;
          requested = (size + 4095) % 2 ^ 32;
          block = raw.0;
          given = refl;
          present = λ ne. absurd (ne refl);
          begins = λ ne. absurd (ne refl);
          ends = λ ne. absurd (ne refl);
          multiple = refl;
        })
        (λ e. record {
          heap_before = d;
          requested = (size + 4095) % 2 ^ 32;
          block = raw.0;
          given = refl;
          present = λ ne. not_null raw.0 e;
          begins = λ ne. from raw.0 fits;
          ends = λ ne. to raw.0 fits;
          multiple = aligned raw.0;
        })
    where
      not_null : (n : ℕ) → (n == 0) ≡ false → n ≢ 0
      not_null n e = ground (arith, e)

      from : (n : ℕ) → n < 2 ^ 63 → n ≤ (n + 4095) % 2 ^ 64 / 4096 * 4096
      from n h = omega (arith, h)

      to :
          (n : ℕ)
          → n < 2 ^ 63
          → (n + 4095) % 2 ^ 64 / 4096 * 4096 + size ≤ n + (size + 4095) % 2 ^ 32
      to n h = omega (arith, h, small)

      aligned : (n : ℕ) → (n + 4095) % 2 ^ 64 / 4096 * 4096 % 4096 ≡ 0
      aligned n = omega arith

module _ {D : Type 0} (platform : Platform D) where
  found : {vq : Virtqueue} {d : D} → InBlock platform vq → AllInBlock platform (some vq, d)
  found {vq} s = record {
    in_block = λ vq' e. let same : vq ≡ vq' = cc e in subst (InBlock platform) same s;
  }

  nothing : {d : D} → AllInBlock platform (none, d)
  nothing = record { in_block = λ vq e. absurd (cc e) }

  register_queue-AllInBlock :
      (t : Transport) (vq : Virtqueue) (d : D)
      → ((notify : ℕ) → InBlock platform (record vq { notify_addr = notify }))
      → AllInBlock platform (register_queue platform t vq d)
  unfolding register_queue
  register_queue-AllInBlock t vq d all =
      let d5 =
        platform.store
          (platform.store
            (platform.store
              (platform.store (platform.store d 2 (t.common_cfg + 26) 0xffff) 8 (t.common_cfg + 32)
                vq.desc)
              8 (t.common_cfg + 40) vq.avail)
            8 (t.common_cfg + 48) vq.used)
          2 (t.common_cfg + 28) 1 in
      let notify_off = common_read16 platform t.common_cfg 30 d5 in
      let enabled =
        common_read16 platform t.common_cfg 28
          (common_write16 platform t.common_cfg 22 vq.queue_index notify_off.1) in
      if-cases (AllInBlock platform) (enabled.0 == 0) _ _ (λ e. nothing) (λ e. found (all _))

  init_ring-AllInBlock :
      (t : Transport) (queue_index qsize : ℕ) (r : ℕ × D)
      → 2 ≤ qsize
      → qsize < 2 ^ 16
      → Aligned platform (total_bytes qsize) r
      → AllInBlock platform (init_ring platform t queue_index qsize r)
  unfolding init_ring
  init_ring-AllInBlock t queue_index qsize (ring, d) large small a =
      if-cases (AllInBlock platform) (ring == 0) _ _ (λ e. nothing)
        (λ e.
          let ne : ring ≢ 0 = ground (arith, e) in
          register_queue-AllInBlock t (queue_at ring queue_index qsize) _ (λ notify. record {
            heap_before = a.heap_before;
            requested = a.requested;
            block = a.block;
            given = a.given;
            present = a.present ne;
            parts =
                queue_at-Parts a.block (a.block + a.requested) ring queue_index qsize large small
                  a.multiple (a.begins ne) (a.ends ne) notify;
          }))

module _ {D : Type 0} (platform : Platform D)
    (low : (d : D) (n : ℕ) → (platform.heap.kmalloc d n).0 < 2 ^ 63) where
  virtqueue_init_ctrl-AllInBlock :
      (t : Transport) (queue_index : ℕ) (d : D)
      → AllInBlock platform (virtqueue_init_ctrl platform t queue_index d)
  unfolding virtqueue_init_ctrl common_read16
  virtqueue_init_ctrl-AllInBlock t queue_index d =
      let qsize =
        common_read16 platform t.common_cfg 24
          (common_write16 platform t.common_cfg 22 queue_index d) in
      let small =
        half
          (platform.load (common_write16 platform t.common_cfg 22 queue_index d) 2
            (t.common_cfg + 24)).0 in
      if-cases (AllInBlock platform) (ltb qsize.0 2) _ _ (λ e. nothing platform)
        (λ e. init_ring-AllInBlock platform t queue_index qsize.0 _ (not_less qsize.0 e) small (
          alloc_aligned-Aligned platform low (total_bytes qsize.0) qsize.1
            (total_small qsize.0 small)))
    where
      half : (n : ℕ) → n % 2 ^ 16 < 2 ^ 16
      half n = omega arith

      not_less : (n : ℕ) → ltb n 2 ≡ false → 2 ≤ n
      not_less n e = ground (arith, e)

-- When `virtqueue_init_ctrl` succeeds, the queue has 2 to 65535 entries, and its descriptors, available
-- ring and used ring lie one behind the other, aligned as the device wants them, all of them inside the
-- block that the heap gave for the number of bytes that were asked for, over a heap whose addresses
-- have 63 bits.
pub virtqueue_init_ctrl-InBlock :
    {D : Type 0} (platform : Platform D) (t : Transport) (queue_index : ℕ) (d : D) (vq : Virtqueue)
    → ((d' : D) (n : ℕ) → (platform.heap.kmalloc d' n).0 < 2 ^ 63)
    → (virtqueue_init_ctrl platform t queue_index d).0 ≡ some vq
    → InBlock platform vq
virtqueue_init_ctrl-InBlock platform t queue_index d vq low e =
    (virtqueue_init_ctrl-AllInBlock platform low t queue_index d).in_block vq e
