-- ===== src/Virtio/Queue/Waits.antt =====
-- When `virtqueue_submit_sync` sees an answer, and when it gives up.
use implus_os.Base.{
  ℕ, zero, suc, ◌+◌, ◌-◌, ◌%◌, ◌^◌, ◌≤◌, ◌<◌, ◌≡◌, refl, Bool, true, false, ltb, ◌==◌, arith,
  if-cases,
}
use implus_os.Virtio.Bus.{Platform}
use implus_os.Virtio.Queue.{
  Virtqueue, virtio_mmio_timeout, next_avail, publish, poll, await, virtqueue_submit_sync,
}

module _ {D : Type 0} (platform : Platform D) where
  -- The state after `n` looks at the index of the device.
  abbrev pub after : (n : ℕ) → Virtqueue → D → D
  after zero vq d = d
  after (suc n) vq d = after n vq (platform.load d 2 (vq.used + 2)).1

  -- Whether a look finds an index that the driver has seen.
  abbrev pub is_unmoved : Virtqueue → D → Bool
  is_unmoved vq d = ((platform.load d 2 (vq.used + 2)).0 + 2 ^ 16 - vq.used_idx_seen) % 2 ^ 16 == 0

  poll_moved :
      (n timeout : ℕ) (vq : Virtqueue) (d : D)
      → n < timeout
      → is_unmoved vq (after n vq d) ≡ false
      → (poll platform timeout vq d).0 ≡ true
  unfolding poll
  poll_moved n zero vq d h e = absurd (omega (arith, h))
  poll_moved zero (suc timeout) vq d h e = rw e refl
  poll_moved (suc n) (suc timeout) vq d h e =
      if-cases (λ (r : Bool × D). r.0 ≡ true) (is_unmoved vq d) _ _
        (λ f. poll_moved n timeout vq _ (omega (arith, h)) e) (λ f. refl)

  poll_unmoved :
      (timeout : ℕ) (vq : Virtqueue) (d : D)
      → ((n : ℕ) → n < timeout → is_unmoved vq (after n vq d) ≡ true)
      → (poll platform timeout vq d).0 ≡ false
  unfolding poll
  poll_unmoved zero vq d h = refl
  poll_unmoved (suc timeout) vq d h =
      let first = h 0 (omega arith) in
      let rest =
        poll_unmoved timeout vq (platform.load d 2 (vq.used + 2)).1
          (λ n l. h (suc n) (omega (arith, l))) in
      rw first rest

  await-true :
      (vq : Virtqueue) (r : Bool × D)
      → r.0 ≡ true
      → ((await platform vq r).0 ≡ true) × ((await platform vq r).1.0.avail_idx ≡ vq.avail_idx)
  unfolding await
  await-true vq (true, d) e = (refl, refl)
  await-true vq (false, d) e = absurd (cc e)

  await-false :
      (vq : Virtqueue) (r : Bool × D)
      → r.0 ≡ false
      → ((await platform vq r).0 ≡ false) × ((await platform vq r).1.0 ≡ vq)
  unfolding await
  await-false vq (true, d) e = absurd (cc e)
  await-false vq (false, d) e = (refl, refl)

-- `virtqueue_submit_sync` on a queue of at least two entries returns 1 if one of the first ten million
-- looks after the notification finds an index that the device has moved, and 0 if none does; in both
-- cases the request stays counted in the available index.
pub virtqueue_submit_sync_lem :
    {D : Type 0} (platform : Platform D) (vq : Virtqueue) (cmd cmd_len resp resp_len : ℕ) (d : D)
    → 2 ≤ vq.queue_size
    → let sent = record vq { avail_idx = next_avail vq } in
      let notified =
        platform.store
          (publish platform vq cmd cmd_len resp resp_len d)
          2
          vq.notify_addr
          vq.queue_index in
      let r = virtqueue_submit_sync platform vq cmd cmd_len resp resp_len d in
      ((n : ℕ)
        → n < virtio_mmio_timeout
        → is_unmoved platform sent (after platform n sent notified) ≡ false
        → (r.0 ≡ true) × (r.1.0.avail_idx ≡ next_avail vq))
      × (((n : ℕ)
            → n < virtio_mmio_timeout
            → is_unmoved platform sent (after platform n sent notified) ≡ true)
          → (r.0 ≡ false) × (r.1.0 ≡ sent))
unfolding virtqueue_submit_sync
virtqueue_submit_sync_lem platform vq cmd cmd_len resp resp_len d large =
    let enough : ltb vq.queue_size 2 ≡ false = ground (arith, large) in
    let sent = record vq { avail_idx = next_avail vq } in
    rw enough (
      (λ n small moved.
          await-true platform _ _ (poll_moved platform n virtio_mmio_timeout _ _ small moved)),
      (λ unmoved. await-false platform _ _ (poll_unmoved platform virtio_mmio_timeout _ _ unmoved)),
    )
