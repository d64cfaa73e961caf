-- ===== src/Virtio/Queue/Published.antt =====
-- What the device finds in the queue when it is notified, and that its answer ends the wait.
use native.Mathlib.Nat.{mod-lt}
use implus_os.Base.{
  ℕ, zero, suc, ◌+◌, ◌*◌, ◌%◌, ◌^◌, ◌≤◌, ◌<◌, ◌≡◌, ◌⊎◌, inl, inr, refl, ◌∙◌, List, [], ◌∷◌, length,
  get_or, arith,
}
use implus_os.Virtio.Bus.{Platform, Field, field, assign}
use implus_os.Virtio.Queue.{Virtqueue, desc_f_next, desc_f_write, descriptors, next_avail, publish}

-- From `first` up to `last` the memory keeps what is stored: a field is read back, and one that lies
-- apart stays.
pub record Ram {D : Type 0} (platform : Platform D) (first last : ℕ) : Type 0 where
  pub holds : D → (bytes addr : ℕ) → ℕ
  pub stored :
      (d : D) (k a v : ℕ)
      → first ≤ a
      → a + k ≤ last
      → v < 256 ^ k
      → holds (platform.store d k a v) k a ≡ v
  pub kept :
      (d : D) (k a v k' a' : ℕ)
      → first ≤ a
      → a + k ≤ last
      → (a + k ≤ a') ⊎ (a' + k' ≤ a)
      → holds (platform.store d k a v) k' a' ≡ holds d k' a'

-- Assignments to fields in the order of their addresses, with values that fit.
abbrev pub Ascending : ℕ → List Field → ℕ → Type 0
Ascending first [] last = first ≤ last
Ascending first (f ∷ fs) last =
    (first ≤ f.addr) × (f.value < 256 ^ f.bytes) × Ascending (f.addr + f.bytes) fs last

Ascending-le : (first last : ℕ) (fs : List Field) → Ascending first fs last → first ≤ last
Ascending-le first last [] h = h
Ascending-le first last (f ∷ fs) (a, v, h) =
    omega (arith, a, Ascending-le (f.addr + f.bytes) last fs h)

module _ {D : Type 0} (platform : Platform D) (first last : ℕ) (ram : Ram platform first last) where
  -- What lies before or behind the fields stays.
  assign-kept :
      (from to k a : ℕ) (fs : List Field) (d : D)
      → first ≤ from
      → to ≤ last
      → Ascending from fs to
      → (a + k ≤ from) ⊎ (to ≤ a)
      → ram.holds (assign platform fs d) k a ≡ ram.holds d k a
  unfolding assign
  assign-kept from to k a [] d lo hi up out = refl
  assign-kept from to k a (f ∷ fs) d lo hi (b, v, up) out =
      let end = Ascending-le (f.addr + f.bytes) to fs up in
      assign-kept (f.addr + f.bytes) to k a fs _ (omega (arith, lo, b)) hi up
        (further f.addr f.bytes b out)
      ∙ ram.kept d f.bytes f.addr f.value k a (omega (arith, lo, b)) (omega (arith, end, hi))
          (apart f.addr f.bytes b end out)
    where
      further : (p n : ℕ) → from ≤ p → (a + k ≤ from) ⊎ (to ≤ a) → (a + k ≤ p + n) ⊎ (to ≤ a)
      further p n b (inl h) = inl (omega (arith, b, h))
      further p n b (inr h) = inr h

      apart :
          (p n : ℕ) → from ≤ p → p + n ≤ to → (a + k ≤ from) ⊎ (to ≤ a) → (p + n ≤ a) ⊎ (a + k ≤ p)
      apart p n b e (inl h) = inr (omega (arith, b, h))
      apart p n b e (inr h) = inl (omega (arith, e, h))

  -- Every field that was assigned is read back.
  pub assign-holds :
      (from to i : ℕ) (fs : List Field) (d : D)
      → first ≤ from
      → to ≤ last
      → Ascending from fs to
      → i < length fs
      → let f = get_or fs i (field 0 0 0) in
        ram.holds (assign platform fs d) f.bytes f.addr ≡ f.value
  unfolding assign
  assign-holds from to i [] d lo hi up h = absurd (omega (arith, h))
  assign-holds from to zero (f ∷ fs) d lo hi (b, v, up) h =
      let end = Ascending-le (f.addr + f.bytes) to fs up in
      assign-kept (f.addr + f.bytes) to f.bytes f.addr fs _ (omega (arith, lo, b)) hi up
        (inl (omega arith))
      ∙ ram.stored d f.bytes f.addr f.value (omega (arith, lo, b)) (omega (arith, end, hi)) v
  assign-holds from to (suc i) (f ∷ fs) d lo hi (b, v, up) h =
      assign-holds (f.addr + f.bytes) to i fs _ (omega (arith, lo, b)) hi up (omega (arith, h))

-- A request as the device reads it: two descriptors in a chain, the second one for the answer, the first
-- of them in the slot of the ring, and the index behind that slot.
pub record Chain (holds : (bytes addr : ℕ) → ℕ) (vq : Virtqueue) (cmd cmd_len resp resp_len : ℕ)
    : Type 0 where
  pub cmd_addr : holds 8 vq.desc ≡ cmd
  pub cmd_size : holds 4 (vq.desc + 8) ≡ cmd_len
  pub cmd_flags : holds 2 (vq.desc + 12) ≡ desc_f_next
  pub cmd_next : holds 2 (vq.desc + 14) ≡ 1
  pub resp_addr : holds 8 (vq.desc + 16) ≡ resp
  pub resp_size : holds 4 (vq.desc + 24) ≡ resp_len
  pub resp_flags : holds 2 (vq.desc + 28) ≡ desc_f_write
  pub slot : holds 2 (vq.avail + 4 + vq.avail_idx % vq.queue_size * 2) ≡ 0
  pub idx : holds 2 (vq.avail + 2) ≡ next_avail vq

-- The numbers of a request have the widths of their fields.
pub record IsRequest (vq : Virtqueue) (cmd cmd_len resp resp_len : ℕ) : Type 0 where
  pub size : 2 ≤ vq.queue_size
  pub behind_desc : vq.desc + vq.queue_size * 16 ≤ vq.avail
  pub cmd_fits : cmd < 2 ^ 64
  pub cmd_len_fits : cmd_len < 2 ^ 32
  pub resp_fits : resp < 2 ^ 64
  pub resp_len_fits : resp_len < 2 ^ 32

descriptors-Ascending :
    (vq : Virtqueue) (cmd cmd_len resp resp_len : ℕ)
    → IsRequest vq cmd cmd_len resp resp_len
    → Ascending vq.desc
        (descriptors vq cmd cmd_len resp resp_len)
        (vq.avail + 6 + vq.queue_size * 2)
descriptors-Ascending vq cmd cmd_len resp resp_len h =
    let below = mod-lt vq.avail_idx {m = vq.queue_size} (omega (arith, h.size)) in
    (
      omega arith,
      omega (arith, h.cmd_fits),
      (
        omega arith,
        omega (arith, h.cmd_len_fits),
        (
          omega arith,
          omega arith,
          (
            omega arith,
            omega arith,
            (
              omega arith,
              omega (arith, h.resp_fits),
              (
                omega arith,
                omega (arith, h.resp_len_fits),
                (
                  omega arith,
                  omega arith,
                  (
                    omega arith,
                    omega arith,
                    (omega (arith, h.size, h.behind_desc), omega arith, omega (arith, below)),
                  ),
                ),
              ),
            ),
          ),
        ),
      ),
    )

-- When the driver notifies the device, the memory of the queue holds the request: the descriptor of the
-- command leads to that of the answer, which the device may write to, the slot of the available ring
-- names the first one, and the index counts it, for a queue of at least two entries whose parts do not
-- overlap, in memory that keeps what is stored, and arguments of the widths of their fields.
pub publish-Chain :
    {D : Type 0} (platform : Platform D) (vq : Virtqueue) (cmd cmd_len resp resp_len : ℕ) (d : D)
    → (ram : Ram platform vq.desc (vq.avail + 6 + vq.queue_size * 2))
    → IsRequest vq cmd cmd_len resp resp_len
    → Chain
        (ram.holds (publish platform vq cmd cmd_len resp resp_len d))
        vq
        cmd
        cmd_len
        resp
        resp_len
unfolding publish
publish-Chain platform vq cmd cmd_len resp resp_len d ram h = record {
  cmd_addr = held 0 (omega arith) (inr (omega (arith, h.size, h.behind_desc)));
  cmd_size = held 1 (omega arith) (inr (omega (arith, h.size, h.behind_desc)));
  cmd_flags = held 2 (omega arith) (inr (omega (arith, h.size, h.behind_desc)));
  cmd_next = held 3 (omega arith) (inr (omega (arith, h.size, h.behind_desc)));
  resp_addr = held 4 (omega arith) (inr (omega (arith, h.size, h.behind_desc)));
  resp_size = held 5 (omega arith) (inr (omega (arith, h.size, h.behind_desc)));
  resp_flags = held 6 (omega arith) (inr (omega (arith, h.size, h.behind_desc)));
  slot = held 8 (omega arith) (inl (omega arith));
  idx = ram.stored _ 2 (vq.avail + 2) (next_avail vq) before_avail (omega arith) (omega arith);
}
  where
    fields : List Field
    fields = descriptors vq cmd cmd_len resp resp_len

    before_avail : vq.desc ≤ vq.avail + 2
    before_avail = omega (arith, h.behind_desc)

    held :
        (i : ℕ)
        → i < 9
        → let f = get_or fields i (field 0 0 0) in
          (vq.avail + 2 + 2 ≤ f.addr) ⊎ (f.addr + f.bytes ≤ vq.avail + 2)
          → ram.holds
              (platform.store (assign platform fields d) 2 (vq.avail + 2) (next_avail vq))
              f.bytes
              f.addr
            ≡ f.value
    held i small apart =
        ram.kept (assign platform fields d) 2 (vq.avail + 2) (next_avail vq) _ _ before_avail
          (omega arith) apart
        ∙ assign-holds platform vq.desc (vq.avail + 6 + vq.queue_size * 2) ram vq.desc
            (vq.avail + 6 + vq.queue_size * 2) i fields d (omega arith) (omega arith)
            (descriptors-Ascending vq cmd cmd_len resp resp_len h) small
