-- ===== src/Heap/Invariant.antt =====
-- The invariant of the heap, what it says of the blocks in use, and that `memory_init` sets it up.
use mathlib.Core.Path.{subst}
use implus_os.Base.{
  ℕ, ◌+◌, ◌-◌, ◌*◌, ◌/◌, ◌^◌, ◌≤◌, ◌<◌, ◌≡◌, refl, sym, ◌∙◌, ◌≢◌, ◌⊎◌, inl, inr, Bool, true, false,
  not, ◌&&◌, ◌||◌, List, [], ◌∷◌, arith, if◌then◌else◌, Bool-cases, ◌==◌, ==→eq, length,
}
use implus_os.Heap.{
  Heap, Header, header_size, heap_bytes, walk_fuel, memory_init, init_at, calc_heap_start_page,
}
use implus_os.Heap.Blocks.{Block, Tiles, has, Tiles-le}
use implus_os.Heap.Chain.{Chain, Chain-cons}

-- The list of headers that starts at `heap_start` stands for the blocks `bs`, which fill the heap,
-- and the hint is NULL or one of them.
pub record IsHeap (h : Heap) (bs : List Block) : Type 0 where
  pub is_ready : h.initialized ≡ true
  pub non_null : h.start ≢ 0
  pub chain : Chain h.header h.start bs
  pub tiles : Tiles h.start (h.start + heap_bytes) bs
  pub low : h.start + heap_bytes < 2 ^ 32
  pub hinted : (h.hint ≡ 0) ⊎ (has h.hint bs ≡ true)

length-Tiles : (a end : ℕ) (bs : List Block) → Tiles a end bs → a + 16 * length bs ≤ end
length-Tiles a end [] tiles = omega arith
length-Tiles a end (b ∷ bs) tiles =
    omega (arith, length-Tiles (a + header_size + b.size) end bs tiles.1)

-- The walks have enough fuel.
pub enough_fuel : {h : Heap} {bs : List Block} → IsHeap h bs → length bs + length bs < walk_fuel
enough_fuel {h} {bs} v = omega (arith, length-Tiles h.start (h.start + heap_bytes) bs v.tiles)

-- The block at `t` has `s` bytes of payload and is in use.
abbrev pub used_at : ℕ → ℕ → List Block → Bool
used_at t s [] = false
used_at t s (b ∷ bs) = (((b.addr == t) && (b.size == s)) && not b.is_free) || used_at t s bs

-- Whether the block at `t` is free.
abbrev pub flag_at : ℕ → List Block → Bool
flag_at t [] = false
flag_at t (b ∷ bs) = if b.addr == t then b.is_free else flag_at t bs

abbrev pub size_at : ℕ → List Block → ℕ
size_at t [] = 0
size_at t (b ∷ bs) = if b.addr == t then b.size else size_at t bs

-- The header at a block shows its flag and its size.
pub Chain-flag :
    (hd : ℕ → Header) (t p : ℕ) (bs : List Block)
    → Chain hd p bs
    → has t bs ≡ true
    → (hd t).is_free ≡ flag_at t bs
Chain-flag hd t p [] chain h = absurd (cc h)
Chain-flag hd t p (b ∷ bs) chain h = elim (Bool-cases (b.addr == t)) [
  | inl e ↦ rw (e, ← chain.0 ∙ ==→eq b.addr t e) chain.2.1
  | inr e ↦ rw e (Chain-flag hd t (hd p).next bs chain.3 (rw e at h))
]

pub used_inside :
    (t s a end : ℕ) (bs : List Block)
    → Tiles a end bs
    → used_at t s bs ≡ true
    → (a ≤ t) × (t + header_size + s ≤ end)
used_inside t s a end [] tiles h = absurd (cc h)
used_inside t s a end (b ∷ bs) tiles h =
    elim (Bool-cases (((b.addr == t) && (b.size == s)) && not b.is_free)) [
      | inl e ↦ ground (arith, tiles.0, e, Tiles-le (a + header_size + b.size) end bs tiles.1)
      | inr e ↦ omega (arith, used_inside t s (a + header_size + b.size) end bs tiles.1 (rw e at h))
    ]

-- Two blocks in use at different addresses do not overlap, headers included.
pub used_apart :
    (t s u r a end : ℕ) (bs : List Block)
    → Tiles a end bs
    → used_at t s bs ≡ true
    → used_at u r bs ≡ true
    → t ≢ u
    → (t + header_size + s ≤ u) ⊎ (u + header_size + r ≤ t)
used_apart t s u r a end [] tiles h k ne = absurd (cc h)
used_apart t s u r a end (b ∷ bs) tiles h k ne =
    elim (Bool-cases (((b.addr == t) && (b.size == s)) && not b.is_free)) [
      | inl e ↦
          let other : (((b.addr == u) && (b.size == r)) && not b.is_free) ≡ false =
            ground (arith, e, ne) in
          inl (
            ground (
              arith,
              e,
              used_inside u r (a + header_size + b.size) end bs tiles.1 (rw other at k),
              tiles.0,
            ))
      | inr e ↦ elim (Bool-cases (((b.addr == u) && (b.size == r)) && not b.is_free)) [
        | inl f ↦ inr (
            ground (
              arith,
              f,
              used_inside t s (a + header_size + b.size) end bs tiles.1 (rw e at h),
              tiles.0,
            ))
        | inr f ↦
            used_apart t s u r (a + header_size + b.size) end bs tiles.1 (rw e at h) (rw f at k) ne
      ]
    ]

start_page_lem :
    (kernel_end : ℕ) (h : Heap)
    → (h.start_page ≡ 0) ⊎ (h.start_page ≡ (kernel_end + 4095) / 4096)
    → 0 < kernel_end
    → kernel_end < 2 ^ 32
    → (calc_heap_start_page kernel_end h).0 ≡ (kernel_end + 4095) / 4096
unfolding calc_heap_start_page
start_page_lem kernel_end h (inl z) pos small = rw z (omega (arith, small))
start_page_lem kernel_end h (inr e) pos small =
    let nz : (h.start_page == 0) ≡ false = ground (arith, e, pos) in rw nz e

-- `memory_init` makes the heap one free block over all its bytes, which satisfies the invariant, when
-- the heap is not yet initialized and `heap_start_page` is 0 or what `init_physical_memory` leaves
-- there, for a kernel that ends low enough for 32-bit addresses.
pub memory_init-IsHeap :
    (kernel_end : ℕ) (h : Heap)
    → h.initialized ≡ false
    → (h.start_page ≡ 0) ⊎ (h.start_page ≡ (kernel_end + 4095) / 4096)
    → 0 < kernel_end
    → kernel_end + 4096 + heap_bytes < 2 ^ 32
    → let start = (kernel_end + 4095) / 4096 * 4096 in
      IsHeap
        (memory_init kernel_end h)
        (record { addr = start; size = heap_bytes - header_size; is_free = true } ∷ [])
unfolding memory_init
memory_init-IsHeap kernel_end h fresh page pos small =
    subst (λ b. IsHeap (if b then h else init_at (calc_heap_start_page kernel_end h)) (whole ∷ []))
      (sym fresh)
      (whole-IsHeap (calc_heap_start_page kernel_end h)
        (start_page_lem kernel_end h page pos (omega arith)))
  where
    start : ℕ
    start = (kernel_end + 4095) / 4096 * 4096

    whole : Block
    whole = record { addr = start; size = heap_bytes - header_size; is_free = true }

    whole-IsHeap :
        (r : ℕ × Heap) → r.0 ≡ (kernel_end + 4095) / 4096 → IsHeap (init_at r) (whole ∷ [])
    whole-IsHeap (page, h) e =
        subst (λ n. IsHeap (init_at (n, h)) (whole ∷ [])) (sym e)
          (record {
            is_ready = refl;
            non_null = omega (arith, pos);
            chain =
                Chain-cons h.header
                  (record { size = heap_bytes - header_size; is_free = true; next = 0 }) whole start
                  [] refl (omega (arith, pos)) (refl, refl) refl refl;
            tiles = (refl, omega arith);
            low = omega (arith, small);
            hinted = inr (ground arith);
          })
