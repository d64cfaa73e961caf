-- ===== src/Pages/Covers.antt =====
-- The converse for `init_physical_memory`: every page that the memory map offers is free.
use mathlib.Core.Path.{subst}
use implus_os.Base.{
  ℕ, zero, suc, ◌+◌, ◌*◌, ◌/◌, ◌^◌, ◌≤◌, ◌<◌, ◌≡◌, inl, inr, true, arith, leb, Bool-cases, le→leb,
}
use implus_os.Heap.{Heap, calc_heap_start_page}
use implus_os.Pages.{
  Pages, page_size, max_pages, heap_page_count, fill_pages, is_usable_memory_type, Descriptor,
  add_descriptor, MemoryMap, descriptors_from, known_pages, init_physical_memory,
}
use implus_os.Pages.Marks.{mark_pages_lem, mark_pages_zero}

-- The descriptor offers the page, and its range ends below 2^64.
abbrev pub Offers : Descriptor → ℕ → Type 0
Offers d j =
    (is_usable_memory_type d.type ≡ true)
    × (d.physical_start / page_size ≤ j)
    × (j < d.physical_start / page_size + d.number_of_pages)
    × (d.physical_start / page_size + d.number_of_pages < 2 ^ 64)

add_descriptor_keeps :
    (d : Descriptor) (bitmap : ℕ → ℕ) (j : ℕ) → bitmap j ≡ 0 → add_descriptor d bitmap j ≡ 0
unfolding add_descriptor
add_descriptor_keeps d bitmap j z =
    ground (arith, z, mark_pages_zero (d.physical_start / page_size) d.number_of_pages bitmap j z)

add_descriptor_frees :
    (d : Descriptor) (bitmap : ℕ → ℕ) (j : ℕ)
    → j < max_pages
    → Offers d j
    → add_descriptor d bitmap j ≡ 0
unfolding add_descriptor
add_descriptor_frees d bitmap j lt (ok, lo, hi, small) = rw ok (
    ground (
      arith,
      lt,
      lo,
      hi,
      mark_pages_lem (d.physical_start / page_size) d.number_of_pages 0 bitmap j small,
    ))

descriptors_keep :
    (fuel : ℕ) (map : MemoryMap) (offset : ℕ) (bitmap : ℕ → ℕ) (j : ℕ)
    → bitmap j ≡ 0
    → descriptors_from fuel map offset bitmap j ≡ 0
unfolding descriptors_from
descriptors_keep zero map offset bitmap j z = z
descriptors_keep (suc fuel) map offset bitmap j z =
    elim (Bool-cases (leb (offset + map.desc_size) map.map_size)) [
      | inr e ↦ rw e z
      | inl e ↦ rw e (
          descriptors_keep fuel map (offset + map.desc_size)
            (add_descriptor (map.descriptor offset) bitmap) j
            (add_descriptor_keeps (map.descriptor offset) bitmap j z))
    ]

Offers-at :
    (map : MemoryMap) (j : ℕ) {o o' : ℕ}
    → o ≡ o'
    → Offers (map.descriptor o) j
    → Offers (map.descriptor o') j
Offers-at map j e offers = subst (λ o. Offers (map.descriptor o) j) e offers

mul_grows : (k d : ℕ) → 0 < d → k ≤ k * d
mul_grows zero d h = omega arith
mul_grows (suc k) d h =
    let e : suc k * d ≡ k * d + d = grind arith in omega (arith, e, mul_grows k d h)

-- The descriptor `k` places on is reached, whatever stands before it.
descriptors_free :
    (k fuel : ℕ) (map : MemoryMap) (offset : ℕ) (bitmap : ℕ → ℕ) (j : ℕ)
    → k < fuel
    → offset + k * map.desc_size + map.desc_size ≤ map.map_size
    → j < max_pages
    → Offers (map.descriptor (offset + k * map.desc_size)) j
    → descriptors_from fuel map offset bitmap j ≡ 0
unfolding descriptors_from
descriptors_free k zero map offset bitmap j few inside lt offers = absurd (omega arith)
descriptors_free zero (suc fuel) map offset bitmap j few inside lt offers =
    let e : leb (offset + map.desc_size) map.map_size ≡ true = le→leb _ _ (omega arith) in
    rw e (
      descriptors_keep fuel map (offset + map.desc_size)
        (add_descriptor (map.descriptor offset) bitmap) j
        (add_descriptor_frees (map.descriptor offset) bitmap j lt
          (Offers-at map j (grind arith) offers)))
descriptors_free (suc k) (suc fuel) map offset bitmap j few inside lt offers =
    let at : offset + suc k * map.desc_size ≡ offset + map.desc_size + k * map.desc_size =
      grind arith in
    let e : leb (offset + map.desc_size) map.map_size ≡ true = le→leb _ _ (grind arith) in
    rw e (
      descriptors_free k fuel map (offset + map.desc_size)
        (add_descriptor (map.descriptor offset) bitmap) j (omega arith) (grind arith) lt
        (Offers-at map j at offers))

-- After `init_physical_memory` every page behind the kernel and its heap is free that a descriptor of
-- usable memory offers: the descriptor number `k` of a map that has an address and whose descriptors
-- have a size.
pub init_physical_memory-covers :
    (map : MemoryMap) (kernel_end : ℕ) (h : Heap) (p : Pages) (k j : ℕ)
    → (calc_heap_start_page kernel_end h).0 + heap_page_count < 2 ^ 64
    → 0 < map.address
    → 0 < map.desc_size
    → k * map.desc_size + map.desc_size ≤ map.map_size
    → (calc_heap_start_page kernel_end h).0 + heap_page_count ≤ j
    → j < max_pages
    → Offers (map.descriptor (k * map.desc_size)) j
    → (init_physical_memory map kernel_end h p).0.bitmap j ≡ 0
unfolding init_physical_memory known_pages
init_physical_memory-covers map kernel_end h p k j small address size inside behind lt offers =
    let heap_page : ℕ = (calc_heap_start_page kernel_end h).0 in
    let mark =
      mark_pages_lem 0 (heap_page + heap_page_count) 1 (known_pages map p) j (omega arith) in
    let few : k < map.map_size = omega (arith, mul_grows k map.desc_size size) in
    let known : known_pages map p j ≡ 0 = ground (
      arith,
      address,
      size,
      descriptors_free k map.map_size map 0 (fill_pages max_pages 0 1 p.bitmap) j few (omega arith)
          lt (Offers-at map j (omega arith) offers),
    ) in
    ground (arith, mark, known, behind, lt)
