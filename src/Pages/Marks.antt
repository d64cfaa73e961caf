-- ===== src/Pages/Marks.antt =====
-- `mark_pages` and `init_physical_memory`.
use implus_os.Base.{
  ℕ, zero, suc, ◌+◌, ◌-◌, ◌*◌, ◌/◌, ◌%◌, ◌^◌, ◌≤◌, ◌<◌, ◌≡◌, true, arith, if◌then◌else◌, ltb, leb,
  ◌&&◌, update,
}
use implus_os.Heap.{Heap}
use implus_os.Pages.{
  Pages, page_size, max_pages, fill_pages, end_page, mark_pages, is_usable_memory_type, MemoryMap,
}

fill_pages_lem :
    (n i used : ℕ) (bitmap : ℕ → ℕ) (j : ℕ)
    → fill_pages n i used bitmap j ≡ (if leb i j && ltb j (i + n) then used else bitmap j)
unfolding fill_pages
fill_pages_lem zero i used bitmap j = ground arith
fill_pages_lem (suc n) i used bitmap j =
    ground (arith, fill_pages_lem n (i + 1) used (update bitmap i used) j)

-- `mark_pages` writes the mark to the pages from `start_page` on, `page_count` of them but none
-- beyond the last, and to no other page, when the end of the range does not wrap round 64 bits.
pub mark_pages_lem :
    (start_page page_count used : ℕ) (bitmap : ℕ → ℕ) (j : ℕ)
    → start_page + page_count < 2 ^ 64
    → mark_pages start_page page_count used bitmap j ≡ (
        if leb start_page j && (ltb j (start_page + page_count) && ltb j max_pages)
        then used
        else bitmap j)
unfolding mark_pages
mark_pages_lem start_page page_count used bitmap j h =
    let no_wrap : (start_page + page_count) % 2 ^ 64 ≡ start_page + page_count = omega arith in
    rw no_wrap (
      ground (
        arith,
        fill_pages_lem (end_page start_page page_count - start_page) start_page used bitmap j,
        no_wrap,
      ))

-- Marking a range free leaves a free page free.
pub mark_pages_zero :
    (start_page page_count : ℕ) (bitmap : ℕ → ℕ) (j : ℕ)
    → bitmap j ≡ 0
    → mark_pages start_page page_count 0 bitmap j ≡ 0
unfolding mark_pages
mark_pages_zero start_page page_count bitmap j z =
    ground
      (arith, z, fill_pages_lem (end_page start_page page_count - start_page) start_page 0 bitmap j)

-- The page lies in usable memory according to descriptor number `k` of the map, which lies in it whole.
abbrev pub Usable : MemoryMap → ℕ → Type 0
Usable map j =
    (k : ℕ) × (k * map.desc_size + map.desc_size ≤ map.map_size)
    × (is_usable_memory_type (map.descriptor (k * map.desc_size)).type ≡ true)
    × ((map.descriptor (k * map.desc_size)).physical_start / page_size ≤ j)
    × (j
        < (map.descriptor (k * map.desc_size)).physical_start / page_size
          + (map.descriptor (k * map.desc_size)).number_of_pages)
