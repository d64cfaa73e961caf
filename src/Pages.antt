-- ===== src/Pages.antt =====
-- Kernel/Memory/Memory_Main.c, the physical pages: the bitmap, its set-up from the firmware's memory
-- map, `alloc_page` and `free_page`. A page is used if its byte in `page_bitmap` is not 0. The lock
-- makes each call one step.
pub mod Marks
pub mod Covers
pub mod Alloc
mod Tests
use implus_os.Base.{
  ℕ, zero, suc, ◌+◌, ◌-◌, ◌*◌, ◌/◌, ◌%◌, ◌^◌, Bool, true, false, not, ◌&&◌, ◌||◌, if◌then◌else◌,
  ltb, leb, ◌==◌, update,
}
use implus_os.Heap.{Heap, calc_heap_start_page}

abbrev pub page_size : ℕ
page_size = 4096

abbrev pub max_pages : ℕ
max_pages = 262144

abbrev pub heap_page_count : ℕ
heap_page_count = 4096

-- `page_bitmap` and `page_alloc_hint`.
pub record Pages : Type 0 where
  pub bitmap : ℕ → ℕ
  pub page_alloc_hint : ℕ

-- `page_bitmap[i] = used` for `n` pages from `i` on.
pub fill_pages : ℕ → ℕ → ℕ → (ℕ → ℕ) → ℕ → ℕ
fill_pages zero i used bitmap = bitmap
fill_pages (suc n) i used bitmap = fill_pages n (i + 1) used (update bitmap i used)

-- The end of the range that is marked: the sum is in 64 bits, and is cut at the last page.
abbrev pub end_page : ℕ → ℕ → ℕ
end_page start_page page_count =
    let sum = (start_page + page_count) % 2 ^ 64 in if ltb max_pages sum then max_pages else sum

unfoldable pub mark_pages : ℕ → ℕ → ℕ → (ℕ → ℕ) → ℕ → ℕ
mark_pages start_page page_count used bitmap =
    if leb max_pages start_page
    then bitmap
    else fill_pages (end_page start_page page_count - start_page) start_page used bitmap

-- The EFI_ types of memory that the kernel uses.
unfoldable pub is_usable_memory_type : ℕ → Bool
is_usable_memory_type type =
    (((type == 1) || (type == 2)) || ((type == 3) || (type == 4))) || (type == 7)

-- `EFI_MEMORY_DESCRIPTOR`, the fields that are read.
pub record Descriptor : Type 0 where
  pub type : ℕ
  pub physical_start : ℕ
  pub number_of_pages : ℕ

unfoldable pub add_descriptor : Descriptor → (ℕ → ℕ) → ℕ → ℕ
add_descriptor d bitmap =
    if is_usable_memory_type d.type
    then mark_pages (d.physical_start / page_size) d.number_of_pages 0 bitmap
    else bitmap

-- The memory map as the firmware leaves it: the descriptor at each byte offset.
pub record MemoryMap : Type 0 where
  pub address : ℕ
  pub map_size : ℕ
  pub desc_size : ℕ
  pub descriptor : ℕ → Descriptor

-- The loop over the descriptors that lie inside the map whole, for offsets and sizes that stay below
-- 2^64.
pub descriptors_from : ℕ → MemoryMap → ℕ → (ℕ → ℕ) → ℕ → ℕ
descriptors_from zero map offset bitmap = bitmap
descriptors_from (suc fuel) map offset bitmap =
    let rest =
      descriptors_from fuel map (offset + map.desc_size)
        (add_descriptor (map.descriptor offset) bitmap) in
    if leb (offset + map.desc_size) map.map_size then rest else bitmap

-- The bitmap of `init_physical_memory` before the kernel's own pages are marked: all pages used, then
-- the descriptors. `map_size` rounds are enough, since each goes on by at least one byte.
unfoldable pub known_pages : MemoryMap → Pages → ℕ → ℕ
known_pages map p =
    let fresh = fill_pages max_pages 0 1 p.bitmap in
    if not (map.address == 0) && not (map.desc_size == 0)
    then descriptors_from map.map_size map 0 fresh
    else fresh

-- The first page of the heap stays in `heap_start_page`, for `memory_init`.
unfoldable pub init_physical_memory : MemoryMap → (kernel_end : ℕ) → Heap → Pages → Pages × Heap
init_physical_memory map kernel_end h p =
    let (heap_page, h') = calc_heap_start_page kernel_end h in
    (record p { bitmap = mark_pages 0 (heap_page + heap_page_count) 1 (known_pages map p) }, h')

-- `page_alloc_hint = 0` in `memory_init`.
unfoldable pub reset_hint : Pages → Pages
reset_hint p = record p { page_alloc_hint = 0 }

-- The loop of `alloc_page` over `offset`, with the rounds left.
pub alloc_from : ℕ → ℕ → Pages → ℕ × Pages
alloc_from zero offset p = (0, p)
alloc_from (suc n) offset p =
    let i = (p.page_alloc_hint + offset) % max_pages in
    let rest = alloc_from n (offset + 1) p in
    if p.bitmap i == 0
    then (
      i * page_size,
      record p { bitmap = update p.bitmap i 1; page_alloc_hint = (i + 1) % max_pages },
    )
    else rest

unfoldable pub alloc_page : Pages → ℕ × Pages
alloc_page p = alloc_from max_pages 0 p

unfoldable pub free_page : Pages → ℕ → Pages
free_page p addr =
    let page_num = addr / page_size in
    if addr == 0 || not (ltb page_num max_pages) then p else record p {
      bitmap = update p.bitmap page_num 0;
      page_alloc_hint = if ltb page_num p.page_alloc_hint then page_num else p.page_alloc_hint;
    }
