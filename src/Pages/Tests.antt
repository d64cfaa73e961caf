-- ===== src/Pages/Tests.antt =====
-- The page allocator on a small bitmap, and its theorems at concrete inputs.
use implus_os.Base.{◌*◌, ◌≡◌, refl, false, arith, if◌then◌else◌, ltb}
use implus_os.Heap.{Heap, calc_heap_start_page}
use implus_os.Pages.{
  Pages, page_size, MemoryMap, init_physical_memory, alloc_page, alloc_from, is_usable_memory_type,
}
use implus_os.Pages.Covers.{Offers, init_physical_memory-covers}
use implus_os.Pages.Alloc.{Allocated, alloc_page-Allocated}

-- Pages 0, 1 and 2 are used, all others are free.
abbrev three_used : Pages
three_used = record { bitmap = λ j. if ltb j 3 then 1 else 0; page_alloc_hint = 1 }

-- One descriptor of conventional memory, from the second megabyte on.
abbrev one_range : MemoryMap
one_range = record {
  address = 0x1000;
  map_size = 48;
  desc_size = 48;
  descriptor = λ o. record { type = 7; physical_start = 0x200000; number_of_pages = 16384 };
}

takes_third : (alloc_page three_used).0 ≡ 3 * page_size
unfolding alloc_page alloc_from
takes_third = refl

alloc_page-Allocated_example : Allocated three_used (alloc_page three_used)
alloc_page-Allocated_example = alloc_page-Allocated three_used

alloc_third : alloc_page three_used ≡ (12288, (alloc_page three_used).1)
unfolding alloc_page alloc_from
alloc_third = refl

-- The heap before it is set up.
abbrev raw : Heap
raw = record {
  header = λ a. record { size = 0; is_free = false; next = 0 };
  byte = λ a. 0;
  start = 0;
  hint = 0;
  initialized = false;
  total_allocated = 0;
  total_freed = 0;
  start_page = 0;
}

Offers-5000 : Offers (one_range.descriptor (0 * 48)) 5000
unfolding is_usable_memory_type
Offers-5000 = (refl, omega arith, omega arith, omega arith)

init_physical_memory-covers_example :
    (init_physical_memory one_range 0x258000 raw three_used).0.bitmap 5000 ≡ 0
unfolding calc_heap_start_page
init_physical_memory-covers_example =
    init_physical_memory-covers one_range 0x258000 raw three_used 0 5000 (omega arith) (omega arith)
      (omega arith) (omega arith) (omega arith) (omega arith) Offers-5000
