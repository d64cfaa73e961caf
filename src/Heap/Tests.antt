-- ===== src/Heap/Tests.antt =====
-- Runs of the allocator, and its theorems at concrete heaps.
use implus_os.Base.{
  ℕ, ◌+◌, ◌-◌, ◌%◌, ◌≡◌, ◌≤◌, ◌<◌, refl, true, false, inl, inr, List, [], ◌∷◌, arith,
}
use implus_os.Heap.{
  Heap, header_size, heap_bytes, memory_init, kmalloc, kfree, krealloc, kmalloc_locked, take_block,
  split_block_if_needed, search_from, find_from, find_block_by_payload, realloc_block,
  calc_heap_start_page, align_up, get_free_memory, free_from, get_used_memory,
}
use implus_os.Heap.Blocks.{Block}
use implus_os.Heap.Invariant.{IsHeap, memory_init-IsHeap}
use implus_os.Heap.Kmalloc.{Malloced, kmalloc-Malloced}
use implus_os.Heap.Fresh.{Fresh, kmalloc-Fresh}
use implus_os.Heap.Kfree.{Freed, kfree-Freed}

abbrev raw : Heap
raw = record {
  header = λ a. record { size = 0; is_free = false; next = 0 };
  byte = λ a. 0;
  start = 0;
  hint = 0;
  initialized = false;
  total_allocated = 0;
  total_freed = 0;
  start_page = 0;
}

-- A kernel that ends at 2 MB.
abbrev fresh_heap : Heap
fresh_heap = memory_init 0x200000 raw

abbrev one_block : List Block
one_block = record { addr = 0x200000; size = heap_bytes - header_size; is_free = true } ∷ []

fresh-IsHeap : IsHeap fresh_heap one_block
fresh-IsHeap = memory_init-IsHeap 0x200000 raw refl (inl refl) (omega arith) (omega arith)

-- Two allocations, one behind the other.
two_allocations :
    ((kmalloc fresh_heap 10).0 ≡ 0x200010)
    × ((kmalloc (kmalloc fresh_heap 10).1 100).0 ≡ 0x200030)
    × (get_free_memory (kmalloc fresh_heap 10).1 ≡ heap_bytes - 48)
    × (get_used_memory (kmalloc fresh_heap 10).1 ≡ 16)
unfolding kmalloc memory_init calc_heap_start_page kmalloc_locked take_block split_block_if_needed
    search_from align_up get_free_memory free_from get_used_memory
two_allocations = (refl, refl, refl, refl)

-- A block that `krealloc` grows in place swallows the free block that the search hint names: the
-- next `kmalloc` starts from the header left behind there and returns an address inside the grown
-- block, 0x200050 within 0x200010 to 0x200210.
abbrev grown : ℕ × Heap
grown = krealloc (kmalloc fresh_heap 48).1 0x200010 512

overlap : (grown.0 ≡ 0x200010) × ((kmalloc grown.1 16).0 ≡ 0x200050)
unfolding kmalloc memory_init calc_heap_start_page kmalloc_locked take_block split_block_if_needed
    search_from align_up krealloc find_block_by_payload find_from realloc_block
overlap = (refl, refl)

-- The heap that `init_physical_memory` leaves.
abbrev placed : Heap
placed = record raw { start_page = 0x200 }

memory_init-IsHeap_example : IsHeap (memory_init 0x200000 placed) one_block
memory_init-IsHeap_example =
    memory_init-IsHeap 0x200000 placed refl (inr refl) (omega arith) (omega arith)

kmalloc-Malloced_example :
    (n : ℕ) × (10 ≤ n)
    × (n < 18)
    × (n % 8 ≡ 0)
    × Malloced fresh_heap one_block n (kmalloc fresh_heap 10)
kmalloc-Malloced_example = kmalloc-Malloced 10 fresh-IsHeap (omega arith) (omega arith)

kmalloc-Fresh_example : Fresh one_block 10 0x200010 (kmalloc fresh_heap 10).1
unfolding kmalloc memory_init calc_heap_start_page kmalloc_locked take_block split_block_if_needed
    search_from align_up
kmalloc-Fresh_example =
    kmalloc-Fresh 10 0x200010 fresh-IsHeap (omega arith) (omega arith) refl (omega arith)

abbrev used_heap : Heap
used_heap = record {
  header = λ a. record { size = heap_bytes - 16; is_free = false; next = 0 };
  byte = λ a. 0;
  start = 0x200000;
  hint = 0x200000;
  initialized = true;
  total_allocated = heap_bytes - 16;
  total_freed = 0;
  start_page = 0x200;
}

abbrev full_block : List Block
full_block = record { addr = 0x200000; size = heap_bytes - header_size; is_free = false } ∷ []

used_heap-IsHeap : IsHeap used_heap full_block
used_heap-IsHeap = record {
  is_ready = refl;
  non_null = omega arith;
  chain = (refl, omega arith, (refl, refl), refl);
  tiles = (refl, refl);
  low = omega arith;
  hinted = inr refl;
}

kfree-Freed_example : Freed full_block 0x200000 (kfree used_heap (0x200000 + header_size))
kfree-Freed_example = kfree-Freed 0x200000 (heap_bytes - 16) used_heap-IsHeap refl (omega arith)
