-- ===== src/Heap.antt =====
-- Kernel/Memory/Memory_Main.c, the heap: `kmalloc`, `kfree`, `kcalloc`, `krealloc` and what they
-- call. Block headers live in a memory indexed by address, linked by `next`; 0 is NULL. A block's
-- payload starts `sizeof(memory_block_t)`, 16 bytes, behind its header.
-- The locks and the masking of interrupts make each call one step, so a call is a function.
pub mod Blocks
pub mod Chain
pub mod Walk
pub mod Search
pub mod Invariant
pub mod Kmalloc
pub mod Fresh
pub mod Kfree
mod Tests
use implus_os.Base.{
  ℕ, zero, suc, ◌+◌, ◌-◌, ◌*◌, ◌/◌, ◌%◌, ◌^◌, Bool, true, false, not, ◌&&◌, ◌||◌, if◌then◌else◌,
  ltb, leb, ◌==◌, update,
}

abbrev pub header_size : ℕ
header_size = 16

-- HEAP_PAGE_COUNT * PAGE_SIZE.
abbrev pub heap_bytes : ℕ
heap_bytes = 4096 * 4096

abbrev pub min_alloc_align : ℕ
min_alloc_align = 8

abbrev pub min_split_remainder : ℕ
min_split_remainder = 64

abbrev pub u32 : ℕ → ℕ
u32 n = n % 2 ^ 32

-- Enough rounds for a walk round the whole list, which has at most `heap_bytes / 16` blocks.
abbrev pub walk_fuel : ℕ
walk_fuel = 2 ^ 22

-- `memory_block_t`.
pub record Header : Type 0 where
  pub size : ℕ
  pub is_free : Bool
  pub next : ℕ

-- The static variables of the heap, with the headers and the payload bytes by address.
pub record Heap : Type 0 where
  pub header : ℕ → Header
  pub byte : ℕ → ℕ
  pub start : ℕ
  pub hint : ℕ
  pub initialized : Bool
  pub total_allocated : ℕ
  pub total_freed : ℕ
  pub start_page : ℕ

-- `(value + align - 1u) & ~(align - 1u)` for a power of two, in 32 bits.
unfoldable pub align_up : ℕ → ℕ → ℕ
align_up value align = u32 (value + align - 1) / align * align

-- The loop of `find_block_by_payload`: the block and its predecessor, 0 and 0 if there is none.
pub find_from : ℕ → (ℕ → Header) → ℕ → ℕ → ℕ → ℕ × ℕ
find_from zero hd target prev current = (0, 0)
find_from (suc fuel) hd target prev current = elim (current == 0) [
  | true ↦ (0, 0)
  | false ↦ elim (current + header_size == target) [
    | true ↦ (current, prev)
    | false ↦ find_from fuel hd target current (hd current).next
  ]
]

unfoldable pub find_block_by_payload : Heap → ℕ → ℕ × ℕ
find_block_by_payload h ptr = find_from walk_fuel h.header ptr 0 h.start

unfoldable pub split_block_if_needed : (ℕ → Header) → ℕ → ℕ → ℕ → Header
split_block_if_needed hd block size =
    let old = hd block in
    let new_block = block + header_size + size in
    if leb (size + header_size + min_split_remainder) old.size
    then update
        (update hd new_block
          (record { size = u32 (old.size - size - header_size); is_free = true; next = old.next }))
        block (record { size = size; is_free = old.is_free; next = new_block })
    else hd

abbrev pub set_free : (ℕ → Header) → ℕ → Bool → ℕ → Header
set_free hd block f = update hd block (record (hd block) { is_free = f })

-- The loop of `kmalloc_locked`: the block to take, or 0.
pub search_from : ℕ → (ℕ → Header) → (heap_start start size current : ℕ) → Bool → ℕ
search_from zero hd heap_start start size current wrapped = 0
search_from (suc fuel) hd heap_start start size current wrapped = elim (current == 0) [
  | true ↦ 0
  | false ↦ elim ((hd current).is_free && leb size (hd current).size) [
    | true ↦ current
    | false ↦
        let next = (hd current).next in
        let at_end = (next == 0) && not wrapped in
        let current' = if at_end then heap_start else next in
        let wrapped' = at_end || wrapped in
        elim (wrapped' && current' == start) [
          | true ↦ 0
          | false ↦ search_from fuel hd heap_start start size current' wrapped'
        ]
  ]
]

-- The block found is split, taken out of the free ones and counted.
unfoldable pub take_block : Heap → ℕ → ℕ → ℕ × Heap
take_block h current size =
    let hd = set_free (split_block_if_needed h.header current size) current false in
    let taken = hd current in
    (
      current + header_size,
      record h {
        header = hd;
        total_allocated = u32 (h.total_allocated + taken.size);
        hint = if taken.next == 0 then h.start else taken.next;
      },
    )

unfoldable pub kmalloc_locked : Heap → ℕ → ℕ × Heap
kmalloc_locked h size =
    let start = if h.hint == 0 then h.start else h.hint in
    let h' = record h { hint = start } in
    let block = search_from walk_fuel h.header h.start start size start false in
    if block == 0 then (0, h') else take_block h' block size

-- `kernel_end` is the address of the linker's symbol `_kernel_end`.
unfoldable pub calc_heap_start_page : ℕ → Heap → ℕ × Heap
calc_heap_start_page kernel_end h =
    let page = u32 ((kernel_end + 4095) / 4096) in
    if h.start_page == 0 then (page, record h { start_page = page }) else (h.start_page, h)

abbrev pub init_at : ℕ × Heap → Heap
init_at (page, h) =
    let start = page * 4096 in
    record h {
      start = start;
      header =
          update h.header start
            (record { size = heap_bytes - header_size; is_free = true; next = 0 });
      hint = start;
      initialized = true;
      total_allocated = 0;
      total_freed = 0;
    }

unfoldable pub memory_init : ℕ → Heap → Heap
memory_init kernel_end h = if h.initialized then h else init_at (calc_heap_start_page kernel_end h)

unfoldable pub kmalloc : Heap → ℕ → ℕ × Heap
kmalloc h size =
    if not h.initialized || size == 0
    then (0, h)
    else kmalloc_locked h (align_up size min_alloc_align)

-- `block->size += sizeof(memory_block_t) + next->size; block->next = next->next`.
abbrev pub absorb : (ℕ → Header) → ℕ → ℕ → ℕ → Header
absorb hd block next = update hd block (record (hd block) {
  size = u32 ((hd block).size + header_size + (hd next).size);
  next = (hd next).next;
})

-- The block takes in its successor if that is free.
unfoldable pub absorb_next : (ℕ → Header) → ℕ → ℕ → Header
absorb_next hd block =
    let next = (hd block).next in
    if not (next == 0) && (hd next).is_free then absorb hd block next else hd

-- `kfree` behind its checks.
unfoldable pub free_block : Heap → ℕ → ℕ → Heap
free_block h block prev =
    let hd = absorb_next (set_free h.header block true) block in
    let joins = not (prev == 0) && (hd prev).is_free in
    record h {
      header = if joins then absorb hd prev block else hd;
      total_freed = u32 (h.total_freed + (h.header block).size);
      hint = if joins then prev else block;
    }

abbrev free_found : Heap → ℕ × ℕ → Heap
free_found h (block, prev) =
    if block == 0 || (h.header block).is_free then h else free_block h block prev

unfoldable pub kfree : Heap → ℕ → Heap
kfree h ptr =
    if (ptr == 0)
      || (not h.initialized || h.start == 0)
      || (ltb ptr (h.start + header_size) || leb (h.start + heap_bytes) ptr)
    then h
    else free_found h (find_block_by_payload h ptr)

-- `n` zero bytes from `p` on.
pub zero_bytes : ℕ → ℕ → (ℕ → ℕ) → ℕ → ℕ
zero_bytes zero p mem = mem
zero_bytes (suc n) p mem = zero_bytes n (p + 1) (update mem p 0)

abbrev zeroed : ℕ → ℕ × Heap → ℕ × Heap
zeroed total (p, h) = (p, if p == 0 then h else record h { byte = zero_bytes total p h.byte })

unfoldable pub kcalloc : Heap → ℕ → ℕ → ℕ × Heap
kcalloc h num size =
    if not (num == 0) && ltb ((2 ^ 32 - 1) / num) size
    then (0, h)
    else zeroed (u32 (num * size)) (kmalloc h (u32 (num * size)))

-- `dst[i] = src[i]` for `n` bytes, in ascending order.
unfoldable pub copy_bytes : ℕ → ℕ → ℕ → (ℕ → ℕ) → ℕ → ℕ
copy_bytes zero dst src mem = mem
copy_bytes (suc n) dst src mem = copy_bytes n (dst + 1) (src + 1) (update mem dst (mem src))

-- The move of `krealloc` to a new block.
abbrev moved_to : ℕ → ℕ → ℕ × Heap → ℕ × Heap
moved_to ptr old_size (p, h) =
    if p == 0 then (0, h) else (p, kfree (record h { byte = copy_bytes old_size p ptr h.byte }) ptr)

-- `krealloc` once the block is found, for a size that has been rounded up.
unfoldable pub realloc_block : Heap → ℕ → ℕ → ℕ → ℕ × Heap
realloc_block h ptr block size =
    let old = h.header block in
    let next = h.header old.next in
    let moved = moved_to ptr old.size (kmalloc h size) in
    if leb size old.size
    then (ptr, record h { header = split_block_if_needed h.header block size })
    else if not (old.next == 0) && next.is_free && leb size (old.size + header_size + next.size)
    then (
      ptr,
      record h { header = split_block_if_needed (absorb h.header block old.next) block size },
    )
    else moved

unfoldable pub krealloc : Heap → ℕ → ℕ → ℕ × Heap
krealloc h ptr new_size =
    let found = find_block_by_payload h ptr in
    let resized = realloc_block h ptr found.0 (align_up new_size min_alloc_align) in
    if ptr == 0
    then kmalloc h new_size
    else if new_size == 0
    then (0, kfree h ptr)
    else if found.0 == 0 || (h.header found.0).is_free
    then (0, h)
    else resized

-- The sum of the free blocks' sizes, in 32 bits.
pub free_from : ℕ → (ℕ → Header) → ℕ → ℕ → ℕ
free_from zero hd acc current = acc
free_from (suc fuel) hd acc current = elim (current == 0) [
  | true ↦ acc
  | false ↦
      free_from fuel hd (if (hd current).is_free then u32 (acc + (hd current).size) else acc)
        (hd current).next
]

unfoldable pub get_free_memory : Heap → ℕ
get_free_memory h = if h.initialized then free_from walk_fuel h.header 0 h.start else 0

unfoldable pub get_used_memory : Heap → ℕ
get_used_memory h = u32 (h.total_allocated + 2 ^ 32 - h.total_freed)
