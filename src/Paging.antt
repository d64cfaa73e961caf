-- ===== src/Paging.antt =====
-- Kernel/Paging/Paging_Main.c: the page tables that `init_paging` builds and the window in which
-- `map_mmio_virt` maps devices. The tables stand at addresses that are parameters.
mod Tests
use implus_os.Base.{
  ℕ, zero, suc, ◌+◌, ◌-◌, ◌*◌, ◌/◌, ◌%◌, ◌^◌, ◌≤◌, ◌<◌, ◌≡◌, refl, ◌∙◌, Bool, true, false, ◌&&◌,
  if◌then◌else◌, ltb, leb, ◌==◌, Option, none, some, update, update_self, arith, ap, not, eq→==,
}

abbrev pub gb : ℕ
gb = 2 ^ 30

abbrev pub mb2 : ℕ
mb2 = 2 ^ 21

abbrev pub max_pdpt_entries : ℕ
max_pdpt_entries = 64

abbrev pub mmio_window_base : ℕ
mmio_window_base = 0xf0000000

abbrev pub mmio_window_slots : ℕ
mmio_window_slots = 16

-- PAGE_PRESENT | PAGE_RW | PAGE_USER, and the same with PAGE_PS.
abbrev pub table_flags : ℕ
table_flags = 7

abbrev pub large_flags : ℕ
large_flags = 135

-- The tables and the window. `pd` is indexed by the directory and the entry.
pub record Paging : Type 0 where
  pub pml4 : ℕ → ℕ
  pub pdpt : ℕ → ℕ
  pub pd : ℕ → ℕ → ℕ
  pub mmio_phys_base : ℕ → ℕ
  pub mmio_slots_used : ℕ

-- The loop over the slots in use, from `i` on: the slot that maps the base.
pub find_slot : ℕ → ℕ → (ℕ → ℕ) → ℕ → Option ℕ
find_slot zero i bases phys_base = none
find_slot (suc n) i bases phys_base =
    let rest = find_slot n (i + 1) bases phys_base in if bases i == phys_base then some i else rest

-- The gigabytes to map: 4 at least, the frame buffer's end if that lies higher, 64 at most.
abbrev pub required_entries : ℕ → ℕ → ℕ
required_entries framebuffer_base framebuffer_size =
    let fb_end = (framebuffer_base + framebuffer_size) % 2 ^ 64 in
    let max_addr = if ltb (4 * gb) fb_end then fb_end else 4 * gb in
    let entries = (max_addr + gb - 1) % 2 ^ 64 / gb in
    if ltb max_pdpt_entries entries then max_pdpt_entries else entries

-- The addresses of `pml4`, of `pdpt`, and of each directory of `pd`, all of them on page borders.
module _ (pdpt_at : ℕ) (pd_at : ℕ → ℕ) where
  -- A new slot of the window.
  abbrev pub take_slot : Paging → ℕ → ℕ → ℕ × Paging
  take_slot p phys_base offset =
      let virt_base = mmio_window_base + p.mmio_slots_used * mb2 in
      let pdpt_index = virt_base / 2 ^ 30 % 512 in
      let pd_index = virt_base / 2 ^ 21 % 512 in
      if leb max_pdpt_entries pdpt_index then (0, p) else (
        virt_base + offset,
        record p {
          pdpt = update p.pdpt pdpt_index (pd_at pdpt_index + table_flags);
          pd = update p.pd pdpt_index (update (p.pd pdpt_index) pd_index (phys_base + large_flags));
          mmio_phys_base = update p.mmio_phys_base p.mmio_slots_used phys_base;
          mmio_slots_used = p.mmio_slots_used + 1;
        },
      )

  abbrev pub in_slot : Paging → ℕ → ℕ → Option ℕ → ℕ × Paging
  in_slot p phys_base offset (some i) = (mmio_window_base + i * mb2 + offset, p)
  in_slot p phys_base offset none =
      if leb mmio_window_slots p.mmio_slots_used then (0, p) else take_slot p phys_base offset

  unfoldable pub map_mmio_virt : Paging → ℕ → ℕ × Paging
  map_mmio_virt p phys_addr =
      let phys_base = phys_addr / mb2 * mb2 in
      if ltb phys_addr (4 * gb)
      then (phys_addr, p)
      else in_slot p phys_base (phys_addr - phys_base)
          (find_slot p.mmio_slots_used 0 p.mmio_phys_base phys_base)

  -- The loops that fill the tables, by entry: `i` below the number of entries, `j` below 512.
  unfoldable pub init_paging : ℕ → ℕ → Paging → Paging
  init_paging framebuffer_base framebuffer_size p =
      let n = required_entries framebuffer_base framebuffer_size in
      record {
        pml4 = update (λ i. 0) 0 (pdpt_at + table_flags);
        pdpt = λ i. if ltb i n then pd_at i + table_flags else 0;
        pd = λ i j. if ltb i n && ltb j 512 then i * gb + j * mb2 + large_flags else 0;
        mmio_phys_base = λ i. 0;
        mmio_slots_used = 0;
      }

-- Bit `k` of an entry, PAGE_PRESENT for 0 and PAGE_PS for 7, and the address of the table it names.
abbrev pub is_set : (k entry : ℕ) → Bool
is_set k entry = entry / 2 ^ k % 2 == 1

abbrev pub frame : ℕ → ℕ
frame entry = entry / 4096 * 4096

module _ (pdpt_at : ℕ) (pd_at : ℕ → ℕ) where
  -- The entry is present and names the next table, not a page.
  abbrev pub leads_to : (entry table : ℕ) → Bool
  leads_to entry table = (is_set 0 entry && not (is_set 7 entry)) && frame entry == table

  -- The walk of the processor: each table names the next, and a directory's entry a page of 2 MB. None
  -- is a page fault.
  unfoldable pub translate : Paging → ℕ → Option ℕ
  translate p addr =
      let i = addr / 2 ^ 30 % 512 in
      let page = p.pd i (addr / 2 ^ 21 % 512) in
      if leads_to (p.pml4 (addr / 2 ^ 39 % 512)) pdpt_at
        && (leads_to (p.pdpt i) (pd_at i) && (is_set 0 page && is_set 7 page))
      then some (page / mb2 * mb2 + addr % mb2)
      else none

-- The tables stand on page borders.
abbrev pub Aligned : ℕ → (ℕ → ℕ) → Type 0
Aligned pdpt_at pd_at = (pdpt_at % 4096 ≡ 0) × ((i : ℕ) → pd_at i % 4096 ≡ 0)

table_entry :
    (x : ℕ)
    → x % 4096 ≡ 0
    → ((x + table_flags) / 2 ^ 0 % 2 ≡ 1)
      × ((x + table_flags) / 2 ^ 7 % 2 ≡ 0)
      × ((x + table_flags) / 4096 * 4096 ≡ x)
table_entry x h = (omega arith, omega arith, omega arith)

large_entry :
    (x : ℕ)
    → x % mb2 ≡ 0
    → ((x + large_flags) / 2 ^ 0 % 2 ≡ 1)
      × ((x + large_flags) / 2 ^ 7 % 2 ≡ 1)
      × ((x + large_flags) / mb2 * mb2 ≡ x)
large_entry x h = (omega arith, omega arith, omega arith)

leads_to_table :
    (pdpt_at : ℕ) (pd_at : ℕ → ℕ) (table : ℕ)
    → table % 4096 ≡ 0
    → leads_to pdpt_at pd_at (table + table_flags) table ≡ true
leads_to_table pdpt_at pd_at table h =
    let (a, b, c) = table_entry table h in rw (a, b, c) (eq→== table table refl)

-- The walk along tables that are set up for an address.
translate_lem :
    (pdpt_at : ℕ) (pd_at : ℕ → ℕ) (p : Paging) (addr base : ℕ)
    → Aligned pdpt_at pd_at
    → p.pml4 (addr / 2 ^ 39 % 512) ≡ pdpt_at + table_flags
    → p.pdpt (addr / 2 ^ 30 % 512) ≡ pd_at (addr / 2 ^ 30 % 512) + table_flags
    → p.pd (addr / 2 ^ 30 % 512) (addr / 2 ^ 21 % 512) ≡ base + large_flags
    → base % mb2 ≡ 0
    → translate pdpt_at pd_at p addr ≡ some (base + addr % mb2)
unfolding translate
translate_lem pdpt_at pd_at p addr base (top, dirs) e4 e3 e2 aligned =
    let (a, b, c) = large_entry base aligned in
    let first = leads_to_table pdpt_at pd_at pdpt_at top in
    let second =
      leads_to_table pdpt_at pd_at (pd_at (addr / 2 ^ 30 % 512)) (dirs (addr / 2 ^ 30 % 512)) in
    rw (e4, e3, e2, first, second, a, b, c) refl

-- The frame buffer ends a gigabyte below 2^64 at most, so the sums do not wrap round.
four_entries :
    (framebuffer_base framebuffer_size : ℕ)
    → framebuffer_base + framebuffer_size + gb ≤ 2 ^ 64
    → 4 ≤ required_entries framebuffer_base framebuffer_size
four_entries framebuffer_base framebuffer_size h = ground (arith, h)

identity :
    (addr : ℕ)
    → addr < 4 * gb
    → (addr / 2 ^ 39 % 512 ≡ 0)
      × (addr / 2 ^ 30 % 512 < 4)
      × (addr / 2 ^ 21 % 512 < 512)
      × ((addr / 2 ^ 30 % 512 * gb + addr / 2 ^ 21 % 512 * mb2) % mb2 ≡ 0)
      × (addr / 2 ^ 30 % 512 * gb + addr / 2 ^ 21 % 512 * mb2 + addr % mb2 ≡ addr)
identity addr h = (omega arith, omega arith, omega arith, omega arith, omega arith)

-- Behind `init_paging` the walk through the tables, which stand on page borders, maps every address
-- below 4 GB to itself, for a frame buffer that ends a gigabyte below 2^64 at least.
pub init_paging_lem :
    (pdpt_at : ℕ) (pd_at : ℕ → ℕ) (framebuffer_base framebuffer_size : ℕ) (p : Paging) (addr : ℕ)
    → Aligned pdpt_at pd_at
    → framebuffer_base + framebuffer_size + gb ≤ 2 ^ 64
    → addr < 4 * gb
    → translate pdpt_at pd_at (init_paging pdpt_at pd_at framebuffer_base framebuffer_size p) addr
      ≡ some addr
unfolding init_paging
init_paging_lem pdpt_at pd_at framebuffer_base framebuffer_size p addr tables small h =
    let four = four_entries framebuffer_base framebuffer_size small in
    let (i4, i3, i2, aligned, whole) = identity addr h in
    let mapped = init_paging pdpt_at pd_at framebuffer_base framebuffer_size p in
    let inside : ltb (addr / 2 ^ 30 % 512) (required_entries framebuffer_base framebuffer_size)
        ≡ true =
      ground (arith, i3, four) in
    let column : ltb (addr / 2 ^ 21 % 512) 512 ≡ true = ground (arith, i2) in
    translate_lem pdpt_at pd_at mapped addr (addr / 2 ^ 30 % 512 * gb + addr / 2 ^ 21 % 512 * mb2)
      tables (rw i4 refl) (rw inside refl) (rw (inside, column) refl) aligned
    ∙ ap some whole

slot_entry :
    (s off : ℕ)
    → s < mmio_window_slots
    → off < mb2
    → ((mmio_window_base + s * mb2 + off) / 2 ^ 39 % 512 ≡ 0)
      × ((mmio_window_base + s * mb2 + off) / 2 ^ 30 % 512 ≡ 3)
      × ((mmio_window_base + s * mb2) / 2 ^ 30 % 512 ≡ 3)
      × ((mmio_window_base + s * mb2 + off) / 2 ^ 21 % 512 ≡ 384 + s)
      × ((mmio_window_base + s * mb2) / 2 ^ 21 % 512 ≡ 384 + s)
      × ((mmio_window_base + s * mb2 + off) % mb2 ≡ off)
slot_entry s off h lt =
    (omega arith, omega arith, omega arith, omega arith, omega arith, omega arith)

take_slot_lem :
    (pdpt_at : ℕ) (pd_at : ℕ → ℕ) (p : Paging) (base off : ℕ)
    → Aligned pdpt_at pd_at
    → p.pml4 0 ≡ pdpt_at + table_flags
    → p.mmio_slots_used < mmio_window_slots
    → base % mb2 ≡ 0
    → off < mb2
    → let (virt, p') = take_slot pdpt_at pd_at p base off in
      translate pdpt_at pd_at p' virt ≡ some (base + off)
take_slot_lem pdpt_at pd_at p base off tables top room aligned lt =
    let (z, a, b, c, d, e) = slot_entry p.mmio_slots_used off room lt in
    let virt_base : ℕ = mmio_window_base + p.mmio_slots_used * mb2 in
    let low : leb max_pdpt_entries (virt_base / 2 ^ 30 % 512) ≡ false = rw b refl in
    let taken : Paging = record p {
      pdpt = update p.pdpt 3 (pd_at 3 + table_flags);
      pd = update p.pd 3 (update (p.pd 3) (384 + p.mmio_slots_used) (base + large_flags));
      mmio_phys_base = update p.mmio_phys_base p.mmio_slots_used base;
      mmio_slots_used = p.mmio_slots_used + 1;
    } in
    let walk =
      translate_lem pdpt_at pd_at taken (virt_base + off) base tables (rw z top) (rw a refl)
        (rw (a, c) (update_self (p.pd 3) (384 + p.mmio_slots_used) (base + large_flags))) aligned in
    rw (low, b, d) (walk ∙ ap (λ o. some (base + o)) e)

-- `map_mmio_virt` of an address from 4 GB on, when a slot is left, none maps its 2 MB yet and the first
-- table names the second as `init_paging` leaves it, returns a virtual address that the walk through the
-- tables maps to it. The tables stand on page borders.
pub map_mmio_virt_lem :
    (pdpt_at : ℕ) (pd_at : ℕ → ℕ) (p : Paging) (phys_addr : ℕ)
    → Aligned pdpt_at pd_at
    → p.pml4 0 ≡ pdpt_at + table_flags
    → 4 * gb ≤ phys_addr
    → p.mmio_slots_used < mmio_window_slots
    → find_slot p.mmio_slots_used 0 p.mmio_phys_base (phys_addr / mb2 * mb2) ≡ none
    → let (virt, p') = map_mmio_virt pdpt_at pd_at p phys_addr in
      translate pdpt_at pd_at p' virt ≡ some phys_addr
unfolding map_mmio_virt
map_mmio_virt_lem pdpt_at pd_at p phys_addr tables top lo room new =
    let high : ltb phys_addr (4 * gb) ≡ false = ground (arith, lo) in
    let left : leb mmio_window_slots p.mmio_slots_used ≡ false = ground (arith, room) in
    let whole : phys_addr / mb2 * mb2 + (phys_addr - phys_addr / mb2 * mb2) ≡ phys_addr =
      omega arith in
    rw (high, new, left)
      (take_slot_lem pdpt_at pd_at p (phys_addr / mb2 * mb2) (phys_addr - phys_addr / mb2 * mb2)
          tables top room (omega arith) (omega arith)
        ∙ ap some whole)
