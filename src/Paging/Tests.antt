-- ===== src/Paging/Tests.antt =====
-- Page tables behind `init_paging`, and the theorems on them at concrete addresses.
use implus_os.Base.{ℕ, ◌+◌, ◌*◌, ◌≡◌, refl, some, arith}
use implus_os.Paging.{
  Paging, Aligned, init_paging, map_mmio_virt, translate, find_slot, init_paging_lem,
  map_mmio_virt_lem,
}

abbrev pd_at : ℕ → ℕ
pd_at i = 0x300000 + i * 4096

abbrev empty : Paging
empty = record {
  pml4 = λ i. 0;
  pdpt = λ i. 0;
  pd = λ i j. 0;
  mmio_phys_base = λ i. 0;
  mmio_slots_used = 0;
}

abbrev mapped : Paging
mapped = init_paging 0x200000 pd_at 0x80000000 0x400000 empty

-- The window takes its addresses from the first 4 GB, which `map_mmio_virt` takes to be mapped to
-- themselves: behind the first mapping 0xf0000000 is the device at 64 GB.
shadowed :
    ((map_mmio_virt 0x200000 pd_at
        (map_mmio_virt 0x200000 pd_at mapped 0x1000000000).1
        0xf0000000).0
      ≡ 0xf0000000)
    × (translate 0x200000 pd_at (map_mmio_virt 0x200000 pd_at mapped 0x1000000000).1 0xf0000000
        ≡ some 0x1000000000)
unfolding map_mmio_virt init_paging find_slot translate
shadowed = (refl, refl)

tables : Aligned 0x200000 pd_at
tables = (refl, λ i. omega arith)

init_paging_lem_example : translate 0x200000 pd_at mapped 0xfee00020 ≡ some 0xfee00020
init_paging_lem_example =
    init_paging_lem 0x200000 pd_at 0x80000000 0x400000 empty 0xfee00020 tables (omega arith)
      (omega arith)

map_mmio_virt_lem_example :
    let (virt, p') = map_mmio_virt 0x200000 pd_at mapped 0x1000000040 in
    translate 0x200000 pd_at p' virt ≡ some 0x1000000040
unfolding find_slot init_paging
map_mmio_virt_lem_example =
    map_mmio_virt_lem 0x200000 pd_at mapped 0x1000000040 tables refl (omega arith) (omega arith)
      refl
