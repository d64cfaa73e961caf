-- ===== src/Segments.antt =====
-- Kernel/GDT/GDT_Main.c: the segment descriptors and the descriptor of the task state segment.
-- Bits that a source expression joins by `|` do not overlap, so they are added.
pub mod Selectors
mod Tests
use implus_os.Base.{ℕ, ◌+◌, ◌-◌, ◌*◌, ◌/◌, ◌%◌, ◌^◌, ◌≤◌, ◌<◌, ◌≡◌, refl, arith, ltb, if◌then◌else◌}

-- `struct GDTEntry`.
pub record GdtEntry : Type 0 where
  pub limit_low : ℕ
  pub base_low : ℕ
  pub base_mid : ℕ
  pub access : ℕ
  pub gran : ℕ
  pub base_high : ℕ

-- `struct GDTEntry64`.
pub record GdtEntry64 : Type 0 where
  pub limit_low : ℕ
  pub base_low : ℕ
  pub base_mid : ℕ
  pub access : ℕ
  pub gran : ℕ
  pub base_high : ℕ
  pub base_upper : ℕ
  pub reserved : ℕ

-- For a limit of 32 bits, and access and flags of 8.
unfoldable pub make_gdt_entry : ℕ → ℕ → ℕ → GdtEntry
make_gdt_entry limit access flags = record {
  limit_low = limit % 2 ^ 16;
  base_low = 0;
  base_mid = 0;
  access = access;
  gran = limit / 2 ^ 16 % 16 + flags / 16 * 16;
  base_high = 0;
}

-- `gdt.tss` as `init_gdt` fills it in.
unfoldable pub tss_entry : ℕ → ℕ → GdtEntry64
tss_entry tss_base tss_limit = record {
  limit_low = tss_limit % 2 ^ 16;
  base_low = tss_base % 2 ^ 16;
  base_mid = tss_base / 2 ^ 16 % 2 ^ 8;
  access = 0x89;
  gran = tss_limit / 2 ^ 16 % 16;
  base_high = tss_base / 2 ^ 24 % 2 ^ 8;
  base_upper = tss_base / 2 ^ 32 % 2 ^ 32;
  reserved = 0;
}

-- `sizeof(struct TSS)`, in the bytes of a packed structure of 104.
abbrev pub tss_size : ℕ
tss_size = 104

-- `gdt`, `tss` as far as it is set, and `gdtr`, which the processor is told to use.
pub record Gdt : Type 0 where
  pub null : GdtEntry
  pub kernel_code : GdtEntry
  pub kernel_data : GdtEntry
  pub user_compat_code : GdtEntry
  pub user_data : GdtEntry
  pub user_code : GdtEntry
  pub tss : GdtEntry64
  pub ist : ℕ → ℕ
  pub rsp0 : ℕ
  pub io_map_base : ℕ
  pub limit : ℕ
  pub base : ℕ

-- The addresses of `tss`, of the end of `kernel_stack` and of `gdt` are parameters.
unfoldable pub init_gdt : (tss_at kernel_stack_end gdt_at : ℕ) → Gdt → Gdt
init_gdt tss_at kernel_stack_end gdt_at g = record {
  null = make_gdt_entry 0 0 0;
  kernel_code = make_gdt_entry 0xfffff 0x9a 0xa0;
  kernel_data = make_gdt_entry 0xfffff 0x92 0x80;
  user_compat_code = make_gdt_entry 0xfffff 0xfa 0xc0;
  user_data = make_gdt_entry 0xfffff 0xf2 0x80;
  user_code = make_gdt_entry 0xfffff 0xfa 0xa0;
  tss = tss_entry tss_at (tss_size - 1);
  ist = λ i. if ltb i 7 then 0 else g.ist i;
  rsp0 = kernel_stack_end;
  io_map_base = tss_size;
  limit = 6 * 8 + 16 - 1;
  base = gdt_at;
}

-- The processor reads back from a descriptor that `make_gdt_entry` built the limit, of at most 20
-- bits, the access byte, and the upper four of the flags, of 8 bits; its base is 0.
pub make_gdt_entry_lem :
    (limit access flags : ℕ)
    → limit < 2 ^ 20
    → flags < 2 ^ 8
    → let e = make_gdt_entry limit access flags in
      (e.limit_low + e.gran % 16 * 2 ^ 16 ≡ limit)
      × (e.access ≡ access)
      × (e.gran / 16 ≡ flags / 16)
      × (e.gran < 2 ^ 8)
      × (e.base_low + e.base_mid * 2 ^ 16 + e.base_high * 2 ^ 24 ≡ 0)
unfolding make_gdt_entry
make_gdt_entry_lem limit access flags hl hf =
    (omega arith, refl, omega arith, omega arith, omega arith)

-- The processor reads back from the descriptor of the task state segment the 64-bit base and the
-- limit, of at most 20 bits.
pub tss_entry_lem :
    (tss_base tss_limit : ℕ)
    → tss_base < 2 ^ 64
    → tss_limit < 2 ^ 20
    → let e = tss_entry tss_base tss_limit in
      (e.base_low + e.base_mid * 2 ^ 16 + e.base_high * 2 ^ 24 + e.base_upper * 2 ^ 32 ≡ tss_base)
      × (e.limit_low + e.gran % 16 * 2 ^ 16 ≡ tss_limit)
unfolding tss_entry
tss_entry_lem tss_base tss_limit hb hl = (omega arith, omega arith)
