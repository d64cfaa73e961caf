-- ===== src/Segments/Tests.antt =====
-- A descriptor of the kernel's table, and registers that keep what is written to them.
use implus_os.Base.{ℕ, ◌≡◌, refl, update, update_self, update_ne}
use implus_os.Segments.{Gdt, make_gdt_entry, init_gdt, tss_entry}
use implus_os.Segments.Selectors.{Keeps, IsSetUp, syscall_init-IsSetUp}
use implus_os.Msr.{Msrs, syscall_init}

-- The kernel's code segment has its limit in pages and is a 64-bit one.
kernel_code : (make_gdt_entry 0xfffff 0x9a 0xa0).gran ≡ 0xaf
unfolding make_gdt_entry
kernel_code = refl

abbrev msrs : Msrs (ℕ → ℕ)
msrs = record { rdmsr = λ m r. (m r, m); wrmsr = λ m r v. update m r v }

abbrev keeps : Keeps msrs
keeps = record {
  value = λ m r. m r;
  reads = λ m r. refl;
  unchanged = λ m r s. refl;
  written = λ m r v used. update_self m r v;
  others = λ m r s v used ne. update_ne m r s v ne;
}

abbrev gdt : Gdt
gdt = record {
  null = make_gdt_entry 0 0 0;
  kernel_code = make_gdt_entry 0 0 0;
  kernel_data = make_gdt_entry 0 0 0;
  user_compat_code = make_gdt_entry 0 0 0;
  user_data = make_gdt_entry 0 0 0;
  user_code = make_gdt_entry 0 0 0;
  tss = tss_entry 0 0;
  ist = λ i. 0;
  rsp0 = 0;
  io_map_base = 0;
  limit = 0;
  base = 0;
}

syscall_init-IsSetUp_example :
    IsSetUp
      (syscall_init msrs 0x9000 0x8000 0x7000 (λ r. 0x500)).1
      (init_gdt 0x6000 0x5000 0x4000 gdt)
      0x8000
      0x7000
syscall_init-IsSetUp_example =
    syscall_init-IsSetUp msrs keeps 0x9000 0x8000 0x7000 0x6000 0x5000 0x4000 (λ r. 0x500) gdt
