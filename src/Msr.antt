-- ===== src/Msr.antt =====
-- Kernel/Syscall/Syscall_Init.c: the registers of the processor for system calls, over the instructions
-- `rdmsr` and `wrmsr`, and the state of `g_syscall_cpu_state`.
use implus_os.Base.{ℕ, ◌+◌, ◌*◌, ◌/◌, ◌%◌, ◌^◌, if◌then◌else◌, ◌==◌}

pub record Msrs (M : Type 0) : Type 0 where
  pub rdmsr : M → (msr : ℕ) → ℕ × M
  pub wrmsr : M → (msr value : ℕ) → M

-- `syscall_cpu_state_t`.
pub record CpuState : Type 0 where
  pub user_rsp : ℕ
  pub kernel_rsp : ℕ

abbrev pub ia32_efer : ℕ
ia32_efer = 0xc0000080

abbrev pub ia32_star : ℕ
ia32_star = 0xc0000081

abbrev pub ia32_lstar : ℕ
ia32_lstar = 0xc0000082

abbrev pub ia32_fmask : ℕ
ia32_fmask = 0xc0000084

abbrev pub ia32_gs_base : ℕ
ia32_gs_base = 0xc0000101

abbrev pub ia32_kernel_gs_base : ℕ
ia32_kernel_gs_base = 0xc0000102

abbrev pub rflags_if : ℕ
rflags_if = 2 ^ 9

abbrev pub gdt_kernel_code : ℕ
gdt_kernel_code = 0x08

abbrev pub gdt_user_compat_code : ℕ
gdt_user_compat_code = 0x18

-- `efer |= EFER_SCE`.
abbrev pub with_sce : ℕ → ℕ
with_sce efer = if efer % 2 == 0 then efer + 1 else efer

abbrev pub syscall_get_user_rsp : CpuState → ℕ
syscall_get_user_rsp s = s.user_rsp

abbrev pub syscall_set_user_rsp : ℕ → CpuState → CpuState
syscall_set_user_rsp user_rsp s = record s { user_rsp = user_rsp }

-- The end of the kernel's stack, and the addresses of `syscall_entry` and `g_syscall_cpu_state`.
module _ {M : Type 0} (msrs : Msrs M) (stack_end entry_at state_at : ℕ) where
  unfoldable pub syscall_init : M → CpuState × M
  syscall_init m =
      let state : CpuState = record { user_rsp = 0; kernel_rsp = stack_end / 16 * 16 } in
      let (efer, m1) = msrs.rdmsr m ia32_efer in
      let m2 = msrs.wrmsr m1 ia32_efer (with_sce efer) in
      let m3 = msrs.wrmsr m2 ia32_lstar entry_at in
      let star = gdt_kernel_code * 2 ^ 32 + gdt_user_compat_code * 2 ^ 48 in
      let m4 = msrs.wrmsr m3 ia32_star star in
      let m5 = msrs.wrmsr m4 ia32_gs_base 0 in
      let m6 = msrs.wrmsr m5 ia32_kernel_gs_base state_at in
      (state, msrs.wrmsr m6 ia32_fmask rflags_if)
