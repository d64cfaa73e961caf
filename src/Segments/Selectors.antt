-- ===== src/Segments/Selectors.antt =====
-- The segments that the processor takes on a system call, on the way back, and when it enters the user
-- program, and their descriptors.
use mathlib.Core.Path.{subst}
use implus_os.Base.{
  ℕ, ◌+◌, ◌*◌, ◌/◌, ◌%◌, ◌^◌, ◌≡◌, ◌≢◌, refl, sym, ap, ◌∙◌, Option, none, some, if◌then◌else◌, ◌==◌,
  arith, Bool, true, false, ◌&&◌, ◌||◌,
}
use implus_os.Segments.{Gdt, GdtEntry, make_gdt_entry, init_gdt}
use implus_os.Msr.{
  Msrs, ia32_efer, ia32_star, ia32_lstar, ia32_fmask, ia32_gs_base, ia32_kernel_gs_base, with_sce,
  syscall_init, gdt_kernel_code, gdt_user_compat_code, rflags_if,
}

-- The descriptor of a selector: eight bytes each, in the order of the structure.
abbrev pub descriptor_at : Gdt → ℕ → Option GdtEntry
descriptor_at g selector =
    let index = selector / 8 in
    if index == 1
    then some g.kernel_code
    else if index == 2
    then some g.kernel_data
    else if index == 3
    then some g.user_compat_code
    else if index == 4
    then some g.user_data
    else if index == 5
    then some g.user_code
    else none

abbrev pub bit : Bool → ℕ
bit true = 1
bit false = 0

-- Whether a descriptor is present, has the level, is code or else data that can be written, and is code of
-- 64 bits or not.
abbrev pub describes : Option GdtEntry → (level : ℕ) → (code long : Bool) → Bool
describes none level code long = false
describes (some e) level code long =
    (e.access / 2 ^ 7 % 2 == 1)
    && ((e.access / 2 ^ 5 % 4 == level)
        && ((e.access / 2 ^ 4 % 2 == 1)
            && ((e.access / 2 ^ 3 % 2 == bit code)
                && ((e.access / 2 % 2 == 1) && (e.gran / 2 ^ 5 % 2 == bit long)))))

-- The segment of a selector, which asks for the level that it has.
abbrev pub IsSegment : Gdt → (selector level : ℕ) → (code long : Bool) → Type 0
IsSegment g selector level code long =
    (describes (descriptor_at g selector) level code long ≡ true) × (selector % 4 ≡ level)

-- The registers that `syscall_init` writes.
abbrev pub is_syscall_register : ℕ → Bool
is_syscall_register r =
    (r == ia32_efer)
    || ((r == ia32_lstar)
        || ((r == ia32_star)
            || ((r == ia32_gs_base) || ((r == ia32_kernel_gs_base) || (r == ia32_fmask)))))

-- These registers keep what is written to them, and leave all others alone.
pub record Keeps {M : Type 0} (msrs : Msrs M) : Type 0 where
  pub value : M → ℕ → ℕ
  pub reads : (m : M) (r : ℕ) → (msrs.rdmsr m r).0 ≡ value m r
  pub unchanged : (m : M) (r s : ℕ) → value (msrs.rdmsr m r).1 s ≡ value m s
  pub written : (m : M) (r v : ℕ) → is_syscall_register r ≡ true → value (msrs.wrmsr m r v) r ≡ v
  pub others :
      (m : M) (r s v : ℕ)
      → is_syscall_register r ≡ true
      → r ≢ s
      → value (msrs.wrmsr m r v) s ≡ value m s

-- The selectors that SYSCALL and SYSRET take from the register STAR.
abbrev pub syscall_cs : ℕ → ℕ
syscall_cs star = star / 2 ^ 32 % 2 ^ 16 / 4 * 4

abbrev pub syscall_ss : ℕ → ℕ
syscall_ss star = star / 2 ^ 32 % 2 ^ 16 + 8

abbrev pub sysret_cs : ℕ → ℕ
sysret_cs star = (star / 2 ^ 48 % 2 ^ 16 + 16) / 4 * 4 + 3

abbrev pub sysret_ss : ℕ → ℕ
sysret_ss star = (star / 2 ^ 48 % 2 ^ 16 + 8) / 4 * 4 + 3

-- The processor is set up for system calls.
pub record IsSetUp (value : ℕ → ℕ) (g : Gdt) (entry_at state_at : ℕ) : Type 0 where
  pub enabled : value ia32_efer % 2 ≡ 1
  pub enters : value ia32_lstar ≡ entry_at
  pub swaps : value ia32_kernel_gs_base ≡ state_at
  pub masks : value ia32_fmask / 2 ^ 9 % 2 ≡ 1
  pub kernel_code : IsSegment g (syscall_cs (value ia32_star)) 0 true true
  pub kernel_data : IsSegment g (syscall_ss (value ia32_star)) 0 false false
  pub user_code : IsSegment g (sysret_cs (value ia32_star)) 3 true true
  pub user_data : IsSegment g (sysret_ss (value ia32_star)) 3 false false

differ : (r s : ℕ) → (r == s) ≡ false → r ≢ s
differ r s e = ground (arith, e)

with_sce_lem : (efer : ℕ) → with_sce efer % 2 ≡ 1
with_sce_lem efer = ground arith

module _ {M : Type 0} (msrs : Msrs M) (k : Keeps msrs) (stack_end entry_at state_at : ℕ)
    (m : M) where
  abbrev star_value : ℕ
  star_value = gdt_kernel_code * 2 ^ 32 + gdt_user_compat_code * 2 ^ 48

  -- The states behind the writes, in their order.
  abbrev behind_efer : M
  behind_efer =
      msrs.wrmsr (msrs.rdmsr m ia32_efer).1 ia32_efer (with_sce (msrs.rdmsr m ia32_efer).0)

  abbrev behind_lstar : M
  behind_lstar = msrs.wrmsr behind_efer ia32_lstar entry_at

  abbrev behind_star : M
  behind_star = msrs.wrmsr behind_lstar ia32_star star_value

  abbrev behind_gs : M
  behind_gs = msrs.wrmsr behind_star ia32_gs_base 0

  abbrev behind_kernel_gs : M
  behind_kernel_gs = msrs.wrmsr behind_gs ia32_kernel_gs_base state_at

  abbrev behind_all : M
  behind_all = msrs.wrmsr behind_kernel_gs ia32_fmask rflags_if

  -- A register that none of the last three writes is about.
  kept_late :
      (r : ℕ)
      → ia32_gs_base ≢ r
      → ia32_kernel_gs_base ≢ r
      → ia32_fmask ≢ r
      → k.value behind_all r ≡ k.value behind_star r
  kept_late r a b c =
      k.others behind_kernel_gs ia32_fmask r rflags_if refl c
      ∙ k.others behind_gs ia32_kernel_gs_base r state_at refl b
      ∙ k.others behind_star ia32_gs_base r 0 refl a

  star_lem : k.value behind_all ia32_star ≡ star_value
  star_lem =
      kept_late ia32_star (differ _ _ refl) (differ _ _ refl) (differ _ _ refl)
      ∙ k.written behind_lstar ia32_star star_value refl

  lstar_lem : k.value behind_all ia32_lstar ≡ entry_at
  lstar_lem =
      kept_late ia32_lstar (differ _ _ refl) (differ _ _ refl) (differ _ _ refl)
      ∙ k.others behind_lstar ia32_star ia32_lstar star_value refl (differ _ _ refl)
      ∙ k.written behind_efer ia32_lstar entry_at refl

  efer_lem : k.value behind_all ia32_efer % 2 ≡ 1
  efer_lem =
      ap (λ v. v % 2)
        (kept_late ia32_efer (differ _ _ refl) (differ _ _ refl) (differ _ _ refl)
          ∙ k.others behind_lstar ia32_star ia32_efer star_value refl (differ _ _ refl)
          ∙ k.others behind_efer ia32_lstar ia32_efer entry_at refl (differ _ _ refl)
          ∙ k.written (msrs.rdmsr m ia32_efer).1 ia32_efer _ refl)
      ∙ with_sce_lem (msrs.rdmsr m ia32_efer).0

  kernel_gs_lem : k.value behind_all ia32_kernel_gs_base ≡ state_at
  kernel_gs_lem =
      k.others behind_kernel_gs ia32_fmask ia32_kernel_gs_base rflags_if refl (differ _ _ refl)
      ∙ k.written behind_gs ia32_kernel_gs_base state_at refl

-- Behind `init_gdt` and `syscall_init` system calls are enabled, lead to `syscall_entry` with interrupts
-- masked, and find their state; the processor takes a code segment of 64 bits and a data segment of level
-- 0 on the way in, and of level 3 on the way out, over registers that keep what this code
-- writes to them.
pub syscall_init-IsSetUp :
    {M : Type 0} (msrs : Msrs M) (k : Keeps msrs)
    (stack_end entry_at state_at tss_at kernel_stack_end gdt_at : ℕ) (m : M) (g : Gdt)
    → IsSetUp
        (k.value (syscall_init msrs stack_end entry_at state_at m).1)
        (init_gdt tss_at kernel_stack_end gdt_at g)
        entry_at
        state_at
unfolding syscall_init init_gdt make_gdt_entry
syscall_init-IsSetUp msrs k stack_end entry_at state_at tss_at kernel_stack_end gdt_at m g =
    let star = star_lem msrs k stack_end entry_at state_at m in
    let gdt = init_gdt tss_at kernel_stack_end gdt_at g in
    record {
      enabled = efer_lem msrs k stack_end entry_at state_at m;
      enters = lstar_lem msrs k stack_end entry_at state_at m;
      swaps = kernel_gs_lem msrs k stack_end entry_at state_at m;
      masks = ap (λ v. v / 2 ^ 9 % 2) (k.written _ ia32_fmask rflags_if refl);
      kernel_code = subst (λ v. IsSegment gdt (syscall_cs v) 0 true true) (sym star) (refl, refl);
      kernel_data = subst (λ v. IsSegment gdt (syscall_ss v) 0 false false) (sym star) (refl, refl);
      user_code = subst (λ v. IsSegment gdt (sysret_cs v) 3 true true) (sym star) (refl, refl);
      user_data = subst (λ v. IsSegment gdt (sysret_ss v) 3 false false) (sym star) (refl, refl);
    }
