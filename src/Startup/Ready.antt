-- ===== src/Startup/Ready.antt =====
-- What `kernel_main` has established when it enters the user program.
use implus_os.Base.{
  ℕ, ◌+◌, ◌≡◌, ◌⊎◌, inl, inr, refl, sym, Option, none, some, ℤ, pos, negsuc, true, false,
}
use implus_os.Pages.{MemoryMap}
use mathlib.Core.Path.{subst}
use implus_os.Segments.{init_gdt, make_gdt_entry}
use implus_os.Segments.Selectors.{Keeps, IsSetUp, IsSegment, syscall_init-IsSetUp}
use implus_os.Msr.{Msrs}
use implus_os.Virtio.{Bars}
use implus_os.Process.{Manager, process_manager_init, process_register_boot_process}
use implus_os.Process.Invariant.{IsRunning}
use implus_os.Process.Operations.{boot-IsRunning}
use implus_os.Files.Table.{IsTable, syscall_file_init-IsTable}
use implus_os.Disk.{Device}
use implus_os.Elf.{Machine}
use implus_os.Startup.{
  Hardware, Board, Addresses, World, Start, halts, user_stack_size, entry_user_mode, set_up_memory,
  set_up_services, set_up, load_program, register_first, start_user, kernel_main,
}

module _ {B D M : Type 0} (device : Device D) (msrs : Msrs M) (k : Keeps msrs)
    (at : Addresses) where
  -- The user program is entered at level 3 on its own stack, process 0 is the only one that runs, the
  -- table of files is sound, and the processor is set up for system calls.
  pub record Running (w : World B D M) : Type 0 where
    pub code : IsSegment w.segments (0x28 + 3) 3 true true
    pub stack : IsSegment w.segments (0x20 + 3) 3 false false
    pub process : IsRunning w.manager 0
    pub table : IsTable w.files
    pub set_up : IsSetUp (k.value w.msrs) w.segments at.syscall_entry at.cpu_state

  -- The machine stops if no user program was loaded, and else enters the program.
  pub record Starts (program : Option ℕ) (r : Start × World B D M) : Type 0 where
    pub how :
        ((program ≡ none) × (r.0 ≡ halts))
        ⊎ ((user_entry : ℕ) × (program ≡ some user_entry)
            × (r.0 ≡ entry_user_mode at.user_stack user_entry)
            × Running r.1)

module _ {B D M : Type 0} (board : Board B) (device : Device D) (msrs : Msrs M) (k : Keeps msrs)
    (at : Addresses) where
  register_first-Starts :
      (user_entry : ℕ) (w : World B D M) (r : ℤ × Manager)
      → (r.0 ≡ pos 0) × IsRunning r.1 0
      → IsSegment w.segments (0x28 + 3) 3 true true
      → IsSegment w.segments (0x20 + 3) 3 false false
      → IsTable w.files
      → IsSetUp (k.value w.msrs) w.segments at.syscall_entry at.cpu_state
      → Starts device msrs k at
          (some user_entry)
          (register_first board device msrs at user_entry w r)
  unfolding register_first
  register_first-Starts user_entry w (negsuc n, m) (e, runs) c s t u = absurd (cc e)
  register_first-Starts user_entry w (pos pid, m) (e, runs) c s t u = record {
    how = inr (
      user_entry,
      refl,
      refl,
      record { code = c; stack = s; process = runs; table = t; set_up = u },
    );
  }

  start_user-Starts :
      (w : World B D M) (m : Manager) (r : Option ℕ × Machine (Hardware B))
      → w.manager ≡ process_manager_init m
      → IsSegment w.segments (0x28 + 3) 3 true true
      → IsSegment w.segments (0x20 + 3) 3 false false
      → IsTable w.files
      → IsSetUp (k.value w.msrs) w.segments at.syscall_entry at.cpu_state
      → Starts device msrs k at r.0 (start_user board device msrs at w r)
  unfolding start_user
  start_user-Starts w m (none, st) e c s t u = record { how = inl (refl, refl) }
  start_user-Starts w m (some user_entry, st) e c s t u =
      let top = at.user_stack + user_stack_size in
      let first = boot-IsRunning m user_entry top in
      register_first-Starts user_entry (record w { hardware = st.heap; mem = st.mem })
        (process_register_boot_process w.manager user_entry top)
        (subst
          (λ n.
            ((process_register_boot_process n user_entry top).0 ≡ pos 0)
            × IsRunning (process_register_boot_process n user_entry top).1 0)
          (sym e) (first.0, first.1))
        c s t u

-- `kernel_main` halts if the user program cannot be loaded from the disk, and enters it otherwise, whatever
-- the display does: then the code and stack segments are those of level 3, process 0 is the only one that
-- runs, the table of files is sound, and the processor is set up for system calls. The registers of the
-- processor keep what is written to them.
pub kernel_main-Starts :
    {B D M : Type 0} (board : Board B) (device : Device D) (msrs : Msrs M) (k : Keeps msrs)
    (at : Addresses) (map : MemoryMap) (frame_buffer_base frame_buffer_size : ℕ) (stack : Bars)
    (w : World B D M)
    → Starts device msrs k at
        (load_program board device msrs at
          (set_up board device msrs at map frame_buffer_base frame_buffer_size stack w)).0
        (kernel_main board device msrs at map frame_buffer_base frame_buffer_size stack w)
unfolding kernel_main set_up set_up_services set_up_memory init_gdt make_gdt_entry
kernel_main-Starts board device msrs k at map frame_buffer_base frame_buffer_size stack w =
    start_user-Starts board device msrs k at _ w.manager _ refl (refl, refl) (refl, refl)
      (syscall_file_init-IsTable _)
      (syscall_init-IsSetUp msrs k at.syscall_stack_end at.syscall_entry at.cpu_state at.tss
        at.gdt_stack_end at.gdt w.msrs w.segments)
