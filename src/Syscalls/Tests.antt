-- ===== src/Syscalls/Tests.antt =====
-- System calls of a freshly booted process, and the theorem on them at a concrete call.
use implus_os.Base.{ℕ, ◌+◌, ◌≡◌, refl, ◌==◌, if◌then◌else◌, update, [], pos, none, false}
use implus_os.Allocator.{Allocator}
use implus_os.Process.{Manager, resume, process_manager_init, process_register_boot_process}
use implus_os.Files.{FileSystem}
use implus_os.Syscalls.{Kernel, syscall_dispatch}

abbrev bump : Allocator ℕ
bump = record { kmalloc = λ h n. (h, h + n); kfree = λ h p. h }

abbrev no_files : FileSystem ℕ
no_files = record {
  find_file = λ s name. none;
  read_file = λ s f. none;
  write_file = λ s f bytes. (false, s);
}

abbrev raw : Manager
raw = record { processes = []; current_pid = pos 0; qword = λ a. 0 }

abbrev booted : Kernel ℕ ℕ
booted = record {
  manager = (process_register_boot_process (process_manager_init raw) 0x400000 0x9000).1;
  file_state = record { files = []; fs = 0; heap = 0x10000; mem = λ a. 0 };
  gpu = record { ready = false; fb = 0; pixel = λ j. 0; width = 0; height = 0 };
  user_rsp = 0x8f80;
}

-- A call of SYSCALL_USER_KMALLOC returns the pointer in the place of the stack pointer.
pointer_as_stack :
    (syscall_dispatch (λ before k. k) no_files bump 0x7f88 24 64 0 0 0 booted).0
    ≡ resume 0x10000 0x8f80
unfolding syscall_dispatch
pointer_as_stack = refl

-- The word of a frame at 0x7000, a variable of the kernel, is where the bytes from 0x7000 on are.
abbrev overwrite : (before : ℕ → ℕ) → Kernel ℕ ℕ → Kernel ℕ ℕ
overwrite before k = if k.file_state.mem 0x7000 == before 0x7000 then k else record k {
  manager = record k.manager { qword = update k.manager.qword 0x7000 (k.file_state.mem 0x7000) };
}
