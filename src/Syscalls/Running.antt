-- ===== src/Syscalls/Running.antt =====
-- How a system call ends.
use implus_os.Base.{ℕ, ◌≡◌, ◌⊎◌, true, false}
use implus_os.Allocator.{Allocator}
use implus_os.Process.{Resume, resume, process_at, dead}
use implus_os.Process.Invariant.{IsRunning, IsEntered, Switched, saved_table}
use implus_os.Heap.{copy_bytes}
use implus_os.Files.{FileSystem, syscall_file_read}
use implus_os.Syscalls.{
  Kernel, Call, serial_putchar, serial_puts, process_create, process_yield, process_exit,
  thread_create, draw_pixel, draw_fill_rect, draw_present, file_open, file_read, file_write,
  file_close, user_kmalloc, user_kfree, user_memcpy, user_memcmp, unknown, Ending, schedule,
  return_value, rewritten, to_int32,
}

-- The state in which a call hands over to the scheduler.
abbrev pub Handled : {S H : Type 0} → ℕ → Ending × Kernel S H → Type 0
Handled cur (schedule true, k) =
    IsRunning k.manager cur
    ⊎ (IsEntered k.manager cur × ((process_at k.manager.processes cur).state ≡ dead))
Handled cur (schedule false, k) = IsRunning k.manager cur
Handled cur (return_value v, k) = ⊥

module _ {S H : Type 0} (overwrite : (before : ℕ → ℕ) → Kernel S H → Kernel S H)
    (system : FileSystem S) (alloc : Allocator H) (saved_rsp arg1 arg2 arg3 arg4 : ℕ)
    (k : Kernel S H) where
  -- The call returns through the scheduler, and the bytes that it writes are none of the kernel's variables.
  abbrev pub Separate : Call → Type 0
  Separate file_read =
      let files = (syscall_file_read system alloc k.file_state (to_int32 arg1) arg2 arg3).1 in
      rewritten overwrite files k ≡ record k { file_state = files }
  Separate user_memcpy =
      let files = record k.file_state { mem = copy_bytes arg3 arg1 arg2 k.file_state.mem } in
      rewritten overwrite files k ≡ record k { file_state = files }
  Separate user_kmalloc = ⊥
  Separate user_kfree = ⊥
  Separate serial_putchar = Unit {0}
  Separate serial_puts = Unit {0}
  Separate process_create = Unit {0}
  Separate process_yield = Unit {0}
  Separate process_exit = Unit {0}
  Separate thread_create = Unit {0}
  Separate draw_pixel = Unit {0}
  Separate draw_fill_rect = Unit {0}
  Separate draw_present = Unit {0}
  Separate file_open = Unit {0}
  Separate file_write = Unit {0}
  Separate file_close = Unit {0}
  Separate user_memcmp = Unit {0}
  Separate unknown = Unit {0}

-- How a call ends that has left the state `k`. Without a request to switch the process that called goes on
-- with the frame that it came with. With one, the nearest READY process in the order of the table, which
-- has the caller as READY or DEAD with its stack pointers, becomes the only RUNNING one and goes on with
-- its saved frame and user stack pointer; the machine halts if none is READY.
abbrev pub GoesOn :
    {S H : Type 0} → (saved_rsp cur : ℕ) → Ending × Kernel S H → Resume × Kernel S H → Type 0
GoesOn saved_rsp cur (schedule false, k) (r, k') =
    (r ≡ resume saved_rsp k.user_rsp) × IsRunning k'.manager cur × (k'.user_rsp ≡ k.user_rsp)
GoesOn saved_rsp cur (schedule true, k) (r, k') =
    Switched (saved_table k.manager saved_rsp k.user_rsp cur) cur (r, k'.manager)
    × ((rsp user_rsp : ℕ) → r ≡ resume rsp user_rsp → k'.user_rsp ≡ user_rsp)
GoesOn saved_rsp cur (return_value v, k) out = ⊥
