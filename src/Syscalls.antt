-- ===== src/Syscalls.antt =====
-- Kernel/Syscall/Syscall_Dispatch.c: `syscall_dispatch`, over the process manager, the file calls,
-- the display and the heap. The words of the frames and the variables of the kernel stand apart from the
-- bytes of the memory, although a call can be given their addresses to write to: what the variables hold
-- after such a write follows from where the linker puts them, so it is a parameter, `overwrite`. Serial output and the transfer of the frame buffer to the device leave no trace in the state.
pub mod Running
mod Tests
use implus_os.Base.{
  ℕ, zero, suc, ◌+◌, ◌-◌, ◌*◌, ◌/◌, ◌%◌, ◌^◌, Bool, true, false, not, ◌&&◌, if◌then◌else◌, ltb, leb,
  ◌==◌, List, [], ◌∷◌, ℤ, pos, negsuc, minus_one, update,
}
use implus_os.Allocator.{Allocator}
use implus_os.Process.{
  Manager, Resume, resume, halted, process_create_user, process_exit_current,
  process_schedule_on_syscall,
}
use implus_os.Files.{
  FileSystem, FileState, syscall_file_open, syscall_file_read, syscall_file_write,
  syscall_file_close,
}
use implus_os.Display.{Gpu, virtio_gpu_draw_pixel, virtio_gpu_fill_rect}
use implus_os.Heap.{copy_bytes}

-- The state that the calls reach: the processes, the files with the heap and the user memory, the
-- display, and `g_syscall_cpu_state.user_rsp`.
pub record Kernel (S H : Type 0) : Type 0 where
  pub manager : Manager
  pub file_state : FileState S H
  pub gpu : Gpu
  pub user_rsp : ℕ

-- The numbers of the calls.
pub data Call : Type 0 where
  serial_putchar serial_puts : Call
  process_create process_yield process_exit thread_create : Call
  draw_pixel draw_fill_rect draw_present : Call
  file_open file_read file_write file_close : Call
  user_kmalloc user_kfree user_memcpy user_memcmp : Call
  unknown : Call

-- The row of a table that starts with the number.
abbrev pub lookup : ℕ → List (ℕ × Call) → Call
lookup num [] = unknown
lookup num ((n, c) ∷ rows) = if num == n then c else lookup num rows

abbrev pub call_numbers : List (ℕ × Call)
call_numbers =
    (1, serial_putchar)
    ∷ (2, serial_puts)
    ∷ (3, process_create)
    ∷ (4, process_yield)
    ∷ (5, process_exit)
    ∷ (6, thread_create)
    ∷ (10, draw_pixel)
    ∷ (11, draw_fill_rect)
    ∷ (12, draw_present)
    ∷ (20, file_open)
    ∷ (21, file_read)
    ∷ (22, file_write)
    ∷ (23, file_close)
    ∷ (24, user_kmalloc)
    ∷ (25, user_kfree)
    ∷ (26, user_memcpy)
    ∷ (27, user_memcmp)
    ∷ []

-- The casts `(int32_t)` of an argument and `(uint64_t)(int64_t)` of a result.
abbrev pub to_int32 : ℕ → ℤ
to_int32 n = let w = n % 2 ^ 32 in if ltb w (2 ^ 31) then pos w else negsuc (2 ^ 32 - 1 - w)

abbrev pub to_uint64 : ℤ → ℕ
to_uint64 (pos n) = n
to_uint64 (negsuc n) = 2 ^ 64 - 1 - n

-- The characters at an address up to the final 0, `n` at most. Of a path `syscall_file_open` accepts
-- at most 12 characters, and rejects a longer one by its first 13.
pub c_string : ℕ → ℕ → (ℕ → ℕ) → List ℕ
c_string zero p mem = []
c_string (suc n) p mem =
    let rest = c_string n (p + 1) mem in if mem p == 0 then [] else mem p ∷ rest

-- `(int)a - (int)b` of two bytes.
abbrev pub difference : ℕ → ℕ → ℤ
difference a b = if leb b a then pos (a - b) else negsuc (b - a - 1)

-- The loop of SYSCALL_USER_MEMCMP.
pub compare_bytes : ℕ → ℕ → ℕ → (ℕ → ℕ) → ℤ
compare_bytes zero s1 s2 mem = pos 0
compare_bytes (suc n) s1 s2 mem =
    let rest = compare_bytes n (s1 + 1) (s2 + 1) mem in
    if mem s1 == mem s2 then rest else difference (mem s1) (mem s2)

-- How a call ends: by the scheduler, which is asked to switch or not, or by returning a value.
pub data Ending : Type 0 where
  schedule : (request_switch : Bool) → Ending
  return_value : ℕ → Ending

-- `tid >= 0`.
abbrev pub is_pid : ℤ → Bool
is_pid (pos n) = true
is_pid (negsuc n) = false

module _ {S H : Type 0} where
  -- `frame[SYSCALL_FRAME_RAX] = value`.
  abbrev pub set_syscall_result : ℕ → ℕ → Kernel S H → Kernel S H
  set_syscall_result saved_rsp value k = record k {
    manager = record k.manager { qword = update k.manager.qword saved_rsp value };
  }

  -- A state with these bytes, files and heap, in which the variables that stood where bytes have changed are
  -- overwritten.
  abbrev pub rewritten :
      ((before : ℕ → ℕ) → Kernel S H → Kernel S H) → FileState S H → Kernel S H → Kernel S H
  rewritten overwrite files k = overwrite k.file_state.mem (record k { file_state = files })

  abbrev pub with_result : ℕ → ℤ → FileState S H → Kernel S H → Ending × Kernel S H
  with_result saved_rsp r files k =
      (schedule false, set_syscall_result saved_rsp (to_uint64 r) (record k { file_state = files }))

  -- Behind `process_create_user`.
  abbrev pub created : ℕ → Bool → Kernel S H → ℤ × Manager × H → Ending × Kernel S H
  created saved_rsp switch k (pid, m, h) = (
    schedule (switch && is_pid pid),
    set_syscall_result saved_rsp (to_uint64 pid)
        (record k { manager = m; file_state = record k.file_state { heap = h } }),
  )

  abbrev pub allocated : Kernel S H → ℕ × H → Ending × Kernel S H
  allocated k (p, h) = (return_value p, record k { file_state = record k.file_state { heap = h } })

-- `overwrite before` gives the variables the values that they have when the memory, which held the bytes
-- `before`, holds those of the state.
module _ {S H : Type 0} (overwrite : (before : ℕ → ℕ) → Kernel S H → Kernel S H)
    (system : FileSystem S) (alloc : Allocator H) (saved_rsp arg1 arg2 arg3 arg4 : ℕ) where
  abbrev pub handle : Call → Kernel S H → Ending × Kernel S H
  handle serial_putchar k = (schedule false, set_syscall_result saved_rsp 0 k)
  handle serial_puts k = (schedule false, set_syscall_result saved_rsp 0 k)
  handle process_create k =
      created saved_rsp false k (process_create_user alloc k.manager k.file_state.heap arg1)
  handle process_yield k = (schedule true, set_syscall_result saved_rsp 0 k)
  handle process_exit k = (schedule true, record k { manager = process_exit_current k.manager })
  handle thread_create k =
      created saved_rsp true k (process_create_user alloc k.manager k.file_state.heap arg1)
  handle draw_pixel k = (
    schedule false,
    set_syscall_result saved_rsp 0 (record k {
      gpu = virtio_gpu_draw_pixel k.gpu (arg1 % 2 ^ 32) (arg2 % 2 ^ 32) (arg3 % 2 ^ 32);
    }),
  )
  handle draw_fill_rect k = (
    schedule false,
    set_syscall_result saved_rsp 0 (record k {
      gpu =
          virtio_gpu_fill_rect k.gpu (arg1 % 2 ^ 32) (arg2 % 2 ^ 32) (arg3 / 2 ^ 32 % 2 ^ 32)
            (arg3 % 2 ^ 32) (arg4 % 2 ^ 32);
    }),
  )
  handle draw_present k = (schedule false, set_syscall_result saved_rsp 0 k)
  handle file_open k =
      let (r, files) = open_path (arg1 == 0) k.file_state in with_result saved_rsp r files k
    where
      open_path : Bool → FileState S H → ℤ × FileState S H
      open_path null st =
          if null
          then (minus_one, st)
          else syscall_file_open system st (c_string 13 arg1 st.mem) arg2
  handle file_read k =
      let (r, files) = syscall_file_read system alloc k.file_state (to_int32 arg1) arg2 arg3 in
      (schedule false, set_syscall_result saved_rsp (to_uint64 r) (rewritten overwrite files k))
  handle file_write k =
      let (r, files) = syscall_file_write system alloc k.file_state (to_int32 arg1) arg2 arg3 in
      with_result saved_rsp r files k
  handle file_close k =
      let (r, files) = syscall_file_close k.file_state (to_int32 arg1) in
      with_result saved_rsp r files k
  handle user_kmalloc k = allocated k (alloc.kmalloc k.file_state.heap (arg1 % 2 ^ 32))
  handle user_kfree k = (
    return_value 0,
    record k { file_state = record k.file_state { heap = alloc.kfree k.file_state.heap arg1 } },
  )
  handle user_memcpy k = (
    schedule false,
    set_syscall_result saved_rsp arg1 (
        rewritten overwrite
          (record k.file_state { mem = copy_bytes arg3 arg1 arg2 k.file_state.mem }) k),
  )
  handle user_memcmp k = (
    schedule false,
    set_syscall_result saved_rsp (to_uint64 (compare_bytes arg3 arg1 arg2 k.file_state.mem)) k,
  )
  handle unknown k = (schedule false, set_syscall_result saved_rsp (2 ^ 64 - 1) k)

-- The stack pointer to go on with is what the call returns; the user's goes to the processor state.
abbrev pub resumed : {S H : Type 0} → Kernel S H → Resume × Manager → Resume × Kernel S H
resumed k (resume rsp user_rsp, m) =
    (resume rsp user_rsp, record k { manager = m; user_rsp = user_rsp })
resumed k (halted, m) = (halted, record k { manager = m })

abbrev pub finish : {S H : Type 0} → ℕ → Ending × Kernel S H → Resume × Kernel S H
finish saved_rsp (schedule request_switch, k) =
    resumed k (process_schedule_on_syscall k.manager saved_rsp k.user_rsp request_switch)
finish saved_rsp (return_value v, k) = (resume v k.user_rsp, k)

module _ {S H : Type 0} (overwrite : (before : ℕ → ℕ) → Kernel S H → Kernel S H)
    (system : FileSystem S) (alloc : Allocator H) where
  unfoldable pub syscall_dispatch :
      (saved_rsp num arg1 arg2 arg3 arg4 : ℕ) → Kernel S H → Resume × Kernel S H
  syscall_dispatch saved_rsp num arg1 arg2 arg3 arg4 k =
      finish saved_rsp
        (handle overwrite system alloc saved_rsp arg1 arg2 arg3 arg4 (lookup num call_numbers) k)
