-- ===== src/Userland/Tests.antt =====
-- The calls of a freshly booted process, and a file of 600 bytes behind calls that read it.
use implus_os.Base.{
  ℕ, ◌+◌, ◌-◌, ◌≤◌, ◌<◌, ◌≡◌, ◌⊎◌, refl, true, false, ◌&&◌, if◌then◌else◌, ltb, leb, [], get_or,
  ◌==◌, ◌^◌, not, update, none, some, pos, arith,
}
use implus_os.Allocator.{Allocator}
use implus_os.Process.{Manager, process_manager_init, process_register_boot_process}
use implus_os.Process.Operations.{boot-IsRunning}
use implus_os.Display.{virtio_gpu_fill_rect}
use implus_os.Files.{FileSystem, FileState, syscall_file_init, syscall_file_read}
use implus_os.Files.Access.{ReadOut}
use implus_os.Files.Table.{syscall_file_init-IsTable}
use implus_os.Syscalls.{Kernel}
use implus_os.Userland.{Syscall, draw_fill_rect, file_read, max_png, read_all}
use implus_os.Userland.Calls.{by_dispatch, draw_fill_rect-dispatch, file_read-ReadOut}
use implus_os.Userland.Reads.{taken, ReadsOn, read_all-inside}

abbrev bump : Allocator ℕ
bump = record { kmalloc = λ h n. (h, h + n); kfree = λ h p. h }

abbrev no_files : FileSystem ℕ
no_files = record {
  find_file = λ s name. none;
  read_file = λ s f. none;
  write_file = λ s f bytes. (false, s);
}

abbrev raw : Manager
raw = record { processes = []; current_pid = pos 0; qword = λ a. 0 }

abbrev empty : FileState ℕ ℕ
empty = record { files = []; fs = 0; heap = 0x10000; mem = λ a. 0 }

abbrev booted : Kernel ℕ ℕ
booted = record {
  manager = (process_register_boot_process (process_manager_init raw) 0x400000 0x9000).1;
  file_state = syscall_file_init empty;
  gpu = record { ready = true; fb = 0x8000; pixel = λ j. 0; width = 20; height = 10 };
  user_rsp = 0x8f80;
}

-- The word of a frame at 0x7000, a variable of the kernel, is where the bytes from 0x7000 on are.
abbrev overwrite : (before : ℕ → ℕ) → Kernel ℕ ℕ → Kernel ℕ ℕ
overwrite before k = if k.file_state.mem 0x7000 == before 0x7000 then k else record k {
  manager = record k.manager { qword = update k.manager.qword 0x7000 (k.file_state.mem 0x7000) };
}

draw_fill_rect-dispatch_example :
    ((draw_fill_rect
        (by_dispatch overwrite no_files bump 0x7f88 (λ i. 3))
        booted
        5
        5
        10
        4
        0xffffffff).gpu
      ≡ virtio_gpu_fill_rect booted.gpu 5 5 10 4 0xffffffff)
    × ((draw_fill_rect
          (by_dispatch overwrite no_files bump 0x7f88 (λ i. 3))
          booted
          5
          5
          10
          4
          0xffffffff).file_state
        ≡ booted.file_state)
draw_fill_rect-dispatch_example =
    draw_fill_rect-dispatch overwrite no_files bump 0x7f88 (λ i. 3) booted 5 5 10 4 0xffffffff
      (omega arith) (omega arith) (omega arith) (omega arith) (omega arith)

file_read-ReadOut_example : ReadOut no_files bump booted.file_state (pos 2) 0x500 256 (
    let r =
      file_read (by_dispatch overwrite no_files bump 0x7f88 (λ i. 3)) booted (pos 2) 0x500 256 in
    (r.0, r.1.file_state))
unfolding syscall_file_init syscall_file_read
file_read-ReadOut_example =
    file_read-ReadOut overwrite no_files bump 0x7f88 (λ i. 3) booted 0 (pos 2) 0x500 256
      (boot-IsRunning raw 0x400000 0x9000).1 (syscall_file_init-IsTable empty)
      (λ f bytes e. absurd (cc e)) (omega arith) refl

-- The bytes left of a file of sevens, which descriptor 3 is open for, and the memory. Other descriptors
-- and NULL fail.
abbrev Reader : Type 0
Reader = ℕ × (ℕ → ℕ)

abbrev deliver : Syscall Reader
deliver (left, mem) num args =
    let p = get_or args 1 0 in
    if get_or args 0 0 == 3 && not (p == 0)
    then (taken left, (left - 256, λ j. if leb p j && ltb j (p + taken left) then 7 else mem j))
    else (2 ^ 64 - 1, (left, mem))

deliver-ReadsOn : ReadsOn deliver (pos 3) (λ k. k.0) (λ k. k.1) (λ k. k.0 < 2 ^ 32) 0x10000
unfolding file_read
deliver-ReadsOn = record {
  stays = λ k p opened place. ground (arith, opened, place);
  reads = λ k p opened place. ground (arith, place);
  moves = λ k p opened place. ground (arith, place);
  inside = λ k p j opened place out. ground (arith, out, place);
}

read_all-inside_example :
    (size : ℕ) × (k' : Reader) × (read_all deliver max_png (pos 3) 0x10000 0 (600, λ j. 0)
      ≡ some (size, k'))
    × (size ≡ 600)
    × ((j : ℕ) → (j < 0x10000) ⊎ (0x10000 + max_png ≤ j) → k'.1 j ≡ 0)
read_all-inside_example =
    read_all-inside deliver (pos 3) (λ k. k.0) (λ k. k.1) (λ k. k.0 < 2 ^ 32) 0x10000
      deliver-ReadsOn (600, λ j. 0) (omega arith)
