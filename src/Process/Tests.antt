-- ===== src/Process/Tests.antt =====
-- Runs of the process manager on small tables, and its theorems at concrete inputs.
use implus_os.Base.{ℕ, ◌+◌, ◌≡◌, refl, inl, true, [], arith, pos, minus_one}
use implus_os.Allocator.{Allocator}
use implus_os.Process.{
  Manager, halted, resume, process_manager_init, process_register_boot_process, process_create_user,
  process_exit_current, process_schedule_on_syscall, find_free_slot, scan, pick_next_ready, install,
}
use implus_os.Process.Invariant.{
  IsRunning, IsRunning-IsEntered, Switched, saved_table, schedule-Switched,
}
use implus_os.Process.Fairness.{Waits, Served, rounds-IsRunning}
use implus_os.Process.Operations.{boot-IsRunning, process_create_user-IsRunning}

-- An allocator that hands out one address after the other.
abbrev bump : Allocator ℕ
bump = record { kmalloc = λ h n. (h, h + n); kfree = λ h p. h }

abbrev booted : Manager
booted =
    (process_register_boot_process
      (process_manager_init (record { processes = []; current_pid = pos 3; qword = λ a. 7 }))
      0x400000 0x9000).1

-- The boot process, and a second one that waits.
abbrev two : Manager
two = (process_create_user bump booted 0x10000 0x500000).1

two-IsRunning : IsRunning two 0
two-IsRunning =
    process_create_user-IsRunning bump 0x10000 0x500000 (boot-IsRunning _ 0x400000 0x9000).1

second_slot : (process_create_user bump booted 0x10000 0x500000).0 ≡ pos 1
unfolding process_create_user process_register_boot_process process_manager_init find_free_slot scan
second_slot = refl

null_entry : (process_create_user bump booted 0x10000 0).0 ≡ minus_one
unfolding process_create_user
null_entry = refl

-- The second process exits, and the first goes on.
exits_back :
    (process_schedule_on_syscall
      (process_exit_current (process_schedule_on_syscall two 0x8f00 0x8f80 true).1)
      1
      2
      true).0
    ≡ resume 0x8f00 0x8f80
unfolding process_schedule_on_syscall process_exit_current process_create_user install
    process_register_boot_process process_manager_init find_free_slot scan pick_next_ready
exits_back = refl

schedule-Switched_example :
    Switched
      (saved_table two 0x8f00 0x8f80 0)
      0
      (process_schedule_on_syscall two 0x8f00 0x8f80 true)
schedule-Switched_example =
    schedule-Switched 0x8f00 0x8f80 (IsRunning-IsEntered two-IsRunning) true (inl refl)

Waits-second : Waits two.processes 1 0x13f88 0x14000
unfolding process_create_user install process_register_boot_process process_manager_init
    find_free_slot scan
Waits-second = record { is_waiting = refl; rsp_kept = refl; user_rsp_kept = refl }

rounds-IsRunning_example : Served (λ i. (0x8f00, 0x8f80)) 0 1 0x13f88 0x14000 (halted, two)
rounds-IsRunning_example =
    rounds-IsRunning (λ i. (0x8f00, 0x8f80)) 0 halted two-IsRunning (omega arith) refl Waits-second
