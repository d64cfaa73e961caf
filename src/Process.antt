-- ===== src/Process.antt =====
-- Kernel/ProcessManager/ProcessManager_Create.c: the table of processes and the scheduler that
-- runs at the end of each system call. `g_processes` is a list, `g_current_pid` a signed number.
pub mod Table
pub mod Pick
pub mod Invariant
pub mod Fairness
pub mod Operations
mod Tests
use implus_os.Base.{
  ℕ, zero, suc, ◌+◌, ◌-◌, ◌*◌, ◌/◌, ◌%◌, Bool, true, false, not, ◌&&◌, List, [], ◌∷◌, if◌then◌else◌,
  leb, ◌==◌, get_or, set, replicate, ℤ, pos, negsuc, minus_one, update,
}
use implus_os.Allocator.{Allocator}

abbrev pub process_max_count : ℕ
process_max_count = 16

abbrev pub process_stack_size : ℕ
process_stack_size = 16 * 1024

abbrev pub process_rflags_default : ℕ
process_rflags_default = 0x202

-- SYSCALL_FRAME_QWORDS, and the two slots of a frame that a new process has set.
abbrev pub process_context_qwords : ℕ
process_context_qwords = 15

abbrev pub frame_rcx : ℕ
frame_rcx = 13

abbrev pub frame_r11 : ℕ
frame_r11 = 14

pub data ProcessState : Type 0 where
  unused ready running dead : ProcessState

pub record Process : Type 0 where
  pub state : ProcessState
  pub entry : ℕ
  pub saved_rsp : ℕ
  pub saved_user_rsp : ℕ
  pub stack_base : ℕ

-- `g_processes` and `g_current_pid`, and the 64-bit words in memory that frames are built from.
pub record Manager : Type 0 where
  pub processes : List Process
  pub current_pid : ℤ
  pub qword : ℕ → ℕ

abbrev pub blank : Process
blank = record { state = unused; entry = 0; saved_rsp = 0; saved_user_rsp = 0; stack_base = 0 }

abbrev pub process_at : List Process → ℕ → Process
process_at ps i = get_or ps i blank

-- `state == UNUSED || state == DEAD`.
abbrev pub is_vacant : ProcessState → Bool
is_vacant unused = true
is_vacant dead = true
is_vacant _ = false

abbrev pub is_ready : ProcessState → Bool
is_ready ready = true
is_ready _ = false

-- `state == READY || state == RUNNING`.
abbrev pub is_live : ProcessState → Bool
is_live ready = true
is_live running = true
is_live _ = false

abbrev pub is_dead : ProcessState → Bool
is_dead dead = true
is_dead _ = false

-- The index of the first process from `i` on whose state passes the test.
pub scan : (ProcessState → Bool) → List Process → ℕ → ℤ
scan test [] i = minus_one
scan test (p ∷ ps) i = let rest = scan test ps (i + 1) in if test p.state then pos i else rest

unfoldable pub find_free_slot : List Process → ℤ
find_free_slot ps = scan is_vacant ps 0

-- The loop of `pick_next_ready` over `step`, with the rounds left and the answer behind it.
pub pick_from : ℕ → ℕ → List Process → ℕ → ℤ
pick_from zero step ps current =
    if is_live (process_at ps current).state then pos current else minus_one
pick_from (suc n) step ps current =
    let idx = (current + step) % process_max_count in
    let rest = pick_from n (step + 1) ps current in
    if is_ready (process_at ps idx).state then pos idx else rest

unfoldable pub pick_next_ready : List Process → ℤ → ℤ
unfolding pick_from scan
pick_next_ready ps (negsuc _) = scan is_live ps 0
pick_next_ready ps (pos current) = pick_from process_max_count 1 ps current

unfoldable pub process_manager_init : Manager → Manager
process_manager_init m = record m {
  processes = replicate process_max_count blank;
  current_pid = minus_one;
}

-- Behind `find_free_slot`: a slot, or -1.
abbrev register_at : Manager → ℕ → ℕ → ℤ → ℤ × Manager
register_at m entry user_stack_top (negsuc _) = (minus_one, m)
register_at m entry user_stack_top (pos pid) = (
  pos pid,
  record m {
    processes = set m.processes pid (record {
      state = running;
      entry = entry;
      saved_rsp = user_stack_top;
      saved_user_rsp = user_stack_top;
      stack_base = 0;
    });
    current_pid = pos pid;
  },
)

unfoldable pub process_register_boot_process : Manager → ℕ → ℕ → ℤ × Manager
unfolding find_free_slot scan
process_register_boot_process m entry user_stack_top =
    register_at m entry user_stack_top (find_free_slot m.processes)

-- `frame[i] = 0` for `n` words from the address on.
pub zero_frame : ℕ → ℕ → (ℕ → ℕ) → ℕ → ℕ
zero_frame zero addr mem = mem
zero_frame (suc n) addr mem = zero_frame n (addr + 8) (update mem addr 0)

-- `& ~0xF`.
abbrev pub stack_top_of : ℕ → ℕ
stack_top_of stack = (stack + process_stack_size) / 16 * 16

abbrev pub frame_of : ℕ → ℕ
frame_of stack = stack_top_of stack - process_context_qwords * 8

unfoldable pub build_frame : ℕ → ℕ → (ℕ → ℕ) → ℕ → ℕ
unfolding zero_frame
build_frame frame entry mem =
    update (update (zero_frame process_context_qwords frame mem) (frame + frame_rcx * 8) entry)
      (frame + frame_r11 * 8) process_rflags_default

unfoldable pub install : Manager → ℕ → ℕ → ℕ → Manager
unfolding build_frame
install m entry pid stack = record m {
  processes = set m.processes pid (record {
    state = ready;
    entry = entry;
    saved_rsp = frame_of stack;
    saved_user_rsp = stack_top_of stack;
    stack_base = stack;
  });
  qword = build_frame (frame_of stack) entry m.qword;
}

module _ {H : Type 0} (alloc : Allocator H) where
  abbrev create_with : Manager → ℕ → ℕ → ℕ × H → ℤ × Manager × H
  create_with m entry pid (stack, h) =
      if stack == 0 then (minus_one, m, h) else (pos pid, install m entry pid stack, h)

  abbrev create_at : Manager → H → ℕ → ℤ → ℤ × Manager × H
  create_at m h entry (negsuc _) = (minus_one, m, h)
  create_at m h entry (pos pid) = create_with m entry pid (alloc.kmalloc h process_stack_size)

  unfoldable pub process_create_user : Manager → H → ℕ → ℤ × Manager × H
  process_create_user m h entry =
      if entry == 0 then (minus_one, m, h) else create_at m h entry (find_free_slot m.processes)

-- `g_processes[pid].state = state`.
abbrev pub set_state : List Process → ℕ → ProcessState → List Process
set_state ps pid s = set ps pid (record (process_at ps pid) { state = s })

abbrev exit_at : Manager → ℤ → Manager
exit_at m (negsuc _) = m
exit_at m (pos pid) =
    if leb process_max_count pid then m else record m { processes = set_state m.processes pid dead }

unfoldable pub process_exit_current : Manager → Manager
process_exit_current m = exit_at m m.current_pid

-- What the scheduler returns: the stack pointers to go on with, or no process left to run.
pub data Resume : Type 0 where
  resume : (saved_rsp user_rsp : ℕ) → Resume
  halted : Resume

-- A live process that enters the kernel has its two stack pointers saved, and becomes ready.
abbrev pub save_current : Process → ℕ → ℕ → Process
save_current p rsp user_rsp =
    if is_live p.state
    then record p { saved_rsp = rsp; saved_user_rsp = user_rsp; state = ready }
    else p

abbrev switch_to : Manager → ℤ → Resume × Manager
switch_to m (negsuc _) = (halted, m)
switch_to m (pos next) =
    let p = process_at m.processes next in
    (
      resume p.saved_rsp p.saved_user_rsp,
      record m { processes = set_state m.processes next running; current_pid = pos next },
    )

abbrev schedule_from : Manager → ℕ → ℕ → Bool → ℕ → Resume × Manager
schedule_from m rsp user_rsp request_switch pid =
    let saved = save_current (process_at m.processes pid) rsp user_rsp in
    let ps = set m.processes pid saved in
    if not request_switch && not (is_dead saved.state)
    then (
      resume saved.saved_rsp saved.saved_user_rsp,
      record m { processes = set_state ps pid running },
    )
    else switch_to (record m { processes = ps }) (pick_next_ready ps (pos pid))

abbrev schedule_at : Manager → ℕ → ℕ → Bool → ℤ → Resume × Manager
schedule_at m rsp user_rsp request_switch (negsuc _) = (resume rsp user_rsp, m)
schedule_at m rsp user_rsp request_switch (pos pid) =
    if leb process_max_count pid
    then (resume rsp user_rsp, m)
    else schedule_from m rsp user_rsp request_switch pid

unfoldable pub process_schedule_on_syscall : Manager → ℕ → ℕ → Bool → Resume × Manager
unfolding pick_next_ready
process_schedule_on_syscall m rsp user_rsp request_switch =
    schedule_at m rsp user_rsp request_switch m.current_pid
