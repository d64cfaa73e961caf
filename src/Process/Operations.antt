-- ===== src/Process/Operations.antt =====
-- The other operations of the process manager keep the invariant of `Invariant.antt`, and what
-- `process_create_user` builds.
use implus_os.Base.{
  ℕ, zero, suc, ◌+◌, ◌*◌, ◌≤◌, ◌<◌, ◌≡◌, refl, ap, sym, ◌∙◌, ◌≢◌, ◌⊎◌, inl, inr, false, List, ◌∷◌,
  arith, if◌then◌else◌, Bool-cases, ◌==◌, leb, length, set, length-set, get_or-set_ne,
  get_or-set_self, get_or-replicate, replicate, ==→eq, eq→==, ℤ, pos, minus_one, update,
}
use implus_os.Allocator.{Allocator}
use implus_os.Process.{
  Process, ready, running, dead, Manager, process_at, process_max_count, process_stack_size,
  process_rflags_default, process_context_qwords, frame_rcx, frame_r11, is_vacant, set_state,
  resume, install, zero_frame, build_frame, frame_of, stack_top_of, find_free_slot,
  process_create_user, process_exit_current, process_schedule_on_syscall, blank, create_at,
  create_with, process_register_boot_process, process_manager_init, scan,
}
use implus_os.Process.Table.{IsFirst, Passes, Fails, find_free_slot-IsFirst}
use implus_os.Process.Invariant.{
  IsRunning, IsEntered, IsRunning-IsEntered, start-IsRunning, schedule-eq,
}

-- The state in slot `j` after a write of slot `i`.
module _ (ps : List Process) (i : ℕ) (p : Process) (lt : i < length ps) where
  written : process_at (set ps i p) i ≡ p
  written = get_or-set_self ps i p blank lt

  kept : (j : ℕ) → i ≢ j → process_at (set ps i p) j ≡ process_at ps j
  kept j ne = get_or-set_ne ps i j p blank ne

-- `process_exit_current` marks the current process DEAD and touches no other, which leaves the
-- table in the state that the scheduler expects behind an exit.
pub process_exit_current-IsEntered :
    {m : Manager} {cur : ℕ}
    → IsRunning m cur
    → IsEntered (process_exit_current m) cur
      × ((process_at (process_exit_current m).processes cur).state ≡ dead)
      × ((j : ℕ)
          → j ≢ cur
          → process_at (process_exit_current m).processes j ≡ process_at m.processes j)
unfolding process_exit_current
process_exit_current-IsEntered {m} {cur} v = rw v.current (
    rw (leb_inside v.inside) (
      record {
        size = length-set m.processes cur _ ∙ v.size;
        current = refl;
        inside = v.inside;
        others = λ j ne. rw (unmoved j ne) (v.alone j ne);
        taken = inr gone;
      },
      gone,
      unmoved,
    ))
  where
    leb_inside : cur < process_max_count → leb process_max_count cur ≡ false
    leb_inside h = ground arith

    inside : cur < length m.processes
    inside = omega (arith, v.size, v.inside)

    gone : (process_at (set_state m.processes cur dead) cur).state ≡ dead
    gone = ap (λ (p : Process). p.state) (written m.processes cur _ inside)

    unmoved :
        (j : ℕ) → j ≢ cur → process_at (set_state m.processes cur dead) j ≡ process_at m.processes j
    unmoved j ne = kept m.processes cur _ inside j (λ e. ne (sym e))

-- A system call that asks for no switch leaves the current process RUNNING and the invariant true,
-- and returns to it with the stack pointers that it came with.
pub schedule-IsRunning :
    {m : Manager} {cur : ℕ} (rsp user_rsp : ℕ)
    → IsRunning m cur
    → IsRunning (process_schedule_on_syscall m rsp user_rsp false).1 cur
      × ((process_schedule_on_syscall m rsp user_rsp false).0 ≡ resume rsp user_rsp)
schedule-IsRunning {m} {cur} rsp user_rsp v =
    rw (schedule-eq rsp user_rsp false (IsRunning-IsEntered v)) (
      rw v.runs (
        start-IsRunning m _ cur (length-set m.processes cur _ ∙ v.size) v.inside none v.current,
        refl,
      ))
  where
    none :
        (j : ℕ)
        → j ≢ cur
        → (process_at
            (set m.processes cur (record {
              state = ready;
              entry = (process_at m.processes cur).entry;
              saved_rsp = rsp;
              saved_user_rsp = user_rsp;
              stack_base = (process_at m.processes cur).stack_base;
            }))
            j).state
          ≢ running
    none j ne = rw (get_or-set_ne m.processes cur j _ blank (λ e. ne (sym e))) (v.alone j ne)

-- It writes no word of the memory.
pub schedule-qword :
    {m : Manager} {cur : ℕ} (rsp user_rsp : ℕ)
    → IsRunning m cur
    → (process_schedule_on_syscall m rsp user_rsp false).1.qword ≡ m.qword
schedule-qword {m} {cur} rsp user_rsp v =
    rw (schedule-eq rsp user_rsp false (IsRunning-IsEntered v)) (rw v.runs refl)

zero_frame_outside :
    (n addr : ℕ) (mem : ℕ → ℕ) (a : ℕ)
    → (a < addr) ⊎ (addr + n * 8 ≤ a)
    → zero_frame n addr mem a ≡ mem a
unfolding zero_frame
zero_frame_outside zero addr mem a h = refl
zero_frame_outside (suc n) addr mem a h =
    ground (arith, h, zero_frame_outside n (addr + 8) (update mem addr 0) a (omega (arith, h)))

zero_frame_inside :
    (n addr : ℕ) (mem : ℕ → ℕ) (i : ℕ) → i < n → zero_frame n addr mem (addr + i * 8) ≡ 0
unfolding zero_frame
zero_frame_inside zero addr mem i h = absurd (omega arith)
zero_frame_inside (suc n) addr mem zero h =
    ground (arith, zero_frame_outside n (addr + 8) (update mem addr 0) addr (inl (omega arith)))
zero_frame_inside (suc n) addr mem (suc i) h =
    let e : addr + suc i * 8 ≡ addr + 8 + i * 8 = omega arith in
    rw e (zero_frame_inside n (addr + 8) (update mem addr 0) i (omega arith))

-- The words that `process_create_user` leaves at the new frame: RCX is the entry point, R11 the
-- default flags, and every other register of the frame is zero.
pub build_frame-Frame :
    (frame entry : ℕ) (mem : ℕ → ℕ) (i : ℕ)
    → i < process_context_qwords
    → build_frame frame entry mem (frame + i * 8)
      ≡ (if i == frame_rcx then entry else if i == frame_r11 then process_rflags_default else 0)
unfolding build_frame
build_frame-Frame frame entry mem i h =
    ground (arith, zero_frame_inside process_context_qwords frame mem i h)

-- The outcomes of `process_create_user`: a failure, for one of three reasons, changes no process;
-- otherwise a new READY process stands in a slot that was UNUSED or DEAD.
module _ {H : Type 0} (alloc : Allocator H) (m : Manager) (h : H) (entry : ℕ) where
  abbrev pub Refused : ℤ × Manager × H → Type 0
  Refused (r, m', h') =
      (r ≡ minus_one)
      × (m' ≡ m)
      × ((entry ≡ 0)
          ⊎ (((j : ℕ) → j < length m.processes → Fails is_vacant m.processes j)
              ⊎ ((alloc.kmalloc h process_stack_size).0 ≡ 0)))

  abbrev pub Created : ℤ × Manager × H → Type 0
  Created (r, m', h') =
      (pid : ℕ) × (stack : ℕ) × (r ≡ pos pid)
      × (pid < length m.processes)
      × Passes is_vacant m.processes pid
      × (stack ≢ 0)
      × (alloc.kmalloc h process_stack_size ≡ (stack, h'))
      × (m' ≡ install m entry pid stack)

  create_at-outcome :
      {r : ℤ}
      → IsFirst is_vacant m.processes 0 r
      → Refused (create_at alloc m h entry r) ⊎ Created (create_at alloc m h entry r)
  create_at-outcome (inr (e, all)) = rw e (inl (refl, refl, inr (inl all)))
  create_at-outcome (inl (i, e, lt, ok, below)) =
      let e' : 0 + i ≡ i = omega arith in
      rw (e, e') (split (alloc.kmalloc h process_stack_size) refl)
    where
      split :
          (got : ℕ × H)
          → alloc.kmalloc h process_stack_size ≡ got
          → Refused (create_with alloc m entry i got) ⊎ Created (create_with alloc m entry i got)
      split (stack, h') q = elim (Bool-cases (stack == 0)) [
        | inl null ↦
            rw null (inl (refl, refl, inr (inr (ap (λ (g : ℕ × H). g.0) q ∙ ==→eq stack 0 null))))
        | inr ok' ↦ rw ok' (inr (i, stack, refl, lt, ok, ground arith, q, refl))
      ]

  -- `process_create_user` either fails with -1 and leaves every process as it was, because the entry
  -- point is 0, the table is full or `kmalloc` returned NULL; or it returns the slot in which a new
  -- READY process stands, which was UNUSED or DEAD before.
  pub process_create_user-outcome :
      Refused (process_create_user alloc m h entry) ⊎ Created (process_create_user alloc m h entry)
  unfolding process_create_user
  process_create_user-outcome = elim (Bool-cases (entry == 0)) [
    | inl null ↦ rw null (inl (refl, refl, inl (==→eq entry 0 null)))
    | inr some_entry ↦ rw some_entry (create_at-outcome (find_free_slot-IsFirst m.processes))
  ]

install-IsRunning :
    {m : Manager} {cur : ℕ} (entry pid stack : ℕ)
    → IsRunning m cur
    → pid < length m.processes
    → Passes is_vacant m.processes pid
    → IsRunning (install m entry pid stack) cur
unfolding install
install-IsRunning {m} {cur} entry pid stack v lt vacant = record {
  size = length-set m.processes pid _ ∙ v.size;
  current = v.current;
  inside = v.inside;
  runs = rw (get_or-set_ne m.processes pid cur _ blank other) v.runs;
  alone = λ j ne. elim (Bool-cases (pid == j)) [
    | inl e ↦ rw (← ==→eq pid j e) new_ready
    | inr e ↦
        rw (get_or-set_ne m.processes pid j _ blank (λ q. cc (e, eq→== pid j q))) (v.alone j ne)
  ];
}
  where
    other : pid ≢ cur
    other e =
        cc (ap (λ i. is_vacant (process_at m.processes i).state) e, vacant, ap is_vacant v.runs)

    new_ready :
        (process_at
          (set m.processes pid (record {
            state = ready;
            entry = entry;
            saved_rsp = frame_of stack;
            saved_user_rsp = stack_top_of stack;
            stack_base = stack;
          }))
          pid).state
        ≢ running
    new_ready = rw (get_or-set_self m.processes pid _ blank lt) (λ q. cc)

-- A new process leaves the current one RUNNING and alone so; a failed creation changes nothing.
pub process_create_user-IsRunning :
    {H : Type 0} (alloc : Allocator H) {m : Manager} {cur : ℕ} (h : H) (entry : ℕ)
    → IsRunning m cur
    → IsRunning (process_create_user alloc m h entry).1 cur
process_create_user-IsRunning alloc {m} {cur} h entry v =
    elim (process_create_user-outcome alloc m h entry) [
      | inl (_, same, _) ↦ rw same v
      | inr (pid, stack, _, lt, vacant, _, _, e) ↦
          rw e (install-IsRunning entry pid stack v lt vacant)
    ]

only_first : (p : Process) (j : ℕ) → j ≢ 0 → (process_at (p ∷ replicate 15 blank) j).state ≢ running
only_first p zero ne = absurd (ne refl)
only_first p (suc j) ne = rw (get_or-replicate 15 j blank) (λ q. cc)

-- From any state of the manager, `process_manager_init` and `process_register_boot_process` make
-- slot 0 the current process, the only RUNNING one, with its stack pointers at the top given.
pub boot-IsRunning :
    (m : Manager) (entry user_stack_top : ℕ)
    → let (r, m') = process_register_boot_process (process_manager_init m) entry user_stack_top in
      (r ≡ pos 0) × IsRunning m' 0 × ((process_at m'.processes 0).saved_user_rsp ≡ user_stack_top)
unfolding process_register_boot_process process_manager_init find_free_slot scan
boot-IsRunning m entry user_stack_top = (
  refl,
  record { size = refl; current = refl; inside = omega arith; runs = refl; alone = only_first _ },
  refl,
)
