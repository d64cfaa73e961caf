-- ===== src/Process/Invariant.antt =====
-- What holds between two system calls: exactly the current process is RUNNING. Every operation of
-- the process manager that a system call makes keeps this.
use implus_os.Base.{
  ℕ, ◌+◌, ◌-◌, ◌≤◌, ◌<◌, ◌≡◌, refl, ap, sym, ◌∙◌, ◌≢◌, ◌⊎◌, inl, inr, Bool, true, false, List,
  arith, Bool-cases, leb, length, set, length-set, get_or-set, get_or-set_ne, get_or-set_self, ℤ,
  pos, minus_one,
}
use implus_os.Process.{
  Process, running, dead, Manager, process_at, process_max_count, is_ready, set_state, save_current,
  Resume, resume, halted, pick_next_ready, process_schedule_on_syscall, schedule_from, switch_to,
  blank,
}
use implus_os.Process.Table.{Passes, Fails}
use implus_os.Process.Pick.{IsNearest, behind, fallback, pick_next_ready-IsNearest}

-- Slot `cur` is the current process, the only one that is RUNNING.
pub record IsRunning (m : Manager) (cur : ℕ) : Type 0 where
  pub size : length m.processes ≡ process_max_count
  pub current : m.current_pid ≡ pos cur
  pub inside : cur < process_max_count
  pub runs : (process_at m.processes cur).state ≡ running
  pub alone : (j : ℕ) → j ≢ cur → (process_at m.processes j).state ≢ running

-- A table with no RUNNING slot gets one.
pub start-IsRunning :
    (m : Manager) (ps : List Process) (next : ℕ)
    → length ps ≡ process_max_count
    → next < process_max_count
    → ((j : ℕ) → j ≢ next → (process_at ps j).state ≢ running)
    → m.current_pid ≡ pos next
    → IsRunning (record m { processes = set_state ps next running }) next
start-IsRunning m ps next size lt none here = record {
  size = length-set ps next _ ∙ size;
  current = here;
  inside = lt;
  runs = ap (λ (p : Process). p.state) (get_or-set_self ps next _ blank (omega arith));
  alone = λ j ne e.
      none j ne (
        ap (λ (p : Process). p.state) (sym (get_or-set_ne ps next j _ blank (λ q. ne (sym q))))
        ∙ e);
}

-- Inside a system call: no slot but perhaps the current one is RUNNING, and that one is RUNNING or,
-- after an exit, DEAD.
pub record IsEntered (m : Manager) (cur : ℕ) : Type 0 where
  pub size : length m.processes ≡ process_max_count
  pub current : m.current_pid ≡ pos cur
  pub inside : cur < process_max_count
  pub others : (j : ℕ) → j ≢ cur → (process_at m.processes j).state ≢ running
  pub taken :
      ((process_at m.processes cur).state ≡ running) ⊎ ((process_at m.processes cur).state ≡ dead)

pub IsRunning-IsEntered : {m : Manager} {cur : ℕ} → IsRunning m cur → IsEntered m cur
IsRunning-IsEntered v = record {
  size = v.size;
  current = v.current;
  inside = v.inside;
  others = v.alone;
  taken = inl v.runs;
}

-- The table with the current process saved.
abbrev pub saved_table : Manager → ℕ → ℕ → ℕ → List Process
saved_table m rsp user_rsp cur =
    set m.processes cur (save_current (process_at m.processes cur) rsp user_rsp)

pub schedule-eq :
    {m : Manager} {cur : ℕ} (rsp user_rsp : ℕ) (request_switch : Bool)
    → IsEntered m cur
    → process_schedule_on_syscall m rsp user_rsp request_switch
      ≡ schedule_from m rsp user_rsp request_switch cur
unfolding process_schedule_on_syscall
schedule-eq rsp user_rsp request_switch v = rw v.current (ground (arith, v.inside))

module _ {m : Manager} {cur : ℕ} (rsp user_rsp : ℕ) (v : IsEntered m cur) where
  -- After the save no slot is RUNNING.
  pub saved_none : (j : ℕ) → (process_at (saved_table m rsp user_rsp cur) j).state ≢ running
  saved_none j = grind (
    arith,
    v.others j,
    v.taken,
    get_or-set m.processes cur j (save_current (process_at m.processes cur) rsp user_rsp) blank,
  )

  -- Without a request to switch a RUNNING process goes on where it was.
  pub schedule_stays :
      (process_at m.processes cur).state ≡ running
      → (process_schedule_on_syscall m rsp user_rsp false).0 ≡ resume rsp user_rsp
  schedule_stays h = rw (schedule-eq rsp user_rsp false v) (rw h refl)

-- Every slot stands at some place from 1 to 16 behind the current one.
pub behind_onto :
    (cur j : ℕ)
    → cur < process_max_count
    → j < process_max_count
    → (k : ℕ) × (1 ≤ k) × (k < 17) × (behind cur k ≡ j)
behind_onto cur j hc hj = elim (Bool-cases (leb j cur)) [
  | inl h ↦ (j + 16 - cur, ground arith, ground arith, ground arith)
  | inr h ↦ (j - cur, ground arith, ground arith, ground arith)
]

-- The outcome of a switch away from `cur` over the table `ps`: the nearest READY process behind it
-- goes on with its own saved stack pointers, or there is no READY process and the machine halts.
abbrev pub Switched : List Process → ℕ → Resume × Manager → Type 0
Switched ps cur (r, m') =
    ((k : ℕ) × (1 ≤ k)
      × (k < 17)
      × Passes is_ready ps (behind cur k)
      × ((l : ℕ) → 1 ≤ l → l < k → Fails is_ready ps (behind cur l))
      × (r
          ≡ resume (process_at ps (behind cur k)).saved_rsp
              (process_at ps (behind cur k)).saved_user_rsp)
      × IsRunning m' (behind cur k)
      × (m'.processes ≡ set_state ps (behind cur k) running))
    ⊎ ((r ≡ halted) × ((j : ℕ) → j < process_max_count → Fails is_ready ps j))

-- No slot of `ps` is RUNNING, and the current one is READY or DEAD.
switch_to-Switched :
    (m : Manager) (cur : ℕ) {r : ℤ}
    → length m.processes ≡ process_max_count
    → cur < process_max_count
    → ((j : ℕ) → (process_at m.processes j).state ≢ running)
    → IsNearest process_max_count 1 m.processes cur r
    → Switched m.processes cur (switch_to m r)
switch_to-Switched m cur size lt none (inl (k, lo, hi, e, ok, before)) = rw e (
    inl (
      k,
      lo,
      hi,
      ok,
      before,
      refl,
      start-IsRunning (record m { current_pid = pos (behind cur k) }) m.processes (behind cur k)
          size (omega arith) (λ j _. none j) refl,
      refl,
    ))
switch_to-Switched m cur size lt none (inr (e, all)) = rw (e, idle) (inr (refl, every))
  where
    every : (j : ℕ) → j < process_max_count → Fails is_ready m.processes j
    every j hj = let (k, lo, hi, at) = behind_onto cur j lt hj in rw at at (all k lo hi)

    idle : fallback m.processes cur ≡ minus_one
    idle = ground (arith, every cur lt, none cur)

module _ {m : Manager} {cur : ℕ} (rsp user_rsp : ℕ) (v : IsEntered m cur) where
  schedule_switch_eq :
      (request_switch : Bool)
      → (request_switch ≡ true) ⊎ ((process_at m.processes cur).state ≡ dead)
      → process_schedule_on_syscall m rsp user_rsp request_switch
        ≡ switch_to
            (record m { processes = saved_table m rsp user_rsp cur })
            (pick_next_ready (saved_table m rsp user_rsp cur) (pos cur))
  schedule_switch_eq true why = schedule-eq rsp user_rsp true v
  schedule_switch_eq false (inl e) = cc
  schedule_switch_eq false (inr e) = rw (schedule-eq rsp user_rsp false v) (ground arith)

  -- On a request to switch, or behind an exit, the nearest READY process in cyclic order takes over
  -- and becomes the only RUNNING one; the machine halts only if no process is READY.
  pub schedule-Switched :
      (request_switch : Bool)
      → (request_switch ≡ true) ⊎ ((process_at m.processes cur).state ≡ dead)
      → Switched
          (saved_table m rsp user_rsp cur)
          cur
          (process_schedule_on_syscall m rsp user_rsp request_switch)
  schedule-Switched request_switch why = rw (schedule_switch_eq request_switch why) (
      switch_to-Switched (record m { processes = saved_table m rsp user_rsp cur }) cur
        (length-set m.processes cur _ ∙ v.size) v.inside (saved_none rsp user_rsp v)
        (pick_next_ready-IsNearest _ cur))
