-- ===== src/Process/Fairness.antt =====
-- Round robin makes every ready process run: at each yield its distance from the current process
-- falls, and it goes on with the stack pointers that it had.
use implus_os.Base.{
  ℕ, zero, suc, ◌-◌, ◌≤◌, ◌<◌, ◌≡◌, refl, ap, ◌∙◌, ◌≢◌, ◌⊎◌, inl, inr, true, List, arith,
  Bool-cases, ltb, ◌==◌, ltb→lt, ==→eq, set, get_or-set_ne,
}
use implus_os.Process.{
  Process, Manager, process_at, is_ready, Resume, resume, blank, process_schedule_on_syscall,
  running,
}
use implus_os.Process.Table.{Passes}
use implus_os.Process.Pick.{behind}
use implus_os.Process.Invariant.{
  IsRunning, IsRunning-IsEntered, saved_table, Switched, schedule-Switched,
}

-- `n` system calls that ask for a switch, each by the process that is current then. The call at
-- place `i` enters the kernel with the two stack pointers `f i`.
pub rounds : (ℕ → ℕ × ℕ) → ℕ → Resume × Manager → Resume × Manager
rounds f zero s = s
rounds f (suc n) (r, m) =
    rounds (λ i. f (suc i)) n (process_schedule_on_syscall m (f 0).0 (f 0).1 true)

-- The process `w` is ready in the table, with the two stack pointers.
pub record Waits (ps : List Process) (w rsp user_rsp : ℕ) : Type 0 where
  pub is_waiting : Passes is_ready ps w
  pub rsp_kept : (process_at ps w).saved_rsp ≡ rsp
  pub user_rsp_kept : (process_at ps w).saved_user_rsp ≡ user_rsp

Waits-set :
    (ps : List Process) (i w : ℕ) (p : Process) {a b : ℕ}
    → i ≢ w
    → Waits ps w a b
    → Waits (set ps i p) w a b
Waits-set ps i w p ne h =
    let e : process_at (set ps i p) w ≡ process_at ps w = get_or-set_ne ps i w p blank ne in
    record {
      is_waiting = rw e h.is_waiting;
      rsp_kept = rw e h.rsp_kept;
      user_rsp_kept = rw e h.user_rsp_kept;
    }

-- One switch: the process runs now, or is nearer to the new current process than it was.
abbrev Nearer : ℕ → ℕ → ℕ → ℕ → ℕ → Resume × Manager → Type 0
Nearer cur d w rsp user_rsp (r, m') =
    ((r ≡ resume rsp user_rsp) × IsRunning m' w)
    ⊎ ((next : ℕ) × (d' : ℕ) × (suc d' ≤ d)
        × IsRunning m' next
        × (behind next (suc d') ≡ w)
        × Waits m'.processes w rsp user_rsp)

Waits-ne :
    {ps : List Process} {w a b : ℕ} (i : ℕ)
    → (process_at ps i).state ≡ running
    → Waits ps w a b
    → i ≢ w
Waits-ne {ps} i h waits e =
    cc (ap (λ j. is_ready (process_at ps j).state) e, waits.is_waiting, ap is_ready h)

switch-Nearer :
    (f : ℕ × ℕ) (d : ℕ) {m : Manager} {cur w : ℕ} {rsp user_rsp : ℕ}
    → IsRunning m cur
    → d < 16
    → behind cur (suc d) ≡ w
    → Waits m.processes w rsp user_rsp
    → Nearer cur d w rsp user_rsp (process_schedule_on_syscall m f.0 f.1 true)
switch-Nearer f d {m} {cur} {w} {rsp} {user_rsp} v lt at waits =
    go (schedule-Switched f.0 f.1 (IsRunning-IsEntered v) true (inl refl))
  where
    ps : List Process
    ps = saved_table m f.0 f.1 cur

    out : Resume × Manager
    out = process_schedule_on_syscall m f.0 f.1 true

    still : Waits ps w rsp user_rsp
    still = Waits-set m.processes cur w _ (Waits-ne cur v.runs waits) waits

    landed : (k : ℕ) → k ≡ suc d → behind cur k ≡ w
    landed k e = ap (behind cur) e ∙ at

    go : Switched ps cur out → Nearer cur d w rsp user_rsp out
    go (inr (_, all)) = absurd (cc (still.is_waiting, all w (omega arith)))
    go (inl (k, lo, hi, ok, before, e, run, table)) = elim (Bool-cases (ltb (suc d) k)) [
      | inl far ↦ absurd (
          cc (
            before (suc d) (omega arith) (ltb→lt _ _ far),
            still.is_waiting,
            ap (λ j. is_ready (process_at ps j).state) at,
          ))
      | inr near ↦ elim (Bool-cases (k == suc d)) [
        | inl hit ↦
            let q = landed k (==→eq k (suc d) hit) in
            inl (
              cc (
                e,
                ap (λ j. (process_at ps j).saved_rsp) q,
                ap (λ j. (process_at ps j).saved_user_rsp) q,
                still.rsp_kept,
                still.user_rsp_kept,
              ),
              rw q at run,
            )
        | inr miss ↦
            let short : k < suc d = ground arith in
            let shorter : behind cur k ≢ w = λ q. absurd (omega (arith, q, at, short, lt)) in
            inr (
              behind cur k,
              d - k,
              omega (arith, short, lo),
              run,
              omega (arith, at, short, lo),
              rw table (Waits-set ps (behind cur k) w _ shorter still),
            )
      ]
    ]

abbrev pub Served : (ℕ → ℕ × ℕ) → ℕ → ℕ → ℕ → ℕ → Resume × Manager → Type 0
Served f d w rsp user_rsp s =
    (n : ℕ) × (n ≤ d)
    × ((rounds f (suc n) s).0 ≡ resume rsp user_rsp)
    × IsRunning (rounds f (suc n) s).1 w

-- By induction on a bound `b` for the distance.
rounds-Served :
    (b : ℕ) (f : ℕ → ℕ × ℕ) (d : ℕ) {m : Manager} {cur w : ℕ} {rsp user_rsp : ℕ} (r : Resume)
    → d < b
    → IsRunning m cur
    → d < 16
    → behind cur (suc d) ≡ w
    → Waits m.processes w rsp user_rsp
    → Served f d w rsp user_rsp (r, m)
unfolding rounds
rounds-Served zero f d r small v lt at waits = absurd (omega arith)
rounds-Served (suc b) f d {m} {cur} {w} {rsp} {user_rsp} r small v lt at waits =
    go (λ d' m' next r'. rounds-Served b (λ i. f (suc i)) d' r')
      (process_schedule_on_syscall m (f 0).0 (f 0).1 true) (switch-Nearer (f 0) d v lt at waits)
  where
    go :
        ((d' : ℕ) (m' : Manager) (next : ℕ) (r' : Resume)
          → d' < b
          → IsRunning m' next
          → d' < 16
          → behind next (suc d') ≡ w
          → Waits m'.processes w rsp user_rsp
          → Served (λ i. f (suc i)) d' w rsp user_rsp (r', m'))
        → (s : Resume × Manager) → Nearer cur d w rsp user_rsp s
        → (n : ℕ) × (n ≤ d)
          × ((rounds (λ i. f (suc i)) n s).0 ≡ resume rsp user_rsp)
          × IsRunning (rounds (λ i. f (suc i)) n s).1 w
    go ih (r', m') (inl (back, run)) = (0, omega arith, back, run)
    go ih (r', m') (inr (next, d', less, run, at', waits')) =
        let (n, le, back, run') = ih d' m' next r' (omega arith) run (omega arith) at' waits' in
        (suc n, omega arith, back, run')

-- A ready process that stands `d + 1` places behind the current one, cyclically, runs after at most
-- `d + 1` system calls that ask for a switch: then it is the only RUNNING process, and it goes on
-- with the two stack pointers that it waited with.
pub rounds-IsRunning :
    (f : ℕ → ℕ × ℕ) (d : ℕ) {m : Manager} {cur w : ℕ} {rsp user_rsp : ℕ} (r : Resume)
    → IsRunning m cur
    → d < 16
    → behind cur (suc d) ≡ w
    → Waits m.processes w rsp user_rsp
    → Served f d w rsp user_rsp (r, m)
rounds-IsRunning f d r v lt at waits = rounds-Served (suc d) f d r (omega arith) v lt at waits
