-- ===== src/Process/Table.antt =====
-- The scans over `g_processes`: `find_free_slot`, and the first scan of `pick_next_ready`.
use implus_os.Base.{
  ℕ, zero, suc, ◌+◌, ◌<◌, ◌≡◌, refl, ◌⊎◌, inl, inr, Bool, true, false, List, [], ◌∷◌, arith, length,
  Bool-cases, ℤ, pos, minus_one,
}
use implus_os.Process.{Process, ProcessState, process_at, is_vacant, scan, find_free_slot}

-- The slot `i` of the table passes the test.
abbrev pub Passes : (ProcessState → Bool) → List Process → ℕ → Type 0
Passes test ps i = test (process_at ps i).state ≡ true

abbrev pub Fails : (ProcessState → Bool) → List Process → ℕ → Type 0
Fails test ps i = test (process_at ps i).state ≡ false

-- `r` is the first slot that passes, counted from `base`, or -1 if none does.
abbrev pub IsFirst : (ProcessState → Bool) → List Process → ℕ → ℤ → Type 0
IsFirst test ps base r =
    ((i : ℕ) × (r ≡ pos (base + i))
      × (i < length ps)
      × Passes test ps i
      × ((j : ℕ) → j < i → Fails test ps j))
    ⊎ ((r ≡ minus_one) × ((j : ℕ) → j < length ps → Fails test ps j))

below_suc :
    (test : ProcessState → Bool) (p : Process) (ps : List Process) (n : ℕ)
    → test p.state ≡ false
    → ((j : ℕ) → j < n → Fails test ps j)
    → (j : ℕ) → j < suc n
    → Fails test (p ∷ ps) j
below_suc test p ps n h all zero lt = h
below_suc test p ps n h all (suc j) lt = all j (omega arith)

scan-IsFirst_step :
    (test : ProcessState → Bool) (p : Process) (ps : List Process) (base : ℕ) {r : ℤ}
    → test p.state ≡ false
    → IsFirst test ps (base + 1) r
    → IsFirst test (p ∷ ps) base r
scan-IsFirst_step test p ps base h (inl (i, e, lt, ok, below)) =
    inl (suc i, ground arith, omega arith, ok, below_suc test p ps i h below)
scan-IsFirst_step test p ps base h (inr (e, all)) = inr (e, below_suc test p ps (length ps) h all)

pub scan-IsFirst :
    (test : ProcessState → Bool) (ps : List Process) (base : ℕ)
    → IsFirst test ps base (scan test ps base)
unfolding scan
scan-IsFirst test [] base = inr (refl, λ j lt. absurd (omega arith))
scan-IsFirst test (p ∷ ps) base = elim (Bool-cases (test p.state)) [
  | inl h ↦ rw h (inl (0, ground arith, omega arith, h, λ j lt. absurd (omega arith)))
  | inr h ↦ rw h (scan-IsFirst_step test p ps base h (scan-IsFirst test ps (base + 1)))
]

-- `find_free_slot` returns the first slot whose state is UNUSED or DEAD, and -1 exactly when every
-- slot is taken.
pub find_free_slot-IsFirst : (ps : List Process) → IsFirst is_vacant ps 0 (find_free_slot ps)
unfolding find_free_slot
find_free_slot-IsFirst ps = scan-IsFirst is_vacant ps 0
