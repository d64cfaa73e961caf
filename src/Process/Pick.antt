-- ===== src/Process/Pick.antt =====
-- `pick_next_ready`: round robin behind the current process.
use implus_os.Base.{
  ℕ, zero, suc, ◌+◌, ◌%◌, ◌≤◌, ◌<◌, ◌≡◌, refl, ◌⊎◌, inl, inr, List, arith, if◌then◌else◌,
  Bool-cases, ℤ, pos, minus_one,
}
use implus_os.Process.{
  Process, process_at, process_max_count, is_ready, is_live, pick_from, pick_next_ready,
}
use implus_os.Process.Table.{Passes, Fails}

-- The slot `k` places behind `current`, cyclically.
abbrev pub behind : ℕ → ℕ → ℕ
behind current k = (current + k) % process_max_count

-- What is left when no other process is ready: the current one, if it can go on.
abbrev pub fallback : List Process → ℕ → ℤ
fallback ps current = if is_live (process_at ps current).state then pos current else minus_one

-- `r` is the nearest ready slot among `n` slots from `step` places behind `current`.
abbrev pub IsNearest : ℕ → ℕ → List Process → ℕ → ℤ → Type 0
IsNearest n step ps current r =
    ((k : ℕ) × (step ≤ k)
      × (k < step + n)
      × (r ≡ pos (behind current k))
      × Passes is_ready ps (behind current k)
      × ((l : ℕ) → step ≤ l → l < k → Fails is_ready ps (behind current l)))
    ⊎ ((r ≡ fallback ps current)
        × ((l : ℕ) → step ≤ l → l < step + n → Fails is_ready ps (behind current l)))

-- A fact at `step` and from `step + 1` on is a fact from `step` on.
from_step :
    (P : ℕ → Type 0) (step m : ℕ)
    → P step
    → ((l : ℕ) → step + 1 ≤ l → l < m → P l)
    → (l : ℕ) → step ≤ l
    → l < m
    → P l
from_step P step m h rest l lo hi = grind (arith, rest l)

pick_from-IsNearest :
    (n step : ℕ) (ps : List Process) (current : ℕ)
    → IsNearest n step ps current (pick_from n step ps current)
unfolding pick_from
pick_from-IsNearest zero step ps current = inr (refl, λ l lo hi. absurd (omega arith))
pick_from-IsNearest (suc n) step ps current =
    elim (Bool-cases (is_ready (process_at ps (behind current step)).state)) [
      | inl h ↦
          rw h (inl (step, omega arith, omega arith, refl, h, λ l lo hi. absurd (omega arith)))
      | inr h ↦ rw h (later h (pick_from-IsNearest n (step + 1) ps current))
    ]
  where
    later :
        Fails is_ready ps (behind current step)
        → IsNearest n (step + 1) ps current (pick_from n (step + 1) ps current)
        → IsNearest (suc n) step ps current (pick_from n (step + 1) ps current)
    later h (inl (k, lo, hi, e, ok, before)) = inl (
      k,
      omega arith,
      omega arith,
      e,
      ok,
      from_step (λ l. Fails is_ready ps (behind current l)) step k h before,
    )
    later h (inr (e, all)) = inr (
      e,
      from_step (λ l. Fails is_ready ps (behind current l)) step (step + suc n) h
          (λ l lo hi. all l lo (omega arith)),
    )

-- Round robin: from a current process, `pick_next_ready` returns the nearest READY slot behind it in
-- cyclic order over all sixteen, none nearer being ready; if no slot is READY, it returns the current
-- process if that can go on, and otherwise -1.
pub pick_next_ready-IsNearest :
    (ps : List Process) (current : ℕ)
    → IsNearest process_max_count 1 ps current (pick_next_ready ps (pos current))
unfolding pick_next_ready
pick_next_ready-IsNearest ps current = pick_from-IsNearest process_max_count 1 ps current
