-- ===== src/Base/Numbers.antt =====
-- Products, on which the linear tactics need help.
use Prim.Native.Nat.{ℕ, zero, suc, ◌+◌, ◌*◌, ◌≤◌, ◌<◌}
use mathlib.Core.Path.{◌≡◌}
use mathlib.Core.Logic.{◌⊎◌, inl, inr}
use native.Mathlib.Omega.{arith}
use implus_os.Base.Tests.{ltb, ◌==◌, Bool-cases}

-- A smaller multiple lies below by the width.
pub mul_step : (a b w : ℕ) → a < b → a * w + w ≤ b * w
mul_step a zero w h = absurd (omega arith)
mul_step a (suc b) w h = elim (Bool-cases (a == b)) [
  | inl e ↦ grind (arith, e)
  | inr e ↦
      let lt : a < b = ground (arith, e, h) in
      let more : suc b * w ≡ b * w + w = grind arith in omega (arith, mul_step a b w lt, more)
]

-- Two multiples of a width are the same or lie apart by it.
pub multiples_apart : (w a b : ℕ) → (a ≡ b) ⊎ ((a * w + w ≤ b * w) ⊎ (b * w + w ≤ a * w))
multiples_apart w a b = elim (Bool-cases (ltb a b)) [
  | inl e ↦ inr (inl (mul_step a b w (ground (arith, e))))
  | inr e ↦ elim (Bool-cases (ltb b a)) [
    | inl f ↦ inr (inr (mul_step b a w (ground (arith, f))))
    | inr f ↦ inl (ground (arith, e, f))
  ]
]
