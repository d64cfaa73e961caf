-- ===== src/Png/Copy.antt =====
-- Copies of bytes, and the copy of the rows in `png_decode_buffer`.
use implus_os.Base.{
  ℕ, zero, suc, ◌+◌, ◌-◌, ◌*◌, ◌%◌, ◌^◌, ◌≤◌, ◌<◌, ◌≡◌, refl, ap, ◌∙◌, ◌⊎◌, inl, inr, get_or, arith,
  mul_step,
}
use implus_os.Files.{get_bytes, put_bytes}
use implus_os.Files.Access.{put_bytes_lem, length-get_bytes, get_or-get_bytes}
use implus_os.Png.{Memory, copy_rows}

-- A copy of bytes, inside and outside of the target.
pub copy_inside :
    (n src dst : ℕ) (mem : Memory) (i : ℕ)
    → i < n
    → put_bytes (get_bytes n src mem) dst mem (dst + i) ≡ mem (src + i)
copy_inside n src dst mem i lt =
    let at : dst + i - dst ≡ i = omega arith in
    ground (
      arith,
      lt,
      at,
      put_bytes_lem (get_bytes n src mem) dst mem (dst + i),
      length-get_bytes n src mem,
      ap (λ k. get_or (get_bytes n src mem) k 0) at,
      get_or-get_bytes n src mem i lt,
    )

copy_outside :
    (n src dst : ℕ) (mem : Memory) (p : ℕ)
    → (p < dst) ⊎ (dst + n ≤ p)
    → put_bytes (get_bytes n src mem) dst mem p ≡ mem p
copy_outside n src dst mem p out =
    ground (arith, out, put_bytes_lem (get_bytes n src mem) dst mem p, length-get_bytes n src mem)

-- The rows, one behind the other from `dst` on.
pub copies : ℕ → ℕ → ℕ → ℕ → Memory → Memory
copies zero dst src s mem = mem
copies (suc n) dst src s mem =
    copies n (dst + s) (src + s + 1) s (put_bytes (get_bytes s (src + 1) mem) dst mem)

more_rows : (n s : ℕ) → suc n * s ≡ s + n * s
more_rows n s = grind arith

copies_outside :
    (n dst src s : ℕ) (mem : Memory) (p : ℕ)
    → (p < dst) ⊎ (dst + n * s ≤ p)
    → copies n dst src s mem p ≡ mem p
unfolding copies
copies_outside zero dst src s mem p out = refl
copies_outside (suc n) dst src s mem p out =
    copies_outside n (dst + s) (src + s + 1) s _ p (further out)
    ∙ copy_outside s (src + 1) dst mem p (first out)
  where
    further : (p < dst) ⊎ (dst + suc n * s ≤ p) → (p < dst + s) ⊎ (dst + s + n * s ≤ p)
    further (inl lt) = inl (omega (arith, lt))
    further (inr le) = inr (omega (arith, le, more_rows n s))

    first : (p < dst) ⊎ (dst + suc n * s ≤ p) → (p < dst) ⊎ (dst + s ≤ p)
    first (inl lt) = inl lt
    first (inr le) = inr (omega (arith, le, more_rows n s))

pub copies_lem :
    (n dst src s : ℕ) (mem : Memory)
    → (dst + n * s ≤ src) ⊎ (src + n * (s + 1) ≤ dst)
    → (k i : ℕ) → k < n
    → i < s
    → copies n dst src s mem (dst + k * s + i) ≡ mem (src + k * (s + 1) + 1 + i)
unfolding copies
copies_lem zero dst src s mem apart k i hk hi = absurd (omega (arith, hk))
copies_lem (suc n) dst src s mem apart zero i hk hi =
    let to : dst + 0 * s + i ≡ dst + i = omega arith in
    let from : src + 1 + i ≡ src + 0 * (s + 1) + 1 + i = omega arith in
    ap (copies n (dst + s) (src + s + 1) s (put_bytes (get_bytes s (src + 1) mem) dst mem)) to
    ∙ copies_outside n (dst + s) (src + s + 1) s _ (dst + i) (inl (omega (arith, hi)))
    ∙ copy_inside s (src + 1) dst mem i hi
    ∙ ap mem from
copies_lem (suc n) dst src s mem apart (suc k) i hk hi =
    let to : dst + suc k * s + i ≡ dst + s + k * s + i = omega (arith, more_rows k s) in
    let from : src + s + 1 + k * (s + 1) + 1 + i ≡ src + suc k * (s + 1) + 1 + i =
      omega (arith, more_rows k (s + 1)) in
    ap (copies n (dst + s) (src + s + 1) s (put_bytes (get_bytes s (src + 1) mem) dst mem)) to
    ∙ copies_lem n (dst + s) (src + s + 1) s _ (rest apart) k i (omega (arith, hk)) hi
    ∙ copy_outside s (src + 1) dst mem _ (source apart)
    ∙ ap mem from
  where
    rest :
        (dst + suc n * s ≤ src) ⊎ (src + suc n * (s + 1) ≤ dst)
        → (dst + s + n * s ≤ src + s + 1) ⊎ (src + s + 1 + n * (s + 1) ≤ dst + s)
    rest (inl le) = inl (omega (arith, le, more_rows n s))
    rest (inr le) = inr (omega (arith, le, more_rows n (s + 1)))

    source :
        (dst + suc n * s ≤ src) ⊎ (src + suc n * (s + 1) ≤ dst)
        → (src + s + 1 + k * (s + 1) + 1 + i < dst) ⊎ (dst + s ≤ src + s + 1 + k * (s + 1) + 1 + i)
    source (inl le) = inr (omega (arith, le, more_rows n s))
    source (inr le) =
        inl (omega (arith, le, hi, more_rows n (s + 1), mul_step k n (s + 1) (omega (arith, hk))))

pub copy_rows-copies :
    (n y src out width : ℕ) (mem : Memory)
    → width * 4 < 2 ^ 32
    → (y + n) * width < 2 ^ 32
    → copy_rows n y src out width mem ≡ copies n (out + y * width * 4) src (width * 4) mem
unfolding copies copy_rows
copy_rows-copies zero y src out width mem small room = refl
copy_rows-copies (suc n) y src out width mem small room =
    let s : width * 4 % 2 ^ 32 ≡ width * 4 = omega (arith, small) in
    let sum : (y + suc n) * width ≡ y * width + suc n * width = grind arith in
    let row : y * width % 2 ^ 32 ≡ y * width = omega (arith, room, sum) in
    let next : out + (y + 1) * width * 4 ≡ out + y * width * 4 + width * 4 = grind arith in
    let same : (y + 1 + n) * width ≡ (y + suc n) * width = grind arith in
    rw (s, row)
      (copy_rows-copies n (y + 1) (src + width * 4 + 1) out width _ small
          (omega (arith, same, room))
        ∙ ap
            (λ d.
              copies n d (src + width * 4 + 1) (width * 4)
                (put_bytes (get_bytes (width * 4) (src + 1) mem) (out + y * width * 4) mem))
            next)
