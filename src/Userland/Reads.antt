-- ===== src/Userland/Reads.antt =====
-- The loop of `load_png` that reads the picture, over calls that read a file as the kernel does.
use implus_os.Base.{
  ℕ, zero, suc, ◌+◌, ◌-◌, ◌%◌, ◌≤◌, ◌<◌, ◌≡◌, refl, ap, ◌∙◌, ◌⊎◌, inl, inr, false, if◌then◌else◌,
  ltb, leb, ◌==◌, Option, some, ℤ, pos, arith, Bool-cases, if-cases,
}
use implus_os.Userland.{Syscall, file_read, got, max_png, read_all}

abbrev pub taken : ℕ → ℕ
taken left = if ltb left 256 then left else 256

-- The place for `n` bytes lies within the buffer of a megabyte.
abbrev pub Place : (file_buffer p n : ℕ) → Type 0
Place file_buffer p n = (file_buffer ≤ p) × (p + n ≤ file_buffer + max_png)

-- In the states in which the file is open and readable, the calls read 256 bytes of it at a time, fewer
-- only at its end, into a place within the buffer, and change no byte of the memory but those that they
-- deliver; and the file stays so.
pub record ReadsOn {K : Type 0} (enter : Syscall K) (fd : ℤ) (left : K → ℕ) (mem : K → ℕ → ℕ)
    (is_open : K → Type 0) (file_buffer : ℕ) : Type 0 where
  pub stays :
      (k : K) (p : ℕ)
      → is_open k
      → Place file_buffer p (taken (left k))
      → is_open (file_read enter k fd p 256).1
  pub reads :
      (k : K) (p : ℕ)
      → is_open k
      → Place file_buffer p (taken (left k))
      → (file_read enter k fd p 256).0 ≡ pos (taken (left k))
  pub moves :
      (k : K) (p : ℕ)
      → is_open k
      → Place file_buffer p (taken (left k))
      → left (file_read enter k fd p 256).1 ≡ left k - 256
  pub inside :
      (k : K) (p j : ℕ)
      → is_open k
      → Place file_buffer p (taken (left k))
      → (j < p) ⊎ (p + taken (left k) ≤ j)
      → mem (file_read enter k fd p 256).1 j ≡ mem k j

module _ {K : Type 0} (enter : Syscall K) (fd : ℤ) (left : K → ℕ) (mem : K → ℕ → ℕ)
    (is_open : K → Type 0) (file_buffer : ℕ)
    (r : ReadsOn enter fd left mem is_open file_buffer) where
  -- The loop ends with all of the file or the first megabyte of it, and has changed nothing outside of
  -- the buffer of a megabyte.
  pub record Ends (offset : ℕ) (k : K) (o : Option (ℕ × K)) : Type 0 where
    pub size : ℕ
    pub state : K
    pub result : o ≡ some (size, state)
    pub amount : size ≡ (if leb (offset + left k) max_png then offset + left k else max_png)
    pub outside : (j : ℕ) → (j < file_buffer) ⊎ (file_buffer + max_png ≤ j) → mem state j ≡ mem k j

  one_read :
      (offset : ℕ) (k : K) (j : ℕ)
      → is_open k
      → offset + taken (left k) ≤ max_png
      → (j < file_buffer) ⊎ (file_buffer + max_png ≤ j)
      → mem (file_read enter k fd (file_buffer + offset) 256).1 j ≡ mem k j
  one_read offset k j opened fits out =
      r.inside k (file_buffer + offset) j opened (omega arith, omega (arith, fits)) (apart out)
    where
      apart :
          (j < file_buffer) ⊎ (file_buffer + max_png ≤ j)
          → (j < file_buffer + offset) ⊎ (file_buffer + offset + taken (left k) ≤ j)
      apart (inl lt) = inl (omega (arith, lt))
      apart (inr le) = inr (omega (arith, le, fits))

  got_taken :
      (offset : ℕ) (k : K)
      → is_open k
      → offset + taken (left k) ≤ max_png
      → got (file_read enter k fd (file_buffer + offset) 256).0 ≡ taken (left k)
  got_taken offset k opened fits =
      ap (λ z. got z) (r.reads k (file_buffer + offset) opened (omega arith, omega (arith, fits)))

  read_all-Ends :
      (fuel offset : ℕ) (k : K)
      → is_open k
      → offset < max_png
      → (offset % 256 ≡ 0) ⊎ (left k ≡ 0)
      → max_png ≤ offset + fuel
      → Ends offset k (read_all enter fuel fd file_buffer offset k)
  unfolding read_all
  read_all-Ends zero offset k opened lt whole le = absurd (omega (arith, lt, le))
  read_all-Ends (suc fuel) offset k opened lt whole le =
      let out = file_read enter k fd (file_buffer + offset) 256 in
      let fits : offset + taken (left k) ≤ max_png = ground (arith, lt, whole) in
      let n = got_taken offset k opened fits in
      let at = file_buffer + offset in
      let place : Place file_buffer at (taken (left k)) = (omega arith, omega (arith, fits)) in
      let moved = r.moves k at opened place in
      if-cases (λ o. Ends offset k o) (got out.0 == 0) _ _
        (λ z.
          let nothing : left k ≡ 0 = ground (arith, z, n) in
          record {
            size = offset;
            state = out.1;
            result = refl;
            amount = ground (arith, nothing, lt);
            outside = λ j h. one_read offset k j opened fits h;
          })
        (λ more.
          if-cases (λ o. Ends offset k o) (leb max_png (offset + got out.0)) _ _
            (λ full. record {
              size = offset + got out.0;
              state = out.1;
              result = refl;
              amount = ground (arith, full, n, fits);
              outside = λ j h. one_read offset k j opened fits h;
            })
            (λ room.
              let ih =
                read_all-Ends fuel (offset + got out.0) out.1 (r.stays k at opened place)
                  (ground (arith, room)) (on (left k) (left out.1) _ n (moved) more whole)
                  (ground (arith, le, more)) in
              record {
                size = ih.size;
                state = ih.state;
                result = ih.result;
                amount = ground (arith, ih.amount, n, moved, more);
                outside = λ j h. ih.outside j h ∙ one_read offset k j opened fits h;
              }))
    where
      on :
          (l l' g : ℕ)
          → g ≡ taken l
          → l' ≡ l - 256
          → (g == 0) ≡ false
          → (offset % 256 ≡ 0) ⊎ (l ≡ 0)
          → ((offset + g) % 256 ≡ 0) ⊎ (l' ≡ 0)
      on l l' g e m z (inl w) = elim (Bool-cases (ltb l 256)) [
        | inl q ↦ inr (ground (arith, q, m))
        | inr q ↦ inl (ground (arith, q, e, w))
      ]
      on l l' g e m z (inr w) = inr (omega (arith, m, w))

-- The loop of `load_png` ends within its rounds, with as many bytes as the file has left or, of a longer
-- one, a megabyte, and writes nowhere but into the megabyte of its buffer: from a state in which the file
-- is open, over calls that read it in pieces of 256 bytes, fewer only at its end, while it is.
pub read_all-inside :
    {K : Type 0} (enter : Syscall K) (fd : ℤ) (left : K → ℕ) (mem : K → ℕ → ℕ)
    (is_open : K → Type 0) (file_buffer : ℕ) (r : ReadsOn enter fd left mem is_open file_buffer)
    (k : K)
    → is_open k
    → (size : ℕ) × (k' : K) × (read_all enter max_png fd file_buffer 0 k ≡ some (size, k'))
      × (size ≡ (if leb (left k) max_png then left k else max_png))
      × ((j : ℕ) → (j < file_buffer) ⊎ (file_buffer + max_png ≤ j) → mem k' j ≡ mem k j)
read_all-inside enter fd left mem is_open file_buffer r k opened =
    let e =
      read_all-Ends enter fd left mem is_open file_buffer r max_png 0 k opened (omega arith)
        (inl refl) (omega arith) in
    let same : 0 + left k ≡ left k = omega arith in
    (
      e.size,
      e.state,
      e.result,
      e.amount ∙ ap (λ n. if leb n max_png then n else max_png) same,
      e.outside,
    )
