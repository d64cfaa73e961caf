-- ===== src/Strings.antt =====
-- Kernel/Memory/Other_Utils.c and Kernel/Memory/Memory_Utils.c: the byte routines of the C library
-- that the kernel brings along, on a memory of bytes indexed by address, and `malloc`.
mod Tests
use implus_os.Base.{
  ℕ, zero, suc, ◌+◌, ◌-◌, ◌%◌, ◌^◌, ◌≤◌, ◌<◌, ◌≡◌, refl, ◌⊎◌, inl, inr, ◌≢◌, Bool, true, false,
  ◌||◌, not, if◌then◌else◌, ltb, leb, ◌==◌, ℤ, pos, negsuc, update, arith, Bool-cases, ==→eq, eq→==,
  ap, Option, none, some, ◌∙◌, ◌*◌, ◌&&◌,
}
use implus_os.Allocator.{Allocator}

-- `d[i] = s[i]` for `n` bytes, in ascending order.
pub memcpy : (n dst src : ℕ) → (ℕ → ℕ) → ℕ → ℕ
memcpy zero dst src mem = mem
memcpy (suc n) dst src mem = memcpy n (dst + 1) (src + 1) (update mem dst (mem src))

pub memset : (n ptr value : ℕ) → (ℕ → ℕ) → ℕ → ℕ
memset zero ptr value mem = mem
memset (suc n) ptr value mem = memset n (ptr + 1) value (update mem ptr (value % 2 ^ 8))

-- The difference of two bytes as an `int`.
abbrev pub byte_difference : ℕ → ℕ → ℤ
byte_difference a b = if leb b a then pos (a - b) else negsuc (b - a - 1)

pub memcmp : (n s1 s2 : ℕ) → (ℕ → ℕ) → ℤ
memcmp zero s1 s2 mem = pos 0
memcmp (suc n) s1 s2 mem =
    let rest = memcmp n (s1 + 1) (s2 + 1) mem in
    if not (mem s1 == mem s2) then byte_difference (mem s1) (mem s2) else rest

pub strncmp : (n a b : ℕ) → (ℕ → ℕ) → ℤ
strncmp zero a b mem = pos 0
strncmp (suc n) a b mem =
    let rest = strncmp n (a + 1) (b + 1) mem in
    if not (mem a == mem b) || mem a == 0 then byte_difference (mem a) (mem b) else rest

-- The loop of `strcmp`, as many rounds of it as given: no result means that it goes on.
unfoldable pub strcmp : (n a b : ℕ) → (ℕ → ℕ) → Option ℤ
strcmp zero a b mem = none
strcmp (suc n) a b mem =
    let rest = strcmp n (a + 1) (b + 1) mem in
    if mem a == 0 || not (mem a == mem b) then some (byte_difference (mem a) (mem b)) else rest

-- The loop of `strtol` behind the value so far, which stays in the range of `long`.
unfoldable pub digits_from : (n nptr val : ℕ) → (ℕ → ℕ) → Option ℕ
digits_from zero nptr val mem = none
digits_from (suc n) nptr val mem =
    let rest = digits_from n (nptr + 1) (val * 10 + (mem nptr - 48)) mem in
    if leb 48 (mem nptr) && leb (mem nptr) 57 then rest else some val

abbrev pub strtol : (n nptr : ℕ) → (ℕ → ℕ) → Option ℕ
strtol n nptr mem = digits_from n nptr 0 mem

-- For a number whose negative is an `int`, too.
abbrev pub abs : ℤ → ℤ
abs (pos n) = pos n
abs (negsuc n) = pos (n + 1)

unfoldable pub malloc : {H : Type 0} → Allocator H → H → ℕ → ℕ × H
malloc alloc h size = if ltb (2 ^ 32 - 1) size then (0, h) else alloc.kmalloc h (size % 2 ^ 32)

abbrev pub free : {H : Type 0} → Allocator H → H → ℕ → H
free alloc h ptr = alloc.kfree h ptr

-- On a string that ends within `n` bytes `strcmp` is `strncmp` of as many.
pub strcmp-strncmp :
    (n k a b : ℕ) (mem : ℕ → ℕ)
    → k < n
    → mem (a + k) ≡ 0
    → strcmp n a b mem ≡ some (strncmp n a b mem)
unfolding strcmp strncmp
strcmp-strncmp zero k a b mem h e = absurd (omega (arith, h))
strcmp-strncmp (suc n) zero a b mem h e =
    let end : mem a ≡ 0 = ap mem (omega arith) ∙ e in ground (arith, end)
strcmp-strncmp (suc n) (suc k) a b mem h e =
    let on : a + 1 + k ≡ a + suc k = omega arith in
    ground (arith, strcmp-strncmp n k (a + 1) (b + 1) mem (omega (arith, h)) (ap mem on ∙ e))

-- `memset` writes the lowest byte of the value to `n` bytes from the pointer on, and nothing else.
pub memset_lem :
    (n ptr value : ℕ) (mem : ℕ → ℕ) (j : ℕ)
    → memset n ptr value mem j
      ≡ (if leb ptr j then if ltb j (ptr + n) then value % 2 ^ 8 else mem j else mem j)
unfolding memset
memset_lem zero ptr value mem j = ground arith
memset_lem (suc n) ptr value mem j =
    ground (arith, memset_lem n (ptr + 1) value (update mem ptr (value % 2 ^ 8)) j)

pub memcpy_outside :
    (n dst src : ℕ) (mem : ℕ → ℕ) (j : ℕ)
    → (j < dst) ⊎ (dst + n ≤ j)
    → memcpy n dst src mem j ≡ mem j
unfolding memcpy
memcpy_outside zero dst src mem j h = refl
memcpy_outside (suc n) dst src mem j h =
    ground (
      arith,
      h,
      memcpy_outside n (dst + 1) (src + 1) (update mem dst (mem src)) j (omega (arith, h)),
    )

-- `memcpy` puts the source's bytes at the destination and changes no other byte, when the destination
-- does not begin inside the source, behind its first byte.
pub memcpy_lem :
    (n dst src : ℕ) (mem : ℕ → ℕ)
    → (dst ≤ src) ⊎ (src + n ≤ dst)
    → ((i : ℕ) → i < n → memcpy n dst src mem (dst + i) ≡ mem (src + i))
      × ((j : ℕ) → (j < dst) ⊎ (dst + n ≤ j) → memcpy n dst src mem j ≡ mem j)
unfolding memcpy
memcpy_lem n dst src mem apart = (copied n dst src mem apart, memcpy_outside n dst src mem)
  where
    copied :
        (n dst src : ℕ) (mem : ℕ → ℕ)
        → (dst ≤ src) ⊎ (src + n ≤ dst)
        → (i : ℕ) → i < n
        → memcpy n dst src mem (dst + i) ≡ mem (src + i)
    copied zero dst src mem apart i h = absurd (omega arith)
    copied (suc n) dst src mem apart zero h = ground (
      arith,
      memcpy_outside n (dst + 1) (src + 1) (update mem dst (mem src)) dst (inl (omega arith)),
    )
    copied (suc n) dst src mem apart (suc i) h =
        let e : dst + 1 + i ≡ dst + suc i = omega arith in
        let s : src + 1 + i ≡ src + suc i = omega arith in
        ground (
          arith,
          apart,
          ap (memcpy n (dst + 1) (src + 1) (update mem dst (mem src))) e,
          ap mem s,
          copied n (dst + 1) (src + 1) (update mem dst (mem src)) (omega (arith, apart)) i
              (omega arith),
        )
