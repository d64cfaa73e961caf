-- ===== src/Pages/Alloc.antt =====
-- `alloc_page` and `free_page`.
use mathlib.Core.Path.{subst}
use implus_os.Base.{
  ℕ, zero, suc, ◌+◌, ◌-◌, ◌*◌, ◌/◌, ◌%◌, ◌≤◌, ◌<◌, ◌≡◌, refl, ◌≢◌, ◌⊎◌, inl, inr, false, arith,
  if◌then◌else◌, ◌==◌, ltb, not, ◌&&◌, ◌||◌, Bool-cases, ==→eq, eq→==, update,
}
use implus_os.Pages.{Pages, page_size, max_pages, alloc_from, alloc_page, free_page}

abbrev at_offset : Pages → ℕ → ℕ
at_offset p k = (p.page_alloc_hint + k) % max_pages

-- One of `n` offsets from `offset` on names a free page and is the first to, or none does.
abbrev Tried : ℕ → ℕ → Pages → ℕ × Pages → Type 0
Tried n offset p (addr, p') =
    ((i : ℕ) × (i < max_pages)
      × (addr ≡ i * page_size)
      × (p.bitmap i ≡ 0)
      × (p' ≡ record p { bitmap = update p.bitmap i 1; page_alloc_hint = (i + 1) % max_pages }))
    ⊎ ((addr ≡ 0)
        × (p' ≡ p)
        × ((k : ℕ) → offset ≤ k → k < offset + n → p.bitmap (at_offset p k) ≢ 0))

from_offset :
    (P : ℕ → Type 0) (k m : ℕ)
    → P k
    → ((l : ℕ) → k + 1 ≤ l → l < m → P l)
    → (l : ℕ) → k ≤ l
    → l < m
    → P l
from_offset P k m h rest l lo hi = grind (arith, rest l)

alloc_from-Tried : (n offset : ℕ) (p : Pages) → Tried n offset p (alloc_from n offset p)
unfolding alloc_from
alloc_from-Tried zero offset p = inr (refl, refl, λ k lo hi. absurd (omega arith))
alloc_from-Tried (suc n) offset p = elim (Bool-cases (p.bitmap (at_offset p offset) == 0)) [
  | inl e ↦ rw e (inl (at_offset p offset, omega arith, refl, ==→eq _ _ e, refl))
  | inr e ↦ rw e (
      later (alloc_from n (offset + 1) p) (λ z. cc (e, eq→== _ _ z))
        (alloc_from-Tried n (offset + 1) p))
]
  where
    later :
        (r : ℕ × Pages)
        → p.bitmap (at_offset p offset) ≢ 0
        → Tried n (offset + 1) p r
        → Tried (suc n) offset p r
    later r ne (inl found) = inl found
    later r ne (inr (z, same, all)) = inr (
      z,
      same,
      from_offset (λ k. p.bitmap (at_offset p k) ≢ 0) offset (offset + suc n) ne
          (λ l lo hi. all l lo (omega arith)),
    )

-- Every page has an offset below `max_pages` from the hint.
offset_of : (p : Pages) (i : ℕ) → i < max_pages → (k : ℕ) × (k < max_pages) × (at_offset p k ≡ i)
offset_of p i lt =
    ((i + max_pages - p.page_alloc_hint % max_pages) % max_pages, omega arith, omega arith)

-- What `alloc_page` does: it takes a page that was free, marks it used and returns its address,
-- changing no other page; or every page is used, and it returns NULL and changes nothing.
abbrev pub Allocated : Pages → ℕ × Pages → Type 0
Allocated p (addr, p') =
    ((i : ℕ) × (i < max_pages)
      × (addr ≡ i * page_size)
      × (p.bitmap i ≡ 0)
      × ((j : ℕ) → p'.bitmap j ≡ (if i == j then 1 else p.bitmap j)))
    ⊎ ((addr ≡ 0) × (p' ≡ p) × ((i : ℕ) → i < max_pages → p.bitmap i ≢ 0))

-- `alloc_page` takes a free page, marks it used, returns its address and changes no other page; it
-- returns NULL without a page only if all `MAX_PAGES` pages are used, and changes nothing then.
pub alloc_page-Allocated : (p : Pages) → Allocated p (alloc_page p)
unfolding alloc_page
alloc_page-Allocated p = go (alloc_from max_pages 0 p) (alloc_from-Tried max_pages 0 p)
  where
    go : (r : ℕ × Pages) → Tried max_pages 0 p r → Allocated p r
    go (addr, p') (inl (i, lt, e, free, q)) = inl (i, lt, e, free, λ j. rw q refl)
    go (addr, p') (inr (z, same, all)) = inr (
      z,
      same,
      λ i lt. let (k, small, at) = offset_of p i lt in rw at at (all k (omega arith) (omega arith)),
    )

-- Freeing the page that `alloc_page` has just returned, unless that is NULL, makes the bitmap what
-- it was, page by page.
pub free_page-alloc_page :
    (p : Pages) (addr : ℕ) (p' : Pages)
    → alloc_page p ≡ (addr, p')
    → addr ≢ 0
    → (j : ℕ) → (free_page p' addr).bitmap j ≡ p.bitmap j
unfolding free_page
free_page-alloc_page p addr p' e nz j = go (subst (Allocated p) e (alloc_page-Allocated p))
  where
    go : Allocated p (addr, p') → (free_page p' addr).bitmap j ≡ p.bitmap j
    go (inr (z, _, _)) = absurd (nz z)
    go (inl (i, lt, at, free, q)) =
        let page : addr / page_size ≡ i = omega (arith, at) in
        let test : (addr == 0 || not (ltb i max_pages)) ≡ false = ground (arith, nz, lt) in
        rw (page, test) (ground (arith, q j, free))

-- `free_page` makes exactly the page of the address free, whatever the offset in it; NULL and an
-- address beyond the last page change nothing.
pub free_page_lem :
    (p : Pages) (addr j : ℕ)
    → (free_page p addr).bitmap j
      ≡ (if not (addr == 0) && (addr / page_size == j && ltb j max_pages) then 0 else p.bitmap j)
unfolding free_page
free_page_lem p addr j = ground arith
