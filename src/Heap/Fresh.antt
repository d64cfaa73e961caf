-- ===== src/Heap/Fresh.antt =====
-- What a client of `kmalloc` relies on: the payload it gets is large enough, is aligned, and meets
-- no payload or header that is in use; and what was in use stays as it was.
use mathlib.Core.Path.{subst}
use implus_os.Base.{
  ℕ, ◌+◌, ◌-◌, ◌^◌, ◌≤◌, ◌≡◌, ap, ◌≢◌, ◌⊎◌, inl, inr, true, false, not, ◌&&◌, List, [], ◌∷◌, arith,
  Bool-cases, ◌==◌, leb,
}
use implus_os.Heap.{Heap, header_size, min_split_remainder, min_alloc_align, align_up, kmalloc}
use implus_os.Heap.Blocks.{Block, Tiles, has, mark, split, has-Tiles}
use implus_os.Heap.Search.{block_fits, fits_at, fits_at-has}
use implus_os.Heap.Invariant.{IsHeap, used_at, flag_at, size_at, used_apart}
use implus_os.Heap.Kmalloc.{Malloced, taken, kmalloc-align_up, align_up_lem}

-- Addresses are distinct, so the block that fits is the one at its address.
fits-flag :
    (size t a end : ℕ) (bs : List Block)
    → Tiles a end bs
    → fits_at size t bs ≡ true
    → (flag_at t bs ≡ true) × (size ≤ size_at t bs)
fits-flag size t a end [] tiles fits = absurd (cc fits)
fits-flag size t a end (b ∷ bs) tiles fits =
    elim (Bool-cases ((b.addr == t) && block_fits size b)) [
      | inl e ↦ ground (arith, e)
      | inr e ↦
          let later : fits_at size t bs ≡ true = rw e at fits in
          let far =
            has-Tiles t (a + header_size + b.size) end bs tiles.1 (fits_at-has size t bs later) in
          let other : (b.addr == t) ≡ false = ground (arith, far, tiles.0) in
          rw other (fits-flag size t (a + header_size + b.size) end bs tiles.1 later)
    ]

-- A block in use stays in use, with its size, when a free block is taken.
used-taken :
    (t size u s : ℕ) (bs : List Block)
    → flag_at t bs ≡ true
    → used_at u s bs ≡ true
    → used_at u s (taken t size bs) ≡ true
unfolding mark split
used-taken t size u s [] free used = used
used-taken t size u s (b ∷ bs) free used = elim (Bool-cases (b.addr == t)) [
  | inl e ↦ ground (arith, e, free, used)
  | inr e ↦ ground (arith, e, used, free, used-taken t size u s bs)
]

-- The block that is taken is in use then, and is large enough.
taken-used :
    (t size : ℕ) (bs : List Block)
    → flag_at t bs ≡ true
    → size ≤ size_at t bs
    → (s : ℕ) × (size ≤ s) × (used_at t s (taken t size bs) ≡ true)
unfolding mark split
taken-used t size [] free fits = absurd (cc free)
taken-used t size (b ∷ bs) free fits = elim (Bool-cases (b.addr == t)) [
  | inl e ↦ elim (Bool-cases (leb (size + header_size + min_split_remainder) b.size)) [
    | inl big ↦ (size, omega arith, ground (arith, e, big))
    | inr small ↦ (b.size, ground (arith, e, fits), ground (arith, e, small))
  ]
  | inr e ↦
      let (s, le, h) = taken-used t size bs (rw e at free) (rw e at fits) in
      (s, le, ground (arith, e, h))
]

-- A block in use is not free.
pub used-flag :
    (u r a end : ℕ) (bs : List Block)
    → Tiles a end bs
    → used_at u r bs ≡ true
    → (flag_at u bs ≡ false) × (size_at u bs ≡ r) × (has u bs ≡ true)
used-flag u r a end [] tiles used = absurd (cc used)
used-flag u r a end (b ∷ bs) tiles used =
    elim (Bool-cases (((b.addr == u) && (b.size == r)) && not b.is_free)) [
      | inl e ↦ ground (arith, e)
      | inr e ↦
          let later : used_at u r bs ≡ true = rw e at used in
          let (free, size, inside) =
            used-flag u r (a + header_size + b.size) end bs tiles.1 later in
          let far = has-Tiles u (a + header_size + b.size) end bs tiles.1 inside in
          let other : (b.addr == u) ≡ false = ground (arith, far, tiles.0) in
          rw other (free, size, inside)
    ]

-- `p` is the payload of a block in use of at least `size` bytes, apart from the blocks that were in
-- use before, which are as they were.
abbrev pub Fresh : List Block → ℕ → ℕ → Heap → Type 0
Fresh bs size p h' =
    (t : ℕ) × (s : ℕ) × (bs' : List Block) × (p ≡ t + header_size)
    × (size ≤ s)
    × IsHeap h' bs'
    × (used_at t s bs' ≡ true)
    × ((u r : ℕ)
        → used_at u r bs ≡ true
        → (used_at u r bs' ≡ true) × ((t + header_size + s ≤ u) ⊎ (u + header_size + r ≤ t)))

-- `kmalloc` of 1 to 2^32 - 8 bytes, when it returns a pointer `p`, gives a heap that again satisfies
-- the invariant, in which `p` is the payload of a block in use of at least `size` bytes; every block
-- that was in use is in use with the same size, and neither its header nor its payload meets the new
-- block.
pub kmalloc-Fresh :
    {h h' : Heap} {bs : List Block} (size p : ℕ)
    → IsHeap h bs
    → size ≢ 0
    → size ≤ 2 ^ 32 - 8
    → kmalloc h size ≡ (p, h')
    → p ≢ 0
    → Fresh bs size p h'
kmalloc-Fresh {h} {h'} {bs} size p v nz le e nn =
    go (subst (Malloced h bs rounded) e (kmalloc-align_up size v nz))
  where
    rounded : ℕ
    rounded = align_up size min_alloc_align

    go : Malloced h bs rounded (p, h') → Fresh bs size p h'
    go (inl (z, _, _, _)) = absurd (nn z)
    go (inr (t, at, fits, _, v')) =
        let (free, big) = fits-flag rounded t h.start _ bs v.tiles fits in
        let (s, room, live) = taken-used t rounded bs free big in
        (
          t,
          s,
          taken t rounded bs,
          at,
          omega (arith, room, align_up_lem size le),
          v',
          live,
          λ u r used. (
            used-taken t rounded u r bs free used,
            used_apart t s u r h'.start _ (taken t rounded bs) v'.tiles live
                (used-taken t rounded u r bs free used)
                (λ q.
                  cc (ap (λ x. flag_at x bs) q, free, (used-flag u r h.start _ bs v.tiles used).0)),
          ),
        )
