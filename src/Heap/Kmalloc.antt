-- ===== src/Heap/Kmalloc.antt =====
-- `kmalloc` takes a free block that is large enough, and takes nothing only if there is none.
use mathlib.Core.Path.{subst}
use implus_os.Base.{
  ℕ, ◌+◌, ◌-◌, ◌%◌, ◌^◌, ◌≤◌, ◌<◌, ◌≡◌, refl, ◌∙◌, ◌≢◌, ◌⊎◌, inl, inr, Bool, true, false, not, ◌||◌,
  List, [], ◌∷◌, arith, if◌then◌else◌, Bool-cases, ◌==◌, ==→eq,
}
use implus_os.Heap.{
  Heap, Header, header_size, heap_bytes, walk_fuel, min_alloc_align, set_free, align_up,
  split_block_if_needed, take_block, kmalloc_locked, kmalloc, search_from,
}
use implus_os.Heap.Blocks.{Block, Tiles, has, mark, split, mark-Tiles, split-Tiles}
use implus_os.Heap.Chain.{Chain, Chain-mark, Chain-split}
use implus_os.Heap.Search.{fits_at, any_fits, Sought, search_from_lem, fits_at-has}
use implus_os.Heap.Invariant.{IsHeap, enough_fuel}

-- Rounding up to a multiple of 8 does not wrap for a size up to 2^32 - 8.
pub align_up_lem :
    (size : ℕ)
    → size ≤ 2 ^ 32 - 8
    → (size ≤ align_up size min_alloc_align)
      × (align_up size min_alloc_align < size + 8)
      × (align_up size min_alloc_align % 8 ≡ 0)
unfolding align_up
align_up_lem size h = omega arith

pub has-mark : (x t : ℕ) (f : Bool) (bs : List Block) → has x (mark t f bs) ≡ has x bs
unfolding mark
has-mark x t f [] = refl
has-mark x t f (b ∷ bs) = ground (arith, has-mark x t f bs)

has-split : (x t size : ℕ) (bs : List Block) → has x bs ≡ true → has x (split t size bs) ≡ true
unfolding split
has-split x t size [] h = h
has-split x t size (b ∷ bs) h = ground (arith, has-split x t size bs)

-- The `next` of a block is NULL or a block.
next_has :
    (hd : ℕ → Header) (t p : ℕ) (bs : List Block)
    → Chain hd p bs
    → has t bs ≡ true
    → ((hd t).next ≡ 0) ⊎ (has (hd t).next bs ≡ true)
next_has hd t p [] chain h = absurd (cc h)
next_has hd t p (b ∷ bs) chain h = elim (Bool-cases (b.addr == t)) [
  | inl e ↦
      subst (λ q. ((hd q).next ≡ 0) ⊎ (has (hd q).next (b ∷ bs) ≡ true))
        (chain.0 ∙ ==→eq b.addr t e) (second bs chain.3)
  | inr e ↦ elim (next_has hd t (hd p).next bs chain.3 (rw e at h)) [
    | inl z ↦ inl z
    | inr k ↦ inr (ground (arith, k))
  ]
]
  where
    second :
        (cs : List Block)
        → Chain hd (hd p).next cs
        → ((hd p).next ≡ 0) ⊎ (has (hd p).next (b ∷ cs) ≡ true)
    second [] c = inl c
    second (x ∷ cs) c = inr (ground (arith, c.0))

pub start_has :
    (hd : ℕ → Header) (p : ℕ) (bs : List Block) → Chain hd p bs → p ≢ 0 → has p bs ≡ true
start_has hd p [] chain nz = absurd (nz chain)
start_has hd p (b ∷ bs) chain nz = ground (arith, chain.0)

-- A hint that falls back to the first block is NULL or a block.
hint_in :
    (x start : ℕ) (bs : List Block)
    → has start bs ≡ true
    → (x ≡ 0) ⊎ (has x bs ≡ true)
    → ((if x == 0 then start else x) ≡ 0) ⊎ (has (if x == 0 then start else x) bs ≡ true)
hint_in x start bs first h = elim (Bool-cases (x == 0)) [
  | inl e ↦ rw e (inr first)
  | inr e ↦ rw e h
]

-- What is left of the heap when the block at `t` is taken.
abbrev pub taken : ℕ → ℕ → List Block → List Block
taken t size bs = mark t false (split t size bs)

module _ {h : Heap} {bs : List Block} (v : IsHeap h bs) (t size : ℕ)
    (inside : has t bs ≡ true) where
  split_heap-Chain : Chain (split_block_if_needed h.header t size) h.start (split t size bs)
  split_heap-Chain = Chain-split h.header t size h.start h.start _ bs v.tiles v.chain inside v.low

  split_heap-Tiles : Tiles h.start (h.start + heap_bytes) (split t size bs)
  split_heap-Tiles = split-Tiles t size h.start _ bs v.tiles

  taken-Chain :
      Chain (set_free (split_block_if_needed h.header t size) t false) h.start (taken t size bs)
  taken-Chain = Chain-mark _ t false h.start _ _ (split t size bs) split_heap-Tiles split_heap-Chain

  take_block-IsHeap :
      ((take_block h t size).0 ≡ t + header_size) × IsHeap (take_block h t size).1 (taken t size bs)
  unfolding take_block
  take_block-IsHeap = (
    refl,
    record {
      is_ready = v.is_ready;
      non_null = v.non_null;
      chain = taken-Chain;
      tiles = mark-Tiles t false h.start _ (split t size bs) split_heap-Tiles;
      low = v.low;
      hinted =
          hint_in _ h.start (taken t size bs)
            (start_has _ h.start (taken t size bs) taken-Chain v.non_null)
            (next_has _ t h.start (taken t size bs) taken-Chain
              (has-mark t t false (split t size bs) ∙ has-split t t size bs inside));
    },
  )

-- The outcome of an allocation of `size` bytes, a multiple of 8, in a heap of blocks `bs`.
abbrev pub Malloced : Heap → List Block → ℕ → ℕ × Heap → Type 0
Malloced h bs size (p, h') =
    ((p ≡ 0) × (any_fits size bs ≡ false) × IsHeap h' bs × (h'.header ≡ h.header))
    ⊎ ((t : ℕ) × (p ≡ t + header_size)
        × (fits_at size t bs ≡ true)
        × (h'.byte ≡ h.byte)
        × IsHeap h' (taken t size bs))

hinted-IsHeap :
    {h : Heap} {bs : List Block} (x : ℕ)
    → IsHeap h bs
    → has x bs ≡ true
    → IsHeap (record h { hint = x }) bs
hinted-IsHeap x v e = record {
  is_ready = v.is_ready;
  non_null = v.non_null;
  chain = v.chain;
  tiles = v.tiles;
  low = v.low;
  hinted = inr e;
}

byte-take_block : (h : Heap) (t size : ℕ) → (take_block h t size).1.byte ≡ h.byte
unfolding take_block
byte-take_block h t size = refl

-- Behind the search, from a hint that is a block.
found-Malloced :
    {h : Heap} {bs : List Block} (size r : ℕ)
    → IsHeap h bs
    → Sought size bs r
    → Malloced h bs size (if r == 0 then (0, h) else take_block h r size)
found-Malloced size r v (inr (e, miss)) = rw e (inl (refl, miss, v, refl))
found-Malloced {h} {bs} size r v (inl (nz, fits)) =
    let test : (r == 0) ≡ false = ground (arith, nz) in
    let (p, v') = take_block-IsHeap v r size (fits_at-has size r bs fits) in
    rw test (inr (r, p, fits, byte-take_block h r size, v'))

kmalloc_locked-Malloced :
    {h : Heap} {bs : List Block} (size : ℕ)
    → IsHeap h bs
    → Malloced h bs size (kmalloc_locked h size)
unfolding kmalloc_locked
kmalloc_locked-Malloced {h} {bs} size v =
    from_hint (if h.hint == 0 then h.start else h.hint) (among v.hinted) non_zero
  where
    first : has h.start bs ≡ true
    first = start_has h.header h.start bs v.chain v.non_null

    from_hint :
        (x : ℕ)
        → has x bs ≡ true
        → x ≢ 0
        → Malloced
            (record h { hint = x })
            bs
            size
            (let block = search_from walk_fuel h.header h.start x size x false in
              if block == 0
              then (0, record h { hint = x })
              else take_block (record h { hint = x }) block size)
    from_hint x e nz =
        found-Malloced size (search_from walk_fuel h.header h.start x size x false)
          (hinted-IsHeap x v e)
          (search_from_lem walk_fuel h.header h.start x size bs v.chain e nz (enough_fuel v))

    non_zero : (if h.hint == 0 then h.start else h.hint) ≢ 0
    non_zero = ground (arith, v.non_null)

    among :
        (h.hint ≡ 0) ⊎ (has h.hint bs ≡ true)
        → has (if h.hint == 0 then h.start else h.hint) bs ≡ true
    among (inl z) = rw z first
    among (inr e) = elim (Bool-cases (h.hint == 0)) [ inl q ↦ rw q first | inr q ↦ rw q e ]

-- Behind the rounding.
pub kmalloc-align_up :
    {h : Heap} {bs : List Block} (size : ℕ)
    → IsHeap h bs
    → size ≢ 0
    → Malloced h bs (align_up size min_alloc_align) (kmalloc h size)
unfolding kmalloc
kmalloc-align_up {h} {bs} size v nz =
    let ok : (not h.initialized || size == 0) ≡ false = ground (arith, v.is_ready, nz) in
    rw ok (kmalloc_locked-Malloced (align_up size min_alloc_align) v)

-- On a heap that satisfies the invariant, `kmalloc` of 1 to 2^32 - 8 bytes takes a free block that
-- holds the least multiple of 8 that is not below the size, cut to that many bytes where the rest is
-- big enough, and keeps the invariant; it returns NULL only if no block is free and as large, and
-- changes no header then.
pub kmalloc-Malloced :
    {h : Heap} {bs : List Block} (size : ℕ)
    → IsHeap h bs
    → size ≢ 0
    → size ≤ 2 ^ 32 - 8
    → (n : ℕ) × (size ≤ n) × (n < size + 8) × (n % 8 ≡ 0) × Malloced h bs n (kmalloc h size)
kmalloc-Malloced size v nz small =
    let (lo, hi, whole) = align_up_lem size small in
    (align_up size min_alloc_align, lo, hi, whole, kmalloc-align_up size v nz)

align_up_wraps : (size : ℕ) → 2 ^ 32 - 8 < size → size < 2 ^ 32 → align_up size min_alloc_align ≡ 0
unfolding align_up
align_up_wraps size lo hi = omega arith

-- A size above 2^32 - 8 wraps round to 0 when it is rounded up, so `kmalloc` of such a size takes
-- any free block, of no size at all, instead of failing.
pub kmalloc_wraps :
    {h : Heap} {bs : List Block} (size : ℕ)
    → IsHeap h bs
    → 2 ^ 32 - 8 < size
    → size < 2 ^ 32
    → (align_up size min_alloc_align ≡ 0) × Malloced h bs 0 (kmalloc h size)
kmalloc_wraps {h} {bs} size v lo hi =
    let zero_size = align_up_wraps size lo hi in
    (
      zero_size,
      subst (λ n. Malloced h bs n (kmalloc h size)) zero_size
          (kmalloc-align_up size v (omega arith)),
    )
