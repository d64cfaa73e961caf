-- ===== src/Heap/Kfree.antt =====
-- `kfree` of a payload in use takes exactly that block out of use, and joins it with its free
-- neighbours.
use mathlib.Core.Path.{subst}
use implus_os.Base.{
  ℕ, ◌+◌, ◌≤◌, ◌<◌, ◌≡◌, refl, sym, ◌∙◌, ap, ◌≢◌, ◌⊎◌, inl, inr, Bool, true, false, not, ◌&&◌, ◌||◌,
  List, [], ◌∷◌, arith, if◌then◌else◌, Bool-cases, ◌==◌, ltb, leb, ==→eq, update_ne,
}
use implus_os.Heap.{
  Heap, Header, header_size, heap_bytes, walk_fuel, set_free, u32, absorb, absorb_next, free_block,
  free_found, kfree, find_block_by_payload, find_from,
}
use implus_os.Heap.Blocks.{
  Block, Tiles, has, mark, merge, absorbs_free, mark-Tiles, merge-Tiles, has-Tiles,
}
use implus_os.Heap.Chain.{
  Chain, Chain-mark, Chain-merge, absorb_next_other, absorb-eq-absorb_next, first_out,
}
use implus_os.Heap.Walk.{Located, find_from-Located}
use implus_os.Heap.Invariant.{
  IsHeap, used_at, flag_at, size_at, Chain-flag, enough_fuel, used_inside,
}
use implus_os.Heap.Kmalloc.{has-mark}
use implus_os.Heap.Fresh.{used-flag}

has-merge :
    (x t a end : ℕ) (bs : List Block)
    → Tiles a end bs
    → has x bs ≡ true
    → x ≤ t
    → has x (merge t bs) ≡ true
unfolding merge
has-merge x t a end [] tiles h le = h
has-merge x t a end (b ∷ bs) tiles h le = elim (Bool-cases (b.addr == t)) [
  | inl e ↦ elim (Bool-cases (b.addr == x)) [
    | inl q ↦ rw e (head q bs)
    | inr q ↦ absurd (
        omega (
          arith,
          ==→eq b.addr t e,
          tiles.0,
          has-Tiles x (a + header_size + b.size) end bs tiles.1 (rw q at h),
        ))
  ]
  | inr e ↦ rw e (elim (Bool-cases (b.addr == x)) [
    | inl q ↦ rw q refl
    | inr q ↦ rw q (has-merge x t (a + header_size + b.size) end bs tiles.1 (rw q at h) le)
  ])
]
  where
    head : (b.addr == x) ≡ true → (cs : List Block) → has x (absorbs_free b cs) ≡ true
    head q [] = ground (arith, q)
    head q (c ∷ cs) = ground (arith, q)

-- Only free blocks take part in a merge.
used-merge :
    (t u r : ℕ) (bs : List Block) → flag_at t bs ≡ true → used_at u r (merge t bs) ≡ used_at u r bs
unfolding merge
used-merge t u r [] free = refl
used-merge t u r (b ∷ []) free = ground (arith, free)
used-merge t u r (b ∷ c ∷ cs) free = elim (Bool-cases (b.addr == t)) [
  | inl e ↦ ground (arith, e, free)
  | inr e ↦ rw e (
      ap (λ x. (((b.addr == u) && (b.size == r)) && not b.is_free) || x)
        (used-merge t u r (c ∷ cs) (rw e at free)))
]

used-absent : (u r : ℕ) (bs : List Block) → has u bs ≡ false → used_at u r bs ≡ false
used-absent u r [] h = refl
used-absent u r (b ∷ bs) h = ground (arith, h, used-absent u r bs)

used-mark :
    (t u r a end : ℕ) (bs : List Block)
    → Tiles a end bs
    → used_at u r (mark t true bs) ≡ (not (t == u) && used_at u r bs)
unfolding mark
used-mark t u r a end [] tiles = ground arith
used-mark t u r a end (b ∷ bs) tiles = elim (Bool-cases (b.addr == t)) [
  | inl e ↦ ground (arith, e, tiles.0, first_out a end b bs tiles, used-absent a r bs)
  | inr e ↦ ground (arith, e, used-mark t u r (a + header_size + b.size) end bs tiles.1)
]

flag-mark : (t : ℕ) (bs : List Block) → has t bs ≡ true → flag_at t (mark t true bs) ≡ true
unfolding mark
flag-mark t [] h = absurd (cc h)
flag-mark t (b ∷ bs) h = ground (arith, h, flag-mark t bs)

-- A successor lies above.
next_above :
    (hd : ℕ → Header) (q p a end : ℕ) (bs : List Block)
    → Tiles a end bs
    → Chain hd p bs
    → has q bs ≡ true
    → (hd q).next ≢ 0
    → q < (hd q).next
next_above hd q p a end [] tiles chain h nz = absurd (cc h)
next_above hd q p a end (b ∷ bs) tiles chain h nz = elim (Bool-cases (b.addr == q)) [
  | inl e ↦
      subst (λ x. (hd x).next ≢ 0 → x < (hd x).next) (chain.0 ∙ ==→eq b.addr q e)
        (second bs tiles.1 chain.3) nz
  | inr e ↦
      next_above hd q (hd p).next (a + header_size + b.size) end bs tiles.1 chain.3 (rw e at h) nz
]
  where
    second :
        (cs : List Block)
        → Tiles (a + header_size + b.size) end cs
        → Chain hd (hd p).next cs
        → (hd p).next ≢ 0
        → p < (hd p).next
    second [] t c z = absurd (z c)
    second (x ∷ cs) t c z = omega (arith, c.0, t.0, chain.0, tiles.0)

-- The heap behind a call of `kfree` on the payload of the block at `t`: the same blocks are in use,
-- but that one.
abbrev pub Freed : List Block → ℕ → Heap → Type 0
Freed bs t h' =
    (bs' : List Block) × IsHeap h' bs'
    × ((u r : ℕ) → used_at u r bs' ≡ (not (t == u) && used_at u r bs))

module _ {h : Heap} {bs : List Block} (v : IsHeap h bs) (t : ℕ) (inside : has t bs ≡ true) where
  abbrev end : ℕ
  end = h.start + heap_bytes

  -- The block is marked, and joined with its successor.
  abbrev hd₁ : ℕ → Header
  hd₁ = set_free h.header t true

  abbrev bs₁ : List Block
  bs₁ = mark t true bs

  abbrev hd₂ : ℕ → Header
  hd₂ = absorb_next hd₁ t

  abbrev bs₂ : List Block
  bs₂ = merge t bs₁

  tiles₁ : Tiles h.start end bs₁
  tiles₁ = mark-Tiles t true h.start end bs v.tiles

  chain₁ : Chain hd₁ h.start bs₁
  chain₁ = Chain-mark h.header t true h.start h.start end bs v.tiles v.chain

  tiles₂ : Tiles h.start end bs₂
  tiles₂ = merge-Tiles t h.start end bs₁ tiles₁

  chain₂ : Chain hd₂ h.start bs₂
  chain₂ = Chain-merge hd₁ t h.start h.start end bs₁ tiles₁ chain₁ v.low

  inside₁ : has t bs₁ ≡ true
  inside₁ = has-mark t t true bs ∙ inside

  used₂ : (u r : ℕ) → used_at u r bs₂ ≡ (not (t == u) && used_at u r bs)
  used₂ u r = used-merge t u r bs₁ (flag-mark t bs inside) ∙ used-mark t u r h.start end bs v.tiles

  inside₂ : (x : ℕ) → has x bs ≡ true → x ≤ t → has x bs₂ ≡ true
  inside₂ x e le = has-merge x t h.start end bs₁ tiles₁ (has-mark x t true bs ∙ e) le

  -- Without a free predecessor.
  apart-Freed : (n : ℕ) → Freed bs t (record h { header = hd₂; total_freed = n; hint = t })
  apart-Freed n = (
    bs₂,
    record {
      is_ready = v.is_ready;
      non_null = v.non_null;
      chain = chain₂;
      tiles = tiles₂;
      low = v.low;
      hinted = inr (inside₂ t inside (omega arith));
    },
    used₂,
  )

  -- With one, which the marked block is joined to.
  module _ (q : ℕ) (q_inside : has q bs ≡ true) (nz : t ≢ 0) (at : (h.header q).next ≡ t)
      (free : (hd₂ q).is_free ≡ true) where
    below : q < t
    below =
        subst (λ x. q < x) at
          (next_above h.header q h.start h.start end bs v.tiles v.chain q_inside
            (λ z. nz (sym at ∙ z)))

    header_kept : hd₂ q ≡ h.header q
    header_kept =
        absorb_next_other hd₁ t q (λ e. absurd (omega (arith, e, below)))
        ∙ update_ne h.header t q (record (h.header t) { is_free = true })
            (λ e. absurd (omega (arith, e, below)))

    marked_free : (hd₂ t).is_free ≡ true
    unfolding absorb_next
    marked_free = ground arith

    joined : absorb hd₂ q t ≡ absorb_next hd₂ q
    joined =
        absorb-eq-absorb_next hd₂ q t (ap (λ (x : Header). x.next) header_kept ∙ at) nz marked_free

    joined-Freed :
        (n : ℕ) → Freed bs t (record h { header = absorb hd₂ q t; total_freed = n; hint = q })
    joined-Freed n =
        let here : has q bs₂ ≡ true = inside₂ q q_inside (omega (arith, below)) in
        let flag : flag_at q bs₂ ≡ true = sym (Chain-flag hd₂ q h.start bs₂ chain₂ here) ∙ free in
        rw joined (
          merge q bs₂,
          record {
            is_ready = v.is_ready;
            non_null = v.non_null;
            chain = Chain-merge hd₂ q h.start h.start end bs₂ tiles₂ chain₂ v.low;
            tiles = merge-Tiles q h.start end bs₂ tiles₂;
            low = v.low;
            hinted = inr (has-merge q q h.start end bs₂ tiles₂ here (omega arith));
          },
          λ u r. used-merge q u r bs₂ flag ∙ used₂ u r,
        )

  abbrev outcome : ℕ → Bool → Heap
  outcome q joins = record h {
    header = if joins then absorb hd₂ q t else hd₂;
    total_freed = u32 (h.total_freed + (h.header t).size);
    hint = if joins then q else t;
  }

  free_block-Freed :
      (q : ℕ)
      → t ≢ 0
      → (q ≡ 0) ⊎ ((has q bs ≡ true) × (q ≢ 0) × ((h.header q).next ≡ t))
      → Freed bs t (free_block h t q)
  unfolding free_block
  free_block-Freed q nz (inl z) =
      subst (λ x. Freed bs t (free_block h t x)) (sym z) (unfold free_block in apart-Freed _)
  free_block-Freed q nz (inr (inside_q, qz, at)) =
      let some_block : (q == 0) ≡ false = ground (arith, qz) in
      elim (Bool-cases (hd₂ q).is_free) [
        | inl f ↦
            let e : (not (q == 0) && (hd₂ q).is_free) ≡ true = ground (arith, some_block, f) in
            subst (λ j. Freed bs t (outcome q j)) (sym e) (joined-Freed q inside_q nz at f _)
        | inr f ↦
            let e : (not (q == 0) && (hd₂ q).is_free) ≡ false = ground (arith, some_block, f) in
            subst (λ j. Freed bs t (outcome q j)) (sym e) (apart-Freed _)
      ]

-- On a heap that satisfies the invariant, `kfree` of the payload of a block in use, of at least one
-- byte, keeps the invariant and takes exactly that block out of use: every other block in use stays
-- so, at its address and with its size.
pub kfree-Freed :
    {h : Heap} {bs : List Block} (t s : ℕ)
    → IsHeap h bs
    → used_at t s bs ≡ true
    → 0 < s
    → Freed bs t (kfree h (t + header_size))
unfolding kfree find_block_by_payload
kfree-Freed {h} {bs} t s v used pos = rw checks (
    go (find_from walk_fuel h.header (t + header_size) 0 h.start) (
      find_from-Located walk_fuel h.header (t + header_size) 0 h.start bs v.chain
        (omega (arith, enough_fuel v))))
  where
    live : (flag_at t bs ≡ false) × (size_at t bs ≡ s) × (has t bs ≡ true)
    live = used-flag t s h.start _ bs v.tiles used

    checks :
        (((t + header_size == 0) || (not h.initialized || h.start == 0))
          || (ltb (t + header_size) (h.start + header_size)
              || leb (h.start + heap_bytes) (t + header_size)))
        ≡ false
    checks = ground (arith, v.is_ready, v.non_null, used_inside t s h.start _ bs v.tiles used, pos)

    not_free : (h.header t).is_free ≡ false
    not_free = Chain-flag h.header t h.start bs v.chain live.2 ∙ live.0

    predecessor :
        (block before : ℕ)
        → block ≡ t
        → ((block ≡ h.start) × (before ≡ 0))
          ⊎ ((has before bs ≡ true) × (before ≢ 0) × ((h.header before).next ≡ block))
        → (before ≡ 0) ⊎ ((has before bs ≡ true) × (before ≢ 0) × ((h.header before).next ≡ t))
    predecessor block before e (inl (_, z)) = inl z
    predecessor block before e (inr (i, nz, at)) = inr (i, nz, at ∙ e)

    go :
        (r : ℕ × ℕ)
        → Located h.header (t + header_size) 0 h.start bs r
        → Freed bs t (free_found h r)
    go (block, before) (inl (_, all)) = absurd (all t live.2 refl)
    go (block, before) (inr (_, nz, at, pre)) =
        let e : block ≡ t = omega (arith, at) in
        let test : (t == 0 || (h.header t).is_free) ≡ false = ground (arith, not_free, nz, e) in
        subst (λ b. Freed bs t (free_found h (b, before))) (sym e)
          (rw test
            (free_block-Freed v t live.2 before (λ z. nz (e ∙ z)) (predecessor block before e pre)))
