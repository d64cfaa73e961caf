-- ===== src/Heap/Blocks.antt =====
-- The heap as a list of blocks in address order: what the headers and `next` pointers stand for.
-- The three changes that the code makes to it: mark a block, split it, let it absorb its successor.
use implus_os.Base.{
  ℕ, ◌+◌, ◌-◌, ◌≤◌, ◌<◌, ◌≡◌, refl, inl, inr, Bool, true, false, ◌||◌, List, [], ◌∷◌, arith,
  if◌then◌else◌, Bool-cases, ◌==◌, leb, ==→eq,
}
use mathlib.Core.Path.{subst}
use implus_os.Heap.{header_size, min_split_remainder}

pub record Block : Type 0 where
  pub addr : ℕ
  pub size : ℕ
  pub is_free : Bool

-- The blocks fill the bytes from `a` up to `end`, without a gap and without an overlap.
abbrev pub Tiles : ℕ → ℕ → List Block → Type 0
Tiles a end [] = a ≡ end
Tiles a end (b ∷ bs) = (b.addr ≡ a) × Tiles (a + header_size + b.size) end bs

-- There is a block at the address.
abbrev pub has : ℕ → List Block → Bool
has t [] = false
has t (b ∷ bs) = (b.addr == t) || has t bs

-- The block at `t` is marked as free or used.
unfoldable pub mark : ℕ → Bool → List Block → List Block
mark t f [] = []
mark t f (b ∷ bs) = if b.addr == t then record b { is_free = f } ∷ bs else b ∷ mark t f bs

-- `b` is cut behind `size` bytes of payload, if enough is left for another block.
abbrev pub cut : ℕ → Block → List Block → List Block
cut size b bs =
    if leb (size + header_size + min_split_remainder) b.size
    then record b { size = size }
      ∷ (record {
        addr = b.addr + header_size + size;
        size = b.size - size - header_size;
        is_free = true;
      }
          ∷ bs)
    else b ∷ bs

-- The block at `t` is cut.
unfoldable pub split : ℕ → ℕ → List Block → List Block
split t size [] = []
split t size (b ∷ bs) = if b.addr == t then cut size b bs else b ∷ split t size bs

-- Whether the first block is free.
abbrev pub free_first : List Block → Bool
free_first [] = false
free_first (c ∷ cs) = c.is_free

-- `b` absorbs the first of the blocks behind it.
abbrev pub absorbs : Block → List Block → List Block
absorbs b [] = b ∷ []
absorbs b (c ∷ cs) = record b { size = b.size + header_size + c.size } ∷ cs

abbrev pub absorbs_free : Block → List Block → List Block
absorbs_free b bs = if free_first bs then absorbs b bs else b ∷ bs

-- The block at `t` absorbs its successor, if that is free.
unfoldable pub merge : ℕ → List Block → List Block
merge t [] = []
merge t (b ∷ bs) = if b.addr == t then absorbs_free b bs else b ∷ merge t bs

pub Tiles-le : (a end : ℕ) (bs : List Block) → Tiles a end bs → a ≤ end
Tiles-le a end [] tiles = omega arith
Tiles-le a end (b ∷ bs) tiles = omega (arith, Tiles-le (a + header_size + b.size) end bs tiles.1)

-- Blocks that tile a range lie inside it.
pub has-Tiles :
    (t a end : ℕ) (bs : List Block)
    → Tiles a end bs
    → has t bs ≡ true
    → (a ≤ t) × (t + header_size ≤ end)
has-Tiles t a end [] tiles h = absurd (cc h)
has-Tiles t a end (b ∷ bs) tiles h = elim (Bool-cases (b.addr == t)) [
  | inl e ↦
      let q : b.addr ≡ t = ==→eq b.addr t e in
      omega (arith, q, Tiles-le (a + header_size + b.size) end bs tiles.1)
  | inr e ↦ omega (arith, has-Tiles t (a + header_size + b.size) end bs tiles.1 (rw e at h))
]

-- The same range, with its start written another way.
pub Tiles-at : {a a' : ℕ} (end : ℕ) (bs : List Block) → a ≡ a' → Tiles a end bs → Tiles a' end bs
Tiles-at end bs e tiles = subst (λ x. Tiles x end bs) e tiles

pub not_has_below : (t a end : ℕ) (bs : List Block) → Tiles a end bs → t < a → has t bs ≡ false
not_has_below t a end [] tiles h = refl
not_has_below t a end (b ∷ bs) tiles h =
    ground (arith, not_has_below t (a + header_size + b.size) end bs tiles.1 (omega arith))

pub mark-Tiles :
    (t : ℕ) (f : Bool) (a end : ℕ) (bs : List Block) → Tiles a end bs → Tiles a end (mark t f bs)
unfolding mark
mark-Tiles t f a end [] tiles = tiles
mark-Tiles t f a end (b ∷ bs) tiles = elim (Bool-cases (b.addr == t)) [
  | inl h ↦ rw h tiles
  | inr h ↦ rw h (tiles.0, mark-Tiles t f (a + header_size + b.size) end bs tiles.1)
]

pub split-Tiles :
    (t size a end : ℕ) (bs : List Block) → Tiles a end bs → Tiles a end (split t size bs)
unfolding split
split-Tiles t size a end [] tiles = tiles
split-Tiles t size a end (b ∷ bs) tiles = elim (Bool-cases (b.addr == t)) [
  | inl h ↦ rw h (elim (Bool-cases (leb (size + header_size + min_split_remainder) b.size)) [
    | inl big ↦ rw big (tiles.0, (omega arith, Tiles-at end bs (ground arith) tiles.1))
    | inr small ↦ rw small tiles
  ])
  | inr h ↦ rw h (tiles.0, split-Tiles t size (a + header_size + b.size) end bs tiles.1)
]

absorbs-Tiles :
    (b : Block) (a end : ℕ) (bs : List Block) → Tiles a end (b ∷ bs) → Tiles a end (absorbs b bs)
absorbs-Tiles b a end [] tiles = tiles
absorbs-Tiles b a end (c ∷ cs) tiles = (tiles.0, Tiles-at end cs (omega arith) tiles.1.1)

pub merge-Tiles : (t a end : ℕ) (bs : List Block) → Tiles a end bs → Tiles a end (merge t bs)
unfolding merge
merge-Tiles t a end [] tiles = tiles
merge-Tiles t a end (b ∷ bs) tiles = elim (Bool-cases (b.addr == t)) [
  | inl h ↦ rw h (elim (Bool-cases (free_first bs)) [
    | inl f ↦ rw f (absorbs-Tiles b a end bs tiles)
    | inr f ↦ rw f tiles
  ])
  | inr h ↦ rw h (tiles.0, merge-Tiles t (a + header_size + b.size) end bs tiles.1)
]
