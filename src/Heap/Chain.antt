-- ===== src/Heap/Chain.antt =====
-- The linked list of headers stands for a list of blocks, and each change of the headers for the
-- change of the blocks that `Blocks.antt` describes.
use implus_os.Base.{
  ℕ, ◌+◌, ◌-◌, ◌^◌, ◌≤◌, ◌<◌, ◌≡◌, refl, sym, ◌∙◌, ap, ◌≢◌, inl, inr, Bool, true, false, not, ◌&&◌,
  List, [], ◌∷◌, arith, Bool-cases, ◌==◌, leb, leb→le, ==→eq, eq→==, update, update_self, update_ne,
}
use mathlib.Core.Path.{subst}
use implus_os.Heap.{
  Header, header_size, min_split_remainder, set_free, split_block_if_needed, absorb, absorb_next,
  u32,
}
use implus_os.Heap.Blocks.{
  Block, Tiles, has, mark, split, merge, absorbs_free, cut, has-Tiles, not_has_below, Tiles-le,
}

-- The header stands for the block.
abbrev pub IsHeader : Header → Block → Type 0
IsHeader x b = (x.size ≡ b.size) × (x.is_free ≡ b.is_free)

-- From `a` on the `next` pointers lead through the headers of the blocks to NULL.
abbrev pub Chain : (ℕ → Header) → ℕ → List Block → Type 0
Chain hd a [] = a ≡ 0
Chain hd a (b ∷ bs) = (a ≡ b.addr) × (a ≢ 0) × IsHeader (hd a) b × Chain hd (hd a).next bs

-- What a missing address says of the first block and of the others.
pub out_of_cons :
    (t : ℕ) (b : Block) (bs : List Block)
    → has t (b ∷ bs) ≡ false
    → (t ≢ b.addr) × (has t bs ≡ false)
out_of_cons t b bs out = elim (Bool-cases (b.addr == t)) [
  | inl e ↦ absurd (cc (rw e at out))
  | inr e ↦ (λ q. cc (e, eq→== b.addr t (sym q)), rw e at out)
]

-- A write at an address that no block has leaves the chain.
pub Chain-update :
    (hd : ℕ → Header) (t : ℕ) (x : Header) (a : ℕ) (bs : List Block)
    → has t bs ≡ false
    → Chain hd a bs
    → Chain (update hd t x) a bs
Chain-update hd t x a [] out chain = chain
Chain-update hd t x a (b ∷ bs) out chain =
    let (ne, out') = out_of_cons t b bs out in
    let e : update hd t x a ≡ hd a = update_ne hd t a x (λ q. ne (q ∙ chain.0)) in
    (chain.0, chain.1, rw e chain.2, rw e (Chain-update hd t x (hd a).next bs out' chain.3))

-- The chain of what follows, where the first header is written anew and the others are not.
pub Chain-cons :
    (hd : ℕ → Header) (x : Header) (b : Block) (p : ℕ) (bs : List Block)
    → (p ≡ b.addr)
    → (p ≢ 0)
    → IsHeader x b
    → has p bs ≡ false
    → Chain hd x.next bs
    → Chain (update hd p x) p (b ∷ bs)
Chain-cons hd x b p bs at ne is out chain =
    let e : update hd p x p ≡ x = update_self hd p x in
    (at, ne, rw e is, rw e (Chain-update hd p x x.next bs out chain))

-- A change of one header that leaves the one at `p` alone, beside a change of the blocks behind it.
pub Chain-keep :
    (hd hd' : ℕ → Header) (b : Block) (p : ℕ) (bs cs : List Block)
    → hd' p ≡ hd p
    → Chain hd p (b ∷ bs)
    → Chain hd' (hd p).next cs
    → Chain hd' p (b ∷ cs)
Chain-keep hd hd' b p bs cs e chain rest = (chain.0, chain.1, rw e chain.2, rw e rest)

-- In a chain that tiles a range, the first address is none of the others.
pub first_out : (a end : ℕ) (b : Block) (bs : List Block) → Tiles a end (b ∷ bs) → has a bs ≡ false
first_out a end b bs tiles = not_has_below a (a + header_size + b.size) end bs tiles.1 (omega arith)

pub first_gone :
    (p a end : ℕ) (b : Block) (bs : List Block)
    → Tiles a end (b ∷ bs)
    → p ≡ b.addr
    → has p bs ≡ false
first_gone p a end b bs tiles at = rw (at ∙ tiles.0) (first_out a end b bs tiles)

-- A block other than `t` is not at `t`.
pub elsewhere : {p t : ℕ} (b : Block) → p ≡ b.addr → (b.addr == t) ≡ false → t ≢ p
elsewhere {p} {t} b at e q = cc (e, eq→== b.addr t (sym (q ∙ at)))

module _ (hd : ℕ → Header) (t : ℕ) where
  pub Chain-mark :
      (f : Bool) (p a end : ℕ) (bs : List Block)
      → Tiles a end bs
      → Chain hd p bs
      → Chain (set_free hd t f) p (mark t f bs)
  unfolding mark
  Chain-mark f p a end [] tiles chain = chain
  Chain-mark f p a end (b ∷ bs) tiles chain = elim (Bool-cases (b.addr == t)) [
    | inl e ↦
        let q : p ≡ t = chain.0 ∙ ==→eq b.addr t e in
        rw e (
          subst (λ t'. Chain (set_free hd t' f) p (record b { is_free = f } ∷ bs)) q
            (Chain-cons hd (record (hd p) { is_free = f }) (record b { is_free = f }) p bs chain.0
              chain.1 (chain.2.0, refl) (first_gone p a end b bs tiles chain.0) chain.3))
    | inr e ↦ rw e (
        Chain-keep hd (set_free hd t f) b p bs (mark t f bs)
          (update_ne hd t p _ (elsewhere b chain.0 e)) chain
          (Chain-mark f (hd p).next (a + header_size + b.size) end bs tiles.1 chain.3))
  ]

-- Splitting writes a header into the payload of the block that is split, and shortens that.
Chain-cut :
    (hd : ℕ → Header) (size p a end : ℕ) (b : Block) (bs : List Block)
    → Tiles a end (b ∷ bs)
    → Chain hd p (b ∷ bs)
    → end < 2 ^ 32
    → Chain (split_block_if_needed hd p size) p (cut size b bs)
unfolding split_block_if_needed
Chain-cut hd size p a end b bs tiles chain small =
    elim (Bool-cases (leb (size + header_size + min_split_remainder) b.size)) [
      | inr e ↦ rw (chain.2.0, e) chain
      | inl e ↦
          let fits : size + header_size + min_split_remainder ≤ b.size = leb→le _ _ e in
          let top : a + header_size + b.size ≤ end = Tiles-le _ end bs tiles.1 in
          let at : p ≡ a = chain.0 ∙ tiles.0 in
          let nb = p + header_size + size in
          let rest : Block = record {
            addr = b.addr + header_size + size;
            size = b.size - size - header_size;
            is_free = true;
          } in
          let x : Header = record {
            size = u32 (b.size - size - header_size);
            is_free = true;
            next = (hd p).next;
          } in
          let y : Header = record { size = size; is_free = (hd p).is_free; next = nb } in
          let gone = first_gone p a end b bs tiles chain.0 in
          let inner : Chain (update hd nb x) nb (rest ∷ bs) =
            Chain-cons hd x rest nb bs (omega (arith, chain.0)) (omega arith)
              (omega (arith, top, small), refl)
              (not_has_below nb _ end bs tiles.1 (omega (arith, at, fits))) chain.3 in
          rw (chain.2.0, e)
            (Chain-cons (update hd nb x) y (record b { size = size }) p (rest ∷ bs) chain.0 chain.1
              (refl, chain.2.1) (ground (arith, gone, chain.0)) inner)
    ]

split_other : (hd : ℕ → Header) (t size p : ℕ) → p < t → split_block_if_needed hd t size p ≡ hd p
unfolding split_block_if_needed
split_other hd t size p lt = ground arith

pub Chain-split :
    (hd : ℕ → Header) (t size p a end : ℕ) (bs : List Block)
    → Tiles a end bs
    → Chain hd p bs
    → has t bs ≡ true
    → end < 2 ^ 32
    → Chain (split_block_if_needed hd t size) p (split t size bs)
unfolding split
Chain-split hd t size p a end [] tiles chain h small = absurd (cc h)
Chain-split hd t size p a end (b ∷ bs) tiles chain h small = elim (Bool-cases (b.addr == t)) [
  | inl e ↦
      let q : p ≡ t = chain.0 ∙ ==→eq b.addr t e in
      rw e (
        subst (λ t'. Chain (split_block_if_needed hd t' size) p (cut size b bs)) q
          (Chain-cut hd size p a end b bs tiles chain small))
  | inr e ↦
      let h' : has t bs ≡ true = rw e at h in
      let far = has-Tiles t (a + header_size + b.size) end bs tiles.1 h' in
      rw e (
        Chain-keep hd (split_block_if_needed hd t size) b p bs (split t size bs)
          (split_other hd t size p (omega (arith, far, chain.0, tiles.0))) chain
          (Chain-split hd t size (hd p).next (a + header_size + b.size) end bs tiles.1 chain.3 h'
            small))
]

-- Absorbing a free successor unlinks its header.
Chain-absorbs :
    (hd : ℕ → Header) (p a end : ℕ) (b : Block) (bs : List Block)
    → Tiles a end (b ∷ bs)
    → Chain hd p (b ∷ bs)
    → end < 2 ^ 32
    → Chain (absorb_next hd p) p (absorbs_free b bs)
unfolding absorb_next
Chain-absorbs hd p a end b [] tiles chain small = rw chain.3 chain
Chain-absorbs hd p a end b (c ∷ cs) tiles chain small = elim (Bool-cases c.is_free) [
  | inl e ↦
      let next = (hd p).next in
      let test : (not (next == 0) && (hd next).is_free) ≡ true =
        ground (arith, chain.3.1, chain.3.2.1, e) in
      let top = Tiles-le _ end cs tiles.1.1 in
      rw (test, e)
        (Chain-cons hd _ (record b { size = b.size + header_size + c.size }) p cs chain.0 chain.1
          (omega (arith, chain.2.0, chain.3.2.0, top, small), chain.2.1)
          (not_has_below p _ end cs tiles.1.1 (omega (arith, chain.0, tiles.0))) chain.3.3)
  | inr e ↦
      let next = (hd p).next in
      let test : (not (next == 0) && (hd next).is_free) ≡ false =
        ground (arith, chain.3.1, chain.3.2.1, e) in
      rw test (rw e (rw e at chain))
]

pub absorb_next_other : (hd : ℕ → Header) (t p : ℕ) → t ≢ p → absorb_next hd t p ≡ hd p
unfolding absorb_next
absorb_next_other hd t p ne = ground arith

-- `absorb_next` at a block of the chain merges that block with its successor, if that is free.
pub Chain-merge :
    (hd : ℕ → Header) (t p a end : ℕ) (bs : List Block)
    → Tiles a end bs
    → Chain hd p bs
    → end < 2 ^ 32
    → Chain (absorb_next hd t) p (merge t bs)
unfolding merge
Chain-merge hd t p a end [] tiles chain small = chain
Chain-merge hd t p a end (b ∷ bs) tiles chain small = elim (Bool-cases (b.addr == t)) [
  | inl e ↦
      let q : p ≡ t = chain.0 ∙ ==→eq b.addr t e in
      rw e (
        subst (λ t'. Chain (absorb_next hd t') p (absorbs_free b bs)) q
          (Chain-absorbs hd p a end b bs tiles chain small))
  | inr e ↦ rw e (
      Chain-keep hd (absorb_next hd t) b p bs (merge t bs)
        (absorb_next_other hd t p (elsewhere b chain.0 e)) chain
        (Chain-merge hd t (hd p).next (a + header_size + b.size) end bs tiles.1 chain.3 small))
]

-- Where the successor is known to be `next` and free, the code writes the header without a test.
pub absorb-eq-absorb_next :
    (hd : ℕ → Header) (t next : ℕ)
    → (hd t).next ≡ next
    → next ≢ 0
    → (hd next).is_free ≡ true
    → absorb hd t next ≡ absorb_next hd t
unfolding absorb_next
absorb-eq-absorb_next hd t next e ne free =
    let test : (not ((hd t).next == 0) && (hd (hd t).next).is_free) ≡ true =
      rw e (ground (arith, ne, free)) in
    rw test (ap (absorb hd t) (sym e))
