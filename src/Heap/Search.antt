-- ===== src/Heap/Search.antt =====
-- The search of `kmalloc_locked`, which starts at the hint and goes round the list once.
use implus_os.Base.{
  ℕ, zero, suc, ◌+◌, ◌≤◌, ◌<◌, ◌≡◌, refl, sym, ◌∙◌, ◌≢◌, ◌⊎◌, inl, inr, Bool, true, false, ◌&&◌,
  ◌||◌, List, [], ◌∷◌, ◌++◌, arith, if◌then◌else◌, Bool-cases, ◌==◌, leb, ==→eq, eq→==, length,
}
use mathlib.Core.Path.{subst}
use implus_os.Heap.{Header, search_from}
use implus_os.Heap.Blocks.{Block, has}
use implus_os.Heap.Chain.{Chain}

abbrev pub block_fits : ℕ → Block → Bool
block_fits size b = b.is_free && leb size b.size

abbrev pub any_fits : ℕ → List Block → Bool
any_fits size [] = false
any_fits size (b ∷ bs) = block_fits size b || any_fits size bs

-- The block at `t` is free and large enough.
abbrev pub fits_at : ℕ → ℕ → List Block → Bool
fits_at size t [] = false
fits_at size t (b ∷ bs) = ((b.addr == t) && block_fits size b) || fits_at size t bs

-- The blocks in front of the one at `s`, and those from it on.
pub before : ℕ → List Block → List Block
before s [] = []
before s (b ∷ bs) = if b.addr == s then [] else b ∷ before s bs

pub from : ℕ → List Block → List Block
from s [] = []
from s (b ∷ bs) = if b.addr == s then b ∷ bs else from s bs

-- A search over some blocks takes one that fits, or none of them fits.
abbrev pub Sought : ℕ → List Block → ℕ → Type 0
Sought size bs r = ((r ≢ 0) × (fits_at size r bs ≡ true)) ⊎ ((r ≡ 0) × (any_fits size bs ≡ false))

Sought-found :
    (size p : ℕ) (b : Block) (bs : List Block)
    → p ≡ b.addr
    → p ≢ 0
    → block_fits size b ≡ true
    → Sought size (b ∷ bs) p
Sought-found size p b bs at nz fits = inl (nz, ground (arith, at, fits))

Sought-cons :
    (size r : ℕ) (b : Block) (bs : List Block)
    → block_fits size b ≡ false
    → Sought size bs r
    → Sought size (b ∷ bs) r
Sought-cons size r b bs miss (inl (nz, h)) = inl (nz, rw h (ground arith))
Sought-cons size r b bs miss (inr (e, h)) = inr (e, rw (miss, h))

-- The test of the loop at a block of the chain.
test-fits :
    (hd : ℕ → Header) (size p : ℕ) (b : Block) (bs : List Block)
    → Chain hd p (b ∷ bs)
    → ((hd p).is_free && leb size (hd p).size) ≡ block_fits size b
test-fits hd size p b bs chain = rw (chain.2.0, chain.2.1) refl

-- The steps of the loop at a block that is not the end of the list.
module _ (fuel : ℕ) (hd : ℕ → Header) (heap_start start size p : ℕ) (nz : (p == 0) ≡ false) where
  search_from-hit :
      (w : Bool)
      → ((hd p).is_free && leb size (hd p).size) ≡ true
      → search_from (suc fuel) hd heap_start start size p w ≡ p
  unfolding search_from
  search_from-hit w e = rw (nz, e, search_from)

  module _ (e : ((hd p).is_free && leb size (hd p).size) ≡ false) where
    search_from-stop :
        ((hd p).next == start) ≡ true → search_from (suc fuel) hd heap_start start size p true ≡ 0
    unfolding search_from
    search_from-stop q = ground (arith, nz, e, q)

    search_from-on :
        ((hd p).next == start) ≡ false
        → search_from (suc fuel) hd heap_start start size p true
          ≡ search_from fuel hd heap_start start size (hd p).next true
    unfolding search_from
    search_from-on q = ground (arith, nz, e, q)

    search_from-next :
        ((hd p).next == 0) ≡ false
        → search_from (suc fuel) hd heap_start start size p false
          ≡ search_from fuel hd heap_start start size (hd p).next false
    unfolding search_from
    search_from-next q = ground (arith, nz, e, q)

    search_from-wrap_stop :
        ((hd p).next == 0) ≡ true
        → (heap_start == start) ≡ true
        → search_from (suc fuel) hd heap_start start size p false ≡ 0
    unfolding search_from
    search_from-wrap_stop q r = ground (arith, nz, e, q, r)

    search_from-wrap :
        ((hd p).next == 0) ≡ true
        → (heap_start == start) ≡ false
        → search_from (suc fuel) hd heap_start start size p false
          ≡ search_from fuel hd heap_start start size heap_start true
    unfolding search_from
    search_from-wrap q r = ground (arith, nz, e, q, r)

module _ (hd : ℕ → Header) (heap_start start size : ℕ) where
  nothing_before :
      (p : ℕ) (cs : List Block) → Chain hd p cs → p ≡ start → Sought size (before start cs) 0
  unfolding before
  nothing_before p [] c q = inr (refl, refl)
  nothing_before p (x ∷ cs) c q = rw (eq→== x.addr start (sym c.0 ∙ q)) (inr (refl, refl))

  -- Behind the wrap the loop goes through the blocks in front of `start`.
  search_from-wrapped :
      (fuel p : ℕ) (bs : List Block)
      → Chain hd p bs
      → has start bs ≡ true
      → p ≢ start
      → length bs < fuel
      → Sought size (before start bs) (search_from fuel hd heap_start start size p true)
  unfolding before
  search_from-wrapped zero p bs chain h ne lt = absurd (omega arith)
  search_from-wrapped (suc fuel) p [] chain h ne lt = absurd (cc h)
  search_from-wrapped (suc fuel) p (b ∷ bs) chain h ne lt =
      rw other (elim (Bool-cases (block_fits size b)) [
        | inl fits ↦
            subst (Sought size (b ∷ before start bs))
              (sym (search_from-hit fuel hd heap_start start size p nz true (test ∙ fits)))
              (Sought-found size p b (before start bs) chain.0 chain.1 fits)
        | inr miss ↦
            Sought-cons size _ b (before start bs) miss (elim (Bool-cases ((hd p).next == start)) [
              | inl q ↦
                  subst (Sought size (before start bs))
                    (sym (search_from-stop fuel hd heap_start start size p nz (test ∙ miss) q))
                    (nothing_before (hd p).next bs chain.3 (==→eq _ _ q))
              | inr q ↦
                  subst (Sought size (before start bs))
                    (sym (search_from-on fuel hd heap_start start size p nz (test ∙ miss) q))
                    (search_from-wrapped fuel (hd p).next bs chain.3 (rw other at h)
                      (λ r. cc (q, eq→== _ _ r)) (omega arith))
            ])
      ])
    where
      nz : (p == 0) ≡ false
      nz = ground (arith, chain.1)

      other : (b.addr == start) ≡ false
      other = ground (arith, chain.0, ne)

      test : ((hd p).is_free && leb size (hd p).size) ≡ block_fits size b
      test = test-fits hd size p b bs chain

  -- From `start` on the loop goes to the end of the list, and then through the blocks in front.
  search_from-Sought :
      (all : List Block)
      → Chain hd heap_start all
      → has start all ≡ true
      → (fuel p : ℕ) (bs : List Block) → Chain hd p bs
      → p ≢ 0
      → length bs + length all < fuel
      → Sought size (bs ++ before start all) (search_from fuel hd heap_start start size p false)
  search_from-Sought all chain h zero p bs c nz lt = absurd (omega arith)
  search_from-Sought all chain h (suc fuel) p [] c nz lt = absurd (nz c)
  search_from-Sought all chain h (suc fuel) p (b ∷ bs) c nz lt =
      elim (Bool-cases (block_fits size b)) [
        | inl fits ↦
            subst (Sought size (b ∷ bs ++ before start all))
              (sym (search_from-hit fuel hd heap_start start size p nz' false (test ∙ fits)))
              (Sought-found size p b (bs ++ before start all) c.0 c.1 fits)
        | inr miss ↦
            Sought-cons size _ b (bs ++ before start all) miss
              (elim (Bool-cases ((hd p).next == 0)) [
                | inl q ↦ wrap (test ∙ miss) q bs c.3
                | inr q ↦
                    subst (Sought size (bs ++ before start all))
                      (sym (search_from-next fuel hd heap_start start size p nz' (test ∙ miss) q))
                      (search_from-Sought all chain h fuel (hd p).next bs c.3
                        (λ r. cc (q, eq→== _ _ r)) (omega arith))
              ])
      ]
    where
      nz' : (p == 0) ≡ false
      nz' = ground (arith, nz)

      test : ((hd p).is_free && leb size (hd p).size) ≡ block_fits size b
      test = test-fits hd size p b bs c

      wrap :
          ((hd p).is_free && leb size (hd p).size) ≡ false
          → ((hd p).next == 0) ≡ true
          → (cs : List Block) → Chain hd (hd p).next cs
          → Sought size
              (cs ++ before start all)
              (search_from (suc fuel) hd heap_start start size p false)
      wrap e q (x ∷ cs) c' = absurd (c'.1 (==→eq _ _ q))
      wrap e q [] c' = elim (Bool-cases (heap_start == start)) [
        | inl r ↦
            subst (Sought size (before start all))
              (sym (search_from-wrap_stop fuel hd heap_start start size p nz' e q r))
              (nothing_before heap_start all chain (==→eq _ _ r))
        | inr r ↦
            subst (Sought size (before start all))
              (sym (search_from-wrap fuel hd heap_start start size p nz' e q r))
              (search_from-wrapped fuel heap_start all chain h (λ x. cc (r, eq→== _ _ x))
                (omega arith))
      ]

-- From the block at `start` on, the chain is that of the blocks from there.
Chain-from :
    (hd : ℕ → Header) (start p : ℕ) (bs : List Block)
    → Chain hd p bs
    → has start bs ≡ true
    → Chain hd start (from start bs)
unfolding from
Chain-from hd start p [] chain h = absurd (cc h)
Chain-from hd start p (b ∷ bs) chain h = elim (Bool-cases (b.addr == start)) [
  | inl e ↦ rw e (subst (λ q. Chain hd q (b ∷ bs)) (chain.0 ∙ ==→eq b.addr start e) chain)
  | inr e ↦ rw e (Chain-from hd start (hd p).next bs chain.3 (rw e at h))
]

length-from : (start : ℕ) (bs : List Block) → length (from start bs) ≤ length bs
unfolding from
length-from start [] = omega arith
length-from start (b ∷ bs) = ground (arith, length-from start bs)

fits_at-append :
    (size r : ℕ) (xs ys : List Block)
    → fits_at size r (xs ++ ys) ≡ (fits_at size r xs || fits_at size r ys)
fits_at-append size r [] ys = refl
fits_at-append size r (x ∷ xs) ys = ground (arith, fits_at-append size r xs ys)

any_fits-append :
    (size : ℕ) (xs ys : List Block)
    → any_fits size (xs ++ ys) ≡ (any_fits size xs || any_fits size ys)
any_fits-append size [] ys = refl
any_fits-append size (x ∷ xs) ys = ground (arith, any_fits-append size xs ys)

-- The blocks in the order of the search are the blocks of the list.
fits_at-order :
    (size start r : ℕ) (bs : List Block)
    → (fits_at size r (from start bs) || fits_at size r (before start bs)) ≡ fits_at size r bs
unfolding from before
fits_at-order size start r [] = refl
fits_at-order size start r (b ∷ bs) = ground (arith, fits_at-order size start r bs)

any_fits-order :
    (size start : ℕ) (bs : List Block)
    → (any_fits size (from start bs) || any_fits size (before start bs)) ≡ any_fits size bs
unfolding from before
any_fits-order size start [] = refl
any_fits-order size start (b ∷ bs) = ground (arith, any_fits-order size start bs)

Sought-order :
    (size start r : ℕ) (bs : List Block)
    → Sought size (from start bs ++ before start bs) r
    → Sought size bs r
Sought-order size start r bs (inl (nz, h)) = inl (
  nz,
  sym (fits_at-append size r (from start bs) (before start bs) ∙ fits_at-order size start r bs) ∙ h,
)
Sought-order size start r bs (inr (e, h)) = inr (
  e,
  sym (any_fits-append size (from start bs) (before start bs) ∙ any_fits-order size start bs) ∙ h,
)

-- The search from the block at `start` takes a block of the list that is free and large enough, and
-- takes none only if there is none; it ends within twice as many rounds as there are blocks.
pub search_from_lem :
    (fuel : ℕ) (hd : ℕ → Header) (heap_start start size : ℕ) (bs : List Block)
    → Chain hd heap_start bs
    → has start bs ≡ true
    → start ≢ 0
    → length bs + length bs < fuel
    → Sought size bs (search_from fuel hd heap_start start size start false)
search_from_lem fuel hd heap_start start size bs chain h nz lt = Sought-order size start _ bs (
    search_from-Sought hd heap_start start size bs chain h fuel start (from start bs)
      (Chain-from hd start heap_start bs chain h) nz (omega (arith, length-from start bs, lt)))

-- A block that fits is in the list.
pub fits_at-has : (size r : ℕ) (bs : List Block) → fits_at size r bs ≡ true → has r bs ≡ true
fits_at-has size r [] h = absurd (cc h)
fits_at-has size r (b ∷ bs) h = ground (arith, fits_at-has size r bs)
