-- ===== src/Heap/Walk.antt =====
-- The walk of `find_block_by_payload` over the list of blocks.
use implus_os.Base.{
  ℕ, zero, suc, ◌+◌, ◌<◌, ◌≡◌, refl, sym, ◌∙◌, ap, ◌≢◌, ◌⊎◌, inl, inr, true, false, List, [], ◌∷◌,
  arith, Bool-cases, ◌==◌, ==→eq, eq→==, length,
}
use mathlib.Core.Path.{subst}
use implus_os.Heap.{Header, header_size, find_from}
use implus_os.Heap.Blocks.{Block, has}
use implus_os.Heap.Chain.{Chain}

-- What the walk to a payload address returns: the block whose payload starts there, with its
-- predecessor in the list, or 0 and 0 if there is none.
abbrev pub Located : (ℕ → Header) → ℕ → ℕ → ℕ → List Block → ℕ × ℕ → Type 0
Located hd target prev p bs (block, before) =
    ((block ≡ 0) × ((t : ℕ) → has t bs ≡ true → t + header_size ≢ target))
    ⊎ ((has block bs ≡ true)
        × (block ≢ 0)
        × (block + header_size ≡ target)
        × (((block ≡ p) × (before ≡ prev))
            ⊎ ((has before bs ≡ true) × (before ≢ 0) × ((hd before).next ≡ block))))

has_later : (t : ℕ) (b : Block) (bs : List Block) → has t bs ≡ true → has t (b ∷ bs) ≡ true
has_later t b bs h = ground arith

Located-step :
    (hd : ℕ → Header) (target prev p : ℕ) (b : Block) (bs : List Block) (r : ℕ × ℕ)
    → p ≡ b.addr
    → p ≢ 0
    → p + header_size ≢ target
    → Located hd target p (hd p).next bs r
    → Located hd target prev p (b ∷ bs) r
Located-step hd target prev p b bs (block, before) at nz ne (inl (e, all)) = inl (
  e,
  λ t h q. elim (Bool-cases (b.addr == t)) [
    | inl same ↦ ne (ap (λ x. x + header_size) (at ∙ ==→eq b.addr t same) ∙ q)
    | inr other ↦ all t (rw other at h) q
  ],
)
Located-step hd target prev p b bs (block, before) at nz ne (inr (h, z, e, inl (first, e'))) = inr (
  has_later block b bs h,
  z,
  e,
  inr (ground (arith, at, e'), (λ q. nz (sym e' ∙ q)), ap (λ x. (hd x).next) e' ∙ sym first),
)
Located-step hd target prev p b bs (block, before) at nz ne (inr (h, z, e, inr (h', z', e'))) =
    inr (has_later block b bs h, z, e, inr (has_later before b bs h', z', e'))

module _ (fuel : ℕ) (hd : ℕ → Header) (target prev p : ℕ) (nz : (p == 0) ≡ false) where
  find_from-hit :
      (p + header_size == target) ≡ true → find_from (suc fuel) hd target prev p ≡ (p, prev)
  unfolding find_from
  find_from-hit e = rw (nz, e, find_from)

  find_from-miss :
      (p + header_size == target) ≡ false
      → find_from (suc fuel) hd target prev p ≡ find_from fuel hd target p (hd p).next
  unfolding find_from
  find_from-miss e = ground (arith, nz, e)

find_from-end :
    (fuel : ℕ) (hd : ℕ → Header) (target prev : ℕ) → find_from fuel hd target prev 0 ≡ (0, 0)
unfolding find_from
find_from-end zero hd target prev = refl
find_from-end (suc fuel) hd target prev = refl

pub find_from-Located :
    (fuel : ℕ) (hd : ℕ → Header) (target prev p : ℕ) (bs : List Block)
    → Chain hd p bs
    → length bs < fuel
    → Located hd target prev p bs (find_from fuel hd target prev p)
find_from-Located zero hd target prev p bs chain h = absurd (omega arith)
find_from-Located (suc fuel) hd target prev p [] chain h =
    rw (chain, find_from-end (suc fuel) hd target prev) (inl (refl, λ t q. absurd (cc q)))
find_from-Located (suc fuel) hd target prev p (b ∷ bs) chain h =
    let nz : (p == 0) ≡ false = ground (arith, chain.1) in
    elim (Bool-cases (p + header_size == target)) [
      | inl e ↦
          rw (find_from-hit fuel hd target prev p nz e)
            (inr (ground (arith, chain.0), chain.1, ==→eq _ _ e, inl (refl, refl)))
      | inr e ↦
          subst (Located hd target prev p (b ∷ bs))
            (sym (find_from-miss fuel hd target prev p nz e))
            (Located-step hd target prev p b bs _ chain.0 chain.1 (λ q. cc (e, eq→== _ _ q))
              (find_from-Located fuel hd target p (hd p).next bs chain.3 (omega arith)))
    ]
