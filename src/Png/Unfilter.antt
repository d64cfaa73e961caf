-- ===== src/Png/Unfilter.antt =====
-- `png_unfilter` undoes the filters of the PNG standard.
use mathlib.Core.Path.{subst}
use implus_os.Base.{
  mul_step, ℕ, zero, suc, ◌+◌, ◌-◌, ◌*◌, ◌%◌, ◌^◌, ◌≤◌, ◌<◌, ◌≡◌, refl, sym, ap, ◌∙◌, ◌⊎◌, inl, inr,
  ltb, leb, Option, none, some, arith, Bool-cases, if-cases,
}
use implus_os.Png.Row.{filtered, Partly, SeesAbove, unfilter_row-Partly}
use implus_os.Png.{Memory, unfilter_row, unfilter_rows, png_unfilter}

-- The rows of an image as a stream holds them: each behind the byte of its filter.
abbrev pub row_at : ℕ → ℕ → ℕ → ℕ
row_at pixels stride y = pixels + y * (stride + 1) + 1

-- The row above the row `y`, of zeros above the first one.
abbrev pub above_row : (ℕ → ℕ → ℕ) → ℕ → ℕ → ℕ
above_row raw zero i = 0
above_row raw (suc y) i = raw y i

-- The `n` rows from `y` on, filtered as the standard says, each with whatever filter.
pub record Filtered (raw : ℕ → ℕ → ℕ) (pixels stride n y : ℕ) (mem : Memory) : Type 0 where
  pub row_filtered :
      (k : ℕ)
      → y ≤ k
      → k < y + n
      → (i : ℕ) → i < stride
      → mem (row_at pixels stride k + i)
        ≡ filtered (mem (row_at pixels stride k - 1)) (above_row raw k) (raw k) i

module _ (raw : ℕ → ℕ → ℕ) (pixels stride : ℕ) (wide : 4 ≤ stride)
    (bytes : (k i : ℕ) → i < stride → raw k i < 2 ^ 8) where
  -- The row above has been restored, if there is one.
  Above : Option ℕ → ℕ → Memory → Type 0
  Above none y mem = y ≡ 0
  Above (some prev) y mem =
      (k : ℕ) × (y ≡ suc k)
      × (prev ≡ row_at pixels stride k)
      × ((i : ℕ) → i < stride → mem (prev + i) ≡ raw k i)

  next_row : (y : ℕ) → (y + 1) * (stride + 1) ≡ y * (stride + 1) + (stride + 1)
  next_row y = grind arith

  later_row : (y k : ℕ) → y < k → y * (stride + 1) + (stride + 1) ≤ k * (stride + 1)
  later_row y k lt = omega (arith, mul_step y k (stride + 1) lt)

  Above-SeesAbove :
      (prev : Option ℕ) (y : ℕ) (mem : Memory)
      → Above prev y mem
      → SeesAbove prev (above_row raw y) (row_at pixels stride y) stride mem
  unfolding Above
  Above-SeesAbove none zero mem a m same x lt =
      (refl, if-cases (λ k. 0 ≡ k) (leb 4 x) 0 0 (λ e. refl) (λ e. refl))
  Above-SeesAbove none (suc y) mem a m same x lt = absurd (omega (arith, a))
  Above-SeesAbove (some prev) y mem (k, e, at, done) m same x lt =
      let seen : (i : ℕ) → i < stride → m (prev + i) ≡ above_row raw y i = λ i lt.
        same (prev + i) (inl (before i lt)) ∙ done i lt ∙ ap (λ j. above_row raw j i) (sym e) in
      (
        seen x lt,
        elim (Bool-cases (leb 4 x)) [
          | inl q ↦
              let place : prev + x - 4 ≡ prev + (x - 4) = ground (arith, q) in
              rw q (ap m place ∙ seen (x - 4) (ground (arith, lt)))
          | inr q ↦ rw q refl
        ],
      )
    where
      before : (i : ℕ) → i < stride → prev + i < row_at pixels stride y
      before i lt = omega (arith, at, lt, later_row k y (omega (arith, e)))

  -- What the rows are after the loop.
  record Restored (n y : ℕ) (mem out : Memory) : Type 0 where
    rows : (k i : ℕ) → y ≤ k → k < y + n → i < stride → out (row_at pixels stride k + i) ≡ raw k i
    earlier : (p : ℕ) → p < row_at pixels stride y → out p ≡ mem p
    behind : (p : ℕ) → pixels + (y + n) * (stride + 1) ≤ p → out p ≡ mem p

  Restored-outside :
      (n : ℕ) (mem out : Memory)
      → Restored n 0 mem out
      → (p : ℕ) → (p < pixels) ⊎ (pixels + n * (stride + 1) ≤ p)
      → out p ≡ mem p
  Restored-outside n mem out r p (inl lt) = r.earlier p (omega (arith, lt))
  Restored-outside n mem out r p (inr le) = r.behind p (omega (arith, le))

  row-Filtered :
      (n y : ℕ) (mem : Memory)
      → Filtered raw pixels stride (suc n) y mem
      → Partly
          (filtered (mem (pixels + y * (stride + 1))) (above_row raw y) (raw y))
          (raw y)
          (row_at pixels stride y)
          stride
          0
          mem
          mem
  row-Filtered n y mem f = record {
    done = λ i lt in_row. absurd (omega (arith, lt));
    todo = λ i le in_row.
        f.row_filtered y (omega arith) (omega arith) i in_row
        ∙ ap (λ p. filtered (mem p) (above_row raw y) (raw y) i) (omega arith);
    others = λ p out. refl;
  }

  -- The rows behind a restored one, and with it.
  Restored-next :
      (f : ℕ → ℕ) (n y : ℕ) (mem mid out : Memory)
      → Partly f (raw y) (row_at pixels stride y) stride stride mem mid
      → Restored n (y + 1) mid out
      → Restored (suc n) y mem out
  Restored-next f n y mem mid out row ih = record {
    rows = λ k i lo hi lt. elim (Bool-cases (ltb y k)) [
      | inl e ↦ ih.rows k i (ground (arith, e)) (omega (arith, hi)) lt
      | inr e ↦
          let eq : y ≡ k = ground (arith, e, lo) in
          subst (λ j. out (row_at pixels stride j + i) ≡ raw j i) eq
            (ih.earlier (row_at pixels stride y + i) (omega (arith, lt, next_row y))
              ∙ row.done i lt lt)
    ];
    earlier = λ p lt. ih.earlier p (omega (arith, lt, next_row y)) ∙ row.others p (inl lt);
    behind = λ p le.
        let e : y + 1 + n ≡ y + suc n = omega arith in
        ih.behind p (rw e le)
        ∙ row.others p (inr (omega (arith, le, later_row y (y + suc n) (omega arith))));
  }

  Filtered-next :
      (f : ℕ → ℕ) (n y : ℕ) (mem mid : Memory)
      → Partly f (raw y) (row_at pixels stride y) stride stride mem mid
      → Filtered raw pixels stride (suc n) y mem
      → Filtered raw pixels stride n (y + 1) mid
  Filtered-next f n y mem mid row g = record {
    row_filtered = λ k lo hi i lt.
        let far = later_row y k (omega (arith, lo)) in
        let here = row.others (row_at pixels stride k + i) (inr (omega (arith, far))) in
        let kept = row.others (row_at pixels stride k - 1) (inr (omega (arith, far))) in
        here
        ∙ g.row_filtered k (omega (arith, lo)) (omega (arith, hi)) i lt
        ∙ ap (λ b. filtered b (above_row raw k) (raw k) i) (sym kept);
  }

  unfilter_rows-Restored :
      (n y : ℕ) (prev : Option ℕ) (mem : Memory)
      → Above prev y mem
      → Filtered raw pixels stride n y mem
      → Restored n y mem (unfilter_rows n prev (pixels + y * (stride + 1)) stride mem)
  unfolding unfilter_rows Above
  unfilter_rows-Restored zero y prev mem a f = record {
    rows = λ k i lo hi lt. absurd (omega (arith, lo, hi));
    earlier = λ p lt. refl;
    behind = λ p le. refl;
  }
  unfilter_rows-Restored (suc n) y prev mem a f =
      let cur = pixels + y * (stride + 1) in
      let mid = unfilter_row (mem cur) prev (cur + 1) stride mem in
      let on : pixels + (y + 1) * (stride + 1) ≡ cur + stride + 1 = omega (arith, next_row y) in
      let row =
        unfilter_row-Partly prev (above_row raw y) (raw y) (row_at pixels stride y) stride mem wide
          (bytes y) (Above-SeesAbove prev y mem a) (mem cur) (row-Filtered n y mem f) in
      let ih =
        unfilter_rows-Restored n (y + 1) (some (cur + 1)) mid
          (y, omega arith, refl, λ i lt. row.done i lt lt) (Filtered-next _ n y mem mid row f) in
      Restored-next _ n y mem mid _ row
        (subst (λ c. Restored n (y + 1) mid (unfilter_rows n (some (cur + 1)) c stride mid)) on ih)

-- `png_unfilter` undoes the filters of the PNG standard: an image whose rows stand filtered in the
-- memory, each with whatever filter, is restored byte by byte, and no byte outside the stream changes;
-- for a width of at least 1, of which four times fit in 32 bits.
pub png_unfilter-Filtered :
    (raw : ℕ → ℕ → ℕ) (pixels width height : ℕ) (mem : Memory)
    → 0 < width
    → width * 4 < 2 ^ 32
    → ((k i : ℕ) → i < width * 4 → raw k i < 2 ^ 8)
    → Filtered raw pixels (width * 4) height 0 mem
    → ((k i : ℕ)
        → k < height
        → i < width * 4
        → png_unfilter pixels width height mem (row_at pixels (width * 4) k + i) ≡ raw k i)
      × ((p : ℕ)
          → (p < pixels) ⊎ (pixels + height * (width * 4 + 1) ≤ p)
          → png_unfilter pixels width height mem p ≡ mem p)
unfolding png_unfilter Above
png_unfilter-Filtered raw pixels width height mem some_width small bytes f =
    let stride : width * 4 % 2 ^ 32 ≡ width * 4 = omega (arith, small) in
    let start : pixels + 0 * (width * 4 + 1) ≡ pixels = omega arith in
    let wide : 4 ≤ width * 4 = omega (arith, some_width) in
    let r =
      subst
        (λ c.
          Restored raw pixels (width * 4) wide bytes height 0 mem
            (unfilter_rows height none c (width * 4) mem))
        start (unfilter_rows-Restored raw pixels (width * 4) wide bytes height 0 none mem refl f) in
    rw stride (
      (λ k i lt in_row. r.rows k i (omega arith) (omega (arith, lt)) in_row),
      (λ p out. Restored-outside raw pixels (width * 4) wide bytes height mem _ r p out),
    )
