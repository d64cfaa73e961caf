-- ===== src/Png/Row.antt =====
-- The filters of the PNG standard, and the loops of `png_unfilter` over one row.
use mathlib.Core.Path.{subst}
use implus_os.Base.{
  ℕ, zero, suc, ◌+◌, ◌-◌, ◌*◌, ◌/◌, ◌%◌, ◌^◌, ◌≤◌, ◌<◌, ◌≡◌, refl, sym, ap, ◌∙◌, ◌⊎◌, inl, inr,
  true, false, ◌&&◌, if◌then◌else◌, leb, ◌==◌, Option, none, some, arith, update, Bool-cases,
  if-cases, ==→eq,
}
use implus_os.Png.{
  Memory, left_of, above, above_left, distance, paeth, add_to_row, unfilter_up, unfilter_row,
}

-- The predictor that the standard gives for a filter, from the bytes to the left, above, and above the
-- one to the left. The Paeth predictor is the one of the three that is nearest to `a + b - c`, the
-- earlier one of two that are equally near.
abbrev pub nearest : ℕ → ℕ → ℕ → ℕ
nearest a b c =
    let to_a = distance b c in
    let to_b = distance a c in
    let to_c = distance (a + b) (2 * c) in
    if leb to_a to_b && leb to_a to_c then a else if leb to_b to_c then b else c

abbrev pub predictor : ℕ → ℕ → ℕ → ℕ → ℕ
predictor filter a b c =
    if filter == 1
    then a
    else if filter == 2
    then b
    else if filter == 3
    then (a + b) / 2
    else if filter == 4
    then nearest a b c
    else 0

paeth_lem : (a b c : ℕ) → paeth a b c ≡ nearest a b c
paeth_lem a b c = ground arith

-- A byte of a row as the standard filters it.
abbrev pub filtered : ℕ → (ℕ → ℕ) → (ℕ → ℕ) → ℕ → ℕ
filtered filter up raw x =
    let a = if leb 4 x then raw (x - 4) else 0 in
    let c = if leb 4 x then up (x - 4) else 0 in
    (raw x + 2 ^ 8 - predictor filter a (up x) c % 2 ^ 8) % 2 ^ 8

restored : (r p : ℕ) → r < 2 ^ 8 → ((r + 2 ^ 8 - p % 2 ^ 8) % 2 ^ 8 + p) % 2 ^ 8 ≡ r
restored r p h = omega arith

-- A row of which the bytes before `x` are restored, and those from `x` on filtered.
pub record Partly (f : ℕ → ℕ) (raw : ℕ → ℕ) (row stride x : ℕ) (start mem : Memory) : Type 0 where
  pub done : (i : ℕ) → i < x → i < stride → mem (row + i) ≡ raw i
  pub todo : (i : ℕ) → x ≤ i → i < stride → mem (row + i) ≡ f i
  pub others : (p : ℕ) → (p < row) ⊎ (row + stride ≤ p) → mem p ≡ start p

-- The loop restores the rest of the row, with a predictor that finds what it needs in the restored
-- bytes and outside of the row.
add_to_row-Partly :
    (pr : Memory → ℕ → ℕ) (f raw : ℕ → ℕ) (row stride n x : ℕ) (start mem : Memory)
    → ((m : Memory) (x : ℕ)
        → x < stride
        → Partly f raw row stride x start m
        → (f x + pr m x) % 2 ^ 8 ≡ raw x)
    → x + n ≡ stride
    → Partly f raw row stride x start mem
    → Partly f raw row stride stride start (add_to_row pr row n x mem)
unfolding add_to_row
add_to_row-Partly pr f raw row stride zero x start mem h e v =
    let eq : x ≡ stride = omega (arith, e) in subst (λ y. Partly f raw row stride y start mem) eq v
add_to_row-Partly pr f raw row stride (suc n) x start mem h e v =
    add_to_row-Partly pr f raw row stride n (x + 1) start _ h (omega (arith, e)) (record {
      done = λ i lt in_row. elim (Bool-cases (x == i)) [
        | inl q ↦
            let at : x ≡ i = ==→eq x i q in
            let new : (mem (row + x) + pr mem x) % 2 ^ 8 ≡ raw x =
              ap (λ b. (b + pr mem x) % 2 ^ 8) (v.todo x (omega arith) (omega (arith, e)))
              ∙ h mem x (omega (arith, e)) v in
            subst (λ j. update mem (row + x) ((mem (row + x) + pr mem x) % 2 ^ 8) (row + j) ≡ raw j)
              at (ground (arith, new))
        | inr q ↦ ground (arith, q, v.done i (ground (arith, q, lt)) in_row)
      ];
      todo = λ i le in_row. ground (arith, v.todo i (omega arith) in_row);
      others = λ p out. ground (arith, e, v.others p out);
    })

-- Of the row above, the predictors see `up`, in every memory that differs in the row alone.
abbrev pub SeesAbove : Option ℕ → (ℕ → ℕ) → ℕ → ℕ → Memory → Type 0
SeesAbove prev up row stride start =
    (m : Memory)
    → ((p : ℕ) → (p < row) ⊎ (row + stride ≤ p) → m p ≡ start p)
    → (x : ℕ) → x < stride
    → (above prev m x ≡ up x) × (above_left prev m x ≡ (if leb 4 x then up (x - 4) else 0))

module _ (prev : Option ℕ) (up raw : ℕ → ℕ) (row stride : ℕ) (start : Memory) (wide : 4 ≤ stride)
    (bytes : (i : ℕ) → i < stride → raw i < 2 ^ 8) (sees : SeesAbove prev up row stride start) where
  left_done :
      (f : ℕ → ℕ) (m : Memory) (x : ℕ)
      → x < stride
      → Partly f raw row stride x start m
      → left_of row m x ≡ (if leb 4 x then raw (x - 4) else 0)
  left_done f m x lt v = elim (Bool-cases (leb 4 x)) [
    | inl e ↦
        let at : row + (x - 4) ≡ row + x - 4 = ground (arith, e) in
        rw e (sym (ap m at) ∙ v.done (x - 4) (ground (arith, e)) (omega (arith, lt)))
    | inr e ↦ rw e refl
  ]

  unchanged :
      (f : ℕ → ℕ)
      → ((i : ℕ) → i < stride → f i ≡ raw i)
      → Partly f raw row stride 0 start start
      → (x : ℕ) → Partly f raw row stride x start start
  unchanged f same v x = record {
    done = λ i lt in_row. v.todo i (omega arith) in_row ∙ same i in_row;
    todo = λ i le in_row. v.todo i (omega arith) in_row;
    others = v.others;
  }

  no_predictor : (i k : ℕ) → i < stride → k ≡ 0 → (raw i + 2 ^ 8 - k % 2 ^ 8) % 2 ^ 8 ≡ raw i
  no_predictor i k lt z = omega (arith, bytes i lt, z)

  left_nothing : (a c x : ℕ) → x < 4 → (if leb 4 x then a else c) ≡ c
  left_nothing a c x lt = ground (arith, lt)

  -- A loop whose predictor is the standard's restores the row.
  loop-Partly :
      (pr : Memory → ℕ → ℕ) (filter x : ℕ)
      → ((m : Memory) (a b c y : ℕ)
          → left_of row m y ≡ a
          → above prev m y ≡ b
          → above_left prev m y ≡ c
          → pr m y ≡ predictor filter a b c)
      → x ≤ stride
      → Partly (filtered filter up raw) raw row stride x start start
      → Partly
          (filtered filter up raw)
          raw
          row
          stride
          stride
          start
          (add_to_row pr row (stride - x) x start)
  loop-Partly pr filter x is_predictor le v =
      add_to_row-Partly pr (filtered filter up raw) raw row stride (stride - x) x start start
        (λ m y lt part.
          let s = sees m part.others y lt in
          let p = is_predictor m _ _ _ y (left_done (filtered filter up raw) m y lt part) s.0 s.1 in
          ap (λ k. (filtered filter up raw y + k) % 2 ^ 8) p ∙ restored (raw y) _ (bytes y lt))
        (omega (arith, le)) v

  whole-Partly :
      (pr : Memory → ℕ → ℕ) (filter : ℕ)
      → ((m : Memory) (a b c y : ℕ)
          → left_of row m y ≡ a
          → above prev m y ≡ b
          → above_left prev m y ≡ c
          → pr m y ≡ predictor filter a b c)
      → Partly (filtered filter up raw) raw row stride 0 start start
      → Partly
          (filtered filter up raw)
          raw
          row
          stride
          stride
          start
          (add_to_row pr row stride 0 start)
  whole-Partly pr filter is_predictor v =
      let minus_zero : stride - 0 ≡ stride = omega arith in
      subst
        (λ k.
          Partly (filtered filter up raw) raw row stride stride start (add_to_row pr row k 0 start))
        minus_zero (loop-Partly pr filter 0 is_predictor (omega arith) v)

  -- Each filter is undone on the row.
  pub unfilter_row-Partly :
      (filter : ℕ)
      → Partly (filtered filter up raw) raw row stride 0 start start
      → Partly
          (filtered filter up raw)
          raw
          row
          stride
          stride
          start
          (unfilter_row filter prev row stride start)
  unfilter_row-Partly filter v =
      if-cases P (filter == 1) _ _
        (λ e.
          loop-Partly (left_of row) filter 4 (λ m a b c y ha hb hc. rw e ha) wide
            (record {
              done = λ i lt in_row.
                  v.todo i (omega arith) in_row
                  ∙ no_predictor i _ in_row (rw e (left_nothing _ 0 i lt));
              todo = λ i le in_row. v.todo i (omega arith) in_row;
              others = v.others;
            }))
        (λ n1.
          if-cases P (filter == 2) _ _ (λ e. up_row prev refl n1 e)
            (λ n2.
              if-cases P (filter == 3) _ _
                (λ e.
                  whole-Partly (λ m x. (left_of row m x + above prev m x) / 2) filter
                    (λ m a b c y ha hb hc. rw (n1, n2, e) (cc (ha, hb))) v)
                (λ n3.
                  if-cases P (filter == 4) _ _
                    (λ e.
                      whole-Partly
                        (λ m x. paeth (left_of row m x) (above prev m x) (above_left prev m x))
                        filter
                        (λ m a b c y ha hb hc.
                          rw (n1, n2, n3, e) (cc (ha, hb, hc, paeth_lem a b c)))
                        v)
                    (λ n4.
                      unchanged (filtered filter up raw)
                        (λ i lt. no_predictor i _ lt (rw (n1, n2, n3, n4) refl)) v stride))))
    where
      P : Memory → Type 0
      P m = Partly (filtered filter up raw) raw row stride stride start m

      up_row :
          (above_it : Option ℕ)
          → prev ≡ above_it
          → (filter == 1) ≡ false
          → (filter == 2) ≡ true
          → P (unfilter_up above_it row stride start)
      up_row none q n1 e =
          unchanged (filtered filter up raw)
            (λ i lt.
              no_predictor i _ lt (
                rw (n1, e) (sym (sees start (λ p out. refl) i lt).0 ∙ ap (λ o. above o start i) q)))
            v stride
      up_row (some p) q n1 e =
          whole-Partly (above (some p)) filter
            (λ m a b c y ha hb hc. rw (n1, e) (sym (ap (λ o. above o m y) q) ∙ hb)) v
