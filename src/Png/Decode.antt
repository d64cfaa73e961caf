-- ===== src/Png/Decode.antt =====
-- `png_decode_buffer` as a whole: the pixels of a file with a header, one uncompressed block, and an end.
use mathlib.Core.Path.{subst}
use implus_os.Base.{
  ℕ, zero, suc, ◌+◌, ◌-◌, ◌*◌, ◌/◌, ◌%◌, ◌^◌, ◌≤◌, ◌<◌, ◌≡◌, refl, sym, ap, ◌∙◌, ◌⊎◌, false, not,
  ltb, ◌==◌, some, arith, mul_step,
}
use implus_os.Allocator.{Allocator}
use implus_os.Files.{get_bytes, put_bytes}
use implus_os.Png.{
  Memory, Chunks, Decoder, copy_rows, stored_size, decode_chunks, unfiltered,
  zlib_decompress_uncompressed, png_unfilter, png_decode_buffer,
}
use implus_os.Png.Row.{filtered}
use implus_os.Png.Unfilter.{Filtered, above_row, row_at, png_unfilter-Filtered}
use implus_os.Png.Copy.{copy_inside, copies, copies_lem, copy_rows-copies}
use implus_os.Png.File.{IsFile, read_chunks-IsFile}

-- Two blocks of the memory that do not overlap.
abbrev pub Apart : ℕ → ℕ → ℕ → ℕ → Type 0
Apart p n q m = (p + n ≤ q) ⊎ (q + m ≤ p)

-- The size of a filtered image.
abbrev pub stream_size : ℕ → ℕ → ℕ
stream_size width height = height * (width * 4 + 1)

-- The picture of a stored block in the chunk: its size is that of the rows, which stand filtered behind
-- its header.
pub record Stored (raw : ℕ → ℕ → ℕ) (c : Chunks) (mem : Memory) : Type 0 where
  pub there : 0 < c.idat
  pub header : 6 ≤ c.idat_size
  pub uncompressed : mem (c.idat + 2) / 2 % 4 ≡ 0
  pub size : stored_size mem c.idat ≡ stream_size c.width c.height
  pub some_width : 0 < c.width
  pub room : c.height * c.width * 4 < 2 ^ 32
  pub row_room : c.width * 4 < 2 ^ 32
  pub bytes : (k i : ℕ) → i < c.width * 4 → raw k i < 2 ^ 8
  pub rows : Filtered raw (c.idat + 7) (c.width * 4) c.height 0 mem

Filtered-copy :
    (raw : ℕ → ℕ → ℕ) (p q s n : ℕ) (mem : Memory)
    → Filtered raw p s n 0 mem
    → Filtered raw q s n 0 (put_bytes (get_bytes (n * (s + 1)) p mem) q mem)
Filtered-copy raw p q s n mem f = record { row_filtered = λ k lo hi i lt. go k hi i lt }
  where
    there :
        (k i : ℕ)
        → k < n
        → i < s + 1
        → put_bytes (get_bytes (n * (s + 1)) p mem) q mem (q + (k * (s + 1) + i))
          ≡ mem (p + (k * (s + 1) + i))
    there k i hk hi =
        copy_inside (n * (s + 1)) p q mem (k * (s + 1) + i)
          (omega (arith, hi, mul_step k n (s + 1) hk))

    go :
        (k : ℕ)
        → k < 0 + n
        → (i : ℕ) → i < s
        → put_bytes (get_bytes (n * (s + 1)) p mem) q mem (row_at q s k + i)
          ≡ filtered
              (put_bytes (get_bytes (n * (s + 1)) p mem) q mem (row_at q s k - 1))
              (above_row raw k)
              (raw k)
              i
    go k hk i hi =
        let new = put_bytes (get_bytes (n * (s + 1)) p mem) q mem in
        let at : row_at q s k + i ≡ q + (k * (s + 1) + (i + 1)) = omega arith in
        let from : p + (k * (s + 1) + (i + 1)) ≡ row_at p s k + i = omega arith in
        let at_filter : q + (k * (s + 1) + 0) ≡ row_at q s k - 1 = omega arith in
        let from_filter : row_at p s k - 1 ≡ p + (k * (s + 1) + 0) = omega arith in
        ap new at
        ∙ there k (i + 1) (omega (arith, hk)) (omega (arith, hi))
        ∙ ap mem from
        ∙ f.row_filtered k (omega arith) hk i hi
        ∙ ap (λ b. filtered b (above_row raw k) (raw k) i)
            (ap mem from_filter
              ∙ sym (there k 0 (omega (arith, hk)) (omega arith))
              ∙ ap new at_filter)

module _ {H : Type 0} (alloc : Allocator H) where
  -- The picture that was decoded: its size, and its bytes row by row.
  abbrev pub IsPicture : (ℕ → ℕ → ℕ) → Chunks → ℕ → ℕ × Decoder H → Type 0
  IsPicture raw c q (out, st) =
      (out ≡ q)
      × (st.out_w ≡ c.width)
      × (st.out_h ≡ c.height)
      × ((k i : ℕ) → k < c.height → i < c.width * 4 → st.mem (q + k * (c.width * 4) + i) ≡ raw k i)

  -- What the heap gives for the rows and for the picture: two blocks that do not overlap.
  pub record Given (c : Chunks) (st : Decoder H) (p q : ℕ) : Type 0 where
    pub rows_heap : H
    pub picture_heap : H
    pub rows_given : alloc.kmalloc st.heap (stored_size st.mem c.idat) ≡ (p, rows_heap)
    pub picture_given :
        alloc.kmalloc rows_heap (c.width * c.height * 4 % 2 ^ 32) ≡ (q, picture_heap)
    pub rows_there : 0 < p
    pub picture_there : 0 < q
    pub apart : Apart q (c.height * (c.width * 4)) p (stream_size c.width c.height)

  nonzero : (p : ℕ) → 0 < p → (p == 0) ≡ false
  nonzero p pos = ground (arith, pos)

  -- The rows as they are taken from the chunk, and the decoder with the picture.
  abbrev taken_rows : Chunks → Memory → ℕ → Memory
  taken_rows c mem p = put_bytes (get_bytes (stored_size mem c.idat) (c.idat + 7) mem) p mem

  abbrev with_picture : Chunks → Memory → ℕ → ℕ → H → Decoder H
  with_picture c mem p q h = record {
    heap = alloc.kfree h p;
    mem = copy_rows c.height 0 p q c.width mem;
    out_w = c.width;
    out_h = c.height;
  }

  zlib_decompress_uncompressed_lem :
      (raw : ℕ → ℕ → ℕ) (c : Chunks) (st : Decoder H) (p q : ℕ)
      → Stored raw c st.mem
      → (g : Given c st p q)
      → zlib_decompress_uncompressed alloc c.idat c.idat_size st
        ≡ (p, record st { heap = g.rows_heap; mem = taken_rows c st.mem p })
  unfolding zlib_decompress_uncompressed
  zlib_decompress_uncompressed_lem raw c st p q s g =
      let long : ltb c.idat_size 6 ≡ false = ground (arith, s.header) in
      let plain : not (st.mem (c.idat + 2) / 2 % 4 == 0) ≡ false = ground (arith, s.uncompressed) in
      rw (long, plain, g.rows_given, nonzero p g.rows_there) refl

  unfiltered_lem :
      (c : Chunks) (st : Decoder H) (p q : ℕ) (h : H)
      → 0 < p
      → 0 < q
      → alloc.kmalloc st.heap (c.width * c.height * 4 % 2 ^ 32) ≡ (q, h)
      → unfiltered alloc c (p, st)
        ≡ (q, with_picture c (png_unfilter p c.width c.height st.mem) p q h)
  unfiltered_lem c st p q h pp pq e = rw (nonzero p pp, e, nonzero q pq) refl

  decode_chunks-IsPicture :
      (raw : ℕ → ℕ → ℕ) (c : Chunks) (st : Decoder H) (p q : ℕ)
      → Stored raw c st.mem
      → Given c st p q
      → IsPicture raw c q (decode_chunks alloc st (some c))
  decode_chunks-IsPicture raw c st p q s g = rw (nonzero c.idat s.there) (
      subst (λ o. IsPicture raw c q o)
        (sym (
          ap (unfiltered alloc c) (zlib_decompress_uncompressed_lem raw c st p q s g)
          ∙ unfiltered_lem c (record st { heap = g.rows_heap; mem = taken_rows c st.mem p }) p q
              g.picture_heap g.rows_there g.picture_there g.picture_given))
        (refl, refl, refl, pixels))
    where
      rows : Memory
      rows = put_bytes (get_bytes (stored_size st.mem c.idat) (c.idat + 7) st.mem) p st.mem

      mid : Memory
      mid = png_unfilter p c.width c.height rows

      rows-Filtered : Filtered raw p (c.width * 4) c.height 0 rows
      rows-Filtered =
          subst
            (λ n.
              Filtered raw p (c.width * 4) c.height 0
                (put_bytes (get_bytes n (c.idat + 7) st.mem) p st.mem))
            (sym s.size) (Filtered-copy raw (c.idat + 7) p (c.width * 4) c.height st.mem s.rows)

      pixels :
          (k i : ℕ)
          → k < c.height
          → i < c.width * 4
          → copy_rows c.height 0 p q c.width mid (q + k * (c.width * 4) + i) ≡ raw k i
      pixels k i hk hi =
          let start : q + 0 * c.width * 4 ≡ q = omega arith in
          let rows_room : (0 + c.height) * c.width < 2 ^ 32 =
            let same : (0 + c.height) * c.width ≡ c.height * c.width = grind arith in
            omega (arith, same, s.room) in
          ap (λ m. m (q + k * (c.width * 4) + i))
            (copy_rows-copies c.height 0 p q c.width mid s.row_room rows_room)
          ∙ ap (λ d. copies c.height d p (c.width * 4) mid (q + k * (c.width * 4) + i)) start
          ∙ copies_lem c.height q p (c.width * 4) mid g.apart k i hk hi
          ∙ (png_unfilter-Filtered raw p c.width c.height rows s.some_width s.row_room s.bytes
                rows-Filtered).0
              k i hk hi

decode :
    {H : Type 0} (alloc : Allocator H) (raw : ℕ → ℕ → ℕ) (c : Chunks) (st : Decoder H)
    (buffer fuel p q : ℕ)
    → IsFile st.mem buffer (suc (suc (suc fuel))) c
    → Stored raw c st.mem
    → Given alloc c st p q
    → IsPicture alloc raw c q (png_decode_buffer alloc buffer (suc (suc (suc fuel))) st)
unfolding png_decode_buffer
decode alloc raw c st buffer fuel p q f s g =
    let long : ltb (suc (suc (suc fuel))) 8 ≡ false = ground (arith, f.inside) in
    rw (long, f.magic)
      (subst (λ o. IsPicture alloc raw c q (decode_chunks alloc st o))
        (sym (read_chunks-IsFile st.mem buffer fuel c f))
        (decode_chunks-IsPicture alloc raw c st p q s g))

-- A PNG file of one uncompressed block is decoded to its picture: for a file with a header, the block
-- and an end, in which the rows stand filtered as the standard says, and two blocks from the heap that
-- do not overlap, `png_decode_buffer` returns the second one with the bytes of the picture in it, row by
-- row, and gives its width and its height.
pub png_decode_buffer-IsPicture :
    {H : Type 0} (alloc : Allocator H) (raw : ℕ → ℕ → ℕ) (c : Chunks) (st : Decoder H)
    (buffer size p q : ℕ)
    → IsFile st.mem buffer size c
    → Stored raw c st.mem
    → Given alloc c st p q
    → IsPicture alloc raw c q (png_decode_buffer alloc buffer size st)
png_decode_buffer-IsPicture alloc raw c st buffer zero p q f s g = absurd (omega (arith, f.inside))
png_decode_buffer-IsPicture alloc raw c st buffer (suc zero) p q f s g =
    absurd (omega (arith, f.inside))
png_decode_buffer-IsPicture alloc raw c st buffer (suc (suc zero)) p q f s g =
    absurd (omega (arith, f.inside))
png_decode_buffer-IsPicture alloc raw c st buffer (suc (suc (suc fuel))) p q f s g =
    decode alloc raw c st buffer fuel p q f s g
