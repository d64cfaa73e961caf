-- ===== src/Png.antt =====
-- Userland/Application/PNG_Decoder/PNG_Decoder.c: the decoder of PNG images of 8 bits and four channels
-- in one uncompressed block. The bytes of the memory are indexed by address; a pointer is its address,
-- and 0 is NULL.
pub mod Row
pub mod Unfilter
pub mod Copy
pub mod File
pub mod Decode
mod Tests
use implus_os.Base.{
  ℕ, zero, suc, ◌+◌, ◌-◌, ◌*◌, ◌/◌, ◌%◌, ◌^◌, Bool, true, false, not, ◌&&◌, ◌||◌, if◌then◌else◌,
  ltb, leb, ◌==◌, List, [], ◌∷◌, Option, none, some, update,
}
use implus_os.Allocator.{Allocator}
use implus_os.Files.{get_bytes, put_bytes}

abbrev pub Memory : Type 0
Memory = ℕ → ℕ

abbrev pub read_be32 : Memory → ℕ → ℕ
read_be32 mem p = mem p * 2 ^ 24 + mem (p + 1) * 2 ^ 16 + mem (p + 2) * 2 ^ 8 + mem (p + 3)

-- The predictor of a filter at a place of the row: from the row itself, four bytes before, from the row
-- above, and from the place four bytes before that. There is none above the first row.
abbrev pub left_of : ℕ → Memory → ℕ → ℕ
left_of row mem x = if leb 4 x then mem (row + x - 4) else 0

abbrev pub above : Option ℕ → Memory → ℕ → ℕ
above none mem x = 0
above (some prev) mem x = mem (prev + x)

abbrev pub above_left : Option ℕ → Memory → ℕ → ℕ
above_left none mem x = 0
above_left (some prev) mem x = if leb 4 x then mem (prev + x - 4) else 0

abbrev pub distance : ℕ → ℕ → ℕ
distance m n = if ltb n m then m - n else n - m

-- `p = a + b - c` can lie below 0, so `p` and what it is compared with are `c` larger here.
abbrev pub paeth : ℕ → ℕ → ℕ → ℕ
paeth a b c =
    let pa = distance (a + b) (a + c) in
    let pb = distance (a + b) (b + c) in
    let pc = distance (a + b) (c + c) in
    if leb pa pb && leb pa pc then a else if leb pb pc then b else c

-- A loop `row[x] += ...`, of `n` rounds from `x` on.
pub add_to_row : (Memory → ℕ → ℕ) → ℕ → ℕ → ℕ → Memory → Memory
add_to_row predictor row zero x mem = mem
add_to_row predictor row (suc n) x mem =
    add_to_row predictor row n (x + 1)
      (update mem (row + x) ((mem (row + x) + predictor mem x) % 2 ^ 8))

abbrev pub unfilter_up : Option ℕ → ℕ → ℕ → Memory → Memory
unfilter_up none row stride mem = mem
unfilter_up (some prev) row stride mem = add_to_row (above (some prev)) row stride 0 mem

-- The cases of `switch (filter)`.
abbrev pub unfilter_row : ℕ → Option ℕ → ℕ → ℕ → Memory → Memory
unfilter_row filter prev row stride mem =
    if filter == 1
    then add_to_row (left_of row) row (stride - 4) 4 mem
    else if filter == 2
    then unfilter_up prev row stride mem
    else if filter == 3
    then add_to_row (λ m x. (left_of row m x + above prev m x) / 2) row stride 0 mem
    else if filter == 4
    then add_to_row (λ m x. paeth (left_of row m x) (above prev m x) (above_left prev m x)) row
        stride 0 mem
    else mem

pub unfilter_rows : ℕ → Option ℕ → ℕ → ℕ → Memory → Memory
unfilter_rows zero prev cur stride mem = mem
unfilter_rows (suc n) prev cur stride mem =
    unfilter_rows n (some (cur + 1)) (cur + stride + 1) stride
      (unfilter_row (mem cur) prev (cur + 1) stride mem)

unfoldable pub png_unfilter : ℕ → ℕ → ℕ → Memory → Memory
png_unfilter rows width height mem = unfilter_rows height none rows (width * 4 % 2 ^ 32) mem

-- `width`, `height`, `idat` and `idat_size` of `png_decode_buffer`.
pub record Chunks : Type 0 where
  pub width : ℕ
  pub height : ℕ
  pub idat : ℕ
  pub idat_size : ℕ

abbrev pub is_supported : Memory → ℕ → Bool
is_supported mem p = mem (p + 8) == 8 && (mem (p + 9) == 6 && mem (p + 12) == 0)

-- The loop over the chunks. Each round moves `p` by eight bytes at least, so as many rounds as the
-- buffer has bytes are enough.
pub read_chunks : ℕ → Memory → ℕ → ℕ → Chunks → Option Chunks
read_chunks zero mem p end c = if ltb p end then none else some c
read_chunks (suc fuel) mem p end c =
    let len = read_be32 mem p in
    let type = read_be32 mem (p + 4) in
    let next = p + 8 + (len + 4) % 2 ^ 32 in
    let sized = record c { width = read_be32 mem (p + 8); height = read_be32 mem (p + 12) } in
    let header = read_chunks fuel mem next end sized in
    let image = read_chunks fuel mem next end (record c { idat = p + 8; idat_size = len }) in
    let rest = read_chunks fuel mem next end c in
    if not (ltb p end)
    then some c
    else if type == 0x49484452
    then if is_supported mem (p + 8) then header else none
    else if type == 0x49444154
    then image
    else if type == 0x49454e44
    then some c
    else rest

-- The rows without their filter bytes, from row `y` on.
pub copy_rows : ℕ → ℕ → ℕ → ℕ → ℕ → Memory → Memory
copy_rows zero y src out width mem = mem
copy_rows (suc n) y src out width mem =
    let stride = width * 4 % 2 ^ 32 in
    copy_rows n (y + 1) (src + stride + 1) out width
      (put_bytes (get_bytes stride (src + 1) mem) (out + y * width % 2 ^ 32 * 4) mem)

abbrev pub signature : List ℕ
signature = 137 ∷ 80 ∷ 78 ∷ 71 ∷ 13 ∷ 10 ∷ 26 ∷ 10 ∷ []

pub starts_with : List ℕ → ℕ → Memory → Bool
starts_with [] p mem = true
starts_with (b ∷ bs) p mem = mem p == b && starts_with bs (p + 1) mem

abbrev pub stored_size : Memory → ℕ → ℕ
stored_size mem stream = mem (stream + 3) + mem (stream + 4) * 2 ^ 8

abbrev pub no_chunks : Chunks
no_chunks = record { width = 0; height = 0; idat = 0; idat_size = 0 }

-- The heap, the memory, and what `out_w` and `out_h` point at.
pub record Decoder (H : Type 0) : Type 0 where
  pub heap : H
  pub mem : Memory
  pub out_w : ℕ
  pub out_h : ℕ

module _ {H : Type 0} (alloc : Allocator H) where
  abbrev pub decompressed : ℕ → Decoder H → ℕ × H → ℕ × Decoder H
  decompressed stream st (out, h) = if out == 0 then (0, record st { heap = h }) else (
    out,
    record st {
      heap = h;
      mem = put_bytes (get_bytes (stored_size st.mem stream) (stream + 7) st.mem) out st.mem;
    },
  )

  unfoldable pub zlib_decompress_uncompressed : ℕ → ℕ → Decoder H → ℕ × Decoder H
  zlib_decompress_uncompressed stream size st =
      if ltb size 6
      then (0, st)
      else if not (st.mem (stream + 2) / 2 % 4 == 0)
      then (0, st)
      else decompressed stream st (alloc.kmalloc st.heap (stored_size st.mem stream))

  abbrev pub copied : Chunks → ℕ → Decoder H → ℕ × H → ℕ × Decoder H
  copied c decomp st (out, h) =
      if out == 0 then (0, record st { heap = alloc.kfree h decomp }) else (
        out,
        record {
          heap = alloc.kfree h decomp;
          mem = copy_rows c.height 0 decomp out c.width st.mem;
          out_w = c.width;
          out_h = c.height;
        },
      )

  abbrev pub unfiltered : Chunks → ℕ × Decoder H → ℕ × Decoder H
  unfiltered c (decomp, st) =
      if decomp == 0
      then (0, st)
      else copied c decomp (record st { mem = png_unfilter decomp c.width c.height st.mem })
          (alloc.kmalloc st.heap (c.width * c.height * 4 % 2 ^ 32))

  abbrev pub decode_chunks : Decoder H → Option Chunks → ℕ × Decoder H
  decode_chunks st none = (0, st)
  decode_chunks st (some c) =
      if c.idat == 0
      then (0, st)
      else unfiltered c (zlib_decompress_uncompressed c.idat c.idat_size st)

  unfoldable pub png_decode_buffer : ℕ → ℕ → Decoder H → ℕ × Decoder H
  png_decode_buffer buffer size st =
      if ltb size 8 || not (starts_with signature buffer st.mem)
      then (0, st)
      else decode_chunks st (read_chunks size st.mem (buffer + 8) (buffer + size) no_chunks)
