-- ===== src/Png/Tests.antt =====
-- The filters on an image of two rows of two pixels, and the decoder on a whole file.
use implus_os.Base.{
  ℕ, zero, suc, ◌+◌, ◌*◌, ◌-◌, ◌^◌, ◌≤◌, ◌<◌, ◌≡◌, refl, ◌⊎◌, arith, List, [], ◌∷◌, get_or,
  get_or_beyond, inr,
}
use implus_os.Png.{Memory, Chunks, Decoder, png_unfilter, png_decode_buffer, starts_with}
use implus_os.Png.File.{IsFile}
use implus_os.Png.Decode.{Stored, Given, IsPicture, png_decode_buffer-IsPicture}
use implus_os.Allocator.{Allocator}
use implus_os.Png.Row.{filtered}
use implus_os.Png.Unfilter.{Filtered, above_row, row_at, png_unfilter-Filtered}

abbrev rows : List ℕ
rows = 10 ∷ 20 ∷ 30 ∷ 255 ∷ 12 ∷ 18 ∷ 200 ∷ 255 ∷ 5 ∷ 200 ∷ 31 ∷ 255 ∷ 90 ∷ 17 ∷ 3 ∷ 254 ∷ []

abbrev raw : ℕ → ℕ → ℕ
raw k i = get_or rows (k * 8 + i) 0

-- The first row with the differences to the left, the second one with the Paeth predictor.
abbrev stream : List ℕ
stream =
    1 ∷ 10 ∷ 20 ∷ 30 ∷ 255 ∷ 2 ∷ 254 ∷ 170 ∷ 0 ∷ 4 ∷ 251 ∷ 180 ∷ 1 ∷ 0 ∷ 85 ∷ 73 ∷ 59 ∷ 255 ∷ []

abbrev memory : Memory
memory p = get_or stream (p - 100) 0

eight : (P : ℕ → Type 0) → P 0 → P 1 → P 2 → P 3 → P 4 → P 5 → P 6 → P 7 → (i : ℕ) → i < 8 → P i
eight P a b c d e f g h zero lt = a
eight P a b c d e f g h (suc zero) lt = b
eight P a b c d e f g h (suc (suc zero)) lt = c
eight P a b c d e f g h (suc (suc (suc zero))) lt = d
eight P a b c d e f g h (suc (suc (suc (suc zero)))) lt = e
eight P a b c d e f g h (suc (suc (suc (suc (suc zero))))) lt = f
eight P a b c d e f g h (suc (suc (suc (suc (suc (suc zero)))))) lt = g
eight P a b c d e f g h (suc (suc (suc (suc (suc (suc (suc zero))))))) lt = h
eight P a b c d e f g h (suc (suc (suc (suc (suc (suc (suc (suc i)))))))) lt = absurd (omega arith)

memory-Filtered : Filtered raw 100 8 2 0 memory
memory-Filtered = record { row_filtered = λ k lo hi i lt. go k hi i lt }
  where
    go :
        (k : ℕ)
        → k < 2
        → (i : ℕ) → i < 8
        → memory (row_at 100 8 k + i)
          ≡ filtered (memory (row_at 100 8 k - 1)) (above_row raw k) (raw k) i
    go zero hi = eight _ refl refl refl refl refl refl refl refl
    go (suc zero) hi = eight _ refl refl refl refl refl refl refl refl
    go (suc (suc k)) hi = absurd (omega arith)

small : (k i : ℕ) → i < 8 → raw k i < 2 ^ 8
small zero =
    eight _ (omega arith) (omega arith) (omega arith) (omega arith) (omega arith) (omega arith)
      (omega arith) (omega arith)
small (suc zero) =
    eight _ (omega arith) (omega arith) (omega arith) (omega arith) (omega arith) (omega arith)
      (omega arith) (omega arith)
small (suc (suc k)) =
    λ i lt. rw (get_or_beyond rows (suc (suc k) * 8 + i) 0 (omega arith)) (omega arith)

png_unfilter-Filtered_example :
    ((k i : ℕ) → k < 2 → i < 8 → png_unfilter 100 2 2 memory (row_at 100 8 k + i) ≡ raw k i)
    × ((p : ℕ) → (p < 100) ⊎ (118 ≤ p) → png_unfilter 100 2 2 memory p ≡ memory p)
png_unfilter-Filtered_example =
    png_unfilter-Filtered raw 100 2 2 memory (omega arith) (omega arith) small memory-Filtered

-- The file of the same picture, at 1000.
abbrev bytes : List ℕ
bytes =
    137 ∷ 80 ∷ 78 ∷ 71 ∷ 13 ∷ 10 ∷ 26 ∷ 10 ∷ 0 ∷ 0 ∷ 0 ∷ 13 ∷ 73 ∷ 72 ∷ 68 ∷ 82 ∷ 0 ∷ 0 ∷ 0 ∷ 2 ∷ 0
    ∷ 0 ∷ 0 ∷ 2 ∷ 8 ∷ 6 ∷ 0 ∷ 0 ∷ 0 ∷ 1 ∷ 2 ∷ 3 ∷ 4 ∷ 0 ∷ 0 ∷ 0 ∷ 29 ∷ 73 ∷ 68 ∷ 65 ∷ 84 ∷ 120 ∷ 1
    ∷ 1 ∷ 18 ∷ 0 ∷ 237 ∷ 255 ∷ 1 ∷ 10 ∷ 20 ∷ 30 ∷ 255 ∷ 2 ∷ 254 ∷ 170 ∷ 0 ∷ 4 ∷ 251 ∷ 180 ∷ 1 ∷ 0
    ∷ 85 ∷ 73 ∷ 59 ∷ 255 ∷ 9 ∷ 9 ∷ 9 ∷ 9 ∷ 5 ∷ 6 ∷ 7 ∷ 8 ∷ 0 ∷ 0 ∷ 0 ∷ 0 ∷ 73 ∷ 69 ∷ 78 ∷ 68 ∷ 1 ∷ 1
    ∷ 1 ∷ 1 ∷ []

abbrev file_memory : Memory
file_memory p = get_or bytes (p - 1000) 0

abbrev bump : Allocator ℕ
bump = record { kmalloc = λ h n. (h, h + n); kfree = λ h p. h }

abbrev decoder : Decoder ℕ
decoder = record { heap = 5000; mem = file_memory; out_w = 0; out_h = 0 }

abbrev chunks : Chunks
chunks = record { width = 2; height = 2; idat = 1041; idat_size = 29 }

bytes-IsFile : IsFile file_memory 1000 86 chunks
unfolding starts_with
bytes-IsFile = record {
  magic = refl;
  header_size = refl;
  header_type = refl;
  width = refl;
  height = refl;
  supported = refl;
  data_size = refl;
  data_type = refl;
  data_place = refl;
  end_type = refl;
  inside = omega arith;
  small = omega arith;
}

file_memory-Filtered : Filtered raw 1048 8 2 0 file_memory
file_memory-Filtered = record { row_filtered = λ k lo hi i lt. go k hi i lt }
  where
    go :
        (k : ℕ)
        → k < 2
        → (i : ℕ) → i < 8
        → file_memory (row_at 1048 8 k + i)
          ≡ filtered (file_memory (row_at 1048 8 k - 1)) (above_row raw k) (raw k) i
    go zero hi = eight _ refl refl refl refl refl refl refl refl
    go (suc zero) hi = eight _ refl refl refl refl refl refl refl refl
    go (suc (suc k)) hi = absurd (omega arith)

bytes-Stored : Stored raw chunks file_memory
bytes-Stored = record {
  there = omega arith;
  header = omega arith;
  uncompressed = refl;
  size = refl;
  some_width = omega arith;
  room = omega arith;
  row_room = omega arith;
  bytes = small;
  rows = file_memory-Filtered;
}

blocks : Given bump chunks decoder 5000 5018
blocks = record {
  rows_heap = 5018;
  picture_heap = 5034;
  rows_given = refl;
  picture_given = refl;
  rows_there = omega arith;
  picture_there = omega arith;
  apart = inr (omega arith);
}

png_decode_buffer-IsPicture_example :
    IsPicture bump raw chunks 5018 (png_decode_buffer bump 1000 86 decoder)
png_decode_buffer-IsPicture_example =
    png_decode_buffer-IsPicture bump raw chunks decoder 1000 86 5000 5018 bytes-IsFile bytes-Stored
      blocks
