-- ===== src/Png/File.antt =====
-- The chunks of a file with a header, one block of data, and an end.
use implus_os.Base.{
  ℕ, suc, ◌+◌, ◌%◌, ◌^◌, ◌<◌, ◌≡◌, refl, sym, ap, ◌∙◌, true, false, ltb, ◌==◌, some, arith,
}
use implus_os.Png.{
  Memory, Chunks, read_be32, is_supported, read_chunks, signature, starts_with, no_chunks,
}

-- The chunks of a file of `size` bytes at `buffer`: a header of 13 bytes for a picture that is
-- supported, a block of data, and an end.
pub record IsFile (mem : Memory) (buffer size : ℕ) (c : Chunks) : Type 0 where
  pub magic : starts_with signature buffer mem ≡ true
  pub header_size : read_be32 mem (buffer + 8) ≡ 13
  pub header_type : read_be32 mem (buffer + 12) ≡ 0x49484452
  pub width : read_be32 mem (buffer + 16) ≡ c.width
  pub height : read_be32 mem (buffer + 20) ≡ c.height
  pub supported : is_supported mem (buffer + 16) ≡ true
  pub data_size : read_be32 mem (buffer + 33) ≡ c.idat_size
  pub data_type : read_be32 mem (buffer + 37) ≡ 0x49444154
  pub data_place : c.idat ≡ buffer + 41
  pub end_type : read_be32 mem (buffer + 49 + c.idat_size) ≡ 0x49454e44
  pub inside : 45 + c.idat_size < size
  pub small : c.idat_size + 4 < 2 ^ 32

module _ (mem : Memory) (fuel p end : ℕ) (c : Chunks) (more : ltb p end ≡ true) where
  header_chunk :
      read_be32 mem (p + 4) ≡ 0x49484452
      → is_supported mem (p + 8) ≡ true
      → read_chunks (suc fuel) mem p end c
        ≡ read_chunks fuel mem
            (p + 8 + (read_be32 mem p + 4) % 2 ^ 32)
            end
            (record c { width = read_be32 mem (p + 8); height = read_be32 mem (p + 12) })
  unfolding read_chunks
  header_chunk t s =
      let is : (read_be32 mem (p + 4) == 0x49484452) ≡ true = ap (λ n. n == 0x49484452) t in
      rw (more, is, s) refl

  data_chunk :
      read_be32 mem (p + 4) ≡ 0x49444154
      → read_chunks (suc fuel) mem p end c
        ≡ read_chunks fuel mem
            (p + 8 + (read_be32 mem p + 4) % 2 ^ 32)
            end
            (record c { idat = p + 8; idat_size = read_be32 mem p })
  unfolding read_chunks
  data_chunk t =
      let other : (read_be32 mem (p + 4) == 0x49484452) ≡ false = ap (λ n. n == 0x49484452) t in
      let is : (read_be32 mem (p + 4) == 0x49444154) ≡ true = ap (λ n. n == 0x49444154) t in
      rw (more, other, is) refl

  end_chunk : read_be32 mem (p + 4) ≡ 0x49454e44 → read_chunks (suc fuel) mem p end c ≡ some c
  unfolding read_chunks
  end_chunk t =
      let other : (read_be32 mem (p + 4) == 0x49484452) ≡ false = ap (λ n. n == 0x49484452) t in
      let another : (read_be32 mem (p + 4) == 0x49444154) ≡ false = ap (λ n. n == 0x49444154) t in
      let is : (read_be32 mem (p + 4) == 0x49454e44) ≡ true = ap (λ n. n == 0x49454e44) t in
      rw (more, other, another, is) refl

pub read_chunks-IsFile :
    (mem : Memory) (buffer fuel : ℕ) (c : Chunks)
    → IsFile mem buffer (suc (suc (suc fuel))) c
    → read_chunks (suc (suc (suc fuel))) mem (buffer + 8) (buffer + suc (suc (suc fuel))) no_chunks
      ≡ some c
read_chunks-IsFile mem buffer fuel c f =
    let end = buffer + suc (suc (suc fuel)) in
    header_chunk mem (suc (suc fuel)) (buffer + 8) end no_chunks (ground (arith, f.inside))
      (ap (read_be32 mem) first ∙ f.header_type) (ap (is_supported mem) second ∙ f.supported)
    ∙ chunks_eq (suc (suc fuel)) end next (ap (read_be32 mem) second ∙ f.width)
        (ap (read_be32 mem) third ∙ f.height) refl refl
    ∙ data_chunk mem (suc fuel) (buffer + 33) end _ (ground (arith, f.inside))
        (ap (read_be32 mem) fourth ∙ f.data_type)
    ∙ chunks_eq (suc fuel) end last refl refl (fifth ∙ sym f.data_place) f.data_size
    ∙ end_chunk mem fuel (buffer + 45 + c.idat_size) end c (ground (arith, f.inside))
        (ap (read_be32 mem) sixth ∙ f.end_type)
  where
    first : buffer + 8 + 4 ≡ buffer + 12
    first = omega arith

    second : buffer + 8 + 8 ≡ buffer + 16
    second = omega arith

    third : buffer + 8 + 12 ≡ buffer + 20
    third = omega arith

    fourth : buffer + 33 + 4 ≡ buffer + 37
    fourth = omega arith

    fifth : buffer + 33 + 8 ≡ buffer + 41
    fifth = omega arith

    sixth : buffer + 45 + c.idat_size + 4 ≡ buffer + 49 + c.idat_size
    sixth = omega arith

    next : buffer + 8 + 8 + (read_be32 mem (buffer + 8) + 4) % 2 ^ 32 ≡ buffer + 33
    next = omega (arith, f.header_size)

    last : buffer + 33 + 8 + (read_be32 mem (buffer + 33) + 4) % 2 ^ 32 ≡ buffer + 45 + c.idat_size
    last = omega (arith, f.data_size, f.small)

    chunks_eq :
        (n end : ℕ) {p p' w w' h h' i i' z z' : ℕ}
        → p ≡ p'
        → w ≡ w'
        → h ≡ h'
        → i ≡ i'
        → z ≡ z'
        → read_chunks n mem p end (record { width = w; height = h; idat = i; idat_size = z })
          ≡ read_chunks n mem p' end (record { width = w'; height = h'; idat = i'; idat_size = z' })
    chunks_eq n end ep ew eh ei ez = cc (ep, ew, eh, ei, ez)
