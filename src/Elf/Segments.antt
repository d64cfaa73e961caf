-- ===== src/Elf/Segments.antt =====
-- What `load_userland_elf` leaves in the memory for a program whose segments lie apart.
use mathlib.Core.Path.{subst}
use implus_os.Base.{
  ℕ, zero, suc, ◌+◌, ◌-◌, ◌*◌, ◌^◌, ◌≤◌, ◌<◌, ◌≡◌, refl, sym, ap, ◌∙◌, ◌⊎◌, inl, inr, Bool, true,
  false, not, ltb, leb, ◌==◌, arith, Bool-cases, if-cases, mul_step,
}
use implus_os.Strings.{memcpy, memcpy_lem, memcpy_outside, memset_lem}
use implus_os.Elf.{
  half_at, word_at, long_at, e_phnum, Phdr, phdr_at, pt_load, is_valid, load_segment, load_segments,
}

-- An address outside of what a segment takes.
abbrev pub Beyond : Phdr → ℕ → Type 0
Beyond s p = (p < s.p_vaddr) ⊎ (s.p_vaddr + s.p_memsz ≤ p)

module _ (s : Phdr) (buffer : ℕ) (mem : ℕ → ℕ) (fits : s.p_filesz ≤ s.p_memsz) where
  pub load_segment_outside : (p : ℕ) → Beyond s p → load_segment s buffer mem p ≡ mem p
  load_segment_outside p out = ground (
    arith,
    out,
    fits,
    memset_lem (s.p_memsz - s.p_filesz) (s.p_vaddr + s.p_filesz) 0
        (memcpy s.p_filesz s.p_vaddr (buffer + s.p_offset) mem) p,
    memcpy_outside s.p_filesz s.p_vaddr (buffer + s.p_offset) mem p (omega (arith, out, fits)),
  )

  load_segment_file :
      (s.p_vaddr ≤ buffer + s.p_offset) ⊎ (buffer + s.p_offset + s.p_filesz ≤ s.p_vaddr)
      → (j : ℕ) → j < s.p_filesz
      → load_segment s buffer mem (s.p_vaddr + j) ≡ mem (buffer + s.p_offset + j)
  load_segment_file apart j lt = ground (
    arith,
    lt,
    memset_lem (s.p_memsz - s.p_filesz) (s.p_vaddr + s.p_filesz) 0
        (memcpy s.p_filesz s.p_vaddr (buffer + s.p_offset) mem) (s.p_vaddr + j),
    (memcpy_lem s.p_filesz s.p_vaddr (buffer + s.p_offset) mem apart).0 j lt,
  )

  load_segment_zeros :
      (j : ℕ) → s.p_filesz ≤ j → j < s.p_memsz → load_segment s buffer mem (s.p_vaddr + j) ≡ 0
  load_segment_zeros j le lt = ground (
    arith,
    le,
    lt,
    fits,
    memset_lem (s.p_memsz - s.p_filesz) (s.p_vaddr + s.p_filesz) 0
        (memcpy s.p_filesz s.p_vaddr (buffer + s.p_offset) mem) (s.p_vaddr + j),
  )

module _ (buffer size : ℕ) (start mem : ℕ → ℕ)
    (same : (p : ℕ) → buffer ≤ p → p < buffer + size → mem p ≡ start p) where
  pub half-same : (p : ℕ) → buffer ≤ p → p + 2 ≤ buffer + size → half_at mem p ≡ half_at start p
  half-same p lo hi = cc (same p lo (omega arith), same (p + 1) (omega arith) (omega arith))

  pub word-same : (p : ℕ) → buffer ≤ p → p + 4 ≤ buffer + size → word_at mem p ≡ word_at start p
  word-same p lo hi =
      cc (half-same p lo (omega arith), half-same (p + 2) (omega arith) (omega arith))

  pub long-same : (p : ℕ) → buffer ≤ p → p + 8 ≤ buffer + size → long_at mem p ≡ long_at start p
  long-same p lo hi =
      cc (word-same p lo (omega arith), word-same (p + 4) (omega arith) (omega arith))

  phdr-same : (p : ℕ) → buffer ≤ p → p + 56 ≤ buffer + size → phdr_at mem p ≡ phdr_at start p
  phdr-same p lo hi = cc (
    word-same p lo (omega arith),
    long-same (p + 8) (omega arith) (omega arith),
    long-same (p + 16) (omega arith) (omega arith),
    long-same (p + 32) (omega arith) (omega arith),
    long-same (p + 40) (omega arith) (omega arith),
  )

-- The program header number `k` of a file that stands in the memory.
abbrev pub header : (ℕ → ℕ) → ℕ → ℕ → Phdr
header start phdrs k = phdr_at start (phdrs + k * 56)

-- A file of `size` bytes at `buffer` that can be loaded: its headers and what its segments take from it
-- lie inside; the segments are valid, and lie apart from the buffer and from each other.
pub record Loadable (start : ℕ → ℕ) (buffer size phdrs : ℕ) : Type 0 where
  pub head : 58 ≤ size
  pub count : e_phnum start buffer < 2 ^ 16
  pub table : buffer ≤ phdrs
  pub table_end : phdrs + e_phnum start buffer * 56 ≤ buffer + size
  pub valid :
      (k : ℕ)
      → k < e_phnum start buffer
      → (header start phdrs k).p_type ≡ pt_load
      → (is_valid (header start phdrs k) ≡ true)
        × ((header start phdrs k).p_offset + (header start phdrs k).p_filesz ≤ size)
        × (((header start phdrs k).p_vaddr + (header start phdrs k).p_memsz ≤ buffer)
            ⊎ (buffer + size ≤ (header start phdrs k).p_vaddr))
  pub apart :
      (k l : ℕ)
      → k < l
      → l < e_phnum start buffer
      → (header start phdrs k).p_type ≡ pt_load
      → (header start phdrs l).p_type ≡ pt_load
      → (j : ℕ) → j < (header start phdrs k).p_memsz
      → Beyond (header start phdrs l) ((header start phdrs k).p_vaddr + j)

-- A memory in which a segment stands as the file at `buffer` says.
pub record Holds (start : ℕ → ℕ) (buffer : ℕ) (s : Phdr) (mem : ℕ → ℕ) : Type 0 where
  pub from_file : (j : ℕ) → j < s.p_filesz → mem (s.p_vaddr + j) ≡ start (buffer + s.p_offset + j)
  pub zeros : (j : ℕ) → s.p_filesz ≤ j → j < s.p_memsz → mem (s.p_vaddr + j) ≡ 0

-- The outcome for the segments from number `i` on.
pub record Loaded (start : ℕ → ℕ) (buffer phdrs i : ℕ) (mem : ℕ → ℕ) (out : Bool × (ℕ → ℕ))
    : Type 0 where
  pub succeeds : out.0 ≡ true
  pub holds :
      (k : ℕ)
      → i ≤ k
      → k < e_phnum start buffer
      → (header start phdrs k).p_type ≡ pt_load
      → Holds start buffer (header start phdrs k) out.1
  pub outside :
      (p : ℕ)
      → ((k : ℕ)
          → i ≤ k
          → k < e_phnum start buffer
          → (header start phdrs k).p_type ≡ pt_load
          → Beyond (header start phdrs k) p)
      → out.1 p ≡ mem p

pub fits_memory : (s : Phdr) → is_valid s ≡ true → s.p_filesz ≤ s.p_memsz
fits_memory s e = ground (arith, e)

module _ (start : ℕ → ℕ) (buffer size phdrs : ℕ) (f : Loadable start buffer size phdrs) where
  -- The file stands in the memory as it was at the start.
  abbrev pub InPlace : (ℕ → ℕ) → Type 0
  InPlace mem = (p : ℕ) → buffer ≤ p → p < buffer + size → mem p ≡ start p

  header_inside : (k : ℕ) → k < e_phnum start buffer → phdrs + k * 56 + 56 ≤ buffer + size
  header_inside k lt = omega (arith, f.table_end, mul_step k (e_phnum start buffer) 56 lt)

  header-same :
      (k : ℕ) (mem : ℕ → ℕ)
      → InPlace mem
      → k < e_phnum start buffer
      → phdr_at mem (phdrs + k * 56) ≡ header start phdrs k
  header-same k mem same lt =
      phdr-same buffer size start mem same (phdrs + k * 56) (omega (arith, f.table))
        (header_inside k lt)

  e_phnum-same : (mem : ℕ → ℕ) → InPlace mem → e_phnum mem buffer ≡ e_phnum start buffer
  e_phnum-same mem same =
      half-same buffer size start mem same (buffer + 56) (omega arith) (omega (arith, f.head))

  pub Loaded-end :
      (i : ℕ) (mem : ℕ → ℕ) → e_phnum start buffer ≤ i → Loaded start buffer phdrs i mem (true, mem)
  Loaded-end i mem le = record {
    succeeds = refl;
    holds = λ k lo hi. absurd (omega (arith, lo, hi, le));
    outside = λ p out. refl;
  }

  -- A header that does not ask for loading.
  Loaded-skip :
      (i : ℕ) (mem : ℕ → ℕ) (out : Bool × (ℕ → ℕ))
      → ((header start phdrs i).p_type == pt_load) ≡ false
      → Loaded start buffer phdrs (i + 1) mem out
      → Loaded start buffer phdrs i mem out
  Loaded-skip i mem out other ih = record {
    succeeds = ih.succeeds;
    holds = λ k lo hi load. elim (Bool-cases (ltb i k)) [
      | inl e ↦ ih.holds k (ground (arith, e)) hi load
      | inr e ↦
          let eq : k ≡ i = ground (arith, e, lo) in
          absurd
            (ground (arith, other, subst (λ n. (header start phdrs n).p_type ≡ pt_load) eq load))
    ];
    outside = λ p away. ih.outside p (λ k lo. away k (omega (arith, lo)));
  }

  module _ (i : ℕ) (mem : ℕ → ℕ) (lt : i < e_phnum start buffer) (same : InPlace mem)
      (load : (header start phdrs i).p_type ≡ pt_load) where
    next : ℕ → ℕ
    next = load_segment (header start phdrs i) buffer mem

    fits : (header start phdrs i).p_filesz ≤ (header start phdrs i).p_memsz
    fits = fits_memory (header start phdrs i) (f.valid i lt load).0

    InPlace-next : InPlace next
    unfolding next
    InPlace-next p lo hi =
        load_segment_outside (header start phdrs i) buffer mem fits p (away (f.valid i lt load).2)
        ∙ same p lo hi
      where
        away :
            ((header start phdrs i).p_vaddr + (header start phdrs i).p_memsz ≤ buffer)
              ⊎ (buffer + size ≤ (header start phdrs i).p_vaddr)
            → Beyond (header start phdrs i) p
        away (inl le) = inr (omega (arith, le, lo))
        away (inr le) = inl (omega (arith, le, hi))

    Holds-next : Holds start buffer (header start phdrs i) next
    unfolding next
    Holds-next = record {
      from_file = λ j in_file.
          load_segment_file (header start phdrs i) buffer mem fits (away (f.valid i lt load).2) j
            in_file
          ∙ same (buffer + (header start phdrs i).p_offset + j) (omega arith)
              (omega (arith, in_file, (f.valid i lt load).1));
      zeros = λ j le in_memory.
          load_segment_zeros (header start phdrs i) buffer mem fits j le in_memory;
    }
      where
        away :
            ((header start phdrs i).p_vaddr + (header start phdrs i).p_memsz ≤ buffer)
              ⊎ (buffer + size ≤ (header start phdrs i).p_vaddr)
            → ((header start phdrs i).p_vaddr ≤ buffer + (header start phdrs i).p_offset)
              ⊎ (buffer + (header start phdrs i).p_offset + (header start phdrs i).p_filesz
                  ≤ (header start phdrs i).p_vaddr)
        away (inl le) = inl (omega (arith, le))
        away (inr le) = inr (omega (arith, le, (f.valid i lt load).1))

    Loaded-load :
        (out : Bool × (ℕ → ℕ))
        → Loaded start buffer phdrs (i + 1) next out
        → Loaded start buffer phdrs i mem out
    unfolding next
    Loaded-load out ih = record {
      succeeds = ih.succeeds;
      holds = λ k lo hi load_k. elim (Bool-cases (ltb i k)) [
        | inl e ↦ ih.holds k (ground (arith, e)) hi load_k
        | inr e ↦
            let eq : i ≡ k = ground (arith, e, lo) in
            subst (λ n. Holds start buffer (header start phdrs n) out.1) eq
              (record {
                from_file = λ j in_file.
                    kept j (omega (arith, in_file, fits)) ∙ Holds-next.from_file j in_file;
                zeros = λ j le in_memory. kept j in_memory ∙ Holds-next.zeros j le in_memory;
              })
      ];
      outside = λ p away.
          ih.outside p (λ k lo. away k (omega (arith, lo)))
          ∙ load_segment_outside (header start phdrs i) buffer mem fits p
              (away i (omega arith) lt load);
    }
      where
        kept :
            (j : ℕ)
            → j < (header start phdrs i).p_memsz
            → out.1 ((header start phdrs i).p_vaddr + j) ≡ next ((header start phdrs i).p_vaddr + j)
        kept j in_memory =
            ih.outside _
              (λ k lo hi load_k. f.apart i k (omega (arith, lo)) hi load load_k j in_memory)

  pub load_segments-Loaded :
      (n i : ℕ) (mem : ℕ → ℕ)
      → e_phnum start buffer ≤ i + n
      → InPlace mem
      → Loaded start buffer phdrs i mem (load_segments n i phdrs buffer mem)
  unfolding load_segments next
  load_segments-Loaded zero i mem le same = Loaded-end i mem (omega (arith, le))
  load_segments-Loaded (suc n) i mem le same =
      let P : Bool × (ℕ → ℕ) → Type 0 = λ out. Loaded start buffer phdrs i mem out in
      if-cases P (leb (e_phnum mem buffer) i) _ _
        (λ e. Loaded-end i mem (ground (arith, e, e_phnum-same mem same)))
        (λ more.
          let lt : i < e_phnum start buffer = ground (arith, more, e_phnum-same mem same) in
          let eq = header-same i mem same lt in
          if-cases P (not ((phdr_at mem (phdrs + i * 56)).p_type == pt_load)) _ _
            (λ e.
              Loaded-skip i mem _ (other eq e)
                (load_segments-Loaded n (i + 1) mem (omega (arith, le)) same))
            (λ e.
              if-cases P (is_valid (phdr_at mem (phdrs + i * 56))) _ _
                (λ v. Loaded-load i mem lt same (load eq e) _ (
                  subst
                    (λ h.
                      Loaded start buffer phdrs (i + 1) (next i mem lt same (load eq e))
                        (load_segments n (i + 1) phdrs buffer (load_segment h buffer mem)))
                    (sym eq)
                    (load_segments-Loaded n (i + 1) (next i mem lt same (load eq e))
                      (omega (arith, le)) (InPlace-next i mem lt same (load eq e)))))
                (λ v. absurd (cc (v, ap is_valid eq, (f.valid i lt (load eq e)).0)))))
    where
      other :
          {a : Phdr}
          → a ≡ header start phdrs i
          → not (a.p_type == pt_load) ≡ true
          → ((header start phdrs i).p_type == pt_load) ≡ false
      other {a} eq e = ground (arith, e, ap (λ (h : Phdr). h.p_type) eq)

      load :
          {a : Phdr}
          → a ≡ header start phdrs i
          → not (a.p_type == pt_load) ≡ false
          → (header start phdrs i).p_type ≡ pt_load
      load {a} eq e = ground (arith, e, ap (λ (h : Phdr). h.p_type) eq)
