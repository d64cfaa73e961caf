-- ===== src/Boot/Kernel/Placed.antt =====
-- One round of the loop over the headers: an end, a header that is passed over, and a segment that is
-- loaded.
use mathlib.Core.Path.{subst}
use implus_os.Base.{
  ℕ, ◌+◌, ◌-◌, ◌*◌, ◌%◌, ◌^◌, ◌≤◌, ◌<◌, ◌≡◌, refl, ap, ◌∙◌, ◌⊎◌, inl, inr, Bool, true, false, ◌&&◌,
  ltb, leb, ◌==◌, arith, mul_step, Bool-cases,
}
use implus_os.Elf.{e_phnum, pt_load}
use implus_os.Elf.Segments.{half-same}
use implus_os.Boot.{Firmware, Boot, LoadHeader, load_header_at, efi_error, place_segment}
use implus_os.Boot.Kernel.{
  Granting, Outside, Fits, copy, put, copy-Outside, put-Outside, put_file, put_zeros,
  load_header-same,
}
use implus_os.Boot.Kernel.Image.{header_of, IsImage, Stands, Granted, Placed}

module _ {S : Type 0} (fw : Firmware S) (start : ℕ → ℕ) (image size phdrs : ℕ)
    (f : IsImage start image size phdrs) (g : Granting fw image size) where
  abbrev pub InPlace : (ℕ → ℕ) → Type 0
  InPlace mem = (p : ℕ) → image ≤ p → p < image + size → mem p ≡ start p

  pub header_of-same :
      (k : ℕ) (mem : ℕ → ℕ)
      → InPlace mem
      → k < e_phnum start image
      → load_header_at mem (phdrs + k * 56) ≡ header_of start phdrs k
  header_of-same k mem same lt =
      load_header-same image size start mem same (phdrs + k * 56) (omega (arith, f.table))
        (omega (arith, f.table_end, mul_step k (e_phnum start image) 56 lt))

  pub e_phnum-same : (mem : ℕ → ℕ) → InPlace mem → e_phnum mem image ≡ e_phnum start image
  e_phnum-same mem same =
      half-same image size start mem same (image + 56) (omega arith) (omega (arith, f.head))

  pub Placed-end :
      (i status : ℕ) (b : Boot S) (s : S)
      → (efi_error status ≡ true) ⊎ (e_phnum start image ≤ i)
      → Placed fw start image phdrs i b.mem (status, record b { firmware = s })
  Placed-end i status b s h = record {
    stands = λ ok k lo hi. elim h [
      | inl e ↦ absurd (cc (ok, e))
      | inr le ↦ absurd (omega (arith, lo, hi, le))
    ];
    outside = λ p out. refl;
    granted = λ p. inl refl;
  }

  pub Placed-skip :
      (i : ℕ) (mem : ℕ → ℕ) (r : ℕ × Boot S)
      → ((header_of start phdrs i).p_type == pt_load) ≡ false
      → Placed fw start image phdrs (i + 1) mem r
      → Placed fw start image phdrs i mem r
  Placed-skip i mem r other ih = record {
    stands = λ ok k lo hi load. elim (Bool-cases (ltb i k)) [
      | inl e ↦ ih.stands ok k (ground (arith, e)) hi load
      | inr e ↦
          let eq : k ≡ i = ground (arith, e, lo) in
          absurd
            (ground (arith, other, subst (λ n. (header_of start phdrs n).p_type ≡ pt_load) eq load))
    ];
    outside = λ p away. ih.outside p (λ k lo. away k (omega (arith, lo)));
    granted = ih.granted;
  }

  module _ (i : ℕ) (mem : ℕ → ℕ) (s : S) (lt : i < e_phnum start image) (same : InPlace mem)
      (load : (header_of start phdrs i).p_type ≡ pt_load)
      (given : efi_error
          (fw.allocate_pages_at s
            (fw.size_to_pages (header_of start phdrs i).p_memsz)
            (header_of start phdrs i).p_paddr).0
        ≡ false) where
    apart_image :
        ((header_of start phdrs i).p_paddr + (header_of start phdrs i).p_memsz ≤ image)
        ⊎ (image + size ≤ (header_of start phdrs i).p_paddr)
    apart_image = elim (g.disjoint s _ _ given) [
      | inl le ↦ inl (omega (arith, le, g.covers (header_of start phdrs i).p_memsz))
      | inr le ↦ inr le
    ]

    away : (p : ℕ) → image ≤ p → p < image + size → Outside (header_of start phdrs i) p
    away p lo hi = elim apart_image [
      | inl le ↦ inr (omega (arith, le, lo))
      | inr le ↦ inl (omega (arith, le, hi))
    ]

    abbrev pub next : ℕ → ℕ
    next = put fw g (header_of start phdrs i) mem

    Fits-header : Fits (header_of start phdrs i)
    Fits-header = f.fits i lt load

    pub place_segment_lem : place_segment fw image (phdrs + i * 56) mem ≡ next
    unfolding place_segment
    place_segment_lem =
        let h = header_of start phdrs i in
        let copied = copy fw g h mem in
        let after : load_header_at copied (phdrs + i * 56) ≡ h =
          header_of-same i copied
            (λ p lo hi. copy-Outside fw g h mem Fits-header p (away p lo hi) ∙ same p lo hi) lt in
        ap
          (λ a.
            let c = copy fw g a mem in
            let t = load_header_at c (phdrs + i * 56) in
            fw.set_mem ((t.p_paddr + t.p_filesz) % 2 ^ 64)
              ((t.p_memsz + 2 ^ 64 - t.p_filesz) % 2 ^ 64) 0 c)
          (header_of-same i mem same lt)
        ∙ ap
            (λ (t : LoadHeader).
              fw.set_mem ((t.p_paddr + t.p_filesz) % 2 ^ 64)
                ((t.p_memsz + 2 ^ 64 - t.p_filesz) % 2 ^ 64) 0 copied)
            after

    pub InPlace-next : InPlace next
    InPlace-next p lo hi =
        put-Outside fw g (header_of start phdrs i) mem Fits-header p (away p lo hi) ∙ same p lo hi

    Stands-next : Stands start image (header_of start phdrs i) next
    Stands-next = record {
      from_image = λ j in_file.
          put_file fw g (header_of start phdrs i) mem Fits-header apart_image (f.inside i lt load) j
            in_file
          ∙ same (image + (header_of start phdrs i).p_offset + j) (omega arith)
              (omega (arith, in_file, f.inside i lt load));
      zeros =
          λ j le in_memory. put_zeros fw g (header_of start phdrs i) mem Fits-header j le in_memory;
    }

    Granted-next : (p : ℕ) → (next p ≡ mem p) ⊎ Granted fw p
    Granted-next p = elim (Bool-cases (within (header_of start phdrs i) p)) [
      | inl e ↦ inr (record {
        before = s;
        pages = fw.size_to_pages (header_of start phdrs i).p_memsz;
        addr = (header_of start phdrs i).p_paddr;
        granted = given;
        from = ground (arith, e);
        to = ground (arith, e, g.covers (header_of start phdrs i).p_memsz);
      })
      | inr e ↦
          inl (put-Outside fw g (header_of start phdrs i) mem Fits-header p (ground (arith, e)))
    ]
      where
        within : LoadHeader → ℕ → Bool
        within h p = leb h.p_paddr p && ltb p (h.p_paddr + h.p_memsz)

    pub Placed-load :
        (r : ℕ × Boot S)
        → Placed fw start image phdrs (i + 1) next r
        → Placed fw start image phdrs i mem r
    Placed-load r ih = record {
      stands = λ ok k lo hi load_k. elim (Bool-cases (ltb i k)) [
        | inl e ↦ ih.stands ok k (ground (arith, e)) hi load_k
        | inr e ↦
            let eq : i ≡ k = ground (arith, e, lo) in
            subst (λ n. Stands start image (header_of start phdrs n) r.1.mem) eq
              (record {
                from_image = λ j in_file.
                    kept j (omega (arith, in_file, Fits-header.no_longer))
                    ∙ Stands-next.from_image j in_file;
                zeros = λ j le in_memory. kept j in_memory ∙ Stands-next.zeros j le in_memory;
              })
      ];
      outside = λ p away.
          ih.outside p (λ k lo. away k (omega (arith, lo)))
          ∙ put-Outside fw g (header_of start phdrs i) mem Fits-header p
              (away i (omega arith) lt load);
      granted = λ p. elim (ih.granted p) [
        | inl e ↦ elim (Granted-next p) [ inl e' ↦ inl (e ∙ e') | inr y ↦ inr y ]
        | inr y ↦ inr y
      ];
    }
      where
        kept :
            (j : ℕ)
            → j < (header_of start phdrs i).p_memsz
            → r.1.mem ((header_of start phdrs i).p_paddr + j)
              ≡ next ((header_of start phdrs i).p_paddr + j)
        kept j in_memory =
            ih.outside _
              (λ k lo hi load_k. f.apart i k (omega (arith, lo)) hi load load_k j in_memory)
