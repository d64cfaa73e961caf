-- ===== src/Boot/Kernel/Loads.antt =====
-- `LoadKernelELF` as a whole.
use mathlib.Core.Path.{subst}
use implus_os.Base.{
  ℕ, zero, suc, leb, ◌==◌, ◌+◌, ◌*◌, ◌^◌, ◌≤◌, ◌<◌, ◌≡◌, refl, sym, ap, ◌⊎◌, inl, inr, true, false,
  not, arith, if-cases,
}
use implus_os.Elf.{e_entry, e_phoff, e_phnum, pt_load, has_magic}
use implus_os.Elf.Segments.{long-same}
use implus_os.Boot.{
  Firmware, Boot, LoadHeader, load_header_at, efi_error, efi_success, place_segments,
  load_kernel_elf,
}
use implus_os.Boot.Kernel.{Granting}
use implus_os.Boot.Kernel.Image.{IsImage, Stands, Granted, Placed, header_of}
use implus_os.Boot.Kernel.Placed.{
  InPlace, header_of-same, e_phnum-same, Placed-end, Placed-skip, next, place_segment_lem,
  InPlace-next, Placed-load,
}

module _ {S : Type 0} (fw : Firmware S) (start : ℕ → ℕ) (image size phdrs : ℕ)
    (f : IsImage start image size phdrs) (g : Granting fw image size) where
  place_segments-Placed :
      (n i : ℕ) (b : Boot S)
      → e_phnum start image ≤ i + n
      → InPlace fw start image size phdrs f g b.mem
      → Placed fw start image phdrs i b.mem (place_segments fw n i phdrs image b)
  unfolding place_segments
  place_segments-Placed zero i b le same =
      Placed-end fw start image size phdrs f g i efi_success b b.firmware (inr (omega (arith, le)))
  place_segments-Placed (suc n) i b le same =
      let P : ℕ × Boot S → Type 0 = λ r. Placed fw start image phdrs i b.mem r in
      let s = load_header_at b.mem (phdrs + i * 56) in
      let pages = fw.allocate_pages_at b.firmware (fw.size_to_pages s.p_memsz) s.p_paddr in
      if-cases P (leb (e_phnum b.mem image) i) _ _
        (λ e.
          Placed-end fw start image size phdrs f g i efi_success b b.firmware
            (inr (ground (arith, e, e_phnum-same fw start image size phdrs f g b.mem same))))
        (λ more.
          let lt : i < e_phnum start image =
            ground (arith, more, e_phnum-same fw start image size phdrs f g b.mem same) in
          let eq = header_of-same fw start image size phdrs f g i b.mem same lt in
          if-cases P (not (s.p_type == pt_load)) _ _
            (λ e.
              Placed-skip fw start image size phdrs f g i b.mem _ (other eq e)
                (place_segments-Placed n (i + 1) b (omega (arith, le)) same))
            (λ e.
              if-cases P (efi_error pages.0) _ _
                (λ bad. Placed-end fw start image size phdrs f g i pages.0 b pages.1 (inl bad))
                (λ ok.
                  let l = load eq e in
                  let given = granted_for eq ok in
                  let put_it =
                    place_segment_lem fw start image size phdrs f g i b.mem b.firmware lt same l
                      given in
                  Placed-load fw start image size phdrs f g i b.mem b.firmware lt same l given _ (
                    subst
                      (λ m.
                        Placed fw start image phdrs (i + 1)
                          (next fw start image size phdrs f g i b.mem b.firmware lt same l given)
                          (place_segments fw n (i + 1) phdrs image
                            (record { firmware = pages.1; mem = m })))
                      (sym put_it)
                      (place_segments-Placed n (i + 1)
                        (record {
                          firmware = pages.1;
                          mem =
                              next fw start image size phdrs f g i b.mem b.firmware lt same l given;
                        })
                        (omega (arith, le))
                        (InPlace-next fw start image size phdrs f g i b.mem b.firmware lt same l
                          given))))))
    where
      other :
          {a : LoadHeader}
          → a ≡ header_of start phdrs i
          → not (a.p_type == pt_load) ≡ true
          → ((header_of start phdrs i).p_type == pt_load) ≡ false
      other {a} eq e = ground (arith, e, ap (λ (h : LoadHeader). h.p_type) eq)

      load :
          {a : LoadHeader}
          → a ≡ header_of start phdrs i
          → not (a.p_type == pt_load) ≡ false
          → (header_of start phdrs i).p_type ≡ pt_load
      load {a} eq e = ground (arith, e, ap (λ (h : LoadHeader). h.p_type) eq)

      granted_for :
          {a : LoadHeader}
          → a ≡ header_of start phdrs i
          → efi_error (fw.allocate_pages_at b.firmware (fw.size_to_pages a.p_memsz) a.p_paddr).0
            ≡ false
          → efi_error
              (fw.allocate_pages_at b.firmware
                (fw.size_to_pages (header_of start phdrs i).p_memsz)
                (header_of start phdrs i).p_paddr).0
            ≡ false
      granted_for eq ok =
          subst
            (λ (h : LoadHeader).
              efi_error (fw.allocate_pages_at b.firmware (fw.size_to_pages h.p_memsz) h.p_paddr).0
              ≡ false)
            eq ok

-- The outcome: what a success means, and what holds in any case.
pub record Loads {S : Type 0} (fw : Firmware S) (image : ℕ) (b : Boot S) (r : ℕ × (ℕ × Boot S))
    : Type 0 where
  pub stands :
      efi_error r.0 ≡ false
      → (k : ℕ) → k < e_phnum b.mem image
      → (header_of b.mem (image + e_phoff b.mem image) k).p_type ≡ pt_load
      → Stands b.mem image (header_of b.mem (image + e_phoff b.mem image) k) r.1.1.mem
  pub entry : efi_error r.0 ≡ false → r.1.0 ≡ e_entry b.mem image
  pub granted : (p : ℕ) → (r.1.1.mem p ≡ b.mem p) ⊎ Granted fw p

-- For an image whose headers and segments lie inside it, no segment longer in the file than in the memory,
-- and none over another, on firmware that grants no page of the image: when `LoadKernelELF` succeeds, every
-- segment to be loaded stands at its address, with the bytes of the image and zeros behind them, and the
-- entry point is that of the header; and in any case it changes only bytes in pages that the firmware granted.
pub load_kernel_elf-Loads :
    {S : Type 0} (fw : Firmware S) (image size : ℕ) (b : Boot S)
    → IsImage b.mem image size (image + e_phoff b.mem image)
    → Granting fw image size
    → Loads fw image b (load_kernel_elf fw image b)
unfolding load_kernel_elf
load_kernel_elf-Loads {S = S} fw image size b f g =
    let phdrs = image + e_phoff b.mem image in
    let placed = place_segments fw (2 ^ 16) 0 phdrs image b in
    let p =
      place_segments-Placed fw b.mem image size phdrs f g (2 ^ 16) 0 b (omega (arith, f.count))
        (λ j lo hi. refl) in
    let in_place : (j : ℕ) → image ≤ j → j < image + size → placed.1.mem j ≡ b.mem j = λ j lo hi.
      elim (p.granted j) [
        | inl e ↦ e
        | inr y ↦ elim (g.disjoint y.before y.pages y.addr y.granted) [
          | inl le ↦ absurd (omega (arith, le, lo, y.to))
          | inr le ↦ absurd (omega (arith, le, hi, y.from))
        ]
      ] in
    if-cases (Loads fw image b) (not (has_magic b.mem image)) _ _
      (λ e. record {
        stands = λ ok. absurd (cc ok);
        entry = λ ok. absurd (cc ok);
        granted = λ j. inl refl;
      })
      (λ e.
        if-cases (Loads fw image b) (efi_error placed.0) _
          (efi_success, (e_entry placed.1.mem image, placed.1))
          (λ bad. record {
            stands = λ ok. absurd (cc (ok, bad));
            entry = λ ok. absurd (cc (ok, bad));
            granted = p.granted;
          })
          (λ good. record {
            stands = λ ok k lt load. p.stands good k (omega arith) lt load;
            entry = λ ok.
                long-same image size b.mem placed.1.mem in_place (image + 24) (omega arith)
                  (omega (arith, f.head));
            granted = p.granted;
          }))
