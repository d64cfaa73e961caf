-- ===== src/Boot/Kernel.antt =====
-- What `LoadKernelELF` does to the memory.
pub mod Image
pub mod Loads
pub mod Placed
use implus_os.Base.{
  ℕ, zero, suc, ◌+◌, ◌-◌, ◌*◌, ◌%◌, ◌^◌, ◌≤◌, ◌<◌, ◌≡◌, refl, sym, ap, ◌∙◌, ◌⊎◌, inl, inr, Bool,
  true, false, not, ltb, leb, ◌==◌, arith, mul_step,
}
use implus_os.Elf.{half_at, word_at, long_at, e_phnum, pt_load}
use implus_os.Elf.Segments.{half-same, word-same, long-same}
use implus_os.Boot.{Firmware, Boot, LoadHeader, load_header_at, efi_error, place_segment}

-- `CopyMem`, `SetMem` and `EFI_SIZE_TO_PAGES` do what their descriptions say, and the firmware grants
-- only pages in which nothing of the image stands.
pub record Granting {S : Type 0} (fw : Firmware S) (image size : ℕ) : Type 0 where
  pub copies :
      (dst src n : ℕ) (mem : ℕ → ℕ)
      → (dst + n ≤ src) ⊎ (src + n ≤ dst)
      → (i : ℕ) → i < n
      → fw.copy_mem dst src n mem (dst + i) ≡ mem (src + i)
  pub copied_outside :
      (dst src n : ℕ) (mem : ℕ → ℕ) (j : ℕ)
      → (j < dst) ⊎ (dst + n ≤ j)
      → fw.copy_mem dst src n mem j ≡ mem j
  pub set : (dst n v : ℕ) (mem : ℕ → ℕ) (i : ℕ) → i < n → fw.set_mem dst n v mem (dst + i) ≡ v
  pub set_outside :
      (dst n v : ℕ) (mem : ℕ → ℕ) (j : ℕ)
      → (j < dst) ⊎ (dst + n ≤ j)
      → fw.set_mem dst n v mem j ≡ mem j
  pub covers : (n : ℕ) → n ≤ fw.size_to_pages n * 4096
  pub disjoint :
      (s : S) (pages addr : ℕ)
      → efi_error (fw.allocate_pages_at s pages addr).0 ≡ false
      → (addr + pages * 4096 ≤ image) ⊎ (image + size ≤ addr)

-- An address outside of what a segment takes.
abbrev pub Outside : LoadHeader → ℕ → Type 0
Outside s p = (p < s.p_paddr) ⊎ (s.p_paddr + s.p_memsz ≤ p)

-- A segment that is no longer in the file than in the memory, which it does not leave.
pub record Fits (s : LoadHeader) : Type 0 where
  pub no_longer : s.p_filesz ≤ s.p_memsz
  pub ends : s.p_paddr + s.p_memsz < 2 ^ 64

module _ {S : Type 0} (fw : Firmware S) {image size : ℕ} (g : Granting fw image size) where
  -- The copy and the zeros, for a header that stays as it is.
  abbrev pub copy : LoadHeader → (ℕ → ℕ) → ℕ → ℕ
  copy s mem = fw.copy_mem s.p_paddr (image + s.p_offset) s.p_filesz mem

  abbrev pub put : LoadHeader → (ℕ → ℕ) → ℕ → ℕ
  put s mem =
      fw.set_mem ((s.p_paddr + s.p_filesz) % 2 ^ 64) ((s.p_memsz + 2 ^ 64 - s.p_filesz) % 2 ^ 64) 0
        (copy s mem)

  module _ (s : LoadHeader) (mem : ℕ → ℕ) (f : Fits s) where
    zeros_at : (s.p_paddr + s.p_filesz) % 2 ^ 64 ≡ s.p_paddr + s.p_filesz
    zeros_at = omega (arith, f.no_longer, f.ends)

    zeros_count : (s.p_memsz + 2 ^ 64 - s.p_filesz) % 2 ^ 64 ≡ s.p_memsz - s.p_filesz
    zeros_count = omega (arith, f.no_longer, f.ends)

    put_lem :
        (p : ℕ)
        → put s mem p
          ≡ fw.set_mem (s.p_paddr + s.p_filesz) (s.p_memsz - s.p_filesz) 0 (copy s mem) p
    put_lem p =
        ap (λ a. fw.set_mem a ((s.p_memsz + 2 ^ 64 - s.p_filesz) % 2 ^ 64) 0 (copy s mem) p)
          zeros_at
        ∙ ap (λ n. fw.set_mem (s.p_paddr + s.p_filesz) n 0 (copy s mem) p) zeros_count

    pub copy-Outside : (p : ℕ) → Outside s p → copy s mem p ≡ mem p
    copy-Outside p out =
        g.copied_outside s.p_paddr (image + s.p_offset) s.p_filesz mem p
          (omega (arith, out, f.no_longer))

    pub put-Outside : (p : ℕ) → Outside s p → put s mem p ≡ mem p
    put-Outside p out =
        put_lem p
        ∙ g.set_outside (s.p_paddr + s.p_filesz) (s.p_memsz - s.p_filesz) 0 (copy s mem) p
            (omega (arith, out, f.no_longer))
        ∙ copy-Outside p out

    pub put_file :
        (s.p_paddr + s.p_memsz ≤ image) ⊎ (image + size ≤ s.p_paddr)
        → s.p_offset + s.p_filesz ≤ size
        → (j : ℕ) → j < s.p_filesz
        → put s mem (s.p_paddr + j) ≡ mem (image + s.p_offset + j)
    put_file apart inside j lt =
        put_lem (s.p_paddr + j)
        ∙ g.set_outside (s.p_paddr + s.p_filesz) (s.p_memsz - s.p_filesz) 0 (copy s mem)
            (s.p_paddr + j) (inl (omega (arith, lt)))
        ∙ g.copies s.p_paddr (image + s.p_offset) s.p_filesz mem
            (omega (arith, apart, inside, f.no_longer)) j lt

    pub put_zeros : (j : ℕ) → s.p_filesz ≤ j → j < s.p_memsz → put s mem (s.p_paddr + j) ≡ 0
    put_zeros j le lt =
        let at : s.p_paddr + s.p_filesz + (j - s.p_filesz) ≡ s.p_paddr + j = omega (arith, le) in
        put_lem (s.p_paddr + j)
        ∙ ap (fw.set_mem (s.p_paddr + s.p_filesz) (s.p_memsz - s.p_filesz) 0 (copy s mem)) (sym at)
        ∙ g.set (s.p_paddr + s.p_filesz) (s.p_memsz - s.p_filesz) 0 (copy s mem) (j - s.p_filesz)
            (omega (arith, le, lt))

-- A header in the image is the same in two memories that agree there.
pub load_header-same :
    (image size : ℕ) (start mem : ℕ → ℕ)
    → ((p : ℕ) → image ≤ p → p < image + size → mem p ≡ start p)
    → (p : ℕ) → image ≤ p
    → p + 56 ≤ image + size
    → load_header_at mem p ≡ load_header_at start p
load_header-same image size start mem same p lo hi = cc (
  word-same image size start mem same p lo (omega arith),
  long-same image size start mem same (p + 8) (omega arith) (omega arith),
  long-same image size start mem same (p + 24) (omega arith) (omega arith),
  long-same image size start mem same (p + 32) (omega arith) (omega arith),
  long-same image size start mem same (p + 40) (omega arith) (omega arith),
)
