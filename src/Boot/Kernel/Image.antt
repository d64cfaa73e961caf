-- ===== src/Boot/Kernel/Image.antt =====
-- An image of the kernel, and what it means that its segments stand in the memory.
use implus_os.Base.{ℕ, ◌+◌, ◌*◌, ◌^◌, ◌≤◌, ◌<◌, ◌≡◌, ◌⊎◌, false}
use implus_os.Elf.{e_phnum, pt_load}
use implus_os.Boot.{Firmware, Boot, LoadHeader, load_header_at, efi_error}
use implus_os.Boot.Kernel.{Outside, Fits}

-- The program header number `k` of the image in a memory.
abbrev pub header_of : (ℕ → ℕ) → ℕ → ℕ → LoadHeader
header_of start phdrs k = load_header_at start (phdrs + k * 56)

-- An image whose headers and segments lie inside it, and whose segments lie apart from each other.
pub record IsImage (start : ℕ → ℕ) (image size phdrs : ℕ) : Type 0 where
  pub head : 58 ≤ size
  pub count : e_phnum start image < 2 ^ 16
  pub table : image ≤ phdrs
  pub table_end : phdrs + e_phnum start image * 56 ≤ image + size
  pub fits :
      (k : ℕ)
      → k < e_phnum start image
      → (header_of start phdrs k).p_type ≡ pt_load
      → Fits (header_of start phdrs k)
  pub inside :
      (k : ℕ)
      → k < e_phnum start image
      → (header_of start phdrs k).p_type ≡ pt_load
      → (header_of start phdrs k).p_offset + (header_of start phdrs k).p_filesz ≤ size
  pub apart :
      (k l : ℕ)
      → k < l
      → l < e_phnum start image
      → (header_of start phdrs k).p_type ≡ pt_load
      → (header_of start phdrs l).p_type ≡ pt_load
      → (j : ℕ) → j < (header_of start phdrs k).p_memsz
      → Outside (header_of start phdrs l) ((header_of start phdrs k).p_paddr + j)

-- A memory in which a segment stands as the image says.
pub record Stands (start : ℕ → ℕ) (image : ℕ) (s : LoadHeader) (mem : ℕ → ℕ) : Type 0 where
  pub from_image : (j : ℕ) → j < s.p_filesz → mem (s.p_paddr + j) ≡ start (image + s.p_offset + j)
  pub zeros : (j : ℕ) → s.p_filesz ≤ j → j < s.p_memsz → mem (s.p_paddr + j) ≡ 0

-- A byte in pages that the firmware granted.
pub record Granted {S : Type 0} (fw : Firmware S) (p : ℕ) : Type 0 where
  pub before : S
  pub pages : ℕ
  pub addr : ℕ
  pub granted : efi_error (fw.allocate_pages_at before pages addr).0 ≡ false
  pub from : addr ≤ p
  pub to : p < addr + pages * 4096

-- The outcome for the segments from number `i` on.
pub record Placed {S : Type 0} (fw : Firmware S) (start : ℕ → ℕ) (image phdrs i : ℕ) (mem : ℕ → ℕ)
    (r : ℕ × Boot S) : Type 0 where
  pub stands :
      efi_error r.0 ≡ false
      → (k : ℕ) → i ≤ k
      → k < e_phnum start image
      → (header_of start phdrs k).p_type ≡ pt_load
      → Stands start image (header_of start phdrs k) r.1.mem
  pub outside :
      (p : ℕ)
      → ((k : ℕ)
          → i ≤ k
          → k < e_phnum start image
          → (header_of start phdrs k).p_type ≡ pt_load
          → Outside (header_of start phdrs k) p)
      → r.1.mem p ≡ mem p
  pub granted : (p : ℕ) → (r.1.mem p ≡ mem p) ⊎ Granted fw p
