-- ===== src/Elf.antt =====
-- Kernel/Kernel_Main.c, `load_userland_elf`: the loader of the user program. The file system and the
-- heap are interfaces; the bytes of the memory are indexed by address, and what the function prints is
-- left out. Of a read of the file that fails, the model keeps no bytes in the buffer.
pub mod Segments
pub mod Program
mod Tests
use implus_os.Base.{
  ℕ, zero, suc, ◌+◌, ◌-◌, ◌*◌, ◌%◌, ◌^◌, Bool, true, false, not, ◌&&◌, ◌||◌, if◌then◌else◌, ltb,
  leb, ◌==◌, List, [], ◌∷◌, Option, none, some,
}
use implus_os.Allocator.{Allocator}
use implus_os.Files.{File, FileSystem, put_bytes}
use implus_os.Strings.{memcpy, memset}

-- Little-endian numbers in the memory.
abbrev pub half_at : (ℕ → ℕ) → ℕ → ℕ
half_at mem p = mem p + mem (p + 1) * 2 ^ 8

abbrev pub word_at : (ℕ → ℕ) → ℕ → ℕ
word_at mem p = half_at mem p + half_at mem (p + 2) * 2 ^ 16

abbrev pub long_at : (ℕ → ℕ) → ℕ → ℕ
long_at mem p = word_at mem p + word_at mem (p + 4) * 2 ^ 32

-- The fields of `Elf64_Ehdr` and `Elf64_Phdr` that the loader reads.
abbrev pub e_entry : (ℕ → ℕ) → ℕ → ℕ
e_entry mem ehdr = long_at mem (ehdr + 24)

abbrev pub e_phoff : (ℕ → ℕ) → ℕ → ℕ
e_phoff mem ehdr = long_at mem (ehdr + 32)

abbrev pub e_phnum : (ℕ → ℕ) → ℕ → ℕ
e_phnum mem ehdr = half_at mem (ehdr + 56)

pub record Phdr : Type 0 where
  pub p_type : ℕ
  pub p_offset : ℕ
  pub p_vaddr : ℕ
  pub p_filesz : ℕ
  pub p_memsz : ℕ

abbrev pub phdr_at : (ℕ → ℕ) → ℕ → Phdr
phdr_at mem ph = record {
  p_type = word_at mem ph;
  p_offset = long_at mem (ph + 8);
  p_vaddr = long_at mem (ph + 16);
  p_filesz = long_at mem (ph + 32);
  p_memsz = long_at mem (ph + 40);
}

abbrev pub pt_load : ℕ
pt_load = 1

abbrev pub has_magic : (ℕ → ℕ) → ℕ → Bool
has_magic mem ehdr =
    mem ehdr == 0x7f && (mem (ehdr + 1) == 69 && (mem (ehdr + 2) == 76 && mem (ehdr + 3) == 70))

abbrev pub is_valid : Phdr → Bool
is_valid s =
    not (ltb s.p_memsz s.p_filesz) && not (ltb s.p_vaddr 0x400000 || leb 0x80000000 s.p_vaddr)

-- The bytes of a segment from the file, and zeros behind them.
abbrev pub load_segment : Phdr → ℕ → (ℕ → ℕ) → ℕ → ℕ
load_segment s buffer mem =
    memset (s.p_memsz - s.p_filesz) (s.p_vaddr + s.p_filesz) 0
      (memcpy s.p_filesz s.p_vaddr (buffer + s.p_offset) mem)

-- The loop over the program headers from number `i` on. A file has less than 2^16 of them, so as many
-- rounds are enough. The table `phdrs` is found before the loop.
pub load_segments : ℕ → ℕ → ℕ → ℕ → (ℕ → ℕ) → Bool × (ℕ → ℕ)
load_segments zero i phdrs buffer mem = (true, mem)
load_segments (suc n) i phdrs buffer mem =
    let s = phdr_at mem (phdrs + i * 56) in
    let skipped = load_segments n (i + 1) phdrs buffer mem in
    let loaded = load_segments n (i + 1) phdrs buffer (load_segment s buffer mem) in
    if leb (e_phnum mem buffer) i
    then (true, mem)
    else if not (s.p_type == pt_load)
    then skipped
    else if is_valid s
    then loaded
    else (false, mem)

-- The heap and the memory.
pub record Machine (H : Type 0) : Type 0 where
  pub heap : H
  pub mem : ℕ → ℕ

-- "URLD    ELF".
abbrev pub user_program : List ℕ
user_program = 85 ∷ 82 ∷ 76 ∷ 68 ∷ 32 ∷ 32 ∷ 32 ∷ 32 ∷ 69 ∷ 76 ∷ 70 ∷ []

-- The calls of the heap act on the memory as well, where the headers of its blocks are.
module _ {S H : Type 0} (system : FileSystem S) (alloc : Allocator (Machine H)) where
  -- The entry point, if all segments were loaded. The buffer is freed in any case.
  abbrev pub entered : ℕ → Machine H → Bool × (ℕ → ℕ) → Option ℕ × Machine H
  entered buffer st (ok, mem) = (
    (if ok then some (e_entry mem buffer) else none),
    alloc.kfree (record st { mem = mem }) buffer,
  )

  abbrev pub load_image : ℕ → Machine H → Option ℕ × Machine H
  load_image buffer st =
      if has_magic st.mem buffer
      then entered buffer st
          (load_segments (2 ^ 16) 0 (buffer + e_phoff st.mem buffer) buffer st.mem)
      else (none, alloc.kfree st buffer)

  abbrev pub load_bytes : ℕ → Machine H → Option (List ℕ) → Option ℕ × Machine H
  load_bytes buffer st none = (none, alloc.kfree st buffer)
  load_bytes buffer st (some bytes) =
      load_image buffer (record st { mem = put_bytes bytes buffer st.mem })

  abbrev pub load_into : S → File → ℕ × Machine H → Option ℕ × Machine H
  load_into fs file (buffer, st) =
      if buffer == 0 then (none, st) else load_bytes buffer st (system.read_file fs file)

  abbrev pub load_file : S → Machine H → Option File → Option ℕ × Machine H
  load_file fs st none = (none, st)
  load_file fs st (some file) =
      if file.size == 0 || ltb (1024 * 1024) file.size
      then (none, st)
      else load_into fs file (alloc.kmalloc st file.size)

  unfoldable pub load_userland_elf : S → Machine H → Option ℕ × Machine H
  load_userland_elf fs st = load_file fs st (system.find_file fs user_program)
