-- ===== src/Elf/Tests.antt =====
-- A program of one segment, of four bytes in the file and eight in the memory.
use implus_os.Base.{
  ℕ, ◌+◌, true, List, [], ◌∷◌, length, none, some, if◌then◌else◌, ltb, ◌-◌, ◌%◌, update, ◌==◌,
}
use implus_os.Allocator.{Allocator}
use implus_os.Files.{File, FileSystem, put_bytes}
use implus_os.Elf.{Machine, Phdr}

abbrev program : List ℕ
program =
    127 ∷ 69 ∷ 76 ∷ 70 ∷ 0 ∷ 0 ∷ 0 ∷ 0 ∷ 0 ∷ 0 ∷ 0 ∷ 0 ∷ 0 ∷ 0 ∷ 0 ∷ 0 ∷ 0 ∷ 0 ∷ 0 ∷ 0 ∷ 0 ∷ 0 ∷ 0
    ∷ 0 ∷ 0 ∷ 0 ∷ 64 ∷ 0 ∷ 0 ∷ 0 ∷ 0 ∷ 0 ∷ 64 ∷ 0 ∷ 0 ∷ 0 ∷ 0 ∷ 0 ∷ 0 ∷ 0 ∷ 0 ∷ 0 ∷ 0 ∷ 0 ∷ 0 ∷ 0
    ∷ 0 ∷ 0 ∷ 0 ∷ 0 ∷ 0 ∷ 0 ∷ 0 ∷ 0 ∷ 0 ∷ 0 ∷ 1 ∷ 0 ∷ 0 ∷ 0 ∷ 0 ∷ 0 ∷ 0 ∷ 0 ∷ 1 ∷ 0 ∷ 0 ∷ 0 ∷ 0 ∷ 0
    ∷ 0 ∷ 0 ∷ 120 ∷ 0 ∷ 0 ∷ 0 ∷ 0 ∷ 0 ∷ 0 ∷ 0 ∷ 0 ∷ 0 ∷ 64 ∷ 0 ∷ 0 ∷ 0 ∷ 0 ∷ 0 ∷ 0 ∷ 0 ∷ 0 ∷ 0 ∷ 0
    ∷ 0 ∷ 0 ∷ 0 ∷ 4 ∷ 0 ∷ 0 ∷ 0 ∷ 0 ∷ 0 ∷ 0 ∷ 0 ∷ 8 ∷ 0 ∷ 0 ∷ 0 ∷ 0 ∷ 0 ∷ 0 ∷ 0 ∷ 0 ∷ 0 ∷ 0 ∷ 0 ∷ 0
    ∷ 0 ∷ 0 ∷ 0 ∷ 11 ∷ 22 ∷ 33 ∷ 44 ∷ []

abbrev file : File
file = record { name = []; first_cluster = 2; size = 124 }

abbrev one_file : FileSystem (List ℕ)
one_file = record {
  find_file = λ s name. some file;
  read_file = λ s f. if f.size == length s then some s else none;
  write_file = λ s f bytes. (true, bytes);
}

-- The next free address, NULL for more than a megabyte, with the size written in front of the buffer.
abbrev bump : Allocator (Machine ℕ)
bump = record {
  kmalloc = λ st n. if ltb 0x100000 n then (0, st) else (
    st.heap + 16,
    record { heap = st.heap + 16 + n; mem = update st.mem (st.heap + 8) (n % 256) },
  );
  kfree = λ st p. record st { mem = update st.mem (p - 16 + 12) 1 };
}

abbrev buffer : ℕ
buffer = 0x200010

abbrev machine : Machine ℕ
machine = record { heap = 0x200000; mem = λ p. 9 }

-- Behind `kmalloc`.
abbrev given : Machine ℕ
given = record { heap = 0x20008c; mem = update machine.mem 0x200008 124 }

abbrev start : ℕ → ℕ
start = put_bytes program buffer given.mem

abbrev segment : Phdr
segment = record { p_type = 1; p_offset = 120; p_vaddr = 0x400000; p_filesz = 4; p_memsz = 8 }
