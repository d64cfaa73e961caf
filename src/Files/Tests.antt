-- ===== src/Files/Tests.antt =====
-- The file calls over a disk that holds one file, and their theorems at concrete inputs.
use implus_os.Base.{
  ℕ, ◌+◌, ◌≡◌, refl, ap, inl, inr, true, List, [], ◌∷◌, length, arith, if◌then◌else◌, ◌==◌,
  Bool-cases, ==→eq, Option, none, some, pos,
}
use implus_os.Allocator.{Allocator}
use implus_os.Files.{
  File, FileSystem, FileState, syscall_file_init, syscall_file_open, syscall_file_read,
  syscall_file_write, path_to_fat83, fat83_from, first_unused, put_bytes,
}
use implus_os.Files.Table.{IsTable, syscall_file_init-IsTable, syscall_file_open-IsTable}
use implus_os.Files.Access.{ReadsWhole, ReadOut, syscall_file_read-ReadOut}
use implus_os.Files.Write.{WriteOut, syscall_file_write-WriteOut}

-- A disk with a single file, whatever its name.
abbrev one_file : FileSystem (List ℕ)
one_file = record {
  find_file = λ s name. some (record { name = name; first_cluster = 2; size = length s });
  read_file = λ s f. if length s == f.size then some s else none;
  write_file = λ s f bytes. (true, bytes);
}

abbrev bump : Allocator ℕ
bump = record { kmalloc = λ h n. (h, h + n); kfree = λ h p. h }

whole_file : (s : List ℕ) → ReadsWhole one_file bump s
whole_file s f bytes e = elim (Bool-cases (length s == f.size)) [
  | inl q ↦ cc (rw q at e, ==→eq _ _ q)
  | inr q ↦ absurd (cc (rw q at e))
]

abbrev raw : FileState (List ℕ) ℕ
raw = record { files = []; fs = 5 ∷ 6 ∷ 7 ∷ 8 ∷ []; heap = 0x10000; mem = λ a. 0 }

abbrev start : FileState (List ℕ) ℕ
start = syscall_file_init raw

-- A.TXT, opened for writing.
abbrev opened : FileState (List ℕ) ℕ
opened = (syscall_file_open one_file start (97 ∷ 46 ∷ 116 ∷ 120 ∷ 116 ∷ []) 1).1

name_padded :
    path_to_fat83 (97 ∷ 46 ∷ 116 ∷ 120 ∷ 116 ∷ [])
    ≡ some (65 ∷ 32 ∷ 32 ∷ 32 ∷ 32 ∷ 32 ∷ 32 ∷ 32 ∷ 84 ∷ 88 ∷ 84 ∷ 0 ∷ [])
unfolding path_to_fat83 fat83_from
name_padded = refl

two_dots : path_to_fat83 (97 ∷ 46 ∷ 46 ∷ []) ≡ none
unfolding path_to_fat83 fat83_from
two_dots = refl

-- Three bytes from the start, then the one that is left.
reads_on :
    ((syscall_file_read one_file bump opened (pos 0) 0x500 3).0 ≡ pos 3)
    × ((syscall_file_read one_file bump
          (syscall_file_read one_file bump opened (pos 0) 0x500 3).1
          (pos 0)
          0x600
          3).0
        ≡ pos 1)
unfolding syscall_file_read syscall_file_open syscall_file_init path_to_fat83 fat83_from
    first_unused put_bytes
reads_on = (refl, refl)

abbrev size_of : Option File → ℕ
size_of none = 0
size_of (some f) = f.size

opened-IsTable : IsTable opened.files
unfolding syscall_file_init
opened-IsTable =
    syscall_file_open-IsTable one_file start 1 (syscall_file_init-IsTable raw)
      (λ name file e. let q : 4 ≡ file.size = ap size_of e in omega (arith, q))
      (97 ∷ 46 ∷ 116 ∷ 120 ∷ 116 ∷ [])

syscall_file_read-ReadOut_example :
    ReadOut one_file bump opened
      (pos 0)
      0x500
      3
      (syscall_file_read one_file bump opened (pos 0) 0x500 3)
syscall_file_read-ReadOut_example =
    syscall_file_read-ReadOut one_file bump opened (pos 0) 0x500 3 opened-IsTable (whole_file _)

syscall_file_write-WriteOut_example :
    WriteOut one_file bump opened
      (pos 0)
      0x500
      3
      (syscall_file_write one_file bump opened (pos 0) 0x500 3)
syscall_file_write-WriteOut_example =
    syscall_file_write-WriteOut one_file bump opened (pos 0) 0x500 3 opened-IsTable (whole_file _)
