-- ===== src/Files.antt =====
-- Kernel/Syscall/Syscall_File.c: the table of open files behind the system calls. The file system
-- and the heap are interfaces. The bytes that `kmalloc` provides for a whole file are a list.
pub mod Table
pub mod Access
pub mod Write
mod Tests
use implus_os.Base.{
  ℕ, zero, suc, ◌+◌, ◌-◌, ◌%◌, ◌^◌, Bool, true, false, not, ◌&&◌, ◌||◌, if◌then◌else◌, ltb, leb,
  ◌==◌, List, [], ◌∷◌, ◌++◌, length, get_or, set, take, drop, replicate, Option, none, some, ℤ, pos,
  negsuc, minus_one, update,
}
use implus_os.Allocator.{Allocator}

abbrev pub file_max_fd : ℕ
file_max_fd = 16

-- `FAT32_FILE`.
pub record File : Type 0 where
  pub name : List ℕ
  pub first_cluster : ℕ
  pub size : ℕ

-- `kernel_file_t`.
pub record KernelFile : Type 0 where
  pub used : Bool
  pub writable : Bool
  pub file : File
  pub offset : ℕ

-- What Kernel/Drivers/FileSystem/FAT32/FAT32_Main.c offers: `fat32_find_file`, and the reading and
-- writing of all of a file's bytes.
pub record FileSystem (S : Type 0) : Type 0 where
  pub find_file : S → List ℕ → Option File
  pub read_file : S → File → Option (List ℕ)
  pub write_file : S → File → List ℕ → Bool × S

-- An entry of the table after `memset` to 0.
abbrev pub closed : KernelFile
closed = record {
  used = false;
  writable = false;
  file = record { name = replicate 12 0; first_cluster = 0; size = 0 };
  offset = 0;
}

abbrev pub file_at : List KernelFile → ℕ → KernelFile
file_at files fd = get_or files fd closed

-- `g_files`, with the states of the file system, of the heap, and of the memory by bytes.
pub record FileState (S H : Type 0) : Type 0 where
  pub files : List KernelFile
  pub fs : S
  pub heap : H
  pub mem : ℕ → ℕ

abbrev pub to_upper_ascii : ℕ → ℕ
to_upper_ascii c = if leb 97 c && leb c 122 then c - 32 else c

-- The loop of `path_to_fat83` over the path's characters, 46 being the dot.
pub fat83_from : List ℕ → List ℕ → ℕ → ℕ → Bool → Option (List ℕ)
fat83_from [] out name_len ext_len in_ext = if ltb 0 name_len then some out else none
fat83_from (c ∷ p) out name_len ext_len in_ext =
    let from_ext = fat83_from p out name_len ext_len true in
    let named = fat83_from p (set out name_len (to_upper_ascii c)) (name_len + 1) ext_len in_ext in
    let extended =
      fat83_from p (set out (8 + ext_len) (to_upper_ascii c)) name_len (ext_len + 1) in_ext in
    if c == 46
    then if in_ext then none else from_ext
    else if not in_ext
    then if leb 8 name_len then none else named
    else if leb 3 ext_len
    then none
    else extended

-- A path is the list of its characters, without the final 0.
unfoldable pub path_to_fat83 : List ℕ → Option (List ℕ)
path_to_fat83 path = fat83_from path (replicate 11 32 ++ 0 ∷ []) 0 0 false

-- The loop over the table for an entry that is not used.
pub first_unused : List KernelFile → ℕ → Option ℕ
first_unused [] fd = none
first_unused (f ∷ fs) fd = let rest = first_unused fs (fd + 1) in if f.used then rest else some fd

-- The checks on a descriptor that read, write and close share.
abbrev pub checked_fd : List KernelFile → ℤ → Option ℕ
checked_fd files (negsuc _) = none
checked_fd files (pos fd) =
    if leb file_max_fd fd then none else if (file_at files fd).used then some fd else none

-- `memcpy` of a list of bytes to an address.
unfoldable pub put_bytes : List ℕ → ℕ → (ℕ → ℕ) → ℕ → ℕ
put_bytes [] p mem = mem
put_bytes (b ∷ bs) p mem = put_bytes bs (p + 1) (update mem p b)

-- The `n` bytes of the memory from an address on.
unfoldable pub get_bytes : ℕ → ℕ → (ℕ → ℕ) → List ℕ
get_bytes zero p mem = []
get_bytes (suc n) p mem = mem p ∷ get_bytes n (p + 1) mem

-- `len < remaining ? len : remaining`.
abbrev pub amount : KernelFile → ℕ → ℕ
amount f len =
    let remaining = f.file.size - f.offset in if ltb len remaining then len else remaining

abbrev pub advance : KernelFile → ℕ → KernelFile
advance f n = record f { offset = (f.offset + n) % 2 ^ 32 }

unfoldable pub syscall_file_init : {S H : Type 0} → FileState S H → FileState S H
syscall_file_init st = record st { files = replicate file_max_fd closed }

-- The file's bytes with `new` from `offset` on.
abbrev pub splice : List ℕ → ℕ → List ℕ → List ℕ
splice bytes offset new = take offset bytes ++ (new ++ drop (offset + length new) bytes)

module _ {S H : Type 0} (system : FileSystem S) where
  abbrev open_slot : FileState S H → ℕ → File → Option ℕ → ℤ × FileState S H
  open_slot st flags file none = (minus_one, st)
  open_slot st flags file (some fd) = (
    pos fd,
    record st {
      files =
          set st.files fd
            (record { used = true; writable = flags % 2 == 1; file = file; offset = 0 });
    },
  )

  abbrev open_file : FileState S H → ℕ → Option File → ℤ × FileState S H
  open_file st flags none = (minus_one, st)
  open_file st flags (some file) = open_slot st flags file (first_unused st.files 0)

  abbrev open_named : FileState S H → ℕ → Option (List ℕ) → ℤ × FileState S H
  open_named st flags none = (minus_one, st)
  open_named st flags (some name) = open_file st flags (system.find_file st.fs name)

  unfoldable pub syscall_file_open : FileState S H → List ℕ → ℕ → ℤ × FileState S H
  syscall_file_open st path flags = open_named st flags (path_to_fat83 path)

module _ {S H : Type 0} (system : FileSystem S) (alloc : Allocator H) where
  abbrev read_data : FileState S H → ℕ → ℕ → ℕ → ℕ → Option (List ℕ) → ℤ × FileState S H
  read_data st fd buffer n p none = (minus_one, record st { heap = alloc.kfree st.heap p })
  read_data st fd buffer n p (some bytes) =
      let f = file_at st.files fd in
      (
        pos n,
        record st {
          files = set st.files fd (advance f n);
          heap = alloc.kfree st.heap p;
          mem = put_bytes (take n (drop f.offset bytes)) buffer st.mem;
        },
      )

  abbrev read_into : FileState S H → ℕ → ℕ → ℕ → ℕ × H → ℤ × FileState S H
  read_into st fd buffer n (p, h) =
      if p == 0
      then (minus_one, record st { heap = h })
      else read_data (record st { heap = h }) fd buffer n p
          (system.read_file st.fs (file_at st.files fd).file)

  abbrev read_checked : FileState S H → ℕ → ℕ → Option ℕ → ℤ × FileState S H
  read_checked st buffer len none = (minus_one, st)
  read_checked st buffer len (some fd) =
      let f = file_at st.files fd in
      if (buffer == 0)
      then (minus_one, st)
      else if (len == 0)
      then (pos 0, st)
      else if leb f.file.size f.offset
      then (pos 0, st)
      else read_into st fd buffer (amount f len) (alloc.kmalloc st.heap f.file.size)

  unfoldable pub syscall_file_read : FileState S H → ℤ → ℕ → ℕ → ℤ × FileState S H
  syscall_file_read st fd buffer len = read_checked st buffer len (checked_fd st.files fd)

  abbrev written : FileState S H → ℕ → ℕ → ℕ → Bool × S → ℤ × FileState S H
  written st fd n p (ok, fs) =
      let st' = record st { fs = fs; heap = alloc.kfree st.heap p } in
      if ok
      then (pos n, record st' { files = set st.files fd (advance (file_at st.files fd) n) })
      else (minus_one, st')

  abbrev write_data : FileState S H → ℕ → ℕ → ℕ → ℕ → Option (List ℕ) → ℤ × FileState S H
  write_data st fd buffer n p none = (minus_one, record st { heap = alloc.kfree st.heap p })
  write_data st fd buffer n p (some bytes) =
      let f = file_at st.files fd in
      written st fd n p
        (system.write_file st.fs f.file (splice bytes f.offset (get_bytes n buffer st.mem)))

  abbrev write_from : FileState S H → ℕ → ℕ → ℕ → ℕ × H → ℤ × FileState S H
  write_from st fd buffer n (p, h) =
      if p == 0
      then (minus_one, record st { heap = h })
      else write_data (record st { heap = h }) fd buffer n p
          (system.read_file st.fs (file_at st.files fd).file)

  abbrev write_checked : FileState S H → ℕ → ℕ → Option ℕ → ℤ × FileState S H
  write_checked st buffer len none = (minus_one, st)
  write_checked st buffer len (some fd) =
      let f = file_at st.files fd in
      if (buffer == 0) || not f.writable
      then (minus_one, st)
      else if (len == 0)
      then (pos 0, st)
      else if leb f.file.size f.offset
      then (pos 0, st)
      else write_from st fd buffer (amount f len) (alloc.kmalloc st.heap f.file.size)

  unfoldable pub syscall_file_write : FileState S H → ℤ → ℕ → ℕ → ℤ × FileState S H
  syscall_file_write st fd buffer len = write_checked st buffer len (checked_fd st.files fd)

abbrev close_checked : {S H : Type 0} → FileState S H → Option ℕ → ℤ × FileState S H
close_checked st none = (minus_one, st)
close_checked st (some fd) = (pos 0, record st { files = set st.files fd closed })

unfoldable pub syscall_file_close : {S H : Type 0} → FileState S H → ℤ → ℤ × FileState S H
syscall_file_close st fd = close_checked st (checked_fd st.files fd)
