-- ===== src/Fat32/Tests.antt =====
-- A small volume in memory, and the theorems about the driver on it.
use implus_os.Base.{
  ℕ, zero, suc, ◌+◌, ◌^◌, ◌≤◌, ◌<◌, ◌≡◌, refl, sym, ap, ◌∙◌, true, false, if◌then◌else◌, ◌==◌, List,
  [], ◌∷◌, length, get_or, get_or-replicate, replicate, some, pos, arith,
}
use implus_os.Allocator.{Allocator}
use implus_os.Disk.{Device, Delivers, Reliable, disk_read}
use implus_os.Files.{File, KernelFile, FileState, closed, file_at, syscall_file_write, get_bytes}
use implus_os.Files.Table.{IsTable}
use implus_os.Files.Access.{ReadsWhole, length-get_bytes}
use implus_os.Fat32.{
  Bpb, fat_get_next_cluster, fat32_find_file, fat32_read_file, fat32_write_file, scan_clusters,
  scan_sectors, scan_entries, memcmp_local,
}
use implus_os.Fat32.Layout.{InRange}
use implus_os.Fat32.RoundTrip.{fat32_read_file-write_file}
use implus_os.Fat32.Find.{HasName, fat32_find_file-HasName, fat_system, fat_system-ReadsWhole}
use implus_os.Fat32.Calls.{OnDisk, syscall_file_write-OnDisk}

-- A disk of sectors of 32 bytes, by the number of the sector and the place in it.
abbrev Sectors : Type 0
Sectors = ℕ → ℕ → ℕ

abbrev ram : Device Sectors
ram = record {
  read_one = λ d o. some (get_bytes 32 0 (d o));
  write_one = λ d o b. (true, λ p i. if o == p then get_or b i 0 else d p i);
}

get_bytes-get_or :
    (b : List ℕ) (p : ℕ) (mem : ℕ → ℕ)
    → ((i : ℕ) → mem (p + i) ≡ get_or b i 0)
    → get_bytes (length b) p mem ≡ b
unfolding get_bytes
get_bytes-get_or [] p mem h = refl
get_bytes-get_or (x ∷ b) p mem h =
    let first : mem p ≡ x = ap mem (omega arith) ∙ h 0 in
    let rest = get_bytes-get_or b (p + 1) mem (λ i. ap mem (omega arith) ∙ h (suc i)) in
    cc (first, rest)

ram-Reliable : Reliable ram 32
ram-Reliable = record {
  sector = λ d o. get_bytes 32 0 (d o);
  reads = λ d o. refl;
  full = λ d o. length-get_bytes 32 0 (d o);
  writes = λ d o b e. refl;
  written = λ d o b e.
      ap (λ n. get_bytes n 0 ((ram.write_one d o b).1 o)) (sym e)
      ∙ get_bytes-get_or b 0 ((ram.write_one d o b).1 o) (λ i. here o (λ k. get_or b k 0) (d o) i);
  others = λ d o b p ne.
      let there : (o == p) ≡ false = ground (arith, ne) in
      ap (λ c. get_bytes 32 0 (λ i. if c then get_or b i 0 else d p i)) there;
}
  where
    here : (o : ℕ) (f g : ℕ → ℕ) (i : ℕ) → (if o == o then f (0 + i) else g (0 + i)) ≡ f i
    here o f g i = let same : (o == o) ≡ true = ground arith in rw same (ap f (omega arith))

ram-Delivers : Delivers ram 32
ram-Delivers d o b e =
    let eq : get_bytes 32 0 (d o) ≡ b = cc e in sym (ap length eq) ∙ length-get_bytes 32 0 (d o)

-- One reserved sector, a table of one sector, and clusters of one sector from cluster 2 on.
abbrev volume : Bpb
volume = record {
  bytes_per_sector = 32;
  sectors_per_cluster = 1;
  reserved_sectors = 1;
  num_fats = 1;
  fat_size_sectors = 1;
  root_cluster = 2;
}

-- The directory entry of A.TXT: 40 bytes from cluster 3 on.
abbrev entry : List ℕ
entry =
    65 ∷ 32 ∷ 32 ∷ 32 ∷ 32 ∷ 32 ∷ 32 ∷ 32 ∷ 84 ∷ 88 ∷ 84 ∷ 32 ∷ 0 ∷ 0 ∷ 0 ∷ 0 ∷ 0 ∷ 0 ∷ 0 ∷ 0 ∷ 0
    ∷ 0 ∷ 0 ∷ 0 ∷ 0 ∷ 0 ∷ 3 ∷ 0 ∷ 40 ∷ 0 ∷ 0 ∷ 0 ∷ []

-- The table: clusters 2 and 4 are the last ones of their chains, and 4 comes behind 3.
abbrev table : List ℕ
table =
    0 ∷ 0 ∷ 0 ∷ 0 ∷ 0 ∷ 0 ∷ 0 ∷ 0 ∷ 255 ∷ 255 ∷ 255 ∷ 15 ∷ 4 ∷ 0 ∷ 0 ∷ 0 ∷ 255 ∷ 255 ∷ 255 ∷ 15 ∷ []

abbrev disk : Sectors
disk p i = if p == 2049 then get_or table i 0 else if p == 2050 then get_or entry i 0 else 7

abbrev a_txt : List ℕ
a_txt = 65 ∷ 32 ∷ 32 ∷ 32 ∷ 32 ∷ 32 ∷ 32 ∷ 32 ∷ 84 ∷ 88 ∷ 84 ∷ 0 ∷ []

abbrev file : File
file = record { name = a_txt; first_cluster = 3; size = 40 }

finds : fat32_find_file ram volume disk a_txt ≡ some file
unfolding fat32_find_file scan_clusters scan_sectors scan_entries memcmp_local fat_get_next_cluster
    get_bytes disk_read
finds = refl

follows : fat_get_next_cluster ram volume disk 3 ≡ 4
unfolding fat_get_next_cluster get_bytes disk_read
follows = refl

three-InRange : InRange volume 3
three-InRange = record { regular = refl; room = omega arith; in_table = omega arith }

four-InRange : InRange volume 4
four-InRange = record { regular = refl; room = omega arith; in_table = omega arith }

fat32_find_file-HasName_example : HasName a_txt file
fat32_find_file-HasName_example =
    fat32_find_file-HasName ram volume ram-Delivers refl disk a_txt file finds

fat32_read_file-write_file_example :
    ((fat32_write_file ram volume disk file (replicate 40 9)).0 ≡ true)
    × (fat32_read_file ram volume (fat32_write_file ram volume disk file (replicate 40 9)).1 file
        ≡ some (replicate 40 9))
fat32_read_file-write_file_example =
    fat32_read_file-write_file ram volume ram-Reliable disk file (4 ∷ []) (replicate 40 9)
      (omega arith) (omega arith) (three-InRange, follows, four-InRange)
      ((λ e. absurd (omega (arith, e)), tt), (tt, tt)) refl (omega arith) (omega arith)

abbrev bump : Allocator ℕ
bump = record { kmalloc = λ h n. (h, h + n); kfree = λ h p. h }

fat_system-ReadsWhole_example : ReadsWhole (fat_system ram volume) bump disk
fat_system-ReadsWhole_example = fat_system-ReadsWhole ram volume ram-Delivers bump disk

-- A.TXT, opened for writing.
abbrev opened_file : KernelFile
opened_file = record { used = true; writable = true; file = file; offset = 0 }

abbrev opened : FileState Sectors ℕ
opened = record {
  files = opened_file ∷ replicate 15 closed;
  fs = disk;
  heap = 0x10000;
  mem = λ a. 5;
}

within :
    (fd : ℕ)
    → ((file_at opened.files fd).offset ≤ (file_at opened.files fd).file.size)
      × ((file_at opened.files fd).file.size < 2 ^ 32)
within zero = (omega arith, omega arith)
within (suc fd) = rw (get_or-replicate 15 fd closed) (omega arith, omega arith)

opened-IsTable : IsTable opened.files
opened-IsTable = record { size = refl; inside = λ fd. (within fd).0; small = λ fd. (within fd).1 }

syscall_file_write-OnDisk_example :
    OnDisk ram volume bump opened 0 0x500
      (syscall_file_write (fat_system ram volume) bump opened (pos 0) 0x500 3)
syscall_file_write-OnDisk_example =
    syscall_file_write-OnDisk ram volume bump ram-Reliable opened 0 0x500 3 (4 ∷ []) (omega arith)
      (omega arith) opened-IsTable (three-InRange, follows, four-InRange)
      ((λ e. absurd (omega (arith, e)), tt), (tt, tt)) (omega arith) (omega arith)
