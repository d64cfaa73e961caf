-- ===== src/Fat32.antt =====
-- Kernel/Drivers/FileSystem/FAT32/FAT32_Main.c: the boot sector, the table of clusters, the search of
-- the root directory, and reading and writing the bytes of a file. `fat32_list_root_files` only
-- prints. Bits that an expression joins by `|` do not overlap, so they are added.
pub mod Layout
pub mod Sectors
pub mod RoundTrip
pub mod Find
pub mod Calls
mod Tests
use implus_os.Base.{
  ℕ, zero, suc, ◌+◌, ◌-◌, ◌*◌, ◌/◌, ◌%◌, ◌^◌, Bool, true, false, not, ◌&&◌, ◌||◌, if◌then◌else◌,
  ltb, leb, ◌==◌, List, [], ◌∷◌, ◌++◌, length, get_or, set, take, drop, Option, none, some, ℤ, pos,
  negsuc,
}
use implus_os.Disk.{Device, disk_read, disk_write}
use implus_os.Files.{File}

-- `FAT32_BPB`.
pub record Bpb : Type 0 where
  pub bytes_per_sector : ℕ
  pub sectors_per_cluster : ℕ
  pub reserved_sectors : ℕ
  pub num_fats : ℕ
  pub fat_size_sectors : ℕ
  pub root_cluster : ℕ

abbrev pub u32 : ℕ → ℕ
u32 n = n % 2 ^ 32

-- Little-endian numbers in a buffer.
abbrev pub le16 : List ℕ → ℕ → ℕ
le16 buf i = get_or buf i 0 + get_or buf (i + 1) 0 * 2 ^ 8

abbrev pub le32 : List ℕ → ℕ → ℕ
le32 buf i = le16 buf i + le16 buf (i + 2) * 2 ^ 16

-- The rounds left, and the index of the next byte.
pub memcmp_local : ℕ → ℕ → List ℕ → List ℕ → ℤ
memcmp_local zero i a b = pos 0
memcmp_local (suc n) i a b =
    let rest = memcmp_local n (i + 1) a b in
    let x = get_or a i 0 in
    let y = get_or b i 0 in
    if x == y then rest else if leb y x then pos (x - y) else negsuc (y - x - 1)

abbrev pub fat_start_lba : Bpb → ℕ
fat_start_lba v = v.reserved_sectors

abbrev pub data_start_lba : Bpb → ℕ
data_start_lba v = u32 (v.reserved_sectors + v.num_fats * v.fat_size_sectors)

abbrev pub cluster_to_lba : Bpb → ℕ → ℕ
cluster_to_lba v cluster =
    if ltb cluster 2 then 0 else u32 (data_start_lba v + (cluster - 2) * v.sectors_per_cluster)

-- The end of a chain, 0x0FFFFFFF, which is also returned on an error.
abbrev pub chain_end : ℕ
chain_end = 0xfffffff

-- `next < 2 || next >= 0x0FFFFFF8`.
abbrev pub is_end : ℕ → Bool
is_end next = ltb next 2 || leb 0xffffff8 next

-- The sector of the table with the entry of a cluster, and where in it the entry stands.
abbrev pub fat_sector : Bpb → ℕ → ℕ
fat_sector v cluster = u32 (fat_start_lba v + u32 (cluster * 4) / v.bytes_per_sector)

abbrev pub fat_offset : Bpb → ℕ → ℕ
fat_offset v cluster = u32 (cluster * 4) % v.bytes_per_sector

abbrev pub entry_at : ℕ → Option (List ℕ) → ℕ
entry_at offset none = chain_end
entry_at offset (some buf) = le32 buf offset % 2 ^ 28

-- The four bytes of an entry, of the last of which the upper half stays.
abbrev pub with_entry : List ℕ → ℕ → ℕ → List ℕ
with_entry buf offset next =
    set
      (set (set (set buf offset (next % 2 ^ 8)) (offset + 1) (next / 2 ^ 8 % 2 ^ 8)) (offset + 2)
        (next / 2 ^ 16 % 2 ^ 8))
      (offset + 3) (get_or buf (offset + 3) 0 / 16 * 16 + next / 2 ^ 24 % 16)

-- `fat32_init` behind the read of the boot sector.
abbrev pub bpb_of : List ℕ → Bpb
bpb_of sector = record {
  bytes_per_sector = le16 sector 11;
  sectors_per_cluster = get_or sector 13 0;
  reserved_sectors = le16 sector 14;
  num_fats = get_or sector 16 0;
  fat_size_sectors = le32 sector 36;
  root_cluster = le32 sector 44;
}

abbrev pub is_sound : Bpb → Bool
is_sound v =
    (not (v.bytes_per_sector == 0) && leb v.bytes_per_sector 4096)
    && ((not (v.sectors_per_cluster == 0) && leb v.sectors_per_cluster 128)
        && ((not (v.num_fats == 0) && leb v.num_fats 2) && leb 2 v.root_cluster))

abbrev pub boot_sector_read : Bpb → Option (List ℕ) → Bool × Bpb
boot_sector_read v none = (false, v)
boot_sector_read v (some sector) = (is_sound (bpb_of sector), bpb_of sector)

-- What a part of the directory gives: the file, a reason to stop, or neither.
pub data Search : Type 0 where
  found : File → Search
  absent more : Search

abbrev pub entry_file : List ℕ → ℕ → File
entry_file buf i = record {
  name = take 11 (drop i buf) ++ 0 ∷ [];
  first_cluster = le16 buf (i + 20) * 2 ^ 16 + le16 buf (i + 26);
  size = le32 buf (i + 28);
}

-- The entries of a sector from the byte `i` on.
pub scan_entries : ℕ → ℕ → List ℕ → List ℕ → Search
scan_entries zero i filename buf = more
scan_entries (suc n) i filename buf =
    let rest = scan_entries n (i + 32) filename buf in
    let attr = get_or buf (i + 11) 0 in
    if get_or buf i 0 == 0
    then absent
    else if get_or buf i 0 == 0xe5
    then rest
    else if attr % 16 == 15 || attr / 8 % 2 == 1
    then rest
    else elim (memcmp_local 11 0 filename (drop i buf)) [
      | pos k ↦ if k == 0 then found (entry_file buf i) else rest
      | negsuc k ↦ rest
    ]

abbrev pub or_search : Search → Search → Search
or_search (found f) rest = found f
or_search absent rest = absent
or_search more rest = rest

abbrev pub scan_sector : Bpb → List ℕ → Option (List ℕ) → Search
scan_sector v filename none = absent
scan_sector v filename (some buf) = scan_entries ((v.bytes_per_sector + 31) / 32) 0 filename buf

abbrev pub max_clusters : Bpb → ℕ
max_clusters v = u32 (v.fat_size_sectors * v.bytes_per_sector) / 4

abbrev pub found_file : Search → Option File
found_file (found f) = some f
found_file absent = none
found_file more = none

abbrev pub cluster_size : Bpb → ℕ
cluster_size v = v.sectors_per_cluster * v.bytes_per_sector

abbrev pub at_most : ℕ → ℕ → ℕ
at_most left limit = if ltb limit left then limit else left

-- The first `n` bytes that were read, in front of what the next rounds read.
abbrev pub chunk : ℕ → Option (List ℕ) → Option (List ℕ) → Option (List ℕ)
chunk n none rest = none
chunk n (some buf) none = none
chunk n (some buf) (some rest) = some (take n buf ++ rest)

module _ {D : Type 0} (device : Device D) where
  unfoldable pub fat_get_next_cluster : Bpb → D → ℕ → ℕ
  fat_get_next_cluster v d cluster =
      if is_end cluster
      then chain_end
      else if ltb v.bytes_per_sector (fat_offset v cluster + 4)
      then chain_end
      else entry_at (fat_offset v cluster) (disk_read device d (fat_sector v cluster) 1)

  -- The copies of the table, `n` of them from number `fat` on.
  pub set_in_fats : ℕ → ℕ → Bpb → ℕ → ℕ → D → Bool × D
  set_in_fats zero fat v cluster next d = (true, d)
  set_in_fats (suc n) fat v cluster next d =
      let sector = u32 (fat_sector v cluster + fat * v.fat_size_sectors) in
      elim (disk_read device d sector 1) [
        | none ↦ (false, d)
        | some buf ↦
            let r = disk_write device d sector (with_entry buf (fat_offset v cluster) next) 1 in
            elim r.0 [ true ↦ set_in_fats n (fat + 1) v cluster next r.1 | false ↦ (false, r.1) ]
      ]

  unfoldable pub fat_set_next_cluster : Bpb → D → ℕ → ℕ → Bool × D
  fat_set_next_cluster v d cluster next =
      if is_end cluster
      then (false, d)
      else if ltb v.bytes_per_sector (fat_offset v cluster + 4)
      then (false, d)
      else set_in_fats v.num_fats 0 v cluster next d

  unfoldable pub fat32_init : Bpb → D → Bool × Bpb
  fat32_init v d = boot_sector_read v (disk_read device d 0 1)

  -- The sectors of a cluster from number `sec` on.
  pub scan_sectors : ℕ → ℕ → Bpb → D → List ℕ → ℕ → Search
  scan_sectors zero sec v d filename cluster = more
  scan_sectors (suc n) sec v d filename cluster =
      let rest = scan_sectors n (sec + 1) v d filename cluster in
      let lba = cluster_to_lba v cluster in
      let here = scan_sector v filename (disk_read device d (u32 (lba + sec)) 1) in
      if lba == 0 then absent else or_search here rest

  -- The clusters of the directory, `max_clusters` at most.
  pub scan_clusters : ℕ → Bpb → D → List ℕ → ℕ → Search
  scan_clusters zero v d filename cluster = absent
  scan_clusters (suc n) v d filename cluster =
      let next = fat_get_next_cluster v d cluster in
      let rest = scan_clusters n v d filename next in
      or_search (scan_sectors v.sectors_per_cluster 0 v d filename cluster)
        (if is_end next then absent else rest)

  unfoldable pub fat32_find_file : Bpb → D → List ℕ → Option File
  fat32_find_file v d filename =
      found_file (scan_clusters (max_clusters v) v d filename v.root_cluster)

  -- The loop of `fat32_read_file`. Each round takes at least one byte, so the bytes left are rounds
  -- enough.
  pub read_from : ℕ → Bpb → D → ℕ → ℕ → Option (List ℕ)
  read_from zero v d cluster left = if left == 0 then some [] else none
  read_from (suc fuel) v d cluster left =
      let n = at_most left (cluster_size v) in
      let next = fat_get_next_cluster v d cluster in
      let rest = read_from fuel v d next (left - n) in
      let on = if is_end next then (if left - n == 0 then some [] else none) else rest in
      if left == 0
      then some []
      else if cluster_to_lba v cluster == 0
      then none
      else chunk n (disk_read device d (cluster_to_lba v cluster) v.sectors_per_cluster) on

  unfoldable pub fat32_read_file : Bpb → D → File → Option (List ℕ)
  fat32_read_file v d file = read_from file.size v d file.first_cluster file.size

  -- One sector of a file: the next bytes, or the last ones in front of what stands behind them.
  unfoldable pub write_sector : Bpb → D → ℕ → List ℕ → Bool × D
  write_sector v d lba bytes =
      if leb v.bytes_per_sector (length bytes)
      then disk_write device d lba (take v.bytes_per_sector bytes) 1
      else elim (disk_read device d lba 1) [
        | none ↦ (false, d)
        | some buf ↦ disk_write device d lba (bytes ++ drop (length bytes) buf) 1
      ]

  -- `n` sectors of a cluster from number `sec` on, as long as bytes are left.
  pub write_sectors : ℕ → ℕ → Bpb → ℕ → D → List ℕ → Bool × D × List ℕ
  write_sectors zero sec v cluster d bytes = (true, d, bytes)
  write_sectors (suc n) sec v cluster d bytes =
      let w = write_sector v d (u32 (cluster_to_lba v cluster + sec)) bytes in
      let rest = write_sectors n (sec + 1) v cluster w.1 (drop v.bytes_per_sector bytes) in
      let on = if w.0 then rest else (false, w.1, bytes) in
      if length bytes == 0
      then (true, d, bytes)
      else if cluster_to_lba v cluster == 0
      then (false, d, bytes)
      else on

  -- The clusters of a file.
  pub write_clusters : ℕ → Bpb → ℕ → D → List ℕ → Bool × D
  write_clusters zero v cluster d bytes = (length bytes == 0, d)
  write_clusters (suc n) v cluster d bytes =
      let w = write_sectors v.sectors_per_cluster 0 v cluster d bytes in
      let next = fat_get_next_cluster v w.1 cluster in
      let rest = write_clusters n v next w.1 w.2 in
      let on = if is_end next then (length w.2 == 0, w.1) else rest in
      if length bytes == 0 then (true, d) else if not w.0 then (false, w.1) else on

  -- The buffer holds as many bytes as the file has.
  unfoldable pub fat32_write_file : Bpb → D → File → List ℕ → Bool × D
  fat32_write_file v d file buffer =
      write_clusters (max_clusters v) v file.first_cluster d (take file.size buffer)
