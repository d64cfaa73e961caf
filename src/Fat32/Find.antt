-- ===== src/Fat32/Find.antt =====
-- `fat32_find_file`, and the driver as the file system that the file calls stand on.
use implus_os.Base.{
  ℕ, zero, suc, ◌+◌, ◌-◌, ◌*◌, ◌/◌, ◌%◌, ◌≤◌, ◌<◌, ◌≡◌, refl, sym, ap, ◌∙◌, Bool, true, false, ◌||◌,
  if◌then◌else◌, ◌==◌, List, [], ◌∷◌, ◌++◌, length, get_or, take, drop, length-append, length-take,
  length-drop, get_or-append, get_or-take, Option, none, some, ℤ, pos, negsuc, arith, if-cases,
  ==→eq,
}
use implus_os.Allocator.{Allocator}
use implus_os.Disk.{Device, Delivers, disk_read}
use implus_os.Disk.Contents.{length-disk_read}
use mathlib.Core.Path.{subst}
use implus_os.Files.{File, FileSystem}
use implus_os.Files.Access.{ReadsWhole}
use implus_os.Fat32.{
  Bpb, memcmp_local, Search, found, absent, more, entry_file, scan_entries, or_search, scan_sector,
  scan_sectors, scan_clusters, found_file, max_clusters, cluster_to_lba, cluster_size, at_most,
  chunk, is_end, fat_get_next_cluster, read_from, fat32_find_file, fat32_read_file,
  fat32_write_file, u32,
}

-- The first eleven characters of a file's name are those of the name that was looked for.
abbrev pub HasName : List ℕ → File → Type 0
HasName filename f = (i : ℕ) → i < 11 → get_or f.name i 0 ≡ get_or filename i 0

memcmp_local_lem :
    (n i : ℕ) (a b : List ℕ)
    → memcmp_local n i a b ≡ pos 0
    → (k : ℕ) → k < n
    → get_or a (i + k) 0 ≡ get_or b (i + k) 0
unfolding memcmp_local
memcmp_local_lem zero i a b h k lt = absurd (omega arith)
memcmp_local_lem (suc n) i a b h zero lt =
    let at : i ≡ i + 0 = omega arith in rw (← at) (ground (arith, h))
memcmp_local_lem (suc n) i a b h (suc k) lt =
    let at : i + suc k ≡ i + 1 + k = omega arith in
    let same : memcmp_local n (i + 1) a b ≡ pos 0 = ground (arith, h) in
    rw at (memcmp_local_lem n (i + 1) a b same k (omega arith))

-- What a search finds, if anything, has the name.
abbrev pub Finds : List ℕ → Search → Type 0
Finds filename (found f) = HasName filename f
Finds filename absent = Unit {0}
Finds filename more = Unit {0}

entry-HasName :
    (filename buf : List ℕ) (i : ℕ)
    → memcmp_local 11 0 filename (drop i buf) ≡ pos 0
    → 11 ≤ length (drop i buf)
    → HasName filename (entry_file buf i)
entry-HasName filename buf i same full k lt =
    let at : 0 + k ≡ k = omega arith in
    let eq : get_or filename k 0 ≡ get_or (drop i buf) k 0 =
      rw at at (memcmp_local_lem 11 0 filename (drop i buf) same k lt) in
    ground (
      arith,
      lt,
      eq,
      get_or-append (take 11 (drop i buf)) (0 ∷ []) k 0,
      length-take 11 (drop i buf) full,
      get_or-take 11 (drop i buf) k 0 lt,
    )

scan_entries-Finds :
    (n i : ℕ) (filename buf : List ℕ)
    → i + n * 32 ≤ length buf
    → Finds filename (scan_entries n i filename buf)
unfolding scan_entries
scan_entries-Finds zero i filename buf h = tt
scan_entries-Finds (suc n) i filename buf h =
    let P : Search → Type 0 = λ s. Finds filename s in
    let rest = scan_entries-Finds n (i + 32) filename buf (omega (arith, h)) in
    let full : 11 ≤ length (drop i buf) = omega (arith, h, length-drop i buf) in
    if-cases P (get_or buf i 0 == 0) _ _ (λ e. tt)
      (λ e.
        if-cases P (get_or buf i 0 == 0xe5) _ _ (λ e. rest)
          (λ e.
            if-cases P (get_or buf (i + 11) 0 % 16 == 15 || get_or buf (i + 11) 0 / 8 % 2 == 1) _ _
              (λ e. rest) (λ e. compared (memcmp_local 11 0 filename (drop i buf)) refl full rest)))
  where
    compared :
        (z : ℤ)
        → memcmp_local 11 0 filename (drop i buf) ≡ z
        → 11 ≤ length (drop i buf)
        → Finds filename (scan_entries n (i + 32) filename buf)
        → Finds filename (elim z [
          | pos k ↦
              if k == 0 then found (entry_file buf i) else scan_entries n (i + 32) filename buf
          | negsuc k ↦ scan_entries n (i + 32) filename buf
        ])
    compared (pos k) e full rest =
        if-cases (λ s. Finds filename s) (k == 0) _ _
          (λ z. entry-HasName filename buf i (e ∙ ap pos (==→eq k 0 z)) full) (λ z. rest)
    compared (negsuc k) e full rest = rest

or_search-Finds :
    (filename : List ℕ) (s t : Search)
    → Finds filename s
    → Finds filename t
    → Finds filename (or_search s t)
or_search-Finds filename (found f) t h k = h
or_search-Finds filename absent t h k = tt
or_search-Finds filename more t h k = k

found_file-HasName :
    (filename : List ℕ) (s : Search) (f : File)
    → Finds filename s
    → found_file s ≡ some f
    → HasName filename f
found_file-HasName filename (found g) f h e =
    let eq : g ≡ f = cc e in subst (λ z. HasName filename z) eq h
found_file-HasName filename absent f h e = absurd (cc e)
found_file-HasName filename more f h e = absurd (cc e)

module _ {D : Type 0} (device : Device D) (v : Bpb) (deliver : Delivers device v.bytes_per_sector)
    (entries : v.bytes_per_sector % 32 ≡ 0) where
  scan_sector-Finds :
      (filename : List ℕ) (o : Option (List ℕ))
      → ((b : List ℕ) → o ≡ some b → length b ≡ v.bytes_per_sector)
      → Finds filename (scan_sector v filename o)
  scan_sector-Finds filename none h = tt
  scan_sector-Finds filename (some buf) h =
      scan_entries-Finds ((v.bytes_per_sector + 31) / 32) 0 filename buf
        (omega (arith, h buf refl, entries))

  scan_sectors-Finds :
      (n sec : ℕ) (d : D) (filename : List ℕ) (cluster : ℕ)
      → Finds filename (scan_sectors device n sec v d filename cluster)
  unfolding scan_sectors
  scan_sectors-Finds zero sec d filename cluster = tt
  scan_sectors-Finds (suc n) sec d filename cluster =
      let lba = cluster_to_lba v cluster in
      let one : 1 * v.bytes_per_sector ≡ v.bytes_per_sector = omega arith in
      if-cases (λ s. Finds filename s) (lba == 0) _ _ (λ e. tt)
        (λ e.
          or_search-Finds filename _ _
            (scan_sector-Finds filename (disk_read device d (u32 (lba + sec)) 1)
              (λ b e. length-disk_read device deliver 1 (u32 (lba + sec)) d b e ∙ one))
            (scan_sectors-Finds n (sec + 1) d filename cluster))

  scan_clusters-Finds :
      (n : ℕ) (d : D) (filename : List ℕ) (cluster : ℕ)
      → Finds filename (scan_clusters device n v d filename cluster)
  unfolding scan_clusters
  scan_clusters-Finds zero d filename cluster = tt
  scan_clusters-Finds (suc n) d filename cluster =
      let next = fat_get_next_cluster device v d cluster in
      or_search-Finds filename _ _ (scan_sectors-Finds v.sectors_per_cluster 0 d filename cluster) (
        if-cases (λ s. Finds filename s) (is_end next) _ _ (λ e. tt)
          (λ e. scan_clusters-Finds n d filename next))

  -- A file that is found has the name that was looked for, in its first eleven characters: on a device
  -- whose reads give whole sectors, each a multiple of an entry's 32 bytes.
  pub fat32_find_file-HasName :
      (d : D) (filename : List ℕ) (f : File)
      → fat32_find_file device v d filename ≡ some f
      → HasName filename f
  unfolding fat32_find_file
  fat32_find_file-HasName d filename f e =
      found_file-HasName filename _ f
        (scan_clusters-Finds (max_clusters v) d filename v.root_cluster) e

chunk_lem :
    (n k : ℕ) (x y : Option (List ℕ))
    → ((b : List ℕ) → x ≡ some b → n ≤ length b)
    → ((b : List ℕ) → y ≡ some b → length b ≡ k)
    → (b : List ℕ) → chunk n x y ≡ some b
    → length b ≡ n + k
chunk_lem n k none y hx hy b e = absurd (cc e)
chunk_lem n k (some p) none hx hy b e = absurd (cc e)
chunk_lem n k (some p) (some q) hx hy b e =
    let eq : take n p ++ q ≡ b = cc e in
    sym (ap length eq)
    ∙ length-append (take n p) q
    ∙ ap (λ m. m + length q) (length-take n p (hx p refl))
    ∙ ap (λ m. n + m) (hy q refl)

module _ {D : Type 0} (device : Device D) where
  -- The driver as the file system of the file calls.
  unfoldable pub fat_system : Bpb → FileSystem D
  fat_system v = record {
    find_file = λ d filename. fat32_find_file device v d filename;
    read_file = λ d file. fat32_read_file device v d file;
    write_file = λ d file bytes. fat32_write_file device v d file bytes;
  }

-- Behind a cluster that is the last one, nothing may be left.
onward :
    (k : ℕ) (last : Bool) (rest : Option (List ℕ))
    → ((b : List ℕ) → rest ≡ some b → length b ≡ k)
    → (b : List ℕ) → (if last then (if k == 0 then some [] else none) else rest) ≡ some b
    → length b ≡ k
onward k true rest h b e =
    if-cases (λ o. o ≡ some b → length b ≡ k) (k == 0) _ _
      (λ z e. let eq : [] ≡ b = cc e in sym (ap length eq) ∙ sym (==→eq k 0 z))
      (λ z e. absurd (cc e)) e
onward k false rest h b e = h b e

module _ {D : Type 0} (device : Device D) (v : Bpb)
    (deliver : Delivers device v.bytes_per_sector) where
  length-read_from :
      (fuel : ℕ) (d : D) (cluster left : ℕ) (b : List ℕ)
      → read_from device fuel v d cluster left ≡ some b
      → length b ≡ left
  unfolding read_from
  length-read_from zero d cluster left b e = onward left true none (λ b e. absurd (cc e)) b e
  length-read_from (suc fuel) d cluster left b e =
      let n = at_most left (cluster_size v) in
      let next = fat_get_next_cluster device v d cluster in
      if-cases (λ o. o ≡ some b → length b ≡ left) (left == 0) _ _
        (λ z e. let eq : [] ≡ b = cc e in sym (ap length eq) ∙ sym (==→eq left 0 z))
        (λ z e.
          if-cases (λ o. o ≡ some b → length b ≡ left) (cluster_to_lba v cluster == 0) _ _
            (λ z e. absurd (cc e))
            (λ z e.
              chunk_lem n (left - n) _ _ (λ b e. within b e)
                (λ b e.
                  onward (left - n) (is_end next) _
                    (λ b e. length-read_from fuel d next (left - n) b e) b e)
                b e
              ∙ whole)
            e)
        e
    where
      n : ℕ
      n = at_most left (cluster_size v)

      next : ℕ
      next = fat_get_next_cluster device v d cluster

      whole : n + (left - n) ≡ left
      whole = ground arith

      within :
          (b : List ℕ)
          → disk_read device d (cluster_to_lba v cluster) v.sectors_per_cluster ≡ some b
          → n ≤ length b
      within b e = ground (
        arith,
        length-disk_read device deliver v.sectors_per_cluster (cluster_to_lba v cluster) d b e,
      )

  -- The driver delivers as many bytes as a file has, or fails: on a device whose reads give whole
  -- sectors. So it is a file system as the file calls need it.
  pub fat_system-ReadsWhole :
      {H : Type 0} (alloc : Allocator H) (d : D) → ReadsWhole (fat_system device v) alloc d
  unfolding fat32_read_file fat_system
  fat_system-ReadsWhole alloc d file bytes e =
      length-read_from file.size d file.first_cluster file.size bytes e
