-- ===== src/Fat32/RoundTrip.antt =====
-- What `fat32_write_file` wrote, `fat32_read_file` reads back.
use mathlib.Core.Path.{subst}
use mathlib.Core.List.{append-nil}
use implus_os.Base.{
  ℕ, zero, suc, ◌+◌, ◌-◌, ◌*◌, ◌≤◌, ◌<◌, ◌≡◌, refl, sym, ap, ◌∙◌, inl, Bool, true, false, not,
  if◌then◌else◌, ◌==◌, List, [], ◌∷◌, ◌++◌, length, take, drop, length-drop, take_all, drop_all,
  take-drop, length-zero, Option, none, some, arith, if-cases, ==→eq, eq→==,
}
use implus_os.Disk.{Device, Reliable}
use implus_os.Disk.Contents.{contents, contents-same, disk_read_lem}
use implus_os.Files.{File}
use implus_os.Fat32.{
  Bpb, cluster_to_lba, cluster_size, at_most, chunk, is_end, fat_sector, fat_get_next_cluster,
  max_clusters, read_from, write_sectors, write_clusters, fat32_read_file, fat32_write_file,
}
use implus_os.Fat32.Layout.{
  InRange, first, lba_area, lba_nonzero, Outside, Outside-cluster, Outside-table, NoneOf, Distinct,
  AllInRange, fat_get_next_cluster-same,
}
use implus_os.Fat32.Sectors.{Stored, write_sectors-Stored}

module _ {D : Type 0} (device : Device D) (v : Bpb) (r : Reliable device v.bytes_per_sector) where
  -- The clusters of a file: `c`, and behind it those of the list, each the successor of the one
  -- before in the table.
  abbrev pub Chain : D → ℕ → List ℕ → Type 0
  Chain d c [] = InRange v c
  Chain d c (c' ∷ cs) = InRange v c × (fat_get_next_cluster device v d c ≡ c') × Chain d c' cs

  Chain-head : (d : D) (c : ℕ) (cs : List ℕ) → Chain d c cs → InRange v c
  Chain-head d c [] h = h
  Chain-head d c (c' ∷ cs) h = h.0

  Chain-AllInRange : (d : D) (c : ℕ) (cs : List ℕ) → Chain d c cs → AllInRange v (c ∷ cs)
  Chain-AllInRange d c [] h = (h, tt)
  Chain-AllInRange d c (c' ∷ cs) h = (h.0, Chain-AllInRange d c' cs h.2)

  -- A chain stands as long as the sectors of the table stay.
  Chain-same :
      (d d' : D) (c : ℕ) (cs : List ℕ)
      → ((k : ℕ)
          → InRange v k
          → r.sector d' (2048 + fat_sector v k) ≡ r.sector d (2048 + fat_sector v k))
      → Chain d c cs
      → Chain d' c cs
  Chain-same d d' c [] same h = h
  Chain-same d d' c (c' ∷ cs) same h = (
    h.0,
    fat_get_next_cluster-same device r d d' h.0 (same c h.0) ∙ h.1,
    Chain-same d d' c' cs same h.2,
  )

  read_nothing : (fuel : ℕ) (d : D) (c : ℕ) → read_from device fuel v d c 0 ≡ some []
  unfolding read_from
  read_nothing zero d c = refl
  read_nothing (suc fuel) d c = refl

  write_nothing :
      (n c : ℕ) (d : D) (bytes : List ℕ)
      → length bytes ≡ 0
      → write_clusters device n v c d bytes ≡ (true, d)
  unfolding write_clusters
  write_nothing zero c d bytes z = rw (eq→== _ _ z) refl
  write_nothing (suc n) c d bytes z = rw (eq→== _ _ z) refl

  -- What a round of the read makes of the rounds behind it.
  abbrev behind : ℕ → D → ℕ → ℕ → Option (List ℕ)
  behind fuel d next left =
      if is_end next
      then (if left == 0 then some [] else none)
      else read_from device fuel v d next left

  read_step :
      (fuel : ℕ) (d : D) (c left : ℕ)
      → InRange v c
      → 0 < v.sectors_per_cluster
      → (left == 0) ≡ false
      → read_from device (suc fuel) v d c left
        ≡ chunk
            (at_most left (cluster_size v))
            (some (contents device r v.sectors_per_cluster (first v c) d))
            (behind fuel d
              (fat_get_next_cluster device v d c)
              (left - at_most left (cluster_size v)))
  unfolding read_from
  read_step fuel d c left h pos nz =
      let at : 2048 + cluster_to_lba v c ≡ first v c = omega (arith, lba_area h) in
      let read =
        disk_read_lem device r v.sectors_per_cluster (cluster_to_lba v c) d pos
          (omega (arith, at, h.room)) in
      rw (nz, lba_nonzero h, read, at) refl

  -- The result of writing a file over the chain `c`, `cs`.
  pub record Written (d : D) (c : ℕ) (cs : List ℕ) (bytes : List ℕ) (w : Bool × D) : Type 0 where
    pub succeeds : w.0 ≡ true
    pub outside : (p : ℕ) → Outside v p (c ∷ cs) → r.sector w.1 p ≡ r.sector d p
    pub reads :
        (fuel : ℕ) → length bytes ≤ fuel → read_from device fuel v w.1 c (length bytes) ≡ some bytes

  Written-nothing :
      (d : D) (c : ℕ) (cs bytes : List ℕ) → length bytes ≡ 0 → Written d c cs bytes (true, d)
  Written-nothing d c cs bytes z = record {
    succeeds = refl;
    outside = λ p h. refl;
    reads = λ fuel h. rw z (read_nothing fuel d c) ∙ ap some (sym (length-zero bytes z));
  }

  module _ (c : ℕ) (d : D) (bytes : List ℕ) (w : Bool × D × List ℕ)
      (pos : 0 < v.sectors_per_cluster) (one : 0 < v.bytes_per_sector) (h : InRange v c)
      (some_left : (length bytes == 0) ≡ false)
      (s : Stored device v r v.sectors_per_cluster (first v c) d bytes w) where
    -- The table is not touched.
    table_kept :
        (k : ℕ)
        → InRange v k
        → r.sector w.1 (2048 + fat_sector v k) ≡ r.sector d (2048 + fat_sector v k)
    table_kept k hk = s.outside (2048 + fat_sector v k) (inl (omega (arith, hk.in_table)))

    next_kept : fat_get_next_cluster device v w.1 c ≡ fat_get_next_cluster device v d c
    next_kept = fat_get_next_cluster-same device r d w.1 h (table_kept c h)

    -- The bytes fit into the cluster.
    Written-last : (cs : List ℕ) → length bytes ≤ cluster_size v → Written d c cs bytes (true, w.1)
    Written-last cs fits = record {
      succeeds = refl;
      outside = λ p out. s.outside p out.0;
      reads = go;
    }
      where
        all_of : at_most (length bytes) (cluster_size v) ≡ length bytes
        all_of = ground (arith, fits)

        none_left : length bytes - at_most (length bytes) (cluster_size v) ≡ 0
        none_left = ground (arith, fits)

        ends : (f : ℕ) → behind f w.1 (fat_get_next_cluster device v w.1 c) 0 ≡ some []
        ends f =
            if-cases (λ z. z ≡ some []) (is_end (fat_get_next_cluster device v w.1 c)) _ _
              (λ e. refl) (λ e. read_nothing f w.1 (fat_get_next_cluster device v w.1 c))

        go :
            (fuel : ℕ)
            → length bytes ≤ fuel
            → read_from device fuel v w.1 c (length bytes) ≡ some bytes
        go zero le = absurd (ground (arith, le, some_left))
        go (suc f) le =
            read_step f w.1 c (length bytes) h pos some_left
            ∙ ap
                (λ k.
                  chunk (at_most (length bytes) (cluster_size v))
                    (some (contents device r v.sectors_per_cluster (first v c) w.1))
                    (behind f w.1 (fat_get_next_cluster device v w.1 c) k))
                none_left
            ∙ ap
                (λ o.
                  chunk (at_most (length bytes) (cluster_size v))
                    (some (contents device r v.sectors_per_cluster (first v c) w.1)) o)
                (ends f)
            ∙ ap some (append-nil _ ∙ s.holds ∙ take_all (cluster_size v) bytes fits)

    -- More clusters follow, over which the rest has been written.
    Written-more :
        (c' : ℕ) (cs : List ℕ) (w' : Bool × D)
        → fat_get_next_cluster device v d c ≡ c'
        → AllInRange v (c' ∷ cs)
        → NoneOf c (c' ∷ cs)
        → Written w.1 c' cs (drop (cluster_size v) bytes) w'
        → Written d c (c' ∷ cs) bytes w'
    Written-more c' cs w' next all away i = record {
      succeeds = i.succeeds;
      outside = λ p out. i.outside p out.1 ∙ s.outside p out.0;
      reads = go;
    }
      where
        same_contents :
            contents device r v.sectors_per_cluster (first v c) w'.1
            ≡ contents device r v.sectors_per_cluster (first v c) w.1
        same_contents =
            contents-same device r v.sectors_per_cluster (first v c) w.1 w'.1
              (λ p lo hi. i.outside p (Outside-cluster v c p (c' ∷ cs) h all away lo hi))

        next_there : fat_get_next_cluster device v w'.1 c ≡ c'
        next_there =
            fat_get_next_cluster-same device r w.1 w'.1 h
              (i.outside (2048 + fat_sector v c) (Outside-table v c (c' ∷ cs) h))
            ∙ next_kept
            ∙ next

        rest_left :
            length bytes - at_most (length bytes) (cluster_size v)
            ≡ length (drop (cluster_size v) bytes)
        rest_left = ground (arith, length-drop (cluster_size v) bytes)

        goes_on :
            (f : ℕ)
            → length (drop (cluster_size v) bytes) ≤ f
            → behind f w'.1 c' (length (drop (cluster_size v) bytes))
              ≡ some (drop (cluster_size v) bytes)
        goes_on f le =
            if-cases (λ z. z ≡ some (drop (cluster_size v) bytes)) (is_end c') _ _
              (λ e. absurd (cc (e, all.0.regular))) (λ e. i.reads f le)

        positive : 0 < cluster_size v
        positive = grind (arith, pos, one)

        go :
            (fuel : ℕ)
            → length bytes ≤ fuel
            → read_from device fuel v w'.1 c (length bytes) ≡ some bytes
        go zero le = absurd (ground (arith, le, some_left))
        go (suc f) le =
            read_step f w'.1 c (length bytes) h pos some_left
            ∙ ap
                (λ z. chunk (at_most (length bytes) (cluster_size v)) (some z) (
                  behind f w'.1 (fat_get_next_cluster device v w'.1 c)
                    (length bytes - at_most (length bytes) (cluster_size v))))
                same_contents
            ∙ ap
                (λ k.
                  chunk (at_most (length bytes) (cluster_size v))
                    (some (contents device r v.sectors_per_cluster (first v c) w.1))
                    (behind f w'.1 k (length bytes - at_most (length bytes) (cluster_size v))))
                next_there
            ∙ ap
                (λ k.
                  chunk (at_most (length bytes) (cluster_size v))
                    (some (contents device r v.sectors_per_cluster (first v c) w.1))
                    (behind f w'.1 c' k))
                rest_left
            ∙ ap
                (λ o.
                  chunk (at_most (length bytes) (cluster_size v))
                    (some (contents device r v.sectors_per_cluster (first v c) w.1)) o)
                (goes_on f
                  (ground (arith, le, some_left, positive, length-drop (cluster_size v) bytes)))
            ∙ ap (λ z. some (z ++ drop (cluster_size v) bytes)) s.holds
            ∙ ap some (take-drop (cluster_size v) bytes)

    -- What `write_clusters` does behind the sectors of `c`.
    abbrev onward : ℕ → Bool × D
    onward n =
        if is_end (fat_get_next_cluster device v w.1 c)
        then (length w.2 == 0, w.1)
        else write_clusters device n v (fat_get_next_cluster device v w.1 c) w.1 w.2

    Written-end :
        (n : ℕ) (cs : List ℕ) → length bytes ≤ cluster_size v → Written d c cs bytes (onward n)
    Written-end n cs le =
        if-cases (Written d c cs bytes) (is_end (fat_get_next_cluster device v w.1 c)) _ _
          (λ e.
            subst (λ b. Written d c cs bytes (b, w.1)) (sym (eq→== (length w.2) 0 done))
              (Written-last cs le))
          (λ e.
            subst (λ z. Written d c cs bytes z)
              (sym (write_nothing n (fat_get_next_cluster device v w.1 c) w.1 w.2 done))
              (Written-last cs le))
      where
        done : length w.2 ≡ 0
        done = ap length s.left ∙ ap length (drop_all (cluster_size v) bytes le)

    Written-onward :
        (n c' : ℕ) (cs : List ℕ)
        → fat_get_next_cluster device v d c ≡ c'
        → AllInRange v (c' ∷ cs)
        → NoneOf c (c' ∷ cs)
        → Written w.1 c' cs
            (drop (cluster_size v) bytes)
            (write_clusters device n v c' w.1 (drop (cluster_size v) bytes))
        → Written d c (c' ∷ cs) bytes (onward n)
    Written-onward n c' cs next all away i =
        if-cases (Written d c (c' ∷ cs) bytes) (is_end (fat_get_next_cluster device v w.1 c)) _ _
          (λ e. absurd (cc (e, all.0.regular, ap is_end (next_kept ∙ next))))
          (λ e.
            subst (λ z. Written d c (c' ∷ cs) bytes z) (sym there)
              (Written-more c' cs _ next all away i))
      where
        there :
            write_clusters device n v (fat_get_next_cluster device v w.1 c) w.1 w.2
            ≡ write_clusters device n v c' w.1 (drop (cluster_size v) bytes)
        there =
            ap (λ k. write_clusters device n v k w.1 w.2) (next_kept ∙ next)
            ∙ ap (λ z. write_clusters device n v c' w.1 z) s.left

  -- The sectors of the first cluster, all of them.
  first_cluster-Stored :
      (c : ℕ) (d : D) (bytes : List ℕ)
      → InRange v c
      → Stored device v r v.sectors_per_cluster
          (first v c)
          d
          bytes
          (write_sectors device v.sectors_per_cluster 0 v c d bytes)
  first_cluster-Stored c d bytes h =
      subst
        (λ o.
          Stored device v r v.sectors_per_cluster o d bytes
            (write_sectors device v.sectors_per_cluster 0 v c d bytes))
        start (write_sectors-Stored device v r v.sectors_per_cluster 0 c d bytes h (omega arith))
    where
      start : first v c + 0 ≡ first v c
      start = omega arith

  write_clusters-Written :
      (n c : ℕ) (cs : List ℕ) (d : D) (bytes : List ℕ)
      → 0 < v.sectors_per_cluster
      → 0 < v.bytes_per_sector
      → Chain d c cs
      → Distinct (c ∷ cs)
      → length bytes ≤ suc (length cs) * cluster_size v
      → length cs < n
      → Written d c cs bytes (write_clusters device n v c d bytes)
  unfolding write_clusters
  write_clusters-Written zero c cs d bytes pos one chain apart fits lt = absurd (omega arith)
  write_clusters-Written (suc n) c [] d bytes pos one h apart fits lt =
      let w = write_sectors device v.sectors_per_cluster 0 v c d bytes in
      let s = first_cluster-Stored c d bytes h in
      if-cases (Written d c [] bytes) (length bytes == 0) _ _
        (λ z. Written-nothing d c [] bytes (==→eq _ _ z))
        (λ nz.
          if-cases (Written d c [] bytes) (not w.0) _ _ (λ e. absurd (cc (s.succeeds, e)))
            (λ e. Written-end c d bytes w pos one h nz s n [] (omega (arith, fits))))
  write_clusters-Written (suc n) c (c' ∷ cs) d bytes pos one chain apart fits lt =
      let w = write_sectors device v.sectors_per_cluster 0 v c d bytes in
      let s = first_cluster-Stored c d bytes chain.0 in
      let more : suc (length (c' ∷ cs)) * cluster_size v
          ≡ cluster_size v + suc (length cs) * cluster_size v =
        grind arith in
      let ih =
        write_clusters-Written n c' cs w.1 (drop (cluster_size v) bytes) pos one
          (Chain-same d w.1 c' cs
            (λ k hk. s.outside (2048 + fat_sector v k) (inl (omega (arith, hk.in_table)))) chain.2)
          apart.1 (omega (arith, more, fits, length-drop (cluster_size v) bytes))
          (omega (arith, lt)) in
      if-cases (Written d c (c' ∷ cs) bytes) (length bytes == 0) _ _
        (λ z. Written-nothing d c (c' ∷ cs) bytes (==→eq _ _ z))
        (λ nz.
          if-cases (Written d c (c' ∷ cs) bytes) (not w.0) _ _ (λ e. absurd (cc (s.succeeds, e)))
            (λ e.
              Written-onward c d bytes w pos one chain.0 nz s n c' cs chain.1
                (Chain-AllInRange d c' cs chain.2) apart.0 ih))

  -- What `fat32_write_file` writes to a file, `fat32_read_file` reads back, on a device without errors:
  -- for as many bytes as the file has, and a chain of distinct clusters in range, long enough for them
  -- and no longer than the bound on the rounds.
  pub fat32_read_file-write_file :
      (d : D) (file : File) (cs : List ℕ) (buffer : List ℕ)
      → 0 < v.sectors_per_cluster
      → 0 < v.bytes_per_sector
      → Chain d file.first_cluster cs
      → Distinct (file.first_cluster ∷ cs)
      → length buffer ≡ file.size
      → file.size ≤ suc (length cs) * cluster_size v
      → length cs < max_clusters v
      → ((fat32_write_file device v d file buffer).0 ≡ true)
        × (fat32_read_file device v (fat32_write_file device v d file buffer).1 file ≡ some buffer)
  unfolding fat32_write_file fat32_read_file
  fat32_read_file-write_file d file cs buffer pos one chain apart len fits lt =
      let whole : take file.size buffer ≡ buffer = take_all file.size buffer (omega (arith, len)) in
      let w =
        write_clusters-Written (max_clusters v) file.first_cluster cs d buffer pos one chain apart
          (omega (arith, len, fits)) lt in
      rw whole (
        w.succeeds,
        subst
            (λ k.
              read_from device k v
                (write_clusters device (max_clusters v) v file.first_cluster d buffer).1
                file.first_cluster k
              ≡ some buffer)
            len (w.reads (length buffer) (omega arith)),
      )
