-- ===== src/Fat32/Sectors.antt =====
-- `write_sectors` on a device without errors: what it leaves in the sectors of a cluster.
use mathlib.Core.Path.{subst}
use mathlib.Core.List.{append-nil, append_assoc}
use implus_os.Base.{
  ℕ, zero, suc, ◌+◌, ◌-◌, ◌*◌, ◌^◌, ◌≤◌, ◌<◌, ◌≡◌, refl, sym, ap, ◌∙◌, ◌≢◌, ◌⊎◌, inl, inr, Bool,
  true, if◌then◌else◌, leb, ◌==◌, List, [], ◌++◌, length, take, drop, length-append, length-take,
  length-drop, take_all, drop_all, take-add, drop-add, take-append, length-zero, arith, Bool-cases,
  if-cases, ==→eq,
}
use implus_os.Disk.{Device, Reliable}
use implus_os.Disk.Contents.{contents, disk_read_lem, disk_write_lem}
use implus_os.Fat32.{Bpb, cluster_to_lba, at_most, write_sector, write_sectors, u32}
use implus_os.Fat32.Layout.{InRange, first, lba_area, lba_nonzero}

-- What a sector holds when the next bytes of a file are written to it over `old`.
abbrev pub merged : ℕ → List ℕ → List ℕ → List ℕ
merged size bytes old =
    if leb size (length bytes) then take size bytes else bytes ++ drop (length bytes) old

length-merged :
    (size : ℕ) (bytes old : List ℕ) → length old ≡ size → length (merged size bytes old) ≡ size
length-merged size bytes old h = elim (Bool-cases (leb size (length bytes))) [
  | inl e ↦ rw e (length-take size bytes (ground (arith, e)))
  | inr e ↦ rw e (
      ground (
        arith,
        e,
        length-append bytes (drop (length bytes) old),
        length-drop (length bytes) old,
        h,
      ))
]

-- The bytes of a sector in front of others.
merged-append :
    (n size : ℕ) (bytes old more : List ℕ)
    → length old ≡ size
    → take (at_most (length (drop size bytes)) (n * size)) more ≡ take (n * size) (drop size bytes)
    → take (at_most (length bytes) (suc n * size)) (merged size bytes old ++ more)
      ≡ take (suc n * size) bytes
merged-append n size bytes old more h ih = elim (Bool-cases (leb size (length bytes))) [
  | inl e ↦
      let whole : length (take size bytes) ≡ size = length-take size bytes (ground (arith, e)) in
      let le : length (take size bytes) ≤ at_most (length bytes) (suc n * size) =
        ground (arith, e, whole, mult) in
      let rest : at_most (length bytes) (suc n * size) - length (take size bytes)
          ≡ at_most (length (drop size bytes)) (n * size) =
        ground (arith, e, whole, mult, length-drop size bytes) in
      rw e (
        take-append (take size bytes) more _ le
        ∙ ap (λ k. take size bytes ++ take k more) rest
        ∙ ap (λ z. take size bytes ++ z) ih
        ∙ sym (take-add size (n * size) bytes)
        ∙ ap (λ k. take k bytes) mult)
  | inr e ↦
      let short : at_most (length bytes) (suc n * size) ≡ length bytes = ground (arith, e, mult) in
      rw (e, short)
        (ap (λ z. take (length bytes) z) (append_assoc bytes (drop (length bytes) old) more)
          ∙ take-append bytes (drop (length bytes) old ++ more) (length bytes) (omega arith)
          ∙ ap (λ k. bytes ++ take k (drop (length bytes) old ++ more)) zero_left
          ∙ append-nil bytes
          ∙ sym (take_all (suc n * size) bytes (ground (arith, e, mult))))
]
  where
    mult : size + n * size ≡ suc n * size
    mult = grind arith

    zero_left : length bytes - length bytes ≡ 0
    zero_left = omega arith

module _ {D : Type 0} (device : Device D) (v : Bpb) (r : Reliable device v.bytes_per_sector) where
  -- One sector is written whole, and the others stay.
  write_sector_lem :
      (lba : ℕ) (bytes : List ℕ) (d : D)
      → 2048 + lba + 1 < 2 ^ 32
      → ((write_sector device v d lba bytes).0 ≡ true)
        × (r.sector (write_sector device v d lba bytes).1 (2048 + lba)
            ≡ merged v.bytes_per_sector bytes (r.sector d (2048 + lba)))
        × ((p : ℕ)
            → 2048 + lba ≢ p
            → r.sector (write_sector device v d lba bytes).1 p ≡ r.sector d p)
  unfolding write_sector contents
  write_sector_lem lba bytes d h = elim (Bool-cases (leb v.bytes_per_sector (length bytes))) [
    | inl e ↦ rw e (
        disk_write_lem device r lba (take v.bytes_per_sector bytes) d (omega arith)
          (length-take v.bytes_per_sector bytes (ground (arith, e))))
    | inr e ↦
        let old : r.sector d (2048 + lba) ++ [] ≡ r.sector d (2048 + lba) = append-nil _ in
        rw (e, disk_read_lem device r 1 lba d (omega arith) (omega arith), old)
          (disk_write_lem device r lba (bytes ++ drop (length bytes) (r.sector d (2048 + lba))) d
            (omega arith)
            (subst
              (λ b.
                length (
                  if b
                  then take v.bytes_per_sector bytes
                  else bytes ++ drop (length bytes) (r.sector d (2048 + lba)))
                ≡ v.bytes_per_sector)
              e
              (length-merged v.bytes_per_sector bytes (r.sector d (2048 + lba))
                (r.full d (2048 + lba)))))
  ]

  -- `n` sectors of the disk from `o` on hold the next bytes of a file; what is left, and the other
  -- sectors.
  pub record Stored (n o : ℕ) (d : D) (bytes : List ℕ) (w : Bool × D × List ℕ) : Type 0 where
    pub succeeds : w.0 ≡ true
    pub left : w.2 ≡ drop (n * v.bytes_per_sector) bytes
    pub outside : (p : ℕ) → (p < o) ⊎ (o + n ≤ p) → r.sector w.1 p ≡ r.sector d p
    pub holds :
        take (at_most (length bytes) (n * v.bytes_per_sector)) (contents device r n o w.1)
        ≡ take (n * v.bytes_per_sector) bytes

  Stored-nothing :
      (n o : ℕ) (d : D) (bytes : List ℕ) → length bytes ≡ 0 → Stored n o d bytes (true, d, bytes)
  Stored-nothing n o d bytes z = record {
    succeeds = refl;
    left = length-zero bytes z ∙ sym (drop_all (n * v.bytes_per_sector) bytes (omega (arith, z)));
    outside = λ p h. refl;
    holds =
        ap (λ k. take k (contents device r n o d)) none_left
        ∙ sym (length-zero bytes z)
        ∙ sym (take_all (n * v.bytes_per_sector) bytes (omega (arith, z)));
  }
    where
      none_left : at_most (length bytes) (n * v.bytes_per_sector) ≡ 0
      none_left = ground (arith, z)

  Stored-next :
      (n o : ℕ) (d : D) (bytes : List ℕ) (w : Bool × D) (w' : Bool × D × List ℕ)
      → r.sector w.1 o ≡ merged v.bytes_per_sector bytes (r.sector d o)
      → ((p : ℕ) → o ≢ p → r.sector w.1 p ≡ r.sector d p)
      → Stored n (o + 1) w.1 (drop v.bytes_per_sector bytes) w'
      → Stored (suc n) o d bytes w'
  unfolding contents
  Stored-next n o d bytes w w' here others s = record {
    succeeds = s.succeeds;
    left =
        s.left
        ∙ sym (drop-add v.bytes_per_sector (n * v.bytes_per_sector) bytes)
        ∙ ap (λ k. drop k bytes) mult;
    outside = λ p h. s.outside p (omega (arith, h)) ∙ others p (omega (arith, h));
    holds =
        ap
          (λ z.
            take (at_most (length bytes) (suc n * v.bytes_per_sector))
              (z ++ contents device r n (o + 1) w'.1))
          (s.outside o (inl (omega arith)) ∙ here)
        ∙ merged-append n v.bytes_per_sector bytes (r.sector d o) (contents device r n (o + 1) w'.1)
            (r.full d o) s.holds;
  }
    where
      mult : v.bytes_per_sector + n * v.bytes_per_sector ≡ suc n * v.bytes_per_sector
      mult = grind arith

  -- `n` sectors of a cluster from number `sec` on.
  pub write_sectors-Stored :
      (n sec c : ℕ) (d : D) (bytes : List ℕ)
      → InRange v c
      → sec + n ≤ v.sectors_per_cluster
      → Stored n (first v c + sec) d bytes (write_sectors device n sec v c d bytes)
  unfolding write_sectors contents
  write_sectors-Stored zero sec c d bytes h le = record {
    succeeds = refl;
    left = ap (λ k. drop k bytes) nothing;
    outside = λ p h. refl;
    holds =
        take_all (at_most (length bytes) (0 * v.bytes_per_sector)) [] (omega arith)
        ∙ ap (λ k. take k bytes) nothing;
  }
    where
      nothing : 0 ≡ 0 * v.bytes_per_sector
      nothing = omega arith
  write_sectors-Stored (suc n) sec c d bytes h le =
      let at : 2048 + u32 (cluster_to_lba v c + sec) ≡ first v c + sec =
        omega (arith, lba_area h, h.room, le) in
      let (ok, here, others) =
        write_sector_lem (u32 (cluster_to_lba v c + sec)) bytes d (omega (arith, at, h.room, le)) in
      let on : first v c + (sec + 1) ≡ first v c + sec + 1 = omega arith in
      let w = write_sector device v d (u32 (cluster_to_lba v c + sec)) bytes in
      if-cases (Stored (suc n) (first v c + sec) d bytes) (length bytes == 0) _ _
        (λ z. Stored-nothing (suc n) (first v c + sec) d bytes (==→eq _ _ z))
        (λ z.
          if-cases (Stored (suc n) (first v c + sec) d bytes) (cluster_to_lba v c == 0) _ _
            (λ q. absurd (cc (q, lba_nonzero h)))
            (λ q.
              if-cases (Stored (suc n) (first v c + sec) d bytes) w.0 _ _
                (λ e.
                  Stored-next n (first v c + sec) d bytes w
                    (write_sectors device n (sec + 1) v c w.1 (drop v.bytes_per_sector bytes))
                    (subst (λ o. r.sector w.1 o ≡ merged v.bytes_per_sector bytes (r.sector d o)) at
                      here)
                    (subst (λ o. (p : ℕ) → o ≢ p → r.sector w.1 p ≡ r.sector d p) at others)
                    (subst
                      (λ o.
                        Stored n o w.1 (drop v.bytes_per_sector bytes) (
                          write_sectors device n (sec + 1) v c w.1 (drop v.bytes_per_sector bytes)))
                      on
                      (write_sectors-Stored n (sec + 1) c w.1 (drop v.bytes_per_sector bytes) h
                        (omega (arith, le)))))
                (λ e. absurd (cc (ok, e)))))
