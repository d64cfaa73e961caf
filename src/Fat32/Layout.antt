-- ===== src/Fat32/Layout.antt =====
-- Where the clusters of a volume lie on the disk, and what reads of them give on a device without
-- errors.
use mathlib.Core.Path.{subst}
use implus_os.Base.{
  ℕ, ◌+◌, ◌-◌, ◌*◌, ◌%◌, ◌^◌, ◌≤◌, ◌<◌, ◌≡◌, refl, ◌≢◌, ◌⊎◌, inl, inr, false, ◌==◌, List, [], ◌∷◌,
  arith, multiples_apart,
}
use implus_os.Disk.{Device, Reliable}
use implus_os.Disk.Contents.{contents-same, disk_read_lem}
use implus_os.Fat32.{Bpb, data_start_lba, cluster_to_lba, is_end, fat_sector, fat_get_next_cluster}

-- The first sector of a cluster, counted from the start of the volume.
abbrev pub area : Bpb → ℕ → ℕ
area v c = data_start_lba v + (c - 2) * v.sectors_per_cluster

-- The cluster is a regular one, its sectors have numbers of 32 bits on the disk, and its entry stands
-- in the table, before the data.
pub record InRange (v : Bpb) (c : ℕ) : Type 0 where
  pub regular : is_end c ≡ false
  pub room : area v c + v.sectors_per_cluster + 2048 < 2 ^ 32
  pub in_table : fat_sector v c < data_start_lba v

u32_small : (a b : ℕ) → a + b < 2 ^ 32 → (a + b) % 2 ^ 32 ≡ a + b
u32_small a b h = omega arith

pub lba_area : {v : Bpb} {c : ℕ} → InRange v c → cluster_to_lba v c ≡ area v c
lba_area {v} {c} h = ground (
  arith,
  h.regular,
  u32_small (data_start_lba v) ((c - 2) * v.sectors_per_cluster) (omega (arith, h.room)),
)

pub lba_nonzero : {v : Bpb} {c : ℕ} → InRange v c → (cluster_to_lba v c == 0) ≡ false
lba_nonzero {v} {c} h = ground (arith, lba_area h, h.in_table)

-- The sector of the disk at which a cluster starts.
abbrev pub first : Bpb → ℕ → ℕ
first v c = 2048 + area v c

-- The sector stands in none of the clusters.
abbrev pub Outside : Bpb → ℕ → List ℕ → Type 0
Outside v p [] = Unit {0}
Outside v p (c ∷ cs) = ((p < first v c) ⊎ (first v c + v.sectors_per_cluster ≤ p)) × Outside v p cs

-- The cluster is none of the list.
abbrev pub NoneOf : ℕ → List ℕ → Type 0
NoneOf c [] = Unit {0}
NoneOf c (c' ∷ cs) = (c ≢ c') × NoneOf c cs

abbrev pub Distinct : List ℕ → Type 0
Distinct [] = Unit {0}
Distinct (c ∷ cs) = NoneOf c cs × Distinct cs

abbrev pub AllInRange : Bpb → List ℕ → Type 0
AllInRange v [] = Unit {0}
AllInRange v (c ∷ cs) = InRange v c × AllInRange v cs

at_least_two : {v : Bpb} {c : ℕ} → InRange v c → 2 ≤ c
at_least_two h = ground (arith, h.regular)

-- Two clusters do not share a sector.
clusters_apart :
    (v : Bpb) (c c' : ℕ)
    → InRange v c
    → InRange v c'
    → c ≢ c'
    → (area v c + v.sectors_per_cluster ≤ area v c')
      ⊎ (area v c' + v.sectors_per_cluster ≤ area v c)
clusters_apart v c c' h h' ne = elim (multiples_apart v.sectors_per_cluster (c - 2) (c' - 2)) [
  | inl e ↦ absurd (ne (omega (arith, e, at_least_two h, at_least_two h')))
  | inr (inl le) ↦ inl (omega (arith, le))
  | inr (inr le) ↦ inr (omega (arith, le))
]

pub Outside-cluster :
    (v : Bpb) (c p : ℕ) (cs : List ℕ)
    → InRange v c
    → AllInRange v cs
    → NoneOf c cs
    → first v c ≤ p
    → p < first v c + v.sectors_per_cluster
    → Outside v p cs
Outside-cluster v c p [] h hs away lo hi = tt
Outside-cluster v c p (c' ∷ cs) h hs away lo hi = (
  elim (clusters_apart v c c' h hs.0 away.0) [
    | inl le ↦ inl (omega (arith, le))
    | inr le ↦ inr (omega (arith, le))
  ],
  Outside-cluster v c p cs h hs.1 away.1 lo hi,
)

-- A sector of the table stands in no cluster.
pub Outside-table :
    (v : Bpb) (c : ℕ) (cs : List ℕ) → InRange v c → Outside v (2048 + fat_sector v c) cs
Outside-table v c [] h = tt
Outside-table v c (c' ∷ cs) h = (inl (omega (arith, h.in_table)), Outside-table v c cs h)

module _ {D : Type 0} (device : Device D) {size : ℕ} (r : Reliable device size) where
  -- The entry of a cluster depends on one sector of the table.
  pub fat_get_next_cluster-same :
      {v : Bpb} {c : ℕ} (d d' : D)
      → InRange v c
      → r.sector d' (2048 + fat_sector v c) ≡ r.sector d (2048 + fat_sector v c)
      → fat_get_next_cluster device v d' c ≡ fat_get_next_cluster device v d c
  unfolding fat_get_next_cluster
  fat_get_next_cluster-same {v} {c} d d' h same =
      let small : 2048 + fat_sector v c + 1 < 2 ^ 32 = omega (arith, h.in_table, h.room) in
      rw
        (
          disk_read_lem device r 1 (fat_sector v c) d' (omega arith) small,
          disk_read_lem device r 1 (fat_sector v c) d (omega arith) small,
          contents-same device r 1 (2048 + fat_sector v c) d d'
              (λ p lo hi. subst (λ q. r.sector d' q ≡ r.sector d q) (omega arith) same),
        )
        refl
