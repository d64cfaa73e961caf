-- ===== src/Disk.antt =====
-- Kernel/IO/IO_Main.c, `disk_read` and `disk_write`: the loops over sectors. The transfer of one
-- sector, over the controller's ports, is an interface.
pub mod Ata
pub mod Contents
mod Tests
use implus_os.Base.{
  ℕ, zero, suc, ◌+◌, ◌%◌, ◌^◌, Bool, true, false, if◌then◌else◌, ◌==◌, List, [], ◌∷◌, ◌++◌, drop,
  Option, none, some, length, ◌≡◌, ◌≢◌,
}

-- A device that transfers one sector: a read gives its bytes, a write takes those at the start of a
-- buffer; either can fail.
pub record Device (D : Type 0) : Type 0 where
  pub read_one : D → ℕ → Option (List ℕ)
  pub write_one : D → ℕ → List ℕ → Bool × D

-- FAT32_START_LBA, and the sector of the disk for a sector of the file system, in 32 bits.
abbrev pub fat32_start_lba : ℕ
fat32_start_lba = 2048

abbrev pub real_lba : ℕ → ℕ
real_lba lba = (fat32_start_lba + lba) % 2 ^ 32

abbrev pub joined : Option (List ℕ) → Option (List ℕ) → Option (List ℕ)
joined none rest = none
joined (some bytes) none = none
joined (some bytes) (some more) = some (bytes ++ more)

module _ {D : Type 0} (device : Device D) where
  unfoldable pub read_loop : ℕ → ℕ → D → Option (List ℕ)
  read_loop zero lba d = some []
  read_loop (suc n) lba d = joined (device.read_one d (real_lba lba)) (read_loop n (lba + 1) d)

  unfoldable pub disk_read : D → ℕ → ℕ → Option (List ℕ)
  unfolding read_loop
  disk_read d lba sectors = if sectors == 0 then none else read_loop sectors lba d

  unfoldable pub write_loop : ℕ → ℕ → List ℕ → D → Bool × D
  write_loop zero lba bytes d = (true, d)
  write_loop (suc n) lba bytes d =
      let w = device.write_one d (real_lba lba) bytes in
      let rest = write_loop n (lba + 1) (drop 512 bytes) w.1 in if w.0 then rest else (false, w.1)

  unfoldable pub disk_write : D → ℕ → List ℕ → ℕ → Bool × D
  unfolding write_loop
  disk_write d lba bytes sectors =
      if sectors == 0 then (false, d) else write_loop sectors lba bytes d

-- A device without errors, whose sectors have `size` bytes: what is written to a sector is read back
-- from it, and the others stay.
pub record Reliable {D : Type 0} (device : Device D) (size : ℕ) : Type 0 where
  pub sector : D → ℕ → List ℕ
  pub reads : (d : D) (o : ℕ) → device.read_one d o ≡ some (sector d o)
  pub full : (d : D) (o : ℕ) → length (sector d o) ≡ size
  pub writes : (d : D) (o : ℕ) (b : List ℕ) → length b ≡ size → (device.write_one d o b).0 ≡ true
  pub written :
      (d : D) (o : ℕ) (b : List ℕ) → length b ≡ size → sector (device.write_one d o b).1 o ≡ b
  pub others :
      (d : D) (o : ℕ) (b : List ℕ) (p : ℕ)
      → o ≢ p
      → sector (device.write_one d o b).1 p ≡ sector d p

-- A device of which every read that succeeds gives `size` bytes.
abbrev pub Delivers : {D : Type 0} → Device D → ℕ → Type 0
Delivers {D} device size =
    (d : D) (o : ℕ) (b : List ℕ) → device.read_one d o ≡ some b → length b ≡ size
