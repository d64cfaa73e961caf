-- ===== src/Disk/Tests.antt =====
-- A controller in front of sectors that hold one word each, repeated, and the theorem on it.
use mathlib.Core.Path.{subst}
use implus_os.Base.{
  ℕ, zero, suc, ◌+◌, ◌-◌, ◌*◌, ◌%◌, ◌^◌, ◌≡◌, refl, Bool, true, false, if◌then◌else◌, ◌==◌, List,
  [], ◌∷◌, drop, length-replicate, get_or, replicate, some, update, arith,
}
use implus_os.Disk.{Device, disk_read, disk_write}
use implus_os.Disk.Ata.{
  Controller, ata_lba0, ata_lba1, ata_lba2, ata_hddevsel, ata_command, ata_read, ata_write,
}
use implus_os.Disk.Ata.Protocol.{Protocol, Sends, Takes, bytes_of, words_of}
use implus_os.Disk.Ata.Refines.{ata-Refines}

record Drive : Type 0 where
  sectors : ℕ → ℕ
  lba0 : ℕ
  lba1 : ℕ
  lba2 : ℕ
  top : ℕ
  -- The first word of a transfer is still to come.
  fresh : Bool

abbrev number : Drive → ℕ
number c = c.lba0 + c.lba1 * 2 ^ 8 + c.lba2 * 2 ^ 16 + (c.top - 0xe0) * 2 ^ 24

abbrev controller : Controller Drive
controller = record {
  outb = λ c port val.
      if port == ata_lba0
      then record c { lba0 = val }
      else if port == ata_lba1
      then record c { lba1 = val }
      else if port == ata_lba2
      then record c { lba2 = val }
      else if port == ata_hddevsel
      then record c { top = val }
      else if port == ata_command
      then record c { fresh = true }
      else c;
  inb = λ c port. (8, c);
  inw = λ c port. (c.sectors (number c), c);
  outw = λ c port val.
      if c.fresh then record c { sectors = update c.sectors (number c) val; fresh = false } else c;
}

abbrev device : Device (ℕ → ℕ)
device = record {
  read_one = λ d o. some (bytes_of (replicate 256 (d o)));
  write_one = λ d o bytes. (true, update d o (get_or bytes 0 0 + get_or bytes 1 0 * 2 ^ 8));
}

abbrev idle : (ℕ → ℕ) → (lba0 lba1 lba2 top : ℕ) → Bool → Drive
idle sectors lba0 lba1 lba2 top fresh = record {
  sectors = sectors;
  lba0 = lba0;
  lba1 = lba1;
  lba2 = lba2;
  top = top;
  fresh = fresh;
}

sends :
    (n : ℕ) (next : Drive → Type 0) (c : Drive)
    → next c
    → Sends controller (replicate n (c.sectors (number c))) next c
sends zero next c k = k
sends (suc n) next c k = (refl, sends n next c k)

takes :
    (ws : List ℕ) (next : Drive → Type 0) (s : ℕ → ℕ) (l0 l1 l2 t : ℕ)
    → next (idle s l0 l1 l2 t false)
    → Takes controller ws next (idle s l0 l1 l2 t false)
takes [] next s l0 l1 l2 t k = k
takes (w ∷ ws) next s l0 l1 l2 t k = takes ws next s l0 l1 l2 t k

protocol : Protocol controller device
unfolding words_of
protocol = record {
  disk = λ c. c.sectors;
  words = λ d o. replicate 256 (d o);
  full = λ d o. length-replicate 256 (d o);
  read = λ d o. refl;
  written = λ d o bytes. refl;
  reads = λ c top b2 b1 b0 ht h2 h1 h0. record {
    busy = 0;
    wait = 0;
    busy_short = omega arith;
    wait_short = omega arith;
    answers =
        let drive = idle c.sectors b0 b1 b2 (0xe0 + top) true in
        let at : 0xe0 + top - 0xe0 ≡ top = omega arith in
        let given : Sends controller
            (replicate 256 (c.sectors (b0 + b1 * 2 ^ 8 + b2 * 2 ^ 16 + top * 2 ^ 24)))
            (λ c'. c'.sectors ≡ c.sectors) drive =
          subst
            (λ t.
              Sends controller
                (replicate 256 (c.sectors (b0 + b1 * 2 ^ 8 + b2 * 2 ^ 16 + t * 2 ^ 24)))
                (λ c'. c'.sectors ≡ c.sectors) drive)
            at (sends 256 (λ c'. c'.sectors ≡ c.sectors) drive refl) in
        (refl, (refl, refl, given));
  };
  writes = λ c top b2 b1 b0 bytes ht h2 h1 h0. record {
    busy = 0;
    wait = 0;
    busy_short = omega arith;
    wait_short = omega arith;
    answers =
        let at : 0xe0 + top - 0xe0 ≡ top = omega arith in
        let value = get_or bytes 0 0 + get_or bytes 1 0 * 2 ^ 8 in
        let o = b0 + b1 * 2 ^ 8 + b2 * 2 ^ 16 in
        (
          refl,
          (
            refl,
            refl,
            takes (words_of 255 (drop 2 bytes))
                (λ c'. c'.sectors ≡ update c.sectors (o + top * 2 ^ 24) value)
                (update c.sectors (o + (0xe0 + top - 0xe0) * 2 ^ 24) value) b0 b1 b2 (0xe0 + top)
                (rw at refl),
          ),
        );
  };
}

abbrev drive : Drive
drive = idle (λ o. o % 2 ^ 16) 0 0 0 0xe0 false

ata-Refines_example :
    ((ata_read controller 5 2 drive).0 ≡ disk_read device drive.sectors 5 2)
    × ((ata_read controller 5 2 drive).1.sectors ≡ drive.sectors)
    × ((ata_write controller 5 (7 ∷ []) 2 drive).0
        ≡ (disk_write device drive.sectors 5 (7 ∷ []) 2).0)
    × ((ata_write controller 5 (7 ∷ []) 2 drive).1.sectors
        ≡ (disk_write device drive.sectors 5 (7 ∷ []) 2).1)
unfolding protocol ata_read ata_write
ata-Refines_example = ata-Refines controller device protocol 2 5 drive (7 ∷ []) (omega arith)
