-- ===== src/Disk/Ata/Protocol.antt =====
-- A controller that keeps to the protocol, and that the driver of the ports is then a device that
-- transfers sectors, as the file system needs it.
use implus_os.Base.{
  ℕ, zero, suc, ◌+◌, ◌*◌, ◌/◌, ◌%◌, ◌^◌, ◌<◌, ◌≡◌, refl, true, false, ◌==◌, List, [], ◌∷◌, length,
  drop, get_or, some, arith,
}
use implus_os.Disk.{Device}
use implus_os.Disk.Ata.{
  Controller, ata_data, ata_seccount, ata_lba0, ata_lba1, ata_lba2, ata_hddevsel, ata_command,
  ata_status, ata_cmd_read, ata_cmd_write, is_busy, has_data, has_error, timeout, wait_ready,
  wait_read, wait_write, read_words, write_words,
}

-- Words of 16 bits as bytes, and bytes as words.
unfoldable pub bytes_of : List ℕ → List ℕ
bytes_of [] = []
bytes_of (w ∷ ws) = w % 2 ^ 8 ∷ w / 2 ^ 8 % 2 ^ 8 ∷ bytes_of ws

unfoldable pub words_of : ℕ → List ℕ → List ℕ
words_of zero bytes = []
words_of (suc n) bytes = (get_or bytes 0 0 + get_or bytes 1 0 * 2 ^ 8) ∷ words_of n (drop 2 bytes)

module _ {C : Type 0} (ctl : Controller C) where
  -- The status is busy for `n` looks, and then no longer.
  abbrev pub Clears : ℕ → (C → Type 0) → C → Type 0
  Clears zero next c = (is_busy (ctl.inb c ata_status).0 ≡ false) × next (ctl.inb c ata_status).1
  Clears (suc n) next c =
      (is_busy (ctl.inb c ata_status).0 ≡ true) × Clears n next (ctl.inb c ata_status).1

  -- After `n` looks the controller asks for the data, without an error on the way.
  abbrev pub Asks : ℕ → (C → Type 0) → C → Type 0
  Asks zero next c =
      (has_error (ctl.inb c ata_status).0 ≡ false)
      × (has_data (ctl.inb c ata_status).0 ≡ true)
      × next (ctl.inb c ata_status).1
  Asks (suc n) next c =
      (has_error (ctl.inb c ata_status).0 ≡ false)
      × (has_data (ctl.inb c ata_status).0 ≡ false)
      × Asks n next (ctl.inb c ata_status).1

  -- The data port gives these words, or takes them.
  abbrev pub Sends : List ℕ → (C → Type 0) → C → Type 0
  Sends [] next c = next c
  Sends (w ∷ ws) next c = ((ctl.inw c ata_data).0 ≡ w) × Sends ws next (ctl.inw c ata_data).1

  abbrev pub Takes : List ℕ → (C → Type 0) → C → Type 0
  Takes [] next c = next c
  Takes (w ∷ ws) next c = Takes ws next (ctl.outw c ata_data w)

  -- The registers hold the number of a sector, byte by byte, and a command.
  abbrev pub started : (top b2 b1 b0 command : ℕ) → C → C
  started top b2 b1 b0 command c =
      ctl.outb
        (ctl.outb
          (ctl.outb
            (ctl.outb (ctl.outb (ctl.outb c ata_hddevsel (0xe0 + top)) ata_seccount 1) ata_lba0 b0)
            ata_lba1 b1)
          ata_lba2 b2)
        ata_command command

  -- An answer in time, of the controller in the state `c`.
  pub record InTime (next : C → Type 0) (c : C) : Type 0 where
    pub busy : ℕ
    pub wait : ℕ
    pub busy_short : busy < timeout
    pub wait_short : wait + 1 < timeout
    pub answers : Clears busy (Asks wait next) c

  -- A command reads or writes one sector of the disk behind the controller.
  pub record Protocol {D : Type 0} (device : Device D) : Type 0 where
    pub disk : C → D
    pub words : D → ℕ → List ℕ
    pub full : (d : D) (o : ℕ) → length (words d o) ≡ 256
    pub read : (d : D) (o : ℕ) → device.read_one d o ≡ some (bytes_of (words d o))
    pub written : (d : D) (o : ℕ) (bytes : List ℕ) → (device.write_one d o bytes).0 ≡ true
    pub reads :
        (c : C) (top b2 b1 b0 : ℕ)
        → top < 16
        → b2 < 2 ^ 8
        → b1 < 2 ^ 8
        → b0 < 2 ^ 8
        → InTime
            (Sends
              (words (disk c) (b0 + b1 * 2 ^ 8 + b2 * 2 ^ 16 + top * 2 ^ 24))
              (λ c'. disk c' ≡ disk c))
            (started top b2 b1 b0 ata_cmd_read c)
    pub writes :
        (c : C) (top b2 b1 b0 : ℕ) (bytes : List ℕ)
        → top < 16
        → b2 < 2 ^ 8
        → b1 < 2 ^ 8
        → b0 < 2 ^ 8
        → InTime
            (Takes (words_of 256 bytes) (λ c'.
              disk c'
              ≡ (device.write_one (disk c) (b0 + b1 * 2 ^ 8 + b2 * 2 ^ 16 + top * 2 ^ 24) bytes).1))
            (started top b2 b1 b0 ata_cmd_write c)

  pub wait_ready_lem :
      (n b : ℕ) (next : C → Type 0) (c : C)
      → b < n
      → Clears b next c
      → ((wait_ready ctl n c).0 ≡ true) × next (wait_ready ctl n c).1
  unfolding wait_ready
  wait_ready_lem zero b next c h q = absurd (omega (arith, h))
  wait_ready_lem (suc n) zero next c h (q, k) = rw q (refl, k)
  wait_ready_lem (suc n) (suc b) next c h (q, k) =
      rw q (wait_ready_lem n b next _ (omega (arith, h)) k)

  pub wait_read_lem :
      (n w : ℕ) (next : C → Type 0) (c : C)
      → w + 1 < n
      → Asks w next c
      → ((wait_read ctl n c).0 ≡ true) × next (wait_read ctl n c).1
  unfolding wait_read
  wait_read_lem zero w next c h q = absurd (omega (arith, h))
  wait_read_lem (suc n) zero next c h (e, q, k) =
      let more : (n == 0) ≡ false = ground (arith, h) in rw (e, more, q) (refl, k)
  wait_read_lem (suc n) (suc w) next c h (e, q, k) =
      let more : (n == 0) ≡ false = ground (arith, h) in
      rw (e, more, q) (wait_read_lem n w next _ (omega (arith, h)) k)

  pub wait_write_lem :
      (n w : ℕ) (next : C → Type 0) (c : C)
      → w < n
      → Asks w next c
      → ((wait_write ctl n c).0 ≡ true) × next (wait_write ctl n c).1
  unfolding wait_write
  wait_write_lem zero w next c h q = absurd (omega (arith, h))
  wait_write_lem (suc n) zero next c h (e, q, k) = rw q (refl, k)
  wait_write_lem (suc n) (suc w) next c h (e, q, k) =
      rw q (wait_write_lem n w next _ (omega (arith, h)) k)

  pub read_words_lem :
      (ws : List ℕ) (next : C → Type 0) (c : C)
      → Sends ws next c
      → ((read_words ctl (length ws) c).0 ≡ bytes_of ws) × next (read_words ctl (length ws) c).1
  unfolding read_words bytes_of
  read_words_lem [] next c k = (refl, k)
  read_words_lem (w ∷ ws) next c (e, k) =
      let rest = read_words_lem ws next _ k in (rw (e, rest.0) refl, rest.1)

  pub write_words_lem :
      (n : ℕ) (bytes : List ℕ) (next : C → Type 0) (c : C)
      → Takes (words_of n bytes) next c
      → next (write_words ctl n bytes c)
  unfolding write_words words_of
  write_words_lem zero bytes next c k = k
  write_words_lem (suc n) bytes next c k = write_words_lem n (drop 2 bytes) next _ k
