-- ===== src/Disk/Ata.antt =====
-- Kernel/IO/IO_Main.c: `disk_read` and `disk_write` down to the ports of the controller: the selection
-- of a sector, the waits with their timeouts, and the transfer of its 256 words.
pub mod Protocol
pub mod Refines
use implus_os.Base.{
  ℕ, zero, suc, ◌+◌, ◌*◌, ◌/◌, ◌%◌, ◌^◌, Bool, true, false, if◌then◌else◌, ◌==◌, List, [], ◌∷◌,
  ◌++◌, drop, Option, none, some, get_or,
}
use implus_os.Disk.{real_lba, joined}

-- The instructions for the ports; `outsw` of a buffer is one `outw` after the other.
pub record Controller (C : Type 0) : Type 0 where
  pub outb : C → (port val : ℕ) → C
  pub inb : C → (port : ℕ) → ℕ × C
  pub inw : C → (port : ℕ) → ℕ × C
  pub outw : C → (port val : ℕ) → C

abbrev pub ata_data : ℕ
ata_data = 0x1f0

abbrev pub ata_seccount : ℕ
ata_seccount = 0x1f2

abbrev pub ata_lba0 : ℕ
ata_lba0 = 0x1f3

abbrev pub ata_lba1 : ℕ
ata_lba1 = 0x1f4

abbrev pub ata_lba2 : ℕ
ata_lba2 = 0x1f5

abbrev pub ata_hddevsel : ℕ
ata_hddevsel = 0x1f6

abbrev pub ata_command : ℕ
ata_command = 0x1f7

abbrev pub ata_status : ℕ
ata_status = 0x1f7

abbrev pub ata_cmd_read : ℕ
ata_cmd_read = 0x20

abbrev pub ata_cmd_write : ℕ
ata_cmd_write = 0x30

-- ATA_SR_BSY, ATA_SR_DRQ and ATA_SR_ERR of a status.
abbrev pub is_busy : ℕ → Bool
is_busy status = status / 2 ^ 7 % 2 == 1

abbrev pub has_data : ℕ → Bool
has_data status = status / 2 ^ 3 % 2 == 1

abbrev pub has_error : ℕ → Bool
has_error status = status % 2 == 1

abbrev pub timeout : ℕ
timeout = 10000000

module _ {C : Type 0} (ctl : Controller C) where
  -- The six writes that start a command. Only 28 bits of the sector's number are sent.
  unfoldable pub send_command : (lba command : ℕ) → C → C
  send_command lba command c =
      let c1 = ctl.outb c ata_hddevsel (0xe0 + lba / 2 ^ 24 % 16) in
      let c2 = ctl.outb c1 ata_seccount 1 in
      let c3 = ctl.outb c2 ata_lba0 (lba % 2 ^ 8) in
      let c4 = ctl.outb c3 ata_lba1 (lba / 2 ^ 8 % 2 ^ 8) in
      let c5 = ctl.outb c4 ata_lba2 (lba / 2 ^ 16 % 2 ^ 8) in ctl.outb c5 ata_command command

  -- The loops, with what is left of the timeout.
  pub wait_ready : ℕ → C → Bool × C
  wait_ready zero c = (false, c)
  wait_ready (suc n) c =
      let (status, c') = ctl.inb c ata_status in
      let rest = wait_ready n c' in if is_busy status then rest else (true, c')

  pub wait_read : ℕ → C → Bool × C
  wait_read zero c = (false, c)
  wait_read (suc n) c =
      let (status, c') = ctl.inb c ata_status in
      let rest = wait_read n c' in
      if has_error status
      then (false, c')
      else if n == 0
      then (false, c')
      else if has_data status
      then (true, c')
      else rest

  pub wait_write : ℕ → C → Bool × C
  wait_write zero c = (false, c)
  wait_write (suc n) c =
      let (status, c') = ctl.inb c ata_status in
      let rest = wait_write n c' in if has_data status then (true, c') else rest

  -- `n` words from the data port, as bytes.
  pub read_words : ℕ → C → List ℕ × C
  read_words zero c = ([], c)
  read_words (suc n) c =
      let (w, c') = ctl.inw c ata_data in
      let rest = read_words n c' in (w % 2 ^ 8 ∷ w / 2 ^ 8 % 2 ^ 8 ∷ rest.0, rest.1)

  -- `n` words of a buffer to the data port.
  pub write_words : ℕ → List ℕ → C → C
  write_words zero bytes c = c
  write_words (suc n) bytes c =
      write_words n (drop 2 bytes)
        (ctl.outw c ata_data (get_or bytes 0 0 + get_or bytes 1 0 * 2 ^ 8))

  -- A step of the wait, if the one before it succeeded.
  abbrev pub and_wait : Bool × C → (C → Bool × C) → Bool × C
  and_wait (false, c) next = (false, c)
  and_wait (true, c) next = next c

  abbrev pub transferred_in : Bool × C → Option (List ℕ) × C
  transferred_in (false, c) = (none, c)
  transferred_in (true, c) = let r = read_words 256 c in (some r.0, r.1)

  abbrev pub transferred_out : List ℕ → Bool × C → Bool × C
  transferred_out bytes (false, c) = (false, c)
  transferred_out bytes (true, c) = (true, write_words 256 bytes c)

  -- One round of the loops.
  unfoldable pub ata_read_sector : (lba : ℕ) → C → Option (List ℕ) × C
  ata_read_sector lba c =
      transferred_in (
        and_wait (wait_ready timeout (send_command lba ata_cmd_read c))
          (λ c'. wait_read timeout c'))

  unfoldable pub ata_write_sector : (lba : ℕ) → List ℕ → C → Bool × C
  ata_write_sector lba bytes c = transferred_out bytes (
      and_wait (wait_ready timeout (send_command lba ata_cmd_write c))
        (λ c'. wait_write timeout c'))

  abbrev pub and_read : Option (List ℕ) × C → (C → Option (List ℕ) × C) → Option (List ℕ) × C
  and_read (none, c) next = (none, c)
  and_read (some bytes, c) next = (joined (some bytes) (next c).0, (next c).1)

  unfoldable pub ata_read_sectors : (n lba : ℕ) → C → Option (List ℕ) × C
  ata_read_sectors zero lba c = (some [], c)
  ata_read_sectors (suc n) lba c =
      and_read (ata_read_sector (real_lba lba) c) (λ c'. ata_read_sectors n (lba + 1) c')

  unfoldable pub ata_read : (lba sectors : ℕ) → C → Option (List ℕ) × C
  ata_read lba sectors c = if sectors == 0 then (none, c) else ata_read_sectors sectors lba c

  unfoldable pub ata_write_sectors : (n lba : ℕ) → List ℕ → C → Bool × C
  ata_write_sectors zero lba bytes c = (true, c)
  ata_write_sectors (suc n) lba bytes c =
      and_wait (ata_write_sector (real_lba lba) bytes c)
        (λ c'. ata_write_sectors n (lba + 1) (drop 512 bytes) c')

  unfoldable pub ata_write : (lba : ℕ) → List ℕ → (sectors : ℕ) → C → Bool × C
  ata_write lba bytes sectors c =
      if sectors == 0 then (false, c) else ata_write_sectors sectors lba bytes c
