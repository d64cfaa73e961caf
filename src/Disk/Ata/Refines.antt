-- ===== src/Disk/Ata/Refines.antt =====
-- The driver of the ports does what the loops over a device do, on a controller that keeps to the
-- protocol.
use mathlib.Core.Path.{subst}
use implus_os.Base.{
  ℕ, zero, suc, ◌+◌, ◌*◌, ◌/◌, ◌%◌, ◌^◌, ◌≤◌, ◌<◌, ◌≡◌, refl, sym, ap, ◌∙◌, Bool, true, false,
  if◌then◌else◌, ◌==◌, List, length, drop, Option, none, some, arith,
}
use implus_os.Disk.{Device, real_lba, joined, read_loop, disk_read, write_loop, disk_write}
use implus_os.Disk.Ata.{
  Controller, ata_cmd_read, ata_cmd_write, timeout, send_command, wait_ready, wait_read, wait_write,
  read_words, and_wait, transferred_in, transferred_out, ata_read_sector, ata_write_sector,
  and_read, ata_read_sectors, ata_read, ata_write_sectors, ata_write,
}
use implus_os.Disk.Ata.Protocol.{
  Protocol, InTime, Asks, Sends, Takes, bytes_of, words_of, wait_ready_lem, wait_read_lem,
  wait_write_lem, read_words_lem, write_words_lem,
}

module _ {C D : Type 0} (ctl : Controller C) (device : Device D) (p : Protocol ctl device) where
  -- The bytes of a number of 28 bits.
  joined_bytes :
      (lba : ℕ)
      → lba < 2 ^ 28
      → lba % 2 ^ 8
          + lba / 2 ^ 8 % 2 ^ 8 * 2 ^ 8
          + lba / 2 ^ 16 % 2 ^ 8 * 2 ^ 16
          + lba / 2 ^ 24 % 16 * 2 ^ 24
        ≡ lba
  joined_bytes lba h = omega (arith, h)

  transferred_in-words :
      (ws : List ℕ) (next : C → Type 0) (r : Bool × C)
      → length ws ≡ 256
      → r.0 ≡ true
      → Sends ctl ws next r.1
      → ((transferred_in ctl r).0 ≡ some (bytes_of ws)) × next (transferred_in ctl r).1
  transferred_in-words ws next (false, c) len e k = absurd (cc e)
  transferred_in-words ws next (true, c) len e k =
      let r = read_words_lem ctl ws next c k in
      subst (λ n. (some (read_words ctl n c).0 ≡ some (bytes_of ws)) × next (read_words ctl n c).1)
        len (ap some r.0, r.1)

  transferred_out-words :
      (bytes : List ℕ) (next : C → Type 0) (r : Bool × C)
      → r.0 ≡ true
      → Takes ctl (words_of 256 bytes) next r.1
      → ((transferred_out ctl bytes r).0 ≡ true) × next (transferred_out ctl bytes r).1
  transferred_out-words bytes next (false, c) e k = absurd (cc e)
  transferred_out-words bytes next (true, c) e k = (refl, write_words_lem ctl 256 bytes next c k)

  and_wait-next :
      (K next : C → Type 0) (f : C → Bool × C) (r : Bool × C)
      → (r.0 ≡ true) × K r.1
      → ((c : C) → K c → ((f c).0 ≡ true) × next (f c).1)
      → ((and_wait ctl r f).0 ≡ true) × next (and_wait ctl r f).1
  and_wait-next K next f (false, c) (e, k) g = absurd (cc e)
  and_wait-next K next f (true, c) (e, k) g = g c k

  wait_in :
      (next : C → Type 0) (c : C)
      → InTime ctl next c
      → let r = and_wait ctl (wait_ready ctl timeout c) (λ c'. wait_read ctl timeout c') in
        (r.0 ≡ true) × next r.1
  wait_in next c t =
      and_wait-next (Asks ctl t.wait next) next (λ c'. wait_read ctl timeout c')
        (wait_ready ctl timeout c)
        (wait_ready_lem ctl timeout t.busy (Asks ctl t.wait next) c t.busy_short t.answers)
        (λ c' k. wait_read_lem ctl timeout t.wait next c' t.wait_short k)

  wait_out :
      (next : C → Type 0) (c : C)
      → InTime ctl next c
      → let r = and_wait ctl (wait_ready ctl timeout c) (λ c'. wait_write ctl timeout c') in
        (r.0 ≡ true) × next r.1
  wait_out next c t =
      let short = t.wait_short in
      and_wait-next (Asks ctl t.wait next) next (λ c'. wait_write ctl timeout c')
        (wait_ready ctl timeout c)
        (wait_ready_lem ctl timeout t.busy (Asks ctl t.wait next) c t.busy_short t.answers)
        (λ c' k. wait_write_lem ctl timeout t.wait next c' (omega (arith, short)) k)

  ata_read_sector_lem :
      (lba : ℕ) (c : C)
      → lba < 2 ^ 28
      → ((ata_read_sector ctl lba c).0 ≡ device.read_one (p.disk c) lba)
        × (p.disk (ata_read_sector ctl lba c).1 ≡ p.disk c)
  unfolding ata_read_sector send_command
  ata_read_sector_lem lba c h =
      let same : C → Type 0 = λ c'. p.disk c' ≡ p.disk c in
      let sector = p.words (p.disk c) (
        lba % 2 ^ 8
        + lba / 2 ^ 8 % 2 ^ 8 * 2 ^ 8
        + lba / 2 ^ 16 % 2 ^ 8 * 2 ^ 16
        + lba / 2 ^ 24 % 16 * 2 ^ 24) in
      let waited = wait_in (Sends ctl sector same) (send_command ctl lba ata_cmd_read c) (
        p.reads c (lba / 2 ^ 24 % 16) (lba / 2 ^ 16 % 2 ^ 8) (lba / 2 ^ 8 % 2 ^ 8) (lba % 2 ^ 8)
          (omega arith) (omega arith) (omega arith) (omega arith)) in
      let moved = transferred_in-words sector same _ (p.full (p.disk c) _) waited.0 waited.1 in
      (
        moved.0
            ∙ ap (λ o. some (bytes_of (p.words (p.disk c) o))) (joined_bytes lba h)
            ∙ sym (p.read (p.disk c) lba),
        moved.1,
      )

  ata_write_sector_lem :
      (lba : ℕ) (bytes : List ℕ) (c : C)
      → lba < 2 ^ 28
      → ((ata_write_sector ctl lba bytes c).0 ≡ (device.write_one (p.disk c) lba bytes).0)
        × (p.disk (ata_write_sector ctl lba bytes c).1 ≡ (device.write_one (p.disk c) lba bytes).1)
  unfolding ata_write_sector send_command
  ata_write_sector_lem lba bytes c h =
      let stored : C → Type 0 = λ c'.
        p.disk c'
        ≡ (device.write_one (p.disk c)
            (lba % 2 ^ 8
              + lba / 2 ^ 8 % 2 ^ 8 * 2 ^ 8
              + lba / 2 ^ 16 % 2 ^ 8 * 2 ^ 16
              + lba / 2 ^ 24 % 16 * 2 ^ 24)
            bytes).1 in
      let waited =
        wait_out (Takes ctl (words_of 256 bytes) stored) (send_command ctl lba ata_cmd_write c) (
          p.writes c (lba / 2 ^ 24 % 16) (lba / 2 ^ 16 % 2 ^ 8) (lba / 2 ^ 8 % 2 ^ 8) (lba % 2 ^ 8)
            bytes (omega arith) (omega arith) (omega arith) (omega arith)) in
      let moved = transferred_out-words bytes stored _ waited.0 waited.1 in
      (
        moved.0 ∙ sym (p.written (p.disk c) lba bytes),
        moved.1 ∙ ap (λ o. (device.write_one (p.disk c) o bytes).1) (joined_bytes lba h),
      )

  joined_read :
      (r : Option (List ℕ) × C) (next : C → Option (List ℕ) × C) (bytes : List ℕ)
      → r.0 ≡ some bytes
      → (and_read ctl r next).0 ≡ joined (some bytes) (next r.1).0
  joined_read (none, c) next bytes e = absurd (cc e)
  joined_read (some b, c) next bytes e = ap (λ o. joined o (next c).0) e

  and_read-state :
      (r : Option (List ℕ) × C) (next : C → Option (List ℕ) × C) (bytes : List ℕ)
      → r.0 ≡ some bytes
      → (and_read ctl r next).1 ≡ (next r.1).1
  and_read-state (none, c) next bytes e = absurd (cc e)
  and_read-state (some b, c) next bytes e = refl

  ata_read_sectors_lem :
      (n lba : ℕ) (c : C)
      → 2048 + lba + n ≤ 2 ^ 28
      → ((ata_read_sectors ctl n lba c).0 ≡ read_loop device n lba (p.disk c))
        × (p.disk (ata_read_sectors ctl n lba c).1 ≡ p.disk c)
  unfolding ata_read_sectors read_loop
  ata_read_sectors_lem zero lba c h = (refl, refl)
  ata_read_sectors_lem (suc n) lba c h =
      let small : real_lba lba < 2 ^ 28 = omega (arith, h) in
      let one = ata_read_sector_lem (real_lba lba) c small in
      let bytes = bytes_of (p.words (p.disk c) (real_lba lba)) in
      let on_disk = p.read (p.disk c) (real_lba lba) in
      let c' = (ata_read_sector ctl (real_lba lba) c).1 in
      let rest = ata_read_sectors_lem n (lba + 1) c' (omega (arith, h)) in
      (
        joined_read (ata_read_sector ctl (real_lba lba) c) (λ s. ata_read_sectors ctl n (lba + 1) s)
              bytes (one.0 ∙ on_disk)
            ∙ ap (joined (some bytes)) (rest.0 ∙ ap (read_loop device n (lba + 1)) one.1)
            ∙ ap (λ o. joined o (read_loop device n (lba + 1) (p.disk c))) (sym on_disk),
        ap p.disk (
              and_read-state (ata_read_sector ctl (real_lba lba) c)
                (λ s. ata_read_sectors ctl n (lba + 1) s) bytes (one.0 ∙ on_disk))
            ∙ rest.1
            ∙ one.1,
      )

  abbrev Same : Bool × C → Bool × D → Type 0
  Same r w = (r.0 ≡ w.0) × (p.disk r.1 ≡ w.1)

  and_wait-Same :
      (r : Bool × C) (f : C → Bool × C) (w : Bool × D) (g : D → Bool × D)
      → Same r w
      → ((c : C) → Same (f c) (g (p.disk c)))
      → Same (and_wait ctl r f) (if w.0 then g w.1 else (false, w.1))
  and_wait-Same (false, c) f w g (e, k) h = rw (← e) (refl, k)
  and_wait-Same (true, c) f w g (e, k) h = rw (← e, ← k) (h c)

  ata_write_sectors_lem :
      (n lba : ℕ) (bytes : List ℕ) (c : C)
      → 2048 + lba + n ≤ 2 ^ 28
      → Same (ata_write_sectors ctl n lba bytes c) (write_loop device n lba bytes (p.disk c))
  unfolding ata_write_sectors write_loop
  ata_write_sectors_lem zero lba bytes c h = (refl, refl)
  ata_write_sectors_lem (suc n) lba bytes c h =
      let small : real_lba lba < 2 ^ 28 = omega (arith, h) in
      and_wait-Same (ata_write_sector ctl (real_lba lba) bytes c)
        (λ s. ata_write_sectors ctl n (lba + 1) (drop 512 bytes) s)
        (device.write_one (p.disk c) (real_lba lba) bytes)
        (write_loop device n (lba + 1) (drop 512 bytes))
        (ata_write_sector_lem (real_lba lba) bytes c small)
        (λ s. ata_write_sectors_lem n (lba + 1) (drop 512 bytes) s (omega (arith, h)))

-- On a controller that keeps to the protocol, `disk_read` and `disk_write` over the ports are the reads
-- and writes of a device that transfers sectors: the same bytes, the same result and the same disk behind
-- it, for sectors whose numbers have 28 bits.
pub ata-Refines :
    {C D : Type 0} (ctl : Controller C) (device : Device D) (p : Protocol ctl device) (n lba : ℕ)
    (c : C) (bytes : List ℕ)
    → 2048 + lba + n ≤ 2 ^ 28
    → ((ata_read ctl lba n c).0 ≡ disk_read device (p.disk c) lba n)
      × (p.disk (ata_read ctl lba n c).1 ≡ p.disk c)
      × ((ata_write ctl lba bytes n c).0 ≡ (disk_write device (p.disk c) lba bytes n).0)
      × (p.disk (ata_write ctl lba bytes n c).1 ≡ (disk_write device (p.disk c) lba bytes n).1)
unfolding ata_read ata_write disk_read disk_write
ata-Refines ctl device p zero lba c bytes h = (refl, refl, refl, refl)
ata-Refines ctl device p (suc n) lba c bytes h =
    let r = ata_read_sectors_lem ctl device p (suc n) lba c h in
    let w = ata_write_sectors_lem ctl device p (suc n) lba bytes c h in
    let some_sectors : (suc n == 0) ≡ false = ground arith in rw some_sectors (r.0, r.1, w.0, w.1)
