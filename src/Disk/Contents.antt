-- ===== src/Disk/Contents.antt =====
-- What reads and writes of sectors do on a device without errors.
use implus_os.Base.{
  ℕ, zero, suc, ◌+◌, ◌*◌, ◌^◌, ◌≤◌, ◌<◌, ◌≡◌, refl, sym, ap, ◌∙◌, ◌≢◌, Bool, true, false,
  if◌then◌else◌, ◌==◌, List, [], ◌++◌, length, length-append, Option, none, some, arith, if-cases,
}
use implus_os.Disk.{
  Device, Delivers, Reliable, real_lba, joined, read_loop, disk_read, disk_write, write_loop,
}

module _ {D : Type 0} (device : Device D) {size : ℕ} (r : Reliable device size) where
  -- The bytes of `n` sectors of the disk from `o` on.
  unfoldable pub contents : ℕ → ℕ → D → List ℕ
  contents zero o d = []
  contents (suc n) o d = r.sector d o ++ contents n (o + 1) d

  pub contents-same :
      (n o : ℕ) (d d' : D)
      → ((p : ℕ) → o ≤ p → p < o + n → r.sector d' p ≡ r.sector d p)
      → contents n o d' ≡ contents n o d
  unfolding contents
  contents-same zero o d d' h = refl
  contents-same (suc n) o d d' h = cc (
    h o (omega arith) (omega arith),
    contents-same n (o + 1) d d' (λ p lo hi. h p (omega arith) (omega arith)),
  )

  pub length-contents : (n o : ℕ) (d : D) → length (contents n o d) ≡ n * size
  unfolding contents
  length-contents zero o d = omega arith
  length-contents (suc n) o d =
      let e : suc n * size ≡ size + n * size = grind arith in
      omega (
        arith,
        length-append (r.sector d o) (contents n (o + 1) d),
        r.full d o,
        e,
        length-contents n (o + 1) d,
      )

  read_loop_lem :
      (n lba : ℕ) (d : D)
      → 2048 + lba + n < 2 ^ 32
      → read_loop device n lba d ≡ some (contents n (2048 + lba) d)
  unfolding contents read_loop
  read_loop_lem zero lba d h = refl
  read_loop_lem (suc n) lba d h =
      let at : real_lba lba ≡ 2048 + lba = omega arith in
      let on : 2048 + (lba + 1) ≡ 2048 + lba + 1 = omega arith in
      rw (read_loop_lem n (lba + 1) d (omega arith), at, on, r.reads d (2048 + lba)) refl

  -- A read of sectors gives their contents.
  pub disk_read_lem :
      (n lba : ℕ) (d : D)
      → 0 < n
      → 2048 + lba + n < 2 ^ 32
      → disk_read device d lba n ≡ some (contents n (2048 + lba) d)
  unfolding disk_read
  disk_read_lem n lba d pos h =
      let some_sectors : (n == 0) ≡ false = ground (arith, pos) in
      rw some_sectors (read_loop_lem n lba d h)

  rebuilt : (r : Bool × D) → (if r.0 then (true, r.1) else (false, r.1)) ≡ r
  rebuilt (true, d) = refl
  rebuilt (false, d) = refl

  write_one_lem :
      (lba : ℕ) (b : List ℕ) (d : D)
      → 2048 + lba < 2 ^ 32
      → disk_write device d lba b 1 ≡ device.write_one d (2048 + lba) b
  unfolding disk_write write_loop
  write_one_lem lba b d h =
      let at : real_lba lba ≡ 2048 + lba = omega arith in
      rebuilt (device.write_one d (real_lba lba) b) ∙ ap (λ o. device.write_one d o b) at

  -- A write of one sector succeeds, is read back, and leaves the others alone.
  pub disk_write_lem :
      (lba : ℕ) (b : List ℕ) (d : D)
      → 2048 + lba < 2 ^ 32
      → length b ≡ size
      → ((disk_write device d lba b 1).0 ≡ true)
        × (r.sector (disk_write device d lba b 1).1 (2048 + lba) ≡ b)
        × ((p : ℕ) → 2048 + lba ≢ p → r.sector (disk_write device d lba b 1).1 p ≡ r.sector d p)
  disk_write_lem lba b d h e = rw (write_one_lem lba b d h) (
    r.writes d (2048 + lba) b e,
    r.written d (2048 + lba) b e,
    λ p ne. r.others d (2048 + lba) b p ne,
  )

joined_lem :
    (x y : Option (List ℕ)) (n k : ℕ)
    → ((b : List ℕ) → x ≡ some b → length b ≡ n)
    → ((b : List ℕ) → y ≡ some b → length b ≡ k)
    → (b : List ℕ) → joined x y ≡ some b
    → length b ≡ n + k
joined_lem none y n k hx hy b e = absurd (cc e)
joined_lem (some p) none n k hx hy b e = absurd (cc e)
joined_lem (some p) (some q) n k hx hy b e =
    let eq : p ++ q ≡ b = cc e in
    sym (ap length eq)
    ∙ length-append p q
    ∙ ap (λ m. m + length q) (hx p refl)
    ∙ ap (λ m. n + m) (hy q refl)

module _ {D : Type 0} (device : Device D) {size : ℕ} (deliver : Delivers device size) where
  length-read_loop :
      (n lba : ℕ) (d : D) (b : List ℕ) → read_loop device n lba d ≡ some b → length b ≡ n * size
  unfolding read_loop
  length-read_loop zero lba d b e = let eq : [] ≡ b = cc e in sym (ap length eq) ∙ omega arith
  length-read_loop (suc n) lba d b e =
      let more : size + n * size ≡ suc n * size = grind arith in
      joined_lem (device.read_one d (real_lba lba)) (read_loop device n (lba + 1) d) size (n * size)
        (λ b e. deliver d (real_lba lba) b e) (λ b e. length-read_loop n (lba + 1) d b e) b e
      ∙ more

  -- A read of sectors gives all their bytes or fails.
  pub length-disk_read :
      (n lba : ℕ) (d : D) (b : List ℕ) → disk_read device d lba n ≡ some b → length b ≡ n * size
  unfolding disk_read
  length-disk_read n lba d b e =
      if-cases (λ o. o ≡ some b → length b ≡ n * size) (n == 0) _ _ (λ z e. absurd (cc e))
        (λ z e. length-read_loop n lba d b e) e
