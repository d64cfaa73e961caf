-- ===== src/Files/Write.antt =====
-- Writing an open file.
use mathlib.Core.Path.{subst}
use implus_os.Base.{
  ℕ, ◌+◌, ◌-◌, ◌≤◌, ◌<◌, ◌≡◌, refl, sym, ap, ◌⊎◌, inl, inr, Bool, true, false, not, ◌&&◌, ◌||◌,
  List, ◌++◌, arith, if◌then◌else◌, ltb, leb, ◌==◌, length, get_or, take, drop, length-take,
  length-drop, length-append, get_or-take, get_or-drop, get_or-append, Option, none, some,
  Bool-cases, if-cases, ℤ, pos, minus_one,
}
use implus_os.Allocator.{Allocator}
use implus_os.Files.{
  FileSystem, FileState, file_at, file_max_fd, get_bytes, amount, splice, written, write_data,
  write_from, write_checked, syscall_file_write,
}
use implus_os.Files.Table.{IsTable, checked_fd-cases}
use implus_os.Files.Access.{
  ReadsWhole, IsAdvanced, advanced, length-get_bytes, get_or-get_bytes, amount_fits, amount_none,
  amount_end,
}

module _ (bytes : List ℕ) (offset n buffer : ℕ) (mem : ℕ → ℕ)
    (fits : offset + n ≤ length bytes) where
  new_bytes : List ℕ
  new_bytes = get_bytes n buffer mem

  tail_eq : drop (offset + length (get_bytes n buffer mem)) bytes ≡ drop (offset + n) bytes
  tail_eq = ap (λ m. drop (offset + m) bytes) (length-get_bytes n buffer mem)

  -- A splice keeps the number of bytes.
  length-splice : length (splice bytes offset (get_bytes n buffer mem)) ≡ length bytes
  length-splice = omega (
    arith,
    fits,
    length-append (take offset bytes)
        (get_bytes n buffer mem ++ drop (offset + length (get_bytes n buffer mem)) bytes),
    length-append (get_bytes n buffer mem) (drop (offset + length (get_bytes n buffer mem)) bytes),
    length-get_bytes n buffer mem,
    length-take offset bytes (omega (arith, fits)),
    length-drop (offset + length (get_bytes n buffer mem)) bytes,
  )

  splice_rest :
      (i : ℕ)
      → get_or (get_bytes n buffer mem ++ drop (offset + length (get_bytes n buffer mem)) bytes) i 0
        ≡ (if ltb i n then mem (buffer + i) else get_or bytes (offset + i) 0)
  splice_rest i = rw tail_eq (elim (Bool-cases (ltb i n)) [
    | inl e ↦ rw e (
        ground (
          arith,
          e,
          get_or-append (get_bytes n buffer mem) (drop (offset + n) bytes) i 0,
          length-get_bytes n buffer mem,
          get_or-get_bytes n buffer mem i (ground (arith, e)),
        ))
    | inr e ↦ rw e (
        ground (
          arith,
          e,
          get_or-append (get_bytes n buffer mem) (drop (offset + n) bytes) i 0,
          length-get_bytes n buffer mem,
          ap (λ m. get_or (drop (offset + n) bytes) (i - m) 0) (length-get_bytes n buffer mem),
          get_or-drop (offset + n) bytes (i - n) 0,
          ap (λ m. get_or bytes m 0) (shift (ground (arith, e))),
        ))
  ])
    where
      shift : n ≤ i → offset + n + (i - n) ≡ offset + i
      shift h = omega arith

  -- A splice holds the new bytes from the offset on, and the old ones elsewhere.
  get_or-splice :
      (j : ℕ)
      → get_or (splice bytes offset (get_bytes n buffer mem)) j 0 ≡ (
          if leb offset j && ltb j (offset + n)
          then mem (buffer + (j - offset))
          else get_or bytes j 0)
  get_or-splice j = elim (Bool-cases (ltb j offset)) [
    | inl e ↦ ground (
      arith,
      e,
      get_or-append (take offset bytes)
          (get_bytes n buffer mem ++ drop (offset + length (get_bytes n buffer mem)) bytes) j 0,
      length-take offset bytes (omega (arith, fits)),
      get_or-take offset bytes j 0 (ground (arith, e)),
    )
    | inr e ↦ ground (
      arith,
      e,
      get_or-append (take offset bytes)
          (get_bytes n buffer mem ++ drop (offset + length (get_bytes n buffer mem)) bytes) j 0,
      length-take offset bytes (omega (arith, fits)),
      ap
          (λ m.
            get_or (get_bytes n buffer mem ++ drop (offset + length (get_bytes n buffer mem)) bytes)
              (j - m) 0)
          (length-take offset bytes (omega (arith, fits))),
      splice_rest (j - offset),
      ap (λ m. get_or bytes m 0) (back (ground (arith, e))),
    )
  ]
    where
      back : offset ≤ j → offset + (j - offset) ≡ j
      back h = omega arith

module _ {S H : Type 0} (system : FileSystem S) (alloc : Allocator H) where
  -- The outcome of a write: it fails with -1 and changes no descriptor; or it returns the number `n`
  -- of bytes, and the file system has stored a file of the same size, in which the `n` bytes from the
  -- offset on come from the buffer and all others are as they were. The memory never changes.
  abbrev pub WriteOut : FileState S H → ℤ → ℕ → ℕ → ℤ × FileState S H → Type 0
  WriteOut st fd buffer len (r, st') =
      (st'.mem ≡ st.mem)
      × (((r ≡ minus_one) × (st'.files ≡ st.files))
          ⊎ ((k : ℕ) × (n : ℕ) × (fd ≡ pos k)
              × (r ≡ pos n)
              × (n ≡ amount (file_at st.files k) len)
              × IsAdvanced st.files st'.files k n
              × (((n ≡ 0) × (st'.fs ≡ st.fs))
                  ⊎ (((file_at st.files k).writable ≡ true)
                      × (bytes : List ℕ) × (new : List ℕ) × (system.read_file st.fs
                            (file_at st.files k).file
                          ≡ some bytes)
                      × (system.write_file st.fs (file_at st.files k).file new ≡ (true, st'.fs))
                      × (length new ≡ length bytes)
                      × ((j : ℕ)
                          → get_or new j 0 ≡ (
                              if leb (file_at st.files k).offset j
                                && ltb j ((file_at st.files k).offset + n)
                              then st.mem (buffer + (j - (file_at st.files k).offset))
                              else get_or bytes j 0))))))

  module _ (st : FileState S H) (buffer len k : ℕ) (v : IsTable st.files)
      (whole : ReadsWhole system alloc st.fs) (lt : k < file_max_fd) where
    nothing_written :
        amount (file_at st.files k) len ≡ 0 → WriteOut st (pos k) buffer len (pos 0, st)
    nothing_written z = (
      refl,
      inr (
        k,
        0,
        refl,
        refl,
        sym z,
        record { here = omega arith; same_file = refl; others = λ j ne. refl },
        inl (refl, refl),
      ),
    )

    module _ (writable : (file_at st.files k).writable ≡ true) (h : H) (p : ℕ) where
      fits :
          (file_at st.files k).offset + amount (file_at st.files k) len
          ≤ (file_at st.files k).file.size
      fits = amount_fits (file_at st.files k) len (v.inside k)

      stored :
          (bytes : List ℕ)
          → system.read_file st.fs (file_at st.files k).file ≡ some bytes
          → (out : Bool × S)
          → system.write_file st.fs (file_at st.files k).file (
              splice bytes
                (file_at st.files k).offset
                (get_bytes (amount (file_at st.files k) len) buffer st.mem))
            ≡ out
          → WriteOut st (pos k) buffer len (
              written system alloc
                (record st { heap = h })
                k
                (amount (file_at st.files k) len)
                p
                out)
      stored bytes e (false, fs) q = (refl, inl (refl, refl))
      stored bytes e (true, fs) q = (
        refl,
        inr (
          k,
          amount (file_at st.files k) len,
          refl,
          refl,
          refl,
          advanced v k (amount (file_at st.files k) len) lt fits,
          inr (
            writable,
            bytes,
            _,
            e,
            q,
            length-splice bytes (file_at st.files k).offset (amount (file_at st.files k) len) buffer
                st.mem (rw (whole _ bytes e) fits),
            get_or-splice bytes (file_at st.files k).offset (amount (file_at st.files k) len) buffer
                st.mem (rw (whole _ bytes e) fits),
          ),
        ),
      )

      some_written :
          (o : Option (List ℕ))
          → system.read_file st.fs (file_at st.files k).file ≡ o
          → WriteOut st (pos k) buffer len (
              write_data system alloc
                (record st { heap = h })
                k
                buffer
                (amount (file_at st.files k) len)
                p
                o)
      some_written none e = (refl, inl (refl, refl))
      some_written (some bytes) e = stored bytes e _ refl

      write_from-WriteOut :
          WriteOut st
            (pos k)
            buffer
            len
            (write_from system alloc st k buffer (amount (file_at st.files k) len) (p, h))
      write_from-WriteOut =
          if-cases (WriteOut st (pos k) buffer len) (p == 0) _ _ (λ e. (refl, inl (refl, refl)))
            (λ e. some_written (system.read_file st.fs (file_at st.files k).file) refl)

    write_open-WriteOut :
        WriteOut st (pos k) buffer len (write_checked system alloc st buffer len (some k))
    write_open-WriteOut =
        if-cases (WriteOut st (pos k) buffer len)
          ((buffer == 0) || not (file_at st.files k).writable) _ _ (λ e. (refl, inl (refl, refl)))
          (λ e.
            if-cases (WriteOut st (pos k) buffer len) (len == 0) _ _
              (λ z. nothing_written (amount_none (file_at st.files k) len z))
              (λ z.
                if-cases (WriteOut st (pos k) buffer len)
                  (leb (file_at st.files k).file.size (file_at st.files k).offset) _ _
                  (λ q. nothing_written (amount_end (file_at st.files k) len q))
                  (λ q.
                    write_from-WriteOut (can_write _ _ e)
                      (alloc.kmalloc st.heap (file_at st.files k).file.size).1
                      (alloc.kmalloc st.heap (file_at st.files k).file.size).0)))
      where
        can_write : (a b : Bool) → (a || not b) ≡ false → b ≡ true
        can_write true b e = absurd (cc e)
        can_write false true e = refl
        can_write false false e = absurd (cc e)

  -- On a table that satisfies the invariant, and over a file system that delivers whole files,
  -- `syscall_file_write` either fails with -1 and changes no descriptor; or it returns the smaller of
  -- the length asked for and the bytes left, having stored, unless that is 0, a file of the same size
  -- in which that many bytes from the offset on come from the buffer and all others are as before,
  -- through a descriptor opened for writing. It moves the offset by as many and changes no other
  -- descriptor, and it never changes memory.
  pub syscall_file_write-WriteOut :
      (st : FileState S H) (fd : ℤ) (buffer len : ℕ)
      → IsTable st.files
      → ReadsWhole system alloc st.fs
      → WriteOut st fd buffer len (syscall_file_write system alloc st fd buffer len)
  unfolding syscall_file_write
  syscall_file_write-WriteOut st fd buffer len v whole = elim (checked_fd-cases st.files fd) [
    | inl e ↦
        subst (λ o. WriteOut st fd buffer len (write_checked system alloc st buffer len o)) (sym e)
          (refl, inl (refl, refl))
    | inr (k, e, at, lt, used) ↦
        subst (λ o. WriteOut st fd buffer len (write_checked system alloc st buffer len o)) (sym e)
          (subst (λ d. WriteOut st d buffer len (write_checked system alloc st buffer len (some k)))
            (sym at) (write_open-WriteOut st buffer len k v whole lt))
  ]
