-- ===== src/Files/Access.antt =====
-- Reading and writing an open file.
use mathlib.Core.Path.{subst}
use implus_os.Base.{
  ℕ, zero, suc, ◌+◌, ◌-◌, ◌^◌, ◌≤◌, ◌<◌, ◌≡◌, refl, sym, ap, ◌∙◌, ◌≢◌, ◌⊎◌, inl, inr, true, ◌&&◌,
  List, [], ◌∷◌, arith, if◌then◌else◌, ltb, leb, ◌==◌, length, get_or, set, take, drop,
  get_or-set_self, get_or-set_ne, length-take, length-drop, get_or-take, get_or-drop, Option, none,
  some, Bool-cases, if-cases, ℤ, pos, minus_one, update,
}
use implus_os.Allocator.{Allocator}
use implus_os.Files.{
  File, KernelFile, FileSystem, FileState, closed, file_at, file_max_fd, put_bytes, get_bytes,
  amount, advance, read_data, read_into, read_checked, syscall_file_read,
}
use implus_os.Files.Table.{IsTable, checked_fd-cases}

pub put_bytes_lem :
    (bs : List ℕ) (p : ℕ) (mem : ℕ → ℕ) (j : ℕ)
    → put_bytes bs p mem j
      ≡ (if leb p j && ltb j (p + length bs) then get_or bs (j - p) 0 else mem j)
unfolding put_bytes
put_bytes_lem [] p mem j = ground arith
put_bytes_lem (b ∷ bs) p mem j = elim (Bool-cases (p == j)) [
  | inl e ↦
      let z : j - p ≡ 0 = ground (arith, e) in
      rw z (ground (arith, e, put_bytes_lem bs (p + 1) (update mem p b) j))
  | inr e ↦ elim (Bool-cases (ltb p j)) [
    | inl f ↦
        let s : j - p ≡ suc (j - (p + 1)) = ground (arith, f) in
        rw s (ground (arith, e, f, put_bytes_lem bs (p + 1) (update mem p b) j))
    | inr f ↦ ground (arith, e, f, put_bytes_lem bs (p + 1) (update mem p b) j)
  ]
]

pub length-get_bytes : (n p : ℕ) (mem : ℕ → ℕ) → length (get_bytes n p mem) ≡ n
unfolding get_bytes
length-get_bytes zero p mem = refl
length-get_bytes (suc n) p mem = ap suc (length-get_bytes n (p + 1) mem)

pub get_or-get_bytes :
    (n p : ℕ) (mem : ℕ → ℕ) (i : ℕ) → i < n → get_or (get_bytes n p mem) i 0 ≡ mem (p + i)
unfolding get_bytes
get_or-get_bytes zero p mem i h = absurd (omega arith)
get_or-get_bytes (suc n) p mem zero h = ap mem (omega arith)
get_or-get_bytes (suc n) p mem (suc i) h =
    get_or-get_bytes n (p + 1) mem i (omega arith) ∙ ap mem (omega arith)

pub amount_fits :
    (f : KernelFile) (len : ℕ) → f.offset ≤ f.file.size → f.offset + amount f len ≤ f.file.size
amount_fits f len h = ground (arith, h)

pub amount_none : (f : KernelFile) (len : ℕ) → (len == 0) ≡ true → amount f len ≡ 0
amount_none f len h = ground (arith, h)

pub amount_end : (f : KernelFile) (len : ℕ) → leb f.file.size f.offset ≡ true → amount f len ≡ 0
amount_end f len h = ground (arith, h)

advance_lem :
    (f : KernelFile) (n : ℕ)
    → f.offset + n ≤ f.file.size
    → f.file.size < 2 ^ 32
    → (advance f n).offset ≡ f.offset + n
advance_lem f n le small = omega arith

-- The slice of a file that a read delivers, by index.
slice_lem :
    (bytes : List ℕ) (offset n i : ℕ)
    → i < n
    → get_or (take n (drop offset bytes)) i 0 ≡ get_or bytes (offset + i) 0
slice_lem bytes offset n i h =
    get_or-take n (drop offset bytes) i 0 h ∙ get_or-drop offset bytes i 0

-- What every access leaves alone: the other descriptors, and all of this one but its offset.
pub record IsAdvanced (files files' : List KernelFile) (k n : ℕ) : Type 0 where
  pub here : (file_at files' k).offset ≡ (file_at files k).offset + n
  pub same_file : (file_at files' k).file ≡ (file_at files k).file
  pub others : (j : ℕ) → k ≢ j → file_at files' j ≡ file_at files j

module _ {files : List KernelFile} (v : IsTable files) (k n : ℕ) (lt : k < file_max_fd)
    (fits : (file_at files k).offset + n ≤ (file_at files k).file.size) where
  read_back : file_at (set files k (advance (file_at files k) n)) k ≡ advance (file_at files k) n
  read_back = get_or-set_self files k _ closed (omega (arith, v.size, lt))

  pub advanced : IsAdvanced files (set files k (advance (file_at files k) n)) k n
  advanced = record {
    here =
        ap (λ (f : KernelFile). f.offset) read_back
        ∙ advance_lem (file_at files k) n fits (v.small k);
    same_file = ap (λ (f : KernelFile). f.file) read_back;
    others = λ j ne. get_or-set_ne files k j _ closed ne;
  }

module _ {S H : Type 0} (system : FileSystem S) (alloc : Allocator H) where
  -- The file system delivers as many bytes as the file has.
  abbrev pub ReadsWhole : S → Type 0
  ReadsWhole fs =
      (file : File) (bytes : List ℕ)
      → system.read_file fs file ≡ some bytes
      → length bytes ≡ file.size

  -- The outcome of a read: it fails with -1 and changes neither table nor memory; or it returns the
  -- number `n` of bytes, which are those of the file from the offset on, moves the offset by `n`, and
  -- leaves the rest of the memory alone.
  abbrev pub ReadOut : FileState S H → ℤ → ℕ → ℕ → ℤ × FileState S H → Type 0
  ReadOut st fd buffer len (r, st') =
      (st'.fs ≡ st.fs)
      × (((r ≡ minus_one) × (st'.files ≡ st.files) × (st'.mem ≡ st.mem))
          ⊎ ((k : ℕ) × (n : ℕ) × (fd ≡ pos k)
              × (r ≡ pos n)
              × (n ≡ amount (file_at st.files k) len)
              × IsAdvanced st.files st'.files k n
              × ((n ≡ 0)
                  ⊎ ((bytes : List ℕ) × (system.read_file st.fs (file_at st.files k).file
                        ≡ some bytes)
                      × ((i : ℕ)
                          → i < n
                          → st'.mem (buffer + i)
                            ≡ get_or bytes ((file_at st.files k).offset + i) 0)))
              × ((j : ℕ) → (j < buffer) ⊎ (buffer + n ≤ j) → st'.mem j ≡ st.mem j)))

  module _ (st : FileState S H) (buffer len k : ℕ) (v : IsTable st.files) (whole : ReadsWhole st.fs)
      (lt : k < file_max_fd) where
    nothing_read : amount (file_at st.files k) len ≡ 0 → ReadOut st (pos k) buffer len (pos 0, st)
    nothing_read z = (
      refl,
      inr (
        k,
        0,
        refl,
        refl,
        sym z,
        record { here = omega arith; same_file = refl; others = λ j ne. refl },
        inl refl,
        λ j h. refl,
      ),
    )

    some_read :
        (h : H) (p : ℕ) (o : Option (List ℕ))
        → system.read_file st.fs (file_at st.files k).file ≡ o
        → ReadOut st (pos k) buffer len (
            read_data system alloc
              (record st { heap = h })
              k
              buffer
              (amount (file_at st.files k) len)
              p
              o)
    some_read h p none e = (refl, inl (refl, refl, refl))
    some_read h p (some bytes) e = (
      refl,
      inr (
        k,
        n,
        refl,
        refl,
        refl,
        advanced v k n lt fits,
        inr (
          bytes,
          e,
          λ i small. ground (
            arith,
            small,
            put_bytes_lem slice buffer st.mem (buffer + i),
            full,
            slice_lem bytes (file_at st.files k).offset n i small,
            ap (λ d. get_or slice d 0) (at i),
          ),
        ),
        λ j out. ground (arith, put_bytes_lem slice buffer st.mem j, full, out),
      ),
    )
      where
        n : ℕ
        n = amount (file_at st.files k) len

        slice : List ℕ
        slice = take n (drop (file_at st.files k).offset bytes)

        fits : (file_at st.files k).offset + n ≤ (file_at st.files k).file.size
        fits = amount_fits (file_at st.files k) len (v.inside k)

        full : length slice ≡ n
        full =
            length-take n (drop (file_at st.files k).offset bytes)
              (omega (arith, length-drop (file_at st.files k).offset bytes, whole _ bytes e, fits))

        at : (i : ℕ) → buffer + i - buffer ≡ i
        at i = omega arith

    read_into-ReadOut :
        (got : ℕ × H)
        → ReadOut st
            (pos k)
            buffer
            len
            (read_into system alloc st k buffer (amount (file_at st.files k) len) got)
    read_into-ReadOut (p, h) = elim (Bool-cases (p == 0)) [
      | inl e ↦ rw e ((refl, inl (refl, refl, refl)))
      | inr e ↦ rw e (some_read h p (system.read_file st.fs (file_at st.files k).file) refl)
    ]

    read_open-ReadOut :
        ReadOut st (pos k) buffer len (read_checked system alloc st buffer len (some k))
    read_open-ReadOut =
        if-cases (ReadOut st (pos k) buffer len) (buffer == 0) _ _
          (λ e. (refl, inl (refl, refl, refl)))
          (λ e.
            if-cases (ReadOut st (pos k) buffer len) (len == 0) _ _
              (λ z. nothing_read (amount_none (file_at st.files k) len z))
              (λ z.
                if-cases (ReadOut st (pos k) buffer len)
                  (leb (file_at st.files k).file.size (file_at st.files k).offset) _ _
                  (λ q. nothing_read (amount_end (file_at st.files k) len q))
                  (λ q. read_into-ReadOut (alloc.kmalloc st.heap (file_at st.files k).file.size))))

-- On a table that satisfies the invariant, and over a file system that delivers whole files,
-- `syscall_file_read` either fails with -1 and changes neither table nor memory; or it returns the
-- smaller of the length asked for and the bytes left, puts that many bytes of the file, from its
-- offset on, into the buffer, moves the offset by as many, and changes no other descriptor and no
-- other memory.
pub syscall_file_read-ReadOut :
    {S H : Type 0} (system : FileSystem S) (alloc : Allocator H) (st : FileState S H) (fd : ℤ)
    (buffer len : ℕ)
    → IsTable st.files
    → ReadsWhole system alloc st.fs
    → ReadOut system alloc st fd buffer len (syscall_file_read system alloc st fd buffer len)
unfolding syscall_file_read
syscall_file_read-ReadOut system alloc st fd buffer len v whole =
    elim (checked_fd-cases st.files fd) [
      | inl e ↦
          subst
            (λ o. ReadOut system alloc st fd buffer len (read_checked system alloc st buffer len o))
            (sym e) (refl, inl (refl, refl, refl))
      | inr (k, e, at, lt, used) ↦
          subst
            (λ o. ReadOut system alloc st fd buffer len (read_checked system alloc st buffer len o))
            (sym e)
            (subst
              (λ d.
                ReadOut system alloc st d buffer len
                  (read_checked system alloc st buffer len (some k)))
              (sym at) (read_open-ReadOut system alloc st buffer len k v whole lt))
    ]
