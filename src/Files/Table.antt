-- ===== src/Files/Table.antt =====
-- The table of open files: opening and closing.
use mathlib.Core.Path.{subst}
use implus_os.Base.{
  ℕ, zero, suc, ◌+◌, ◌%◌, ◌^◌, ◌≤◌, ◌<◌, ◌≡◌, refl, sym, ap, ◌∙◌, ◌≢◌, ◌⊎◌, inl, inr, true, false,
  List, [], ◌∷◌, arith, if◌then◌else◌, leb, ◌==◌, length, set, get_or-set, get_or-set_self,
  get_or-set_ne, length-set, get_or-replicate, length-replicate, Option, none, some, Bool-cases, ℤ,
  pos, negsuc, minus_one,
}
use implus_os.Files.{
  File, KernelFile, FileSystem, FileState, closed, file_at, file_max_fd, first_unused, checked_fd,
  syscall_file_init, open_slot, open_file, open_named, syscall_file_open, syscall_file_close,
  close_checked, path_to_fat83,
}

-- The first entry that is not used, counted from `base`, or none.
abbrev pub IsFree : List KernelFile → ℕ → Option ℕ → Type 0
IsFree files base none = (j : ℕ) → j < length files → (file_at files j).used ≡ true
IsFree files base (some fd) =
    (i : ℕ) × (fd ≡ base + i) × (i < length files) × ((file_at files i).used ≡ false)

used_below :
    (f : KernelFile) (fs : List KernelFile)
    → f.used ≡ true
    → ((j : ℕ) → j < length fs → (file_at fs j).used ≡ true)
    → (j : ℕ) → j < length (f ∷ fs)
    → (file_at (f ∷ fs) j).used ≡ true
used_below f fs h all zero lt = h
used_below f fs h all (suc j) lt = all j (omega arith)

IsFree-step :
    (f : KernelFile) (fs : List KernelFile) (base : ℕ) (r : Option ℕ)
    → f.used ≡ true
    → IsFree fs (base + 1) r
    → IsFree (f ∷ fs) base r
IsFree-step f fs base none h all = used_below f fs h all
IsFree-step f fs base (some fd) h (i, e, lt, free) = (suc i, omega (arith, e), omega arith, free)

first_unused-IsFree :
    (files : List KernelFile) (base : ℕ) → IsFree files base (first_unused files base)
unfolding first_unused
first_unused-IsFree [] base = λ j lt. absurd (omega arith)
first_unused-IsFree (f ∷ fs) base = elim (Bool-cases f.used) [
  | inl h ↦
      subst (λ b. IsFree (f ∷ fs) base (if b then first_unused fs (base + 1) else some base))
        (sym h)
        (IsFree-step f fs base (first_unused fs (base + 1)) h (first_unused-IsFree fs (base + 1)))
  | inr h ↦
      subst (λ b. IsFree (f ∷ fs) base (if b then first_unused fs (base + 1) else some base))
        (sym h) (0, omega arith, omega arith, h)
]

-- The invariant of the table: sixteen entries, and no offset beyond the end of its file, whose size
-- has 32 bits.
pub record IsTable (files : List KernelFile) : Type 0 where
  pub size : length files ≡ file_max_fd
  pub inside : (fd : ℕ) → (file_at files fd).offset ≤ (file_at files fd).file.size
  pub small : (fd : ℕ) → (file_at files fd).file.size < 2 ^ 32

-- A write of an entry that keeps the bounds.
pub set-IsTable :
    {files : List KernelFile} (fd : ℕ) (f : KernelFile)
    → IsTable files
    → fd < file_max_fd
    → f.offset ≤ f.file.size
    → f.file.size < 2 ^ 32
    → IsTable (set files fd f)
set-IsTable {files} fd f v lt le small = record {
  size = length-set files fd f ∙ v.size;
  inside = λ j.
      rw (get_or-set files fd j f closed (omega (arith, v.size, lt)))
        (elim (Bool-cases (fd == j)) [ inl e ↦ rw e le | inr e ↦ rw e (v.inside j) ]);
  small = λ j.
      rw (get_or-set files fd j f closed (omega (arith, v.size, lt)))
        (elim (Bool-cases (fd == j)) [ inl e ↦ rw e small | inr e ↦ rw e (v.small j) ]);
}

-- The outcome of an open: a descriptor that was free now stands for the file, at its start, and no
-- other descriptor has changed; or -1, and nothing has changed.
abbrev pub Opened : {S H : Type 0} → FileState S H → ℕ → ℤ × FileState S H → Type 0
Opened st flags (r, st') =
    ((fd : ℕ) × (file : File) × (r ≡ pos fd)
      × (fd < file_max_fd)
      × ((file_at st.files fd).used ≡ false)
      × (file_at st'.files fd
          ≡ record { used = true; writable = flags % 2 == 1; file = file; offset = 0 })
      × ((j : ℕ) → fd ≢ j → file_at st'.files j ≡ file_at st.files j))
    ⊎ ((r ≡ minus_one) × (st' ≡ st))

module _ {S : Type 0} {H : Type 0} (system : FileSystem S) where
  open_slot-Opened :
      (st : FileState S H) (flags : ℕ) (file : File) (o : Option ℕ)
      → length st.files ≡ file_max_fd
      → IsFree st.files 0 o
      → Opened st flags (open_slot system st flags file o)
  open_slot-Opened st flags file none n all = inr (refl, refl)
  open_slot-Opened st flags file (some fd) n (i, e, lt, free) =
      let same : fd ≡ i = omega (arith, e) in
      inl (
        fd,
        file,
        refl,
        omega (arith, n, lt, same),
        rw same free,
        get_or-set_self st.files fd _ closed (omega (arith, lt, same)),
        λ j ne. get_or-set_ne st.files fd j _ closed ne,
      )

  open_file-Opened :
      (st : FileState S H) (flags : ℕ) (o : Option File)
      → length st.files ≡ file_max_fd
      → Opened st flags (open_file system st flags o)
  open_file-Opened st flags none n = inr (refl, refl)
  open_file-Opened st flags (some file) n =
      open_slot-Opened st flags file (first_unused st.files 0) n (first_unused-IsFree st.files 0)

  open_named-Opened :
      (st : FileState S H) (flags : ℕ) (o : Option (List ℕ))
      → length st.files ≡ file_max_fd
      → Opened st flags (open_named system st flags o)
  open_named-Opened st flags none n = inr (refl, refl)
  open_named-Opened st flags (some name) n =
      open_file-Opened st flags (system.find_file st.fs name) n

  -- `syscall_file_open` on a table of sixteen entries either returns a descriptor that was free,
  -- which now stands for a file at offset 0, writable if the lowest bit of the flags is set, and
  -- changes no other descriptor; or it returns -1 and changes nothing.
  pub syscall_file_open-Opened :
      (st : FileState S H) (path : List ℕ) (flags : ℕ)
      → length st.files ≡ file_max_fd
      → Opened st flags (syscall_file_open system st path flags)
  unfolding syscall_file_open
  syscall_file_open-Opened st path flags n = open_named-Opened st flags (path_to_fat83 path) n

-- A descriptor fails the checks, or it is one of the table and used.
pub checked_fd-cases :
    (files : List KernelFile) (fd : ℤ)
    → (checked_fd files fd ≡ none)
      ⊎ ((k : ℕ) × (checked_fd files fd ≡ some k)
          × (fd ≡ pos k)
          × (k < file_max_fd)
          × ((file_at files k).used ≡ true))
checked_fd-cases files (negsuc n) = inl refl
checked_fd-cases files (pos fd) = elim (Bool-cases (leb file_max_fd fd)) [
  | inl e ↦ inl (rw e refl)
  | inr e ↦ elim (Bool-cases (file_at files fd).used) [
    | inl u ↦ inr (fd, rw (e, u) refl, refl, ground (arith, e), u)
    | inr u ↦ inl (rw (e, u) refl)
  ]
]

-- The outcome of a close.
abbrev pub Closed : {S H : Type 0} → FileState S H → ℤ → ℤ × FileState S H → Type 0
Closed st fd (r, st') =
    ((k : ℕ) × (fd ≡ pos k)
      × ((file_at st.files k).used ≡ true)
      × (r ≡ pos 0)
      × ((file_at st'.files k).used ≡ false)
      × ((j : ℕ) → k ≢ j → file_at st'.files j ≡ file_at st.files j))
    ⊎ ((checked_fd st.files fd ≡ none) × (r ≡ minus_one) × (st' ≡ st))

-- `syscall_file_close` of an open descriptor makes exactly that descriptor unused and returns 0; it
-- returns -1 for any other number and changes nothing.
pub syscall_file_close-Closed :
    {S H : Type 0} (st : FileState S H) (fd : ℤ)
    → length st.files ≡ file_max_fd
    → Closed st fd (syscall_file_close st fd)
unfolding syscall_file_close
syscall_file_close-Closed st fd n = elim (checked_fd-cases st.files fd) [
  | inl e ↦ subst (λ o. Closed st fd (close_checked st o)) (sym e) (inr (e, refl, refl))
  | inr (k, e, at, lt, used) ↦
      subst (λ o. Closed st fd (close_checked st o)) (sym e)
        (inl (
          k,
          at,
          used,
          refl,
          ap (λ (f : KernelFile). f.used)
              (get_or-set_self st.files k closed closed (omega (arith, n, lt))),
          λ j ne. get_or-set_ne st.files k j closed closed ne,
        ))
]

pub syscall_file_init-IsTable :
    {S H : Type 0} (st : FileState S H) → IsTable (syscall_file_init st).files
unfolding syscall_file_init
syscall_file_init-IsTable st = record {
  size = length-replicate file_max_fd closed;
  inside = λ fd. rw (get_or-replicate file_max_fd fd closed) (omega arith);
  small = λ fd. rw (get_or-replicate file_max_fd fd closed) (omega arith);
}

module _ {S H : Type 0} (system : FileSystem S) (st : FileState S H) (flags : ℕ)
    (v : IsTable st.files)
    (bounded : (name : List ℕ) (file : File)
      → system.find_file st.fs name ≡ some file
      → file.size < 2 ^ 32) where
  open_slot-IsTable :
      (file : File) (o : Option ℕ)
      → file.size < 2 ^ 32
      → IsFree st.files 0 o
      → IsTable (open_slot system st flags file o).1.files
  open_slot-IsTable file none small all = v
  open_slot-IsTable file (some fd) small (i, e, lt, free) =
      set-IsTable fd _ v (omega (arith, e, lt, v.size)) (omega arith) small

  open_file-IsTable :
      (o : Option File)
      → ((file : File) → o ≡ some file → file.size < 2 ^ 32)
      → IsTable (open_file system st flags o).1.files
  open_file-IsTable none small = v
  open_file-IsTable (some file) small =
      open_slot-IsTable file (first_unused st.files 0) (small file refl)
        (first_unused-IsFree st.files 0)

  open_named-IsTable : (o : Option (List ℕ)) → IsTable (open_named system st flags o).1.files
  open_named-IsTable none = v
  open_named-IsTable (some name) =
      open_file-IsTable (system.find_file st.fs name) (λ file e. bounded name file e)

  -- `syscall_file_open` keeps the invariant of the table, over a file system whose sizes have 32 bits.
  pub syscall_file_open-IsTable :
      (path : List ℕ) → IsTable (syscall_file_open system st path flags).1.files
  unfolding syscall_file_open
  syscall_file_open-IsTable path = open_named-IsTable (path_to_fat83 path)

-- The other calls keep the invariant: a close, and an offset that moves inside the file.
pub syscall_file_close-IsTable :
    {S H : Type 0} (st : FileState S H) (fd : ℤ)
    → IsTable st.files
    → IsTable (syscall_file_close st fd).1.files
unfolding syscall_file_close
syscall_file_close-IsTable st fd v = elim (checked_fd-cases st.files fd) [
  | inl e ↦ subst (λ o. IsTable (close_checked st o).1.files) (sym e) v
  | inr (k, e, at, lt, used) ↦
      subst (λ o. IsTable (close_checked st o).1.files) (sym e)
        (set-IsTable k closed v lt (omega arith) (omega arith))
]
