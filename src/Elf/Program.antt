-- ===== src/Elf/Program.antt =====
-- `load_userland_elf` as a whole: what it returns and leaves for a program that can be loaded, and what
-- it leaves alone whatever the file holds.
use implus_os.Base.{ℕ, ◌+◌, ◌*◌, ◌≤◌, ◌<◌, ◌≡◌, ◌⊎◌, Option, some}
use implus_os.Allocator.{Allocator}
use implus_os.Elf.{Machine, e_entry, e_phoff, e_phnum, pt_load}
use implus_os.Elf.Segments.{Beyond, header, Holds}

-- The user program stands in the memory when the buffer is given back: the call returns its entry
-- point, every segment to be loaded holds its bytes of the file and zeros behind them, and no other byte
-- changes. The call ends with giving back the buffer.
pub record IsLoaded {H : Type 0} (alloc : Allocator (Machine H)) (start : Machine H) (buffer : ℕ)
    (r : Option ℕ × Machine H) : Type 0 where
  pub loaded : Machine H
  pub entry : r.0 ≡ some (e_entry start.mem buffer)
  pub freed : r.1 ≡ alloc.kfree loaded buffer
  pub heap : loaded.heap ≡ start.heap
  pub holds :
      (k : ℕ)
      → k < e_phnum start.mem buffer
      → (header start.mem (buffer + e_phoff start.mem buffer) k).p_type ≡ pt_load
      → Holds start.mem buffer (header start.mem (buffer + e_phoff start.mem buffer) k) loaded.mem
  pub outside :
      (p : ℕ)
      → ((k : ℕ)
          → k < e_phnum start.mem buffer
          → (header start.mem (buffer + e_phoff start.mem buffer) k).p_type ≡ pt_load
          → Beyond (header start.mem (buffer + e_phoff start.mem buffer) k) p)
      → loaded.mem p ≡ start.mem p

-- What `kmalloc` gives for a file is no buffer, or one that does not hold the byte, and it writes
-- elsewhere itself.
pub record Spares {H : Type 0} (alloc : Allocator (Machine H)) (st : Machine H) (p : ℕ)
    : Type 0 where
  pub buffer :
      (size : ℕ)
      → size ≤ 1024 * 1024
      → ((alloc.kmalloc st size).0 ≡ 0)
        ⊎ (p < (alloc.kmalloc st size).0)
        ⊎ ((alloc.kmalloc st size).0 + size ≤ p)
  pub keeps : (size : ℕ) → size ≤ 1024 * 1024 → (alloc.kmalloc st size).1.mem p ≡ st.mem p

-- The byte is unchanged at the end of the loading, behind which only the buffer is given back.
pub record Untouched {H : Type 0} (alloc : Allocator (Machine H)) (st : Machine H) (p : ℕ)
    (r : Option ℕ × Machine H) : Type 0 where
  pub loaded : Machine H
  pub same : loaded.mem p ≡ st.mem p
  pub end : (r.1 ≡ loaded) ⊎ ((buffer : ℕ) × (r.1 ≡ alloc.kfree loaded buffer))
