-- ===== src/Fat32/Calls.antt =====
-- The file calls of Kernel/Syscall/Syscall_File.c over the FAT32 driver.
use mathlib.Core.Path.{subst}
use implus_os.Base.{
  ℕ, suc, ◌+◌, ◌-◌, ◌*◌, ◌≤◌, ◌<◌, ◌≡◌, sym, ap, ◌∙◌, ◌⊎◌, inl, inr, true, ◌&&◌, if◌then◌else◌, ltb,
  leb, List, ◌∷◌, length, get_or, some, ℤ, pos, minus_one,
}
use implus_os.Allocator.{Allocator}
use implus_os.Disk.{Device, Delivers, Reliable}
use implus_os.Files.{File, FileState, file_at, syscall_file_write}
use implus_os.Files.Access.{ReadsWhole}
use implus_os.Files.Table.{IsTable}
use implus_os.Files.Write.{syscall_file_write-WriteOut}
use implus_os.Fat32.{Bpb, cluster_size, max_clusters, fat32_read_file, fat32_write_file}
use implus_os.Fat32.Layout.{Distinct}
use implus_os.Fat32.RoundTrip.{Chain, fat32_read_file-write_file}
use implus_os.Fat32.Find.{fat_system, fat_system-ReadsWhole}

pos_injective : (a b : ℕ) → pos a ≡ pos b → a ≡ b
pos_injective a b e = cc e

Reliable-Delivers :
    {D : Type 0} (device : Device D) (size : ℕ) → Reliable device size → Delivers device size
Reliable-Delivers device size r d o b e =
    let eq : r.sector d o ≡ b = cc (e, r.reads d o) in sym (ap length eq) ∙ r.full d o

module _ {D H : Type 0} (device : Device D) (v : Bpb) (alloc : Allocator H) where
  -- After a write through descriptor `k` the disk holds the file with the new bytes in place: the call
  -- fails, or returns the number `n` of bytes, and, unless that is 0, a file that could be read before
  -- reads, from the offset on, as the buffer, and as before everywhere else.
  abbrev pub OnDisk : FileState D H → ℕ → ℕ → ℤ × FileState D H → Type 0
  OnDisk st k buffer (r, st') =
      let f = file_at st.files k in
      (r ≡ minus_one)
      ⊎ ((n : ℕ) × (r ≡ pos n)
          × ((n ≡ 0)
              ⊎ ((bytes : List ℕ) × (new : List ℕ) × (fat32_read_file device v st.fs f.file
                    ≡ some bytes)
                  × (fat32_read_file device v st'.fs f.file ≡ some new)
                  × (length new ≡ length bytes)
                  × ((j : ℕ)
                      → get_or new j 0 ≡ (
                          if leb f.offset j && ltb j (f.offset + n)
                          then st.mem (buffer + (j - f.offset))
                          else get_or bytes j 0)))))

  -- A write call through the driver reaches the disk: on a device without errors, for a table that
  -- satisfies the invariant, and a file whose chain of distinct clusters in range is long enough for it
  -- and no longer than the bound on the rounds. The call fails, or the bytes that it reports are on the
  -- disk, read back by the driver at their place in the file, with all other bytes of it as before.
  pub syscall_file_write-OnDisk :
      (r : Reliable device v.bytes_per_sector) (st : FileState D H) (k buffer len : ℕ) (cs : List ℕ)
      → 0 < v.sectors_per_cluster
      → 0 < v.bytes_per_sector
      → IsTable st.files
      → Chain device v r st.fs (file_at st.files k).file.first_cluster cs
      → Distinct ((file_at st.files k).file.first_cluster ∷ cs)
      → (file_at st.files k).file.size ≤ suc (length cs) * cluster_size v
      → length cs < max_clusters v
      → OnDisk st k buffer (syscall_file_write (fat_system device v) alloc st (pos k) buffer len)
  unfolding fat_system
  syscall_file_write-OnDisk r st k buffer len cs some_sectors some_bytes table chain apart fits lt =
      elim (syscall_file_write-WriteOut (fat_system device v) alloc st (pos k) buffer len table
        whole).1 [
          | inl (failed, _) ↦ inl failed
          | inr (k', n, at, r', am, adv, inl (z, _)) ↦ inr (n, r', inl z)
          | inr (k', n, at, r', am, adv, inr (wr, bytes, new, before, stored, same, holds)) ↦
              let facts =
                subst (λ m. Facts m n bytes new) (sym (pos_injective k k' at))
                  (before, stored, holds) in
              inr (
                n,
                r',
                inr (bytes, new, facts.0, read_new bytes new facts.0 facts.1 same, same, facts.2),
              )
        ]
    where
      out : FileState D H
      out = (syscall_file_write (fat_system device v) alloc st (pos k) buffer len).1

      file : File
      file = (file_at st.files k).file

      whole : ReadsWhole (fat_system device v) alloc st.fs
      whole =
          fat_system-ReadsWhole device v (Reliable-Delivers device v.bytes_per_sector r) alloc st.fs

      Facts : ℕ → ℕ → List ℕ → List ℕ → Type 0
      Facts m n bytes new =
          (fat32_read_file device v st.fs (file_at st.files m).file ≡ some bytes)
          × (fat32_write_file device v st.fs (file_at st.files m).file new ≡ (true, out.fs))
          × ((j : ℕ)
              → get_or new j 0 ≡ (
                  if leb (file_at st.files m).offset j && ltb j ((file_at st.files m).offset + n)
                  then st.mem (buffer + (j - (file_at st.files m).offset))
                  else get_or bytes j 0))

      read_new :
          (bytes new : List ℕ)
          → fat32_read_file device v st.fs file ≡ some bytes
          → fat32_write_file device v st.fs file new ≡ (true, out.fs)
          → length new ≡ length bytes
          → fat32_read_file device v out.fs file ≡ some new
      read_new bytes new before stored same =
          let size : length new ≡ file.size = same ∙ whole file bytes before in
          subst (λ d. fat32_read_file device v d file ≡ some new) (ap (λ w. w.1) stored)
            (fat32_read_file-write_file device v r st.fs file cs new some_sectors some_bytes chain
              apart size fits lt).1
