-- ===== src/Virtio/Bus.antt =====
-- Kernel/Drivers/Display/VirtIO/VirtIO.c: what the driver uses of the rest of the machine, its accesses
-- to the registers of the device, and the record of where these stand. The state `D` is the machine's:
-- an access through a volatile pointer is a load or a store of some bytes, and the device may act at
-- each of them.
use implus_os.Base.{ℕ, zero, suc, ◌+◌, ◌%◌, ◌^◌, List, [], ◌∷◌}
use implus_os.Allocator.{Allocator}
use implus_os.Pci.{Ports}

-- The ports, the accesses to the memory and to mapped registers, by width in bytes and address, the heap
-- and `map_mmio_virt`.
pub record Platform (D : Type 0) : Type 0 where
  pub ports : Ports D
  pub load : D → (bytes addr : ℕ) → ℕ × D
  pub store : D → (bytes addr value : ℕ) → D
  pub heap : Allocator D
  pub map_mmio_virt : D → ℕ → ℕ × D

-- `virtio_pci_transport_t`. A pointer is its address, and 0 is NULL.
pub record Transport : Type 0 where
  pub common_cfg : ℕ
  pub notify_base : ℕ
  pub device_cfg : ℕ
  pub notify_off_multiplier : ℕ

-- An assignment to a field of a structure.
pub record Field : Type 0 where
  pub bytes : ℕ
  pub addr : ℕ
  pub value : ℕ

abbrev pub field : (bytes addr value : ℕ) → Field
field bytes addr value = record { bytes = bytes; addr = addr; value = value }

module _ {D : Type 0} (platform : Platform D) where
  unfoldable pub common_read8 : (common off : ℕ) → D → ℕ × D
  common_read8 common off d = let (v, d') = platform.load d 1 (common + off) in (v % 2 ^ 8, d')

  unfoldable pub common_read16 : (common off : ℕ) → D → ℕ × D
  common_read16 common off d = let (v, d') = platform.load d 2 (common + off) in (v % 2 ^ 16, d')

  unfoldable pub common_read32 : (common off : ℕ) → D → ℕ × D
  common_read32 common off d = let (v, d') = platform.load d 4 (common + off) in (v % 2 ^ 32, d')

  abbrev pub common_write8 : (common off v : ℕ) → D → D
  common_write8 common off v d = platform.store d 1 (common + off) v

  abbrev pub common_write16 : (common off v : ℕ) → D → D
  common_write16 common off v d = platform.store d 2 (common + off) v

  abbrev pub common_write32 : (common off v : ℕ) → D → D
  common_write32 common off v d = platform.store d 4 (common + off) v

  abbrev pub common_write64 : (common off v : ℕ) → D → D
  common_write64 common off v d = platform.store d 8 (common + off) v

  -- Assignments, one after the other.
  unfoldable pub assign : List Field → D → D
  assign [] d = d
  assign (f ∷ fs) d = assign fs (platform.store d f.bytes f.addr f.value)

  -- `memset(ptr, 0, n)` on the machine's memory.
  unfoldable pub clear : (n ptr : ℕ) → D → D
  clear zero ptr d = d
  clear (suc n) ptr d = clear n (ptr + 1) (platform.store d 1 ptr 0)
