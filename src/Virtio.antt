-- ===== src/Virtio.antt =====
-- Kernel/Drivers/Display/VirtIO/VirtIO.c: the registers of the device in the configuration space, its
-- base addresses, and the search for it on the buses. Bits that an expression joins by `|` do not
-- overlap, so they are added.
pub mod Bus
pub mod Caps
pub mod Commands
pub mod Init
pub mod Queue
mod Tests
use implus_os.Base.{
  ℕ, zero, suc, ◌+◌, ◌-◌, ◌*◌, ◌/◌, ◌%◌, ◌^◌, Bool, true, false, ◌&&◌, ◌||◌, if◌then◌else◌, ltb,
  ◌==◌, List, [], ◌∷◌, set, replicate, Option, none, some,
}
use implus_os.Pci.{Ports, pci_read_config, pci_write_config}

-- `offset & 0xFC` of an offset of 8 bits, and the shifts for a byte and for half a word.
abbrev pub aligned : ℕ → ℕ
aligned offset = offset / 4 * 4

abbrev pub byte_shift : ℕ → ℕ
byte_shift offset = offset % 4 * 8

abbrev pub half_shift : ℕ → ℕ
half_shift offset = offset / 2 % 2 * 2 * 8

-- `(old & ~mask) | (value << shift)` for the mask of half a word.
abbrev pub merged : (old value shift : ℕ) → ℕ
merged old value shift = old - old / 2 ^ shift % 2 ^ 16 * 2 ^ shift + value * 2 ^ shift

-- `out_bar` and `out_is_mem`.
pub record Bars : Type 0 where
  pub addr : List ℕ
  pub is_mem : List ℕ

-- `virtio_gpu_pci_t`.
pub record GpuPci : Type 0 where
  pub bus : ℕ
  pub device : ℕ
  pub func : ℕ
  pub bars : Bars
  pub irq : ℕ

abbrev pub virtio_vendor_id : ℕ
virtio_vendor_id = 0x1af4

abbrev pub virtio_gpu_device_id : ℕ
virtio_gpu_device_id = 0x1050

module _ {D : Type 0} (ports : Ports D) where
  module _ (bus device func : ℕ) where
    unfoldable pub pci_cfg_read8 : ℕ → D → ℕ × D
    pci_cfg_read8 offset d =
        let (v, d') = pci_read_config ports bus device func (aligned offset) d in
        (v / 2 ^ byte_shift offset % 2 ^ 8, d')

    unfoldable pub pci_cfg_read16 : ℕ → D → ℕ × D
    pci_cfg_read16 offset d =
        let (v, d') = pci_read_config ports bus device func (aligned offset) d in
        (v / 2 ^ half_shift offset % 2 ^ 16, d')

    unfoldable pub pci_cfg_read32 : ℕ → D → ℕ × D
    pci_cfg_read32 offset d = pci_read_config ports bus device func (aligned offset) d

    unfoldable pub pci_cfg_write16 : (offset value : ℕ) → D → D
    pci_cfg_write16 offset value d =
        let (old, d') = pci_read_config ports bus device func (aligned offset) d in
        pci_write_config ports bus device func (aligned offset)
          (merged old value (half_shift offset)) d'

    -- The loop over the base addresses from number `i` on. A 64-bit address takes two numbers, of which
    -- the second one keeps what the arrays held.
    pub read_bar_addrs : ℕ → ℕ → Bars → D → Bars × D
    read_bar_addrs zero i b d = (b, d)
    read_bar_addrs (suc n) i b d =
        let (bar, d') = pci_cfg_read32 (0x10 + i * 4) d in
        let none_here : Bars = record { addr = set b.addr i 0; is_mem = set b.is_mem i 0 } in
        let low = bar / 16 * 16 in
        let (bar_hi, d'') = pci_cfg_read32 (0x10 + (i + 1) * 4) d' in
        let wide : Bars = record {
          addr = set b.addr i (bar_hi * 2 ^ 32 + low);
          is_mem = set b.is_mem i 1;
        } in
        let narrow : Bars = record { addr = set b.addr i low; is_mem = set b.is_mem i 1 } in
        let skipped = read_bar_addrs n (i + 1) none_here d' in
        let behind_wide = read_bar_addrs n (i + 2) wide d'' in
        let behind_narrow = read_bar_addrs n (i + 1) narrow d' in
        if ltb 5 i
        then (b, d)
        else if (bar == 0 || bar == 0xffffffff) || bar % 2 == 1
        then skipped
        else if bar / 2 % 4 == 2 && ltb i 5
        then behind_wide
        else behind_narrow

    unfoldable pub pci_read_bar_addrs : Bars → D → Bars × D
    pci_read_bar_addrs b d = read_bar_addrs 6 0 b d

  -- The device that was found, with what `virtio_gpu_pci_t` held `before`.
  abbrev pub gpu_at : (bus device func : ℕ) → Bars → D → Option GpuPci × D
  gpu_at bus device func before d =
      let (irq, d') = pci_cfg_read8 bus device func 0x3c d in
      let (bars, d'') = pci_read_bar_addrs bus device func before d' in
      (some (record { bus = bus; device = device; func = func; bars = bars; irq = irq }), d'')

  abbrev pub is_gpu : ℕ → Bool
  is_gpu vd = vd % 2 ^ 16 == virtio_vendor_id && vd / 2 ^ 16 % 2 ^ 16 == virtio_gpu_device_id

  -- The functions of a device, the devices of a bus, and the buses, up to the first that is the device.
  pub find_in_functions : ℕ → (func bus device : ℕ) → Bars → D → Option GpuPci × D
  find_in_functions zero func bus device before d = (none, d)
  find_in_functions (suc n) func bus device before d =
      let (vd, d') = pci_read_config ports bus device func 0x00 d in
      let rest = find_in_functions n (func + 1) bus device before d' in
      let (header_type, d'') = pci_read_config ports bus device func 0x0c d' in
      let behind_first = find_in_functions n (func + 1) bus device before d'' in
      if vd % 2 ^ 16 == 0xffff
      then (if func == 0 then (none, d') else rest)
      else if is_gpu vd
      then gpu_at bus device func before d'
      else if func == 0
      then (if header_type / 2 ^ 16 / 2 ^ 7 % 2 == 0 then (none, d'') else behind_first)
      else rest

  abbrev pub or_found : Option GpuPci × D → (D → Option GpuPci × D) → Option GpuPci × D
  or_found (some gpu, d) next = (some gpu, d)
  or_found (none, d) next = next d

  pub find_in_devices : ℕ → (device bus : ℕ) → Bars → D → Option GpuPci × D
  find_in_devices zero device bus before d = (none, d)
  find_in_devices (suc n) device bus before d =
      or_found (find_in_functions 8 0 bus device before d)
        (λ d'. find_in_devices n (device + 1) bus before d')

  pub find_in_buses : ℕ → (bus : ℕ) → Bars → D → Option GpuPci × D
  find_in_buses zero bus before d = (none, d)
  find_in_buses (suc n) bus before d =
      or_found (find_in_devices 32 0 bus before d) (λ d'. find_in_buses n (bus + 1) before d')

  unfoldable pub find_virtio_gpu : Bars → D → Option GpuPci × D
  find_virtio_gpu before d = find_in_buses 256 0 before d
