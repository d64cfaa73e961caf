-- ===== src/Virtio/Caps.antt =====
-- Kernel/Drivers/Display/VirtIO/VirtIO.c: `virtio_pci_find_caps`, the walk over the capabilities of the
-- device, which leads to its registers, and `virtio_pci_device_init`, the negotiation with it.
pub mod Mapped
use implus_os.Base.{
  ℕ, zero, suc, ◌+◌, ◌-◌, ◌*◌, ◌/◌, ◌%◌, ◌^◌, Bool, true, false, not, ◌&&◌, ◌||◌, if◌then◌else◌,
  ltb, ◌==◌, List, [], ◌∷◌, get_or, Option, none, some,
}
use implus_os.Virtio.{GpuPci, Bars, pci_cfg_read8, pci_cfg_read16, pci_cfg_read32, pci_cfg_write16}
use implus_os.Virtio.Bus.{
  Platform, Transport, common_read8, common_read32, common_write8, common_write32,
}

abbrev pub pci_cap_id_vendor : ℕ
pci_cap_id_vendor = 0x09

-- VIRTIO_PCI_CAP_COMMON_CFG, VIRTIO_PCI_CAP_NOTIFY_CFG, VIRTIO_PCI_CAP_DEVICE_CFG.
abbrev pub cap_common_cfg : ℕ
cap_common_cfg = 1

abbrev pub cap_notify_cfg : ℕ
cap_notify_cfg = 2

abbrev pub cap_device_cfg : ℕ
cap_device_cfg = 4

abbrev pub status_acknowledge : ℕ
status_acknowledge = 0x01

abbrev pub status_driver : ℕ
status_driver = 0x02

abbrev pub status_driver_ok : ℕ
status_driver_ok = 0x04

abbrev pub status_features_ok : ℕ
status_features_ok = 0x08

abbrev pub status_failed : ℕ
status_failed = 0x80

abbrev pub version_1 : ℕ
version_1 = 1

-- The fields of `virtio_pci_cap_t` that the walk looks at.
pub record Cap : Type 0 where
  pub cfg_type : ℕ
  pub bar : ℕ
  pub offset : ℕ

abbrev pub no_transport : Transport
no_transport = record { common_cfg = 0; notify_base = 0; device_cfg = 0; notify_off_multiplier = 0 }

-- `vcap.bar < 6 && gpu->bar_is_mem[vcap.bar] && gpu->bar_addr[vcap.bar] != 0`.
abbrev pub is_mapped_bar : Bars → ℕ → Bool
is_mapped_bar b bar =
    ltb bar 6 && (not (get_or b.is_mem bar 0 == 0) && not (get_or b.addr bar 0 == 0))

-- A number with the bits of a mask of one bit, 2 ^ k, set.
abbrev pub with_bit : (k v : ℕ) → ℕ
with_bit k v = if v / 2 ^ k % 2 == 0 then v + 2 ^ k else v

module _ {D : Type 0} (platform : Platform D) (gpu : GpuPci) where
  abbrev pub cfg8 : ℕ → D → ℕ × D
  cfg8 offset d = pci_cfg_read8 platform.ports gpu.bus gpu.device gpu.func (offset % 2 ^ 8) d

  abbrev pub cfg32 : ℕ → D → ℕ × D
  cfg32 offset d = pci_cfg_read32 platform.ports gpu.bus gpu.device gpu.func (offset % 2 ^ 8) d

  -- The capability at `cap`, from its third byte on.
  unfoldable pub read_cap : (cap : ℕ) → D → Cap × D
  read_cap cap d =
      let (cap_len, d1) = cfg8 (cap + 2) d in
      let (cfg_type, d2) = cfg8 (cap + 3) d1 in
      let (bar, d3) = cfg8 (cap + 4) d2 in
      let (id, d4) = cfg8 (cap + 5) d3 in
      let (offset, d5) = cfg32 (cap + 8) d4 in
      let (length, d6) = cfg32 (cap + 12) d5 in
      (record { cfg_type = cfg_type; bar = bar; offset = offset }, d6)

  -- The pointer that the type of the capability names.
  unfoldable pub record_base : (cap cfg_type base : ℕ) → Transport → D → Transport × D
  record_base cap cfg_type base t d =
      let (multiplier, d') = cfg32 (cap + 16) d in
      if cfg_type == cap_common_cfg
      then (record t { common_cfg = base }, d)
      else if cfg_type == cap_notify_cfg
      then (record t { notify_base = base; notify_off_multiplier = multiplier }, d')
      else if cfg_type == cap_device_cfg
      then (record t { device_cfg = base }, d)
      else (t, d)

  -- A capability of the vendor: `none` stands for the return of 0 where its registers are not mapped.
  unfoldable pub visit_cap : (cap : ℕ) → Transport → D → Option Transport × D
  visit_cap cap t d =
      let (vcap, d1) = read_cap cap d in
      let phys = (get_or gpu.bars.addr vcap.bar 0 + vcap.offset) % 2 ^ 64 in
      let (base, d2) = platform.map_mmio_virt d1 phys in
      let (t', d3) = record_base cap vcap.cfg_type base t d2 in
      if not (is_mapped_bar gpu.bars vcap.bar)
      then (some t, d1)
      else if base == 0
      then (none, d2)
      else (some t', d3)

  abbrev pub and_then :
      Option Transport × D → (Transport → D → Option Transport × D) → Option Transport × D
  and_then (none, d) next = (none, d)
  and_then (some t, d) next = next t d

  -- The loop, with the rounds that `guard` leaves.
  unfoldable pub walk_caps : (rounds cap : ℕ) → Transport → D → Option Transport × D
  walk_caps zero cap t d = (some t, d)
  walk_caps (suc rounds) cap t d =
      let (cap_id, d1) = cfg8 cap d in
      let (cap_next, d2) = cfg8 (cap + 1) d1 in
      let visited = and_then (visit_cap cap t d2) (λ t' d'. walk_caps rounds cap_next t' d') in
      let passed = walk_caps rounds cap_next t d2 in
      if cap == 0 || ltb cap 0x40
      then (some t, d)
      else if cap_id == pci_cap_id_vendor
      then visited
      else passed

  -- Whether the two pointers that the driver needs are there.
  abbrev pub checked : Option Transport × D → Option Transport × D
  checked (none, d) = (none, d)
  checked (some t, d) =
      if not (t.common_cfg == 0) && not (t.notify_base == 0) then (some t, d) else (none, d)

  unfoldable pub virtio_pci_find_caps : D → Option Transport × D
  virtio_pci_find_caps d =
      let (status, d1) = pci_cfg_read16 platform.ports gpu.bus gpu.device gpu.func 0x06 d in
      let (cap, d2) = cfg8 0x34 d1 in
      if status / 2 ^ 4 % 2 == 0 then (none, d1) else checked (walk_caps 64 cap no_transport d2)

  -- The steps up to the selection of the features.
  unfoldable pub start_device : Transport → D → D
  start_device t d =
      let (cmd, d1) = pci_cfg_read16 platform.ports gpu.bus gpu.device gpu.func 0x04 d in
      let enabled = with_bit 2 (with_bit 1 cmd) in
      let d2 = pci_cfg_write16 platform.ports gpu.bus gpu.device gpu.func 0x04 enabled d1 in
      let d3 = common_write8 platform t.common_cfg 20 0 d2 in
      let d4 = common_write8 platform t.common_cfg 20 status_acknowledge d3 in
      common_write8 platform t.common_cfg 20 (status_acknowledge + status_driver) d4

  unfoldable pub select_features : Transport → D → D
  select_features t d =
      let d1 = common_write32 platform t.common_cfg 0 0 d in
      let (low, d2) = common_read32 platform t.common_cfg 4 d1 in
      let d3 = common_write32 platform t.common_cfg 0 1 d2 in
      let (high, d4) = common_read32 platform t.common_cfg 4 d3 in
      let d5 = common_write32 platform t.common_cfg 8 0 d4 in
      let d6 = common_write32 platform t.common_cfg 12 0 d5 in
      let d7 = common_write32 platform t.common_cfg 8 1 d6 in
      common_write32 platform t.common_cfg 12 version_1 d7

  unfoldable pub virtio_pci_device_init : Transport → D → Bool × D
  virtio_pci_device_init t d =
      let offered = status_acknowledge + status_driver + status_features_ok in
      let d1 =
        common_write8 platform t.common_cfg 20 offered (select_features t (start_device t d)) in
      let (status, d2) = common_read8 platform t.common_cfg 20 d1 in
      if status / 2 ^ 3 % 2 == 0
      then (false, common_write8 platform t.common_cfg 20 (with_bit 7 status) d2)
      else (true, d2)
