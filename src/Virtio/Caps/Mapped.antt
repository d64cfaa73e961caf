-- ===== src/Virtio/Caps/Mapped.antt =====
-- Where the pointers of the transport come from.
use implus_os.Base.{ℕ, ◌+◌, ◌%◌, ◌^◌, ◌≡◌, ◌≢◌, ◌⊎◌, true, get_or, Option, some}
use implus_os.Virtio.{GpuPci}
use implus_os.Virtio.Bus.{Platform, Transport}
use implus_os.Virtio.Caps.{cap_common_cfg, cap_notify_cfg, cap_device_cfg, is_mapped_bar, read_cap}

module _ {D : Type 0} (platform : Platform D) (gpu : GpuPci) where
  -- A capability of this kind, read at `cap`, names a base address that is in memory, and the pointer is
  -- what `map_mmio_virt` gave for the sum of that address and the offset in the capability.
  pub record Named (kind p : ℕ) : Type 0 where
    pub cap : ℕ
    pub before : D
    pub has_kind : (read_cap platform gpu cap before).0.cfg_type ≡ kind
    pub is_bar : is_mapped_bar gpu.bars (read_cap platform gpu cap before).0.bar ≡ true
    pub mapped :
        let (vcap, d) = read_cap platform gpu cap before in
        (platform.map_mmio_virt d ((get_or gpu.bars.addr vcap.bar 0 + vcap.offset) % 2 ^ 64)).0 ≡ p
    pub present : p ≢ 0

  pub record Sound (t : Transport) : Type 0 where
    pub common : (t.common_cfg ≡ 0) ⊎ Named cap_common_cfg t.common_cfg
    pub notify : (t.notify_base ≡ 0) ⊎ Named cap_notify_cfg t.notify_base
    pub device : (t.device_cfg ≡ 0) ⊎ Named cap_device_cfg t.device_cfg

  pub record AllSound (r : Option Transport × D) : Type 0 where
    pub sound : (t : Transport) → r.0 ≡ some t → Sound t

  record RecordSound (r : Transport × D) : Type 0 where
    pub sound : Sound r.0
