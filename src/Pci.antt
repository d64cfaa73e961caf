-- ===== src/Pci.antt =====
-- Kernel/Drivers/PCI/PCI_Main.c: the configuration space behind two ports, and the scan of the buses.
-- The scan prints the devices; here it gives them as a list, in the order in which it prints them.
-- Device numbers are below 32 and function numbers below 8, so the parts of an address do not overlap
-- and are added.
pub mod Scan
mod Tests
use implus_os.Base.{
  ℕ, zero, suc, ◌+◌, ◌*◌, ◌/◌, ◌%◌, ◌^◌, Bool, true, false, if◌then◌else◌, ◌==◌, List, [], ◌∷◌,
  ◌++◌,
}

-- `outl` and `inl` of Kernel/IO/IO_Main.c, which are single instructions.
pub record Ports (D : Type 0) : Type 0 where
  pub outl : D → ℕ → ℕ → D
  pub inl : D → ℕ → ℕ × D

abbrev pub pci_config_address : ℕ
pci_config_address = 0xcf8

abbrev pub pci_config_data : ℕ
pci_config_data = 0xcfc

abbrev pub config_address : (bus device func offset : ℕ) → ℕ
config_address bus device func offset =
    2 ^ 31 + bus * 2 ^ 16 + device * 2 ^ 11 + func * 2 ^ 8 + offset / 4 * 4

-- `pci_device_t`.
pub record PciDevice : Type 0 where
  pub bus : ℕ
  pub device : ℕ
  pub func : ℕ
  pub vendor_id : ℕ
  pub device_id : ℕ
  pub class_code : ℕ
  pub subclass : ℕ
  pub prog_if : ℕ
  pub bar : List ℕ

module _ {D : Type 0} (ports : Ports D) where
  unfoldable pub pci_read_config : (bus device func offset : ℕ) → D → ℕ × D
  pci_read_config bus device func offset d =
      ports.inl (ports.outl d pci_config_address (config_address bus device func offset))
        pci_config_data

  unfoldable pub pci_write_config : (bus device func offset value : ℕ) → D → D
  pci_write_config bus device func offset value d =
      ports.outl (ports.outl d pci_config_address (config_address bus device func offset))
        pci_config_data value

  -- The base addresses from number `i` on.
  pub read_bars : ℕ → (i bus device func : ℕ) → D → List ℕ × D
  read_bars zero i bus device func d = ([], d)
  read_bars (suc n) i bus device func d =
      let (value, d') = pci_read_config bus device func (0x10 + i * 4) d in
      let (rest, d'') = read_bars n (i + 1) bus device func d' in (value ∷ rest, d'')

  abbrev pub pci_read_bars : (bus device func : ℕ) → D → List ℕ × D
  pci_read_bars bus device func d = read_bars 6 0 bus device func d

  -- A function that is there, with the word of its identification.
  abbrev pub device_at : (bus device func vendor_device : ℕ) → D → PciDevice × D
  device_at bus device func vendor_device d =
      let (class_reg, d') = pci_read_config bus device func 0x08 d in
      let (bars, d'') = pci_read_bars bus device func d' in
      (
        record {
          bus = bus;
          device = device;
          func = func;
          vendor_id = vendor_device % 2 ^ 16;
          device_id = vendor_device / 2 ^ 16 % 2 ^ 16;
          class_code = class_reg / 2 ^ 24 % 2 ^ 8;
          subclass = class_reg / 2 ^ 16 % 2 ^ 8;
          prog_if = class_reg / 2 ^ 8 % 2 ^ 8;
          bar = bars;
        },
        d'',
      )

  -- Whether the header type, asked for function 0 alone, says that there is one function only.
  abbrev pub is_single : (bus device func : ℕ) → D → Bool × D
  is_single bus device func d =
      let (header_type, d') = pci_read_config bus device func 0x0c d in
      if func == 0 then (header_type / 2 ^ 16 / 2 ^ 7 % 2 == 0, d') else (false, d)

  abbrev pub prepend : PciDevice → List PciDevice × D → List PciDevice × D
  prepend x o = (x ∷ o.0, o.1)

  abbrev pub append : List PciDevice → List PciDevice × D → List PciDevice × D
  append xs o = (xs ++ o.0, o.1)

  -- The functions of a device from number `func` on.
  pub scan_functions : ℕ → (func bus device : ℕ) → D → List PciDevice × D
  scan_functions zero func bus device d = ([], d)
  scan_functions (suc n) func bus device d =
      let (vendor_device, d') = pci_read_config bus device func 0x00 d in
      let skipped = scan_functions n (func + 1) bus device d' in
      let (dev, d'') = device_at bus device func vendor_device d' in
      let (single, d''') = is_single bus device func d'' in
      let rest = scan_functions n (func + 1) bus device d''' in
      if vendor_device % 2 ^ 16 == 0xffff
      then (if func == 0 then ([], d') else skipped)
      else prepend dev (if single then ([], d''') else rest)

  pub scan_devices : ℕ → (device bus : ℕ) → D → List PciDevice × D
  scan_devices zero device bus d = ([], d)
  scan_devices (suc n) device bus d =
      let (found, d') = scan_functions 8 0 bus device d in
      append found (scan_devices n (device + 1) bus d')

  pub scan_buses : ℕ → (bus : ℕ) → D → List PciDevice × D
  scan_buses zero bus d = ([], d)
  scan_buses (suc n) bus d =
      let (found, d') = scan_devices 32 0 bus d in append found (scan_buses n (bus + 1) d')

  unfoldable pub pci_scan_bus_serial : D → List PciDevice × D
  pci_scan_bus_serial d = scan_buses 256 0 d
