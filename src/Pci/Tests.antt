-- ===== src/Pci/Tests.antt =====
-- A machine with one device, of one function, on bus 0.
use implus_os.Base.{ℕ, ◌≡◌, refl, if◌then◌else◌, ◌==◌}
use implus_os.Pci.{Ports, config_address, pci_scan_bus_serial}
use implus_os.Pci.Scan.{Leads, all_devices, pci_scan_bus_serial_lem}

abbrev config : ℕ → ℕ
config address =
    if address == config_address 0 2 0 0
    then 0x10501af4
    else if address == config_address 0 2 0 8
    then 0x03800001
    else if address == config_address 0 2 0 0x0c
    then 0
    else 0xffffffff

-- The state is the address that was written last.
abbrev ports : Ports ℕ
ports = record { outl = λ d port value. value; inl = λ d port. (config d, d) }

ports-Leads : Leads ports config
ports-Leads = record { reads = λ d address. refl }

pci_scan_bus_serial_lem_example : (pci_scan_bus_serial ports 0).0 ≡ all_devices config 256 0
pci_scan_bus_serial_lem_example = pci_scan_bus_serial_lem ports config ports-Leads 0
