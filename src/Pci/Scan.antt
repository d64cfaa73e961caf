-- ===== src/Pci/Scan.antt =====
-- The scan of the buses lists what the configuration space describes.
use implus_os.Base.{
  ℕ, zero, suc, ◌+◌, ◌*◌, ◌/◌, ◌%◌, ◌^◌, ◌<◌, ◌≡◌, refl, sym, ap, ◌∙◌, Bool, true, false,
  if◌then◌else◌, ◌==◌, List, [], ◌∷◌, ◌++◌, arith,
}
use implus_os.Pci.{
  prepend, Ports, PciDevice, pci_config_address, pci_config_data, config_address, pci_read_config,
  read_bars, device_at, is_single, scan_functions, scan_devices, scan_buses, pci_scan_bus_serial,
}

-- The ports lead to a configuration space: a word that is asked for is read.
pub record Leads {D : Type 0} (ports : Ports D) (config : ℕ → ℕ) : Type 0 where
  pub reads :
      (d : D) (address : ℕ)
      → (ports.inl (ports.outl d pci_config_address address) pci_config_data).0 ≡ config address

-- What the configuration space holds: the word of a function at an offset.
module _ (config : ℕ → ℕ) (bus device : ℕ) where
  abbrev pub word : (func offset : ℕ) → ℕ
  word func offset = config (config_address bus device func offset)

  pub bars : ℕ → (i func : ℕ) → List ℕ
  bars zero i func = []
  bars (suc n) i func = word func (0x10 + i * 4) ∷ bars n (i + 1) func

  -- The description of a function.
  abbrev pub described : ℕ → PciDevice
  described func = record {
    bus = bus;
    device = device;
    func = func;
    vendor_id = word func 0 % 2 ^ 16;
    device_id = word func 0 / 2 ^ 16 % 2 ^ 16;
    class_code = word func 8 / 2 ^ 24 % 2 ^ 8;
    subclass = word func 8 / 2 ^ 16 % 2 ^ 8;
    prog_if = word func 8 / 2 ^ 8 % 2 ^ 8;
    bar = bars 6 0 func;
  }

  -- No function answers with the vendor 0xFFFF.
  abbrev pub is_missing : ℕ → Bool
  is_missing func = word func 0 % 2 ^ 16 == 0xffff

  abbrev pub has_more : Bool
  has_more = word 0 0x0c / 2 ^ 23 % 2 == 1

  -- Those of the `n` functions from number `func` on that answer.
  pub answering : ℕ → ℕ → List PciDevice
  answering zero func = []
  answering (suc n) func =
      let rest = answering n (func + 1) in if is_missing func then rest else described func ∷ rest

  -- The functions of a device: none if function 0 does not answer; function 0 alone if the device has
  -- no more; else all of the eight that answer.
  abbrev pub functions : List PciDevice
  functions =
      if is_missing 0
      then []
      else (if has_more then described 0 ∷ answering 7 1 else described 0 ∷ [])

pub bus_devices : (ℕ → ℕ) → ℕ → (device bus : ℕ) → List PciDevice
bus_devices config zero device bus = []
bus_devices config (suc n) device bus =
    functions config bus device ++ bus_devices config n (device + 1) bus

pub all_devices : (ℕ → ℕ) → ℕ → (bus : ℕ) → List PciDevice
all_devices config zero bus = []
all_devices config (suc n) bus = bus_devices config 32 0 bus ++ all_devices config n (bus + 1)

module _ {D : Type 0} (ports : Ports D) (config : ℕ → ℕ) (leads : Leads ports config) where
  read_lem :
      (bus device func offset : ℕ) (d : D)
      → (pci_read_config ports bus device func offset d).0 ≡ word config bus device func offset
  unfolding pci_read_config
  read_lem bus device func offset d = leads.reads d (config_address bus device func offset)

  bars_lem :
      (n i bus device func : ℕ) (d : D)
      → (read_bars ports n i bus device func d).0 ≡ bars config bus device n i func
  unfolding read_bars bars
  bars_lem zero i bus device func d = refl
  bars_lem (suc n) i bus device func d = cc (
    read_lem bus device func (0x10 + i * 4) d,
    bars_lem n (i + 1) bus device func (pci_read_config ports bus device func (0x10 + i * 4) d).1,
  )

  device_lem :
      (bus device func : ℕ) (d : D)
      → (device_at ports bus device func (word config bus device func 0) d).0
        ≡ described config bus device func
  device_lem bus device func d = cc (
    read_lem bus device func 8 d,
    bars_lem 6 0 bus device func (pci_read_config ports bus device func 8 d).1,
  )

  cons_eq : {x y : PciDevice} {xs ys : List PciDevice} → x ≡ y → xs ≡ ys → x ∷ xs ≡ y ∷ ys
  cons_eq e f = cc (e, f)

  append_eq : {xs xs' ys ys' : List PciDevice} → xs ≡ xs' → ys ≡ ys' → xs ++ ys ≡ xs' ++ ys'
  append_eq e f = cc (e, f)

  -- The function that the scan describes, with the word that it has read.
  read_device :
      (bus device func : ℕ) (d d' : D)
      → (device_at ports bus device func (pci_read_config ports bus device func 0 d).0 d').0
        ≡ described config bus device func
  read_device bus device func d d' =
      ap (λ w. (device_at ports bus device func w d').0) (read_lem bus device func 0 d)
      ∙ device_lem bus device func d'

  is_later : (func : ℕ) → 0 < func → (func == 0) ≡ false
  is_later func pos = ground (arith, pos)

  missing_lem :
      (bus device func : ℕ) (d : D) (b : Bool)
      → ((pci_read_config ports bus device func 0 d).0 % 2 ^ 16 == 0xffff) ≡ b
      → b ≡ is_missing config bus device func
  missing_lem bus device func d b e =
      sym e ∙ ap (λ w. w % 2 ^ 16 == 0xffff) (read_lem bus device func 0 d)

  not_single :
      (bus device func : ℕ) (d : D) → 0 < func → (is_single ports bus device func d).0 ≡ false
  not_single bus device func d pos =
      let nz : (func == 0) ≡ false = ground (arith, pos) in rw nz refl

  single_lem :
      (bus device : ℕ) (d : D) (b : Bool)
      → (is_single ports bus device 0 d).0 ≡ b
      → has_more config bus device ≡ (if b then false else true)
  single_lem bus device d b e = ground (arith, e, read_lem bus device 0 0x0c d)

  -- What one round of the scan lists, behind function 0 and for it.
  later_round :
      (c m z single : Bool) (first skipped end rest : List PciDevice × D) (dev x : PciDevice)
      (ys : List PciDevice)
      → c ≡ m
      → z ≡ false
      → single ≡ false
      → skipped.0 ≡ ys
      → dev ≡ x
      → rest.0 ≡ ys
      → (if c
          then (if z then first else skipped)
          else prepend ports dev (if single then end else rest)).0
        ≡ (if m then ys else x ∷ ys)
  later_round true true false false first skipped end rest dev x ys cm zf sf es ed er = es
  later_round false false false false first skipped end rest dev x ys cm zf sf es ed er =
      cons_eq ed er
  later_round true false z single first skipped end rest dev x ys cm zf sf es ed er = absurd (cc cm)
  later_round false true z single first skipped end rest dev x ys cm zf sf es ed er = absurd (cc cm)
  later_round c m true single first skipped end rest dev x ys cm zf sf es ed er = absurd (cc zf)
  later_round c m z true first skipped end rest dev x ys cm zf sf es ed er = absurd (cc sf)

  first_round :
      (c m single more : Bool) (rest : List PciDevice × D) (d d' : D) (dev x : PciDevice)
      (ys : List PciDevice)
      → c ≡ m
      → more ≡ (if single then false else true)
      → dev ≡ x
      → rest.0 ≡ ys
      → (if c then ([], d) else prepend ports dev (if single then ([], d') else rest)).0
        ≡ (if m then [] else (if more then x ∷ ys else x ∷ []))
  first_round true true single more rest d d' dev x ys cm sm ed er = refl
  first_round false false true false rest d d' dev x ys cm sm ed er = cons_eq ed refl
  first_round false false false true rest d d' dev x ys cm sm ed er = cons_eq ed er
  first_round false false true true rest d d' dev x ys cm sm ed er = absurd (cc sm)
  first_round false false false false rest d d' dev x ys cm sm ed er = absurd (cc sm)
  first_round true false single more rest d d' dev x ys cm sm ed er = absurd (cc cm)
  first_round false true single more rest d d' dev x ys cm sm ed er = absurd (cc cm)

  -- Behind function 0, every function that answers is listed.
  scan_answering :
      (n func bus device : ℕ) (d : D)
      → 0 < func
      → (scan_functions ports n func bus device d).0 ≡ answering config bus device n func
  unfolding scan_functions answering
  scan_answering zero func bus device d pos = refl
  scan_answering (suc n) func bus device d pos =
      later_round _ _ _ _ _ _ _ _ _ _ _ (missing_lem bus device func d _ refl) (is_later func pos)
        (not_single bus device func _ pos) (scan_answering n (func + 1) bus device _ (omega arith))
        (read_device bus device func d _) (scan_answering n (func + 1) bus device _ (omega arith))

  scan_functions_lem :
      (bus device : ℕ) (d : D)
      → (scan_functions ports 8 0 bus device d).0 ≡ functions config bus device
  unfolding scan_functions
  scan_functions_lem bus device d =
      first_round _ _ _ _ _ _ _ _ _ _ (missing_lem bus device 0 d _ refl)
        (single_lem bus device _ _ refl) (read_device bus device 0 d _)
        (scan_answering 7 1 bus device _ (omega arith))

  scan_devices_lem :
      (n device bus : ℕ) (d : D)
      → (scan_devices ports n device bus d).0 ≡ bus_devices config n device bus
  unfolding scan_devices bus_devices
  scan_devices_lem zero device bus d = refl
  scan_devices_lem (suc n) device bus d =
      append_eq (scan_functions_lem bus device d)
        (scan_devices_lem n (device + 1) bus (scan_functions ports 8 0 bus device d).1)

  scan_buses_lem : (n bus : ℕ) (d : D) → (scan_buses ports n bus d).0 ≡ all_devices config n bus
  unfolding scan_buses all_devices
  scan_buses_lem zero bus d = refl
  scan_buses_lem (suc n) bus d =
      append_eq (scan_devices_lem 32 0 bus d)
        (scan_buses_lem n (bus + 1) (scan_devices ports 32 0 bus d).1)

-- Over ports that lead to a configuration space, the scan lists what it describes, of all 256 buses with
-- 32 devices each, in order: no function of a device whose function 0 does not answer, function 0 alone
-- of a device that has no more, and else each of the eight that answers, with its identification, class
-- and base addresses.
pub pci_scan_bus_serial_lem :
    {D : Type 0} (ports : Ports D) (config : ℕ → ℕ)
    → Leads ports config
    → (d : D) → (pci_scan_bus_serial ports d).0 ≡ all_devices config 256 0
unfolding pci_scan_bus_serial
pci_scan_bus_serial_lem ports config leads d = scan_buses_lem ports config leads 256 0 d
