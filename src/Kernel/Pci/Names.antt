-- ===== src/Kernel/Pci/Names.antt =====
-- kernel/pci_descriptors.cpp: the names of PCI classes, devices and interfaces. A `case` without a
-- `break` falls into the next one. What `to_hstring` spells of a number is the name `hex`.
use Prim.Native.String.{String}
use ryanos.Prelude.{ℕ, ◌≡◌, ◌≢◌, refl, List, [], ◌∷◌, ◌==◌, if◌then◌else◌, ==_ne}

-- A text of the source, or the digits that `to_hstring` makes of a number of this many bits.
pub data Name : Type 0 where
  text : String → Name
  hex : ℕ → ℕ → Name

abbrev pub device_classes : List String
device_classes =
    "Unclassified" ∷ "Mass Storage Controller" ∷ "Network Controller" ∷ "Display Controller"
    ∷ "Multimedia Controller" ∷ "Memory Controller" ∷ "Bridge Device"
    ∷ "Simple Communication Controller" ∷ "Base System Peripheral" ∷ "Input Device Controller"
    ∷ "Docking Station" ∷ "Processor" ∷ "Serial Bus Controller" ∷ "Wireless Controller"
    ∷ "Intelligent Controller" ∷ "Satellite Communication Controller" ∷ "Encryption Controller"
    ∷ "Signal Processing Controller" ∷ "Processing Accelerator" ∷ "Non Essential Instrumentation"
    ∷ []

unfoldable pub get_vendor_name : ℕ → Name
get_vendor_name vendor_id =
    if vendor_id == 0x8086
    then text "Intel Corp"
    else if vendor_id == 0x1022
    then text "AMD"
    else if vendor_id == 0x10de
    then text "NVIDIA Corporation"
    else hex 16 vendor_id

unfoldable pub get_device_name : ℕ → ℕ → Name
get_device_name vendor_id device_id =
    if vendor_id == 0x8086
    then (if device_id == 0x29c0
        then text "Express DRAM Controller"
        else if device_id == 0x2918
        then text "LPC Interface Controller"
        else if device_id == 0x2922
        then text "6 port SATA Controller [AHCI mode]"
        else if device_id == 0x2930
        then text "SMBus Controller"
        else hex 16 device_id)
    else hex 16 device_id

unfoldable pub mass_storage_controller_subclass_name : ℕ → Name
mass_storage_controller_subclass_name subclass_code =
    if subclass_code == 0x00
    then text "SCSI Bus Controller"
    else if subclass_code == 0x01
    then text "IDE Controller"
    else if subclass_code == 0x02
    then text "Floppy Disk Controller"
    else if subclass_code == 0x03
    then text "IPI Bus Controller"
    else if subclass_code == 0x04
    then text "RAID Controller"
    else if subclass_code == 0x05
    then text "ATA Controller"
    else if subclass_code == 0x06
    then text "Serial ATA"
    else if subclass_code == 0x07
    then text "Serial Attached SCSI"
    else if subclass_code == 0x08
    then text "Non-Volatile Memory Controller"
    else if subclass_code == 0x80
    then text "Other"
    else hex 8 subclass_code

unfoldable pub serial_bus_controller_subclass_name : ℕ → Name
serial_bus_controller_subclass_name subclass_code =
    if subclass_code == 0x00
    then text "FireWire (IEEE 1394) Controller"
    else if subclass_code == 0x01
    then text "ACCESS Bus"
    else if subclass_code == 0x02
    then text "SSA"
    else if subclass_code == 0x03
    then text "USB Controller"
    else if subclass_code == 0x04
    then text "Fibre Channel"
    else if subclass_code == 0x05
    then text "SMBus"
    else if subclass_code == 0x06
    then text "Infiniband"
    else if subclass_code == 0x07
    then text "IPMI Interface"
    else if subclass_code == 0x08
    then text "SERCOS Interface (IEC 61491)"
    else if subclass_code == 0x09
    then text "CANbus"
    else if subclass_code == 0x80
    then text "SerialBusController - Other"
    else hex 8 subclass_code

unfoldable pub bridge_device_subclass_name : ℕ → Name
bridge_device_subclass_name subclass_code =
    if subclass_code == 0x00
    then text "Host Bridge"
    else if subclass_code == 0x01
    then text "ISA Bridge"
    else if subclass_code == 0x02
    then text "EISA Bridge"
    else if subclass_code == 0x03
    then text "MCA Bridge"
    else if subclass_code == 0x04
    then text "PCI-to-PCI Bridge"
    else if subclass_code == 0x05
    then text "PCMCIA Bridge"
    else if subclass_code == 0x06
    then text "NuBus Bridge"
    else if subclass_code == 0x07
    then text "CardBus Bridge"
    else if subclass_code == 0x08
    then text "RACEway Bridge"
    else if subclass_code == 0x09
    then text "PCI-to-PCI Bridge"
    else if subclass_code == 0x0a
    then text "InfiniBand-to-PCI Host Bridge"
    else if subclass_code == 0x80
    then text "Other"
    else hex 8 subclass_code

unfoldable pub get_subclass_name : ℕ → ℕ → Name
unfolding mass_storage_controller_subclass_name serial_bus_controller_subclass_name
    bridge_device_subclass_name
get_subclass_name class_code subclass_code =
    if class_code == 0x01
    then mass_storage_controller_subclass_name subclass_code
    else if class_code == 0x03
    then (if subclass_code == 0x00
        then text "VGA Compatible Controller"
        else bridge_device_subclass_name subclass_code)
    else if class_code == 0x06
    then bridge_device_subclass_name subclass_code
    else if class_code == 0x0c
    then serial_bus_controller_subclass_name subclass_code
    else hex 8 subclass_code

-- The cases 0x0C, 0x03 and 0x01 of `get_program_interface_name`, each with those behind it.
unfoldable pub serial_bus_interface : ℕ → ℕ → Name
serial_bus_interface subclass_code prog_interface =
    if subclass_code == 0x03
    then (if prog_interface == 0x00
        then text "UHCI Controller"
        else if prog_interface == 0x10
        then text "OHCI Controller"
        else if prog_interface == 0x20
        then text "EHCI (USB2) Controller"
        else if prog_interface == 0x30
        then text "XHCI (USB3) Controller"
        else if prog_interface == 0x80
        then text "Unspecified"
        else if prog_interface == 0xfe
        then text "USB Device (Not a Host Controller)"
        else hex 8 prog_interface)
    else hex 8 prog_interface

unfoldable pub display_interface : ℕ → ℕ → Name
display_interface subclass_code prog_interface =
    if subclass_code == 0x00
    then (if prog_interface == 0x00
        then text "VGA Controller"
        else if prog_interface == 0x01
        then text "8514-Compatible Controller"
        else serial_bus_interface subclass_code prog_interface)
    else serial_bus_interface subclass_code prog_interface

unfoldable pub mass_storage_interface : ℕ → ℕ → Name
mass_storage_interface subclass_code prog_interface =
    if subclass_code == 0x06
    then (if prog_interface == 0x00
        then text "Vendor Specific Interface"
        else if prog_interface == 0x01
        then text "AHCI 1.0"
        else if prog_interface == 0x02
        then text "Serial Storage Bus"
        else display_interface subclass_code prog_interface)
    else display_interface subclass_code prog_interface

unfoldable pub get_program_interface_name : ℕ → ℕ → ℕ → Name
unfolding serial_bus_interface display_interface mass_storage_interface
get_program_interface_name class_code subclass_code prog_interface =
    if class_code == 0x01
    then mass_storage_interface subclass_code prog_interface
    else if class_code == 0x03
    then display_interface subclass_code prog_interface
    else if class_code == 0x0c
    then serial_bus_interface subclass_code prog_interface
    else hex 8 prog_interface

-- For a subclass other than 0 and 6: a display controller is named like a bridge, and the interface of
-- a mass storage controller and of a display controller like that of a serial bus controller.
pub names_fall_through :
    (subclass prog : ℕ)
    → subclass ≢ 0
    → subclass ≢ 6
    → (get_subclass_name 0x03 subclass ≡ get_subclass_name 0x06 subclass)
      × (get_program_interface_name 0x01 subclass prog
          ≡ get_program_interface_name 0x0c subclass prog)
      × (get_program_interface_name 0x03 subclass prog
          ≡ get_program_interface_name 0x0c subclass prog)
unfolding get_subclass_name get_program_interface_name
names_fall_through subclass prog ne₀ ne₆ =
    let e₀ = ==_ne subclass 0 ne₀ in
    let e₆ = ==_ne subclass 6 ne₆ in (rw e₀ refl, rw (e₆, e₀) refl, rw e₀ refl)
