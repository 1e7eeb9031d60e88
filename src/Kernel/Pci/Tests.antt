-- ===== src/Kernel/Pci/Tests.antt =====
-- One bus with a bridge at device 0 and an AHCI controller at device 31, function 2.
use ryanos.Prelude.{ℕ, ◌+◌, ◌≤◌, false, ◌≡◌, refl, [], ◌∷◌, length, arith, ◌==◌, if◌then◌else◌}
use ryanos.Kernel.Pci.{System, Drivers, enumerate_pci}
use ryanos.Kernel.Pci.Found.{concat_range, answers, speaks_ahci, ahci_found}
use ryanos.Kernel.Pci.Names.{get_subclass_name, get_program_interface_name, names_fall_through}
use ryanos.Kernel.Pci.Attached.{Attached}
use ryanos.Kernel.Pci.Enumerate.{enumerate_pci-Attached}

-- The table at 0x1000 has one configuration with the bus 0 at 0x10000000.
abbrev memory : ℕ → ℕ
memory a =
    if a == 0x1004
    then 60
    else if a == 0x102f
    then 0x10
    else if a == 0x1037
    then 1
    else if a == 0x10000002
    then 0xc0
    else if a == 0x100f8002
    then 0x18
    else if a == 0x100fa002
    then 0x22
    else if a == 0x100fa009
    then 0x01
    else if a == 0x100fa00a
    then 0x06
    else if a == 0x100fa00b
    then 0x01
    else 0

-- The system counts the pages that are mapped, and a driver is the address that it is made from.
abbrev counting : System ℕ ℕ
counting = record { map_memory = λ a s. s + 1; new_ahci_driver = λ a s. (s, a) }

abbrev fresh : Drivers ℕ ℕ
fresh = record { system = 0; ahci_driver_count = 0; ahci_drivers = λ i. 0; overrun = false }

one_found : ahci_found memory 0x1000 ≡ 0x100fa000 ∷ []
unfolding concat_range answers speaks_ahci
one_found = refl

room : fresh.ahci_driver_count + length (ahci_found memory 0x1000) ≤ 16
room = let e = one_found in rw e (omega arith)

enumerate_pci-Attached_example :
    Attached (λ d. d) fresh (ahci_found memory 0x1000) (enumerate_pci memory counting 0x1000 fresh)
enumerate_pci-Attached_example =
    enumerate_pci-Attached counting (λ d. d) (λ a s. refl) memory 0x1000 fresh room

display_named :
    (get_subclass_name 0x03 2 ≡ get_subclass_name 0x06 2)
    × (get_program_interface_name 0x01 2 0 ≡ get_program_interface_name 0x0c 2 0)
    × (get_program_interface_name 0x03 2 0 ≡ get_program_interface_name 0x0c 2 0)
display_named = names_fall_through 2 0 (omega arith) (omega arith)
