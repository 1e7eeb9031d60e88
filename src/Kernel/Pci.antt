-- ===== src/Kernel/Pci.antt =====
-- kernel/pci.cpp: the enumeration of the PCI bus through its memory-mapped configuration space. The
-- registers that are read, of identification and class, are read-only, so the memory that has them and
-- the firmware's table is a function of the address. The page tables and the driver's constructor
-- are the parameter `system`.
pub mod Found
pub mod Nested
pub mod Attached
pub mod Enumerate
pub mod Names
mod Tests
use ryanos.Prelude.{
  ℕ, zero, suc, ◌+◌, ◌-◌, ◌*◌, ◌/◌, ◌%◌, ◌^◌, Bool, true, false, ltb, leb, ◌==◌, ◌&&◌, ◌||◌,
  if◌then◌else◌, u32, u64, sub64, ◌<<<◌, update, read16, read32, read64, int_rounds,
}

-- What `map_memory` of a page to itself and `new AHCIDriver` do to the rest of the system.
pub record System (S D : Type 0) : Type 0 where
  pub map_memory : ℕ → S → S
  pub new_ahci_driver : ℕ → S → S × D

-- `ahci_driver_count` and `ahci_drivers`, an array of 16 slots; `overrun` says that a driver was written
-- behind them, where other data stands.
pub record Drivers (S D : Type 0) : Type 0 where
  pub system : S
  pub ahci_driver_count : ℕ
  pub ahci_drivers : ℕ → D
  pub overrun : Bool

-- The loop over `count` numbers from `from` on.
unfoldable pub for_range : {P : Type 0} → (ℕ → P → P) → ℕ → ℕ → P → P
for_range body from zero p = p
for_range body from (suc count) p = for_range body (from + 1) count (body from p)

module _ (memory : ℕ → ℕ) where
  unfoldable pub device_id : ℕ → ℕ
  device_id header = read16 memory (header + 2)

  unfoldable pub program_interface : ℕ → ℕ
  program_interface header = memory (header + 9)

  unfoldable pub subclass_id : ℕ → ℕ
  subclass_id header = memory (header + 10)

  unfoldable pub class_id : ℕ → ℕ
  class_id header = memory (header + 11)

  -- The two early returns.
  unfoldable pub is_absent : ℕ → Bool
  unfolding device_id
  is_absent header = (device_id header == 0) || (device_id header == 0xffff)

  -- The three nested switches.
  unfoldable pub is_ahci : ℕ → Bool
  unfolding program_interface subclass_id class_id
  is_ahci header =
      if class_id header == 0x01
      then (if subclass_id header == 0x06 then program_interface header == 0x01 else false)
      else false

  module _ {S D : Type 0} (system : System S D) where
    unfoldable pub map_page : ℕ → Drivers S D → Drivers S D
    map_page address p = record p { system = system.map_memory address p.system }

    unfoldable pub add_driver : ℕ → Drivers S D → Drivers S D
    add_driver address p =
        let (s, driver) = system.new_ahci_driver address p.system in
        record {
          system = s;
          ahci_driver_count = u64 (p.ahci_driver_count + 1);
          ahci_drivers = update p.ahci_drivers p.ahci_driver_count driver;
          overrun = p.overrun || leb 16 p.ahci_driver_count;
        }

    unfoldable pub enumerate_function : ℕ → ℕ → Drivers S D → Drivers S D
    unfolding map_page add_driver
    enumerate_function device_address function p =
        let function_address = u64 (device_address + u64 (function <<< 12)) in
        let p₁ = map_page function_address p in
        if is_absent function_address
        then p₁
        else if is_ahci function_address
        then add_driver function_address p₁
        else p₁

    unfoldable pub enumerate_device : ℕ → ℕ → Drivers S D → Drivers S D
    unfolding map_page
    enumerate_device bus_address device p =
        let device_address = u64 (bus_address + u64 (device <<< 15)) in
        let p₁ = map_page device_address p in
        if is_absent device_address
        then p₁
        else for_range (enumerate_function device_address) 0 8 p₁

    unfoldable pub enumerate_bus : ℕ → ℕ → Drivers S D → Drivers S D
    unfolding map_page
    enumerate_bus base_address bus p =
        let bus_address = u64 (base_address + u64 (bus <<< 20)) in
        let p₁ = map_page bus_address p in
        if is_absent bus_address then p₁ else for_range (enumerate_device bus_address) 0 32 p₁

    -- One DeviceConfig: its buses, without the one at `end_bus`.
    unfoldable pub enumerate_config : ℕ → Drivers S D → Drivers S D
    enumerate_config config p =
        let start_bus = memory (config + 10) in
        let end_bus = memory (config + 11) in
        for_range (enumerate_bus (read64 memory config)) start_bus (end_bus - start_bus) p

    unfoldable pub enumerate_pci : ℕ → Drivers S D → Drivers S D
    unfolding enumerate_config
    enumerate_pci mcfg p =
        let entries = int_rounds (u32 (sub64 (read32 memory (mcfg + 4)) 44 / 16)) in
        for_range (λ t. enumerate_config (u64 (mcfg + 44 + 16 * t))) 0 entries p
