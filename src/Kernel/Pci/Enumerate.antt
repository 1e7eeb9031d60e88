-- ===== src/Kernel/Pci/Enumerate.antt =====
-- The enumeration makes a driver for each AHCI function that is found, in the order of the bus.
use ryanos.Prelude.{
  ℕ, ◌+◌, ◌-◌, ◌*◌, ◌/◌, ◌^◌, ◌≤◌, sym, ◌≡◌, refl, Bool, true, false, List, [], ◌∷◌, length, arith,
  ◌==◌, u32, u64, sub64, read32, read64, int_rounds, ◌&&◌, not, if◌then◌else◌,
}
use ryanos.Kernel.Pci.{
  System, Drivers, for_range, is_absent, is_ahci, map_page, add_driver, enumerate_function,
  enumerate_device, enumerate_bus, enumerate_config, enumerate_pci,
}
use ryanos.Kernel.Pci.Found.{when, ahci_found}
use ryanos.Kernel.Pci.Nested.{
  functions_found, devices_found, buses_found, nested_found, found-nested,
}
use mathlib.Core.Path.{subst}
use ryanos.Kernel.Pci.Attached.{Attached, Room, Attached-none, for_range-Attached}

module _ {S D : Type 0} (system : System S D) (base : D → ℕ)
    (constructed : (a : ℕ) (s : S) → base (system.new_ahci_driver a s).1 ≡ a) (memory : ℕ → ℕ) where
  map_page-Attached :
      (a : ℕ) (p : Drivers S D) (xs : List ℕ) (p' : Drivers S D)
      → Attached base (map_page memory system a p) xs p'
      → Attached base p xs p'
  unfolding map_page
  map_page-Attached a p xs p' h = record {
    counted = h.counted;
    held = h.held;
    others = h.others;
    within = h.within;
  }

  add_driver-Attached :
      (a : ℕ) (p : Drivers S D)
      → Room p (a ∷ [])
      → Attached base p (a ∷ []) (add_driver memory system a p)
  unfolding add_driver
  add_driver-Attached a p room = record {
    within = ground arith;
    counted = omega arith;
    held = (
      (let at : (p.ahci_driver_count == p.ahci_driver_count) ≡ true = ground arith in
          rw at (constructed a p.system)),
      tt,
    );
    others = λ j o. let ne : (p.ahci_driver_count == j) ≡ false = ground arith in rw ne refl;
  }

  map_page-none : (a : ℕ) (p : Drivers S D) → Attached base p [] (map_page memory system a p)
  unfolding map_page
  map_page-none a p = Attached-none base p (map_page memory system a p) refl refl refl

  -- An absent header ends the enumeration there, and finds nothing.
  present-Attached :
      (absent : Bool) (a : ℕ) (p : Drivers S D) (xs : List ℕ) (p' : Drivers S D)
      → (Room p xs → Attached base p xs p')
      → Room p (when (not absent) xs)
      → Attached base p (when (not absent) xs) (if absent then map_page memory system a p else p')
  present-Attached true a p xs p' h room = map_page-none a p
  present-Attached false a p xs p' h room = h room

  enumerate_function-Attached :
      (device function : ℕ) (p : Drivers S D)
      → (let address = u64 (device + u64 (function * 4096)) in
          let found =
            when (not (is_absent memory address) && is_ahci memory address) (address ∷ []) in
          Room p found → Attached base p found (enumerate_function memory system device function p))
  unfolding enumerate_function
  enumerate_function-Attached device function p =
      by_cases (is_absent memory address) (is_ahci memory address)
    where
      address : ℕ
      address = u64 (device + u64 (function * 4096))

      by_cases :
          (absent ahci : Bool)
          → Room p (when (not absent && ahci) (address ∷ []))
          → Attached base p (when (not absent && ahci) (address ∷ [])) (
              let q = map_page memory system address p in
              if absent then q else if ahci then add_driver memory system address q else q)
      by_cases true ahci room = map_page-none address p
      by_cases false false room = map_page-none address p
      by_cases false true room =
          let q = map_page memory system address p in
          map_page-Attached address p (address ∷ []) (add_driver memory system address q)
            (add_driver-Attached address q (omega (arith, (map_page-none address p).counted, room)))

  enumerate_device-Attached :
      (bus device : ℕ) (p : Drivers S D)
      → (let address = u64 (bus + u64 (device * 2 ^ 15)) in
          let found = when (not (is_absent memory address)) (functions_found memory address) in
          Room p found → Attached base p found (enumerate_device memory system bus device p))
  unfolding enumerate_device
  enumerate_device-Attached bus device p =
      let address = u64 (bus + u64 (device * 2 ^ 15)) in
      let q = map_page memory system address p in
      let found = functions_found memory address in
      let q' = for_range (enumerate_function memory system address) 0 8 q in
      present-Attached (is_absent memory address) address p found q' (λ room.
        map_page-Attached address p found q' (
          for_range-Attached base (enumerate_function memory system address)
            (λ function.
              let at = u64 (address + u64 (function * 4096)) in
              when (not (is_absent memory at) && is_ahci memory at) (at ∷ []))
            (enumerate_function-Attached address) 0 8 q
            (omega (arith, (map_page-none address p).counted, room))))

  enumerate_bus-Attached :
      (base_address bus : ℕ) (p : Drivers S D)
      → (let address = u64 (base_address + u64 (bus * 2 ^ 20)) in
          let found = when (not (is_absent memory address)) (devices_found memory address) in
          Room p found → Attached base p found (enumerate_bus memory system base_address bus p))
  unfolding enumerate_bus
  enumerate_bus-Attached base_address bus p =
      let address = u64 (base_address + u64 (bus * 2 ^ 20)) in
      let q = map_page memory system address p in
      let found = devices_found memory address in
      let q' = for_range (enumerate_device memory system address) 0 32 q in
      present-Attached (is_absent memory address) address p found q' (λ room.
        map_page-Attached address p found q' (
          for_range-Attached base (enumerate_device memory system address)
            (λ device.
              let at = u64 (address + u64 (device * 2 ^ 15)) in
              when (not (is_absent memory at)) (functions_found memory at))
            (enumerate_device-Attached address) 0 32 q
            (omega (arith, (map_page-none address p).counted, room))))

  enumerate_config-Attached :
      (config : ℕ) (p : Drivers S D)
      → Room p (buses_found memory config)
      → Attached base p (buses_found memory config) (enumerate_config memory system config p)
  unfolding enumerate_config
  enumerate_config-Attached config p =
      let base_address = read64 memory config in
      for_range-Attached base (enumerate_bus memory system base_address)
        (λ bus.
          let at = u64 (base_address + u64 (bus * 2 ^ 20)) in
          when (not (is_absent memory at)) (devices_found memory at))
        (enumerate_bus-Attached base_address) (memory (config + 10))
        (memory (config + 11) - memory (config + 10)) p

  nested-Attached :
      (mcfg : ℕ) (p : Drivers S D)
      → Room p (nested_found memory mcfg)
      → Attached base p (nested_found memory mcfg) (enumerate_pci memory system mcfg p)
  unfolding enumerate_pci
  nested-Attached mcfg p =
      for_range-Attached base (λ t. enumerate_config memory system (u64 (mcfg + 44 + 16 * t)))
        (λ t. buses_found memory (u64 (mcfg + 44 + 16 * t)))
        (λ t. enumerate_config-Attached (u64 (mcfg + 44 + 16 * t))) 0
        (int_rounds (u32 (sub64 (read32 memory (mcfg + 4)) 44 / 16))) p

  -- When the constructor keeps the address that it is given and the 16 slots hold the drivers that are there
  -- and those of the functions found, which are the AHCI functions that answer, on a device and a bus that
  -- answer, on the buses of each configuration from its start bus on and below its end bus: the enumeration
  -- makes one driver for each of them, in the order of the bus, in the slots from the count on; it counts them,
  -- changes no other slot and writes nothing behind the slots.
  pub enumerate_pci-Attached :
      (mcfg : ℕ) (p : Drivers S D)
      → p.ahci_driver_count + length (ahci_found memory mcfg) ≤ 16
      → Attached base p (ahci_found memory mcfg) (enumerate_pci memory system mcfg p)
  enumerate_pci-Attached mcfg p =
      let same = found-nested memory mcfg in
      subst (λ xs. Room p xs → Attached base p xs (enumerate_pci memory system mcfg p)) (sym same)
        (nested-Attached mcfg p)
