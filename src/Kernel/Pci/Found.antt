-- ===== src/Kernel/Pci/Found.antt =====
-- The AHCI functions of the bus, as the list of their addresses.
use ryanos.Prelude.{
  ℕ, zero, suc, ◌+◌, ◌-◌, ◌*◌, ◌/◌, ◌^◌, Bool, true, false, not, List, [], ◌∷◌, ◌++◌, ◌&&◌, ◌==◌,
  u32, u64, sub64, read32, read64, int_rounds,
}

-- The lists of `count` numbers from `from` on, one behind the other.
unfoldable pub concat_range : (ℕ → List ℕ) → ℕ → ℕ → List ℕ
concat_range f from zero = []
concat_range f from (suc count) = f from ++ concat_range f (from + 1) count

abbrev pub when : Bool → List ℕ → List ℕ
when true xs = xs
when false xs = []

-- Where the configuration space of a function begins.
abbrev pub at : ℕ → ℕ → ℕ → ℕ → ℕ
at base bus device function = u64 (base + bus * 2 ^ 20 + device * 2 ^ 15 + function * 2 ^ 12)

module _ (memory : ℕ → ℕ) where
  -- Bytes 2 and 3, the device's identification, are neither all zeros nor all ones.
  unfoldable pub answers : ℕ → Bool
  answers header =
      let id = memory (header + 2) + 256 * memory (header + 3) in not (id == 0) && not (id == 65535)

  -- Class 1, mass storage; subclass 6, SATA; interface 1, AHCI.
  unfoldable pub speaks_ahci : ℕ → Bool
  speaks_ahci header =
      (memory (header + 11) == 1) && ((memory (header + 10) == 6) && (memory (header + 9) == 1))

  -- A function of the base is found when its bus, its device and it answer, and it is an AHCI controller.
  abbrev pub found_at : ℕ → ℕ → ℕ → ℕ → List ℕ
  found_at base bus device function =
      when
        (answers (at base bus 0 0)
          && (answers (at base bus device 0)
              && (answers (at base bus device function)
                  && speaks_ahci (at base bus device function))))
        (at base bus device function ∷ [])

  -- Of a bus, and of the buses of a configuration: from byte 10 on, below byte 11.
  abbrev pub bus_found : ℕ → ℕ → List ℕ
  bus_found base bus =
      concat_range (λ device. concat_range (λ function. found_at base bus device function) 0 8) 0 32

  abbrev pub config_found : ℕ → List ℕ
  config_found config =
      let first = memory (config + 10) in
      concat_range (λ bus. bus_found (read64 memory config) bus) first
        (memory (config + 11) - first)

  -- The functions of all configurations of the MCFG table.
  abbrev pub ahci_found : ℕ → List ℕ
  ahci_found mcfg =
      concat_range (λ t. config_found (u64 (mcfg + 44 + 16 * t))) 0
        (int_rounds (u32 (sub64 (read32 memory (mcfg + 4)) 44 / 16)))
