-- ===== src/Kernel/Acpi.antt =====
-- kernel/acpi.cpp: `ACPI::find_table`, and `prepare_acpi` of kernel/kernel.cpp, which hands the
-- table to the enumeration of the PCI bus. The firmware's tables do not change.
pub mod First
mod Tests
use ryanos.Prelude.{
  ℕ, zero, suc, ◌+◌, ◌-◌, ◌*◌, ◌/◌, ◌%◌, ◌^◌, Bool, true, false, ltb, ◌==◌, ◌&&◌, if◌then◌else◌,
  u32, u64, sub64, int_to_u64, read32, read64, int_rounds,
}
use ryanos.Kernel.Pci.{System, Drivers, enumerate_pci}

module _ (memory : ℕ → ℕ) where
  -- `new_sdt_header->signature[i] == signature[i]`: an unsigned char beside a char, which is signed,
  -- so that a byte from 128 on is never the same.
  unfoldable pub same_byte : ℕ → ℕ → Bool
  same_byte a b = (memory a == memory b) && ltb (memory b) 128

  -- The inner loop from `i` on, over the `count` bytes that are left of the four.
  unfoldable pub same_signature : ℕ → ℕ → ℕ → ℕ → Bool
  unfolding same_byte
  same_signature new_sdt_header signature i zero = true
  same_signature new_sdt_header signature i (suc count) =
      let rest = same_signature new_sdt_header signature (i + 1) count in
      if same_byte (new_sdt_header + i) (signature + i) then rest else false

  -- The entry `t` of the table.
  unfoldable pub entry_at : ℕ → ℕ → ℕ
  entry_at sdt_header t = read64 memory (u64 (sdt_header + 36 + int_to_u64 (t * 8)))

  unfoldable pub find_from : ℕ → ℕ → ℕ → ℕ → ℕ
  find_from sdt_header signature t zero = 0
  find_from sdt_header signature t (suc count) =
      let rest = find_from sdt_header signature (t + 1) count in
      let new_sdt_header = entry_at sdt_header t in
      if same_signature new_sdt_header signature 0 4 then new_sdt_header else rest

  unfoldable pub entries : ℕ → ℕ
  entries sdt_header = int_rounds (u32 (sub64 (read32 memory (sdt_header + 4)) 36 / 8))

  unfoldable pub find_table : ℕ → ℕ → ℕ
  find_table sdt_header signature = find_from sdt_header signature 0 (entries sdt_header)

  -- With the address of the text "MCFG"; a NULL is not tested for.
  unfoldable pub prepare_acpi : {S D : Type 0} → System S D → ℕ → ℕ → Drivers S D → Drivers S D
  prepare_acpi system xsdt mcfg_signature p =
      enumerate_pci memory system (find_table xsdt mcfg_signature) p
