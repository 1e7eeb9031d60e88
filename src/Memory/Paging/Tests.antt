-- ===== src/Memory/Paging/Tests.antt =====
-- A page table entry with its present, user and no-execute bits set.
use ryanos.Prelude.{◌+◌, ◌/◌, ◌*◌, ◌%◌, ◌^◌, ◌≡◌, refl, true, arith, if◌then◌else◌, ◌==◌}
use ryanos.Prelude.Bits.{bit}
use ryanos.Memory.Paging.{
  present, read_write, larger_pages, PageDirectoryEntry, position, set_flag, get_flag, bit_selector,
  get_address, set_address,
}
use ryanos.Memory.Paging.Flags.{bit-set_flag, get_flag-present}
use ryanos.Memory.Paging.Address.{set_address_lem, get_address-set_address}

abbrev entry : PageDirectoryEntry
entry = record { value = 0x8000_0000_0000_1005 }

flag_written :
    bit (set_flag entry read_write true).value 2
    ≡ (if position read_write == 2 then (if true then 1 else 0) else bit entry.value 2)
flag_written = bit-set_flag entry read_write true 2 (omega arith)

present_answered : get_flag entry read_write ≡ (bit entry.value (position present) == 1)
present_answered = get_flag-present entry read_write (omega arith)

-- The entry's larger-pages bit is clear, and `get_flag` says that it is set.
wrong_flag : get_flag entry larger_pages ≡ true
unfolding get_flag bit_selector position
wrong_flag = refl

address_stored :
    (set_address entry 0x12345).value
    ≡ entry.value / 2 ^ 52 * 2 ^ 52 + (0x12345 % 2 ^ 40 * 2 ^ 12 + entry.value % 2 ^ 12)
address_stored = set_address_lem entry (omega arith) 0x12345 (omega arith)

address_read_back : get_address (set_address entry 0x12345) ≡ 0x12345 % 2 ^ 40
address_read_back = get_address-set_address entry 0x12345 (omega arith) (omega arith)
