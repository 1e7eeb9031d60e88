-- ===== src/Memory/Paging.antt =====
-- memory/paging.hpp and memory/paging.cpp: the entries of a page table, a 64-bit word each.
pub mod Flags
pub mod Address
mod Tests
use ryanos.Prelude.{
  ℕ, ◌-◌, ◌*◌, ◌/◌, ◌^◌, Bool, true, false, bit_and, bit_or, ltb, if◌then◌else◌, u64, complement,
  ◌<<<◌, ◌>>>◌,
}

pub data PtFlag : Type 0 where
  present read_write user_super write_through cache_disabled accessed larger_pages : PtFlag
  custom0 custom1 custom2 nx : PtFlag

-- The bit that the flag names.
unfoldable pub position : PtFlag → ℕ
position present = 0
position read_write = 1
position user_super = 2
position write_through = 3
position cache_disabled = 4
position accessed = 5
position larger_pages = 7
position custom0 = 9
position custom1 = 10
position custom2 = 11
position nx = 63

pub record PageDirectoryEntry : Type 0 where
  pub value : ℕ

-- `(uint64_t)1 << flag`
unfoldable pub bit_selector : PtFlag → ℕ
bit_selector flag = 2 ^ position flag

unfoldable pub set_flag : PageDirectoryEntry → PtFlag → Bool → PageDirectoryEntry
set_flag e flag enabled =
    let cleared = bit_and e.value (complement 64 (bit_selector flag)) in
    record { value = if enabled then bit_or cleared (bit_selector flag) else cleared }

-- `value & bit_selector > 0`: in C++ the comparison binds tighter than `&`.
unfoldable pub get_flag : PageDirectoryEntry → PtFlag → Bool
get_flag e flag =
    let compared : ℕ = if ltb 0 (bit_selector flag) then 1 else 0 in
    if ltb 0 (bit_and e.value compared) then true else false

unfoldable pub get_address : PageDirectoryEntry → ℕ
get_address e = bit_and e.value 0x000f_ffff_ffff_f000 >>> 12

unfoldable pub set_address : PageDirectoryEntry → ℕ → PageDirectoryEntry
set_address e address =
    let a = bit_and address 0x0000_00ff_ffff_ffff in
    let cleared = bit_and e.value 0xfff0_0000_0000_0fff in
    record { value = bit_or cleared (u64 (a <<< 12)) }
