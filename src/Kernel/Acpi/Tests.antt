-- ===== src/Kernel/Acpi/Tests.antt =====
-- Two tables of which the second has the signature.
use ryanos.Prelude.{ℕ, ◌≡◌, refl, ◌==◌, if◌then◌else◌}
use ryanos.Kernel.Acpi.{same_byte, same_signature, entry_at, find_from, entries, find_table}
use ryanos.Kernel.Acpi.First.{IsFirst, find_table-IsFirst}

-- The XSDT at 0x1000 leads to the tables at 0x2000 and 0x3000; the text stands at 0x4000.
abbrev memory : ℕ → ℕ
memory a =
    if a == 0x1004
    then 52
    else if a == 0x1025
    then 0x20
    else if a == 0x102d
    then 0x30
    else if a == 0x2000
    then b'F'
    else if a == 0x3000
    then b'M'
    else if a == 0x3001
    then b'C'
    else if a == 0x3002
    then b'F'
    else if a == 0x3003
    then b'G'
    else if a == 0x4000
    then b'M'
    else if a == 0x4001
    then b'C'
    else if a == 0x4002
    then b'F'
    else if a == 0x4003
    then b'G'
    else 0

the_second : find_table memory 0x1000 0x4000 ≡ 0x3000
unfolding find_table find_from same_signature same_byte entry_at entries
the_second = refl

find_table-IsFirst_example :
    IsFirst memory 0x1000 0x4000 0 (entries memory 0x1000) (find_table memory 0x1000 0x4000)
find_table-IsFirst_example = find_table-IsFirst memory 0x1000 0x4000
