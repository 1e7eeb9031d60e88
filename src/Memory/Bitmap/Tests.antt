-- ===== src/Memory/Bitmap/Tests.antt =====
-- A bitmap of two bytes.
use ryanos.Prelude.{◌≡◌, refl, true, false, arith, if◌then◌else◌, ◌==◌}
use ryanos.Memory.Bitmap.{Bitmap, get, set, set_byte, bit_indexer}
use ryanos.Memory.Bitmap.Laws.{IsBytes, get-set}

abbrev two_bytes : Bitmap
two_bytes = record { size = 2; buffer = λ i. if i == 0 then 0b10000001 else 0b01000000 }

two_bytes-IsBytes : IsBytes two_bytes
two_bytes-IsBytes i = ground arith

bit_cleared : get (set two_bytes 9 false).0 7 ≡ (if 9 == 7 then false else get two_bytes 7)
bit_cleared = get-set two_bytes 9 false two_bytes-IsBytes 7 (omega arith)

last_bit : get two_bytes 7 ≡ true
unfolding get bit_indexer
last_bit = refl

cleared_bit : get (set two_bytes 9 false).0 9 ≡ false
unfolding get set set_byte bit_indexer
cleared_bit = refl

out_of_range : set two_bytes 16 true ≡ (two_bytes, false)
unfolding set
out_of_range = refl
