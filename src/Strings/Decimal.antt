-- ===== src/Strings/Decimal.antt =====
-- lib/cstr.cpp: `to_string` of integers, on a memory of bytes by address. The local `size` is never
-- initialised, so what it holds at first is an argument. The loops run on fuel, and `none` means that
-- the fuel ran out; for a 64-bit number 20 rounds are enough. A negative number is given by its
-- size; the least one, whose sign cannot be changed, is left out.
pub mod Digits
use ryanos.Prelude.{
  ℕ, zero, suc, ◌+◌, ◌-◌, ◌*◌, ◌/◌, ◌%◌, ◌^◌, Option, none, some, Bool, true, false, ltb,
  if◌then◌else◌, update, u8, sub64,
}
use ryanos.Prelude.Int.{ℤ, pos, negsuc}
use ryanos.Strings.{Bytes}

-- The first loop.
unfoldable pub count_digits : ℕ → ℕ → ℕ → Option ℕ
count_digits zero size_test size = none
count_digits (suc fuel) size_test size =
    let rest = count_digits fuel (size_test / 10) (u8 (size + 1)) in
    if ltb 0 (size_test / 10) then rest else some size

-- The second loop and the first digit of the number behind it. The last place is at `last`.
unfoldable pub write_digits : ℕ → ℕ → ℕ → ℕ → Bytes → Option Bytes
write_digits zero last value index m = none
write_digits (suc fuel) last value index m =
    let m' = update m (sub64 last index) (value % 10 + b'0') in
    let rest = write_digits fuel last (value / 10) (u8 (index + 1)) m' in
    if ltb 0 (value / 10) then rest else some m'

-- The digits of the value behind `front` places of the buffer, and the 0 behind them.
unfoldable pub digits_at : ℕ → ℕ → ℕ → ℕ → ℕ → Bytes → Option Bytes
digits_at fuel output front garbage value m = elim (count_digits fuel value garbage) [
  | none ↦ none
  | some size ↦ elim (write_digits fuel (output + front + size) value 0 m) [
    | none ↦ none
    | some m' ↦ some (update m' (output + front + size + 1) 0)
  ]
]

unfoldable pub to_string_unsigned : ℕ → ℕ → ℕ → ℕ → Bytes → Option Bytes
unfolding digits_at
to_string_unsigned fuel uint_output garbage value m = digits_at fuel uint_output 0 garbage value m

unfoldable pub to_string_signed : ℕ → ℕ → ℕ → ℤ → Bytes → Option Bytes
unfolding digits_at
to_string_signed fuel int_output garbage (pos n) m = digits_at fuel int_output 0 garbage n m
to_string_signed fuel int_output garbage (negsuc n) m =
    digits_at fuel int_output 1 garbage (suc n) (update m int_output b'-')
