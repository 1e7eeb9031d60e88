-- ===== src/Strings/Hex.antt =====
-- lib/cstr.cpp: the four `to_hstring`, on a memory of bytes by address. The argument is the local copy at
-- `val_ptr`, its low byte first, and the buffer is a static array. The loop runs once for each place
-- of the text, but handles two places each time: its later rounds read behind the argument and write
-- in front of the buffer.
pub mod Written
use ryanos.Prelude.{
  ℕ, zero, suc, ◌+◌, ◌-◌, ◌*◌, ◌/◌, ◌%◌, ◌^◌, ltb, if◌then◌else◌, update, bit_and, ◌>>>◌, u8, sub64,
}
use ryanos.Strings.{Bytes}

-- `tmp + (tmp > 9 ? 55 : '0')`
unfoldable pub hex_digit : ℕ → ℕ
hex_digit tmp = tmp + (if ltb 9 tmp then 55 else b'0')

-- The loop from `i` on, for `count` rounds.
unfoldable pub hex_from : ℕ → ℕ → ℕ → ℕ → ℕ → Bytes → Bytes
unfolding hex_digit
hex_from hex_output val_ptr size i zero m = m
hex_from hex_output val_ptr size i (suc count) m =
    let ptr = val_ptr + i in
    let m₁ =
      update m (sub64 (hex_output + size) (i * 2 + 1)) (hex_digit (bit_and (m ptr) 0xf0 >>> 4)) in
    let m₂ = update m₁ (sub64 (hex_output + size) (i * 2)) (hex_digit (bit_and (m₁ ptr) 0x0f)) in
    hex_from hex_output val_ptr size (i + 1) count m₂

-- For an argument of `width` bytes.
unfoldable pub to_hstring : ℕ → ℕ → ℕ → Bytes → Bytes
to_hstring width hex_output val_ptr m =
    let size = width * 2 - 1 in
    update (hex_from hex_output val_ptr size 0 size m) (hex_output + size + 1) 0

unfoldable pub to_hstring64 : ℕ → ℕ → Bytes → Bytes
unfolding to_hstring
to_hstring64 hex_output val_ptr m = to_hstring 8 hex_output val_ptr m

unfoldable pub to_hstring32 : ℕ → ℕ → Bytes → Bytes
unfolding to_hstring
to_hstring32 hex_output32 val_ptr m = to_hstring 4 hex_output32 val_ptr m

unfoldable pub to_hstring16 : ℕ → ℕ → Bytes → Bytes
unfolding to_hstring
to_hstring16 hex_output16 val_ptr m = to_hstring 2 hex_output16 val_ptr m

unfoldable pub to_hstring8 : ℕ → ℕ → Bytes → Bytes
unfolding to_hstring
to_hstring8 hex_output8 val_ptr m = to_hstring 1 hex_output8 val_ptr m
