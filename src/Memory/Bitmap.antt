-- ===== src/Memory/Bitmap.antt =====
-- memory/bitmap.cpp: `Bitmap::get` and `Bitmap::set`. The buffer is the memory behind the pointer,
-- a byte for each offset.
pub mod Laws
mod Tests
use ryanos.Prelude.{
  ℕ, ◌-◌, ◌*◌, ◌/◌, ◌%◌, ◌^◌, Bool, true, false, bit_and, bit_or, ltb, leb, if◌then◌else◌, u8, u64,
  complement, ◌>>>◌, update,
}

pub record Bitmap : Type 0 where
  pub size : ℕ
  pub buffer : ℕ → ℕ

-- `0b10000000 >> bit_index`
unfoldable pub bit_indexer : ℕ → ℕ
bit_indexer index = u8 (128 >>> (index % 8))

unfoldable pub get : Bitmap → ℕ → Bool
get m index =
    if leb (u64 (m.size * 8)) index
    then false
    else ltb 0 (bit_and (m.buffer (index / 8)) (bit_indexer index))

-- The byte after `buffer[byte_index] &= ~bit_indexer` and the conditional `|=`.
unfoldable pub set_byte : ℕ → ℕ → Bool → ℕ
set_byte byte mask value =
    let cleared = bit_and byte (complement 8 mask) in if value then bit_or cleared mask else cleared

unfoldable pub set : Bitmap → ℕ → Bool → Bitmap × Bool
set m index value = if leb (u64 (m.size * 8)) index then (m, false) else (
  record m {
    buffer =
        update m.buffer (index / 8) (set_byte (m.buffer (index / 8)) (bit_indexer index) value);
  },
  true,
)
