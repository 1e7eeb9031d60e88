-- ===== src/Memory/Aligned.antt =====
-- `aligned_alloc` and `aligned_free` of memory/mem.cpp. `malloc` and `free` are parameters here: the
-- functions only need the address of a block that is large enough. The memory that holds the address
-- of the raw block is a store of 64-bit words.
pub mod Placed
mod Tests
use ryanos.Prelude.{
  ℕ, ◌+◌, ◌-◌, ◌^◌, Bool, true, false, bit_and, ltb, ◌==◌, ◌||◌, not, if◌then◌else◌, u64, sub64,
  complement, update,
}

-- sizeof(void*)
abbrev pub pointer_size : ℕ
pointer_size = 8

-- Not a power of two, or below the size of a pointer.
unfoldable pub bad_alignment : ℕ → Bool
bad_alignment alignment =
    not (bit_and alignment (sub64 alignment 1) == 0) || ltb alignment pointer_size

unfoldable pub total_size : ℕ → ℕ → ℕ
total_size alignment size = u64 (size + alignment + pointer_size)

-- The address that is returned for the raw address.
unfoldable pub align_up : ℕ → ℕ → ℕ
align_up alignment raw_address =
    bit_and (u64 (raw_address + alignment + pointer_size)) (complement 64 (sub64 alignment 1))

module _ {S : Type 0} (malloc : ℕ → S → S × ℕ) (free : ℕ → S → S) where
  unfoldable pub aligned_alloc : ℕ → ℕ → (ℕ → ℕ) → S → S × (ℕ → ℕ) × ℕ
  aligned_alloc alignment size words s =
      let (s', raw_memory) = malloc (total_size alignment size) s in
      let aligned_address = align_up alignment raw_memory in
      if bad_alignment alignment
      then (s, words, 0)
      else if raw_memory == 0
      then (s', words, 0)
      else (s', update words (sub64 aligned_address 8) raw_memory, aligned_address)

  unfoldable pub aligned_free : ℕ → (ℕ → ℕ) → S → S
  aligned_free ptr words s = if ptr == 0 then s else free (words (sub64 ptr 8)) s
