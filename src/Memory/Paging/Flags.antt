-- ===== src/Memory/Paging/Flags.antt =====
-- `set_flag` and `get_flag` bit by bit.
use ryanos.Prelude.{ℕ, ◌^◌, ◌<◌, ◌≡◌, Bool, bit_and, if◌then◌else◌, complement, ◌==◌, arith}
use ryanos.Prelude.Bits.{bit, bit-and, bit-or, bit-complement, bit-two-pow, bit-le-one}
use ryanos.Prelude.Bits.Fields.{and_low}
use ryanos.Memory.Paging.{
  PtFlag, present, PageDirectoryEntry, position, bit_selector, set_flag, get_flag,
}

position-lt : (f : PtFlag) → position f < 64
unfolding position
position-lt present = omega arith
position-lt f = omega arith

bit_selector-lt : (f : PtFlag) → bit_selector f < 2 ^ 64
unfolding bit_selector position
bit_selector-lt present = omega arith
bit_selector-lt f = omega arith

bit_selector_pos : (f : PtFlag) → 0 < bit_selector f
unfolding bit_selector position
bit_selector_pos present = omega arith
bit_selector_pos f = omega arith

bit-bit_selector :
    (f : PtFlag) (k : ℕ) → bit (bit_selector f) k ≡ (if position f == k then 1 else 0)
unfolding bit_selector
bit-bit_selector f k = bit-two-pow (position f) k

-- Setting or clearing a flag writes its bit and leaves the other 63 bits of the entry alone.
pub bit-set_flag :
    (e : PageDirectoryEntry) (f : PtFlag) (on : Bool) (k : ℕ)
    → k < 64
    → bit (set_flag e f on).value k
      ≡ (if position f == k then (if on then 1 else 0) else bit e.value k)
unfolding set_flag
bit-set_flag e f on k h = ground (
  arith,
  bit-and e.value (complement 64 (bit_selector f)) k,
  bit-or (bit_and e.value (complement 64 (bit_selector f))) (bit_selector f) k,
  bit-complement 64 (bit_selector f) k (bit_selector-lt f) h,
  bit-bit_selector f k,
  bit-le-one e.value k,
)

-- Whatever flag is asked for, `get_flag` of a 64-bit entry answers with bit 0, the present bit.
pub get_flag-present :
    (e : PageDirectoryEntry) (f : PtFlag)
    → e.value < 2 ^ 64
    → get_flag e f ≡ (bit e.value (position present) == 1)
unfolding get_flag position bit
get_flag-present e f h = ground (arith, bit_selector_pos f, and_low 1 64 e.value h)
