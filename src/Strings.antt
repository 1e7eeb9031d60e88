-- ===== src/Strings.antt =====
-- lib/standard.cpp: `compare_string`, `string_length`, `append` and `strcopy`, on a memory of bytes
-- by address. A loop runs on fuel, and `none` means that the fuel ran out. The `int` counters do not
-- wrap below 2^31 characters.
pub mod Spelled
pub mod Compare
pub mod Copy
pub mod Hex
pub mod Decimal
mod Tests
use ryanos.Prelude.{
  ℕ, zero, suc, ◌+◌, ◌-◌, Bool, true, false, Option, none, some, ltb, ◌==◌, if◌then◌else◌, update,
}

abbrev pub Bytes : Type 0
Bytes = ℕ → ℕ

-- The difference of two characters, which are bytes with a sign: whether it is below 0, and its size.
pub record Difference : Type 0 where
  pub negative : Bool
  pub size : ℕ

-- The value of a character with its sign, 128 higher.
unfoldable pub raised : ℕ → ℕ
raised c = if ltb c 128 then c + 128 else c - 128

unfoldable pub difference : ℕ → ℕ → Difference
difference a b =
    if ltb (raised a) (raised b)
    then record { negative = true; size = raised b - raised a }
    else record { negative = false; size = raised a - raised b }

-- The loop of `compare_string`, from the index `i` on.
unfoldable pub compare_from : ℕ → Bytes → ℕ → ℕ → ℕ → Option Difference
compare_from zero m s1 s2 i = none
compare_from (suc fuel) m s1 s2 i =
    let rest = compare_from fuel m s1 s2 (i + 1) in
    if m (s1 + i) == m (s2 + i)
    then (if m (s1 + i) == 0 then some (record { negative = false; size = 0 }) else rest)
    else some (difference (m (s1 + i)) (m (s2 + i)))

unfoldable pub compare_string : ℕ → Bytes → ℕ → ℕ → Option Difference
compare_string fuel m s1 s2 = compare_from fuel m s1 s2 0

unfoldable pub length_from : ℕ → Bytes → ℕ → ℕ → Option ℕ
length_from zero m s i = none
length_from (suc fuel) m s i =
    let rest = length_from fuel m s (i + 1) in if m (s + i) == 0 then some i else rest

unfoldable pub string_length : ℕ → Bytes → ℕ → Option ℕ
string_length fuel m s = length_from fuel m s 0

unfoldable pub append : ℕ → Bytes → ℕ → ℕ → Option Bytes
append fuel m s n = elim (string_length fuel m s) [
  | none ↦ none
  | some len ↦ some (update (update m (s + len) n) (s + len + 1) 0)
]

-- The memory after `strcopy`, which returns the first address it was given.
unfoldable pub strcopy : ℕ → Bytes → ℕ → ℕ → Option Bytes
strcopy zero m d s = none
strcopy (suc fuel) m d s =
    let rest = strcopy fuel (update m d (m s)) (d + 1) (s + 1) in
    if m s == 0 then some (update m d 0) else rest
