-- ===== src/Strings/Tests.antt =====
-- The strings "abc" at 16 and "abd" at 32.
use ryanos.Prelude.{
  ℕ, ◌+◌, ◌-◌, ◌≤◌, ◌⊎◌, ◌<◌, ◌≡◌, ◌≢◌, refl, true, List, [], ◌∷◌, ◌++◌, some, ◌==◌, if◌then◌else◌,
  arith, length, inr,
}
use ryanos.Strings.Decimal.{to_string_unsigned}
use ryanos.Strings.Decimal.Digits.{Decimal, one, more, to_string_unsigned-Decimal}
use ryanos.Strings.Hex.{to_hstring, hex_digit}
use ryanos.Strings.Hex.Written.{nibble, to_hstring-Places}
use ryanos.Strings.{Bytes, raised, difference, compare_from, compare_string, append, strcopy}
use ryanos.Strings.Spelled.{Spelled, append_lem}
use ryanos.Strings.Copy.{Outside, strcopy_lem}
use ryanos.Strings.Compare.{Tells, compare_string-Tells}

abbrev memory : Bytes
memory a =
    if a == 16
    then 97
    else if a == 17
    then 98
    else if a == 18
    then 99
    else if a == 32
    then 97
    else if a == 33
    then 98
    else if a == 34
    then 100
    else 0

abbrev abc : List ℕ
abc = 97 ∷ 98 ∷ 99 ∷ []

abbrev abd : List ℕ
abd = 97 ∷ 98 ∷ 100 ∷ []

abc-Spelled : Spelled memory 16 abc
abc-Spelled = (
  (λ e. absurd (omega arith)),
  refl,
  ((λ e. absurd (omega arith)), refl, ((λ e. absurd (omega arith)), refl, refl)),
)

abd-Spelled : Spelled memory 32 abd
abd-Spelled = (
  (λ e. absurd (omega arith)),
  refl,
  ((λ e. absurd (omega arith)), refl, ((λ e. absurd (omega arith)), refl, refl)),
)

text_copied :
    (m : Bytes) × (strcopy 4 memory 64 16 ≡ some m)
    × Spelled m 64 abc
    × Spelled m 16 abc
    × ((a : ℕ) → Outside 64 abc a → m a ≡ memory a)
text_copied = strcopy_lem 4 memory 64 16 abc abc-Spelled (omega arith) (inr (omega arith))

letter_appended :
    (m : Bytes) × (append 4 memory 16 100 ≡ some m)
    × Spelled m 16 (abc ++ 100 ∷ [])
    × ((a : ℕ) → a ≢ 16 + length abc → a ≢ 16 + length abc + 1 → m a ≡ memory a)
letter_appended =
    append_lem 4 memory 16 100 abc abc-Spelled (omega arith) (λ e. absurd (omega arith))

memory-lt : (a : ℕ) → memory a < 256
memory-lt a = ground arith

texts_told : Tells (compare_string 4 memory 16 32) abc abd
texts_told =
    compare_string-Tells memory memory-lt 16 32 4 abc abd abc-Spelled abd-Spelled (omega arith)

one_less : compare_string 4 memory 16 32 ≡ some (record { negative = true; size = 1 })
unfolding compare_string compare_from difference raised
one_less = refl

-- The number 0x1a2b at 0x2000.
abbrev number : Bytes
number = λ a. if a == 0x2000 then 0x2b else if a == 0x2001 then 0x1a else 0

number-lt : (k : ℕ) → k < 3 → number (0x2000 + k) < 256
number-lt k l = ground arith

to_hstring-Places_example :
    ((j : ℕ)
      → j < 6
      → to_hstring 2 0x1000 0x2000 number (0x1003 - j) ≡ hex_digit (nibble number 0x2000 j))
    × (to_hstring 2 0x1000 0x2000 number 0x1004 ≡ 0)
    × ((a : ℕ) → (a + 6 ≤ 0x1003) ⊎ (0x1004 < a) → to_hstring 2 0x1000 0x2000 number a ≡ number a)
to_hstring-Places_example =
    to_hstring-Places 2 0x1000 0x2000 number (omega arith) (omega arith) (omega arith)
      (inr (omega arith)) number-lt

abbrev four_o_seven : List ℕ
four_o_seven = b'4' ∷ b'0' ∷ b'7' ∷ []

four_o_seven-Decimal : Decimal 407 four_o_seven
four_o_seven-Decimal = more (omega arith) (more (omega arith) (one (omega arith)))

to_string_unsigned-Decimal_example :
    (m' : Bytes) × (to_string_unsigned 20 0x1000 2 407 number ≡ some m')
    × Spelled m' 0x1002 four_o_seven
    × ((a : ℕ) → (a < 0x1002) ⊎ (0x1005 < a) → m' a ≡ number a)
to_string_unsigned-Decimal_example =
    to_string_unsigned-Decimal 20 0x1000 2 407 four_o_seven number four_o_seven-Decimal
      (omega arith) (omega arith) (omega arith)
