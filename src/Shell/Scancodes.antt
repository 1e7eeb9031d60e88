-- ===== src/Shell/Scancodes.antt =====
-- shell/input/scancode_translator.cpp: the two tables and `translate`. The tables have 58 entries;
-- a read behind them has the result `none`.
use ryanos.Prelude.{
  ℕ, zero, suc, ◌<◌, ◌≡◌, ◌≢◌, refl, Bool, true, false, List, [], ◌∷◌, Option, none, some, ltb,
  if◌then◌else◌, arith, length, Bool-cases, inl, inr,
}

abbrev pub left_shift : ℕ
left_shift = 0x2A

abbrev pub right_shift : ℕ
right_shift = 0x36

abbrev pub enter : ℕ
enter = 0x1C

abbrev pub backspace : ℕ
backspace = 0x0E

abbrev pub space : ℕ
space = 0x39

abbrev pub ascii_table : List ℕ
ascii_table =
    0 ∷ 0 ∷ 49 ∷ 50 ∷ 51 ∷ 52 ∷ 53 ∷ 54 ∷ 55 ∷ 56 ∷ 57 ∷ 48 ∷ 45 ∷ 61 ∷ 0 ∷ 0 ∷ 113 ∷ 119 ∷ 101
    ∷ 114 ∷ 116 ∷ 121 ∷ 117 ∷ 105 ∷ 111 ∷ 112 ∷ 91 ∷ 93 ∷ 0 ∷ 0 ∷ 97 ∷ 115 ∷ 100 ∷ 102 ∷ 103 ∷ 104
    ∷ 106 ∷ 107 ∷ 108 ∷ 59 ∷ 39 ∷ 96 ∷ 0 ∷ 92 ∷ 122 ∷ 120 ∷ 99 ∷ 118 ∷ 98 ∷ 110 ∷ 109 ∷ 44 ∷ 46 ∷ 47
    ∷ 0 ∷ 42 ∷ 0 ∷ 32 ∷ []

abbrev pub uppercase_ascii_table : List ℕ
uppercase_ascii_table =
    0 ∷ 0 ∷ 33 ∷ 64 ∷ 35 ∷ 36 ∷ 37 ∷ 94 ∷ 38 ∷ 42 ∷ 40 ∷ 41 ∷ 95 ∷ 43 ∷ 0 ∷ 0 ∷ 81 ∷ 87 ∷ 69 ∷ 82
    ∷ 84 ∷ 89 ∷ 85 ∷ 73 ∷ 79 ∷ 80 ∷ 123 ∷ 125 ∷ 0 ∷ 0 ∷ 65 ∷ 83 ∷ 68 ∷ 70 ∷ 71 ∷ 72 ∷ 74 ∷ 75 ∷ 76
    ∷ 58 ∷ 34 ∷ 126 ∷ 0 ∷ 124 ∷ 90 ∷ 88 ∷ 67 ∷ 86 ∷ 66 ∷ 78 ∷ 77 ∷ 60 ∷ 62 ∷ 63 ∷ 0 ∷ 42 ∷ 0 ∷ 32
    ∷ []

unfoldable pub entry_at : List ℕ → ℕ → Option ℕ
entry_at [] i = none
entry_at (c ∷ cs) zero = some c
entry_at (c ∷ cs) (suc i) = entry_at cs i

unfoldable pub translate : ℕ → Bool → Option ℕ
unfolding entry_at
translate scancode uppercase =
    if ltb 58 scancode
    then some 0
    else if uppercase
    then entry_at uppercase_ascii_table scancode
    else entry_at ascii_table scancode

entry_at-length : (cs : List ℕ) (i : ℕ) → i < length cs → (c : ℕ) × (entry_at cs i ≡ some c)
unfolding entry_at
entry_at-length [] i h = absurd (omega arith)
entry_at-length (c ∷ cs) zero h = (c, refl)
entry_at-length (c ∷ cs) (suc i) h = entry_at-length cs i (omega arith)

-- Whether or not a shift key is down, every scan code but 58 has a character.
pub translate_total :
    (scancode : ℕ) (uppercase : Bool)
    → scancode ≢ 58
    → (c : ℕ) × (translate scancode uppercase ≡ some c)
unfolding translate
translate_total scancode uppercase ne = elim (Bool-cases (ltb 58 scancode)) [
  | inl beyond ↦ (0, ground arith)
  | inr inside ↦ elim (Bool-cases uppercase) [
    | inl up ↦
        let (c, e) = entry_at-length uppercase_ascii_table scancode (ground arith) in
        (c, ground arith)
    | inr down ↦
        let (c, e) = entry_at-length ascii_table scancode (ground arith) in (c, ground arith)
  ]
]

-- Scan code 58, the caps lock key, is read behind the end of either table.
pub translate-caps : (uppercase : Bool) → translate 58 uppercase ≡ none
unfolding translate entry_at
translate-caps true = refl
translate-caps false = refl
