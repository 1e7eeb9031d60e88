-- ===== src/Shell/Keyboard/Tests.antt =====
-- Keys on an empty line, and on a full one.
use ryanos.Prelude.{ℕ, ◌+◌, ◌≡◌, refl, true, false, [], ◌∷◌, some, ltb, if◌then◌else◌, arith, ◌==◌}
use ryanos.Shell.Scancodes.{translate}
use ryanos.Shell.Keyboard.{Keyboard, Screen, handle_keyboard}
use ryanos.Shell.Keyboard.Line.{IsLine, edit, upper, handle_keyboard-IsLine}
use ryanos.Shell.Keyboard.Overrun.{spaces, spaces_lem}

-- A screen that keeps the number of characters printed.
abbrev counter : Screen ℕ
counter = record { execute_command = λ line n. (line, n); cprint = λ c n. n + 1; erase = λ n. n }

abbrev one_letter : Keyboard
one_letter = record {
  is_left_shift_pressed = true;
  is_right_shift_pressed = false;
  current_line_index = 1;
  current_line = λ i. if i == 0 then 97 else 0;
}

one_letter-IsLine : IsLine one_letter (97 ∷ [])
one_letter-IsLine = record {
  at = refl;
  room = omega arith;
  spells = (refl, tt);
  blank = λ i h l. ground arith;
}

-- The key of the letter b, with shift.
handle_keyboard-IsLine_example :
    (k' : Keyboard) × (s' : ℕ) × (handle_keyboard counter 0x30 one_letter 1 ≡ some (k', s'))
    × IsLine k' (edit (upper one_letter) 0x30 (97 ∷ []))
handle_keyboard-IsLine_example =
    handle_keyboard-IsLine counter one_letter 1 (97 ∷ []) (omega arith) one_letter-IsLine 0x30
      (λ e. absurd (omega arith))

capital_b : edit true 0x30 (97 ∷ []) ≡ 66 ∷ 97 ∷ []
unfolding edit translate
capital_b = refl

abbrev full : Keyboard
full = record {
  is_left_shift_pressed = false;
  is_right_shift_pressed = false;
  current_line_index = 256;
  current_line = λ i. 120;
}

line_overrun :
    (k' : Keyboard) × (s' : ℕ) × (spaces counter 8 full 256 ≡ some (k', s'))
    × (k'.current_line_index ≡ full.current_line_index + 8)
    × ((i : ℕ)
        → k'.current_line i ≡ (
            if ltb i full.current_line_index
            then full.current_line i
            else if ltb i (full.current_line_index + 8)
            then 32
            else full.current_line i))
line_overrun = spaces_lem counter 8 full 256
