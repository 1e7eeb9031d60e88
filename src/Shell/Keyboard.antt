-- ===== src/Shell/Keyboard.antt =====
-- shell/input/keyboard.cpp: `Shell::handle_keyboard`. `execute_command`, `out::cprint` and
-- `out::backspace` act on the rest of the system, which is a parameter: the command may also change
-- the memory of the line, which it gets as a pointer. The line is the memory from `current_line` on;
-- its first 256 bytes are the array. The index is an `int` that is never negative between two
-- calls. `none` is a read behind the end of a table.
pub mod Line
pub mod Overrun
mod Tests
use ryanos.Prelude.{
  ℕ, ◌+◌, ◌-◌, Bool, true, false, Option, none, some, ltb, ◌==◌, ◌||◌, if◌then◌else◌, update,
}
use ryanos.Shell.Scancodes.{left_shift, right_shift, enter, backspace, space, translate}

abbrev pub max_command_characters : ℕ
max_command_characters = 256

pub record Keyboard : Type 0 where
  pub is_left_shift_pressed : Bool
  pub is_right_shift_pressed : Bool
  pub current_line_index : ℕ
  pub current_line : ℕ → ℕ

-- The system around the keyboard: the functions that it calls.
pub record Screen (S : Type 0) : Type 0 where
  pub execute_command : (ℕ → ℕ) → S → (ℕ → ℕ) × S
  pub cprint : ℕ → S → S
  pub erase : S → S

-- `memset(current_line, 0, MAX_COMMAND_CHARACTERS)`
unfoldable pub clear_line : (ℕ → ℕ) → ℕ → ℕ
clear_line line i = if ltb i max_command_characters then 0 else line i

-- One character at the index, which moves on.
unfoldable pub put : ℕ → Keyboard → Keyboard
put c k = record k {
  current_line = update k.current_line k.current_line_index c;
  current_line_index = k.current_line_index + 1;
}

-- The index steps back, but not below 0, and the byte there is cleared.
unfoldable pub take_back : Keyboard → Keyboard
take_back k = record k {
  current_line = update k.current_line (k.current_line_index - 1) 0;
  current_line_index = k.current_line_index - 1;
}

module _ {S : Type 0} (screen : Screen S) where
  -- The part behind the `switch`, for the character that `translate` gave.
  unfoldable pub handle_character : Option ℕ → Keyboard → S → Option (Keyboard × S)
  unfolding put
  handle_character none k s = none
  handle_character (some ascii) k s =
      if ascii == 0
      then some (k, s)
      else if ltb max_command_characters k.current_line_index
      then some (k, s)
      else some (put ascii k, screen.cprint ascii s)

  unfoldable pub handle_keyboard : ℕ → Keyboard → S → Option (Keyboard × S)
  unfolding clear_line put take_back handle_character translate
  handle_keyboard scancode k s =
      let (line, s') = screen.execute_command k.current_line s in
      let typed =
        handle_character (translate scancode (k.is_left_shift_pressed || k.is_right_shift_pressed))
          k s in
      if scancode == left_shift
      then some (record k { is_left_shift_pressed = true }, s)
      else if scancode == left_shift + 0x80
      then some (record k { is_left_shift_pressed = false }, s)
      else if scancode == right_shift
      then some (record k { is_right_shift_pressed = true }, s)
      else if scancode == right_shift + 0x80
      then some (record k { is_right_shift_pressed = false }, s)
      else if scancode == enter
      then some (record k { current_line_index = 0; current_line = clear_line line }, s')
      else if scancode == backspace
      then some (take_back k, screen.erase s)
      else if scancode == space
      then some (put 32 k, screen.cprint 32 s)
      else typed
