-- ===== src/Shell/Keyboard/Line.antt =====
-- The line holds what was typed, as long as it has room.
use ryanos.Prelude.{
  ℕ, ◌+◌, ◌-◌, ◌<◌, ◌≤◌, ◌≡◌, ◌≢◌, refl, Bool, true, false, List, [], ◌∷◌, Option, none, some, ◌==◌,
  ◌||◌, if◌then◌else◌, update, arith, length, Bool-cases, inl, inr,
}
use ryanos.Shell.Scancodes.{
  left_shift, right_shift, enter, backspace, space, translate, translate_total,
}
use ryanos.Shell.Keyboard.{
  max_command_characters, Keyboard, Screen, clear_line, put, take_back, handle_character,
  handle_keyboard,
}

-- The text on the line, its last character first.
abbrev pub Text : Type 0
Text = List ℕ

abbrev pub Spells : (ℕ → ℕ) → Text → Type 0
Spells line [] = Unit {0}
Spells line (c ∷ cs) = (line (length cs) ≡ c) × Spells line cs

-- The keyboard's line is the text, with zeros behind it.
pub record IsLine (k : Keyboard) (text : Text) : Type 0 where
  pub at : k.current_line_index ≡ length text
  pub room : length text ≤ max_command_characters
  pub spells : Spells k.current_line text
  pub blank : (i : ℕ) → length text ≤ i → i < max_command_characters → k.current_line i ≡ 0

unfoldable pub erased : Text → Text
erased [] = []
erased (c ∷ cs) = cs

unfoldable pub typed : Option ℕ → Text → Text
typed none text = text
typed (some c) text = if c == 0 then text else c ∷ text

-- What a scan code does to the text.
unfoldable pub edit : Bool → ℕ → Text → Text
unfolding erased typed
edit upper scancode text =
    if scancode == left_shift
    then text
    else if scancode == left_shift + 0x80
    then text
    else if scancode == right_shift
    then text
    else if scancode == right_shift + 0x80
    then text
    else if scancode == enter
    then []
    else if scancode == backspace
    then erased text
    else if scancode == space
    then 32 ∷ text
    else typed (translate scancode upper) text

Spells-update :
    (line : ℕ → ℕ) (text : Text) (i c : ℕ)
    → length text ≤ i
    → Spells line text
    → Spells (update line i c) text
Spells-update line [] i c h sp = tt
Spells-update line (d ∷ text) i c h sp =
    (ground arith, Spells-update line text i c (omega arith) sp.1)

put-IsLine :
    (k : Keyboard) (text : Text) (c : ℕ)
    → length text < max_command_characters
    → IsLine k text
    → IsLine (put c k) (c ∷ text)
unfolding put
put-IsLine k text c room v = record {
  at = omega (arith, v.at);
  room = omega arith;
  spells = (
    (let e = v.at in ground arith),
    Spells-update k.current_line text k.current_line_index c (omega (arith, v.at)) v.spells,
  );
  blank = λ i h l. let e = v.at in ground (arith, v.blank i);
}

take_back-IsLine : (k : Keyboard) (text : Text) → IsLine k text → IsLine (take_back k) (erased text)
unfolding take_back erased
take_back-IsLine k [] v = record {
  at = let e = v.at in omega arith;
  room = omega arith;
  spells = tt;
  blank = λ i h l. ground (arith, v.blank i);
}
take_back-IsLine k (c ∷ text) v = record {
  at = let e = v.at in omega arith;
  room = let e = v.room in omega arith;
  spells =
      Spells-update k.current_line text (k.current_line_index - 1) 0 (omega (arith, v.at))
        v.spells.1;
  blank = λ i h l. let e = v.at in ground (arith, v.blank i);
}

clear_line-IsLine :
    (k : Keyboard) (line : ℕ → ℕ)
    → IsLine (record k { current_line_index = 0; current_line = clear_line line }) []
unfolding clear_line
clear_line-IsLine k line = record {
  at = refl;
  room = omega arith;
  spells = tt;
  blank = λ i h l. ground arith;
}

shift-IsLine :
    (k : Keyboard) (text : Text) (left right : Bool)
    → IsLine k text
    → IsLine (record k { is_left_shift_pressed = left; is_right_shift_pressed = right }) text
shift-IsLine k text left right v = record {
  at = v.at;
  room = v.room;
  spells = v.spells;
  blank = v.blank;
}

abbrev pub upper : Keyboard → Bool
upper k = k.is_left_shift_pressed || k.is_right_shift_pressed

module _ {S : Type 0} (screen : Screen S) (k : Keyboard) (s : S) (text : Text)
    (room : length text < max_command_characters) (v : IsLine k text) where
  -- The call comes back and leaves the line with the text.
  abbrev Leaves : Option (Keyboard × S) → Text → Type 0
  Leaves r t = (k' : Keyboard) × (s' : S) × (r ≡ some (k', s')) × IsLine k' t

  handle_character-IsLine :
      (c : ℕ) → Leaves (handle_character screen (some c) k s) (typed (some c) text)
  unfolding handle_character typed
  handle_character-IsLine c = elim (Bool-cases (c == 0)) [
    | inl nul ↦ (k, s, ground arith, rw nul v)
    | inr visible ↦ (
      put c k,
      screen.cprint c s,
      (let e = v.at in ground arith),
      rw visible (put-IsLine k text c room v),
    )
  ]

  abbrev line_after : (ℕ → ℕ) × S
  line_after = screen.execute_command k.current_line s

  -- The scan codes that are no shift key.
  edits :
      (scancode : ℕ)
      → scancode ≢ 58
      → Leaves
          (if scancode == enter
            then some (
              record k { current_line_index = 0; current_line = clear_line line_after.0 },
              line_after.1,
            )
            else if scancode == backspace
            then some (take_back k, screen.erase s)
            else if scancode == space
            then some (put 32 k, screen.cprint 32 s)
            else handle_character screen (translate scancode (upper k)) k s)
          (if scancode == enter
            then []
            else if scancode == backspace
            then erased text
            else if scancode == space
            then 32 ∷ text
            else typed (translate scancode (upper k)) text)
  edits scancode ne = elim (Bool-cases (scancode == enter)) [
    | inl a ↦ rw a (_, _, refl, clear_line-IsLine k line_after.0)
    | inr a ↦ elim (Bool-cases (scancode == backspace)) [
      | inl b ↦ rw (a, b) (_, _, refl, take_back-IsLine k text v)
      | inr b ↦ elim (Bool-cases (scancode == space)) [
        | inl c ↦ rw (a, b, c) (_, _, refl, put-IsLine k text 32 room v)
        | inr c ↦
            let (ascii, e) = translate_total scancode (upper k) ne in
            rw (a, b, c, e) (handle_character-IsLine ascii)
      ]
    ]
  ]

  -- While fewer than 256 characters stand on the line, a scan code other than 58 is handled, and the
  -- line is the text as the scan code edits it, with zeros behind it.
  pub handle_keyboard-IsLine :
      (scancode : ℕ)
      → scancode ≢ 58
      → Leaves (handle_keyboard screen scancode k s) (edit (upper k) scancode text)
  unfolding handle_keyboard edit
  handle_keyboard-IsLine scancode ne = elim (Bool-cases (scancode == left_shift)) [
    | inl a ↦ rw a (_, s, refl, shift-IsLine k text true k.is_right_shift_pressed v)
    | inr a ↦ elim (Bool-cases (scancode == left_shift + 0x80)) [
      | inl b ↦ rw (a, b) (_, s, refl, shift-IsLine k text false k.is_right_shift_pressed v)
      | inr b ↦ elim (Bool-cases (scancode == right_shift)) [
        | inl c ↦ rw (a, b, c) (_, s, refl, shift-IsLine k text k.is_left_shift_pressed true v)
        | inr c ↦ elim (Bool-cases (scancode == right_shift + 0x80)) [
          | inl d ↦
              rw (a, b, c, d) (_, s, refl, shift-IsLine k text k.is_left_shift_pressed false v)
          | inr d ↦ rw (a, b, c, d) (edits scancode ne)
        ]
      ]
    ]
  ]
