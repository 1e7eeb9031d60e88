-- ===== src/Shell/Commands.antt =====
-- shell/commands/command_manager.cpp: `strtoi`, the splitting of the command line in place, and the
-- dispatch of the commands, on a memory of bytes. The loops run on fuel, and `none` means that it ran
-- out. The list `argv` is the array with its `argc` pointers; the array has 16 places and the code
-- does not test for that. A word that finds it full is written behind it, over the stack, and what the
-- code does from there on is not modelled: there is no result then.
pub mod Number
pub mod Words
pub mod Tokens
pub mod Dispatch
pub mod Parse
mod Tests
use ryanos.Prelude.{
  ℕ, zero, suc, ◌+◌, ◌-◌, ◌*◌, ◌^◌, Bool, true, false, List, [], ◌∷◌, ◌++◌, length, Option, none,
  some, ltb, leb, ◌==◌, ◌&&◌, ◌||◌, not, if◌then◌else◌, update,
}
use Prim.Native.String.{String}
use ryanos.Prelude.Int.{ℤ, pos, negsuc, negated, to_size}
use ryanos.Strings.{Bytes, Difference, compare_string}

-- Here `sum` is what the code keeps as a negative number.
unfoldable pub strtoi_from : ℕ → Bytes → Bool → ℕ → ℕ → Option ℤ
strtoi_from zero m minus p sum = none
strtoi_from (suc fuel) m minus p sum =
    let c = m p in
    let sum' = sum * 10 + (c - b'0') in
    let rest = strtoi_from fuel m minus (p + 1) sum' in
    if leb b'0' c && leb c b'9'
    then (if ltb (2 ^ 31) sum' || (not minus && ltb (2 ^ 31 - 1) sum') then some (pos 0) else rest)
    else some (if minus then negated sum else pos sum)

unfoldable pub strtoi : ℕ → Bytes → ℕ → Option ℤ
unfolding strtoi_from
strtoi fuel m s =
    let minus = m s == b'-' in
    strtoi_from fuel m minus (if minus || (m s == b'+') then s + 1 else s) 0

-- The first inner loop, which also clears the spaces.
unfoldable pub skip_spaces : ℕ → Bytes → ℕ → Option (Bytes × ℕ)
skip_spaces zero m args = none
skip_spaces (suc fuel) m args =
    let rest = skip_spaces fuel (update m args 0) (args + 1) in
    if m args == b' ' then rest else some (m, args)

-- The second inner loop.
unfoldable pub skip_word : ℕ → Bytes → ℕ → Option ℕ
skip_word zero m args = none
skip_word (suc fuel) m args =
    let rest = skip_word fuel m (args + 1) in
    if (m args == 0) || (m args == b' ') then some args else rest

-- The outer loop. Each inner loop gets `inner` as fuel.
unfoldable pub tokenize : ℕ → ℕ → Bytes → ℕ → List ℕ → Option (Bytes × List ℕ)
tokenize inner zero m args argv = none
tokenize inner (suc fuel) m args argv =
    let rest : Option (Bytes × List ℕ) = elim (skip_spaces inner m args) [
      | none ↦ none
      | some (m₁, a₁) ↦ elim (skip_word inner m₁ a₁) [
        | none ↦ none
        | some a₂ ↦
            let more =
              tokenize inner fuel (if m₁ a₂ == 0 then m₁ else update m₁ a₂ 0)
                (if m₁ a₂ == 0 then a₂ else a₂ + 1)
                (if m₁ a₁ == 0 then argv else argv ++ a₁ ∷ []) in
            if not (m₁ a₁ == 0) && leb 16 (length argv) then none else more
      ]
    ] in
    if m args == 0 then some (m, argv) else rest

-- What the commands do to the rest of the system; `paint` sets the colour of a window's canvas and clears
-- it.
pub record Console (S W : Type 0) : Type 0 where
  pub print : Bytes → ℕ → S → S
  pub print_text : String → S → S
  pub clear : S → S
  pub make_window : S → S
  pub get_from_id : ℕ → S → Option W
  pub paint : W → ℕ → S → S

-- Where the texts stand that the code compares with.
pub record Literals : Type 0 where
  pub echo : ℕ
  pub clear : ℕ
  pub window : ℕ
  pub windowcolor : ℕ
  pub red : ℕ
  pub green : ℕ
  pub blue : ℕ

-- `if (compare_string(a, b) == 0) x else y`
abbrev pub if_same : {X : Type 0} → ℕ → Bytes → ℕ → ℕ → Option X → Option X → Option X
if_same fuel m a b x y = elim (compare_string fuel m a b) [
  | none ↦ none
  | some d ↦ if d.size == 0 then x else y
]

module _ {S W : Type 0} (console : Console S W) (literals : Literals) (fuel : ℕ) (m : Bytes) where
  -- The loop of `command_echo`, over the arguments.
  unfoldable pub echo_all : List ℕ → S → S
  echo_all [] s = s
  echo_all (a ∷ argv) s = echo_all argv (console.print_text " " (console.print m a s))

  unfoldable pub command_echo : List ℕ → S → S
  unfolding echo_all
  command_echo [] s = s
  command_echo (a ∷ argv) s = echo_all argv s

  -- One of the three tests for a colour.
  unfoldable pub paint_if : ℕ → ℕ → ℕ → W → S → Option S
  paint_if argument literal color window s =
      if_same fuel m argument literal (some (console.paint window color s)) (some s)

  unfoldable pub color_window : ℕ → W → S → Option S
  unfolding paint_if
  color_window argument window s = elim (paint_if argument literals.red 0xffff0000 window s) [
    | none ↦ none
    | some s₁ ↦ elim (paint_if argument literals.green 0xff00ff00 window s₁) [
      | none ↦ none
      | some s₂ ↦ paint_if argument literals.blue 0xff0000ff window s₂
    ]
  ]

  unfoldable pub command_window_color : List ℕ → S → Option S
  unfolding color_window
  command_window_color (name ∷ id ∷ argument ∷ []) s = elim (strtoi fuel m id) [
    | none ↦ none
    | some n ↦ elim (console.get_from_id (to_size n) s) [
      | none ↦ some s
      | some window ↦ color_window argument window s
    ]
  ]
  command_window_color argv s =
      some
        (console.print_text "\n" (console.print_text "Usage: windowcolor <id> <red/green/blue>" s))

  unfoldable pub dispatch : List ℕ → S → Option S
  unfolding command_echo command_window_color
  dispatch [] s = some s
  dispatch (name ∷ argv) s =
      if_same fuel m name literals.echo (some (command_echo (name ∷ argv) s)) (
        if_same fuel m name literals.clear (some (console.clear s)) (
          if_same fuel m name literals.window (some (console.make_window s)) (
            if_same fuel m name literals.windowcolor (command_window_color (name ∷ argv) s) (
              some (
                console.print_text "\n"
                  (console.print m name (console.print_text "Unknown command: " s)))))))

unfoldable pub parse_command :
    {S W : Type 0} → Console S W → Literals → ℕ → Bytes → ℕ → S → Option (Bytes × S)
unfolding tokenize dispatch
parse_command console literals fuel m args s = elim (tokenize fuel fuel m args []) [
  | none ↦ none
  | some (m', argv) ↦ elim (dispatch console literals fuel m' argv s) [
    | none ↦ none
    | some s' ↦ some (m', s')
  ]
]
