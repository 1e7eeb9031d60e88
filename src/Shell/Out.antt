-- ===== src/Shell/Out.antt =====
-- shell/out.cpp: text on the canvas of the shell, with its cursor. The canvas draws into its own
-- framebuffer, which is part of the memory.
pub mod Cursor
mod Tests
use ryanos.Prelude.{
  ℕ, zero, suc, ◌+◌, ◌-◌, ◌*◌, ◌/◌, ◌%◌, ◌^◌, Bool, true, false, List, [], ◌∷◌, ltb, leb, ◌==◌,
  ◌&&◌, if◌then◌else◌,
}
use ryanos.Prelude.Int.{ℤ, pos, negsuc}
use ryanos.Memory.Bytes.{Bytes}
use ryanos.Graphics.{Graphics, Point, draw_rect, draw_char}

-- The file's globals, the canvas with its graphics and its width, the font, and the memory.
pub record Out : Type 0 where
  pub cursor_pos : Point
  pub user_begin_pos : Point
  pub out_color : ℕ
  pub gfx : Graphics
  pub size_x : ℕ
  pub glyph_buffer : ℕ
  pub charsize : ℕ
  pub memory : Bytes

-- SHELL_COLOR
abbrev pub shell_color : ℕ
shell_color = 0xFFEEEEEE

-- `v * k + c`
unfoldable pub affine : ℤ → ℕ → ℕ → ℤ
affine (pos n) k c = pos (n * k + c)
affine (negsuc n) k c =
    if leb (suc n * k) c then pos (c - suc n * k) else negsuc (suc n * k - c - 1)

unfoldable pub plus_one : ℤ → ℤ
plus_one (pos n) = pos (suc n)
plus_one (negsuc zero) = pos 0
plus_one (negsuc (suc n)) = negsuc n

unfoldable pub minus_one : ℤ → ℤ
minus_one (pos zero) = negsuc 0
minus_one (pos (suc n)) = pos n
minus_one (negsuc n) = negsuc (suc n)

-- `v <= w`, `v == w` and `v > 0`
unfoldable pub at_most : ℤ → ℤ → Bool
at_most (pos n) (pos k) = leb n k
at_most (pos n) (negsuc k) = false
at_most (negsuc n) (pos k) = true
at_most (negsuc n) (negsuc k) = leb k n

unfoldable pub equal : ℤ → ℤ → Bool
equal (pos n) (pos k) = n == k
equal (negsuc n) (negsuc k) = n == k
equal v w = false

unfoldable pub positive : ℤ → Bool
positive (pos n) = ltb 0 n
positive (negsuc n) = false

-- The cell of the cursor is cleared.
unfoldable pub clear_cell : Out → Out
unfolding affine
clear_cell o =
    let p = o.cursor_pos in
    let gfx = record o.gfx { color = shell_color } in
    record o {
      gfx = gfx;
      memory =
          draw_rect gfx (record { x = affine p.x 8 5; y = affine p.y 16 0 })
            (record { x = affine p.x 8 13; y = affine p.y 16 16 }) o.memory;
    }

-- `(cursor_pos.x * 8) + 16 > io_canvas->size.x` begins a new line.
unfoldable pub wrap : Out → Out
unfolding affine at_most plus_one
wrap o =
    if at_most (affine o.cursor_pos.x 8 16) (pos o.size_x)
    then o
    else record o { cursor_pos = record { x = pos 0; y = plus_one o.cursor_pos.y } }

-- A new line begins, or the character is drawn and the cursor moves on.
unfoldable pub place_character : ℕ → Out → Out
unfolding clear_cell affine plus_one
place_character chr o =
    let p = o.cursor_pos in
    let line = record o {
      cursor_pos = record { x = pos 0; y = plus_one p.y };
      user_begin_pos = record o.user_begin_pos { y = plus_one o.user_begin_pos.y };
    } in
    let cleared = clear_cell o in
    let gfx = record cleared.gfx { color = o.out_color } in
    let drawn = record cleared {
      gfx = gfx;
      memory =
          draw_char gfx o.glyph_buffer o.charsize
            (record { x = affine p.x 8 5; y = affine p.y 16 0 }) chr cleared.memory;
      cursor_pos = record p { x = plus_one p.x };
    } in
    if chr == 10 then line else drawn

-- One round of `print`, which is also `cprint` but for the colour.
unfoldable pub put_character : ℕ → Out → Out
unfolding place_character wrap
put_character chr o = wrap (place_character chr o)

unfoldable pub print_from : List ℕ → Out → Out
unfolding put_character
print_from [] o = o
print_from (chr ∷ str) o = print_from str (put_character chr o)

abbrev pub with_color : ℕ → Out → Out
with_color c o = record o { gfx = record o.gfx { color = c } }

unfoldable pub print : List ℕ → Out → Out
unfolding print_from
print str o = with_color o.gfx.color (print_from str o)

unfoldable pub cprint : ℕ → Out → Out
unfolding put_character
cprint chr o = with_color o.gfx.color (put_character chr o)

-- `(io_canvas->size.x - 10) / 8`, which C rounds towards 0.
unfoldable pub last_column : ℕ → ℤ
last_column size_x = if ltb size_x 3 then negsuc 0 else pos ((size_x - 10) / 8)

unfoldable pub backspace : Out → Out
unfolding at_most equal positive minus_one clear_cell last_column
backspace o =
    let p = o.cursor_pos in
    let b = o.user_begin_pos in
    let back =
      if positive p.x
      then record { x = minus_one p.x; y = p.y }
      else record { x = last_column o.size_x; y = minus_one p.y } in
    if at_most p.x b.x && equal p.y b.y
    then o
    else with_color o.gfx.color (clear_cell (record o { cursor_pos = back }))

-- `init_user` and `enter`: a new line with a prompt, behind which the user begins.
unfoldable pub init_user : Out → Out
unfolding print
init_user o =
    let o' = print (62 ∷ 32 ∷ []) (print (10 ∷ []) o) in
    record o' { user_begin_pos = o'.cursor_pos }
