-- ===== src/Graphics.antt =====
-- graphics/graphics.cpp: pixels, rectangles and characters, on the bytes of the memory. A pixel is 32
-- bits; the surface is the framebuffer, or the back buffer where `direct_write` is false.
pub mod Pixels
pub mod Surface
pub mod Pixel
pub mod Rectangle
pub mod Glyph
pub mod Canvas
mod Tests
use ryanos.Prelude.{
  ℕ, zero, suc, ◌+◌, ◌-◌, ◌*◌, ◌/◌, ◌%◌, ◌^◌, Bool, true, false, List, [], ◌∷◌, ltb, leb, ◌&&◌,
  ◌||◌, not, if◌then◌else◌, u32, u64, sub64, ◌==◌, bit_and, ◌>>>◌,
}
use ryanos.Prelude.Int.{ℤ, pos, negsuc, to_size}
use ryanos.Memory.Bytes.{Bytes, byte, within, memset, memcopy}

pub record Point : Type 0 where
  pub x : ℤ
  pub y : ℤ

-- `Graphics` with its framebuffer, whose fields have the prefix `fb`.
pub record Graphics : Type 0 where
  pub color : ℕ
  pub pps : ℕ
  pub direct_write : Bool
  pub backbuffer : ℕ
  pub fb_base_address : ℕ
  pub fb_buffer_size : ℕ
  pub fb_width : ℕ
  pub fb_height : ℕ
  pub fb_pps : ℕ

-- `n > bound` and `n < 0`
unfoldable pub exceeds : ℤ → ℕ → Bool
exceeds (pos n) bound = ltb bound n
exceeds (negsuc n) bound = false

unfoldable pub is_negative : ℤ → Bool
is_negative (pos n) = false
is_negative (negsuc n) = true

-- The store of a 32-bit word.
unfoldable pub store32 : ℕ → ℕ → Bytes → Bytes
unfolding byte
store32 a v m b = if within a 4 b then byte v (b - a) else m b

-- `pointer + index` for a pointer to 32-bit words.
unfoldable pub word_at : ℕ → ℕ → ℕ
word_at pointer index = u64 (pointer + u64 (index * 4))

unfoldable pub draw_pixel : Graphics → Point → Bytes → Bytes
unfolding exceeds store32 word_at
draw_pixel g point m =
    let x = to_size point.x in
    let y = to_size point.y in
    if exceeds point.x g.fb_width || exceeds point.y g.fb_height
    then m
    else if g.direct_write
    then store32 (word_at g.fb_base_address (u64 (x + y * g.fb_pps))) g.color m
    else store32 (word_at g.backbuffer (u64 (y * g.pps + x))) g.color m

-- The rows of a rectangle from row `y` on.
unfoldable pub fill_rows : ℕ → ℕ → ℕ → ℕ → ℕ → ℕ → ℕ → Bytes → Bytes
unfolding word_at
fill_rows zero y pix_ptr fb_pps x row_size color m = m
fill_rows (suc left) y pix_ptr fb_pps x row_size color m =
    fill_rows left (y + 1) pix_ptr fb_pps x row_size color
      (memset (word_at (word_at pix_ptr (u32 (y * fb_pps))) x) color row_size m)

unfoldable pub draw_rect : Graphics → Point → Point → Bytes → Bytes
unfolding exceeds is_negative fill_rows
draw_rect g point1 point2 m =
    let x₁ = to_size point1.x in
    let y₁ = to_size point1.y in
    let x₂ = to_size point2.x in
    let y₂ = to_size point2.y in
    let pix_ptr = if g.direct_write then g.fb_base_address else g.backbuffer in
    let row_size = u64 (sub64 x₂ x₁ * 4) in
    if exceeds point1.x g.fb_width || exceeds point1.y g.fb_height
    then m
    else if exceeds point2.x g.fb_width || exceeds point2.y g.fb_height
    then m
    else if is_negative point1.x || is_negative point1.y
    then m
    else if is_negative point2.x || is_negative point2.y
    then m
    else fill_rows (y₂ - y₁) y₁ pix_ptr g.fb_pps x₁ row_size g.color m

unfoldable pub clear_screen : Graphics → Bytes → Bytes
clear_screen g m =
    if g.direct_write
    then memset g.fb_base_address g.color g.fb_buffer_size m
    else memset g.backbuffer g.color g.fb_buffer_size m

-- A row of a character from column `column` on: `line` is the byte of the font.
unfoldable pub draw_line_of : Graphics → ℕ → ℕ → ℕ → ℕ → ℕ → Bytes → Bytes
unfolding draw_pixel
draw_line_of g line x y zero column m = m
draw_line_of g line x y (suc left) column m = draw_line_of g line x y left (column + 1) (
    if not (bit_and line (0b10000000 >>> column) == 0)
    then draw_pixel g (record { x = pos (x + column); y = pos y }) m
    else m)

-- The rows of a character from row `row` on, `font_ptr` being the address of the first one's byte.
unfoldable pub draw_lines : Graphics → ℕ → ℕ → ℕ → ℕ → ℕ → ℕ → Bytes → Bytes
unfolding draw_line_of
draw_lines g font_ptr x y columns zero row m = m
draw_lines g font_ptr x y columns (suc left) row m =
    draw_lines g (u64 (font_ptr + 1)) x y columns left (row + 1)
      (draw_line_of g (m font_ptr) x (y + row) columns 0 m)

-- How often a loop from `(unsigned) from` below `from + n` runs: never for a is_negative start.
unfoldable pub rounds : ℤ → ℕ → ℕ
rounds (pos from) n = n
rounds (negsuc from) n = 0

-- `character` is the byte of a signed char, and the font has `charsize` bytes for each character.
unfoldable pub draw_char : Graphics → ℕ → ℕ → Point → ℕ → Bytes → Bytes
unfolding draw_lines rounds
draw_char g glyph_buffer charsize point character m =
    let index = sub64 (character * charsize) (if ltb character 128 then 0 else 256 * charsize) in
    let font_ptr = u64 (glyph_buffer + index) in
    draw_lines g font_ptr (u32 (to_size point.x)) (u32 (to_size point.y)) (rounds point.x 8)
      (rounds point.y 16) 0 m

unfoldable pub moved_right : ℤ → ℕ → ℤ
moved_right (pos x) n = pos (x + n)
moved_right (negsuc x) n = if ltb x n then pos (n - suc x) else negsuc (x - n)

-- Character `n` of the string and those behind it.
unfoldable pub draw_string_from : Graphics → ℕ → ℕ → Point → List ℕ → ℕ → Bytes → Bytes
unfolding draw_char moved_right
draw_string_from g glyph_buffer charsize point [] n m = m
draw_string_from g glyph_buffer charsize point (chr ∷ str) n m =
    draw_string_from g glyph_buffer charsize point str (n + 1)
      (draw_char g glyph_buffer charsize (record point { x = moved_right point.x (8 * n) }) chr m)

unfoldable pub swap : Graphics → Bytes → Bytes
swap g m = if g.direct_write then m else memcopy g.fb_base_address g.backbuffer g.fb_buffer_size m
