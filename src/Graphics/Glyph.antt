-- ===== src/Graphics/Glyph.antt =====
-- A character paints the pixels whose bit is set in its sixteen bytes of the font.
pub mod Row
use ryanos.Prelude.{
  ℕ, zero, suc, ◌+◌, ◌-◌, ◌*◌, ◌^◌, ◌<◌, ◌≤◌, ◌≡◌, refl, sym, ap, ◌∙◌, Bool, true, false, arith,
  ltb, leb, ◌&&◌, ◌==◌, not, if◌then◌else◌, ◌⊎◌, inl, inr, Bool-cases, read32, u32, u64, sub64,
  bit_and, ◌>>>◌,
}
use ryanos.Prelude.Int.{pos, to_size}
use mathlib.Core.Path.{subst}
use ryanos.Memory.Bytes.{Bytes}
use ryanos.Graphics.{Graphics, store32, draw_pixel, draw_line_of, draw_lines, rounds, draw_char}
use ryanos.Graphics.Surface.{pixel_at, later_row, surface, IsSurface, narrow}
use ryanos.Graphics.Pixel.{pixel-store32, draw_pixel_lem}
use ryanos.Graphics.Glyph.Row.{lit, OffSurface, line_lem, line_off}

-- The pixel is one of the rows from `first` below `last` and lit in the font's rows.
abbrev pub shown : ℕ → ℕ → (ℕ → ℕ) → ℕ → ℕ → ℕ → ℕ → Bool
shown x y font first last px py =
    leb (y + first) py
    && ltb py (y + last)
    && (leb x px && ltb px (x + 8) && lit (font (py - y)) (px - x))

module _ (g : Graphics) (s : IsSurface g) where
  next_row :
      (x y row left px py old new line : ℕ) (font : ℕ → ℕ)
      → line ≡ font row
      → new ≡ (
          if (py == y + row) && (leb (x + 0) px && ltb px (x + 0 + 8) && lit line (px - x))
          then g.color
          else old)
      → (if shown x y font (row + 1) (row + 1 + left) px py then g.color else new)
        ≡ (if shown x y font row (row + suc left) px py then g.color else old)
  next_row x y row left px py old new line font same drawn = elim (Bool-cases (py == y + row)) [
    | inl here ↦
        let e : py - y ≡ row = ground arith in
        let bits : lit line (px - x) ≡ lit (font (py - y)) (px - x) =
          ap (λ (l : ℕ). lit l (px - x)) (same ∙ ap font (sym e)) in
        ground (arith, drawn, bits)
    | inr away ↦ ground (arith, drawn)
  ]

  lines_lem :
      (x y left row font_ptr : ℕ) (font : ℕ → ℕ) (m : Bytes) (px py : ℕ)
      → x + 8 ≤ g.fb_width
      → y + row + left ≤ g.fb_height + 1
      → font_ptr + left < 2 ^ 64
      → ((j : ℕ) → j < left → m (font_ptr + j) ≡ font (row + j))
      → ((j : ℕ) → j < left → OffSurface g (font_ptr + j))
      → px < g.fb_pps
      → read32 (draw_lines g font_ptr x y 8 left row m) (pixel_at (surface g) g.fb_pps px py) ≡ (
          if shown x y font row (row + left) px py
          then g.color
          else read32 m (pixel_at (surface g) g.fb_pps px py))
  unfolding draw_lines
  lines_lem x y zero row font_ptr font m px py right low fits read off inside =
      let nowhere : shown x y font row (row + 0) px py ≡ false = ground arith in rw nowhere refl
  lines_lem x y (suc left) row font_ptr font m px py right low fits read off inside =
      let m₁ = draw_line_of g (m font_ptr) x (y + row) 8 0 m in
      let next : u64 (font_ptr + 1) ≡ font_ptr + 1 = omega arith in
      let here : m font_ptr ≡ font row =
        ap m (omega arith) ∙ read 0 (omega arith) ∙ ap font (omega arith) in
      let line =
        line_lem g s x (y + row) right 8 0 (m font_ptr) m px py (omega arith) (omega arith)
          inside in
      rw next (
        lines_lem x y left (row + 1) (font_ptr + 1) font m₁ px py right (omega arith) (omega arith)
          later off' inside
        ∙ next_row x y row left px py (read32 m (pixel_at (surface g) g.fb_pps px py))
            (read32 m₁ (pixel_at (surface g) g.fb_pps px py)) (m font_ptr) font here line)
    where
      off' : (j : ℕ) → j < left → OffSurface g (font_ptr + 1 + j)
      off' j h =
          subst (OffSurface g) (let e : font_ptr + suc j ≡ font_ptr + 1 + j = omega arith in e)
            (off (suc j) (omega arith))

      later :
          (j : ℕ)
          → j < left
          → draw_line_of g (m font_ptr) x (y + row) 8 0 m (font_ptr + 1 + j) ≡ font (row + 1 + j)
      later j h =
          let e : font_ptr + 1 + j ≡ font_ptr + suc j = omega arith in
          let e' : row + suc j ≡ row + 1 + j = omega arith in
          line_off g s x (y + row) right 8 0 (m font_ptr) m (font_ptr + 1 + j) (omega arith)
            (omega arith) (off' j h)
          ∙ ap m e
          ∙ read (suc j) (omega arith)
          ∙ ap font e'

  -- For an ASCII character whose sixteen bytes of the font lie off the surface, at a place on the screen: a pixel of
  -- the surface has the colour if it is in the box of 8 by 16 and its bit is set, and is as before otherwise.
  pub draw_char_lem :
      (glyph_buffer charsize x y character : ℕ) (m : Bytes) (px py : ℕ)
      → character < 128
      → x + 8 ≤ g.fb_width
      → y + 16 ≤ g.fb_height
      → y < 2 ^ 32
      → glyph_buffer + character * charsize + 16 < 2 ^ 64
      → ((j : ℕ) → j < 16 → OffSurface g (glyph_buffer + character * charsize + j))
      → px < g.fb_pps
      → read32
          (draw_char g glyph_buffer charsize (record { x = pos x; y = pos y }) character m)
          (pixel_at (surface g) g.fb_pps px py)
        ≡ (if shown x y (λ j. m (glyph_buffer + character * charsize + j)) 0 16 px py
            then g.color
            else read32 m (pixel_at (surface g) g.fb_pps px py))
  unfolding draw_char rounds to_size
  draw_char_lem glyph_buffer charsize x y character m px py ascii right low small_y fits off
        inside =
      let first : ltb character 128 ≡ true = ground arith in
      let ptr : u64 (glyph_buffer + sub64 (character * charsize) 0)
          ≡ glyph_buffer + character * charsize =
        omega arith in
      let ex : u32 x ≡ x = omega (arith, narrow g s) in
      let ey : u32 y ≡ y = omega arith in
      rw (draw_char, first, ptr, ex, ey)
        (lines_lem x y 16 0 (glyph_buffer + character * charsize)
          (λ j. m (glyph_buffer + character * charsize + j)) m px py right (omega arith) fits
          (λ j h. ap m (omega arith)) off inside)
