-- ===== src/Graphics/Tests.antt =====
-- A screen of 40 by 20 pixels in rows of 64, drawn through the back buffer.
use ryanos.Prelude.{
  ◌-◌, ℕ, inl, ltb, ◌+◌, ◌*◌, ◌<◌, ◌≡◌, false, arith, if◌then◌else◌, read32, ◌==◌, ◌&&◌,
}
use ryanos.Prelude.Int.{pos}
use ryanos.Memory.Bytes.{Bytes}
use ryanos.Graphics.{Graphics, draw_rect, draw_pixel, draw_char}
use ryanos.Graphics.Surface.{pixel_at, surface, IsSurface}
use ryanos.Graphics.Rectangle.{in_rect, draw_rect_lem}
use ryanos.Graphics.Pixel.{draw_pixel_lem}
use ryanos.Graphics.Canvas.{render, render_lem}
use ryanos.Graphics.Glyph.{shown, draw_char_lem}
use ryanos.Graphics.Glyph.Row.{OffSurface}

abbrev small_screen : Graphics
small_screen = record {
  color = 0xFFAA5500;
  pps = 64;
  direct_write = false;
  backbuffer = 0x100000;
  fb_base_address = 0x80000000;
  fb_buffer_size = 5120;
  fb_width = 40;
  fb_height = 20;
  fb_pps = 64;
}

small_screen-IsSurface : IsSurface small_screen
small_screen-IsSurface = record {
  wide = omega arith;
  few = omega arith;
  fits = omega arith;
  same_pps = omega arith;
  color_fits = omega arith;
}

abbrev black : Bytes
black a = 0

draw_rect_lem_example :
    read32
      (draw_rect small_screen
        (record { x = pos 3; y = pos 4 })
        (record { x = pos 30; y = pos 9 })
        black)
      (pixel_at (surface small_screen) 64 29 8)
    ≡ (if in_rect 3 4 30 9 29 8
        then 0xFFAA5500
        else read32 black (pixel_at (surface small_screen) 64 29 8))
draw_rect_lem_example =
    draw_rect_lem small_screen small_screen-IsSurface 3 4 30 9 black 29 8 (omega arith)
      (omega arith) (omega arith) (omega arith) (omega arith)

-- The row behind the last one is written to.
row_behind_painted :
    read32
      (draw_pixel small_screen (record { x = pos 7; y = pos 20 }) black)
      (pixel_at (surface small_screen) 64 7 20)
    ≡ (if (7 == 7) && (20 == 20)
        then 0xFFAA5500
        else read32 black (pixel_at (surface small_screen) 64 7 20))
row_behind_painted =
    draw_pixel_lem small_screen small_screen-IsSurface 7 20 black 7 20 (omega arith) (omega arith)
      (omega arith) (omega arith)

-- The letter 'A' in a font of the bytes 0x81.
abbrev stripes : Bytes
stripes a = if ltb a 0x3000 then 0x81 else 0

stripes-off : (j : ℕ) → j < 16 → OffSurface small_screen (0x1000 + 65 * 16 + j)
stripes-off j h = inl (omega arith)

draw_char_lem_example :
    read32
      (draw_char small_screen 0x1000 16 (record { x = pos 8; y = pos 4 }) 65 stripes)
      (pixel_at (surface small_screen) 64 15 19)
    ≡ (if shown 8 4 (λ j. stripes (0x1000 + 65 * 16 + j)) 0 16 15 19
        then 0xFFAA5500
        else read32 stripes (pixel_at (surface small_screen) 64 15 19))
draw_char_lem_example =
    draw_char_lem small_screen small_screen-IsSurface 0x1000 16 8 4 65 stripes 15 19 (omega arith)
      (omega arith) (omega arith) (omega arith) (omega arith) stripes-off (omega arith)

-- A canvas of 5 by 3 pixels at column 7 of row 2.
render_lem_example :
    read32 (render 3 0x100000 64 7 2 0x300000 5 stripes) (pixel_at 0x100000 64 11 4) ≡ (
      if in_rect 7 2 (7 + 5) (2 + 3) 11 4
      then read32 stripes (pixel_at 0x300000 5 (11 - 7) (4 - 2))
      else read32 stripes (pixel_at 0x100000 64 11 4))
render_lem_example =
    render_lem 0x100000 64 7 2 0x300000 5 3 (omega arith) (omega arith) (omega arith) (omega arith)
      (inl (omega arith)) 11 4 stripes (omega arith)
