-- ===== src/Graphics/Glyph/Row.antt =====
-- One row of a character.
use ryanos.Prelude.{
  ℕ, zero, suc, ◌+◌, ◌-◌, ◌*◌, ◌<◌, ◌≤◌, ◌≡◌, refl, ap, ◌∙◌, Bool, true, false, arith, ltb, leb,
  ◌&&◌, ◌==◌, not, if◌then◌else◌, ◌⊎◌, inl, inr, Bool-cases, read32, bit_and, ◌>>>◌,
}
use ryanos.Prelude.Int.{pos}
use ryanos.Memory.Bytes.{Bytes}
use ryanos.Graphics.{Graphics, store32, draw_pixel, draw_line_of}
use ryanos.Graphics.Surface.{pixel_at, later_row, surface, IsSurface}
use ryanos.Graphics.Pixel.{pixel-store32, draw_pixel_lem}

-- Bit `column` of a row of a character, the highest one first.
abbrev pub lit : ℕ → ℕ → Bool
lit line column = not (bit_and line (0b10000000 >>> column) == 0)

-- The byte is none of the surface's, nor of the row behind it.
abbrev pub OffSurface : Graphics → ℕ → Type 0
OffSurface g a = (suc a ≤ surface g) ⊎ (surface g + (g.fb_height + 1) * g.fb_pps * 4 ≤ a)

module _ (g : Graphics) (s : IsSurface g) where
  draw_pixel-off :
      (x y : ℕ) (m : Bytes) (a : ℕ)
      → x ≤ g.fb_width
      → y ≤ g.fb_height
      → x < g.fb_pps
      → OffSurface g a
      → draw_pixel g (record { x = pos x; y = pos y }) m a ≡ m a
  unfolding store32
  draw_pixel-off x y m a right low inside off =
      let row = later_row y (g.fb_height + 1) g.fb_pps (omega arith) in
      ap (λ (m' : Bytes). m' a) (pixel-store32 g s x y m right low inside)
      ∙ ground (arith, row, off)

  module _ (x y : ℕ) (right : x + 8 ≤ g.fb_width) where
    -- The pixel of a column that is lit, and one that is not.
    step :
        (column left line px py old new : ℕ)
        → (lit line column ≡ true)
        → new ≡ (if (x + column == px) && (y == py) then g.color else old)
        → (if (py == y)
              && (leb (x + (column + 1)) px
                  && ltb px (x + (column + 1) + left)
                  && lit line (px - x))
            then g.color
            else new)
          ≡ (if (py == y)
                && (leb (x + column) px && ltb px (x + column + suc left) && lit line (px - x))
              then g.color
              else old)
    step column left line px py old new on drawn = elim (Bool-cases (x + column == px)) [
      | inl here ↦
          let e : px - x ≡ column = ground arith in
          let shown : lit line (px - x) ≡ true = ap (lit line) e ∙ on in
          ground (arith, drawn, shown)
      | inr away ↦ ground (arith, drawn)
    ]

    skip :
        (column left line px py old : ℕ)
        → (lit line column ≡ false)
        → (if (py == y)
              && (leb (x + (column + 1)) px
                  && ltb px (x + (column + 1) + left)
                  && lit line (px - x))
            then g.color
            else old)
          ≡ (if (py == y)
                && (leb (x + column) px && ltb px (x + column + suc left) && lit line (px - x))
              then g.color
              else old)
    skip column left line px py old dark = elim (Bool-cases (x + column == px)) [
      | inl here ↦
          let e : px - x ≡ column = ground arith in
          let hidden : lit line (px - x) ≡ false = ap (lit line) e ∙ dark in ground (arith, hidden)
      | inr away ↦ ground arith
    ]

    -- What a row has painted after the columns from `column` below `column + left`.
    pub line_lem :
        (left column line : ℕ) (m : Bytes) (px py : ℕ)
        → y ≤ g.fb_height
        → column + left ≤ 8
        → px < g.fb_pps
        → read32 (draw_line_of g line x y left column m) (pixel_at (surface g) g.fb_pps px py) ≡ (
            if (py == y) && (leb (x + column) px && ltb px (x + column + left) && lit line (px - x))
            then g.color
            else read32 m (pixel_at (surface g) g.fb_pps px py))
    unfolding draw_line_of
    line_lem zero column line m px py low few inside =
        let nowhere : ((py == y)
              && (leb (x + column) px && ltb px (x + column + 0) && lit line (px - x)))
            ≡ false =
          ground arith in
        rw nowhere refl
    line_lem (suc left) column line m px py low few inside =
        let m₁ = draw_pixel g (record { x = pos (x + column); y = pos y }) m in
        let drawn =
          draw_pixel_lem g s (x + column) y m px py (omega arith) low (omega (arith, s.wide))
            inside in
        elim (Bool-cases (lit line column)) [
          | inl on ↦
              rw (draw_line_of, on)
                (line_lem left (column + 1) line m₁ px py low (omega arith) inside
                  ∙ step column left line px py (read32 m (pixel_at (surface g) g.fb_pps px py))
                      (read32 m₁ (pixel_at (surface g) g.fb_pps px py)) on drawn)
          | inr dark ↦
              rw (draw_line_of, dark)
                (line_lem left (column + 1) line m px py low (omega arith) inside
                  ∙ skip column left line px py (read32 m (pixel_at (surface g) g.fb_pps px py))
                      dark)
        ]

    pub line_off :
        (left column line : ℕ) (m : Bytes) (a : ℕ)
        → y ≤ g.fb_height
        → column + left ≤ 8
        → OffSurface g a
        → draw_line_of g line x y left column m a ≡ m a
    unfolding draw_line_of
    line_off zero column line m a low few off = refl
    line_off (suc left) column line m a low few off =
        let rest = line_off left (column + 1) line in
        elim (Bool-cases (lit line column)) [
          | inl on ↦
              rw (draw_line_of, on)
                (rest (draw_pixel g (record { x = pos (x + column); y = pos y }) m) a low
                    (omega arith) off
                  ∙ draw_pixel-off (x + column) y m a (omega arith) low (omega (arith, s.wide)) off)
          | inr dark ↦ rw (draw_line_of, dark) (rest m a low (omega arith) off)
        ]
