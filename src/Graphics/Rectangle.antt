-- ===== src/Graphics/Rectangle.antt =====
-- A rectangle paints its own pixels and no other.
use ryanos.Prelude.{
  ℕ, zero, suc, ◌+◌, ◌-◌, ◌*◌, ◌^◌, ◌<◌, ◌≤◌, ◌≡◌, refl, sym, ap, ◌∙◌, Bool, true, false, arith,
  ltb, leb, ◌&&◌, ◌||◌, sub64, if◌then◌else◌, ◌⊎◌, inl, inr, Bool-cases, read32, u32, u64,
}
use ryanos.Prelude.Int.{pos, to_size}
use mathlib.Core.Path.{subst}
use ryanos.Memory.Bytes.{Bytes, memset}
use ryanos.Graphics.{Graphics, exceeds, is_negative, word_at, fill_rows, draw_rect}
use ryanos.Graphics.Pixels.{read32-memset, memset-apart}
use ryanos.Graphics.Surface.{pixel_at, later_row, surface, IsSurface, rows-le, narrow}

-- The pixel lies in the columns from `x₁` below `x₂` and in the rows from `y₁` below `y₂`.
abbrev pub in_rect : ℕ → ℕ → ℕ → ℕ → ℕ → ℕ → Bool
in_rect x₁ y₁ x₂ y₂ x y = leb x₁ x && ltb x x₂ && leb y₁ y && ltb y y₂

module _ (pix_ptr pps x₁ x₂ color : ℕ) (ordered : x₁ ≤ x₂) (wide : x₂ ≤ pps)
    (small : color < 2 ^ 32) where
  row_lem :
      (y' x y : ℕ) (m : Bytes)
      → x < pps
      → read32
          (memset (pixel_at pix_ptr pps x₁ y') color ((x₂ - x₁) * 4) m)
          (pixel_at pix_ptr pps x y)
        ≡ (if in_rect x₁ y' x₂ (suc y') x y then color else read32 m (pixel_at pix_ptr pps x y))
  row_lem y' x y m inside = elim (Bool-cases (in_rect x₁ y' x₂ (suc y') x y)) [
    | inl within ↦
        let same : y ≡ y' = ground arith in
        let e : pixel_at pix_ptr pps x y ≡ pixel_at pix_ptr pps x₁ y' + (x - x₁) * 4 =
          ap (pixel_at pix_ptr pps x) same ∙ shift within in
        rw within (
          ap (read32 (memset (pixel_at pix_ptr pps x₁ y') color ((x₂ - x₁) * 4) m)) e
          ∙ read32-memset (pixel_at pix_ptr pps x₁ y') (x - x₁) (x₂ - x₁) color m small
              (ground arith))
    | inr out ↦ rw out (
        memset-apart (pixel_at pix_ptr pps x₁ y') ((x₂ - x₁) * 4) (pixel_at pix_ptr pps x y) color m
          small (away out))
  ]
    where
      shift :
          in_rect x₁ y' x₂ (suc y') x y ≡ true
          → pixel_at pix_ptr pps x y' ≡ pixel_at pix_ptr pps x₁ y' + (x - x₁) * 4
      shift within = ground arith

      away :
          in_rect x₁ y' x₂ (suc y') x y ≡ false
          → (pixel_at pix_ptr pps x₁ y' + (x₂ - x₁) * 4 ≤ pixel_at pix_ptr pps x y)
            ⊎ (pixel_at pix_ptr pps x y + 4 ≤ pixel_at pix_ptr pps x₁ y')
      away out = elim (Bool-cases (ltb y y')) [
        | inl above ↦ inr (omega (arith, later_row y y' pps (ground arith)))
        | inr not_above ↦ elim (Bool-cases (ltb y' y)) [
          | inl below ↦ inl (omega (arith, later_row y' y pps (ground arith)))
          | inr not_below ↦
              let same : y ≡ y' = ground arith in
              let rows : y * pps ≡ y' * pps = ap (λ (r : ℕ). r * pps) same in
              elim (Bool-cases (ltb x x₁)) [
                | inl before ↦ inr (ground (arith, rows))
                | inr not_before ↦
                    let after : x₂ ≤ x = ground arith in inl (omega (arith, rows, after, ordered))
              ]
        ]
      ]

  word_at_lem :
      (y' left : ℕ)
      → (y' + suc left) * pps < 2 ^ 32
      → pix_ptr + (y' + suc left) * pps * 4 < 2 ^ 64
      → word_at (word_at pix_ptr (u32 (y' * pps))) x₁ ≡ pixel_at pix_ptr pps x₁ y'
  unfolding word_at
  word_at_lem y' left few fits =
      let later = later_row y' (y' + suc left) pps (omega arith) in
      let rows : y' * pps < 2 ^ 32 = omega (arith, later, few) in omega (arith, later, rows)

  fill_rows_lem :
      (left y' x y : ℕ) (m : Bytes)
      → x < pps
      → (y' + left) * pps < 2 ^ 32
      → pix_ptr + (y' + left) * pps * 4 < 2 ^ 64
      → read32 (fill_rows left y' pix_ptr pps x₁ ((x₂ - x₁) * 4) color m) (pixel_at pix_ptr pps x y)
        ≡ (if in_rect x₁ y' x₂ (y' + left) x y then color else read32 m (pixel_at pix_ptr pps x y))
  unfolding fill_rows
  fill_rows_lem zero y' x y m inside few fits =
      let none_in : in_rect x₁ y' x₂ (y' + 0) x y ≡ false = ground arith in rw none_in refl
  fill_rows_lem (suc left) y' x y m inside few fits =
      let m₁ = memset (word_at (word_at pix_ptr (u32 (y' * pps))) x₁) color ((x₂ - x₁) * 4) m in
      let next : y' + 1 + left ≡ y' + suc left = omega arith in
      let row =
        ap (λ (a : ℕ). read32 (memset a color ((x₂ - x₁) * 4) m) (pixel_at pix_ptr pps x y))
          (word_at_lem y' left few fits)
        ∙ row_lem y' x y m inside in
      fill_rows_lem left (y' + 1) x y m₁ inside (subst (λ (r : ℕ). r * pps < 2 ^ 32) (sym next) few)
        (subst (λ (r : ℕ). pix_ptr + r * pps * 4 < 2 ^ 64) (sym next) fits)
      ∙ elim (Bool-cases (in_rect x₁ (y' + 1) x₂ (y' + 1 + left) x y)) [
        | inl later ↦
            let all : in_rect x₁ y' x₂ (y' + suc left) x y ≡ true = ground arith in
            rw (later, all) refl
        | inr not_later ↦ elim (Bool-cases (in_rect x₁ y' x₂ (suc y') x y)) [
          | inl now ↦
              let all : in_rect x₁ y' x₂ (y' + suc left) x y ≡ true = ground arith in
              rw (not_later, all) (row ∙ rw now refl)
          | inr not_now ↦
              let all : in_rect x₁ y' x₂ (y' + suc left) x y ≡ false = ground arith in
              rw (not_later, all) (row ∙ rw not_now refl)
        ]
      ]

module _ (g : Graphics) (s : IsSurface g) where
  draw_rect-fill_rows :
      (x₁ y₁ x₂ y₂ : ℕ) (m : Bytes)
      → x₁ ≤ x₂
      → x₂ ≤ g.fb_width
      → y₁ ≤ g.fb_height
      → y₂ ≤ g.fb_height
      → draw_rect g (record { x = pos x₁; y = pos y₁ }) (record { x = pos x₂; y = pos y₂ }) m
        ≡ fill_rows (y₂ - y₁) y₁ (surface g) g.fb_pps x₁ ((x₂ - x₁) * 4) g.color m
  unfolding draw_rect exceeds is_negative to_size
  draw_rect-fill_rows x₁ y₁ x₂ y₂ m ordered right low₁ low₂ =
      let c₁ : (ltb g.fb_width x₁ || ltb g.fb_height y₁) ≡ false = ground arith in
      let c₂ : (ltb g.fb_width x₂ || ltb g.fb_height y₂) ≡ false = ground arith in
      let size : u64 (sub64 x₂ x₁ * 4) ≡ (x₂ - x₁) * 4 = omega (arith, narrow g s) in
      rw (c₁, c₂, size) refl

  -- For two corners on the screen, the first one not right of the second: a pixel of the surface has the colour
  -- if it is in the rectangle, and is as before otherwise.
  pub draw_rect_lem :
      (x₁ y₁ x₂ y₂ : ℕ) (m : Bytes) (x y : ℕ)
      → x₁ ≤ x₂
      → x₂ ≤ g.fb_width
      → y₁ ≤ g.fb_height
      → y₂ ≤ g.fb_height
      → x < g.fb_pps
      → read32
          (draw_rect g (record { x = pos x₁; y = pos y₁ }) (record { x = pos x₂; y = pos y₂ }) m)
          (pixel_at (surface g) g.fb_pps x y)
        ≡ (if in_rect x₁ y₁ x₂ y₂ x y
            then g.color
            else read32 m (pixel_at (surface g) g.fb_pps x y))
  draw_rect_lem x₁ y₁ x₂ y₂ m x y ordered right low₁ low₂ inside =
      let below = rows-le g s (y₁ + (y₂ - y₁)) (omega arith) in
      let same : in_rect x₁ y₁ x₂ (y₁ + (y₂ - y₁)) x y ≡ in_rect x₁ y₁ x₂ y₂ x y = ground arith in
      ap (λ (m' : Bytes). read32 m' (pixel_at (surface g) g.fb_pps x y))
        (draw_rect-fill_rows x₁ y₁ x₂ y₂ m ordered right low₁ low₂)
      ∙ fill_rows_lem (surface g) g.fb_pps x₁ x₂ g.color ordered (omega (arith, s.wide))
          s.color_fits (y₂ - y₁) y₁ x y m inside (omega (arith, below, s.few))
          (omega (arith, below, s.fits))
      ∙ ap (λ (b : Bool). if b then g.color else read32 m (pixel_at (surface g) g.fb_pps x y)) same
