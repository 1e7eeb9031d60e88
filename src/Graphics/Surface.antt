-- ===== src/Graphics/Surface.antt =====
-- The pixels of a surface: where they lie, and that no two of them share a byte.
use ryanos.Prelude.{
  ℕ, ◌+◌, ◌*◌, ◌^◌, ◌<◌, ◌≤◌, ◌≡◌, ap, false, arith, ltb, ◌&&◌, ◌==◌, if◌then◌else◌, ◌⊎◌, inl, inr,
  Bool-cases,
}
use native.Mathlib.Nat.{suc-mul, mul-le-mul_right}
use ryanos.Graphics.{Graphics}

-- The address of the pixel in column `x` of row `y`.
abbrev pub pixel_at : ℕ → ℕ → ℕ → ℕ → ℕ
pixel_at pix_ptr pps x y = pix_ptr + (y * pps + x) * 4

pub later_row : (y y' pps : ℕ) → y < y' → y * pps + pps ≤ y' * pps
later_row y y' pps h = omega (arith, mul-le-mul_right pps h, suc-mul y pps)

-- Two pixels of the surface share no byte.
pub pixels-apart :
    (base pps x y x' y' : ℕ)
    → x < pps
    → x' < pps
    → ((x == x') && (y == y')) ≡ false
    → (pixel_at base pps x y + 4 ≤ pixel_at base pps x' y')
      ⊎ (pixel_at base pps x' y' + 4 ≤ pixel_at base pps x y)
pixels-apart base pps x y x' y' inside inside' other = elim (Bool-cases (ltb y y')) [
  | inl first ↦ inl (omega (arith, later_row y y' pps (ground arith)))
  | inr not_first ↦ elim (Bool-cases (ltb y' y)) [
    | inl second ↦ inr (omega (arith, later_row y' y pps (ground arith)))
    | inr not_second ↦
        let same : y ≡ y' = ground arith in
        let rows : y * pps ≡ y' * pps = ap (λ (r : ℕ). r * pps) same in
        elim (Bool-cases (ltb x x')) [
          | inl before ↦ inl (ground (arith, rows))
          | inr not_before ↦ inr (ground (arith, rows))
        ]
  ]
]

-- Where the surface of the pixels begins.
abbrev pub surface : Graphics → ℕ
surface g = if g.direct_write then g.fb_base_address else g.backbuffer

-- The rows of the surface, and one more, lie below 2^32 pixels and 2^64 bytes; a row is as wide as the screen.
pub record IsSurface (g : Graphics) : Type 0 where
  pub wide : g.fb_width ≤ g.fb_pps
  pub few : (g.fb_height + 1) * g.fb_pps < 2 ^ 32
  pub fits : surface g + (g.fb_height + 1) * g.fb_pps * 4 < 2 ^ 64
  pub same_pps : g.pps ≡ g.fb_pps
  pub color_fits : g.color < 2 ^ 32

module _ (g : Graphics) (s : IsSurface g) where
  pub rows-le : (r : ℕ) → r ≤ g.fb_height → r * g.fb_pps ≤ (g.fb_height + 1) * g.fb_pps
  rows-le r h = mul-le-mul_right g.fb_pps (omega arith)

  pub narrow : g.fb_width < 2 ^ 32
  narrow = omega (arith, later_row 0 (g.fb_height + 1) g.fb_pps (omega arith), s.few, s.wide)
