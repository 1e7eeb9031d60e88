-- ===== src/Graphics/Pixel.antt =====
-- One pixel that is drawn.
use ryanos.Prelude.{
  ℕ, ◌+◌, ◌*◌, ◌<◌, ◌≤◌, ◌≡◌, refl, ap, ◌∙◌, false, arith, ltb, ◌&&◌, ◌||◌, ◌==◌, if◌then◌else◌,
  inl, inr, Bool-cases, read32, u64,
}
use ryanos.Prelude.Int.{pos, to_size}
use mathlib.Core.Path.{ap₂}
use ryanos.Memory.Bytes.{Bytes}
use ryanos.Graphics.{Graphics, exceeds, word_at, draw_pixel, store32}
use ryanos.Graphics.Pixels.{read32-store32, store32-apart}
use ryanos.Graphics.Surface.{pixel_at, later_row, pixels-apart, surface, IsSurface}

module _ (g : Graphics) (s : IsSurface g) where
  pub pixel-store32 :
      (x y : ℕ) (m : Bytes)
      → x ≤ g.fb_width
      → y ≤ g.fb_height
      → x < g.fb_pps
      → draw_pixel g (record { x = pos x; y = pos y }) m
        ≡ store32 (pixel_at (surface g) g.fb_pps x y) g.color m
  unfolding draw_pixel exceeds to_size word_at
  pixel-store32 x y m right low inside =
      let c : (ltb g.fb_width x || ltb g.fb_height y) ≡ false = ground arith in
      let row = later_row y (g.fb_height + 1) g.fb_pps (omega arith) in
      let pitch : y * g.pps ≡ y * g.fb_pps = ap (λ (p : ℕ). y * p) s.same_pps in
      elim (Bool-cases g.direct_write) [
        | inl direct ↦
            let at : g.fb_base_address ≡ surface g = ground arith in
            let e : u64 (g.fb_base_address + u64 (u64 (x + y * g.fb_pps) * 4))
                ≡ pixel_at g.fb_base_address g.fb_pps x y =
              omega (arith, row, s.few, s.fits, at) in
            rw (c, direct, e) refl
        | inr buffered ↦
            let at : g.backbuffer ≡ surface g = ground arith in
            let e : u64 (g.backbuffer + u64 (u64 (y * g.pps + x) * 4))
                ≡ pixel_at g.backbuffer g.fb_pps x y =
              omega (arith, row, s.few, s.fits, at, pitch) in
            rw (c, buffered, e) refl
      ]

  -- For a pixel that the guard lets pass, which are also the ones in the column and the row behind the last: its
  -- word has the colour, and the word of every other pixel is as before.
  pub draw_pixel_lem :
      (x y : ℕ) (m : Bytes) (x' y' : ℕ)
      → x ≤ g.fb_width
      → y ≤ g.fb_height
      → x < g.fb_pps
      → x' < g.fb_pps
      → read32
          (draw_pixel g (record { x = pos x; y = pos y }) m)
          (pixel_at (surface g) g.fb_pps x' y')
        ≡ (if (x == x') && (y == y')
            then g.color
            else read32 m (pixel_at (surface g) g.fb_pps x' y'))
  draw_pixel_lem x y m x' y' right low inside inside' =
      ap (λ (m' : Bytes). read32 m' (pixel_at (surface g) g.fb_pps x' y'))
        (pixel-store32 x y m right low inside)
      ∙ elim (Bool-cases ((x == x') && (y == y'))) [
        | inl same ↦
            let e : pixel_at (surface g) g.fb_pps x' y' ≡ pixel_at (surface g) g.fb_pps x y =
              ap₂ (pixel_at (surface g) g.fb_pps) (ground arith) (ground arith) in
            rw same (
              ap (read32 (store32 (pixel_at (surface g) g.fb_pps x y) g.color m)) e
              ∙ read32-store32 (pixel_at (surface g) g.fb_pps x y) g.color m s.color_fits)
        | inr other ↦ rw other (
            store32-apart (pixel_at (surface g) g.fb_pps x y) (pixel_at (surface g) g.fb_pps x' y')
              g.color m (pixels-apart (surface g) g.fb_pps x y x' y' inside inside' other))
      ]
