-- ===== src/Graphics/Canvas.antt =====
-- shell/window_mgr/canvas.cpp: a canvas is copied row by row into the back buffer, at its position.
use ryanos.Prelude.{
  ℕ, zero, suc, ◌+◌, ◌-◌, ◌*◌, ◌^◌, ◌<◌, ◌≤◌, ◌≡◌, refl, sym, ap, ◌∙◌, true, false, arith, ltb,
  if◌then◌else◌, ◌⊎◌, inl, inr, Bool-cases, read32, u32, u64,
}
use ryanos.Memory.Bytes.{Bytes, memcopy}
use ryanos.Memory.Bytes.Copy.{Apart, memcopy_lem}
use ryanos.Graphics.{word_at}
use ryanos.Graphics.Pixels.{read32_ext}
use ryanos.Graphics.Surface.{pixel_at, later_row}
use ryanos.Graphics.Rectangle.{in_rect}

-- The rows from row `y` on; the canvas has as many words in a row as it is wide.
unfoldable pub copy_rows : ℕ → ℕ → ℕ → ℕ → ℕ → ℕ → ℕ → ℕ → Bytes → Bytes
unfolding word_at
copy_rows zero y bb_pix_ptr pps px py fb_pix_ptr width m = m
copy_rows (suc left) y bb_pix_ptr pps px py fb_pix_ptr width m =
    let bb_row_start = word_at (word_at bb_pix_ptr (u64 ((y + py) * pps))) px in
    let fb_row_start = word_at fb_pix_ptr (u32 (y * width)) in
    copy_rows left (y + 1) bb_pix_ptr pps px py fb_pix_ptr width
      (memcopy bb_row_start fb_row_start (u64 (width * 4)) m)

-- A word of a copy, and one that is elsewhere.
read32-memcopy :
    (dest src k n : ℕ) (m : Bytes)
    → Apart dest src (n * 4)
    → k < n
    → read32 (memcopy dest src (n * 4) m) (dest + k * 4) ≡ read32 m (src + k * 4)
read32-memcopy dest src k n m off inside =
    read32_ext (dest + k * 4) (src + k * 4) m (memcopy dest src (n * 4) m) (λ i h.
      let e : src + (dest + k * 4 + i - dest) ≡ src + k * 4 + i = omega arith in
      ground (arith, memcopy_lem dest src (n * 4) m (dest + k * 4 + i) off, ap m e))

memcopy-elsewhere :
    (dest src n b : ℕ) (m : Bytes)
    → Apart dest src n
    → (dest + n ≤ b) ⊎ (b + 4 ≤ dest)
    → read32 (memcopy dest src n m) b ≡ read32 m b
memcopy-elsewhere dest src n b m off away =
    read32_ext b b m (memcopy dest src n m)
      (λ i h. ground (arith, memcopy_lem dest src n m (b + i) off))

-- `Canvas::render` for a position on the screen.
unfoldable pub render : ℕ → ℕ → ℕ → ℕ → ℕ → ℕ → ℕ → Bytes → Bytes
unfolding copy_rows
render size_y bb_pix_ptr pps px py fb_pix_ptr width m =
    copy_rows size_y 0 bb_pix_ptr pps px py fb_pix_ptr width m

module _ (bb pps px py fb width size_y : ℕ) (wide : px + width ≤ pps)
    (fits : bb + (py + size_y) * pps * 4 < 2 ^ 64) (held : fb + size_y * width * 4 < 2 ^ 64)
    (few : size_y * width < 2 ^ 32)
    (off : (bb + (py + size_y) * pps * 4 ≤ fb) ⊎ (fb + size_y * width * 4 ≤ bb)) where
  -- Where the row `y` comes from and goes to.
  row-at :
      (y : ℕ)
      → y < size_y
      → (word_at (word_at bb (u64 ((y + py) * pps))) px ≡ pixel_at bb pps px (y + py))
        × (word_at fb (u32 (y * width)) ≡ pixel_at fb width 0 y)
        × (u64 (width * 4) ≡ width * 4)
        × Apart (pixel_at bb pps px (y + py)) (pixel_at fb width 0 y) (width * 4)
  unfolding word_at
  row-at y h =
      let to = later_row (y + py) (py + size_y) pps (omega arith) in
      let from = later_row y size_y width h in
      (
        omega (arith, to, fits, wide),
        omega (arith, from, held, few),
        omega (arith, from, held),
        ground (arith, to, from, off, wide),
      )

  row_lem :
      (y x' y' : ℕ) (m : Bytes)
      → y < size_y
      → x' < pps
      → read32
          (memcopy (pixel_at bb pps px (y + py)) (pixel_at fb width 0 y) (width * 4) m)
          (pixel_at bb pps x' y')
        ≡ (if in_rect px (y + py) (px + width) (suc (y + py)) x' y'
            then read32 m (pixel_at fb width (x' - px) (y' - py))
            else read32 m (pixel_at bb pps x' y'))
  row_lem y x' y' m h inside =
      elim (Bool-cases (in_rect px (y + py) (px + width) (suc (y + py)) x' y')) [
        | inl within ↦
            let same : y' ≡ y + py = ground arith in
            let row : y' - py ≡ y = omega arith in
            let first : pixel_at bb pps x' y' ≡ pixel_at bb pps px (y + py) + (x' - px) * 4 =
              ap (pixel_at bb pps x') same ∙ ground arith in
            let second : pixel_at fb width 0 y + (x' - px) * 4
                ≡ pixel_at fb width (x' - px) (y' - py) =
              omega arith ∙ ap (pixel_at fb width (x' - px)) (sym row) in
            rw within (
              ap
                (read32
                  (memcopy (pixel_at bb pps px (y + py)) (pixel_at fb width 0 y) (width * 4) m))
                first
              ∙ read32-memcopy (pixel_at bb pps px (y + py)) (pixel_at fb width 0 y) (x' - px) width
                  m (row-at y h).3 (ground arith)
              ∙ ap (read32 m) second)
        | inr out ↦ rw out (
            memcopy-elsewhere (pixel_at bb pps px (y + py)) (pixel_at fb width 0 y) (width * 4)
              (pixel_at bb pps x' y') m (row-at y h).3 (away out))
      ]
    where
      away :
          in_rect px (y + py) (px + width) (suc (y + py)) x' y' ≡ false
          → (pixel_at bb pps px (y + py) + width * 4 ≤ pixel_at bb pps x' y')
            ⊎ (pixel_at bb pps x' y' + 4 ≤ pixel_at bb pps px (y + py))
      away out = elim (Bool-cases (ltb y' (y + py))) [
        | inl above ↦ inr (omega (arith, later_row y' (y + py) pps (ground arith)))
        | inr not_above ↦ elim (Bool-cases (ltb (y + py) y')) [
          | inl below ↦ inl (omega (arith, wide, later_row (y + py) y' pps (ground arith)))
          | inr not_below ↦
              let same : y' ≡ y + py = ground arith in
              let rows : y' * pps ≡ (y + py) * pps = ap (λ (r : ℕ). r * pps) same in
              elim (Bool-cases (ltb x' px)) [
                | inl before ↦ inr (ground (arith, rows))
                | inr not_before ↦
                    let after : px + width ≤ x' = ground arith in inl (omega (arith, rows, after))
              ]
        ]
      ]

  -- The canvas itself is not written.
  canvas_kept :
      (y x' y' : ℕ) (m : Bytes)
      → y < size_y
      → x' < width
      → y' < size_y
      → read32
          (memcopy (pixel_at bb pps px (y + py)) (pixel_at fb width 0 y) (width * 4) m)
          (pixel_at fb width x' y')
        ≡ read32 m (pixel_at fb width x' y')
  canvas_kept y x' y' m h inside low =
      let to = later_row (y + py) (py + size_y) pps (omega arith) in
      let from = later_row y' size_y width low in
      memcopy-elsewhere (pixel_at bb pps px (y + py)) (pixel_at fb width 0 y) (width * 4)
        (pixel_at fb width x' y') m (row-at y h).3 (ground (arith, to, from, off, wide))

  copy_rows_lem :
      (left y x' y' : ℕ) (m : Bytes)
      → y + left ≡ size_y
      → x' < pps
      → read32 (copy_rows left y bb pps px py fb width m) (pixel_at bb pps x' y') ≡ (
          if in_rect px (y + py) (px + width) (py + size_y) x' y'
          then read32 m (pixel_at fb width (x' - px) (y' - py))
          else read32 m (pixel_at bb pps x' y'))
  unfolding copy_rows
  copy_rows_lem zero y x' y' m all inside =
      let nowhere : in_rect px (y + py) (px + width) (py + size_y) x' y' ≡ false = ground arith in
      rw nowhere refl
  copy_rows_lem (suc left) y x' y' m all inside =
      let h : y < size_y = omega arith in
      let (dest, src, size, apart) = row-at y h in
      let m₁ = memcopy (pixel_at bb pps px (y + py)) (pixel_at fb width 0 y) (width * 4) m in
      let row = row_lem y x' y' m h inside in
      rw (dest, src, size)
        (copy_rows_lem left (y + 1) x' y' m₁ (omega arith) inside
          ∙ elim (Bool-cases (in_rect px (y + 1 + py) (px + width) (py + size_y) x' y')) [
            | inl later ↦
                let both : in_rect px (y + py) (px + width) (py + size_y) x' y' ≡ true =
                  ground arith in
                rw (later, both)
                  (canvas_kept y (x' - px) (y' - py) m h (ground arith) (ground arith))
            | inr not_later ↦
                elim (Bool-cases (in_rect px (y + py) (px + width) (suc (y + py)) x' y')) [
                  | inl now ↦
                      let both : in_rect px (y + py) (px + width) (py + size_y) x' y' ≡ true =
                        ground arith in
                      rw (not_later, both) (row ∙ rw now refl)
                  | inr not_now ↦
                      let neither : in_rect px (y + py) (px + width) (py + size_y) x' y' ≡ false =
                        ground arith in
                      rw (not_later, neither) (row ∙ rw not_now refl)
                ]
          ])

  -- For a canvas that is within the columns of the back buffer, whose rows lie apart from the canvas and below 2^64:
  -- a pixel of the back buffer is the canvas's if the canvas covers it, and is as before otherwise.
  pub render_lem :
      (x' y' : ℕ) (m : Bytes)
      → x' < pps
      → read32 (render size_y bb pps px py fb width m) (pixel_at bb pps x' y') ≡ (
          if in_rect px py (px + width) (py + size_y) x' y'
          then read32 m (pixel_at fb width (x' - px) (y' - py))
          else read32 m (pixel_at bb pps x' y'))
  unfolding render
  render_lem x' y' m inside =
      let e : 0 + py ≡ py = omega arith in
      copy_rows_lem size_y 0 x' y' m (omega arith) inside
      ∙ ap
          (λ (first : ℕ).
            if in_rect px first (px + width) (py + size_y) x' y'
            then read32 m (pixel_at fb width (x' - px) (y' - py))
            else read32 m (pixel_at bb pps x' y'))
          e
