-- ===== src/Shell/Out/Cursor.antt =====
-- The cursor after a character is typed and taken back, and the columns that it keeps to.
use ryanos.Prelude.{
  ℕ, suc, ◌+◌, ◌-◌, ◌*◌, ◌/◌, ◌%◌, ◌<◌, ◌≤◌, ◌≡◌, ◌≢◌, refl, ap, ◌∙◌, true, false, arith, ltb, leb,
  ◌==◌, ◌&&◌, if◌then◌else◌, ◌⊎◌, inl, inr, Bool-cases,
}
use mathlib.Core.Path.{ap₂}
use ryanos.Prelude.Int.{ℤ, pos}
use ryanos.Graphics.{Point}
use ryanos.Shell.Out.{
  Out, affine, plus_one, minus_one, at_most, equal, positive, clear_cell, wrap, place_character,
  put_character, cprint, last_column, backspace,
}

-- What the end of a round does to a cursor in column `k`.
record Wrapped (k : ℕ) (o o' : Out) : Type 0 where
  to : o'.cursor_pos ≡ (
      if ltb o.size_x (k * 8 + 16)
      then record { x = pos 0; y = plus_one o.cursor_pos.y }
      else o.cursor_pos)
  begun : o'.user_begin_pos ≡ o.user_begin_pos
  width : o'.size_x ≡ o.size_x

wrap-Wrapped : (k : ℕ) (o : Out) → o.cursor_pos.x ≡ pos k → Wrapped k o (wrap o)
unfolding wrap at_most affine
wrap-Wrapped k o at = elim (Bool-cases (ltb o.size_x (k * 8 + 16))) [
  | inl over ↦
      let full = fits ∙ past over in
      record { to = rw (full, over) refl; begun = rw full refl; width = rw full refl }
  | inr room ↦
      let free = fits ∙ within room in
      record { to = rw (free, room) refl; begun = rw free refl; width = rw free refl }
]
  where
    fits :
        at_most (affine o.cursor_pos.x 8 16) (pos o.size_x)
        ≡ at_most (affine (pos k) 8 16) (pos o.size_x)
    fits = ap (λ (v : ℤ). at_most (affine v 8 16) (pos o.size_x)) at

    past : ltb o.size_x (k * 8 + 16) ≡ true → at_most (affine (pos k) 8 16) (pos o.size_x) ≡ false
    past over = ground arith

    within : ltb o.size_x (k * 8 + 16) ≡ false → at_most (affine (pos k) 8 16) (pos o.size_x) ≡ true
    within room = ground arith

place_lem :
    (chr : ℕ) (o : Out)
    → chr ≢ 10
    → ((place_character chr o).cursor_pos
        ≡ record { x = plus_one o.cursor_pos.x; y = o.cursor_pos.y })
      × ((place_character chr o).user_begin_pos ≡ o.user_begin_pos)
      × ((place_character chr o).size_x ≡ o.size_x)
unfolding place_character clear_cell
place_lem chr o printable =
    let other : (chr == 10) ≡ false = ground arith in (rw other refl, rw other refl, rw other refl)

backspace_lem :
    (o : Out)
    → (at_most o.cursor_pos.x o.user_begin_pos.x && equal o.cursor_pos.y o.user_begin_pos.y) ≡ false
    → (backspace o).cursor_pos ≡ (
        if positive o.cursor_pos.x
        then record { x = minus_one o.cursor_pos.x; y = o.cursor_pos.y }
        else record { x = last_column o.size_x; y = minus_one o.cursor_pos.y })
unfolding backspace clear_cell
backspace_lem o free = rw free refl

module _ (chr : ℕ) (o : Out) (c r u b : ℕ) (at : o.cursor_pos ≡ record { x = pos c; y = pos r })
    (begun : o.user_begin_pos ≡ record { x = pos u; y = pos b }) (printable : chr ≢ 10)
    (room : c * 8 + 16 ≤ o.size_x) (behind : (b < r) ⊎ ((b ≡ r) × (u ≤ c))) where
  cprint_lem :
      ((cprint chr o).cursor_pos ≡ (
        if ltb o.size_x (suc c * 8 + 16)
        then record { x = pos 0; y = pos (suc r) }
        else record { x = pos (suc c); y = pos r }))
      × ((cprint chr o).user_begin_pos ≡ record { x = pos u; y = pos b })
      × ((cprint chr o).size_x ≡ o.size_x)
  unfolding cprint put_character plus_one
  cprint_lem =
      let (placed, same_begin, same_width) = place_lem chr o printable in
      let here : (place_character chr o).cursor_pos ≡ record { x = pos (suc c); y = pos r } =
        placed ∙ ap (λ (p : Point). record { x = plus_one p.x; y = p.y }) at in
      let w = wrap-Wrapped (suc c) (place_character chr o) (ap (λ (p : Point). p.x) here) in
      (
        w.to
            ∙ ap₂
                (λ (p : Point) (n : ℕ).
                  if ltb n (suc c * 8 + 16) then record { x = pos 0; y = plus_one p.y } else p)
                here same_width,
        w.begun ∙ same_begin ∙ begun,
        w.width ∙ same_width,
      )

  -- For a printable character and a cursor in a column with room for it, not in front of where the user begins: a
  -- backspace takes the cursor back to where it was, but one column further if the character ended the line and
  -- the width leaves 2 or more modulo 8.
  pub backspace-cprint : (backspace (cprint chr o)).cursor_pos ≡ record {
    x = pos (if ltb o.size_x (suc c * 8 + 16) && leb 2 (o.size_x % 8) then suc c else c);
    y = pos r;
  }
  unfolding at_most equal positive minus_one last_column
  backspace-cprint =
      let (to, same_begin, same_width) = cprint_lem in
      elim (Bool-cases (ltb o.size_x (suc c * 8 + 16))) [
        | inl over ↦
            let at' : (cprint chr o).cursor_pos ≡ record { x = pos 0; y = pos (suc r) } =
              to ∙ rw over refl in
            backspace_lem (cprint chr o) (free 0 (suc r) at' same_begin (ground arith))
            ∙ ap₂ returned at' same_width
            ∙ ap (λ (v : ℤ). record { x = v; y = pos r }) (column over)
        | inr more ↦
            let at' : (cprint chr o).cursor_pos ≡ record { x = pos (suc c); y = pos r } =
              to ∙ rw more refl in
            backspace_lem (cprint chr o) (free (suc c) r at' same_begin (ground arith))
            ∙ ap₂ returned at' same_width
            ∙ (let step : ltb 0 (suc c) ≡ true = ground arith in rw (more, step) refl)
      ]
    where
      column :
          ltb o.size_x (suc c * 8 + 16) ≡ true
          → last_column o.size_x
            ≡ pos (if ltb o.size_x (suc c * 8 + 16) && leb 2 (o.size_x % 8) then suc c else c)
      column over =
          let wide : ltb o.size_x 3 ≡ false = ground arith in
          let end : o.size_x < suc c * 8 + 16 = ground arith in
          elim (Bool-cases (leb 2 (o.size_x % 8))) [
            | inl uneven ↦
                let more : 2 ≤ o.size_x % 8 = ground arith in
                let e : (o.size_x - 10) / 8 ≡ suc c = omega (arith, room, end, more) in
                rw (wide, over, uneven) (ap pos e)
            | inr even ↦
                let less : o.size_x % 8 < 2 = ground arith in
                let e : (o.size_x - 10) / 8 ≡ c = omega (arith, room, end, less) in
                rw (wide, over, even) (ap pos e)
          ]

      returned : Point → ℕ → Point
      returned p n =
          if positive p.x
          then record { x = minus_one p.x; y = p.y }
          else record { x = last_column n; y = minus_one p.y }

      free :
          (k l : ℕ)
          → (cprint chr o).cursor_pos ≡ record { x = pos k; y = pos l }
          → (cprint chr o).user_begin_pos ≡ record { x = pos u; y = pos b }
          → (b < l) ⊎ ((b ≡ l) × (u < k))
          → (at_most (cprint chr o).cursor_pos.x (cprint chr o).user_begin_pos.x
              && equal (cprint chr o).cursor_pos.y (cprint chr o).user_begin_pos.y)
            ≡ false
      free k l at' begin' past =
          ap₂ (λ (p q : Point). at_most p.x q.x && equal p.y q.y) at' begin' ∙ ground arith
