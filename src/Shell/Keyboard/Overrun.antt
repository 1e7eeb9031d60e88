-- ===== src/Shell/Keyboard/Overrun.antt =====
-- The space key has no bound: it writes behind the array of 256 characters.
use ryanos.Prelude.{
  ℕ, zero, suc, ◌+◌, ◌≡◌, refl, ◌∙◌, Option, none, some, ltb, if◌then◌else◌, arith,
}
use ryanos.Shell.Scancodes.{space}
use ryanos.Shell.Keyboard.{Keyboard, Screen, put, handle_keyboard}

module _ {S : Type 0} (screen : Screen S) where
  -- The space key pressed n times.
  unfoldable pub spaces : ℕ → Keyboard → S → Option (Keyboard × S)
  spaces zero k s = some (k, s)
  spaces (suc n) k s = elim (handle_keyboard screen space k s) [
    | none ↦ none
    | some (k', s') ↦ spaces n k' s'
  ]

  spaces-suc :
      (n : ℕ) (k : Keyboard) (s : S) → spaces (suc n) k s ≡ spaces n (put 32 k) (screen.cprint 32 s)
  unfolding spaces handle_keyboard
  spaces-suc n k s = refl

  -- However long the line is, the space key pressed n times puts n spaces from the index on, also
  -- behind the 256 bytes of the array, and changes nothing else of the memory.
  pub spaces_lem :
      (n : ℕ) (k : Keyboard) (s : S)
      → (k' : Keyboard) × (s' : S) × (spaces n k s ≡ some (k', s'))
        × (k'.current_line_index ≡ k.current_line_index + n)
        × ((i : ℕ)
            → k'.current_line i ≡ (
                if ltb i k.current_line_index
                then k.current_line i
                else if ltb i (k.current_line_index + n)
                then 32
                else k.current_line i))
  unfolding spaces put
  spaces_lem zero k s = (k, s, refl, omega arith, (λ i. ground arith))
  spaces_lem (suc n) k s =
      let (k', s', e, at, line) = spaces_lem n (put 32 k) (screen.cprint 32 s) in
      (k', s', spaces-suc n k s ∙ e, omega (arith, at), (λ i. line i ∙ ground arith))
