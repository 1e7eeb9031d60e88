-- ===== src/Shell/Commands/Dispatch.antt =====
-- The command that the first word names is carried out.
use ryanos.Prelude.{
  ℕ, ◌+◌, ◌<◌, ◌≡◌, ◌≢◌, refl, ◌∙◌, List, [], ◌∷◌, length, Option, none, some, ◌==◌, arith,
  Bool-cases, inl, inr, ◌⊎◌,
}
use ryanos.Prelude.Int.{to_size}
use ryanos.Strings.{Bytes}
use ryanos.Strings.Spelled.{Spelled}
use ryanos.Strings.Compare.{compare_string-Tells}
use ryanos.Shell.Commands.{
  Console, Literals, if_same, command_echo, paint_if, color_window, command_window_color, dispatch,
}
use ryanos.Shell.Commands.Number.{strtoi-total}
use ryanos.Shell.Commands.Tokens.{Lead}

abbrev pub echo_text : List ℕ
echo_text = b'e' ∷ b'c' ∷ b'h' ∷ b'o' ∷ []

abbrev pub clear_text : List ℕ
clear_text = b'c' ∷ b'l' ∷ b'e' ∷ b'a' ∷ b'r' ∷ []

abbrev pub window_text : List ℕ
window_text = b'w' ∷ b'i' ∷ b'n' ∷ b'd' ∷ b'o' ∷ b'w' ∷ []

abbrev pub windowcolor_text : List ℕ
windowcolor_text = b'w' ∷ b'i' ∷ b'n' ∷ b'd' ∷ b'o' ∷ b'w' ∷ b'c' ∷ b'o' ∷ b'l' ∷ b'o' ∷ b'r' ∷ []

-- The literals spell their texts, and the colours some text.
pub record Holds (literals : Literals) (m : Bytes) : Type 0 where
  pub echo : Spelled m literals.echo echo_text
  pub clear : Spelled m literals.clear clear_text
  pub window : Spelled m literals.window window_text
  pub windowcolor : Spelled m literals.windowcolor windowcolor_text
  pub red : Spelled m literals.red (b'r' ∷ b'e' ∷ b'd' ∷ [])
  pub green : Spelled m literals.green (b'g' ∷ b'r' ∷ b'e' ∷ b'e' ∷ b'n' ∷ [])
  pub blue : Spelled m literals.blue (b'b' ∷ b'l' ∷ b'u' ∷ b'e' ∷ [])

module _ (m : Bytes) (bytes : (a : ℕ) → m a < 256) (fuel : ℕ) (a : ℕ) (t : List ℕ)
    (h : Spelled m a t) (enough : length t < fuel) where
  -- The test is answered by whether the texts are the same.
  if_same-cases :
      {X : Type 0} (b : ℕ) (u : List ℕ) (x y : Option X)
      → Spelled m b u
      → ((t ≡ u) × (if_same fuel m a b x y ≡ x)) ⊎ ((t ≢ u) × (if_same fuel m a b x y ≡ y))
  if_same-cases b u x y k =
      let (d, e, iff) = compare_string-Tells m bytes a b fuel t u h k enough in
      elim (Bool-cases (d.size == 0)) [
        | inl same ↦ inl (iff.0 (ground arith), rw (if_same, e, same) refl)
        | inr other ↦ inr ((λ z. let q = iff.1 z in ground arith), rw (if_same, e, other) refl)
      ]

  paint_if-total :
      {S W : Type 0} (console : Console S W) (literals : Literals) (b color : ℕ) (u : List ℕ)
      (w : W) (s : S)
      → Spelled m b u
      → (s' : S) × (paint_if console literals fuel m a b color w s ≡ some s')
  unfolding paint_if
  paint_if-total console literals b color u w s k =
      elim (if_same-cases b u (some (console.paint w color s)) (some s) k) [
        | inl (e, r) ↦ (console.paint w color s, r)
        | inr (ne, r) ↦ (s, r)
      ]

module _ {S W : Type 0} (console : Console S W) (literals : Literals) (fuel : ℕ) (m : Bytes) where
  -- The command of the word, of which there are five kinds, has been carried out.
  abbrev pub Carried : List ℕ → ℕ → List ℕ → S → Option S → Type 0
  Carried w a argv s r =
      ((w ≡ echo_text) × (r ≡ some (command_echo console literals fuel m (a ∷ argv) s)))
      ⊎ ((w ≡ clear_text) × (r ≡ some (console.clear s)))
      ⊎ ((w ≡ window_text) × (r ≡ some (console.make_window s)))
      ⊎ ((w ≡ windowcolor_text)
          × ((s' : S) × (r ≡ some s')
              × (command_window_color console literals fuel m (a ∷ argv) s ≡ some s')))
      ⊎ ((w ≢ echo_text)
          × (w ≢ clear_text)
          × (w ≢ window_text)
          × (w ≢ windowcolor_text)
          × (r
              ≡ some (
                  console.print_text "\n"
                    (console.print m a (console.print_text "Unknown command: " s)))))

  -- Of a line without a word nothing is carried out.
  abbrev pub Ran : List ℕ → List (List ℕ) → S → Option S → Type 0
  Ran [] [] s r = r ≡ some s
  Ran (a ∷ argv) (w ∷ ws) s r = Carried w a argv s r
  Ran [] (w ∷ ws) s r = ⊥
  Ran (a ∷ argv) [] s r = ⊥

module _ {S W : Type 0} (console : Console S W) (literals : Literals) (fuel : ℕ) (m : Bytes)
    (bytes : (a : ℕ) → m a < 256) (holds : Holds literals m) (low high : ℕ)
    (room : high < low + fuel) where
  color_window-total :
      (a : ℕ) (t : List ℕ) (w : W) (s : S)
      → Spelled m a t
      → length t < fuel
      → (s' : S) × (color_window console literals fuel m a w s ≡ some s')
  unfolding color_window
  color_window-total a t w s h l =
      let paint = paint_if-total m bytes fuel a t h l console literals in
      let (s₁, e₁) = paint literals.red 0xffff0000 (b'r' ∷ b'e' ∷ b'd' ∷ []) w s holds.red in
      let (s₂, e₂) =
        paint literals.green 0xff00ff00 (b'g' ∷ b'r' ∷ b'e' ∷ b'e' ∷ b'n' ∷ []) w s₁ holds.green in
      let (s₃, e₃) =
        paint literals.blue 0xff0000ff (b'b' ∷ b'l' ∷ b'u' ∷ b'e' ∷ []) w s₂ holds.blue in
      (s₃, rw (color_window, e₁, e₂) e₃)

  -- The command comes back, whatever it is given.
  command_window_color-total :
      (argv : List ℕ) (ws : List (List ℕ)) (s : S)
      → Lead m low high argv ws
      → (s' : S) × (command_window_color console literals fuel m argv s ≡ some s')
  unfolding command_window_color
  command_window_color-total [] ws s h = (_, refl)
  command_window_color-total (a ∷ []) ws s h = (_, refl)
  command_window_color-total (a ∷ b ∷ []) ws s h = (_, refl)
  command_window_color-total (a ∷ b ∷ c ∷ d ∷ argv) ws s h = (_, refl)
  command_window_color-total (a ∷ b ∷ c ∷ []) [] s h = elim h [ ]
  command_window_color-total (a ∷ b ∷ c ∷ []) (w ∷ []) s h = elim h.3 [ ]
  command_window_color-total (a ∷ b ∷ c ∷ []) (w ∷ x ∷ []) s h = elim h.3.3 [ ]
  command_window_color-total (a ∷ b ∷ c ∷ []) (w ∷ x ∷ y ∷ ws) s h =
      let (n, e) = strtoi-total fuel m b x h.3.2 (omega (arith, h.0, h.3.0, h.3.1)) in
      rw (command_window_color, e) (found (console.get_from_id (to_size n) s))
    where
      found :
          (o : Option W)
          → (s' : S) × (elim o [
            | none ↦ some s
            | some window ↦ color_window console literals fuel m c window s
          ]
              ≡ some s')
      found none = (s, refl)
      found (some window) =
          color_window-total c y window s h.3.3.2 (omega (arith, h.0, h.3.0, h.3.3.0, h.3.3.1))

  pub dispatch-Carried :
      (a : ℕ) (argv : List ℕ) (w : List ℕ) (ws : List (List ℕ)) (s : S)
      → Lead m low high (a ∷ argv) (w ∷ ws)
      → Carried console literals fuel m w a argv s (dispatch console literals fuel m (a ∷ argv) s)
  unfolding dispatch
  dispatch-Carried a argv w ws s h =
      let l : length w < fuel = omega (arith, h.0, h.1) in
      let test = if_same-cases m bytes fuel a w h.2 l in
      let unknown =
        some (
          console.print_text "\n" (console.print m a (console.print_text "Unknown command: " s))) in
      let color = command_window_color console literals fuel m (a ∷ argv) s in
      let r₃ = if_same fuel m a literals.windowcolor color unknown in
      let r₂ = if_same fuel m a literals.window (some (console.make_window s)) r₃ in
      let r₁ = if_same fuel m a literals.clear (some (console.clear s)) r₂ in
      elim (test literals.echo echo_text (some (command_echo console literals fuel m (a ∷ argv) s))
        r₁ holds.echo) [
          | inl (e, r) ↦ inl (e, r)
          | inr (n₁, q₁) ↦
              elim (test literals.clear clear_text (some (console.clear s)) r₂ holds.clear) [
                | inl (e, r) ↦ inr (inl (e, q₁ ∙ r))
                | inr (n₂, q₂) ↦
                    elim (test literals.window window_text (some (console.make_window s)) r₃
                      holds.window) [
                        | inl (e, r) ↦ inr (inr (inl (e, q₁ ∙ q₂ ∙ r)))
                        | inr (n₃, q₃) ↦
                            elim (test literals.windowcolor windowcolor_text color unknown
                              holds.windowcolor) [
                                | inl (e, r) ↦
                                    let (s', z) =
                                      command_window_color-total (a ∷ argv) (w ∷ ws) s h in
                                    inr (inr (inr (inl (e, (s', q₁ ∙ q₂ ∙ q₃ ∙ r ∙ z, z)))))
                                | inr (n₄, q₄) ↦
                                    inr (inr (inr (inr (n₁, n₂, n₃, n₄, q₁ ∙ q₂ ∙ q₃ ∙ q₄))))
                              ]
                      ]
              ]
        ]

  pub dispatch-Ran :
      (argv : List ℕ) (ws : List (List ℕ)) (s : S)
      → Lead m low high argv ws
      → (s' : S) × (dispatch console literals fuel m argv s ≡ some s')
        × Ran console literals fuel m argv ws s (some s')
  unfolding dispatch
  dispatch-Ran [] [] s h = (s, refl, refl)
  dispatch-Ran [] (w ∷ ws) s h = elim h [ ]
  dispatch-Ran (a ∷ argv) [] s h = elim h [ ]
  dispatch-Ran (a ∷ argv) (w ∷ ws) s h =
      answer (dispatch console literals fuel m (a ∷ argv) s) (dispatch-Carried a argv w ws s h)
    where
      answer :
          (r : Option S)
          → Carried console literals fuel m w a argv s r
          → (s' : S) × (r ≡ some s') × Carried console literals fuel m w a argv s (some s')
      answer (some s') c = (s', refl, c)
      answer none (inl (e, r)) = cc
      answer none (inr (inl (e, r))) = cc
      answer none (inr (inr (inl (e, r)))) = cc
      answer none (inr (inr (inr (inl (e, (s', r, z)))))) = cc
      answer none (inr (inr (inr (inr (n₁, n₂, n₃, n₄, r))))) = cc
