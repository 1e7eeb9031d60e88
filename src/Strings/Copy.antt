-- ===== src/Strings/Copy.antt =====
-- `strcopy` copies the text and leaves the rest of the memory alone.
use ryanos.Prelude.{
  ℕ, zero, suc, ◌+◌, ◌<◌, ◌≤◌, ◌≡◌, ◌∙◌, false, List, [], ◌∷◌, some, ◌==◌, update, arith, length,
  ◌⊎◌, inl, inr,
}
use ryanos.Strings.{Bytes, strcopy}
use ryanos.Strings.Spelled.{Spelled, Spelled-same}

-- The two places for a text, its 0 included, have no byte in common.
abbrev pub Apart : ℕ → ℕ → List ℕ → Type 0
Apart d s text = (d + length text < s) ⊎ (s + length text < d)

abbrev pub Outside : ℕ → List ℕ → ℕ → Type 0
Outside d text a = (a < d) ⊎ (d + length text < a)

copies :
    (fuel : ℕ) (m : Bytes) (d s : ℕ) (text : List ℕ)
    → Spelled m s text
    → length text < fuel
    → Apart d s text
    → (m' : Bytes) × (strcopy fuel m d s ≡ some m')
      × Spelled m' d text
      × ((a : ℕ) → Outside d text a → m' a ≡ m a)
unfolding strcopy
copies zero m d s text h l apart = absurd (omega arith)
copies (suc fuel) m d s [] h l apart =
    (update m d 0, ground arith, ground arith, (λ a out. ground arith))
copies (suc fuel) m d s (c ∷ cs) h l apart =
    let m₁ = update m d (m s) in
    let source = Spelled-same m m₁ (s + 1) cs (λ a p q. ground arith) h.2 in
    let (m', e, copy, others) =
      copies fuel m₁ (d + 1) (s + 1) cs source (omega arith) (further apart) in
    let more : (m s == 0) ≡ false = let ne = h.0 in let at = h.1 in ground arith in
    (
      m',
      rw more e,
      (h.0, others d (inl (omega arith)) ∙ first ∙ h.1, copy),
      (λ a out. others a (wider a out) ∙ same a out),
    )
  where
    further : Apart d s (c ∷ cs) → Apart (d + 1) (s + 1) cs
    further (inl p) = inl (omega arith)
    further (inr p) = inr (omega arith)

    first : update m d (m s) d ≡ m s
    first = ground arith

    wider : (a : ℕ) → Outside d (c ∷ cs) a → Outside (d + 1) cs a
    wider a (inl p) = inl (omega arith)
    wider a (inr p) = inr (omega arith)

    same : (a : ℕ) → Outside d (c ∷ cs) a → update m d (m s) a ≡ m a
    same a (inl p) = ground arith
    same a (inr p) = ground arith

-- With fuel for more characters than the text has, and places that have no byte in common, after
-- `strcopy` the destination spells the text and the source still does, and no other byte than
-- those of the destination has changed.
pub strcopy_lem :
    (fuel : ℕ) (m : Bytes) (d s : ℕ) (text : List ℕ)
    → Spelled m s text
    → length text < fuel
    → Apart d s text
    → (m' : Bytes) × (strcopy fuel m d s ≡ some m')
      × Spelled m' d text
      × Spelled m' s text
      × ((a : ℕ) → Outside d text a → m' a ≡ m a)
strcopy_lem fuel m d s text h l apart =
    let (m', e, copy, others) = copies fuel m d s text h l apart in
    (m', e, copy, Spelled-same m m' s text (λ a p q. others a (clear apart a p q)) h, others)
  where
    clear : Apart d s text → (a : ℕ) → s ≤ a → a ≤ s + length text → Outside d text a
    clear (inl p) a q r = inr (omega arith)
    clear (inr p) a q r = inl (omega arith)
