-- ===== src/Strings/Spelled.antt =====
-- The text that the memory spells, and its length.
use ryanos.Prelude.{
  ℕ, zero, suc, ◌+◌, ◌<◌, ◌≤◌, ◌≡◌, ◌≢◌, refl, sym, ◌∙◌, ap, false, List, [], ◌∷◌, ◌++◌, some, ◌==◌,
  update, arith, length,
}
use mathlib.Core.Path.{subst}
use ryanos.Strings.{Bytes, length_from, string_length, append}

-- From `p` on, the memory has the characters of the text, none of them 0, and then a 0.
abbrev pub Spelled : Bytes → ℕ → List ℕ → Type 0
Spelled m p [] = m p ≡ 0
Spelled m p (c ∷ cs) = (c ≢ 0) × (m p ≡ c) × Spelled m (p + 1) cs

-- Another memory with the same bytes there spells the same.
pub Spelled-same :
    (m m' : Bytes) (p : ℕ) (text : List ℕ)
    → ((a : ℕ) → p ≤ a → a ≤ p + length text → m' a ≡ m a)
    → Spelled m p text
    → Spelled m' p text
Spelled-same m m' p [] same h = same p (omega arith) (omega arith) ∙ h
Spelled-same m m' p (c ∷ cs) same h = (
  h.0,
  same p (omega arith) (omega arith) ∙ h.1,
  Spelled-same m m' (p + 1) cs (λ a l u. same a (omega arith) (omega arith)) h.2,
)

length_from_lem :
    (fuel : ℕ) (m : Bytes) (s i : ℕ) (text : List ℕ)
    → Spelled m (s + i) text
    → length text < fuel
    → length_from fuel m s i ≡ some (i + length text)
unfolding length_from
length_from_lem zero m s i text h l = absurd (omega arith)
length_from_lem (suc fuel) m s i [] h l = let e : i + 0 ≡ i = omega arith in rw e (ground arith)
length_from_lem (suc fuel) m s i (c ∷ cs) h l =
    let next : s + (i + 1) ≡ s + i + 1 = omega arith in
    let rest =
      length_from_lem fuel m s (i + 1) cs (subst (λ (a : ℕ). Spelled m a cs) (sym next) h.2)
        (omega arith) in
    let at : (m (s + i) == 0) ≡ false = let ne = h.0 in let e = h.1 in ground arith in
    rw at (rest ∙ ap (λ (n : ℕ). some n) (omega arith))

-- With fuel for more characters than the text has, `string_length` is the length of the text.
pub string_length_lem :
    (fuel : ℕ) (m : Bytes) (s : ℕ) (text : List ℕ)
    → Spelled m s text
    → length text < fuel
    → string_length fuel m s ≡ some (length text)
unfolding string_length
string_length_lem fuel m s text h l =
    let e : s + 0 ≡ s = omega arith in
    length_from_lem fuel m s 0 text (subst (λ (a : ℕ). Spelled m a text) (sym e) h) l
    ∙ ap (λ (n : ℕ). some n) (omega arith)

Spelled-end :
    (m : Bytes) (s n : ℕ) (text : List ℕ)
    → n ≢ 0
    → Spelled m s text
    → Spelled (update (update m (s + length text) n) (s + length text + 1) 0) s (text ++ n ∷ [])
Spelled-end m s n [] ne h = (ne, ground arith, ground arith)
Spelled-end m s n (c ∷ cs) ne h =
    let e : s + suc (length cs) ≡ s + 1 + length cs = omega arith in
    (
      h.0,
      (let at = h.1 in ground arith),
      subst (λ (a : ℕ). Spelled (update (update m a n) (a + 1) 0) (s + 1) (cs ++ n ∷ [])) (sym e)
          (Spelled-end m (s + 1) n cs ne h.2),
    )

-- With fuel for more characters than the text has and a character that is not 0, `append` puts the
-- character behind the text, and changes two bytes at most: the end of the text and the one behind.
pub append_lem :
    (fuel : ℕ) (m : Bytes) (s n : ℕ) (text : List ℕ)
    → Spelled m s text
    → length text < fuel
    → n ≢ 0
    → (m' : Bytes) × (append fuel m s n ≡ some m')
      × Spelled m' s (text ++ n ∷ [])
      × ((a : ℕ) → a ≢ s + length text → a ≢ s + length text + 1 → m' a ≡ m a)
unfolding append
append_lem fuel m s n text h l ne = (
  update (update m (s + length text) n) (s + length text + 1) 0,
  rw (string_length_lem fuel m s text h l, append) refl,
  Spelled-end m s n text ne h,
  (λ a p q. ground arith),
)
