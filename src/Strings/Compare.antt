-- ===== src/Strings/Compare.antt =====
-- `compare_string` tells whether two texts are the same.
use ryanos.Prelude.{
  ℕ, zero, suc, ◌+◌, ◌<◌, ◌≡◌, ◌≢◌, ◌↔◌, refl, sym, ◌∙◌, ap, true, false, List, [], ◌∷◌, Option,
  some, ◌==◌, arith, length, inl, inr, Bool-cases,
}
use mathlib.Core.Path.{subst, ap₂}
use ryanos.Strings.{Bytes, Difference, raised, difference, compare_from, compare_string}
use ryanos.Strings.Spelled.{Spelled}

difference-zero : (a b : ℕ) → a < 256 → b < 256 → (difference a b).size ≡ 0 → a ≡ b
unfolding difference raised
difference-zero a b p q e = ground arith

-- The first character of a text, or the 0 behind an empty one.
abbrev first : List ℕ → ℕ
first [] = 0
first (c ∷ cs) = c

Spelled-first : (m : Bytes) (p : ℕ) (text : List ℕ) → Spelled m p text → m p ≡ first text
Spelled-first m p [] h = h
Spelled-first m p (c ∷ cs) h = h.1

abbrev rest_of : List ℕ → List ℕ
rest_of [] = []
rest_of (c ∷ cs) = cs

-- A comparison that comes back with 0 exactly when the texts are the same.
abbrev pub Tells : Option Difference → List ℕ → List ℕ → Type 0
Tells o t u = (r : Difference) × (o ≡ some r) × ((r.size ≡ 0) ↔ (t ≡ u))

module _ (m : Bytes) (bytes : (a : ℕ) → m a < 256) (s1 s2 : ℕ) where
  differ :
      (fuel i : ℕ) (t u : List ℕ)
      → Spelled m (s1 + i) t
      → Spelled m (s2 + i) u
      → first t ≢ first u
      → Tells (compare_from (suc fuel) m s1 s2 i) t u
  unfolding compare_from
  differ fuel i t u h k ne =
      let p = Spelled-first m (s1 + i) t h in
      let q = Spelled-first m (s2 + i) u k in
      let other : (m (s1 + i) == m (s2 + i)) ≡ false =
        let ne' : m (s1 + i) ≢ m (s2 + i) = λ e. ne (sym p ∙ e ∙ q) in ground arith in
      (
        difference (m (s1 + i)) (m (s2 + i)),
        rw (other, compare_from) refl,
        (
          (λ e.
              absurd
                (ne (sym p ∙ difference-zero (m (s1 + i)) (m (s2 + i)) (bytes _) (bytes _) e ∙ q))),
          (λ e. absurd (ne (ap first e))),
        ),
      )

  compare_from-Tells :
      (fuel i : ℕ) (t u : List ℕ)
      → Spelled m (s1 + i) t
      → Spelled m (s2 + i) u
      → length t < fuel
      → Tells (compare_from fuel m s1 s2 i) t u
  unfolding compare_from
  compare_from-Tells zero i t u h k l = absurd (omega arith)
  compare_from-Tells (suc fuel) i [] [] h k l =
      (record { negative = false; size = 0 }, ground arith, ((λ e. refl), (λ e. refl)))
  compare_from-Tells (suc fuel) i [] (d ∷ ds) h k l =
      differ fuel i [] (d ∷ ds) h k (λ e. k.0 (sym e))
  compare_from-Tells (suc fuel) i (c ∷ cs) [] h k l = differ fuel i (c ∷ cs) [] h k h.0
  compare_from-Tells (suc fuel) i (c ∷ cs) (d ∷ ds) h k l = elim (Bool-cases (c == d)) [
    | inr other ↦ differ fuel i (c ∷ cs) (d ∷ ds) h k (ground arith)
    | inl same ↦
        let e₁ : s1 + i + 1 ≡ s1 + (i + 1) = omega arith in
        let e₂ : s2 + i + 1 ≡ s2 + (i + 1) = omega arith in
        let (r, e, iff) =
          compare_from-Tells fuel (i + 1) cs ds (subst (λ (a : ℕ). Spelled m a cs) e₁ h.2)
            (subst (λ (a : ℕ). Spelled m a ds) e₂ k.2) (omega arith) in
        let equal : (m (s1 + i) == m (s2 + i)) ≡ true =
          let p = h.1 in let q = k.1 in ground arith in
        let more : (m (s1 + i) == 0) ≡ false = let p = h.1 in let ne = h.0 in ground arith in
        let head : c ≡ d = ground arith in
        (
          r,
          rw (equal, more) e,
          (
            (λ z. ap₂ (λ (x : ℕ) (xs : List ℕ). x ∷ xs) head (iff.0 z)),
            (λ z. iff.1 (ap rest_of z)),
          ),
        )
  ]

  -- In a memory of bytes, with fuel for more characters than the first text has, `compare_string`
  -- comes back with 0 exactly when the two texts are the same.
  pub compare_string-Tells :
      (fuel : ℕ) (t u : List ℕ)
      → Spelled m s1 t
      → Spelled m s2 u
      → length t < fuel
      → Tells (compare_string fuel m s1 s2) t u
  unfolding compare_string
  compare_string-Tells fuel t u h k l =
      let e₁ : s1 ≡ s1 + 0 = omega arith in
      let e₂ : s2 ≡ s2 + 0 = omega arith in
      compare_from-Tells fuel 0 t u (subst (λ (a : ℕ). Spelled m a t) e₁ h)
        (subst (λ (a : ℕ). Spelled m a u) e₂ k) l
