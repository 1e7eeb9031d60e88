-- ===== src/Shell/Commands/Words.antt =====
-- The words of a text, and what the two inner loops of the splitting pass over.
use ryanos.Prelude.{
  ℕ, zero, suc, ◌+◌, ◌<◌, ◌≤◌, ◌≡◌, ◌≢◌, refl, ap, ◌∙◌, sym, true, false, List, [], ◌∷◌, ◌++◌,
  length, some, ◌==◌, ◌||◌, if◌then◌else◌, arith, Bool-cases, inl, inr, ◌⊎◌, update,
}
use mathlib.Core.List.{append-nil, append_assoc}
use ryanos.Strings.{Bytes}
use ryanos.Strings.Spelled.{Spelled, Spelled-same}
use ryanos.Shell.Commands.{skip_spaces, skip_word}

-- A word that is not empty.
abbrev pub flush : List ℕ → List (List ℕ)
flush [] = []
flush (c ∷ cs) = (c ∷ cs) ∷ []

-- The words of a text, of which the letters `word` have been read.
unfoldable pub words_from : List ℕ → List ℕ → List (List ℕ)
words_from word [] = flush word
words_from word (c ∷ cs) =
    if c == b' ' then flush word ++ words_from [] cs else words_from (word ++ c ∷ []) cs

-- The longest runs without a space.
abbrev pub words : List ℕ → List (List ℕ)
words text = words_from [] text

-- What is left of the text behind the spaces.
pub record Spaces (m : Bytes) (args : ℕ) (text : List ℕ) (m₁ : Bytes) (a₁ : ℕ) : Type 0 where
  pub left : List ℕ
  pub same_words : words left ≡ words text
  pub spelled : Spelled m₁ a₁ left
  pub no_space : (m₁ a₁ == b' ') ≡ false
  pub total : a₁ + length left ≡ args + length text
  pub onward : args ≤ a₁
  pub kept : (j : ℕ) → (j < args) ⊎ (a₁ ≤ j) → m₁ j ≡ m j
  pub bytes : ((j : ℕ) → m j < 256) → (j : ℕ) → m₁ j < 256

pub skip_spaces-Spaces :
    (fuel : ℕ) (m : Bytes) (args : ℕ) (text : List ℕ)
    → Spelled m args text
    → length text < fuel
    → (m₁ : Bytes) × (a₁ : ℕ) × (skip_spaces fuel m args ≡ some (m₁, a₁)) × Spaces m args text m₁ a₁
unfolding skip_spaces
skip_spaces-Spaces zero m args text h enough = absurd (omega arith)
skip_spaces-Spaces (suc fuel) m args [] h enough =
    let other : (m args == b' ') ≡ false = ground arith in
    (
      m,
      args,
      rw other refl,
      record {
        left = [];
        same_words = refl;
        spelled = h;
        no_space = other;
        total = refl;
        onward = omega arith;
        kept = λ j o. refl;
        bytes = λ b. b;
      },
    )
skip_spaces-Spaces (suc fuel) m args (c ∷ cs) h enough = elim (Bool-cases (m args == b' ')) [
  | inr other ↦ (
    m,
    args,
    rw other refl,
    record {
      left = c ∷ cs;
      same_words = refl;
      spelled = h;
      no_space = other;
      total = refl;
      onward = omega arith;
      kept = λ j o. refl;
      bytes = λ b. b;
    },
  )
  | inl space ↦
      let m' = update m args 0 in
      let h' : Spelled m' (args + 1) cs =
        Spelled-same m m' (args + 1) cs (λ a l u. ground arith) h.2 in
      let (m₁, a₁, e, s) = skip_spaces-Spaces fuel m' (args + 1) cs h' (omega arith) in
      let is_space : (c == b' ') ≡ true = let at = h.1 in ground arith in
      (
        m₁,
        a₁,
        rw (space, e) refl,
        record {
          left = s.left;
          same_words = s.same_words ∙ sym (unfold words_from in rw is_space refl);
          spelled = s.spelled;
          no_space = s.no_space;
          total = omega (arith, s.total);
          onward = omega (arith, s.onward);
          kept = λ j o. elim o [
            | inl below ↦
                let ne : (args == j) ≡ false = ground arith in
                s.kept j (inl (omega arith)) ∙ rw ne refl
            | inr above ↦
                let ne : (args == j) ≡ false = let l = s.onward in ground arith in
                s.kept j (inr above) ∙ rw ne refl
          ];
          bytes = λ b. s.bytes (λ j. let l = b j in ground arith);
        },
      )
]

-- These bytes stand there, none of them 0.
abbrev pub Letters : Bytes → ℕ → List ℕ → Type 0
Letters m p [] = Unit {0}
Letters m p (c ∷ cs) = (c ≢ 0) × (m p ≡ c) × Letters m (p + 1) cs

pub Letters-Spelled :
    (m m' : Bytes) (p : ℕ) (w : List ℕ)
    → Letters m p w
    → ((j : ℕ) → p ≤ j → j < p + length w → m' j ≡ m j)
    → m' (p + length w) ≡ 0
    → Spelled m' p w
Letters-Spelled m m' p [] l same z = let e : p + 0 ≡ p = omega arith in ap m' (sym e) ∙ z
Letters-Spelled m m' p (c ∷ cs) l same z =
    let e : p + 1 + length cs ≡ p + suc (length cs) = omega arith in
    (
      l.0,
      same p (omega arith) (omega arith) ∙ l.1,
      Letters-Spelled m m' (p + 1) cs l.2 (λ j a b. same j (omega arith) (omega arith))
          (ap m' e ∙ z),
    )

-- A run of letters up to a space or the end, and the text that is behind it and its space.
pub record Word (m : Bytes) (p : ℕ) (text : List ℕ) (a₂ : ℕ) : Type 0 where
  pub run : List ℕ
  pub behind : List ℕ
  pub at_end : a₂ ≡ p + length run
  pub letters : Letters m p run
  pub split :
      ((m a₂ ≡ 0)
        × (behind ≡ [])
        × (length text ≡ length run)
        × ((word : List ℕ) → words_from word text ≡ flush (word ++ run)))
      ⊎ ((m a₂ ≡ b' ')
          × Spelled m (a₂ + 1) behind
          × (length text ≡ length run + suc (length behind))
          × ((word : List ℕ) → words_from word text ≡ flush (word ++ run) ++ words behind))

pub skip_word-Word :
    (fuel : ℕ) (m : Bytes) (p : ℕ) (text : List ℕ)
    → Spelled m p text
    → length text < fuel
    → (a₂ : ℕ) × (skip_word fuel m p ≡ some a₂) × Word m p text a₂
unfolding skip_word words_from
skip_word-Word zero m p text h enough = absurd (omega arith)
skip_word-Word (suc fuel) m p [] h enough =
    let at : (m p == 0) ≡ true = ground arith in
    (
      p,
      rw at refl,
      record {
        run = [];
        behind = [];
        at_end = omega arith;
        letters = tt;
        split = inl (h, refl, refl, λ word. ap flush (sym (append-nil word)));
      },
    )
skip_word-Word (suc fuel) m p (c ∷ cs) h enough = elim (Bool-cases (c == b' ')) [
  | inl space ↦
      let at : ((m p == 0) || (m p == b' ')) ≡ true = let e = h.1 in ground arith in
      (
        p,
        rw at refl,
        record {
          run = [];
          behind = cs;
          at_end = omega arith;
          letters = tt;
          split = inr (
            (let e = h.1 in ground arith),
            h.2,
            omega arith,
            λ word. let e = append-nil word in rw (space, e) refl,
          );
        },
      )
  | inr letter ↦
      let at : ((m p == 0) || (m p == b' ')) ≡ false =
        let e = h.1 in let ne = h.0 in ground arith in
      let (a₂, e, w) = skip_word-Word fuel m (p + 1) cs h.2 (omega arith) in
      (
        a₂,
        rw (at, e) refl,
        record {
          run = c ∷ w.run;
          behind = w.behind;
          at_end = omega (arith, w.at_end);
          letters = (h.0, h.1, w.letters);
          split = elim w.split [
            | inl (z, b, l, ws) ↦ inl (
              z,
              b,
              omega (arith, l),
              λ word. rw letter (ws (word ++ c ∷ []) ∙ ap flush (append_assoc word (c ∷ []) w.run)),
            )
            | inr (z, b, l, ws) ↦ inr (
              z,
              b,
              omega (arith, l),
              λ word. rw letter (
                  ws (word ++ c ∷ [])
                  ∙ ap (λ (x : List ℕ). flush x ++ words w.behind)
                      (append_assoc word (c ∷ []) w.run)),
            )
          ];
        },
      )
]
