-- ===== src/Shell/Commands/Tokens.antt =====
-- The command line is split into its words.
use ryanos.Prelude.{
  ℕ, zero, suc, ◌+◌, ◌<◌, ◌≤◌, ◌≡◌, refl, ap, ◌∙◌, sym, true, false, List, [], ◌∷◌, ◌++◌, length,
  length-append, leb, not, ◌&&◌, some, ◌==◌, if◌then◌else◌, arith, inl, inr, ◌⊎◌, update,
}
use mathlib.Core.Path.{subst}
use mathlib.Core.List.{append-nil, append_assoc}
use ryanos.Strings.{Bytes}
use ryanos.Strings.Spelled.{Spelled, Spelled-same}
use ryanos.Shell.Commands.{tokenize}
use ryanos.Shell.Commands.Words.{
  flush, words_from, words, skip_spaces-Spaces, Letters, Letters-Spelled, skip_word-Word,
}

-- The addresses lead to the words, which lie from `low` on and end below `high`.
abbrev pub Lead : Bytes → ℕ → ℕ → List ℕ → List (List ℕ) → Type 0
Lead m low high [] [] = Unit {0}
Lead m low high (a ∷ as') [] = ⊥
Lead m low high [] (w ∷ ws) = ⊥
Lead m low high (a ∷ as') (w ∷ ws) =
    (low ≤ a) × (a + length w ≤ high) × Spelled m a w × Lead m (a + length w) high as' ws

Lead-wider :
    (m : Bytes) (low low' high high' : ℕ) (as' : List ℕ) (ws : List (List ℕ))
    → low' ≤ low
    → high ≤ high'
    → Lead m low high as' ws
    → Lead m low' high' as' ws
Lead-wider m low low' high high' [] [] l u h = tt
Lead-wider m low low' high high' (a ∷ as') [] l u h = h
Lead-wider m low low' high high' [] (w ∷ ws) l u h = h
Lead-wider m low low' high high' (a ∷ as') (w ∷ ws) l u h = (
  omega (arith, h.0),
  omega (arith, h.1),
  h.2,
  Lead-wider m (a + length w) (a + length w) high high' as' ws (omega arith) u h.3,
)

-- The words of the text stand behind the pointers that are new, and no byte outside the text changes.
pub record Split (inner fuel : ℕ) (m : Bytes) (args : ℕ) (argv : List ℕ) (text : List ℕ)
    : Type 0 where
  pub m' : Bytes
  pub pointers : List ℕ
  pub returned : tokenize inner fuel m args argv ≡ some (m', argv ++ pointers)
  pub lead : Lead m' args (args + length text) pointers (words text)
  pub kept : (j : ℕ) → (j < args) ⊎ (args + length text ≤ j) → m' j ≡ m j
  pub bytes : ((j : ℕ) → m j < 256) → (j : ℕ) → m' j < 256

-- The pointer to a word that is not empty.
abbrev pointer : List ℕ → ℕ → List ℕ
pointer [] a = []
pointer (c ∷ cs) a = a ∷ []

pointer-push :
    (m : Bytes) (a : ℕ) (argv run : List ℕ)
    → Letters m a run
    → (length run ≡ 0 → m a ≡ 0)
    → (if m a == 0 then argv else argv ++ a ∷ []) ≡ argv ++ pointer run a
pointer-push m a argv [] l z =
    let at : (m a == 0) ≡ true = let e = z refl in ground arith in rw (at, append-nil argv) refl
pointer-push m a argv (c ∷ cs) l z =
    let at : (m a == 0) ≡ false = let e = l.1 in let ne = l.0 in ground arith in rw at refl

pointer-flush : (run : List ℕ) (a : ℕ) → length (pointer run a) ≡ length (flush run)
pointer-flush [] a = refl
pointer-flush (c ∷ cs) a = refl

-- The array has a place for the word.
pointer-room :
    (m : Bytes) (a : ℕ) (argv run : List ℕ)
    → Letters m a run
    → (length run ≡ 0 → m a ≡ 0)
    → length argv + length (pointer run a) ≤ 16
    → (not (m a == 0) && leb 16 (length argv)) ≡ false
pointer-room m a argv [] l z room =
    let at : (m a == 0) ≡ true = let e = z refl in ground arith in rw at refl
pointer-room m a argv (c ∷ cs) l z room =
    let free : leb 16 (length argv) ≡ false = ground arith in
    let at : (m a == 0) ≡ false = let e = l.1 in let ne = l.0 in ground arith in rw (at, free) refl

-- The places that the words of a text take are those of its first word and of the rest.
words-room :
    (a : ℕ) (argv run text₃ text : List ℕ)
    → flush run ++ words text₃ ≡ words text
    → length argv + length (words text) ≤ 16
    → length (argv ++ pointer run a) + length (words text₃) ≤ 16
words-room a argv run text₃ text split room = omega (
  arith,
  ap (length {0}) split,
  length-append {0} (flush run) (words text₃),
  length-append {0} argv (pointer run a),
  pointer-flush run a,
)

-- One round: the word, which the later rounds leave alone, and then the rest of the text.
module _ (inner fuel : ℕ) (m m₃ : Bytes) (args a₁ a₃ : ℕ) (argv text text₃ : List ℕ)
    (from : args ≤ a₁) (inside : a₃ + length text₃ ≤ args + length text)
    (kept₃ : (j : ℕ) → (j < args) ⊎ (args + length text ≤ j) → m₃ j ≡ m j)
    (bytes₃ : ((j : ℕ) → m j < 256) → (j : ℕ) → m₃ j < 256) where
  round-Split :
      (run : List ℕ)
      → a₁ + length run ≤ a₃
      → flush run ++ words text₃ ≡ words text
      → ((m' : Bytes)
          → ((j : ℕ) → (j < a₃) ⊎ (a₃ + length text₃ ≤ j) → m' j ≡ m₃ j)
          → Spelled m' a₁ run)
      → Split inner fuel m₃ a₃ (argv ++ pointer run a₁) text₃
      → tokenize inner (suc fuel) m args argv ≡ tokenize inner fuel m₃ a₃ (argv ++ pointer run a₁)
      → Split inner (suc fuel) m args argv text
  round-Split run over split spelled r step = record {
    m' = r.m';
    pointers = pointer run a₁ ++ r.pointers;
    returned =
        step
        ∙ r.returned
        ∙ ap (λ (x : List ℕ). some (r.m', x)) (append_assoc argv (pointer run a₁) r.pointers);
    lead =
        subst
          (λ (ws : List (List ℕ)).
            Lead r.m' args (args + length text) (pointer run a₁ ++ r.pointers) ws)
          split (leads run over (spelled r.m' r.kept));
    kept = λ j o. elim o [
      | inl below ↦ r.kept j (inl (omega arith)) ∙ kept₃ j (inl below)
      | inr above ↦ r.kept j (inr (omega arith)) ∙ kept₃ j (inr above)
    ];
    bytes = λ b. r.bytes (bytes₃ b);
  }
    where
      leads :
          (w : List ℕ)
          → a₁ + length w ≤ a₃
          → Spelled r.m' a₁ w
          → Lead r.m' args
              (args + length text)
              (pointer w a₁ ++ r.pointers)
              (flush w ++ words text₃)
      leads [] over' sp =
          Lead-wider r.m' a₃ args (a₃ + length text₃) (args + length text) r.pointers (words text₃)
            (omega arith) inside r.lead
      leads (c ∷ cs) over' sp = (
        from,
        omega arith,
        sp,
        Lead-wider r.m' a₃ (a₁ + suc (length cs)) (a₃ + length text₃) (args + length text)
            r.pointers (words text₃) over' inside r.lead,
      )

-- For at most 16 words, with fuel for two rounds more than the text is long, and more fuel for the inner loops than it is long.
pub tokenize-Split :
    (inner fuel : ℕ) (m : Bytes) (args : ℕ) (argv : List ℕ) (text : List ℕ)
    → Spelled m args text
    → length text < inner
    → length text + 1 < fuel
    → length argv + length (words text) ≤ 16
    → Split inner fuel m args argv text
unfolding tokenize words_from
tokenize-Split inner zero m args argv text h i enough room = absurd (omega arith)
tokenize-Split inner (suc fuel) m args argv [] h i enough room =
    let at : (m args == 0) ≡ true = ground arith in
    record {
      m' = m;
      pointers = [];
      returned = rw (at, append-nil argv) refl;
      lead = tt;
      kept = λ j o. refl;
      bytes = λ b. b;
    }
tokenize-Split inner (suc fuel) m args argv (c ∷ cs) h i enough room =
    let at : (m args == 0) ≡ false = let e = h.1 in let ne = h.0 in ground arith in
    let (m₁, a₁, e₁, s) = skip_spaces-Spaces inner m args (c ∷ cs) h i in
    let (a₂, e₂, w) =
      skip_word-Word inner m₁ a₁ s.left s.spelled (omega (arith, s.total, s.onward)) in
    let end = w.at_end in
    let kept₁ : (j : ℕ) → (j < args) ⊎ (args + length (c ∷ cs) ≤ j) → m₁ j ≡ m j = λ j o. elim o [
      | inl below ↦ s.kept j (inl below)
      | inr above ↦ s.kept j (inr (omega (arith, s.total)))
    ] in
    elim w.split [
      | inl (z, b, l, ws) ↦
          let parts : flush w.run ++ words [] ≡ words (c ∷ cs) =
            append-nil (flush w.run) ∙ sym (ws []) ∙ s.same_words in
          let places = words-room a₁ argv w.run [] (c ∷ cs) parts room in
          let here : (m₁ a₂ == 0) ≡ true = ground arith in
          let null : length w.run ≡ 0 → m₁ a₁ ≡ 0 =
            λ e. let same : a₁ ≡ a₂ = omega arith in ap m₁ same ∙ z in
          let push = pointer-push m₁ a₁ argv w.run w.letters null in
          let free =
            pointer-room m₁ a₁ argv w.run w.letters null
              (omega (arith, places, length-append {0} argv (pointer w.run a₁))) in
          round-Split inner fuel m m₁ args a₁ a₂ argv (c ∷ cs) [] s.onward
            (omega (arith, l, s.total)) kept₁ s.bytes w.run (omega arith) parts
            (λ m' same.
              Letters-Spelled m₁ m' a₁ w.run w.letters (λ j x y. same j (inl (omega arith)))
                (ap m' (sym end) ∙ same a₂ (inr (omega arith)) ∙ z))
            (tokenize-Split inner fuel m₁ a₂ (argv ++ pointer w.run a₁) [] z (omega arith)
              (omega arith) places)
            (rw (at, e₁, e₂, here, push, free) refl)
      | inr (z, b, l, ws) ↦
          let parts : flush w.run ++ words w.behind ≡ words (c ∷ cs) = sym (ws []) ∙ s.same_words in
          let places = words-room a₁ argv w.run w.behind (c ∷ cs) parts room in
          let here : (m₁ a₂ == 0) ≡ false = ground arith in
          let m₃ = update m₁ a₂ 0 in
          let null : length w.run ≡ 0 → m₁ a₁ ≡ 0 = λ e.
            let same : a₁ ≡ a₂ = omega arith in
            let space = ap m₁ same ∙ z in let other = s.no_space in absurd (ground arith) in
          let push = pointer-push m₁ a₁ argv w.run w.letters null in
          let free =
            pointer-room m₁ a₁ argv w.run w.letters null
              (omega (arith, places, length-append {0} argv (pointer w.run a₁))) in
          let kept₃ : (j : ℕ) → (j < args) ⊎ (args + length (c ∷ cs) ≤ j) → m₃ j ≡ m j = λ j o.
            let ne : (a₂ == j) ≡ false =
              let t = s.total in
              let on = s.onward in
              elim o [ inl below ↦ ground (arith, l) | inr above ↦ ground (arith, l) ] in
            rw ne (kept₁ j o) in
          let rest : Spelled m₃ (a₂ + 1) w.behind =
            Spelled-same m₁ m₃ (a₂ + 1) w.behind (λ j x y. ground arith) b in
          round-Split inner fuel m m₃ args a₁ (a₂ + 1) argv (c ∷ cs) w.behind s.onward
            (omega (arith, l, s.total)) kept₃ (λ b j. let x = s.bytes b j in ground arith) w.run
            (omega arith) parts
            (λ m' same.
              Letters-Spelled m₁ m' a₁ w.run w.letters
                (λ j x y.
                  let ne : (a₂ == j) ≡ false = ground arith in
                  same j (inl (omega arith)) ∙ rw ne refl)
                (ap m' (sym end) ∙ same a₂ (inl (omega arith)) ∙ ground arith))
            (tokenize-Split inner fuel m₃ (a₂ + 1) (argv ++ pointer w.run a₁) w.behind rest
              (omega (arith, l, s.total, s.onward)) (omega (arith, l, s.total, s.onward)) places)
            (rw (at, e₁, e₂, here, push, free) refl)
    ]
