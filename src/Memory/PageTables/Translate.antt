-- ===== src/Memory/PageTables/Translate.antt =====
-- The tables as the processor reads them: a map from pages to frames, which `map_memory` extends.
use ryanos.Prelude.{
  ℕ, ◌+◌, ◌<◌, ◌≤◌, ◌≡◌, ◌≢◌, refl, sym, ap, ◌∙◌, true, false, List, [], ◌∷◌, Option, none, some,
  length, arith, Bool-cases, inl, inr, ◌==◌, if◌then◌else◌,
}
use mathlib.Core.Path.{ap₂}
use ryanos.Memory.PageMapIndexer.{page_map_indexer}
use ryanos.Memory.PageTables.{Tables, PageSource, is_present, target}
use ryanos.Memory.PageTables.Entry.{zero_absent}
use ryanos.Memory.PageTables.Tree.{IsPageSource, Paths, IsTree}
use ryanos.Memory.PageTables.Step.{Stepped}

-- The frame that the indices lead to from the table at `a`, the last index being that of the page.
unfoldable pub walk : Tables → ℕ → List ℕ → Option ℕ
walk t a [] = none
walk t a (i ∷ []) = if is_present (t a i) then some (target (t a i)) else none
walk t a (i ∷ j ∷ is) =
    let deep = walk t (target (t a i)) (j ∷ is) in if is_present (t a i) then deep else none

abbrev pub indices : ℕ → List ℕ
indices v = let x = page_map_indexer v in x.pdp_i ∷ x.pd_i ∷ x.pt_i ∷ x.p_i ∷ []

-- The frame of the page of a virtual address.
abbrev pub translate : ℕ → Tables → ℕ → Option ℕ
translate root t v = walk t root (indices v)

abbrev pub path_length : Option (List ℕ) → ℕ
path_length none = 0
path_length (some s) = length s

module _ {F : Type 0} (source : PageSource F) (Valid : F → Type 0) (Free : F → ℕ → Type 0)
    (law : IsPageSource source Valid Free) (root : ℕ) where
  -- A level that is made or found changes no translation.
  module _ (path : Paths) (t : Tables) (f : F) (tree : IsTree Free root path t f) (a i : ℕ)
      (r : List ℕ) (short : length r < 3) (own : path a ≡ some r) (t' : Tables) (f' : F) (b : ℕ)
      (st : Stepped source Valid Free law root path t a i r t' f' b) where
    -- The table at the end of a path that is too short is not the one of a longer path.
    apart : (c : ℕ) (s : List ℕ) → path c ≡ some s → 3 ≤ length s → c ≢ a
    apart c s e l z = omega (arith, ap path_length (sym e ∙ ap path z ∙ own))

    empty-walk : is_present (t a i) ≡ false → (k : ℕ) (is : List ℕ) → walk t' b (k ∷ is) ≡ none
    unfolding walk
    empty-walk absent k [] =
        let z : is_present (t' b k) ≡ false = ap is_present (st.empty absent k) ∙ zero_absent in
        rw z refl
    empty-walk absent k (j ∷ is) =
        let z : is_present (t' b k) ≡ false = ap is_present (st.empty absent k) ∙ zero_absent in
        rw z refl

    -- An entry that was absent is absent still, or leads to an empty table.
    absent-walk :
        (c j : ℕ) (s : List ℕ)
        → path c ≡ some s
        → is_present (t c j) ≡ false
        → (k : ℕ) (is : List ℕ) → walk t' c (j ∷ k ∷ is) ≡ none
    unfolding walk
    absent-walk c j s e absent k is = elim (Bool-cases (c == a)) [
      | inr ne ↦
          let same = st.kept c j s e (inr (inl (λ z. ground arith))) in
          let z : is_present (t' c j) ≡ false = ap is_present same ∙ absent in rw z refl
      | inl here ↦ elim (Bool-cases (j == i)) [
        | inr ne ↦
            let same = st.kept c j s e (inr (inr (λ z. ground arith))) in
            let z : is_present (t' c j) ≡ false = ap is_present same ∙ absent in rw z refl
        | inl there ↦
            let at : c ≡ a = ground arith in
            let at' : j ≡ i = ground arith in
            let entry : t' c j ≡ t' a i = ap₂ (λ (x y : ℕ). t' x y) at at' in
            let old : is_present (t a i) ≡ false =
              ap₂ (λ (x y : ℕ). is_present (t x y)) (sym at) (sym at') ∙ absent in
            let linked : is_present (t' c j) ≡ true = ap is_present entry ∙ st.linked in
            let leads : target (t' c j) ≡ b = ap target entry ∙ st.leads in
            rw (linked, leads) (empty-walk old k is)
      ]
    ]

    pub step-walk :
        (is : List ℕ) (c : ℕ) (s : List ℕ)
        → path c ≡ some s
        → length s + length is ≡ 4
        → walk t' c is ≡ walk t c is
    unfolding walk
    step-walk [] c s e l = refl
    step-walk (j ∷ []) c s e l =
        ap (λ (x : ℕ). if is_present x then some (target x) else none)
          (st.kept c j s e (inr (inl (apart c s e (omega arith)))))
    step-walk (j ∷ k ∷ is) c s e l = elim (Bool-cases (is_present (t c j))) [
      | inl there ↦
          let same = st.kept c j s e (inl there) in
          let next = tree.child c j s e (omega arith) there in
          rw (same, there) (step-walk (k ∷ is) (target (t c j)) (j ∷ s) next (omega arith))
      | inr absent ↦
          let none_before : walk t c (j ∷ k ∷ is) ≡ none = rw absent refl in
          absent-walk c j s e absent k is ∙ sym none_before
    ]
