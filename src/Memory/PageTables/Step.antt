-- ===== src/Memory/PageTables/Step.antt =====
-- One level of `map_memory` keeps the tree.
use ryanos.Prelude.{
  ℕ, Bool, ◌^◌, ◌<◌, ◌≡◌, ◌≢◌, refl, sym, ap, ◌∙◌, true, false, List, [], ◌∷◌, some, length, arith,
  Bool-cases, inl, inr, ◌⊎◌, update, ◌==◌, if◌then◌else◌,
}
use mathlib.Core.Path.{ap₂, subst}
use mathlib.Core.Bool.{false≢true}
use ryanos.Memory.PageTables.{
  Tables, PageSource, is_present, target, link, store, clear, next_table,
}
use ryanos.Memory.PageTables.Entry.{link-lt, is_present-link, target-link, zero_absent}
use ryanos.Memory.PageTables.Tree.{IsPageSource, Paths, IsTree}

module _ {F : Type 0} (source : PageSource F) (Valid : F → Type 0) (Free : F → ℕ → Type 0)
    (law : IsPageSource source Valid Free) (root : ℕ) where
  -- What one level does to the table at `a`, at index i.
  pub record Stepped (path : Paths) (t : Tables) (a i : ℕ) (r : List ℕ) (t' : Tables) (f' : F)
      (b : ℕ) : Type 0 where
    pub path' : Paths
    pub tree : IsTree Free root path' t' f'
    pub valid : Valid f'
    pub at : path' b ≡ some (i ∷ r)
    pub linked : is_present (t' a i) ≡ true
    pub leads : target (t' a i) ≡ b
    pub grows : (c : ℕ) (s : List ℕ) → path c ≡ some s → path' c ≡ some s
    pub kept :
        (c j : ℕ) (s : List ℕ)
        → path c ≡ some s
        → (is_present (t c j) ≡ true) ⊎ ((c ≢ a) ⊎ (j ≢ i))
        → t' c j ≡ t c j
    pub empty : is_present (t a i) ≡ false → (j : ℕ) → t' b j ≡ 0

  module _ (path : Paths) (t : Tables) (f : F) (tree : IsTree Free root path t f) (v : Valid f)
      (a i : ℕ) (r : List ℕ) (own : path a ≡ some r) (short : length r < 3)
      (g : (source.request_page f).1 ≢ 0) where
    abbrev page : ℕ
    page = (source.request_page f).1

    -- The page that is given has no path yet.
    fresh : (s : List ℕ) → path page ≡ some s → ⊥
    fresh s e = tree.held page s e (law.gives f v g)

    abbrev made : Tables
    made = store a i (link (t a i) page) (clear page t)

    page_ne : (c : ℕ) (s : List ℕ) → path c ≡ some s → page ≢ c
    page_ne c s e z = fresh s (ap path z ∙ e)

    -- Where a table has a path, only the entry at `a` changes.
    made-at :
        (c j : ℕ) (s : List ℕ)
        → path c ≡ some s
        → made c j ≡ (if a == c then (if i == j then link (t a i) page else t c j) else t c j)
    unfolding store clear
    made-at c j s e = let ne = page_ne c s e in let ne' = page_ne a r own in ground arith

    made-page : (j : ℕ) → made page j ≡ 0
    unfolding store clear
    made-page j = let ne = page_ne a r own in ground arith

    made-words : (c j : ℕ) → made c j < 2 ^ 64
    unfolding store clear
    made-words c j = ground (
      arith,
      tree.words c j,
      tree.words a j,
      link-lt (t a i) page (tree.words a i) (omega (arith, law.whole f v)),
      page_ne a r own,
    )

    abbrev path_made : Paths
    path_made = update path page (some (i ∷ r))

    new_target : target (link (t a i) page) ≡ page
    new_target =
        let w = law.whole f v in target-link (t a i) page (tree.words a i) (omega arith) w.0 w.1

    new_present : is_present (link (t a i) page) ≡ true
    new_present = is_present-link (t a i) page (tree.words a i) (omega (arith, law.whole f v))

    made-linked : made a i ≡ link (t a i) page
    made-linked = made-at a i r own ∙ ground arith

    grown : (c : ℕ) (s : List ℕ) → path c ≡ some s → path_made c ≡ some s
    grown c s e = let ne = page_ne c s e in ground arith

    made-old : (c : ℕ) (s : List ℕ) → path_made c ≡ some s → (page == c) ≡ false → path c ≡ some s
    made-old c s e old = ground arith

    page-path : path_made page ≡ some (i ∷ r)
    page-path = ground arith

    -- An entry that is not the new one.
    other-child :
        (c j : ℕ) (s : List ℕ)
        → path c ≡ some s
        → length s < 3
        → made c j ≡ t c j
        → is_present (made c j) ≡ true
        → path_made (target (made c j)) ≡ some (j ∷ s)
    other-child c j s e l same p =
        ap (λ (x : ℕ). path_made (target x)) same
        ∙ grown (target (t c j)) (j ∷ s) (tree.child c j s e l (ap is_present (sym same) ∙ p))

    new-child :
        (c j : ℕ) (s : List ℕ)
        → path c ≡ some s
        → a ≡ c
        → i ≡ j
        → path_made (target (made c j)) ≡ some (j ∷ s)
    new-child c j s e here at =
        let same : made c j ≡ link (t a i) page =
          ap₂ (λ (x y : ℕ). made x y) (sym here) (sym at) ∙ made-linked in
        let ends : some r ≡ some s = sym own ∙ ap path here ∙ e in
        let steps : some (i ∷ r) ≡ some (j ∷ s) = cc in
        ap (λ (x : ℕ). path_made (target x)) same ∙ ap path_made new_target ∙ page-path ∙ steps

    made-child :
        (c j : ℕ) (s : List ℕ)
        → path_made c ≡ some s
        → length s < 3
        → is_present (made c j) ≡ true
        → path_made (target (made c j)) ≡ some (j ∷ s)
    made-child c j s e l p = elim (Bool-cases (page == c)) [
      | inl new ↦
          let here : c ≡ page = ground arith in
          let none_there : made c j ≡ 0 = ap (λ (x : ℕ). made x j) here ∙ made-page j in
          absurd (false≢true (sym zero_absent ∙ ap is_present (sym none_there) ∙ p))
      | inr old ↦
          let e' = made-old c s e old in
          let at = made-at c j s e' in
          elim (Bool-cases (a == c)) [
            | inr else_where ↦ other-child c j s e' l (ground arith) p
            | inl here ↦ elim (Bool-cases (i == j)) [
              | inr other ↦ other-child c j s e' l (ground arith) p
              | inl same ↦ new-child c j s e' (ground arith) (ground arith)
            ]
          ]
    ]

    made-held : (c : ℕ) (s : List ℕ) → path_made c ≡ some s → ¬ Free (source.request_page f).0 c
    made-held c s e free = elim (Bool-cases (page == c)) [
      | inl new ↦
          let here : page ≡ c = ground arith in
          law.takes f v g (subst (λ x. Free (source.request_page f).0 x) (sym here) free)
      | inr old ↦ tree.held c s (made-old c s e old) (law.less f c v free)
    ]

    made-IsTree : IsTree Free root path_made made (source.request_page f).0
    made-IsTree = record {
      words = made-words;
      at_root = grown root [] tree.at_root;
      child = made-child;
      held = made-held;
      not_null = λ c s e. elim (Bool-cases (page == c)) [
        | inl new ↦ (let nz = g in ground arith)
        | inr old ↦ tree.not_null c s (made-old c s e old)
      ];
    }

    made-kept :
        is_present (t a i) ≡ false
        → (c j : ℕ) (s : List ℕ) → path c ≡ some s
        → (is_present (t c j) ≡ true) ⊎ ((c ≢ a) ⊎ (j ≢ i))
        → made c j ≡ t c j
    made-kept absent c j s e (inr (inl ne)) = made-at c j s e ∙ ground arith
    made-kept absent c j s e (inr (inr ne)) = made-at c j s e ∙ ground arith
    made-kept absent c j s e (inl there) = elim (Bool-cases (a == c)) [
      | inr ne ↦ made-at c j s e ∙ ground arith
      | inl here ↦ elim (Bool-cases (i == j)) [
        | inr ne ↦ made-at c j s e ∙ ground arith
        | inl same ↦
            let at : a ≡ c = ground arith in
            let at' : i ≡ j = ground arith in
            absurd (false≢true (sym absent ∙ ap₂ (λ (x y : ℕ). is_present (t x y)) at at' ∙ there))
      ]
    ]

    -- A table is made.
    step-absent :
        is_present (t a i) ≡ false → Stepped path t a i r made (source.request_page f).0 page
    step-absent absent = record {
      path' = path_made;
      tree = made-IsTree;
      valid = law.keeps f v;
      at = page-path;
      linked = ap is_present made-linked ∙ new_present;
      leads = ap target made-linked ∙ new_target;
      grows = grown;
      kept = made-kept absent;
      empty = λ _. made-page;
    }

  module _ (path : Paths) (t : Tables) (f : F) (tree : IsTree Free root path t f) (v : Valid f)
      (a i : ℕ) (r : List ℕ) (own : path a ≡ some r) (short : length r < 3) where
    -- The table is there.
    step-present : is_present (t a i) ≡ true → Stepped path t a i r t f (target (t a i))
    step-present there = record {
      path' = path;
      tree = tree;
      valid = v;
      at = tree.child a i r own short there;
      linked = there;
      leads = refl;
      grows = λ c s e. e;
      kept = λ c j s e other. refl;
      empty = λ absent. absurd (false≢true (sym absent ∙ there));
    }

    -- If the level does not end in NULL, which is what a request that fails would give.
    pub next_table-Stepped :
        (next_table source a i t f).2 ≢ 0
        → (let (t', f', b) = next_table source a i t f in Stepped path t a i r t' f' b)
    unfolding next_table
    next_table-Stepped got = elim (Bool-cases (is_present (t a i))) [
      | inl there ↦ rw there (step-present there)
      | inr absent ↦
          let given : (source.request_page f).1 ≢ 0 =
            subst
              (λ (b : Bool).
                (if◌then◌else◌ {A = Tables × F × ℕ} b (t, f, target (t a i))
                  (
                    store a i (link (t a i) (source.request_page f).1)
                        (clear (source.request_page f).1 t),
                    (source.request_page f).0,
                    (source.request_page f).1,
                  )).2
                ≢ 0)
              absent got in
          rw absent (step-absent path t f tree v a i r own short given absent)
    ]
