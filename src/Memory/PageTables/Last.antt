-- ===== src/Memory/PageTables/Last.antt =====
-- The entry of the page, in a table of the last level.
use ryanos.Prelude.{
  ℕ, ◌+◌, ◌^◌, ◌<◌, ◌≡◌, ◌≢◌, refl, sym, ap, ◌∙◌, false, List, [], ◌∷◌, none, some, length, arith,
  Bool-cases, inl, inr, ◌==◌, if◌then◌else◌,
}
use ryanos.Memory.PageTables.{Tables, is_present, target, link, store}
use ryanos.Memory.PageTables.Entry.{link-lt}
use ryanos.Memory.PageTables.Tree.{Paths, IsTree}
use ryanos.Memory.PageTables.Translate.{walk, path_length}

-- The path of an entry of a last table: its index and then the table's path, from a path and the
-- indices still to go.
abbrev pub glue : List ℕ → List ℕ → List ℕ
glue [] s = s
glue (j ∷ is) s = glue is (j ∷ s)

module _ {F : Type 0} (Free : F → ℕ → Type 0) (root : ℕ) (path : Paths) (t : Tables) (f : F)
    (tree : IsTree Free root path t f) (a i : ℕ) (r : List ℕ) (own : path a ≡ some r)
    (last : length r ≡ 3) (physical : ℕ) (low : physical < 2 ^ 52) where
  -- The entry of the page is written, in a table of the last level.
  abbrev pub written : Tables
  written = store a i (link (t a i) physical) t

  pub written-at :
      (c j : ℕ)
      → written c j ≡ (if a == c then (if i == j then link (t a i) physical else t c j) else t c j)
  unfolding store
  written-at c j = ground arith

  above : (c : ℕ) (s : List ℕ) → path c ≡ some s → length s < 3 → (a == c) ≡ false
  above c s e l =
      let ne : a ≢ c = λ z. omega (arith, ap path_length (sym e ∙ ap path (sym z) ∙ own)) in
      ground arith

  pub written-above : (c j : ℕ) (s : List ℕ) → path c ≡ some s → length s < 3 → written c j ≡ t c j
  written-above c j s e l = let ne = above c s e l in written-at c j ∙ ground arith

  pub written-IsTree : IsTree Free root path written f
  written-IsTree = record {
    words = λ c j. ground (
      arith,
      written-at c j,
      tree.words c j,
      link-lt (t a i) physical (tree.words a i) (omega arith),
    );
    at_root = tree.at_root;
    child = λ c j s e l there.
        let same = written-above c j s e l in
        ap (λ (x : ℕ). path (target x)) same
        ∙ tree.child c j s e l (ap is_present (sym same) ∙ there);
    held = tree.held;
    not_null = tree.not_null;
  }

  pub written-miss :
      (is : List ℕ) (c : ℕ) (s : List ℕ)
      → path c ≡ some s
      → length s + length is ≡ 4
      → glue is s ≢ i ∷ r
      → walk written c is ≡ walk t c is
  unfolding walk
  written-miss [] c s e l ne = refl
  written-miss (j ∷ []) c s e l ne =
      ap (λ (x : ℕ). if is_present x then some (target x) else none) same
    where
      same : written c j ≡ t c j
      same = elim (Bool-cases (a == c)) [
        | inr other ↦ written-at c j ∙ ground arith
        | inl here ↦ elim (Bool-cases (i == j)) [
          | inr other ↦ written-at c j ∙ ground arith
          | inl at ↦
              let z : a ≡ c = ground arith in
              let z' : i ≡ j = ground arith in
              let ends : some s ≡ some r = sym e ∙ ap path (sym z) ∙ own in absurd (ne (cc))
        ]
      ]
  written-miss (j ∷ k ∷ is) c s e l ne = elim (Bool-cases (is_present (t c j))) [
    | inl there ↦
        let same = written-above c j s e (omega arith) in
        let next = tree.child c j s e (omega arith) there in
        rw (same, there) (written-miss (k ∷ is) (target (t c j)) (j ∷ s) next (omega arith) ne)
    | inr absent ↦ let same = written-above c j s e (omega arith) in rw (same, absent) refl
  ]
