-- ===== src/Memory/PageTables/Map.antt =====
-- `map_memory` maps one page and leaves the others as they are.
use ryanos.Prelude.{
  ℕ, ◌%◌, ◌^◌, ◌<◌, ◌≡◌, ◌≢◌, refl, sym, ap, ◌∙◌, Bool, true, false, List, [], ◌∷◌, some, length,
  arith, Bool-cases, inl, inr, ◌==◌, ◌&&◌, if◌then◌else◌,
}
use mathlib.Core.Path.{subst}
use ryanos.Memory.PageMapIndexer.{PageMapIndexer, page_map_indexer}
use ryanos.Memory.PageTables.{
  Tables, PageSource, is_present, target, link, next_table, map_memory, get_page_table_entry,
  get_page_table_entry_from_table,
}
use ryanos.Memory.PageTables.Entry.{is_present-link, target-link}
use ryanos.Memory.PageTables.Tree.{IsPageSource, Supplied, Paths, IsTree}
use ryanos.Memory.PageTables.Step.{Stepped, next_table-Stepped}
use ryanos.Memory.PageTables.Translate.{walk, indices, translate, step-walk}
use ryanos.Memory.PageTables.Last.{
  glue, written, written-at, written-above, written-IsTree, written-miss,
}

-- The two addresses have the same four indices.
abbrev pub same_page : ℕ → ℕ → Bool
same_page u v =
    let x = page_map_indexer u in
    let y = page_map_indexer v in
    (x.pdp_i == y.pdp_i) && ((x.pd_i == y.pd_i) && ((x.pt_i == y.pt_i) && (x.p_i == y.p_i)))

module _ {F : Type 0} (source : PageSource F) (Valid : F → Type 0) (Free : F → ℕ → Type 0)
    (law : IsPageSource source Valid Free) (root : ℕ) (path : Paths) (t : Tables) (f : F)
    (tree : IsTree Free root path t f) (valid : Valid f) (virtual physical : ℕ)
    (supplied : Supplied source root virtual t f) (whole : physical % 4096 ≡ 0)
    (low : physical < 2 ^ 52) where
  abbrev x : PageMapIndexer
  x = page_map_indexer virtual

  -- The three levels: the tables, the allocator and the table that each one leads to.
  abbrev level₁ : Tables × F × ℕ
  level₁ = next_table source root x.pdp_i t f

  step₁ : Stepped source Valid Free law root path t root x.pdp_i [] level₁.0 level₁.1 level₁.2
  step₁ =
      next_table-Stepped source Valid Free law root path t f tree valid root x.pdp_i [] tree.at_root
        (omega arith) supplied.0

  abbrev level₂ : Tables × F × ℕ
  level₂ = next_table source level₁.2 x.pd_i level₁.0 level₁.1

  step₂ :
      Stepped source Valid Free law root step₁.path' level₁.0 level₁.2 x.pd_i
        (x.pdp_i ∷ [])
        level₂.0
        level₂.1
        level₂.2
  step₂ =
      next_table-Stepped source Valid Free law root step₁.path' level₁.0 level₁.1 step₁.tree
        step₁.valid level₁.2 x.pd_i (x.pdp_i ∷ []) step₁.at (omega arith) supplied.1

  abbrev level₃ : Tables × F × ℕ
  level₃ = next_table source level₂.2 x.pt_i level₂.0 level₂.1

  step₃ :
      Stepped source Valid Free law root step₂.path' level₂.0 level₂.2 x.pt_i
        (x.pd_i ∷ x.pdp_i ∷ [])
        level₃.0
        level₃.1
        level₃.2
  step₃ =
      next_table-Stepped source Valid Free law root step₂.path' level₂.0 level₂.1 step₂.tree
        step₂.valid level₂.2 x.pt_i (x.pd_i ∷ x.pdp_i ∷ []) step₂.at (omega arith) supplied.2

  abbrev mapped : Tables
  mapped =
      written Free root step₃.path' level₃.0 level₃.1 step₃.tree level₃.2 x.p_i
        (x.pt_i ∷ x.pd_i ∷ x.pdp_i ∷ []) step₃.at refl physical low

  map_memory-mapped : map_memory source root virtual physical t f ≡ (mapped, level₃.1)
  unfolding map_memory
  map_memory-mapped = refl

  -- The three levels change no translation.
  levels-walk : (is : List ℕ) → length is ≡ 4 → walk level₃.0 root is ≡ walk t root is
  levels-walk is four =
      step-walk source Valid Free law root step₂.path' level₂.0 level₂.1 step₂.tree level₂.2 x.pt_i
        (x.pd_i ∷ x.pdp_i ∷ []) (omega arith) step₂.at level₃.0 level₃.1 level₃.2 step₃ is root []
        step₂.tree.at_root (omega arith)
      ∙ step-walk source Valid Free law root step₁.path' level₁.0 level₁.1 step₁.tree level₁.2
          x.pd_i (x.pdp_i ∷ []) (omega arith) step₁.at level₂.0 level₂.1 level₂.2 step₂ is root []
          step₁.tree.at_root (omega arith)
      ∙ step-walk source Valid Free law root path t f tree root x.pdp_i [] (omega arith)
          tree.at_root level₁.0 level₁.1 level₁.2 step₁ is root [] tree.at_root (omega arith)

  keeps-mapped :
      (c j : ℕ) (s : List ℕ) → step₃.path' c ≡ some s → length s < 3 → mapped c j ≡ level₃.0 c j
  keeps-mapped =
      written-above Free root step₃.path' level₃.0 level₃.1 step₃.tree level₃.2 x.p_i
        (x.pt_i ∷ x.pd_i ∷ x.pdp_i ∷ []) step₃.at refl physical low

  -- The entries on the way to the page.
  way₁ : mapped root x.pdp_i ≡ level₁.0 root x.pdp_i
  way₁ =
      keeps-mapped root x.pdp_i [] step₃.tree.at_root (omega arith)
      ∙ step₃.kept root x.pdp_i [] step₂.tree.at_root (
          inl (
            ap is_present (step₂.kept root x.pdp_i [] step₁.tree.at_root (inl step₁.linked))
            ∙ step₁.linked))
      ∙ step₂.kept root x.pdp_i [] step₁.tree.at_root (inl step₁.linked)

  way₂ : mapped level₁.2 x.pd_i ≡ level₂.0 level₁.2 x.pd_i
  way₂ =
      let own = step₂.grows level₁.2 (x.pdp_i ∷ []) step₁.at in
      keeps-mapped level₁.2 x.pd_i (x.pdp_i ∷ []) (step₃.grows level₁.2 (x.pdp_i ∷ []) own)
        (omega arith)
      ∙ step₃.kept level₁.2 x.pd_i (x.pdp_i ∷ []) own (inl step₂.linked)

  way₃ : mapped level₂.2 x.pt_i ≡ level₃.0 level₂.2 x.pt_i
  way₃ =
      keeps-mapped level₂.2 x.pt_i (x.pd_i ∷ x.pdp_i ∷ [])
        (step₃.grows level₂.2 (x.pd_i ∷ x.pdp_i ∷ []) step₂.at) (omega arith)

  way₄ : mapped level₃.2 x.p_i ≡ link (level₃.0 level₃.2 x.p_i) physical
  way₄ =
      written-at Free root step₃.path' level₃.0 level₃.1 step₃.tree level₃.2 x.p_i
        (x.pt_i ∷ x.pd_i ∷ x.pdp_i ∷ []) step₃.at refl physical low level₃.2 x.p_i
      ∙ ground arith

  mapped-hit : walk mapped root (indices virtual) ≡ some physical
  unfolding walk
  mapped-hit =
      let present₄ =
        is_present-link (level₃.0 level₃.2 x.p_i) physical (step₃.tree.words level₃.2 x.p_i)
          (omega arith) in
      let target₄ =
        target-link (level₃.0 level₃.2 x.p_i) physical (step₃.tree.words level₃.2 x.p_i)
          (omega arith) whole low in
      rw
        (
          way₁, step₁.linked, step₁.leads, way₂, step₂.linked, step₂.leads, way₃, step₃.linked,
          step₃.leads, way₄, present₄, target₄,
        )
        refl

  mapped-translate :
      (u : ℕ)
      → translate root mapped u
        ≡ (if same_page u virtual then some physical else translate root t u)
  mapped-translate u = elim (Bool-cases (same_page u virtual)) [
    | inl same ↦
        let y = page_map_indexer u in
        let e₀ : y.pdp_i ≡ x.pdp_i = ground arith in
        let e₁ : y.pd_i ≡ x.pd_i = ground arith in
        let e₂ : y.pt_i ≡ x.pt_i = ground arith in
        let e₃ : y.p_i ≡ x.p_i = ground arith in
        let here : indices u ≡ indices virtual = cc in
        rw same (ap (λ (is : List ℕ). walk mapped root is) here ∙ mapped-hit)
    | inr other ↦ rw other (
        written-miss Free root step₃.path' level₃.0 level₃.1 step₃.tree level₃.2 x.p_i
          (x.pt_i ∷ x.pd_i ∷ x.pdp_i ∷ []) step₃.at refl physical low (indices u) root []
          step₃.tree.at_root (omega arith) (differ other)
        ∙ levels-walk (indices u) refl)
  ]
    where
      differ :
          same_page u virtual ≡ false → glue (indices u) [] ≢ x.p_i ∷ x.pt_i ∷ x.pd_i ∷ x.pdp_i ∷ []
      differ other z =
          let y = page_map_indexer u in
          let e₀ : y.pdp_i ≡ x.pdp_i = cc in
          let e₁ : y.pd_i ≡ x.pd_i = cc in
          let e₂ : y.pt_i ≡ x.pt_i = cc in let e₃ : y.p_i ≡ x.p_i = cc in ground arith

  found : get_page_table_entry root virtual mapped ≡ some (level₃.2, x.p_i)
  unfolding get_page_table_entry get_page_table_entry_from_table
  found =
      let z₁ : (level₁.2 == 0) ≡ false =
        let nz = step₁.tree.not_null level₁.2 (x.pdp_i ∷ []) step₁.at in ground arith in
      let z₂ : (level₂.2 == 0) ≡ false =
        let nz = step₂.tree.not_null level₂.2 (x.pd_i ∷ x.pdp_i ∷ []) step₂.at in ground arith in
      let z₃ : (level₃.2 == 0) ≡ false =
        let nz = step₃.tree.not_null level₃.2 (x.pt_i ∷ x.pd_i ∷ x.pdp_i ∷ []) step₃.at in
        ground arith in
      rw
        (
          get_page_table_entry, get_page_table_entry_from_table, way₁, step₁.linked, step₁.leads,
          z₁, way₂, step₂.linked, step₂.leads, z₂, way₃, step₃.linked, step₃.leads, z₃,
        )
        refl

  -- What the tables and the allocator are afterwards.
  pub record Maps (t' : Tables) (f' : F) : Type 0 where
    pub path' : Paths
    pub tree' : IsTree Free root path' t' f'
    pub valid' : Valid f'
    pub translates :
        (u : ℕ)
        → translate root t' u ≡ (if same_page u virtual then some physical else translate root t u)
    pub entry_found :
        (table : ℕ) × (index : ℕ) × (get_page_table_entry root virtual t' ≡ some (table, index))
        × (is_present (t' table index) ≡ true)
        × (target (t' table index) ≡ physical)

  -- For tables that hang together, a valid allocator that has a page for each table that is missing, and a whole
  -- page below 2^52: afterwards the tables still hang together, the virtual page translates to the physical one
  -- and every other page as before, and `get_page_table_entry` finds the entry of the page.
  pub map_memory-Maps : (let (t', f') = map_memory source root virtual physical t f in Maps t' f')
  map_memory-Maps =
      subst (λ (r : Tables × F). Maps r.0 r.1) (sym map_memory-mapped)
        (record {
          path' = step₃.path';
          tree' =
              written-IsTree Free root step₃.path' level₃.0 level₃.1 step₃.tree level₃.2 x.p_i
                (x.pt_i ∷ x.pd_i ∷ x.pdp_i ∷ []) step₃.at refl physical low;
          valid' = step₃.valid;
          translates = mapped-translate;
          entry_found = (
            level₃.2,
            x.p_i,
            found,
            ap is_present way₄
                ∙ is_present-link (level₃.0 level₃.2 x.p_i) physical
                    (step₃.tree.words level₃.2 x.p_i) (omega arith),
            ap target way₄
                ∙ target-link (level₃.0 level₃.2 x.p_i) physical (step₃.tree.words level₃.2 x.p_i)
                    (omega arith) whole low,
          );
        })
