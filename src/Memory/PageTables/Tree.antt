-- ===== src/Memory/PageTables/Tree.antt =====
-- When the tables hang together as a tree, and what the page allocator has to promise for that.
use ryanos.Prelude.{ℕ, ◌%◌, ◌^◌, ◌<◌, ◌≡◌, ◌≢◌, true, List, [], ◌∷◌, Option, some, length}
use ryanos.Memory.PageMapIndexer.{page_map_indexer}
use ryanos.Memory.PageTables.{next_table, Tables, PageSource, is_present, target}

-- The states that the allocator's laws are about, and the pages that a state can still hand out: a
-- page that is given is one of them, is one no longer, and no page becomes one.
pub record IsPageSource {F : Type 0} (source : PageSource F) (Valid : F → Type 0)
    (Free : F → ℕ → Type 0) : Type 0 where
  pub keeps : (f : F) → Valid f → Valid (source.request_page f).0
  pub gives : (f : F) → Valid f → (source.request_page f).1 ≢ 0 → Free f (source.request_page f).1
  pub takes :
      (f : F)
      → Valid f
      → (source.request_page f).1 ≢ 0
      → ¬ Free (source.request_page f).0 (source.request_page f).1
  pub less : (f : F) (a : ℕ) → Valid f → Free (source.request_page f).0 a → Free f a
  pub whole :
      (f : F)
      → Valid f
      → ((source.request_page f).1 % 4096 ≡ 0) × ((source.request_page f).1 < 2 ^ 52)

-- No level of the tables ends in NULL: whenever one is missing, the allocator gives a page for it.
abbrev pub Supplied : {F : Type 0} → PageSource F → ℕ → ℕ → Tables → F → Type 0
Supplied source root virtual t f =
    let x = page_map_indexer virtual in
    let (t₁, f₁, PDP) = next_table source root x.pdp_i t f in
    let (t₂, f₂, PD) = next_table source PDP x.pd_i t₁ f₁ in
    let (t₃, f₃, PT) = next_table source PD x.pt_i t₂ f₂ in (PDP ≢ 0) × (PD ≢ 0) × (PT ≢ 0)

-- The path of each table: the indices that lead to it from the root, the last one first.
abbrev pub Paths : Type 0
Paths = ℕ → Option (List ℕ)

-- Every entry of a table above the last level leads to the table with the longer path, and no table
-- is a page that can still be handed out.
pub record IsTree {F : Type 0} (Free : F → ℕ → Type 0) (root : ℕ) (path : Paths) (t : Tables)
    (f : F) : Type 0 where
  pub words : (a i : ℕ) → t a i < 2 ^ 64
  pub at_root : path root ≡ some []
  pub child :
      (a i : ℕ) (r : List ℕ)
      → path a ≡ some r
      → length r < 3
      → is_present (t a i) ≡ true
      → path (target (t a i)) ≡ some (i ∷ r)
  pub held : (a : ℕ) (r : List ℕ) → path a ≡ some r → ¬ Free f a
  pub not_null : (a : ℕ) (r : List ℕ) → path a ≡ some r → a ≢ 0
