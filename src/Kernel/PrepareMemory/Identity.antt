-- ===== src/Kernel/PrepareMemory/Identity.antt =====
-- Pages that were mapped to themselves.
use ryanos.Prelude.{
  ℕ, zero, suc, ◌+◌, ◌*◌, ◌/◌, ◌%◌, ◌^◌, ◌<◌, ◌≤◌, ◌≡◌, refl, sym, ap, ◌∙◌, Bool, true, false,
  Option, some, arith, ltb, leb, ◌==◌, ◌&&◌, if◌then◌else◌, u64, Bool-cases, inl, inr,
}
use ryanos.Memory.PageMapIndexer.Compose.{page_start_lem, indices-lt}
use ryanos.Memory.PageTables.{Tables, PageSource, map_memory}
use ryanos.Memory.PageTables.Tree.{IsPageSource, Supplied, Paths, IsTree}
use ryanos.Memory.PageTables.Translate.{translate}
use ryanos.Memory.PageTables.Map.{same_page, map_memory-Maps}
use ryanos.Kernel.PrepareMemory.{identity_map}

-- The number of the page of a virtual address, of which the processor reads 48 bits.
abbrev pub page_of : ℕ → ℕ
page_of v = v % 2 ^ 48 / 4096

-- Two addresses have the same indices exactly when their pages are the same.
same_page_lem : (u v : ℕ) → u < 2 ^ 64 → v < 2 ^ 64 → same_page u v ≡ (page_of u == page_of v)
same_page_lem u v hu hv =
    ground (arith, page_start_lem u hu, page_start_lem v hv, indices-lt u hu, indices-lt v hv)

-- Each of the `c` pages from page `k` on, mapped in turn, has a page for each table it misses.
abbrev pub AllSupplied : {F : Type 0} → PageSource F → ℕ → ℕ → ℕ → Tables → F → Type 0
AllSupplied source root k zero t f = Unit
AllSupplied source root k (suc c) t f =
    let (t', f') = map_memory source root (k * 4096) (k * 4096) t f in
    Supplied source root (k * 4096) t f × AllSupplied source root (k + 1) c t' f'

-- The address has its page among the `c` pages from page `k` on.
abbrev pub among : ℕ → ℕ → ℕ → Bool
among k c u = leb k (page_of u) && ltb (page_of u) (k + c)

module _ {F : Type 0} (source : PageSource F) (Valid : F → Type 0) (Free : F → ℕ → Type 0)
    (law : IsPageSource source Valid Free) (root : ℕ) where
  -- What the tables and the allocator are after the pages are mapped to themselves.
  pub record Identity (k c : ℕ) (t : Tables) (t' : Tables) (f' : F) : Type 0 where
    pub path' : Paths
    pub tree' : IsTree Free root path' t' f'
    pub valid' : Valid f'
    pub translates :
        (u : ℕ)
        → u < 2 ^ 64
        → translate root t' u
          ≡ (if among k c u then some (page_of u * 4096) else translate root t u)

  round_lem :
      (k c end fuel : ℕ) (t : Tables) (f : F)
      → k + suc c ≤ 2 ^ 36
      → (end + 4095) / 4096 ≡ k + suc c
      → identity_map source root (suc fuel) (k * 4096) end t f ≡ (
          let (t', f') = map_memory source root (k * 4096) (k * 4096) t f in
          identity_map source root fuel ((k + 1) * 4096) end t' f')
  unfolding identity_map
  round_lem k c end fuel t f small last =
      let go : ltb (k * 4096) end ≡ true = ground arith in
      let next : u64 (k * 4096 + 0x1000) ≡ (k + 1) * 4096 = omega arith in
      rw (identity_map, go, next) refl

  stop_lem :
      (k end fuel : ℕ) (t : Tables) (f : F)
      → (end + 4095) / 4096 ≡ k + 0
      → identity_map source root (suc fuel) (k * 4096) end t f ≡ some (t, f)
  unfolding identity_map
  stop_lem k end fuel t f last =
      let halt : ltb (k * 4096) end ≡ false = ground arith in rw (identity_map, halt) refl

  among-suc :
      (k c u : ℕ)
      → k + suc c ≤ 2 ^ 36
      → u < 2 ^ 64
      → {A : Type 0} (here : ℕ → A) (other : A)
      → (if among (k + 1) c u
          then here (page_of u)
          else (if same_page u (k * 4096) then here k else other))
        ≡ (if among k (suc c) u then here (page_of u) else other)
  among-suc k c u small hu here other = elim (Bool-cases (among (k + 1) c u)) [
    | inl later ↦ let there : among k (suc c) u ≡ true = ground arith in rw (later, there) refl
    | inr not_later ↦
        let own : page_of (k * 4096) ≡ k = omega arith in
        let same = same_page_lem u (k * 4096) hu (omega arith) in
        elim (Bool-cases (page_of u == k)) [
          | inl at ↦
              let e : page_of u ≡ k = ground arith in
              let there : among k (suc c) u ≡ true = ground arith in
              rw (not_later, same, own, at, there) (ap here (sym e))
          | inr away ↦
              let there : among k (suc c) u ≡ false = ground arith in
              rw (not_later, same, own, away, there) refl
        ]
  ]

  -- For pages numbered below 2^36 and enough fuel, each round finding a page for each table it misses, the loop
  -- ends; the tables still hang together, each page of the run translates to itself and every other page as before.
  pub identity_map-Identity :
      (c k end fuel : ℕ) (path : Paths) (t : Tables) (f : F)
      → IsTree Free root path t f
      → Valid f
      → k + c ≤ 2 ^ 36
      → (end + 4095) / 4096 ≡ k + c
      → c < fuel
      → AllSupplied source root k c t f
      → (t' : Tables) × (f' : F) × (identity_map source root fuel (k * 4096) end t f
          ≡ some (t', f'))
        × Identity k c t t' f'
  identity_map-Identity c k end zero path t f tree valid small last enough supplied =
      elim (let no : ⊥ = omega arith in no) [ ]
  identity_map-Identity zero k end (suc fuel) path t f tree valid small last enough supplied = (
    t,
    f,
    stop_lem k end fuel t f last,
    record {
      path' = path;
      tree' = tree;
      valid' = valid;
      translates = λ u hu. let nowhere : among k 0 u ≡ false = ground arith in rw nowhere refl;
    },
  )
  identity_map-Identity (suc c) k end (suc fuel) path t f tree valid small last enough
        (now, later) =
      let own = k * 4096 in
      let mapped = map_memory source root own own t f in
      let step =
        map_memory-Maps source Valid Free law root path t f tree valid own own now (omega arith)
          (omega arith) in
      let (t'', f'', runs, is) =
        identity_map-Identity c (k + 1) end fuel step.path' mapped.0 mapped.1 step.tree' step.valid'
          (omega arith) (omega arith) (omega arith) later in
      (
        t'',
        f'',
        round_lem k c end fuel t f small last ∙ runs,
        record {
          path' = is.path';
          tree' = is.tree';
          valid' = is.valid';
          translates = λ u hu.
              is.translates u hu
              ∙ ap (λ (r : Option ℕ). if among (k + 1) c u then some (page_of u * 4096) else r)
                  (step.translates u)
              ∙ among-suc k c u small hu (λ (p : ℕ). some (p * 4096)) (translate root t u);
        },
      )
