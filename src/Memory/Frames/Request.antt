-- ===== src/Memory/Frames/Request.antt =====
-- `request_page` hands out the lowest free page.
use ryanos.Prelude.{
  ℕ, zero, suc, ◌+◌, ◌*◌, ◌<◌, ◌≤◌, ◌≡◌, refl, true, false, ltb, ◌==◌, arith, if◌then◌else◌, u64,
  Option, some, Bool-cases, inl, inr, ltb→lt, ltb→le, ◌∙◌, ap, ◌⊎◌,
}
use native.Mathlib.Decide.{dec_lt}
use ryanos.Memory.Bitmap.{get}
use ryanos.Memory.Frames.{Frames, page_index, lock_page, page_total, scan_page, request_page}
use ryanos.Memory.Frames.Single.{SetsPage, lock_page-SetsPage}
use ryanos.Memory.Frames.Valid.{
  IsSound, IsTight, page_total-eq, free_beyond, Keeps, SetsPage-Keeps, Keeps-trans, Keeps-refl,
}

-- The lowest free page was handed out, and it alone changed hands.
pub record Granted (f f' : Frames) (address : ℕ) : Type 0 where
  pub page : ℕ
  pub at : address ≡ page * 4096
  pub covered : page < page_total f
  pub was_free : get f.page_bitmap page ≡ false
  pub lowest : (j : ℕ) → j < page → get f.page_bitmap j ≡ true
  pub pages : (j : ℕ) → get f'.page_bitmap j ≡ (if page == j then true else get f.page_bitmap j)

-- NULL: no page was free, and none changed hands.
pub record Exhausted (f f' : Frames) (address : ℕ) : Type 0 where
  pub null : address ≡ 0
  pub full : (j : ℕ) → j < page_total f → get f.page_bitmap j ≡ true
  pub pages : (j : ℕ) → get f'.page_bitmap j ≡ get f.page_bitmap j

-- The request comes back, keeps the invariants, and is granted exactly when there is a free page.
pub data Answers (f : Frames) : Option (Frames × ℕ) → Type 0 where
  answers :
      {f' : Frames} {address : ℕ}
      → Keeps f f'
      → Granted f f' address ⊎ Exhausted f f' address
      → Answers f (some (f', address))

-- The state with the cursor one further on.
abbrev advance : Frames → Frames
advance f = record f { page_bitmap_index = u64 (f.page_bitmap_index + 1) }

module _ (f : Frames) (v : IsSound f) (below : f.page_bitmap_index < page_total f) where
  cursor-suc : u64 (f.page_bitmap_index + 1) ≡ f.page_bitmap_index + 1
  cursor-suc = omega (arith, page_total-eq f v, v.fits)

  cursor_address : page_index (u64 (f.page_bitmap_index * 4096)) ≡ f.page_bitmap_index
  unfolding page_index
  cursor_address = omega (arith, page_total-eq f v, v.fits)

  cursor_address-eq : u64 (f.page_bitmap_index * 4096) ≡ f.page_bitmap_index * 4096
  cursor_address-eq = omega (arith, page_total-eq f v, v.fits)

  advance-IsTight : get f.page_bitmap f.page_bitmap_index ≡ true → IsTight f → IsTight (advance f)
  advance-IsTight taken tight j h = elim (dec_lt j f.page_bitmap_index) [
    | yes p ↦ tight j p
    | no p ↦
        let e : j ≡ f.page_bitmap_index = omega (arith, cursor-suc) in
        ap (λ k. get f.page_bitmap k) e ∙ taken
  ]

  advance-Keeps : get f.page_bitmap f.page_bitmap_index ≡ true → Keeps f (advance f)
  unfolding page_total
  advance-Keeps taken = record {
    sound = record { bytes = v.bytes; fits = v.fits };
    total = refl;
    tight = advance-IsTight taken;
    balanced = λ n b. record { money = b.money; held = b.held };
  }

  advance-Answers :
      {r : Option (Frames × ℕ)}
      → get f.page_bitmap f.page_bitmap_index ≡ true
      → Answers (advance f) r
      → Answers f r
  unfolding page_total
  advance-Answers taken (answers k (inl g)) = answers (Keeps-trans (advance-Keeps taken) k) (
      inl (record {
        page = g.page;
        at = g.at;
        covered = g.covered;
        was_free = g.was_free;
        lowest = g.lowest;
        pages = g.pages;
      }))
  advance-Answers taken (answers k (inr e)) =
      answers (Keeps-trans (advance-Keeps taken) k)
        (inr (record { null = e.null; full = e.full; pages = e.pages }))

  grant :
      IsTight f
      → get f.page_bitmap f.page_bitmap_index ≡ false
      → Answers f
          (some (lock_page (u64 (f.page_bitmap_index * 4096)) f, u64 (f.page_bitmap_index * 4096)))
  grant tight vacant =
      let set : SetsPage true f.page_bitmap_index f
          (lock_page (u64 (f.page_bitmap_index * 4096)) f) =
        rw cursor_address at (lock_page-SetsPage (u64 (f.page_bitmap_index * 4096)) f v.bytes) in
      answers (SetsPage-Keeps set v) (
        inl (record {
          page = f.page_bitmap_index;
          at = cursor_address-eq;
          covered = below;
          was_free = vacant;
          lowest = tight;
          pages = λ j. ground (arith, set.pages j);
        }))

scan_page-Answers :
    (fuel : ℕ) (f : Frames)
    → IsSound f
    → IsTight f
    → page_total f < fuel + f.page_bitmap_index
    → Answers f (scan_page fuel f)
unfolding scan_page
scan_page-Answers zero f v tight enough =
    absurd (ground (arith, tight (page_total f), free_beyond f (page_total f)))
scan_page-Answers (suc fuel) f v tight enough =
    elim (Bool-cases (ltb f.page_bitmap_index (page_total f))) [
      | inr out ↦ rw out (exhausted (ltb→le _ _ out))
      | inl inside ↦
          let below = ltb→lt _ _ inside in
          elim (Bool-cases (get f.page_bitmap f.page_bitmap_index)) [
            | inr vacant ↦ rw (inside, vacant) (grant f v below tight vacant)
            | inl taken ↦
                let k = advance-Keeps f v below taken in
                rw (inside, taken)
                  (advance-Answers f v below taken (
                    scan_page-Answers fuel (advance f) k.sound (k.tight tight)
                      (omega (arith, k.total, cursor-suc f v below))))
          ]
    ]
  where
    exhausted : page_total f ≤ f.page_bitmap_index → Answers f (some (f, 0))
    exhausted out =
        answers (Keeps-refl f v)
          (inr (record { null = refl; full = λ j h. tight j (omega arith); pages = λ j. refl }))

-- A sound allocator whose cursor is not above a free page answers every request, and keeps both:
-- it hands out the lowest free page and holds that page alone, or, exactly when the bitmap has no
-- free page, returns NULL and changes no page.
pub request_page-Answers : (f : Frames) → IsSound f → IsTight f → Answers f (request_page f)
unfolding request_page
request_page-Answers f v tight = scan_page-Answers (page_total f + 1) f v tight (omega arith)
