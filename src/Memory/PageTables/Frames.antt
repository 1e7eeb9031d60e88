-- ===== src/Memory/PageTables/Frames.antt =====
-- The page frame allocator as the source of pages for the tables.
use ryanos.Prelude.{
  ℕ, ◌*◌, ◌%◌, ◌^◌, ◌<◌, ◌≤◌, ◌≡◌, ◌≢◌, false, Option, none, some, arith, inl, inr, ◌⊎◌,
}
use ryanos.Memory.Bitmap.{get}
use ryanos.Memory.Frames.{Frames, page_total, request_page}
use ryanos.Memory.Frames.Valid.{IsSound, IsTight, Keeps}
use ryanos.Memory.Frames.Request.{Answers, answers, Granted, Exhausted, request_page-Answers}
use ryanos.Memory.PageTables.{PageSource}
use ryanos.Memory.PageTables.Tree.{IsPageSource}

-- `request_page` of the global allocator, whose search never runs out of fuel.
unfoldable pub take_page : Frames → Frames × ℕ
take_page f = elim (request_page f) [ none ↦ (f, 0) | some r ↦ r ]

abbrev pub frames : PageSource Frames
frames = record { request_page = take_page }

-- A sound allocator of at most 2^40 pages, which is what an entry's address can name.
pub record IsUsable (f : Frames) : Type 0 where
  pub sound : IsSound f
  pub tight : IsTight f
  pub nameable : page_total f ≤ 2 ^ 40

-- The page at the address is free.
abbrev pub IsFree : Frames → ℕ → Type 0
IsFree f a =
    (page : ℕ) × (a ≡ page * 4096) × (page < page_total f) × (get f.page_bitmap page ≡ false)

-- What `take_page` gives, and the state behind it.
data Taken (f : Frames) : Frames × ℕ → Type 0 where
  taken :
      {f' : Frames} {address : ℕ}
      → Keeps f f'
      → Granted f f' address ⊎ Exhausted f f' address
      → Taken f (f', address)

take_page-Taken : (f : Frames) → IsUsable f → Taken f (take_page f)
unfolding take_page
take_page-Taken f u = from (request_page f) (request_page-Answers f u.sound u.tight)
  where
    from : (r : Option (Frames × ℕ)) → Answers f r → Taken f (elim r [ none ↦ (f, 0) | some s ↦ s ])
    from none x = elim x [ ]
    from (some (f', a)) (answers k o) = taken k o

module _ (f : Frames) (u : IsUsable f) where
  keeps : {r : Frames × ℕ} → Taken f r → IsUsable r.0
  keeps (taken k o) = record {
    sound = k.sound;
    tight = k.tight u.tight;
    nameable = let e = k.total in omega (arith, u.nameable);
  }

  gives : {r : Frames × ℕ} → Taken f r → r.1 ≢ 0 → IsFree f r.1
  gives (taken k (inl g)) ne = (g.page, g.at, g.covered, g.was_free)
  gives (taken k (inr x)) ne = absurd (ne x.null)

  takes : {r : Frames × ℕ} → Taken f r → r.1 ≢ 0 → ¬ IsFree r.0 r.1
  takes (taken k (inl g)) ne (page, at, covered, free) =
      let e : g.page ≡ page = omega (arith, g.at) in ground (arith, g.pages page)
  takes (taken k (inr x)) ne free = ne x.null

  less : {r : Frames × ℕ} → Taken f r → (a : ℕ) → IsFree r.0 a → IsFree f a
  less (taken k (inl g)) a (page, at, covered, free) =
      (page, at, (let e = k.total in omega arith), ground (arith, g.pages page))
  less (taken k (inr x)) a (page, at, covered, free) =
      (page, at, (let e = k.total in omega arith), ground (arith, x.pages page))

  whole : {r : Frames × ℕ} → Taken f r → (r.1 % 4096 ≡ 0) × (r.1 < 2 ^ 52)
  whole (taken k (inl g)) = omega (arith, g.at, g.covered, u.nameable)
  whole (taken k (inr x)) = omega (arith, x.null)

-- The allocator keeps what the tables ask of it.
pub frames-IsPageSource : IsPageSource frames IsUsable IsFree
frames-IsPageSource = record {
  keeps = λ f u. keeps f u (take_page-Taken f u);
  gives = λ f u. gives f u (take_page-Taken f u);
  takes = λ f u. takes f u (take_page-Taken f u);
  less = λ f a u. less f u (take_page-Taken f u) a;
  whole = λ f u. whole f u (take_page-Taken f u);
}
