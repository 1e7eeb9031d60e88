-- ===== src/Memory/Frames/Valid.antt =====
-- The invariant of the cursor, and the operations that keep it.
use ryanos.Prelude.{
  ℕ, zero, suc, ◌+◌, ◌*◌, ◌^◌, ◌<◌, ◌≤◌, ◌≡◌, refl, Bool, true, false, arith, u64, ◌∙◌, ap,
  int_to_u64,
}
use ryanos.Memory.Bitmap.{get}
use ryanos.Memory.Bitmap.Laws.{IsBytes, get_refuses}
use ryanos.Memory.Frames.{
  Frames, lower_index, free_page, lock_page, reserve_page, unreserve_page, page_total, for_pages,
  lock_run,
}
use ryanos.Memory.Frames.Count.{IsBalanced, SetsPage-IsBalanced}
use ryanos.Memory.Frames.Single.{
  SetsPage, lock_page-SetsPage, reserve_page-SetsPage, free_page-SetsPage, unreserve_page-SetsPage,
}

-- The bitmap holds bytes, and its pages have addresses below 2^64.
pub record IsSound (f : Frames) : Type 0 where
  pub bytes : IsBytes f.page_bitmap
  pub fits : f.page_bitmap.size * 8 ≤ 2 ^ 52

-- No page below the cursor is free.
abbrev pub IsTight : Frames → Type 0
IsTight f = (j : ℕ) → j < f.page_bitmap_index → get f.page_bitmap j ≡ true

pub page_total-eq : (f : Frames) → IsSound f → page_total f ≡ f.page_bitmap.size * 8
unfolding page_total
page_total-eq f s = omega (arith, s.fits)

pub free_beyond : (f : Frames) (j : ℕ) → page_total f ≤ j → get f.page_bitmap j ≡ false
unfolding page_total
free_beyond f = get_refuses f.page_bitmap

pub held-lt : (f : Frames) (j : ℕ) → get f.page_bitmap j ≡ true → j < page_total f
held-lt f j h = ground (arith, free_beyond f j)

module _ {held : Bool} {i : ℕ} {f f' : Frames} (s : SetsPage held i f f') where
  pub same_total : page_total f' ≡ page_total f
  unfolding page_total
  same_total = ap (λ (n : ℕ). u64 (n * 8)) s.size

  pub SetsPage-IsSound : IsSound f → IsSound f'
  SetsPage-IsSound v = record { bytes = s.bytes; fits = let e = s.size in omega (arith, v.fits) }

  pub SetsPage-IsTight : IsTight f → IsTight f'
  unfolding lower_index
  SetsPage-IsTight tight j h =
      ground (arith, s.pages j, s.cursor, tight j, tight i, free_beyond f i)

-- What a sound allocator keeps: it stays sound, covers the same pages, its cursor stays below the
-- free pages and its counters balanced, if they were.
pub record Keeps (f f' : Frames) : Type 0 where
  pub sound : IsSound f'
  pub total : page_total f' ≡ page_total f
  pub tight : IsTight f → IsTight f'
  pub balanced : (memory : ℕ) → IsBalanced memory f → IsBalanced memory f'

pub Keeps-refl : (f : Frames) → IsSound f → Keeps f f
Keeps-refl f v = record { sound = v; total = refl; tight = λ t. t; balanced = λ _ b. b }

pub Keeps-trans : {f g h : Frames} → Keeps f g → Keeps g h → Keeps f h
Keeps-trans p q = record {
  sound = q.sound;
  total = q.total ∙ p.total;
  tight = λ t. q.tight (p.tight t);
  balanced = λ n b. q.balanced n (p.balanced n b);
}

pub SetsPage-Keeps :
    {held : Bool} {i : ℕ} {f f' : Frames} → SetsPage held i f f' → IsSound f → Keeps f f'
SetsPage-Keeps s v = record {
  sound = SetsPage-IsSound s v;
  total = same_total s;
  tight = SetsPage-IsTight s;
  balanced = λ n b. SetsPage-IsBalanced s b;
}

pub lock_page-Keeps : (a : ℕ) (f : Frames) → IsSound f → Keeps f (lock_page a f)
lock_page-Keeps a f v = SetsPage-Keeps (lock_page-SetsPage a f v.bytes) v

pub free_page-Keeps : (a : ℕ) (f : Frames) → IsSound f → Keeps f (free_page a f)
free_page-Keeps a f v = SetsPage-Keeps (free_page-SetsPage a f v.bytes) v

pub reserve_page-Keeps : (a : ℕ) (f : Frames) → IsSound f → Keeps f (reserve_page a f)
reserve_page-Keeps a f v = SetsPage-Keeps (reserve_page-SetsPage a f v.bytes) v

pub unreserve_page-Keeps : (a : ℕ) (f : Frames) → IsSound f → Keeps f (unreserve_page a f)
unreserve_page-Keeps a f v = SetsPage-Keeps (unreserve_page-SetsPage a f v.bytes) v

module _ (op : ℕ → Frames → Frames)
    (op-Keeps : (a : ℕ) (f : Frames) → IsSound f → Keeps f (op a f)) where
  pub for_pages-Keeps :
      (address left i : ℕ) (f : Frames) → IsSound f → Keeps f (for_pages op address left i f)
  unfolding for_pages
  for_pages-Keeps address zero i f v = Keeps-refl f v
  for_pages-Keeps address (suc left) i f v =
      let a = u64 (address + int_to_u64 (i * 4096)) in
      let one : Keeps f (op a f) = op-Keeps a f v in
      Keeps-trans one (for_pages-Keeps address left (i + 1) (op a f) one.sound)

pub lock_run-Keeps : (start left i : ℕ) (f : Frames) → IsSound f → Keeps f (lock_run start left i f)
unfolding lock_run
lock_run-Keeps start zero i f v = Keeps-refl f v
lock_run-Keeps start (suc left) i f v =
    let a = u64 ((start + i) * 4096) in
    let one : Keeps f (lock_page a f) = lock_page-Keeps a f v in
    Keeps-trans one (lock_run-Keeps start left (i + 1) (lock_page a f) one.sound)
