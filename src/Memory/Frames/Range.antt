-- ===== src/Memory/Frames/Range.antt =====
-- The loops over a range of pages.
use ryanos.Prelude.{
  not, ℕ, zero, suc, ◌+◌, ◌*◌, ◌^◌, ◌<◌, ◌≤◌, ◌≡◌, refl, Bool, true, false, ltb, leb, ◌∙◌,
  if◌then◌else◌, u64, arith, ◌&&◌, int_to_u64,
}
use ryanos.Memory.Bitmap.{get}
use ryanos.Memory.Bitmap.Laws.{IsBytes}
use ryanos.Memory.Frames.{
  Frames, page_index, free_page, lock_page, reserve_page, unreserve_page, page_total, for_pages,
  free_pages, lock_pages, reserve_pages, unreserve_pages,
}
use ryanos.Memory.Frames.Single.{
  SetsPage, lock_page-SetsPage, reserve_page-SetsPage, free_page-SetsPage, unreserve_page-SetsPage,
}

-- Page `j` is one of the `count` pages from `first` on.
abbrev pub in_range : ℕ → ℕ → ℕ → Bool
in_range first count j = leb first j && ltb j (first + count)

-- `f'` is `f` with the pages of a range held or free, as far as the bitmap has them.
pub record SetsRange (held : Bool) (first count : ℕ) (f f' : Frames) : Type 0 where
  pub pages :
      (j : ℕ)
      → get f'.page_bitmap j
        ≡ (if in_range first count j then held && ltb j (page_total f) else get f.page_bitmap j)
  pub bytes : IsBytes f'.page_bitmap
  pub size : f'.page_bitmap.size ≡ f.page_bitmap.size
  pub place : f'.bitmap_address ≡ f.bitmap_address
  pub money :
      u64 (f'.free_memory + f'.used_memory + f'.reserved_memory)
      ≡ u64 (f.free_memory + f.used_memory + f.reserved_memory)
  -- A page of 4096 bytes is charged for each page of the range that was free and is held, and the other
  -- way round.
  pub charge :
      ((j : ℕ)
        → first ≤ j
        → j < first + count
        → (get f.page_bitmap j ≡ not held) × (j < page_total f))
      → u64 (f'.used_memory + f'.reserved_memory + (if held then 0 else count * 4096))
        ≡ u64 (f.used_memory + f.reserved_memory + (if held then count * 4096 else 0))

module _ {held : Bool} {f : Frames} where
  pub SetsRange-zero : (first : ℕ) → IsBytes f.page_bitmap → SetsRange held first 0 f f
  SetsRange-zero first bytes = record {
    pages = λ j. ground arith;
    bytes = bytes;
    size = refl;
    place = refl;
    money = refl;
    charge = λ old. ground arith;
  }

  SetsRange-charge :
      {first count : ℕ} {g f' : Frames}
      → SetsPage held first f g
      → SetsRange held (first + 1) count g f'
      → ((j : ℕ)
          → first ≤ j
          → j < first + suc count
          → (get f.page_bitmap j ≡ not held) × (j < page_total f))
      → u64 (f'.used_memory + f'.reserved_memory + (if held then 0 else suc count * 4096))
        ≡ u64 (f.used_memory + f.reserved_memory + (if held then suc count * 4096 else 0))
  unfolding page_total
  SetsRange-charge {first} {count} {g} {f'} s r old =
      let (here, covered) = old first (omega arith) (omega arith) in
      let there : get g.page_bitmap first ≡ held = ground (arith, s.pages first) in
      let later : (j : ℕ)
          → first + 1 ≤ j
          → j < first + 1 + count
          → (get g.page_bitmap j ≡ not held) × (j < page_total g) =
        λ j l h.
          let (o, c) = old j (omega arith) (omega arith) in
          (ground (arith, s.pages j), ground (arith, s.size)) in
      ground (arith, s.charge, r.charge later)

  pub SetsRange-suc :
      {first count : ℕ} {g f' : Frames}
      → SetsPage held first f g
      → SetsRange held (first + 1) count g f'
      → SetsRange held first (suc count) f f'
  unfolding page_total
  SetsRange-suc {first} s r = record {
    pages = λ j. ground (arith, s.pages j, r.pages j, s.size);
    bytes = r.bytes;
    size = r.size ∙ s.size;
    place = r.place ∙ s.place;
    money = r.money ∙ s.money;
    charge = SetsRange-charge s r;
  }

-- `address + (i * 4096)` is in the page that lies `i` pages behind that of `address`, as long as
-- the product is an `int` and the sum fits 64 bits.
offset-index :
    (a i : ℕ)
    → i < 2 ^ 19
    → a + i * 4096 < 2 ^ 64
    → page_index (u64 (a + int_to_u64 (i * 4096))) ≡ page_index a + i
unfolding page_index
offset-index a i small fits = ground arith

module _ (held : Bool) (op : ℕ → Frames → Frames)
    (op-SetsPage : (a : ℕ) (f : Frames)
      → IsBytes f.page_bitmap
      → SetsPage held (page_index a) f (op a f))
    (address : ℕ) where
  for_pages-SetsRange :
      (left i first : ℕ) (f : Frames)
      → first ≡ page_index address + i
      → i + left ≤ 2 ^ 19
      → address + (i + left) * 4096 ≤ 2 ^ 64
      → IsBytes f.page_bitmap
      → SetsRange held first left f (for_pages op address left i f)
  unfolding for_pages
  for_pages-SetsRange zero i first f e small fits bytes = SetsRange-zero first bytes
  for_pages-SetsRange (suc left) i first f e small fits bytes =
      let a = u64 (address + int_to_u64 (i * 4096)) in
      let here : page_index a ≡ first =
        offset-index address i (omega arith) (omega arith) ∙ omega arith in
      let one : SetsPage held first f (op a f) = rw here at (op-SetsPage a f bytes) in
      SetsRange-suc one (
        for_pages-SetsRange left (i + 1) (first + 1) (op a f) (omega arith) (omega arith)
          (omega arith) one.bytes)

-- The calls that the theorems are about: so few pages that `i * 4096` is an `int`, and all of them
-- inside the address space.
abbrev pub FitsRange : ℕ → ℕ → Type 0
FitsRange address count = (count ≤ 2 ^ 19) × (address + count * 4096 ≤ 2 ^ 64)

module _ (address count : ℕ) (f : Frames) (fits : FitsRange address count)
    (bytes : IsBytes f.page_bitmap) where
  pub lock_pages-SetsRange :
      SetsRange true (page_index address) count f (lock_pages address count f)
  unfolding lock_pages
  lock_pages-SetsRange =
      for_pages-SetsRange true lock_page lock_page-SetsPage address count 0 (page_index address) f
        (omega arith) (omega arith) (omega arith) bytes

  pub reserve_pages-SetsRange :
      SetsRange true (page_index address) count f (reserve_pages address count f)
  unfolding reserve_pages
  reserve_pages-SetsRange =
      for_pages-SetsRange true reserve_page reserve_page-SetsPage address count 0
        (page_index address) f (omega arith) (omega arith) (omega arith) bytes

  pub free_pages-SetsRange :
      SetsRange false (page_index address) count f (free_pages address count f)
  unfolding free_pages
  free_pages-SetsRange =
      for_pages-SetsRange false free_page free_page-SetsPage address count 0 (page_index address) f
        (omega arith) (omega arith) (omega arith) bytes

  pub unreserve_pages-SetsRange :
      SetsRange false (page_index address) count f (unreserve_pages address count f)
  unfolding unreserve_pages
  unreserve_pages-SetsRange =
      for_pages-SetsRange false unreserve_page unreserve_page-SetsPage address count 0
        (page_index address) f (omega arith) (omega arith) (omega arith) bytes
