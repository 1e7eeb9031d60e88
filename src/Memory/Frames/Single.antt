-- ===== src/Memory/Frames/Single.antt =====
-- What locking, freeing, reserving or unreserving one page does to the allocator.
use ryanos.Prelude.{
  ℕ, ◌+◌, ◌*◌, ◌/◌, ◌≤◌, ◌≡◌, Bool, true, false, ltb, ◌==◌, if◌then◌else◌, u64, arith, ◌&&◌,
}
use ryanos.Memory.Bitmap.{get, set}
use ryanos.Memory.Bitmap.Laws.{IsBytes, set-IsBytes, set-size, set-done, get_refuses, get-set_total}
use ryanos.Memory.Frames.{
  Frames, page_index, lower_index, free_page, lock_page, reserve_page, unreserve_page, page_total,
}

-- `f'` is `f` with page `i` held or free, if the bitmap has that page. The counters move with it,
-- and the cursor does not stay above a page that became free.
pub record SetsPage (held : Bool) (i : ℕ) (f f' : Frames) : Type 0 where
  pub pages :
      (j : ℕ)
      → get f'.page_bitmap j
        ≡ (if i == j then held && ltb j (page_total f) else get f.page_bitmap j)
  pub bytes : IsBytes f'.page_bitmap
  pub size : f'.page_bitmap.size ≡ f.page_bitmap.size
  pub place : f'.bitmap_address ≡ f.bitmap_address
  pub cursor : f'.page_bitmap_index ≡ (
      if held
      then f.page_bitmap_index
      else if get f.page_bitmap i
      then lower_index f.page_bitmap_index i
      else f.page_bitmap_index)
  pub money :
      u64 (f'.free_memory + f'.used_memory + f'.reserved_memory)
      ≡ u64 (f.free_memory + f.used_memory + f.reserved_memory)
  pub charge :
      u64 (f'.used_memory + f'.reserved_memory + (if get f.page_bitmap i then 4096 else 0))
      ≡ u64 (f.used_memory + f.reserved_memory + (if get f'.page_bitmap i then 4096 else 0))

module _ (i : ℕ) (f : Frames) (held : Bool) (bytes : IsBytes f.page_bitmap) where
  written :
      (j : ℕ)
      → get (set f.page_bitmap i held).0 j
        ≡ (if i == j then held && ltb j (u64 (f.page_bitmap.size * 8)) else get f.page_bitmap j)
  written = get-set_total f.page_bitmap i held bytes

  done : (set f.page_bitmap i held).1 ≡ ltb i (u64 (f.page_bitmap.size * 8))
  done = set-done f.page_bitmap i held

  still-IsBytes : IsBytes (set f.page_bitmap i held).0
  still-IsBytes = set-IsBytes f.page_bitmap i held bytes

  same_size : (set f.page_bitmap i held).0.size ≡ f.page_bitmap.size
  same_size = set-size f.page_bitmap i held

-- Beyond the bitmap every page reads as free.
beyond : (f : Frames) (j : ℕ) → u64 (f.page_bitmap.size * 8) ≤ j → get f.page_bitmap j ≡ false
beyond f = get_refuses f.page_bitmap

module _ (a : ℕ) (f : Frames) (bytes : IsBytes f.page_bitmap) where
  pub lock_page-SetsPage : SetsPage true (page_index a) f (lock_page a f)
  unfolding lock_page page_total
  lock_page-SetsPage = record {
    pages = λ j. ground (
      arith,
      written (a / 4096) f true bytes j,
      done (a / 4096) f true bytes,
      beyond f (a / 4096),
      beyond f j,
    );
    bytes = λ j. ground (arith, bytes j, still-IsBytes (a / 4096) f true bytes j);
    size = ground (arith, same_size (a / 4096) f true bytes);
    place = ground arith;
    cursor = ground (arith, done (a / 4096) f true bytes, beyond f (a / 4096));
    money = ground (arith, done (a / 4096) f true bytes);
    charge = ground (
      arith,
      written (a / 4096) f true bytes (a / 4096),
      done (a / 4096) f true bytes,
      beyond f (a / 4096),
    );
  }

  pub reserve_page-SetsPage : SetsPage true (page_index a) f (reserve_page a f)
  unfolding reserve_page page_total
  reserve_page-SetsPage = record {
    pages = λ j. ground (
      arith,
      written (a / 4096) f true bytes j,
      done (a / 4096) f true bytes,
      beyond f (a / 4096),
      beyond f j,
    );
    bytes = λ j. ground (arith, bytes j, still-IsBytes (a / 4096) f true bytes j);
    size = ground (arith, same_size (a / 4096) f true bytes);
    place = ground arith;
    cursor = ground (arith, done (a / 4096) f true bytes, beyond f (a / 4096));
    money = ground (arith, done (a / 4096) f true bytes);
    charge = ground (
      arith,
      written (a / 4096) f true bytes (a / 4096),
      done (a / 4096) f true bytes,
      beyond f (a / 4096),
    );
  }

  pub free_page-SetsPage : SetsPage false (page_index a) f (free_page a f)
  unfolding free_page page_total
  free_page-SetsPage = record {
    pages = λ j. ground (
      arith,
      written (a / 4096) f false bytes j,
      done (a / 4096) f false bytes,
      beyond f (a / 4096),
      beyond f j,
    );
    bytes = λ j. ground (arith, bytes j, still-IsBytes (a / 4096) f false bytes j);
    size = ground (arith, same_size (a / 4096) f false bytes);
    place = ground arith;
    cursor = ground (arith, done (a / 4096) f false bytes, beyond f (a / 4096));
    money = ground (arith, done (a / 4096) f false bytes);
    charge = ground (
      arith,
      written (a / 4096) f false bytes (a / 4096),
      done (a / 4096) f false bytes,
      beyond f (a / 4096),
    );
  }

  pub unreserve_page-SetsPage : SetsPage false (page_index a) f (unreserve_page a f)
  unfolding unreserve_page page_total
  unreserve_page-SetsPage = record {
    pages = λ j. ground (
      arith,
      written (a / 4096) f false bytes j,
      done (a / 4096) f false bytes,
      beyond f (a / 4096),
      beyond f j,
    );
    bytes = λ j. ground (arith, bytes j, still-IsBytes (a / 4096) f false bytes j);
    size = ground (arith, same_size (a / 4096) f false bytes);
    place = ground arith;
    cursor = ground (arith, done (a / 4096) f false bytes, beyond f (a / 4096));
    money = ground (arith, done (a / 4096) f false bytes);
    charge = ground (
      arith,
      written (a / 4096) f false bytes (a / 4096),
      done (a / 4096) f false bytes,
      beyond f (a / 4096),
    );
  }
