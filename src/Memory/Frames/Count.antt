-- ===== src/Memory/Frames/Count.antt =====
-- The counters of the allocator against the number of pages that the bitmap holds.
use ryanos.Prelude.{
  ℕ, zero, suc, ◌+◌, ◌*◌, ◌≡◌, refl, Bool, false, ltb, arith, if◌then◌else◌, u64, ◌&&◌,
}
use ryanos.Memory.Bitmap.{Bitmap, get}
use ryanos.Memory.Bitmap.Laws.{get_refuses}
use ryanos.Memory.Frames.{Frames, page_total}
use ryanos.Memory.Frames.Single.{SetsPage}

-- How many of the first n pages are held.
pub held_pages : Bitmap → ℕ → ℕ
held_pages m zero = 0
held_pages m (suc n) = held_pages m n + (if get m n then 1 else 0)

-- The three counters add up to the memory that the allocator was given, and what is not free is
-- 4096 bytes for each held page; both modulo 2^64, as the counters are.
pub record IsBalanced (memory : ℕ) (f : Frames) : Type 0 where
  pub money : u64 (f.free_memory + f.used_memory + f.reserved_memory) ≡ memory
  pub held :
      u64 (f.used_memory + f.reserved_memory) ≡ u64 (4096 * held_pages f.page_bitmap (page_total f))

module _ {held : Bool} {i : ℕ} {f f' : Frames} (s : SetsPage held i f f') where
  held_pages-SetsPage :
      (n : ℕ)
      → held_pages f'.page_bitmap n + (if ltb i n && get f.page_bitmap i then 1 else 0)
        ≡ held_pages f.page_bitmap n + (if ltb i n && get f'.page_bitmap i then 1 else 0)
  unfolding held_pages
  held_pages-SetsPage zero = ground arith
  held_pages-SetsPage (suc n) = ground (arith, held_pages-SetsPage n, s.pages n)

  pub SetsPage-IsBalanced : {memory : ℕ} → IsBalanced memory f → IsBalanced memory f'
  unfolding page_total
  SetsPage-IsBalanced b = record {
    money = let e = s.money in omega (arith, b.money);
    held = ground (
      arith,
      s.charge,
      s.size,
      b.held,
      held_pages-SetsPage (u64 (f.page_bitmap.size * 8)),
      s.pages i,
      get_refuses f.page_bitmap i,
    );
  }

pub held_pages-zero : (m : Bitmap) → ((j : ℕ) → get m j ≡ false) → (n : ℕ) → held_pages m n ≡ 0
unfolding held_pages
held_pages-zero m vacant zero = refl
held_pages-zero m vacant (suc n) = ground (arith, held_pages-zero m vacant n, vacant n)
