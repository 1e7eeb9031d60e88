-- ===== src/Memory/Frames/RoundTrip.antt =====
-- Locking a range of free pages and freeing it again.
use ryanos.Prelude.{ℕ, ◌*◌, ◌+◌, ◌≤◌, ◌<◌, ◌≡◌, true, false, arith, ◌∙◌, if◌then◌else◌}
use ryanos.Memory.Bitmap.{get}
use ryanos.Memory.Bitmap.Laws.{IsBytes}
use ryanos.Memory.Frames.{Frames, page_index, page_total, lock_pages, free_pages}
use ryanos.Memory.Frames.Range.{FitsRange, in_range, lock_pages-SetsRange, free_pages-SetsRange}
use ryanos.Prelude.{u64}

-- For a range of at most 2^19 pages inside the address space and a bitmap of bytes, if the pages of
-- the range are covered by the bitmap and were free: `lock_pages` holds exactly those and leaves every other page,
-- and `free_pages` then gives every page its old state back; neither changes the sum of the three counters, and
-- the memory counted as used or reserved grows by the bytes of the range and falls back.
pub free_pages-lock_pages :
    (address count : ℕ) (f : Frames)
    → FitsRange address count
    → IsBytes f.page_bitmap
    → page_index address + count ≤ page_total f
    → ((j : ℕ)
        → page_index address ≤ j
        → j < page_index address + count
        → get f.page_bitmap j ≡ false)
    → (let locked = lock_pages address count f in
        let g = free_pages address count locked in
        ((j : ℕ)
          → get locked.page_bitmap j
            ≡ (if in_range (page_index address) count j then true else get f.page_bitmap j))
        × ((j : ℕ) → get g.page_bitmap j ≡ get f.page_bitmap j)
        × (u64 (locked.free_memory + locked.used_memory + locked.reserved_memory)
            ≡ u64 (f.free_memory + f.used_memory + f.reserved_memory))
        × (u64 (g.free_memory + g.used_memory + g.reserved_memory)
            ≡ u64 (f.free_memory + f.used_memory + f.reserved_memory))
        × (u64 (locked.used_memory + locked.reserved_memory)
            ≡ u64 (f.used_memory + f.reserved_memory + count * 4096))
        × (u64 (g.used_memory + g.reserved_memory) ≡ u64 (f.used_memory + f.reserved_memory)))
unfolding page_total
free_pages-lock_pages address count f fits bytes covered vacant =
    let there = lock_pages-SetsRange address count f fits bytes in
    let back = free_pages-SetsRange address count (lock_pages address count f) fits there.bytes in
    let taken = there.charge (λ j l h. (vacant j l h, omega (arith, covered))) in
    let given =
      back.charge
        (λ j l h. (ground (arith, there.pages j, covered), omega (arith, covered, there.size))) in
    (
      (λ j. ground (arith, there.pages j, covered)),
      (λ j. ground (arith, there.pages j, back.pages j, vacant j)),
      there.money,
      back.money ∙ there.money,
      ground (arith, taken),
      ground (arith, taken, given),
    )
