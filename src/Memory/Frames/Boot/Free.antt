-- ===== src/Memory/Frames/Boot/Free.antt =====
-- Which pages are free once the allocator is set up.
use ryanos.Prelude.{
  ℕ, ◌+◌, ◌*◌, ◌/◌, ◌^◌, ◌<◌, ◌≤◌, ◌≡◌, refl, Bool, true, false, ltb, arith, if◌then◌else◌, ◌&&◌,
  ◌||◌, not, List, [], ◌∷◌, ◌∙◌, Bool-cases, inl, inr,
}
use mathlib.Core.Path.{ap₂}
use ryanos.Memory.Bitmap.{get}
use ryanos.Memory.Bitmap.Laws.{IsBytes, get_zero}
use ryanos.Memory.Frames.{
  Frames, page_index, page_total, reserve_pages, unreserve_pages, lock_pages,
}
use ryanos.Memory.Frames.Range.{
  FitsRange, SetsRange, in_range, reserve_pages-SetsRange, unreserve_pages-SetsRange,
  lock_pages-SetsRange,
}
use ryanos.Memory.Frames.Boot.{
  EfiMemoryDescriptor, is_conventional, largest_free_mem_seg, get_memory_size,
  unreserve_conventional, place_bitmap, reserve_all, read_efi_memory_map,
}

-- Page `j` lies in a conventional segment of the map.
unfoldable pub conventional_page : List EfiMemoryDescriptor → ℕ → Bool
conventional_page [] j = false
conventional_page (d ∷ map) j =
    (is_conventional d && in_range (page_index d.physical_addr) d.num_pages j)
    || conventional_page map j

abbrev pub AllFit : List EfiMemoryDescriptor → Type 0
AllFit [] = Unit {0}
AllFit (d ∷ map) = FitsRange d.physical_addr d.num_pages × AllFit map

abbrev pub memory_pages : List EfiMemoryDescriptor → ℕ
memory_pages map = get_memory_size map / 4096

abbrev pub bitmap_bytes : List EfiMemoryDescriptor → ℕ
bitmap_bytes map = memory_pages map / 8 + 1

-- Where the bitmap itself lies.
unfoldable pub bitmap_start : List EfiMemoryDescriptor → ℕ
bitmap_start map = (largest_free_mem_seg map (record { address = 0; size = 0 })).address

record Unreserved (map : List EfiMemoryDescriptor) (f f' : Frames) : Type 0 where
  pages :
      (j : ℕ)
      → get f'.page_bitmap j ≡ (if conventional_page map j then false else get f.page_bitmap j)
  bytes : IsBytes f'.page_bitmap
  size : f'.page_bitmap.size ≡ f.page_bitmap.size
  place : f'.bitmap_address ≡ f.bitmap_address

unreserve_conventional-Unreserved :
    (map : List EfiMemoryDescriptor) (f : Frames)
    → AllFit map
    → IsBytes f.page_bitmap
    → Unreserved map f (unreserve_conventional map f)
unfolding unreserve_conventional conventional_page
unreserve_conventional-Unreserved [] f fit bytes = record {
  pages = λ j. refl;
  bytes = bytes;
  size = refl;
  place = refl;
}
unreserve_conventional-Unreserved (d ∷ map) f (fit, fits) bytes =
    elim (Bool-cases (is_conventional d)) [
      | inl usable ↦
          let one = unreserve_pages-SetsRange d.physical_addr d.num_pages f fit bytes in
          let g = unreserve_pages d.physical_addr d.num_pages f in
          let rest = unreserve_conventional-Unreserved map g fits one.bytes in
          rw usable (record {
            pages = λ j. ground (arith, rest.pages j, one.pages j);
            bytes = rest.bytes;
            size = rest.size ∙ one.size;
            place = rest.place ∙ one.place;
          })
      | inr other ↦
          let rest = unreserve_conventional-Unreserved map f fits bytes in
          rw other (record {
            pages = λ j. ground (arith, rest.pages j);
            bytes = rest.bytes;
            size = rest.size;
            place = rest.place;
          })
    ]

module _ (map : List EfiMemoryDescriptor) (memory : ℕ → ℕ) (f : Frames)
    (memory_bytes : (i : ℕ) → memory i < 256) (small : memory_pages map + 1 ≤ 2 ^ 19) where
  record Reserved (g : Frames) : Type 0 where
    pages : (j : ℕ) → get g.page_bitmap j ≡ ltb j (memory_pages map + 1)
    bytes : IsBytes g.page_bitmap
    size : g.page_bitmap.size ≡ bitmap_bytes map
    place : g.bitmap_address ≡ bitmap_start map

  pub place_bitmap-zero : (j : ℕ) → get (place_bitmap map memory f).page_bitmap j ≡ false
  unfolding place_bitmap
  place_bitmap-zero = get_zero (place_bitmap map memory f).page_bitmap (λ i h. ground arith)

  pub place_bitmap-IsBytes : IsBytes (place_bitmap map memory f).page_bitmap
  unfolding place_bitmap
  place_bitmap-IsBytes i = ground (arith, memory_bytes i)

  place_bitmap-size : (place_bitmap map memory f).page_bitmap.size ≡ bitmap_bytes map
  unfolding place_bitmap
  place_bitmap-size = refl

  place_bitmap-address : (place_bitmap map memory f).bitmap_address ≡ bitmap_start map
  unfolding place_bitmap bitmap_start
  place_bitmap-address = refl

  reserve_all-Reserved : Reserved (reserve_all map memory f)
  unfolding reserve_all page_total page_index
  reserve_all-Reserved =
      let r : SetsRange true (page_index 0) (memory_pages map + 1) (place_bitmap map memory f)
          (reserve_pages 0 (memory_pages map + 1) (place_bitmap map memory f)) =
        reserve_pages-SetsRange 0 (memory_pages map + 1) (place_bitmap map memory f)
          (small, omega arith) place_bitmap-IsBytes in
      record {
        pages = λ j. ground (arith, r.pages j, place_bitmap-zero j, place_bitmap-size);
        bytes = r.bytes;
        size = r.size ∙ place_bitmap-size;
        place = r.place ∙ place_bitmap-address;
      }

-- Page `j` is held when the allocator has been set up: it lies in the bitmap's own pages, in the
-- first 256 pages, or in the memory span outside every conventional segment.
abbrev pub held_at_boot : List EfiMemoryDescriptor → ℕ → Bool
held_at_boot map j =
    ltb j (bitmap_bytes map * 8)
    && (in_range (page_index (bitmap_start map)) (bitmap_bytes map / 4096 + 1) j
        || (ltb j 0x100 || (ltb j (memory_pages map + 1) && not (conventional_page map j))))

module _ (map : List EfiMemoryDescriptor) (memory : ℕ → ℕ) (f : Frames)
    (memory_bytes : (i : ℕ) → memory i < 256) (small : memory_pages map + 1 ≤ 2 ^ 19)
    (fit : AllFit map) (own : FitsRange (bitmap_start map) (bitmap_bytes map / 4096 + 1)) where
  -- The set-up up to the last step, the bitmap's own pages.
  abbrev before_own : Frames
  before_own = reserve_pages 0 0x100 (unreserve_conventional map (reserve_all map memory f))

  reserved : Reserved map memory f memory_bytes small (reserve_all map memory f)
  reserved = reserve_all-Reserved map memory f memory_bytes small

  usable :
      Unreserved map
        (reserve_all map memory f)
        (unreserve_conventional map (reserve_all map memory f))
  usable = unreserve_conventional-Unreserved map (reserve_all map memory f) fit reserved.bytes

  low : SetsRange true 0 0x100 (unreserve_conventional map (reserve_all map memory f)) before_own
  low = rw zero_index at (
      reserve_pages-SetsRange 0 0x100 (unreserve_conventional map (reserve_all map memory f))
        (omega arith) usable.bytes)
    where
      zero_index : page_index 0 ≡ 0
      zero_index = unfold page_index in refl

  own_size : before_own.page_bitmap.size ≡ bitmap_bytes map
  own_size = low.size ∙ usable.size ∙ reserved.size

  own_place : before_own.bitmap_address ≡ bitmap_start map
  own_place = low.place ∙ usable.place ∙ reserved.place

  own_pages :
      SetsRange true
        (page_index (bitmap_start map))
        (bitmap_bytes map / 4096 + 1)
        before_own
        (lock_pages (bitmap_start map) (bitmap_bytes map / 4096 + 1) before_own)
  own_pages =
      lock_pages-SetsRange (bitmap_start map) (bitmap_bytes map / 4096 + 1) before_own own low.bytes

  set_up-held :
      (j : ℕ)
      → get
          (lock_pages before_own.bitmap_address
            (before_own.page_bitmap.size / 4096 + 1)
            before_own).page_bitmap
          j
        ≡ held_at_boot map j
  unfolding page_total
  set_up-held j =
      ap₂ (λ (a n : ℕ). get (lock_pages a (n / 4096 + 1) before_own).page_bitmap j) own_place
        own_size
      ∙ ground (
        arith,
        own_pages.pages j,
        low.pages j,
        usable.pages j,
        reserved.pages j,
        own_size,
        usable.size,
        reserved.size,
      )

-- For a memory of bytes, fewer than 2^19 pages in all and segments, the bitmap's included, of at most
-- 2^19 pages inside the address space, the allocator that was not set up yet ends with exactly the
-- pages of `held_at_boot` held.
pub read_efi_memory_map-held :
    (map : List EfiMemoryDescriptor) (memory : ℕ → ℕ) (f : Frames)
    → f.initialized ≡ false
    → ((i : ℕ) → memory i < 256)
    → memory_pages map + 1 ≤ 2 ^ 19
    → AllFit map
    → FitsRange (bitmap_start map) (bitmap_bytes map / 4096 + 1)
    → (j : ℕ) → get (read_efi_memory_map map memory f).page_bitmap j ≡ held_at_boot map j
unfolding read_efi_memory_map
read_efi_memory_map-held map memory f fresh memory_bytes small fit own j =
    rw fresh (set_up-held map memory (record f { initialized = true }) memory_bytes small fit own j)
