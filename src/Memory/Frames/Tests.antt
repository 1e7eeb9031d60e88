-- ===== src/Memory/Frames/Tests.antt =====
-- The allocator on small bitmaps and memory maps.
use ryanos.Prelude.{
  ℕ, ◌+◌, ◌*◌, ◌^◌, ◌≤◌, ◌<◌, ◌≡◌, refl, true, false, arith, if◌then◌else◌, ◌==◌, List, [], ◌∷◌,
  some, ◌/◌, ◌⊎◌, inl, inr, u64,
}
use ryanos.Memory.Bitmap.{get, set, bit_indexer}
use ryanos.Memory.Bitmap.Laws.{IsBytes}
use ryanos.Memory.Frames.{
  Frames, page_total, page_index, request_page, request_pages, lock_page, free_page, scan_page,
  lock_pages, free_pages,
}
use ryanos.Memory.Frames.Valid.{IsSound, IsTight, Keeps}
use ryanos.Memory.Frames.Request.{Answers, request_page-Answers}
use ryanos.Memory.Frames.Run.{AnswersRun, Blocked, request_pages-AnswersRun}
use ryanos.Memory.Frames.Starved.{request_page-request_pages}
use ryanos.Memory.Frames.Reach.{here, next, lock_one, free_one, Reach-Keeps}
use ryanos.Memory.Frames.Range.{FitsRange, in_range}
use ryanos.Memory.Frames.RoundTrip.{free_pages-lock_pages}
use ryanos.Memory.Frames.Boot.{
  EfiMemoryDescriptor, read_efi_memory_map, get_memory_size, memory_size_from, largest_free_mem_seg,
  is_conventional,
}
use ryanos.Memory.Frames.Boot.Free.{
  memory_pages, bitmap_bytes, bitmap_start, held_at_boot, read_efi_memory_map-held,
}
use ryanos.Memory.Frames.Boot.Ready.{IsFresh, IsReady, read_efi_memory_map-IsReady}

-- Sixteen pages, of which the first three and page 8 are held.
abbrev sixteen : Frames
sixteen = record {
  page_bitmap = record {
    size = 2;
    buffer = λ i. if i == 0 then 0b11100000 else if i == 1 then 0b10000000 else 0;
  };
  bitmap_address = 0;
  free_memory = 12 * 4096;
  used_memory = 4 * 4096;
  reserved_memory = 0;
  page_bitmap_index = 0;
  initialized = true;
}

sixteen-IsBytes : IsBytes sixteen.page_bitmap
sixteen-IsBytes i = ground arith

sixteen-IsSound : IsSound sixteen
sixteen-IsSound = record { bytes = sixteen-IsBytes; fits = omega arith }

sixteen-IsTight : IsTight sixteen
sixteen-IsTight j h = elim h [ ]

request_page-Answers_example : Answers sixteen (request_page sixteen)
request_page-Answers_example = request_page-Answers sixteen sixteen-IsSound sixteen-IsTight

request_pages-AnswersRun_example : AnswersRun 6 sixteen (request_pages 6 sixteen)
unfolding page_total
request_pages-AnswersRun_example =
    request_pages-AnswersRun 6 sixteen sixteen-IsSound (omega arith) (omega arith) (omega arith)

-- Any run of twelve pages from page 0 on meets page 8 or one of the first three.
no_twelve : (s : ℕ) → 0 ≤ s → s + 12 ≤ page_total sixteen → Blocked 12 sixteen s
unfolding page_total get bit_indexer
no_twelve s p h = (8, omega arith, omega arith, refl)

request_page-request_pages_example :
    (f' : Frames) × (request_pages 12 sixteen ≡ some (f', 0))
    × (request_page f' ≡ some (f', 0))
    × ((j : ℕ) → get f'.page_bitmap j ≡ get sixteen.page_bitmap j)
unfolding page_total
request_page-request_pages_example =
    request_page-request_pages 12 sixteen sixteen-IsSound (omega arith) (omega arith) (omega arith)
      no_twelve

Reach-Keeps_example : Keeps sixteen (free_page 0x8000 (lock_page 0x5000 sixteen))
Reach-Keeps_example =
    Reach-Keeps sixteen-IsSound sixteen-IsTight
      (next (next here (lock_one 0x5000)) (free_one 0x8000))

three_vacant :
    (j : ℕ) → page_index 0x4000 ≤ j → j < page_index 0x4000 + 3 → get sixteen.page_bitmap j ≡ false
unfolding page_index get bit_indexer
three_vacant j p q = elim one_of_three [
  | inl e ↦ rw e refl
  | inr (inl e) ↦ rw e refl
  | inr (inr e) ↦ rw e refl
]
  where
    one_of_three : (j ≡ 4) ⊎ (j ≡ 5) ⊎ (j ≡ 6)
    one_of_three = omega arith

three_covered : page_index 0x4000 + 3 ≤ page_total sixteen
unfolding page_index page_total
three_covered = omega arith

free_pages-lock_pages_example :
    (let locked = lock_pages 0x4000 3 sixteen in
      let g = free_pages 0x4000 3 locked in
      ((j : ℕ)
        → get locked.page_bitmap j
          ≡ (if in_range (page_index 0x4000) 3 j then true else get sixteen.page_bitmap j))
      × ((j : ℕ) → get g.page_bitmap j ≡ get sixteen.page_bitmap j)
      × (u64 (locked.free_memory + locked.used_memory + locked.reserved_memory)
          ≡ u64 (sixteen.free_memory + sixteen.used_memory + sixteen.reserved_memory))
      × (u64 (g.free_memory + g.used_memory + g.reserved_memory)
          ≡ u64 (sixteen.free_memory + sixteen.used_memory + sixteen.reserved_memory))
      × (u64 (locked.used_memory + locked.reserved_memory)
          ≡ u64 (sixteen.used_memory + sixteen.reserved_memory + 3 * 4096))
      × (u64 (g.used_memory + g.reserved_memory)
          ≡ u64 (sixteen.used_memory + sixteen.reserved_memory)))
free_pages-lock_pages_example =
    free_pages-lock_pages 0x4000 3 sixteen (omega arith, omega arith) sixteen-IsBytes three_covered
      three_vacant

-- Two megabytes, of which the upper three quarters can be used, and globals not set up yet.
abbrev two_megabytes : List EfiMemoryDescriptor
two_megabytes =
    record { type = 0; physical_addr = 0; num_pages = 256 }
    ∷ record { type = 7; physical_addr = 0x100000; num_pages = 768 }
    ∷ []

abbrev fresh : Frames
fresh = record {
  page_bitmap = record { size = 0; buffer = λ i. 0 };
  bitmap_address = 0;
  free_memory = 0;
  used_memory = 0;
  reserved_memory = 0;
  page_bitmap_index = 0;
  initialized = false;
}

fresh-IsFresh : IsFresh fresh
fresh-IsFresh = record { not_set_up = refl; unused = refl; unreserved = refl; cursor = refl }

-- The memory held other bytes before.
abbrev old_memory : ℕ → ℕ
old_memory i = 7

two_megabytes-small : memory_pages two_megabytes + 1 ≤ 2 ^ 19
unfolding get_memory_size memory_size_from
two_megabytes-small = omega arith

two_megabytes-own : FitsRange (bitmap_start two_megabytes) (bitmap_bytes two_megabytes / 4096 + 1)
unfolding get_memory_size memory_size_from bitmap_start largest_free_mem_seg is_conventional
two_megabytes-own = (omega arith, omega arith)

read_efi_memory_map-held_example :
    get (read_efi_memory_map two_megabytes old_memory fresh).page_bitmap 300
    ≡ held_at_boot two_megabytes 300
read_efi_memory_map-held_example =
    read_efi_memory_map-held two_megabytes old_memory fresh refl (λ i. omega arith)
      two_megabytes-small ((omega arith, omega arith), ((omega arith, omega arith), tt))
      two_megabytes-own 300

read_efi_memory_map-IsReady_example :
    IsReady (get_memory_size two_megabytes) (read_efi_memory_map two_megabytes old_memory fresh)
read_efi_memory_map-IsReady_example =
    read_efi_memory_map-IsReady two_megabytes old_memory fresh (λ i. omega arith)
      two_megabytes-small fresh-IsFresh

-- The first free page of the sixteen is page 3.
request_page_example : (r : Frames × ℕ) × (request_page sixteen ≡ some r) × (r.1 ≡ 0x3000)
unfolding request_page scan_page page_total get set bit_indexer lock_page
request_page_example =
    ((lock_page 0x3000 (record sixteen { page_bitmap_index = 3 }), 0x3000), refl, refl)
