-- ===== src/Memory/PageTables/Tests.antt =====
-- The page tables over the page frame allocator, from an empty root table.
use ryanos.Prelude.{
  ℕ, ◌*◌, ◌%◌, ◌^◌, ◌<◌, ◌≡◌, refl, true, false, List, [], none, some, arith, ◌==◌, if◌then◌else◌,
}
use mathlib.Core.Path.{subst}
use ryanos.Memory.Bitmap.{get, set, set_byte, bit_indexer}
use ryanos.Memory.Frames.{Frames, page_total, request_page, scan_page, lock_page}
use ryanos.Memory.PageTables.{Tables, map_memory, next_table}
use ryanos.Memory.PageMapIndexer.{page_map_indexer}
use ryanos.Memory.Paging.{get_flag, bit_selector, position}
use ryanos.Memory.PageTables.Entry.{zero_absent}
use ryanos.Memory.PageTables.Tree.{Supplied, Paths, IsTree}
use ryanos.Memory.PageTables.Map.{Maps, map_memory-Maps}
use ryanos.Memory.PageTables.Frames.{take_page, frames, IsUsable, IsFree, frames-IsPageSource}

-- Sixteen pages, of which the first three and page 8 are held.
abbrev pub sixteen : Frames
sixteen = record {
  page_bitmap = record {
    size = 2;
    buffer = λ i. if i == 0 then 0b11100000 else if i == 1 then 0b10000000 else 0;
  };
  bitmap_address = 0;
  free_memory = 12 * 4096;
  used_memory = 4 * 4096;
  reserved_memory = 0;
  page_bitmap_index = 0;
  initialized = true;
}

pub sixteen-IsUsable : IsUsable sixteen
unfolding page_total
sixteen-IsUsable = record {
  sound = record { bytes = λ i. ground arith; fits = omega arith };
  tight = λ j h. elim h [ ];
  nameable = omega arith;
}

abbrev pub empty : Tables
empty = λ a i. 0

abbrev pub root_only : Paths
root_only a = if a == 0x8000 then some [] else none

pub empty-IsTree : IsTree IsFree 0x8000 root_only empty sixteen
unfolding page_total get bit_indexer
empty-IsTree = record {
  words = λ a i. omega arith;
  at_root = refl;
  child = λ a i r own short there. cc (zero_absent);
  held = λ a r own free. held a r own free;
  not_null = λ a r own. ground arith;
}
  where
    held : (a : ℕ) (r : List ℕ) → root_only a ≡ some r → ¬ IsFree sixteen a
    held a r own (page, at, covered, free) =
        let e : page ≡ 8 = ground arith in
        let z : true ≡ false = subst (λ (p : ℕ). get sixteen.page_bitmap p ≡ false) e free in cc

all_supplied : Supplied frames 0x8000 0xffff800000123000 empty sixteen
unfolding take_page request_page scan_page lock_page get set set_byte bit_indexer page_total
    next_table page_map_indexer get_flag bit_selector position
all_supplied = (omega arith, omega arith, omega arith)

frame_whole : 0x9000 % 4096 ≡ 0
frame_whole = omega arith

frame_low : 0x9000 < 2 ^ 52
frame_low = omega arith

map_memory-Maps_example :
    (let (t', f') = map_memory frames 0x8000 0xffff800000123000 0x9000 empty sixteen in
      Maps frames IsUsable IsFree frames-IsPageSource 0x8000 root_only empty sixteen empty-IsTree
        sixteen-IsUsable 0xffff800000123000 0x9000 all_supplied frame_whole frame_low t' f')
map_memory-Maps_example =
    map_memory-Maps frames IsUsable IsFree frames-IsPageSource 0x8000 root_only empty sixteen
      empty-IsTree sixteen-IsUsable 0xffff800000123000 0x9000 all_supplied frame_whole frame_low
