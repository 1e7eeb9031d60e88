-- ===== src/Memory/Frames.antt =====
-- memory/page_frame_allocator.cpp: the allocator of physical pages over the page bitmap, with the
-- counters and the cursor that the file keeps in globals. Addresses are numbers, and NULL is 0.
--
-- The `int` loops over pages run `page_count` rounds, as they do below 2^31 rounds, and the
-- product `i * 4096` is an `int` that is extended to 64 bits.
pub mod Single
pub mod Range
pub mod Count
pub mod Valid
pub mod Reach
pub mod RoundTrip
mod Tests
pub mod Boot
pub mod Request
pub mod Run
pub mod Starved
use ryanos.Prelude.{
  ℕ, zero, suc, ◌+◌, ◌-◌, ◌*◌, ◌/◌, ◌%◌, ◌^◌, Bool, true, false, Option, none, some, ltb, ◌==◌,
  if◌then◌else◌, u64, sub64, int_to_u64,
}
use ryanos.Memory.Bitmap.{Bitmap, get, set}

pub record Frames : Type 0 where
  pub page_bitmap : Bitmap
  pub bitmap_address : ℕ
  pub free_memory : ℕ
  pub used_memory : ℕ
  pub reserved_memory : ℕ
  pub page_bitmap_index : ℕ
  pub initialized : Bool

unfoldable pub page_index : ℕ → ℕ
page_index address = address / 4096

-- The cursor follows a page that becomes free below it.
unfoldable pub lower_index : ℕ → ℕ → ℕ
lower_index cursor index = if ltb index cursor then index else cursor

unfoldable pub free_page : ℕ → Frames → Frames
unfolding page_index lower_index
free_page address f =
    let index = page_index address in
    let (bitmap, done) = set f.page_bitmap index false in
    if get f.page_bitmap index
    then (if done
        then record f {
          page_bitmap = bitmap;
          free_memory = u64 (f.free_memory + 4096);
          used_memory = sub64 f.used_memory 4096;
          page_bitmap_index = lower_index f.page_bitmap_index index;
        }
        else record f { page_bitmap = bitmap })
    else f

unfoldable pub lock_page : ℕ → Frames → Frames
unfolding page_index
lock_page address f =
    let index = page_index address in
    let (bitmap, done) = set f.page_bitmap index true in
    if get f.page_bitmap index
    then f
    else if done
    then record f {
      page_bitmap = bitmap;
      free_memory = sub64 f.free_memory 4096;
      used_memory = u64 (f.used_memory + 4096);
    }
    else record f { page_bitmap = bitmap }

unfoldable pub reserve_page : ℕ → Frames → Frames
unfolding page_index
reserve_page address f =
    let index = page_index address in
    let (bitmap, done) = set f.page_bitmap index true in
    if get f.page_bitmap index
    then f
    else if done
    then record f {
      page_bitmap = bitmap;
      free_memory = sub64 f.free_memory 4096;
      reserved_memory = u64 (f.reserved_memory + 4096);
    }
    else record f { page_bitmap = bitmap }

unfoldable pub unreserve_page : ℕ → Frames → Frames
unfolding page_index lower_index
unreserve_page address f =
    let index = page_index address in
    let (bitmap, done) = set f.page_bitmap index false in
    if get f.page_bitmap index
    then (if done
        then record f {
          page_bitmap = bitmap;
          free_memory = u64 (f.free_memory + 4096);
          reserved_memory = sub64 f.reserved_memory 4096;
          page_bitmap_index = lower_index f.page_bitmap_index index;
        }
        else record f { page_bitmap = bitmap })
    else f

-- `for(int i = 0; i < page_count; i++) op(address + (i * 4096))`, from round `i` on.
unfoldable pub for_pages : (ℕ → Frames → Frames) → ℕ → ℕ → ℕ → Frames → Frames
for_pages op address zero i f = f
for_pages op address (suc left) i f =
    for_pages op address left (i + 1) (op (u64 (address + int_to_u64 (i * 4096))) f)

unfoldable pub free_pages : ℕ → ℕ → Frames → Frames
free_pages address page_count f = for_pages free_page address page_count 0 f

unfoldable pub lock_pages : ℕ → ℕ → Frames → Frames
lock_pages address page_count f = for_pages lock_page address page_count 0 f

unfoldable pub reserve_pages : ℕ → ℕ → Frames → Frames
reserve_pages address page_count f = for_pages reserve_page address page_count 0 f

unfoldable pub unreserve_pages : ℕ → ℕ → Frames → Frames
unreserve_pages address page_count f = for_pages unreserve_page address page_count 0 f

-- The number of pages that the bitmap covers: `page_bitmap.size * 8`.
unfoldable pub page_total : Frames → ℕ
page_total f = u64 (f.page_bitmap.size * 8)

-- The loop of `request_page`; `none` means that the fuel ran out, and address 0 is NULL.
unfoldable pub scan_page : ℕ → Frames → Option (Frames × ℕ)
unfolding page_total
scan_page zero f = none
scan_page (suc fuel) f =
    let index = f.page_bitmap_index in
    let continue = scan_page fuel (record f { page_bitmap_index = u64 (index + 1) }) in
    if ltb index (page_total f)
    then (if get f.page_bitmap index
        then continue
        else some (lock_page (u64 (index * 4096)) f, u64 (index * 4096)))
    else some (f, 0)

unfoldable pub request_page : Frames → Option (Frames × ℕ)
unfolding page_total
request_page f = scan_page (page_total f + 1) f

-- `for (size_t i = 0; i < num_pages; i++) lock_page((start_index + i) * 4096)`
unfoldable pub lock_run : ℕ → ℕ → ℕ → Frames → Frames
lock_run start_index zero i f = f
lock_run start_index (suc left) i f =
    lock_run start_index left (i + 1) (lock_page (u64 ((start_index + i) * 4096)) f)

-- The loop of `request_pages`, with its two local variables.
unfoldable pub scan_pages : ℕ → ℕ → ℕ → ℕ → Frames → Option (Frames × ℕ)
unfolding page_total
scan_pages num_pages zero start_index contiguous_pages f = none
scan_pages num_pages (suc fuel) start_index contiguous_pages f =
    let index = f.page_bitmap_index in
    let next = record f { page_bitmap_index = u64 (index + 1) } in
    let restart = scan_pages num_pages fuel (u64 (index + 1)) 0 next in
    let continue = scan_pages num_pages fuel start_index (u64 (contiguous_pages + 1)) next in
    if ltb index (page_total f)
    then (if get f.page_bitmap index
        then restart
        else if u64 (contiguous_pages + 1) == num_pages
        then some (lock_run start_index num_pages 0 f, u64 (start_index * 4096))
        else continue)
    else some (f, 0)

unfoldable pub request_pages : ℕ → Frames → Option (Frames × ℕ)
unfolding page_total
request_pages num_pages f = scan_pages num_pages (page_total f + 1) f.page_bitmap_index 0 f
