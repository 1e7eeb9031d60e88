-- ===== src/Memory/Frames/Boot.antt =====
-- `PageFrameAllocator::read_efi_memory_map` and `init_bitmap`, and `get_memory_size` of
-- memory/mem.cpp: the allocator is set up from the firmware's memory map. The map is the list of the
-- `m_map_size / m_map_desc_size` descriptors that the pointer leads to.
pub mod Free
pub mod Ready
use ryanos.Prelude.{
  ℕ, zero, suc, ◌+◌, ◌-◌, ◌*◌, ◌/◌, ◌%◌, ◌^◌, Bool, true, false, List, [], ◌∷◌, ltb, ◌==◌,
  if◌then◌else◌, u64,
}
use ryanos.Memory.Bitmap.{Bitmap}
use ryanos.Memory.Frames.{Frames, lock_pages, reserve_pages, unreserve_pages}

pub record EfiMemoryDescriptor : Type 0 where
  pub type : ℕ
  pub physical_addr : ℕ
  pub num_pages : ℕ

-- EfiConventionalMemory
unfoldable pub is_conventional : EfiMemoryDescriptor → Bool
is_conventional d = d.type == 7

-- The largest free segment so far: its address and its size in bytes.
pub record Segment : Type 0 where
  pub address : ℕ
  pub size : ℕ

unfoldable pub largest_free_mem_seg : List EfiMemoryDescriptor → Segment → Segment
unfolding is_conventional
largest_free_mem_seg [] best = best
largest_free_mem_seg (d ∷ map) best = largest_free_mem_seg map (
    if is_conventional d
    then (if ltb best.size (u64 (d.num_pages * 4096))
        then record { address = d.physical_addr; size = u64 (d.num_pages * 4096) }
        else best)
    else best)

unfoldable pub memory_size_from : List EfiMemoryDescriptor → ℕ → ℕ
memory_size_from [] memory_size_bytes = memory_size_bytes
memory_size_from (d ∷ map) memory_size_bytes =
    memory_size_from map (u64 (memory_size_bytes + u64 (d.num_pages * 4096)))

unfoldable pub get_memory_size : List EfiMemoryDescriptor → ℕ
unfolding memory_size_from
get_memory_size map = memory_size_from map 0

-- The first `bitmap_size` bytes behind the address are cleared; `memory` is what stood there.
unfoldable pub init_bitmap : ℕ → ℕ → (ℕ → ℕ) → Frames → Frames
init_bitmap bitmap_size buffer_address memory f = record f {
  page_bitmap = record {
    size = bitmap_size;
    buffer = λ i. if ltb i bitmap_size then 0 else memory i;
  };
  bitmap_address = buffer_address;
}

unfoldable pub unreserve_conventional : List EfiMemoryDescriptor → Frames → Frames
unfolding is_conventional
unreserve_conventional [] f = f
unreserve_conventional (d ∷ map) f =
    unreserve_conventional map
      (if is_conventional d then unreserve_pages d.physical_addr d.num_pages f else f)

-- The bitmap is laid into the largest free segment, with a bit for each page of the memory.
unfoldable pub place_bitmap : List EfiMemoryDescriptor → (ℕ → ℕ) → Frames → Frames
unfolding largest_free_mem_seg get_memory_size init_bitmap
place_bitmap map memory f =
    let largest = largest_free_mem_seg map (record { address = 0; size = 0 }) in
    let memory_size = get_memory_size map in
    let bitmap_size = memory_size / 4096 / 8 + 1 in
    init_bitmap bitmap_size largest.address memory (record f { free_memory = memory_size })

-- Then the entire memory span is reserved.
unfoldable pub reserve_all : List EfiMemoryDescriptor → (ℕ → ℕ) → Frames → Frames
unfolding place_bitmap
reserve_all map memory f =
    reserve_pages 0 (get_memory_size map / 4096 + 1) (place_bitmap map memory f)

unfoldable pub read_efi_memory_map : List EfiMemoryDescriptor → (ℕ → ℕ) → Frames → Frames
read_efi_memory_map map memory f =
    let f₀ = record f { initialized = true } in
    let f₁ = unreserve_conventional map (reserve_all map memory f₀) in
    let f₂ = reserve_pages 0 0x100 f₁ in
    let f₃ = lock_pages f₂.bitmap_address (f₂.page_bitmap.size / 4096 + 1) f₂ in
    if f.initialized then f else f₃
