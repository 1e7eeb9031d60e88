-- ===== src/Memory/Heap/Init.antt =====
-- `init_heap` of memory/mem.cpp, over the page tables, and the three functions that read the counters.
-- The heap is one free block afterwards, which is where malloc and free start from. The global
-- last_node, which nothing reads, is left out.
use ryanos.Prelude.{
  ℕ, zero, suc, ◌+◌, ◌-◌, ◌*◌, ◌^◌, ◌<◌, ◌≤◌, ◌≡◌, ◌≢◌, refl, true, false, [], ◌∷◌, ◌==◌, arith,
  u32, u64, sub64,
}
use ryanos.Memory.PageTables.{Tables, PageSource, map_memory}
use ryanos.Memory.Heap.{Heap, node_size, set_size, set_next, set_prev, set_used}
use ryanos.Memory.Heap.Chain.{block}
use ryanos.Memory.Heap.Malloc.{IsHeap}

unfoldable pub get_total_dynamic_memory : Heap → ℕ
get_total_dynamic_memory h = h.heap_length

unfoldable pub get_used_dynamic_memory : Heap → ℕ
get_used_dynamic_memory h = h.used_memory_total

unfoldable pub get_free_dynamic_memory : Heap → ℕ
unfolding get_used_dynamic_memory
get_free_dynamic_memory h = sub64 h.heap_length (get_used_dynamic_memory h)

module _ {F : Type 0} (source : PageSource F) (root : ℕ) where
  -- The loop: a page is requested and mapped at each position.
  unfoldable pub map_pages : ℕ → ℕ → Tables → F → Tables × F
  map_pages zero pos t f = (t, f)
  map_pages (suc count) pos t f =
      let (f₁, page) = source.request_page f in
      let (t₂, f₂) = map_memory source root pos page t f₁ in
      map_pages count (u64 (pos + 0x1000)) t₂ f₂

  unfoldable pub init_heap : ℕ → ℕ → Tables → F → Heap → Tables × F × Heap
  init_heap heap_address page_count t f h =
      let (t', f') = map_pages page_count heap_address t f in
      let length = u64 (page_count * 0x1000) in
      let m = set_size heap_address (u32 (sub64 length node_size)) h.store in
      (
        t',
        f',
        record h {
          heap_length = length;
          heap_start = heap_address;
          heap_end = u64 (heap_address + length);
          store = set_used heap_address false (set_prev heap_address 0 (set_next heap_address 0 m));
        },
      )

  -- For at least one page and fewer than 2^20, at an address that is not NULL and where they fit below 2^64: the heap is
  -- well formed, and is one free block.
  pub init_heap-IsHeap :
      (heap_address page_count : ℕ) (t : Tables) (f : F) (h : Heap)
      → heap_address ≢ 0
      → 1 ≤ page_count
      → page_count < 2 ^ 20
      → heap_address + page_count * 4096 < 2 ^ 64
      → IsHeap
          (init_heap heap_address page_count t f h).2
          (block heap_address (page_count * 4096 - node_size) false ∷ [])
  unfolding init_heap
  init_heap-IsHeap heap_address page_count t f h ne some_page few fits =
      let here : (heap_address == heap_address) ≡ true = ground arith in
      record {
        chain = (ne, refl, rw here (omega arith), rw here refl, rw here refl, rw here refl);
        tiles = (refl, omega arith);
        extent = omega arith;
        small = omega arith;
        inside = omega arith;
      }
