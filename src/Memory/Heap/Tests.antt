-- ===== src/Memory/Heap/Tests.antt =====
-- Two pages of heap: fresh, and after one request.
use ryanos.Prelude.{
  ℕ, ◌+◌, ◌≡◌, refl, true, false, arith, if◌then◌else◌, ◌==◌, some, List, [], ◌∷◌, u64, inl,
}
use ryanos.Memory.Heap.{Heap, node_size, malloc, free, round_size, find_best_mem_block}
use ryanos.Memory.Heap.Chain.{Block, block, Exists}
use ryanos.Memory.Heap.BestFit.{Fits, IsBest, find_best_mem_block-IsBest}
use ryanos.Memory.Heap.Carve.{split}
use ryanos.Memory.Heap.Malloc.{IsHeap, Smallest, taken, malloc-Fits}
use ryanos.Memory.Heap.Keep.{KeepsUsed}
use ryanos.Memory.Heap.Free.{release}
use ryanos.Memory.Heap.Free.Release.{free-IsHeap, free-malloc}

-- As `init_heap` leaves it, at the address that the kernel gives it.
abbrev fresh : Heap
fresh = record {
  store = λ p. record {
    size = if p == 0x100000000000 then 4072 else 0;
    used = false;
    next = 0;
    prev = 0;
  };
  heap_start = 0x100000000000;
  heap_end = 0x100000001000;
  heap_length = 4096;
  used_memory_total = 0;
}

abbrev fresh_blocks : List Block
fresh_blocks = block 0x100000000000 4072 false ∷ []

fresh-IsHeap : IsHeap fresh fresh_blocks
fresh-IsHeap = record {
  chain = ((λ e. absurd (omega arith)), refl, refl, refl, refl, refl);
  tiles = (refl, refl);
  extent = refl;
  small = omega arith;
  inside = omega arith;
}

-- A heap that cannot grow.
abbrev no_more : ℕ → Heap → Heap
no_more n h = h

room_for_100 : Exists (Fits (round_size 100)) fresh_blocks
unfolding round_size
room_for_100 = inl (refl, omega arith)

malloc-Fits_example :
    (a : ℕ) × (malloc no_more 2 1 100 fresh
      ≡ some (taken no_more 2 0 100 fresh fresh_blocks a, a + node_size))
    × Smallest (round_size 100) a fresh_blocks
    × IsHeap (taken no_more 2 0 100 fresh fresh_blocks a) (split a (round_size 100) fresh_blocks)
    × KeepsUsed a fresh_blocks (split a (round_size 100) fresh_blocks)
malloc-Fits_example =
    malloc-Fits no_more 2 0 100 fresh fresh_blocks (omega arith) fresh-IsHeap (omega arith)
      room_for_100

find_best_mem_block-IsBest_example :
    (r : ℕ) × (find_best_mem_block 2 fresh 0x100000000000 100 ≡ some r) × IsBest 100 r fresh_blocks
find_best_mem_block-IsBest_example =
    find_best_mem_block-IsBest 2 fresh 100 fresh_blocks (omega arith) (omega arith) (omega arith)
      fresh-IsHeap.chain (omega arith, tt)

free-malloc_example :
    (p : ℕ) × (h' : Heap) × (malloc no_more 2 1 100 fresh ≡ some (h', p))
    × ((free p h').used_memory_total ≡ u64 (fresh.used_memory_total + node_size))
free-malloc_example =
    free-malloc no_more 2 0 100 fresh fresh_blocks (omega arith) fresh-IsHeap (omega arith)
      room_for_100

-- One block in use, and the rest.
abbrev busy : Heap
busy = record {
  store = λ p.
      if p == 4096
      then record { size = 112; used = true; next = 4232; prev = 0 }
      else record { size = 3936; used = false; next = 0; prev = 4096 };
  heap_start = 4096;
  heap_end = 8192;
  heap_length = 4096;
  used_memory_total = 136;
}

abbrev busy_blocks : List Block
busy_blocks = block 4096 112 true ∷ block 4232 3936 false ∷ []

busy-IsHeap : IsHeap busy busy_blocks
busy-IsHeap = record {
  chain = (
    (λ e. absurd (omega arith)),
    refl,
    refl,
    refl,
    refl,
    ((λ e. absurd (omega arith)), refl, refl, refl, refl, refl),
  );
  tiles = (refl, (refl, refl));
  extent = refl;
  small = omega arith;
  inside = omega arith;
}

free-IsHeap_example :
    IsHeap (free (4096 + node_size) busy) (release 4096 busy_blocks)
    × KeepsUsed 4096 busy_blocks (release 4096 busy_blocks)
free-IsHeap_example = free-IsHeap busy busy_blocks 4096 busy-IsHeap (inl (refl, tt))
