-- ===== src/Memory/Heap/Malloc.antt =====
-- `malloc` where a free block is large enough.
use ryanos.Prelude.{
  ℕ, suc, ◌+◌, ◌%◌, ◌^◌, ◌<◌, ◌≤◌, ◌≡◌, ◌≢◌, List, [], ◌∷◌, arith, inl, inr, some, length, u64, sym,
}
use ryanos.Memory.Heap.{Heap, node_size, round_size, carve, malloc, find_best_mem_block}
use ryanos.Memory.Heap.Chain.{Compact, Block, Chain, Tiles, Tiles-le, All, Exists}
use ryanos.Memory.Heap.BestFit.{Fits, IsBest, find_best_mem_block-IsBest, Exists-map}
use ryanos.Memory.Heap.Keep.{KeepsUsed, split-KeepsUsed}
use ryanos.Memory.Heap.Carve.{split, HasRoom, Tiles-split, Chain-split}

-- The nodes of the heap are a chain of the blocks, which tile it from its start to its end. The heap
-- is so small that sizes fit their 32 bits, and lies in the address space.
pub record IsHeap (h : Heap) (bs : List Block) : Type 0 where
  pub chain : Chain h.store 0 h.heap_start bs
  pub tiles : Tiles h.heap_start bs h.heap_end
  pub extent : h.heap_end ≡ h.heap_start + h.heap_length
  pub small : h.heap_length + 1 < 2 ^ 32
  pub inside : h.heap_end < 2 ^ 64

pub IsHeap-Compact : (h : Heap) (bs : List Block) → IsHeap h bs → Compact h.heap_start h.heap_end
IsHeap-Compact h bs v = (omega (arith, v.extent, v.small), omega (arith, v.inside))

sizes-le :
    (start limit : ℕ) (bs : List Block) (end : ℕ)
    → Tiles start bs end
    → end ≤ start + limit
    → All (λ b. b.size ≤ limit) bs
sizes-le start limit [] end t h = tt
sizes-le start limit (b ∷ bs) end t h =
    let le = Tiles-le (start + node_size + b.size) bs end t.1 in
    (omega arith, sizes-le (start + node_size + b.size) limit bs end t.1 (omega arith))

pub round_size_bounds :
    (size : ℕ)
    → size < 2 ^ 32
    → (size ≤ round_size size) × (round_size size < size + 16) × (round_size size % 16 ≡ 0)
unfolding round_size
round_size_bounds size h = ground arith

-- A smallest block among those that fit the request.
abbrev pub Smallest : ℕ → ℕ → List Block → Type 0
Smallest size a bs =
    Exists (λ b. (a ≡ b.address) × Fits size b × All (λ c. Fits size c → b.size ≤ c.size) bs) bs

contradicts : (size : ℕ) (bs : List Block) → Exists (Fits size) bs → All (λ c. ¬ Fits size c) bs → ⊥
contradicts size [] e a = e
contradicts size (b ∷ bs) (inl f) (n, a) = n f
contradicts size (b ∷ bs) (inr e) (n, a) = contradicts size bs e a

some_fit :
    (size r : ℕ) (bs : List Block) → Exists (Fits size) bs → IsBest size r bs → Smallest size r bs
some_fit size r bs e (inl (_, a)) = absurd (contradicts size bs e a)
some_fit size r bs e (inr s) = s

pub Smallest-HasRoom : (size r : ℕ) (bs : List Block) → Smallest size r bs → HasRoom r size bs
Smallest-HasRoom size r bs s = Exists-map bs (λ b (e, f, _). (sym e, f.1)) s

HasRoom-le :
    (size r start : ℕ) (bs : List Block) (end : ℕ)
    → Tiles start bs end
    → HasRoom r size bs
    → (start ≤ r) × (r + node_size + size + node_size ≤ end)
HasRoom-le size r start [] end t e = absurd e
HasRoom-le size r start (b ∷ bs) end t (inl e) =
    omega (arith, Tiles-le (start + node_size + b.size) bs end t.1)
HasRoom-le size r start (b ∷ bs) end t (inr e) =
    omega (arith, HasRoom-le size r (start + node_size + b.size) bs end t.1 e)

start-ne :
    (h : Heap) (size r : ℕ) (bs : List Block)
    → Chain h.store 0 h.heap_start bs
    → HasRoom r size bs
    → h.heap_start ≢ 0
start-ne h size r [] c e = absurd e
start-ne h size r (b ∷ bs) c e = c.0

module _ (expand : ℕ → Heap → Heap) (fuel tries size : ℕ) (h : Heap) (bs : List Block) where
  -- The heap after the block at `a` has been handed out.
  abbrev pub taken : ℕ → Heap
  taken a = record h {
    store = carve a (round_size size) h.store;
    used_memory_total = u64 (h.used_memory_total + round_size size + node_size);
  }

  malloc_returns :
      (a : ℕ)
      → find_best_mem_block fuel h h.heap_start (round_size size) ≡ some a
      → a ≢ 0
      → a + node_size < 2 ^ 64
      → malloc expand fuel (suc tries) size h ≡ some (taken a, a + node_size)
  unfolding malloc
  malloc_returns a found ne word = ground arith

  -- In a well formed heap, with fuel for more nodes than there are and a size below 2^32, if a free
  -- block has room for the rounded size and a header, `malloc` returns the memory of a smallest such
  -- block. The block is split in two, a used one of the rounded size and a free one with
  -- the rest, the heap is as well formed as before, and the other used blocks are the same.
  pub malloc-Fits :
      size < 2 ^ 32
      → IsHeap h bs
      → length bs < fuel
      → Exists (Fits (round_size size)) bs
      → (a : ℕ) × (malloc expand fuel (suc tries) size h ≡ some (taken a, a + node_size))
        × Smallest (round_size size) a bs
        × IsHeap (taken a) (split a (round_size size) bs)
        × KeepsUsed a bs (split a (round_size size) bs)
  malloc-Fits word v enough fit =
      let rounded = round_size_bounds size word in
      let bounded =
        sizes-le h.heap_start h.heap_length bs h.heap_end v.tiles (omega (arith, v.extent)) in
      let (a, found, best) =
        find_best_mem_block-IsBest fuel h (round_size size) bs (omega arith)
          (omega (arith, v.extent, v.small)) enough v.chain bounded in
      let smallest = some_fit (round_size size) a bs fit best in
      let room = Smallest-HasRoom (round_size size) a bs smallest in
      let at = HasRoom-le (round_size size) a h.heap_start bs h.heap_end v.tiles room in
      let ne = start-ne h (round_size size) a bs v.chain room in
      (
        a,
        malloc_returns a found (λ z. ne (omega arith)) (omega (arith, v.inside)),
        smallest,
        record {
          chain =
              Chain-split h.store 0 h.heap_start a (round_size size) h.heap_start bs h.heap_end
                v.chain v.tiles room (IsHeap-Compact h bs v);
          tiles = Tiles-split a (round_size size) h.heap_start bs h.heap_end room v.tiles;
          extent = v.extent;
          small = v.small;
          inside = v.inside;
        },
        split-KeepsUsed a (round_size size) bs,
      )
