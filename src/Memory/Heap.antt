-- ===== src/Memory/Heap.antt =====
-- The kernel heap of memory/mem.cpp: `find_best_mem_block`, `malloc`, `free` and the two merges, over a
-- store of node headers. A pointer is the address of a header, and NULL is 0. A write through NULL
-- goes to the store at 0, as it does in the kernel, which maps that page.
pub mod Chain
pub mod BestFit
pub mod Carve
pub mod Malloc
pub mod Absorb
pub mod Keep
pub mod Free
pub mod Init
mod Tests
use ryanos.Prelude.{
  ℕ, zero, suc, ◌+◌, ◌-◌, ◌*◌, ◌/◌, ◌%◌, ◌^◌, Bool, true, false, Option, none, some, ltb, leb, ◌==◌,
  ◌&&◌, not, if◌then◌else◌, u32, u64, sub64, sub32, update,
}

-- struct dynamic_mem_node_t
pub record Node : Type 0 where
  pub size : ℕ
  pub used : Bool
  pub next : ℕ
  pub prev : ℕ

-- sizeof(dynamic_mem_node_t)
abbrev pub node_size : ℕ
node_size = 24

abbrev pub Store : Type 0
Store = ℕ → Node

pub record Heap : Type 0 where
  pub store : Store
  pub heap_start : ℕ
  pub heap_end : ℕ
  pub heap_length : ℕ
  pub used_memory_total : ℕ

-- The assignments to one field of the node at `p`.
abbrev pub set_size : ℕ → ℕ → Store → Store
set_size p v m = update m p (record (m p) { size = v })

abbrev pub set_used : ℕ → Bool → Store → Store
set_used p v m = update m p (record (m p) { used = v })

abbrev pub set_next : ℕ → ℕ → Store → Store
set_next p v m = update m p (record (m p) { next = v })

abbrev pub set_prev : ℕ → ℕ → Store → Store
set_prev p v m = update m p (record (m p) { prev = v })

-- Whether the loop of `find_best_mem_block` takes the node in place of the best one so far.
unfoldable pub better : Node → ℕ → ℕ → Bool
better n size best_size =
    not n.used && (leb (u64 (size + node_size)) n.size && leb n.size best_size)

-- The loop, from `current` on; `none` means that the fuel ran out.
unfoldable pub find_best_from : ℕ → Store → ℕ → ℕ → ℕ → ℕ → Option ℕ
unfolding better
find_best_from zero m size current best best_size = none
find_best_from (suc fuel) m size current best best_size =
    let n = m current in
    let take = better n size best_size in
    let rest =
      find_best_from fuel m size n.next (if take then current else best)
        (if take then n.size else best_size) in
    if current == 0 then some best else rest

unfoldable pub find_best_mem_block : ℕ → Heap → ℕ → ℕ → Option ℕ
find_best_mem_block fuel h dynamic_mem size =
    find_best_from fuel h.store size dynamic_mem 0 (u32 (h.heap_length + 1))

-- The size as `malloc` rounds it up, to a multiple of 0x10.
unfoldable pub round_size : ℕ → ℕ
round_size size = if ltb 0 (size % 0x10) then u64 (size - size % 0x10 + 0x10) else size

-- What `malloc` writes when it takes `size` bytes from the front of the block `best`.
unfoldable pub carve : ℕ → ℕ → Store → Store
carve best size m =
    let new = u64 (best + node_size + size) in
    let m₁ = set_size new (u32 (sub64 (sub64 (m best).size size) node_size)) m in
    let m₂ = set_size best (u32 size) m₁ in
    let m₃ = set_used new false m₂ in
    let m₄ = set_used best true m₃ in
    let m₅ = set_next new (m₄ best).next m₄ in
    let m₆ = set_prev new best m₅ in
    let m₇ = if (m₆ best).next == 0 then m₆ else set_prev (m₆ best).next new m₆ in
    set_next best new m₇

-- `malloc`. `expand` is `expand_heap`; `fuel` bounds the walk along the nodes, `tries` the calls of
-- `malloc` by itself.
unfoldable pub malloc : (ℕ → Heap → Heap) → ℕ → ℕ → ℕ → Heap → Option (Heap × ℕ)
malloc expand fuel zero size h = none
malloc expand fuel (suc tries) size h =
    let rounded = round_size size in
    let again = malloc expand fuel tries rounded (expand rounded h) in
    elim (find_best_mem_block fuel h h.heap_start rounded) [
      | none ↦ none
      | some best ↦
          if best == 0
          then again
          else some (
            record h {
              store = carve best rounded h.store;
              used_memory_total = u64 (h.used_memory_total + rounded + node_size);
            },
            u64 (best + node_size),
          )
    ]

-- The last assignment is made whether or not there is a next node.
unfoldable pub merge_next_node_into_current : ℕ → Store → Store
merge_next_node_into_current current m =
    let next = (m current).next in
    let m₁ = set_size current (u32 ((m current).size + (m next).size)) m in
    let m₂ = set_size current (u32 ((m₁ current).size + node_size)) m₁ in
    let m₃ = set_next current (m₂ next).next m₂ in
    let m₄ = if (m₃ current).next == 0 then m₃ else set_prev (m₃ current).next current m₃ in
    let m₅ = set_prev (m₄ current).next current m₄ in
    if next == 0 then m else if (m next).used then m else m₅

unfoldable pub merge_current_node_into_prev : ℕ → Store → Store
merge_current_node_into_prev current m =
    let prev = (m current).prev in
    let m₁ = set_size prev (u32 ((m prev).size + (m current).size)) m in
    let m₂ = set_size prev (u32 ((m₁ prev).size + node_size)) m₁ in
    let m₃ = set_next prev (m₂ current).next m₂ in
    let m₄ = if (m₃ current).next == 0 then m₃ else set_prev (m₃ current).next prev m₃ in
    if prev == 0 then m else if (m prev).used then m else m₄

unfoldable pub free : ℕ → Heap → Heap
free p h =
    let current = sub64 p node_size in
    let m₁ = set_used current false h.store in
    let m₂ = merge_next_node_into_current current m₁ in
    let m₃ = merge_current_node_into_prev current m₂ in
    let done = record h {
      store = m₃;
      used_memory_total = sub64 h.used_memory_total (h.store current).size;
    } in
    if p == 0 then h else if current == 0 then h else done
