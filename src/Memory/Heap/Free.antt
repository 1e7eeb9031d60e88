-- ===== src/Memory/Heap/Free.antt =====
-- `free` on the list of blocks: the block is marked free, takes over a free block behind it, and is
-- taken over by a free block in front of it.
pub mod Joins
pub mod Next
pub mod Prev
pub mod Release
use ryanos.Prelude.{ℕ, ◌+◌, Bool, true, false, List, [], ◌∷◌, ◌≡◌, ◌==◌, if◌then◌else◌}
use ryanos.Memory.Heap.{node_size}
use ryanos.Memory.Heap.Chain.{Block, block, Exists}

unfoldable pub mark_free : ℕ → List Block → List Block
mark_free a [] = []
mark_free a (b ∷ bs) =
    if b.address == a then block b.address b.size false ∷ bs else b ∷ mark_free a bs

-- The two blocks as one, in the state of the first.
abbrev pub merged : Block → Block → Block
merged b c = block b.address (b.size + node_size + c.size) b.used

unfoldable pub join_next : ℕ → List Block → List Block
join_next a [] = []
join_next a (b ∷ []) = b ∷ []
join_next a (b ∷ c ∷ bs) =
    let deep = join_next a (c ∷ bs) in
    if b.address == a then (if c.used then b ∷ c ∷ bs else merged b c ∷ bs) else b ∷ deep

unfoldable pub join_prev : ℕ → List Block → List Block
join_prev a [] = []
join_prev a (b ∷ []) = b ∷ []
join_prev a (b ∷ c ∷ bs) =
    let deep = join_prev a (c ∷ bs) in
    if c.address == a then (if b.used then b ∷ c ∷ bs else merged b c ∷ bs) else b ∷ deep

-- What `free` does to the blocks of the heap.
unfoldable pub release : ℕ → List Block → List Block
unfolding mark_free join_next join_prev
release a bs = join_prev a (join_next a (mark_free a bs))

-- There is a block at `a`.
abbrev pub HasBlock : ℕ → List Block → Type 0
HasBlock a bs = Exists (λ b. (b.address ≡ a) × Unit {0}) bs
