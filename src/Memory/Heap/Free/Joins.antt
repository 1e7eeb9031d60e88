-- ===== src/Memory/Heap/Free/Joins.antt =====
-- The cases of the two joins, as equations.
use ryanos.Prelude.{ℕ, ◌+◌, ◌≡◌, true, false, List, ◌∷◌, arith, ◌==◌}
use ryanos.Memory.Heap.{node_size}
use ryanos.Memory.Heap.Chain.{Block, block}
use ryanos.Memory.Heap.Free.{join_next, join_prev}

module _ (a : ℕ) (b c : Block) (bs : List Block) where
  pub join_next-taken :
      (b.address == a) ≡ true → c.used ≡ true → join_next a (b ∷ c ∷ bs) ≡ b ∷ c ∷ bs
  unfolding join_next
  join_next-taken here taken = ground arith

  pub join_next-free :
      (b.address == a) ≡ true
      → c.used ≡ false
      → join_next a (b ∷ c ∷ bs) ≡ block b.address (b.size + node_size + c.size) b.used ∷ bs
  unfolding join_next
  join_next-free here vacant = ground arith

  pub join_next-there :
      (b.address == a) ≡ false → join_next a (b ∷ c ∷ bs) ≡ b ∷ join_next a (c ∷ bs)
  unfolding join_next
  join_next-there there = ground arith

  pub join_prev-taken :
      (c.address == a) ≡ true → b.used ≡ true → join_prev a (b ∷ c ∷ bs) ≡ b ∷ c ∷ bs
  unfolding join_prev
  join_prev-taken here taken = ground arith

  pub join_prev-free :
      (c.address == a) ≡ true
      → b.used ≡ false
      → join_prev a (b ∷ c ∷ bs) ≡ block b.address (b.size + node_size + c.size) b.used ∷ bs
  unfolding join_prev
  join_prev-free here vacant = ground arith

  pub join_prev-there :
      (c.address == a) ≡ false → join_prev a (b ∷ c ∷ bs) ≡ b ∷ join_prev a (c ∷ bs)
  unfolding join_prev
  join_prev-there there = ground arith
