-- ===== src/Memory/Heap/Free/Prev.antt =====
-- `merge_current_node_into_prev`.
use ryanos.Prelude.{
  ℕ, ◌+◌, ◌<◌, ◌≤◌, ◌≡◌, ◌≢◌, true, false, List, [], ◌∷◌, arith, inl, inr, ◌==◌, Bool-cases, ◌∙◌,
  sym,
}
use mathlib.Core.Path.{subst}
use ryanos.Memory.Heap.{Store, node_size, merge_current_node_into_prev}
use ryanos.Memory.Heap.Chain.{Compact, Block, block, Chain, Tiles, Chain-keep}
use ryanos.Memory.Heap.Absorb.{Adjacent, prev-Absorbs, Chain-Adjacent, Chain-absorb}
use ryanos.Memory.Heap.Free.Joins.{join_prev-taken, join_prev-free, join_prev-there}
use ryanos.Memory.Heap.Free.{join_prev, HasBlock}
use ryanos.Memory.Heap.Free.Next.{HasBlock-tail}

pub Tiles-join_prev :
    (a start : ℕ) (bs : List Block) (end : ℕ)
    → Tiles start bs end
    → Tiles start (join_prev a bs) end
unfolding join_prev
Tiles-join_prev a start [] end t = t
Tiles-join_prev a start (b ∷ []) end t = t
Tiles-join_prev a start (b ∷ c ∷ bs) end t = elim (Bool-cases (c.address == a)) [
  | inr there ↦ rw there (t.0, Tiles-join_prev a (start + node_size + b.size) (c ∷ bs) end t.1)
  | inl here ↦ elim (Bool-cases b.used) [
    | inl taken ↦ rw (here, taken) t
    | inr vacant ↦
        let e : start + node_size + b.size + node_size + c.size
            ≡ start + node_size + (b.size + node_size + c.size) =
          omega arith in
        rw (here, vacant) (t.0, rw e at t.1.1)
  ]
]

-- Behind the first node, the node at `a` has one in front of it, at or behind `p`.
PrevOf : Store → ℕ → ℕ → Type 0
PrevOf m p a = Adjacent m (m a).prev a × (p ≤ (m a).prev)

Chain-PrevOf :
    (m : Store) (before p a start : ℕ) (b : Block) (bs : List Block) (end : ℕ)
    → Chain m before p (b ∷ bs)
    → Tiles start (b ∷ bs) end
    → HasBlock a bs
    → Compact start end
    → PrevOf m p a
unfolding PrevOf
Chain-PrevOf m before p a start b [] end ch t h w = absurd h
Chain-PrevOf m before p a start b (c ∷ bs) end ch t h w = elim (Bool-cases (c.address == a)) [
  | inl here ↦
      let e : (m p).next ≡ a = ground (arith, ch.5.1) in
      let adj : Adjacent m p a =
        subst (λ (q : ℕ). Adjacent m p q) e (Chain-Adjacent m before p start b c bs end ch t w) in
      let back : p ≡ (m a).prev = sym adj.back in
      (subst (λ (q : ℕ). Adjacent m q a) back adj, omega arith)
  | inr there ↦
      let tail = HasBlock-tail a (start + node_size + b.size) c bs end h t.1 (ground arith) in
      let deep =
        Chain-PrevOf m p (m p).next a (start + node_size + b.size) c bs end ch.5 t.1 tail.0
          (omega arith, omega arith) in
      (deep.0, omega (arith, deep.1, ch.5.1))
]

merge_prev-before :
    (m : Store) (p a x : ℕ)
    → PrevOf m p a
    → x ≢ 0
    → x < p
    → merge_current_node_into_prev a m x ≡ m x
unfolding PrevOf merge_current_node_into_prev
merge_prev-before m p a x (adj, low) ne l = ground (arith, adj.behind, adj.follows)

-- What `merge_current_node_into_prev` leaves is the chain of the joined blocks, if the node at `a` is
-- not the first.
pub Chain-join_prev :
    (m : Store) (before p a start : ℕ) (b : Block) (bs : List Block) (end : ℕ)
    → Chain m before p (b ∷ bs)
    → Tiles start (b ∷ bs) end
    → HasBlock a bs
    → Compact start end
    → Chain (merge_current_node_into_prev a m) before p (join_prev a (b ∷ bs))
Chain-join_prev m before p a start b [] end ch t h w = absurd h
Chain-join_prev m before p a start b (c ∷ bs) end ch t h w = elim (Bool-cases (c.address == a)) [
  | inl here ↦
      let e : (m p).next ≡ a = ground (arith, ch.5.1) in
      elim (Bool-cases b.used) [
        | inl taken ↦
            rw (join_prev-taken a b c bs here taken)
              (subst (λ (s : Store). Chain s before p (b ∷ c ∷ bs)) (sym (stays taken e)) ch)
        | inr vacant ↦ rw (join_prev-free a b c bs here vacant) (absorbed vacant e)
      ]
  | inr there ↦
      let tail = HasBlock-tail a (start + node_size + b.size) c bs end h t.1 (ground arith) in
      let near =
        Chain-PrevOf m p (m p).next a (start + node_size + b.size) c bs end ch.5 t.1 tail.0
          (omega arith, omega arith) in
      rw (join_prev-there a b c bs there) (
        Chain-keep m (merge_current_node_into_prev a m) before p b (c ∷ bs) (join_prev a (c ∷ bs))
          ch (merge_prev-before m (m p).next a p near ch.0 (omega (arith, ch.5.1)))
          (Chain-join_prev m p (m p).next a (start + node_size + b.size) c bs end ch.5 t.1 tail.0
            (omega arith, omega arith)))
]
  where
    stays : b.used ≡ true → (m p).next ≡ a → merge_current_node_into_prev a m ≡ m
    stays taken e =
        subst (λ q. merge_current_node_into_prev q m ≡ m) e
          (unfold merge_current_node_into_prev in ground (arith, ch.5.4, ch.3))

    absorbed :
        b.used ≡ false
        → (m p).next ≡ a
        → Chain
            (merge_current_node_into_prev a m)
            before
            p
            (block b.address (b.size + node_size + c.size) b.used ∷ bs)
    absorbed vacant e =
        subst
          (λ q.
            Chain (merge_current_node_into_prev q m) before p
              (block b.address (b.size + node_size + c.size) b.used ∷ bs))
          e
          (Chain-absorb m (merge_current_node_into_prev (m p).next m) before p start b c bs end ch t
            (prev-Absorbs m p (m p).next (Chain-Adjacent m before p start b c bs end ch t w)
              (ch.3 ∙ vacant)))
