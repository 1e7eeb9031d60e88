-- ===== src/Memory/Heap/Free/Next.antt =====
-- Marking a block, and `merge_next_node_into_current`.
use ryanos.Prelude.{
  ℕ, ◌+◌, ◌<◌, ◌≤◌, ◌≡◌, ◌≢◌, true, false, List, [], ◌∷◌, arith, ◌⊎◌, inl, inr, ◌==◌, Bool-cases,
  ap, ◌∙◌, sym,
}
use mathlib.Core.Path.{subst}
use ryanos.Memory.Heap.{Store, node_size, set_used, merge_next_node_into_current}
use ryanos.Memory.Heap.Chain.{
  Compact, Block, block, Chain, Tiles, Exists-le, Chain-same, Chain-keep,
}
use ryanos.Memory.Heap.Absorb.{Adjacent, next-Absorbs, Chain-Adjacent, Chain-absorb}
use ryanos.Memory.Heap.Free.Joins.{join_next-taken, join_next-free, join_next-there}
use ryanos.Memory.Heap.Free.{mark_free, join_next, HasBlock}

-- The block at `a` is not the first: it lies behind it.
pub HasBlock-tail :
    (a start : ℕ) (b : Block) (bs : List Block) (end : ℕ)
    → HasBlock a (b ∷ bs)
    → Tiles start (b ∷ bs) end
    → b.address ≢ a
    → HasBlock a bs × (start + node_size + b.size ≤ a)
HasBlock-tail a start b bs end (inl e) t ne = absurd (ne e.0)
HasBlock-tail a start b bs end (inr e) t ne =
    (e, Exists-le (λ _. Unit {0}) a (start + node_size + b.size) bs end e t.1)

pub Tiles-mark_free :
    (a start : ℕ) (bs : List Block) (end : ℕ)
    → Tiles start bs end
    → Tiles start (mark_free a bs) end
unfolding mark_free
Tiles-mark_free a start [] end t = t
Tiles-mark_free a start (b ∷ bs) end t = elim (Bool-cases (b.address == a)) [
  | inl here ↦ rw here t
  | inr there ↦ rw there (t.0, Tiles-mark_free a (start + node_size + b.size) bs end t.1)
]

pub Tiles-join_next :
    (a start : ℕ) (bs : List Block) (end : ℕ)
    → Tiles start bs end
    → Tiles start (join_next a bs) end
unfolding join_next
Tiles-join_next a start [] end t = t
Tiles-join_next a start (b ∷ []) end t = t
Tiles-join_next a start (b ∷ c ∷ bs) end t = elim (Bool-cases (b.address == a)) [
  | inr there ↦ rw there (t.0, Tiles-join_next a (start + node_size + b.size) (c ∷ bs) end t.1)
  | inl here ↦ elim (Bool-cases c.used) [
    | inl taken ↦ rw (here, taken) t
    | inr vacant ↦
        let e : start + node_size + b.size + node_size + c.size
            ≡ start + node_size + (b.size + node_size + c.size) =
          omega arith in
        rw (here, vacant) (t.0, rw e at t.1.1)
  ]
]

pub Chain-mark_free :
    (m : Store) (before p a start : ℕ) (bs : List Block) (end : ℕ)
    → Chain m before p bs
    → Tiles start bs end
    → HasBlock a bs
    → Chain (set_used a false m) before p (mark_free a bs)
unfolding mark_free
Chain-mark_free m before p a start [] end ch t h = absurd h
Chain-mark_free m before p a start (b ∷ bs) end ch t h = elim (Bool-cases (b.address == a)) [
  | inl here ↦
      let e : a ≡ p = ground arith in
      let self : set_used a false m p ≡ record (m p) { used = false } = ground arith in
      let next : (set_used a false m p).next ≡ (m p).next = ap (λ n. n.next) self in
      rw here (
        ch.0,
        ch.1,
        ap (λ n. n.size) self ∙ ch.2,
        ap (λ n. n.used) self,
        ap (λ n. n.prev) self ∙ ch.4,
        rw next (
            Chain-same m (set_used a false m) p (m p).next (start + node_size + b.size) bs end ch.5
              t.1 (λ x l. ground arith)),
      )
  | inr there ↦
      let tail = HasBlock-tail a start b bs end h t (ground arith) in
      rw there (
        Chain-keep m (set_used a false m) before p b bs (mark_free a bs) ch (ground arith)
          (Chain-mark_free m p (m p).next a (start + node_size + b.size) bs end ch.5 t.1 tail.0))
]

-- The node at `a` is the last one or has one behind it.
NextOf : Store → ℕ → Type 0
NextOf m a = ((m a).next ≡ 0) ⊎ Adjacent m a (m a).next

Chain-NextOf :
    (m : Store) (before p a start : ℕ) (bs : List Block) (end : ℕ)
    → Chain m before p bs
    → Tiles start bs end
    → HasBlock a bs
    → Compact start end
    → NextOf m a
unfolding NextOf
Chain-NextOf m before p a start [] end ch t h w = absurd h
Chain-NextOf m before p a start (b ∷ []) end ch t h w = inl (ground arith)
Chain-NextOf m before p a start (b ∷ c ∷ bs) end ch t h w = elim (Bool-cases (b.address == a)) [
  | inl here ↦
      let e : p ≡ a = ground arith in
      inr (
        subst (λ (q : ℕ). Adjacent m q (m q).next) e
          (Chain-Adjacent m before p start b c bs end ch t w))
  | inr there ↦
      Chain-NextOf m p (m p).next a (start + node_size + b.size) (c ∷ bs) end ch.5 t.1
        (HasBlock-tail a start b (c ∷ bs) end h t (ground arith)).0 (omega arith, omega arith)
]

merge_next-before :
    (m : Store) (a x : ℕ) → NextOf m a → x ≢ 0 → x < a → merge_next_node_into_current a m x ≡ m x
unfolding NextOf merge_next_node_into_current
merge_next-before m a x (inl last) ne l = ground arith
merge_next-before m a x (inr adj) ne l = ground (arith, adj.behind, adj.follows)

-- What `merge_next_node_into_current` leaves is the chain of the joined blocks.
pub Chain-join_next :
    (m : Store) (before p a start : ℕ) (bs : List Block) (end : ℕ)
    → Chain m before p bs
    → Tiles start bs end
    → HasBlock a bs
    → Compact start end
    → Chain (merge_next_node_into_current a m) before p (join_next a bs)
Chain-join_next m before p a start [] end ch t h w = absurd h
Chain-join_next m before p a start (b ∷ []) end ch t h w = unfold join_next in rw alone ch
  where
    alone : merge_next_node_into_current a m ≡ m
    alone = unfold merge_next_node_into_current in ground arith
Chain-join_next m before p a start (b ∷ c ∷ bs) end ch t h w = elim (Bool-cases (b.address == a)) [
  | inl here ↦ elim (Bool-cases c.used) [
    | inl taken ↦
        rw (join_next-taken a b c bs here taken) (
          subst (λ (s : Store). Chain s before p (b ∷ c ∷ bs)) (sym (stays taken (ground arith)))
            ch)
    | inr vacant ↦ rw (join_next-free a b c bs here vacant) (absorbed vacant (ground arith))
  ]
  | inr there ↦
      let tail = HasBlock-tail a start b (c ∷ bs) end h t (ground arith) in
      rw (join_next-there a b c bs there) (
        Chain-keep m (merge_next_node_into_current a m) before p b (c ∷ bs) (join_next a (c ∷ bs))
          ch
          (merge_next-before m a p (Chain-NextOf m before p a start (b ∷ c ∷ bs) end ch t h w) ch.0
            (omega arith))
          (Chain-join_next m p (m p).next a (start + node_size + b.size) (c ∷ bs) end ch.5 t.1
            tail.0 (omega arith, omega arith)))
]
  where
    stays : c.used ≡ true → p ≡ a → merge_next_node_into_current a m ≡ m
    stays taken e =
        subst (λ q. merge_next_node_into_current q m ≡ m) e
          (unfold merge_next_node_into_current in ground (arith, ch.5.3))

    absorbed :
        c.used ≡ false
        → p ≡ a
        → Chain
            (merge_next_node_into_current a m)
            before
            p
            (block b.address (b.size + node_size + c.size) b.used ∷ bs)
    absorbed vacant e =
        subst
          (λ q.
            Chain (merge_next_node_into_current q m) before p
              (block b.address (b.size + node_size + c.size) b.used ∷ bs))
          e
          (Chain-absorb m (merge_next_node_into_current p m) before p start b c bs end ch t (
            next-Absorbs m p (m p).next (Chain-Adjacent m before p start b c bs end ch t w)
              (ch.5.3 ∙ vacant)))
