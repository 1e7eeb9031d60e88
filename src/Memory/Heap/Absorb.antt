-- ===== src/Memory/Heap/Absorb.antt =====
-- The two merges of `free` do the same to a chain: a node takes over the one behind it.
use ryanos.Prelude.{ℕ, ◌+◌, ◌^◌, ◌<◌, ◌≡◌, ◌≢◌, refl, false, List, ◌∷◌, arith, ◌⊎◌, ap, ◌∙◌}
use ryanos.Memory.Heap.{
  Store, node_size, merge_next_node_into_current, merge_current_node_into_prev,
}
use ryanos.Memory.Heap.Chain.{
  Compact, Block, block, Chain, Tiles, Chain-relinked, Chain-start, Tiles-le,
}

-- The nodes at `p` and, behind it, `q`, as far as the merges depend on them.
pub record Adjacent (m : Store) (p q : ℕ) : Type 0 where
  pub ne_null : p ≢ 0
  pub next : (m p).next ≡ q
  pub back : (m q).prev ≡ p
  pub behind : q ≡ p + node_size + (m p).size
  pub follows : ((m q).next ≡ 0) ⊎ ((m q).next ≡ q + node_size + (m q).size)
  pub word : (m p).size + node_size + (m q).size < 2 ^ 32

-- In `m'` the node at `p` has taken over the one at `q`. What stands at NULL is left open.
pub record Absorbs (m m' : Store) (p q : ℕ) : Type 0 where
  pub self : m' p ≡ record {
    size = (m p).size + node_size + (m q).size;
    used = (m p).used;
    next = (m q).next;
    prev = (m p).prev;
  }
  pub after : (m q).next ≢ 0 → m' (m q).next ≡ record (m (m q).next) { prev = p }
  pub before : (x : ℕ) → x ≢ 0 → x < p → m' x ≡ m x
  pub behind : (x : ℕ) → q + node_size + (m q).size < x → m' x ≡ m x

module _ (m : Store) (p q : ℕ) (a : Adjacent m p q) where
  pub next-Absorbs : (m q).used ≡ false → Absorbs m (merge_next_node_into_current p m) p q
  unfolding merge_next_node_into_current
  next-Absorbs free = record {
    self = ground (arith, a.ne_null, a.next, a.behind, a.follows, a.word);
    after = λ h. ground (arith, a.ne_null, a.next, a.behind, a.follows, a.word);
    before = λ x h l. ground (arith, a.ne_null, a.next, a.behind, a.follows, a.word);
    behind = λ x l. ground (arith, a.ne_null, a.next, a.behind, a.follows, a.word);
  }

  pub prev-Absorbs : (m p).used ≡ false → Absorbs m (merge_current_node_into_prev q m) p q
  unfolding merge_current_node_into_prev
  prev-Absorbs free = record {
    self = ground (arith, a.ne_null, a.back, a.behind, a.follows, a.word);
    after = λ h. ground (arith, a.ne_null, a.back, a.behind, a.follows, a.word);
    before = λ x h l. ground (arith, a.ne_null, a.back, a.behind, a.follows, a.word);
    behind = λ x l. ground (arith, a.ne_null, a.back, a.behind, a.follows, a.word);
  }

-- The first two nodes of a chain are adjacent.
pub Chain-Adjacent :
    (m : Store) (before p start : ℕ) (b c : Block) (bs : List Block) (end : ℕ)
    → Chain m before p (b ∷ c ∷ bs)
    → Tiles start (b ∷ c ∷ bs) end
    → Compact start end
    → Adjacent m p (m p).next
Chain-Adjacent m before p start b c bs end ch t w =
    let low = start + node_size + b.size + node_size + c.size in
    let le = Tiles-le low bs end t.1.1 in
    let next = Chain-start m (m p).next (m (m p).next).next low bs end ch.5.5 t.1.1 in
    record {
      ne_null = ch.0;
      next = refl;
      back = ch.5.4;
      behind = omega arith;
      follows = ground arith;
      word = omega arith;
    }

-- When the first node takes over the second, so does the first block.
pub Chain-absorb :
    (m m' : Store) (before p start : ℕ) (b c : Block) (bs : List Block) (end : ℕ)
    → Chain m before p (b ∷ c ∷ bs)
    → Tiles start (b ∷ c ∷ bs) end
    → Absorbs m m' p (m p).next
    → Chain m' before p (block b.address (b.size + node_size + c.size) b.used ∷ bs)
Chain-absorb m m' before p start b c bs end ch t a =
    let q = (m p).next in
    let low = start + node_size + b.size + node_size + c.size in
    let next : (m' p).next ≡ (m q).next = ap (λ n. n.next) a.self in
    let rest : Chain m' p (m q).next bs =
      Chain-relinked m m' q p (m q).next low bs end ch.5.5 t.1.1 a.after
        (λ x h. a.behind x (omega arith)) in
    (
      ch.0,
      ch.1,
      ap (λ n. n.size) a.self ∙ omega arith,
      ap (λ n. n.used) a.self ∙ ch.3,
      ap (λ n. n.prev) a.self ∙ ch.4,
      rw next rest,
    )
