-- ===== src/Memory/Heap/Carve.antt =====
-- `malloc` takes a block from the front of a free one: the chain stays a chain, and the blocks go on
-- tiling the heap.
use ryanos.Prelude.{
  ℕ, ◌+◌, ◌-◌, ◌^◌, ◌<◌, ◌≤◌, ◌≡◌, ◌≢◌, refl, true, false, List, [], ◌∷◌, arith, ◌⊎◌, inl, inr,
  ◌==◌, if◌then◌else◌, Bool-cases, ap, ◌∙◌,
}
use mathlib.Core.Path.{subst, sym}
use ryanos.Memory.Heap.{Store, node_size, carve}
use ryanos.Memory.Heap.Chain.{
  Compact, Block, block, Exists-le, Chain-start, Chain, Tiles, Exists, Tiles-le, Chain-keep,
  Chain-relinked,
}

-- The block at `a` becomes a used one of `size` bytes and a free one with the rest.
unfoldable pub split : ℕ → ℕ → List Block → List Block
split a size [] = []
split a size (b ∷ bs) =
    if b.address == a
    then block a size true ∷ block (a + node_size + size) (b.size - size - node_size) false ∷ bs
    else b ∷ split a size bs

-- The block at `a` has room for `size` bytes and a header.
abbrev pub HasRoom : ℕ → ℕ → List Block → Type 0
HasRoom a size bs = Exists (λ b. (b.address ≡ a) × (size + node_size ≤ b.size)) bs

-- Room at the address of the first block is room in that block, and elsewhere in the others.
HasRoom-head :
    (a size start : ℕ) (b : Block) (bs : List Block) (end : ℕ)
    → HasRoom a size (b ∷ bs)
    → Tiles start (b ∷ bs) end
    → b.address ≡ a
    → size + node_size ≤ b.size
HasRoom-head a size start b bs end (inl r) t e = r.1
HasRoom-head a size start b bs end (inr r) t e = absurd (
    omega (
      arith,
      Exists-le (λ c. size + node_size ≤ c.size) a (start + node_size + b.size) bs end r t.1,
    ))

HasRoom-tail :
    (a size : ℕ) (b : Block) (bs : List Block)
    → HasRoom a size (b ∷ bs)
    → b.address ≢ a
    → HasRoom a size bs
HasRoom-tail a size b bs (inl r) ne = absurd (ne r.0)
HasRoom-tail a size b bs (inr r) ne = r

-- Splitting keeps the tiling.
pub Tiles-split :
    (a size start : ℕ) (bs : List Block) (end : ℕ)
    → HasRoom a size bs
    → Tiles start bs end
    → Tiles start (split a size bs) end
unfolding split
Tiles-split a size start [] end r t = absurd r
Tiles-split a size start (b ∷ bs) end r t = elim (Bool-cases (b.address == a)) [
  | inl here ↦
      let room : size + node_size ≤ b.size =
        HasRoom-head a size start b bs end r t (ground arith) in
      let joined : start + node_size + size + node_size + (b.size - size - node_size)
          ≡ start + node_size + b.size =
        ground arith in
      rw here (ground arith, (ground arith, rw joined t.1))
  | inr there ↦ rw there (
    t.0,
    Tiles-split a size (start + node_size + b.size) bs end
        (HasRoom-tail a size b bs r (ground arith)) t.1,
  )
]

-- The node at `a`, as far as `carve` depends on it.
pub record Room (m : Store) (a size : ℕ) : Type 0 where
  pub ne_null : a ≢ 0
  pub room : size + node_size ≤ (m a).size
  pub word : (m a).size < 2 ^ 32
  pub inside : a + node_size + (m a).size < 2 ^ 64
  pub follows : ((m a).next ≡ 0) ⊎ ((m a).next ≡ a + node_size + (m a).size)

carve-at :
    (m : Store) (a size x : ℕ)
    → Room m a size
    → carve a size m x ≡ (
        if a + node_size + size == x
        then record {
          size = (m a).size - size - node_size;
          used = false;
          next = (m a).next;
          prev = a;
        }
        else if a == x
        then record { size = size; used = true; next = a + node_size + size; prev = (m a).prev }
        else if x == 0
        then m x
        else if (m a).next == x
        then record (m x) { prev = a + node_size + size }
        else m x)
unfolding carve
carve-at m a size x r = ground (arith, r.ne_null, r.room, r.word, r.inside, r.follows)

pub Chain-Room :
    (m : Store) (before p a size start : ℕ) (bs : List Block) (end : ℕ)
    → Chain m before p bs
    → Tiles start bs end
    → HasRoom a size bs
    → Compact start end
    → Room m a size
Chain-Room m before p a size start [] end c t r w = absurd r
Chain-Room m before p a size start (b ∷ bs) end c t r w = elim (Bool-cases (b.address == a)) [
  | inl here ↦
      let e : p ≡ a = ground arith in
      let room : size + node_size ≤ b.size =
        HasRoom-head a size start b bs end r t (ground arith) in
      let le = Tiles-le (start + node_size + b.size) bs end t.1 in
      let next = Chain-start m p (m p).next (start + node_size + b.size) bs end c.5 t.1 in
      subst (λ (q : ℕ). Room m q size) e
        (record {
          ne_null = c.0;
          room = omega arith;
          word = omega arith;
          inside = omega arith;
          follows = ground arith;
        })
  | inr there ↦
      Chain-Room m p (m p).next a size (start + node_size + b.size) bs end c.5 t.1
        (HasRoom-tail a size b bs r (ground arith)) (omega arith, omega arith)
]

-- The nodes that `carve` touches, and the others.
module _ (m : Store) (a size : ℕ) (r : Room m a size) where
  pub carve_self :
      carve a size m a
      ≡ record { size = size; used = true; next = a + node_size + size; prev = (m a).prev }
  carve_self = ground (arith, carve-at m a size a r, r.ne_null)

  carve_rest :
      carve a size m (a + node_size + size)
      ≡ record { size = (m a).size - size - node_size; used = false; next = (m a).next; prev = a }
  carve_rest = ground (arith, carve-at m a size (a + node_size + size) r)

  carve_next :
      (m a).next ≢ 0
      → carve a size m (m a).next ≡ record (m (m a).next) { prev = a + node_size + size }
  carve_next h = ground (arith, carve-at m a size (m a).next r, r.room, r.follows)

  carve_before : (x : ℕ) → x < a → carve a size m x ≡ m x
  carve_before x h = ground (arith, carve-at m a size x r, r.follows)

  carve_behind : (x : ℕ) → a + node_size + (m a).size < x → carve a size m x ≡ m x
  carve_behind x h = ground (arith, carve-at m a size x r, r.follows, r.room)

-- The chain of a list whose first block is the one that is split.
Chain-split_here :
    (m : Store) (before a size : ℕ) (b : Block) (bs : List Block) (end : ℕ)
    → Chain m before a (b ∷ bs)
    → Tiles (a + node_size + b.size) bs end
    → Room m a size
    → Chain
        (carve a size m)
        before
        a
        (block a size true ∷ block (a + node_size + size) (b.size - size - node_size) false ∷ bs)
Chain-split_here m before a size b bs end c t r =
    let m' = carve a size m in
    let new = a + node_size + size in
    let self = carve_self m a size r in
    let rest = carve_rest m a size r in
    let to_new : (m' a).next ≡ new = ap (λ n. n.next) self in
    let to_next : (m' new).next ≡ (m a).next = ap (λ n. n.next) rest in
    let tail : Chain m' new (m a).next bs =
      Chain-relinked m m' a new (m a).next (a + node_size + b.size) bs end c.5 t
        (carve_next m a size r) (λ x h. carve_behind m a size r x (omega arith)) in
    (
      c.0,
      refl,
      ap (λ n. n.size) self,
      ap (λ n. n.used) self,
      ap (λ n. n.prev) self ∙ c.4,
      rw to_new (
        (omega arith),
        refl,
        ap (λ n. n.size) rest ∙ omega arith,
        ap (λ n. n.used) rest,
        ap (λ n. n.prev) rest,
        rw to_next tail,
      ),
    )

-- What `carve` writes is the chain of the split blocks.
pub Chain-split :
    (m : Store) (before p a size start : ℕ) (bs : List Block) (end : ℕ)
    → Chain m before p bs
    → Tiles start bs end
    → HasRoom a size bs
    → Compact start end
    → Chain (carve a size m) before p (split a size bs)
unfolding split
Chain-split m before p a size start [] end c t r w = absurd r
Chain-split m before p a size start (b ∷ bs) end c t r w = elim (Bool-cases (b.address == a)) [
  | inl here ↦
      let e : p ≡ a = ground arith in
      let c' : Chain m before a (b ∷ bs) = subst (λ (q : ℕ). Chain m before q (b ∷ bs)) e c in
      let low : start + node_size + b.size ≡ a + node_size + b.size = omega arith in
      let t' : Tiles (a + node_size + b.size) bs end = subst (λ (q : ℕ). Tiles q bs end) low t.1 in
      rw here (
        subst
          (λ (q : ℕ). Chain (carve a size m) before q (
            block a size true
            ∷ block (a + node_size + size) (b.size - size - node_size) false
            ∷ bs))
          (sym e) (Chain-split_here m before a size b bs end c' t' room))
  | inr there ↦
      let ne : b.address ≢ a = ground arith in
      let deep = HasRoom-tail a size b bs r ne in
      let behind =
        Exists-le (λ d. size + node_size ≤ d.size) a (start + node_size + b.size) bs end deep t.1 in
      rw there (
        Chain-keep m (carve a size m) before p b bs (split a size bs) c
          (carve_before m a size room p (omega arith))
          (Chain-split m p (m p).next a size (start + node_size + b.size) bs end c.5 t.1 deep
            (omega arith, omega arith)))
]
  where
    room : Room m a size
    room = Chain-Room m before p a size start (b ∷ bs) end c t r w
