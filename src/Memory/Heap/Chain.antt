-- ===== src/Memory/Heap/Chain.antt =====
-- The list that a chain of nodes stands for, and the blocks that tile the heap.
use ryanos.Prelude.{
  ℕ, ◌+◌, ◌<◌, ◌≤◌, ◌≡◌, ◌^◌, ◌≢◌, Bool, List, [], ◌∷◌, arith, ◌⊎◌, inl, inr, ap, ◌∙◌,
}
use ryanos.Memory.Heap.{Store, node_size}

pub record Block : Type 0 where
  pub address : ℕ
  pub size : ℕ
  pub used : Bool

abbrev pub block : ℕ → ℕ → Bool → Block
block a n u = record { address = a; size = n; used = u }

-- From `p` the `next` pointers lead through the blocks to NULL, and each `prev` pointer leads back;
-- `before` is what the first one holds.
abbrev pub Chain : Store → ℕ → ℕ → List Block → Type 0
Chain m before p [] = p ≡ 0
Chain m before p (b ∷ bs) =
    (p ≢ 0)
    × (b.address ≡ p)
    × ((m p).size ≡ b.size)
    × ((m p).used ≡ b.used)
    × ((m p).prev ≡ before)
    × Chain m p (m p).next bs

-- The blocks lie one behind the other from `start` to `end`, each behind its header.
abbrev pub Tiles : ℕ → List Block → ℕ → Type 0
Tiles start [] end = start ≡ end
Tiles start (b ∷ bs) end = (b.address ≡ start) × Tiles (start + node_size + b.size) bs end

abbrev pub All : (Block → Type 0) → List Block → Type 0
All P [] = Unit {0}
All P (b ∷ bs) = P b × All P bs

abbrev pub Exists : (Block → Type 0) → List Block → Type 0
Exists P [] = ⊥
Exists P (b ∷ bs) = P b ⊎ Exists P bs

pub Tiles-le : (start : ℕ) (bs : List Block) (end : ℕ) → Tiles start bs end → start ≤ end
Tiles-le start [] end t = omega arith
Tiles-le start (b ∷ bs) end t = omega (arith, Tiles-le (start + node_size + b.size) bs end t.1)

-- A stretch of memory that is smaller than 2^32 bytes and lies in the address space.
abbrev pub Compact : ℕ → ℕ → Type 0
Compact start end = (end < start + 2 ^ 32) × (end < 2 ^ 64)

-- A node that a change spares keeps its place in front of a changed chain.
pub Chain-keep :
    (m m' : Store) (before p : ℕ) (b : Block) (bs bs' : List Block)
    → Chain m before p (b ∷ bs)
    → m' p ≡ m p
    → Chain m' p (m p).next bs'
    → Chain m' before p (b ∷ bs')
Chain-keep m m' before p b bs bs' c e tail =
    let next : (m' p).next ≡ (m p).next = ap (λ n. n.next) e in
    (
      c.0,
      c.1,
      ap (λ n. n.size) e ∙ c.2,
      ap (λ n. n.used) e ∙ c.3,
      ap (λ n. n.prev) e ∙ c.4,
      rw next tail,
    )

-- A store that agrees from `low` on has the same chains there.
pub Chain-same :
    (m m' : Store) (before p low : ℕ) (bs : List Block) (end : ℕ)
    → Chain m before p bs
    → Tiles low bs end
    → ((x : ℕ) → low ≤ x → m' x ≡ m x)
    → Chain m' before p bs
Chain-same m m' before p low [] end c t same = c
Chain-same m m' before p low (b ∷ bs) end c t same =
    Chain-keep m m' before p b bs bs c (same p (omega arith)) (
      Chain-same m m' p (m p).next (low + node_size + b.size) bs end c.5 t.1
        (λ x h. same x (omega arith)))

-- The same, but for the `prev` pointer of the first node.
pub Chain-relinked :
    (m m' : Store) (before before' p low : ℕ) (bs : List Block) (end : ℕ)
    → Chain m before p bs
    → Tiles low bs end
    → (p ≢ 0 → m' p ≡ record (m p) { prev = before' })
    → ((x : ℕ) → low < x → m' x ≡ m x)
    → Chain m' before' p bs
Chain-relinked m m' before before' p low [] end c t first same = c
Chain-relinked m m' before before' p low (b ∷ bs) end c t first same =
    let e : m' p ≡ record (m p) { prev = before' } = first c.0 in
    let next : (m' p).next ≡ (m p).next = ap (λ n. n.next) e in
    (
      c.0,
      c.1,
      ap (λ n. n.size) e ∙ c.2,
      ap (λ n. n.used) e ∙ c.3,
      ap (λ n. n.prev) e,
      rw next (
          Chain-same m m' p (m p).next (low + node_size + b.size) bs end c.5 t.1
            (λ x h. same x (omega arith))),
    )

-- A block of a tiling lies at or behind its start.
pub Exists-le :
    (P : Block → Type 0) (a low : ℕ) (bs : List Block) (end : ℕ)
    → Exists (λ b. (b.address ≡ a) × P b) bs
    → Tiles low bs end
    → low ≤ a
Exists-le P a low [] end e t = absurd e
Exists-le P a low (b ∷ bs) end (inl e) t = omega arith
Exists-le P a low (b ∷ bs) end (inr e) t =
    omega (arith, Exists-le P a (low + node_size + b.size) bs end e t.1)

-- The chain of a tiling begins where the tiling does, unless both are empty.
pub Chain-start :
    (m : Store) (before p low : ℕ) (bs : List Block) (end : ℕ)
    → Chain m before p bs
    → Tiles low bs end
    → (p ≡ 0) ⊎ (p ≡ low)
Chain-start m before p low [] end c t = inl c
Chain-start m before p low (b ∷ bs) end c t = inr (omega arith)
