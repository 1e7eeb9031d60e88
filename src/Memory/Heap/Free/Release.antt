-- ===== src/Memory/Heap/Free/Release.antt =====
-- `free` keeps the heap well formed, and what it costs the count of used memory.
use ryanos.Prelude.{
  ℕ, suc, ◌+◌, ◌^◌, ◌<◌, ◌≤◌, ◌≡◌, ◌≢◌, refl, false, List, [], ◌∷◌, arith, inl, inr, ◌==◌,
  Bool-cases, ap, ◌∙◌, sym, sub64, u64, some, length,
}
use mathlib.Core.Path.{subst}
use ryanos.Memory.Heap.{
  Store, Heap, node_size, set_used, free, merge_next_node_into_current,
  merge_current_node_into_prev, malloc, round_size,
}
use ryanos.Memory.Heap.Chain.{Compact, Block, Chain, Tiles, Tiles-le, Exists}
use ryanos.Memory.Heap.Carve.{split, Room, Chain-Room, carve_self}
use ryanos.Memory.Heap.BestFit.{Fits}
use ryanos.Memory.Heap.Malloc.{
  IsHeap-Compact, IsHeap, Smallest, Smallest-HasRoom, taken, malloc-Fits, round_size_bounds,
}
use ryanos.Memory.Heap.Keep.{KeepsUsed, release-KeepsUsed}
use ryanos.Memory.Heap.Free.{mark_free, join_next, join_prev, release, HasBlock}
use ryanos.Memory.Heap.Free.Next.{
  HasBlock-tail, Tiles-mark_free, Tiles-join_next, Chain-mark_free, Chain-join_next,
}
use ryanos.Memory.Heap.Free.Prev.{Tiles-join_prev, Chain-join_prev}

HasBlock-mark_free : (a : ℕ) (bs : List Block) → HasBlock a bs → HasBlock a (mark_free a bs)
unfolding mark_free
HasBlock-mark_free a [] h = absurd h
HasBlock-mark_free a (b ∷ bs) h = elim (Bool-cases (b.address == a)) [
  | inl here ↦ rw here (inl (ground arith, tt))
  | inr there ↦ rw there (inr (HasBlock-mark_free a bs (deep h (ground arith))))
]
  where
    deep : HasBlock a (b ∷ bs) → b.address ≢ a → HasBlock a bs
    deep (inl e) ne = absurd (ne e.0)
    deep (inr e) ne = e

HasBlock-join_next : (a : ℕ) (bs : List Block) → HasBlock a bs → HasBlock a (join_next a bs)
unfolding join_next
HasBlock-join_next a [] h = absurd h
HasBlock-join_next a (b ∷ []) h = h
HasBlock-join_next a (b ∷ c ∷ bs) h = elim (Bool-cases (b.address == a)) [
  | inr there ↦ rw there (inr (HasBlock-join_next a (c ∷ bs) (deep h (ground arith))))
  | inl here ↦ elim (Bool-cases c.used) [
    | inl taken ↦ rw (here, taken) (inl (ground arith, tt))
    | inr vacant ↦ rw (here, vacant) (inl (ground arith, tt))
  ]
]
  where
    deep : HasBlock a (b ∷ c ∷ bs) → b.address ≢ a → HasBlock a (c ∷ bs)
    deep (inl e) ne = absurd (ne e.0)
    deep (inr e) ne = e

-- Without a block at `a` behind the first one there is nothing to join.
join_prev-absent :
    (a low : ℕ) (b : Block) (bs : List Block) (end : ℕ)
    → Tiles low bs end
    → a < low
    → join_prev a (b ∷ bs) ≡ b ∷ bs
unfolding join_prev
join_prev-absent a low b [] end t l = refl
join_prev-absent a low b (c ∷ bs) end t l =
    let away : (c.address == a) ≡ false = ground arith in
    rw away
      (ap (λ ds. b ∷ ds) (join_prev-absent a (low + node_size + c.size) c bs end t.1 (omega arith)))

Chain-join_prev_any :
    (m : Store) (p a start : ℕ) (bs : List Block) (end : ℕ)
    → Chain m 0 p bs
    → Tiles start bs end
    → HasBlock a bs
    → Compact start end
    → Chain (merge_current_node_into_prev a m) 0 p (join_prev a bs)
Chain-join_prev_any m p a start [] end ch t h w = absurd h
Chain-join_prev_any m p a start (b ∷ bs) end ch t h w = elim (Bool-cases (b.address == a)) [
  | inr there ↦
      Chain-join_prev m 0 p a start b bs end ch t
        (HasBlock-tail a start b bs end h t (ground arith)).0 w
  | inl here ↦
      let e : p ≡ a = ground arith in
      let first : merge_current_node_into_prev a m ≡ m =
        subst (λ q. merge_current_node_into_prev q m ≡ m) e
          (unfold merge_current_node_into_prev in ground (arith, ch.4)) in
      let alone = join_prev-absent a (start + node_size + b.size) b bs end t.1 (omega arith) in
      subst (λ (ds : List Block). Chain (merge_current_node_into_prev a m) 0 p ds) (sym alone)
        (subst (λ (s : Store). Chain s 0 p (b ∷ bs)) (sym first) ch)
]

HasBlock-bounds :
    (m : Store) (before p a start : ℕ) (bs : List Block) (end : ℕ)
    → Chain m before p bs
    → Tiles start bs end
    → HasBlock a bs
    → (a ≢ 0) × (a + node_size ≤ end)
HasBlock-bounds m before p a start [] end ch t h = absurd h
HasBlock-bounds m before p a start (b ∷ bs) end ch t (inl e) =
    ((λ z. ch.0 (omega arith)), omega (arith, Tiles-le (start + node_size + b.size) bs end t.1))
HasBlock-bounds m before p a start (b ∷ bs) end ch t (inr e) =
    HasBlock-bounds m p (m p).next a (start + node_size + b.size) bs end ch.5 t.1 e

module _ (a : ℕ) (h : Heap) where
  -- The heap after `free` of the memory behind the header at `a`.
  abbrev freed : Heap
  freed = record h {
    store =
        merge_current_node_into_prev a (merge_next_node_into_current a (set_used a false h.store));
    used_memory_total = sub64 h.used_memory_total (h.store a).size;
  }

  free-freed : a ≢ 0 → a + node_size < 2 ^ 64 → free (a + node_size) h ≡ freed
  unfolding free
  free-freed ne word =
      let current : sub64 (a + node_size) node_size ≡ a = omega arith in rw current (ground arith)

well_formed :
    (h : Heap) (bs : List Block) (a : ℕ)
    → IsHeap h bs
    → HasBlock a bs
    → IsHeap (free (a + node_size) h) (release a bs)
unfolding release
well_formed h bs a v has =
    let at =
      HasBlock-bounds h.store 0 h.heap_start a h.heap_start bs h.heap_end v.chain v.tiles has in
    let w : Compact h.heap_start h.heap_end = IsHeap-Compact h bs v in
    let t₁ = Tiles-mark_free a h.heap_start bs h.heap_end v.tiles in
    let t₂ = Tiles-join_next a h.heap_start (mark_free a bs) h.heap_end t₁ in
    let has₁ = HasBlock-mark_free a bs has in
    let c₁ =
      Chain-mark_free h.store 0 h.heap_start a h.heap_start bs h.heap_end v.chain v.tiles has in
    let c₂ =
      Chain-join_next (set_used a false h.store) 0 h.heap_start a h.heap_start (mark_free a bs)
        h.heap_end c₁ t₁ has₁ w in
    let c₃ =
      Chain-join_prev_any (merge_next_node_into_current a (set_used a false h.store)) h.heap_start a
        h.heap_start (join_next a (mark_free a bs)) h.heap_end c₂ t₂
        (HasBlock-join_next a (mark_free a bs) has₁) w in
    subst (λ (g : Heap). IsHeap g (join_prev a (join_next a (mark_free a bs))))
      (sym (free-freed a h at.0 (omega arith)))
      (record {
        chain = c₃;
        tiles = Tiles-join_prev a h.heap_start (join_next a (mark_free a bs)) h.heap_end t₂;
        extent = v.extent;
        small = v.small;
        inside = v.inside;
      })

-- Freeing the memory of a block of a well formed heap leaves a well formed heap, in which the block is free and has been
-- joined with a free block behind it and a free block in front of it. The other used blocks are
-- the same.
pub free-IsHeap :
    (h : Heap) (bs : List Block) (a : ℕ)
    → IsHeap h bs
    → HasBlock a bs
    → IsHeap (free (a + node_size) h) (release a bs) × KeepsUsed a bs (release a bs)
free-IsHeap h bs a v has = (well_formed h bs a v has, release-KeepsUsed a bs)

-- Under the conditions of `malloc-Fits`, memory that `malloc` hands out and `free` takes back at once leaves the count of used memory 24
-- bytes higher: `free` does not take off the header that `malloc` counts.
pub free-malloc :
    (expand : ℕ → Heap → Heap) (fuel tries size : ℕ) (h : Heap) (bs : List Block)
    → size < 2 ^ 32
    → IsHeap h bs
    → length bs < fuel
    → Exists (Fits (round_size size)) bs
    → (p : ℕ) × (h' : Heap) × (malloc expand fuel (suc tries) size h ≡ some (h', p))
      × ((free p h').used_memory_total ≡ u64 (h.used_memory_total + node_size))
free-malloc expand fuel tries size h bs word v enough fit = (
  r.0 + node_size,
  taken expand fuel tries size h bs r.0,
  r.1,
  ap (λ (g : Heap). g.used_memory_total)
        (free-freed r.0 (taken expand fuel tries size h bs r.0) room.ne_null far)
      ∙ omega (
        arith,
        ap (λ n. n.size) (carve_self h.store r.0 (round_size size) room),
        round_size_bounds size word,
      ),
)
  where
    r :
        (a : ℕ) × (malloc expand fuel (suc tries) size h
          ≡ some (taken expand fuel tries size h bs a, a + node_size))
        × Smallest (round_size size) a bs
        × IsHeap (taken expand fuel tries size h bs a) (split a (round_size size) bs)
        × KeepsUsed a bs (split a (round_size size) bs)
    r = malloc-Fits expand fuel tries size h bs word v enough fit

    room : Room h.store r.0 (round_size size)
    room =
        Chain-Room h.store 0 h.heap_start r.0 (round_size size) h.heap_start bs h.heap_end v.chain
          v.tiles (Smallest-HasRoom (round_size size) r.0 bs r.2) (IsHeap-Compact h bs v)

    far : r.0 + node_size < 2 ^ 64
    far = omega (arith, room.inside)
