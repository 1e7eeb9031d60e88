-- ===== src/Memory/Heap/BestFit.antt =====
-- `find_best_mem_block` finds the smallest free block that is large enough.
use ryanos.Prelude.{
  ℕ, zero, suc, ◌+◌, ◌^◌, ◌<◌, ◌≤◌, ◌≡◌, refl, true, false, List, [], ◌∷◌, arith, ◌⊎◌, inl, inr,
  sym, ◌==◌, some, length, u32, Bool-cases, ◌∙◌,
}
use native.Mathlib.Nat.{le_refl}
use ryanos.Memory.Heap.{Store, Heap, node_size, better, find_best_from, find_best_mem_block}
use ryanos.Memory.Heap.Chain.{Block, Chain, All, Exists}

-- A free block with room for `size` bytes and the header of the rest.
abbrev pub Fits : ℕ → Block → Type 0
Fits size b = (b.used ≡ false) × (size + node_size ≤ b.size)

-- `r` is a smallest fitting block of the list, or NULL if none fits.
abbrev pub IsBest : ℕ → ℕ → List Block → Type 0
IsBest size r bs =
    ((r ≡ 0) × All (λ c. ¬ Fits size c) bs)
    ⊎ Exists (λ b. (r ≡ b.address) × Fits size b × All (λ c. Fits size c → b.size ≤ c.size) bs) bs

-- What the loop finds from a best block so far: that block, if no later one fits as well, or a
-- smallest fitting one of the list.
abbrev Improves : ℕ → ℕ → ℕ → ℕ → List Block → Type 0
Improves size best best_size r bs =
    ((r ≡ best) × All (λ c. Fits size c → best_size < c.size) bs)
    ⊎ Exists
        (λ b.
          (r ≡ b.address)
          × Fits size b
          × (b.size ≤ best_size)
          × All (λ c. Fits size c → b.size ≤ c.size) bs)
        bs

All-map : {P Q : Block → Type 0} (bs : List Block) → ((b : Block) → P b → Q b) → All P bs → All Q bs
All-map [] f a = tt
All-map (b ∷ bs) f (p, a) = (f b p, All-map bs f a)

pub Exists-map :
    {P Q : Block → Type 0} (bs : List Block) → ((b : Block) → P b → Q b) → Exists P bs → Exists Q bs
Exists-map [] f e = e
Exists-map (b ∷ bs) f (inl p) = inl (f b p)
Exists-map (b ∷ bs) f (inr e) = inr (Exists-map bs f e)

module _ (m : Store) (size : ℕ) (fits64 : size + node_size < 2 ^ 64) where
  better-Fits :
      (b : Block) (p best_size : ℕ)
      → (m p).size ≡ b.size
      → (m p).used ≡ b.used
      → better (m p) size best_size ≡ true
      → Fits size b × (b.size ≤ best_size)
  unfolding better
  better-Fits b p best_size es eu h = ground arith

  worse-Fits :
      (b : Block) (p best_size : ℕ)
      → (m p).size ≡ b.size
      → (m p).used ≡ b.used
      → better (m p) size best_size ≡ false
      → Fits size b
      → best_size < b.size
  unfolding better
  worse-Fits b p best_size es eu h f = ground arith

  find_best_from-Improves :
      (fuel before p best best_size : ℕ) (bs : List Block)
      → length bs < fuel
      → Chain m before p bs
      → (r : ℕ) × (find_best_from fuel m size p best best_size ≡ some r)
        × Improves size best best_size r bs
  unfolding find_best_from
  find_best_from-Improves zero before p best best_size bs l c = absurd (omega arith)
  find_best_from-Improves (suc fuel) before p best best_size [] l c =
      (best, ground arith, inl (refl, tt))
  find_best_from-Improves (suc fuel) before p best best_size (b ∷ bs) l c =
      let at_node : (p == 0) ≡ false = let e = c.0 in ground arith in
      elim (Bool-cases (better (m p) size best_size)) [
        | inl take ↦
            let fb = better-Fits b p best_size c.2 c.3 take in
            let (r, e, o) =
              find_best_from-Improves fuel p (m p).next p (m p).size bs (omega arith) c.5 in
            (r, rw (at_node, take) e, taken fb o)
        | inr skip ↦
            let (r, e, o) =
              find_best_from-Improves fuel p (m p).next best best_size bs (omega arith) c.5 in
            (r, rw (at_node, skip) e, skipped (worse-Fits b p best_size c.2 c.3 skip) o)
      ]
    where
      taken :
          {r : ℕ}
          → Fits size b × (b.size ≤ best_size)
          → Improves size p (m p).size r bs
          → Improves size best best_size r (b ∷ bs)
      taken fb (inl (e, a)) = inr (
          inl (
            e ∙ sym c.1,
            fb.0,
            fb.1,
            ((λ _. le_refl _), All-map bs (λ d h f. let k = h f in let q = c.2 in omega arith) a),
          ))
      taken fb (inr e) = inr (
          inr (
            Exists-map bs
              (λ d (h, f, k, a).
                (h, f, (let q = c.2 in omega arith), ((λ _. let q = c.2 in omega arith), a)))
              e))

      skipped :
          {r : ℕ}
          → (Fits size b → best_size < b.size)
          → Improves size best best_size r bs
          → Improves size best best_size r (b ∷ bs)
      skipped w (inl (e, a)) = inl (e, (w, a))
      skipped w (inr e) = inr (
          inr
            (Exists-map bs (λ d (h, f, k, a). (h, f, k, ((λ q. let z = w q in omega arith), a))) e))

-- Along a chain of blocks no larger than a heap of less than 2^32 - 1 bytes, with fuel for more nodes
-- than there are, and for a size whose sum with the header fits 64 bits, the walk ends and finds a smallest free block with
-- room for `size` bytes and a header, or NULL if there is none.
pub find_best_mem_block-IsBest :
    (fuel : ℕ) (h : Heap) (size : ℕ) (bs : List Block)
    → size + node_size < 2 ^ 64
    → h.heap_length + 1 < 2 ^ 32
    → length bs < fuel
    → Chain h.store 0 h.heap_start bs
    → All (λ b. b.size ≤ h.heap_length) bs
    → (r : ℕ) × (find_best_mem_block fuel h h.heap_start size ≡ some r) × IsBest size r bs
unfolding find_best_mem_block
find_best_mem_block-IsBest fuel h size bs fits64 small enough c bounded =
    let (r, e, o) =
      find_best_from-Improves h.store size fits64 fuel 0 h.heap_start 0 (u32 (h.heap_length + 1)) bs
        enough c in
    (r, e, best r o)
  where
    none_fits :
        (cs : List Block)
        → All (λ b. b.size ≤ h.heap_length) cs
        → All (λ c. Fits size c → u32 (h.heap_length + 1) < c.size) cs
        → All (λ c. ¬ Fits size c) cs
    none_fits [] p q = tt
    none_fits (d ∷ cs) (p, ps) (q, qs) = ((λ f. let k = q f in omega arith), none_fits cs ps qs)

    best : (r : ℕ) → Improves size 0 (u32 (h.heap_length + 1)) r bs → IsBest size r bs
    best r (inl (e, a)) = inl (e, none_fits bs bounded a)
    best r (inr e) = inr (Exists-map bs (λ d (h, f, k, a). (h, f, a)) e)
