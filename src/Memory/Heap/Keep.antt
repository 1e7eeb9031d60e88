-- ===== src/Memory/Heap/Keep.antt =====
-- Which blocks `malloc` and `free` leave as they are.
use ryanos.Prelude.{
  ℕ, ◌≡◌, ◌≢◌, true, false, List, [], ◌∷◌, arith, inl, inr, ◌==◌, Bool-cases, ap, sym, ◌∙◌,
}
use mathlib.Core.Bool.{false≢true}
use ryanos.Memory.Heap.Chain.{Block, Exists}
use ryanos.Memory.Heap.Carve.{split}
use ryanos.Memory.Heap.Free.Joins.{
  join_next-taken, join_next-free, join_next-there, join_prev-taken, join_prev-free,
  join_prev-there,
}
use ryanos.Memory.Heap.Free.{mark_free, join_next, join_prev, release}

-- The block is one of the list.
abbrev pub Has : Block → List Block → Type 0
Has c bs = Exists (λ b. b ≡ c) bs

-- Every used block that is not at `a` is still there.
abbrev pub KeepsUsed : ℕ → List Block → List Block → Type 0
KeepsUsed a bs bs' = (c : Block) → c.used ≡ true → c.address ≢ a → Has c bs → Has c bs'

Has-cons :
    (b c : Block) (bs bs' : List Block) → (Has c bs → Has c bs') → Has c (b ∷ bs) → Has c (b ∷ bs')
Has-cons b c bs bs' f (inl e) = inl e
Has-cons b c bs bs' f (inr e) = inr (f e)

Has-behind : (b c : Block) (bs : List Block) → b ≢ c → Has c (b ∷ bs) → Has c bs
Has-behind b c bs ne (inl e) = absurd (ne e)
Has-behind b c bs ne (inr e) = e

other : (a : ℕ) (b c : Block) → c.address ≢ a → (b.address == a) ≡ true → b ≢ c
other a b c ne at e = ne (ap (λ d. d.address) (sym e) ∙ ground arith)

unlike : (b c : Block) → c.used ≡ true → b.used ≡ false → b ≢ c
unlike b c u v e = false≢true (sym v ∙ ap (λ d. d.used) e ∙ u)

pub split-KeepsUsed : (a size : ℕ) (bs : List Block) → KeepsUsed a bs (split a size bs)
unfolding split
split-KeepsUsed a size [] c u ne h = h
split-KeepsUsed a size (b ∷ bs) c u ne h = elim (Bool-cases (b.address == a)) [
  | inl here ↦ rw here (inr (inr (Has-behind b c bs (other a b c ne here) h)))
  | inr there ↦
      rw there (Has-cons b c bs (split a size bs) (λ k. split-KeepsUsed a size bs c u ne k) h)
]

mark_free-KeepsUsed : (a : ℕ) (bs : List Block) → KeepsUsed a bs (mark_free a bs)
unfolding mark_free
mark_free-KeepsUsed a [] c u ne h = h
mark_free-KeepsUsed a (b ∷ bs) c u ne h = elim (Bool-cases (b.address == a)) [
  | inl here ↦ rw here (inr (Has-behind b c bs (other a b c ne here) h))
  | inr there ↦
      rw there (Has-cons b c bs (mark_free a bs) (λ k. mark_free-KeepsUsed a bs c u ne k) h)
]

join_next-KeepsUsed : (a : ℕ) (bs : List Block) → KeepsUsed a bs (join_next a bs)
join_next-KeepsUsed a [] c u ne h = unfold join_next in h
join_next-KeepsUsed a (b ∷ []) c u ne h = unfold join_next in h
join_next-KeepsUsed a (b ∷ d ∷ bs) c u ne h = elim (Bool-cases (b.address == a)) [
  | inr there ↦ rw (join_next-there a b d bs there) (
      Has-cons b c (d ∷ bs) (join_next a (d ∷ bs)) (λ k. join_next-KeepsUsed a (d ∷ bs) c u ne k) h)
  | inl here ↦ elim (Bool-cases d.used) [
    | inl taken ↦ rw (join_next-taken a b d bs here taken) h
    | inr vacant ↦ rw (join_next-free a b d bs here vacant) (
        inr (
          Has-behind d c bs (unlike d c u vacant)
            (Has-behind b c (d ∷ bs) (other a b c ne here) h)))
  ]
]

join_prev-KeepsUsed : (a : ℕ) (bs : List Block) → KeepsUsed a bs (join_prev a bs)
join_prev-KeepsUsed a [] c u ne h = unfold join_prev in h
join_prev-KeepsUsed a (b ∷ []) c u ne h = unfold join_prev in h
join_prev-KeepsUsed a (b ∷ d ∷ bs) c u ne h = elim (Bool-cases (d.address == a)) [
  | inr there ↦ rw (join_prev-there a b d bs there) (
      Has-cons b c (d ∷ bs) (join_prev a (d ∷ bs)) (λ k. join_prev-KeepsUsed a (d ∷ bs) c u ne k) h)
  | inl here ↦ elim (Bool-cases b.used) [
    | inl taken ↦ rw (join_prev-taken a b d bs here taken) h
    | inr vacant ↦ rw (join_prev-free a b d bs here vacant) (
        inr (
          Has-behind d c bs (other a d c ne here)
            (Has-behind b c (d ∷ bs) (unlike b c u vacant) h)))
  ]
]

pub release-KeepsUsed : (a : ℕ) (bs : List Block) → KeepsUsed a bs (release a bs)
unfolding release
release-KeepsUsed a bs c u ne h =
    join_prev-KeepsUsed a (join_next a (mark_free a bs)) c u ne
      (join_next-KeepsUsed a (mark_free a bs) c u ne (mark_free-KeepsUsed a bs c u ne h))
