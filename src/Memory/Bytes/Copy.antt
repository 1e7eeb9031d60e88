-- ===== src/Memory/Bytes/Copy.antt =====
-- `memcopy` copies each byte when the two regions do not meet.
use ryanos.Prelude.{
  ℕ, zero, suc, ◌+◌, ◌-◌, ◌*◌, ◌/◌, ◌≤◌, ◌≡◌, refl, sym, ap, ◌∙◌, true, false, arith, leb,
  if◌then◌else◌, Bool-cases, inl, inr, ◌⊎◌,
}
use mathlib.Core.Path.{ap₂}
use native.Mathlib.Nat.{suc-mul, div-add-mod'}
use ryanos.Memory.Bytes.{Bytes, within, copy_chunk, copy_chunks, stage, memcopy}

-- The two regions have no byte in common.
abbrev pub Apart : ℕ → ℕ → ℕ → Type 0
Apart dest src n = (dest + n ≤ src) ⊎ (src + n ≤ dest)

-- The memory after `n` bytes were copied.
abbrev pub copied : ℕ → ℕ → ℕ → Bytes → Bytes
copied dest src n m a = if within dest n a then m (src + (a - dest)) else m a

-- Bytes that are copied behind others.
copied-copied :
    (k j dest src : ℕ) (m m' : Bytes) (a : ℕ)
    → Apart dest src (k + j)
    → ((b : ℕ) → m' b ≡ copied dest src k m b)
    → copied (dest + k) (src + k) j m' a ≡ copied dest src (k + j) m a
copied-copied k j dest src m m' a off before = elim (Bool-cases (within (dest + k) j a)) [
  | inl here ↦
      let e : src + k + (a - (dest + k)) ≡ src + (a - dest) = ground arith in
      let whole : within dest (k + j) a ≡ true = ground arith in
      let other : within dest k (src + (a - dest)) ≡ false = ground arith in
      rw (here, whole, e) (before (src + (a - dest)) ∙ rw other refl)
  | inr away ↦ elim (Bool-cases (within dest k a)) [
    | inl first ↦
        let whole : within dest (k + j) a ≡ true = ground arith in
        rw (away, whole) (before a ∙ rw first refl)
    | inr off_first ↦
        let whole : within dest (k + j) a ≡ false = ground arith in
        rw (away, whole) (before a ∙ rw off_first refl)
  ]
]

copy_chunks_lem :
    (w rounds dest src : ℕ) (m : Bytes) (a : ℕ)
    → Apart dest src (rounds * w)
    → copy_chunks w rounds dest src m a ≡ copied dest src (rounds * w) m a
unfolding copy_chunks copy_chunk
copy_chunks_lem w zero dest src m a off = ground arith
copy_chunks_lem w (suc rounds) dest src m a off =
    let e : suc rounds * w ≡ w + rounds * w = omega (arith, suc-mul rounds w) in
    let off' : Apart dest src (w + rounds * w) = ground arith in
    copy_chunks_lem w rounds (dest + w) (src + w) (copy_chunk w dest src m) a (ground arith)
    ∙ copied-copied w (rounds * w) dest src m (copy_chunk w dest src m) a off' (λ b. refl)
    ∙ ap (λ (n : ℕ). copied dest src n m a) (sym e)

-- How far the stages have come.
record Progress (dest src n : ℕ) (m : Bytes) (s : ℕ × ℕ × ℕ × Bytes) : Type 0 where
  done : ℕ
  to : s.0 ≡ dest + done
  from : s.1 ≡ src + done
  left : done + s.2 ≡ n
  bytes : (a : ℕ) → s.3 a ≡ copied dest src done m a

module _ (dest src n : ℕ) (m : Bytes) (off : Apart dest src n) where
  stage-Progress :
      (w : ℕ) (s : ℕ × ℕ × ℕ × Bytes) → Progress dest src n m s → Progress dest src n m (stage w s)
  unfolding stage
  stage-Progress w (d, s, r, m') p = elim (Bool-cases (leb w r)) [
    | inr few ↦ rw few p
    | inl some_left ↦ rw some_left (record {
      done = p.done + r / w * w;
      to = omega (arith, p.to);
      from = omega (arith, p.from);
      left = omega (arith, p.left, div-add-mod' r w);
      bytes = λ a.
          copy_chunks_lem w (r / w) d s m' a
            (chunks_off (r / w * w) (omega (arith, div-add-mod' r w)))
          ∙ ap₂ (λ (x y : ℕ). copied x y (r / w * w) m' a) p.to p.from
          ∙ copied-copied p.done (r / w * w) dest src m m' a
              (part_off (p.done + r / w * w) (omega (arith, p.left, div-add-mod' r w))) p.bytes;
    })
  ]
    where
      part_off : (k : ℕ) → k ≤ n → Apart dest src k
      part_off k le = ground (arith, off)

      chunks_off : (k : ℕ) → k ≤ r → Apart d s k
      chunks_off k le = ground (arith, off, p.to, p.from, p.left)

-- For two regions of `n` bytes that have no byte in common: each byte of the destination is the one of the source
-- at the same distance, and every other byte is as before.
pub memcopy_lem :
    (dest src n : ℕ) (m : Bytes) (a : ℕ)
    → Apart dest src n
    → memcopy dest src n m a ≡ copied dest src n m a
unfolding memcopy stage
memcopy_lem dest src n m a off =
    let s₁ = stage 16 (dest, src, n, m) in
    let s₂ = stage 8 s₁ in
    let s₃ = stage 1 s₂ in
    let start : Progress dest src n m (dest, src, n, m) = record {
      done = 0;
      to = omega arith;
      from = omega arith;
      left = omega arith;
      bytes = λ b. ground arith;
    } in
    let p₁ = stage-Progress dest src n m off 16 (dest, src, n, m) start in
    let p₂ = stage-Progress dest src n m off 8 s₁ p₁ in
    let p₃ = stage-Progress dest src n m off 1 s₂ p₂ in
    let none_left : s₃.2 ≡ 0 = ground arith in
    let all : p₃.done ≡ n = omega (arith, p₃.left, none_left) in
    p₃.bytes a ∙ ap (λ (k : ℕ). copied dest src k m a) all
