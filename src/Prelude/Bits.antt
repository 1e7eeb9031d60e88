-- ===== src/Prelude/Bits.antt =====
-- Bits of a number, and how `&`, `|` and complement act on them.
mod Halves
pub mod Fields
use Halves.{and_halves, or_halves}
use Fields.{below_pow, and_zero}
use Prim.Native.Nat.{
  ℕ, zero, suc, ◌+◌, ◌-◌, ◌*◌, ◌/◌, ◌%◌, ◌^◌, ◌≤◌, ◌<◌, min, max, bit_and, bit_or,
}
use mathlib.Core.Path.{◌≡◌, refl, ap, ◌∙◌}
use native.Mathlib.Omega.{arith}
use native.Mathlib.Nat.{pow-suc, one-le-pow}
use ryanos.Prelude.Tests.{◌==◌, if◌then◌else◌}
use ryanos.Prelude.Words.{complement}

-- Bit k of x.
unfoldable pub bit : ℕ → ℕ → ℕ
bit x zero = x % 2
bit x (suc k) = bit (x / 2) k

pub bit-le-one : (x k : ℕ) → bit x k ≤ 1
unfolding bit
bit-le-one x zero = omega arith
bit-le-one x (suc k) = bit-le-one (x / 2) k

pub bit-and : (a b k : ℕ) → bit (bit_and a b) k ≡ min (bit a k) (bit b k)
unfolding bit
bit-and a b zero = omega (arith, and_halves a b)
bit-and a b (suc k) =
    let half : bit_and a b / 2 ≡ bit_and (a / 2) (b / 2) = omega (arith, and_halves a b) in
    ap (λ x. bit x k) half ∙ bit-and (a / 2) (b / 2) k

pub and_two_pow : (x i : ℕ) → bit_and x (2 ^ i) ≡ bit x i * 2 ^ i
unfolding bit
and_two_pow x zero = omega (arith, and_halves x 1, and_zero (x / 2) (x / 2) (below_pow (x / 2)))
and_two_pow x (suc i) =
    let half : 2 ^ suc i / 2 ≡ 2 ^ i = omega (arith, pow-suc 2 i) in
    let even : 2 ^ suc i % 2 ≡ 0 = omega (arith, pow-suc 2 i) in
    let down : bit_and (x / 2) (2 ^ suc i / 2) ≡ bit (x / 2) i * 2 ^ i =
      ap (λ t. bit_and (x / 2) t) half ∙ and_two_pow (x / 2) i in
    let product : bit (x / 2) i * 2 ^ suc i ≡ bit (x / 2) i * 2 ^ i * 2 =
      let e : 2 ^ suc i ≡ 2 ^ i * 2 = omega (arith, pow-suc 2 i) in rw e (grind arith) in
    omega (arith, and_halves x (2 ^ suc i))

pub bit-or : (a b k : ℕ) → bit (bit_or a b) k ≡ max (bit a k) (bit b k)
unfolding bit
bit-or a b zero = omega (arith, or_halves a b)
bit-or a b (suc k) =
    let half : bit_or a b / 2 ≡ bit_or (a / 2) (b / 2) = omega (arith, or_halves a b) in
    ap (λ x. bit x k) half ∙ bit-or (a / 2) (b / 2) k

pub bit-complement : (w x k : ℕ) → x < 2 ^ w → k < w → bit (complement w x) k ≡ 1 - bit x k
unfolding bit
bit-complement zero x k h l = absurd (omega arith)
bit-complement (suc w) x zero h l = omega (arith, pow-suc 2 w)
bit-complement (suc w) x (suc k) h l =
    let half : complement (suc w) x / 2 ≡ complement w (x / 2) = omega (arith, pow-suc 2 w) in
    ap (λ y. bit y k) half ∙ bit-complement w (x / 2) k (omega (arith, pow-suc 2 w)) (omega arith)

bit-zero : (k : ℕ) → bit 0 k ≡ 0
unfolding bit
bit-zero zero = refl
bit-zero (suc k) = bit-zero k

pub bit-two-pow : (i k : ℕ) → bit (2 ^ i) k ≡ (if i == k then 1 else 0)
unfolding bit
bit-two-pow zero zero = refl
bit-two-pow zero (suc k) = ground (arith, bit-zero k)
bit-two-pow (suc i) zero = ground (arith, pow-suc 2 i)
bit-two-pow (suc i) (suc k) =
    let half : 2 ^ suc i / 2 ≡ 2 ^ i = omega (arith, pow-suc 2 i) in
    ap (λ y. bit y k) half ∙ ground (arith, bit-two-pow i k)

-- Numbers below 2 ^ w with the same w bits are the same.
pub bits_ext : (w x y : ℕ) → x < 2 ^ w → y < 2 ^ w → ((k : ℕ) → k < w → bit x k ≡ bit y k) → x ≡ y
unfolding bit
bits_ext zero x y h l same = omega arith
bits_ext (suc w) x y h l same =
    let low : x % 2 ≡ y % 2 = same 0 (omega arith) in
    let high : x / 2 ≡ y / 2 =
      bits_ext w (x / 2) (y / 2) (omega (arith, pow-suc 2 w)) (omega (arith, pow-suc 2 w))
        (λ k p. same (suc k) (omega arith)) in
    omega arith
