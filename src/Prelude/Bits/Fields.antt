-- ===== src/Prelude/Bits/Fields.antt =====
-- `&` and `|` on numbers that are written as a high and a low field.
use ryanos.Prelude.Bits.Halves.{and_halves, or_halves}
use Prim.Native.Nat.{
  ℕ, zero, suc, ◌+◌, ◌-◌, ◌*◌, ◌/◌, ◌%◌, ◌^◌, ◌<◌, bit_and, bit_or, min, max, bit_and-bitwise,
}
use mathlib.Core.Path.{◌≡◌, ap, ◌∙◌}
use native.Mathlib.Omega.{arith}
use native.Mathlib.Nat.{pow-suc, one-le-pow, mod-lt, div-add-mod', div-le_self}

pub below_pow : (n : ℕ) → n < 2 ^ n
below_pow zero = omega arith
below_pow (suc n) = omega (arith, pow-suc 2 n, below_pow n)

pub and_zero : (w x : ℕ) → x < 2 ^ w → bit_and x 0 ≡ 0
and_zero zero x h = let e : x ≡ 0 = omega arith in ap (λ t. bit_and t 0) e
and_zero (suc w) x h =
    omega (arith, and_halves x 0, and_zero w (x / 2) (omega (arith, pow-suc 2 w)))

pub or_zero : (w x : ℕ) → x < 2 ^ w → bit_or x 0 ≡ x
or_zero zero x h = let e : x ≡ 0 = omega arith in ap (λ t. bit_or t 0) e ∙ omega arith
or_zero (suc w) x h = omega (arith, or_halves x 0, or_zero w (x / 2) (omega (arith, pow-suc 2 w)))

pub zero_or : (w x : ℕ) → x < 2 ^ w → bit_or 0 x ≡ x
zero_or zero x h = let e : x ≡ 0 = omega arith in ap (λ t. bit_or 0 t) e ∙ omega arith
zero_or (suc w) x h = omega (arith, or_halves 0 x, zero_or w (x / 2) (omega (arith, pow-suc 2 w)))

-- A mask of ones keeps a number that fits it.
pub and_ones : (w x : ℕ) → x < 2 ^ w → bit_and x (2 ^ w - 1) ≡ x
and_ones zero x h = let e : x ≡ 0 = omega arith in ap (λ t. bit_and t 0) e ∙ omega arith
and_ones (suc w) x h = omega (
  arith,
  and_halves x (2 ^ suc w - 1),
  ap (λ (t : ℕ). bit_and (x / 2) t) (half w),
  and_ones w (x / 2) (omega (arith, pow-suc 2 w)),
  pow-suc 2 w,
  one-le-pow w 2,
)
  where
    half : (v : ℕ) → (2 ^ suc v - 1) / 2 ≡ 2 ^ v - 1
    half v = omega (arith, pow-suc 2 v)

shifted : (w q : ℕ) → q * 2 ^ suc w ≡ 2 * (q * 2 ^ w)
shifted w q = omega (arith, ap (λ (t : ℕ). q * t) (pow-suc 2 w))

module _ (f : ℕ → ℕ → ℕ) (op : ℕ → ℕ → ℕ)
    (halves : (x y : ℕ) → f x y ≡ f (x / 2) (y / 2) * 2 + op (x % 2) (y % 2)) where
  -- An operation that works digit by digit works field by field.
  by_fields :
      (w h g x y : ℕ)
      → x < 2 ^ w
      → y < 2 ^ w
      → f (h * 2 ^ w + x) (g * 2 ^ w + y) ≡ f h g * 2 ^ w + f x y
  by_fields zero h g x y p q =
      let ex : x ≡ 0 = omega arith in
      let ey : y ≡ 0 = omega arith in
      let eh : h * 1 + 0 ≡ h = omega arith in
      let eg : g * 1 + 0 ≡ g = omega arith in rw (ex, ey, eh, eg) (omega (arith, halves 0 0))
  by_fields (suc w) h g x y p q =
      let hx : (h * 2 ^ suc w + x) / 2 ≡ h * 2 ^ w + x / 2 = omega (arith, shifted w h) in
      let hy : (g * 2 ^ suc w + y) / 2 ≡ g * 2 ^ w + y / 2 = omega (arith, shifted w g) in
      let lx : (h * 2 ^ suc w + x) % 2 ≡ x % 2 = omega (arith, shifted w h) in
      let ly : (g * 2 ^ suc w + y) % 2 ≡ y % 2 = omega (arith, shifted w g) in
      rw (halves (h * 2 ^ suc w + x) (g * 2 ^ suc w + y), hx, hy, lx, ly)
        (omega (
          arith,
          by_fields w h g (x / 2) (y / 2) (omega (arith, pow-suc 2 w)) (omega (arith, pow-suc 2 w)),
          halves x y,
          shifted w (f h g),
        ))

pub and_fields :
    (w h g x y : ℕ)
    → x < 2 ^ w
    → y < 2 ^ w
    → bit_and (h * 2 ^ w + x) (g * 2 ^ w + y) ≡ bit_and h g * 2 ^ w + bit_and x y
and_fields = by_fields bit_and min and_halves

pub or_fields :
    (w h g x y : ℕ)
    → x < 2 ^ w
    → y < 2 ^ w
    → bit_or (h * 2 ^ w + x) (g * 2 ^ w + y) ≡ bit_or h g * 2 ^ w + bit_or x y
or_fields = by_fields bit_or max or_halves

-- A mask of the low `k` bits is the remainder by `2 ^ k`.
pub and_low : (k w x : ℕ) → x < 2 ^ w → bit_and x (2 ^ k - 1) ≡ x % 2 ^ k
and_low k w x h =
    let low : x % 2 ^ k < 2 ^ k = mod-lt x (one-le-pow k 2 (omega arith)) in
    let whole : x / 2 ^ k * 2 ^ k + x % 2 ^ k ≡ x = div-add-mod' x (2 ^ k) in
    let high : x / 2 ^ k < 2 ^ w = omega (arith, div-le_self x (2 ^ k)) in
    omega (
      arith,
      ap (λ (t : ℕ). bit_and t (0 * 2 ^ k + (2 ^ k - 1))) whole,
      ap (λ (t : ℕ). bit_and x t) (zero_mul_add (2 ^ k) (2 ^ k - 1)),
      and_fields k (x / 2 ^ k) 0 (x % 2 ^ k) (2 ^ k - 1) low (omega arith),
      ap (λ (t : ℕ). t * 2 ^ k) (and_zero w (x / 2 ^ k) high),
      and_ones k (x % 2 ^ k) low,
    )
  where
    zero_mul_add : (p q : ℕ) → 0 * p + q ≡ q
    zero_mul_add p q = omega arith

pub zero_and : (x : ℕ) → bit_and 0 x ≡ 0
zero_and x = omega (arith, bit_and-bitwise 0 x)
