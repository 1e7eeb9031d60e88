-- ===== src/Memory/Aligned/Placed.antt =====
-- Where the aligned block lies in the raw one.
use ryanos.Prelude.{
  ℕ, zero, suc, sym, ◌+◌, ◌-◌, ◌*◌, ◌/◌, ◌%◌, ◌^◌, ◌≤◌, ◌<◌, ◌≡◌, ◌≢◌, false, bit_and, u64, sub64,
  ap, ◌∙◌, complement, arith, update,
}
use mathlib.Core.Path.{ap₂}
use native.Mathlib.Nat.{
  one-le-pow, div-add-mod', mod-lt, pow-le-pow_right, pow-suc, div-lt_iff_lt-mul, mul-mod_left,
  lt-div-mul-add, div-mul-le_self,
}
use ryanos.Prelude.Bits.Fields.{and_fields, and_zero, zero_and, and_ones}
use ryanos.Memory.Aligned.{bad_alignment, total_size, align_up, aligned_alloc, aligned_free}

pow_split : (j k : ℕ) → 2 ^ (j + k) ≡ 2 ^ j * 2 ^ k
pow_split zero k = let e : 0 + k ≡ k = omega arith in ap (λ n. 2 ^ n) e ∙ omega arith
pow_split (suc j) k =
    let e : suc j + k ≡ suc (j + k) = omega arith in
    ap (λ n. 2 ^ n) e
    ∙ omega (arith, pow-suc 2 (j + k), pow_split j k, ap (λ (n : ℕ). n * 2 ^ k) (pow-suc 2 j))

-- Clearing the low k bits of 64 rounds down to a multiple of 2 ^ k.
clear_low :
    (k j x : ℕ)
    → j + k ≡ 64
    → x < 2 ^ 64
    → bit_and x (complement 64 (2 ^ k - 1)) ≡ x / 2 ^ k * 2 ^ k
clear_low k j x e h =
    let split : 2 ^ 64 ≡ 2 ^ j * 2 ^ k = ap (λ n. 2 ^ n) (sym e) ∙ pow_split j k in
    let pos : 0 < 2 ^ k = one-le-pow k 2 (omega arith) in
    let top : 2 ^ j ≡ (2 ^ j - 1) + 1 = omega (arith, one-le-pow j 2 (omega arith)) in
    let mask : complement 64 (2 ^ k - 1) ≡ (2 ^ j - 1) * 2 ^ k + 0 =
      omega (arith, split, pos, ap (λ (n : ℕ). n * 2 ^ k) top) in
    let whole : x ≡ x / 2 ^ k * 2 ^ k + x % 2 ^ k = sym (div-add-mod' x (2 ^ k)) in
    let low : x % 2 ^ k < 2 ^ k = mod-lt x pos in
    let high : x / 2 ^ k < 2 ^ j = (div-lt_iff_lt-mul pos).1 (omega (arith, split)) in
    ap₂ bit_and whole mask
    ∙ and_fields k (x / 2 ^ k) (2 ^ j - 1) (x % 2 ^ k) 0 low pos
    ∙ omega
        (arith, ap (λ (n : ℕ). n * 2 ^ k) (and_ones j (x / 2 ^ k) high), and_zero k (x % 2 ^ k) low)

module _ (k : ℕ) (small : k ≤ 32) (large : 3 ≤ k) where
  pow_bounds : (8 ≤ 2 ^ k) × (2 ^ k ≤ 2 ^ 32)
  pow_bounds = (pow-le-pow_right (omega arith) large, pow-le-pow_right (omega arith) small)

  good_alignment : bad_alignment (2 ^ k) ≡ false
  unfolding bad_alignment
  good_alignment =
      let b = pow_bounds in
      let one : sub64 (2 ^ k) 1 ≡ 2 ^ k - 1 = omega arith in
      let none : bit_and (2 ^ k) (2 ^ k - 1) ≡ 0 =
        ap₂ bit_and (one_mul_add (2 ^ k)) (zero_mul_add (2 ^ k) (2 ^ k - 1))
        ∙ and_fields k 1 0 0 (2 ^ k - 1) (omega arith) (omega arith)
        ∙ omega (arith, zero_and (2 ^ k - 1)) in
      rw (one, none) (ground arith)
    where
      one_mul_add : (p : ℕ) → p ≡ 1 * p + 0
      one_mul_add p = omega arith

      zero_mul_add : (p q : ℕ) → q ≡ 0 * p + q
      zero_mul_add p q = omega arith

  align_up_bounds :
      (raw : ℕ)
      → raw < 2 ^ 63
      → (align_up (2 ^ k) raw % 2 ^ k ≡ 0)
        × (raw + 8 < align_up (2 ^ k) raw)
        × (align_up (2 ^ k) raw ≤ raw + 2 ^ k + 8)
  unfolding align_up
  align_up_bounds raw h =
      let b = pow_bounds in
      let pos : 0 < 2 ^ k = omega arith in
      let n = raw + 2 ^ k + 8 in
      let fits : u64 n ≡ n = omega arith in
      let ones : sub64 (2 ^ k) 1 ≡ 2 ^ k - 1 = omega arith in
      let e : align_up (2 ^ k) raw ≡ n / 2 ^ k * 2 ^ k =
        ap₂ (λ (x y : ℕ). bit_and x (complement 64 y)) fits ones
        ∙ clear_low k (64 - k) n (omega arith) (omega arith) in
      (
        ap (λ (x : ℕ). x % 2 ^ k) e ∙ mul-mod_left (n / 2 ^ k) (2 ^ k),
        omega (arith, e, lt-div-mul-add {a = n} pos),
        omega (arith, e, div-mul-le_self n (2 ^ k)),
      )

  module _ {S : Type 0} (malloc : ℕ → S → S × ℕ) (free : ℕ → S → S) where
    -- For an alignment 2^k with 3 ≤ k ≤ 32 and a size below 2^32, when `malloc` gives a raw block below
    -- 2^63 that is not NULL, the address that is returned is a multiple of the alignment, the block of
    -- `size` bytes there and the 8 bytes in front of it lie inside the raw block of the total size, and
    -- `aligned_free` of it gives the raw block to `free`.
    pub aligned_alloc_lem :
        (size : ℕ) (words : ℕ → ℕ) (s s' : S) (raw : ℕ)
        → size < 2 ^ 32
        → malloc (total_size (2 ^ k) size) s ≡ (s', raw)
        → raw ≢ 0
        → raw < 2 ^ 63
        → (p : ℕ) × (words' : ℕ → ℕ) × (aligned_alloc malloc free (2 ^ k) size words s
            ≡ (s', words', p))
          × (p % 2 ^ k ≡ 0)
          × (raw ≤ p - 8)
          × (p + size ≤ raw + total_size (2 ^ k) size)
          × ((t : S) → aligned_free malloc free p words' t ≡ free raw t)
    unfolding aligned_alloc aligned_free total_size
    aligned_alloc_lem size words s s' raw small_size given ne low =
        let b = pow_bounds in
        let bounds = align_up_bounds raw low in
        let p = align_up (2 ^ k) raw in
        (
          p,
          update words (sub64 p 8) raw,
          ground (arith, good_alignment),
          bounds.0,
          omega arith,
          omega arith,
          (λ t. ground arith),
        )
