-- ===== src/Memory/Bytes/Fill.antt =====
-- `memset` repeats the four bytes of its value over the region and touches nothing else.
use ryanos.Prelude.{
  ℕ, zero, suc, ◌+◌, ◌-◌, ◌*◌, ◌/◌, ◌%◌, ◌^◌, ◌<◌, ◌≡◌, ap, ◌∙◌, arith, leb, if◌then◌else◌, update,
  ◌<<<◌, bit_or, Bool-cases, inl, inr,
}
use mathlib.Core.Path.{ap₂}
use ryanos.Prelude.Bits.Fields.{or_fields, or_zero, zero_or}
use ryanos.Memory.Bytes.{Bytes, byte, within, store64, stosq, store_rest, memset}

stosq_lem :
    (q a v : ℕ) (m : Bytes) (b : ℕ)
    → stosq q a v m b ≡ (if within a (q * 8) b then byte v ((b - a) % 8) else m b)
unfolding stosq store64
stosq_lem zero a v m b = ground arith
stosq_lem (suc q) a v m b =
    stosq_lem q (a + 8) v (store64 a v m) b ∙ elim (Bool-cases (within a 8 b)) [
      | inl here ↦ let e : (b - a) % 8 ≡ b - a = ground arith in ground (arith, ap (byte v) e)
      | inr away ↦ elim (Bool-cases (leb (a + 8) b)) [
        | inl far ↦
            let e : (b - (a + 8)) % 8 ≡ (b - a) % 8 = ground arith in ground (arith, ap (byte v) e)
        | inr near ↦ ground arith
      ]
    ]

store_rest_lem :
    (left i a c : ℕ) (m : Bytes) (b : ℕ)
    → store_rest left i a c m b ≡ (if within a left b then byte c ((i + (b - a)) % 4) else m b)
unfolding store_rest
store_rest_lem zero i a c m b = ground arith
store_rest_lem (suc left) i a c m b =
    store_rest_lem left (i + 1) (a + 1) c (update m a (byte c (i % 4))) b
    ∙ elim (Bool-cases (within (a + 1) left b)) [
      | inl here ↦
          let e : (i + 1 + (b - (a + 1))) % 4 ≡ (i + (b - a)) % 4 = ground arith in
          ground (arith, ap (byte c) e)
      | inr away ↦ elim (Bool-cases (within a 1 b)) [
        | inl at ↦ let e : i % 4 ≡ (i + (b - a)) % 4 = ground arith in ground (arith, ap (byte c) e)
        | inr off ↦ ground arith
      ]
    ]

-- The two halves of the value that `rep stosq` stores.
doubled : (c i : ℕ) → c < 2 ^ 32 → i < 8 → byte (c + c * 2 ^ 32) i ≡ byte c (i % 4)
unfolding byte
doubled c zero small h = omega arith
doubled c (suc zero) small h = omega arith
doubled c (suc (suc zero)) small h = omega arith
doubled c (suc (suc (suc zero))) small h = omega arith
doubled c (suc (suc (suc (suc zero)))) small h = omega arith
doubled c (suc (suc (suc (suc (suc zero))))) small h = omega arith
doubled c (suc (suc (suc (suc (suc (suc zero)))))) small h = omega arith
doubled c (suc (suc (suc (suc (suc (suc (suc zero))))))) small h = omega arith
doubled c (suc (suc (suc (suc (suc (suc (suc (suc i)))))))) small h = absurd (omega arith)

value64_lem : (c : ℕ) → c < 2 ^ 32 → bit_or c (c <<< 32) ≡ c + c * 2 ^ 32
value64_lem c small = omega (
  arith,
  or_fields 32 0 c c 0 small (omega arith),
  zero_or 32 c small,
  or_zero 32 c small,
  ap₂ bit_or low high,
)
  where
    low : c ≡ 0 * 2 ^ 32 + c
    low = omega arith

    high : c * 2 ^ 32 ≡ c * 2 ^ 32 + 0
    high = omega arith

-- For a value of 32 bits: each byte of the region becomes the byte of the value at its distance modulo 4, and
-- every other byte is as before.
pub memset_lem :
    (start c num : ℕ) (m : Bytes) (a : ℕ)
    → c < 2 ^ 32
    → memset start c num m a ≡ (if within start num a then byte c ((a - start) % 4) else m a)
unfolding memset
memset_lem start c num m a small =
    let q = num / 8 in
    let value64 = bit_or c (c <<< 32) in
    store_rest_lem (num % 8) 0 (start + q * 8) c (stosq q start value64 m) a
    ∙ elim (Bool-cases (within (start + q * 8) (num % 8) a)) [
      | inl tail ↦
          let e : (0 + (a - (start + q * 8))) % 4 ≡ (a - start) % 4 = ground arith in
          ground (arith, ap (byte c) e)
      | inr body ↦
          let stored = stosq_lem q start value64 m a in
          elim (Bool-cases (within start (q * 8) a)) [
            | inl here ↦
                let e : (a - start) % 8 % 4 ≡ (a - start) % 4 = omega arith in
                ground (
                  arith,
                  stored,
                  ap (λ (v : ℕ). byte v ((a - start) % 8)) (value64_lem c small),
                  doubled c ((a - start) % 8) small (omega arith),
                  ap (byte c) e,
                )
            | inr away ↦ ground (arith, stored)
          ]
    ]
