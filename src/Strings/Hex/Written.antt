-- ===== src/Strings/Hex/Written.antt =====
-- What `to_hstring` writes, in its buffer and in front of it.
use ryanos.Prelude.{
  ℕ, zero, suc, ◌+◌, ◌-◌, ◌*◌, ◌/◌, ◌%◌, ◌^◌, ◌<◌, ◌≤◌, ◌≡◌, ◌≢◌, refl, ap, ◌∙◌, sym, ◌⊎◌, inl, inr,
  arith, ◌==◌, if◌then◌else◌, true, false, update, bit_and, sub64, Bool-cases, ◌>>>◌,
}
use mathlib.Core.Path.{subst}
use ryanos.Prelude.Bits.Fields.{and_low, and_fields, and_zero, and_ones}
use ryanos.Strings.{Bytes}
use ryanos.Strings.Hex.{hex_digit, hex_from, to_hstring}

-- The nibble `j` of the bytes at an address, counted from the low one.
abbrev pub nibble : Bytes → ℕ → ℕ → ℕ
nibble m p j = if j % 2 == 0 then m (p + j / 2) % 16 else m (p + j / 2) / 16

high_nibble : (b : ℕ) → b < 256 → bit_and b 0xf0 / 2 ^ 4 ≡ b / 16
high_nibble b h =
    let fields : b ≡ b / 2 ^ 4 * 2 ^ 4 + b % 2 ^ 4 = omega arith in
    omega (
      arith,
      ap (λ (t : ℕ). bit_and t 0xf0) fields,
      and_fields 4 (b / 2 ^ 4) 0xf (b % 2 ^ 4) 0 (omega arith) (omega arith),
      and_ones 4 (b / 2 ^ 4) (omega arith),
      and_zero 4 (b % 2 ^ 4) (omega arith),
    )

low_nibble : (b : ℕ) → b < 256 → bit_and b 0x0f ≡ b % 16
low_nibble b h = omega (arith, and_low 4 8 b h)

-- Of the places down from the top, those of the nibbles `start` to `stop` have been written.
pub record Places (top val_ptr start stop : ℕ) (m m' : Bytes) : Type 0 where
  pub digits : (j : ℕ) → start ≤ j → j < stop → m' (top - j) ≡ hex_digit (nibble m val_ptr j)
  pub others : (a : ℕ) → (a + stop ≤ top) ⊎ (top < a + start) → m' a ≡ m a

nibble-same :
    (m m' : Bytes) (p j : ℕ) → m' (p + j / 2) ≡ m (p + j / 2) → nibble m' p j ≡ nibble m p j
nibble-same m m' p j e = ap (λ (b : ℕ). if j % 2 == 0 then b % 16 else b / 16) e

nibble-even : (m : Bytes) (p i : ℕ) → nibble m p (i * 2) ≡ m (p + i) % 16
nibble-even m p i =
    let e : i * 2 / 2 ≡ i = omega arith in
    let even : (i * 2 % 2 == 0) ≡ true = ground arith in rw (even, e) refl

nibble-odd : (m : Bytes) (p i : ℕ) → nibble m p (i * 2 + 1) ≡ m (p + i) / 16
nibble-odd m p i =
    let e : (i * 2 + 1) / 2 ≡ i = omega arith in
    let odd : ((i * 2 + 1) % 2 == 0) ≡ false = ground arith in rw (odd, e) refl

module _ (hex_output val_ptr size : ℕ) (fits : hex_output + size + 1 < 2 ^ 64)
    (room : size ≤ hex_output)
    (apart : (val_ptr + 3 * size ≤ hex_output) ⊎ (hex_output + size + 1 < val_ptr)) where
  abbrev top : ℕ
  top = hex_output + size

  -- The bytes of the argument, as far as the loop reads.
  abbrev Argument : Bytes → Type 0
  Argument m = (k : ℕ) → k < size → m (val_ptr + k) < 256

  module _ (i : ℕ) (inside : i < size) (m : Bytes) (arg : Argument m) where
    abbrev m₁ : Bytes
    m₁ = update m (sub64 top (i * 2 + 1)) (hex_digit (bit_and (m (val_ptr + i)) 0xf0 >>> 4))

    abbrev m₂ : Bytes
    m₂ = update m₁ (sub64 top (i * 2)) (hex_digit (bit_and (m₁ (val_ptr + i)) 0x0f))

    at_high : sub64 top (i * 2 + 1) ≡ top - (i * 2 + 1)
    at_high = omega arith

    at_low : sub64 top (i * 2) ≡ top - i * 2
    at_low = omega arith

    step-others : (a : ℕ) → a ≢ top - (i * 2 + 1) → a ≢ top - i * 2 → m₂ a ≡ m a
    step-others a n₁ n₂ =
        let e₁ : (sub64 top (i * 2 + 1) == a) ≡ false = let e = at_high in ground arith in
        let e₂ : (sub64 top (i * 2) == a) ≡ false = let e = at_low in ground arith in
        rw (e₂, e₁) refl

    step-argument : (k : ℕ) → k < size → m₂ (val_ptr + k) ≡ m (val_ptr + k)
    step-argument k l = elim apart [
      | inl under ↦ step-others (val_ptr + k) (λ e. omega arith) (λ e. omega arith)
      | inr over ↦ step-others (val_ptr + k) (λ e. omega arith) (λ e. omega arith)
    ]

    step-high : m₂ (top - (i * 2 + 1)) ≡ hex_digit (m (val_ptr + i) / 16)
    step-high =
        let e₁ : (sub64 top (i * 2 + 1) == top - (i * 2 + 1)) ≡ true =
          let e = at_high in ground arith in
        let e₂ : (sub64 top (i * 2) == top - (i * 2 + 1)) ≡ false =
          let e = at_low in ground arith in
        rw (e₂, e₁) (ap hex_digit (high_nibble (m (val_ptr + i)) (arg i inside)))

    step-low : m₂ (top - i * 2) ≡ hex_digit (m (val_ptr + i) % 16)
    step-low =
        let e₂ : (sub64 top (i * 2) == top - i * 2) ≡ true = let e = at_low in ground arith in
        let kept : (sub64 top (i * 2 + 1) == val_ptr + i) ≡ false =
          let e = at_high in elim apart [ inl under ↦ ground arith | inr over ↦ ground arith ] in
        rw (e₂, kept) (ap hex_digit (low_nibble (m (val_ptr + i)) (arg i inside)))

  hex_from-Places :
      (count i : ℕ) (m : Bytes)
      → i + count ≤ size
      → Argument m
      → Places top val_ptr (i * 2) ((i + count) * 2) m (hex_from hex_output val_ptr size i count m)
  unfolding hex_from
  hex_from-Places zero i m l arg = record {
    digits = λ j a b. absurd (omega arith);
    others = λ a o. refl;
  }
  hex_from-Places (suc count) i m l arg =
      let inside : i < size = omega arith in
      let n = m₂ i inside m arg in
      let same = step-argument i inside m arg in
      let r = hex_from-Places count (i + 1) n (omega arith) (λ k b. rw (same k b) (arg k b)) in
      record {
        digits = λ j a b. elim (Bool-cases (j == i * 2)) [
          | inl low ↦
              let e : i * 2 ≡ j = ground arith in
              subst
                (λ (k : ℕ).
                  hex_from hex_output val_ptr size (i + 1) count n (top - k)
                  ≡ hex_digit (nibble m val_ptr k))
                e
                (r.others (top - i * 2) (inr (omega arith))
                  ∙ step-low i inside m arg
                  ∙ ap hex_digit (sym (nibble-even m val_ptr i)))
          | inr above ↦ elim (Bool-cases (j == i * 2 + 1)) [
            | inl high ↦
                let e : i * 2 + 1 ≡ j = ground arith in
                subst
                  (λ (k : ℕ).
                    hex_from hex_output val_ptr size (i + 1) count n (top - k)
                    ≡ hex_digit (nibble m val_ptr k))
                  e
                  (r.others (top - (i * 2 + 1)) (inr (omega arith))
                    ∙ step-high i inside m arg
                    ∙ ap hex_digit (sym (nibble-odd m val_ptr i)))
            | inr later ↦
                r.digits j (ground arith) (omega arith)
                ∙ ap hex_digit (nibble-same m n val_ptr j (same (j / 2) (omega arith)))
          ]
        ];
        others = λ a o. elim o [
          | inl under ↦
              r.others a (inl (omega arith))
              ∙ step-others i inside m arg a (λ e. omega arith) (λ e. omega arith)
          | inr over ↦
              r.others a (inr (omega arith))
              ∙ step-others i inside m arg a (λ e. omega arith) (λ e. omega arith)
        ];
      }

-- For an argument of some bytes whose copy, as far as the loop reads, lies apart from the buffer and
-- from as many bytes in front of it: the place `size - j` of the buffer, where size is twice the width less one, has
-- the digit of the nibble j for every j below twice the size, behind them stands a 0, and no other
-- byte changes. The places of the nibbles j > size lie in front of the buffer.
pub to_hstring-Places :
    (width hex_output val_ptr : ℕ) (m : Bytes)
    → 1 ≤ width
    → hex_output + width * 2 < 2 ^ 64
    → width * 2 - 1 ≤ hex_output
    → (val_ptr + 3 * (width * 2 - 1) ≤ hex_output) ⊎ (hex_output + width * 2 < val_ptr)
    → ((k : ℕ) → k < width * 2 - 1 → m (val_ptr + k) < 256)
    → (let m' = to_hstring width hex_output val_ptr m in
        let size = width * 2 - 1 in
        ((j : ℕ) → j < size * 2 → m' (hex_output + size - j) ≡ hex_digit (nibble m val_ptr j))
        × (m' (hex_output + size + 1) ≡ 0)
        × ((a : ℕ) → (a + size * 2 ≤ hex_output + size) ⊎ (hex_output + size + 1 < a) → m' a ≡ m a))
unfolding to_hstring
to_hstring-Places width hex_output val_ptr m some_bytes fits room apart arg =
    let size = width * 2 - 1 in
    let near : (val_ptr + 3 * size ≤ hex_output) ⊎ (hex_output + size + 1 < val_ptr) = elim apart [
      | inl under ↦ inl under
      | inr over ↦ inr (omega arith)
    ] in
    let r =
      hex_from-Places hex_output val_ptr size (omega arith) room near size 0 m (omega arith) arg in
    (
      (λ j l.
          let ne : (hex_output + size + 1 == hex_output + size - j) ≡ false = ground arith in
          rw ne (r.digits j (omega arith) (omega arith))),
      (let e : (hex_output + size + 1 == hex_output + size + 1) ≡ true = ground arith in rw e refl),
      (λ a o.
          let ne : (hex_output + size + 1 == a) ≡ false = elim o [
            | inl under ↦ ground arith
            | inr over ↦ ground arith
          ] in
          rw ne
            (r.others a (elim o [ inl under ↦ inl (omega arith) | inr over ↦ inr (omega arith) ]))),
    )
