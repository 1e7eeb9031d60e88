-- ===== src/Strings/Decimal/Digits.antt =====
-- The digits that `to_string` writes spell the number.
use ryanos.Prelude.{
  ℕ, zero, suc, ◌+◌, ◌-◌, ◌*◌, ◌/◌, ◌%◌, ◌^◌, ◌<◌, ◌≤◌, ◌≡◌, ◌≢◌, refl, ap, ◌∙◌, some, true, false,
  ltb, ◌==◌, update, u8, sub64, List, [], ◌∷◌, ◌++◌, length, length-append, arith, Bool-cases, inl,
  inr, ◌⊎◌,
}
use mathlib.Core.Path.{subst}
use native.Mathlib.Nat.{pow-suc}
use ryanos.Strings.{Bytes}
use ryanos.Strings.Spelled.{Spelled}
use ryanos.Strings.Decimal.{count_digits, write_digits, digits_at, to_string_unsigned}

-- The decimal digits of a number, as characters, the first one first.
pub data Decimal : ℕ → List ℕ → Type 0 where
  one : {n : ℕ} → n < 10 → Decimal n ((n + b'0') ∷ [])
  more :
      {n : ℕ} {ds : List ℕ} → 10 ≤ n → Decimal (n / 10) ds → Decimal n (ds ++ (n % 10 + b'0') ∷ [])

Decimal-length : {n : ℕ} {ds : List ℕ} → Decimal n ds → 1 ≤ length ds
Decimal-length (one s) = omega arith
Decimal-length (more {n} {ds} s d) = omega (arith, length-append {0} ds ((n % 10 + b'0') ∷ []))

-- Every number has its digits, at most as many as the power of ten has places.
pub decimal : (k n : ℕ) → n < 10 ^ suc k → (ds : List ℕ) × Decimal n ds × (length ds ≤ suc k)
decimal zero n h = ((n + b'0') ∷ [], one h, omega arith)
decimal (suc k) n h = elim (Bool-cases (ltb n 10)) [
  | inl small ↦ ((n + b'0') ∷ [], one (ground arith), omega arith)
  | inr large ↦
      let p : 10 ^ suc (suc k) ≡ 10 ^ suc k * 10 = pow-suc 10 (suc k) in
      let (ds, d, l) = decimal k (n / 10) (omega arith) in
      (
        ds ++ (n % 10 + b'0') ∷ [],
        more (ground arith) d,
        omega (arith, l, length-append {0} ds ((n % 10 + b'0') ∷ [])),
      )
]

count_digits-Decimal :
    (fuel n size : ℕ) (ds : List ℕ)
    → Decimal n ds
    → length ds ≤ fuel
    → size + length ds ≤ 256
    → count_digits fuel n size ≡ some (size + length ds - 1)
unfolding count_digits
count_digits-Decimal zero n size ds d l u = absurd (omega (arith, l, Decimal-length d))
count_digits-Decimal (suc fuel) n size ds (one s) l u =
    let stop : ltb 0 (n / 10) ≡ false = ground arith in
    let e : size + 1 - 1 ≡ size = omega arith in rw (stop, e) refl
count_digits-Decimal (suc fuel) n size ds (more {ds = es} s d) l u =
    let go : ltb 0 (n / 10) ≡ true = ground arith in
    let total = length-append es ((n % 10 + b'0') ∷ []) in
    let some_digit = Decimal-length d in
    let next : u8 (size + 1) ≡ size + 1 = omega (arith, total, some_digit, u) in
    let same : size + 1 + length es - 1 ≡ size + length (es ++ (n % 10 + b'0') ∷ []) - 1 =
      omega (arith, total) in
    rw (go, next)
      (count_digits-Decimal fuel (n / 10) (size + 1) es d (omega (arith, total, l))
          (omega (arith, total, u))
        ∙ ap some same)

-- The characters stand there, none of them 0.
abbrev Stand : Bytes → ℕ → List ℕ → Type 0
Stand m p [] = Unit {0}
Stand m p (c ∷ cs) = (c ≢ 0) × (m p ≡ c) × Stand m (p + 1) cs

Stand-append :
    (m : Bytes) (p : ℕ) (cs : List ℕ) (c : ℕ)
    → Stand m p cs
    → c ≢ 0
    → m (p + length cs) ≡ c
    → Stand m p (cs ++ c ∷ [])
Stand-append m p [] c h ne e = let z : p ≡ p + 0 = omega arith in (ne, ap m z ∙ e, tt)
Stand-append m p (d ∷ ds) c h ne e =
    let z : p + 1 + length ds ≡ p + suc (length ds) = omega arith in
    (h.0, h.1, Stand-append m (p + 1) ds c h.2 ne (ap m z ∙ e))

Stand-Spelled :
    (m m' : Bytes) (p : ℕ) (cs : List ℕ)
    → Stand m p cs
    → ((a : ℕ) → a < p + length cs → m' a ≡ m a)
    → m' (p + length cs) ≡ 0
    → Spelled m' p cs
Stand-Spelled m m' p [] h same z = let e : p ≡ p + 0 = omega arith in ap m' e ∙ z
Stand-Spelled m m' p (c ∷ cs) h same z =
    let e : p + 1 + length cs ≡ p + suc (length cs) = omega arith in
    (
      h.0,
      same p (omega arith) ∙ h.1,
      Stand-Spelled m m' (p + 1) cs h.2 (λ a l. same a (omega arith)) (ap m' e ∙ z),
    )

module _ (last : ℕ) (fits : last < 2 ^ 64) where
  -- The digits stand up to the place `index` in front of the last one.
  record Wrote (index : ℕ) (ds : List ℕ) (m m' : Bytes) : Type 0 where
    pub stand : Stand m' (last + 1 - (index + length ds)) ds
    pub others : (a : ℕ) → (a + index + length ds ≤ last) ⊎ (last < a + index) → m' a ≡ m a

  write_digits-Wrote :
      (fuel n index : ℕ) (ds : List ℕ) (m : Bytes)
      → Decimal n ds
      → length ds ≤ fuel
      → index + length ds ≤ 256
      → index + length ds ≤ last + 1
      → (m' : Bytes) × (write_digits fuel last n index m ≡ some m') × Wrote index ds m m'
  unfolding write_digits
  write_digits-Wrote zero n index ds m d l u v = absurd (omega (arith, l, Decimal-length d))
  write_digits-Wrote (suc fuel) n index ds m (one s) l u v =
      let stop : ltb 0 (n / 10) ≡ false = ground arith in
      let at : sub64 last index ≡ last - index = omega arith in
      let low : n % 10 ≡ n = omega arith in
      (
        update m (sub64 last index) (n % 10 + b'0'),
        rw stop refl,
        record {
          stand = (
            (λ z. omega arith),
            (let here : (sub64 last index == last + 1 - (index + 1)) ≡ true = ground arith in
                rw here (omega arith)),
            tt,
          );
          others = λ a o.
              let ne : (sub64 last index == a) ≡ false = elim o [
                | inl under ↦ ground arith
                | inr over ↦ ground arith
              ] in
              rw ne refl;
        },
      )
  write_digits-Wrote (suc fuel) n index ds m (more {ds = es} s d) l u v =
      let go : ltb 0 (n / 10) ≡ true = ground arith in
      let total = length-append es ((n % 10 + b'0') ∷ []) in
      let some_digit = Decimal-length d in
      let at : sub64 last index ≡ last - index = omega (arith, total, v) in
      let next : u8 (index + 1) ≡ index + 1 = omega (arith, total, some_digit, u) in
      let m₁ = update m (sub64 last index) (n % 10 + b'0') in
      let (m', e, w) =
        write_digits-Wrote fuel (n / 10) (index + 1) es m₁ d (omega (arith, total, l))
          (omega (arith, total, u)) (omega (arith, total, v)) in
      let p : last + 1 - (index + 1 + length es)
          ≡ last + 1 - (index + length (es ++ (n % 10 + b'0') ∷ [])) =
        omega (arith, total) in
      let place : last + 1 - (index + 1 + length es) + length es ≡ last - index =
        omega (arith, total, v) in
      let here : (sub64 last index == last - index) ≡ true = ground arith in
      let digit : m' (last + 1 - (index + 1 + length es) + length es) ≡ n % 10 + b'0' =
        ap m' place ∙ w.others (last - index) (inr (omega (arith, total, v))) ∙ rw here refl in
      (
        m',
        rw go (ap (λ (k : ℕ). write_digits fuel last (n / 10) k m₁) next ∙ e),
        record {
          stand =
              subst (λ (q : ℕ). Stand m' q (es ++ (n % 10 + b'0') ∷ [])) p
                (Stand-append m' (last + 1 - (index + 1 + length es)) es (n % 10 + b'0') w.stand
                  (λ z. omega arith) digit);
          others = λ a o.
              let ne : (sub64 last index == a) ≡ false = elim o [
                | inl under ↦ ground (arith, total, some_digit)
                | inr over ↦ ground (arith, total, v)
              ] in
              w.others a
                (elim o [ inl under ↦ inl (omega (arith, total)) | inr over ↦ inr (omega arith) ])
              ∙ rw ne refl;
        },
      )

-- With fuel for as many rounds as there are digits, a size that counts up to fewer than 256
-- and a buffer inside the address space: to_string comes back, its digits are those of the number,
-- the first one as many bytes behind the buffer's start as the size held before, and no byte but
-- theirs and that of the 0 behind them changes.
pub to_string_unsigned-Decimal :
    (fuel uint_output garbage n : ℕ) (ds : List ℕ) (m : Bytes)
    → Decimal n ds
    → length ds ≤ fuel
    → garbage + length ds ≤ 256
    → uint_output + 2 ^ 8 < 2 ^ 64
    → (m' : Bytes) × (to_string_unsigned fuel uint_output garbage n m ≡ some m')
      × Spelled m' (uint_output + garbage) ds
      × ((a : ℕ)
          → (a < uint_output + garbage) ⊎ (uint_output + garbage + length ds < a)
          → m' a ≡ m a)
unfolding to_string_unsigned
to_string_unsigned-Decimal fuel uint_output garbage n ds m d l u fits =
    let some_digit = Decimal-length d in
    let size = garbage + length ds - 1 in
    let last = uint_output + 0 + size in
    let (m₁, e, w) =
      write_digits-Wrote last (omega arith) fuel n 0 ds m d l (omega arith)
        (omega (arith, some_digit)) in
    let start : last + 1 - (0 + length ds) ≡ uint_output + garbage = omega (arith, some_digit) in
    let m' = update m₁ (last + 1) 0 in
    let end : (last + 1 == uint_output + garbage + length ds) ≡ true = ground (arith, some_digit) in
    (
      m',
      rw (to_string_unsigned, digits_at, count_digits-Decimal fuel n garbage ds d l u, e) refl,
      Stand-Spelled m₁ m' (uint_output + garbage) ds
          (subst (λ (q : ℕ). Stand m₁ q ds) start w.stand)
          (λ a b. let ne : (last + 1 == a) ≡ false = ground (arith, some_digit) in rw ne refl)
          (rw end refl),
      (λ a o.
          let ne : (last + 1 == a) ≡ false = elim o [
            | inl under ↦ ground (arith, some_digit)
            | inr over ↦ ground (arith, some_digit)
          ] in
          rw ne (
            w.others a (elim o [
              | inl under ↦ inl (omega (arith, some_digit))
              | inr over ↦ inr (omega (arith, some_digit))
            ]))),
    )
