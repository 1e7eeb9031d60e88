-- ===== src/Shell/Commands/Number.antt =====
-- What `strtoi` reads.
use ryanos.Prelude.{
  ℕ, zero, suc, ◌+◌, ◌-◌, ◌*◌, ◌^◌, ◌<◌, ◌≤◌, ◌≡◌, refl, ap, ◌∙◌, Bool, true, false, List, [], ◌∷◌,
  length, some, ltb, leb, ◌==◌, ◌&&◌, ◌||◌, not, if◌then◌else◌, arith, Bool-cases, inl, inr,
}
use native.Mathlib.Nat.{pow-suc, one-le-pow, mul-le-mul_left}
use ryanos.Prelude.Int.{ℤ, pos, negated}
use ryanos.Strings.{Bytes}
use ryanos.Strings.Spelled.{Spelled}
use ryanos.Shell.Commands.{strtoi_from, strtoi}

abbrev is_digit : ℕ → Bool
is_digit c = leb b'0' c && leb c b'9'

-- From `p` on stand the digits, and then a byte that is none.
abbrev pub Digits : Bytes → ℕ → List ℕ → Type 0
Digits m p [] = is_digit (m p) ≡ false
Digits m p (d ∷ ds) = (d < 10) × (m p ≡ b'0' + d) × Digits m (p + 1) ds

-- The number that the digits spell, each with its place value.
unfoldable pub value : List ℕ → ℕ
value [] = 0
value (d ∷ ds) = d * 10 ^ length ds + value ds

-- The largest size of a number with this sign.
abbrev pub limit : Bool → ℕ
limit minus = if minus then 2 ^ 31 else 2 ^ 31 - 1

abbrev pub signed : Bool → ℕ → ℤ
signed minus n = if minus then negated n else pos n

-- The number from the digits on that were read.
onward : ℕ → List ℕ → ℕ
onward sum ds = sum * 10 ^ length ds + value ds

scale : (s t d v : ℕ) → s * (t * 10) + (d * t + v) ≡ (s * 10 + d) * t + v
scale s t d v = grind arith

onward-step : (sum d : ℕ) (ds : List ℕ) → onward sum (d ∷ ds) ≡ onward (sum * 10 + d) ds
unfolding onward value
onward-step sum d ds =
    ap (λ (t : ℕ). sum * t + (d * 10 ^ length ds + value ds)) (pow-suc 10 (length ds))
    ∙ scale sum (10 ^ length ds) d (value ds)

onward-le : (sum : ℕ) (ds : List ℕ) → sum ≤ onward sum ds
unfolding onward value
onward-le sum ds =
    let one : 1 ≤ 10 ^ length ds = one-le-pow (length ds) 10 (omega arith) in
    let more : sum * 1 ≤ sum * 10 ^ length ds = mul-le-mul_left sum one in omega arith

too_big :
    (minus : Bool) (n : ℕ)
    → (ltb (2 ^ 31) n || (not minus && ltb (2 ^ 31 - 1) n)) ≡ not (leb n (limit minus))
too_big true n = ground arith
too_big false n = ground arith

onward-zero : (ds : List ℕ) → onward 0 ds ≡ value ds
unfolding onward
onward-zero ds = ground arith

onward-nil : (sum : ℕ) → onward sum [] ≡ sum
unfolding onward value
onward-nil sum = omega arith

strtoi_from_lem :
    (fuel : ℕ) (m : Bytes) (minus : Bool) (p sum : ℕ) (ds : List ℕ)
    → Digits m p ds
    → sum ≤ limit minus
    → length ds < fuel
    → strtoi_from fuel m minus p sum
      ≡ some (if leb (onward sum ds) (limit minus) then signed minus (onward sum ds) else pos 0)
unfolding strtoi_from
strtoi_from_lem zero m minus p sum ds h small enough = absurd (omega arith)
strtoi_from_lem (suc fuel) m minus p sum [] h small enough =
    let e : onward sum [] ≡ sum = onward-nil sum in
    let fits : leb sum (limit minus) ≡ true = ground arith in rw (h, e, fits) refl
strtoi_from_lem (suc fuel) m minus p sum (d ∷ ds) h small enough =
    let digit : is_digit (m p) ≡ true = let e = h.1 in let l = h.0 in ground arith in
    let next : sum * 10 + (m p - b'0') ≡ sum * 10 + d = omega (arith, h.1) in
    let step = onward-step sum d ds in
    rw (digit, next)
      (elim (Bool-cases (leb (sum * 10 + d) (limit minus))) [
        | inl fits ↦
            rw (too_big minus (sum * 10 + d), fits, step)
              (strtoi_from_lem fuel m minus (p + 1) (sum * 10 + d) ds h.2 (ground arith)
                (omega arith))
        | inr big ↦
            let more = onward-le (sum * 10 + d) ds in
            let z : leb (onward (sum * 10 + d) ds) (limit minus) ≡ false = ground arith in
            rw (too_big minus (sum * 10 + d), big, step, z) refl
      ])

-- With fuel for more than the digits: behind an optional sign (a minus, a plus or none), strtoi reads
-- the digits up to the first byte that is none; it gives their number with the sign if that
-- fits an int, and 0 otherwise.
pub strtoi_lem :
    (fuel : ℕ) (m : Bytes) (s : ℕ) (ds : List ℕ)
    → Digits m (if (m s == b'-') || (m s == b'+') then s + 1 else s) ds
    → length ds < fuel
    → strtoi fuel m s
      ≡ some
          (if leb (value ds) (limit (m s == b'-')) then signed (m s == b'-') (value ds) else pos 0)
unfolding strtoi
strtoi_lem fuel m s ds h enough =
    let minus = m s == b'-' in
    let p = if minus || (m s == b'+') then s + 1 else s in
    let e : onward 0 ds ≡ value ds = onward-zero ds in
    strtoi_from_lem fuel m minus p 0 ds h (limit-le minus) enough
    ∙ ap (λ (n : ℕ). some (if leb n (limit minus) then signed minus n else pos 0)) e
  where
    limit-le : (b : Bool) → 0 ≤ limit b
    limit-le b = omega arith

-- Whatever the text, strtoi comes back.
strtoi_from-total :
    (fuel : ℕ) (m : Bytes) (minus : Bool) (p sum : ℕ) (t : List ℕ)
    → Spelled m p t
    → length t < fuel
    → (n : ℤ) × (strtoi_from fuel m minus p sum ≡ some n)
unfolding strtoi_from
strtoi_from-total zero m minus p sum t h l = absurd (omega arith)
strtoi_from-total (suc fuel) m minus p sum [] h l =
    let stop : (leb b'0' (m p) && leb (m p) b'9') ≡ false = ground arith in
    (if minus then negated sum else pos sum, rw stop refl)
strtoi_from-total (suc fuel) m minus p sum (c ∷ cs) h l =
    let sum' = sum * 10 + (m p - b'0') in
    elim (Bool-cases (leb b'0' (m p) && leb (m p) b'9')) [
      | inr stop ↦ (if minus then negated sum else pos sum, rw stop refl)
      | inl digit ↦ elim (Bool-cases (ltb (2 ^ 31) sum' || (not minus && ltb (2 ^ 31 - 1) sum'))) [
        | inl big ↦ (pos 0, rw (digit, big) refl)
        | inr small ↦
            let (n, e) = strtoi_from-total fuel m minus (p + 1) sum' cs h.2 (omega arith) in
            (n, rw (digit, small) e)
      ]
    ]

pub strtoi-total :
    (fuel : ℕ) (m : Bytes) (p : ℕ) (t : List ℕ)
    → Spelled m p t
    → length t < fuel
    → (n : ℤ) × (strtoi fuel m p ≡ some n)
unfolding strtoi
strtoi-total fuel m p [] h l =
    let no_minus : (m p == b'-') ≡ false = ground arith in
    let no_plus : (m p == b'+') ≡ false = ground arith in
    let (n, e) = strtoi_from-total fuel m false p 0 [] h l in (n, rw (no_minus, no_plus) e)
strtoi-total fuel m p (c ∷ cs) h l = elim (Bool-cases ((m p == b'-') || (m p == b'+'))) [
  | inl sign ↦
      let (n, e) = strtoi_from-total fuel m (m p == b'-') (p + 1) 0 cs h.2 (omega arith) in
      (n, rw sign e)
  | inr plain ↦
      let (n, e) = strtoi_from-total fuel m (m p == b'-') p 0 (c ∷ cs) h l in (n, rw plain e)
]
