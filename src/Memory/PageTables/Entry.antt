-- ===== src/Memory/PageTables/Entry.antt =====
-- The entry that links a page is present and leads to the page.
use ryanos.Prelude.{
  ℕ, zero, suc, ◌+◌, ◌-◌, ◌*◌, ◌/◌, ◌%◌, ◌^◌, ◌<◌, ◌≤◌, ◌≡◌, ap, ◌∙◌, refl, bit_and, bit_or,
  complement, true, false, arith, ◌⊎◌, inl, inr,
}
use mathlib.Core.Path.{ap₂}
use ryanos.Prelude.Bits.{bit}
use ryanos.Prelude.Bits.Fields.{and_fields, or_fields, and_ones, or_zero}
use ryanos.Memory.Paging.{present, set_flag, bit_selector, position, set_address}
use ryanos.Memory.Paging.Flags.{get_flag-present}
use ryanos.Memory.Paging.Address.{get_address_lem, set_address_lem, set_address-lt}
use ryanos.Memory.PageTables.{entry, is_present, target, link}

-- The low two bits after the flag of weight s, 1 or 2, is set.
module _ (s : ℕ) (weight : (s ≡ 1) ⊎ (s ≡ 2)) where
  abbrev low_bits : ℕ → ℕ
  low_bits l = bit_or (bit_and l (3 - s)) s

  masked-lt : (l : ℕ) → l < 4 → (bit_and l (3 - s) < 4) × (low_bits l < 4)
  masked-lt l h = elim weight [ inl e ↦ rw e (one l h) | inr e ↦ rw e (two l h) ]
    where
      one : (l : ℕ) → l < 4 → (bit_and l 2 < 4) × (bit_or (bit_and l 2) 1 < 4)
      one zero h = omega arith
      one (suc zero) h = omega arith
      one (suc (suc zero)) h = omega arith
      one (suc (suc (suc zero))) h = omega arith
      one (suc (suc (suc (suc l)))) h = absurd (omega arith)

      two : (l : ℕ) → l < 4 → (bit_and l 1 < 4) × (bit_or (bit_and l 1) 2 < 4)
      two zero h = omega arith
      two (suc zero) h = omega arith
      two (suc (suc zero)) h = omega arith
      two (suc (suc (suc zero))) h = omega arith
      two (suc (suc (suc (suc l)))) h = absurd (omega arith)

  -- Setting the flag leaves the 62 bits above as they are.
  set_bits :
      (x : ℕ) → x < 2 ^ 64 → bit_or (bit_and x (complement 64 s)) s ≡ x / 4 * 4 + low_bits (x % 4)
  set_bits x h =
      let weight_lt : (1 ≤ s) × (s < 4) = omega arith in
      let l = x % 4 in
      let split : x ≡ x / 4 * 2 ^ 2 + l = omega arith in
      let mask : complement 64 s ≡ (2 ^ 62 - 1) * 2 ^ 2 + (3 - s) = omega arith in
      let whole : s ≡ 0 * 2 ^ 2 + s = omega arith in
      let small = masked-lt l (omega arith) in
      let cleared =
        ap₂ bit_and split mask
        ∙ and_fields 2 (x / 4) (2 ^ 62 - 1) l (3 - s) (omega arith) (omega arith)
        ∙ ap (λ (n : ℕ). n * 2 ^ 2 + bit_and l (3 - s)) (and_ones 62 (x / 4) (omega arith)) in
      ap₂ bit_or cleared whole
      ∙ or_fields 2 (x / 4) 0 (bit_and l (3 - s)) s small.0 (omega arith)
      ∙ ap (λ (n : ℕ). n * 2 ^ 2 + bit_or (bit_and l (3 - s)) s) (or_zero 62 (x / 4) (omega arith))

first_bit : (l : ℕ) → l < 4 → bit_or (bit_and l 2) 1 % 2 ≡ 1
first_bit zero h = refl
first_bit (suc zero) h = refl
first_bit (suc (suc zero)) h = refl
first_bit (suc (suc (suc zero))) h = refl
first_bit (suc (suc (suc (suc l)))) h = absurd (omega arith)

kept_bit : (l : ℕ) → l < 4 → bit_or (bit_and l 1) 2 % 2 ≡ l % 2
kept_bit zero h = refl
kept_bit (suc zero) h = refl
kept_bit (suc (suc zero)) h = refl
kept_bit (suc (suc (suc zero))) h = refl
kept_bit (suc (suc (suc (suc l)))) h = absurd (omega arith)

module _ (e page : ℕ) (word : e < 2 ^ 64) (frame : page < 2 ^ 64) where
  abbrev addressed : ℕ
  addressed = (set_address (entry e) (page / 2 ^ 12)).value

  addressed_lem : (addressed < 2 ^ 64) × (addressed / 2 ^ 12 % 2 ^ 40 ≡ page / 2 ^ 12 % 2 ^ 40)
  addressed_lem = omega (
    arith,
    set_address-lt (entry e) word (page / 2 ^ 12) (omega arith),
    set_address_lem (entry e) word (page / 2 ^ 12) (omega arith),
  )

  link_lem :
      (link e page < 2 ^ 64)
      × (link e page / 2 ^ 12 % 2 ^ 40 ≡ page / 2 ^ 12 % 2 ^ 40)
      × (link e page % 2 ≡ 1)
  unfolding link set_flag bit_selector position
  link_lem =
      let a = addressed_lem in
      let y = bit_or (bit_and addressed (complement 64 1)) 1 in
      let first = set_bits 1 (inl refl) addressed a.0 in
      let small = (masked-lt 1 (inl refl) (addressed % 4) (omega arith)).1 in
      let one = first_bit (addressed % 4) (omega arith) in
      let word' : y < 2 ^ 64 = omega arith in
      let second = set_bits 2 (inr refl) y word' in
      let small' = (masked-lt 2 (inr refl) (y % 4) (omega arith)).1 in
      let kept = kept_bit (y % 4) (omega arith) in omega (arith, a)

  pub link-lt : link e page < 2 ^ 64
  link-lt = link_lem.0

  pub is_present-link : is_present (link e page) ≡ true
  unfolding is_present position bit
  is_present-link =
      let l = link_lem in get_flag-present (entry (link e page)) present l.0 ∙ ground arith

  -- A page below 2^52 is led to.
  pub target-link : page % 4096 ≡ 0 → page < 2 ^ 52 → target (link e page) ≡ page
  unfolding target
  target-link whole low =
      let l = link_lem in omega (arith, get_address_lem (entry (link e page)) l.0)

pub zero_absent : is_present 0 ≡ false
unfolding is_present position bit
zero_absent = get_flag-present (entry 0) present (omega arith)
