-- ===== src/Kernel/Acpi/First.antt =====
-- `find_table` gives the first table with the signature.
use ryanos.Prelude.{
  ℕ, zero, suc, ◌+◌, ◌<◌, ◌≤◌, ◌≡◌, refl, true, false, ◌⊎◌, inl, inr, arith, Bool-cases, ◌==◌, ◌&&◌,
  ltb,
}
use mathlib.Core.Path.{subst}
use ryanos.Kernel.Acpi.{same_byte, same_signature, entry_at, find_from, entries, find_table}

module _ (memory : ℕ → ℕ) where
  -- The four bytes at the two addresses are the same, and below 128.
  abbrev pub SameBytes : ℕ → ℕ → Type 0
  SameBytes a b = (i : ℕ) → i < 4 → (memory (a + i) ≡ memory (b + i)) × (memory (b + i) < 128)

  module _ (a b : ℕ) where
    same_signature-all :
        (count i : ℕ)
        → same_signature memory a b i count ≡ true
        → (j : ℕ) → i ≤ j
        → j < i + count
        → (memory (a + j) ≡ memory (b + j)) × (memory (b + j) < 128)
    unfolding same_signature same_byte
    same_signature-all zero i h j l u = absurd (omega arith)
    same_signature-all (suc count) i h j l u = elim (Bool-cases (i == j)) [
      | inl here ↦ let e : i ≡ j = ground arith in rw (← e) (ground arith)
      | inr there ↦
          let next : same_signature memory a b (i + 1) count ≡ true = ground arith in
          same_signature-all count (i + 1) next j (ground arith) (omega arith)
    ]

    same_signature-some :
        (count i : ℕ)
        → same_signature memory a b i count ≡ false
        → ¬ (
            (j : ℕ)
            → i ≤ j
            → j < i + count
            → (memory (a + j) ≡ memory (b + j)) × (memory (b + j) < 128))
    unfolding same_signature same_byte
    same_signature-some zero i h all = cc
    same_signature-some (suc count) i h all =
        let first : ((memory (a + i) == memory (b + i)) && ltb (memory (b + i)) 128) ≡ true =
          let e = all i (omega arith) (omega arith) in ground arith in
        let next : same_signature memory a b (i + 1) count ≡ false = ground arith in
        same_signature-some count (i + 1) next (λ j l u. all j (omega arith) (omega arith))

  module _ (sdt_header signature : ℕ) where
    -- The entry `t` leads to a table with the signature.
    abbrev pub Matches : ℕ → Type 0
    Matches t = SameBytes (entry_at memory sdt_header t) signature

    -- Among the entries from `t` on and below the end, the result is the first match, or 0.
    abbrev pub IsFirst : ℕ → ℕ → ℕ → Type 0
    IsFirst t end result =
        ((k : ℕ) × (t ≤ k)
          × (k < end)
          × (result ≡ entry_at memory sdt_header k)
          × Matches k
          × ((j : ℕ) → t ≤ j → j < k → ¬ Matches j))
        ⊎ ((result ≡ 0) × ((j : ℕ) → t ≤ j → j < end → ¬ Matches j))

    one_more :
        (t b : ℕ)
        → ¬ Matches t
        → ((j : ℕ) → t + 1 ≤ j → j < b → ¬ Matches j)
        → (j : ℕ) → t ≤ j
        → j < b
        → ¬ Matches j
    one_more t b no_match h j l u m = elim (Bool-cases (j == t)) [
      | inl here ↦ let e : j ≡ t = ground arith in no_match (subst (λ (k : ℕ). Matches k) e m)
      | inr there ↦ h j (ground arith) u m
    ]

    find_from-IsFirst :
        (count t : ℕ) → IsFirst t (t + count) (find_from memory sdt_header signature t count)
    unfolding find_from
    find_from-IsFirst zero t = inr (refl, λ j l u. absurd (omega arith))
    find_from-IsFirst (suc count) t =
        elim (Bool-cases (same_signature memory (entry_at memory sdt_header t) signature 0 4)) [
          | inl here ↦ rw here (
              inl (
                t,
                omega arith,
                omega arith,
                refl,
                (λ i u.
                    same_signature-all (entry_at memory sdt_header t) signature 4 0 here i
                      (omega arith) u),
                (λ j l u. absurd (omega arith)),
              ))
          | inr other ↦ rw other (
              later (find_from-IsFirst count (t + 1)) (λ all.
                same_signature-some (entry_at memory sdt_header t) signature 4 0 other
                  (λ j l u. all j u)))
        ]
      where
        later :
            {r : ℕ} → IsFirst (t + 1) (t + 1 + count) r → ¬ Matches t → IsFirst t (t + suc count) r
        later (inl (k, l, u, e, m, before)) no_match =
            inl (k, omega arith, omega arith, e, m, one_more t k no_match before)
        later (inr (e, missed)) no_match =
            inr (e, λ j l u. one_more t (t + 1 + count) no_match missed j l (omega arith))

    -- The result is the address of the first table among the entries whose first four bytes are those
    -- at `signature` and below 128, or 0 if there is none.
    pub find_table-IsFirst :
        IsFirst 0 (entries memory sdt_header) (find_table memory sdt_header signature)
    unfolding find_table
    find_table-IsFirst =
        let e : 0 + entries memory sdt_header ≡ entries memory sdt_header = omega arith in
        subst
          (λ (n : ℕ).
            IsFirst 0 n (find_from memory sdt_header signature 0 (entries memory sdt_header)))
          e (find_from-IsFirst (entries memory sdt_header) 0)
