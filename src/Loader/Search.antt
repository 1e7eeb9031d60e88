-- ===== src/Loader/Search.antt =====
-- The table that the search for the root of the ACPI tables ends with.
use ryanos.Prelude.{
  ℕ, zero, suc, ◌+◌, ◌<◌, ◌≤◌, ◌≡◌, refl, Bool, true, false, arith, ◌==◌, ◌&&◌, if◌then◌else◌, inl,
  inr, Bool-cases,
}
use mathlib.Core.Path.{subst}
use ryanos.Memory.Bytes.{Bytes}
use ryanos.Loader.{strcmp, ConfigurationTable, find_rsdp_from, find_rsdp}

strcmp-same : (m : Bytes) (a b length : ℕ) → (m a == m b) ≡ true → strcmp m a b length ≡ 1
unfolding strcmp
strcmp-same m a b zero same = refl
strcmp-same m a b (suc length) same = rw (strcmp, same) (strcmp-same m a b length same)

-- Of a length other than 0, the first bytes alone decide.
pub strcmp_lem :
    (m : Bytes) (a b length : ℕ) → strcmp m a b (suc length) ≡ (if m a == m b then 1 else 0)
unfolding strcmp
strcmp_lem m a b length = elim (Bool-cases (m a == m b)) [
  | inl same ↦ rw (strcmp, same) (strcmp-same m a b length same)
  | inr other ↦ rw (strcmp, other) refl
]

-- Round `i` takes its table.
abbrev pub taken : Bytes → ℕ → (ℕ → ConfigurationTable) → ℕ → Bool
taken m signature config_table i =
    (config_table (i + i)).compare_guid && (m signature == m (config_table i).vendor_table)

-- The address is that of the last table that is taken, from round `index` on, or the one from before.
pub data IsLast (m : Bytes) (signature : ℕ) (config_table : ℕ → ConfigurationTable)
    (index end before : ℕ) : ℕ → Type 0 where
  last_taken :
      (i : ℕ)
      → index ≤ i
      → i < end
      → taken m signature config_table i ≡ true
      → ((j : ℕ) → i < j → j < end → taken m signature config_table j ≡ false)
      → IsLast m signature config_table index end before (config_table i).vendor_table
  none_taken :
      ((j : ℕ) → index ≤ j → j < end → taken m signature config_table j ≡ false)
      → IsLast m signature config_table index end before before

module _ (m : Bytes) (signature : ℕ) (config_table : ℕ → ConfigurationTable) where
  hit_lem :
      (index rsdp : ℕ)
      → (if (config_table (index + index)).compare_guid
          then (if strcmp m signature (config_table index).vendor_table 8 == 0
              then rsdp
              else (config_table index).vendor_table)
          else rsdp)
        ≡ (if taken m signature config_table index then (config_table index).vendor_table else rsdp)
  hit_lem index rsdp = ground (arith, strcmp_lem m signature (config_table index).vendor_table 7)

  earlier :
      (index end before r : ℕ)
      → index < end
      → IsLast m signature config_table
          (index + 1)
          end
          (if taken m signature config_table index
            then (config_table index).vendor_table
            else before)
          r
      → IsLast m signature config_table index end before r
  earlier index end before r h (last_taken i from below hit later) =
      last_taken i (omega arith) below hit later
  earlier index end before r h (none_taken out) =
      elim (Bool-cases (taken m signature config_table index)) [
        | inl hit ↦ rw hit (last_taken index (omega arith) h hit (λ j g b. out j (omega arith) b))
        | inr miss ↦ rw miss (
            none_taken (λ j g b. elim (Bool-cases (index == j)) [
              | inl at ↦
                  subst (λ (i : ℕ). taken m signature config_table i ≡ false) (ground arith) miss
              | inr past ↦ out j (ground arith) b
            ]))
      ]

  from_index :
      (left index before : ℕ)
      → IsLast m signature config_table index
          (index + left)
          before
          (find_rsdp_from m signature config_table left index before)
  unfolding find_rsdp_from
  from_index zero index before = none_taken (λ j g b. absurd (omega arith))
  from_index (suc left) index before =
      let next : index + 1 + left ≡ index + suc left = omega arith in
      earlier index (index + suc left) before
        (find_rsdp_from m signature config_table (suc left) index before) (omega arith)
        (subst
          (λ (e : ℕ).
            IsLast m signature config_table (index + 1) e
              (if taken m signature config_table index
                then (config_table index).vendor_table
                else before)
              (find_rsdp_from m signature config_table (suc left) index before))
          next
          (subst
            (λ (b : ℕ).
              IsLast m signature config_table (index + 1) (index + 1 + left) b
                (find_rsdp_from m signature config_table (suc left) index before))
            (hit_lem index before)
            (from_index left (index + 1) (
              if (config_table (index + index)).compare_guid
              then (if strcmp m signature (config_table index).vendor_table 8 == 0
                  then before
                  else (config_table index).vendor_table)
              else before))))

  -- The search ends with the table of the last round in which the entry at twice the round does not have the ACPI
  -- identifier and the table of the round itself begins with the first byte of the signature, or with NULL.
  pub find_rsdp-IsLast :
      (n : ℕ) → IsLast m signature config_table 0 n 0 (find_rsdp m signature config_table n)
  unfolding find_rsdp
  find_rsdp-IsLast n =
      subst
        (λ (e : ℕ).
          IsLast m signature config_table 0 e 0 (find_rsdp_from m signature config_table n 0 0))
        (let e : 0 + n ≡ n = omega arith in e) (from_index n 0 0)
