-- ===== src/Fs/Fat32/FreeCluster.antt =====
-- The search for a free cluster.
use ryanos.Prelude.{
  ℕ, zero, suc, ◌+◌, ◌-◌, ◌<◌, ◌≤◌, ◌≡◌, ◌≢◌, refl, ◌⊎◌, inl, inr, false, ◌==◌, arith, Bool-cases,
}
use ryanos.Fs.Fat32.{Fat32, Port, read_fat_entry, find_free_from, find_free_cluster}

module _ {D : Type 0} (port : Port D) (v : Fat32) where
  -- `r` is the first free cluster from `first` on and below `end`, or 0 if there is none.
  abbrev pub IsFirstFree : ℕ → ℕ → D → ℕ → Type 0
  IsFirstFree first end d r =
      ((first ≤ r)
        × (r < end)
        × (read_fat_entry port v r d ≡ 0)
        × ((j : ℕ) → first ≤ j → j < r → read_fat_entry port v j d ≢ 0))
      ⊎ ((r ≡ 0) × ((j : ℕ) → first ≤ j → j < end → read_fat_entry port v j d ≢ 0))

  find_free_from-IsFirstFree :
      (left first : ℕ) (d : D)
      → IsFirstFree first (first + left) d (find_free_from port v left first d)
  unfolding find_free_from
  find_free_from-IsFirstFree zero first d = inr (refl, λ j p q. absurd (omega arith))
  find_free_from-IsFirstFree (suc left) first d =
      elim (Bool-cases (read_fat_entry port v first d == 0)) [
        | inl vacant ↦
            rw vacant (inl (omega arith, omega arith, ground arith, λ j p q. absurd (omega arith)))
        | inr taken ↦ rw taken (later taken (find_free_from-IsFirstFree left (first + 1) d))
      ]
    where
      not_first :
          (read_fat_entry port v first d == 0) ≡ false
          → (j bound : ℕ) → ((i : ℕ) → first + 1 ≤ i → i < bound → read_fat_entry port v i d ≢ 0)
          → first ≤ j
          → j < bound
          → read_fat_entry port v j d ≢ 0
      not_first taken j bound others p q = elim (Bool-cases (first == j)) [
        | inl same ↦ let e : first ≡ j = ground arith in rw e at (ne taken)
        | inr other ↦ others j (ground arith) q
      ]
        where
          ne : (read_fat_entry port v first d == 0) ≡ false → read_fat_entry port v first d ≢ 0
          ne t = ground arith

      later :
          (read_fat_entry port v first d == 0) ≡ false
          → {r : ℕ} → IsFirstFree (first + 1) (first + 1 + left) d r
          → IsFirstFree first (first + suc left) d r
      later taken {r} (inl (p, q, free, others)) =
          inl (omega arith, omega arith, free, λ j l h. not_first taken j r others l h)
      later taken (inr (none, others)) =
          inr (none, λ j l h. not_first taken j (first + 1 + left) others l (omega arith))

  -- With a total of at least 2, `find_free_cluster` gives the first cluster from 2 on and below the total whose entry is 0, or 0
  -- if there is none.
  pub find_free_cluster-IsFirstFree :
      (d : D) → 2 ≤ v.total_clusters → IsFirstFree 2 v.total_clusters d (find_free_cluster port v d)
  unfolding find_free_cluster
  find_free_cluster-IsFirstFree d enough =
      rw total at (find_free_from-IsFirstFree (v.total_clusters - 2) 2 d)
    where
      total : 2 + (v.total_clusters - 2) ≡ v.total_clusters
      total = omega arith
