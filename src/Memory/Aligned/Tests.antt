-- ===== src/Memory/Aligned/Tests.antt =====
-- An allocator with one block at 0x1008.
use ryanos.Prelude.{ℕ, ◌+◌, ◌-◌, ◌%◌, ◌^◌, ◌≤◌, ◌≡◌, refl, arith}
use ryanos.Memory.Aligned.{total_size, aligned_alloc, aligned_free}
use ryanos.Memory.Aligned.Placed.{aligned_alloc_lem}

-- The state counts the calls.
abbrev one_block : ℕ → ℕ → ℕ × ℕ
one_block size calls = (calls + 1, 0x1008)

abbrev forget : ℕ → ℕ → ℕ
forget p calls = calls

aligned_alloc_lem_example :
    (p : ℕ) × (words : ℕ → ℕ) × (aligned_alloc one_block forget (2 ^ 6) 100 (λ i. 0) 0
      ≡ (1, words, p))
    × (p % 2 ^ 6 ≡ 0)
    × (0x1008 ≤ p - 8)
    × (p + 100 ≤ 0x1008 + total_size (2 ^ 6) 100)
    × ((t : ℕ) → aligned_free one_block forget p words t ≡ forget 0x1008 t)
aligned_alloc_lem_example =
    aligned_alloc_lem 6 (omega arith) (omega arith) one_block forget 100 (λ i. 0) 0 1 0x1008
      (omega arith) refl (λ e. absurd (omega arith)) (omega arith)
