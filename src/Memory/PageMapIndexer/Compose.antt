-- ===== src/Memory/PageMapIndexer/Compose.antt =====
-- The indices name the page: they are in range, and the address can be had back from them.
use ryanos.Prelude.{ℕ, ◌+◌, ◌*◌, ◌/◌, ◌%◌, ◌^◌, ◌<◌, ◌≡◌, arith}
use ryanos.Prelude.Bits.Fields.{and_low}
use ryanos.Memory.PageMapIndexer.{PageMapIndexer, page_map_indexer}

-- The virtual address of the first byte of the page that the indices lead to.
abbrev pub page_start : PageMapIndexer → ℕ
page_start i = (((i.pdp_i * 512 + i.pd_i) * 512 + i.pt_i) * 512 + i.p_i) * 4096

module _ (v : ℕ) (h : v < 2 ^ 64) where
  indices :
      ((page_map_indexer v).p_i ≡ v / 2 ^ 12 % 512)
      × ((page_map_indexer v).pt_i ≡ v / 2 ^ 21 % 512)
      × ((page_map_indexer v).pd_i ≡ v / 2 ^ 30 % 512)
      × ((page_map_indexer v).pdp_i ≡ v / 2 ^ 39 % 512)
  unfolding page_map_indexer
  indices = (
    omega (arith, and_low 9 64 (v / 2 ^ 12) (omega arith)),
    omega (arith, and_low 9 64 (v / 2 ^ 12 / 2 ^ 9) (omega arith)),
    omega (arith, and_low 9 64 (v / 2 ^ 12 / 2 ^ 9 / 2 ^ 9) (omega arith)),
    omega (arith, and_low 9 64 (v / 2 ^ 12 / 2 ^ 9 / 2 ^ 9 / 2 ^ 9) (omega arith)),
  )

  -- Each index fits a table of 512 entries.
  pub indices-lt :
      ((page_map_indexer v).p_i < 512)
      × ((page_map_indexer v).pt_i < 512)
      × ((page_map_indexer v).pd_i < 512)
      × ((page_map_indexer v).pdp_i < 512)
  indices-lt = omega (arith, indices)

  -- The page that the four indices of a 64-bit address lead to, plus the offset in the page, is the
  -- low 48 bits of the address.
  pub page_start_lem : page_start (page_map_indexer v) + v % 4096 ≡ v % 2 ^ 48
  page_start_lem = omega (arith, indices)
