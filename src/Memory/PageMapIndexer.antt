-- ===== src/Memory/PageMapIndexer.antt =====
-- memory/page_map_indexer.cpp: the four table indices of a virtual address.
pub mod Compose
mod Tests
use ryanos.Prelude.{ℕ, ◌/◌, ◌^◌, bit_and, ◌>>>◌}

pub record PageMapIndexer : Type 0 where
  pub pdp_i : ℕ
  pub pd_i : ℕ
  pub pt_i : ℕ
  pub p_i : ℕ

unfoldable pub page_map_indexer : ℕ → PageMapIndexer
page_map_indexer virtual_address =
    let v0 = virtual_address >>> 12 in
    let v1 = v0 >>> 9 in
    let v2 = v1 >>> 9 in
    let v3 = v2 >>> 9 in
    record {
      p_i = bit_and v0 0x1ff;
      pt_i = bit_and v1 0x1ff;
      pd_i = bit_and v2 0x1ff;
      pdp_i = bit_and v3 0x1ff;
    }
