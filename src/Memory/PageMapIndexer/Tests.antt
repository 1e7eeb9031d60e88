-- ===== src/Memory/PageMapIndexer/Tests.antt =====
-- The indices of one address.
use ryanos.Prelude.{◌+◌, ◌%◌, ◌^◌, ◌≡◌, refl, arith}
use ryanos.Memory.PageMapIndexer.{page_map_indexer}
use ryanos.Memory.PageMapIndexer.Compose.{page_start, page_start_lem}

page_rebuilt :
    page_start (page_map_indexer 0x0000_7fff_dead_b123) + 0x0000_7fff_dead_b123 % 4096
    ≡ 0x0000_7fff_dead_b123 % 2 ^ 48
page_rebuilt = page_start_lem 0x0000_7fff_dead_b123 (omega arith)

indices_example : (page_map_indexer 0x0000_0080_4020_1fff).pd_i ≡ 1
unfolding page_map_indexer
indices_example = refl
