-- ===== src/Kernel/PrepareMemory/Tests.antt =====
-- Two pages that are mapped to themselves, by the page frame allocator of sixteen pages.
use ryanos.Prelude.{◌*◌, ◌≡◌, some, arith}
use ryanos.Memory.Bitmap.{get, set, set_byte, bit_indexer}
use ryanos.Memory.Frames.{Frames, page_total, request_page, scan_page, lock_page}
use ryanos.Memory.Paging.{get_flag, set_flag, get_address, set_address, bit_selector, position}
use ryanos.Memory.PageMapIndexer.{page_map_indexer}
use ryanos.Memory.PageTables.{Tables, map_memory, next_table}
use ryanos.Memory.PageTables.Frames.{take_page, frames, IsUsable, IsFree, frames-IsPageSource}
use ryanos.Memory.PageTables.Tests.{sixteen, sixteen-IsUsable, empty, root_only, empty-IsTree}
use ryanos.Kernel.PrepareMemory.{identity_map}
use ryanos.Kernel.PrepareMemory.Identity.{AllSupplied, Identity, identity_map-Identity}

supplied : AllSupplied frames 0x8000 0 2 empty sixteen
unfolding take_page request_page scan_page lock_page get set set_byte bit_indexer page_total
    next_table page_map_indexer get_flag bit_selector position map_memory set_flag set_address
    get_address
supplied = ((omega arith, omega arith, omega arith), ((omega arith, omega arith, omega arith), tt))

identity_map-Identity_example :
    (t' : Tables) × (f' : Frames) × (identity_map frames 0x8000 3 (0 * 4096) 0x1800 empty sixteen
      ≡ some (t', f'))
    × Identity frames IsUsable IsFree frames-IsPageSource 0x8000 0 2 empty t' f'
identity_map-Identity_example =
    identity_map-Identity frames IsUsable IsFree frames-IsPageSource 0x8000 2 0 0x1800 3 root_only
      empty sixteen empty-IsTree sixteen-IsUsable (omega arith) (omega arith) (omega arith) supplied
