-- ===== src/Memory.antt =====
-- kernel/src/memory: the page bitmap, the page frame allocator, the page tables, the heap, and the
-- copies and fills of bytes.
pub mod Bitmap
pub mod Bytes
pub mod Paging
pub mod PageMapIndexer
pub mod Frames
pub mod Heap
pub mod Aligned
pub mod PageTables
