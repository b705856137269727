-- ===== src/MemPool.antt =====
-- lib/libtscommon/src/mempool.c: the allocators of the agent's own memory segment.
pub mod FreeTree
pub mod HeapPage
pub mod Bitmap
pub mod Frags
pub mod Malloc
pub mod Slab
