-- ===== src/Pmap.antt =====
-- kern/pmap.c: physical pages, the free list, the four-level page tables.
pub mod Mem
pub mod Alloc
pub mod FreeList
pub mod Init
pub mod Allocator
pub mod Release
pub mod Walk
pub mod Table
pub mod Level
pub mod Walked
pub mod Mapping
pub mod Remap
pub mod Tests
pub mod Check
pub mod Mmio
pub mod Pool
pub mod Clients
