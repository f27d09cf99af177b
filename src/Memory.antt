-- ===== src/Memory.antt =====
-- kernel/src/memory: physical frames, page tables, the kernel heap.
pub mod Pmm
pub mod Heap
pub mod Paging
