-- ===== src/Kernel.antt =====
-- kernel/main.c: what the kernel does with its trees.
pub mod Examples
pub mod Build
pub mod Insert
pub mod Shuffle
