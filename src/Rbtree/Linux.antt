-- ===== src/Rbtree/Linux.antt =====
-- rbtree_tests/rbtree_linux.c
pub mod Insert
pub mod Erase
pub mod Recolor
pub mod Walk
