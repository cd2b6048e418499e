-- ===== src/Rbtree/Aos.antt =====
-- lib/rbtree.c
pub mod Rotate
pub mod Insert
pub mod Remove
pub mod Walk
