-- ===== src/Rbtree/Cases.antt =====
-- The three cases of a repair after an insertion, as changes of the memory that both
-- implementations make, and the path that the memory then holds.
pub mod Flip
pub mod Outer
pub mod Inner
pub mod Spin
pub mod Paint
