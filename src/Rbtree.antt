-- ===== src/Rbtree.antt =====
-- The intrusive red-black trees: the memory that the C code works on, the implementation taken
-- from Linux, that of the AOS labs, and the trees that both stand for.
pub mod Agree
pub mod Memory
pub mod Examples
pub mod Linux
pub mod Aos
pub mod Tree
pub mod Repr
pub mod Relink
pub mod Cases
