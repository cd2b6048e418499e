-- ===== src/Console.antt =====
-- kernel/console.c: the screen, the keyboard, the ports of the lines, and the queue of what was typed.
pub mod Examples
pub mod Queue
pub mod Screen
pub mod Keyboard
pub mod Output
pub mod Input
pub mod Safe
