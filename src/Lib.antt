-- ===== src/Lib.antt =====
-- A verification library for the red-black trees, the lists and the strings of the kernel.
--
-- The program keeps two implementations of one interface, include/rbtree.h: lib/rbtree.c, which the
-- kernel uses (rbtree_tests/rbtree_aos.c is a copy of it), and rbtree_tests/rbtree_linux.c, the code
-- of Linux in the same types, which the tests compare it with. The caller links a node below a leaf
-- and calls rb_balance; rb_remove takes a node out; rb_first, rb_last, rb_next and rb_prev walk.
--
-- The files, in the order of reading:
--   Base, Base/Run: numbers, tests and commands that may fault or run out of fuel.
--   Rbtree/Memory: struct rb_node and struct rb_tree as a memory that is kept field by field, with
--     the reads and writes of C. Address 0 is NULL; an access through it is a fault. rb_init is
--     tree_init, rb_node_init is node_init.
--   Rbtree/Linux/Insert, Recolor, Erase, Walk: rbtree_linux.c. rb_balance is balance,
--     rb_erase_augmented is erase_augmented, rb_erase_color is erase_color, rb_remove is remove,
--     rb_first, rb_last, rb_next, rb_prev and rb_replace lose their prefix. The branches for the two
--     sides are mirror images in the code, and one definition over a direction here.
--   Rbtree/Aos/Rotate, Insert, Remove, Walk: lib/rbtree.c, named in the same way.
--   Rbtree/Tree and its children: trees and paths, the red-black properties, their order, and
--     the repair after an insertion as a function on trees.
--   Rbtree/Repr, Relink, Cases: that a memory holds a tree, and what each writing step of a rotation
--     makes of it.
--   Kernel/Insert: insert of kernel/main.c, the caller: it descends by value, links the node and
--     calls rb_balance of lib/rbtree.c. Kernel/Shuffle: the values of test_rand and
--     their shuffle. Kernel/Build: its loop of insertions. Kernel/Examples: a concrete tree.
--   Rbtree/Agree: the two implementations against each other. Rbtree/Examples: concrete trees,
--     and both removals run on one.
--   Ring and its children: lib/list.c and include/list.h, which no other part that is modelled uses.
--     list_init is init, and so on; list_head is next_in and list_tail is prev_in at the head itself.
--   Ports: inb and outb, and what a device makes of them as a parameter. Ports/Log: the bytes sent.
--   Console/Queue, Screen, Keyboard: the input ring, the drawing part of cga_putc and the scan codes
--     of kernel/console.c, each on the static variables that it has. Console/Output: cons_putc, which
--     is cputchar too, and the devices below it. Console/Input: the devices that feed the queue,
--     cons_getc and getchar. Console/Safe: that all of it stays within its arrays.
--   Pic: kernel/pic.c, the interrupt masks, which the console uses.
--   Printfmt/Format, Put: the flags of a conversion, kept in the record Spec, and printnum and what
--     is printed for a text and a number, over any putch. Printfmt: the switch of vprintfmt, which is
--     convert, and its loop. Printfmt/Fits: which arguments fit a format. Printfmt/Buffer: vsnprintf.
--     Printf: kernel/printf.c, over any cputchar.
--   Readline: lib/readline.c, over any getchar and cputchar.
--   Monitor: runcmd of kernel/monitor.c, over the addresses of the names of the commands. parse is
--     its first loop and dispatch its second part.
--   Strings, Strings/Block, Bounded, Parse: the routines of lib/string.c, under their own names. ASM is
--     1 there, so memset and memmove are those with the string instructions, read as loads and stores.
--
-- A loop takes fuel, and a run without fuel left is a result of its own. The theorems ask for fuel by
-- the structure: rb_balance takes at most one round more than the node lies deep, and a walk, a
-- descent or a loop over a ring or a string at most one more than there are nodes or bytes; vprintfmt
-- takes eleven more than the format has bytes, for the formats that %e prints. So a
-- theorem that names the result says that the loop ends.
--
-- Addresses are numbers and the memory is total: that the caller's pointers other than NULL are
-- allocated nodes is taken for granted, and that the nodes of a tree stand at different addresses
-- is a hypothesis of each theorem (Rbtree/Repr, Zipper). The page allocator, the boot code and what
-- the commands of the monitor print are not modelled. The
-- devices behind the ports are parameters, and so is the memory of the display as cga_init probes it.
pub mod Base
pub mod Console
pub mod Kernel
pub mod Monitor
pub mod Pic
pub mod Ports
pub mod Printf
pub mod Printfmt
pub mod Rbtree
pub mod Readline
pub mod Ring
pub mod Strings
