-- ===== src/Printf/Safe.antt =====
-- cprintf on the console of the kernel.
use aos_labs_2023_rbtree.Printfmt.Fits.{Fits}
