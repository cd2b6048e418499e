-- ===== src/Printf/Examples.antt =====
-- cprintf on a console whose ports give nothing.
use aos_labs_2023_rbtree.Base.{true, false}
use aos_labs_2023_rbtree.Ports.{Hardware}
use aos_labs_2023_rbtree.Console.Output.{Machine}
use aos_labs_2023_rbtree.Printfmt.Fits.{Fits}

abbrev silent : Hardware (Unit {0})
silent = record { inb = λ port p. (0, p); outb = λ port value p. p }

abbrev console : Machine (Unit {0})
console = record {
  ports = tt;
  serial_exists = true;
  addr_6845 = 0x3D4;
  screen = record { crt_buf = λ i. 0x0720; crt_pos = 1999 };
  cons = record { buf = λ i. 0; rpos = 0; wpos = 0 };
  shift = record {
    shifted = false;
    ctl = false;
    alt = false;
    caps = false;
    num = false;
    scroll_lock = false;
    e0 = false;
  };
}
