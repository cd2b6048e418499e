-- ===== src/Console/Output.antt =====
-- kernel/console.c: the devices that cons_putc sends a character to, and their initialization.
pub mod Sent
use aos_labs_2023_rbtree.Base.{ℕ, Bool, if◌then◌else◌, suc, ◌/◌, ◌+◌, ◌%◌, not, ◌^◌, ◌==◌, ◌*◌}
use aos_labs_2023_rbtree.Ports.{Hardware, skip, send, has_bit}
use aos_labs_2023_rbtree.Console.Screen.{Screen, show, scroll}
use aos_labs_2023_rbtree.Console.Queue.{Cons}
use aos_labs_2023_rbtree.Console.Keyboard.{Shift}
use Prim.Native.Nat.{zero}

-- The static variables of the console, and the devices.
pub record Machine (P : Type 0) : Type 0 where
  pub ports : P
  pub serial_exists : Bool
  pub addr_6845 : ℕ
  pub screen : Screen
  pub cons : Cons
  pub shift : Shift

-- The memory of the display as cga_init probes it: 16 bits at an address, and the cells from an
-- address on, which are the program's from then on.
pub record Display (P : Type 0) : Type 0 where
  pub load : (address : ℕ) → P → ℕ × P
  pub store : (address value : ℕ) → P → P
  pub cells : (address : ℕ) → P → ℕ → ℕ

module _ {P : Type 0} (hw : Hardware P) where
  unfoldable pub delay : P → P
  delay p = skip hw 0x84 (skip hw 0x84 (skip hw 0x84 (skip hw 0x84 p)))

  -- `for (i = 0; !(inb(port) & (1 << k)) && i < n; i++) delay()`
  unfoldable pub wait : (n port k : ℕ) → P → P
  unfolding delay
  wait zero port k p = skip hw port p
  wait (suc n) port k p =
      let (b, p') = hw.inb port p in
      let rest = wait n port k (delay p') in if has_bit k b then p' else rest

  -- The port COM1 + COM_LSR and its flag COM_LSR_TXRDY, then COM1 + COM_TX.
  unfoldable pub serial_putc : (c : ℕ) → P → P
  serial_putc c p = send hw 0x3F8 c (wait 12800 0x3FD 5 p)

  unfoldable pub lpt_putc : (c : ℕ) → P → P
  lpt_putc c p = send hw 0x37A 0x08 (send hw 0x37A 0x0D (send hw 0x378 c (wait 12800 0x379 7 p)))

  -- serial_init; its result is the new `serial_exists`.
  unfoldable pub serial_init : P → Bool × P
  serial_init p =
      let p' = send hw 0x3F9 0x01 (
        send hw 0x3FC 0 (
          send hw 0x3FB 0x03 (
            send hw 0x3F9 0
              (send hw 0x3F8 (115200 / 9600) (send hw 0x3FB 0x80 (send hw 0x3FA 0 p)))))) in
      let (status, p'') = hw.inb 0x3FD p' in
      (not (status == 0xFF), skip hw 0x3F8 (skip hw 0x3FA p''))

  -- CGA_BUF is 0xB8000 and MONO_BUF 0xB0000, both behind KERNEL_VMA; the result is the address of
  -- the cells and `addr_6845`.
  unfoldable pub probe : Display P → P → ℕ × ℕ × P
  probe display p =
      let (was, p1) = display.load 0xB8000 p in
      let (now, p2) = display.load 0xB8000 (display.store 0xB8000 0xA55A p1) in
      if now == 0xA55A then (0xB8000, 0x3D4, display.store 0xB8000 was p2) else (0xB0000, 0x3B4, p2)

  unfoldable pub cga_init : Display P → Machine P → Machine P
  cga_init display m =
      let (buf, a, p) = probe display m.ports in
      let (high, p1) = hw.inb (a + 1) (send hw a 14 p) in
      let (low, p2) = hw.inb (a + 1) (send hw a 15 p1) in
      record m {
        ports = p2;
        addr_6845 = a;
        screen = record { crt_buf = display.cells buf p2; crt_pos = high * 2 ^ 8 + low };
      }

  -- The end of cga_putc: the cursor.
  unfoldable pub move_cursor : Machine P → Machine P
  move_cursor m =
      let a = m.addr_6845 in
      let pos = m.screen.crt_pos in
      record m {
        ports =
            send hw (a + 1) pos
              (send hw a 15 (send hw (a + 1) (pos / 2 ^ 8) (send hw a 14 m.ports)));
      }

  -- cga_putc for a character other than '\t'.
  unfoldable pub cga_show : (c : ℕ) → Machine P → Machine P
  cga_show c m = move_cursor (record m { screen = show c m.screen })

  abbrev pub to_ports : Machine P → (P → P) → Machine P
  to_ports m f = record m { ports = f m.ports }

  -- cons_putc(' '), which does not come back to the '\t' of cga_putc
  unfoldable pub put_blank : Machine P → Machine P
  put_blank m = cga_show 32 (to_ports (to_ports m (serial_putc 32)) (lpt_putc 32))

  -- For '\t' the screen is written by the five calls, and the rest of cga_putc follows.
  unfoldable pub put_tab : Machine P → Machine P
  put_tab m =
      let m' = put_blank (put_blank (put_blank (put_blank (put_blank m)))) in
      move_cursor (record m' { screen = scroll m'.screen })

  unfoldable pub cga_putc : (c : ℕ) → Machine P → Machine P
  cga_putc c m = if c % 256 == 9 then put_tab m else cga_show c m

  -- cputchar is cons_putc.
  unfoldable pub cons_putc : (c : ℕ) → Machine P → Machine P
  cons_putc c m = cga_putc c (to_ports (to_ports m (serial_putc c)) (lpt_putc c))
