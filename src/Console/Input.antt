-- ===== src/Console/Input.antt =====
-- kernel/console.c: the keyboard and the serial port as devices that feed the queue, and the calls
-- that read from it. A device that never runs dry, and a getchar that nothing comes to, use up their
-- fuel.
use aos_labs_2023_rbtree.Base.{ℕ, none, some, List, ◌∷◌, Option, if◌then◌else◌, suc, [], ◌==◌}
use aos_labs_2023_rbtree.Base.Run.{Run, ok, out_of_fuel, ◌>>=◌, ◌>>◌, and_then}
use aos_labs_2023_rbtree.Ports.{Hardware, has_bit, send}
use aos_labs_2023_rbtree.Console.Output.{
  Machine, to_ports, serial_init, cons_putc, Display, cga_init,
}
use aos_labs_2023_rbtree.Console.Queue.{get, cons_intr}
use aos_labs_2023_rbtree.Console.Keyboard.{kbd_code, is_reboot}
use aos_labs_2023_rbtree.Pic.{pic_enable_irq}
use Prim.Native.Nat.{zero}

-- "Rebooting!\n"
abbrev pub rebooting : List ℕ
rebooting = 82 ∷ 101 ∷ 98 ∷ 111 ∷ 111 ∷ 116 ∷ 105 ∷ 110 ∷ 103 ∷ 33 ∷ 10 ∷ []

-- "Serial port does not exist!\n"
abbrev no_serial : List ℕ
no_serial =
    83 ∷ 101 ∷ 114 ∷ 105 ∷ 97 ∷ 108 ∷ 32 ∷ 112 ∷ 111 ∷ 114 ∷ 116 ∷ 32 ∷ 100 ∷ 111 ∷ 101 ∷ 115 ∷ 32
    ∷ 110 ∷ 111 ∷ 116 ∷ 32 ∷ 101 ∷ 120 ∷ 105 ∷ 115 ∷ 116 ∷ 33 ∷ 10 ∷ []

module _ {P : Type 0} (hw : Hardware P) where
  abbrev pub Cmd : Type 0 → Type 0
  Cmd A = Machine P → Run (Machine P) A

  abbrev input : (port : ℕ) → Cmd ℕ
  input port m = let (b, p) = hw.inb port m.ports in ok b (record m { ports = p })

  abbrev change : (Machine P → Machine P) → Cmd (Unit {0})
  change f m = ok tt (f m)

  -- cprintf of a text without '%'
  unfoldable pub print : List ℕ → Machine P → Machine P
  print [] m = m
  print (c ∷ cs) m = print cs (cons_putc hw c m)

  unfoldable pub serial_proc_data : Cmd (Option ℕ)
  serial_proc_data = do
    status ← input 0x3FD
    if has_bit 0 status then input 0x3F8 >>= (λ c. ok (some c)) else ok none

  unfoldable pub reboot : Machine P → Machine P
  reboot m = to_ports hw (print rebooting m) (send hw 0x92 0x3)

  -- The end of kbd_proc_data, from the byte that was read on.
  unfoldable pub keyed : (code : ℕ) → Cmd (Option ℕ)
  keyed code m =
      let r = kbd_code code m.shift in
      let m' = record m { shift = r.1 } in ok (some r.0) (if is_reboot r then reboot m' else m')

  unfoldable pub kbd_proc_data : Cmd (Option ℕ)
  kbd_proc_data = do status ← input 0x64; if has_bit 0 status then input 0x60 >>= keyed else ok none

  -- cons_intr on the queue of the machine, which the devices do not touch.
  unfoldable pub poll : ℕ → Cmd (Option ℕ) → Cmd (Unit {0})
  poll fuel proc m = and_then (cons_intr fuel proc m.cons m) λ q. change λ m. record m { cons = q }

  unfoldable pub serial_intr : ℕ → Cmd (Unit {0})
  serial_intr fuel m = if m.serial_exists then poll fuel serial_proc_data m else ok tt m

  unfoldable pub kbd_intr : ℕ → Cmd (Unit {0})
  kbd_intr fuel = poll fuel kbd_proc_data

  unfoldable pub kbd_init : ℕ → Cmd (Unit {0})
  kbd_init fuel = do kbd_intr fuel; change λ m. to_ports hw m (pic_enable_irq hw 1)

  abbrev pub taken : Cmd ℕ
  taken m = let (c, q) = get m.cons in ok c (record m { cons = q })

  unfoldable pub cons_getc : ℕ → Cmd ℕ
  cons_getc fuel = do serial_intr fuel; kbd_intr fuel; taken

  unfoldable pub getchar : ℕ → Cmd ℕ
  getchar zero = λ _. out_of_fuel
  getchar (suc fuel) = do c ← cons_getc (suc fuel); if c == 0 then getchar fuel else ok c

  abbrev try_serial : Cmd (Unit {0})
  try_serial m =
      let (e, p) = serial_init hw m.ports in ok tt (record m { ports = p; serial_exists = e })

  -- "Serial port does not exist!\n"
  abbrev warn_serial : Cmd (Unit {0})
  warn_serial m = ok tt (if m.serial_exists then m else print no_serial m)

  unfoldable pub cons_init : Display P → ℕ → Cmd (Unit {0})
  cons_init display fuel = do change (cga_init hw display); kbd_init fuel; try_serial; warn_serial
