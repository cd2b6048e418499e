-- ===== src/Console/Output/Sent.antt =====
-- The bytes that cons_putc sends to the serial port, the parallel port and the cursor.
use aos_labs_2023_rbtree.Base.{
  ℕ, refl, List, ◌%◌, ◌∷◌, ◌^◌, ◌+◌, ◌≡◌, [], ◌/◌, ◌++◌, ◌∙◌, suc, if_both, ap, sym, ◌≢◌, test_ne,
}
use aos_labs_2023_rbtree.Ports.{Hardware}
use aos_labs_2023_rbtree.Ports.Log.{IsLog}
use aos_labs_2023_rbtree.Console.Output.{
  delay, wait, lpt_putc, serial_putc, send, has_bit, move_cursor, cons_putc, Machine, cga_putc,
  cga_show, show, to_ports,
}
use mathlib.Core.List.{append_assoc, append-nil}
use Prim.Native.Nat.{zero}

-- COM1, then the data and twice the control port of the parallel port.
abbrev pub to_lines : (c : ℕ) → List (ℕ × ℕ)
to_lines c = (0x3F8, c % 2 ^ 8) ∷ (0x378, c % 2 ^ 8) ∷ (0x37A, 0x0D) ∷ (0x37A, 0x08) ∷ []

-- The position of the cursor, high byte first, to the registers 14 and 15.
abbrev pub to_cursor : (a pos : ℕ) → List (ℕ × ℕ)
to_cursor a pos = (a, 14) ∷ (a + 1, pos / 2 ^ 8 % 2 ^ 8) ∷ (a, 15) ∷ (a + 1, pos % 2 ^ 8) ∷ []

module _ {P : Type 0} (hw : Hardware P) (log : P → List (ℕ × ℕ)) (is_log : IsLog hw log) where
  log-send :
      (xs : List (ℕ × ℕ)) (port value : ℕ) (p : P) (ys : List (ℕ × ℕ))
      → log p ≡ xs ++ ys
      → log (send hw port value p) ≡ xs ++ (ys ++ (port, value % 2 ^ 8) ∷ [])
  log-send xs port value p ys e =
      is_log.sent port (value % 2 ^ 8) p
      ∙ ap (λ zs. zs ++ (port, value % 2 ^ 8) ∷ []) e
      ∙ append_assoc xs ys ((port, value % 2 ^ 8) ∷ [])

  log-delay : (p : P) → log (delay hw p) ≡ log p
  unfolding delay
  log-delay p =
      is_log.polled 0x84 _ ∙ is_log.polled 0x84 _ ∙ is_log.polled 0x84 _ ∙ is_log.polled 0x84 _

  log-wait : (n port k : ℕ) (p : P) → log (wait hw n port k p) ≡ log p
  unfolding wait
  log-wait zero port k p = is_log.polled port p
  log-wait (suc n) port k p =
      let p' = (hw.inb port p).1 in
      if_both (λ q. log q ≡ log p) (has_bit k (hw.inb port p).0) p' (wait hw n port k (delay hw p'))
        (is_log.polled port p)
        (log-wait n port k (delay hw p') ∙ log-delay p' ∙ is_log.polled port p)

  log-lines : (c : ℕ) (p : P) → log (lpt_putc hw c (serial_putc hw c p)) ≡ log p ++ to_lines c
  unfolding lpt_putc serial_putc
  log-lines c p =
      let w = log-wait 12800 0x3FD 5 p ∙ sym (append-nil (log p)) in
      let serial = log-send (log p) 0x3F8 c (wait hw 12800 0x3FD 5 p) [] w in
      let ready = log-wait 12800 0x379 7 (serial_putc hw c p) ∙ serial in
      let strobe = log-send (log p) 0x378 c _ ((0x3F8, c % 2 ^ 8) ∷ []) ready in
      let high =
        log-send (log p) 0x37A 0x0D _ ((0x3F8, c % 2 ^ 8) ∷ (0x378, c % 2 ^ 8) ∷ []) strobe in
      log-send (log p) 0x37A 0x08 _ ((0x3F8, c % 2 ^ 8) ∷ (0x378, c % 2 ^ 8) ∷ (0x37A, 0x0D) ∷ [])
        high

  log-cursor :
      (xs : List (ℕ × ℕ)) (m : Machine P)
      → log m.ports ≡ xs
      → log (move_cursor hw m).ports ≡ xs ++ to_cursor m.addr_6845 m.screen.crt_pos
  unfolding move_cursor
  log-cursor xs m e =
      let a = m.addr_6845 in
      let pos = m.screen.crt_pos in
      let one = log-send xs a 14 m.ports [] (e ∙ sym (append-nil xs)) in
      let two = log-send xs (a + 1) (pos / 2 ^ 8) _ ((a, 14) ∷ []) one in
      let three = log-send xs a 15 _ ((a, 14) ∷ (a + 1, pos / 2 ^ 8 % 2 ^ 8) ∷ []) two in
      log-send xs (a + 1) pos _ ((a, 14) ∷ (a + 1, pos / 2 ^ 8 % 2 ^ 8) ∷ (a, 15) ∷ []) three

  log-show :
      (c : ℕ) (m : Machine P)
      → log (cga_show hw c m).ports
        ≡ log m.ports ++ to_cursor m.addr_6845 (cga_show hw c m).screen.crt_pos
  unfolding cga_show move_cursor
  log-show c m = log-cursor (log m.ports) (record m { screen = show c m.screen }) refl

  -- For a character other than '\t', cons_putc sends the character to both ports once, and then the
  -- position that it leaves to the cursor; nothing else goes to a port.
  pub cons_putc-log :
      (c : ℕ) (m : Machine P)
      → c % 256 ≢ 9
      → log (cons_putc hw c m).ports
        ≡ log m.ports ++ (to_lines c ++ to_cursor m.addr_6845 (cons_putc hw c m).screen.crt_pos)
  unfolding cons_putc cga_putc
  cons_putc-log c m plain =
      let m' = to_ports hw (to_ports hw m (serial_putc hw c)) (lpt_putc hw c) in
      let run : cons_putc hw c m ≡ cga_show hw c m' = simp (test_ne (c % 256) 9 plain) in
      rw (run) (
        log-show c m'
        ∙ ap (λ xs. xs ++ to_cursor m.addr_6845 (cga_show hw c m').screen.crt_pos)
            (log-lines c m.ports)
        ∙ append_assoc (log m.ports) (to_lines c) _)
