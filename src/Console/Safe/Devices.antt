-- ===== src/Console/Safe/Devices.antt =====
-- The calls that read from the console.
use aos_labs_2023_rbtree.Base.{
  ℕ, refl, none, some, ◌<◌, ◌≤◌, if_both, ◌≡◌, arith, ◌==◌, Option, update, suc, ◌%◌, ◌^◌, test_ne,
  ◌∙◌, ◌≢◌, Bool-cases, inl, inr, ne_of_test,
}
use aos_labs_2023_rbtree.Console.Queue.{Cons, put, get, advance, cons_intr}
use aos_labs_2023_rbtree.Console.Output.{Machine}
use aos_labs_2023_rbtree.Ports.{Hardware, has_bit, send}
use aos_labs_2023_rbtree.Console.Safe.{Keeps, Keeps-ports, Keeps-shift, print-Keeps}
use aos_labs_2023_rbtree.Base.Run.{Run, Ends, Ends-and_then, ok}
use aos_labs_2023_rbtree.Console.Input.{
  reboot, keyed, kbd_proc_data, serial_proc_data, poll, serial_intr, kbd_intr, cons_getc, print,
  Cmd, rebooting, taken, getchar,
}
use Prim.Native.Nat.{zero}
use aos_labs_2023_rbtree.Console.Keyboard.{kbd_code, is_reboot}

-- `q'` is within the bounds of the queue, and nothing was written behind `q`.
record IsInside (q q' : Cons) : Type 0 where
  reads : q'.rpos < 512
  writes : q'.wpos < 512
  behind : (i : ℕ) → 512 ≤ i → q'.buf i ≡ q.buf i

advance_bound : (n : ℕ) → n < 512 → advance n < 512
advance_bound n h = ground arith

put-IsInside : (c : ℕ) (q0 q : Cons) → IsInside q0 q → IsInside q0 (put c q)
unfolding put
put-IsInside c q0 q h =
    if_both (IsInside q0) (c == 0) q
      (record q { buf = update q.buf q.wpos (c % 2 ^ 8); wpos = advance q.wpos }) h
      (record {
        reads = h.reads;
        writes = advance_bound q.wpos h.writes;
        behind = λ i b. simp (test_ne i q.wpos (omega (arith, h.writes))) (h.behind i b);
      })

get-IsInside : (q : Cons) → q.rpos < 512 → q.wpos < 512 → IsInside q (get q).1
unfolding get
get-IsInside q r w =
    if_both {A = ℕ × Cons} (λ x. IsInside q x.1) (q.rpos == q.wpos) (0, q)
      (q.buf q.rpos, record q { rpos = advance q.rpos })
      (record { reads = r; writes = w; behind = λ i b. refl })
      (record { reads = advance_bound q.rpos r; writes = w; behind = λ i b. refl })

Keeps-cons :
    {P : Type 0} (l m : Machine P) (q : Cons)
    → Keeps l m
    → IsInside l.cons q
    → Keeps l (record m { cons = q })
Keeps-cons l m q h k = record {
  safe = record { on_screen = h.safe.on_screen; reads = k.reads; writes = k.writes };
  screen_behind = h.screen_behind;
  queue_behind = k.behind;
}

module _ {P : Type 0} (hw : Hardware P) where
  -- A command that ends in a machine that `l` is kept in, and without a fault.
  abbrev pub EndsKept : {A : Type 0} → Machine P → Run (Machine P) A → Type 0
  EndsKept l = Ends λ a m. Keeps l m

  reboot-Keeps : (l m : Machine P) → Keeps l m → Keeps l (reboot hw m)
  unfolding reboot
  reboot-Keeps l m h =
      Keeps-ports l (print hw rebooting m) (send hw 0x92 0x3 (print hw rebooting m).ports)
        (print-Keeps hw rebooting l m h)

  keyed-Keeps : (code : ℕ) (l m : Machine P) → Keeps l m → EndsKept l (keyed hw code m)
  unfolding keyed
  keyed-Keeps code l m h =
      let r = kbd_code code m.shift in
      let m' = record m { shift = r.1 } in
      let h' = Keeps-shift l m r.1 h in
      if_both (Keeps l) (is_reboot r) (reboot hw m') m' (reboot-Keeps l m' h') h'

  kbd_proc_data-Keeps : (l m : Machine P) → Keeps l m → EndsKept l (kbd_proc_data hw m)
  unfolding kbd_proc_data
  kbd_proc_data-Keeps l m h =
      let m' = record m { ports = (hw.inb 0x64 m.ports).1 } in
      let h' = Keeps-ports l m (hw.inb 0x64 m.ports).1 h in
      if_both {A = Cmd hw (Option ℕ)} (λ c. EndsKept l (c m')) (has_bit 0 (hw.inb 0x64 m.ports).0) _
        (ok none)
        (keyed-Keeps (hw.inb 0x60 m'.ports).0 l (record m' { ports = (hw.inb 0x60 m'.ports).1 })
          (Keeps-ports l m' (hw.inb 0x60 m'.ports).1 h'))
        h'

  serial_proc_data-Keeps : (l m : Machine P) → Keeps l m → EndsKept l (serial_proc_data hw m)
  unfolding serial_proc_data
  serial_proc_data-Keeps l m h =
      let m' = record m { ports = (hw.inb 0x3FD m.ports).1 } in
      let h' = Keeps-ports l m (hw.inb 0x3FD m.ports).1 h in
      if_both {A = Cmd hw (Option ℕ)} (λ c. EndsKept l (c m')) (has_bit 0 (hw.inb 0x3FD m.ports).0)
        _ (ok none) (Keeps-ports l m' (hw.inb 0x3F8 m'.ports).1 h') h'

  cons_intr-Keeps :
      (fuel : ℕ) (proc : Machine P → Run (Machine P) (Option ℕ))
      → ((l m : Machine P) → Keeps l m → EndsKept l (proc m))
      → (l m : Machine P) (q : Cons) → Keeps l m
      → IsInside l.cons q
      → Ends (λ q' m'. Keeps l m' × IsInside l.cons q') (cons_intr fuel proc q m)
  unfolding cons_intr
  cons_intr-Keeps zero proc p l m q h k = tt
  cons_intr-Keeps (suc fuel) proc p l m q h k =
      Ends-and_then (λ a m'. Keeps l m') (λ q' m'. Keeps l m' × IsInside l.cons q') (proc m) _
        (p l m h)
        λ a m' h'.
          elim a
            as (λ a.
              Ends (λ q' m'. Keeps l m' × IsInside l.cons q')
                ((elim a as (λ _. Cmd hw Cons) [
                  | none ↦ ok q
                  | some c ↦ cons_intr fuel proc (put c q)
                ])
                  m')) [
                    | none ↦ (h', k)
                    | some c ↦
                        cons_intr-Keeps fuel proc p l m' (put c q) h' (put-IsInside c l.cons q k)
                  ]

  poll-Keeps :
      (fuel : ℕ) (proc : Machine P → Run (Machine P) (Option ℕ))
      → ((l m : Machine P) → Keeps l m → EndsKept l (proc m))
      → (l m : Machine P) → Keeps l m
      → EndsKept l (poll hw fuel proc m)
  unfolding poll
  poll-Keeps fuel proc p l m h =
      Ends-and_then (λ q' m'. Keeps l m' × IsInside l.cons q') (λ a m'. Keeps l m')
        (cons_intr fuel proc m.cons m) _
        (cons_intr-Keeps fuel proc p l m m.cons h
          (record { reads = h.safe.reads; writes = h.safe.writes; behind = h.queue_behind }))
        λ q' m' hk. Keeps-cons l m' q' hk.0 hk.1

  serial_intr-Keeps : (fuel : ℕ) (l m : Machine P) → Keeps l m → EndsKept l (serial_intr hw fuel m)
  unfolding serial_intr
  serial_intr-Keeps fuel l m h =
      if_both (EndsKept l) m.serial_exists _ (ok tt m)
        (poll-Keeps fuel (serial_proc_data hw) serial_proc_data-Keeps l m h) h

  kbd_intr-Keeps : (fuel : ℕ) (l m : Machine P) → Keeps l m → EndsKept l (kbd_intr hw fuel m)
  unfolding kbd_intr
  kbd_intr-Keeps fuel l m h = poll-Keeps fuel (kbd_proc_data hw) kbd_proc_data-Keeps l m h

  taken-Keeps : (l m : Machine P) → Keeps l m → EndsKept l (taken hw m)
  taken-Keeps l m h =
      let q = get-IsInside m.cons h.safe.reads h.safe.writes in
      Keeps-cons l m (get m.cons).1 h (record {
        reads = q.reads;
        writes = q.writes;
        behind = λ i b. q.behind i b ∙ h.queue_behind i b;
      })

  cons_getc-Keeps : (fuel : ℕ) (l m : Machine P) → Keeps l m → EndsKept l (cons_getc hw fuel m)
  unfolding cons_getc
  cons_getc-Keeps fuel l m h =
      Ends-and_then (λ a n. Keeps l n) (λ a n. Keeps l n) (serial_intr hw fuel m) _
        (serial_intr-Keeps fuel l m h)
        λ a n k.
          Ends-and_then (λ a n. Keeps l n) (λ a n. Keeps l n) (kbd_intr hw fuel n) _
            (kbd_intr-Keeps fuel l n k) λ a o k'. taken-Keeps l o k'

  -- Whatever the devices send, getchar meets no fault, and where it returns, its result is not 0, the
  -- positions are within the screen and the queue, and nothing has been written behind either.
  pub getchar-Keeps :
      (fuel : ℕ) (l m : Machine P)
      → Keeps l m
      → Ends (λ c m'. (c ≢ 0) × Keeps l m') (getchar hw fuel m)
  unfolding getchar
  getchar-Keeps zero l m h = tt
  getchar-Keeps (suc fuel) l m h =
      Ends-and_then (λ c n. Keeps l n) (λ c n. (c ≢ 0) × Keeps l n) (cons_getc hw (suc fuel) m) _
        (cons_getc-Keeps (suc fuel) l m h)
        λ c n k. elim (Bool-cases (c == 0)) [
          | inl e ↦ simp (e) (getchar-Keeps fuel l n k)
          | inr e ↦ simp (e) (ne_of_test c 0 e, k)
        ]
