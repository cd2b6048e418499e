-- ===== src/Console/Examples.antt =====
-- The console on ports that give nothing and keep a record of what is sent.
use aos_labs_2023_rbtree.Base.{
  ℕ, refl, true, false, none, some, List, ◌++◌, [], arith, ◌≡◌, ◌≢◌, ◌∷◌, ◌<◌, Option, suc, ◌+◌,
}
use aos_labs_2023_rbtree.Ports.{Hardware}
use aos_labs_2023_rbtree.Ports.Log.{IsLog}
use aos_labs_2023_rbtree.Console.Keyboard.{Shift, normalmap, kbd_code}
use aos_labs_2023_rbtree.Console.Queue.{Cons, cons_intr, get, put}
use aos_labs_2023_rbtree.Console.Screen.{Screen, show}
use aos_labs_2023_rbtree.Console.Output.{Machine, cons_putc}
use aos_labs_2023_rbtree.Console.Safe.{IsSafe, Keeps, cons_putc-Keeps, Keeps-refl}
use aos_labs_2023_rbtree.Console.Screen.Rub.{IsPlain, IsShown, IsRubbed, show-rub}
use aos_labs_2023_rbtree.Base.Run.{Ends, Run, ok}
use aos_labs_2023_rbtree.Console.Queue.Fifo.{
  Holds, Yields, Gets, char, idle, cons_intr-Holds, get-Holds, Reads, put-overflows,
}
use aos_labs_2023_rbtree.Console.Keyboard.Letters.{IsLetterKey, kbd_code-IsLetterKey}
use aos_labs_2023_rbtree.Console.Output.Sent.{to_lines, to_cursor, cons_putc-log}
use aos_labs_2023_rbtree.Console.Input.{getchar}
use aos_labs_2023_rbtree.Console.Keyboard.Codes.{kbd_code-bounds}
use aos_labs_2023_rbtree.Console.Safe.Devices.{getchar-Keeps}
use aos_labs_2023_rbtree.Base.Lists.{replicate, length-replicate}
use Prim.Native.Nat.{zero}

abbrev quiet : Hardware (List (ℕ × ℕ))
quiet = record { inb = λ port p. (0, p); outb = λ port value p. p ++ (port, value) ∷ [] }

abbrev sent : List (ℕ × ℕ) → List (ℕ × ℕ)
sent p = p

quiet-IsLog : IsLog quiet sent
quiet-IsLog = record { sent = λ port value p. refl; polled = λ port p. refl }

abbrev released : Shift
released = record {
  shifted = false;
  ctl = false;
  alt = false;
  caps = false;
  num = false;
  scroll_lock = false;
  e0 = false;
}

abbrev empty : Cons
empty = record { buf = λ i. 0; rpos = 511; wpos = 511 }

abbrev corner : Screen
corner = record { crt_buf = λ i. 0x0720; crt_pos = 1999 }

abbrev machine : Machine (List (ℕ × ℕ))
machine = record {
  ports = [];
  serial_exists = true;
  addr_6845 = 0x3D4;
  screen = corner;
  cons = empty;
  shift = released;
}

machine-IsSafe : IsSafe machine
machine-IsSafe = record { on_screen = omega arith; reads = omega arith; writes = omega arith }

IsPlain-a : IsPlain b'a'
IsPlain-a = (omega arith, omega arith, omega arith, omega arith)

show-rub_example :
    IsShown b'a' (show b'a' corner) × IsRubbed (show b'a' corner) (show 8 (show b'a' corner))
show-rub_example = show-rub b'a' corner (omega arith) IsPlain-a

cons_putc-Keeps_example :
    Keeps machine (cons_putc quiet b'a' machine)
    × ((cons_putc quiet b'a' machine).cons ≡ machine.cons)
cons_putc-Keeps_example = cons_putc-Keeps quiet b'a' machine machine-IsSafe

cons_putc-log_example :
    sent (cons_putc quiet b'a' machine).ports
    ≡ sent [] ++ (to_lines b'a' ++ to_cursor 0x3D4 (cons_putc quiet b'a' machine).screen.crt_pos)
cons_putc-log_example = cons_putc-log quiet sent quiet-IsLog b'a' machine (omega arith)

getchar-Keeps_example : Ends (λ c m'. (c ≢ 0) × Keeps machine m') (getchar quiet 2 machine)
getchar-Keeps_example = getchar-Keeps quiet 2 machine machine (Keeps-refl machine machine-IsSafe)

-- A device that gives the characters of a list.
abbrev device : List ℕ → Run (List ℕ) (Option ℕ)
device [] = ok none []
device (c ∷ cs) = ok (some c) cs

empty-Holds : Holds empty []
empty-Holds = record { start = omega arith; stop = refl; room = omega arith; reads = tt }

typed_ab : Yields device (b'a' ∷ 0 ∷ b'b' ∷ []) (b'a' ∷ 0 ∷ b'b' ∷ []) []
typed_ab = char refl (char refl (char refl (idle refl)))

cons_intr-Holds_example :
    (q' : Cons) × (cons_intr 4 device empty (b'a' ∷ 0 ∷ b'b' ∷ []) ≡ ok q' [])
    × Holds q' (b'a' ∷ b'b' ∷ [])
cons_intr-Holds_example =
    cons_intr-Holds 4 device empty (b'a' ∷ 0 ∷ b'b' ∷ []) [] [] (b'a' ∷ 0 ∷ b'b' ∷ []) empty-Holds
      typed_ab (omega arith) (omega arith)

get-Holds_example : Gets [] (get empty)
get-Holds_example = get-Holds empty [] empty-Holds

letter_a : IsLetterKey 0x1E
unfolding normalmap
letter_a = record { low = omega arith; lowest = omega arith; highest = omega arith }

kbd_code-IsLetterKey_example : kbd_code 0x1E released ≡ (b'a', released)
unfolding normalmap
kbd_code-IsLetterKey_example = kbd_code-IsLetterKey 0x1E released letter_a refl

kbd_code-bounds_example :
    ((kbd_code 0xD3 released).0 < 256) × ((kbd_code 0xD3 released).1.e0 ≡ false)
kbd_code-bounds_example = kbd_code-bounds 0xD3 released (omega arith)

Reads-replicate : (n r x : ℕ) → Reads (λ i. x) r (replicate n x)
Reads-replicate zero r x = tt
Reads-replicate (suc n) r x = (refl, Reads-replicate n (r + 1) x)

abbrev full : Cons
full = record { buf = λ i. b'a'; rpos = 0; wpos = 511 }

full-Holds : Holds full (replicate 511 b'a')
full-Holds = record {
  start = omega arith;
  stop = omega (arith, length-replicate {A = ℕ} 511 b'a');
  room = omega (arith, length-replicate {A = ℕ} 511 b'a');
  reads = Reads-replicate 511 0 b'a';
}

put-overflows_example : Holds (put b'b' full) []
put-overflows_example =
    put-overflows b'b' full (replicate 511 b'a') full-Holds (length-replicate {A = ℕ} 511 b'a')
      (omega arith)
