-- ===== src/Console/Safe.antt =====
-- Whatever is typed and printed, the console stays within its screen and its queue.
pub mod Devices
use aos_labs_2023_rbtree.Base.{ℕ, refl, ◌<◌, ◌≤◌, ◌∙◌, ◌≡◌, List, ◌∷◌, ap, if_both, [], ◌%◌, ◌==◌}
use aos_labs_2023_rbtree.Console.Output.{
  Machine, cga_show, put_blank, move_cursor, put_tab, cons_putc, lpt_putc, cga_putc, serial_putc,
}
use aos_labs_2023_rbtree.Ports.{Hardware}
use aos_labs_2023_rbtree.Console.Input.{print}
use aos_labs_2023_rbtree.Console.Screen.Bounds.{show-bounds, scroll_room}
use aos_labs_2023_rbtree.Console.Screen.{scroll}
use aos_labs_2023_rbtree.Console.Keyboard.{Shift}

-- The positions are within the screen and the queue.
pub record IsSafe {P : Type 0} (m : Machine P) : Type 0 where
  pub on_screen : m.screen.crt_pos < 2000
  pub reads : m.cons.rpos < 512
  pub writes : m.cons.wpos < 512

-- `m'` is safe, and nothing has been written behind the screen or the queue of `m`.
pub record Keeps {P : Type 0} (m m' : Machine P) : Type 0 where
  pub safe : IsSafe m'
  pub screen_behind : (i : ℕ) → 2000 ≤ i → m'.screen.crt_buf i ≡ m.screen.crt_buf i
  pub queue_behind : (i : ℕ) → 512 ≤ i → m'.cons.buf i ≡ m.cons.buf i

pub Keeps-trans : {P : Type 0} (l m n : Machine P) → Keeps l m → Keeps m n → Keeps l n
Keeps-trans l m n h k = record {
  safe = k.safe;
  screen_behind = λ i b. k.screen_behind i b ∙ h.screen_behind i b;
  queue_behind = λ i b. k.queue_behind i b ∙ h.queue_behind i b;
}

pub Keeps-refl : {P : Type 0} (m : Machine P) → IsSafe m → Keeps m m
Keeps-refl m h = record { safe = h; screen_behind = λ i b. refl; queue_behind = λ i b. refl }

pub Keeps-ports :
    {P : Type 0} (l m : Machine P) (p : P) → Keeps l m → Keeps l (record m { ports = p })
Keeps-ports l m p h = record {
  safe = record { on_screen = h.safe.on_screen; reads = h.safe.reads; writes = h.safe.writes };
  screen_behind = h.screen_behind;
  queue_behind = h.queue_behind;
}

pub Keeps-shift :
    {P : Type 0} (l m : Machine P) (s : Shift) → Keeps l m → Keeps l (record m { shift = s })
Keeps-shift l m s h = record {
  safe = record { on_screen = h.safe.on_screen; reads = h.safe.reads; writes = h.safe.writes };
  screen_behind = h.screen_behind;
  queue_behind = h.queue_behind;
}

module _ {P : Type 0} (hw : Hardware P) where
  cga_show-Keeps :
      (c : ℕ) (m : Machine P) (p : P) → IsSafe m → Keeps m (cga_show hw c (record m { ports = p }))
  unfolding cga_show move_cursor
  cga_show-Keeps c m p h =
      let (pos, behind) = show-bounds c m.screen h.on_screen in
      record {
        safe = record { on_screen = pos; reads = h.reads; writes = h.writes };
        screen_behind = behind;
        queue_behind = λ i b. refl;
      }

  put_blank-Keeps : (l m : Machine P) → Keeps l m → Keeps l (put_blank hw m)
  unfolding put_blank
  put_blank-Keeps l m h =
      Keeps-trans l m (put_blank hw m) h
        (cga_show-Keeps 32 m (lpt_putc hw 32 (serial_putc hw 32 m.ports)) h.safe)

  scroll-Keeps :
      (l m : Machine P)
      → Keeps l m
      → Keeps l (move_cursor hw (record m { screen = scroll m.screen }))
  unfolding move_cursor
  scroll-Keeps l m h =
      let same = scroll_room m.screen h.safe.on_screen in
      record {
        safe = record {
          on_screen = rw (same) h.safe.on_screen;
          reads = h.safe.reads;
          writes = h.safe.writes;
        };
        screen_behind = λ i b. ap (λ s. s.crt_buf i) same ∙ h.screen_behind i b;
        queue_behind = h.queue_behind;
      }

  put_tab-Keeps : (l m : Machine P) → Keeps l m → Keeps l (put_tab hw m)
  unfolding put_tab
  put_tab-Keeps l m h = scroll-Keeps l _ (
      put_blank-Keeps l _
        (put_blank-Keeps l _ (put_blank-Keeps l _ (put_blank-Keeps l _ (put_blank-Keeps l m h)))))

  pub putc-Keeps : (c : ℕ) (m : Machine P) → IsSafe m → Keeps m (cons_putc hw c m)
  unfolding cons_putc cga_putc
  putc-Keeps c m h =
      let p = lpt_putc hw c (serial_putc hw c m.ports) in
      if_both (Keeps m) (c % 256 == 9) (put_tab hw (record m { ports = p }))
        (cga_show hw c (record m { ports = p }))
        (put_tab-Keeps m (record m { ports = p }) (Keeps-ports m m p (Keeps-refl m h)))
        (cga_show-Keeps c m p h)

  putc-queue : (c : ℕ) (m : Machine P) → (cons_putc hw c m).cons ≡ m.cons
  unfolding cons_putc cga_putc put_tab put_blank cga_show move_cursor
  putc-queue c m =
      let p = lpt_putc hw c (serial_putc hw c m.ports) in
      if_both (λ m'. m'.cons ≡ m.cons) (c % 256 == 9) (put_tab hw (record m { ports = p }))
        (cga_show hw c (record m { ports = p })) refl refl

  -- On a safe console, cons_putc of any character, '\t' and a scroll included, leaves the position on
  -- the screen, writes to no cell behind the screen, and leaves the queue as it is.
  pub cons_putc-Keeps :
      (c : ℕ) (m : Machine P)
      → IsSafe m
      → Keeps m (cons_putc hw c m) × ((cons_putc hw c m).cons ≡ m.cons)
  cons_putc-Keeps c m h = (putc-Keeps c m h, putc-queue c m)

  pub print-Keeps : (cs : List ℕ) (l m : Machine P) → Keeps l m → Keeps l (print hw cs m)
  unfolding print
  print-Keeps [] l m h = h
  print-Keeps (c ∷ cs) l m h =
      print-Keeps cs l (cons_putc hw c m) (Keeps-trans l m _ h (putc-Keeps c m h.safe))
