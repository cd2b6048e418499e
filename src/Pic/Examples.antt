-- ===== src/Pic/Examples.antt =====
-- Ports that keep what is written to them.
use aos_labs_2023_rbtree.Base.{ℕ, refl, true, false, ◌%◌, update, arith, test_self, test_ne}
use aos_labs_2023_rbtree.Ports.{Hardware}
use aos_labs_2023_rbtree.Pic.Lines.{IsPic, SetsLine, enable-disable}
use aos_labs_2023_rbtree.Pic.{pic_enable_irq, pic_disable_irq}

abbrev memory : Hardware (ℕ → ℕ)
memory = record { inb = λ port p. (p port % 256, p); outb = λ port value p. update p port value }

abbrev masks : (ℕ → ℕ) → ℕ → ℕ
masks p port = p port % 256

abbrev Settled : (ℕ → ℕ) → Type 0
Settled p = Unit {0}

memory-IsPic : IsPic memory masks Settled
memory-IsPic = record {
  read = λ port p d s. refl;
  is_byte = λ port p d. omega arith;
  polled = λ port port' p d d' s. refl;
  still = λ port p d s. tt;
  written = λ port value p d s h. simp (test_self port) (omega arith);
  others = λ port port' value p d d' s ne. simp (test_ne port' port ne);
}

abbrev start : ℕ → ℕ
start port = 0xFB

enable-disable_example :
    SetsLine memory masks Settled memory-IsPic 4 false start (pic_enable_irq memory 4 start)
    × SetsLine memory masks Settled memory-IsPic 4 true start (pic_disable_irq memory 4 start)
enable-disable_example = enable-disable memory masks Settled memory-IsPic 4 start (omega arith) tt
