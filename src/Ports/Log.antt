-- ===== src/Ports/Log.antt =====
-- The bytes that have been sent to the ports, in order.
use aos_labs_2023_rbtree.Base.{ℕ, List, ◌≡◌, ◌++◌, ◌∷◌, []}
use aos_labs_2023_rbtree.Ports.{Hardware}

-- `log` lists the bytes that were sent: an output adds its byte, an input none.
pub record IsLog {P : Type 0} (hw : Hardware P) (log : P → List (ℕ × ℕ)) : Type 0 where
  pub sent : (port value : ℕ) (p : P) → log (hw.outb port value p) ≡ log p ++ (port, value) ∷ []
  pub polled : (port : ℕ) (p : P) → log (hw.inb port p).1 ≡ log p
