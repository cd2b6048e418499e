-- ===== src/Pic/Lines.antt =====
-- pic_enable_irq and pic_disable_irq change the mask of one line.
use aos_labs_2023_rbtree.Base.{
  ℕ, true, false, ◌⊎◌, ltb, inl, inr, Bool, ◌<◌, ◌≢◌, ◌≡◌, arith, ◌%◌, Bool-cases, ◌^◌, ◌==◌, ◌∙◌,
  eq_of_test, ap, sym, ne_of_test,
}
use aos_labs_2023_rbtree.Ports.{Hardware, has_bit, send}
use aos_labs_2023_rbtree.Pic.{line, data_port, pic_enable_irq, pic_disable_irq, clear_bit, set_bit}
use aos_labs_2023_rbtree.Pic.Masks.{bits, clear_other, set_other}

abbrev pub IsData : (port : ℕ) → Type 0
IsData port = (port ≡ 0x21) ⊎ (port ≡ 0xA1)

-- `masks p port` is the mask that the controller with the data port `port` keeps. In a state that is
-- settled, which no initialization words are awaited in, a data port reads and writes its mask, and
-- leaves the other controller alone. Nothing is asked of any other port.
pub record IsPic {P : Type 0} (hw : Hardware P) (masks : P → ℕ → ℕ) (Settled : P → Type 0)
    : Type 0 where
  pub read : (port : ℕ) (p : P) → IsData port → Settled p → (hw.inb port p).0 ≡ masks p port
  pub is_byte : (port : ℕ) (p : P) → IsData port → masks p port < 256
  pub polled :
      (port port' : ℕ) (p : P)
      → IsData port
      → IsData port'
      → Settled p
      → masks (hw.inb port p).1 port' ≡ masks p port'
  pub still : (port : ℕ) (p : P) → IsData port → Settled p → Settled (hw.inb port p).1
  pub written :
      (port value : ℕ) (p : P)
      → IsData port
      → Settled p
      → value < 256
      → masks (hw.outb port value p) port ≡ value
  pub others :
      (port port' value : ℕ) (p : P)
      → IsData port
      → IsData port'
      → Settled p
      → port' ≢ port
      → masks (hw.outb port value p) port' ≡ masks p port'

-- The mask stops the line.
abbrev pub is_masked : (ℕ → ℕ) → (irq : ℕ) → Bool
is_masked mask irq = has_bit (line irq) (mask (data_port irq))

data_port-IsData : (irq : ℕ) → IsData (data_port irq)
data_port-IsData irq = elim (Bool-cases (ltb irq 8)) [
  | inl e ↦ inl (simp (e))
  | inr e ↦ inr (simp (e))
]

line_bound : (irq : ℕ) → irq < 16 → line irq < 8
line_bound irq h = ground arith

line_other : (j irq : ℕ) → j ≢ irq → data_port j ≡ data_port irq → line j ≢ line irq
line_other j irq ne same = ground arith

module _ {P : Type 0} (hw : Hardware P) (masks : P → ℕ → ℕ) (Settled : P → Type 0)
    (pic : IsPic hw masks Settled) where
  -- The mask of the controller of a line is read and written back as `v`.
  abbrev rewritten : (irq v : ℕ) → P → P
  rewritten irq v p = send hw (data_port irq) v (hw.inb (data_port irq) p).1

  own_line :
      (irq v : ℕ) (p : P) → Settled p → v < 256 → masks (rewritten irq v p) (data_port irq) ≡ v
  own_line irq v p s byte =
      pic.written (data_port irq) (v % 2 ^ 8) (hw.inb (data_port irq) p).1 (data_port-IsData irq)
        (pic.still (data_port irq) p (data_port-IsData irq) s) (omega arith)
      ∙ omega arith

  other_line :
      (irq v j : ℕ) (p : P)
      → Settled p
      → v < 256
      → (line j ≢ line irq → has_bit (line j) v ≡ has_bit (line j) (masks p (data_port irq)))
      → j ≢ irq
      → is_masked (masks (rewritten irq v p)) j ≡ is_masked (masks p) j
  other_line irq v j p s byte kept ne = elim (Bool-cases (data_port j == data_port irq)) [
    | inl e ↦
        let same = eq_of_test (data_port j) (data_port irq) e in
        ap (λ q. has_bit (line j) (masks (rewritten irq v p) q)) same
        ∙ ap (has_bit (line j)) (own_line irq v p s byte)
        ∙ kept (line_other j irq ne same)
        ∙ ap (λ q. has_bit (line j) (masks p q)) (sym same)
    | inr e ↦
        let apart = ne_of_test (data_port j) (data_port irq) e in
        ap (has_bit (line j)) (
          pic.others (data_port irq) (data_port j) (v % 2 ^ 8) _ (data_port-IsData irq)
            (data_port-IsData j) (pic.still (data_port irq) p (data_port-IsData irq) s) apart
          ∙ pic.polled (data_port irq) (data_port j) p (data_port-IsData irq) (data_port-IsData j)
              s)
  ]

  -- The mask of `irq` is `b` in `p'`, and that of every other line is as in `p`.
  abbrev pub SetsLine : (irq : ℕ) (b : Bool) (p p' : P) → Type 0
  SetsLine irq b p p' =
      (is_masked (masks p') irq ≡ b)
      × ((j : ℕ) → j < 16 → j ≢ irq → is_masked (masks p') j ≡ is_masked (masks p) j)

  -- In a settled state, pic_enable_irq lets an interrupt line through and pic_disable_irq stops it, on
  -- the controller that it belongs to; the other fifteen lines keep their masks.
  pub enable-disable :
      (irq : ℕ) (p : P)
      → irq < 16
      → Settled p
      → SetsLine irq false p (pic_enable_irq hw irq p)
        × SetsLine irq true p (pic_disable_irq hw irq p)
  unfolding pic_enable_irq pic_disable_irq
  enable-disable irq p low s =
      let b = masks p (data_port irq) in
      let byte = pic.is_byte (data_port irq) p (data_port-IsData irq) in
      let k = line_bound irq low in
      let facts = bits b (line irq) byte k in
      rw (pic.read (data_port irq) p (data_port-IsData irq) s) (
        (
          ap (has_bit (line irq)) (own_line irq (clear_bit (line irq) b) p s facts.clear_byte)
              ∙ facts.cleared,
          λ j h ne.
              other_line irq (clear_bit (line irq) b) j p s facts.clear_byte
                (λ d. clear_other b (line irq) (line j) byte k (line_bound j h) d) ne,
        ),
        (
          ap (has_bit (line irq)) (own_line irq (set_bit (line irq) b) p s facts.set_byte)
              ∙ facts.set,
          λ j h ne.
              other_line irq (set_bit (line irq) b) j p s facts.set_byte
                (λ d. set_other b (line irq) (line j) byte k (line_bound j h) d) ne,
        ),
      )
