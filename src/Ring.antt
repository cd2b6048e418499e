-- ===== src/Ring.antt =====
-- lib/list.c and include/list.h: lists as rings of nodes, which start and end at their head.
-- `struct list` is kept field by field, as struct rb_node is: an access through NULL is a fault.
pub mod Chain
pub mod Correct
pub mod Examples
pub mod Foreach
pub mod Insert
pub mod Pop
use aos_labs_2023_rbtree.Base.{List, [], ◌∷◌, zero, suc, ℕ, Bool, ◌==◌, if◌then◌else◌, update}
use aos_labs_2023_rbtree.Base.Run.{out_of_fuel, Run, ok, fault, ◌>>=◌, ◌>>◌}

abbrev pub Ptr : Type 0
Ptr = ℕ

abbrev pub null : Ptr
null = 0

pub record Mem : Type 0 where
  pub next : Ptr → Ptr
  pub prev : Ptr → Ptr

abbrev pub Cmd : Type 0 → Type 0
Cmd A = Mem → Run Mem A

abbrev pub deref : {A : Type 0} → Ptr → Cmd A → Cmd A
deref p c m = if p == null then fault else c m

unfoldable pub get_next : Ptr → Cmd Ptr
get_next p = deref p λ m. ok (m.next p) m

unfoldable pub get_prev : Ptr → Cmd Ptr
get_prev p = deref p λ m. ok (m.prev p) m

unfoldable pub set_next : Ptr → Ptr → Cmd (Unit {0})
set_next p q = deref p λ m. ok tt (record m { next = update m.next p q })

unfoldable pub set_prev : Ptr → Ptr → Cmd (Unit {0})
set_prev p q = deref p λ m. ok tt (record m { prev = update m.prev p q })

-- list_init
unfoldable pub init : (head : Ptr) → Cmd (Unit {0})
unfolding set_next set_prev
init head = do set_next head head; set_prev head head

-- list_insert_after
unfoldable pub insert_after : (after new : Ptr) → Cmd (Unit {0})
unfolding get_next set_next set_prev
insert_after after new = do
  set_prev new after
  n ← get_next after
  set_next new n
  n' ← get_next after
  set_prev n' new
  set_next after new

-- list_insert_before
unfoldable pub insert_before : (before new : Ptr) → Cmd (Unit {0})
unfolding get_prev set_next set_prev
insert_before before new = do
  set_next new before
  p ← get_prev before
  set_prev new p
  p' ← get_prev before
  set_next p' new
  set_prev before new

-- list_del
unfoldable pub del : (node : Ptr) → Cmd (Unit {0})
unfolding get_next get_prev set_next set_prev
del node = do
  p ← get_prev node
  n ← get_next node
  set_next p n
  n' ← get_next node
  p' ← get_prev node
  set_prev n' p'
  set_next node node
  set_prev node node

-- list_add
unfoldable pub add : (head new : Ptr) → Cmd (Unit {0})
add head new = insert_after head new

-- list_add_tail
unfoldable pub add_tail : (head new : Ptr) → Cmd (Unit {0})
add_tail head new = insert_before head new

-- list_pop_tail
unfoldable pub pop_tail : (head : Ptr) → Cmd Ptr
unfolding get_prev
pop_tail head = do
  p ← get_prev head
  if p == head then ok null else do node ← get_prev head; del node; ok node

-- list_pop
unfoldable pub pop : (head : Ptr) → Cmd Ptr
unfolding get_next
pop head = do
  n ← get_next head
  if n == head then ok null else do node ← get_next head; del node; ok node

unfoldable pub is_empty : (head : Ptr) → Cmd Bool
unfolding get_next
is_empty head = do n ← get_next head; ok (n == head)

-- list_next, and list_head where `node` is the head
unfoldable pub next_in : (head node : Ptr) → Cmd Ptr
unfolding get_next
next_in head node = do n ← get_next node; if n == head then ok null else get_next node

-- list_prev, and list_tail where `node` is the head
unfoldable pub prev_in : (head node : Ptr) → Cmd Ptr
unfolding get_prev
prev_in head node = do p ← get_prev node; if p == head then ok null else get_prev node

-- The nodes that `list_foreach(list, node)` visits, `node` being the first one.
unfoldable pub foreach_loop : ℕ → (list node : Ptr) → Cmd (List Ptr)
unfolding get_next
foreach_loop zero list node = λ _. out_of_fuel
foreach_loop (suc fuel) list node =
    if node == list
    then ok []
    else do n ← get_next node; rest ← foreach_loop fuel list n; ok (node ∷ rest)

unfoldable pub foreach : ℕ → (list : Ptr) → Cmd (List Ptr)
unfolding get_next
foreach fuel list = do node ← get_next list; foreach_loop fuel list node

-- The nodes that `list_foreach_rev(list, node)` visits.
unfoldable pub foreach_rev_loop : ℕ → (list node : Ptr) → Cmd (List Ptr)
unfolding get_prev
foreach_rev_loop zero list node = λ _. out_of_fuel
foreach_rev_loop (suc fuel) list node =
    if node == list
    then ok []
    else do p ← get_prev node; rest ← foreach_rev_loop fuel list p; ok (node ∷ rest)

unfoldable pub foreach_rev : ℕ → (list : Ptr) → Cmd (List Ptr)
unfolding get_prev
foreach_rev fuel list = do node ← get_prev list; foreach_rev_loop fuel list node
