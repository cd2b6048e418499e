-- ===== src/Kernel/Build.antt =====
-- kernel/main.c: the loop of test_rand that inserts its containers one by one.
-- `at` gives the node of the container with each index.
pub mod Sorted
use aos_labs_2023_rbtree.Base.{ℕ, zero, suc, ◌+◌}
use aos_labs_2023_rbtree.Base.Run.{◌>>=◌, ◌>>◌}
use aos_labs_2023_rbtree.Rbtree.Memory.{Ptr, Cmd, skip}
use aos_labs_2023_rbtree.Kernel.Insert.{insert}

-- `insert(&rb, data + i)`, for the `k` indices from `i` on
unfoldable pub insert_loop :
    ℕ → (val : Ptr → ℕ) → (tree : Ptr) → (at : ℕ → Ptr) → (k i : ℕ) → Cmd (Unit {0})
insert_loop fuel val tree at zero i = skip
insert_loop fuel val tree at (suc k) i = do
  insert fuel val tree (at i)
  insert_loop fuel val tree at k (i + 1)
