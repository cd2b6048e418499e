-- ===== src/Kernel/Shuffle.antt =====
-- kernel/main.c: the values of test_rand, and the loop that shuffles them.
-- `data` gives the `val` field of each of the LEN = 15 containers, by its index.
pub mod Arranged
use aos_labs_2023_rbtree.Base.{ℕ, zero, suc, ◌+◌, ◌-◌, ◌*◌, ◌%◌, ◌^◌, ◌==◌, if◌then◌else◌, update}
use Prim.Native.Nat.{bit_xor}

abbrev pub Data : Type 0
Data = ℕ → ℕ

-- `res = res * res % 4294967291ull`, in 64 bits
unfoldable pub square_loop : ℕ → (res : ℕ) → ℕ
square_loop zero res = res
square_loop (suc i) res = square_loop i (res * res % 2 ^ 64 % 4294967291)

unfoldable pub blum_blum_shub : (n : ℕ) → ℕ
blum_blum_shub n = square_loop 16 n % 2 ^ 32

-- `data[i].val = i`, for the `k` indices from `i` on
unfoldable pub fill : (k i : ℕ) → Data → Data
fill zero i data' = data'
fill (suc k) i data' = fill k (i + 1) (update data' i i)

-- The three assignments that exchange `data[i].val` and `data[j].val`.
unfoldable pub exchange : (i j : ℕ) → Data → Data
exchange i j data' =
    let d1 = update data' i (bit_xor (data' i) (data' j)) in
    let d2 = update d1 j (bit_xor (d1 j) (d1 i)) in update d2 i (bit_xor (d2 i) (d2 j))

-- `for (size_t i = 0; i < LEN - 1; i++)`, with `k` rounds to go
unfoldable pub shuffle_loop : (k i seed : ℕ) → Data → Data
shuffle_loop zero i seed data' = data'
shuffle_loop (suc k) i seed data' =
    let seed' = blum_blum_shub seed in
    let swap_idx = seed' % (15 - i - 1) + i in
    let data'' = if swap_idx == i then data' else exchange i swap_idx data' in
    shuffle_loop k (i + 1) seed' data''

-- The values that test_rand inserts, for the seed SEED.
unfoldable pub shuffled : (seed : ℕ) → Data
shuffled seed = shuffle_loop 14 0 seed (fill 15 0 (λ _. 0))
