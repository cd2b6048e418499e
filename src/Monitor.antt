-- ===== src/Monitor.antt =====
-- kernel/monitor.c: runcmd splits the line into arguments, in place, and looks for the command.
-- The table `commands` is given by the addresses of the names; a command is its place in the table.
pub mod Scan
pub mod Words
pub mod Dispatch
pub mod Examples
use aos_labs_2023_rbtree.Base.{
  ℕ, zero, suc, List, [], ◌∷◌, Bool, if◌then◌else◌, ◌==◌, not, ◌||◌, ◌&&◌, ◌++◌, ◌+◌, Option, none,
  some, false,
}
use aos_labs_2023_rbtree.Base.Run.{ok, out_of_fuel, ◌>>=◌, ◌>>◌}
use aos_labs_2023_rbtree.Base.Lists.{length}
use aos_labs_2023_rbtree.Base.Int.{ℤ, pos, negsuc}
use aos_labs_2023_rbtree.Strings.Bounded.{strcmp}
use aos_labs_2023_rbtree.Strings.{Cmd, load, store}

-- `strchr("\t\r\n ", c)`, for a byte other than 0
abbrev pub is_white : (c : ℕ) → Bool
is_white c = c == 9 || c == 13 || c == 10 || c == b' '

-- `while (*buf && strchr(WHITESPACE, *buf)) *buf++ = 0`
unfoldable pub gobble : ℕ → (buf : ℕ) → Cmd ℕ
gobble zero buf = λ _. out_of_fuel
gobble (suc fuel) buf = do
  c ← load buf
  if not (c == 0) && is_white c then (do store buf 0; gobble fuel (buf + 1)) else ok buf

-- `while (*buf && !strchr(WHITESPACE, *buf)) buf++`
unfoldable pub scan : ℕ → (buf : ℕ) → Cmd ℕ
scan zero buf = λ _. out_of_fuel
scan (suc fuel) buf = do
  c ← load buf
  if not (c == 0) && not (is_white c) then scan fuel (buf + 1) else ok buf

abbrev pub is_zero : ℤ → Bool
is_zero (pos n) = n == 0
is_zero (negsuc n) = false

-- `argv` with `argc`, or that there are too many arguments.
pub data Parsed : Type 0 where
  arguments : List ℕ → Parsed
  too_many : Parsed

-- The loop of runcmd: the argument at `buf` is put behind `argv`, which holds 15 at most.
unfoldable pub parse : ℕ → (buf : ℕ) → (argv : List ℕ) → Cmd Parsed
parse zero buf argv = λ _. out_of_fuel
parse (suc fuel) buf argv = do
  start ← gobble (suc fuel) buf
  c ← load start
  if c == 0
      then ok (arguments argv)
      else if length argv == 15
      then ok too_many
      else (do end ← scan (suc fuel) start; parse fuel end (argv ++ start ∷ []))

-- What runcmd comes to: nothing, a message that refuses the line or names an unknown command, or the
-- call of a command with `argv`.
pub data Outcome : Type 0 where
  idle : Outcome
  refused : Outcome
  unknown : (name : ℕ) → Outcome
  call : (i : ℕ) (argv : List ℕ) → Outcome

-- `for (i = 0; i < NCOMMANDS; i++) if (strcmp(argv[0], commands[i].name) == 0)`, from the names on
-- that are left.
unfoldable pub lookup : ℕ → (name i : ℕ) → (names : List ℕ) → Cmd (Option ℕ)
lookup fuel name i [] = ok none
lookup fuel name i (n ∷ names) = do
  order ← strcmp fuel name n
  if is_zero order then ok (some i) else lookup fuel name (i + 1) names

abbrev pub chosen : (name : ℕ) → (argv : List ℕ) → Option ℕ → Outcome
chosen name argv none = unknown name
chosen name argv (some i) = call i argv

unfoldable pub dispatch : ℕ → (names : List ℕ) → Parsed → Cmd Outcome
dispatch fuel names too_many = ok refused
dispatch fuel names (arguments []) = ok idle
dispatch fuel names (arguments (name ∷ argv)) = do
  found ← lookup fuel name 0 names
  ok (chosen name (name ∷ argv) found)

unfoldable pub runcmd : ℕ → (names : List ℕ) → (buf : ℕ) → Cmd Outcome
runcmd fuel names buf = do parsed ← parse fuel buf []; dispatch fuel names parsed
