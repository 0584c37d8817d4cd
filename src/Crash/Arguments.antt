-- ===== src/Crash/Arguments.antt =====
-- src/services/crash-handler/main.c: the arguments of `main`, as the kernel's core_pattern gives them.
use singularity_shell.Base.{◌||◌, Option, none, some, List, ◌∷◌, if◌then◌else◌}
use singularity_shell.Int.{ℤ, pos, ltb_ℤ}
use singularity_shell.CString.{Text}
use singularity_shell.Crash.Text.{parse_long}

-- The numbers of the command line.
pub record Crashed : Type 0 where
  pub pid : ℤ
  pub uid : ℤ
  pub gid : ℤ
  pub signal : ℤ
  pub time : ℤ
  pub dumpable : ℤ

unfoldable pub check_numbers : Crashed → Option Crashed
check_numbers c =
    if ltb_ℤ c.pid (pos 1) || ltb_ℤ c.uid (pos 0) || ltb_ℤ c.gid (pos 0) then none else some c

infixl 5 ◌>>=◌
abbrev pub ◌>>=◌ : {A B : Type 0} → Option A → (A → Option B) → Option B
none >>= f = none
some a >>= f = f a

-- The six numbers, and what stands behind them; `none` is a return of 2.
unfoldable pub read_arguments : List Text → Option (Crashed × List Text)
unfolding check_numbers parse_long
read_arguments (a ∷ b ∷ c ∷ d ∷ e ∷ f ∷ rest) = do
  p ← parse_long a
  u ← parse_long b
  g ← parse_long c
  s ← parse_long d
  t ← parse_long e
  k ← parse_long f
  crashed ← check_numbers (record { pid = p; uid = u; gid = g; signal = s; time = t; dumpable = k })
  some (crashed, rest)
read_arguments _ = none
