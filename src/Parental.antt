-- ===== src/Parental.antt =====
-- The parental helper, which stores the policy of a user as root
-- (src/services/parental-helper/main.c). The key file parser is GLib's: the model takes it as an
-- argument, from the bytes of a policy to its groups (`none` where it does not parse).
mod Tests
pub mod Policy
use singularity_shell.Base.{
  ℕ, Bool, true, false, not, ◌&&◌, ◌||◌, Option, none, some, List, [], ◌∷◌, ◌++◌, ltb, ◌==◌,
  if◌then◌else◌, length, set, all,
}
use singularity_shell.CString.{Text, codes, str_eq, is_digit, is_upper, is_lower}
use singularity_shell.Process.{Written, Outcome, done, waiting, ◌>>=◌}
use singularity_shell.Crash.Files.{write_all}

abbrev pub max_policy_size : ℕ
max_policy_size = 65536

-- Who runs the helper, the users of the system with their ids, GLib's parser, and the answers to the
-- calls that write the file.
pub record Env : Type 0 where
  pub uid : ℕ
  pub euid : ℕ
  pub has_pkexec_uid : Bool
  pub passwd : Text → Option ℕ
  pub key_file_groups : Text → Option (List Text)
  pub makes_dir : Bool
  pub makes_temporary : Bool
  pub writes : List Written
  pub saves : Bool
  pub unlinks : Bool

-- What read gives on standard input: bytes (none at the end), or an error.
pub data Received : Type 0 where
  chunk : Text → Received
  read_error : Received

unfoldable pub unprivileged_test_mode : Env → Bool
unprivileged_test_mode env = not (env.uid == 0) && env.euid == env.uid && not env.has_pkexec_uid

unfoldable pub user_byte : ℕ → Bool
unfolding is_lower is_upper is_digit
user_byte c = is_lower c || is_upper c || is_digit c || c == b'_' || c == b'-' || c == b'.'

unfoldable pub known_user : Option ℕ → Bool
known_user none = false
known_user (some uid) = not (uid == 0)

unfoldable pub valid_user : Env → Text → Bool
valid_user env [] = false
valid_user env (c ∷ s) =
    if ltb 64 (length (c ∷ s)) || c == b'-' || c == b'.'
    then false
    else if not (all user_byte (c ∷ s))
    then false
    else if unprivileged_test_mode env
    then true
    else known_user (env.passwd (c ∷ s))

unfoldable pub known_group : Text → Bool
known_group name =
    str_eq name (codes "Apps") || str_eq name (codes "Time") || str_eq name (codes "Web")

unfoldable pub only_known : Option (List Text) → Bool
only_known none = false
only_known (some names) = all known_group names

unfoldable pub valid_policy : Env → Text → Bool
valid_policy env text = only_known (env.key_file_groups text)

-- `none` is NULL: a policy that is too long, or an error.
unfoldable pub read_stdin : Text → List Received → Outcome (Option Text)
read_stdin buf [] = waiting
read_stdin buf (read_error ∷ input) = done none
read_stdin buf (chunk [] ∷ input) = done (some buf)
read_stdin buf (chunk (c ∷ s) ∷ input) =
    let buf' = buf ++ (c ∷ s) in
    let rest = read_stdin buf' input in
    if ltb max_policy_size (length buf') then done none else rest

-- The policies by user: the files USER.conf of the policy directory.
abbrev pub Policies : Type 0
Policies = Text → Option Text

unfoldable pub store : Policies → Text → Option Text → Policies
store policies user policy other = if str_eq other user then policy else policies other

-- An exit code, and the policies as they are left.
abbrev pub Done : Type 0
Done = ℕ × Policies

-- The end of `write_policy`, behind the write loop: fchmod, fsync, close and rename of the temporary
-- file, with the bytes that the loop wrote into it.
unfoldable pub save : Env → Policies → Text → Text → Bool → Done
save env policies user bytes written =
    if not written || not env.saves then (1, policies) else (0, store policies user (some bytes))

unfoldable pub write_checked : Env → Policies → Text → Text → Outcome Done
write_checked env policies user text =
    if not (valid_policy env text) || not env.makes_dir || not env.makes_temporary
    then done (1, policies)
    else write_all [] env.writes text >>= λ r. done (save env policies user r.1 r.0)

unfoldable pub write_read : Env → Policies → Text → Option Text → Outcome Done
write_read env policies user none = done (1, policies)
write_read env policies user (some text) = write_checked env policies user text

unfoldable pub write_policy : Env → Policies → Text → List Received → Outcome Done
write_policy env policies user input = read_stdin [] input >>= write_read env policies user

-- A policy that is not there (ENOENT) counts as removed.
unfoldable pub clear_policy : Env → Policies → Text → Done
clear_policy env policies user =
    if env.unlinks
    then (0, store policies user none)
    else elim (policies user) [ none ↦ (0, policies) | some text ↦ (1, policies) ]

-- `main`, on the arguments behind the program's name.
unfoldable pub main : Env → Policies → List Received → List Text → Outcome Done
main env policies input (command ∷ user ∷ []) =
    if not (str_eq command (codes "set")) && not (str_eq command (codes "clear"))
    then done (2, policies)
    else if not (env.euid == 0) && not (unprivileged_test_mode env)
    then done (1, policies)
    else if not (valid_user env user)
    then done (1, policies)
    else if str_eq command (codes "set")
    then write_policy env policies user input
    else done (clear_policy env policies user)
main env policies input _ = done (2, policies)
