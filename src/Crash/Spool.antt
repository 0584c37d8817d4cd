-- ===== src/Crash/Spool.antt =====
-- src/services/crash-handler/main.c: the spool directory of a user, `open_user_dir` and `prune`. Memory
-- allocation is taken to succeed.
pub mod Owner
pub mod Order
pub mod Removed
pub mod Prune
use singularity_shell.Base.{
  ℕ, ◌-◌, ◌^◌, Bool, true, false, not, ◌&&◌, ◌||◌, Option, none, some, List, [], ◌∷◌, ◌++◌, ltb,
  leb, ◌==◌, if◌then◌else◌, length, take, drop,
}
use singularity_shell.CString.{Text, str_eq}
use singularity_shell.CString.Numbers.{print_nat}
use singularity_shell.Int.{ℤ, pos, negsuc}
use singularity_shell.Crash.Config.{Config}

-- The files of a directory by name, in the order of readdir.
abbrev pub Dir : Type 0
Dir = List (Text × Text)

abbrev pub names : Dir → List Text
names [] = []
names ((name, content) ∷ dir) = name ∷ names dir

unfoldable pub has_file : Text → Dir → Bool
has_file name [] = false
has_file name ((other, content) ∷ dir) = str_eq other name || has_file name dir

unfoldable pub unlink : Text → Dir → Dir
unlink name [] = []
unlink name ((other, content) ∷ dir) =
    if str_eq other name then unlink name dir else (other, content) ∷ unlink name dir

unfoldable pub read_file : Text → Dir → Option Text
read_file name [] = none
read_file name ((other, content) ∷ dir) =
    if str_eq other name then some content else read_file name dir

-- What mkdir and mkdirat answer.
pub data Made : Type 0 where
  made already_there not_made : Made

unfoldable pub made_fails : Made → Bool
made_fails not_made = true
made_fails _ = false

-- The answers to the system calls of `open_user_dir`: `stat` is whether the opened file is a
-- directory, with its owner, or `none` where fstat fails.
pub record DirEnv : Type 0 where
  pub make_root : Made
  pub opens_root : Bool
  pub make_user : Made
  pub opens_user : Bool
  pub stat : Option (Bool × ℕ)
  pub chowns : Bool

-- An open directory: its path, and who owns it.
pub record OpenDir : Type 0 where
  pub path : Text
  pub owner : ℕ

-- `if (st.st_uid != uid && fchown (...) != 0)`: the owner behind the test. fchown that fails changes
-- nothing.
unfoldable pub chowned : ℕ → ℕ → Bool → ℕ
chowned owner uid chowns = if not (owner == uid) && chowns then uid else owner

-- The end of `open_user_dir`, behind fstat.
unfoldable pub claim_dir : ℕ → ℕ → Bool → Text → Option (Bool × ℕ) → Option OpenDir
unfolding chowned
claim_dir euid uid chowns path none = none
claim_dir euid uid chowns path (some (is_dir, owner)) =
    if not is_dir
    then none
    else if euid == 0
    then (if not (owner == uid) && not chowns
        then none
        else some (record { path = path; owner = chowned owner uid chowns }))
    else if not (owner == euid)
    then none
    else some (record { path = path; owner = owner })

unfoldable pub open_user_dir : Config → DirEnv → ℕ → ℕ → Option OpenDir
unfolding claim_dir made_fails
open_user_dir cfg env euid uid =
    if made_fails env.make_root
      || not env.opens_root
      || made_fails env.make_user
      || not env.opens_user
    then none
    else claim_dir euid uid env.chowns (cfg.spool_dir ++ b'/' ∷ print_nat uid) env.stat

-- strcmp (a, b) <= 0
unfoldable pub str_le : Text → Text → Bool
str_le [] b = true
str_le (x ∷ a) [] = false
str_le (x ∷ a) (y ∷ b) = ltb x y || (x == y && str_le a b)

-- qsort with `compare_entries`
unfoldable pub insert_entry : Text → List Text → List Text
insert_entry x [] = x ∷ []
insert_entry x (y ∷ ys) = if str_le x y then x ∷ y ∷ ys else y ∷ insert_entry x ys

unfoldable pub sort_entries : List Text → List Text
sort_entries [] = []
sort_entries (x ∷ xs) = insert_entry x (sort_entries xs)

-- The names that `prune` looks at: with the suffix, something before it, and room in an entry.
unfoldable pub is_entry : Text → Text → Bool
is_entry suffix name = not (
    leb (length name) (length suffix)
    || not (str_eq (drop (length name - length suffix) name) suffix)
    || leb 256 (length name))

unfoldable pub entries : Text → List Text → List Text
entries suffix [] = []
entries suffix (name ∷ rest) =
    if is_entry suffix name then name ∷ entries suffix rest else entries suffix rest

-- (size_t) keep
unfoldable pub as_size : ℤ → ℕ
as_size (pos n) = n
as_size (negsuc n) = 2 ^ 64 - 1 - n

-- `unlinks` tells which names unlinkat can remove (it fails for a directory, for one); its result is
-- ignored.
unfoldable pub unlink_all : (Text → Bool) → List Text → Dir → Dir
unfolding unlink
unlink_all unlinks [] dir = dir
unlink_all unlinks (name ∷ rest) dir =
    unlink_all unlinks rest (if unlinks name then unlink name dir else dir)

-- The names that are removed: the first of the sorted ones, down to `keep`.
unfoldable pub victims : ℕ → List Text → List Text
victims keep list =
    if ltb keep (length list) then take (length list - keep) (sort_entries list) else []

-- `lists` is whether dup and fdopendir succeed.
unfoldable pub prune : (Text → Bool) → Bool → Text → ℤ → Dir → Dir
prune unlinks lists suffix keep dir =
    if lists
    then unlink_all unlinks (victims (as_size keep) (entries suffix (names dir))) dir
    else dir
