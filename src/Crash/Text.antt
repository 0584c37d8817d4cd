-- ===== src/Crash/Text.antt =====
-- src/services/crash-handler/main.c: `trim`, `parse_bool`, `parse_long`, `sanitize`, and how the
-- readers of /proc turn what they read into the texts of the report.
pub mod Clean
use singularity_shell.Base.{
  ℕ, ◌+◌, ◌-◌, Bool, true, not, ◌&&◌, ◌||◌, Option, none, some, List, [], ◌∷◌, map, ltb, ◌==◌,
  if◌then◌else◌, length, take, drop,
}
use singularity_shell.CString.{items, Text, codes, str_eq, starts_with, before, copy_into, is_upper}
use singularity_shell.CString.Numbers.{Strtol, strtol}
use singularity_shell.Int.{ℤ}

unfoldable pub trims_end : ℕ → Bool
trims_end c = c == b'\n' || c == b'\r' || c == b' ' || c == b'\t'

unfoldable pub trims_start : ℕ → Bool
trims_start c = c == b' ' || c == b'\t'

-- The loop from the end: a byte stays if one after it does, or if it is no white space.
unfoldable pub trim_end : Text → Text
unfolding trims_end
trim_end [] = []
trim_end (c ∷ s) = elim (trim_end s) [
  | [] ↦ if trims_end c then [] else c ∷ []
  | x ∷ rest ↦ c ∷ x ∷ rest
]

unfoldable pub trim_start : Text → Text
unfolding trims_start
trim_start [] = []
trim_start (c ∷ s) = let rest = trim_start s in if trims_start c then rest else c ∷ s

unfoldable pub trim : Text → Text
unfolding trim_end trim_start
trim s = trim_start (trim_end s)

unfoldable pub to_lower : ℕ → ℕ
unfolding is_upper
to_lower c = if is_upper c then c + 32 else c

-- `strcasecmp` and `strcmp` against the three words.
unfoldable pub parse_bool : Text → Bool
unfolding to_lower
parse_bool value =
    str_eq (map to_lower value) (codes "true")
    || str_eq value (codes "1")
    || str_eq (map to_lower value) (codes "yes")

-- `none` is the return value -1.
unfoldable pub complete : Strtol → Option ℤ
complete n = if n.out_of_range || not (length n.end_at == 0) then none else some n.value

unfoldable pub parse_long : Text → Option ℤ
unfolding complete
parse_long [] = none
parse_long (c ∷ s) = complete (strtol (c ∷ s))

unfoldable pub sanitize_byte : ℕ → ℕ
sanitize_byte c = if ltb c 0x20 || c == 0x7f || c == b'\\' then b'?' else c

unfoldable pub sanitize : Text → Text
unfolding sanitize_byte
sanitize s = map sanitize_byte s

-- Without the suffix, if it is there and something stands before it.
unfoldable pub strip_suffix : Text → Text → Text
strip_suffix suffix s =
    let head = length s - length suffix in
    if ltb (length suffix) (length s) && str_eq (drop head s) suffix then take head s else s

-- `read_executable`, on what readlink put into the buffer; `none` is an error.
unfoldable pub read_executable : ℕ → Option Text → Text
read_executable size none = []
read_executable size (some link) =
    sanitize (strip_suffix (codes " (deleted)") (before 0 (take (size - 1) link)))

unfoldable pub spaced : ℕ → ℕ
spaced c = if c == 0 then b' ' else c

-- `read_cmdline`, on the bytes of /proc/PID/cmdline; `none` is an error. `read_proc` reads at most
-- size - 1 bytes.
unfoldable pub read_cmdline : ℕ → Option Text → Text
read_cmdline size none = []
read_cmdline size (some bytes) = sanitize (trim (map spaced (take (size - 1) bytes)))

abbrev pub desktop_key : Text
desktop_key = codes "GIO_LAUNCHED_DESKTOP_FILE="

-- The loop of `read_desktop_file` over the strings of the environment block.
unfoldable pub find_desktop : List Text → Text
find_desktop [] = []
find_desktop (item ∷ rest) =
    let others = find_desktop rest in
    if ltb (length desktop_key) (length item) && starts_with desktop_key item
    then drop (length desktop_key) item
    else others

unfoldable pub read_desktop_file : ℕ → Option Text → Text
read_desktop_file size none = []
read_desktop_file size (some bytes) =
    sanitize (copy_into size (find_desktop (items 0 (take 65535 bytes))))
