-- ===== src/Power.antt =====
-- The power helper, which sets the charge limit of a battery through sysfs
-- (src/services/power-helper/main.c). Paths are taken to fit their buffers.
mod Tests
pub mod Limit
use singularity_shell.Base.{
  ℕ, Bool, false, not, ◌||◌, Option, none, some, List, [], ◌∷◌, ◌++◌, ltb, ◌==◌, if◌then◌else◌,
  length, take, all,
}
use singularity_shell.CString.{Text, codes, str_eq, before, is_digit, is_upper, is_lower}
use singularity_shell.CString.Numbers.{Strtol, strtol, print_long}
use singularity_shell.Int.{ℤ, pos, ltb_ℤ, ◌-ℤ◌}

unfoldable pub name_byte : ℕ → Bool
unfolding is_lower is_upper is_digit
name_byte x = is_lower x || is_upper x || is_digit x || x == b'_' || x == b'-'

unfoldable pub valid_name : Text → Bool
valid_name [] = false
valid_name (c ∷ s) = if ltb 64 (length (c ∷ s)) || c == b'.' then false else all name_byte (c ∷ s)

-- The loop that cuts newlines and spaces off the end.
unfoldable pub trim_line : Text → Text
trim_line [] = []
trim_line (c ∷ s) = elim (trim_line s) [
  | [] ↦ if c == b'\n' || c == b' ' then [] else c ∷ []
  | x ∷ rest ↦ c ∷ x ∷ rest
]

-- The attributes of one battery; `none` is a file that cannot be opened or read.
pub record Battery : Type 0 where
  pub kind : Option Text
  pub end_threshold : Option Text
  pub start_threshold : Option Text

-- Whether the writes succeed.
pub record Sysfs : Type 0 where
  pub writes_start : Bool
  pub writes_end : Bool

-- `read_attr` into a buffer of 64 bytes.
unfoldable pub read_attr : Option Text → Option Text
unfolding trim_line
read_attr none = none
read_attr (some content) = some (before 0 (trim_line (take 63 content)))

-- The text that `write_attr` writes.
unfoldable pub attr_text : ℤ → Text
attr_text value = print_long value ++ b'\n' ∷ []

unfoldable pub is_battery : Option Text → Bool
is_battery none = false
is_battery (some kind) = str_eq kind (codes "Battery")

-- An exit code, and the battery as it is left.
abbrev pub Done : Type 0
Done = ℕ × Battery

-- A write that succeeds is taken to be read back as it was written.
unfoldable pub write_end : Sysfs → Battery → ℤ → Done
write_end fs b percent =
    if fs.writes_end then (0, record b { end_threshold = some (attr_text percent) }) else (4, b)

-- The part of `charge_limit` that lowers the start threshold, on what `read_attr` gave for it.
unfoldable pub lower_start : Sysfs → Battery → ℤ → Option Text → Done
lower_start fs b percent none = write_end fs b percent
lower_start fs b percent (some text) =
    if ltb_ℤ (Strtol.value (strtol text)) percent
    then write_end fs b percent
    else if fs.writes_start
    then write_end fs (record b { start_threshold = some (attr_text (percent -ℤ pos 5)) }) percent
    else (4, b)

unfoldable pub set_limit : Sysfs → Battery → ℤ → Done
set_limit fs b percent =
    if not (is_battery (read_attr b.kind)) then (2, b) else elim (read_attr b.end_threshold) [
      | none ↦ (3, b)
      | some text ↦ lower_start fs b percent (read_attr b.start_threshold)
    ]

unfoldable pub bad_percent : Strtol → Bool
bad_percent n = not (length n.end_at == 0) || ltb_ℤ n.value (pos 50) || ltb_ℤ (pos 100) n.value

-- On the battery that has the name.
unfoldable pub charge_limit : Sysfs → Text → Text → Battery → Done
charge_limit fs name percent_text b =
    if bad_percent (strtol percent_text)
    then (2, b)
    else if not (valid_name name)
    then (2, b)
    else set_limit fs b (Strtol.value (strtol percent_text))

-- `main`, on the arguments behind the program's name.
unfoldable pub main : Sysfs → (Text → Battery) → List Text → ℕ × (Text → Battery)
main fs batteries (command ∷ name ∷ percent ∷ []) =
    if str_eq command (codes "charge-limit")
    then (let r = charge_limit fs name percent (batteries name) in
        (r.0, λ other. if str_eq other name then r.1 else batteries other))
    else (2, batteries)
main fs batteries _ = (2, batteries)
