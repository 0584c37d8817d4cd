-- ===== src/Firewall/Validate.antt =====
-- src/services/firewall-helper/main.c: the checks on what a rule may hold (`valid_id`, `valid_label`,
-- `valid_number`, `valid_port_item`, `valid_ports`).
use singularity_shell.Base.{
  ℕ, ◌+◌, ◌*◌, ◌-◌, Bool, true, false, not, ◌&&◌, ◌||◌, Option, none, some, [], ◌∷◌, ltb, ◌==◌,
  if◌then◌else◌, length, all,
}
use singularity_shell.CString.{Text, codes, starts_with, split_at, items, is_digit, is_lower}

unfoldable pub valid_id : Text → Bool
unfolding is_lower is_digit
valid_id id =
    if length id == 0 || ltb 32 (length id)
    then false
    else all (λ c. is_lower c || is_digit c || c == b'-') id

unfoldable pub valid_label : Text → Bool
valid_label label =
    if length label == 0 || ltb 64 (length label)
    then false
    else all (λ c. not (ltb c 0x20 || c == b'"' || c == b'\\' || c == 0x7f)) label

-- The loop of `valid_number`: `none` is the return at a byte that is no digit.
unfoldable pub decimal : ℕ → Text → Option ℕ
unfolding is_digit
decimal v [] = some v
decimal v (c ∷ s) = let rest = decimal (v * 10 + (c - b'0')) s in if is_digit c then rest else none

-- `none` is the return value 0; `some v` is 1 with `*out = v`.
unfoldable pub in_port_range : Option ℕ → Option ℕ
in_port_range none = none
in_port_range (some v) = if ltb v 1 || ltb 65535 v then none else some v

unfoldable pub valid_number : Text → Option ℕ
unfolding decimal in_port_range
valid_number s = if length s == 0 || ltb 5 (length s) then none else in_port_range (decimal 0 s)

-- `valid_number (…, &a) && valid_number (…, &b) && a < b`
unfoldable pub ascending : Option ℕ → Option ℕ → Bool
ascending (some a) (some b) = ltb a b
ascending _ _ = false

unfoldable pub is_some : Option ℕ → Bool
is_some none = false
is_some (some v) = true

-- A number, or two with a dash between them.
unfoldable pub valid_range : Text → Option (Text × Text) → Bool
unfolding valid_number ascending is_some
valid_range port none = is_some (valid_number port)
valid_range port (some (low, high)) = ascending (valid_number low) (valid_number high)

unfoldable pub valid_protocol : Text → Bool
valid_protocol proto =
    (length proto == 3 && starts_with (codes "tcp") proto)
    || (length proto == 3 && starts_with (codes "udp") proto)

-- An item cut at its first slash.
unfoldable pub valid_cut_item : Option (Text × Text) → Bool
unfolding valid_protocol valid_range
valid_cut_item none = false
valid_cut_item (some (port, proto)) =
    if not (valid_protocol proto) then false else valid_range port (split_at b'-' port)

unfoldable pub valid_port_item : Text → Bool
unfolding valid_cut_item
valid_port_item item = valid_cut_item (split_at b'/' item)

unfoldable pub valid_ports : Text → Bool
unfolding valid_port_item
valid_ports ports =
    if length ports == 0 || ltb 255 (length ports)
    then false
    else all valid_port_item (items b',' ports)
