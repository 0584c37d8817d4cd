-- ===== src/CString.antt =====
-- C strings and the functions of <string.h> and <stdio.h> that the helpers in src/services and
-- src/wayland call. A C string is the list of its bytes before the terminating NUL; a pointer into a
-- string is the list of the bytes from there on.
mod Defs
pub mod Split
pub mod Count
pub mod Lines
pub mod Numbers
unfoldable pub use Defs.{
  Text, codes, str_eq, starts_with, split_at, before, after, items, skip, prepend, drop_empty,
  strtok, tokens, copy_into, fgets_from, fgets_lines, is_digit, is_upper, is_lower,
}
