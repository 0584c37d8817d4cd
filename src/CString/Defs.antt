-- ===== src/CString/Defs.antt =====
-- The string functions themselves.
use Prim.Native.Char.{code}
use Prim.Native.String.{String}
use singularity_shell.Base.{
  ℕ, ◌-◌, Bool, true, false, ◌&&◌, ◌||◌, Option, none, some, List, [], ◌∷◌, ◌++◌, leb, ◌==◌,
  if◌then◌else◌, take,
}

abbrev pub Text : Type 0
Text = List ℕ

-- The bytes of an ASCII literal.
abbrev pub codes : String → Text
codes String.[] = []
codes (String.◌∷◌ c s) = code c ∷ codes s

-- strcmp (a, b) == 0
unfoldable pub str_eq : Text → Text → Bool
str_eq [] [] = true
str_eq (x ∷ xs) (y ∷ ys) = x == y && str_eq xs ys
str_eq _ _ = false

-- strncmp (s, p, strlen (p)) == 0
unfoldable pub starts_with : Text → Text → Bool
starts_with [] s = true
starts_with (c ∷ p) [] = false
starts_with (c ∷ p) (x ∷ xs) = c == x && starts_with p xs

-- strchr (s, c) and memchr (s, c, n): the bytes before the first `c` and those after it.
unfoldable pub split_at : ℕ → Text → Option (Text × Text)
split_at c [] = none
split_at c (x ∷ xs) =
    let rest = split_at c xs in
    if x == c then some ([], xs) else elim rest [ none ↦ none | some (a, b) ↦ some (x ∷ a, b) ]

-- s[strcspn (s, c)] = '\0'; with c = 0 it is the string that a buffer holds.
unfoldable pub before : ℕ → Text → Text
before c [] = []
before c (x ∷ xs) = let rest = before c xs in if x == c then [] else x ∷ rest

-- What follows the first `c`; nothing where `c` does not occur.
unfoldable pub after : ℕ → Text → Text
after c [] = []
after c (x ∷ xs) = let rest = after c xs in if x == c then xs else rest

-- The pieces between the separators, empty ones included.
unfoldable pub prepend : ℕ → List Text → List Text
prepend x [] = (x ∷ []) ∷ []
prepend x (p ∷ ps) = (x ∷ p) ∷ ps

unfoldable pub items : ℕ → Text → List Text
unfolding prepend
items c [] = [] ∷ []
items c (x ∷ xs) = if x == c then [] ∷ items c xs else prepend x (items c xs)

-- strspn: without the leading separators.
unfoldable pub skip : ℕ → Text → Text
skip c [] = []
skip c (x ∷ xs) = let rest = skip c xs in if x == c then rest else x ∷ xs

take_token : ℕ → Text → Option (Text × Text)
take_token c [] = none
take_token c (x ∷ xs) = some (before c (x ∷ xs), after c (x ∷ xs))

-- strtok_r (s, c, &save): the token and what `save` points at then; `none` is NULL.
unfoldable pub strtok : ℕ → Text → Option (Text × Text)
unfolding take_token skip before after
strtok c s = take_token c (skip c s)

-- All tokens of a loop over strtok_r: the pieces that are not empty.
unfoldable pub drop_empty : List Text → List Text
drop_empty [] = []
drop_empty ([] ∷ ps) = drop_empty ps
drop_empty ((x ∷ p) ∷ ps) = (x ∷ p) ∷ drop_empty ps

unfoldable pub tokens : ℕ → Text → List Text
unfolding drop_empty items
tokens c s = drop_empty (items c s)

-- snprintf (buffer, size, "%s", s) for a size above 0
unfoldable pub copy_into : ℕ → Text → Text
copy_into size s = take (size - 1) s

-- What the loop still sees at the end of the file.
end_of_file : Text → List Text
end_of_file [] = []
end_of_file (x ∷ xs) = (x ∷ xs) ∷ []

-- The buffers that `while (fgets (line, size + 1, f))` sees: each ends at a newline, where `size`
-- bytes are read, or at the end of the file. `room` is what is left of `size`.
unfoldable pub fgets_from : ℕ → ℕ → Text → Text → List Text
unfolding end_of_file
fgets_from size room line [] = end_of_file line
fgets_from size room line (x ∷ xs) =
    let full = x == b'\n' || leb room 1 in
    let line' = line ++ x ∷ [] in
    let rest = fgets_from size (if full then size else room - 1) (if full then [] else line') xs in
    if full then line' ∷ rest else rest

unfoldable pub fgets_lines : ℕ → Text → List Text
unfolding fgets_from
fgets_lines size file = fgets_from (size - 1) (size - 1) [] file

unfoldable pub is_digit : ℕ → Bool
is_digit c = leb b'0' c && leb c b'9'

unfoldable pub is_upper : ℕ → Bool
is_upper c = leb b'A' c && leb c b'Z'

unfoldable pub is_lower : ℕ → Bool
is_lower c = leb b'a' c && leb c b'z'
