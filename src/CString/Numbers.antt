-- ===== src/CString/Numbers.antt =====
-- strtol (s, &end, 10) of the C library, in the "C" locale, and the numbers that "%ld" prints.
use singularity_shell.Base.{
  ℕ, zero, suc, ◌+◌, ◌-◌, ◌*◌, ◌/◌, ◌%◌, ◌^◌, Bool, true, false, ◌&&◌, ◌||◌, [], ◌∷◌, ◌++◌, ltb,
  leb, ◌==◌, if◌then◌else◌, length,
}
use singularity_shell.CString.Defs.{Text, is_digit}
use singularity_shell.Int.{ℤ, pos, negsuc}

-- The value, what `end` points at, and whether errno is set to ERANGE.
pub record Strtol : Type 0 where
  pub value : ℤ
  pub end_at : Text
  pub out_of_range : Bool

unfoldable pub is_space : ℕ → Bool
is_space c = c == b' ' || (leb 9 c && leb c 13)

unfoldable pub skip_spaces : Text → Text
unfolding is_space
skip_spaces [] = []
skip_spaces (c ∷ s) = let rest = skip_spaces s in if is_space c then rest else c ∷ s

-- The digits at the front as a number, and the rest.
unfoldable pub read_digits : ℕ → Text → ℕ × Text
unfolding is_digit
read_digits v [] = (v, [])
read_digits v (c ∷ s) =
    let more = read_digits (v * 10 + (c - b'0')) s in if is_digit c then more else (v, c ∷ s)

abbrev pub long_max : ℕ
long_max = 2 ^ 63 - 1

unfoldable pub clamp_long : Bool → ℕ × Text → Strtol
clamp_long false (v, end) =
    if ltb long_max v
    then record { value = pos long_max; end_at = end; out_of_range = true }
    else record { value = pos v; end_at = end; out_of_range = false }
clamp_long true (v, end) =
    if ltb (long_max + 1) v
    then record { value = negsuc long_max; end_at = end; out_of_range = true }
    else record {
      value = if v == 0 then pos 0 else negsuc (v - 1);
      end_at = end;
      out_of_range = false;
    }

-- Without a digit nothing is converted, and `end` stays at the start of the text.
unfoldable pub convert : Bool → Text → Text → Strtol
unfolding clamp_long read_digits is_digit
convert minus start [] = record { value = pos 0; end_at = start; out_of_range = false }
convert minus start (c ∷ s) =
    if is_digit c
    then clamp_long minus (read_digits 0 (c ∷ s))
    else record { value = pos 0; end_at = start; out_of_range = false }

unfoldable pub signed : Text → Text → Strtol
unfolding convert
signed start [] = convert false start []
signed start (c ∷ s) =
    if c == b'-'
    then convert true start s
    else if c == b'+'
    then convert false start s
    else convert false start (c ∷ s)

unfoldable pub strtol : Text → Strtol
unfolding signed skip_spaces
strtol s = signed s (skip_spaces s)

-- "%ld" and "%lu": the decimal digits, with fuel for their number.
unfoldable pub digits_from : ℕ → ℕ → Text → Text
digits_from zero n acc = acc
digits_from (suc fuel) n acc =
    let more = digits_from fuel (n / 10) ((b'0' + n % 10) ∷ acc) in
    if ltb n 10 then (b'0' + n) ∷ acc else more

-- A number below 2 ^ 64 has at most twenty digits.
unfoldable pub print_nat : ℕ → Text
unfolding digits_from
print_nat n = digits_from 20 n []

unfoldable pub print_long : ℤ → Text
unfolding print_nat
print_long (pos n) = print_nat n
print_long (negsuc n) = b'-' ∷ print_nat (n + 1)

unfoldable pub zeros : ℕ → Text
zeros zero = []
zeros (suc n) = b'0' ∷ zeros n

-- "%010ld"
unfoldable pub print_padded : ℤ → Text
unfolding print_nat zeros
print_padded (pos n) = zeros (10 - length (print_nat n)) ++ print_nat n
print_padded (negsuc n) = b'-' ∷ (zeros (9 - length (print_nat (n + 1))) ++ print_nat (n + 1))
