-- ===== src/Crash/Text/Clean.antt =====
-- What `trim` and `sanitize` leave, and that a second pass changes nothing.
use singularity_shell.Base.{
  ℕ, suc, ◌≡◌, refl, ap, Bool, true, not, ◌||◌, [], ◌∷◌, arith, ltb, ◌==◌, length, all,
}
use singularity_shell.CString.{Text}
use singularity_shell.Crash.Text.{trim, trim_end, trim_start, trims_end, trims_start, sanitize}

-- A byte that the report can hold in a field.
abbrev pub clean : ℕ → Bool
clean c = not (ltb c 0x20 || c == 0x7f || c == b'\\')

pub all-clean-sanitize : (s : Text) → all clean (sanitize s) ≡ true
unfolding sanitize
all-clean-sanitize [] = refl
all-clean-sanitize (c ∷ s) = ground (arith, all-clean-sanitize s)

pub sanitize_of_clean : (s : Text) → all clean s ≡ true → sanitize s ≡ s
unfolding sanitize
sanitize_of_clean [] h = refl
sanitize_of_clean (c ∷ s) h = ground (arith, sanitize_of_clean s)

pub length-sanitize : (s : Text) → length (sanitize s) ≡ length s
unfolding sanitize
length-sanitize [] = refl
length-sanitize (c ∷ s) = ap suc (length-sanitize s)

-- The first and the last byte of a trimmed text.
abbrev pub starts_clean : Text → Bool
starts_clean [] = true
starts_clean (c ∷ s) = not (trims_start c)

abbrev pub ends_clean : Text → Bool
ends_clean [] = true
ends_clean (c ∷ []) = not (trims_end c)
ends_clean (c ∷ x ∷ s) = ends_clean (x ∷ s)

ends_clean-trim_end : (s : Text) → ends_clean (trim_end s) ≡ true
unfolding trim_end
ends_clean-trim_end [] = refl
ends_clean-trim_end (c ∷ s) = ground (arith, ends_clean-trim_end s)

starts_clean-trim_start : (s : Text) → starts_clean (trim_start s) ≡ true
unfolding trim_start
starts_clean-trim_start [] = refl
starts_clean-trim_start (c ∷ s) = ground (arith, starts_clean-trim_start s)

ends_clean-trim_start : (s : Text) → ends_clean s ≡ true → ends_clean (trim_start s) ≡ true
unfolding trim_start trims_end
ends_clean-trim_start [] h = refl
ends_clean-trim_start (c ∷ []) h = ground arith
ends_clean-trim_start (c ∷ x ∷ s) h = ground (arith, ends_clean-trim_start (x ∷ s))

trim_start_of_clean : (s : Text) → starts_clean s ≡ true → trim_start s ≡ s
unfolding trim_start
trim_start_of_clean [] h = refl
trim_start_of_clean (c ∷ s) h = ground arith

trim_end_of_clean : (s : Text) → ends_clean s ≡ true → trim_end s ≡ s
unfolding trim_end
trim_end_of_clean [] h = refl
trim_end_of_clean (c ∷ []) h = ground arith
trim_end_of_clean (c ∷ x ∷ s) h = ground (arith, trim_end_of_clean (x ∷ s) h)

-- A trimmed text neither starts with a space or a tab nor ends with white space, and trimming it
-- again changes nothing.
pub trim_lem :
    (s : Text)
    → (starts_clean (trim s) ≡ true) × (ends_clean (trim s) ≡ true) × (trim (trim s) ≡ trim s)
unfolding trim
trim_lem s =
    let a = starts_clean-trim_start (trim_end s) in
    let b = ends_clean-trim_start (trim_end s) (ends_clean-trim_end s) in
    (a, b, rw (trim_end_of_clean _ b) (trim_start_of_clean _ a))
