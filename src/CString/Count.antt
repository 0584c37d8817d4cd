-- ===== src/CString/Count.antt =====
-- How often a byte stands in a text.
use singularity_shell.Base.{ℕ, ◌+◌, ◌≡◌, refl, true, [], ◌∷◌, ◌++◌, arith, ◌==◌, if◌then◌else◌}
use singularity_shell.CString.Defs.{Text}
use singularity_shell.CString.Split.{lacks}

-- How often a byte occurs.
abbrev pub count : ℕ → Text → ℕ
count c [] = 0
count c (x ∷ s) = (if x == c then 1 else 0) + count c s

pub count-append : (c : ℕ) (s t : Text) → count c (s ++ t) ≡ count c s + count c t
count-append c [] t = omega arith
count-append c (x ∷ s) t = omega (arith, count-append c s t)

pub count-lacks : (c : ℕ) (s : Text) → lacks c s ≡ true → count c s ≡ 0
count-lacks c [] h = refl
count-lacks c (x ∷ s) h = ground (arith, count-lacks c s)
