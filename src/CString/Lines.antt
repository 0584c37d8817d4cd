-- ===== src/CString/Lines.antt =====
-- What a loop over fgets sees of a text made of whole lines.
use singularity_shell.Base.{ℕ, ◌+◌, ◌-◌, ◌<◌, ◌≡◌, true, [], ◌∷◌, ◌++◌, arith, length, append_assoc}
use singularity_shell.CString.Defs.{Text, fgets_from, fgets_lines}
use singularity_shell.CString.Split.{lacks}

pub fgets_from-append :
    (size room : ℕ) (line s t : Text)
    → lacks b'\n' s ≡ true
    → length s < room
    → fgets_from size room line (s ++ b'\n' ∷ t)
      ≡ (line ++ (s ++ b'\n' ∷ [])) ∷ fgets_from size size [] t
unfolding fgets_from
fgets_from-append size room line [] t h k = ground arith
fgets_from-append size room line (x ∷ s) t h k = ground (
  arith,
  fgets_from-append size (room - 1) (line ++ x ∷ []) s t,
  append_assoc line (x ∷ []) (s ++ b'\n' ∷ []),
)

-- A line that fits the buffer is one round of the loop.
pub fgets_lines-append :
    (size : ℕ) (s t : Text)
    → lacks b'\n' s ≡ true
    → length s + 1 < size
    → fgets_lines size (s ++ b'\n' ∷ t) ≡ (s ++ b'\n' ∷ []) ∷ fgets_lines size t
unfolding fgets_lines
fgets_lines-append size s t h k = fgets_from-append (size - 1) (size - 1) [] s t h (omega arith)
