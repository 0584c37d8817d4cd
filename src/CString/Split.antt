-- ===== src/CString/Split.antt =====
-- Laws of the functions that compare and take strings apart.
use singularity_shell.Base.{
  ℕ, ◌≡◌, refl, ◌↔◌, Bool, true, not, Option, none, some, [], ◌∷◌, ◌++◌, arith, ◌==◌, all,
}
use singularity_shell.CString.Defs.{Text, str_eq, starts_with, split_at, before, after, strtok}

pub str_eq_iff : (a b : Text) → (str_eq a b ≡ true) ↔ (a ≡ b)
unfolding str_eq
str_eq_iff (x ∷ a) (y ∷ b) = ground (arith, str_eq_iff a b)
str_eq_iff _ _ = ground arith

pub str_eq_refl : (a : Text) → str_eq a a ≡ true
str_eq_refl a = (str_eq_iff a a).1 refl

pub starts_with-append : (p s : Text) → starts_with p (p ++ s) ≡ true
unfolding starts_with
starts_with-append [] s = refl
starts_with-append (c ∷ p) s = ground (arith, starts_with-append p s)

-- The text holds no byte `c`.
abbrev pub lacks : ℕ → Text → Bool
lacks c s = all (λ x. not (x == c)) s

pub before-append : (c : ℕ) (s t : Text) → lacks c s ≡ true → before c (s ++ c ∷ t) ≡ s
unfolding before
before-append c [] t h = ground arith
before-append c (x ∷ s) t h = ground (arith, before-append c s t)

pub before-lacks : (c : ℕ) (s : Text) → lacks c s ≡ true → before c s ≡ s
unfolding before
before-lacks c [] h = refl
before-lacks c (x ∷ s) h = ground (arith, before-lacks c s)

pub lacks-before : (c : ℕ) (s : Text) → lacks c (before c s) ≡ true
unfolding before
lacks-before c [] = refl
lacks-before c (x ∷ s) = ground (arith, lacks-before c s)

pub after-append : (c : ℕ) (s t : Text) → lacks c s ≡ true → after c (s ++ c ∷ t) ≡ t
unfolding after
after-append c [] t h = ground arith
after-append c (x ∷ s) t h = ground (arith, after-append c s t)

-- A token in front of its separator is cut off whole, and `save` points behind the separator.
pub strtok-append :
    (c x : ℕ) (s t : Text) → lacks c (x ∷ s) ≡ true → strtok c (x ∷ s ++ c ∷ t) ≡ some (x ∷ s, t)
unfolding strtok
strtok-append c x s t h = ground (arith, before-append c s t, after-append c s t)

pub split_at-append :
    (c : ℕ) (s t : Text) → lacks c s ≡ true → split_at c (s ++ c ∷ t) ≡ some (s, t)
unfolding split_at
split_at-append c [] t h = ground arith
split_at-append c (x ∷ s) t h = ground (arith, split_at-append c s t)

-- What `split_at` finds: the text again, around the first separator, or that there is none.
abbrev pub Splits : ℕ → Text → Option (Text × Text) → Type 0
Splits c s none = lacks c s ≡ true
Splits c s (some (a, b)) = (s ≡ a ++ c ∷ b) × (lacks c a ≡ true)

pub split_at-Splits : (c : ℕ) (s : Text) → Splits c s (split_at c s)
unfolding split_at
split_at-Splits c [] = refl
split_at-Splits c (x ∷ s) = ground (arith, split_at-Splits c s)

pub split_at-before-after :
    (c : ℕ) (s a b : Text) → s ≡ a ++ c ∷ b → lacks c a ≡ true → (before c s ≡ a) × (after c s ≡ b)
split_at-before-after c s a b e h = ground (arith, before-append c a b h, after-append c a b h)
