-- ===== src/Crash/Spool/Removed.antt =====
-- src/services/crash-handler/main.c: what stays in the spool directory when names are unlinked.
use singularity_shell.Base.{
  ℕ, zero, suc, ◌+◌, ◌-◌, ◌≤◌, ◌<◌, ◌≡◌, refl, sym, ap, ◌∙◌, Bool, true, not, ◌&&◌, List, [], ◌∷◌,
  ◌++◌, arith, ◌==◌, if◌then◌else◌, length, take, drop, All,
}
use singularity_shell.CString.{Text, str_eq}
use singularity_shell.CString.Split.{str_eq_iff}
use singularity_shell.Crash.Spool.{Dir, names, unlink, unlink_all, entries}
use singularity_shell.Crash.Spool.Order.{count_if}

abbrev pub occurs : Text → List Text → ℕ
occurs x xs = count_if (str_eq x) xs

count_if-append :
    (p : Text → Bool) (xs ys : List Text) → count_if p (xs ++ ys) ≡ count_if p xs + count_if p ys
count_if-append p [] ys = omega arith
count_if-append p (x ∷ xs) ys = omega (arith, count_if-append p xs ys)

take-append-drop : (n : ℕ) (xs : List Text) → take n xs ++ drop n xs ≡ xs
take-append-drop zero xs = refl
take-append-drop (suc n) [] = refl
take-append-drop (suc n) (x ∷ xs) = ap (◌∷◌ x) (take-append-drop n xs)

pub length-drop : (n : ℕ) (xs : List Text) → length (drop n xs) ≡ length xs - n
length-drop zero xs = omega arith
length-drop (suc n) [] = omega arith
length-drop (suc n) (x ∷ xs) = omega (arith, length-drop n xs)

pub count_if-split :
    (p : Text → Bool) (n : ℕ) (xs : List Text)
    → count_if p xs ≡ count_if p (take n xs) + count_if p (drop n xs)
count_if-split p n xs =
    ap (count_if p) (sym (take-append-drop n xs)) ∙ count_if-append p (take n xs) (drop n xs)

count_if-eq :
    (p q : Text → Bool) (xs : List Text) → ((x : Text) → p x ≡ q x) → count_if p xs ≡ count_if q xs
count_if-eq p q [] h = refl
count_if-eq p q (x ∷ xs) h = ground (arith, h x, count_if-eq p q xs h)

count_if-le-length : (p : Text → Bool) (xs : List Text) → count_if p xs ≤ length xs
count_if-le-length p [] = omega arith
count_if-le-length p (x ∷ xs) = ground (arith, count_if-le-length p xs)

-- The names without one of them.
unfoldable pub without : Text → List Text → List Text
without v [] = []
without v (x ∷ xs) = if str_eq x v then without v xs else x ∷ without v xs

unfoldable pub without_all : List Text → List Text → List Text
without_all [] xs = xs
without_all (v ∷ vs) xs = without_all vs (without v xs)

pub entries-unlink :
    (suffix v : Text) (dir : Dir)
    → entries suffix (names (unlink v dir)) ≡ without v (entries suffix (names dir))
unfolding entries unlink without
entries-unlink suffix v [] = refl
entries-unlink suffix v ((name, content) ∷ dir) = ground (arith, entries-unlink suffix v dir)

-- Every name of the list can be unlinked.
abbrev pub CanUnlink : (Text → Bool) → List Text → Type 0
CanUnlink unlinks vs = All (λ v. unlinks v ≡ true) vs

pub entries-unlink_all :
    (unlinks : Text → Bool) (suffix : Text) (vs : List Text) (dir : Dir)
    → CanUnlink unlinks vs
    → entries suffix (names (unlink_all unlinks vs dir))
      ≡ without_all vs (entries suffix (names dir))
unfolding unlink_all without_all
entries-unlink_all unlinks suffix [] dir can = refl
entries-unlink_all unlinks suffix (v ∷ vs) dir can = rw can.0 (
    entries-unlink_all unlinks suffix vs (unlink v dir) can.1
    ∙ ap (without_all vs) (entries-unlink suffix v dir))

pub length-without : (v : Text) (xs : List Text) → length (without v xs) ≤ length xs
unfolding without
length-without v [] = omega arith
length-without v (x ∷ xs) = ground (arith, length-without v xs)

-- Removing names adds no file with the suffix.
pub length-entries-unlink_all :
    (unlinks : Text → Bool) (suffix : Text) (vs : List Text) (dir : Dir)
    → length (entries suffix (names (unlink_all unlinks vs dir)))
      ≤ length (entries suffix (names dir))
unfolding unlink_all
length-entries-unlink_all unlinks suffix [] dir = omega arith
length-entries-unlink_all unlinks suffix (v ∷ vs) dir = ground (
  arith,
  length-entries-unlink_all unlinks suffix vs (unlink v dir),
  length-entries-unlink_all unlinks suffix vs dir,
  ap length (entries-unlink suffix v dir),
  length-without v (entries suffix (names dir)),
)

count_if-without :
    (p : Text → Bool) (v : Text) (xs : List Text)
    → count_if p (without v xs) ≡ count_if (λ x. p x && not (str_eq x v)) xs
unfolding without
count_if-without p v [] = refl
count_if-without p v (x ∷ xs) = ground (arith, count_if-without p v xs)

count_if-without_all :
    (p : Text → Bool) (vs xs : List Text)
    → count_if p (without_all vs xs) ≡ count_if (λ x. p x && (occurs x vs == 0)) xs
unfolding without_all
count_if-without_all p [] xs = count_if-eq p (λ x. p x && true) xs (λ x. ground arith)
count_if-without_all p (v ∷ vs) xs =
    count_if-without_all p vs (without v xs)
    ∙ count_if-without (λ x. p x && (occurs x vs == 0)) v xs
    ∙ count_if-eq _ _ xs (λ x. ground arith)

length-count_if : (xs : List Text) → count_if (λ x. true) xs ≡ length xs
length-count_if [] = refl
length-count_if (x ∷ xs) = omega (arith, length-count_if xs)

-- What is left has as many names as do not occur among the victims.
pub length-without_all :
    (vs xs : List Text) → length (without_all vs xs) ≡ count_if (λ x. occurs x vs == 0) xs
length-without_all vs xs =
    sym (length-count_if (without_all vs xs))
    ∙ count_if-without_all (λ x. true) vs xs
    ∙ count_if-eq _ _ xs (λ x. refl)

pub occurs_self : (x : Text) (xs : List Text) → 0 < occurs x (x ∷ xs)
occurs_self x xs = ground (arith, (str_eq_iff x x).1 refl)

-- No name occurs twice, as in every directory.
abbrev pub Distinct : List Text → Type 0
Distinct xs = (x : Text) → occurs x xs ≤ 1
