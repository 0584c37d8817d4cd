-- ===== src/Crash/Spool/Order.antt =====
-- `str_le` is the order of strcmp: total and transitive; and what sorting keeps.
use singularity_shell.Base.{
  ℕ, suc, ◌+◌, ◌≡◌, refl, ap, ◌∙◌, inl, inr, Bool, true, false, List, [], ◌∷◌, arith, if◌then◌else◌,
  length, All, Bool-cases,
}
use singularity_shell.CString.{Text}
use singularity_shell.Crash.Spool.{str_le, insert_entry, sort_entries}

pub str_le_refl : (a : Text) → str_le a a ≡ true
unfolding str_le
str_le_refl [] = refl
str_le_refl (x ∷ a) = ground (arith, str_le_refl a)

pub str_le_total : (a b : Text) → str_le a b ≡ false → str_le b a ≡ true
unfolding str_le
str_le_total [] b h = cc
str_le_total (x ∷ a) [] h = refl
str_le_total (x ∷ a) (y ∷ b) h = ground (arith, str_le_total a b)

pub str_le_trans : (a b c : Text) → str_le a b ≡ true → str_le b c ≡ true → str_le a c ≡ true
unfolding str_le
str_le_trans [] b c h k = refl
str_le_trans (x ∷ a) [] c h k = cc
str_le_trans (x ∷ a) (y ∷ b) [] h k = cc
str_le_trans (x ∷ a) (y ∷ b) (z ∷ c) h k = ground (arith, str_le_trans a b c)

-- Every name comes no later than those behind it.
abbrev pub IsSorted : List Text → Type 0
IsSorted [] = Unit
IsSorted (x ∷ xs) = All (λ y. str_le x y ≡ true) xs × IsSorted xs

All-le_trans :
    (a b : Text) (xs : List Text)
    → str_le a b ≡ true
    → All (λ y. str_le b y ≡ true) xs
    → All (λ y. str_le a y ≡ true) xs
All-le_trans a b [] h k = tt
All-le_trans a b (x ∷ xs) h k = (str_le_trans a b x h k.0, All-le_trans a b xs h k.1)

All-insert_entry :
    (P : Text → Type 0) (x : Text) (xs : List Text) → P x → All P xs → All P (insert_entry x xs)
unfolding insert_entry
All-insert_entry P x [] h k = (h, tt)
All-insert_entry P x (y ∷ ys) h k = elim (Bool-cases (str_le x y)) [
  | inl e ↦ rw e (h, k)
  | inr e ↦ rw e (k.0, All-insert_entry P x ys h k.1)
]

insert_entry-IsSorted : (x : Text) (xs : List Text) → IsSorted xs → IsSorted (insert_entry x xs)
unfolding insert_entry
insert_entry-IsSorted x [] s = (tt, tt)
insert_entry-IsSorted x (y ∷ ys) s = elim (Bool-cases (str_le x y)) [
  | inl e ↦ rw e ((e, All-le_trans x y ys e s.0), s)
  | inr e ↦ rw e (
    All-insert_entry (λ z. str_le y z ≡ true) x ys (str_le_total x y e) s.0,
    insert_entry-IsSorted x ys s.1,
  )
]

pub sort_entries-IsSorted : (xs : List Text) → IsSorted (sort_entries xs)
unfolding sort_entries
sort_entries-IsSorted [] = tt
sort_entries-IsSorted (x ∷ xs) =
    insert_entry-IsSorted x (sort_entries xs) (sort_entries-IsSorted xs)

-- The names that pass a test are as many after sorting as before.
abbrev pub count_if : (Text → Bool) → List Text → ℕ
count_if p [] = 0
count_if p (x ∷ xs) = (if p x then 1 else 0) + count_if p xs

count_if-insert_entry :
    (p : Text → Bool) (x : Text) (xs : List Text)
    → count_if p (insert_entry x xs) ≡ count_if p (x ∷ xs)
unfolding insert_entry
count_if-insert_entry p x [] = refl
count_if-insert_entry p x (y ∷ ys) = ground (arith, count_if-insert_entry p x ys)

pub count_if-sort_entries :
    (p : Text → Bool) (xs : List Text) → count_if p (sort_entries xs) ≡ count_if p xs
unfolding sort_entries
count_if-sort_entries p [] = refl
count_if-sort_entries p (x ∷ xs) =
    count_if-insert_entry p x (sort_entries xs)
    ∙ ap (λ n. (if p x then 1 else 0) + n) (count_if-sort_entries p xs)

length-insert_entry : (x : Text) (xs : List Text) → length (insert_entry x xs) ≡ suc (length xs)
unfolding insert_entry
length-insert_entry x [] = refl
length-insert_entry x (y ∷ ys) = ground (arith, length-insert_entry x ys)

pub length-sort_entries : (xs : List Text) → length (sort_entries xs) ≡ length xs
unfolding sort_entries
length-sort_entries [] = refl
length-sort_entries (x ∷ xs) =
    length-insert_entry x (sort_entries xs) ∙ ap suc (length-sort_entries xs)
