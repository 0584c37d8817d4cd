-- ===== src/Crash/Spool/Prune.antt =====
-- What `prune` removes and what it keeps.
use singularity_shell.Base.{
  ◌||◌, ℕ, zero, suc, ◌-◌, ◌≤◌, ◌<◌, min, ◌≡◌, refl, ap, ◌∙◌, inl, inr, Bool, true, false, not,
  none, List, [], ◌∷◌, arith, ltb, ◌==◌, if◌then◌else◌, length, take, drop, All, Bool-cases, ltb→lt,
}
use singularity_shell.CString.{Text, str_eq}
use singularity_shell.CString.Split.{str_eq_iff}
use singularity_shell.Int.{pos}
use singularity_shell.Crash.Spool.{
  Dir, names, read_file, unlink, unlink_all, is_entry, entries, victims, sort_entries, str_le,
  prune, as_size,
}
use singularity_shell.Crash.Spool.Order.{
  IsSorted, sort_entries-IsSorted, count_if, count_if-sort_entries, length-sort_entries,
}
use singularity_shell.Crash.Spool.Removed.{
  occurs, length-drop, count_if-split, without_all, CanUnlink, entries-unlink_all,
  length-without_all, occurs_self, Distinct,
}

none_outside :
    (vs xs : List Text)
    → ((x : Text) → occurs x vs ≡ 0 → occurs x xs ≡ 0)
    → count_if (λ x. occurs x vs == 0) xs ≡ 0
none_outside vs [] h = refl
none_outside vs (x ∷ xs) h =
    ground (arith, h x, occurs_self x xs, none_outside vs xs (λ y e. omega (arith, h y e)))

all_outside :
    (vs xs : List Text)
    → ((x : Text) → 0 < occurs x xs → occurs x vs ≡ 0)
    → count_if (λ x. occurs x vs == 0) xs ≡ length xs
all_outside vs [] h = refl
all_outside vs (x ∷ xs) h =
    ground (arith, h x (occurs_self x xs), all_outside vs xs (λ y e. h y (omega arith)))

length-without_victims :
    (keep : ℕ) (xs : List Text)
    → Distinct xs
    → length (without_all (victims keep xs) xs) ≡ min keep (length xs)
unfolding victims
length-without_victims keep xs d = elim (Bool-cases (ltb keep (length xs))) [
  | inl more ↦
      let k = length xs - keep in
      let s = sort_entries xs in
      let v = take k s in
      let w = drop k s in
      rw more (
        omega (
          arith,
          length-without_all v xs,
          count_if-sort_entries (λ x. occurs x v == 0) xs,
          count_if-split (λ x. occurs x v == 0) k s,
          none_outside v v (λ x e. e),
          all_outside v w (λ x h.
              omega
                (arith, d x, count_if-sort_entries (str_eq x) xs, count_if-split (str_eq x) k s)),
          length-drop k s,
          length-sort_entries xs,
          ltb→lt keep (length xs) more,
        ))
  | inr few ↦ rw few (unfold without_all in ground arith)
]

pub read_file-unlink :
    (name v : Text) (dir : Dir)
    → read_file name (unlink v dir) ≡ (if str_eq name v then none else read_file name dir)
unfolding read_file unlink
read_file-unlink name v [] = ground arith
read_file-unlink name v ((other, content) ∷ dir) = ground (
  arith,
  read_file-unlink name v dir,
  str_eq_iff other v,
  str_eq_iff other name,
  str_eq_iff name v,
)

read_file-unlink_all :
    (unlinks : Text → Bool) (name : Text) (vs : List Text) (dir : Dir)
    → read_file name (unlink_all unlinks vs dir)
      ≡ (if occurs name vs == 0 || not (unlinks name) then read_file name dir else none)
unfolding unlink_all
read_file-unlink_all unlinks name [] dir = refl
read_file-unlink_all unlinks name (v ∷ vs) dir = ground (
  arith,
  read_file-unlink_all unlinks name vs (unlink v dir),
  read_file-unlink_all unlinks name vs dir,
  read_file-unlink name v dir,
  λ (e : str_eq name v ≡ true). ap unlinks ((str_eq_iff name v).0 e),
)

occurs-ne : (x y : Text) (xs : List Text) → str_eq x y ≡ false → occurs x (y ∷ xs) ≡ occurs x xs
occurs-ne x y xs h = ground arith

-- What does not pass the test of the entries is among neither them nor the victims.
occurs-entries :
    (suffix name : Text) (xs : List Text)
    → is_entry suffix name ≡ false
    → occurs name (entries suffix xs) ≡ 0
unfolding entries
occurs-entries suffix name [] h = refl
occurs-entries suffix name (x ∷ xs) h =
    ground (arith, occurs-entries suffix name xs h, str_eq_iff name x)

occurs-victims-le :
    (keep : ℕ) (x : Text) (xs : List Text) → occurs x (victims keep xs) ≤ occurs x xs
unfolding victims
occurs-victims-le keep x xs = ground (
  arith,
  count_if-sort_entries (str_eq x) xs,
  count_if-split (str_eq x) (length xs - keep) (sort_entries xs),
)

All-occurs : (P : Text → Type 0) (x : Text) (xs : List Text) → All P xs → 0 < occurs x xs → P x
All-occurs P x [] h k = absurd (omega arith)
All-occurs P x (y ∷ ys) h k = elim (Bool-cases (str_eq x y)) [
  | inl e ↦ rw ((str_eq_iff x y).0 e) h.0
  | inr e ↦ All-occurs P x ys h.1 (rw (occurs-ne x y ys e) at k)
]

sorted_front :
    (k : ℕ) (x : Text) (xs : List Text)
    → IsSorted xs
    → 0 < occurs x (drop k xs)
    → All (λ v. str_le v x ≡ true) (take k xs)
sorted_front zero x xs s h = tt
sorted_front (suc k) x [] s h = tt
sorted_front (suc k) x (y ∷ ys) s h = (
  All-occurs (λ z. str_le y z ≡ true) x ys s.0 (omega (arith, count_if-split (str_eq x) k ys)),
  sorted_front k x ys s.1 h,
)

newest_kept :
    (keep : ℕ) (x : Text) (xs : List Text)
    → 0 < occurs x xs
    → occurs x (victims keep xs) ≡ 0
    → All (λ v. str_le v x ≡ true) (victims keep xs)
unfolding victims
newest_kept keep x xs h e = elim (Bool-cases (ltb keep (length xs))) [
  | inl more ↦
      let k = length xs - keep in
      let none_before : occurs x (take k (sort_entries xs)) ≡ 0 = ground arith in
      rw more (
        sorted_front k x (sort_entries xs) (sort_entries-IsSorted xs) (
          omega (
            arith,
            none_before,
            count_if-sort_entries (str_eq x) xs,
            count_if-split (str_eq x) k (sort_entries xs),
          )))
  | inr few ↦ rw few tt
]

-- Where the directory can be listed, no name stands in it twice and the files that are chosen for it can
-- be unlinked, of the files with the suffix as many are left as shall be kept, or all if there are no
-- more.
pub length-entries-prune :
    (unlinks : Text → Bool) (suffix : Text) (keep : ℕ) (dir : Dir)
    → Distinct (entries suffix (names dir))
    → CanUnlink unlinks (victims keep (entries suffix (names dir)))
    → length (entries suffix (names (prune unlinks true suffix (pos keep) dir)))
      ≡ min keep (length (entries suffix (names dir)))
unfolding prune as_size
length-entries-prune unlinks suffix keep dir d can =
    ap length
      (entries-unlink_all unlinks suffix (victims keep (entries suffix (names dir))) dir can)
    ∙ length-without_victims keep (entries suffix (names dir)) d

-- Where the directory can be listed: a file is left with its content exactly if it is not among the
-- chosen ones or cannot be unlinked; a file without the suffix always is; and a file with the suffix
-- that is not chosen has a name that comes no earlier than any chosen one.
pub prune_keeps :
    (unlinks : Text → Bool) (suffix : Text) (keep : ℕ) (dir : Dir) (name : Text)
    → let chosen = victims keep (entries suffix (names dir)) in
      let after = prune unlinks true suffix (pos keep) dir in
      (read_file name after
        ≡ (if occurs name chosen == 0 || not (unlinks name) then read_file name dir else none))
      × (is_entry suffix name ≡ false → read_file name after ≡ read_file name dir)
      × (0 < occurs name (entries suffix (names dir))
          → occurs name chosen ≡ 0
          → All (λ v. str_le v name ≡ true) chosen)
unfolding prune as_size
prune_keeps unlinks suffix keep dir name =
    let chosen = victims keep (entries suffix (names dir)) in
    (
      read_file-unlink_all unlinks name chosen dir,
      λ other. ground (
        arith,
        read_file-unlink_all unlinks name chosen dir,
        occurs-entries suffix name (names dir) other,
        occurs-victims-le keep name (entries suffix (names dir)),
      ),
      newest_kept keep name (entries suffix (names dir)),
    )
