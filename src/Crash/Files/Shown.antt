-- ===== src/Crash/Files/Shown.antt =====
-- src/services/crash-handler/main.c: what a written file leaves in the directory, and what the write loop
-- puts into it.
use singularity_shell.Base.{
  suc, take, ℕ, zero, ◌+◌, ◌≤◌, ◌≡◌, refl, ap, ◌∙◌, inl, inr, Bool, true, false, not, ◌||◌, none,
  some, List, [], ◌∷◌, ◌++◌, append-nil, append_assoc, arith, if◌then◌else◌, length, drop,
  Bool-cases,
}
use singularity_shell.CString.{Text, str_eq}
use singularity_shell.CString.Split.{str_eq_iff}
use singularity_shell.Process.{Written, wrote, interrupted, failed, done}
use singularity_shell.Crash.Spool.{is_entry, names, entries, Dir, read_file, unlink, has_file}
use singularity_shell.Crash.Spool.Prune.{read_file-unlink}
use singularity_shell.Crash.Spool.Removed.{length-without, entries-unlink}
use singularity_shell.Crash.Files.{
  Received, chunk, read_interrupted, read_failed, FileEnv, write_all, rename_file, finish_file,
}

-- What standard input gives before its end or an error.
abbrev pub stream : List Received → Text
stream [] = []
stream (read_interrupted ∷ input) = stream input
stream (read_failed ∷ input) = []
stream (chunk [] ∷ input) = []
stream (chunk (c ∷ s) ∷ input) = (c ∷ s) ++ stream input

unlink_missing : (name : Text) (dir : Dir) → has_file name dir ≡ false → unlink name dir ≡ dir
unfolding unlink has_file
unlink_missing name [] h = refl
unlink_missing name ((other, content) ∷ dir) h = ground (arith, unlink_missing name dir)

read_file_missing :
    (name : Text) (dir : Dir) → has_file name dir ≡ false → read_file name dir ≡ none
unfolding read_file has_file
read_file_missing name [] h = refl
read_file_missing name ((other, content) ∷ dir) h = ground (arith, read_file_missing name dir)

-- Every file but the named one is as it was, and of a kind of files one more is there at most, if the
-- name is of that kind.
abbrev pub OnlyAt : Text → Dir → Dir → Type 0
OnlyAt name dir dir' =
    ((other : Text) → str_eq other name ≡ false → read_file other dir' ≡ read_file other dir)
    × ((suffix : Text)
        → length (entries suffix (names dir'))
          ≤ (if is_entry suffix name then 1 else 0) + length (entries suffix (names dir)))

pub same_OnlyAt : (name : Text) (dir : Dir) → OnlyAt name dir dir
same_OnlyAt name dir = (λ other ne. refl, λ suffix. omega arith)

-- What a written file leaves behind in the directory: itself, or, if it could not be written, at most
-- its temporary file, and that only where it cannot be unlinked.
abbrev pub Appears : Bool → Text → Text → Text → Dir → Bool × Dir → Type 0
Appears unlinks tmp name content dir (false, dir') =
    OnlyAt tmp dir dir' × (unlinks ≡ true → dir' ≡ dir)
Appears unlinks tmp name content dir (true, dir') =
    (read_file name dir' ≡ some content) × OnlyAt name dir dir'

unlink_written :
    (tmp content : Text) (dir : Dir)
    → has_file tmp dir ≡ false
    → unlink tmp ((tmp, content) ∷ dir) ≡ dir
unfolding unlink
unlink_written tmp content dir h =
    ground (arith, (str_eq_iff tmp tmp).1 refl, unlink_missing tmp dir)

length-entries-add :
    (suffix name content : Text) (dir : Dir)
    → length (entries suffix (names ((name, content) ∷ unlink name dir)))
      ≤ (if is_entry suffix name then 1 else 0) + length (entries suffix (names dir))
unfolding entries
length-entries-add suffix name content dir = ground (
  arith,
  ap length (entries-unlink suffix name dir),
  length-without name (entries suffix (names dir)),
)

left_OnlyAt :
    (tmp content : Text) (dir : Dir)
    → has_file tmp dir ≡ false
    → OnlyAt tmp dir ((tmp, content) ∷ dir)
left_OnlyAt tmp content dir h = (
  λ other ne. unfold read_file in ground (arith, str_eq_iff tmp other, str_eq_iff other tmp),
  λ suffix. unfold entries in ground arith,
)

renamed-Appears :
    (unlinks : Bool) (tmp name content : Text) (dir : Dir)
    → has_file tmp dir ≡ false
    → Appears unlinks tmp name content dir
        (true, rename_file tmp name content ((tmp, content) ∷ dir))
unfolding rename_file
renamed-Appears unlinks tmp name content dir h = rw (unlink_written tmp content dir h) (
    (
      unfold read_file in ground (arith, (str_eq_iff name name).1 refl),
      (
        λ other ne.
            unfold read_file in
            ground (
              arith,
              read_file-unlink other name dir,
              str_eq_iff other name,
              str_eq_iff name other,
            ),
        λ suffix. length-entries-add suffix name content dir,
      ),
    ))

dropped-Appears :
    (unlinks : Bool) (tmp name content : Text) (dir : Dir)
    → has_file tmp dir ≡ false
    → Appears unlinks tmp name content dir
        (false, if unlinks then unlink tmp ((tmp, content) ∷ dir) else (tmp, content) ∷ dir)
dropped-Appears true tmp name content dir h =
    rw (unlink_written tmp content dir h) (same_OnlyAt tmp dir, λ _. refl)
dropped-Appears false tmp name content dir h =
    (left_OnlyAt tmp content dir h, λ k. absurd (ground arith))

pub finish_file-Appears :
    (drop_it : Bool) (env : FileEnv) (tmp name content : Text) (dir : Dir)
    → has_file tmp dir ≡ false
    → Appears env.unlinks tmp name content dir (finish_file drop_it env tmp name content dir)
unfolding finish_file
finish_file-Appears drop_it env tmp name content dir h =
    elim (Bool-cases (drop_it || not env.renames)) [
      | inl e ↦ rw e (dropped-Appears env.unlinks tmp name content dir h)
      | inr e ↦ rw e (renamed-Appears env.unlinks tmp name content dir h)
    ]

take-append-drop : (n : ℕ) (s : Text) → take n s ++ drop n s ≡ s
take-append-drop zero s = refl
take-append-drop (suc n) [] = refl
take-append-drop (suc n) (c ∷ s) = ap (◌∷◌ c) (take-append-drop n s)

-- A write loop that ends well has put the whole text behind what the file held.
pub write_all-content :
    (content : Text) (answers : List Written) (s content' : Text) (rest : List Written)
    → write_all content answers s ≡ done (true, content', rest)
    → content' ≡ content ++ s
unfolding write_all
write_all-content content answers [] content' rest h = ground (arith, append-nil content)
write_all-content content [] (c ∷ s) content' rest h = absurd (ground arith)
write_all-content content (interrupted ∷ answers) (c ∷ s) content' rest h =
    write_all-content content answers (c ∷ s) content' rest h
write_all-content content (failed ∷ answers) (c ∷ s) content' rest h = absurd (ground arith)
write_all-content content (wrote n ∷ answers) (c ∷ s) content' rest h =
    write_all-content (content ++ take n (c ∷ s)) answers (drop n (c ∷ s)) content' rest h
    ∙ append_assoc content (take n (c ∷ s)) (drop n (c ∷ s))
    ∙ ap (◌++◌ content) (take-append-drop n (c ∷ s))
