-- ===== src/Crash/Files/Atomic.antt =====
-- Cores and reports appear in the spool complete or not at all.
use singularity_shell.Base.{
  take, ℕ, ◌+◌, ◌≤◌, ◌<◌, ◌≡◌, refl, ap, ◌∙◌, ◌≢◌, inl, inr, Bool, true, false, not, ◌&&◌, ◌||◌,
  some, List, [], ◌∷◌, ◌++◌, append-nil, append_assoc, arith, ltb, ◌==◌, length, drop,
  length-append, Bool-cases,
}
use mathlib.Core.Path.{subst}
use singularity_shell.CString.{Text}
use singularity_shell.Process.{Written, wrote, interrupted, failed, done, Outcome-cases}
use singularity_shell.Crash.Spool.{Dir, read_file, has_file}
use singularity_shell.Crash.Files.{
  Received, chunk, read_interrupted, read_failed, FileEnv, temporary, write_all, Copied, copy_core,
  rename_file, finish_file, write_core, write_report,
}
use singularity_shell.Firewall.Command.Send.{length-drop, Steady, taken}
use singularity_shell.Crash.Files.Shown.{
  stream, same_OnlyAt, Appears, finish_file-Appears, write_all-content,
}

-- The loop of `write_core`, when it ends well, has put all of the input into the file, within the limit.
copy_core-stream :
    (max_bytes total : ℕ) (content : Text) (input : List Received) (answers : List Written)
    (c : Copied)
    → total ≤ max_bytes
    → copy_core max_bytes total content input answers ≡ done c
    → c.ok ≡ true
    → (c.content ≡ content ++ stream input)
      × (c.total ≡ total + length (stream input))
      × (c.total ≤ max_bytes)
unfolding copy_core
copy_core-stream max_bytes total content [] answers c m h k = absurd (ground arith)
copy_core-stream max_bytes total content (read_interrupted ∷ input) answers c m h k =
    copy_core-stream max_bytes total content input answers c m h k
copy_core-stream max_bytes total content (read_failed ∷ input) answers c m h k =
    absurd (ground arith)
copy_core-stream max_bytes total content (chunk [] ∷ input) answers c m h k =
    ground (arith, append-nil content)
copy_core-stream max_bytes total content (chunk (b ∷ s) ∷ input) answers c m h k =
    elim (Outcome-cases (write_all content answers (b ∷ s))) [
      | inl ((true, content', rest), e) ↦ ground (
        arith,
        copy_core-stream max_bytes (total + length (b ∷ s)) content' input rest c,
        write_all-content content answers (b ∷ s) content' rest e,
        append_assoc content (b ∷ s) (stream input),
        length-append (b ∷ s) (stream input),
      )
      | inl ((false, content', rest), e) ↦ absurd (ground arith)
      | inr (inl e) ↦ absurd (ground arith)
      | inr (inr e) ↦ absurd (ground arith)
    ]

finished-Appears :
    (env : FileEnv) (name : Text) (max_bytes : ℕ) (input : List Received) (answers : List Written)
    (dir dir' : Dir) (kept : Bool) (c : Copied)
    → has_file (temporary name) dir ≡ false
    → copy_core max_bytes 0 [] input answers ≡ done c
    → (drop_it : Bool) → (drop_it ≡ false → (c.ok ≡ true) × (c.total ≢ 0))
    → finish_file drop_it env (temporary name) name c.content dir ≡ (kept, dir')
    → Appears env.unlinks (temporary name) name (stream input) dir (kept, dir')
      × (kept ≡ true → (0 < length (stream input)) × (length (stream input) ≤ max_bytes))
unfolding finish_file
finished-Appears env name max_bytes input answers dir dir' false c free w drop_it good same = (
  subst (Appears env.unlinks (temporary name) name c.content dir) same
      (finish_file-Appears drop_it env (temporary name) name c.content dir free),
  λ k. absurd (ground arith),
)
finished-Appears env name max_bytes input answers dir dir' true c free w drop_it good same =
    let kept : drop_it ≡ false = ground arith in
    let all_of_it = copy_core-stream max_bytes 0 [] input answers c (omega arith) w (good kept).0 in
    let file =
      subst (Appears env.unlinks (temporary name) name c.content dir) same
        (finish_file-Appears drop_it env (temporary name) name c.content dir free) in
    ((file.0 ∙ ap some all_of_it.0, file.1), λ k. omega (arith, all_of_it, (good kept).1))

-- `write_core`, when it returns: either the core stands under its name with all that came on standard
-- input, not empty and within the limit, and every other file as it was; or, where it could not be kept,
-- every file but the temporary one is as it was, and the temporary one too where it can be unlinked.
pub write_core-Appears :
    (env : FileEnv) (name : Text) (max_bytes : ℕ) (input : List Received) (answers : List Written)
    (dir dir' : Dir) (kept : Bool)
    → write_core env name max_bytes input answers dir ≡ done (kept, dir')
    → Appears env.unlinks (temporary name) name (stream input) dir (kept, dir')
      × (kept ≡ true → (0 < length (stream input)) × (length (stream input) ≤ max_bytes))
unfolding write_core
write_core-Appears env name max_bytes input answers dir dir' kept h =
    elim (Bool-cases (not env.opens || has_file (temporary name) dir)) [
      | inl e ↦
          let same : (false, dir) ≡ (kept, dir') = ground arith in
          (
            subst (Appears env.unlinks (temporary name) name (stream input) dir) same
                (same_OnlyAt (temporary name) dir, λ _. refl),
            λ (k : kept ≡ true). absurd (ground arith),
          )
      | inr e ↦
          let free : has_file (temporary name) dir ≡ false = ground arith in
          elim (Outcome-cases (copy_core max_bytes 0 [] input answers)) [
            | inl (c, w) ↦
                let drop_it =
                  not c.ok || (ltb 0 c.total && env.is_root && not env.chowns) || c.total == 0 in
                let same : finish_file drop_it env (temporary name) name c.content dir
                    ≡ (kept, dir') =
                  ground arith in
                finished-Appears env name max_bytes input answers dir dir' kept c free w drop_it
                  (λ ok. ground arith) same
            | inr (inl w) ↦ absurd (ground arith)
            | inr (inr w) ↦ absurd (ground arith)
          ]
    ]

report-finished :
    (env : FileEnv) (name content : Text) (answers : List Written) (dir dir' : Dir) (kept ok : Bool)
    (bytes : Text) (rest : List Written)
    → has_file (temporary name) dir ≡ false
    → write_all [] answers content ≡ done (ok, bytes, rest)
    → finish_file (not ok || (env.is_root && not env.chowns)) env (temporary name) name bytes dir
      ≡ (kept, dir')
    → Appears env.unlinks (temporary name) name content dir (kept, dir')
unfolding finish_file
report-finished env name content answers dir dir' false false bytes rest free w same =
    let left = finish_file-Appears true env (temporary name) name bytes dir free in
    subst (Appears env.unlinks (temporary name) name bytes dir) same left
report-finished env name content answers dir dir' true false bytes rest free w same =
    absurd (ground arith)
report-finished env name content answers dir dir' kept true bytes rest free w same =
    let file = subst (Appears env.unlinks (temporary name) name bytes dir) same (
      finish_file-Appears (env.is_root && not env.chowns) env (temporary name) name bytes dir
        free) in
    subst (λ b. Appears env.unlinks (temporary name) name b dir (kept, dir'))
      (write_all-content [] answers content bytes rest w) file

-- `write_report`, when it returns: either the report stands under its name with the whole text, and
-- every other file as it was; or every file but the temporary one is as it was, and that one too where
-- it can be unlinked.
pub write_report-Appears :
    (env : FileEnv) (name content : Text) (answers : List Written) (dir dir' : Dir) (kept : Bool)
    → write_report env name content answers dir ≡ done (kept, dir')
    → Appears env.unlinks (temporary name) name content dir (kept, dir')
unfolding write_report
write_report-Appears env name content answers dir dir' kept h =
    elim (Bool-cases (not env.opens || has_file (temporary name) dir)) [
      | inl e ↦
          let same : (false, dir) ≡ (kept, dir') = ground arith in
          subst (Appears env.unlinks (temporary name) name content dir) same
            (same_OnlyAt (temporary name) dir, λ _. refl)
      | inr e ↦
          let free : has_file (temporary name) dir ≡ false = ground arith in
          elim (Outcome-cases (write_all [] answers content)) [
            | inl ((ok, bytes, rest), w) ↦
                let drop_it = not ok || (env.is_root && not env.chowns) in
                let same : finish_file drop_it env (temporary name) name bytes dir ≡ (kept, dir') =
                  ground arith in
                report-finished env name content answers dir dir' kept ok bytes rest free w same
            | inr (inl w) ↦ absurd (ground arith)
            | inr (inr w) ↦ absurd (ground arith)
          ]
    ]

-- A file that takes the bytes of the text is written completely.
write_all_total :
    (content : Text) (answers : List Written) (s : Text)
    → Steady answers
    → length s ≤ taken answers
    → (rest : List Written) × (content' : Text) × (write_all content answers s
        ≡ done (true, content', rest))
unfolding write_all
write_all_total content answers [] p h = (answers, content, ground arith)
write_all_total content [] (c ∷ s) p h = absurd (omega arith)
write_all_total content (interrupted ∷ answers) (c ∷ s) p h =
    write_all_total content answers (c ∷ s) p h
write_all_total content (failed ∷ answers) (c ∷ s) p h = absurd p
write_all_total content (wrote n ∷ answers) (c ∷ s) p h =
    write_all_total (content ++ take n (c ∷ s)) answers (drop n (c ∷ s)) p.1
      (omega (arith, length-drop n (c ∷ s)))

-- Where the temporary name is free, the calls to open, rename and, for root, chown succeed, and the
-- writes answer with counts above zero and interruptions alone and take at least the bytes of the
-- report, the report is written and stands under its name.
pub write_report_succeeds :
    (env : FileEnv) (name content : Text) (answers : List Written) (dir : Dir)
    → env.opens ≡ true
    → has_file (temporary name) dir ≡ false
    → (env.is_root ≡ true → env.chowns ≡ true)
    → env.renames ≡ true
    → Steady answers
    → length content ≤ taken answers
    → (dir' : Dir) × (write_report env name content answers dir ≡ done (true, dir'))
      × (read_file name dir' ≡ some content)
unfolding write_report finish_file
write_report_succeeds env name content answers dir o t c r p h =
    let (rest, bytes, e) = write_all_total [] answers content p h in
    let dir' = rename_file (temporary name) name bytes ((temporary name, bytes) ∷ dir) in
    let returns : write_report env name content answers dir ≡ done (true, dir') = ground arith in
    (dir', returns, (write_report-Appears env name content answers dir dir' true returns).0)
