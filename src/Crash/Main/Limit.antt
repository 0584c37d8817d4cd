-- ===== src/Crash/Main/Limit.antt =====
-- How many reports a run leaves in the spool.
use singularity_shell.Base.{
  ◌≢◌, ℕ, zero, suc, ◌+◌, ◌-◌, ◌≤◌, ◌<◌, ◌≡◌, refl, ap, ◌∙◌, inl, inr, Bool, true, false, List, [],
  ◌∷◌, ◌++◌, arith, length, drop, length-append, length-take, take_of_length-le, Bool-cases,
}
use singularity_shell.CString.Split.{str_eq_iff}
use singularity_shell.CString.{Text, codes, copy_into}
use singularity_shell.CString.Numbers.{print_long, print_padded}
use singularity_shell.Int.{ℤ, pos}
use singularity_shell.Process.{done, Outcome-cases}
use singularity_shell.Crash.Arguments.{Crashed}
use singularity_shell.Crash.Config.{Config}
use singularity_shell.Crash.Spool.{Dir, names, entries, is_entry, prune, as_size, victims}
use singularity_shell.Crash.Spool.Prune.{length-entries-prune}
use singularity_shell.Crash.Spool.Removed.{CanUnlink, Distinct, length-entries-unlink_all}
use singularity_shell.Crash.Files.{temporary, write_core, write_report}
use singularity_shell.Crash.Files.Atomic.{write_core-Appears, write_report-Appears}
use singularity_shell.Crash.Main.{
  Env, Result, base_name, core_limit, keep_core_file, core_file_name, core_step, finish,
  report_name, report_of, report_step, pred_ℤ, record_crash,
}
use singularity_shell.Crash.Main.Run.{pruned}

-- The last byte of a text.
last : ℕ → Text → ℕ
last d [] = d
last d (x ∷ xs) = last x xs

last-drop : (d n : ℕ) (s : Text) → n < length s → last d (drop n s) ≡ last d s
unfolding last
last-drop d zero s h = refl
last-drop d (suc n) [] h = absurd (omega arith)
last-drop d (suc n) (x ∷ s) h = last-drop d n s (omega arith) ∙ last_default d x s (omega arith)
  where
    last_default : (a b : ℕ) (s : Text) → 0 < length s → last a s ≡ last b (b ∷ s)
    last_default a b [] h = absurd (omega arith)
    last_default a b (y ∷ s) h = refl

last-append : (d : ℕ) (s : Text) (c : ℕ) (t : Text) → last d (s ++ c ∷ t) ≡ last c t
unfolding last
last-append d [] c t = refl
last-append d (x ∷ s) c t = last-append x s c t

-- A name that ends in another letter is no `.crash` file.
ending-not-entry :
    (s : Text) (c : ℕ) (t : Text) → last c t ≢ b'h' → is_entry (codes ".crash") (s ++ c ∷ t) ≡ false
unfolding is_entry last
ending-not-entry s c t h = elim (Bool-cases (is_entry (codes ".crash") (s ++ c ∷ t))) [
  | inl e ↦
      let name = s ++ c ∷ t in
      absurd (
        ground (
          arith,
          str_eq_iff (drop (length name - 6) name) (codes ".crash"),
          last-drop 0 (length name - 6) name,
          last-append 0 s c t,
          length-append s (c ∷ t),
        ))
  | inr e ↦ e
]

core_file_name_lem : (c : Crashed) → core_file_name c ≡ base_name c ++ codes ".core"
unfolding core_file_name base_name copy_into
core_file_name_lem c = take_of_length-le 127 _ (
    omega (
      arith,
      length-append (base_name c) (codes ".core"),
      length-take 95 (print_padded c.time ++ b'-' ∷ print_long c.pid),
    ))

entries-prune-le :
    (unlinks : Text → Bool) (lists : Bool) (suffix other : Text) (keep : ℤ) (dir : Dir)
    → length (entries other (names (prune unlinks lists suffix keep dir)))
      ≤ length (entries other (names dir))
unfolding prune
entries-prune-le unlinks true suffix other keep dir =
    length-entries-unlink_all unlinks other (victims (as_size keep) (entries suffix (names dir)))
      dir
entries-prune-le unlinks false suffix other keep dir = omega arith

abbrev crash_files : Dir → ℕ
crash_files dir = length (entries (codes ".crash") (names dir))

core_ends : last b'.' (codes "core") ≢ b'h'
unfolding last
core_ends e = omega arith

temporary_ends : last b'.' (codes "tmp") ≢ b'h'
unfolding last
temporary_ends e = omega arith

-- Neither are the temporary files.
temporary-not-entry :
    (name : Text) → length name ≤ 295 → is_entry (codes ".crash") (temporary name) ≡ false
unfolding copy_into
temporary-not-entry name h =
    let whole : temporary name ≡ name ++ codes ".tmp" =
      take_of_length-le 299 _ (omega (arith, length-append name (codes ".tmp"))) in
    ap (is_entry (codes ".crash")) whole ∙ ending-not-entry name b'.' (codes "tmp") temporary_ends

length-core_file_name : (c : Crashed) → length (core_file_name c) ≤ 127
unfolding core_file_name copy_into
length-core_file_name c = omega (arith, length-take 127 (base_name c ++ codes ".core"))

length-report_name : (c : Crashed) → length (report_name c) ≤ 127
unfolding report_name copy_into
length-report_name c = omega (arith, length-take 127 (base_name c ++ codes ".crash"))

-- Keeping a core adds no `.crash` file.
core_step-entries :
    (env : Env) (cfg : Config) (c : Crashed) (dir : Dir) (out : Text × Dir)
    → core_step env cfg c dir ≡ done out
    → crash_files out.1 ≤ crash_files dir
unfolding core_step keep_core_file
core_step-entries env cfg c dir out h =
    elim (Outcome-cases (
      write_core env.core_file (core_file_name c) (core_limit cfg) env.input env.core_writes dir)) [
        | inl ((true, dir'), e) ↦
            let appears =
              (write_core-Appears env.core_file (core_file_name c) (core_limit cfg) env.input
                env.core_writes dir dir' true e).0 in
            ground (
              arith,
              appears.1.1 (codes ".crash"),
              ap (is_entry (codes ".crash")) (core_file_name_lem c),
              ending-not-entry (base_name c) b'.' (codes "core") core_ends,
              entries-prune-le env.unlinks env.lists (codes ".core") (codes ".crash") cfg.max_cores
                  dir',
            )
        | inl ((false, dir'), e) ↦
            let left =
              (write_core-Appears env.core_file (core_file_name c) (core_limit cfg) env.input
                env.core_writes dir dir' false e).0 in
            ground (
              arith,
              left.0.1 (codes ".crash"),
              temporary-not-entry (core_file_name c) (omega (arith, length-core_file_name c)),
            )
        | inr (inl e) ↦ ground arith
        | inr (inr e) ↦ ground arith
      ]

report_step-entries :
    (env : Env) (c : Crashed) (rest : List Text) (core_name : Text) (dir : Dir) (res : Result)
    → report_step env c rest (core_name, dir) ≡ done res
    → crash_files res.spool ≤ crash_files dir + 1
unfolding report_step finish
report_step-entries env c rest core_name dir res h =
    elim (Outcome-cases (
      write_report env.report_file (report_name c) (report_of env c rest core_name)
        env.report_writes dir)) [
          | inl ((true, dir'), e) ↦
              let added =
                (write_report-Appears env.report_file (report_name c)
                  (report_of env c rest core_name) env.report_writes dir dir' true e).1.1 in
              ground (arith, added (codes ".crash"))
          | inl ((false, dir'), e) ↦
              let left =
                write_report-Appears env.report_file (report_name c)
                  (report_of env c rest core_name) env.report_writes dir dir' false e in
              ground (
                arith,
                left.0.1 (codes ".crash"),
                temporary-not-entry (report_name c) (omega (arith, length-report_name c)),
              )
          | inr (inl e) ↦ absurd (ground arith)
          | inr (inr e) ↦ absurd (ground arith)
        ]

-- Recording a crash leaves at most `MaxReports` reports in the spool, however many there were, where the
-- number is at least one, the spool can be listed, no report name stands in it twice and the reports
-- chosen for removal can be unlinked.
pub record_crash-entries :
    (env : Env) (cfg : Config) (c : Crashed) (rest : List Text) (spool : Dir) (res : Result)
    (reports : ℕ)
    → cfg.max_reports ≡ pos (suc reports)
    → env.lists ≡ true
    → Distinct (entries (codes ".crash") (names spool))
    → CanUnlink env.unlinks (victims reports (entries (codes ".crash") (names spool)))
    → record_crash env cfg c rest spool ≡ done res
    → length (entries (codes ".crash") (names res.spool)) ≤ suc reports
unfolding record_crash pred_ℤ
record_crash-entries env cfg c rest spool res reports m l d can h =
    elim (Outcome-cases (core_step env cfg c (pruned env cfg spool))) [
      | inl ((core_name, dir), e) ↦ ground (
        arith,
        core_step-entries env cfg c (pruned env cfg spool) (core_name, dir) e,
        report_step-entries env c rest core_name dir res,
        length-entries-prune env.unlinks (codes ".crash") reports spool d can,
      )
      | inr (inl e) ↦ absurd (ground arith)
      | inr (inr e) ↦ absurd (ground arith)
    ]
