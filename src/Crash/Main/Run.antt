-- ===== src/Crash/Main/Run.antt =====
-- Whole runs of the crash handler.
use singularity_shell.Base.{◌≡◌, inl, inr, true, false, some, List, arith}
use singularity_shell.CString.{Text, codes}
use singularity_shell.Process.{done, Outcome-cases}
use singularity_shell.Crash.Arguments.{Crashed}
use singularity_shell.Crash.Config.{Config}
use singularity_shell.Crash.Spool.{Dir, read_file, prune}
use singularity_shell.Crash.Files.{write_report}
use singularity_shell.Crash.Files.Atomic.{write_report-Appears}
use singularity_shell.Crash.Main.{
  report_of, report_name, Env, Result, core_step, finish, report_step, pred_ℤ, record_crash,
}

abbrev pub pruned : Env → Config → Dir → Dir
pruned env cfg spool = prune env.unlinks env.lists (codes ".crash") (pred_ℤ cfg.max_reports) spool

report_step-report :
    (env : Env) (c : Crashed) (rest : List Text) (core_name : Text) (dir : Dir) (res : Result)
    → report_step env c rest (core_name, dir) ≡ done res
    → res.code ≡ 0
    → read_file (report_name c) res.spool ≡ some (report_of env c rest core_name)
unfolding report_step finish
report_step-report env c rest core_name dir res h k =
    elim (Outcome-cases (
      write_report env.report_file (report_name c) (report_of env c rest core_name)
        env.report_writes dir)) [
          | inl ((true, dir'), e) ↦
              let there =
                (write_report-Appears env.report_file (report_name c)
                  (report_of env c rest core_name) env.report_writes dir dir' true e).0 in
              ground (arith, there)
          | inl ((false, dir'), e) ↦ absurd (ground arith)
          | inr (inl e) ↦ absurd (ground arith)
          | inr (inr e) ↦ absurd (ground arith)
        ]

-- Where a report is recorded with exit code 0, it stands in the spool under the time and the process
-- id of the crash, with the text that `report_of` makes of what was read of the program and of a name
-- for the core.
pub record_crash-report :
    (env : Env) (cfg : Config) (c : Crashed) (rest : List Text) (spool : Dir) (res : Result)
    → record_crash env cfg c rest spool ≡ done res
    → res.code ≡ 0
    → (core_name : Text) × (read_file (report_name c) res.spool
        ≡ some (report_of env c rest core_name))
unfolding record_crash report_step
record_crash-report env cfg c rest spool res h k =
    elim (Outcome-cases (core_step env cfg c (pruned env cfg spool))) [
      | inl ((core_name, dir), e) ↦
          (core_name, report_step-report env c rest core_name dir res (ground arith) k)
      | inr (inl e) ↦ absurd (ground arith)
      | inr (inr e) ↦ absurd (ground arith)
    ]
