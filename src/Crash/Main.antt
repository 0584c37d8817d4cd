-- ===== src/Crash/Main.antt =====
-- src/services/crash-handler/main.c: `main`, from the arguments of the kernel to the report.
pub mod Report
pub mod Run
pub mod Limit
use singularity_shell.Crash.Arguments.{read_arguments, Crashed}
use singularity_shell.Base.{
  ℕ, ◌+◌, ◌-◌, ◌*◌, ◌%◌, ◌^◌, Bool, true, false, not, ◌&&◌, ◌||◌, Option, none, some, List, [], ◌∷◌,
  ◌++◌, ◌==◌, if◌then◌else◌,
}
use singularity_shell.CString.{Text, codes, copy_into}
use singularity_shell.CString.Numbers.{print_long, print_padded}
use singularity_shell.Int.{ℤ, pos, negsuc, ltb_ℤ}
use singularity_shell.Process.{Written, Outcome, done, ◌>>=◌}
use singularity_shell.Crash.Text.{sanitize, read_executable, read_cmdline, read_desktop_file}
use singularity_shell.Crash.Config.{Config, load_config}
use singularity_shell.Crash.Spool.{Dir, DirEnv, open_user_dir, prune}
use singularity_shell.Crash.Files.{Received, FileEnv, write_core, write_report}

-- What the system answers: the effective user, the configuration file, what is read of /proc, standard
-- input, and the calls on the spool directory; `unlinks` tells which of its names can be removed.
pub record Env : Type 0 where
  pub euid : ℕ
  pub config_file : Option Text
  pub dir : DirEnv
  pub exe_link : Option Text
  pub cmdline : Option Text
  pub environ : Option Text
  pub lists : Bool
  pub unlinks : Text → Bool
  pub input : List Received
  pub core_file : FileEnv
  pub core_writes : List Written
  pub report_file : FileEnv
  pub report_writes : List Written

-- The exit code, and the spool directory as the run leaves it.
pub record Result : Type 0 where
  pub code : ℕ
  pub spool : Dir

-- (uid_t) uid_l
unfoldable pub as_uid : ℤ → ℕ
as_uid (pos n) = n % 2 ^ 32
as_uid (negsuc n) = (2 ^ 32 - 1) - n % 2 ^ 32

-- The buffer `exe`, with the name on the command line where /proc gave none.
unfoldable pub executable_of : Text → List Text → Text
executable_of [] (comm ∷ rest) = sanitize (copy_into 4096 comm)
executable_of exe rest = exe

unfoldable pub base_name : Crashed → Text
base_name c = copy_into 96 (print_padded c.time ++ b'-' ∷ print_long c.pid)

-- The format of the report, before its buffer cuts it.
unfoldable pub report_lines : Crashed → Text → Text → Text → Text → Text
report_lines c exe cmdline desktop core_name =
    codes "[Crash]\nSource=handler\nPid="
    ++ (print_long c.pid
        ++ (codes "\nUid="
            ++ (print_long c.uid
                ++ (codes "\nSignal="
                    ++ (print_long c.signal
                        ++ (codes "\nTime="
                            ++ (print_long c.time
                                ++ (codes "\nExecutable="
                                    ++ (exe
                                        ++ (codes "\nCommandLine="
                                            ++ (cmdline
                                                ++ (codes "\nDesktopFile="
                                                    ++ (desktop
                                                        ++ (codes "\nCore="
                                                            ++ (core_name
                                                            ++ codes "\n")))))))))))))))

unfoldable pub report_text : Crashed → Text → Text → Text → Text → Text
report_text c exe cmdline desktop core_name =
    copy_into 8192 (report_lines c exe cmdline desktop core_name)

unfoldable pub wants_core : Config → Crashed → Bool
wants_core cfg c =
    cfg.keep_core
    && ltb_ℤ (pos 0) cfg.max_cores
    && not (ltb_ℤ c.dumpable (pos 1))
    && not (ltb_ℤ (pos 1) c.dumpable)
    && ltb_ℤ (pos 0) cfg.max_core_mb

-- max_core_mb * 1024L * 1024L, for a size that is positive. The product overflows `long` from a size of
-- 2 ^ 43 megabytes on, which C leaves undefined; here it is the number itself.
unfoldable pub core_limit : Config → ℕ
core_limit cfg = elim cfg.max_core_mb [ pos n ↦ n * 1024 * 1024 | negsuc n ↦ 0 ]

-- The name for the line `Core=`, and the directory with the core in it.
unfoldable pub keep_core_file : Env → Config → Text → Bool × Dir → Text × Dir
keep_core_file env cfg candidate (true, dir) =
    (candidate, prune env.unlinks env.lists (codes ".core") cfg.max_cores dir)
keep_core_file env cfg candidate (false, dir) = ([], dir)

unfoldable pub core_file_name : Crashed → Text
core_file_name c = copy_into 128 (base_name c ++ codes ".core")

unfoldable pub core_step : Env → Config → Crashed → Dir → Outcome (Text × Dir)
core_step env cfg c dir =
    let candidate = core_file_name c in
    if wants_core cfg c
    then (write_core env.core_file candidate (core_limit cfg) env.input env.core_writes dir >>= λ r.
        done (keep_core_file env cfg candidate r))
    else done ([], dir)

unfoldable pub finish : Bool × Dir → Result
finish (ok, dir) = record { code = if ok then 0 else 1; spool = dir }

unfoldable pub report_name : Crashed → Text
report_name c = copy_into 128 (base_name c ++ codes ".crash")

-- The report with what is read of the program.
unfoldable pub report_of : Env → Crashed → List Text → Text → Text
report_of env c rest core_name =
    report_text c (executable_of (read_executable 4096 env.exe_link) rest)
      (read_cmdline 2048 env.cmdline) (read_desktop_file 4096 env.environ) core_name

unfoldable pub report_step : Env → Crashed → List Text → Text × Dir → Outcome Result
report_step env c rest (core_name, dir) =
    write_report env.report_file (report_name c) (report_of env c rest core_name) env.report_writes
      dir
    >>= λ r. done (finish r)

-- max_reports - 1; the configuration keeps it above 0.
unfoldable pub pred_ℤ : ℤ → ℤ
pred_ℤ (pos n) = if n == 0 then negsuc 0 else pos (n - 1)
pred_ℤ (negsuc n) = negsuc (n + 1)

unfoldable pub record_crash : Env → Config → Crashed → List Text → Dir → Outcome Result
record_crash env cfg c rest spool =
    core_step env cfg c
      (prune env.unlinks env.lists (codes ".crash") (pred_ℤ cfg.max_reports) spool)
    >>= report_step env c rest

unfoldable pub handle : Env → Config → Crashed → List Text → Dir → Outcome Result
handle env cfg c rest spool =
    if not cfg.enabled || ltb_ℤ c.uid cfg.min_uid
    then done (record { code = 0; spool = spool })
    else if not (env.euid == 0) && not (env.euid == as_uid c.uid)
    then done (record { code = 1; spool = spool })
    else elim (open_user_dir cfg env.dir env.euid (as_uid c.uid)) [
      | none ↦ done (record { code = 1; spool = spool })
      | some dir ↦ record_crash env cfg c rest spool
    ]

unfoldable pub run : Env → Option (Crashed × List Text) → Dir → Outcome Result
run env none spool = done (record { code = 2; spool = spool })
run env (some (c, rest)) spool = handle env (load_config env.config_file) c rest spool

-- On the arguments behind the program's name, with the spool directory of the crashed user.
unfoldable pub main : Env → List Text → Dir → Outcome Result
main env args spool = run env (read_arguments args) spool
