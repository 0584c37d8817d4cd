-- ===== src/Crash/Tests.antt =====
-- The crash handler on concrete crashes, and its theorems applied to them.
use singularity_shell.Base.{
  not, ◌||◌, Bool, ℕ, ◌≤◌, ◌<◌, min, ◌≡◌, refl, ap, ◌≢◌, inl, true, false, none, some, List, [],
  ◌∷◌, arith, ◌==◌, if◌then◌else◌, length, All,
}
use singularity_shell.CString.{Text, codes, str_eq}
use singularity_shell.CString.Split.{str_eq_iff}
use singularity_shell.CString.Count.{count}
use singularity_shell.Int.{pos}
use singularity_shell.Process.{Outcome, done, wrote, Written}
use singularity_shell.Crash.Text.{trim, read_executable, read_cmdline, read_desktop_file}
use singularity_shell.Crash.Text.Clean.{starts_clean, ends_clean, trim_lem}
use singularity_shell.Crash.Config.{Config, load_config}
use singularity_shell.Crash.Config.Limits.{IsSane, load_config-IsSane}
use singularity_shell.Crash.Spool.{
  Dir, names, read_file, has_file, is_entry, entries, victims, prune, DirEnv, OpenDir,
  open_user_dir, made, already_there, str_le,
}
use singularity_shell.Crash.Spool.Owner.{open_user_dir-owner}
use singularity_shell.Crash.Spool.Prune.{length-entries-prune, prune_keeps}
use singularity_shell.Crash.Spool.Removed.{CanUnlink, occurs, Distinct}
use singularity_shell.Crash.Files.{
  Received, chunk, read_interrupted, FileEnv, temporary, write_core, write_report,
}
use singularity_shell.Crash.Files.Atomic.{write_core-Appears, write_report_succeeds}
use singularity_shell.Crash.Files.Shown.{stream, Appears}
use singularity_shell.Crash.Arguments.{Crashed}
use singularity_shell.Crash.Main.{
  Env, Result, executable_of, report_lines, report_name, report_of, record_crash,
}
use singularity_shell.Crash.Main.Report.{report_lines_ten}
use singularity_shell.Crash.Main.Run.{record_crash-report}
use singularity_shell.Crash.Main.Limit.{record_crash-entries}

trim_lem_example :
    (starts_clean (trim (codes " a b\n")) ≡ true)
    × (ends_clean (trim (codes " a b\n")) ≡ true)
    × (trim (trim (codes " a b\n")) ≡ trim (codes " a b\n"))
trim_lem_example = trim_lem (codes " a b\n")

abbrev config_text : Text
config_text = codes "# limits\n[Handler]\nMaxReports=0\nMaxCores = -4\n[Paths]\nSpoolDir=tmp\n"

load_config-IsSane_example : IsSane (load_config (some config_text))
load_config-IsSane_example = load_config-IsSane (some config_text)

abbrev config : Config
config = record {
  spool_dir = codes "/spool";
  enabled = true;
  min_uid = pos 1000;
  keep_core = true;
  max_core_mb = pos 1;
  max_reports = pos 2;
  max_cores = pos 1;
}

abbrev dir_env : DirEnv
dir_env = record {
  make_root = already_there;
  opens_root = true;
  make_user = made;
  opens_user = true;
  stat = some (true, 0);
  chowns = true;
}

abbrev user_dir : OpenDir
user_dir = record { path = codes "/spool/1000"; owner = 1000 }

opens_user_dir : open_user_dir config dir_env 0 1000 ≡ some user_dir
unfolding open_user_dir singularity_shell.CString.Numbers.print_nat
opens_user_dir = refl

open_user_dir-owner_example : (user_dir.owner ≡ 1000) × (user_dir.path ≡ codes "/spool/1000")
unfolding singularity_shell.CString.Numbers.print_nat
open_user_dir-owner_example =
    open_user_dir-owner config dir_env 0 1000 user_dir (inl refl) opens_user_dir

abbrev spool : Dir
spool =
    (codes "5-7.crash", codes "new")
    ∷ (codes "note", codes "kept")
    ∷ (codes "3-1.crash", codes "old")
    ∷ []

new_only : (x : Text) → str_eq x (codes "5-7.crash") ≡ true → str_eq x (codes "3-1.crash") ≡ false
unfolding str_eq
new_only x e = ap (λ y. str_eq y (codes "3-1.crash")) ((str_eq_iff x (codes "5-7.crash")).0 e)

spool-Distinct : Distinct (entries (codes ".crash") (names spool))
unfolding entries is_entry str_eq
spool-Distinct x = let apart = new_only x in ground (arith, apart)

-- Every name can be unlinked.
abbrev all_unlink : Text → Bool
all_unlink name = true

old_unlinks : CanUnlink all_unlink (victims 1 (entries (codes ".crash") (names spool)))
unfolding entries is_entry str_eq victims singularity_shell.Crash.Spool.sort_entries
    singularity_shell.Crash.Spool.insert_entry str_le
old_unlinks = (refl, tt)

length-entries-prune_example :
    length (entries (codes ".crash") (names (prune all_unlink true (codes ".crash") (pos 1) spool)))
    ≡ min 1 (length (entries (codes ".crash") (names spool)))
length-entries-prune_example =
    length-entries-prune all_unlink (codes ".crash") 1 spool spool-Distinct old_unlinks

abbrev good_calls : FileEnv
good_calls = record { opens = true; is_root = true; chowns = true; renames = true; unlinks = true }

abbrev core_input : List Received
core_input = chunk (codes "\u{7f}ELF") ∷ read_interrupted ∷ chunk (codes "dump") ∷ chunk [] ∷ []

abbrev many_writes : List Written
many_writes = wrote 4096 ∷ wrote 4096 ∷ []

abbrev with_core : Dir
with_core = (codes "a.core", codes "\u{7f}ELFdump") ∷ spool

core_written :
    write_core good_calls (codes "a.core") 1024 core_input many_writes spool
    ≡ done (true, with_core)
unfolding write_core has_file str_eq singularity_shell.CString.copy_into
    singularity_shell.Crash.Files.copy_core singularity_shell.Crash.Files.write_all
    singularity_shell.Crash.Files.finish_file singularity_shell.Crash.Spool.unlink
core_written = refl

write_core-Appears_example :
    Appears true
      (temporary (codes "a.core"))
      (codes "a.core")
      (stream core_input)
      spool
      (true, with_core)
    × (true ≡ true → (0 < length (stream core_input)) × (length (stream core_input) ≤ 1024))
write_core-Appears_example =
    write_core-Appears good_calls (codes "a.core") 1024 core_input many_writes spool with_core true
      core_written

abbrev with_report : Dir
with_report = (codes "a.crash", codes "text") ∷ spool

report_written :
    write_report good_calls (codes "a.crash") (codes "text") many_writes spool
    ≡ done (true, with_report)
unfolding write_report has_file str_eq singularity_shell.CString.copy_into
    singularity_shell.Crash.Files.write_all singularity_shell.Crash.Files.finish_file
    singularity_shell.Crash.Spool.unlink
report_written = refl

many-ne-zero : ◌≢◌ {A = ℕ} 4096 0
many-ne-zero h = omega arith

no_temporary : has_file (temporary (codes "a.crash")) spool ≡ false
unfolding has_file str_eq singularity_shell.CString.copy_into
no_temporary = refl

write_report_succeeds_example :
    (dir' : Dir) × (write_report good_calls (codes "a.crash") (codes "text") many_writes spool
      ≡ done (true, dir'))
    × (read_file (codes "a.crash") dir' ≡ some (codes "text"))
write_report_succeeds_example =
    write_report_succeeds good_calls (codes "a.crash") (codes "text") many_writes spool refl
      no_temporary (λ r. refl) refl (many-ne-zero, (many-ne-zero, tt)) (omega arith)

abbrev crashed : Crashed
crashed = record {
  pid = pos 42;
  uid = pos 1000;
  gid = pos 1000;
  signal = pos 11;
  time = pos 9;
  dumpable = pos 1;
}

report_lines_ten_example :
    count b'\n' (
      report_lines crashed
        (executable_of (read_executable 4096 (some (codes "/bin/a\nb"))) [])
        (read_cmdline 2048 (some (codes "a\n-b")))
        (read_desktop_file 4096 none)
        (codes "a.core"))
    ≡ 10
report_lines_ten_example =
    report_lines_ten crashed [] (some (codes "/bin/a\nb")) (some (codes "a\n-b")) none
      (codes "a.core") refl

abbrev system : Env
system = record {
  euid = 0;
  config_file = none;
  dir = dir_env;
  exe_link = some (codes "/bin/a");
  cmdline = some (codes "a");
  environ = none;
  lists = true;
  unlinks = all_unlink;
  input = core_input;
  core_file = good_calls;
  core_writes = many_writes;
  report_file = good_calls;
  report_writes = many_writes;
}

abbrev result_of : Outcome Result → Result
result_of (done r) = r
result_of _ = record { code = 99; spool = [] }

abbrev recorded : Result
recorded = result_of (record_crash system config crashed [] spool)

records : record_crash system config crashed [] spool ≡ done recorded
unfolding record_crash singularity_shell.Crash.Main.core_step
    singularity_shell.Crash.Main.wants_core write_core has_file prune
    singularity_shell.Crash.Spool.unlink_all victims singularity_shell.Crash.Spool.as_size
    singularity_shell.Crash.Main.pred_ℤ entries is_entry str_eq
    singularity_shell.Crash.Spool.sort_entries singularity_shell.Crash.Spool.insert_entry str_le
    singularity_shell.CString.copy_into singularity_shell.Crash.Main.core_file_name
    singularity_shell.CString.before singularity_shell.CString.items
    singularity_shell.CString.prepend singularity_shell.CString.starts_with
    singularity_shell.CString.Numbers.digits_from singularity_shell.CString.Numbers.print_long
    singularity_shell.CString.Numbers.print_nat singularity_shell.CString.Numbers.print_padded
    singularity_shell.CString.Numbers.zeros singularity_shell.Crash.Files.copy_core
    singularity_shell.Crash.Files.finish_file singularity_shell.Crash.Files.rename_file
    singularity_shell.Crash.Files.write_all write_report singularity_shell.Crash.Main.base_name
    singularity_shell.Crash.Main.core_limit executable_of singularity_shell.Crash.Main.finish
    singularity_shell.Crash.Main.keep_core_file report_lines report_name report_of
    singularity_shell.Crash.Main.report_step singularity_shell.Crash.Main.report_text
    singularity_shell.Crash.Spool.unlink singularity_shell.Crash.Text.find_desktop read_cmdline
    read_desktop_file read_executable singularity_shell.Crash.Text.sanitize
    singularity_shell.Crash.Text.sanitize_byte singularity_shell.Crash.Text.spaced
    singularity_shell.Crash.Text.strip_suffix trim singularity_shell.Crash.Text.trim_end
    singularity_shell.Crash.Text.trim_start singularity_shell.Crash.Text.trims_end
    singularity_shell.Crash.Text.trims_start
records = refl

recorded_well : recorded.code ≡ 0
unfolding record_crash singularity_shell.Crash.Main.core_step
    singularity_shell.Crash.Main.wants_core write_core has_file prune
    singularity_shell.Crash.Spool.unlink_all victims singularity_shell.Crash.Spool.as_size
    singularity_shell.Crash.Main.pred_ℤ entries is_entry str_eq
    singularity_shell.Crash.Spool.sort_entries singularity_shell.Crash.Spool.insert_entry str_le
    singularity_shell.CString.copy_into singularity_shell.Crash.Main.core_file_name
    singularity_shell.CString.before singularity_shell.CString.items
    singularity_shell.CString.prepend singularity_shell.CString.starts_with
    singularity_shell.CString.Numbers.digits_from singularity_shell.CString.Numbers.print_long
    singularity_shell.CString.Numbers.print_nat singularity_shell.CString.Numbers.print_padded
    singularity_shell.CString.Numbers.zeros singularity_shell.Crash.Files.copy_core
    singularity_shell.Crash.Files.finish_file singularity_shell.Crash.Files.rename_file
    singularity_shell.Crash.Files.write_all write_report singularity_shell.Crash.Main.base_name
    singularity_shell.Crash.Main.core_limit executable_of singularity_shell.Crash.Main.finish
    singularity_shell.Crash.Main.keep_core_file report_lines report_name report_of
    singularity_shell.Crash.Main.report_step singularity_shell.Crash.Main.report_text
    singularity_shell.Crash.Spool.unlink singularity_shell.Crash.Text.find_desktop read_cmdline
    read_desktop_file read_executable singularity_shell.Crash.Text.sanitize
    singularity_shell.Crash.Text.sanitize_byte singularity_shell.Crash.Text.spaced
    singularity_shell.Crash.Text.strip_suffix trim singularity_shell.Crash.Text.trim_end
    singularity_shell.Crash.Text.trim_start singularity_shell.Crash.Text.trims_end
    singularity_shell.Crash.Text.trims_start
recorded_well = refl

record_crash-report_example :
    (core_name : Text) × (read_file (report_name crashed) recorded.spool
      ≡ some (report_of system crashed [] core_name))
record_crash-report_example =
    record_crash-report system config crashed [] spool recorded records recorded_well

record_crash-entries_example : length (entries (codes ".crash") (names recorded.spool)) ≤ 2
record_crash-entries_example =
    record_crash-entries system config crashed [] spool recorded 1 refl refl spool-Distinct
      old_unlinks records

prune_keeps_example :
    let chosen = victims 1 (entries (codes ".crash") (names spool)) in
    let after = prune all_unlink true (codes ".crash") (pos 1) spool in
    (read_file (codes "note") after ≡ (
      if occurs (codes "note") chosen == 0 || not (all_unlink (codes "note"))
      then read_file (codes "note") spool
      else none))
    × (is_entry (codes ".crash") (codes "note") ≡ false
        → read_file (codes "note") after ≡ read_file (codes "note") spool)
    × (0 < occurs (codes "note") (entries (codes ".crash") (names spool))
        → occurs (codes "note") chosen ≡ 0
        → All (λ v. str_le v (codes "note") ≡ true) chosen)
prune_keeps_example = prune_keeps all_unlink (codes ".crash") 1 spool (codes "note")
