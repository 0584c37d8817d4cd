-- ===== src/Crash/Main/Report.antt =====
-- A crashed program chooses its name, command line and environment: they cannot add lines to the report.
use singularity_shell.Base.{
  ℕ, zero, suc, ◌+◌, ◌/◌, ◌%◌, ◌≡◌, refl, true, not, Option, none, some, List, [], ◌∷◌, arith, ◌==◌,
  all, all_mono,
}
use singularity_shell.CString.{Text}
use singularity_shell.CString.Numbers.{print_long, print_nat, digits_from}
use singularity_shell.CString.Count.{count, count-append, count-lacks}
use singularity_shell.Int.{ℤ, pos, negsuc}
use singularity_shell.Crash.Text.{read_executable, read_cmdline, read_desktop_file}
use singularity_shell.Crash.Text.Clean.{clean, all-clean-sanitize}
use singularity_shell.Crash.Arguments.{Crashed}
use singularity_shell.Crash.Main.{executable_of, report_lines}

digits_from-clean :
    (fuel n : ℕ) (acc : Text) → all clean acc ≡ true → all clean (digits_from fuel n acc) ≡ true
unfolding digits_from
digits_from-clean zero n acc h = h
digits_from-clean (suc fuel) n acc h =
    ground (arith, digits_from-clean fuel (n / 10) ((b'0' + n % 10) ∷ acc))

pub print_long-clean : (z : ℤ) → all clean (print_long z) ≡ true
unfolding print_long print_nat
print_long-clean (pos n) = digits_from-clean 20 n [] refl
print_long-clean (negsuc n) = digits_from-clean 20 (n + 1) [] refl

read_executable-clean :
    (size : ℕ) (link : Option Text) → all clean (read_executable size link) ≡ true
unfolding read_executable
read_executable-clean size none = refl
read_executable-clean size (some link) = all-clean-sanitize _

executable_of-clean :
    (exe : Text) (rest : List Text)
    → all clean exe ≡ true
    → all clean (executable_of exe rest) ≡ true
unfolding executable_of
executable_of-clean [] [] h = refl
executable_of-clean [] (comm ∷ rest) h = all-clean-sanitize _
executable_of-clean (c ∷ s) rest h = h

read_cmdline-clean : (size : ℕ) (bytes : Option Text) → all clean (read_cmdline size bytes) ≡ true
unfolding read_cmdline
read_cmdline-clean size none = refl
read_cmdline-clean size (some bytes) = all-clean-sanitize _

read_desktop_file-clean :
    (size : ℕ) (bytes : Option Text) → all clean (read_desktop_file size bytes) ≡ true
unfolding read_desktop_file
read_desktop_file-clean size none = refl
read_desktop_file-clean size (some bytes) = all-clean-sanitize _

count-clean : (s : Text) → all clean s ≡ true → count b'\n' s ≡ 0
count-clean s h =
    count-lacks b'\n' s (all_mono clean (λ x. not (x == b'\n')) s (λ x g. ground arith) h)

-- The format holds ten newlines, and the fields add none.
report_lines-count :
    (c : Crashed) (exe cmdline desktop core_name : Text)
    → all clean exe ≡ true
    → all clean cmdline ≡ true
    → all clean desktop ≡ true
    → all clean core_name ≡ true
    → count b'\n' (report_lines c exe cmdline desktop core_name) ≡ 10
unfolding report_lines
report_lines-count c exe cmdline desktop core_name he hc hd hk = simp count-append (
    omega (
      arith,
      count-clean exe he,
      count-clean cmdline hc,
      count-clean desktop hd,
      count-clean core_name hk,
      count-clean (print_long c.pid) (print_long-clean c.pid),
      count-clean (print_long c.uid) (print_long-clean c.uid),
      count-clean (print_long c.signal) (print_long-clean c.signal),
      count-clean (print_long c.time) (print_long-clean c.time),
    ))

-- Whatever /proc gives for the program, its command line and its environment, the lines of the
-- report, before they are cut to the size of its buffer, have ten newlines, if the name of the core holds no control characters and no backslash.
pub report_lines_ten :
    (c : Crashed) (rest : List Text) (link cmdline environ : Option Text) (core_name : Text)
    → all clean core_name ≡ true
    → count b'\n' (
        report_lines c
          (executable_of (read_executable 4096 link) rest)
          (read_cmdline 2048 cmdline)
          (read_desktop_file 4096 environ)
          core_name)
      ≡ 10
report_lines_ten c rest link cmdline environ core_name h =
    report_lines-count c _ _ _ core_name
      (executable_of-clean (read_executable 4096 link) rest (read_executable-clean 4096 link))
      (read_cmdline-clean 2048 cmdline) (read_desktop_file-clean 4096 environ) h
