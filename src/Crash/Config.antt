-- ===== src/Crash/Config.antt =====
-- src/services/crash-handler/main.c: `struct config` and `load_config`.
pub mod Limits
use singularity_shell.Base.{
  ℕ, Bool, true, false, not, ◌&&◌, ◌||◌, Option, none, some, List, [], ◌∷◌, ◌==◌, if◌then◌else◌,
  length, take,
}
use singularity_shell.CString.{Text, codes, str_eq, before, split_at, fgets_lines, copy_into}
use singularity_shell.CString.Numbers.{Strtol, strtol}
use singularity_shell.Int.{ℤ, pos, ltb_ℤ}
use singularity_shell.Crash.Text.{trim, parse_bool}

pub record Config : Type 0 where
  pub spool_dir : Text
  pub enabled : Bool
  pub min_uid : ℤ
  pub keep_core : Bool
  pub max_core_mb : ℤ
  pub max_reports : ℤ
  pub max_cores : ℤ

abbrev pub path_max : ℕ
path_max = 4096

-- What `load_config` starts from.
unfoldable pub default_config : Config
default_config = record {
  spool_dir = codes "/var/lib/singularity/crashes";
  enabled = true;
  min_uid = pos 1000;
  keep_core = true;
  max_core_mb = pos 256;
  max_reports = pos 20;
  max_cores = pos 3;
}

-- The variables of the loop: `group` and `*cfg`.
pub record Parse : Type 0 where
  pub group : Text
  pub config : Config

unfoldable pub set_handler_key : Config → Text → Text → Config
set_handler_key c key value =
    if str_eq key (codes "Enabled")
    then record c { enabled = parse_bool value }
    else if str_eq key (codes "MinUid")
    then record c { min_uid = Strtol.value (strtol value) }
    else if str_eq key (codes "KeepCore")
    then record c { keep_core = parse_bool value }
    else if str_eq key (codes "MaxCoreSizeMB")
    then record c { max_core_mb = Strtol.value (strtol value) }
    else if str_eq key (codes "MaxReports")
    then record c { max_reports = Strtol.value (strtol value) }
    else if str_eq key (codes "MaxCores")
    then record c { max_cores = Strtol.value (strtol value) }
    else c

-- value[0] == '/'
unfoldable pub is_absolute : Text → Bool
is_absolute [] = false
is_absolute (c ∷ s) = c == b'/'

unfoldable pub set_key : Text → Config → Text → Text → Config
set_key group c key value =
    if str_eq group (codes "Crash Reporter") && str_eq key (codes "SpoolDir") && is_absolute value
    then record c { spool_dir = copy_into path_max value }
    else if str_eq group (codes "Handler")
    then set_handler_key c key value
    else c

unfoldable pub open_group : Parse → Option (Text × Text) → Parse
open_group p none = p
open_group p (some (name, rest)) = record p { group = take 127 name }

unfoldable pub assign : Parse → Option (Text × Text) → Parse
assign p none = p
assign p (some (key, value)) = record p {
  config = set_key p.group p.config (trim key) (trim value);
}

-- One round of the loop, on the trimmed line.
unfoldable pub config_line : Parse → Text → Parse
config_line p [] = p
config_line p (c ∷ s) =
    if c == b'#' || c == b';'
    then p
    else if c == b'['
    then open_group p (split_at b']' s)
    else assign p (split_at b'=' (c ∷ s))

unfoldable pub config_lines : Parse → List Text → Parse
config_lines p [] = p
config_lines p (buffer ∷ rest) = config_lines (config_line p (trim (before 0 buffer))) rest

unfoldable pub at_least : ℕ → ℤ → ℤ
at_least n z = if ltb_ℤ z (pos n) then pos n else z

unfoldable pub clamp_config : Config → Config
clamp_config c = record c {
  max_reports = at_least 1 c.max_reports;
  max_cores = at_least 0 c.max_cores;
  max_core_mb = at_least 0 c.max_core_mb;
}

-- `none` is a file that cannot be opened: the function returns before the limits are checked.
unfoldable pub load_config : Option Text → Config
load_config none = default_config
load_config (some file) = clamp_config (
    Parse.config
      (config_lines (record { group = []; config = default_config }) (fgets_lines 1024 file)))

-- `config_path`: the override is taken from an unprivileged caller alone.
unfoldable pub config_path : Option Text → ℕ → ℕ → Text
config_path none euid uid = codes "/etc/xdg/singularity/crash-reporter.conf"
config_path (some override) euid uid =
    if not (length override == 0) && not (euid == 0) && uid == euid
    then override
    else codes "/etc/xdg/singularity/crash-reporter.conf"
