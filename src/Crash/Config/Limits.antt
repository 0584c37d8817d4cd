-- ===== src/Crash/Config/Limits.antt =====
-- What every configuration file leaves: limits that make sense, and an absolute spool directory.
use singularity_shell.Base.{
  ℕ, suc, ◌<◌, ◌≡◌, refl, true, Option, none, some, List, [], ◌∷◌, arith, length, take, length-take,
}
use singularity_shell.CString.{Text, fgets_lines, before, split_at, copy_into}
use singularity_shell.Int.{ℤ, pos, ◌≤ℤ◌}
use singularity_shell.Crash.Text.{trim}
use singularity_shell.Crash.Config.{
  Config, Parse, path_max, default_config, set_handler_key, is_absolute, set_key, open_group,
  assign, config_line, config_lines, at_least, clamp_config, load_config,
}

-- A spool directory that fits its buffer and starts at the root.
record IsPlaced (c : Config) : Type 0 where
  absolute : is_absolute c.spool_dir ≡ true
  fits : length c.spool_dir < path_max

pub record IsSane (c : Config) : Type 0 where
  pub reports : pos 1 ≤ℤ c.max_reports
  pub cores : pos 0 ≤ℤ c.max_cores
  pub core_mb : pos 0 ≤ℤ c.max_core_mb
  pub absolute : is_absolute c.spool_dir ≡ true
  pub fits : length c.spool_dir < path_max

set_handler_key-IsPlaced :
    (c : Config) (key value : Text) → IsPlaced c → IsPlaced (set_handler_key c key value)
unfolding set_handler_key
set_handler_key-IsPlaced c key value p = ground arith

is_absolute-take : (n : ℕ) (s : Text) → is_absolute s ≡ true → is_absolute (take (suc n) s) ≡ true
unfolding is_absolute
is_absolute-take n [] h = h
is_absolute-take n (c ∷ s) h = h

copied-IsPlaced :
    (c : Config) (value : Text)
    → is_absolute value ≡ true
    → IsPlaced (record c { spool_dir = copy_into path_max value })
unfolding copy_into
copied-IsPlaced c value h = record {
  absolute = is_absolute-take 4094 value h;
  fits = omega (arith, length-take 4095 value);
}

set_key-IsPlaced :
    (group : Text) (c : Config) (key value : Text)
    → IsPlaced c
    → IsPlaced (set_key group c key value)
unfolding set_key
set_key-IsPlaced group c key value p =
    ground (arith, set_handler_key-IsPlaced c key value p, copied-IsPlaced c value)

open_group-IsPlaced :
    (p : Parse) (cut : Option (Text × Text))
    → IsPlaced p.config
    → IsPlaced (Parse.config (open_group p cut))
unfolding open_group
open_group-IsPlaced p none h = h
open_group-IsPlaced p (some (name, rest)) h = h

assign-IsPlaced :
    (p : Parse) (cut : Option (Text × Text))
    → IsPlaced p.config
    → IsPlaced (Parse.config (assign p cut))
unfolding assign
assign-IsPlaced p none h = h
assign-IsPlaced p (some (key, value)) h =
    set_key-IsPlaced p.group p.config (trim key) (trim value) h

config_line-IsPlaced :
    (p : Parse) (line : Text) → IsPlaced p.config → IsPlaced (Parse.config (config_line p line))
unfolding config_line
config_line-IsPlaced p [] h = h
config_line-IsPlaced p (c ∷ s) h =
    ground (
      arith,
      open_group-IsPlaced p (split_at b']' s) h,
      assign-IsPlaced p (split_at b'=' (c ∷ s)) h,
    )

config_lines-IsPlaced :
    (p : Parse) (lines : List Text)
    → IsPlaced p.config
    → IsPlaced (Parse.config (config_lines p lines))
unfolding config_lines
config_lines-IsPlaced p [] h = h
config_lines-IsPlaced p (l ∷ lines) h =
    config_lines-IsPlaced (config_line p (trim (before 0 l))) lines
      (config_line-IsPlaced p (trim (before 0 l)) h)

default_config-IsPlaced : IsPlaced default_config
unfolding default_config is_absolute
default_config-IsPlaced = record { absolute = refl; fits = omega arith }

at_least_lem : (n : ℕ) (z : ℤ) → pos n ≤ℤ at_least n z
unfolding at_least
at_least_lem n z = ground arith

-- Whatever the file holds, and without a file too, at least one report and no negative number of cores
-- or megabytes is kept, and the spool directory is an absolute path of less than 4096 bytes.
pub load_config-IsSane : (file : Option Text) → IsSane (load_config file)
unfolding load_config clamp_config
load_config-IsSane none =
    unfold default_config is_absolute in
    record {
      reports = omega arith;
      cores = omega arith;
      core_mb = omega arith;
      absolute = refl;
      fits = omega arith;
    }
load_config-IsSane (some file) =
    let start : Parse = record { group = []; config = default_config } in
    let read = config_lines start (fgets_lines 1024 file) in
    let placed = config_lines-IsPlaced start (fgets_lines 1024 file) default_config-IsPlaced in
    record {
      reports = at_least_lem 1 (Config.max_reports read.config);
      cores = at_least_lem 0 (Config.max_cores read.config);
      core_mb = at_least_lem 0 (Config.max_core_mb read.config);
      absolute = placed.absolute;
      fits = placed.fits;
    }
