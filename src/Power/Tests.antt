-- ===== src/Power/Tests.antt =====
-- The power helper on a concrete battery, and its theorems applied to it.
use singularity_shell.Base.{ℕ, ◌≤◌, ◌≡◌, refl, true, some}
use singularity_shell.CString.{codes}
use singularity_shell.CString.Numbers.{Strtol, strtol}
use singularity_shell.Int.{pos}
use singularity_shell.Power.{Battery, Sysfs, charge_limit}
use singularity_shell.Power.Limit.{IsLimited, charge_limit-IsLimited}

abbrev battery : Battery
battery = record {
  kind = some (codes "Battery\n");
  end_threshold = some (codes "100\n");
  start_threshold = some (codes "95\n");
}

abbrev limited : Battery
limited = record {
  kind = some (codes "Battery\n");
  end_threshold = some (codes "80\n");
  start_threshold = some (codes "75\n");
}

abbrev writable : Sysfs
writable = record { writes_start = true; writes_end = true }

limits : charge_limit writable (codes "BAT0") (codes "80") battery ≡ (0, limited)
unfolding charge_limit singularity_shell.Power.bad_percent strtol singularity_shell.Power.valid_name
    singularity_shell.Power.name_byte singularity_shell.Power.set_limit
    singularity_shell.Power.is_battery singularity_shell.Power.read_attr
    singularity_shell.CString.str_eq singularity_shell.CString.before
    singularity_shell.Power.lower_start singularity_shell.Power.write_end
    singularity_shell.Power.attr_text singularity_shell.CString.Numbers.print_long
    singularity_shell.Int.◌-ℤ◌
limits = refl

charge_limit-IsLimited_example :
    (p : ℕ) × (Strtol.value (strtol (codes "80")) ≡ pos p)
    × (50 ≤ p)
    × (p ≤ 100)
    × IsLimited p battery limited
charge_limit-IsLimited_example =
    charge_limit-IsLimited writable (codes "BAT0") (codes "80") battery limited limits

refuses : (charge_limit writable (codes "BAT0") (codes "20") battery).0 ≡ 2
unfolding charge_limit singularity_shell.Power.bad_percent strtol
refuses = refl
