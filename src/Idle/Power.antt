-- ===== src/Idle/Power.antt =====
-- src/wayland/idle_notify.c: the registry of the idle client, and the power of the outputs.
use singularity_shell.Base.{
  ℕ, ◌+◌, Bool, true, false, not, ◌&&◌, Option, none, some, List, [], ◌∷◌, ltb, leb, ◌==◌,
  if◌then◌else◌,
}
use singularity_shell.Idle.Watches.{
  get_output_power, set_mode, destroy_power, destroy_output, PowerOutput, Idle, send, flush_display,
}

-- The power object of an output, made where it is missing.
unfoldable pub with_power : PowerOutput → Option ℕ → Idle → ℕ × PowerOutput × Idle
unfolding send
with_power output (some p) s = (p, output, s)
with_power output none s =
    let p = s.next_id in
    (
      p,
      record output { power = some p },
      send (get_output_power p output.name) (record s { next_id = p + 1 }),
    )

-- `output_apply`: the output afterwards, and the state, its own list of outputs not yet changed.
unfoldable pub output_apply : PowerOutput → Idle → PowerOutput × Idle
unfolding send with_power
output_apply output s =
    if not s.power_manager
    then (output, s)
    else let made = with_power output output.power s in
      (made.1, send (set_mode made.0 s.want_on) made.2)

-- The loop of `singularity_output_power_set` over the outputs.
unfoldable pub apply_all : List PowerOutput → Idle → List PowerOutput × Idle
apply_all [] s = ([], s)
apply_all (output ∷ rest) s =
    let one = output_apply output s in
    let others = apply_all rest one.1 in (one.0 ∷ others.0, others.1)

-- singularity_output_power_set
unfoldable pub output_power_set : Bool → Idle → Idle
unfolding flush_display
output_power_set on s =
    let applied = apply_all s.outputs (record s { want_on = on }) in
    let t = applied.1 in flush_display (record t { outputs = applied.0 })

abbrev pub is_power : ℕ → Option ℕ → Bool
is_power p none = false
is_power p (some q) = q == p

-- `power_failed` for the output whose power object it is.
unfoldable pub clear_power : ℕ → List PowerOutput → List PowerOutput
clear_power p [] = []
clear_power p (output ∷ rest) =
    (if is_power p output.power then record output { power = none } else output)
    ∷ clear_power p rest

unfoldable pub power_failed : ℕ → Idle → Idle
unfolding send
power_failed p s = send (destroy_power p) (record s { outputs = clear_power p s.outputs })

-- What a global of the registry is, by the name of its interface.
pub data Global : Type 0 where
  idle_notifier : Global
  wl_seat : Global
  power_manager_global : Global
  wl_output : Global
  other_global : Global

-- `registry_global`, with whether `calloc` succeeds.
unfoldable pub registry_global : Bool → ℕ → Global → ℕ → Idle → Idle
registry_global allocated n idle_notifier version s = record s {
  notifier = true;
  notifier_version = if ltb version 2 then version else 2;
}
registry_global allocated n wl_seat version s = record s { seat = true }
registry_global allocated n power_manager_global version s = record s { power_manager = true }
registry_global allocated n wl_output version s =
    if not allocated
    then s
    else record s { outputs = record { name = n; power = none } ∷ s.outputs }
registry_global allocated n other_global version s = s

-- The output that the loop of `registry_global_remove` finds, and the list without it.
unfoldable pub find_output : ℕ → List PowerOutput → Option PowerOutput
find_output n [] = none
find_output n (output ∷ rest) =
    let found = find_output n rest in if output.name == n then some output else found

unfoldable pub unlink_output : ℕ → List PowerOutput → List PowerOutput
unlink_output n [] = []
unlink_output n (output ∷ rest) =
    let others = unlink_output n rest in if output.name == n then rest else output ∷ others

unfoldable pub release_power : Option ℕ → Idle → Idle
unfolding send
release_power none s = s
release_power (some p) s = send (destroy_power p) s

unfoldable pub remove_output : Option PowerOutput → List PowerOutput → Idle → Idle
unfolding send release_power
remove_output none rest s = s
remove_output (some output) rest s =
    send (destroy_output output.name) (release_power output.power (record s { outputs = rest }))

unfoldable pub registry_global_remove : ℕ → Idle → Idle
registry_global_remove n s = remove_output (find_output n s.outputs) (unlink_output n s.outputs) s

-- The globals that are announced while `singularity_idle_init` waits for the round trip.
unfoldable pub announce : List (Bool × ℕ × Global × ℕ) → Idle → Idle
announce [] s = s
announce ((allocated, n, global, version) ∷ rest) s =
    announce rest (registry_global allocated n global version s)

-- singularity_idle_init, with whether there is a Wayland display.
unfoldable pub init : Bool → List (Bool × ℕ × Global × ℕ) → Idle → Bool × Idle
init wayland globals s =
    if s.registry
    then (s.notifier && s.seat, s)
    else if not wayland
    then (false, s)
    else let t = announce globals (record s { display = true; want_on = true; registry = true }) in
      (t.notifier && t.seat, t)

-- singularity_idle_input_only_supported and singularity_output_power_supported
unfoldable pub input_only_supported : Idle → Bool
input_only_supported s = leb 2 s.notifier_version

unfoldable pub output_power_supported : Idle → Bool
output_power_supported s = s.power_manager
