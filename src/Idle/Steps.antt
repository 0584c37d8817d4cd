-- ===== src/Idle/Steps.antt =====
-- src/wayland/idle_notify.c: what the calls and the events of the idle client keep.
use singularity_shell.Base.{ℕ, ◌≡◌, refl, Bool, true, Option, none, some, List, [], ◌∷◌, arith}
use singularity_shell.Int.{ℤ}
use singularity_shell.Idle.Watches.{PowerOutput, Idle, initial, send, flush_display, unwatch, watch}
use singularity_shell.Idle.Power.{
  with_power, output_apply, apply_all, output_power_set, power_failed, Global, idle_notifier,
  wl_seat, power_manager_global, wl_output, other_global, registry_global, release_power,
  remove_output, registry_global_remove, find_output, unlink_output, announce, init,
}
use singularity_shell.Idle.Live.{
  live, holds, alive, after_request, distinct, distinct_up, unwatch-live, watch-live,
}

-- A call of the client, or an event of the registry or of a power object.
pub data Event : Type 0 where
  initialized : Bool → List (Bool × ℕ × Global × ℕ) → Event
  watched : Bool → ℤ → ℕ → Bool → Bool → Event
  unwatched : ℤ → Event
  powered : Bool → Event
  failed : ℕ → Event
  announced : Bool → ℕ → Global → ℕ → Event
  removed : ℕ → Event

unfoldable pub step : Event → Idle → Idle
step (initialized wayland globals) s = (init wayland globals s).1
step (watched allocated i timeout_ms input_only has_callback) s =
    watch allocated i timeout_ms input_only has_callback s
step (unwatched i) s = unwatch i s
step (powered on) s = output_power_set on s
step (failed p) s = power_failed p s
step (announced allocated n global version) s = registry_global allocated n global version s
step (removed n) s = registry_global_remove n s

unfoldable pub steps : List Event → Idle → Idle
steps [] s = s
steps (e ∷ es) s = steps es (step e s)

registry_global-live :
    (n : ℕ) (allocated : Bool) (m : ℕ) (g : Global) (version : ℕ) (s : Idle)
    → live n s ≡ true
    → live n (registry_global allocated m g version s) ≡ true
unfolding registry_global live
registry_global-live n allocated m idle_notifier version s h = h
registry_global-live n allocated m wl_seat version s h = h
registry_global-live n allocated m power_manager_global version s h = h
registry_global-live n allocated m wl_output version s h = ground arith
registry_global-live n allocated m other_global version s h = h

announce-live :
    (n : ℕ) (globals : List (Bool × ℕ × Global × ℕ)) (s : Idle)
    → live n s ≡ true
    → live n (announce globals s) ≡ true
unfolding announce
announce-live n [] s h = h
announce-live n ((allocated, m, g, version) ∷ rest) s h =
    announce-live n rest (registry_global allocated m g version s)
      (registry_global-live n allocated m g version s h)

init-live :
    (n : ℕ) (wayland : Bool) (globals : List (Bool × ℕ × Global × ℕ)) (s : Idle)
    → live n s ≡ true
    → live n (init wayland globals s).1 ≡ true
unfolding init live
init-live n wayland globals s h = ground (
  arith,
  announce-live n globals (record s { display = true; want_on = true; registry = true }) h,
)

with_power-live :
    (n : ℕ) (output : PowerOutput) (power : Option ℕ) (s : Idle)
    → live n s ≡ true
    → live n (with_power output power s).2 ≡ true
unfolding with_power live send alive after_request
with_power-live n output (some p) s h = h
with_power-live n output none s h = ground (arith, distinct_up s.next_id s.watches)

output_apply-live :
    (n : ℕ) (output : PowerOutput) (s : Idle)
    → live n s ≡ true
    → live n (output_apply output s).1 ≡ true
unfolding output_apply live send alive after_request
output_apply-live n output s h = ground (arith, with_power-live n output output.power s h)

apply_all-live :
    (n : ℕ) (outputs : List PowerOutput) (s : Idle)
    → live n s ≡ true
    → live n (apply_all outputs s).1 ≡ true
unfolding apply_all
apply_all-live n [] s h = h
apply_all-live n (output ∷ rest) s h =
    apply_all-live n rest (output_apply output s).1 (output_apply-live n output s h)

output_power_set-live :
    (n : ℕ) (on : Bool) (s : Idle) → live n s ≡ true → live n (output_power_set on s) ≡ true
unfolding output_power_set flush_display live send alive after_request
output_power_set-live n on s h =
    ground (arith, apply_all-live n s.outputs (record s { want_on = on }) h)

release_power-live :
    (n : ℕ) (power : Option ℕ) (s : Idle) → live n s ≡ true → live n (release_power power s) ≡ true
unfolding release_power live send alive after_request
release_power-live n none s h = h
release_power-live n (some p) s h = h

remove_output-live :
    (n : ℕ) (o : Option PowerOutput) (rest : List PowerOutput) (s : Idle)
    → live n s ≡ true
    → live n (remove_output o rest s) ≡ true
unfolding remove_output live send alive after_request
remove_output-live n none rest s h = h
remove_output-live n (some output) rest s h =
    release_power-live n output.power (record s { outputs = rest }) h

step-live : (n : ℕ) (e : Event) (s : Idle) → live n s ≡ true → live n (step e s) ≡ true
unfolding step power_failed registry_global_remove live send alive after_request
step-live n (initialized wayland globals) s h = init-live n wayland globals s h
step-live n (watched allocated i timeout_ms input_only has_callback) s h =
    watch-live allocated i timeout_ms n input_only has_callback s h
step-live n (unwatched i) s h = unwatch-live i n s h
step-live n (powered on) s h = output_power_set-live n on s h
step-live n (failed p) s h = h
step-live n (announced allocated m g version) s h = registry_global-live n allocated m g version s h
step-live n (removed m) s h =
    remove_output-live n (find_output m s.outputs) (unlink_output m s.outputs) s h

steps_keep_live :
    (n : ℕ) (es : List Event) (s : Idle) → live n s ≡ true → live n (steps es s) ≡ true
unfolding steps
steps_keep_live n [] s h = h
steps_keep_live n (e ∷ es) s h = steps_keep_live n es (step e s) (step-live n e s h)

live-initial : (n : ℕ) → live n initial ≡ true
unfolding live alive holds distinct
live-initial n = refl

-- In every state that a sequence of calls and events reaches from the start of the program, the
-- notifications alive at the compositor are exactly those of the watch list, whose notifications are
-- distinct: no watch loses its notification, and none is left behind.
pub steps-live : (es : List Event) (n : ℕ) → live n (steps es initial) ≡ true
steps-live es n = steps_keep_live n es initial (live-initial n)
