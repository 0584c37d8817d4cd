-- ===== src/Idle/Tests.antt =====
-- The idle client on concrete calls, and its theorems applied to them.
use singularity_shell.Base.{◌≡◌, refl, true, false, List, [], ◌∷◌, all}
use singularity_shell.Int.{pos}
use singularity_shell.Idle.Watches.{Idle, initial}
use singularity_shell.Idle.Power.{
  idle_notifier, wl_seat, wl_output, power_manager_global, output_power_set,
}
use singularity_shell.Idle.Live.{live, alive}
use singularity_shell.Idle.Steps.{Event, initialized, watched, step, steps, steps-live}
use singularity_shell.Idle.Modes.{told, output_power_set-told}

abbrev ready : Event
ready = initialized true (
    (true, 1, idle_notifier, 2)
    ∷ (true, 2, wl_seat, 7)
    ∷ (true, 3, power_manager_global, 1)
    ∷ (true, 4, wl_output, 4)
    ∷ [])

-- Watch 5 is set twice, the second time for the input alone, and watch 6 once.
abbrev watching : List Event
watching =
    ready
    ∷ watched true (pos 5) 1000 false true
    ∷ watched true (pos 6) 2000 false true
    ∷ watched true (pos 5) 3000 true true
    ∷ []

watching-alive :
    (alive 0 (steps watching initial).sent ≡ false)
    × (alive 1 (steps watching initial).sent ≡ true)
    × (alive 2 (steps watching initial).sent ≡ true)
unfolding alive singularity_shell.Idle.Live.after_request steps step
    singularity_shell.Idle.Watches.watch singularity_shell.Idle.Watches.unwatch
    singularity_shell.Idle.Watches.find_watch singularity_shell.Idle.Watches.unlink_watch
    singularity_shell.Idle.Watches.destroy_watch singularity_shell.Idle.Watches.add_watch
    singularity_shell.Idle.Watches.send singularity_shell.Idle.Watches.flush_display
    singularity_shell.Idle.Power.init singularity_shell.Idle.Power.announce
    singularity_shell.Idle.Power.registry_global
watching-alive = (refl, refl, refl)

steps-live_example : live 2 (steps watching initial) ≡ true
steps-live_example = steps-live watching 2

ready_managed : (steps watching initial).power_manager ≡ true
unfolding steps step singularity_shell.Idle.Watches.watch singularity_shell.Idle.Watches.unwatch
    singularity_shell.Idle.Watches.find_watch singularity_shell.Idle.Watches.unlink_watch
    singularity_shell.Idle.Watches.destroy_watch singularity_shell.Idle.Watches.add_watch
    singularity_shell.Idle.Watches.send singularity_shell.Idle.Watches.flush_display
    singularity_shell.Idle.Power.init singularity_shell.Idle.Power.announce
    singularity_shell.Idle.Power.registry_global
ready_managed = refl

output_power_set-told_example :
    all
      (told false (output_power_set false (steps watching initial)).sent)
      (output_power_set false (steps watching initial)).outputs
    ≡ true
output_power_set-told_example = output_power_set-told false (steps watching initial) ready_managed
