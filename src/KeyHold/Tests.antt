-- ===== src/KeyHold/Tests.antt =====
-- The key hold client on concrete calls, and its theorem applied to them.
use singularity_shell.Base.{◌≡◌, refl, true, false, List, [], ◌∷◌}
use singularity_shell.KeyHold.{
  Event, initialized, delayed, finished, steps, initial, asked, steps-delay_ms,
}

-- The delay is set before the manager is announced, and once more after it.
abbrev holding : List Event
holding = delayed 300 ∷ initialized true true (false ∷ true ∷ []) ∷ delayed 200 ∷ finished ∷ []

holding_managed : (steps holding initial).manager ≡ true
unfolding steps singularity_shell.KeyHold.step singularity_shell.KeyHold.finish
    singularity_shell.KeyHold.set_delay singularity_shell.KeyHold.init
    singularity_shell.KeyHold.announce singularity_shell.KeyHold.registry_global
holding_managed = refl

holding_asked :
    asked (steps (delayed 300 ∷ initialized true true (false ∷ true ∷ []) ∷ []) initial).sent ≡ 300
unfolding steps asked singularity_shell.KeyHold.step singularity_shell.KeyHold.init
    singularity_shell.KeyHold.set_delay singularity_shell.KeyHold.announce
    singularity_shell.KeyHold.registry_global
holding_asked = refl

steps-delay_ms_example : asked (steps holding initial).sent ≡ (steps holding initial).delay_ms
steps-delay_ms_example = steps-delay_ms holding holding_managed
