-- ===== src/Idle/Modes.antt =====
-- src/wayland/idle_notify.c: what `singularity_output_power_set` tells the outputs.
use singularity_shell.Base.{
  ℕ, ◌≡◌, refl, ap, ◌∙◌, inl, inr, Bool, true, false, not, ◌&&◌, Option, none, some, List, [], ◌∷◌,
  arith, ◌==◌, if◌then◌else◌, all, all_mono, Bool-cases, and-true,
}
use singularity_shell.Idle.Watches.{
  Request, set_mode, flush, PowerOutput, Idle, send, flush_display,
}
use singularity_shell.Idle.Power.{with_power, output_apply, apply_all, output_power_set}

-- The last mode that was asked for on a power object is this one.
unfoldable pub has_mode : Bool → ℕ → List Request → Bool
has_mode on p [] = false
has_mode on p (set_mode q mode ∷ rs) =
    if q == p then (if on then mode else not mode) else has_mode on p rs
has_mode on p (r ∷ rs) = has_mode on p rs

-- The output has a power object that was last asked for the mode.
abbrev pub told_power : Bool → List Request → Option ℕ → Bool
told_power on rs none = false
told_power on rs (some p) = has_mode on p rs

unfoldable pub told : Bool → List Request → PowerOutput → Bool
told on rs output = told_power on rs output.power

with_power-managed :
    (output : PowerOutput) (power : Option ℕ) (s : Idle)
    → (with_power output power s).2.power_manager ≡ s.power_manager
unfolding with_power send
with_power-managed output none s = refl
with_power-managed output (some p) s = refl

with_power-want_on :
    (output : PowerOutput) (power : Option ℕ) (s : Idle)
    → (with_power output power s).2.want_on ≡ s.want_on
unfolding with_power send
with_power-want_on output none s = refl
with_power-want_on output (some p) s = refl

with_power-has_mode :
    (output : PowerOutput) (power : Option ℕ) (on : Bool) (p : ℕ) (s : Idle)
    → has_mode on p (with_power output power s).2.sent ≡ has_mode on p s.sent
unfolding with_power send has_mode
with_power-has_mode output none on p s = refl
with_power-has_mode output (some q) on p s = refl

with_power-power :
    (output : PowerOutput) (power : Option ℕ) (s : Idle)
    → output.power ≡ power
    → (with_power output power s).1.power ≡ some (with_power output power s).0
unfolding with_power send
with_power-power output none s e = refl
with_power-power output (some p) s e = e

-- The client can set the outputs' power, and wants the mode.
unfoldable pub wants : Bool → Idle → Bool
wants on s = s.power_manager && (if on then s.want_on else not s.want_on)

output_apply-wants :
    (on : Bool) (output : PowerOutput) (s : Idle)
    → wants on s ≡ true
    → wants on (output_apply output s).1 ≡ true
unfolding wants output_apply send
output_apply-wants on output s h =
    ground
      (arith, with_power-managed output output.power s, with_power-want_on output output.power s)

output_apply-keeps :
    (on : Bool) (output : PowerOutput) (p : ℕ) (s : Idle)
    → wants on s ≡ true
    → has_mode on p s.sent ≡ true
    → has_mode on p (output_apply output s).1.sent ≡ true
unfolding wants output_apply send has_mode
output_apply-keeps on output p s h m =
    ground (arith, with_power-has_mode output output.power on p s)

has_mode-set_mode :
    (on want : Bool) (p : ℕ) (rs : List Request)
    → (if on then want else not want) ≡ true
    → has_mode on p (set_mode p want ∷ rs) ≡ true
unfolding has_mode
has_mode-set_mode on want p rs h = ground arith

output_apply-with_power :
    (output : PowerOutput) (s : Idle)
    → s.power_manager ≡ true
    → output_apply output s ≡ (
      (with_power output output.power s).1,
      send
          (set_mode (with_power output output.power s).0 s.want_on)
          (with_power output output.power s).2,
    )
unfolding output_apply
output_apply-with_power output s m =
    ap
      (λ b. if not b then (output, s) else (
        (with_power output output.power s).1,
        send (set_mode (with_power output output.power s).0 s.want_on)
            (with_power output output.power s).2,
      ))
      m

output_apply-told :
    (on : Bool) (output : PowerOutput) (s : Idle)
    → wants on s ≡ true
    → told on (output_apply output s).1.sent (output_apply output s).0 ≡ true
unfolding wants told send
output_apply-told on output s h =
    ap (λ r. told on r.1.sent r.0)
      (output_apply-with_power output s
        (and-true s.power_manager (if on then s.want_on else not s.want_on) h).0)
    ∙ ap
        (told_power on (
          set_mode (with_power output output.power s).0 s.want_on
          ∷ (with_power output output.power s).2.sent))
        (with_power-power output output.power s refl)
    ∙ has_mode-set_mode on s.want_on (with_power output output.power s).0
        (with_power output output.power s).2.sent
        (and-true s.power_manager (if on then s.want_on else not s.want_on) h).1

told-keeps :
    (on : Bool) (output : PowerOutput) (power : Option ℕ) (s : Idle)
    → wants on s ≡ true
    → told_power on s.sent power ≡ true
    → told_power on (output_apply output s).1.sent power ≡ true
told-keeps on output none s h t = t
told-keeps on output (some p) s h t = output_apply-keeps on output p s h t

apply_all-keeps :
    (on : Bool) (outputs : List PowerOutput) (power : Option ℕ) (s : Idle)
    → wants on s ≡ true
    → told_power on s.sent power ≡ true
    → told_power on (apply_all outputs s).1.sent power ≡ true
unfolding apply_all
apply_all-keeps on [] power s h t = t
apply_all-keeps on (output ∷ rest) power s h t =
    apply_all-keeps on rest power (output_apply output s).1 (output_apply-wants on output s h)
      (told-keeps on output power s h t)

apply_all-told :
    (on : Bool) (outputs : List PowerOutput) (s : Idle)
    → wants on s ≡ true
    → all (told on (apply_all outputs s).1.sent) (apply_all outputs s).0 ≡ true
unfolding apply_all told
apply_all-told on [] s h = refl
apply_all-told on (output ∷ rest) s h =
    let w = output_apply-wants on output s h in
    let first =
      apply_all-keeps on rest (output_apply output s).0.power (output_apply output s).1 w
        (output_apply-told on output s h) in
    let others = apply_all-told on rest (output_apply output s).1 w in ground (arith, first, others)

told-flush :
    (on : Bool) (rs : List Request) (output : PowerOutput)
    → told on rs output ≡ true
    → told on (flush ∷ rs) output ≡ true
unfolding told has_mode
told-flush on rs output h = told_power-flush output.power h
  where
    told_power-flush :
        (power : Option ℕ) → told_power on rs power ≡ true → told_power on (flush ∷ rs) power ≡ true
    told_power-flush none h = h
    told_power-flush (some p) h = h

flush_display-told :
    (on : Bool) (s : Idle)
    → all (told on s.sent) s.outputs ≡ true
    → all (told on (flush_display s).sent) (flush_display s).outputs ≡ true
unfolding flush_display send
flush_display-told on s h = elim (Bool-cases s.display) [
  | inl d ↦
      ap (λ r. all (told on r.sent) r.outputs) (ap (λ b. if b then send flush s else s) d)
      ∙ all_mono (told on s.sent) (told on (flush ∷ s.sent)) s.outputs (told-flush on s.sent) h
  | inr d ↦ ap (λ r. all (told on r.sent) r.outputs) (ap (λ b. if b then send flush s else s) d) ∙ h
]

-- With a power manager, every output that the client has after `singularity_output_power_set` has a
-- power object, whose last request asked for the mode.
pub output_power_set-told :
    (on : Bool) (s : Idle)
    → s.power_manager ≡ true
    → all (told on (output_power_set on s).sent) (output_power_set on s).outputs ≡ true
unfolding output_power_set wants
output_power_set-told on s m =
    let applied = apply_all s.outputs (record s { want_on = on }) in
    let t = applied.1 in
    flush_display-told on (record t { outputs = applied.0 })
      (apply_all-told on s.outputs (record s { want_on = on }) (ground arith))
