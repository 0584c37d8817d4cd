-- ===== src/KeyHold.antt =====
-- src/wayland/key_hold.c: the client that is told when a modifier key is held, and its delay.
-- Protocol objects are not told apart; `sent` holds the requests, the last one first.
mod Tests
use singularity_shell.Base.{
  ℕ, ◌≡◌, refl, Bool, true, false, not, ◌&&◌, Option, none, some, List, [], ◌∷◌, arith, ltb, ◌==◌,
  if◌then◌else◌,
}

pub data Request : Type 0 where
  set_delay_request : ℕ → Request
  finish_request : Request
  flush : Request

-- The static `hold`, its callback reduced to whether there is one.
pub record Hold : Type 0 where
  pub registry : Bool
  pub manager : Bool
  pub has_callback : Bool
  pub delay_ms : ℕ
  pub sent : List Request

abbrev pub initial : Hold
initial = record {
  registry = false;
  manager = false;
  has_callback = false;
  delay_ms = 0;
  sent = [];
}

unfoldable pub send : Request → Hold → Hold
send r s = record s { sent = r ∷ s.sent }

-- `registry_global`, with whether the interface is the key hold manager's.
unfoldable pub registry_global : Bool → Hold → Hold
unfolding send
registry_global is_key_hold s =
    if is_key_hold && not s.manager
    then (if ltb 0 s.delay_ms
        then send (set_delay_request s.delay_ms) (record s { manager = true })
        else record s { manager = true })
    else s

unfoldable pub announce : List Bool → Hold → Hold
announce [] s = s
announce (is_key_hold ∷ rest) s = announce rest (registry_global is_key_hold s)

-- singularity_key_hold_init, with whether there is a Wayland display and with the globals that the
-- round trip announces.
unfoldable pub init : Bool → Bool → List Bool → Hold → Bool × Hold
init callback wayland globals s =
    let called = record s { has_callback = callback } in
    if called.registry
    then (called.manager, called)
    else if not wayland
    then (false, called)
    else let t = announce globals (record called { registry = true }) in (t.manager, t)

-- singularity_key_hold_set_delay
unfoldable pub set_delay : ℕ → Hold → Hold
unfolding send
set_delay delay s =
    let t = record s { delay_ms = delay } in
    if t.manager then send flush (send (set_delay_request delay) t) else t

-- singularity_key_hold_finish
unfoldable pub finish : Hold → Hold
unfolding send
finish s = if s.manager then send flush (send finish_request s) else s

-- What the callback is called with, if there is one: whether the hold starts, and whether it was
-- cancelled. `hold_end` gets the reason of the event.
unfoldable pub hold_start : Hold → Option (Bool × Bool)
hold_start s = if s.has_callback then some (true, false) else none

unfoldable pub hold_end : Bool → Hold → Option (Bool × Bool)
hold_end is_cancelled s = if s.has_callback then some (false, is_cancelled) else none

-- The calls of the client, and a global that the registry announces later.
pub data Event : Type 0 where
  initialized : Bool → Bool → List Bool → Event
  delayed : ℕ → Event
  finished : Event
  announced : Bool → Event

unfoldable pub step : Event → Hold → Hold
step (initialized callback wayland globals) s = (init callback wayland globals s).1
step (delayed delay) s = set_delay delay s
step finished s = finish s
step (announced is_key_hold) s = registry_global is_key_hold s

unfoldable pub steps : List Event → Hold → Hold
steps [] s = s
steps (e ∷ es) s = steps es (step e s)

-- The delay that the compositor was last asked for, 0 where it never was.
unfoldable pub asked : List Request → ℕ
asked [] = 0
asked (set_delay_request delay ∷ rs) = delay
asked (r ∷ rs) = asked rs

-- Before there is a manager nothing was asked for; with one, the delay was.
unfoldable pub settled : Hold → Bool
settled s = asked s.sent == (if s.manager then s.delay_ms else 0)

registry_global-settled :
    (is_key_hold : Bool) (s : Hold)
    → settled s ≡ true
    → settled (registry_global is_key_hold s) ≡ true
unfolding settled registry_global send asked
registry_global-settled is_key_hold s h = ground arith

announce-settled :
    (globals : List Bool) (s : Hold) → settled s ≡ true → settled (announce globals s) ≡ true
unfolding announce
announce-settled [] s h = h
announce-settled (g ∷ rest) s h =
    announce-settled rest (registry_global g s) (registry_global-settled g s h)

step-settled : (e : Event) (s : Hold) → settled s ≡ true → settled (step e s) ≡ true
unfolding step init set_delay finish settled send asked
step-settled (initialized callback wayland globals) s h =
    ground
      (arith, announce-settled globals (record s { has_callback = callback; registry = true }) h)
step-settled (delayed delay) s h = ground arith
step-settled finished s h = ground arith
step-settled (announced is_key_hold) s h = registry_global-settled is_key_hold s h

steps-settled : (es : List Event) (s : Hold) → settled s ≡ true → settled (steps es s) ≡ true
unfolding steps
steps-settled [] s h = h
steps-settled (e ∷ es) s h = steps-settled es (step e s) (step-settled e s h)

settled-initial : settled initial ≡ true
unfolding settled asked
settled-initial = refl

settled-asked : (s : Hold) → settled s ≡ true → s.manager ≡ true → asked s.sent ≡ s.delay_ms
unfolding settled
settled-asked s h m = ground arith

-- Whatever the order of the calls and of the manager's announcement: once there is a manager, the delay
-- that the compositor was last asked for is the client's delay.
pub steps-delay_ms :
    (es : List Event)
    → (steps es initial).manager ≡ true
    → asked (steps es initial).sent ≡ (steps es initial).delay_ms
steps-delay_ms es m = settled-asked (steps es initial) (steps-settled es initial settled-initial) m
