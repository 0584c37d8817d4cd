-- ===== src/Lock/Tests.antt =====
-- The session locker on concrete events, and its theorems applied to them.
use singularity_shell.Base.{
  Option, ℕ, ◌+◌, ◌<◌, ◌≡◌, refl, Bool, true, false, ◌&&◌, none, some, List, [], ◌∷◌, ◌++◌, arith,
  leb, ◌==◌, if◌then◌else◌, all,
}
use singularity_shell.CString.{Text, codes}
use singularity_shell.Int.{pos}
use singularity_shell.Lock.Defs.{LockOutput, Lock, World, Settings, initial}
use singularity_shell.Lock.Auth.{password_size, roundtrip_done, submit_password, frame_done}
use singularity_shell.Lock.Input.{
  Keysym, kb_keymap, kb_key, pt_enter, pt_button, key_return, key_backspace, other_key,
}
use singularity_shell.Lock.Events.{
  lock_locked, lock_surface_configure, reg_global, reg_remove, request_lock, Event, step, steps,
  global_compositor, global_shm, global_lock_manager, global_seat, global_output, global_added,
  global_removed, lock_requested, lock_granted, surface_configured, frame_shown, keymap, key,
  pointer_entered, button, roundtrip_ended,
}
use singularity_shell.Lock.Drawing.{unlocks}
use singularity_shell.Lock.Unlock.{opens}
use singularity_shell.Lock.Grants.{granted, steps-opens}
use singularity_shell.Lock.Typing.{step-line, steps-password_len, submit_password-wiped}
use singularity_shell.Lock.Lines.{line, line_after}
use singularity_shell.Lock.Covered.{is_ordered, steps-surfaced}
use singularity_shell.Lock.Pam.{
  GivesPassword, DaemonAgrees, System, daemon_verify, Pam, singularity_pam_authenticate,
  singularity_pam_authenticate_lem,
}
use singularity_shell.Lock.Fprint
use singularity_shell.Lock.Stopped.{stopped-calls}

abbrev is_text : Text → Text → Bool
is_text [] [] = true
is_text (a ∷ text) (b ∷ other) = a == b && is_text text other
is_text _ _ = false

-- The clock is the only thing that changes; the password is "hi".
abbrev at : ℕ → World
at now = record {
  now = now;
  makes_buffer = true;
  has_player = true;
  card_x = pos 100;
  card_y = pos 100;
  card_w = pos 1000;
  card_h = pos 500;
  shake_rests = λ t. leb 500000 t;
  broker_socket = false;
  authenticate = is_text (codes "hi");
  truncated = λ text i. 0;
}

abbrev settings : Settings
settings = record {
  has_source = true;
  reduce_motion = some false;
  duration_scale = some 1000;
  enable_animations = none;
}

-- The locker starts, with one output, and a second one is plugged in.
abbrev locking : List (World × Event)
locking =
    (at 0, global_added 1 global_compositor)
    ∷ (at 0, global_added 2 global_shm)
    ∷ (at 0, global_added 3 global_lock_manager)
    ∷ (at 0, global_added 4 global_seat)
    ∷ (at 0, global_added 5 global_output)
    ∷ (at 0, lock_requested)
    ∷ (at 0, lock_granted)
    ∷ (at 1, surface_configured 0)
    ∷ (at 1, keymap true true true)
    ∷ (at 2, global_added 6 global_output)
    ∷ []

abbrev press : ℕ → Keysym → Text → World × Event
press now k text = (at now, key true k text)

abbrev wrong_then_right : List (World × Event)
wrong_then_right =
    press 10 other_key (codes "h")
    ∷ press 11 key_return []
    ∷ press 12 other_key (codes "h")
    ∷ press 13 other_key (codes "x")
    ∷ press 14 key_backspace []
    ∷ press 15 other_key (codes "i")
    ∷ press 16 key_return []
    ∷ []

-- The output's frames until the animation is over, and the round trip of the unlocking.
abbrev ending : List (World × Event)
ending = (at 400000, frame_shown 0) ∷ (at 800000, frame_shown 0) ∷ (at 800001, roundtrip_ended) ∷ []

abbrev session : List (World × Event)
session = locking ++ (wrong_then_right ++ ending)

ends_unlocked :
    (unlocks (steps session (initial settings)).sent ≡ true)
    × ((steps session (initial settings)).running ≡ false)
unfolding singularity_shell.Lock.Input.key_buf unlocks steps step roundtrip_done frame_done kb_key
    reg_global kb_keymap lock_surface_configure lock_locked request_lock initial
    singularity_shell.CString.before
ends_unlocked = (refl, refl)

stays_locked :
    opens (
      steps
        (locking ++ (press 10 other_key (codes "h") ∷ press 11 key_return [] ∷ []))
        (initial settings))
    ≡ false
unfolding singularity_shell.Lock.Input.key_buf singularity_shell.Lock.Unlock.opens_of steps step
    kb_key reg_global kb_keymap lock_surface_configure lock_locked request_lock initial
    singularity_shell.CString.before unlocks
stays_locked = refl

abbrev locked_state : Lock
locked_state = steps locking (initial settings)

abbrev typed_state : Lock
typed_state = steps (press 10 other_key (codes "h") ∷ []) locked_state

-- After a keymap that does not compile, the next key uses the released state.
keymap_fault :
    (steps
      ((at 20, keymap true true false) ∷ press 21 other_key (codes "a") ∷ [])
      locked_state).faulted
    ≡ true
unfolding steps step kb_key kb_keymap reg_global lock_surface_configure lock_locked request_lock
    initial
keymap_fault = refl

-- An output is removed under the pointer, and a button is pressed.
pointer_fault :
    (steps
      ((at 20, pointer_entered 1 (pos 0) (pos 0))
        ∷ (at 21, global_removed 6)
        ∷ (at 22, button true true)
        ∷ [])
      locked_state).faulted
    ≡ true
unfolding steps step pt_button reg_remove pt_enter reg_global kb_keymap lock_surface_configure
    lock_locked request_lock initial
pointer_fault = refl

steps-opens_example : opens (steps session (initial settings)) ≡ granted session (initial settings)
steps-opens_example = steps-opens settings session

step-line_example :
    line (step (at 12) (key true key_backspace []) typed_state)
    ≡ line_after (key true key_backspace []) typed_state
step-line_example = step-line (at 12) (key true key_backspace []) typed_state (omega arith)

steps-password_len_example : (steps session (initial settings)).password_len + 1 < password_size
steps-password_len_example = steps-password_len settings session

typed_len : typed_state.password_len ≡ 1
unfolding singularity_shell.Lock.Input.key_buf steps step kb_key reg_global kb_keymap
    lock_surface_configure lock_locked request_lock initial
typed_len = refl

one_typed : 0 < typed_state.password_len
one_typed = omega (arith, typed_len)

submit_password-wiped_example :
    ((submit_password (at 11) typed_state).password_len ≡ 0)
    × ((submit_password (at 11) typed_state).password 0 ≡ 0)
submit_password-wiped_example = submit_password-wiped (at 11) typed_state 0 one_typed (omega arith)

locking_ordered : is_ordered locking (initial settings) ≡ true
unfolding is_ordered step request_lock reg_global initial
locking_ordered = refl

locking_locked : (steps locking (initial settings)).locked ≡ true
unfolding steps step reg_global kb_keymap lock_surface_configure lock_locked request_lock initial
locking_locked = refl

steps-surfaced_example :
    all (λ (o : LockOutput). o.lock_surface) (steps locking (initial settings)).outputs ≡ true
steps-surfaced_example = steps-surfaced settings locking locking_ordered locking_locked

abbrev broker : System
broker = record {
  socket_exists = true;
  connects = true;
  answer =
      λ request. if is_text request (codes "verify\n1000\n1234\n") then some (codes "OK") else none;
  uid = 1000;
  has_memory = true;
}

abbrev pam : Pam
pam = record { start = 0; check = λ ask. (ask (1 ∷ [])).0 }

singularity_pam_authenticate_lem_example :
    let result = singularity_pam_authenticate broker pam (codes "1234") none in
    (broker.socket_exists && broker.connects ≡ true
      → (result.0 ≡ 0 → DaemonAgrees broker (codes "1234"))
        × (DaemonAgrees broker (codes "1234") → result.0 ≡ 0))
    × (broker.socket_exists && broker.connects ≡ false
        → (conv : List ℕ → ℕ × List (Option Text))
        → GivesPassword broker.has_memory (codes "1234") conv
        → result.0 ≡ (if pam.start == 0 then pam.check conv else pam.start))
    × (result.1 ≡ none)
singularity_pam_authenticate_lem_example =
    singularity_pam_authenticate_lem broker pam (codes "1234")

-- The daemon, asked with the right number, unlocks.
daemon_agrees : (singularity_pam_authenticate broker pam (codes "1234") none).0 ≡ 0
unfolding singularity_pam_authenticate daemon_verify singularity_shell.Lock.Pam.daemon_request
    singularity_shell.Lock.Pam.by_verdict singularity_shell.CString.Numbers.print_nat
daemon_agrees = refl

abbrev verifying_events : List Fprint.Event
verifying_events =
    Fprint.started true
    ∷ Fprint.finished 0 true 0
    ∷ Fprint.finished 0 true 0
    ∷ Fprint.finished 0 true 0
    ∷ Fprint.finished 0 true 2
    ∷ Fprint.finished 0 true 0
    ∷ []

abbrev late_events : List Fprint.Event
late_events = Fprint.finished 0 true 0 ∷ Fprint.signalled Fprint.verify_no_match true ∷ []

asks_to_verify :
    (Fprint.steps verifying_events Fprint.initial).calls
    ≡ Fprint.verify_start ∷ Fprint.claim ∷ Fprint.list_enrolled_fingers ∷ Fprint.new_device
      ∷ Fprint.get_default_device ∷ Fprint.new_manager ∷ []
unfolding Fprint.steps Fprint.step Fprint.lock_fprint_start
asks_to_verify = refl

stopped-calls_example :
    (Fprint.steps late_events
      (Fprint.lock_fprint_stop (Fprint.steps verifying_events Fprint.initial))).calls
    ≡ (Fprint.lock_fprint_stop (Fprint.steps verifying_events Fprint.initial)).calls
stopped-calls_example = stopped-calls verifying_events late_events refl
