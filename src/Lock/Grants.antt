-- ===== src/Lock/Grants.antt =====
-- src/lockscreen/lock_main.c: the session is unlocked exactly where an event granted it.
use singularity_shell.Base.{
  ℕ, ◌+◌, ◌-◌, ◌≡◌, refl, sym, ap, ◌∙◌, Bool, true, false, not, ◌&&◌, ◌||◌, List, [], ◌∷◌, arith,
  ltb, if◌then◌else◌, length, if_same,
}
use mathlib.Core.Bool.{◌||◌}
use singularity_shell.CString.{Text}
use singularity_shell.Lock.Defs.{
  is_leave, XkbState, Lock, World, send, Settings, start_phase, initial, no_state, live_state,
  released_state,
}
use singularity_shell.Lock.Auth.{password_size, store_byte}
use singularity_shell.Lock.Input.{
  key_buf, Keysym, kb_modifiers, store_bytes, clear_status, is_printable, type_text, press_key,
  key_with, kb_key, pt_enter, pt_leave, pt_motion, change_pointer, seat_capabilities, key_return,
  key_kp_enter, key_backspace, key_escape, key_audio_play, key_audio_pause, key_audio_next,
  key_audio_prev, other_key,
}
use singularity_shell.Lock.Events.{
  lock_finished, configure, lock_surface_configure, remove_output, reg_remove, Event, step, steps,
  global_added, global_removed, lock_requested, lock_granted, lock_ended, surface_configured,
  frame_shown, capabilities, keymap, modifiers, key, pointer_entered, pointer_left, pointer_moved,
  button, fingerprint_matched, fingerprint_status, media_changed, minute_passed, roundtrip_ended,
}
use singularity_shell.Lock.Drawing.{unlocks}
use singularity_shell.Lock.Unlock.{
  opens_of, opens, or_true, or_false, or_of_right, door, opens-render_all, opens-on_fprint_match,
  accepts, opens-submit_password,
}
use singularity_shell.Lock.Quiet.{door-step}

abbrev pub is_live : XkbState → Bool
is_live live_state = true
is_live _ = false

abbrev pub is_enter : Keysym → Bool
is_enter key_return = true
is_enter key_kp_enter = true
is_enter _ = false

-- Whether the event proves that the user is there: the fingerprint matches, or Return is pressed
-- behind a text that the authentication accepts.
unfoldable pub grants : World → Event → Lock → Bool
grants w (key pressed k text) s =
    pressed && not (is_leave s.phase) && is_live s.xkb_state && is_enter k && accepts w s
grants w fingerprint_matched s = true
grants w _ s = false

unfoldable pub granted : List (World × Event) → Lock → Bool
unfolding grants
granted [] s = false
granted ((w, e) ∷ es) s = grants w e s || granted es (step w e s)

opens-store_bytes : (text : Text) (s : Lock) → opens (store_bytes text s) ≡ opens s
unfolding store_bytes store_byte opens_of
opens-store_bytes [] s = refl
opens-store_bytes (c ∷ text) s =
    let stored = store_byte s.password_len c s in
    opens-store_bytes text (record stored { password_len = stored.password_len + 1 })

opens-type_text : (w : World) (text : Text) (s : Lock) → opens (type_text w text s) ≡ opens s
unfolding type_text clear_status opens_of
opens-type_text w text s =
    let buf = key_buf w text in
    if_same opens (is_printable buf && ltb (s.password_len + length buf) (password_size - 1))
      (opens-render_all w (clear_status (store_bytes buf s)) ∙ opens-store_bytes buf s) refl

opens-press_key :
    (w : World) (k : Keysym) (text : Text) (s : Lock)
    → opens (press_key w k text s) ≡ (opens s || (is_enter k && accepts w s))
unfolding press_key store_byte clear_status send unlocks opens_of
opens-press_key w key_return text s = opens-submit_password w s
opens-press_key w key_kp_enter text s = opens-submit_password w s
opens-press_key w key_backspace text s =
    opens-render_all w (
      clear_status (
        if ltb 0 s.password_len
        then store_byte (s.password_len - 1) 0 (record s { password_len = s.password_len - 1 })
        else s))
    ∙ if_same opens (ltb 0 s.password_len) refl refl
    ∙ sym (or_false (opens s))
opens-press_key w key_escape text s =
    opens-render_all w (clear_status (store_byte 0 0 (record s { password_len = 0 })))
    ∙ sym (or_false (opens s))
opens-press_key w key_audio_play text s = sym (or_false (opens s))
opens-press_key w key_audio_pause text s = sym (or_false (opens s))
opens-press_key w key_audio_next text s = sym (or_false (opens s))
opens-press_key w key_audio_prev text s = sym (or_false (opens s))
opens-press_key w other_key text s = opens-type_text w text s ∙ sym (or_false (opens s))

opens-key_with :
    (x : XkbState) (w : World) (k : Keysym) (text : Text) (s : Lock)
    → opens (key_with x w k text s) ≡ (opens s || (is_live x && is_enter k && accepts w s))
unfolding key_with opens_of
opens-key_with no_state w k text s = sym (or_false (opens s))
opens-key_with live_state w k text s = opens-press_key w k text s
opens-key_with released_state w k text s = sym (or_false (opens s))

opens-kb_key :
    (w : World) (pressed : Bool) (k : Keysym) (text : Text) (s : Lock)
    → opens (kb_key w pressed k text s) ≡ (
        opens s
        || (pressed && not (is_leave s.phase) && is_live s.xkb_state && is_enter k && accepts w s))
unfolding kb_key
opens-kb_key w pressed k text s =
    let typed_key = opens-key_with s.xkb_state w k text s in ground (arith, typed_key)

-- What an event that grants nothing does not change.
opens-quiet : (s t : Lock) → door t ≡ door s → opens t ≡ (opens s || false)
opens-quiet s t h = ap (λ (d : Bool × ((ℕ → ℕ) × ℕ)). d.0) h ∙ sym (or_false (opens s))

opens-step : (w : World) (e : Event) (s : Lock) → opens (step w e s) ≡ (opens s || grants w e s)
unfolding step grants opens_of reg_remove remove_output lock_finished lock_surface_configure
    configure seat_capabilities change_pointer kb_modifiers pt_enter pt_leave pt_motion
opens-step w (key pressed k text) s = opens-kb_key w pressed k text s
opens-step w fingerprint_matched s = opens-on_fprint_match w s ∙ sym (or_true (opens s))
opens-step w (global_added name g) s =
    opens-quiet s (step w (global_added name g) s) (door-step w (global_added name g) s refl)
opens-step w (global_removed name) s =
    opens-quiet s (step w (global_removed name) s) (door-step w (global_removed name) s refl)
opens-step w lock_requested s =
    opens-quiet s (step w lock_requested s) (door-step w lock_requested s refl)
opens-step w lock_granted s =
    opens-quiet s (step w lock_granted s) (door-step w lock_granted s refl)
opens-step w lock_ended s = opens-quiet s (step w lock_ended s) (door-step w lock_ended s refl)
opens-step w (surface_configured object) s =
    opens-quiet s (step w (surface_configured object) s)
      (door-step w (surface_configured object) s refl)
opens-step w (frame_shown object) s =
    opens-quiet s (step w (frame_shown object) s) (door-step w (frame_shown object) s refl)
opens-step w (capabilities has_keyboard has_pointer) s =
    opens-quiet s (step w (capabilities has_keyboard has_pointer) s)
      (door-step w (capabilities has_keyboard has_pointer) s refl)
opens-step w (keymap known_format maps compiles) s =
    opens-quiet s (step w (keymap known_format maps compiles) s)
      (door-step w (keymap known_format maps compiles) s refl)
opens-step w modifiers s = opens-quiet s (step w modifiers s) (door-step w modifiers s refl)
opens-step w (pointer_entered surface x y) s =
    opens-quiet s (step w (pointer_entered surface x y) s)
      (door-step w (pointer_entered surface x y) s refl)
opens-step w pointer_left s =
    opens-quiet s (step w pointer_left s) (door-step w pointer_left s refl)
opens-step w (pointer_moved x y) s =
    opens-quiet s (step w (pointer_moved x y) s) (door-step w (pointer_moved x y) s refl)
opens-step w (button is_left pressed) s =
    opens-quiet s (step w (button is_left pressed) s) (door-step w (button is_left pressed) s refl)
opens-step w (fingerprint_status text error) s =
    opens-quiet s (step w (fingerprint_status text error) s)
      (door-step w (fingerprint_status text error) s refl)
opens-step w media_changed s =
    opens-quiet s (step w media_changed s) (door-step w media_changed s refl)
opens-step w minute_passed s =
    opens-quiet s (step w minute_passed s) (door-step w minute_passed s refl)
opens-step w roundtrip_ended s =
    opens-quiet s (step w roundtrip_ended s) (door-step w roundtrip_ended s refl)

or_assoc : (x y z : Bool) → ((x || y) || z) ≡ (x || (y || z))
or_assoc true y z = refl
or_assoc false y z = refl

opens-steps :
    (es : List (World × Event)) (s : Lock) → opens (steps es s) ≡ (opens s || granted es s)
unfolding steps granted
opens-steps [] s = sym (or_false (opens s))
opens-steps ((w, e) ∷ es) s =
    opens-steps es (step w e s)
    ∙ ap (λ x. x || granted es (step w e s)) (opens-step w e s)
    ∙ or_assoc (opens s) (grants w e s) (granted es (step w e s))

opens-initial : (settings : Settings) → opens (initial settings) ≡ false
unfolding initial start_phase opens_of unlocks
opens-initial settings = refl

-- From the start of the locker and over any sequence of events, the lock is on its way to end (the
-- leaving animation runs, or `unlock_and_destroy` is sent) if and only if one of the events granted it:
-- the fingerprint matched, or Return was pressed, with a keymap, behind a text that PAM accepted.
pub steps-opens :
    (settings : Settings) (es : List (World × Event))
    → opens (steps es (initial settings)) ≡ granted es (initial settings)
steps-opens settings es =
    opens-steps es (initial settings)
    ∙ ap (λ x. x || granted es (initial settings)) (opens-initial settings)

-- The session is not unlocked unless it was granted: over any sequence of events from the start,
-- where `unlock_and_destroy` is sent, the fingerprint matched or PAM accepted the text behind which
-- Return was pressed.
pub unlocks-granted :
    (settings : Settings) (es : List (World × Event))
    → unlocks (steps es (initial settings)).sent ≡ true
    → granted es (initial settings) ≡ true
unfolding opens_of
unlocks-granted settings es h =
    sym (steps-opens settings es)
    ∙ or_of_right (is_leave (steps es (initial settings)).phase)
        (unlocks (steps es (initial settings)).sent) h
