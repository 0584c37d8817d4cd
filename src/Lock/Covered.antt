-- ===== src/Lock/Covered.antt =====
-- src/lockscreen/lock_main.c: the lock surfaces over the events.
use singularity_shell.Base.{
  ◌≡◌, refl, ap, ◌∙◌, Bool, true, false, not, ◌&&◌, ◌||◌, List, [], ◌∷◌, map, arith, all, and-true,
}
use singularity_shell.Lock.Defs.{LockOutput, Lock, World, Settings, start_phase, initial}
use singularity_shell.Lock.Render.{render_all, find_output}
use singularity_shell.Lock.Auth.{
  roundtrip_done, on_fprint_match, on_fprint_status, redraw, frame_done,
}
use singularity_shell.Lock.Input.{
  kb_keymap, kb_modifiers, kb_key, pt_enter, pt_leave, pt_motion, pt_button, change_keyboard,
  change_pointer, seat_capabilities,
}
use singularity_shell.Lock.Events.{
  lock_finished, configure, lock_surface_configure, find_name, reg_remove, Event, step, steps,
  global_added, global_removed, lock_requested, lock_granted, lock_ended, surface_configured,
  frame_shown, capabilities, keymap, modifiers, key, pointer_entered, pointer_left, pointer_moved,
  button, fingerprint_matched, fingerprint_status, media_changed, minute_passed, roundtrip_ended,
}
use singularity_shell.Lock.Drawing.{plain}
use singularity_shell.Lock.Cover.{
  cover, cover-render_all, cover-on_fprint_match, cover-on_fprint_status, cover-kb_key,
  cover-change_keyboard, cover-change_pointer, cover-kb_keymap, cover-pt_button,
  cover-roundtrip_done,
}
use singularity_shell.Lock.Surfaces.{surfaced, seal_of, seal, is_sealed, all-plain}
use singularity_shell.Lock.Sealed.{
  seal-redraw, seal-configure, lock_locked-is_sealed, reg_global-is_sealed, remove_output-is_sealed,
  request_lock-is_sealed,
}

is_sealed-same :
    (s t : Lock) → seal t ≡ seal s → is_sealed (seal s) ≡ true → is_sealed (seal t) ≡ true
is_sealed-same s t e h = ap is_sealed e ∙ h

is_sealed-kept :
    (s t : Lock) → cover t ≡ cover s → is_sealed (seal s) ≡ true → is_sealed (seal t) ≡ true
is_sealed-kept s t e h = is_sealed-same s t (ap seal_of e) h

-- Whether the event is the compositor's word that the session is locked.
abbrev is_grant : Event → Bool
is_grant lock_granted = true
is_grant _ = false

step-is_sealed :
    (w : World) (e : Event) (s : Lock)
    → (is_grant e ≡ true → s.lock ≡ true)
    → is_sealed (seal s) ≡ true
    → is_sealed (seal (step w e s)) ≡ true
unfolding step reg_remove lock_finished lock_surface_configure frame_done seat_capabilities
    kb_modifiers pt_enter pt_leave pt_motion
step-is_sealed w (global_added name g) s o h = reg_global-is_sealed name g s h
step-is_sealed w (global_removed name) s o h =
    remove_output-is_sealed (find_name name s.outputs) name s h
step-is_sealed w lock_requested s o h = request_lock-is_sealed s h
step-is_sealed w lock_granted s o h = lock_locked-is_sealed s (o refl)
step-is_sealed w lock_ended s o h = h
step-is_sealed w (surface_configured object) s o h =
    is_sealed-same s (configure w (find_output object s.outputs) s)
      (seal-configure w object (find_output object s.outputs) s refl) h
step-is_sealed w (frame_shown object) s o h =
    is_sealed-same s (redraw w (find_output object s.outputs) s)
      (seal-redraw w object (find_output object s.outputs) s refl) h
step-is_sealed w (capabilities k p) s o h =
    is_sealed-kept s (change_pointer p (change_keyboard k s))
      (cover-change_pointer p (change_keyboard k s) ∙ cover-change_keyboard k s) h
step-is_sealed w (keymap f m c) s o h =
    is_sealed-kept s (kb_keymap f m c s) (cover-kb_keymap f m c s) h
step-is_sealed w modifiers s o h = h
step-is_sealed w (key pressed k text) s o h =
    is_sealed-kept s (kb_key w pressed k text s) (cover-kb_key w pressed k text s) h
step-is_sealed w (pointer_entered surface x y) s o h = h
step-is_sealed w pointer_left s o h = h
step-is_sealed w (pointer_moved x y) s o h = h
step-is_sealed w (button l p) s o h = is_sealed-kept s (pt_button l p s) (cover-pt_button l p s) h
step-is_sealed w fingerprint_matched s o h =
    is_sealed-kept s (on_fprint_match w s) (cover-on_fprint_match w s) h
step-is_sealed w (fingerprint_status text error) s o h =
    is_sealed-kept s (on_fprint_status w text error s) (cover-on_fprint_status w text error s) h
step-is_sealed w media_changed s o h = is_sealed-kept s (render_all w s) (cover-render_all w s) h
step-is_sealed w minute_passed s o h = is_sealed-kept s (render_all w s) (cover-render_all w s) h
step-is_sealed w roundtrip_ended s o h =
    is_sealed-kept s (roundtrip_done s) (cover-roundtrip_done s) h

-- The compositor says that the session is locked only to the object that was asked for.
unfoldable pub is_ordered : List (World × Event) → Lock → Bool
is_ordered [] s = true
is_ordered ((w, e) ∷ es) s = (not (is_grant e) || s.lock) && is_ordered es (step w e s)

steps-is_sealed :
    (es : List (World × Event)) (s : Lock)
    → is_ordered es s ≡ true
    → is_sealed (seal s) ≡ true
    → is_sealed (seal (steps es s)) ≡ true
unfolding is_ordered steps
steps-is_sealed [] s o h = h
steps-is_sealed ((w, e) ∷ es) s o h =
    let parts = and-true (not (is_grant e) || s.lock) (is_ordered es (step w e s)) o in
    let asked : is_grant e ≡ true → s.lock ≡ true = λ g. ground (arith, g, parts.0) in
    steps-is_sealed es (step w e s) parts.1 (step-is_sealed w e s asked h)

initial-is_sealed : (settings : Settings) → is_sealed (seal (initial settings)) ≡ true
unfolding initial start_phase
initial-is_sealed settings = refl

-- Over any sequence of events from the start, in which the compositor says that the session is locked
-- only after the lock was asked for: while the session is locked, every output has its lock surface,
-- those that were plugged in later too.
pub steps-surfaced :
    (settings : Settings) (es : List (World × Event))
    → is_ordered es (initial settings) ≡ true
    → (steps es (initial settings)).locked ≡ true
    → all (λ (o : LockOutput). o.lock_surface) (steps es (initial settings)).outputs ≡ true
steps-surfaced settings es o h =
    let t = steps es (initial settings) in
    let sealed = steps-is_sealed es (initial settings) o (initial-is_sealed settings) in
    all-plain t.outputs ∙ (and-true t.lock (surfaced (map plain t.outputs)) (rw h at sealed)).1
