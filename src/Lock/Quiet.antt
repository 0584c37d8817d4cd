-- ===== src/Lock/Quiet.antt =====
-- src/lockscreen/lock_main.c: the events that do not unlock the session.
use singularity_shell.Base.{
  ℕ, ◌+◌, ◌≡◌, refl, ◌∙◌, Bool, true, false, not, ◌&&◌, ◌||◌, Option, none, some, List, [], ◌∷◌,
  ◌==◌, and-true, if_same, if_cases,
}
use mathlib.Core.Bool.{◌||◌}
use singularity_shell.Lock.Defs.{
  Phase, is_leave, MediaButtons, LockOutput, Lock, World, send, phase_idle, phase_enter,
  phase_leave, get_lock_surface, ack_configure, destroy_output,
}
use singularity_shell.Lock.Render.{find_output, put_output}
use singularity_shell.Lock.Auth.{roundtrip_done, any_configured, leave_over, redraw, frame_done}
use singularity_shell.Lock.Input.{
  kb_keymap, kb_modifiers, pt_enter, pt_leave, pt_motion, is_inside, press_button, press_on,
  press_at, pt_button, change_keyboard, change_pointer, seat_capabilities,
}
use singularity_shell.Lock.Events.{
  create_lock_surface, create_surfaces, lock_locked, lock_finished, configure,
  lock_surface_configure, Global, add_output, reg_global, find_name, unlink_name, remove_output,
  reg_remove, request_lock, Event, step, global_compositor, global_shm, global_lock_manager,
  global_seat, global_output, global_other, global_added, global_removed, lock_requested,
  lock_granted, lock_ended, surface_configured, frame_shown, capabilities, keymap, modifiers, key,
  pointer_entered, pointer_left, pointer_moved, button, fingerprint_matched, fingerprint_status,
  media_changed, minute_passed, roundtrip_ended,
}
use singularity_shell.Lock.Drawing.{unlocks}
use singularity_shell.Lock.Unlock.{
  opens_of, door, door-render_all, door-render_in_place, door-send, door-unlock_session,
  door-on_fprint_status,
}

leave_over-is_leave :
    (w : World) (p : Phase) (start : Option ℕ) (anim_us : ℕ)
    → leave_over w p start anim_us ≡ true
    → is_leave p ≡ true
unfolding leave_over
leave_over-is_leave w phase_leave start anim_us h = refl
leave_over-is_leave w phase_idle start anim_us h = h
leave_over-is_leave w phase_enter start anim_us h = h

door-redraw : (w : World) (o : Option LockOutput) (s : Lock) → door (redraw w o s) ≡ door s
unfolding redraw opens_of
door-redraw w none s = refl
door-redraw w (some o) s =
    let cleared = record o { frame_cb = false } in
    let t = record s { outputs = put_output cleared s.outputs } in
    if_cases door (leave_over w s.phase s.anim_start s.anim_us)
      (λ over.
        door-unlock_session s (record t { phase = phase_idle })
          (leave_over-is_leave w s.phase s.anim_start s.anim_us over) refl)
      (λ goes_on. door-render_in_place w cleared t)

pub door-frame_done : (w : World) (object : ℕ) (s : Lock) → door (frame_done w object s) ≡ door s
unfolding frame_done
door-frame_done w object s = door-redraw w (find_output object s.outputs) s

pub door-configure :
    (w : World) (o : Option LockOutput) (s : Lock) → door (configure w o s) ≡ door s
unfolding configure send unlocks opens_of
door-configure w none s = refl
door-configure w (some o) s =
    let configured = record o { configured = true } in
    door-render_in_place w configured
      (send (ack_configure o.object) (record s { outputs = put_output configured s.outputs }))

door-create_lock_surface : (o : LockOutput) (s : Lock) → door (create_lock_surface o s).1 ≡ door s
unfolding create_lock_surface
door-create_lock_surface o s =
    if_same (λ (r : LockOutput × Lock). door r.1) (o.lock_surface || not s.lock) refl
      (door-send (get_lock_surface o.object) s refl)

door-create_surfaces : (os : List LockOutput) (s : Lock) → door (create_surfaces os s).1 ≡ door s
unfolding create_surfaces
door-create_surfaces [] s = refl
door-create_surfaces (o ∷ rest) s =
    door-create_surfaces rest (create_lock_surface o s).1 ∙ door-create_lock_surface o s

pub door-lock_locked : (s : Lock) → door (lock_locked s) ≡ door s
unfolding lock_locked opens_of
door-lock_locked s = door-create_surfaces s.outputs (record s { locked = true })

door-add_output : (name : ℕ) (s : Lock) → door (add_output name s) ≡ door s
unfolding add_output opens_of
door-add_output name s =
    let o : LockOutput = record {
      object = s.next_object;
      name = name;
      lock_surface = false;
      configured = false;
      buttons = none;
      frame_cb = false;
    } in
    let t = record s { next_object = s.next_object + 1 } in
    if_same (λ (r : LockOutput × Lock). door r.1) s.locked (door-create_lock_surface o t) refl

pub door-reg_global : (name : ℕ) (g : Global) (s : Lock) → door (reg_global name g s) ≡ door s
unfolding reg_global opens_of
door-reg_global name global_compositor s = refl
door-reg_global name global_shm s = refl
door-reg_global name global_lock_manager s = refl
door-reg_global name global_seat s = refl
door-reg_global name global_output s = door-add_output name s
door-reg_global name global_other s = refl

pub door-remove_output :
    (o : Option LockOutput) (rest : List LockOutput) (s : Lock)
    → door (remove_output o rest s) ≡ door s
unfolding remove_output send unlocks opens_of
door-remove_output none rest s = refl
door-remove_output (some dead) rest s =
    let t = send (destroy_output dead.object) (record s { outputs = rest }) in
    if_cases door (is_leave s.phase && not (any_configured rest))
      (λ last.
        door-unlock_session s t (and-true (is_leave s.phase) (not (any_configured rest)) last).0
          refl)
      (λ goes_on. refl)

pub door-request_lock : (s : Lock) → door (request_lock s) ≡ door s
unfolding request_lock send unlocks opens_of
door-request_lock s =
    if_same door (not s.compositor || not s.shm || not s.lock_manager || not s.seat) refl refl

pub door-change_keyboard : (has : Bool) (s : Lock) → door (change_keyboard has s) ≡ door s
unfolding change_keyboard send unlocks opens_of
door-change_keyboard has s =
    if_same door (has && not s.keyboard) refl (if_same door (not has && s.keyboard) refl refl)

pub door-change_pointer : (has : Bool) (s : Lock) → door (change_pointer has s) ≡ door s
unfolding change_pointer send unlocks opens_of
door-change_pointer has s =
    if_same door (has && not s.pointer) refl (if_same door (not has && s.pointer) refl refl)

pub door-kb_keymap : (f m c : Bool) (s : Lock) → door (kb_keymap f m c s) ≡ door s
unfolding kb_keymap opens_of
door-kb_keymap f m c s = if_same door (not f || not m) refl refl

door-press_button : (b : Option MediaButtons) (s : Lock) → door (press_button b s) ≡ door s
unfolding press_button send unlocks opens_of
door-press_button none s = refl
door-press_button (some b) s = if_same door (is_inside b.previous_x b.center_y 15 s) refl (
    if_same door (is_inside b.play_x b.center_y 17 s) refl
      (if_same door (is_inside b.next_x b.center_y 15 s) refl refl))

door-press_on : (o : Option LockOutput) (s : Lock) → door (press_on o s) ≡ door s
unfolding press_on opens_of
door-press_on none s = refl
door-press_on (some o) s = door-press_button o.buttons s

door-press_at : (p : Option ℕ) (s : Lock) → door (press_at p s) ≡ door s
unfolding press_at
door-press_at none s = refl
door-press_at (some object) s = door-press_on (find_output object s.outputs) s

pub door-pt_button : (l p : Bool) (s : Lock) → door (pt_button l p s) ≡ door s
unfolding pt_button
door-pt_button l p s = if_same door (not l || not p) refl (door-press_at s.ptr_output s)

pub door-roundtrip_done : (s : Lock) → door (roundtrip_done s) ≡ door s
unfolding roundtrip_done opens_of
door-roundtrip_done s = if_same door (s.roundtrips == 0) refl refl

-- Whether the event is neither a key nor a matching fingerprint.
abbrev pub is_quiet : Event → Bool
is_quiet (key pressed k text) = false
is_quiet fingerprint_matched = false
is_quiet _ = true

pub door-step : (w : World) (e : Event) (s : Lock) → is_quiet e ≡ true → door (step w e s) ≡ door s
unfolding step opens_of reg_remove lock_finished lock_surface_configure seat_capabilities
    kb_modifiers pt_enter pt_leave pt_motion
door-step w (global_added name g) s h = door-reg_global name g s
door-step w (global_removed name) s h =
    door-remove_output (find_name name s.outputs) (unlink_name name s.outputs) s
door-step w lock_requested s h = door-request_lock s
door-step w lock_granted s h = door-lock_locked s
door-step w lock_ended s h = refl
door-step w (surface_configured object) s h = door-configure w (find_output object s.outputs) s
door-step w (frame_shown object) s h = door-frame_done w object s
door-step w (capabilities k p) s h =
    door-change_pointer p (change_keyboard k s) ∙ door-change_keyboard k s
door-step w (keymap f m c) s h = door-kb_keymap f m c s
door-step w modifiers s h = refl
door-step w (key pressed k text) s h = cc
door-step w (pointer_entered surface x y) s h = refl
door-step w pointer_left s h = refl
door-step w (pointer_moved x y) s h = refl
door-step w (button l p) s h = door-pt_button l p s
door-step w fingerprint_matched s h = cc
door-step w (fingerprint_status text error) s h = door-on_fprint_status w text error s
door-step w media_changed s h = door-render_all w s
door-step w minute_passed s h = door-render_all w s
door-step w roundtrip_ended s h = door-roundtrip_done s
