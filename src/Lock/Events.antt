-- ===== src/Lock/Events.antt =====
-- src/lockscreen/lock_main.c: the outputs and their lock surfaces, the registry, and the events.
use singularity_shell.Base.{
  ℕ, ◌+◌, sym, Bool, true, false, not, ◌&&◌, ◌||◌, Option, none, some, List, [], ◌∷◌, ◌==◌,
  if◌then◌else◌,
}
use singularity_shell.CString.{Text}
use singularity_shell.Int.{ℤ}
use singularity_shell.Lock.Defs.{
  is_leave, LockOutput, get_lock_surface, ack_configure, destroy_output, lock_session, Lock, World,
  send,
}
use singularity_shell.Lock.Render.{render_all, find_output, put_output, render_in_place}
use singularity_shell.Lock.Auth.{
  any_configured, unlock_session, roundtrip_done, on_fprint_match, on_fprint_status, frame_done,
}
use singularity_shell.Lock.Input.{
  Keysym, kb_keymap, kb_modifiers, kb_key, pt_enter, pt_leave, pt_motion, pt_button,
  seat_capabilities,
}

unfoldable pub create_lock_surface : LockOutput → Lock → LockOutput × Lock
unfolding send
create_lock_surface o s =
    if o.lock_surface || not s.lock
    then (o, s)
    else (record o { lock_surface = true }, send (get_lock_surface o.object) s)

-- The loop of `lock_locked`.
unfoldable pub create_surfaces : List LockOutput → Lock → List LockOutput × Lock
create_surfaces [] s = ([], s)
create_surfaces (o ∷ rest) s =
    let one = create_lock_surface o s in
    let others = create_surfaces rest one.1 in (one.0 ∷ others.0, others.1)

unfoldable pub lock_locked : Lock → Lock
unfolding create_surfaces
lock_locked s =
    let created = create_surfaces s.outputs (record s { locked = true }) in
    let t = created.1 in record t { outputs = created.0 }

unfoldable pub lock_finished : Lock → Lock
lock_finished s = record s { running = false }

-- `lock_surface_configure` for the output; its size only passes to the drawing.
unfoldable pub configure : World → Option LockOutput → Lock → Lock
unfolding put_output send render_in_place
configure w none s = s
configure w (some o) s =
    let configured = record o { configured = true } in
    render_in_place w configured
      (send (ack_configure o.object) (record s { outputs = put_output configured s.outputs }))

unfoldable pub lock_surface_configure : World → ℕ → Lock → Lock
unfolding find_output configure
lock_surface_configure w object s = configure w (find_output object s.outputs) s

-- What a global of the registry is, by its interface.
pub data Global : Type 0 where
  global_compositor global_shm global_lock_manager global_seat global_output global_other : Global

unfoldable pub add_output : ℕ → Lock → Lock
unfolding create_lock_surface
add_output name s =
    let o : LockOutput = record {
      object = s.next_object;
      name = name;
      lock_surface = false;
      configured = false;
      buttons = none;
      frame_cb = false;
    } in
    let made = create_lock_surface o (record s { next_object = s.next_object + 1 }) in
    let added = if s.locked then made else (o, record s { next_object = s.next_object + 1 }) in
    let t = added.1 in record t { outputs = added.0 ∷ t.outputs }

unfoldable pub reg_global : ℕ → Global → Lock → Lock
unfolding add_output
reg_global name global_compositor s = record s { compositor = true }
reg_global name global_shm s = record s { shm = true }
reg_global name global_lock_manager s = record s { lock_manager = true }
reg_global name global_seat s = record s { seat = true }
reg_global name global_output s = add_output name s
reg_global name global_other s = s

-- The output that the loop of `reg_remove` finds, and the list without it.
unfoldable pub find_name : ℕ → List LockOutput → Option LockOutput
find_name name [] = none
find_name name (o ∷ rest) =
    let found = find_name name rest in if o.name == name then some o else found

unfoldable pub unlink_name : ℕ → List LockOutput → List LockOutput
unlink_name name [] = []
unlink_name name (o ∷ rest) =
    let others = unlink_name name rest in if o.name == name then rest else o ∷ others

unfoldable pub remove_output : Option LockOutput → List LockOutput → Lock → Lock
unfolding send any_configured unlock_session
remove_output none rest s = s
remove_output (some dead) rest s =
    let t = send (destroy_output dead.object) (record s { outputs = rest }) in
    if is_leave t.phase && not (any_configured rest) then unlock_session t else t

unfoldable pub reg_remove : ℕ → Lock → Lock
unfolding find_name unlink_name remove_output
reg_remove name s = remove_output (find_name name s.outputs) (unlink_name name s.outputs) s

-- The middle of `main`: the globals are there and the lock is asked for, or `main` returns 1.
unfoldable pub request_lock : Lock → Lock
unfolding send
request_lock s =
    if not s.compositor || not s.shm || not s.lock_manager || not s.seat
    then record s { running = false }
    else send lock_session (record s { lock = true })

-- One callback that the main loop or a round trip dispatches, or a step of `main`.
pub data Event : Type 0 where
  global_added : ℕ → Global → Event
  global_removed : ℕ → Event
  lock_requested lock_granted lock_ended : Event
  surface_configured : ℕ → Event
  frame_shown : ℕ → Event
  capabilities : Bool → Bool → Event
  keymap : Bool → Bool → Bool → Event
  modifiers : Event
  key : Bool → Keysym → Text → Event
  pointer_entered : ℕ → ℤ → ℤ → Event
  pointer_left : Event
  pointer_moved : ℤ → ℤ → Event
  button : Bool → Bool → Event
  fingerprint_matched : Event
  fingerprint_status : Text → Bool → Event
  media_changed minute_passed roundtrip_ended : Event

unfoldable pub step : World → Event → Lock → Lock
step w (global_added name g) s = reg_global name g s
step w (global_removed name) s = reg_remove name s
step w lock_requested s = request_lock s
step w lock_granted s = lock_locked s
step w lock_ended s = lock_finished s
step w (surface_configured object) s = lock_surface_configure w object s
step w (frame_shown object) s = frame_done w object s
step w (capabilities has_keyboard has_pointer) s = seat_capabilities has_keyboard has_pointer s
step w (keymap known_format maps compiles) s = kb_keymap known_format maps compiles s
step w modifiers s = kb_modifiers s
step w (key pressed sym text) s = kb_key w pressed sym text s
step w (pointer_entered surface x y) s = pt_enter surface x y s
step w pointer_left s = pt_leave s
step w (pointer_moved x y) s = pt_motion x y s
step w (button is_left pressed) s = pt_button is_left pressed s
step w fingerprint_matched s = on_fprint_match w s
step w (fingerprint_status text error) s = on_fprint_status w text error s
step w media_changed s = render_all w s
step w minute_passed s = render_all w s
step w roundtrip_ended s = roundtrip_done s

unfoldable pub steps : List (World × Event) → Lock → Lock
steps [] s = s
steps ((w, e) ∷ es) s = steps es (step w e s)
