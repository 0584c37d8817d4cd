-- ===== src/Ime/Steps.antt =====
-- src/wayland/ime.c: the events of the client as steps, and what holds in every state they reach.
use singularity_shell.Base.{
  ℕ, ◌+◌, ◌-◌, ◌%◌, ◌^◌, ◌≡◌, refl, Bool, true, false, ◌&&◌, Option, none, some, List, [], ◌∷◌,
  arith,
}
use singularity_shell.CString.{Text}
use singularity_shell.Int.{ℤ}
use singularity_shell.Ime.Defs.{delete_surrounding, Ime, send, set_forwarded, initial}
use singularity_shell.Ime.Keys.{
  send_forward, take_grab, end_grab, move_grab, update_grab, set_grab, flush_display, forward_key,
  show_preedit, preedit, send_text, replace, Call, call_set_grab, call_forward_key, call_preedit,
  call_replace, call, calls, pass_key, grab_key, grab_keymap, grab_modifiers,
}
use singularity_shell.Ime.Events.{
  im_activate, im_deactivate, im_surrounding_text, im_content_type, im_done, im_unavailable,
  pointer_enter, pointer_leave, pointer_motion, seat_capabilities, Globals, start, popup_show,
  popup_hide,
}
use singularity_shell.Ime.Release.{
  moved, down, tracked, Tracked, press-tracked, release-tracked, send_forward-tracked,
  release_forwarded_keys-tracked,
}

-- One event, or one call from the client's main loop.
pub data Event : Type 0 where
  started : Globals → Event
  activate : Event
  deactivate : Event
  surrounding_text : Text → ℕ → Event
  content_type : ℕ → ℕ → Event
  done_event : List Call → Event
  unavailable : Event
  keymap : Bool → Bool → Bool → Event
  grabbed_key : ℕ → ℕ → Bool → List Call → Bool → Event
  grabbed_modifiers : ℕ → ℕ → ℕ → ℕ → ℕ → Event
  entered : Bool → ℤ → ℤ → Event
  left : Event
  motion : ℤ → ℤ → Event
  capabilities : Bool → Event
  called : Call → Event
  shown : Bool → Bool → ℤ → ℤ → ℤ → Event
  hidden : Event

unfoldable pub step : Event → Ime → Ime
step (started g) s = (start g s).1
step activate s = im_activate s
step deactivate s = im_deactivate s
step (surrounding_text text cursor) s = im_surrounding_text text cursor s
step (content_type hint purpose) s = im_content_type hint purpose s
step (done_event callback) s = im_done callback s
step unavailable s = im_unavailable s
step (keymap known maps compiles) s = grab_keymap known maps compiles s
step (grabbed_key grab k pressed callback consumed) s = grab_key grab k pressed callback consumed s
step (grabbed_modifiers grab depressed latched locked group) s =
    grab_modifiers grab depressed latched locked group s
step (entered on_popup x y) s = pointer_enter on_popup x y s
step left s = pointer_leave s
step (motion x y) s = pointer_motion x y s
step (capabilities has_pointer) s = seat_capabilities has_pointer s
step (called c) s = call c s
step (shown has_pixels memory width height scale) s =
    popup_show has_pixels memory width height scale s
step hidden s = popup_hide s

unfoldable pub steps : List Event → Ime → Ime
steps [] s = s
steps (e ∷ es) s = steps es (step e s)

move_grab-tracked :
    (wanted : Bool) (held : Option ℕ) (k : ℕ) (s : Ime)
    → tracked k s ≡ true
    → tracked k (move_grab wanted held s) ≡ true
unfolding move_grab end_grab take_grab send tracked down moved
move_grab-tracked true none k s h = h
move_grab-tracked true (some grab) k s h = h
move_grab-tracked false none k s h = h
move_grab-tracked false (some grab) k s h = release_forwarded_keys-tracked k s h

update_grab-tracked : (k : ℕ) (s : Ime) → tracked k s ≡ true → tracked k (update_grab s) ≡ true
unfolding update_grab send tracked down moved
update_grab-tracked k s h = ground (
  arith,
  move_grab-tracked (s.want_grab && s.current.active && s.input_method) s.keyboard_grab k s h,
)

set_grab-tracked :
    (k : ℕ) (grab : Bool) (s : Ime) → tracked k s ≡ true → tracked k (set_grab grab s) ≡ true
unfolding set_grab tracked
set_grab-tracked k grab s h =
    ground (arith, update_grab-tracked k (record s { want_grab = grab }) h)

forward_key-tracked :
    (k j : ℕ) (pressed : Bool) (s : Ime)
    → tracked k s ≡ true
    → tracked k (forward_key j pressed s) ≡ true
unfolding forward_key flush_display send_forward set_forwarded send tracked down moved
forward_key-tracked k j pressed s h = ground arith

show_preedit-tracked :
    (k : ℕ) (text : Option Text) (begin end : ℤ) (s : Ime)
    → tracked k s ≡ true
    → tracked k (show_preedit text begin end s) ≡ true
unfolding show_preedit send tracked down moved
show_preedit-tracked k none begin end s h = h
show_preedit-tracked k (some []) begin end s h = h
show_preedit-tracked k (some (c ∷ t)) begin end s h = h

preedit-tracked :
    (k : ℕ) (text : Option Text) (begin end : ℤ) (s : Ime)
    → tracked k s ≡ true
    → tracked k (preedit text begin end s) ≡ true
unfolding preedit send tracked down moved
preedit-tracked k text begin end s h = ground (arith, show_preedit-tracked k text begin end s h)

send_text-tracked :
    (k : ℕ) (text : Option Text) (s : Ime)
    → tracked k s ≡ true
    → tracked k (send_text text s) ≡ true
unfolding send_text send tracked down moved
send_text-tracked k none s h = h
send_text-tracked k (some []) s h = h
send_text-tracked k (some (c ∷ t)) s h = h

replace-tracked :
    (k before after : ℕ) (text : Option Text) (s : Ime)
    → tracked k s ≡ true
    → tracked k (replace before after text s) ≡ true
unfolding replace send tracked down moved
replace-tracked k before after text s h = ground (
  arith,
  send_text-tracked k text s h,
  send_text-tracked k text (send (delete_surrounding before after) s) h,
)

call-tracked : (k : ℕ) (c : Call) (s : Ime) → tracked k s ≡ true → tracked k (call c s) ≡ true
unfolding call
call-tracked k (call_set_grab grab) s h = set_grab-tracked k grab s h
call-tracked k (call_forward_key j pressed) s h = forward_key-tracked k j pressed s h
call-tracked k (call_preedit text begin end) s h = preedit-tracked k text begin end s h
call-tracked k (call_replace before after text) s h = replace-tracked k before after text s h

calls-tracked :
    (k : ℕ) (cs : List Call) (s : Ime) → tracked k s ≡ true → tracked k (calls cs s) ≡ true
unfolding calls
calls-tracked k [] s h = h
calls-tracked k (c ∷ cs) s h = calls-tracked k cs (call c s) (call-tracked k c s h)

pass_key-tracked :
    (k j : ℕ) (pressed consumed : Bool) (s : Ime)
    → tracked k s ≡ true
    → tracked k (pass_key j pressed consumed s) ≡ true
unfolding pass_key
pass_key-tracked k j pressed consumed s h =
    ground
      (arith, press-tracked j k s h, release-tracked j k s h, send_forward-tracked j k pressed s)

grab_key-tracked :
    (k grab j : ℕ) (pressed : Bool) (callback : List Call) (consumed : Bool) (s : Ime)
    → tracked k s ≡ true
    → tracked k (grab_key grab j pressed callback consumed s) ≡ true
unfolding grab_key tracked
grab_key-tracked k grab j pressed callback consumed s h =
    let inside = calls callback (record s { key_depth = s.key_depth + 1 }) in
    let passed = pass_key j pressed consumed inside in
    let t =
      update_grab-tracked k (record passed { key_depth = passed.key_depth - 1 })
        (pass_key-tracked k j pressed consumed inside
          (calls-tracked k callback (record s { key_depth = s.key_depth + 1 }) h)) in
    ground (arith, t, h)

im_done-tracked :
    (k : ℕ) (callback : List Call) (s : Ime)
    → tracked k s ≡ true
    → tracked k (im_done callback s) ≡ true
unfolding im_done tracked
im_done-tracked k callback s h =
    calls-tracked k callback
      (update_grab (record s { serial = (s.serial + 1) % 2 ^ 32; current = s.pending }))
      (update_grab-tracked k (record s { serial = (s.serial + 1) % 2 ^ 32; current = s.pending }) h)

start-tracked :
    (k : ℕ) (g : Globals) (s : Ime) → tracked k s ≡ true → tracked k (start g s).1 ≡ true
unfolding start send tracked down moved
start-tracked k g s h = ground arith

grab_keymap-tracked :
    (k : ℕ) (known maps compiles : Bool) (s : Ime)
    → tracked k s ≡ true
    → tracked k (grab_keymap known maps compiles s) ≡ true
unfolding grab_keymap send tracked down moved
grab_keymap-tracked k known maps compiles s h = ground arith

popup_show-tracked :
    (k : ℕ) (has_pixels memory : Bool) (width height scale : ℤ) (s : Ime)
    → tracked k s ≡ true
    → tracked k (popup_show has_pixels memory width height scale s) ≡ true
unfolding popup_show send tracked down moved
popup_show-tracked k has_pixels memory width height scale s h = ground arith

step-tracked : (k : ℕ) (e : Event) (s : Ime) → tracked k s ≡ true → tracked k (step e s) ≡ true
unfolding step im_activate im_deactivate im_surrounding_text im_content_type im_unavailable
    pointer_enter pointer_leave pointer_motion seat_capabilities popup_hide grab_modifiers send
    tracked down moved
step-tracked k (started g) s h = start-tracked k g s h
step-tracked k activate s h = h
step-tracked k deactivate s h = h
step-tracked k (surrounding_text text cursor) s h = h
step-tracked k (content_type hint purpose) s h = h
step-tracked k (done_event callback) s h = im_done-tracked k callback s h
step-tracked k unavailable s h = h
step-tracked k (keymap known maps compiles) s h = grab_keymap-tracked k known maps compiles s h
step-tracked k (grabbed_key grab j pressed callback consumed) s h =
    grab_key-tracked k grab j pressed callback consumed s h
step-tracked k (grabbed_modifiers grab depressed latched locked group) s h = ground arith
step-tracked k (entered on_popup x y) s h = h
step-tracked k left s h = h
step-tracked k (motion x y) s h = ground arith
step-tracked k (capabilities has_pointer) s h = ground arith
step-tracked k (called c) s h = call-tracked k c s h
step-tracked k (shown has_pixels memory width height scale) s h =
    popup_show-tracked k has_pixels memory width height scale s h
step-tracked k hidden s h = ground arith

steps-tracked :
    (k : ℕ) (es : List Event) (s : Ime) → tracked k s ≡ true → tracked k (steps es s) ≡ true
unfolding steps
steps-tracked k [] s h = h
steps-tracked k (e ∷ es) s h = steps-tracked k es (step e s) (step-tracked k e s h)

tracked-initial : (k : ℕ) → tracked k initial ≡ true
unfolding tracked down
tracked-initial k = refl

-- In every state that a sequence of events reaches from the start of the program, also behind a second
-- start: for a key that is down on the virtual keyboard that was created last, the client still has that
-- keyboard with `forward_keymap_set`, so that it can send the release, and the key is marked in
-- `forwarded` if it is below the limit.
pub steps-Tracked : (es : List Event) → Tracked (steps es initial)
unfolding Tracked
steps-Tracked es k = steps-tracked k es initial (tracked-initial k)
