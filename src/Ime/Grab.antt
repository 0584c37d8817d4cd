-- ===== src/Ime/Grab.antt =====
-- src/wayland/ime.c: when the keyboard grab is held.
use singularity_shell.Base.{
  ℕ, zero, suc, ◌+◌, ◌-◌, ◌%◌, ◌^◌, ◌<◌, ◌≡◌, refl, ap, ◌∙◌, Bool, true, false, not, ◌&&◌, ◌||◌,
  Option, none, some, List, [], ◌∷◌, arith, ◌==◌, if◌then◌else◌,
}
use singularity_shell.CString.{Text}
use singularity_shell.Int.{ℤ}
use singularity_shell.Ime.Defs.{
  key_count, delete_surrounding, Ime, send, set_forwarded, initial, flush,
}
use singularity_shell.Ime.Keys.{
  send_forward, release_key, release_keys, clear_modifiers, release_forwarded_keys, take_grab,
  end_grab, move_grab, update_grab, set_grab, flush_display, forward_key, show_preedit, preedit,
  send_text, replace, Call, call_set_grab, call_forward_key, call_preedit, call_replace, call,
  calls, pass_key, grab_key, grab_keymap, grab_modifiers,
}
use singularity_shell.Ime.Events.{
  im_activate, im_deactivate, im_surrounding_text, im_content_type, im_done, im_unavailable,
  pointer_enter, pointer_leave, pointer_motion, seat_capabilities, Globals, start, popup_show,
  popup_hide,
}
use singularity_shell.Ime.Release.{moved, down, Tracked, release_forwarded_keys_lem}
use singularity_shell.Ime.Steps.{
  Event, step, steps, started, activate, deactivate, surrounding_text, content_type, done_event,
  unavailable, keymap, grabbed_key, grabbed_modifiers, entered, left, motion, capabilities, called,
  shown, hidden,
}

unfoldable pub is_held : Option ℕ → Bool
is_held none = false
is_held (some grab) = true

-- The depth of the key callback is `d`, and the client has a display if it has an input method or a grab.
unfoldable pub loose : ℕ → Ime → Bool
loose d s =
    (s.key_depth == d) && (if s.input_method || is_held s.keyboard_grab then s.display else true)

-- The same, and outside of the callback the grab is held only where it is wanted and a text field is active.
unfoldable pub settled : ℕ → Ime → Bool
settled d s =
    loose d s
    && (if (d == 0) && is_held s.keyboard_grab then s.want_grab && s.current.active else true)

is_held-held :
    (held : Option ℕ) (s : Ime) → s.keyboard_grab ≡ held → is_held s.keyboard_grab ≡ is_held held
is_held-held held s e = ap is_held e

settled-loose : (d : ℕ) (s : Ime) → settled d s ≡ true → loose d s ≡ true
unfolding settled
settled-loose d s h = ground arith

release_key-loose : (j d : ℕ) (s : Ime) → loose d s ≡ true → loose d (release_key j s) ≡ true
unfolding loose release_key send_forward set_forwarded send
release_key-loose j d s h = ground arith

release_keys-loose :
    (rounds j d : ℕ) (s : Ime) → loose d s ≡ true → loose d (release_keys rounds j s) ≡ true
unfolding release_keys
release_keys-loose zero j d s h = h
release_keys-loose (suc rounds) j d s h =
    release_keys-loose rounds (suc j) d (release_key j s) (release_key-loose j d s h)

clear_modifiers-loose : (d : ℕ) (s : Ime) → loose d s ≡ true → loose d (clear_modifiers s) ≡ true
unfolding clear_modifiers loose send
clear_modifiers-loose d s h = ground arith

release_forwarded_keys-loose :
    (d : ℕ) (s : Ime) → loose d s ≡ true → loose d (release_forwarded_keys s) ≡ true
unfolding release_forwarded_keys
release_forwarded_keys-loose d s h =
    clear_modifiers-loose d (release_keys key_count 0 s) (release_keys-loose key_count 0 d s h)

-- `wanted` and `held` are what `update_grab` reads.
move_grab-settled :
    (wanted : Bool) (held : Option ℕ) (d : ℕ) (s : Ime)
    → (wanted ≡ true → (s.want_grab && s.current.active && s.input_method) ≡ true)
    → s.keyboard_grab ≡ held
    → loose d s ≡ true
    → settled d (move_grab wanted held s) ≡ true
unfolding move_grab take_grab end_grab settled loose send is_held
move_grab-settled true none d s w e h = ground (arith, w refl, is_held-held none s e)
move_grab-settled true (some grab) d s w e h = ground (arith, w refl, is_held-held (some grab) s e)
move_grab-settled false none d s w e h = ground (arith, is_held-held none s e)
move_grab-settled false (some grab) d s w e h =
    let released = release_forwarded_keys-loose d s h in ground (arith, released)

update_grab-settled : (d : ℕ) (s : Ime) → loose d s ≡ true → settled d (update_grab s) ≡ true
unfolding update_grab settled loose send
update_grab-settled d s h = ground (
  arith,
  move_grab-settled (s.want_grab && s.current.active && s.input_method) s.keyboard_grab d s (λ w. w)
      refl h,
)

set_grab-settled :
    (d : ℕ) (grab : Bool) (s : Ime) → settled d s ≡ true → settled d (set_grab grab s) ≡ true
unfolding set_grab settled loose
set_grab-settled d grab s h =
    ground (arith, update_grab-settled d (record s { want_grab = grab }) (settled-loose d s h))

forward_key-settled :
    (d j : ℕ) (pressed : Bool) (s : Ime)
    → settled d s ≡ true
    → settled d (forward_key j pressed s) ≡ true
unfolding forward_key flush_display send_forward set_forwarded send settled loose
forward_key-settled d j pressed s h = ground arith

show_preedit-settled :
    (d : ℕ) (text : Option Text) (begin end : ℤ) (s : Ime)
    → settled d s ≡ true
    → settled d (show_preedit text begin end s) ≡ true
unfolding show_preedit send settled loose
show_preedit-settled d none begin end s h = h
show_preedit-settled d (some []) begin end s h = h
show_preedit-settled d (some (c ∷ t)) begin end s h = h

preedit-settled :
    (d : ℕ) (text : Option Text) (begin end : ℤ) (s : Ime)
    → settled d s ≡ true
    → settled d (preedit text begin end s) ≡ true
unfolding preedit send settled loose
preedit-settled d text begin end s h = ground (arith, show_preedit-settled d text begin end s h)

send_text-settled :
    (d : ℕ) (text : Option Text) (s : Ime)
    → settled d s ≡ true
    → settled d (send_text text s) ≡ true
unfolding send_text send settled loose
send_text-settled d none s h = h
send_text-settled d (some []) s h = h
send_text-settled d (some (c ∷ t)) s h = h

replace-settled :
    (d before after : ℕ) (text : Option Text) (s : Ime)
    → settled d s ≡ true
    → settled d (replace before after text s) ≡ true
unfolding replace send settled loose
replace-settled d before after text s h = ground (
  arith,
  send_text-settled d text s h,
  send_text-settled d text (send (delete_surrounding before after) s) h,
)

call-settled : (d : ℕ) (c : Call) (s : Ime) → settled d s ≡ true → settled d (call c s) ≡ true
unfolding call
call-settled d (call_set_grab grab) s h = set_grab-settled d grab s h
call-settled d (call_forward_key j pressed) s h = forward_key-settled d j pressed s h
call-settled d (call_preedit text begin end) s h = preedit-settled d text begin end s h
call-settled d (call_replace before after text) s h = replace-settled d before after text s h

calls-settled :
    (d : ℕ) (cs : List Call) (s : Ime) → settled d s ≡ true → settled d (calls cs s) ≡ true
unfolding calls
calls-settled d [] s h = h
calls-settled d (c ∷ cs) s h = calls-settled d cs (call c s) (call-settled d c s h)

pass_key-settled :
    (d j : ℕ) (pressed consumed : Bool) (s : Ime)
    → settled d s ≡ true
    → settled d (pass_key j pressed consumed s) ≡ true
unfolding pass_key set_forwarded send_forward send settled loose
pass_key-settled d j pressed consumed s h = ground arith

enter-settled :
    (d : ℕ) (s : Ime)
    → settled d s ≡ true
    → settled (suc d) (record s { key_depth = s.key_depth + 1 }) ≡ true
unfolding settled loose
enter-settled d s h = ground arith

leave-loose :
    (d : ℕ) (s : Ime)
    → settled (suc d) s ≡ true
    → loose d (record s { key_depth = s.key_depth - 1 }) ≡ true
unfolding settled loose
leave-loose d s h = ground arith

grab_key-settled :
    (d grab j : ℕ) (pressed : Bool) (callback : List Call) (consumed : Bool) (s : Ime)
    → settled d s ≡ true
    → settled d (grab_key grab j pressed callback consumed s) ≡ true
unfolding grab_key settled loose
grab_key-settled d grab j pressed callback consumed s h =
    let inside = calls callback (record s { key_depth = s.key_depth + 1 }) in
    let passed = pass_key j pressed consumed inside in
    let deep = pass_key-settled (suc d) j pressed consumed inside (
      calls-settled (suc d) callback (record s { key_depth = s.key_depth + 1 })
        (enter-settled d s h)) in
    let t =
      update_grab-settled d (record passed { key_depth = passed.key_depth - 1 })
        (leave-loose d passed deep) in
    ground (arith, t, h)

im_done-settled :
    (d : ℕ) (callback : List Call) (s : Ime)
    → settled d s ≡ true
    → settled d (im_done callback s) ≡ true
unfolding im_done settled loose
im_done-settled d callback s h =
    calls-settled d callback
      (update_grab (record s { serial = (s.serial + 1) % 2 ^ 32; current = s.pending }))
      (update_grab-settled d (record s { serial = (s.serial + 1) % 2 ^ 32; current = s.pending })
        (settled-loose d s h))

start-settled :
    (d : ℕ) (g : Globals) (s : Ime) → settled d s ≡ true → settled d (start g s).1 ≡ true
unfolding start send settled loose
start-settled d g s h = ground arith

grab_keymap-settled :
    (d : ℕ) (known maps compiles : Bool) (s : Ime)
    → settled d s ≡ true
    → settled d (grab_keymap known maps compiles s) ≡ true
unfolding grab_keymap send settled loose
grab_keymap-settled d known maps compiles s h = ground arith

popup_show-settled :
    (d : ℕ) (has_pixels memory : Bool) (width height scale : ℤ) (s : Ime)
    → settled d s ≡ true
    → settled d (popup_show has_pixels memory width height scale s) ≡ true
unfolding popup_show send settled loose
popup_show-settled d has_pixels memory width height scale s h = ground arith

step-settled : (d : ℕ) (e : Event) (s : Ime) → settled d s ≡ true → settled d (step e s) ≡ true
unfolding step im_activate im_deactivate im_surrounding_text im_content_type im_unavailable
    pointer_enter pointer_leave pointer_motion seat_capabilities popup_hide grab_modifiers send
    settled loose
step-settled d (started g) s h = start-settled d g s h
step-settled d activate s h = h
step-settled d deactivate s h = h
step-settled d (surrounding_text text cursor) s h = h
step-settled d (content_type hint purpose) s h = h
step-settled d (done_event callback) s h = im_done-settled d callback s h
step-settled d unavailable s h = ground arith
step-settled d (keymap known maps compiles) s h = grab_keymap-settled d known maps compiles s h
step-settled d (grabbed_key grab j pressed callback consumed) s h =
    grab_key-settled d grab j pressed callback consumed s h
step-settled d (grabbed_modifiers grab depressed latched locked group) s h = ground arith
step-settled d (entered on_popup x y) s h = h
step-settled d left s h = h
step-settled d (motion x y) s h = ground arith
step-settled d (capabilities has_pointer) s h = ground arith
step-settled d (called c) s h = call-settled d c s h
step-settled d (shown has_pixels memory width height scale) s h =
    popup_show-settled d has_pixels memory width height scale s h
step-settled d hidden s h = ground arith

steps-settled :
    (d : ℕ) (es : List Event) (s : Ime) → settled d s ≡ true → settled d (steps es s) ≡ true
unfolding steps
steps-settled d [] s h = h
steps-settled d (e ∷ es) s h = steps-settled d es (step e s) (step-settled d e s h)

settled-initial : settled 0 initial ≡ true
unfolding settled loose is_held
settled-initial = refl

settled-depth : (s : Ime) → settled 0 s ≡ true → s.key_depth ≡ 0
unfolding settled loose
settled-depth s h = ground arith

settled-held :
    (s : Ime) (grab : ℕ)
    → settled 0 s ≡ true
    → s.keyboard_grab ≡ some grab
    → (s.want_grab ≡ true) × (s.current.active ≡ true) × (s.display ≡ true)
unfolding settled loose is_held
settled-held s grab h e =
    let held = is_held-held (some grab) s e in (ground arith, ground arith, ground arith)

-- In every state that a sequence of events reaches from the start of the program, no key callback runs,
-- and where the client holds the keyboard grab, the grab is wanted, a text field is active, and the
-- display is open.
pub steps-keyboard_grab :
    (es : List Event)
    → ((steps es initial).key_depth ≡ 0)
      × ((grab : ℕ)
          → (steps es initial).keyboard_grab ≡ some grab
          → ((steps es initial).want_grab ≡ true)
            × ((steps es initial).current.active ≡ true)
            × ((steps es initial).display ≡ true))
steps-keyboard_grab es =
    let h = steps-settled 0 es initial settled-initial in
    (settled-depth (steps es initial) h, λ grab e. settled-held (steps es initial) grab h e)

zero-test : (n : ℕ) → n ≡ 0 → not (n == 0) ≡ false
zero-test n z = ground arith

update_grab-move_grab :
    (s : Ime)
    → s.key_depth ≡ 0
    → update_grab s
      ≡ send flush (move_grab (s.want_grab && s.current.active && s.input_method) s.keyboard_grab s)
unfolding update_grab
update_grab-move_grab s z =
    ap
      (λ b.
        if b
        then s
        else send flush
            (move_grab (s.want_grab && s.current.active && s.input_method) s.keyboard_grab s))
      (zero-test s.key_depth z)

update_grab-end_grab :
    (s : Ime) (grab : ℕ)
    → s.key_depth ≡ 0
    → s.keyboard_grab ≡ some grab
    → (s.want_grab && s.current.active && s.input_method) ≡ false
    → update_grab s ≡ send flush (end_grab s grab)
unfolding move_grab
update_grab-end_grab s grab z e w =
    update_grab-move_grab s z
    ∙ ap (λ wanted. send flush (move_grab wanted s.keyboard_grab s)) w
    ∙ ap (λ held. send flush (move_grab false held s)) e

end_grab-down :
    (s : Ime) (grab k : ℕ)
    → Tracked s
    → k < key_count
    → down k (send flush (end_grab s grab)).sent ≡ false
unfolding end_grab send down moved
end_grab-down s grab k t small = (release_forwarded_keys_lem s t k small).1

-- Where the client gives the grab up, outside of a key callback, with its keys tracked, it holds no grab
-- afterwards, and no key below the limit is down at the compositor on the virtual keyboard that was
-- created last.
pub update_grab_releases :
    (s : Ime) (grab : ℕ)
    → Tracked s
    → s.key_depth ≡ 0
    → s.keyboard_grab ≡ some grab
    → (s.want_grab && s.current.active && s.input_method) ≡ false
    → ((update_grab s).keyboard_grab ≡ none)
      × ((k : ℕ) → k < key_count → down k (update_grab s).sent ≡ false)
unfolding send end_grab
update_grab_releases s grab t z e w =
    let ended = update_grab-end_grab s grab z e w in
    (
      ap (λ r. r.keyboard_grab) ended,
      λ k small. ap (λ r. down k r.sent) ended ∙ end_grab-down s grab k t small,
    )
