-- ===== src/Ime/Tests.antt =====
-- The input method client on concrete events, and its theorems applied to them.
use singularity_shell.Base.{ℕ, ◌<◌, ◌≡◌, refl, true, false, none, some, List, [], ◌∷◌, arith}
use singularity_shell.Ime.Defs.{key_count, Ime, initial}
use singularity_shell.Ime.Keys.{update_grab, release_forwarded_keys, call_set_grab}
use singularity_shell.Ime.Events.{Globals}
use singularity_shell.Ime.Release.{down, tracked, Tracked, release_forwarded_keys_lem}
use singularity_shell.Ime.Steps.{
  Event, started, activate, done_event, keymap, grabbed_key, called, steps, steps-Tracked,
}
use singularity_shell.Ime.Grab.{steps-keyboard_grab, update_grab_releases}

abbrev globals : Globals
globals = record {
  wayland = true;
  seat = true;
  im_manager = true;
  vk_manager = true;
  compositor = true;
  shm = true;
}

-- A text field takes the focus, the client grabs the keyboard, and key 30 is pressed and forwarded.
abbrev typing : List Event
typing =
    started globals
    ∷ activate
    ∷ called (call_set_grab true)
    ∷ done_event []
    ∷ keymap true true true
    ∷ grabbed_key 0 30 true [] false
    ∷ []

typing-down : down 30 (steps typing initial).sent ≡ true
unfolding down steps singularity_shell.Ime.Steps.step singularity_shell.Ime.Keys.grab_key
    singularity_shell.Ime.Keys.same_grab singularity_shell.Ime.Keys.grab_keymap
    singularity_shell.Ime.Events.im_done singularity_shell.Ime.Keys.calls update_grab
    singularity_shell.Ime.Keys.call singularity_shell.Ime.Keys.set_grab
    singularity_shell.Ime.Events.im_activate singularity_shell.Ime.Events.start
    singularity_shell.Ime.Keys.move_grab singularity_shell.Ime.Keys.take_grab
    singularity_shell.Ime.Keys.pass_key singularity_shell.Ime.Keys.send_forward
    singularity_shell.Ime.Release.moved
typing-down = refl

typing_held : (steps typing initial).keyboard_grab ≡ some 0
unfolding steps singularity_shell.Ime.Steps.step singularity_shell.Ime.Keys.grab_key
    singularity_shell.Ime.Keys.same_grab singularity_shell.Ime.Keys.grab_keymap
    singularity_shell.Ime.Events.im_done singularity_shell.Ime.Keys.calls update_grab
    singularity_shell.Ime.Keys.call singularity_shell.Ime.Keys.set_grab
    singularity_shell.Ime.Events.im_activate singularity_shell.Ime.Events.start
    singularity_shell.Ime.Keys.move_grab singularity_shell.Ime.Keys.take_grab
    singularity_shell.Ime.Keys.pass_key singularity_shell.Ime.Keys.send_forward
typing_held = refl

steps-Tracked_example : Tracked (steps typing initial)
steps-Tracked_example = steps-Tracked typing

steps-keyboard_grab_example :
    ((steps typing initial).key_depth ≡ 0)
    × ((grab : ℕ)
        → (steps typing initial).keyboard_grab ≡ some grab
        → ((steps typing initial).want_grab ≡ true)
          × ((steps typing initial).current.active ≡ true)
          × ((steps typing initial).display ≡ true))
steps-keyboard_grab_example = steps-keyboard_grab typing

release_forwarded_keys_lem_example :
    ((release_forwarded_keys (steps typing initial)).forwarded 30 ≡ false)
    × (down 30 (release_forwarded_keys (steps typing initial)).sent ≡ false)
release_forwarded_keys_lem_example =
    release_forwarded_keys_lem (steps typing initial) (steps-Tracked typing) 30 (omega arith)

abbrev unwanted : Ime
unwanted = let s = steps typing initial in record s { want_grab = false }

unwanted-Tracked : Tracked unwanted
unfolding Tracked tracked
unwanted-Tracked k = steps-Tracked typing k

unwanted_depth : unwanted.key_depth ≡ 0
unfolding steps singularity_shell.Ime.Steps.step singularity_shell.Ime.Keys.grab_key
    singularity_shell.Ime.Keys.same_grab singularity_shell.Ime.Keys.grab_keymap
    singularity_shell.Ime.Events.im_done singularity_shell.Ime.Keys.calls update_grab
    singularity_shell.Ime.Keys.call singularity_shell.Ime.Keys.set_grab
    singularity_shell.Ime.Events.im_activate singularity_shell.Ime.Events.start
    singularity_shell.Ime.Keys.move_grab singularity_shell.Ime.Keys.take_grab
    singularity_shell.Ime.Keys.pass_key singularity_shell.Ime.Keys.send_forward
unwanted_depth = refl

unwanted_held : unwanted.keyboard_grab ≡ some 0
unfolding steps singularity_shell.Ime.Steps.step singularity_shell.Ime.Keys.grab_key
    singularity_shell.Ime.Keys.same_grab singularity_shell.Ime.Keys.grab_keymap
    singularity_shell.Ime.Events.im_done singularity_shell.Ime.Keys.calls update_grab
    singularity_shell.Ime.Keys.call singularity_shell.Ime.Keys.set_grab
    singularity_shell.Ime.Events.im_activate singularity_shell.Ime.Events.start
    singularity_shell.Ime.Keys.move_grab singularity_shell.Ime.Keys.take_grab
    singularity_shell.Ime.Keys.pass_key singularity_shell.Ime.Keys.send_forward
unwanted_held = refl

update_grab_releases_example :
    ((update_grab unwanted).keyboard_grab ≡ none)
    × ((k : ℕ) → k < key_count → down k (update_grab unwanted).sent ≡ false)
update_grab_releases_example =
    update_grab_releases unwanted 0 unwanted-Tracked unwanted_depth unwanted_held refl
