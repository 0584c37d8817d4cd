-- ===== src/Lock/Typing.antt =====
-- src/lockscreen/lock_main.c: the line that the user types, and the buffer that holds it.
use singularity_shell.Base.{
  ℕ, ◌+◌, ◌-◌, ◌≤◌, ◌<◌, ◌≡◌, refl, sym, ap, ◌∙◌, Bool, true, false, not, ◌&&◌, List, [], ◌∷◌,
  arith, ltb, ◌==◌, if◌then◌else◌, length, take, length-append, length-take, take_of_length-le,
  lt→ltb, ==_iff, if_cases,
}
use singularity_shell.CString.{Text}
use singularity_shell.Lock.Defs.{
  is_leave, XkbState, Lock, World, send, Settings, start_phase, initial, no_state, live_state,
  released_state,
}
use singularity_shell.Lock.Auth.{password_size, bytes_from, typed, store_byte, submit_password}
use singularity_shell.Lock.Input.{
  key_buf, Keysym, clear_status, press_key, key_with, kb_key, key_return, key_kp_enter,
  key_backspace, key_escape, key_audio_play, key_audio_pause, key_audio_next, key_audio_prev,
  other_key,
}
use singularity_shell.Lock.Events.{
  Event, step, steps, global_added, global_removed, lock_requested, lock_granted, lock_ended,
  surface_configured, frame_shown, capabilities, keymap, modifiers, key, pointer_entered,
  pointer_left, pointer_moved, button, fingerprint_matched, fingerprint_status, media_changed,
  minute_passed, roundtrip_ended,
}
use singularity_shell.Lock.Unlock.{
  door, keys-render_all, keys-on_fprint_match, keys-finish_submit, bytes_from_store, submitted,
}
use singularity_shell.Lock.Quiet.{door-step}
use singularity_shell.Lock.Grants.{is_live}
use singularity_shell.Lock.Lines.{
  line_of, line, edit_line, line_after, length-line, take-bytes_from, line-type_text,
}

line-submit_password : (w : World) (s : Lock) → line (submit_password w s) ≡ []
unfolding submit_password line_of bytes_from
line-submit_password w s =
    let clear : (s.password_len == 0) ≡ true → line s ≡ [] =
      λ empty. ap (bytes_from s.password 0) ((==_iff s.password_len 0).0 empty) in
    if_cases line (s.password_len == 0) clear (λ full.
      ap line_of (keys-finish_submit w (w.authenticate (typed (submitted w s))) (submitted w s)))

line-press_backspace :
    (w : World) (text : Text) (s : Lock)
    → line (press_key w key_backspace text s) ≡ edit_line key_backspace text (line s)
unfolding press_key edit_line clear_status store_byte line_of
line-press_backspace w text s =
    let n = length-line s in
    let m = s.password_len - 1 in
    let erased = store_byte m 0 (record s { password_len = m }) in
    let shorter : ltb 0 s.password_len ≡ true → line erased ≡ take m (line s) = λ some_typed.
      let below : m ≤ s.password_len = omega arith in
      bytes_from_store m 0 m 0 s.password (omega arith)
      ∙ sym (take-bytes_from m s.password_len 0 s.password below) in
    let same : ltb 0 s.password_len ≡ false → line s ≡ take m (line s) = λ none_typed.
      let short : length (line s) ≤ m = ground (arith, n, none_typed) in
      sym (take_of_length-le m (line s) short) in
    ap line_of (
      keys-render_all w (
        clear_status (
          if ltb 0 s.password_len
          then store_byte (s.password_len - 1) 0 (record s { password_len = s.password_len - 1 })
          else s)))
    ∙ if_cases line (ltb 0 s.password_len) shorter same
    ∙ ap (λ m. take (m - 1) (line s)) (sym n)

line-press_escape : (w : World) (text : Text) (s : Lock) → line (press_key w key_escape text s) ≡ []
unfolding press_key clear_status store_byte line_of bytes_from
line-press_escape w text s =
    ap line_of (keys-render_all w (clear_status (store_byte 0 0 (record s { password_len = 0 }))))

line-press_key :
    (w : World) (k : Keysym) (text : Text) (s : Lock)
    → line (press_key w k text s) ≡ edit_line k (key_buf w text) (line s)
unfolding press_key edit_line send
line-press_key w key_return text s = line-submit_password w s
line-press_key w key_kp_enter text s = line-submit_password w s
line-press_key w key_backspace text s = line-press_backspace w text s
line-press_key w key_escape text s = line-press_escape w text s
line-press_key w key_audio_play text s = refl
line-press_key w key_audio_pause text s = refl
line-press_key w key_audio_next text s = refl
line-press_key w key_audio_prev text s = refl
line-press_key w other_key text s = line-type_text w text s

line-key_with :
    (x : XkbState) (w : World) (k : Keysym) (text : Text) (s : Lock)
    → line (key_with x w k text s)
      ≡ (if is_live x then edit_line k (key_buf w text) (line s) else line s)
unfolding key_with
line-key_with no_state w k text s = refl
line-key_with live_state w k text s = line-press_key w k text s
line-key_with released_state w k text s = refl

line-kb_key :
    (w : World) (pressed : Bool) (k : Keysym) (text : Text) (s : Lock)
    → line (kb_key w pressed k text s) ≡ (
        if pressed && not (is_leave s.phase) && is_live s.xkb_state
        then edit_line k (key_buf w text) (line s)
        else line s)
unfolding kb_key
line-kb_key w pressed k text s =
    let edited = line-key_with s.xkb_state w k text s in ground (arith, edited)

line-quiet : (s t : Lock) → door t ≡ door s → line t ≡ line s
line-quiet s t h = ap (λ (d : Bool × ((ℕ → ℕ) × ℕ)). line_of d.1) h

-- A key with the bytes that are read from `buf`.
unfoldable read_keys : World → Event → Event
read_keys w (key pressed k text) = key pressed k (key_buf w text)
read_keys w e = e

line-step : (w : World) (e : Event) (s : Lock) → line (step w e s) ≡ line_after (read_keys w e) s
unfolding step line_after read_keys
line-step w (key pressed k text) s = line-kb_key w pressed k text s
line-step w fingerprint_matched s = ap line_of (keys-on_fprint_match w s)
line-step w (global_added name g) s =
    line-quiet s (step w (global_added name g) s) (door-step w (global_added name g) s refl)
line-step w (global_removed name) s =
    line-quiet s (step w (global_removed name) s) (door-step w (global_removed name) s refl)
line-step w lock_requested s =
    line-quiet s (step w lock_requested s) (door-step w lock_requested s refl)
line-step w lock_granted s = line-quiet s (step w lock_granted s) (door-step w lock_granted s refl)
line-step w lock_ended s = line-quiet s (step w lock_ended s) (door-step w lock_ended s refl)
line-step w (surface_configured object) s =
    line-quiet s (step w (surface_configured object) s)
      (door-step w (surface_configured object) s refl)
line-step w (frame_shown object) s =
    line-quiet s (step w (frame_shown object) s) (door-step w (frame_shown object) s refl)
line-step w (capabilities has_keyboard has_pointer) s =
    line-quiet s (step w (capabilities has_keyboard has_pointer) s)
      (door-step w (capabilities has_keyboard has_pointer) s refl)
line-step w (keymap known_format maps compiles) s =
    line-quiet s (step w (keymap known_format maps compiles) s)
      (door-step w (keymap known_format maps compiles) s refl)
line-step w modifiers s = line-quiet s (step w modifiers s) (door-step w modifiers s refl)
line-step w (pointer_entered surface x y) s =
    line-quiet s (step w (pointer_entered surface x y) s)
      (door-step w (pointer_entered surface x y) s refl)
line-step w pointer_left s = line-quiet s (step w pointer_left s) (door-step w pointer_left s refl)
line-step w (pointer_moved x y) s =
    line-quiet s (step w (pointer_moved x y) s) (door-step w (pointer_moved x y) s refl)
line-step w (button is_left pressed) s =
    line-quiet s (step w (button is_left pressed) s) (door-step w (button is_left pressed) s refl)
line-step w (fingerprint_status text error) s =
    line-quiet s (step w (fingerprint_status text error) s)
      (door-step w (fingerprint_status text error) s refl)
line-step w media_changed s =
    line-quiet s (step w media_changed s) (door-step w media_changed s refl)
line-step w minute_passed s =
    line-quiet s (step w minute_passed s) (door-step w minute_passed s refl)
line-step w roundtrip_ended s =
    line-quiet s (step w roundtrip_ended s) (door-step w roundtrip_ended s refl)

-- The text of a key fits into `char buf[8]` with its zero.
abbrev pub FitsBuf : Event → Type 0
FitsBuf (key pressed k text) = length text ≤ 7
FitsBuf _ = Unit

read_keys_fit :
    (w : World) (e : Event) (s : Lock) → FitsBuf e → line_after (read_keys w e) s ≡ line_after e s
unfolding read_keys key_buf
read_keys_fit w (key pressed k text) s h = ap (λ t. line_after (key pressed k t) s) (ground arith)
read_keys_fit w (global_added name g) s h = refl
read_keys_fit w (global_removed name) s h = refl
read_keys_fit w lock_requested s h = refl
read_keys_fit w lock_granted s h = refl
read_keys_fit w lock_ended s h = refl
read_keys_fit w (surface_configured object) s h = refl
read_keys_fit w (frame_shown object) s h = refl
read_keys_fit w (capabilities has_keyboard has_pointer) s h = refl
read_keys_fit w (keymap known_format maps compiles) s h = refl
read_keys_fit w modifiers s h = refl
read_keys_fit w (pointer_entered surface x y) s h = refl
read_keys_fit w pointer_left s h = refl
read_keys_fit w (pointer_moved x y) s h = refl
read_keys_fit w (button is_left pressed) s h = refl
read_keys_fit w fingerprint_matched s h = refl
read_keys_fit w (fingerprint_status text error) s h = refl
read_keys_fit w media_changed s h = refl
read_keys_fit w minute_passed s h = refl
read_keys_fit w roundtrip_ended s h = refl

-- Every event, whatever the state, leaves the bytes that `edit_line` describes, where the text of a key
-- has at most 7 bytes, as `char buf[8]` holds them: Return submits and clears the line, Backspace drops
-- its last byte, Escape clears it, a key with a printable text appends it where the line stays below 1023
-- bytes; all other events keep the line, and so does a key that is released, that finds no keymap, or
-- that comes while the lock ends.
pub step-line : (w : World) (e : Event) (s : Lock) → FitsBuf e → line (step w e s) ≡ line_after e s
step-line w e s h = line-step w e s ∙ read_keys_fit w e s h

length-edit_line :
    (k : Keysym) (text typed : Text)
    → length typed < password_size - 1
    → length (edit_line k text typed) < password_size - 1
unfolding edit_line
length-edit_line key_return text typed h = omega arith
length-edit_line key_kp_enter text typed h = omega arith
length-edit_line key_backspace text typed h =
    let n = length-take (length typed - 1) typed in omega (arith, n)
length-edit_line key_escape text typed h = omega arith
length-edit_line key_audio_play text typed h = h
length-edit_line key_audio_pause text typed h = h
length-edit_line key_audio_next text typed h = h
length-edit_line key_audio_prev text typed h = h
length-edit_line other_key text typed h = let n = length-append typed text in ground (arith, n)

length-line_after :
    (e : Event) (s : Lock)
    → length (line s) < password_size - 1
    → length (line_after e s) < password_size - 1
unfolding line_after
length-line_after (key pressed k text) s h =
    let edited = length-edit_line k text (line s) h in ground (arith, edited)
length-line_after (global_added name g) s h = h
length-line_after (global_removed name) s h = h
length-line_after lock_requested s h = h
length-line_after lock_granted s h = h
length-line_after lock_ended s h = h
length-line_after (surface_configured object) s h = h
length-line_after (frame_shown object) s h = h
length-line_after (capabilities has_keyboard has_pointer) s h = h
length-line_after (keymap known_format maps compiles) s h = h
length-line_after modifiers s h = h
length-line_after (pointer_entered surface x y) s h = h
length-line_after pointer_left s h = h
length-line_after (pointer_moved x y) s h = h
length-line_after (button is_left pressed) s h = h
length-line_after fingerprint_matched s h = h
length-line_after (fingerprint_status text error) s h = h
length-line_after media_changed s h = h
length-line_after minute_passed s h = h
length-line_after roundtrip_ended s h = h

length-steps :
    (es : List (World × Event)) (s : Lock)
    → length (line s) < password_size - 1
    → length (line (steps es s)) < password_size - 1
unfolding steps
length-steps [] s h = h
length-steps ((w, e) ∷ es) s h =
    let kept = length-line_after (read_keys w e) s h in
    let edited = line-step w e s in length-steps es (step w e s) (rw edited kept)

-- In every state that the locker reaches, fewer than 1023 bytes are typed, so that each of them and the
-- zero behind them lie in the buffer of 1024 bytes.
pub steps-password_len :
    (settings : Settings) (es : List (World × Event))
    → (steps es (initial settings)).password_len + 1 < password_size
unfolding initial start_phase
steps-password_len settings es =
    let empty = length-line (initial settings) in
    let short = length-steps es (initial settings) (omega (arith, empty)) in
    let n = length-line (steps es (initial settings)) in omega (arith, short, n)

-- Behind a text of at least one byte, Return wipes the buffer whatever PAM answers: afterwards nothing
-- is typed and every byte of the buffer is zero.
pub submit_password-wiped :
    (w : World) (s : Lock) (j : ℕ)
    → 0 < s.password_len
    → j < password_size
    → ((submit_password w s).password_len ≡ 0) × ((submit_password w s).password j ≡ 0)
unfolding submit_password
submit_password-wiped w s j h below =
    let full : (s.password_len == 0) ≡ false = ground arith in
    let t = submitted w s in
    let wiped = keys-finish_submit w (w.authenticate (typed t)) t in
    let inside = lt→ltb j password_size below in
    rw full (ap (λ (p : (ℕ → ℕ) × ℕ). p.1) wiped, ap (λ (p : (ℕ → ℕ) × ℕ). p.0 j) wiped ∙ rw inside)
