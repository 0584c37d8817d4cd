-- ===== src/Lock/Cover.antt =====
-- src/lockscreen/lock_main.c: the events that change neither the outputs nor the lock.
use singularity_shell.Base.{
  ℕ, ◌+◌, ◌-◌, ◌≡◌, refl, ap, ◌∙◌, Bool, true, false, not, ◌&&◌, ◌||◌, Option, none, some, List, [],
  ◌∷◌, ◌++◌, ltb, ◌==◌, if◌then◌else◌, length, if_same,
}
use mathlib.Core.Bool.{◌||◌}
use singularity_shell.CString.{Text, codes}
use singularity_shell.Lock.Defs.{
  is_leave, MediaButtons, LockOutput, XkbState, Lock, World, send, motion_large_ms, start_phase,
  phase_leave, no_state, live_state, released_state,
}
use singularity_shell.Lock.Render.{render_all, find_output}
use singularity_shell.Lock.Auth.{
  password_size, ellipsis, unlock_session, roundtrip_done, any_configured, begin_leave, set_status,
  on_fprint_match, on_fprint_status, typed, store_byte, wipe, wrong_password, finish_submit,
  submit_password,
}
use singularity_shell.Lock.Input.{
  key_buf, Keysym, kb_keymap, store_bytes, clear_status, is_printable, type_text, press_key,
  key_with, kb_key, is_inside, press_button, press_on, press_at, pt_button, change_keyboard,
  change_pointer, key_return, key_kp_enter, key_backspace, key_escape, key_audio_play,
  key_audio_pause, key_audio_next, key_audio_prev, other_key,
}
use singularity_shell.Lock.Drawing.{Plain, Core, core, core-render_all}

abbrev pub cover_of : Core → Bool × (Bool × List Plain)
cover_of c = (c.lock, (c.locked, c.outputs))

-- Whether the lock is asked for, whether it is granted, and the outputs.
abbrev pub cover : Lock → Bool × (Bool × List Plain)
cover s = cover_of (core s)

pub cover-render_all : (w : World) (s : Lock) → cover (render_all w s) ≡ cover s
cover-render_all w s = ap cover_of (core-render_all w s)

cover-begin_leave : (w : World) (s : Lock) → cover (begin_leave w s) ≡ cover s
unfolding begin_leave start_phase unlock_session send
cover-begin_leave w s = if_same cover (is_leave s.phase) refl (
    if_same cover (not (any_configured s.outputs)) refl (
      cover-render_all w
        (start_phase phase_leave motion_large_ms (record s { shake_start = none }))))

pub cover-on_fprint_match : (w : World) (s : Lock) → cover (on_fprint_match w s) ≡ cover s
unfolding on_fprint_match set_status
cover-on_fprint_match w s =
    cover-begin_leave w (render_all w (set_status (codes "Unlocking" ++ ellipsis) false s))
    ∙ cover-render_all w (set_status (codes "Unlocking" ++ ellipsis) false s)

pub cover-on_fprint_status :
    (w : World) (text : Text) (error : Bool) (s : Lock)
    → cover (on_fprint_status w text error s) ≡ cover s
unfolding on_fprint_status set_status
cover-on_fprint_status w text error s =
    if_same cover (ltb 0 s.password_len) refl (cover-render_all w (set_status text error s))

cover-finish_submit :
    (w : World) (granted : Bool) (s : Lock) → cover (finish_submit w granted s) ≡ cover s
unfolding finish_submit set_status wipe
cover-finish_submit w true s = cover-begin_leave w (wipe s)
cover-finish_submit w false s =
    cover-render_all w (
      set_status (wrong_password w) true
        (if s.motion_reduced then wipe s else record (wipe s) { shake_start = some w.now }))
    ∙ if_same cover s.motion_reduced refl refl

cover-submit_password : (w : World) (s : Lock) → cover (submit_password w s) ≡ cover s
unfolding submit_password set_status store_byte
cover-submit_password w s =
    let t = set_status (codes "Authenticating" ++ ellipsis) false (store_byte s.password_len 0 s) in
    if_same cover (s.password_len == 0) refl (
      cover-finish_submit w (w.authenticate (typed (render_all w t))) (render_all w t)
      ∙ cover-render_all w t)

cover-store_bytes : (text : Text) (s : Lock) → cover (store_bytes text s) ≡ cover s
unfolding store_bytes store_byte
cover-store_bytes [] s = refl
cover-store_bytes (c ∷ text) s =
    let stored = store_byte s.password_len c s in
    cover-store_bytes text (record stored { password_len = stored.password_len + 1 })

cover-type_text : (w : World) (text : Text) (s : Lock) → cover (type_text w text s) ≡ cover s
unfolding type_text clear_status
cover-type_text w text s =
    let buf = key_buf w text in
    if_same cover (is_printable buf && ltb (s.password_len + length buf) (password_size - 1))
      (cover-render_all w (clear_status (store_bytes buf s)) ∙ cover-store_bytes buf s) refl

cover-press_key :
    (w : World) (k : Keysym) (text : Text) (s : Lock) → cover (press_key w k text s) ≡ cover s
unfolding press_key store_byte clear_status send
cover-press_key w key_return text s = cover-submit_password w s
cover-press_key w key_kp_enter text s = cover-submit_password w s
cover-press_key w key_backspace text s =
    cover-render_all w (
      clear_status (
        if ltb 0 s.password_len
        then store_byte (s.password_len - 1) 0 (record s { password_len = s.password_len - 1 })
        else s))
    ∙ if_same cover (ltb 0 s.password_len) refl refl
cover-press_key w key_escape text s =
    cover-render_all w (clear_status (store_byte 0 0 (record s { password_len = 0 })))
cover-press_key w key_audio_play text s = refl
cover-press_key w key_audio_pause text s = refl
cover-press_key w key_audio_next text s = refl
cover-press_key w key_audio_prev text s = refl
cover-press_key w other_key text s = cover-type_text w text s

cover-key_with :
    (x : XkbState) (w : World) (k : Keysym) (text : Text) (s : Lock)
    → cover (key_with x w k text s) ≡ cover s
unfolding key_with
cover-key_with no_state w k text s = refl
cover-key_with live_state w k text s = cover-press_key w k text s
cover-key_with released_state w k text s = refl

pub cover-kb_key :
    (w : World) (pressed : Bool) (k : Keysym) (text : Text) (s : Lock)
    → cover (kb_key w pressed k text s) ≡ cover s
unfolding kb_key
cover-kb_key w pressed k text s =
    if_same cover (not pressed || is_leave s.phase) refl (cover-key_with s.xkb_state w k text s)

pub cover-change_keyboard : (has : Bool) (s : Lock) → cover (change_keyboard has s) ≡ cover s
unfolding change_keyboard send
cover-change_keyboard has s =
    if_same cover (has && not s.keyboard) refl (if_same cover (not has && s.keyboard) refl refl)

pub cover-change_pointer : (has : Bool) (s : Lock) → cover (change_pointer has s) ≡ cover s
unfolding change_pointer send
cover-change_pointer has s =
    if_same cover (has && not s.pointer) refl (if_same cover (not has && s.pointer) refl refl)

pub cover-kb_keymap : (f m c : Bool) (s : Lock) → cover (kb_keymap f m c s) ≡ cover s
unfolding kb_keymap
cover-kb_keymap f m c s = if_same cover (not f || not m) refl refl

cover-press_button : (b : Option MediaButtons) (s : Lock) → cover (press_button b s) ≡ cover s
unfolding press_button send
cover-press_button none s = refl
cover-press_button (some b) s = if_same cover (is_inside b.previous_x b.center_y 15 s) refl (
    if_same cover (is_inside b.play_x b.center_y 17 s) refl
      (if_same cover (is_inside b.next_x b.center_y 15 s) refl refl))

cover-press_on : (o : Option LockOutput) (s : Lock) → cover (press_on o s) ≡ cover s
unfolding press_on
cover-press_on none s = refl
cover-press_on (some o) s = cover-press_button o.buttons s

cover-press_at : (p : Option ℕ) (s : Lock) → cover (press_at p s) ≡ cover s
unfolding press_at
cover-press_at none s = refl
cover-press_at (some object) s = cover-press_on (find_output object s.outputs) s

pub cover-pt_button : (l p : Bool) (s : Lock) → cover (pt_button l p s) ≡ cover s
unfolding pt_button
cover-pt_button l p s = if_same cover (not l || not p) refl (cover-press_at s.ptr_output s)

pub cover-roundtrip_done : (s : Lock) → cover (roundtrip_done s) ≡ cover s
unfolding roundtrip_done
cover-roundtrip_done s = if_same cover (s.roundtrips == 0) refl refl
