-- ===== src/Lock/Auth.antt =====
-- src/lockscreen/lock_main.c: authentication and the end of the lock.
use singularity_shell.Base.{
  ℕ, zero, suc, ◌+◌, ◌-◌, Bool, true, false, not, Option, none, some, List, [], ◌∷◌, ◌++◌, ltb, leb,
  ◌==◌, if◌then◌else◌,
}
use singularity_shell.CString.{Text, codes, copy_into, before}
use singularity_shell.Lock.Defs.{
  Phase, phase_idle, phase_leave, is_leave, LockOutput, unlock_and_destroy, stop_fingerprint, Lock,
  World, send, start_phase, motion_large_ms,
}
use singularity_shell.Lock.Render.{render_all, find_output, put_output, render_in_place}

-- The size of `password`.
abbrev pub password_size : ℕ
password_size = 1024

-- The character … in UTF-8.
abbrev pub ellipsis : Text
ellipsis = 0xe2 ∷ 0x80 ∷ 0xa6 ∷ []

-- `unlock_session` up to its round trip. Each call of it is the last thing that its caller does, so
-- what follows the round trip is `roundtrip_done`, after the events that the round trip dispatches.
unfoldable pub unlock_session : Lock → Lock
unfolding send
unlock_session s =
    send unlock_and_destroy (send stop_fingerprint (record s { roundtrips = s.roundtrips + 1 }))

unfoldable pub roundtrip_done : Lock → Lock
roundtrip_done s =
    if s.roundtrips == 0 then s else record s { roundtrips = s.roundtrips - 1; running = false }

unfoldable pub any_configured : List LockOutput → Bool
any_configured [] = false
any_configured (o ∷ rest) =
    let others = any_configured rest in if o.configured then true else others

unfoldable pub begin_leave : World → Lock → Lock
unfolding unlock_session any_configured start_phase render_all
begin_leave w s =
    if is_leave s.phase
    then s
    else if not (any_configured s.outputs)
    then unlock_session s
    else render_all w (start_phase phase_leave motion_large_ms (record s { shake_start = none }))

unfoldable pub set_status : Text → Bool → Lock → Lock
set_status text error s = record s { status_text = copy_into 128 text; status_error = error }

unfoldable pub on_fprint_match : World → Lock → Lock
unfolding set_status render_all begin_leave
on_fprint_match w s =
    begin_leave w (render_all w (set_status (codes "Unlocking" ++ ellipsis) false s))

unfoldable pub on_fprint_status : World → Text → Bool → Lock → Lock
unfolding set_status render_all
on_fprint_status w text error s =
    if ltb 0 s.password_len then s else render_all w (set_status text error s)

-- The bytes of a buffer from an index on.
unfoldable pub bytes_from : (ℕ → ℕ) → ℕ → ℕ → Text
bytes_from buffer i zero = []
bytes_from buffer i (suc n) = buffer i ∷ bytes_from buffer (suc i) n

-- The string that the buffer holds once the byte at `password_len` is zero.
unfoldable pub typed : Lock → Text
unfolding bytes_from
typed s = before 0 (bytes_from s.password 0 s.password_len)

unfoldable pub store_byte : ℕ → ℕ → Lock → Lock
store_byte i c s = record s { password = λ j. if j == i then c else s.password j }

-- memset (password, 0, sizeof password)
unfoldable pub wipe : Lock → Lock
wipe s = record s {
  password = λ j. if ltb j password_size then 0 else s.password j;
  password_len = 0;
}

unfoldable pub wrong_password : World → Text
wrong_password w = if w.broker_socket then codes "Incorrect PIN" else codes "Incorrect password"

-- `submit_password` behind its call of `singularity_pam_authenticate`.
unfoldable pub finish_submit : World → Bool → Lock → Lock
unfolding wipe begin_leave wrong_password set_status render_all
finish_submit w granted s =
    let t = wipe s in
    if granted
    then begin_leave w t
    else let shaken = if t.motion_reduced then t else record t { shake_start = some w.now } in
      render_all w (set_status (wrong_password w) true shaken)

unfoldable pub submit_password : World → Lock → Lock
unfolding set_status store_byte render_all typed finish_submit
submit_password w s =
    if s.password_len == 0
    then s
    else let t =
        render_all w
          (set_status (codes "Authenticating" ++ ellipsis) false (store_byte s.password_len 0 s)) in
      finish_submit w (w.authenticate (typed t)) t

-- `frame_done` for the output.
unfoldable pub leave_over : World → Phase → Option ℕ → ℕ → Bool
leave_over w phase_leave (some start) anim_us = leb anim_us (w.now - start)
leave_over w phase start anim_us = false

unfoldable pub redraw : World → Option LockOutput → Lock → Lock
unfolding leave_over unlock_session put_output render_in_place
redraw w none s = s
redraw w (some o) s =
    let cleared = record o { frame_cb = false } in
    let t = record s { outputs = put_output cleared s.outputs } in
    if leave_over w t.phase t.anim_start t.anim_us
    then unlock_session (record t { phase = phase_idle })
    else render_in_place w cleared t

unfoldable pub frame_done : World → ℕ → Lock → Lock
unfolding find_output redraw
frame_done w object s = redraw w (find_output object s.outputs) s
