-- ===== src/Lock/Input.antt =====
-- src/lockscreen/lock_main.c: the keyboard and the pointer.
use singularity_shell.Base.{
  ℕ, ◌+◌, ◌-◌, sym, Bool, true, false, not, ◌&&◌, ◌||◌, Option, none, some, [], ◌∷◌, ltb, leb,
  if◌then◌else◌, length,
}
use singularity_shell.CString.{Text}
use singularity_shell.Int.{ℤ, ltb_ℤ, ◌+ℤ◌, ◌-ℤ◌, ◌*ℤ◌}
use singularity_shell.Lock.Defs.{
  is_leave, MediaButtons, LockOutput, XkbState, no_state, live_state, released_state, get_keyboard,
  release_keyboard, get_pointer, release_pointer, previous, play_pause, next, Lock, World, send,
}
use singularity_shell.Lock.Render.{render_all, pixels, find_output}
use singularity_shell.Lock.Auth.{bytes_from, password_size, submit_password, store_byte}

-- The symbol of a key, as far as `kb_key` tells them apart.
pub data Keysym : Type 0 where
  key_return key_kp_enter key_backspace key_escape : Keysym
  key_audio_play key_audio_pause key_audio_next key_audio_prev : Keysym
  other_key : Keysym

-- `kb_keymap`: the format is XKB_V1, the memory maps, and the keymap compiles. The old state is
-- released before, and the pointer to it is replaced only if the keymap compiles.
unfoldable pub released : XkbState → XkbState
released no_state = no_state
released _ = released_state

abbrev pub is_released : XkbState → Bool
is_released released_state = true
is_released _ = false

unfoldable pub kb_keymap : Bool → Bool → Bool → Lock → Lock
unfolding released
kb_keymap known_format maps compiles s = if not known_format || not maps then s else record s {
  faulted = s.faulted || is_released s.xkb_state;
  xkb_keymap = compiles;
  xkb_state = if compiles then live_state else released s.xkb_state;
}

-- `kb_modifiers`, which changes only the state inside libxkbcommon.
unfoldable pub kb_modifiers : Lock → Lock
kb_modifiers s = record s { faulted = s.faulted || is_released s.xkb_state }

-- memcpy (password + password_len, buf, n)
unfoldable pub store_bytes : Text → Lock → Lock
unfolding store_byte
store_bytes [] s = s
store_bytes (c ∷ text) s =
    let stored = store_byte s.password_len c s in
    store_bytes text (record stored { password_len = stored.password_len + 1 })

unfoldable pub clear_status : Lock → Lock
clear_status s = record s { status_text = [] }

abbrev pub is_printable : Text → Bool
is_printable [] = false
is_printable (c ∷ text) = leb 0x20 c

-- The bytes from the start of `char buf[8]`, as many as xkb_state_key_get_utf8 returns for the text of
-- the key. A text of up to 7 bytes is written there with its zero; a longer one is cut, and what is read
-- then, beyond the end of `buf` too, is the world's.
unfoldable pub key_buf : World → Text → Text
key_buf w text = if leb (length text) 7 then text else bytes_from (w.truncated text) 0 (length text)

-- The end of `kb_key`, on the text of the key.
unfoldable pub type_text : World → Text → Lock → Lock
unfolding store_bytes clear_status render_all
type_text w text s =
    let buf = key_buf w text in
    if is_printable buf && ltb (s.password_len + length buf) (password_size - 1)
    then render_all w (clear_status (store_bytes buf s))
    else s

unfoldable pub press_key : World → Keysym → Text → Lock → Lock
unfolding submit_password store_byte clear_status render_all send type_text
press_key w key_return text s = submit_password w s
press_key w key_kp_enter text s = submit_password w s
press_key w key_backspace text s =
    let shorter =
      if ltb 0 s.password_len
      then store_byte (s.password_len - 1) 0 (record s { password_len = s.password_len - 1 })
      else s in
    render_all w (clear_status shorter)
press_key w key_escape text s =
    render_all w (clear_status (store_byte 0 0 (record s { password_len = 0 })))
press_key w key_audio_play text s = send play_pause s
press_key w key_audio_pause text s = send play_pause s
press_key w key_audio_next text s = send next s
press_key w key_audio_prev text s = send previous s
press_key w other_key text s = type_text w text s

-- The tests of `kb_key` on the state: libxkbcommon is asked only for a pressed key outside of leaving.
unfoldable pub key_with : XkbState → World → Keysym → Text → Lock → Lock
unfolding press_key
key_with no_state w sym text s = s
key_with live_state w sym text s = press_key w sym text s
key_with released_state w sym text s = record s { faulted = true }

-- `kb_key`: whether the key is pressed, and what libxkbcommon makes of it.
unfoldable pub kb_key : World → Bool → Keysym → Text → Lock → Lock
unfolding key_with
kb_key w pressed sym text s =
    if not pressed || is_leave s.phase then s else key_with s.xkb_state w sym text s

-- `pt_enter`: the surface is the one of the output with this identity, if it is an output's.
abbrev pub object_of : Option LockOutput → Option ℕ
object_of none = none
object_of (some o) = some o.object

unfoldable pub pt_enter : ℕ → ℤ → ℤ → Lock → Lock
unfolding find_output
pt_enter surface x y s = record s {
  ptr_output = object_of (find_output surface s.outputs);
  ptr_x = x;
  ptr_y = y;
}

unfoldable pub pt_leave : Lock → Lock
pt_leave s = record s { ptr_output = none }

unfoldable pub pt_motion : ℤ → ℤ → Lock → Lock
pt_motion x y s = record s { ptr_x = x; ptr_y = y }

-- dx * dx + dy * dy <= r * r, r being the radius of the button and 6 pixels more.
unfoldable pub is_inside : ℤ → ℤ → ℕ → Lock → Bool
unfolding ◌-ℤ◌ ◌+ℤ◌ ◌*ℤ◌
is_inside center_x center_y radius s =
    let dx = s.ptr_x -ℤ center_x in
    let dy = s.ptr_y -ℤ center_y in
    let r = pixels (radius + 6) in not (ltb_ℤ (r *ℤ r) ((dx *ℤ dx) +ℤ (dy *ℤ dy)))

-- The loop of `pt_button` over the buttons.
unfoldable pub press_button : Option MediaButtons → Lock → Lock
unfolding is_inside send
press_button none s = s
press_button (some b) s =
    if is_inside b.previous_x b.center_y 15 s
    then send previous s
    else if is_inside b.play_x b.center_y 17 s
    then send play_pause s
    else if is_inside b.next_x b.center_y 15 s
    then send next s
    else s

-- The output that the pointer is on; a pointer to an output that was freed is a fault.
unfoldable pub press_on : Option LockOutput → Lock → Lock
unfolding press_button
press_on none s = record s { faulted = true }
press_on (some o) s = press_button o.buttons s

unfoldable pub press_at : Option ℕ → Lock → Lock
unfolding press_on find_output
press_at none s = s
press_at (some object) s = press_on (find_output object s.outputs) s

unfoldable pub pt_button : Bool → Bool → Lock → Lock
unfolding press_at
pt_button is_left pressed s = if not is_left || not pressed then s else press_at s.ptr_output s

-- `seat_capabilities`.
unfoldable pub change_keyboard : Bool → Lock → Lock
unfolding send
change_keyboard has s =
    if has && not s.keyboard
    then send get_keyboard (record s { keyboard = true })
    else if not has && s.keyboard
    then send release_keyboard (record s { keyboard = false })
    else s

unfoldable pub change_pointer : Bool → Lock → Lock
unfolding send
change_pointer has s =
    if has && not s.pointer
    then send get_pointer (record s { pointer = true })
    else if not has && s.pointer
    then send release_pointer (record s { pointer = false })
    else s

unfoldable pub seat_capabilities : Bool → Bool → Lock → Lock
unfolding change_keyboard change_pointer
seat_capabilities has_keyboard has_pointer s =
    change_pointer has_pointer (change_keyboard has_keyboard s)
