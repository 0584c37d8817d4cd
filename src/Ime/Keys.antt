-- ===== src/Ime/Keys.antt =====
-- src/wayland/ime.c: forwarding keys, the keyboard grab, and what a client may call.
use singularity_shell.Base.{
  ℕ, zero, suc, ◌+◌, ◌-◌, Bool, true, false, not, ◌&&◌, ◌||◌, Option, none, some, List, [], ◌∷◌,
  ltb, leb, ◌==◌, if◌then◌else◌,
}
use singularity_shell.CString.{Text}
use singularity_shell.Int.{ℤ}
use singularity_shell.Ime.Defs.{
  key_count, key, modifiers, upload_keymap, grab_keyboard, release_grab, set_preedit,
  delete_surrounding, commit_string, commit, flush, Ime, send, set_forwarded,
}

unfoldable pub send_forward : ℕ → Bool → Ime → Ime
unfolding send
send_forward k pressed s =
    if not s.forward_keyboard || not s.forward_ready then s else send (key k pressed) s

-- One round of the loop of `release_forwarded_keys`.
unfoldable pub release_key : ℕ → Ime → Ime
unfolding send_forward set_forwarded
release_key k s = if s.forwarded k then set_forwarded k false (send_forward k false s) else s

-- `rounds` keys are left, from `k` on.
unfoldable pub release_keys : ℕ → ℕ → Ime → Ime
release_keys zero k s = s
release_keys (suc rounds) k s = release_keys rounds (suc k) (release_key k s)

unfoldable pub clear_modifiers : Ime → Ime
unfolding send
clear_modifiers s = if s.forward_keyboard && s.forward_ready then send (modifiers 0 0 0 0) s else s

unfoldable pub release_forwarded_keys : Ime → Ime
release_forwarded_keys s = clear_modifiers (release_keys key_count 0 s)

unfoldable pub take_grab : Ime → Ime
unfolding send
take_grab s =
    send (grab_keyboard s.next_id)
      (record s { keyboard_grab = some s.next_id; next_id = s.next_id + 1 })

unfoldable pub end_grab : Ime → ℕ → Ime
unfolding send
end_grab s grab =
    let released = release_forwarded_keys s in
    send (release_grab grab) (record released { keyboard_grab = none })

-- The two branches of `update_grab`, on the grab that is held.
unfoldable pub move_grab : Bool → Option ℕ → Ime → Ime
move_grab true none s = take_grab s
move_grab true (some grab) s = s
move_grab false none s = s
move_grab false (some grab) s = end_grab s grab

unfoldable pub update_grab : Ime → Ime
unfolding send
update_grab s =
    if not (s.key_depth == 0)
    then s
    else send flush
        (move_grab (s.want_grab && s.current.active && s.input_method) s.keyboard_grab s)

-- singularity_ime_set_grab
unfoldable pub set_grab : Bool → Ime → Ime
set_grab grab s =
    let wanted = record s { want_grab = grab } in if s.display then update_grab wanted else wanted

unfoldable pub flush_display : Ime → Ime
unfolding send
flush_display s = if s.display then send flush s else s

-- singularity_ime_forward_key
unfoldable pub forward_key : ℕ → Bool → Ime → Ime
unfolding flush_display set_forwarded
forward_key k pressed s =
    let tried = send_forward k pressed s in
    flush_display (if ltb k key_count then set_forwarded k pressed tried else tried)

unfoldable pub show_preedit : Option Text → ℤ → ℤ → Ime → Ime
unfolding send
show_preedit none begin end s = s
show_preedit (some []) begin end s = s
show_preedit (some (c ∷ t)) begin end s = send (set_preedit (c ∷ t) begin end) s

-- singularity_ime_preedit
unfoldable pub preedit : Option Text → ℤ → ℤ → Ime → Ime
unfolding send show_preedit
preedit text begin end s =
    if not s.input_method || not s.current.active
    then s
    else send flush (send (commit s.serial) (show_preedit text begin end s))

unfoldable pub send_text : Option Text → Ime → Ime
unfolding send
send_text none s = s
send_text (some []) s = s
send_text (some (c ∷ t)) s = send (commit_string (c ∷ t)) s

-- singularity_ime_replace
unfoldable pub replace : ℕ → ℕ → Option Text → Ime → Ime
unfolding send send_text
replace before after text s =
    if not s.input_method || not s.current.active
    then s
    else let cut =
        if ltb 0 before || ltb 0 after then send (delete_surrounding before after) s else s in
      send flush (send (commit s.serial) (send_text text cut))

-- What a client may call, also while one of its callbacks runs.
pub data Call : Type 0 where
  call_set_grab : Bool → Call
  call_forward_key : ℕ → Bool → Call
  call_preedit : Option Text → ℤ → ℤ → Call
  call_replace : ℕ → ℕ → Option Text → Call

unfoldable pub call : Call → Ime → Ime
call (call_set_grab grab) s = set_grab grab s
call (call_forward_key k pressed) s = forward_key k pressed s
call (call_preedit text begin end) s = preedit text begin end s
call (call_replace before after text) s = replace before after text s

unfoldable pub calls : List Call → Ime → Ime
calls [] s = s
calls (c ∷ cs) s = calls cs (call c s)

-- What `grab_key` does behind the callback.
unfoldable pub pass_key : ℕ → Bool → Bool → Ime → Ime
unfolding set_forwarded
pass_key k pressed consumed s =
    if leb key_count k
    then (if not consumed then send_forward k pressed s else s)
    else if pressed
    then (if not consumed then set_forwarded k true (send_forward k true s) else s)
    else if s.forwarded k
    then set_forwarded k false (send_forward k false s)
    else s

unfoldable pub same_grab : ℕ → Option ℕ → Bool
same_grab grab none = false
same_grab grab (some held) = held == grab

-- `grab_key`, with what the callback `key_func` does: its calls, and whether it consumes the key
-- (no calls and `false` where there is no callback).
unfoldable pub grab_key : ℕ → ℕ → Bool → List Call → Bool → Ime → Ime
grab_key grab k pressed callback consumed s =
    if not (same_grab grab s.keyboard_grab)
    then s
    else let inside = calls callback (record s { key_depth = s.key_depth + 1 }) in
      let passed = pass_key k pressed consumed inside in
      update_grab (record passed { key_depth = passed.key_depth - 1 })

-- `grab_keymap`: the format is XKB_V1, the memory maps, and the keymap compiles.
unfoldable pub grab_keymap : Bool → Bool → Bool → Ime → Ime
unfolding send
grab_keymap known_format maps compiles s =
    if not known_format || not maps
    then s
    else let loaded = if compiles then record s { xkb_state = true } else s in
      if loaded.forward_keyboard
      then send upload_keymap (record loaded { forward_ready = true })
      else loaded

unfoldable pub grab_modifiers : ℕ → ℕ → ℕ → ℕ → ℕ → Ime → Ime
unfolding send
grab_modifiers grab depressed latched locked group s =
    if not (same_grab grab s.keyboard_grab)
    then s
    else if s.forward_keyboard && s.forward_ready
    then send flush (send (modifiers depressed latched locked group) s)
    else s

-- singularity_ime_key_forwarded and singularity_ime_active
unfoldable pub key_forwarded : ℕ → Ime → Bool
key_forwarded k s = ltb k key_count && s.forwarded k

unfoldable pub is_active : Ime → Bool
is_active s = s.input_method && s.current.active
