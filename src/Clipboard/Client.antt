-- ===== src/Clipboard/Client.antt =====
-- src/wayland/clipboard_watch.c: the calls of the client, its own selection, and the paste.
use singularity_shell.Base.{
  ℕ, ◌+◌, ◌%◌, ◌^◌, Bool, true, false, not, ◌&&◌, ◌||◌, Option, none, some, List, [], ◌∷◌, ◌==◌,
  if◌then◌else◌,
}
use singularity_shell.CString.{Text, codes}
use singularity_shell.Clipboard.{
  Clipboard, send, device_data_offer, offer_mime, is_image, device_selection, device_primary,
  device_finished, on_read, offer_mime_of, destroy_source, set_selection, send_keymap, send_key,
  send_modifiers,
}

-- What the calls find: GDK's Wayland display, the globals of its registry, the seat, and the size of the
-- keymap's file, if it can be made.
pub record Env : Type 0 where
  pub has_display : Bool
  pub has_manager : Bool
  pub has_vk_manager : Bool
  pub has_seat : Bool
  pub keymap_size : Option ℕ

unfoldable pub ensure_globals : Env → Clipboard → Bool × Clipboard
ensure_globals env s =
    if s.display then (s.manager, s) else if not env.has_display then (false, s) else (
      env.has_manager,
      record s { display = true; manager = env.has_manager; vk_manager = env.has_vk_manager },
    )

unfoldable pub make_device : Env → Clipboard → Bool × Clipboard
make_device env s =
    if s.device
    then (true, s)
    else if not env.has_seat
    then (false, s)
    else (true, record s { device = true })

unfoldable pub watch_start : Env → Bool → Clipboard → Bool × Clipboard
unfolding ensure_globals make_device
watch_start env func s =
    let ensured = ensure_globals env (record s { callback = func }) in
    if not ensured.0 then (false, ensured.1) else make_device env ensured.1

-- `source_send`: what is written to the descriptor.
unfoldable pub is_own : Option ℕ → ℕ → Bool
is_own none source = false
is_own (some own) source = own == source

unfoldable pub source_send : ℕ → Clipboard → Option Text
unfolding is_own
source_send source s = if is_own s.own_source source then s.own_data else none

unfoldable pub drop_source : ℕ → List ℕ → List ℕ
drop_source source [] = []
drop_source source (x ∷ rest) =
    let others = drop_source source rest in if x == source then rest else x ∷ others

-- ext_data_control_source_v1_destroy
unfoldable pub destroy : ℕ → Clipboard → Clipboard
unfolding send drop_source
destroy source s =
    send (destroy_source source) (record s { sources = drop_source source s.sources })

unfoldable pub has_source : ℕ → List ℕ → Bool
has_source source [] = false
has_source source (x ∷ rest) = x == source || has_source source rest

unfoldable pub source_cancelled : ℕ → Clipboard → Clipboard
unfolding is_own destroy
source_cancelled source s =
    let t =
      if is_own s.own_source source
      then record s { own_source = none; own_data = none; own_mime = none }
      else s in
    destroy source t

unfoldable pub offer_all : ℕ → List Text → Clipboard → Clipboard
unfolding send
offer_all source [] s = s
offer_all source (mime ∷ mimes) s = offer_all source mimes (send (offer_mime_of source mime) s)

abbrev pub offered : Text → List Text
offered mime =
    if is_image mime
    then mime ∷ []
    else codes "text/plain;charset=utf-8"
      ∷ codes "text/plain"
      ∷ codes "UTF8_STRING"
      ∷ codes "STRING"
      ∷ codes "TEXT"
      ∷ []

unfoldable pub destroy_own : Option ℕ → Clipboard → Clipboard
unfolding destroy
destroy_own none s = s
destroy_own (some own) s = destroy own s

-- `singularity_clipboard_set`, for arguments that are not NULL.
unfoldable pub take_selection : Text → Text → Clipboard → Clipboard
unfolding offer_all destroy_own send
take_selection mime bytes s =
    let source = s.next_source in
    let made =
      offer_all source (offered mime)
        (record s { next_source = source + 1; sources = source ∷ s.sources }) in
    let alone = destroy_own made.own_source made in
    send (set_selection source)
      (record alone { own_source = some source; own_data = some bytes; own_mime = some mime })

unfoldable pub clipboard_set : Env → Text → Text → Clipboard → Bool × Clipboard
unfolding ensure_globals take_selection
clipboard_set env mime bytes s =
    let ensured = ensure_globals env s in
    if not ensured.0 || not ensured.1.device
    then (false, ensured.1)
    else (true, take_selection mime bytes ensured.1)

unfoldable pub next_time : Clipboard → Clipboard
next_time s = record s { vk_time = (s.vk_time + 1) % 2 ^ 32 }

unfoldable pub paste_key : ℕ → Bool → Clipboard → Clipboard
unfolding next_time send
paste_key code pressed s = next_time (send (send_key s.vk_time code pressed) s)

abbrev pub key_leftctrl : ℕ
key_leftctrl = 29

abbrev pub key_v : ℕ
key_v = 47

-- The end of `singularity_clipboard_send_paste`, with the keymap's file.
unfoldable pub paste_with : Option ℕ → Clipboard → Bool × Clipboard
unfolding send paste_key
paste_with none s = (false, s)
paste_with (some size) s =
    let pressed = paste_key key_leftctrl true (send (send_keymap size) s) in
    let typed = paste_key key_v false (paste_key key_v true (send (send_modifiers 4) pressed)) in
    (true, send (send_modifiers 0) (paste_key key_leftctrl false typed))

unfoldable pub send_paste : Env → Clipboard → Bool × Clipboard
unfolding ensure_globals paste_with
send_paste env s =
    let t = (ensure_globals env s).1 in
    if not t.display || not t.vk_manager
    then (false, t)
    else if not t.vkbd && not env.has_seat
    then (false, t)
    else paste_with env.keymap_size (record t { vkbd = true })

pub data Event : Type 0 where
  started : Env → Bool → Event
  offer_came : ℕ → Event
  mime_came : ℕ → Text → Event
  selected : Bool → Option ℕ → Event
  primary : Option ℕ → Event
  device_gone : Event
  chunk_read : ℕ → Option Text → Event
  copied : Env → Text → Text → Event
  source_gone : ℕ → Event
  pasted : Env → Event

-- The library dispatches the events of a source that is alive; one that was destroyed gets none.
unfoldable pub step : Event → Clipboard → Clipboard
step (started env func) s = (watch_start env func s).1
step (offer_came offer) s = device_data_offer offer s
step (mime_came offer mime) s = offer_mime offer mime s
step (selected pipes offer) s = device_selection pipes offer s
step (primary offer) s = device_primary offer s
step device_gone s = device_finished s
step (chunk_read job chunk) s = on_read job chunk s
step (copied env mime bytes) s = (clipboard_set env mime bytes s).1
step (source_gone source) s = if has_source source s.sources then source_cancelled source s else s
step (pasted env) s = (send_paste env s).1

unfoldable pub steps : List Event → Clipboard → Clipboard
steps [] s = s
steps (e ∷ es) s = steps es (step e s)
