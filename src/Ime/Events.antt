-- ===== src/Ime/Events.antt =====
-- src/wayland/ime.c: the events of the input method, the pointer and the seat, the start, the popup.
use singularity_shell.Base.{
  ℕ, ◌+◌, ◌%◌, ◌^◌, Bool, true, false, not, ◌&&◌, ◌||◌, Option, none, some, List, if◌then◌else◌,
}
use singularity_shell.CString.{Text}
use singularity_shell.Int.{ℤ, pos, ltb_ℤ}
use singularity_shell.Ime.Defs.{
  create_virtual_keyboard, no_state, destroy_input_method, create_popup, show_popup, hide_popup,
  get_pointer, release_pointer, flush, Ime, send,
}
use singularity_shell.Ime.Keys.{Call, calls, update_grab}

unfoldable pub im_activate : Ime → Ime
im_activate s = record s { pending = record no_state { active = true } }

unfoldable pub im_deactivate : Ime → Ime
im_deactivate s = let p = s.pending in record s { pending = record p { active = false } }

unfoldable pub im_surrounding_text : Text → ℕ → Ime → Ime
im_surrounding_text text cursor s =
    let p = s.pending in
    record s { pending = record p { surrounding = some text; cursor = cursor } }

unfoldable pub im_content_type : ℕ → ℕ → Ime → Ime
im_content_type hint purpose s =
    let p = s.pending in record s { pending = record p { hint = hint; purpose = purpose } }

-- `im_done`, with the calls of the client's `state_func`.
unfoldable pub im_done : List Call → Ime → Ime
im_done callback s =
    calls callback
      (update_grab (record s { serial = (s.serial + 1) % 2 ^ 32; current = s.pending }))

unfoldable pub im_unavailable : Ime → Ime
unfolding send
im_unavailable s = send destroy_input_method (record s { input_method = false })

-- `on_popup` is `surface != NULL && surface == popup_surface`.
unfoldable pub pointer_enter : Bool → ℤ → ℤ → Ime → Ime
pointer_enter on_popup x y s = record s { pointer_inside = on_popup; pointer_x = x; pointer_y = y }

unfoldable pub pointer_leave : Ime → Ime
pointer_leave s = record s { pointer_inside = false }

unfoldable pub pointer_motion : ℤ → ℤ → Ime → Ime
pointer_motion x y s = if not s.pointer_inside then s else record s { pointer_x = x; pointer_y = y }

-- The point that `pointer_func` is called with, if it is.
unfoldable pub pointer_button : Bool → Bool → Ime → Option (ℤ × ℤ)
pointer_button pressed has_callback s =
    if s.pointer_inside && pressed && has_callback then some (s.pointer_x, s.pointer_y) else none

unfoldable pub seat_capabilities : Bool → Ime → Ime
unfolding send
seat_capabilities has_pointer s =
    if has_pointer && not s.pointer
    then send get_pointer (record s { pointer = true })
    else if not has_pointer && s.pointer
    then send release_pointer (record s { pointer = false; pointer_inside = false })
    else s

-- What `singularity_ime_start` finds: a Wayland display with a seat, and the globals that the
-- registry announces in the round trip.
pub record Globals : Type 0 where
  pub wayland : Bool
  pub seat : Bool
  pub im_manager : Bool
  pub vk_manager : Bool
  pub compositor : Bool
  pub shm : Bool

-- singularity_ime_start. Behind `im_unavailable` it makes a second virtual keyboard.
unfoldable pub start : Globals → Ime → Bool × Ime
unfolding send
start g s =
    if s.input_method
    then (true, s)
    else if not g.wayland
    then (false, s)
    else let shown = record s { display = true } in
      if not g.seat || not g.im_manager || not g.vk_manager || not g.compositor || not g.shm
      then (false, shown)
      else (
        true,
        send flush (
            send create_virtual_keyboard
              (record shown { forward_keyboard = true; input_method = true })),
      )

-- singularity_ime_popup_show, with whether the shared memory can be made.
unfoldable pub popup_show : Bool → Bool → ℤ → ℤ → ℤ → Ime → Ime
unfolding send
popup_show has_pixels memory width height scale s =
    if not s.input_method
      || not has_pixels
      || not (ltb_ℤ (pos 0) width)
      || not (ltb_ℤ (pos 0) height)
    then s
    else let made =
        if s.popup_surface then s else send create_popup (record s { popup_surface = true }) in
      if not memory
      then made
      else send flush
          (send (show_popup (if ltb_ℤ (pos 0) scale then scale else pos 1) width height) made)

-- singularity_ime_popup_hide
unfoldable pub popup_hide : Ime → Ime
unfolding send
popup_hide s = if not s.popup_surface then s else send flush (send hide_popup s)
