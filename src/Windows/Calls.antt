-- ===== src/Windows/Calls.antt =====
-- src/wayland/wayland_integration.c: the calls of the shell on windows.
use singularity_shell.Base.{
  ℕ, Bool, true, false, not, ◌||◌, Option, none, some, List, [], ◌∷◌, if◌then◌else◌,
}
use singularity_shell.Windows.{
  lookup, Rect, GeomEntry, Request, Windows, handle_is_valid, send, send_valid, has_tiling,
  activate, show_pip, minimize, unset_minimize, close, ask_geometry, ask_workarea, ask_tileable,
  detach_tiled, set_geometry, set_geometry_animated, set_close_gesture_progress, set_tiled,
  snap_view, move_to_workspace,
}
use singularity_shell.Windows.Listeners.{Event, change_known, handle_event, dispatch}

-- The calls; `es` are the events that a round trip dispatches.
unfoldable pub activate_window : ℕ → Windows → Windows
unfolding send_valid
activate_window handle s = if not s.seat then s else send_valid activate handle s

unfoldable pub show_window_pip : ℕ → Windows → Bool × Windows
unfolding handle_is_valid send
show_window_pip handle s =
    if not s.pip_manager || not (handle_is_valid handle s)
    then (false, s)
    else (true, send show_pip handle s)

unfoldable pub minimize_window : ℕ → Windows → Windows
unfolding send_valid
minimize_window handle s = send_valid minimize handle s

unfoldable pub unminimize_window : ℕ → Windows → Windows
unfolding send_valid
unminimize_window handle s = send_valid unset_minimize handle s

unfoldable pub close_window : ℕ → Windows → Windows
unfolding send_valid
close_window handle s = send_valid close handle s

-- A request of the tiling manager, from a version of it on.
unfoldable pub tile : ℕ → Request → ℕ → Windows → Windows
unfolding send_valid
tile version r handle s = if not (has_tiling version s) then s else send_valid r handle s

abbrev pub set_window_geometry : ℕ → Rect → Windows → Windows
set_window_geometry handle rect s = tile 0 (set_geometry rect) handle s

unfoldable pub can_animate_geometry : Windows → Bool
can_animate_geometry s = has_tiling 11 s

unfoldable pub set_window_geometry_animated : ℕ → Rect → Windows → Windows
unfolding can_animate_geometry tile send_valid
set_window_geometry_animated handle rect s =
    if not (can_animate_geometry s)
    then set_window_geometry handle rect s
    else send_valid (set_geometry_animated rect) handle s

abbrev pub close_gesture : ℕ → ℕ → Windows → Windows
close_gesture handle progress s = tile 8 (set_close_gesture_progress progress) handle s

abbrev pub set_window_tiled : ℕ → ℕ → Windows → Windows
set_window_tiled handle tiled s = tile 0 (set_tiled tiled) handle s

abbrev pub detach_window : ℕ → Windows → Windows
detach_window handle s = tile 5 detach_tiled handle s

abbrev pub snap_window : ℕ → ℕ → Windows → Windows
snap_window handle direction s = tile 0 (snap_view direction) handle s

abbrev pub move_window : ℕ → ℕ → Windows → Windows
move_window handle index s = tile 3 (move_to_workspace index) handle s

abbrev pub with_table : Windows → Windows
with_table s = record s { geometry = elim s.geometry [ some table ↦ some table | none ↦ some [] ] }

unfoldable pub entry : ℕ → Windows → Option GeomEntry
unfolding lookup
entry handle s = elim s.geometry [ none ↦ none | some table ↦ lookup handle table ]

abbrev pub if_entry : (GeomEntry → Bool) → Option GeomEntry → Option GeomEntry
if_entry p none = none
if_entry p (some e) = if p e then some e else none

unfoldable pub get_window_geometry : ℕ → List Event → Windows → Option GeomEntry × Windows
unfolding handle_is_valid change_known send dispatch entry
get_window_geometry handle es s =
    if not (has_tiling 0 s) || not s.display || not (handle_is_valid handle s)
    then (none, s)
    else let asked =
        send ask_geometry handle
          (change_known (λ e. record e { got = false }) handle (with_table s)) in
      let t = dispatch es asked in (if_entry (λ e. e.got) (entry handle t), t)

unfoldable pub get_window_workarea : ℕ → List Event → Windows → Option GeomEntry × Windows
unfolding handle_is_valid change_known send dispatch entry
get_window_workarea handle es s =
    if not (has_tiling 0 s)
      || not s.display
      || not (has_tiling 4 s)
      || not (handle_is_valid handle s)
    then (none, s)
    else let asked =
        send ask_workarea handle
          (change_known (λ e. record e { workarea_got = false }) handle (with_table s)) in
      let t = dispatch es asked in (if_entry (λ e. e.workarea_got) (entry handle t), t)

abbrev pub knows_tileable : Option GeomEntry → Bool
knows_tileable none = false
knows_tileable (some e) = e.tileable_got

abbrev pub tileable_of : Option GeomEntry → Bool
tileable_of none = true
tileable_of (some e) = if e.tileable_got then e.tileable else true

unfoldable pub window_is_tileable : ℕ → List Event → Windows → Bool × Windows
unfolding handle_is_valid send dispatch entry
window_is_tileable handle es s =
    if not (has_tiling 0 s) || not s.display
    then (true, s)
    else if not (has_tiling 7 s)
    then (true, s)
    else if not (handle_is_valid handle s)
    then (false, s)
    else let t = with_table s in
      if knows_tileable (entry handle t)
      then (tileable_of (entry handle t), t)
      else let u = dispatch es (send ask_tileable handle t) in (tileable_of (entry handle u), u)

-- A call of the shell, or an event between the calls.
pub data Step : Type 0 where
  happens : Event → Step
  activates shows_pip minimizes unminimizes closes detaches : ℕ → Step
  sets_geometry animates_geometry : ℕ → Rect → Step
  gestures tiles snaps moves : ℕ → ℕ → Step
  asks_geometry asks_workarea asks_tileable : ℕ → List Event → Step

unfoldable pub step : Step → Windows → Windows
step (happens e) s = handle_event e s
step (activates handle) s = activate_window handle s
step (shows_pip handle) s = (show_window_pip handle s).1
step (minimizes handle) s = minimize_window handle s
step (unminimizes handle) s = unminimize_window handle s
step (closes handle) s = close_window handle s
step (detaches handle) s = detach_window handle s
step (sets_geometry handle rect) s = set_window_geometry handle rect s
step (animates_geometry handle rect) s = set_window_geometry_animated handle rect s
step (gestures handle progress) s = close_gesture handle progress s
step (tiles handle tiled) s = set_window_tiled handle tiled s
step (snaps handle direction) s = snap_window handle direction s
step (moves handle index) s = move_window handle index s
step (asks_geometry handle es) s = (get_window_geometry handle es s).1
step (asks_workarea handle es) s = (get_window_workarea handle es s).1
step (asks_tileable handle es) s = (window_is_tileable handle es s).1

unfoldable pub steps : List Step → Windows → Windows
steps [] s = s
steps (c ∷ cs) s = steps cs (step c s)
