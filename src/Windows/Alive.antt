-- ===== src/Windows/Alive.antt =====
-- src/wayland/wayland_integration.c: the calls of the shell and the windows that are gone.
use singularity_shell.Base.{
  ℕ, ◌≡◌, refl, ap, ◌∙◌, Bool, true, false, not, ◌||◌, Option, none, some, List, [], ◌∷◌, arith,
  if_both, if_either,
}
use singularity_shell.Windows.{
  GeomEntry, Request, Windows, contains, handle_is_valid, send, has_tiling, Globals, initial,
  activate, show_pip, minimize, unset_minimize, close, ask_geometry, ask_workarea, ask_tileable,
  detach_tiled, set_geometry, set_geometry_animated, set_close_gesture_progress, set_tiled,
  snap_view, move_to_workspace,
}
use singularity_shell.Windows.Listeners.{change_known, Event, dispatch}
use singularity_shell.Windows.Calls.{
  activate_window, show_window_pip, minimize_window, unminimize_window, close_window, tile,
  can_animate_geometry, set_window_geometry_animated, with_table, entry, get_window_geometry,
  get_window_workarea, knows_tileable, window_is_tileable, Step, step, steps, happens, activates,
  shows_pip, minimizes, unminimizes, closes, detaches, sets_geometry, animates_geometry, gestures,
  tiles, snaps, moves, asks_geometry, asks_workarea, asks_tileable,
}
use singularity_shell.Windows.Careful.{
  IsCareful, valid_of_not, send-IsCareful, send_valid-IsCareful, View, view, IsCareful-same,
  view-change_known, handle_event-IsCareful, dispatch-IsCareful,
}

tile-IsCareful :
    (version : ℕ) (r : Request) (handle : ℕ) (s : Windows)
    → IsCareful s
    → IsCareful (tile version r handle s)
unfolding tile
tile-IsCareful version r handle s c =
    if_both IsCareful (not (has_tiling version s)) c (send_valid-IsCareful r handle s c)

or_false_right : (a b : Bool) → (a || b) ≡ false → b ≡ false
or_false_right a b h = ground arith

last_of_three : (a b c : Bool) → (not a || not b || not c) ≡ false → c ≡ true
last_of_three a b c h = ground arith

last_of_four : (a b c d : Bool) → (not a || not b || not c || not d) ≡ false → d ≡ true
last_of_four a b c d h = ground arith

show_window_pip-IsCareful :
    (handle : ℕ) (s : Windows) → IsCareful s → IsCareful (show_window_pip handle s).1
unfolding show_window_pip
show_window_pip-IsCareful handle s c =
    if_either (λ (r : Bool × Windows). IsCareful r.1)
      (not s.pip_manager || not (handle_is_valid handle s)) (λ refused. c)
      (λ shown.
        send-IsCareful show_pip handle s
          (valid_of_not (handle_is_valid handle s)
            (or_false_right (not s.pip_manager) (not (handle_is_valid handle s)) shown))
          c)

-- A question about a window, behind the check of its handle.
asked-IsCareful :
    (r : Request) (handle : ℕ) (es : List Event) (s t : Windows)
    → view t ≡ view s
    → handle_is_valid handle s ≡ true
    → IsCareful s
    → IsCareful (dispatch es (send r handle t))
unfolding handle_is_valid
asked-IsCareful r handle es s t e v c =
    let same =
      ap (λ (x : View). elim x.1.0 [ some handles ↦ contains handle handles | none ↦ false ]) e in
    dispatch-IsCareful es (send r handle t)
      (send-IsCareful r handle t (same ∙ v) (IsCareful-same s t e c))

get_window_geometry-IsCareful :
    (handle : ℕ) (es : List Event) (s : Windows)
    → IsCareful s
    → IsCareful (get_window_geometry handle es s).1
unfolding get_window_geometry
get_window_geometry-IsCareful handle es s c =
    if_either (λ (r : Option GeomEntry × Windows). IsCareful r.1)
      (not (has_tiling 0 s) || not s.display || not (handle_is_valid handle s)) (λ refused. c)
      (λ asks.
        asked-IsCareful ask_geometry handle es s
          (change_known (λ e. record e { got = false }) handle (with_table s))
          (view-change_known (λ e. record e { got = false }) handle (with_table s))
          (last_of_three (has_tiling 0 s) s.display (handle_is_valid handle s) asks) c)

get_window_workarea-IsCareful :
    (handle : ℕ) (es : List Event) (s : Windows)
    → IsCareful s
    → IsCareful (get_window_workarea handle es s).1
unfolding get_window_workarea
get_window_workarea-IsCareful handle es s c =
    if_either (λ (r : Option GeomEntry × Windows). IsCareful r.1)
      (not (has_tiling 0 s)
        || not s.display
        || not (has_tiling 4 s)
        || not (handle_is_valid handle s))
      (λ refused. c)
      (λ asks.
        asked-IsCareful ask_workarea handle es s
          (change_known (λ e. record e { workarea_got = false }) handle (with_table s))
          (view-change_known (λ e. record e { workarea_got = false }) handle (with_table s))
          (last_of_four (has_tiling 0 s) s.display (has_tiling 4 s) (handle_is_valid handle s) asks)
          c)

window_is_tileable-IsCareful :
    (handle : ℕ) (es : List Event) (s : Windows)
    → IsCareful s
    → IsCareful (window_is_tileable handle es s).1
unfolding window_is_tileable
window_is_tileable-IsCareful handle es s c =
    let of : Bool × Windows → Type 0 = λ r. IsCareful r.1 in
    if_both of (not (has_tiling 0 s) || not s.display) c (
      if_both of (not (has_tiling 7 s)) c (
        if_either of (not (handle_is_valid handle s)) (λ gone. c)
          (λ here. if_both of (knows_tileable (entry handle (with_table s))) c (
            asked-IsCareful ask_tileable handle es s (with_table s) refl
              (valid_of_not (handle_is_valid handle s) here) c))))

step-IsCareful : (x : Step) (s : Windows) → IsCareful s → IsCareful (step x s)
unfolding step activate_window minimize_window unminimize_window close_window
    set_window_geometry_animated
step-IsCareful (happens e) s c = handle_event-IsCareful e s c
step-IsCareful (activates handle) s c =
    if_both IsCareful (not s.seat) c (send_valid-IsCareful activate handle s c)
step-IsCareful (shows_pip handle) s c = show_window_pip-IsCareful handle s c
step-IsCareful (minimizes handle) s c = send_valid-IsCareful minimize handle s c
step-IsCareful (unminimizes handle) s c = send_valid-IsCareful unset_minimize handle s c
step-IsCareful (closes handle) s c = send_valid-IsCareful close handle s c
step-IsCareful (detaches handle) s c = tile-IsCareful 5 detach_tiled handle s c
step-IsCareful (sets_geometry handle rect) s c = tile-IsCareful 0 (set_geometry rect) handle s c
step-IsCareful (animates_geometry handle rect) s c =
    if_both IsCareful (not (can_animate_geometry s))
      (tile-IsCareful 0 (set_geometry rect) handle s c)
      (send_valid-IsCareful (set_geometry_animated rect) handle s c)
step-IsCareful (gestures handle progress) s c =
    tile-IsCareful 8 (set_close_gesture_progress progress) handle s c
step-IsCareful (tiles handle tiled) s c = tile-IsCareful 0 (set_tiled tiled) handle s c
step-IsCareful (snaps handle direction) s c = tile-IsCareful 0 (snap_view direction) handle s c
step-IsCareful (moves handle index) s c = tile-IsCareful 3 (move_to_workspace index) handle s c
step-IsCareful (asks_geometry handle es) s c = get_window_geometry-IsCareful handle es s c
step-IsCareful (asks_workarea handle es) s c = get_window_workarea-IsCareful handle es s c
step-IsCareful (asks_tileable handle es) s c = window_is_tileable-IsCareful handle es s c

steps-IsCareful : (xs : List Step) (s : Windows) → IsCareful s → IsCareful (steps xs s)
unfolding steps
steps-IsCareful [] s c = c
steps-IsCareful (x ∷ xs) s c = steps-IsCareful xs (step x s) (step-IsCareful x s c)

initial-IsCareful : (g : Globals) → IsCareful (initial g)
unfolding initial contains
initial-IsCareful g = (refl, λ h v. cc)

-- Over any sequence of events and of calls of the shell, with any events during the round trips of the
-- calls: every request about a window was sent while the window's handle was alive, also where the shell
-- holds handles of windows that are closed.
pub steps-misused : (g : Globals) (xs : List Step) → (steps xs (initial g)).misused ≡ false
steps-misused g xs = (steps-IsCareful xs (initial g) (initial-IsCareful g)).0
