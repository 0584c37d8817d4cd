-- ===== src/Windows/Tests.antt =====
-- The windows on concrete events and calls, and the theorem applied to them.
use singularity_shell.Base.{◌≡◌, refl, true, false, none, some, List, [], ◌∷◌}
use singularity_shell.CString.{codes}
use singularity_shell.Int.{pos}
use singularity_shell.Windows.{Rect, Globals, initial, activate, ask_geometry, snap_view}
use singularity_shell.Windows.Listeners.{opened, closed, geometry_told}
use singularity_shell.Windows.Calls.{
  get_window_geometry, Step, steps, happens, activates, minimizes, snaps, asks_geometry,
}
use singularity_shell.Windows.Alive.{steps-misused}

abbrev globals : Globals
globals = record { has_seat = true; has_pip = true; tiling_version = some 11 }

abbrev full : Rect
full = record { x = pos 0; y = pos 0; w = pos 1920; h = pos 1080 }

-- Two windows open; the first is closed while its geometry is asked for, and used afterwards.
abbrev session : List Step
session =
    happens (opened 1)
    ∷ happens (opened 2)
    ∷ activates 1
    ∷ asks_geometry 1 (geometry_told 1 full 1 0 (codes "eDP-1") ∷ closed 1 ∷ [])
    ∷ minimizes 1
    ∷ snaps 2 3
    ∷ []

requests_sent :
    (steps session (initial globals)).sent
    ≡ (snap_view 3, 2) ∷ (ask_geometry, 1) ∷ (activate, 1) ∷ []
unfolding steps singularity_shell.Windows.Calls.step singularity_shell.Windows.Calls.tile
    singularity_shell.Windows.Calls.minimize_window get_window_geometry
    singularity_shell.Windows.Calls.activate_window singularity_shell.Windows.Listeners.handle_event
    singularity_shell.Windows.Listeners.toplevel_manager_toplevel initial
    singularity_shell.Windows.remove singularity_shell.Windows.Listeners.toplevel_handle_closed
    singularity_shell.Windows.Listeners.tiling_handle_geometry
requests_sent = refl

-- The geometry that was told is not handed out for a window that is closed.
no_geometry :
    (get_window_geometry 1
      (geometry_told 1 full 1 0 (codes "eDP-1") ∷ closed 1 ∷ [])
      (steps (happens (opened 1) ∷ []) (initial globals))).0
    ≡ none
unfolding get_window_geometry steps singularity_shell.Windows.Calls.step
    singularity_shell.Windows.Listeners.handle_event
    singularity_shell.Windows.Listeners.toplevel_manager_toplevel initial
    singularity_shell.Windows.Listeners.toplevel_handle_closed
    singularity_shell.Windows.Listeners.tiling_handle_geometry
no_geometry = refl

steps-misused_example : (steps session (initial globals)).misused ≡ false
steps-misused_example = steps-misused globals session
