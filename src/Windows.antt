-- ===== src/Windows.antt =====
-- src/wayland/wayland_integration.c: the windows of the compositor: their handles, what is kept about
-- each, and the requests on them. Handles and outputs are numbers; a handle is alive from the event that
-- brings it until it is destroyed.
use singularity_shell.Base.{
  ℕ, Bool, true, false, not, ◌||◌, Option, none, some, List, [], ◌∷◌, leb, ◌==◌, if◌then◌else◌,
}
use singularity_shell.CString.{Text}
use singularity_shell.Int.{ℤ, pos}
pub mod Listeners
pub mod Calls
pub mod Careful
pub mod Alive
mod Tests

pub record Rect : Type 0 where
  pub x : ℤ
  pub y : ℤ
  pub w : ℤ
  pub h : ℤ

-- `struct GeomEntry`.
pub record GeomEntry : Type 0 where
  pub geometry : Rect
  pub maximized : ℕ
  pub fullscreen : ℕ
  pub workarea : Rect
  pub connector : Text
  pub got : Bool
  pub workarea_got : Bool
  pub tileable : Bool
  pub tileable_got : Bool

abbrev no_rect : Rect
no_rect = record { x = pos 0; y = pos 0; w = pos 0; h = pos 0 }

-- What `calloc` gives.
abbrev pub new_entry : GeomEntry
new_entry = record {
  geometry = no_rect;
  maximized = 0;
  fullscreen = 0;
  workarea = no_rect;
  connector = [];
  got = false;
  workarea_got = false;
  tileable = false;
  tileable_got = false;
}

pub data Request : Type 0 where
  activate show_pip minimize unset_minimize close : Request
  ask_geometry ask_workarea ask_tileable detach_tiled : Request
  set_geometry set_geometry_animated : Rect → Request
  set_close_gesture_progress set_tiled snap_view move_to_workspace : ℕ → Request

-- The parts of the context that are about windows. `geometry` is `none` before the first question;
-- `misused` is whether a request was sent for a handle that is not alive.
pub record Windows : Type 0 where
  pub display : Bool
  pub seat : Bool
  pub pip_manager : Bool
  pub tiling_manager : Option ℕ
  pub valid_handles : Option (List ℕ)
  pub alive : List ℕ
  pub titles : List (ℕ × Text)
  pub outputs : List (ℕ × ℕ)
  pub geometry : Option (List (ℕ × GeomEntry))
  pub misused : Bool
  pub sent : List (Request × ℕ)

unfoldable pub contains : ℕ → List ℕ → Bool
contains x [] = false
contains x (y ∷ rest) = y == x || contains x rest

unfoldable pub remove : ℕ → List ℕ → List ℕ
remove x [] = []
remove x (y ∷ rest) = let others = remove x rest in if y == x then others else y ∷ others

-- A hash table as an association list.
module _ {A : Type 0} where
  unfoldable pub lookup : ℕ → List (ℕ × A) → Option A
  lookup k [] = none
  lookup k ((j, v) ∷ rest) = let found = lookup k rest in if j == k then some v else found

  unfoldable pub delete : ℕ → List (ℕ × A) → List (ℕ × A)
  delete k [] = []
  delete k ((j, v) ∷ rest) =
      let others = delete k rest in if j == k then others else (j, v) ∷ others

  unfoldable pub insert : ℕ → A → List (ℕ × A) → List (ℕ × A)
  unfolding delete
  insert k v table = (k, v) ∷ delete k table

-- `singularity_wayland_handle_is_valid`, for a handle that is not NULL.
unfoldable pub handle_is_valid : ℕ → Windows → Bool
unfolding contains
handle_is_valid handle s = elim s.valid_handles [
  | some handles ↦ contains handle handles
  | none ↦ false
]

unfoldable pub send : Request → ℕ → Windows → Windows
unfolding contains
send r handle s = record s {
  sent = (r, handle) ∷ s.sent;
  misused = s.misused || not (contains handle s.alive);
}

-- A request behind the check of the handle.
unfoldable pub send_valid : Request → ℕ → Windows → Windows
unfolding handle_is_valid send
send_valid r handle s = if not (handle_is_valid handle s) then s else send r handle s

abbrev pub has_tiling : ℕ → Windows → Bool
has_tiling version s = elim s.tiling_manager [ some v ↦ leb version v | none ↦ false ]

-- What `singularity_wayland_init` finds: the seat, the manager of small windows, and the version of the
-- tiling manager.
pub record Globals : Type 0 where
  pub has_seat : Bool
  pub has_pip : Bool
  pub tiling_version : Option ℕ

unfoldable pub initial : Globals → Windows
initial g = record {
  display = true;
  seat = g.has_seat;
  pip_manager = g.has_pip;
  tiling_manager = g.tiling_version;
  valid_handles = some [];
  alive = [];
  titles = [];
  outputs = [];
  geometry = none;
  misused = false;
  sent = [];
}
