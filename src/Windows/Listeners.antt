-- ===== src/Windows/Listeners.antt =====
-- src/wayland/wayland_integration.c: the events about windows.
use singularity_shell.Base.{
  ℕ, Bool, true, false, not, Option, none, some, List, [], ◌∷◌, ◌==◌, if◌then◌else◌,
}
use singularity_shell.CString.{Text, copy_into}
use singularity_shell.Windows.{lookup, delete, insert, Rect, GeomEntry, new_entry, Windows, remove}

-- The listeners.
unfoldable pub toplevel_manager_toplevel : ℕ → Windows → Windows
toplevel_manager_toplevel handle s = record s {
  alive = handle ∷ s.alive;
  valid_handles = elim s.valid_handles [
    | some handles ↦ some (handle ∷ remove handle handles)
    | none ↦ none
  ];
}

unfoldable pub toplevel_handle_title : ℕ → Text → Windows → Windows
unfolding insert
toplevel_handle_title handle title s = record s { titles = insert handle title s.titles }

unfoldable pub toplevel_handle_output_enter : ℕ → ℕ → Windows → Windows
unfolding insert
toplevel_handle_output_enter handle output s = record s { outputs = insert handle output s.outputs }

unfoldable pub is_output : Option ℕ → ℕ → Bool
is_output none output = false
is_output (some o) output = o == output

unfoldable pub toplevel_handle_output_leave : ℕ → ℕ → Windows → Windows
unfolding lookup delete is_output
toplevel_handle_output_leave handle output s =
    if is_output (lookup handle s.outputs) output
    then record s { outputs = delete handle s.outputs }
    else s

unfoldable pub toplevel_handle_closed : ℕ → Windows → Windows
unfolding delete remove
toplevel_handle_closed handle s = record s {
  outputs = delete handle s.outputs;
  geometry = elim s.geometry [ some table ↦ some (delete handle table) | none ↦ none ];
  titles = delete handle s.titles;
  valid_handles = elim s.valid_handles [
    | some handles ↦ some (remove handle handles)
    | none ↦ none
  ];
  alive = remove handle s.alive;
}

-- The entry of a handle, a new one where there is none.
abbrev pub entry_of : Option GeomEntry → GeomEntry
entry_of none = new_entry
entry_of (some e) = e

-- A change of the entry, if there is the table.
unfoldable pub change_entry : (GeomEntry → GeomEntry) → ℕ → Windows → Windows
unfolding lookup insert
change_entry f handle s = elim s.geometry [
  | none ↦ s
  | some table ↦ record s {
    geometry = some (insert handle (f (entry_of (lookup handle table))) table);
  }
]

-- The same without a new entry.
unfoldable pub change_known : (GeomEntry → GeomEntry) → ℕ → Windows → Windows
unfolding lookup insert
change_known f handle s = elim s.geometry [
  | none ↦ s
  | some table ↦ elim (lookup handle table) [
    | none ↦ s
    | some e ↦ record s { geometry = some (insert handle (f e) table) }
  ]
]

unfoldable pub invalidate_toplevel_tileable : ℕ → Windows → Windows
unfolding change_known
invalidate_toplevel_tileable handle s =
    change_known (λ e. record e { tileable_got = false }) handle s

unfoldable pub tiling_handle_geometry : ℕ → Rect → ℕ → ℕ → Text → Windows → Windows
unfolding change_entry
tiling_handle_geometry handle rect maximized fullscreen output s =
    change_entry
      (λ e. record e {
        geometry = rect;
        maximized = maximized;
        fullscreen = fullscreen;
        connector = copy_into 64 output;
        got = true;
      })
      handle s

unfoldable pub tiling_handle_workarea : ℕ → Rect → Windows → Windows
unfolding change_entry
tiling_handle_workarea handle rect s =
    change_entry (λ e. record e { workarea = rect; workarea_got = true }) handle s

unfoldable pub tiling_handle_tileable : ℕ → ℕ → Windows → Windows
unfolding change_entry
tiling_handle_tileable handle tileable s =
    change_entry (λ e. record e { tileable = not (tileable == 0); tileable_got = true }) handle s

pub data Event : Type 0 where
  opened closed parent_changed : ℕ → Event
  titled : ℕ → Text → Event
  entered left : ℕ → ℕ → Event
  geometry_told : ℕ → Rect → ℕ → ℕ → Text → Event
  workarea_told : ℕ → Rect → Event
  tileable_told : ℕ → ℕ → Event

unfoldable pub handle_event : Event → Windows → Windows
handle_event (opened handle) s = toplevel_manager_toplevel handle s
handle_event (closed handle) s = toplevel_handle_closed handle s
handle_event (parent_changed handle) s = invalidate_toplevel_tileable handle s
handle_event (titled handle title) s = toplevel_handle_title handle title s
handle_event (entered handle output) s = toplevel_handle_output_enter handle output s
handle_event (left handle output) s = toplevel_handle_output_leave handle output s
handle_event (geometry_told handle rect maximized fullscreen output) s =
    tiling_handle_geometry handle rect maximized fullscreen output s
handle_event (workarea_told handle rect) s = tiling_handle_workarea handle rect s
handle_event (tileable_told handle tileable) s = tiling_handle_tileable handle tileable s

unfoldable pub dispatch : List Event → Windows → Windows
dispatch [] s = s
dispatch (e ∷ es) s = dispatch es (handle_event e s)
