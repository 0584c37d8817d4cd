-- ===== src/Windows/Careful.antt =====
-- src/wayland/wayland_integration.c: no request is sent for a window that is gone.
use singularity_shell.Base.{
  ℕ, ◌≡◌, refl, sym, ◌∙◌, Bool, true, false, not, ◌&&◌, Option, none, some, List, [], ◌∷◌, arith,
  ◌==◌, and-true, if_same, if_either,
}
use mathlib.Core.Path.{subst}
use singularity_shell.CString.{copy_into}
use singularity_shell.Windows.{lookup, insert}
use singularity_shell.Windows.{
  GeomEntry, Request, Windows, contains, remove, handle_is_valid, send, send_valid,
}
use singularity_shell.Windows.Listeners.{
  toplevel_manager_toplevel, toplevel_handle_title, toplevel_handle_output_enter, is_output,
  toplevel_handle_output_leave, toplevel_handle_closed, entry_of, change_entry, change_known,
  invalidate_toplevel_tileable, tiling_handle_geometry, tiling_handle_workarea,
  tiling_handle_tileable, Event, handle_event, dispatch, opened, closed, parent_changed, titled,
  entered, left, geometry_told, workarea_told, tileable_told,
}

contains-remove :
    (h x : ℕ) (xs : List ℕ) → contains h (remove x xs) ≡ (not (x == h) && contains h xs)
unfolding contains remove
contains-remove h x [] = ground arith
contains-remove h x (y ∷ rest) = let others = contains-remove h x rest in ground (arith, others)

-- The handles that are taken for valid are alive.
abbrev pub Tracked : Option (List ℕ) × List ℕ → Type 0
Tracked (valid, alive) =
    (h : ℕ)
    → (elim valid [ some handles ↦ contains h handles | none ↦ false ]) ≡ true
    → contains h alive ≡ true

abbrev pub handles_of : Windows → Option (List ℕ) × List ℕ
handles_of s = (s.valid_handles, s.alive)

-- No request was sent for a handle that is gone, and none will be.
abbrev pub IsCareful : Windows → Type 0
IsCareful s = (s.misused ≡ false) × Tracked (handles_of s)

opened-Tracked :
    (x : ℕ) (valid : Option (List ℕ)) (alive : List ℕ)
    → Tracked (valid, alive)
    → Tracked ((elim valid [ some handles ↦ some (x ∷ remove x handles) | none ↦ none ]), x ∷ alive)
unfolding contains
opened-Tracked x none alive t h v = cc
opened-Tracked x (some handles) alive t h v =
    let removed = contains-remove h x handles in
    let there = t h in ground (arith, removed, there, v)

closed-Tracked :
    (x : ℕ) (valid : Option (List ℕ)) (alive : List ℕ)
    → Tracked (valid, alive)
    → Tracked
        ((elim valid [ some handles ↦ some (remove x handles) | none ↦ none ]), remove x alive)
closed-Tracked x none alive t h v = cc
closed-Tracked x (some handles) alive t h v =
    let parts =
      and-true (not (x == h)) (contains h handles) (sym (contains-remove h x handles) ∙ v) in
    let there = t h parts.1 in contains-remove h x alive ∙ rw (parts.0, there)

pub valid_of_not : (b : Bool) → not b ≡ false → b ≡ true
valid_of_not true h = refl
valid_of_not false h = sym h

pub send-IsCareful :
    (r : Request) (handle : ℕ) (s : Windows)
    → handle_is_valid handle s ≡ true
    → IsCareful s
    → IsCareful (send r handle s)
unfolding send handle_is_valid
send-IsCareful r handle s v c =
    let there = c.1 handle v in let before = c.0 in (rw (before, there), c.1)

pub send_valid-IsCareful :
    (r : Request) (handle : ℕ) (s : Windows) → IsCareful s → IsCareful (send_valid r handle s)
unfolding send_valid
send_valid-IsCareful r handle s c =
    if_either IsCareful (not (handle_is_valid handle s)) (λ gone. c)
      (λ here. send-IsCareful r handle s (valid_of_not (handle_is_valid handle s) here) c)

abbrev pub View : Type 0
View = Bool × (Option (List ℕ) × List ℕ)

abbrev pub view : Windows → View
view s = (s.misused, handles_of s)

pub IsCareful-same : (s t : Windows) → view t ≡ view s → IsCareful s → IsCareful t
IsCareful-same s t e c = subst (λ (v : View). (v.0 ≡ false) × Tracked v.1) (sym e) c

view-found :
    (f : GeomEntry → GeomEntry) (handle : ℕ) (table : List (ℕ × GeomEntry)) (o : Option GeomEntry)
    (s : Windows)
    → view (elim o [ none ↦ s | some e ↦ record s { geometry = some (insert handle (f e) table) } ])
      ≡ view s
view-found f handle table none s = refl
view-found f handle table (some e) s = refl

view-known :
    (f : GeomEntry → GeomEntry) (handle : ℕ) (g : Option (List (ℕ × GeomEntry))) (s : Windows)
    → view (elim g [
      | none ↦ s
      | some table ↦ elim (lookup handle table) [
        | none ↦ s
        | some e ↦ record s { geometry = some (insert handle (f e) table) }
      ]
    ])
      ≡ view s
view-known f handle none s = refl
view-known f handle (some table) s = view-found f handle table (lookup handle table) s

pub view-change_known :
    (f : GeomEntry → GeomEntry) (handle : ℕ) (s : Windows) → view (change_known f handle s) ≡ view s
unfolding change_known
view-change_known f handle s = view-known f handle s.geometry s

view-entry :
    (f : GeomEntry → GeomEntry) (handle : ℕ) (g : Option (List (ℕ × GeomEntry))) (s : Windows)
    → view (elim g [
      | none ↦ s
      | some table ↦ record s {
        geometry = some (insert handle (f (entry_of (lookup handle table))) table);
      }
    ])
      ≡ view s
view-entry f handle none s = refl
view-entry f handle (some table) s = refl

view-change_entry :
    (f : GeomEntry → GeomEntry) (handle : ℕ) (s : Windows) → view (change_entry f handle s) ≡ view s
unfolding change_entry
view-change_entry f handle s = view-entry f handle s.geometry s

view-output_leave :
    (handle output : ℕ) (s : Windows) → view (toplevel_handle_output_leave handle output s) ≡ view s
unfolding toplevel_handle_output_leave
view-output_leave handle output s =
    if_same view (is_output (lookup handle s.outputs) output) refl refl

pub handle_event-IsCareful : (e : Event) (s : Windows) → IsCareful s → IsCareful (handle_event e s)
unfolding handle_event toplevel_manager_toplevel toplevel_handle_closed toplevel_handle_title
    toplevel_handle_output_enter invalidate_toplevel_tileable tiling_handle_geometry
    tiling_handle_workarea tiling_handle_tileable
handle_event-IsCareful (opened handle) s c =
    (c.0, opened-Tracked handle s.valid_handles s.alive c.1)
handle_event-IsCareful (closed handle) s c =
    (c.0, closed-Tracked handle s.valid_handles s.alive c.1)
handle_event-IsCareful (parent_changed handle) s c =
    IsCareful-same s (invalidate_toplevel_tileable handle s)
      (view-change_known (λ e. record e { tileable_got = false }) handle s) c
handle_event-IsCareful (titled handle title) s c = c
handle_event-IsCareful (entered handle output) s c = c
handle_event-IsCareful (left handle output) s c =
    IsCareful-same s (toplevel_handle_output_leave handle output s)
      (view-output_leave handle output s) c
handle_event-IsCareful (geometry_told handle rect maximized fullscreen output) s c =
    IsCareful-same s (tiling_handle_geometry handle rect maximized fullscreen output s)
      (view-change_entry
        (λ e. record e {
          geometry = rect;
          maximized = maximized;
          fullscreen = fullscreen;
          connector = copy_into 64 output;
          got = true;
        })
        handle s)
      c
handle_event-IsCareful (workarea_told handle rect) s c =
    IsCareful-same s (tiling_handle_workarea handle rect s)
      (view-change_entry (λ e. record e { workarea = rect; workarea_got = true }) handle s) c
handle_event-IsCareful (tileable_told handle tileable) s c =
    IsCareful-same s (tiling_handle_tileable handle tileable s)
      (view-change_entry (λ e. record e { tileable = not (tileable == 0); tileable_got = true })
        handle s)
      c

pub dispatch-IsCareful : (es : List Event) (s : Windows) → IsCareful s → IsCareful (dispatch es s)
unfolding dispatch
dispatch-IsCareful [] s c = c
dispatch-IsCareful (e ∷ es) s c =
    dispatch-IsCareful es (handle_event e s) (handle_event-IsCareful e s c)
