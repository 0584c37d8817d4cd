-- ===== src/Preview/Pool.antt =====
-- src/wayland/wayland_integration.c: the pool of buffers, and every event on the requests.
use singularity_shell.Base.{
  ℕ, ◌≤◌, refl, Bool, true, false, not, ◌||◌, Option, none, some, List, [], ◌∷◌, arith, if_both,
}
use singularity_shell.Preview.{
  PreviewBuffer, preview_pool_max, Previews, no_previews, first_slot, fits, preview_buffer_acquire,
  singularity_wayland_preview_pool_trim,
}
use singularity_shell.Preview.Requests.{
  find_request, frame_handle_buffer, frame_handle_ready, frame_handle_failed, Capture,
  singularity_wayland_capture_preview, singularity_wayland_capture_preview_cancellable,
  singularity_wayland_cancel_capture, Event, step, steps, captured, offered, ready, failed,
  cancel_asked, trimmed,
}
use singularity_shell.Preview.Holders.{one_if, holders, total, IsUnshared}
use singularity_shell.Preview.Sharing.{
  IsSafe, frame_handle_ready-IsSafe, frame_handle_failed-IsSafe, cancel-IsSafe,
  refuse_capture-IsSafe, new_request-IsSafe,
}
use singularity_shell.Preview.Acquire.{trim_from-IsSafe, reuse_slot-IsSafe, on_frame-IsSafe}

capture_preview-IsSafe :
    (c : Capture) (has_callback has_destroy : Bool) (d : ℕ) (s : Previews)
    → IsSafe s
    → IsSafe (singularity_wayland_capture_preview c has_callback has_destroy d s)
unfolding singularity_wayland_capture_preview
capture_preview-IsSafe c has_callback has_destroy d s h =
    let no = refuse_capture-IsSafe has_callback has_destroy d s h in
    if_both IsSafe (not c.has_manager) no (
      if_both IsSafe (not c.has_shm) no (
        if_both IsSafe (not c.is_valid) no (
          if_both IsSafe (not c.makes_frame) no
            (new_request-IsSafe false has_callback has_destroy d s h))))

capture_preview_cancellable-IsSafe :
    (c : Capture) (has_callback has_destroy : Bool) (d : ℕ) (s : Previews)
    → IsSafe s
    → IsSafe (singularity_wayland_capture_preview_cancellable c has_callback has_destroy d s).1
unfolding singularity_wayland_capture_preview_cancellable
capture_preview_cancellable-IsSafe c has_callback has_destroy d s h =
    let turned_down = refuse_capture-IsSafe has_callback has_destroy d s h in
    let of : Option ℕ × Previews → Type 0 = λ r. IsSafe r.1 in
    if_both of (not c.has_manager || not c.has_shm || not c.is_valid) turned_down (
      if_both of (not c.makes_frame) turned_down
        (new_request-IsSafe true has_callback has_destroy d s h))

step-IsSafe : (e : Event) (s : Previews) → IsSafe s → IsSafe (step e s)
unfolding step frame_handle_buffer preview_buffer_acquire singularity_wayland_preview_pool_trim
    singularity_wayland_cancel_capture
step-IsSafe (captured external c has_callback has_destroy d) s h =
    if_both IsSafe external (capture_preview_cancellable-IsSafe c has_callback has_destroy d s h)
      (capture_preview-IsSafe c has_callback has_destroy d s h)
step-IsSafe (offered pooled single token format width height stride) s h =
    on_frame-IsSafe (frame_handle_buffer pooled single format width height stride) token
      (find_request token s.requests) s refl
      (λ r f.
        reuse_slot-IsSafe pooled single format width height stride
          (first_slot (fits format width height stride) s.pool 0 preview_pool_max) r
          (record r { width = width; height = height; stride = stride }) s refl f refl refl h)
      h
step-IsSafe (ready token) s h =
    on_frame-IsSafe frame_handle_ready token (find_request token s.requests) s refl
      (λ r f. frame_handle_ready-IsSafe r s f h) h
step-IsSafe (failed token) s h =
    on_frame-IsSafe frame_handle_failed token (find_request token s.requests) s refl
      (λ r f. frame_handle_failed-IsSafe r s f h) h
step-IsSafe (cancel_asked none) s h = h
step-IsSafe (cancel_asked (some token)) s h =
    cancel-IsSafe token (find_request token s.requests) s refl h
step-IsSafe trimmed s h = trim_from-IsSafe 0 preview_pool_max s h

steps-IsSafe : (es : List Event) (s : Previews) → IsSafe s → IsSafe (steps es s)
unfolding steps
steps-IsSafe [] s h = h
steps-IsSafe (e ∷ es) s h = steps-IsSafe es (step e s) (step-IsSafe e s h)

no_previews-IsSafe : IsSafe no_previews
unfolding IsUnshared holders total
no_previews-IsSafe i = omega arith

-- Over any sequence of captures, events of the frames, cancellations and trims, in any order: an element
-- of the pool is held by at most one request, and by none where it is not in use, so that no two windows
-- are drawn into one buffer, and neither an acquisition nor a trim takes a buffer that a request holds.
pub steps-holders :
    (es : List Event) (i : ℕ)
    → holders i (steps es no_previews).requests
      ≤ one_if (PreviewBuffer.in_use (Previews.pool (steps es no_previews) i))
unfolding IsUnshared
steps-holders es i = steps-IsSafe es no_previews no_previews-IsSafe i
