-- ===== src/Preview/Requests.antt =====
-- src/wayland/wayland_integration.c: the life of a request for a picture of a window.
use singularity_shell.Base.{
  ℕ, ◌+◌, Bool, true, false, not, ◌&&◌, ◌||◌, Option, none, some, List, [], ◌∷◌, ◌==◌,
  if◌then◌else◌,
}
use singularity_shell.Preview.{
  PreviewRequest, Previews, Memory, is_given, effect, tear_down, preview_buffer_acquire,
  preview_buffer_release, singularity_wayland_preview_pool_trim, delivered, refused, destroyed,
  buffer_made, copy_asked,
}

-- The request with this token, and the list with a request changed or freed.
unfoldable pub find_request : ℕ → List PreviewRequest → Option PreviewRequest
find_request token [] = none
find_request token (r ∷ rest) =
    let found = find_request token rest in if r.token == token then some r else found

unfoldable pub put_request : PreviewRequest → List PreviewRequest → List PreviewRequest
put_request new [] = []
put_request new (r ∷ rest) =
    let others = put_request new rest in if r.token == new.token then new ∷ rest else r ∷ others

unfoldable pub free_request : ℕ → List PreviewRequest → List PreviewRequest
free_request token [] = []
free_request token (r ∷ rest) =
    let others = free_request token rest in if r.token == token then rest else r ∷ others

unfoldable pub refuse : Bool → ℕ → Previews → Previews
unfolding effect
refuse has_callback user_data s = if has_callback then effect (refused user_data) s else s

unfoldable pub run_destroy : Bool → ℕ → Previews → Previews
unfolding effect
run_destroy has_destroy user_data s = if has_destroy then effect (destroyed user_data) s else s

unfoldable pub preview_request_free_buffer : PreviewRequest → Previews → Previews
unfolding preview_buffer_release tear_down
preview_request_free_buffer r s = elim r.slot [
  | some i ↦ preview_buffer_release (some i) s
  | none ↦ tear_down r.buffer s
]

abbrev pub without_buffer : PreviewRequest → PreviewRequest
without_buffer r = record r { slot = none; buffer = none }

-- The copy into the buffer of the request.
unfoldable pub ask_copy : PreviewRequest → Previews → Previews
unfolding put_request effect
ask_copy r s = effect (copy_asked r.token) (record s { requests = put_request r s.requests })

-- `frame_handle_buffer` behind `preview_buffer_acquire`; `m` is what the buffer for this one picture
-- finds. Where there is no buffer, the request is freed, also one whose token the caller has.
unfoldable pub frame_with : Memory → PreviewRequest → Option ℕ → Previews → Previews
unfolding ask_copy effect refuse run_destroy free_request
frame_with m r (some i) s = ask_copy (record r { slot = some i; buffer = none }) s
frame_with m r none s =
    if is_given m
    then ask_copy (record r { buffer = some s.next_buffer })
        (effect (buffer_made s.next_buffer) (record s { next_buffer = s.next_buffer + 1 }))
    else let t = run_destroy r.has_destroy r.user_data (refuse r.has_callback r.user_data s) in
      record t { requests = free_request r.token t.requests; freed = r ∷ t.freed }

unfoldable pub frame_handle_buffer :
    Memory → Memory → ℕ → ℕ → ℕ → ℕ → PreviewRequest → Previews → Previews
unfolding preview_buffer_acquire frame_with
frame_handle_buffer pooled single format width height stride r s =
    let sized = record r { width = width; height = height; stride = stride } in
    let acquired = preview_buffer_acquire pooled format width height stride s in
    frame_with single sized acquired.0 acquired.1

-- The common end of `frame_handle_ready` and `frame_handle_failed`.
unfoldable pub complete : PreviewRequest → Previews → Previews
unfolding preview_request_free_buffer run_destroy put_request free_request
complete r s =
    let t = run_destroy r.has_destroy r.user_data (preview_request_free_buffer r s) in
    if r.external
    then record t {
      requests =
          put_request
            (record (without_buffer r) { has_frame = false; has_destroy = false; completed = true })
            t.requests;
    }
    else record t { requests = free_request r.token t.requests }

unfoldable pub frame_handle_ready : PreviewRequest → Previews → Previews
unfolding effect complete
frame_handle_ready r s =
    if not r.cancelled && r.has_callback
    then complete r (effect (delivered r.width r.height r.stride r.user_data) s)
    else complete r s

unfoldable pub frame_handle_failed : PreviewRequest → Previews → Previews
unfolding refuse complete
frame_handle_failed r s = complete r (refuse (not r.cancelled && r.has_callback) r.user_data s)

-- What a call for a picture finds: the manager and the memory of the connection, whether the window is
-- among `valid_handles`, and the frame.
pub record Capture : Type 0 where
  pub has_manager : Bool
  pub has_shm : Bool
  pub is_valid : Bool
  pub makes_frame : Bool

unfoldable pub refuse_capture : Bool → Bool → ℕ → Previews → Previews
unfolding refuse run_destroy
refuse_capture has_callback has_destroy user_data s =
    run_destroy has_destroy user_data (refuse has_callback user_data s)

unfoldable pub new_request : Bool → Bool → Bool → ℕ → Previews → Previews
new_request external has_callback has_destroy user_data s = record s {
  requests =
      record {
        token = s.next_token;
        user_data = user_data;
        has_frame = true;
        slot = none;
        buffer = none;
        width = 0;
        height = 0;
        stride = 0;
        has_callback = has_callback;
        has_destroy = has_destroy;
        cancelled = false;
        external = external;
        completed = false;
      }
      ∷ s.requests;
  next_token = s.next_token + 1;
}

unfoldable pub singularity_wayland_capture_preview : Capture → Bool → Bool → ℕ → Previews → Previews
unfolding refuse_capture new_request
singularity_wayland_capture_preview c has_callback has_destroy user_data s =
    if not c.has_manager
    then refuse_capture has_callback has_destroy user_data s
    else if not c.has_shm
    then refuse_capture has_callback has_destroy user_data s
    else if not c.is_valid
    then refuse_capture has_callback has_destroy user_data s
    else if not c.makes_frame
    then refuse_capture has_callback has_destroy user_data s
    else new_request false has_callback has_destroy user_data s

-- The token, or NULL.
unfoldable pub singularity_wayland_capture_preview_cancellable :
    Capture → Bool → Bool → ℕ → Previews → Option ℕ × Previews
unfolding refuse_capture new_request
singularity_wayland_capture_preview_cancellable c has_callback has_destroy user_data s =
    if not c.has_manager || not c.has_shm || not c.is_valid
    then (none, refuse_capture has_callback has_destroy user_data s)
    else if not c.makes_frame
    then (none, refuse_capture has_callback has_destroy user_data s)
    else (some s.next_token, new_request true has_callback has_destroy user_data s)

-- `singularity_wayland_cancel_capture` on memory that `frame_handle_buffer` freed: `done` is not set and
-- `destroy` is not cleared there, so the data is given back again. Such a request has no buffer, as the
-- event of a frame that asks for one comes once.
unfoldable pub cancel_freed : Option PreviewRequest → Previews → Previews
unfolding run_destroy
cancel_freed none s = s
cancel_freed (some r) s = run_destroy r.has_destroy r.user_data s

unfoldable pub cancel : ℕ → Option PreviewRequest → Previews → Previews
unfolding preview_request_free_buffer run_destroy free_request cancel_freed find_request
cancel token none s = cancel_freed (find_request token s.freed) (record s { faulted = true })
cancel token (some r) s =
    if r.completed
    then record s { requests = free_request r.token s.requests }
    else let t = run_destroy r.has_destroy r.user_data (preview_request_free_buffer r s) in
      record t { requests = free_request r.token t.requests }

unfoldable pub singularity_wayland_cancel_capture : Option ℕ → Previews → Previews
unfolding cancel find_request
singularity_wayland_cancel_capture none s = s
singularity_wayland_cancel_capture (some token) s = cancel token (find_request token s.requests) s

-- The events of a frame come only for a frame that is not destroyed.
pub data Event : Type 0 where
  captured : Bool → Capture → Bool → Bool → ℕ → Event
  offered : Memory → Memory → ℕ → ℕ → ℕ → ℕ → ℕ → Event
  ready failed : ℕ → Event
  cancel_asked : Option ℕ → Event
  trimmed : Event

unfoldable pub on_frame :
    (PreviewRequest → Previews → Previews) → Option PreviewRequest → Previews → Previews
on_frame handle none s = s
on_frame handle (some r) s = if r.has_frame then handle r s else s

unfoldable pub step : Event → Previews → Previews
unfolding on_frame find_request
step (captured external c has_callback has_destroy user_data) s =
    if external
    then (singularity_wayland_capture_preview_cancellable c has_callback has_destroy user_data s).1
    else singularity_wayland_capture_preview c has_callback has_destroy user_data s
step (offered pooled single token format width height stride) s =
    on_frame (frame_handle_buffer pooled single format width height stride)
      (find_request token s.requests) s
step (ready token) s = on_frame frame_handle_ready (find_request token s.requests) s
step (failed token) s = on_frame frame_handle_failed (find_request token s.requests) s
step (cancel_asked token) s = singularity_wayland_cancel_capture token s
step trimmed s = singularity_wayland_preview_pool_trim s

unfoldable pub steps : List Event → Previews → Previews
steps [] s = s
steps (e ∷ es) s = steps es (step e s)
