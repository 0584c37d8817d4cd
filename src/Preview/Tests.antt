-- ===== src/Preview/Tests.antt =====
-- The pictures of windows on concrete events, and the theorem applied to them.
use singularity_shell.Base.{◌+◌, ◌≤◌, ◌≡◌, refl, true, false, some, List, [], ◌∷◌}
use singularity_shell.Preview.{PreviewBuffer, Previews, no_previews, Memory}
use singularity_shell.Preview.Requests.{
  frame_handle_buffer, frame_handle_ready, Capture, singularity_wayland_capture_preview,
  singularity_wayland_capture_preview_cancellable, singularity_wayland_cancel_capture, Event, step,
  steps, captured, offered, ready, cancel_asked,
}
use singularity_shell.Preview.Holders.{one_if, holders, total}
use singularity_shell.Preview.Pool.{steps-holders}
use singularity_shell.Preview.Balance.{given_back, waiting, handed_over}
use singularity_shell.Preview.Returned.{all_live, steps-given_back}

abbrev memory : Memory
memory = record { has_file = true; maps = true; makes_pool = true; makes_buffer = true }

abbrev no_memory : Memory
no_memory = record { has_file = false; maps = false; makes_pool = false; makes_buffer = false }

abbrev window : Capture
window = record { has_manager = true; has_shm = true; is_valid = true; makes_frame = true }

abbrev two_captures : List Event
two_captures =
    captured true window true true 70
    ∷ captured false window true true 71
    ∷ offered memory memory 0 1 640 480 2560
    ∷ offered memory memory 1 1 640 480 2560
    ∷ ready 0
    ∷ []

-- The second request holds the second element, and the first element is free again.
second_element :
    (holders 0 (steps two_captures no_previews).requests ≡ 0)
    × (holders 1 (steps two_captures no_previews).requests ≡ 1)
unfolding holders total steps step singularity_wayland_capture_preview
    singularity_wayland_capture_preview_cancellable frame_handle_buffer frame_handle_ready
second_element = (refl, refl)

abbrev stale_cancel : List Event
stale_cancel =
    captured true window true true 70
    ∷ offered no_memory no_memory 0 1 640 480 2560
    ∷ cancel_asked (some 0)
    ∷ []

-- A request of a caller that finds no buffer is freed, and the caller's cancellation uses its memory and
-- gives the data back a second time.
cancel_fault :
    ((steps stale_cancel no_previews).faulted ≡ true)
    × (given_back 70 (steps stale_cancel no_previews).effects ≡ 2)
unfolding given_back steps step singularity_wayland_cancel_capture
    singularity_wayland_capture_preview_cancellable frame_handle_buffer
cancel_fault = (refl, refl)

two_live : all_live two_captures no_previews ≡ true
unfolding all_live singularity_shell.Preview.Returned.is_live
two_live = refl

steps-holders_example :
    holders 1 (steps two_captures no_previews).requests
    ≤ one_if (PreviewBuffer.in_use (Previews.pool (steps two_captures no_previews) 1))
steps-holders_example = steps-holders two_captures 1

-- The first capture is completed, the second one has its buffer still.
given_back_once :
    (given_back 70 (steps two_captures no_previews).effects ≡ 1)
    × (waiting 71 (steps two_captures no_previews).requests ≡ 1)
unfolding given_back steps step singularity_wayland_capture_preview
    singularity_wayland_capture_preview_cancellable frame_handle_buffer frame_handle_ready waiting
given_back_once = (refl, refl)

steps-given_back_example :
    given_back 70 (steps two_captures no_previews).effects
      + waiting 70 (steps two_captures no_previews).requests
    ≡ handed_over 70 two_captures
steps-given_back_example = steps-given_back two_captures 70 two_live
