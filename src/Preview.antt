-- ===== src/Preview.antt =====
-- src/wayland/wayland_integration.c: the pictures of windows, their requests and the pool of buffers.
-- Requests, buffers and the callers' data are numbers; a request is in the list as long as its memory is
-- allocated.
use singularity_shell.Base.{
  ℕ, zero, suc, ◌+◌, Bool, true, false, not, ◌&&◌, ◌||◌, Option, none, some, List, [], ◌∷◌, ◌==◌,
  if◌then◌else◌,
}
pub mod Requests
pub mod Holders
pub mod Sharing
pub mod Acquire
pub mod Pool
pub mod Balance
pub mod Account
pub mod Ends
pub mod Returned
mod Tests

-- One element of `preview_pool`. `buffer` and `data` are set together.
pub record PreviewBuffer : Type 0 where
  pub buffer : Option ℕ
  pub width : ℕ
  pub height : ℕ
  pub stride : ℕ
  pub format : ℕ
  pub in_use : Bool

abbrev pub preview_pool_max : ℕ
preview_pool_max = 24

-- A request. `slot` is `pb`, `buffer` the buffer of the request where it is not the pool's.
pub record PreviewRequest : Type 0 where
  pub token : ℕ
  pub user_data : ℕ
  pub has_frame : Bool
  pub slot : Option ℕ
  pub buffer : Option ℕ
  pub width : ℕ
  pub height : ℕ
  pub stride : ℕ
  pub has_callback : Bool
  pub has_destroy : Bool
  pub cancelled : Bool
  pub external : Bool
  pub completed : Bool

-- What the process does to the outside: the callback with a picture or without one, `destroy`, and the
-- creation and destruction of buffers.
pub data Effect : Type 0 where
  delivered : ℕ → ℕ → ℕ → ℕ → Effect
  refused : ℕ → Effect
  destroyed : ℕ → Effect
  buffer_made buffer_destroyed : ℕ → Effect
  copy_asked : ℕ → Effect

-- `freed` holds the requests that `frame_handle_buffer` freed, as their memory still
-- reads. `faulted` is whether the memory of a request was used that is no longer allocated.
pub record Previews : Type 0 where
  pub pool : ℕ → PreviewBuffer
  pub requests : List PreviewRequest
  pub freed : List PreviewRequest
  pub next_token : ℕ
  pub next_buffer : ℕ
  pub faulted : Bool
  pub effects : List Effect

abbrev pub empty_slot : PreviewBuffer
empty_slot = record { buffer = none; width = 0; height = 0; stride = 0; format = 0; in_use = false }

abbrev pub no_previews : Previews
no_previews = record {
  pool = λ i. empty_slot;
  requests = [];
  freed = [];
  next_token = 0;
  next_buffer = 0;
  faulted = false;
  effects = [];
}

-- What the calls for a new buffer find: the file, its mapping, the pool of the protocol, the buffer.
pub record Memory : Type 0 where
  pub has_file : Bool
  pub maps : Bool
  pub makes_pool : Bool
  pub makes_buffer : Bool

abbrev pub is_given : Memory → Bool
is_given m = m.has_file && m.maps && m.makes_pool && m.makes_buffer

unfoldable pub effect : Effect → Previews → Previews
effect e s = record s { effects = e ∷ s.effects }

unfoldable pub put_slot : ℕ → PreviewBuffer → (ℕ → PreviewBuffer) → ℕ → PreviewBuffer
put_slot i pb pool j = if j == i then pb else pool j

-- The first of n elements from an index on with a property.
unfoldable pub first_slot : (PreviewBuffer → Bool) → (ℕ → PreviewBuffer) → ℕ → ℕ → Option ℕ
first_slot p pool i zero = none
first_slot p pool i (suc n) =
    let later = first_slot p pool (suc i) n in if p (pool i) then some i else later

abbrev pub has_buffer : PreviewBuffer → Bool
has_buffer pb = elim pb.buffer [ some b ↦ true | none ↦ false ]

unfoldable pub fits : ℕ → ℕ → ℕ → ℕ → PreviewBuffer → Bool
fits format width height stride pb =
    not pb.in_use
    && has_buffer pb
    && pb.format == format
    && pb.width == width
    && pb.height == height
    && pb.stride == stride

unfoldable pub is_free : PreviewBuffer → Bool
is_free pb = not pb.in_use

-- A buffer of the pool is torn down.
unfoldable pub tear_down : Option ℕ → Previews → Previews
unfolding effect
tear_down none s = s
tear_down (some b) s = effect (buffer_destroyed b) s

-- The second loop of `preview_buffer_acquire`, at the first free element.
unfoldable pub fill_slot : Memory → ℕ → ℕ → ℕ → ℕ → Option ℕ → Previews → Option ℕ × Previews
unfolding put_slot tear_down effect
fill_slot m format width height stride none s = (none, s)
fill_slot m format width height stride (some i) s =
    let pb = s.pool i in
    let t = tear_down pb.buffer s in
    let emptied = record t { pool = put_slot i (record pb { buffer = none }) t.pool } in
    if not (is_given m) then (none, emptied) else (
      some i,
      effect (buffer_made t.next_buffer) (record t {
        pool =
            put_slot i
              (record {
                buffer = some t.next_buffer;
                width = width;
                height = height;
                stride = stride;
                format = format;
                in_use = true;
              })
              t.pool;
        next_buffer = t.next_buffer + 1;
      }),
    )

unfoldable pub reuse_slot : Memory → ℕ → ℕ → ℕ → ℕ → Option ℕ → Previews → Option ℕ × Previews
unfolding put_slot first_slot is_free fill_slot
reuse_slot m format width height stride none s =
    fill_slot m format width height stride (first_slot is_free s.pool 0 preview_pool_max) s
reuse_slot m format width height stride (some i) s =
    (some i, record s { pool = put_slot i (record (s.pool i) { in_use = true }) s.pool })

unfoldable pub preview_buffer_acquire : Memory → ℕ → ℕ → ℕ → ℕ → Previews → Option ℕ × Previews
unfolding first_slot fits reuse_slot
preview_buffer_acquire m format width height stride s =
    reuse_slot m format width height stride
      (first_slot (fits format width height stride) s.pool 0 preview_pool_max) s

unfoldable pub preview_buffer_release : Option ℕ → Previews → Previews
unfolding put_slot
preview_buffer_release none s = s
preview_buffer_release (some i) s = record s {
  pool = put_slot i (record (s.pool i) { in_use = false }) s.pool;
}

-- The loop of `singularity_wayland_preview_pool_trim` from an index on.
unfoldable pub trim_slot : ℕ → PreviewBuffer → Previews → Previews
unfolding tear_down put_slot
trim_slot i pb s =
    if pb.in_use || not (has_buffer pb)
    then s
    else let t = tear_down pb.buffer s in record t { pool = put_slot i empty_slot t.pool }

unfoldable pub trim_from : ℕ → ℕ → Previews → Previews
unfolding trim_slot
trim_from i zero s = s
trim_from i (suc n) s = trim_from (suc i) n (trim_slot i (s.pool i) s)

unfoldable pub singularity_wayland_preview_pool_trim : Previews → Previews
unfolding trim_from
singularity_wayland_preview_pool_trim s = trim_from 0 preview_pool_max s
