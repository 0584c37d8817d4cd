-- ===== src/Lock/Defs.antt =====
-- src/lockscreen/lock_main.c: the static variables of the session locker, and what it asks for.
-- Protocol objects are numbers; times are microseconds, positions 1/256 of a pixel. A factor of the
-- animations is a whole number of thousandths.
use singularity_shell.Base.{
  ℕ, ◌*◌, Bool, true, false, not, Option, none, some, List, [], ◌∷◌, ltb, if◌then◌else◌,
}
use singularity_shell.CString.{Text}
use singularity_shell.Int.{ℤ, pos}

pub data Phase : Type 0 where
  phase_idle phase_enter phase_leave : Phase

abbrev pub is_leave : Phase → Bool
is_leave phase_leave = true
is_leave _ = false

abbrev pub is_idle : Phase → Bool
is_idle phase_idle = true
is_idle _ = false

-- The centres of the media buttons, as the last drawing of the media card left them.
pub record MediaButtons : Type 0 where
  pub previous_x : ℤ
  pub play_x : ℤ
  pub next_x : ℤ
  pub center_y : ℤ

-- `struct lock_output`. `object` tells the allocations apart; `lock_surface` is whether the output has
-- its surface and lock surface, which are made together; `buttons` is `none` where `mb_valid` is false.
pub record LockOutput : Type 0 where
  pub object : ℕ
  pub name : ℕ
  pub lock_surface : Bool
  pub configured : Bool
  pub buttons : Option MediaButtons
  pub frame_cb : Bool

-- `xkb_state`: NULL, an object, or a pointer to an object that was released.
pub data XkbState : Type 0 where
  no_state live_state released_state : XkbState

-- The requests to the compositor, and the calls of the media player.
pub data Request : Type 0 where
  get_lock_surface : ℕ → Request
  ack_configure : ℕ → Request
  frame : ℕ → Request
  commit : ℕ → Request
  destroy_output : ℕ → Request
  lock_session : Request
  unlock_and_destroy : Request
  get_keyboard release_keyboard get_pointer release_pointer : Request
  stop_fingerprint : Request
  previous play_pause next : Request

-- The static variables. `anim_start` and `shake_start` are `none` for -1; `password` is the buffer of
-- 1024 bytes; `faulted` is whether a released object was used; `roundtrips` counts the calls of
-- `unlock_session` that wait for their round trip; `sent` holds the requests, the last one first.
pub record Lock : Type 0 where
  pub phase : Phase
  pub anim_start : Option ℕ
  pub anim_us : ℕ
  pub shake_start : Option ℕ
  pub motion_reduced : Bool
  pub motion_scale : ℕ
  pub compositor : Bool
  pub shm : Bool
  pub seat : Bool
  pub lock_manager : Bool
  pub lock : Bool
  pub keyboard : Bool
  pub pointer : Bool
  pub ptr_output : Option ℕ
  pub ptr_x : ℤ
  pub ptr_y : ℤ
  pub outputs : List LockOutput
  pub xkb_keymap : Bool
  pub xkb_state : XkbState
  pub running : Bool
  pub locked : Bool
  pub password : ℕ → ℕ
  pub password_len : ℕ
  pub status_text : Text
  pub status_error : Bool
  pub roundtrips : ℕ
  pub faulted : Bool
  pub next_object : ℕ
  pub sent : List Request

-- What the calls of one event find: the clock, the buffers of loginui, the media player, the card's
-- place, whether the shake has come to rest after a time, the broker's socket, and the answer of the
-- authentication to a password.
pub record World : Type 0 where
  pub now : ℕ
  pub makes_buffer : Bool
  pub has_player : Bool
  pub card_x : ℤ
  pub card_y : ℤ
  pub card_w : ℤ
  pub card_h : ℤ
  pub shake_rests : ℕ → Bool
  pub broker_socket : Bool
  pub authenticate : Text → Bool
  pub truncated : Text → ℕ → ℕ

unfoldable pub send : Request → Lock → Lock
send r s = record s { sent = r ∷ s.sent }

-- The settings that `load_motion` reads: `none` where the schema or its key is missing.
pub record Settings : Type 0 where
  pub has_source : Bool
  pub reduce_motion : Option Bool
  pub duration_scale : Option ℕ
  pub enable_animations : Option Bool

unfoldable pub read_reduced : Option Bool → Bool → Bool
read_reduced none reduced = reduced
read_reduced (some setting) reduced = setting

unfoldable pub read_scale : Option ℕ → ℕ → ℕ
read_scale none scale = scale
read_scale (some setting) scale = if ltb 0 setting then setting else scale

unfoldable pub read_animations : Option Bool → Bool → Bool
read_animations none reduced = reduced
read_animations (some enabled) reduced = if enabled then reduced else true

-- `load_motion`: `motion_reduced` and `motion_scale`.
unfoldable pub load_motion : Settings → Bool × ℕ
unfolding read_reduced read_scale read_animations
load_motion settings = if not settings.has_source then (false, 1000) else (
  read_animations settings.enable_animations (read_reduced settings.reduce_motion false),
  read_scale settings.duration_scale 1000,
)

abbrev pub motion_small_ms : ℕ
motion_small_ms = 140

abbrev pub motion_large_ms : ℕ
motion_large_ms = 320

abbrev pub motion_page_ms : ℕ
motion_page_ms = 380

unfoldable pub start_phase : Phase → ℕ → Lock → Lock
start_phase phase ms s = record s {
  phase = phase;
  anim_start = none;
  anim_us = (if s.motion_reduced then motion_small_ms else ms) * s.motion_scale;
}

-- The start of `main`, up to the connection.
unfoldable pub initial : Settings → Lock
unfolding load_motion start_phase
initial settings = start_phase phase_enter motion_page_ms (record {
  phase = phase_idle;
  anim_start = none;
  anim_us = 0;
  shake_start = none;
  motion_reduced = (load_motion settings).0;
  motion_scale = (load_motion settings).1;
  compositor = false;
  shm = false;
  seat = false;
  lock_manager = false;
  lock = false;
  keyboard = false;
  pointer = false;
  ptr_output = none;
  ptr_x = pos 0;
  ptr_y = pos 0;
  outputs = [];
  xkb_keymap = false;
  xkb_state = no_state;
  running = true;
  locked = false;
  password = λ i. 0;
  password_len = 0;
  status_text = [];
  status_error = false;
  roundtrips = 0;
  faulted = false;
  next_object = 0;
  sent = [];
})
