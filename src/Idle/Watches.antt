-- ===== src/Idle/Watches.antt =====
-- src/wayland/idle_notify.c: the idle watches and the power of the outputs.
-- Protocol objects are numbers. A callback is the caller's: an event gives what it is called with.
use singularity_shell.Base.{
  ℕ, ◌+◌, Bool, false, not, ◌&&◌, ◌||◌, Option, none, some, List, [], ◌∷◌, leb, ◌==◌, if◌then◌else◌,
}
use singularity_shell.Int.{ℤ, eqb_ℤ}

-- The requests that the client sends, and the flushes of the display.
pub data Request : Type 0 where
  get_input_idle_notification : ℕ → ℕ → Request
  get_idle_notification : ℕ → ℕ → Request
  destroy_notification : ℕ → Request
  get_output_power : ℕ → ℕ → Request
  set_mode : ℕ → Bool → Request
  destroy_power : ℕ → Request
  destroy_output : ℕ → Request
  flush : Request

-- `struct idle_watch`, its callback and data left out.
pub record IdleWatch : Type 0 where
  pub id : ℤ
  pub notification : ℕ
  pub has_callback : Bool

-- `struct power_output`; its `output` is never NULL.
pub record PowerOutput : Type 0 where
  pub name : ℕ
  pub power : Option ℕ

-- The static `idle`. `next_id` numbers the protocol objects; `sent` has the last request first.
pub record Idle : Type 0 where
  pub display : Bool
  pub registry : Bool
  pub seat : Bool
  pub notifier : Bool
  pub notifier_version : ℕ
  pub power_manager : Bool
  pub watches : List IdleWatch
  pub outputs : List PowerOutput
  pub want_on : Bool
  pub next_id : ℕ
  pub sent : List Request

abbrev pub initial : Idle
initial = record {
  display = false;
  registry = false;
  seat = false;
  notifier = false;
  notifier_version = 0;
  power_manager = false;
  watches = [];
  outputs = [];
  want_on = false;
  next_id = 0;
  sent = [];
}

unfoldable pub send : Request → Idle → Idle
send r s = record s { sent = r ∷ s.sent }

unfoldable pub flush_display : Idle → Idle
unfolding send
flush_display s = if s.display then send flush s else s

-- The watch that the loop of `singularity_idle_unwatch` finds.
unfoldable pub find_watch : ℤ → List IdleWatch → Option IdleWatch
find_watch i [] = none
find_watch i (w ∷ ws) = let rest = find_watch i ws in if eqb_ℤ w.id i then some w else rest

-- The list without that watch.
unfoldable pub unlink_watch : ℤ → List IdleWatch → List IdleWatch
unlink_watch i [] = []
unlink_watch i (w ∷ ws) = let rest = unlink_watch i ws in if eqb_ℤ w.id i then ws else w ∷ rest

unfoldable pub destroy_watch : Option IdleWatch → List IdleWatch → Idle → Idle
unfolding send flush_display
destroy_watch none rest s = s
destroy_watch (some w) rest s =
    flush_display (send (destroy_notification w.notification) (record s { watches = rest }))

-- singularity_idle_unwatch
unfoldable pub unwatch : ℤ → Idle → Idle
unwatch i s = destroy_watch (find_watch i s.watches) (unlink_watch i s.watches) s

-- The part of `singularity_idle_watch` behind its guards.
unfoldable pub add_watch : ℤ → ℕ → Bool → Bool → Idle → Idle
unfolding send
add_watch i timeout_ms input_only has_callback s =
    let n = s.next_id in
    let w : IdleWatch = record { id = i; notification = n; has_callback = has_callback } in
    let request =
      if input_only && leb 2 s.notifier_version
      then get_input_idle_notification n timeout_ms
      else get_idle_notification n timeout_ms in
    send flush (send request (record s { watches = w ∷ s.watches; next_id = n + 1 }))

-- singularity_idle_watch, with whether `calloc` succeeds.
unfoldable pub watch : Bool → ℤ → ℕ → Bool → Bool → Idle → Idle
watch allocated i timeout_ms input_only has_callback s =
    let t = unwatch i s in
    if not t.notifier || not t.seat
    then t
    else if not allocated
    then t
    else add_watch i timeout_ms input_only has_callback t

-- What the callback of a watch is called with when its notification idles or resumes.
unfoldable pub notified : Bool → ℕ → List IdleWatch → Option (ℤ × Bool)
notified is_idle n [] = none
notified is_idle n (w ∷ ws) =
    let rest = notified is_idle n ws in
    if w.notification == n then (if w.has_callback then some (w.id, is_idle) else none) else rest
