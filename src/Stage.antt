-- ===== src/Stage.antt =====
-- src/wayland/stage.c: the client of the stage manager, which hides and groups windows.
-- Displays and window handles are numbers; `sent` holds the requests, the last one first.
pub mod Groups
mod Tests
use singularity_shell.Base.{
  ℕ, Bool, true, false, not, ◌&&◌, ◌||◌, Option, none, some, List, [], ◌∷◌, ltb, leb, ◌==◌,
  if◌then◌else◌,
}

pub data Request : Type 0 where
  minimize unset_minimize : ℕ → Request
  set_hidden_request : ℕ → Bool → Request
  set_group_request : ℕ → ℕ → Request
  get_group_request : ℕ → Request
  flush : Option ℕ → Request

-- `struct group_reply`
pub record GroupReply : Type 0 where
  pub toplevel : ℕ
  pub group : ℕ
  pub hidden : ℕ
  pub received : Bool

-- The static variables.
pub record Stage : Type 0 where
  pub manager : Bool
  pub bound_display : Option ℕ
  pub stage_queue : Bool
  pub bound_version : ℕ
  pub pending_reply : GroupReply
  pub sent : List Request

abbrev pub initial : Stage
initial = record {
  manager = false;
  bound_display = none;
  stage_queue = false;
  bound_version = 0;
  pending_reply = record { toplevel = 0; group = 0; hidden = 0; received = false };
  sent = [];
}

-- What the calls find: `display` is `singularity_wayland_display`, `globals` the registry's globals, each
-- with whether it is the stage manager and its version, `is_valid` is
-- `singularity_wayland_handle_is_valid`, and `roundtrips` that the round trip for a reply succeeds, in
-- which the `replies` arrive: a window, its group, and whether it is hidden.
pub record Env : Type 0 where
  pub display : Option ℕ
  pub makes_queue : Bool
  pub globals : List (Bool × ℕ)
  pub is_valid : ℕ → Bool
  pub roundtrips : Bool
  pub replies : List (ℕ × ℕ × ℕ)

unfoldable pub send : Request → Stage → Stage
send r s = record s { sent = r ∷ s.sent }

-- `registry_global` for the globals: the version bound last, and whether one was found.
unfoldable pub registry_globals : List (Bool × ℕ) → ℕ × Bool → ℕ × Bool
registry_globals [] found = found
registry_globals ((is_stage, version) ∷ rest) found =
    registry_globals rest (if is_stage then (if ltb version 2 then version else 2, true) else found)

unfoldable pub same_display : ℕ → Option ℕ → Bool
same_display d none = false
same_display d (some bound) = d == bound

unfoldable pub bind_manager : Env → Option ℕ → Stage → Bool × Stage
unfolding registry_globals same_display
bind_manager env none s = (false, s)
bind_manager env (some d) s =
    if same_display d s.bound_display
    then (s.manager, s)
    else if not env.makes_queue
    then (false, s)
    else let found = registry_globals env.globals (s.bound_version, false) in
      (
        found.1,
        record s {
          bound_display = some d;
          manager = found.1;
          bound_version = found.0;
          stage_queue = found.1 || s.stage_queue;
        },
      )

-- `get_manager`; `true` is a manager.
unfoldable pub get_manager : Env → Stage → Bool × Stage
unfolding bind_manager
get_manager env s = bind_manager env env.display s

unfoldable pub flushed_display : Env → Option ℕ → Option ℕ
flushed_display env none = env.display
flushed_display env (some d) = some d

-- singularity_stage_set_hidden; the rectangle only passes through.
unfoldable pub set_hidden : Env → ℕ → Bool → Stage → Stage
unfolding get_manager send flushed_display
set_hidden env toplevel hidden s =
    let m = get_manager env s in
    let t = m.1 in
    if not (env.is_valid toplevel)
    then t
    else send (flush (flushed_display env t.bound_display)) (
        if m.0
        then send (set_hidden_request toplevel hidden) t
        else if hidden
        then send (minimize toplevel) t
        else send (unset_minimize toplevel) t)

-- singularity_stage_available and singularity_stage_groups_supported
unfoldable pub available : Env → Stage → Bool × Stage
unfolding get_manager
available env s = get_manager env s

unfoldable pub groups_supported : Env → Stage → Bool × Stage
unfolding get_manager
groups_supported env s =
    let m = get_manager env s in let t = m.1 in (m.0 && leb 2 t.bound_version, t)

-- singularity_stage_set_group
unfoldable pub set_group : Env → ℕ → ℕ → Stage → Stage
unfolding get_manager send
set_group env toplevel group s =
    let m = get_manager env s in
    let t = m.1 in
    if not m.0 || ltb t.bound_version 2 || not (env.is_valid toplevel)
    then t
    else send (flush t.bound_display) (send (set_group_request toplevel group) t)

-- `handle_group` for the replies, in order.
unfoldable pub handle_groups : List (ℕ × ℕ × ℕ) → GroupReply → GroupReply
handle_groups [] p = p
handle_groups ((toplevel, group, hidden) ∷ rest) p = handle_groups rest (
    if not (toplevel == p.toplevel)
    then p
    else record p { group = group; hidden = hidden; received = true })

-- What `singularity_stage_get_group` returns: the result, `*group` and `*hidden`.
pub record Found : Type 0 where
  pub ok : Bool
  pub group : ℕ
  pub hidden : Bool

abbrev pub not_found : Found
not_found = record { ok = false; group = 0; hidden = false }

-- singularity_stage_get_group
unfoldable pub get_group : Env → ℕ → Stage → Found × Stage
unfolding get_manager send handle_groups
get_group env toplevel s =
    let m = get_manager env s in
    let t = m.1 in
    if not m.0 || ltb t.bound_version 2 || not t.stage_queue || not (env.is_valid toplevel)
    then (not_found, t)
    else let p =
        handle_groups env.replies
          (record { toplevel = toplevel; group = 0; hidden = 0; received = false }) in
      let u = send (get_group_request toplevel) (record t { pending_reply = p }) in
      if not env.roundtrips || not p.received
      then (not_found, u)
      else (record { ok = true; group = p.group; hidden = not (p.hidden == 0) }, u)

-- One call of the client, with what it finds.
pub data Call : Type 0 where
  hides : ℕ → Bool → Call
  groups : ℕ → ℕ → Call
  asks_group : ℕ → Call
  asks : Call

unfoldable pub call : Env → Call → Stage → Stage
call env (hides toplevel hidden) s = set_hidden env toplevel hidden s
call env (groups toplevel group) s = set_group env toplevel group s
call env (asks_group toplevel) s = (get_group env toplevel s).1
call env asks s = (groups_supported env s).1

unfoldable pub calls : List (Env × Call) → Stage → Stage
calls [] s = s
calls ((env, c) ∷ cs) s = calls cs (call env c s)
