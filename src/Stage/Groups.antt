-- ===== src/Stage/Groups.antt =====
-- src/wayland/stage.c: what `singularity_stage_get_group` finds, and the queue that comes with the manager.
use singularity_shell.Base.{
  ℕ, ◌≡◌, refl, ap, ◌∙◌, Bool, true, false, not, ◌&&◌, Option, none, some, List, [], ◌∷◌, arith,
  leb, ◌==◌, if◌then◌else◌,
}
use singularity_shell.Stage.{
  GroupReply, Stage, initial, Env, send, bind_manager, get_manager, set_hidden, groups_supported,
  set_group, handle_groups, Found, not_found, get_group, Call, hides, groups, asks_group, asks,
  call, calls,
}

-- The last reply about the window.
unfoldable pub last_reply : ℕ → List (ℕ × ℕ × ℕ) → Option (ℕ × ℕ)
last_reply toplevel [] = none
last_reply toplevel ((other, group, hidden) ∷ rest) = elim (last_reply toplevel rest) [
  | some found ↦ some found
  | none ↦ if other == toplevel then some (group, hidden) else none
]

abbrev pub reply_of : GroupReply → Option (ℕ × ℕ) → GroupReply
reply_of p none = p
reply_of p (some (group, hidden)) = record p { group = group; hidden = hidden; received = true }

reply_of_twice :
    (p : GroupReply) (g h : ℕ) (o : Option (ℕ × ℕ))
    → reply_of (record p { group = g; hidden = h; received = true }) o
      ≡ reply_of p (elim o [ some found ↦ some found | none ↦ some (g, h) ])
reply_of_twice p g h none = refl
reply_of_twice p g h (some (a, b)) = refl

reply_of_same :
    (p : GroupReply) (o : Option (ℕ × ℕ))
    → reply_of p o ≡ reply_of p (elim o [ some found ↦ some found | none ↦ none ])
reply_of_same p none = refl
reply_of_same p (some (a, b)) = refl

handle_groups-first :
    (is_same : Bool) (group hidden : ℕ) (rest : List (ℕ × ℕ × ℕ)) (p : GroupReply)
    → ((q : GroupReply) → handle_groups rest q ≡ reply_of q (last_reply q.toplevel rest))
    → handle_groups rest
        (if not is_same then p else record p { group = group; hidden = hidden; received = true })
      ≡ reply_of p (elim (last_reply p.toplevel rest) [
        | some found ↦ some found
        | none ↦ if is_same then some (group, hidden) else none
      ])
handle_groups-first true group hidden rest p ih =
    ih (record p { group = group; hidden = hidden; received = true })
    ∙ reply_of_twice p group hidden (last_reply p.toplevel rest)
handle_groups-first false group hidden rest p ih =
    ih p ∙ reply_of_same p (last_reply p.toplevel rest)

handle_groups-reply_of :
    (rs : List (ℕ × ℕ × ℕ)) (p : GroupReply)
    → handle_groups rs p ≡ reply_of p (last_reply p.toplevel rs)
unfolding handle_groups last_reply
handle_groups-reply_of [] p = refl
handle_groups-reply_of ((other, group, hidden) ∷ rest) p =
    handle_groups-first (other == p.toplevel) group hidden rest p (handle_groups-reply_of rest)

abbrev pub found_of : Option (ℕ × ℕ) → Found
found_of none = not_found
found_of (some (group, hidden)) = record { ok = true; group = group; hidden = not (hidden == 0) }

found_of-reply_of :
    (toplevel : ℕ) (o : Option (ℕ × ℕ))
    → (if not (
          GroupReply.received
            (reply_of (record { toplevel = toplevel; group = 0; hidden = 0; received = false }) o))
        then not_found
        else record {
          ok = true;
          group = GroupReply.group (
              reply_of (record { toplevel = toplevel; group = 0; hidden = 0; received = false }) o);
          hidden = not (
              GroupReply.hidden (
                reply_of
                  (record { toplevel = toplevel; group = 0; hidden = 0; received = false })
                  o)
              == 0);
        })
      ≡ found_of o
found_of-reply_of toplevel none = refl
found_of-reply_of toplevel (some (group, hidden)) = refl

-- A window's group is found exactly where there is a manager of version 2 with its queue, the handle is
-- valid, the round trip succeeds, and a reply about this window came; it is then what the last such
-- reply says. Otherwise the result is false, with group 0 and not hidden.
pub get_group_lem :
    (env : Env) (toplevel : ℕ) (s : Stage)
    → (get_group env toplevel s).0 ≡ (
        if (get_manager env s).0
          && leb 2 (get_manager env s).1.bound_version
          && (get_manager env s).1.stage_queue
          && env.is_valid toplevel
          && env.roundtrips
        then found_of (last_reply toplevel env.replies)
        else not_found)
unfolding get_group
get_group_lem env toplevel s =
    let p : GroupReply = record { toplevel = toplevel; group = 0; hidden = 0; received = false } in
    let answered = handle_groups-reply_of env.replies p in
    let found =
      ap
        (λ (r : GroupReply).
          if not r.received
          then not_found
          else record { ok = true; group = r.group; hidden = not (r.hidden == 0) })
        answered
      ∙ found_of-reply_of toplevel (last_reply toplevel env.replies) in
    ground (arith, found)

-- A manager comes with the queue of its replies.
unfoldable pub has_queue : Stage → Bool
has_queue s = if s.manager then s.stage_queue else true

bind_manager-has_queue :
    (env : Env) (d : Option ℕ) (s : Stage)
    → has_queue s ≡ true
    → has_queue (bind_manager env d s).1 ≡ true
unfolding bind_manager has_queue
bind_manager-has_queue env none s h = h
bind_manager-has_queue env (some d) s h = ground arith

get_manager-has_queue :
    (env : Env) (s : Stage) → has_queue s ≡ true → has_queue (get_manager env s).1 ≡ true
unfolding get_manager
get_manager-has_queue env s h = bind_manager-has_queue env env.display s h

call-has_queue :
    (env : Env) (c : Call) (s : Stage) → has_queue s ≡ true → has_queue (call env c s) ≡ true
unfolding call set_hidden set_group get_group groups_supported has_queue send
call-has_queue env (hides toplevel hidden) s h =
    let t = get_manager-has_queue env s h in ground (arith, t)
call-has_queue env (groups toplevel group) s h =
    let t = get_manager-has_queue env s h in ground (arith, t)
call-has_queue env (asks_group toplevel) s h =
    let t = get_manager-has_queue env s h in ground (arith, t)
call-has_queue env asks s h = get_manager-has_queue env s h

calls-has_queue :
    (cs : List (Env × Call)) (s : Stage) → has_queue s ≡ true → has_queue (calls cs s) ≡ true
unfolding calls
calls-has_queue [] s h = h
calls-has_queue ((env, c) ∷ cs) s h = calls-has_queue cs (call env c s) (call-has_queue env c s h)

queue_of_manager : (s : Stage) → has_queue s ≡ true → s.manager ≡ true → s.stage_queue ≡ true
unfolding has_queue
queue_of_manager s h m = ground arith

has_queue-initial : has_queue initial ≡ true
unfolding has_queue
has_queue-initial = refl

-- In every state that a sequence of calls reaches from the start of the program, a manager has its queue.
pub calls-stage_queue :
    (cs : List (Env × Call))
    → (calls cs initial).manager ≡ true
    → (calls cs initial).stage_queue ≡ true
calls-stage_queue cs m =
    queue_of_manager (calls cs initial) (calls-has_queue cs initial has_queue-initial) m
