-- ===== src/Lock/Render.antt =====
-- src/lockscreen/lock_main.c: drawing an output, as far as it changes the state: the animation, the
-- places of the media buttons, and the frame callbacks.
use singularity_shell.Base.{
  ℕ, ◌-◌, ◌*◌, Bool, true, false, not, ◌||◌, Option, none, some, List, [], ◌∷◌, ltb, leb, ◌==◌,
  if◌then◌else◌,
}
use singularity_shell.Int.{ℤ, pos, ◌+ℤ◌, ◌-ℤ◌}
use singularity_shell.Lock.Defs.{
  Phase, phase_idle, phase_enter, phase_leave, is_leave, LockOutput, frame, commit, Lock, World,
  send,
}

abbrev pub pixels : ℕ → ℤ
pixels n = pos (256 * n)

-- `render_media`, as far as it places the buttons.
unfoldable pub render_media : World → LockOutput → LockOutput
render_media w o =
    if not w.has_player
    then record o { buttons = none }
    else let next_x = w.card_x +ℤ w.card_w -ℤ pixels 12 -ℤ pixels 15 in
      let play_x = next_x -ℤ pixels 15 -ℤ pixels 6 -ℤ pixels 17 in
      let previous_x = play_x -ℤ pixels 17 -ℤ pixels 6 -ℤ pixels 15 in
      let center_y = w.card_y +ℤ w.card_h +ℤ pixels 14 +ℤ pixels 44 in
      record o {
        buttons = some (record {
          previous_x = previous_x;
          play_x = play_x;
          next_x = next_x;
          center_y = center_y;
        });
      }

abbrev pub start_of : World → Option ℕ → ℕ
start_of w none = w.now
start_of w (some start) = start

-- t >= 1.0 for an animation that began at `start`.
unfoldable pub is_over : World → ℕ → ℕ → Bool
is_over w anim_us start = if ltb 0 anim_us then leb anim_us (w.now - start) else true

-- What `apply_motion` finds besides the state: whether something still moves, and whether
-- content_fade < 1.0. The easing curve is 0 at the start, 1 at the end, and between them otherwise.
pub record Motion : Type 0 where
  pub animating : Bool
  pub shows_content : Bool

-- The part of `apply_motion` on the phase.
unfoldable pub move_phase : World → Phase → Lock → Motion × Lock
unfolding is_over
move_phase w phase_idle s = (record { animating = false; shows_content = true }, s)
move_phase w phase_enter s =
    let start = start_of w s.anim_start in
    let begun = record s { anim_start = some start } in
    if is_over w s.anim_us start
    then (record { animating = false; shows_content = true }, record begun { phase = phase_idle })
    else (record { animating = true; shows_content = ltb start w.now }, begun)
move_phase w phase_leave s =
    let start = start_of w s.anim_start in
    let over = is_over w s.anim_us start in
    (
      record { animating = not over; shows_content = not over },
      record s { anim_start = some start },
    )

-- `shake_offset`, with whether the card still shakes.
unfoldable pub shake : World → Option ℕ → Lock → Bool × Lock
shake w none s = (false, s)
shake w (some start) s =
    if w.shake_rests (w.now - start) then (false, record s { shake_start = none }) else (true, s)

unfoldable pub apply_motion : World → Lock → Motion × Lock
unfolding move_phase shake
apply_motion w s =
    let moved = move_phase w s.phase s in
    let shaken = shake w moved.1.shake_start moved.1 in
    (
      record { animating = moved.0.animating || shaken.0; shows_content = moved.0.shows_content },
      shaken.1,
    )

-- `render_output`: the output afterwards, and the state, its list of outputs not yet changed.
unfoldable pub render_output : World → LockOutput → Lock → LockOutput × Lock
unfolding apply_motion render_media send
render_output w o s =
    if o.frame_cb || not w.makes_buffer
    then (o, s)
    else let motion = apply_motion w s in
      let t = motion.1 in
      let drawn = if motion.0.shows_content then render_media w o else o in
      if motion.0.animating || is_leave t.phase
      then (record drawn { frame_cb = true }, send (commit o.object) (send (frame o.object) t))
      else (drawn, send (commit o.object) t)

-- The loop of `render_all`.
unfoldable pub render_outputs : World → List LockOutput → Lock → List LockOutput × Lock
render_outputs w [] s = ([], s)
render_outputs w (o ∷ rest) s =
    let one = if o.configured then render_output w o s else (o, s) in
    let others = render_outputs w rest one.1 in (one.0 ∷ others.0, others.1)

unfoldable pub render_all : World → Lock → Lock
unfolding render_outputs
render_all w s =
    let drawn = render_outputs w s.outputs s in let t = drawn.1 in record t { outputs = drawn.0 }

-- A change of the output with this identity.
unfoldable pub find_output : ℕ → List LockOutput → Option LockOutput
find_output object [] = none
find_output object (o ∷ rest) =
    let found = find_output object rest in if o.object == object then some o else found

unfoldable pub put_output : LockOutput → List LockOutput → List LockOutput
put_output new [] = []
put_output new (o ∷ rest) =
    let others = put_output new rest in if o.object == new.object then new ∷ rest else o ∷ others

-- `render_output` on an output of the list.
unfoldable pub render_in_place : World → LockOutput → Lock → Lock
unfolding render_output put_output
render_in_place w o s =
    let drawn = render_output w o s in
    let t = drawn.1 in record t { outputs = put_output drawn.0 t.outputs }
