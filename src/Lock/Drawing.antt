-- ===== src/Lock/Drawing.antt =====
-- src/lockscreen/lock_main.c: what drawing leaves as it is.
use singularity_shell.Base.{
  ℕ, ◌-◌, ◌≡◌, refl, ap, ◌∙◌, Bool, true, false, not, ◌||◌, Option, none, some, List, [], ◌∷◌, map,
  if◌then◌else◌, if_same,
}
use singularity_shell.CString.{Text}
use singularity_shell.Lock.Defs.{
  Phase, phase_idle, phase_enter, phase_leave, is_leave, LockOutput, XkbState, Request, frame,
  commit, unlock_and_destroy, Lock, World, send,
}
use singularity_shell.Lock.Render.{
  start_of, is_over, Motion, move_phase, shake, apply_motion, render_media, render_output,
  render_outputs, render_all,
}

-- What the compositor and the registry know of an output.
pub record Plain : Type 0 where
  pub object : ℕ
  pub name : ℕ
  pub lock_surface : Bool
  pub configured : Bool

abbrev pub plain : LockOutput → Plain
plain o = record {
  object = o.object;
  name = o.name;
  lock_surface = o.lock_surface;
  configured = o.configured;
}

abbrev pub is_unlock : Request → Bool
is_unlock unlock_and_destroy = true
is_unlock r = false

-- Whether the request that ends the lock is among the requests.
unfoldable pub unlocks : List Request → Bool
unlocks [] = false
unlocks (r ∷ rest) = is_unlock r || unlocks rest

-- The state without what drawing changes.
pub record Core : Type 0 where
  pub leaving : Bool
  pub unlocking : Bool
  pub lock : Bool
  pub locked : Bool
  pub running : Bool
  pub motion_reduced : Bool
  pub xkb_state : XkbState
  pub faulted : Bool
  pub password : ℕ → ℕ
  pub password_len : ℕ
  pub status_text : Text
  pub ptr_output : Option ℕ
  pub outputs : List Plain

abbrev pub core : Lock → Core
core s = record {
  leaving = is_leave s.phase;
  unlocking = unlocks s.sent;
  lock = s.lock;
  locked = s.locked;
  running = s.running;
  motion_reduced = s.motion_reduced;
  xkb_state = s.xkb_state;
  faulted = s.faulted;
  password = s.password;
  password_len = s.password_len;
  status_text = s.status_text;
  ptr_output = s.ptr_output;
  outputs = map plain s.outputs;
}

core-leaving : (x : Bool) (c : Core) → x ≡ c.leaving → record c { leaving = x } ≡ c
core-leaving x c h = ap (λ y. record c { leaving = y }) h

core-move_phase :
    (w : World) (p : Phase) (s : Lock) → p ≡ s.phase → core (move_phase w p s).1 ≡ core s
unfolding move_phase
core-move_phase w phase_idle s h = refl
core-move_phase w phase_enter s h =
    if_same (λ (r : Motion × Lock). core r.1) (is_over w s.anim_us (start_of w s.anim_start))
      (core-leaving false (core s) (ap is_leave h)) refl
core-move_phase w phase_leave s h = refl

core-shake : (w : World) (start : Option ℕ) (s : Lock) → core (shake w start s).1 ≡ core s
unfolding shake
core-shake w none s = refl
core-shake w (some start) s =
    if_same (λ (r : Bool × Lock). core r.1) (w.shake_rests (w.now - start)) refl refl

pub core-apply_motion : (w : World) (s : Lock) → core (apply_motion w s).1 ≡ core s
unfolding apply_motion
core-apply_motion w s =
    let moved = move_phase w s.phase s in
    core-shake w moved.1.shake_start moved.1 ∙ core-move_phase w s.phase s refl

plain-render_media : (w : World) (o : LockOutput) → plain (render_media w o) ≡ plain o
unfolding render_media
plain-render_media w o = if_same plain (not w.has_player) refl refl

plain-drawn :
    (w : World) (o : LockOutput) (shows : Bool)
    → plain (if shows then render_media w o else o) ≡ plain o
plain-drawn w o shows = if_same plain shows (plain-render_media w o) refl

pub plain-render_output :
    (w : World) (o : LockOutput) (s : Lock) → plain (render_output w o s).0 ≡ plain o
unfolding render_output
plain-render_output w o s =
    let motion = apply_motion w s in
    let drawn = plain-drawn w o motion.0.shows_content in
    let of : LockOutput × Lock → Plain = λ r. plain r.0 in
    if_same of (o.frame_cb || not w.makes_buffer) refl
      (if_same of (motion.0.animating || is_leave motion.1.phase) drawn drawn)

core-send_drawing : (r : Request) (s : Lock) → is_unlock r ≡ false → core (send r s) ≡ core s
unfolding send unlocks
core-send_drawing r s h = ap (λ x. record (core s) { unlocking = x || unlocks s.sent }) h

pub core-render_output :
    (w : World) (o : LockOutput) (s : Lock) → core (render_output w o s).1 ≡ core s
unfolding render_output
core-render_output w o s =
    let motion = apply_motion w s in
    let moved = core-apply_motion w s in
    let of : LockOutput × Lock → Core = λ r. core r.1 in
    if_same of (o.frame_cb || not w.makes_buffer) refl (
      if_same of (motion.0.animating || is_leave motion.1.phase)
        (core-send_drawing (commit o.object) (send (frame o.object) motion.1) refl
          ∙ core-send_drawing (frame o.object) motion.1 refl
          ∙ moved)
        (core-send_drawing (commit o.object) motion.1 refl ∙ moved))

-- The step of the loop on one output.
core-one :
    (w : World) (o : LockOutput) (s : Lock)
    → core (if o.configured then render_output w o s else (o, s)).1 ≡ core s
core-one w o s =
    if_same (λ (r : LockOutput × Lock). core r.1) o.configured (core-render_output w o s) refl

plain-one :
    (w : World) (o : LockOutput) (s : Lock)
    → plain (if o.configured then render_output w o s else (o, s)).0 ≡ plain o
plain-one w o s =
    if_same (λ (r : LockOutput × Lock). plain r.0) o.configured (plain-render_output w o s) refl

core-render_outputs :
    (w : World) (os : List LockOutput) (s : Lock) → core (render_outputs w os s).1 ≡ core s
unfolding render_outputs
core-render_outputs w [] s = refl
core-render_outputs w (o ∷ rest) s =
    core-render_outputs w rest (if o.configured then render_output w o s else (o, s)).1
    ∙ core-one w o s

plain-render_outputs :
    (w : World) (os : List LockOutput) (s : Lock)
    → map plain (render_outputs w os s).0 ≡ map plain os
unfolding render_outputs
plain-render_outputs w [] s = refl
plain-render_outputs w (o ∷ rest) s =
    let others =
      plain-render_outputs w rest (if o.configured then render_output w o s else (o, s)).1 in
    ap
      (λ p.
        p
        ∷ map plain
            (render_outputs w rest (if o.configured then render_output w o s else (o, s)).1).0)
      (plain-one w o s)
    ∙ ap (λ ps. plain o ∷ ps) others

pub core-render_all : (w : World) (s : Lock) → core (render_all w s) ≡ core s
unfolding render_all
core-render_all w s =
    ap (λ (c : Core). record c { outputs = map plain (render_outputs w s.outputs s).0 })
      (core-render_outputs w s.outputs s)
    ∙ ap (λ os. record (core s) { outputs = os }) (plain-render_outputs w s.outputs s)
