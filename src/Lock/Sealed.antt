-- ===== src/Lock/Sealed.antt =====
-- src/lockscreen/lock_main.c: the lock surfaces over what changes the outputs or the lock.
use singularity_shell.Base.{
  ℕ, ◌+◌, ◌≡◌, refl, ap, ◌∙◌, Bool, true, false, not, ◌&&◌, ◌||◌, Option, none, some, List, [], ◌∷◌,
  map, arith, ◌==◌, and-true, if_same, if_cases,
}
use singularity_shell.Lock.Defs.{is_leave, LockOutput, Lock, World, send, ack_configure}
use singularity_shell.Lock.Render.{find_output}
use singularity_shell.Lock.Auth.{unlock_session, any_configured, leave_over, redraw}
use singularity_shell.Lock.Events.{
  create_lock_surface, create_surfaces, lock_locked, configure, Global, add_output, reg_global,
  unlink_name, remove_output, request_lock, global_compositor, global_shm, global_lock_manager,
  global_seat, global_output, global_other,
}
use singularity_shell.Lock.Drawing.{plain}
use singularity_shell.Lock.Surfaces.{
  surfaced, seal, is_sealed, object_of_found, surfaced-put, seal-redrawn,
}

-- Whether the lock is asked for and whether it is granted.
abbrev flags : Lock → Bool × Bool
flags s = (s.lock, s.locked)

pub seal-redraw :
    (w : World) (object : ℕ) (o : Option LockOutput) (s : Lock)
    → find_output object s.outputs ≡ o
    → seal (redraw w o s) ≡ seal s
unfolding redraw unlock_session send
seal-redraw w object none s h = refl
seal-redraw w object (some o) s h =
    let cleared = record o { frame_cb = false } in
    if_same seal (leave_over w s.phase s.anim_start s.anim_us)
      (ap (λ x. (s.lock, (s.locked, x)))
        (surfaced-put object s.outputs o cleared h (object_of_found object s.outputs o h) refl))
      (seal-redrawn w object o cleared s h refl refl)

pub seal-configure :
    (w : World) (object : ℕ) (o : Option LockOutput) (s : Lock)
    → find_output object s.outputs ≡ o
    → seal (configure w o s) ≡ seal s
unfolding configure send
seal-configure w object none s h = refl
seal-configure w object (some o) s h =
    seal-redrawn w object o (record o { configured = true }) (send (ack_configure o.object) s) h
      refl refl

-- Making the lock surfaces while there is the lock.
create_lock_surface-surface :
    (o : LockOutput) (s : Lock) → s.lock ≡ true → (create_lock_surface o s).0.lock_surface ≡ true
unfolding create_lock_surface
create_lock_surface-surface o s h =
    if_cases (λ (r : LockOutput × Lock). r.0.lock_surface) (o.lock_surface || not s.lock)
      (λ has. ground (arith, has, h)) (λ makes. refl)

create_lock_surface-lock : (o : LockOutput) (s : Lock) → flags (create_lock_surface o s).1 ≡ flags s
unfolding create_lock_surface send
create_lock_surface-lock o s =
    if_same (λ (r : LockOutput × Lock). flags r.1) (o.lock_surface || not s.lock) refl refl

create_surfaces-lock : (os : List LockOutput) (s : Lock) → flags (create_surfaces os s).1 ≡ flags s
unfolding create_surfaces
create_surfaces-lock [] s = refl
create_surfaces-lock (o ∷ rest) s =
    create_surfaces-lock rest (create_lock_surface o s).1 ∙ create_lock_surface-lock o s

create_surfaces-surfaced :
    (os : List LockOutput) (s : Lock)
    → s.lock ≡ true
    → surfaced (map plain (create_surfaces os s).0) ≡ true
unfolding create_surfaces
create_surfaces-surfaced [] s h = refl
create_surfaces-surfaced (o ∷ rest) s h =
    let one = create_lock_surface-surface o s h in
    let kept = ap (λ (p : Bool × Bool). p.0) (create_lock_surface-lock o s) in
    let others = create_surfaces-surfaced rest (create_lock_surface o s).1 (kept ∙ h) in
    rw (one, others)

pub lock_locked-is_sealed : (s : Lock) → s.lock ≡ true → is_sealed (seal (lock_locked s)) ≡ true
unfolding lock_locked
lock_locked-is_sealed s h =
    let t = record s { locked = true } in
    let kept = create_surfaces-lock s.outputs t in
    let all_there = create_surfaces-surfaced s.outputs t h in
    ap
      (λ (p : Bool × Bool).
        is_sealed (p.0, (p.1, surfaced (map plain (create_surfaces s.outputs t).0))))
      kept
    ∙ ap (λ x. is_sealed (s.lock, (true, x))) all_there
    ∙ rw h

new_output : ℕ → Lock → LockOutput
new_output name s = record {
  object = s.next_object;
  name = name;
  lock_surface = false;
  configured = false;
  buttons = none;
  frame_cb = false;
}

create_lock_surface-outputs :
    (o : LockOutput) (s : Lock) → (create_lock_surface o s).1.outputs ≡ s.outputs
unfolding create_lock_surface send
create_lock_surface-outputs o s =
    if_same (λ (r : LockOutput × Lock). r.1.outputs) (o.lock_surface || not s.lock) refl refl

add_output-is_sealed :
    (name : ℕ) (s : Lock) → is_sealed (seal s) ≡ true → is_sealed (seal (add_output name s)) ≡ true
unfolding add_output new_output
add_output-is_sealed name s h =
    let o = new_output name s in
    let t = record s { next_object = s.next_object + 1 } in
    let made = create_lock_surface o t in
    if_cases
      (λ (r : LockOutput × Lock).
        is_sealed (r.1.lock, (r.1.locked, r.0.lock_surface && surfaced (map plain r.1.outputs))))
      s.locked
      (λ locked.
        let parts = and-true s.lock (surfaced (map plain s.outputs)) (rw locked at h) in
        let surface = create_lock_surface-surface o t parts.0 in
        ap
          (λ (p : Bool × Bool).
            is_sealed (p.0, (p.1, made.0.lock_surface && surfaced (map plain made.1.outputs))))
          (create_lock_surface-lock o t)
        ∙ ap (λ os. is_sealed (s.lock, (s.locked, made.0.lock_surface && surfaced (map plain os))))
            (create_lock_surface-outputs o t)
        ∙ rw surface h)
      (λ unlocked. rw unlocked)

pub reg_global-is_sealed :
    (name : ℕ) (g : Global) (s : Lock)
    → is_sealed (seal s) ≡ true
    → is_sealed (seal (reg_global name g s)) ≡ true
unfolding reg_global
reg_global-is_sealed name global_compositor s h = h
reg_global-is_sealed name global_shm s h = h
reg_global-is_sealed name global_lock_manager s h = h
reg_global-is_sealed name global_seat s h = h
reg_global-is_sealed name global_output s h = add_output-is_sealed name s h
reg_global-is_sealed name global_other s h = h

surfaced-unlink :
    (name : ℕ) (os : List LockOutput)
    → surfaced (map plain os) ≡ true
    → surfaced (map plain (unlink_name name os)) ≡ true
unfolding unlink_name
surfaced-unlink name [] h = refl
surfaced-unlink name (o ∷ rest) h =
    let parts = and-true o.lock_surface (surfaced (map plain rest)) h in
    let kept = surfaced-unlink name rest parts.1 in
    if_same (λ os. surfaced (map plain os)) (o.name == name) parts.1 (rw (parts.0, kept))

is_sealed-fewer :
    (lock locked some_covered fewer_covered : Bool)
    → (some_covered ≡ true → fewer_covered ≡ true)
    → is_sealed (lock, (locked, some_covered)) ≡ true
    → is_sealed (lock, (locked, fewer_covered)) ≡ true
is_sealed-fewer lock false a b f h = refl
is_sealed-fewer lock true a b f h =
    let parts = and-true lock a h in let fewer = f parts.1 in rw (parts.0, fewer)

pub remove_output-is_sealed :
    (o : Option LockOutput) (name : ℕ) (s : Lock)
    → is_sealed (seal s) ≡ true
    → is_sealed (seal (remove_output o (unlink_name name s.outputs) s)) ≡ true
unfolding remove_output unlock_session send
remove_output-is_sealed none name s h = h
remove_output-is_sealed (some dead) name s h =
    let kept =
      is_sealed-fewer s.lock s.locked (surfaced (map plain s.outputs))
        (surfaced (map plain (unlink_name name s.outputs))) (surfaced-unlink name s.outputs) h in
    if_same (λ (t : Lock). is_sealed (seal t))
      (is_leave s.phase && not (any_configured (unlink_name name s.outputs))) kept kept

is_sealed-locked :
    (lock locked covered : Bool)
    → is_sealed (lock, (locked, covered)) ≡ true
    → is_sealed (true, (locked, covered)) ≡ true
is_sealed-locked lock false covered h = refl
is_sealed-locked lock true covered h = (and-true lock covered h).1

pub request_lock-is_sealed :
    (s : Lock) → is_sealed (seal s) ≡ true → is_sealed (seal (request_lock s)) ≡ true
unfolding request_lock send
request_lock-is_sealed s h =
    if_same (λ (t : Lock). is_sealed (seal t))
      (not s.compositor || not s.shm || not s.lock_manager || not s.seat) h
      (is_sealed-locked s.lock s.locked (surfaced (map plain s.outputs)) h)
