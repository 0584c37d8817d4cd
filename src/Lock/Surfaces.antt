-- ===== src/Lock/Surfaces.antt =====
-- src/lockscreen/lock_main.c: while the session is locked, every output is covered.
use singularity_shell.Base.{
  ℕ, ◌-◌, ◌≡◌, refl, sym, ap, ◌∙◌, inl, inr, Bool, true, false, not, ◌&&◌, ◌||◌, Option, none, some,
  List, [], ◌∷◌, map, ◌==◌, if◌then◌else◌, all, Bool-cases, ==_iff, ==_refl, if_same,
}
use singularity_shell.Lock.Defs.{
  Phase, is_leave, LockOutput, Lock, World, send, phase_idle, phase_enter, phase_leave,
}
use singularity_shell.Lock.Render.{
  start_of, is_over, Motion, move_phase, shake, apply_motion, render_output, find_output,
  put_output, render_in_place,
}
use singularity_shell.Lock.Drawing.{Plain, plain, Core, plain-render_output, core-render_output}
use singularity_shell.Lock.Cover.{cover}

abbrev pub surfaced : List Plain → Bool
surfaced ps = all (λ (p : Plain). p.lock_surface) ps

abbrev pub seal_of : Bool × (Bool × List Plain) → Bool × (Bool × Bool)
seal_of (lock, (locked, outputs)) = (lock, (locked, surfaced outputs))

-- Whether the lock is asked for, whether it is granted, and whether each output has its lock surface.
abbrev pub seal : Lock → Bool × (Bool × Bool)
seal s = seal_of (cover s)

-- While the session is locked, there is the lock, and each output has its lock surface.
abbrev pub is_sealed : Bool × (Bool × Bool) → Bool
is_sealed (lock, (locked, covered)) = if locked then lock && covered else true

pub all-plain :
    (os : List LockOutput) → all (λ (o : LockOutput). o.lock_surface) os ≡ surfaced (map plain os)
all-plain [] = refl
all-plain (o ∷ os) = let others = all-plain os in rw others

first_of :
    (b : Bool) (p o : LockOutput) (found : Option LockOutput)
    → (if b then some p else found) ≡ some o
    → b ≡ true
    → p ≡ o
first_of true p o found h e = ap (λ x. elim x [ some q ↦ q | none ↦ p ]) h
first_of false p o found h e = cc

pub object_of_found :
    (object : ℕ) (os : List LockOutput) (o : LockOutput)
    → find_output object os ≡ some o
    → o.object ≡ object
unfolding find_output
object_of_found object [] o h = cc
object_of_found object (p ∷ rest) o h =
    let others = object_of_found object rest o in
    elim (Bool-cases (p.object == object)) [
      | inl same ↦
          let first = first_of (p.object == object) p o (find_output object rest) h same in
          ap LockOutput.object (sym first) ∙ (==_iff p.object object).0 same
      | inr other ↦ others (rw other at h)
    ]

pub surfaced-put :
    (object : ℕ) (os : List LockOutput) (o new : LockOutput)
    → find_output object os ≡ some o
    → new.object ≡ object
    → new.lock_surface ≡ o.lock_surface
    → surfaced (map plain (put_output new os)) ≡ surfaced (map plain os)
unfolding find_output put_output
surfaced-put object [] o new h n e = refl
surfaced-put object (p ∷ rest) o new h n e =
    let others = surfaced-put object rest o new in
    let test = ap (λ x. p.object == x) n in
    elim (Bool-cases (p.object == object)) [
      | inl same ↦
          let first = first_of (p.object == object) p o (find_output object rest) h same in
          let here = test ∙ same in
          rw here
            (ap (λ x. x && surfaced (map plain rest)) (e ∙ ap LockOutput.lock_surface (sym first)))
      | inr other ↦
          let here = test ∙ other in
          rw here (ap (λ x. p.lock_surface && x) (others (rw other at h) n e))
    ]

find-put :
    (object : ℕ) (os : List LockOutput) (o new : LockOutput)
    → find_output object os ≡ some o
    → new.object ≡ object
    → find_output object (put_output new os) ≡ some new
unfolding find_output put_output
find-put object [] o new h n = cc
find-put object (p ∷ rest) o new h n =
    let others = find-put object rest o new in
    let test = ap (λ x. p.object == x) n in
    elim (Bool-cases (p.object == object)) [
      | inl same ↦
          let here = test ∙ same in
          let itself = ap (λ x. x == object) n ∙ ==_refl object in rw (here, itself)
      | inr other ↦ let here = test ∙ other in rw (here, other) (others (rw other at h) n)
    ]

outputs-move_phase : (w : World) (p : Phase) (s : Lock) → (move_phase w p s).1.outputs ≡ s.outputs
unfolding move_phase
outputs-move_phase w phase_idle s = refl
outputs-move_phase w phase_enter s =
    if_same (λ (r : Motion × Lock). r.1.outputs) (is_over w s.anim_us (start_of w s.anim_start))
      refl refl
outputs-move_phase w phase_leave s = refl

outputs-shake : (w : World) (start : Option ℕ) (s : Lock) → (shake w start s).1.outputs ≡ s.outputs
unfolding shake
outputs-shake w none s = refl
outputs-shake w (some start) s =
    if_same (λ (r : Bool × Lock). r.1.outputs) (w.shake_rests (w.now - start)) refl refl

outputs-render_output :
    (w : World) (o : LockOutput) (s : Lock) → (render_output w o s).1.outputs ≡ s.outputs
unfolding render_output apply_motion send
outputs-render_output w o s =
    let moved = move_phase w s.phase s in
    let motion = apply_motion w s in
    let kept : motion.1.outputs ≡ s.outputs =
      outputs-shake w moved.1.shake_start moved.1 ∙ outputs-move_phase w s.phase s in
    let of : LockOutput × Lock → List LockOutput = λ r. r.1.outputs in
    if_same of (o.frame_cb || not w.makes_buffer) refl
      (if_same of (motion.0.animating || is_leave motion.1.phase) kept kept)

seal-render_in_place :
    (w : World) (object : ℕ) (o : LockOutput) (s : Lock)
    → find_output object s.outputs ≡ some o
    → seal (render_in_place w o s) ≡ seal s
unfolding render_in_place
seal-render_in_place w object o s found =
    let drawn = render_output w o s in
    let same_plain = plain-render_output w o s in
    let same_object : drawn.0.object ≡ object =
      ap Plain.object same_plain ∙ object_of_found object s.outputs o found in
    let put =
      surfaced-put object s.outputs o drawn.0 found same_object
        (ap Plain.lock_surface same_plain) in
    ap
      (λ (c : Core).
        (c.lock, (c.locked, surfaced (map plain (put_output drawn.0 drawn.1.outputs)))))
      (core-render_output w o s)
    ∙ ap (λ os. (s.lock, (s.locked, surfaced (map plain (put_output drawn.0 os)))))
        (outputs-render_output w o s)
    ∙ ap (λ x. (s.lock, (s.locked, x))) put

-- A change of an output that keeps its surface, and its drawing.
pub seal-redrawn :
    (w : World) (object : ℕ) (o new : LockOutput) (s : Lock)
    → find_output object s.outputs ≡ some o
    → new.object ≡ o.object
    → new.lock_surface ≡ o.lock_surface
    → seal (render_in_place w new (record s { outputs = put_output new s.outputs })) ≡ seal s
seal-redrawn w object o new s found n e =
    let named = n ∙ object_of_found object s.outputs o found in
    seal-render_in_place w object new (record s { outputs = put_output new s.outputs })
      (find-put object s.outputs o new found named)
    ∙ ap (λ x. (s.lock, (s.locked, x))) (surfaced-put object s.outputs o new found named e)
