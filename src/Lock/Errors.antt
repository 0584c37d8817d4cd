-- ===== src/Lock/Errors.antt =====
-- src/lockscreen/lock_fprint.c: the errors and signals that a stopped fingerprint client gets.
use singularity_shell.Base.{
  ℕ, zero, suc, ◌≡◌, refl, ap, ◌∙◌, Bool, true, false, not, ◌&&◌, Option, none, some, List, [], ◌∷◌,
  arith, all, and-true, if_same,
}
use singularity_shell.CString.{Text, codes}
use singularity_shell.Lock.Fprint.{
  Call, Pending, Fprint, ask_sync, report, on_verify_started, restart_verify, Result, call_match,
  if_done, on_signal, on_claimed, on_fingers, on_device, on_default_device, on_manager, cancel_all,
  release_device, lock_fprint_stop, call_at, calls_but, call_back, finish, Event, step, new_manager,
  get_default_device, new_device, list_enrolled_fingers, claim, verify_start, verify_stop, release,
  verify_match, verify_no_match, verify_swipe_too_short, verify_finger_not_centered,
  verify_remove_and_retry, verify_retry_scan, verify_disconnected, other_result, started, stopped,
  signalled, finished,
}

unfoldable pub all_cancelled : List Pending → Bool
all_cancelled ps = all (λ (p : Pending). p.cancelled) ps

-- No device is claimed, and no call waits that was not cancelled.
unfoldable pub is_stopped : Fprint → Bool
unfolding all_cancelled
is_stopped s = not s.device && not s.claimed && all (λ (p : Pending). p.cancelled) s.pending

abbrev view : Fprint → Bool × (Bool × List Call)
view s = (s.cancellable, (is_stopped s, s.calls))

view-report : (text : Text) (error : Bool) (s : Fprint) → view (report text error s) ≡ view s
unfolding report is_stopped
view-report text error s = if_same view s.has_callbacks refl refl

restart_verify-stopped : (s : Fprint) → is_stopped s ≡ true → restart_verify s ≡ s
unfolding restart_verify is_stopped
restart_verify-stopped s h = ground (arith, h)

is_stopped-pending :
    (ps : List Pending) (s : Fprint)
    → is_stopped s ≡ true
    → all_cancelled ps ≡ true
    → is_stopped (record s { pending = ps }) ≡ true
unfolding is_stopped all_cancelled
is_stopped-pending ps s h k = ground arith

-- What the client is about to be asked for stays as it is.
abbrev IsKept : Fprint → Fprint → Type 0
IsKept t s = (is_stopped t ≡ true) × (t.calls ≡ s.calls)

report-IsKept :
    (text : Text) (error : Bool) (s t : Fprint) → IsKept t s → IsKept (report text error t) s
report-IsKept text error s t k =
    let v = view-report text error t in
    (
      ap (λ (x : Bool × (Bool × List Call)). x.1.0) v ∙ k.0,
      ap (λ (x : Bool × (Bool × List Call)). x.1.1) v ∙ k.1,
    )

if_done-IsKept : (over : Bool) (s t : Fprint) → IsKept t s → IsKept (if_done over t) s
unfolding if_done
if_done-IsKept true s t k =
    let same = restart_verify-stopped t k.0 in
    (ap is_stopped same ∙ k.0, ap Fprint.calls same ∙ k.1)
if_done-IsKept false s t k = k

pub on_signal-IsKept :
    (r : Result) (over : Bool) (s : Fprint) → is_stopped s ≡ true → IsKept (on_signal r over s) s
unfolding on_signal call_match is_stopped
on_signal-IsKept verify_match over s h =
    (if_same is_stopped s.has_callbacks h h, if_same Fprint.calls s.has_callbacks refl refl)
on_signal-IsKept verify_no_match over s h =
    if_done-IsKept over s (report (codes "Fingerprint not recognized, try again") true s)
      (report-IsKept (codes "Fingerprint not recognized, try again") true s s (h, refl))
on_signal-IsKept verify_swipe_too_short over s h =
    if_done-IsKept over s (report (codes "Swipe was too short, try again") true s)
      (report-IsKept (codes "Swipe was too short, try again") true s s (h, refl))
on_signal-IsKept verify_finger_not_centered over s h =
    if_done-IsKept over s (report (codes "Center your finger on the sensor") true s)
      (report-IsKept (codes "Center your finger on the sensor") true s s (h, refl))
on_signal-IsKept verify_remove_and_retry over s h =
    if_done-IsKept over s (report (codes "Lift your finger and try again") true s)
      (report-IsKept (codes "Lift your finger and try again") true s s (h, refl))
on_signal-IsKept verify_retry_scan over s h =
    if_done-IsKept over s (report (codes "Touch the sensor again") true s)
      (report-IsKept (codes "Touch the sensor again") true s s (h, refl))
on_signal-IsKept verify_disconnected over s h =
    report-IsKept (codes "The fingerprint sensor was disconnected") true s
      (record s { verifying = false }) (h, refl)
on_signal-IsKept other_result over s h = if_done-IsKept over s s (h, refl)

-- The error of a call starts nothing.
call_back-IsKept :
    (c : Call) (count : ℕ) (s t : Fprint) → IsKept t s → IsKept (call_back c false count t) s
unfolding call_back on_manager on_default_device on_device on_fingers on_claimed on_verify_started
    is_stopped
call_back-IsKept new_manager count s t k = k
call_back-IsKept get_default_device count s t k = k
call_back-IsKept new_device count s t k = (ground (arith, k.0), k.1)
call_back-IsKept list_enrolled_fingers count s t k = k
call_back-IsKept claim count s t k = k
call_back-IsKept verify_start count s t k = k
call_back-IsKept verify_stop count s t k = k
call_back-IsKept release count s t k = k

call_at-cancelled :
    (n : ℕ) (ps : List Pending)
    → all_cancelled ps ≡ true
    → (elim (call_at n ps) [ some p ↦ p.cancelled | none ↦ true ]) ≡ true
unfolding call_at all_cancelled
call_at-cancelled n [] h = refl
call_at-cancelled zero (p ∷ rest) h = (and-true p.cancelled (all_cancelled rest) h).0
call_at-cancelled (suc n) (p ∷ rest) h =
    call_at-cancelled n rest (and-true p.cancelled (all_cancelled rest) h).1

all_cancelled-calls_but :
    (n : ℕ) (ps : List Pending) → all_cancelled ps ≡ true → all_cancelled (calls_but n ps) ≡ true
unfolding calls_but all_cancelled
all_cancelled-calls_but n [] h = refl
all_cancelled-calls_but zero (p ∷ rest) h = (and-true p.cancelled (all_cancelled rest) h).1
all_cancelled-calls_but (suc n) (p ∷ rest) h =
    let parts = and-true p.cancelled (all_cancelled rest) h in
    let others = all_cancelled-calls_but n rest parts.1 in rw (parts.0, others)

pub all_cancelled_after : (ps : List Pending) → all_cancelled (cancel_all ps) ≡ true
unfolding cancel_all all_cancelled
all_cancelled_after [] = refl
all_cancelled_after (p ∷ rest) = all_cancelled_after rest

pub pending_of-stopped : (s : Fprint) → is_stopped s ≡ true → all_cancelled s.pending ≡ true
unfolding is_stopped all_cancelled
pending_of-stopped s h = ground arith

finish-IsKept :
    (p : Option Pending) (rest : List Pending) (ok : Bool) (count : ℕ) (s : Fprint)
    → is_stopped s ≡ true
    → all_cancelled rest ≡ true
    → (elim p [ some q ↦ q.cancelled | none ↦ true ]) ≡ true
    → IsKept (finish p rest ok count s) s
unfolding finish
finish-IsKept none rest ok count s h r c = (h, refl)
finish-IsKept (some p) rest ok count s h r c =
    let fails : (ok && not p.cancelled) ≡ false = ground (arith, c) in
    rw fails (
      call_back-IsKept p.call count s (record s { pending = rest })
        (is_stopped-pending rest s h r, refl))

lock_fprint_stop-IsKept : (s : Fprint) → is_stopped s ≡ true → IsKept (lock_fprint_stop s) s
unfolding lock_fprint_stop release_device ask_sync is_stopped
lock_fprint_stop-IsKept s h = let after = all_cancelled_after s.pending in ground (arith, after)

abbrev pub is_start : Event → Bool
is_start (started has_user) = true
is_start _ = false

pub step-IsKept :
    (e : Event) (s : Fprint) → is_start e ≡ false → is_stopped s ≡ true → IsKept (step e s) s
unfolding step
step-IsKept (started has_user) s n h = cc
step-IsKept stopped s n h = lock_fprint_stop-IsKept s h
step-IsKept (signalled result done) s n h = on_signal-IsKept result done s h
step-IsKept (finished n ok count) s k h =
    let waiting = pending_of-stopped s h in
    finish-IsKept (call_at n s.pending) (calls_but n s.pending) ok count s h
      (all_cancelled-calls_but n s.pending waiting) (call_at-cancelled n s.pending waiting)
