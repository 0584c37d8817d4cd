-- ===== src/Lock/Stopped.antt =====
-- src/lockscreen/lock_fprint.c: what a stop of the fingerprint client leaves behind.
use singularity_shell.Base.{
  ℕ, ◌≡◌, refl, ap, ◌∙◌, inl, inr, Bool, true, false, not, ◌&&◌, ◌||◌, Option, none, some, List, [],
  ◌∷◌, arith, ◌==◌, if◌then◌else◌, Bool-cases, if_same, if_cases,
}
use singularity_shell.CString.{Text, codes}
use singularity_shell.Lock.Fprint.{
  Call, Pending, Fprint, initial, ask, ask_sync, report, start_verify, on_verify_started,
  restart_verify, Result, call_match, if_done, on_signal, on_claimed, on_fingers, on_device,
  on_default_device, on_manager, lock_fprint_start, cancel_all, release_device, lock_fprint_stop,
  call_at, calls_but, call_back, finish, Event, step, steps, new_manager, get_default_device,
  new_device, list_enrolled_fingers, claim, verify_start, verify_stop, release, verify_match,
  verify_no_match, verify_swipe_too_short, verify_finger_not_centered, verify_remove_and_retry,
  verify_retry_scan, verify_disconnected, other_result, started, stopped, signalled, finished,
}
use singularity_shell.Lock.Errors.{
  all_cancelled, is_stopped, on_signal-IsKept, all_cancelled_after, pending_of-stopped, is_start,
  step-IsKept,
}

-- Without a cancellable, the client is stopped.
unfoldable pub is_idle : Fprint → Bool
is_idle s = s.cancellable || is_stopped s

cancellable-report :
    (text : Text) (error : Bool) (s : Fprint) → (report text error s).cancellable ≡ s.cancellable
unfolding report
cancellable-report text error s = if_same Fprint.cancellable s.has_callbacks refl refl

cancellable-if_done : (over : Bool) (s : Fprint) → (if_done over s).cancellable ≡ s.cancellable
unfolding if_done restart_verify start_verify ask_sync ask
cancellable-if_done true s = if_same Fprint.cancellable (not s.device || not s.claimed) refl refl
cancellable-if_done false s = refl

cancellable-on_signal :
    (r : Result) (over : Bool) (s : Fprint) → (on_signal r over s).cancellable ≡ s.cancellable
unfolding on_signal call_match
cancellable-on_signal verify_match over s = if_same Fprint.cancellable s.has_callbacks refl refl
cancellable-on_signal verify_no_match over s =
    cancellable-if_done over (report (codes "Fingerprint not recognized, try again") true s)
    ∙ cancellable-report (codes "Fingerprint not recognized, try again") true s
cancellable-on_signal verify_swipe_too_short over s =
    cancellable-if_done over (report (codes "Swipe was too short, try again") true s)
    ∙ cancellable-report (codes "Swipe was too short, try again") true s
cancellable-on_signal verify_finger_not_centered over s =
    cancellable-if_done over (report (codes "Center your finger on the sensor") true s)
    ∙ cancellable-report (codes "Center your finger on the sensor") true s
cancellable-on_signal verify_remove_and_retry over s =
    cancellable-if_done over (report (codes "Lift your finger and try again") true s)
    ∙ cancellable-report (codes "Lift your finger and try again") true s
cancellable-on_signal verify_retry_scan over s =
    cancellable-if_done over (report (codes "Touch the sensor again") true s)
    ∙ cancellable-report (codes "Touch the sensor again") true s
cancellable-on_signal verify_disconnected over s =
    cancellable-report (codes "The fingerprint sensor was disconnected") true
      (record s { verifying = false })
cancellable-on_signal other_result over s = cancellable-if_done over s

cancellable-call_back :
    (c : Call) (ok : Bool) (count : ℕ) (s : Fprint)
    → (call_back c ok count s).cancellable ≡ s.cancellable
unfolding call_back on_manager on_default_device on_device on_fingers on_claimed on_verify_started
    ask start_verify
cancellable-call_back new_manager ok count s = if_same Fprint.cancellable (not ok) refl refl
cancellable-call_back get_default_device ok count s = if_same Fprint.cancellable (not ok) refl refl
cancellable-call_back new_device ok count s = if_same Fprint.cancellable (not ok) refl refl
cancellable-call_back list_enrolled_fingers ok count s =
    if_same Fprint.cancellable (not ok || count == 0) refl refl
cancellable-call_back claim ok count s = if_same Fprint.cancellable (not ok) refl refl
cancellable-call_back verify_start ok count s = if_same Fprint.cancellable (not ok) refl (
    cancellable-report (codes "Touch the fingerprint sensor or type your password") false
      (record s { verifying = true }))
cancellable-call_back verify_stop ok count s = refl
cancellable-call_back release ok count s = refl

cancellable-finish :
    (p : Option Pending) (rest : List Pending) (ok : Bool) (count : ℕ) (s : Fprint)
    → (finish p rest ok count s).cancellable ≡ s.cancellable
unfolding finish
cancellable-finish none rest ok count s = refl
cancellable-finish (some p) rest ok count s =
    cancellable-call_back p.call (ok && not p.cancelled) count (record s { pending = rest })

is_idle-kept :
    (s t : Fprint)
    → t.cancellable ≡ s.cancellable
    → (is_stopped s ≡ true → is_stopped t ≡ true)
    → is_idle s ≡ true
    → is_idle t ≡ true
unfolding is_idle is_stopped
is_idle-kept s t c f h = elim (Bool-cases s.cancellable) [
  | inl has ↦ let same = c ∙ has in rw same
  | inr hasnt ↦ let still = f (rw hasnt at h) in let same = c ∙ hasnt in rw (same, still)
]

pending-release_device : (s : Fprint) → (release_device s).pending ≡ s.pending
unfolding release_device ask_sync
pending-release_device s =
    if_same Fprint.pending (s.device && s.claimed) (if_same Fprint.pending s.verifying refl refl)
      refl

-- A stop leaves the client stopped.
lock_fprint_stop-is_stopped :
    (s : Fprint) → is_idle s ≡ true → is_stopped (lock_fprint_stop s) ≡ true
unfolding lock_fprint_stop is_idle is_stopped all_cancelled
lock_fprint_stop-is_stopped s h =
    let t = if s.cancellable then record s { pending = cancel_all s.pending } else s in
    let waiting : s.cancellable ≡ false → all_cancelled s.pending ≡ true =
      λ hasnt. pending_of-stopped s (rw hasnt at h) in
    ap all_cancelled (pending-release_device t)
    ∙ if_cases (λ (u : Fprint). all_cancelled u.pending) s.cancellable
        (λ has. all_cancelled_after s.pending) waiting

is_idle-start :
    (has_user : Bool) (s : Fprint)
    → is_idle s ≡ true
    → is_idle (lock_fprint_start has_user s) ≡ true
unfolding lock_fprint_start ask is_idle
is_idle-start has_user s h = if_same is_idle (not has_user || s.cancellable) h refl

is_idle-step : (e : Event) (s : Fprint) → is_idle s ≡ true → is_idle (step e s) ≡ true
unfolding step is_idle lock_fprint_stop is_stopped
is_idle-step (started has_user) s h = is_idle-start has_user s h
is_idle-step stopped s h = lock_fprint_stop-is_stopped s h
is_idle-step (signalled result done) s h =
    is_idle-kept s (on_signal result done s) (cancellable-on_signal result done s)
      (λ k. (on_signal-IsKept result done s k).0) h
is_idle-step (finished n ok count) s h =
    is_idle-kept s (step (finished n ok count) s)
      (cancellable-finish (call_at n s.pending) (calls_but n s.pending) ok count s)
      (λ k. (step-IsKept (finished n ok count) s refl k).0) h

is_idle-steps : (es : List Event) (s : Fprint) → is_idle s ≡ true → is_idle (steps es s) ≡ true
unfolding steps
is_idle-steps [] s h = h
is_idle-steps (e ∷ es) s h = is_idle-steps es (step e s) (is_idle-step e s h)

abbrev pub starts : List Event → Bool
starts [] = false
starts (e ∷ es) = is_start e || starts es

calls-steps :
    (es : List Event) (s : Fprint)
    → starts es ≡ false
    → is_stopped s ≡ true
    → (steps es s).calls ≡ s.calls
unfolding steps
calls-steps [] s n h = refl
calls-steps (e ∷ es) s n h =
    let here : is_start e ≡ false = ground (arith, n) in
    let later : starts es ≡ false = ground (arith, n) in
    let one = step-IsKept e s here h in calls-steps es (step e s) later one.0 ∙ one.1

-- Once the client is stopped, at any point of any run, it asks the fingerprint daemon for nothing more
-- until it is started again, whatever signals come and however the calls end that were under way.
pub stopped-calls :
    (before after : List Event)
    → starts after ≡ false
    → (steps after (lock_fprint_stop (steps before initial))).calls
      ≡ (lock_fprint_stop (steps before initial)).calls
unfolding is_idle is_stopped
stopped-calls before after n =
    let at_rest = is_idle-steps before initial refl in
    calls-steps after (lock_fprint_stop (steps before initial)) n
      (lock_fprint_stop-is_stopped (steps before initial) at_rest)
