-- ===== src/Lock/Fprint.antt =====
-- src/lockscreen/lock_fprint.c: the client of the fingerprint daemon.
use singularity_shell.Base.{
  ℕ, zero, suc, ◌+◌, Bool, true, false, not, ◌&&◌, ◌||◌, Option, none, some, List, [], ◌∷◌, ◌==◌,
  if◌then◌else◌,
}
use singularity_shell.CString.{Text, codes}

-- The calls whose results come later, and those that wait.
pub data Call : Type 0 where
  new_manager get_default_device new_device list_enrolled_fingers claim verify_start : Call
  verify_stop release : Call

-- A call that has no result yet, and whether its cancellable was cancelled.
pub record Pending : Type 0 where
  pub call : Call
  pub cancelled : Bool

-- The static variables, with the calls made (the last one first), how often `match_cb` was called, and
-- what `status_cb` was told.
pub record Fprint : Type 0 where
  pub device : Bool
  pub cancellable : Bool
  pub claimed : Bool
  pub verifying : Bool
  pub has_callbacks : Bool
  pub pending : List Pending
  pub calls : List Call
  pub matches : ℕ
  pub reports : List (Text × Bool)

abbrev pub initial : Fprint
initial = record {
  device = false;
  cancellable = false;
  claimed = false;
  verifying = false;
  has_callbacks = false;
  pending = [];
  calls = [];
  matches = 0;
  reports = [];
}

unfoldable pub ask : Call → Fprint → Fprint
ask c s = record s {
  pending = record { call = c; cancelled = false } ∷ s.pending;
  calls = c ∷ s.calls;
}

unfoldable pub ask_sync : Call → Fprint → Fprint
ask_sync c s = record s { calls = c ∷ s.calls }

unfoldable pub report : Text → Bool → Fprint → Fprint
report text error s =
    if s.has_callbacks then record s { reports = (text, error) ∷ s.reports } else s

unfoldable pub start_verify : Fprint → Fprint
unfolding ask
start_verify s = ask verify_start s

unfoldable pub on_verify_started : Bool → Fprint → Fprint
unfolding report
on_verify_started ok s =
    if not ok
    then record s { verifying = false }
    else report (codes "Touch the fingerprint sensor or type your password") false
        (record s { verifying = true })

unfoldable pub restart_verify : Fprint → Fprint
unfolding ask_sync start_verify
restart_verify s =
    if not s.device || not s.claimed then s else start_verify (ask_sync verify_stop s)

-- The results that a signal VerifyStatus can bring.
pub data Result : Type 0 where
  verify_match verify_no_match verify_swipe_too_short verify_finger_not_centered : Result
  verify_remove_and_retry verify_retry_scan verify_disconnected other_result : Result

unfoldable pub call_match : Fprint → Fprint
call_match s = if s.has_callbacks then record s { matches = s.matches + 1 } else s

-- `on_signal` for a signal VerifyStatus; the others it ignores.
unfoldable pub if_done : Bool → Fprint → Fprint
unfolding restart_verify
if_done over s = if over then restart_verify s else s

unfoldable pub on_signal : Result → Bool → Fprint → Fprint
unfolding call_match report if_done
on_signal verify_match over s = call_match (record s { verifying = false })
on_signal verify_no_match over s =
    if_done over (report (codes "Fingerprint not recognized, try again") true s)
on_signal verify_swipe_too_short over s =
    if_done over (report (codes "Swipe was too short, try again") true s)
on_signal verify_finger_not_centered over s =
    if_done over (report (codes "Center your finger on the sensor") true s)
on_signal verify_remove_and_retry over s =
    if_done over (report (codes "Lift your finger and try again") true s)
on_signal verify_retry_scan over s = if_done over (report (codes "Touch the sensor again") true s)
on_signal verify_disconnected over s =
    report (codes "The fingerprint sensor was disconnected") true (record s { verifying = false })
on_signal other_result over s = if_done over s

unfoldable pub on_claimed : Bool → Fprint → Fprint
unfolding start_verify
on_claimed ok s = if not ok then s else start_verify (record s { claimed = true })

-- `on_fingers`, with the number of enrolled fingers.
unfoldable pub on_fingers : Bool → ℕ → Fprint → Fprint
unfolding ask
on_fingers ok count s = if not ok || count == 0 then s else ask claim s

unfoldable pub on_device : Bool → Fprint → Fprint
unfolding ask
on_device ok s =
    let t = record s { device = ok } in if not ok then t else ask list_enrolled_fingers t

unfoldable pub on_default_device : Bool → Fprint → Fprint
unfolding ask
on_default_device ok s = if not ok then s else ask new_device s

unfoldable pub on_manager : Bool → Fprint → Fprint
unfolding ask
on_manager ok s = if not ok then s else ask get_default_device s

unfoldable pub lock_fprint_start : Bool → Fprint → Fprint
unfolding ask
lock_fprint_start has_user s =
    if not has_user || s.cancellable
    then s
    else ask new_manager (record s { has_callbacks = true; cancellable = true })

-- The calls that wait for a result become cancelled.
unfoldable pub cancel_all : List Pending → List Pending
cancel_all [] = []
cancel_all (p ∷ rest) = record p { cancelled = true } ∷ cancel_all rest

unfoldable pub release_device : Fprint → Fprint
unfolding ask_sync
release_device s =
    if s.device && s.claimed
    then ask_sync release (if s.verifying then ask_sync verify_stop s else s)
    else s

unfoldable pub lock_fprint_stop : Fprint → Fprint
unfolding cancel_all release_device
lock_fprint_stop s =
    let t = if s.cancellable then record s { pending = cancel_all s.pending } else s in
    record (release_device t) {
      verifying = false;
      claimed = false;
      device = false;
      cancellable = false;
    }

-- The call at a place of the list, and the list without it.
unfoldable pub call_at : ℕ → List Pending → Option Pending
call_at n [] = none
call_at zero (p ∷ rest) = some p
call_at (suc n) (p ∷ rest) = call_at n rest

unfoldable pub calls_but : ℕ → List Pending → List Pending
calls_but n [] = []
calls_but zero (p ∷ rest) = rest
calls_but (suc n) (p ∷ rest) = p ∷ calls_but n rest

unfoldable pub call_back : Call → Bool → ℕ → Fprint → Fprint
unfolding on_manager on_default_device on_device on_fingers on_claimed on_verify_started
call_back new_manager ok count s = on_manager ok s
call_back get_default_device ok count s = on_default_device ok s
call_back new_device ok count s = on_device ok s
call_back list_enrolled_fingers ok count s = on_fingers ok count s
call_back claim ok count s = on_claimed ok s
call_back verify_start ok count s = on_verify_started ok s
call_back verify_stop ok count s = s
call_back release ok count s = s

-- A result comes for one of the calls; GIO reports an error for a call that was cancelled.
unfoldable pub finish : Option Pending → List Pending → Bool → ℕ → Fprint → Fprint
unfolding call_back
finish none rest ok count s = s
finish (some p) rest ok count s =
    call_back p.call (ok && not p.cancelled) count (record s { pending = rest })

pub data Event : Type 0 where
  started : Bool → Event
  stopped : Event
  signalled : Result → Bool → Event
  finished : ℕ → Bool → ℕ → Event

unfoldable pub step : Event → Fprint → Fprint
unfolding finish call_at calls_but
step (started has_user) s = lock_fprint_start has_user s
step stopped s = lock_fprint_stop s
step (signalled result done) s = on_signal result done s
step (finished n ok count) s = finish (call_at n s.pending) (calls_but n s.pending) ok count s

unfoldable pub steps : List Event → Fprint → Fprint
steps [] s = s
steps (e ∷ es) s = steps es (step e s)
