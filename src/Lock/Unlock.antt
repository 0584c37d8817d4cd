-- ===== src/Lock/Unlock.antt =====
-- src/lockscreen/lock_main.c: what unlocks the session.
use singularity_shell.Base.{
  ℕ, zero, suc, ◌+◌, ◌≤◌, ◌≡◌, refl, sym, ap, ◌∙◌, Bool, true, false, not, ◌&&◌, ◌||◌, none, some,
  ◌++◌, arith, ltb, ◌==◌, if◌then◌else◌, if_same, if_cases,
}
use mathlib.Core.Bool.{◌||◌}
use singularity_shell.CString.{Text, codes, before}
use singularity_shell.Lock.Defs.{
  is_leave, LockOutput, Request, Lock, World, send, motion_large_ms, start_phase, phase_leave,
}
use singularity_shell.Lock.Render.{render_all, render_in_place}
use singularity_shell.Lock.Auth.{
  ellipsis, password_size, unlock_session, any_configured, begin_leave, set_status, on_fprint_match,
  on_fprint_status, bytes_from, typed, store_byte, wipe, wrong_password, finish_submit,
  submit_password,
}
use singularity_shell.Lock.Drawing.{
  Core, core, is_unlock, unlocks, core-render_all, core-render_output,
}

unfoldable pub opens_of : Core → Bool
opens_of c = c.leaving || c.unlocking

-- Whether the lock is on its way to end: the leaving animation runs, or the request is sent.
abbrev pub opens : Lock → Bool
opens s = opens_of (core s)

abbrev pub keys_of : Core → (ℕ → ℕ) × ℕ
keys_of c = (c.password, c.password_len)

-- The buffer of the password and the length of what is typed.
abbrev pub keys : Lock → (ℕ → ℕ) × ℕ
keys s = keys_of (core s)

pub or_true : (x : Bool) → (x || true) ≡ true
or_true x = ground arith

pub or_false : (x : Bool) → (x || false) ≡ x
or_false x = ground arith

pub or_of_right : (x y : Bool) → y ≡ true → (x || y) ≡ true
or_of_right x y h = ground arith

or_of_left : (x y : Bool) → x ≡ true → (x || y) ≡ true
or_of_left x y h = ground arith

abbrev pub door_of : Core → Bool × ((ℕ → ℕ) × ℕ)
door_of c = (opens_of c, keys_of c)

abbrev pub door : Lock → Bool × ((ℕ → ℕ) × ℕ)
door s = door_of (core s)

pub door-render_all : (w : World) (s : Lock) → door (render_all w s) ≡ door s
door-render_all w s = ap door_of (core-render_all w s)

pub opens-render_all : (w : World) (s : Lock) → opens (render_all w s) ≡ opens s
opens-render_all w s = ap opens_of (core-render_all w s)

pub keys-render_all : (w : World) (s : Lock) → keys (render_all w s) ≡ keys s
keys-render_all w s = ap keys_of (core-render_all w s)

pub door-render_in_place :
    (w : World) (o : LockOutput) (s : Lock) → door (render_in_place w o s) ≡ door s
unfolding render_in_place opens_of
door-render_in_place w o s = ap door_of (core-render_output w o s)

pub door-send : (r : Request) (s : Lock) → is_unlock r ≡ false → door (send r s) ≡ door s
unfolding send unlocks opens_of
door-send r s h = ap (λ x. (is_leave s.phase || (x || unlocks s.sent), keys s)) h

pub opens-unlock_session : (s : Lock) → opens (unlock_session s) ≡ true
unfolding unlock_session send unlocks opens_of
opens-unlock_session s = or_true (is_leave s.phase)

pub opens_of_leaving : (s : Lock) → is_leave s.phase ≡ true → opens s ≡ true
unfolding opens_of
opens_of_leaving s h = or_of_left (is_leave s.phase) (unlocks s.sent) h

pub door-unlock_session :
    (s t : Lock) → is_leave s.phase ≡ true → keys t ≡ keys s → door (unlock_session t) ≡ door s
unfolding unlock_session send
door-unlock_session s t h k =
    ap (λ x. (x, keys t)) (opens-unlock_session t ∙ sym (opens_of_leaving s h))
    ∙ ap (λ x. (opens s, x)) k

pub opens-begin_leave : (w : World) (s : Lock) → opens (begin_leave w s) ≡ true
unfolding begin_leave
opens-begin_leave w s = if_cases opens (is_leave s.phase) (opens_of_leaving s) (λ stays.
    if_same opens (not (any_configured s.outputs)) (opens-unlock_session s) (
      opens-render_all w (start_phase phase_leave motion_large_ms (record s { shake_start = none }))
      ∙ opens_of_leaving (start_phase phase_leave motion_large_ms (record s { shake_start = none }))
          refl))

pub keys-begin_leave : (w : World) (s : Lock) → keys (begin_leave w s) ≡ keys s
unfolding begin_leave start_phase unlock_session send
keys-begin_leave w s = if_same keys (is_leave s.phase) refl (
    if_same keys (not (any_configured s.outputs)) refl (
      keys-render_all w
        (start_phase phase_leave motion_large_ms (record s { shake_start = none }))))

pub opens-on_fprint_match : (w : World) (s : Lock) → opens (on_fprint_match w s) ≡ true
unfolding on_fprint_match
opens-on_fprint_match w s =
    opens-begin_leave w (render_all w (set_status (codes "Unlocking" ++ ellipsis) false s))

pub keys-on_fprint_match : (w : World) (s : Lock) → keys (on_fprint_match w s) ≡ keys s
unfolding on_fprint_match set_status
keys-on_fprint_match w s =
    keys-begin_leave w (render_all w (set_status (codes "Unlocking" ++ ellipsis) false s))
    ∙ keys-render_all w (set_status (codes "Unlocking" ++ ellipsis) false s)

pub door-on_fprint_status :
    (w : World) (text : Text) (error : Bool) (s : Lock)
    → door (on_fprint_status w text error s) ≡ door s
unfolding on_fprint_status set_status opens_of
door-on_fprint_status w text error s =
    if_same door (ltb 0 s.password_len) refl (door-render_all w (set_status text error s))

pub opens-finish_submit :
    (w : World) (granted : Bool) (s : Lock)
    → opens (finish_submit w granted s) ≡ (opens s || granted)
unfolding finish_submit set_status wipe opens_of
opens-finish_submit w true s = opens-begin_leave w (wipe s) ∙ sym (or_true (opens s))
opens-finish_submit w false s =
    opens-render_all w (
      set_status (wrong_password w) true
        (if s.motion_reduced then wipe s else record (wipe s) { shake_start = some w.now }))
    ∙ if_same opens s.motion_reduced refl refl
    ∙ sym (or_false (opens s))

-- After an answer of PAM the buffer is wiped and nothing is typed, whatever the answer.
pub keys-finish_submit :
    (w : World) (granted : Bool) (s : Lock)
    → keys (finish_submit w granted s) ≡ ((λ j. if ltb j password_size then 0 else s.password j), 0)
unfolding finish_submit set_status wipe
keys-finish_submit w true s = keys-begin_leave w (wipe s)
keys-finish_submit w false s =
    keys-render_all w (
      set_status (wrong_password w) true
        (if s.motion_reduced then wipe s else record (wipe s) { shake_start = some w.now }))
    ∙ if_same keys s.motion_reduced refl refl

-- Storing a byte behind the text does not change the text.
pub bytes_from_store :
    (n i j c : ℕ) (buffer : ℕ → ℕ)
    → i + n ≤ j
    → bytes_from (λ k. if k == j then c else buffer k) i n ≡ bytes_from buffer i n
unfolding bytes_from
bytes_from_store zero i j c buffer h = refl
bytes_from_store (suc n) i j c buffer h =
    let others = bytes_from_store n (suc i) j c buffer (omega arith) in
    let here : (i == j) ≡ false = ground arith in rw (here, others)

-- The text that the keys make.
unfoldable pub text_of : (ℕ → ℕ) × ℕ → Text
text_of (buffer, n) = before 0 (bytes_from buffer 0 n)

pub typed-keys : (s : Lock) → typed s ≡ text_of (keys s)
unfolding typed text_of
typed-keys s = refl

text_of_store :
    (n c : ℕ) (buffer : ℕ → ℕ)
    → text_of ((λ k. if k == n then c else buffer k), n) ≡ text_of (buffer, n)
unfolding text_of
text_of_store n c buffer = ap (before 0) (bytes_from_store n 0 n c buffer (omega arith))

-- The state whose text is handed to PAM.
abbrev pub submitted : World → Lock → Lock
submitted w s =
    render_all w
      (set_status (codes "Authenticating" ++ ellipsis) false (store_byte s.password_len 0 s))

pub typed-submitted : (w : World) (s : Lock) → typed (submitted w s) ≡ typed s
unfolding set_status store_byte
typed-submitted w s =
    typed-keys (submitted w s)
    ∙ ap text_of (
        keys-render_all w
          (set_status (codes "Authenticating" ++ ellipsis) false (store_byte s.password_len 0 s)))
    ∙ text_of_store s.password_len 0 s.password
    ∙ sym (typed-keys s)

-- Whether submitting grants the session.
unfoldable pub accepts : World → Lock → Bool
accepts w s = not (s.password_len == 0) && w.authenticate (typed s)

pub opens-submit_password :
    (w : World) (s : Lock) → opens (submit_password w s) ≡ (opens s || accepts w s)
unfolding submit_password accepts opens_of set_status store_byte
opens-submit_password w s =
    if_cases opens (s.password_len == 0) (λ empty. rw empty (sym (or_false (opens s))))
      (λ full.
        opens-finish_submit w (w.authenticate (typed (submitted w s))) (submitted w s)
        ∙ ap (λ x. x || w.authenticate (typed (submitted w s)))
            (opens-render_all w (
              set_status (codes "Authenticating" ++ ellipsis) false
                (store_byte s.password_len 0 s)))
        ∙ rw (full, typed-submitted w s))
