-- ===== src/Lock/Pam.antt =====
-- src/lockscreen/pam_auth.c: the answer to a password, of the root daemon or of PAM.
use singularity_shell.Base.{
  sym, ap, ◌∙◌, true, refl, Bool-cases, ℕ, ◌≡◌, Bool, false, not, ◌&&◌, Option, none, some, List,
  [], ◌∷◌, ◌++◌, map, arith, ◌==◌, if◌then◌else◌, take,
}
use mathlib.Core.Path.{fun_ext}
use singularity_shell.CString.{Text, codes}
use singularity_shell.CString.Numbers.{print_nat}

abbrev pub pam_success : ℕ
pam_success = 0

abbrev pub pam_buf_err : ℕ
pam_buf_err = 5

abbrev pub pam_auth_err : ℕ
pam_auth_err = 7

abbrev pub pam_conv_err : ℕ
pam_conv_err = 19

abbrev pam_prompt_echo_off : ℕ
pam_prompt_echo_off = 1

-- What the calls of the system find: the socket's file, whether the connection comes about, what
-- `read` then gives for the text that was written (`none` for an error, a timeout among them), and the
-- memory for the replies.
pub record System : Type 0 where
  pub socket_exists : Bool
  pub connects : Bool
  pub answer : Text → Option Text
  pub uid : ℕ
  pub has_memory : Bool

-- The result of `daemon_verify`.
pub data Verdict : Type 0 where
  verified refused unreachable : Verdict

abbrev pub starts_with_ok : Text → Bool
starts_with_ok (a ∷ b ∷ rest) = a == 79 && b == 75
starts_with_ok _ = false

abbrev pub is_ok : Option Text → Bool
is_ok none = false
is_ok (some text) = starts_with_ok (take 15 text)

unfoldable pub daemon_request : System → Text → Text
daemon_request y pin = codes "verify" ++ (10 ∷ (print_nat y.uid ++ (10 ∷ (pin ++ (10 ∷ [])))))

unfoldable pub daemon_verify : System → Text → Verdict
unfolding daemon_request
daemon_verify y pin =
    if not y.connects
    then unreachable
    else if is_ok (y.answer (daemon_request y pin))
    then verified
    else refused

-- The replies of `pam_conv_func` to messages of these styles, `pam_password` being as given.
unfoldable pub reply_to : Option Text → ℕ → Option Text
reply_to password style =
    if style == pam_prompt_echo_off
    then elim password [ some text ↦ some text | none ↦ some [] ]
    else none

unfoldable pub pam_conv_func : System → Option Text → List ℕ → ℕ × List (Option Text)
unfolding reply_to
pam_conv_func y password [] = (pam_conv_err, [])
pam_conv_func y password (style ∷ styles) =
    if not y.has_memory
    then (pam_buf_err, [])
    else (pam_success, map (reply_to password) (style ∷ styles))

-- The PAM library: the results of its calls, the second one asking the conversation function.
pub record Pam : Type 0 where
  pub start : ℕ
  pub check : (List ℕ → ℕ × List (Option Text)) → ℕ

-- The part of `singularity_pam_authenticate` that asks PAM: the result, and `pam_password` afterwards.
unfoldable pub ask_pam : System → Pam → Text → ℕ × Option Text
unfolding pam_conv_func
ask_pam y pam password =
    if not (pam.start == pam_success)
    then (pam.start, none)
    else (pam.check (pam_conv_func y (some password)), none)

unfoldable pub by_verdict : Verdict → System → Pam → Text → Option Text → ℕ × Option Text
unfolding ask_pam
by_verdict verified y pam password kept = (pam_success, kept)
by_verdict refused y pam password kept = (pam_auth_err, kept)
by_verdict unreachable y pam password kept = ask_pam y pam password

unfoldable pub singularity_pam_authenticate : System → Pam → Text → Option Text → ℕ × Option Text
unfolding daemon_verify by_verdict ask_pam
singularity_pam_authenticate y pam password kept =
    if y.socket_exists
    then by_verdict (daemon_verify y password) y pam password kept
    else ask_pam y pam password

-- What a conversation function shall answer: each hidden prompt gets the password, and no other message
-- gets a reply.
abbrev pub told_password : Text → List ℕ → List (Option Text)
told_password password [] = []
told_password password (style ∷ styles) =
    (if style == 1 then some password else none) ∷ told_password password styles

-- A conversation that gives the password, but for an empty list of messages (19) and without memory (5).
abbrev pub GivesPassword : Bool → Text → (List ℕ → ℕ × List (Option Text)) → Type 0
GivesPassword memory password conv =
    (conv [] ≡ (19, []))
    × ((style : ℕ) (styles : List ℕ)
        → conv (style ∷ styles)
          ≡ (if memory then (0, told_password password (style ∷ styles)) else (5, [])))

-- The daemon's answer to the request with the password begins with the letters O and K.
abbrev pub DaemonAgrees : System → Text → Type 0
DaemonAgrees y password =
    (rest : Text) × (y.answer
        (codes "verify\n" ++ (print_nat y.uid ++ (codes "\n" ++ (password ++ codes "\n"))))
      ≡ some (b'O' ∷ b'K' ∷ rest))

is_ok_lem :
    (answer : Option Text)
    → is_ok answer ≡ true
    → (rest : Text) × (answer ≡ some (b'O' ∷ b'K' ∷ rest))
is_ok_lem none h = absurd (ground arith)
is_ok_lem (some []) h = absurd (ground arith)
is_ok_lem (some (a ∷ [])) h = absurd (ground arith)
is_ok_lem (some (a ∷ b ∷ rest)) h = (rest, ground arith)

map-told_password :
    (password : Text) (styles : List ℕ)
    → map (reply_to (some password)) styles ≡ told_password password styles
unfolding reply_to
map-told_password password [] = refl
map-told_password password (style ∷ styles) = ground (arith, map-told_password password styles)

pam_conv_func-GivesPassword :
    (y : System) (password : Text)
    → GivesPassword y.has_memory password (pam_conv_func y (some password))
unfolding pam_conv_func
pam_conv_func-GivesPassword y password = (
  refl,
  λ style styles.
      rw (map-told_password password (style ∷ styles)) (ground (arith, Bool-cases y.has_memory)),
)

-- Two conversations that give the password are the same function.
conversation_unique :
    (memory : Bool) (password : Text) (f g : List ℕ → ℕ × List (Option Text))
    → GivesPassword memory password f
    → GivesPassword memory password g
    → (styles : List ℕ) → f styles ≡ g styles
conversation_unique memory password f g p q [] = p.0 ∙ sym q.0
conversation_unique memory password f g p q (style ∷ styles) =
    p.1 style styles ∙ sym (q.1 style styles)

-- Where the root daemon's socket is there and takes the connection, the password is accepted exactly if
-- the daemon's answer to the user's id and the password begins with OK. Where there is no such daemon,
-- the result is PAM's: that of a failing start, or else what it makes of a conversation that gives the
-- password to every hidden prompt and to nothing else. The copy for PAM does not outlive the call.
pub singularity_pam_authenticate_lem :
    (y : System) (pam : Pam) (password : Text)
    → let result = singularity_pam_authenticate y pam password none in
      (y.socket_exists && y.connects ≡ true
        → (result.0 ≡ 0 → DaemonAgrees y password) × (DaemonAgrees y password → result.0 ≡ 0))
      × (y.socket_exists && y.connects ≡ false
          → (conv : List ℕ → ℕ × List (Option Text)) → GivesPassword y.has_memory password conv
          → result.0 ≡ (if pam.start == 0 then pam.check conv else pam.start))
      × (result.1 ≡ none)
unfolding singularity_pam_authenticate daemon_verify daemon_request by_verdict ask_pam
singularity_pam_authenticate_lem y pam password = (
  λ there. (λ good. is_ok_lem _ (ground arith), λ (rest, e). ground (arith, ap is_ok e)),
  λ alone conv gives.
      let same : pam_conv_func y (some password) ≡ conv = fun_ext (
        conversation_unique y.has_memory password (pam_conv_func y (some password)) conv
          (pam_conv_func-GivesPassword y password) gives) in
      ground (arith, ap pam.check same),
  ground arith,
)
