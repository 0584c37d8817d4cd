-- ===== src/Parental/Policy.antt =====
-- What a run of the parental helper may change.
use singularity_shell.Crash.Files.Shown.{write_all-content}
use singularity_shell.Base.{
  ℕ, ◌≤◌, ◌≡◌, ap, ◌∙◌, ◌≢◌, ◌⊎◌, inl, inr, true, false, not, ◌&&◌, Option, none, some, List, [],
  ◌∷◌, ◌++◌, arith, ◌==◌, length, all_mono, Bool-cases, Option-cases,
}
use singularity_shell.CString.{Text, str_eq}
use singularity_shell.CString.Split.{lacks}
use singularity_shell.Process.{done, Outcome-cases}
use singularity_shell.Crash.Files.{write_all}
use singularity_shell.Parental.{
  Env, Received, chunk, read_error, Policies, Done, unprivileged_test_mode, valid_user, user_byte,
  known_user, valid_policy, read_stdin, max_policy_size, store, save, write_checked, write_read,
  write_policy, clear_policy, main,
}

read_stdin-length :
    (buf : Text) (input : List Received) (text : Text)
    → length buf ≤ max_policy_size
    → read_stdin buf input ≡ done (some text)
    → length text ≤ max_policy_size
unfolding read_stdin
read_stdin-length buf [] text h e = absurd (ground arith)
read_stdin-length buf (read_error ∷ input) text h e = absurd (ground arith)
read_stdin-length buf (chunk [] ∷ input) text h e = ground arith
read_stdin-length buf (chunk (c ∷ s) ∷ input) text h e =
    ground (arith, read_stdin-length (buf ++ (c ∷ s)) input text)

pub write_policy_lem :
    (env : Env) (policies : Policies) (user : Text) (input : List Received) (r : Done)
    → write_policy env policies user input ≡ done r
    → (r ≡ (1, policies))
      ⊎ ((text : Text) × (valid_policy env text ≡ true)
          × (length text ≤ max_policy_size)
          × (read_stdin [] input ≡ done (some text))
          × (r ≡ (0, store policies user (some text))))
unfolding write_policy write_read write_checked save
write_policy_lem env policies user input r h = elim (Outcome-cases (read_stdin [] input)) [
  | inl (none, e) ↦ inl (ground arith)
  | inl (some text, e) ↦ elim (Outcome-cases (write_all [] env.writes text)) [
    | inl ((written, bytes, rest), w) ↦
        elim (Bool-cases
          (valid_policy env text && env.makes_dir && env.makes_temporary && written && env.saves)) [
            | inl good ↦ inr (
              text,
              ground arith,
              read_stdin-length [] input text (omega arith) e,
              e,
              ground (arith, write_all-content [] env.writes text bytes rest),
            )
            | inr bad ↦ inl (ground arith)
          ]
    | inr (inl w) ↦ inl (ground arith)
    | inr (inr w) ↦ inl (ground arith)
  ]
  | inr (inl e) ↦ absurd (ground arith)
  | inr (inr e) ↦ absurd (ground arith)
]

-- A user name that is accepted stays in the policy directory: it holds no slash and does not start
-- with a dot or a dash.
pub valid_user_safe :
    (env : Env) (c : ℕ) (s : Text)
    → valid_user env (c ∷ s) ≡ true
    → (lacks b'/' (c ∷ s) ≡ true) × (c ≢ b'.') × (c ≢ b'-') × (length (c ∷ s) ≤ 64)
unfolding valid_user
valid_user_safe env c s h = (
  all_mono user_byte (λ x. not (x == b'/')) (c ∷ s) (λ x g. unfold user_byte in ground arith)
      (ground arith),
  ground arith,
  ground arith,
  ground arith,
)

store_other :
    (policies : Policies) (user other : Text) (policy : Option Text)
    → str_eq other user ≡ false
    → store policies user policy other ≡ policies other
unfolding store
store_other policies user other policy h = ground arith

clear_policy_others :
    (env : Env) (policies : Policies) (user other : Text)
    → str_eq other user ≡ false
    → (clear_policy env policies user).1 other ≡ policies other
unfolding clear_policy
clear_policy_others env policies user other h = ground (arith, store_other policies user other none)

write_policy_others :
    (env : Env) (policies : Policies) (user : Text) (input : List Received) (r : Done)
    → write_policy env policies user input ≡ done r
    → (other : Text) → str_eq other user ≡ false
    → r.1 other ≡ policies other
write_policy_others env policies user input r h other ne =
    elim (write_policy_lem env policies user input r h) [
      | inl e ↦ ap (λ (d : Done). d.1 other) e
      | inr (text, v, l, i, e) ↦
          ap (λ (d : Done). d.1 other) e ∙ store_other policies user other (some text) ne
    ]

system_user :
    (env : Env) (user : Text)
    → unprivileged_test_mode env ≡ false
    → valid_user env user ≡ true
    → (uid : ℕ) × (env.passwd user ≡ some uid) × (uid ≢ 0)
unfolding valid_user known_user
system_user env [] t h = absurd (ground arith)
system_user env (c ∷ s) t h = elim (Option-cases (env.passwd (c ∷ s))) [
  | inl e ↦ absurd (ground arith)
  | inr (uid, e) ↦ (uid, e, ground arith)
]

-- Outside the test mode a run either leaves the policies as they are, or it is made by root, for a user
-- of the system who is not root, and leaves the policies of all others as they are; whatever the
-- arguments and the input.
pub main_privileged :
    (env : Env) (policies : Policies) (input : List Received) (args : List Text) (r : Done)
    → unprivileged_test_mode env ≡ false
    → main env policies input args ≡ done r
    → (r.1 ≡ policies)
      ⊎ ((user : Text) × (uid : ℕ) × (env.euid ≡ 0)
          × (env.passwd user ≡ some uid)
          × (uid ≢ 0)
          × ((other : Text) → str_eq other user ≡ false → r.1 other ≡ policies other))
unfolding main
main_privileged env policies input [] r t h = inl (ground arith)
main_privileged env policies input (command ∷ []) r t h = inl (ground arith)
main_privileged env policies input (command ∷ user ∷ []) r t h =
    elim (Bool-cases (valid_user env user && env.euid == 0)) [
      | inl good ↦
          let (uid, known, ne) = system_user env user t (ground arith) in
          inr (
            user,
            uid,
            ground arith,
            known,
            ne,
            λ other d. ground (
              arith,
              λ (w : write_policy env policies user input ≡ done r).
                  write_policy_others env policies user input r w other d,
              clear_policy_others env policies user other d,
            ),
          )
      | inr bad ↦ inl (ground arith)
    ]
main_privileged env policies input (command ∷ user ∷ x ∷ args) r t h = inl (ground arith)
