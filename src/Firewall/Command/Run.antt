-- ===== src/Firewall/Command/Run.antt =====
-- Whole runs of the helper: what an exit code says of the state file and of nft.
use singularity_shell.Base.{
  ◌∙◌, refl, suc, ap, map, append_assoc, Option, ℕ, ◌≡◌, ◌≢◌, inl, inr, true, false, none, some,
  List, [], ◌∷◌, ◌++◌, arith, Option-cases,
}
use singularity_shell.CString.{codes, Text}
use singularity_shell.Process.{Outcome-cases, done, fault}
use singularity_shell.Firewall.State.{
  profile_name, flag, stream_file, rule_text, Rule, rules_text, prints, print_some, print_all,
  SaveEnv, State, StateFile, holds, load_state, save_state, state_text,
}
use singularity_shell.Firewall.Valid.{IsValid, load_state-IsValid}
use singularity_shell.Firewall.RoundTrip.{load_state-state_text}
use singularity_shell.Firewall.Ruleset.Exact.{ruleset_of, build_ruleset-ruleset_of}
use singularity_shell.Firewall.Command.Preserve.{dispatch-Keeps, Keeps}
use singularity_shell.Firewall.Command.Send.{send-ne-fault, send_front}
use singularity_shell.Firewall.Command.{
  Options, Env, Report, Request, store, show, load, refuse, dispatch, send, load_ruleset, apply,
  store_and_apply, serve, run_command, parse_options,
}

-- An unprivileged caller's options are refused: where overrides are not allowed, the options stay
-- the built-in ones and no argument is taken for one.
pub parse_options_no_override :
    (defaults opts : Options) (args rest : List Text)
    → parse_options false defaults args ≡ some (opts, rest)
    → (opts ≡ defaults) × (rest ≡ args)
unfolding parse_options
parse_options_no_override defaults opts [] rest h = ground arith
parse_options_no_override defaults opts (a ∷ args) rest h = ground arith

-- No call of fprintf fails.
abbrev pub AllPrinted : SaveEnv → Type 0
AllPrinted env = (i : ℕ) → env.fprintfs i ≡ none

print_all-rules :
    (fprintfs : ℕ → Option ℕ) (i : ℕ) (rs : List Rule)
    → ((j : ℕ) → fprintfs j ≡ none)
    → print_all fprintfs i (map rule_text rs) ≡ rules_text rs
unfolding print_all print_some rules_text
print_all-rules fprintfs i [] p = refl
print_all-rules fprintfs i (r ∷ rs) p =
    rw (p i) (ap (◌++◌ (rule_text r)) (print_all-rules fprintfs (suc i) rs p))

print_all-prints :
    (fprintfs : ℕ → Option ℕ) (st : State)
    → ((j : ℕ) → fprintfs j ≡ none)
    → print_all fprintfs 0 (prints st) ≡ state_text st
unfolding print_all print_some prints state_text
print_all-prints fprintfs st p = rw (p 0) (
    rw (print_all-rules fprintfs 1 st.rules p) (
      ap (◌++◌ (codes "enabled ")) (
        append_assoc (flag st.enabled) _ (rules_text st.rules)
        ∙ ap (λ t. flag st.enabled ++ (codes "\nprofile " ++ t))
            (append_assoc (profile_name st.public_profile) (codes "\n") (rules_text st.rules)))))

stream_file_whole :
    (env : SaveEnv) (st : State)
    → AllPrinted env
    → env.close_tmp ≡ true
    → stream_file env st ≡ state_text st
unfolding stream_file
stream_file_whole env st p c = rw c (print_all-prints env.fprintfs st p)

-- What a run of `load_ruleset` leaves.
abbrev Loads : Env → Options → StateFile → Text → Report → Type 0
Loads env opts file input rep =
    (rep.file ≡ file)
    × (rep.code ≢ 2)
    × (opts.dry_run ≡ true → rep.nft_input ≡ none)
    × (opts.dry_run ≡ false
        → rep.code ≡ 0
        → (sent : Text) × (rep.nft_input ≡ some sent) × (send env.writes input ≡ done sent))

load_ruleset-Loads :
    (env : Env) (opts : Options) (file : StateFile) (input : Text) (rep : Report)
    → load_ruleset env opts file input ≡ done rep
    → Loads env opts file input rep
unfolding load_ruleset
load_ruleset-Loads env opts file input rep h = elim (Outcome-cases (send env.writes input)) [
  | inl (sent, e) ↦
      (ground arith, λ c. ground arith, λ d. ground arith, λ d c. (sent, ground arith, e))
  | inr (inl e) ↦ absurd (send-ne-fault env.writes input e)
  | inr (inr e) ↦ (ground arith, λ c. ground arith, λ d. ground arith, λ d c. absurd (ground arith))
]

apply-Loads :
    (env : Env) (opts : Options) (file : StateFile) (st : State) (rep : Report)
    → IsValid st
    → apply env opts file st ≡ done rep
    → Loads env opts file (ruleset_of st) rep
unfolding apply
apply-Loads env opts file st rep v h =
    load_ruleset-Loads env opts file (ruleset_of st) rep
      (ground (arith, build_ruleset-ruleset_of st v))

apply-ne-fault :
    (env : Env) (opts : Options) (file : StateFile) (st : State)
    → IsValid st
    → apply env opts file st ≢ fault
unfolding apply load_ruleset
apply-ne-fault env opts file st v h = ground (
  arith,
  build_ruleset-ruleset_of st v,
  send-ne-fault env.writes (ruleset_of st),
  Outcome-cases (send env.writes (ruleset_of st)),
)

module _ (env : Env) (opts : Options) (file : StateFile) (st : State) (valid : IsValid st) where
  serve_dry :
      (req : Request) (rep : Report)
      → Keeps req
      → opts.dry_run ≡ true
      → serve env opts file st req ≡ done rep
      → (rep.file ≡ file) × (rep.nft_input ≡ none)
  unfolding serve store_and_apply
  serve_dry show rep k d h = ground arith
  serve_dry load rep k d h = ground (arith, apply-Loads env opts file st rep valid h)
  serve_dry (store st') rep k d h = ground (arith, apply-Loads env opts file st' rep k)
  serve_dry (refuse code) rep k d h = ground arith

  serve_refused :
      (req : Request) (rep : Report)
      → Keeps req
      → serve env opts file st req ≡ done rep
      → rep.code ≡ 2
      → (rep.file ≡ file) × (rep.nft_input ≡ none)
  unfolding serve store_and_apply save_state
  serve_refused show rep k h c = ground arith
  serve_refused load rep k h c = ground (arith, apply-Loads env opts file st rep valid h)
  serve_refused (store st') rep k h c = ground (
    arith,
    apply-Loads env opts file st' rep k,
    apply-Loads env opts (holds (stream_file env.save st')) st' rep k,
  )
  serve_refused (refuse code) rep k h c = ground arith

  serve_stored :
      (st' : State) (rep : Report)
      → IsValid st'
      → AllPrinted env.save
      → opts.dry_run ≡ false
      → serve env opts file st (store st') ≡ done rep
      → rep.code ≡ 0
      → (load_state rep.file ≡ some st')
        × ((sent : Text) × (rest : Text) × (rep.nft_input ≡ some sent)
            × (ruleset_of st' ≡ sent ++ rest))
  unfolding serve store_and_apply save_state
  serve_stored st' rep k p d h c =
      let loads =
        apply-Loads env opts (holds (stream_file env.save st')) st' rep k (ground arith) in
      let (sent, e, s) = loads.3 d c in
      let (rest, front) = send_front env.writes (ruleset_of st') sent s in
      (
        ground (
          arith,
          loads.0,
          load_state-state_text st' k,
          λ (e : env.save.close_tmp ≡ true). ap holds (stream_file_whole env.save st' p e),
        ),
        (sent, rest, e, front),
      )

  serve-ne-fault : (req : Request) → Keeps req → serve env opts file st req ≢ fault
  unfolding serve store_and_apply save_state
  serve-ne-fault show k h = ground arith
  serve-ne-fault load k h = apply-ne-fault env opts file st valid h
  serve-ne-fault (store st') k h = ground (
    arith,
    apply-ne-fault env opts file st' k,
    apply-ne-fault env opts (holds (stream_file env.save st')) st' k,
  )
  serve-ne-fault (refuse code) k h = ground arith

-- A dry run prints, and leaves the state file and nft alone, whatever the command.
pub dry_run-run_command :
    (env : Env) (opts : Options) (file : StateFile) (cmd : Text) (args : List Text) (rep : Report)
    → opts.dry_run ≡ true
    → run_command env opts file (load_state file) cmd args ≡ done rep
    → (rep.file ≡ file) × (rep.nft_input ≡ none)
unfolding run_command
dry_run-run_command env opts file cmd args rep d h = elim (Option-cases (load_state file)) [
  | inl e ↦ ground arith
  | inr (st, e) ↦
      let v = load_state-IsValid file e in
      serve_dry env opts file st v (dispatch st cmd args) rep (dispatch-Keeps st cmd args v) d
        (rw (e, run_command) at h)
]

-- A run that exits with 2 has refused its arguments: the state file is as it was, and nft is not run.
pub refused-run_command :
    (env : Env) (opts : Options) (file : StateFile) (cmd : Text) (args : List Text) (rep : Report)
    → run_command env opts file (load_state file) cmd args ≡ done rep
    → rep.code ≡ 2
    → (rep.file ≡ file) × (rep.nft_input ≡ none)
unfolding run_command
refused-run_command env opts file cmd args rep h c = elim (Option-cases (load_state file)) [
  | inl e ↦ ground arith
  | inr (st, e) ↦
      let v = load_state-IsValid file e in
      serve_refused env opts file st v (dispatch st cmd args) rep (dispatch-Keeps st cmd args v)
        (rw (e, run_command) at h) c
]

-- A command that changes the state and exits with 0, outside a dry run, where no call of fprintf fails:
-- the state file then loads as the new state, and nft got a front part of the ruleset of that state.
pub stored-run_command :
    (env : Env) (opts : Options) (file : StateFile) (st st' : State) (cmd : Text) (args : List Text)
    (rep : Report)
    → AllPrinted env.save
    → opts.dry_run ≡ false
    → load_state file ≡ some st
    → dispatch st cmd args ≡ store st'
    → run_command env opts file (load_state file) cmd args ≡ done rep
    → rep.code ≡ 0
    → (load_state rep.file ≡ some st')
      × ((sent : Text) × (rest : Text) × (rep.nft_input ≡ some sent)
          × (ruleset_of st' ≡ sent ++ rest))
unfolding run_command
stored-run_command env opts file st st' cmd args rep p d l q h c =
    let v = load_state-IsValid file l in
    let k : IsValid st' = rw q at (dispatch-Keeps st cmd args v) in
    serve_stored env opts file st v st' rep k p d (rw q at (rw (l, run_command) at h)) c

-- No run writes through a null pointer, whatever the state file holds and whatever is asked.
pub run_command-ne-fault :
    (env : Env) (opts : Options) (file : StateFile) (cmd : Text) (args : List Text)
    → run_command env opts file (load_state file) cmd args ≢ fault
unfolding run_command
run_command-ne-fault env opts file cmd args h = elim (Option-cases (load_state file)) [
  | inl e ↦ ground arith
  | inr (st, e) ↦
      let v = load_state-IsValid file e in
      serve-ne-fault env opts file st v (dispatch st cmd args) (dispatch-Keeps st cmd args v)
        (rw (e, run_command) at h)
]
