-- ===== src/Firewall/Command.antt =====
-- src/services/firewall-helper/main.c: the option loop, the commands of `main`, `find_nft` and `apply`.
pub mod Preserve
pub mod Lookup
pub mod Send
pub mod Run
use singularity_shell.Base.{
  ℕ, ◌==◌, suc, Bool, true, false, not, ◌||◌, Option, none, some, List, [], ◌∷◌, ◌++◌, leb,
  if◌then◌else◌, length, take, drop, set,
}
use singularity_shell.CString.{Text, codes, str_eq, starts_with}
use singularity_shell.Process.{
  Written, wrote, interrupted, failed, Outcome, done, waiting, ◌>>=◌, from_option,
}
use singularity_shell.Firewall.Validate.{valid_id, valid_label, valid_ports}
use singularity_shell.Firewall.State.{
  Rule, State, StateFile, SaveEnv, max_rules, make_rule, load_state, save_state, state_text,
}
use singularity_shell.Firewall.Ruleset.{build_ruleset}

-- The globals `dry_run`, `state_file` and `nft_path`.
pub record Options : Type 0 where
  pub dry_run : Bool
  pub state_file : Text
  pub nft_path : Option Text

-- What the system answers: `files` is what fopen finds at a path, `writes` the answers of write on
-- the pipe, `nft_succeeds` that nft exits with status 0.
pub record Env : Type 0 where
  pub overrides_allowed : Bool
  pub files : Text → StateFile
  pub save : SaveEnv
  pub executable : Text → Bool
  pub pipe_opens : Bool
  pub forks : Bool
  pub writes : List Written
  pub nft_succeeds : Bool

-- The loop over the options; `none` is one of its returns of 2.
unfoldable mutual
  pub parse_options : Bool → Options → List Text → Option (Options × List Text)
  parse_options allowed opts [] = some (opts, [])
  parse_options allowed opts (a ∷ args) = elim (starts_with (codes "--") a) [
    | false ↦ some (opts, a ∷ args)
    | true ↦ elim allowed [
      | false ↦ none
      | true ↦ elim (str_eq a (codes "--dry-run")) [
        | true ↦ parse_options true (record opts { dry_run = true }) args
        | false ↦ option_value true opts a args
      ]
    ]
  ]

  pub option_value : Bool → Options → Text → List Text → Option (Options × List Text)
  option_value allowed opts a [] = none
  option_value allowed opts a (value ∷ args) = elim (str_eq a (codes "--state")) [
    | true ↦ parse_options allowed (record opts { state_file = value }) args
    | false ↦ elim (str_eq a (codes "--nft")) [
      | true ↦ parse_options allowed (record opts { nft_path = some value }) args
      | false ↦ none
    ]
  ]

-- What a command asks for: to print the state, to load the ruleset, to store a new state, or to
-- return a code with a message.
pub data Request : Type 0 where
  show load : Request
  store : State → Request
  refuse : ℕ → Request

-- The slot of the last rule with this id, as the loop of `allow` leaves it.
unfoldable pub find_slot : Text → ℕ → Option ℕ → List Rule → Option ℕ
find_slot id i slot [] = slot
find_slot id i slot (r ∷ rs) = find_slot id (suc i) (if str_eq r.id id then some i else slot) rs

unfoldable pub write_slot : State → Rule → Option ℕ → Request
write_slot st r (some slot) = store (record st { rules = set st.rules slot r })
write_slot st r none =
    if leb max_rules (length st.rules)
    then refuse 1
    else store (record st { rules = st.rules ++ r ∷ [] })

unfoldable pub allow : State → Text → Text → Text → Text → Request
unfolding find_slot write_slot
allow st id pub' ports label =
    if not (valid_id id)
      || not (str_eq pub' (codes "0") || str_eq pub' (codes "1"))
      || not (valid_ports ports)
      || not (valid_label label)
    then refuse 2
    else write_slot st (make_rule id pub' ports label) (find_slot id 0 none st.rules)

-- The loop of `revoke`, which moves the rules that stay to the front.
unfoldable pub remove_id : Text → List Rule → List Rule
remove_id id [] = []
remove_id id (r ∷ rs) = if not (str_eq r.id id) then r ∷ remove_id id rs else remove_id id rs

unfoldable pub revoke : State → Text → Request
unfolding remove_id
revoke st id = if valid_id id then store (record st { rules = remove_id id st.rules }) else refuse 2

unfoldable pub set_profile : State → Text → Request
set_profile st name =
    if str_eq name (codes "home") || str_eq name (codes "public")
    then store (record st { public_profile = str_eq name (codes "public") })
    else refuse 2

-- The ladder of commands, by the number of arguments behind the command; 2 is `usage ()`.
unfoldable pub dispatch : State → Text → List Text → Request
unfolding allow revoke set_profile
dispatch st cmd [] =
    if str_eq cmd (codes "status")
    then show
    else if str_eq cmd (codes "apply")
    then load
    else if str_eq cmd (codes "enable")
    then store (record st { enabled = true })
    else if str_eq cmd (codes "disable")
    then store (record st { enabled = false })
    else refuse 2
dispatch st cmd (a ∷ []) =
    if str_eq cmd (codes "profile")
    then set_profile st a
    else if str_eq cmd (codes "revoke")
    then revoke st a
    else refuse 2
dispatch st cmd (a ∷ b ∷ c ∷ d ∷ []) =
    if str_eq cmd (codes "allow") then allow st a b c d else refuse 2
dispatch st cmd _ = refuse 2

unfoldable pub find_nft : Env → Options → Option Text
find_nft env opts = elim opts.nft_path [
  | some path ↦ some path
  | none ↦
      if env.executable (codes "/usr/sbin/nft")
      then some (codes "/usr/sbin/nft")
      else if env.executable (codes "/sbin/nft")
      then some (codes "/sbin/nft")
      else if env.executable (codes "/usr/bin/nft")
      then some (codes "/usr/bin/nft")
      else none
]

-- The write loop of `apply`: what reaches nft of the text that is left.
unfoldable pub send : List Written → Text → Outcome Text
send answers [] = done []
send [] (c ∷ left) = waiting
send (interrupted ∷ answers) (c ∷ left) = send answers (c ∷ left)
send (failed ∷ answers) (c ∷ left) = done []
send (wrote n ∷ answers) (c ∷ left) =
    let rest = send answers (drop n (c ∷ left)) in
    if n == 0 then done [] else rest >>= λ sent. done (take n (c ∷ left) ++ sent)

-- What a run leaves: its exit code, what it printed, the state file, and nft's input.
pub record Report : Type 0 where
  pub code : ℕ
  pub printed : Text
  pub file : StateFile
  pub nft_input : Option Text

abbrev pub exits : ℕ → StateFile → Report
exits code file = record { code = code; printed = []; file = file; nft_input = none }

unfoldable pub load_ruleset : Env → Options → StateFile → Text → Outcome Report
load_ruleset env opts file input =
    if opts.dry_run
    then done (record (exits 0 file) { printed = input })
    else elim (find_nft env opts) [
      | none ↦ done (exits 3 file)
      | some nft ↦
          if not env.pipe_opens || not env.forks
          then done (exits 1 file)
          else send env.writes input >>= λ sent.
              done
                (record (exits (if env.nft_succeeds then 0 else 4) file) { nft_input = some sent })
    ]

unfoldable pub apply : Env → Options → StateFile → State → Outcome Report
apply env opts file st = from_option (build_ruleset st) >>= load_ruleset env opts file

-- `!dry_run && save_state (&st) != 0`, then `apply`.
unfoldable pub store_and_apply : Env → Options → StateFile → State → Outcome Report
store_and_apply env opts file st =
    if opts.dry_run
    then apply env opts file st
    else let (saved, file') = save_state env.save st file in
      if saved then apply env opts file' st else done (exits 1 file')

unfoldable pub serve : Env → Options → StateFile → State → Request → Outcome Report
serve env opts file st show = done (record (exits 0 file) { printed = state_text st })
serve env opts file st load = apply env opts file st
serve env opts file st (store st') = store_and_apply env opts file st'
serve env opts file st (refuse code) = done (exits code file)

unfoldable pub run_command :
    Env → Options → StateFile → Option State → Text → List Text → Outcome Report
run_command env opts file none cmd args = done (exits 1 file)
run_command env opts file (some st) cmd args = serve env opts file st (dispatch st cmd args)

unfoldable pub run_options : Env → Option (Options × List Text) → StateFile → Outcome Report
unfolding run_command
run_options env none default_file = done (exits 2 default_file)
run_options env (some (opts, [])) default_file = done (exits 2 (env.files opts.state_file))
run_options env (some (opts, cmd ∷ args)) default_file =
    let file = env.files opts.state_file in run_command env opts file (load_state file) cmd args

-- `main`, on the arguments behind the program's name.
unfoldable pub main : Env → Options → List Text → Outcome Report
unfolding run_options parse_options
main env defaults args =
    run_options env (parse_options env.overrides_allowed defaults args)
      (env.files defaults.state_file)
