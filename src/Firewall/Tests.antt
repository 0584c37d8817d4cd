-- ===== src/Firewall/Tests.antt =====
-- The firewall helper on concrete states, and its theorems applied to them.
use singularity_shell.Base.{
  ℕ, ◌≡◌, refl, ◌≢◌, true, false, none, some, List, [], ◌∷◌, ◌++◌, arith, if◌then◌else◌,
}
use singularity_shell.CString.{Text, codes, str_eq}
use singularity_shell.Process.{done, fault, wrote, interrupted, failed, Written}
use singularity_shell.Firewall.State.{
  Rule, State, missing, holds, empty_state, state_text, load_state, make_rule,
}
use singularity_shell.Firewall.Validate.{valid_id, valid_ports, valid_label}
use singularity_shell.Firewall.Valid.{IsValidRule, IsValid, load_state-IsValid}
use singularity_shell.Firewall.RoundTrip.{load_state-state_text}
use singularity_shell.Firewall.Ruleset.{build_ruleset}
use singularity_shell.Firewall.Ruleset.Exact.{ruleset_of, open_rules, build_ruleset-ruleset_of}
use singularity_shell.Firewall.Command.{
  Options, Env, store, allow, revoke, dispatch, send, Report, run_command,
}
use singularity_shell.Firewall.Command.Preserve.{Keeps, dispatch-Keeps}
use singularity_shell.Firewall.Command.Lookup.{rule_of, allow-rule_of, revoke-rule_of}
use singularity_shell.Firewall.Command.Send.{send_all}
use singularity_shell.Firewall.Command.Run.{stored-run_command, run_command-ne-fault}

abbrev ssh : Rule
ssh = record {
  id = codes "ssh";
  public_too = true;
  ports = codes "22/tcp";
  label = codes "Remote login";
}

abbrev media : Rule
media = record {
  id = codes "media";
  public_too = false;
  ports = codes "8000-8010/tcp,1900/udp";
  label = codes "Media";
}

abbrev two_rules : State
two_rules = record { enabled = true; public_profile = false; rules = ssh ∷ media ∷ [] }

abbrev one_rule : State
one_rule = record { enabled = true; public_profile = false; rules = ssh ∷ [] }

ssh-IsValidRule : IsValidRule ssh
unfolding valid_id valid_ports valid_label singularity_shell.CString.items
    singularity_shell.CString.split_at singularity_shell.CString.starts_with
ssh-IsValidRule = record { id_ok = refl; ports_ok = refl; label_ok = refl }

media-IsValidRule : IsValidRule media
unfolding valid_id valid_ports valid_label singularity_shell.CString.items
    singularity_shell.CString.split_at singularity_shell.CString.starts_with
media-IsValidRule = record { id_ok = refl; ports_ok = refl; label_ok = refl }

two_rules-IsValid : IsValid two_rules
two_rules-IsValid = record {
  rules_ok = (ssh-IsValidRule, (media-IsValidRule, tt));
  count_ok = omega arith;
}

one_rule-IsValid : IsValid one_rule
one_rule-IsValid = record { rules_ok = (ssh-IsValidRule, tt); count_ok = omega arith }

load_state-state_text_example : load_state (holds (state_text two_rules)) ≡ some two_rules
load_state-state_text_example = load_state-state_text two_rules two_rules-IsValid

load_missing : load_state missing ≡ some empty_state
unfolding load_state
load_missing = refl

loads_two_rules : load_state (holds (state_text two_rules)) ≡ some two_rules
loads_two_rules = load_state-state_text two_rules two_rules-IsValid

load_state-IsValid_example : IsValid two_rules
load_state-IsValid_example =
    load_state-IsValid (holds (state_text two_rules)) {st = two_rules} loads_two_rules

dispatch-Keeps_example : Keeps (dispatch two_rules (codes "revoke") (codes "ssh" ∷ []))
dispatch-Keeps_example =
    dispatch-Keeps two_rules (codes "revoke") (codes "ssh" ∷ []) two_rules-IsValid

allow_media :
    allow one_rule (codes "media") (codes "0") (codes "8000-8010/tcp,1900/udp") (codes "Media")
    ≡ store two_rules
unfolding allow valid_id str_eq valid_ports singularity_shell.CString.items
    singularity_shell.CString.split_at singularity_shell.CString.starts_with valid_label make_rule
allow_media = refl

revoke_media : revoke two_rules (codes "media") ≡ store one_rule
unfolding revoke valid_id str_eq
revoke_media = refl

allow-rule_of_example :
    (true ≡ true)
    × (false ≡ false)
    × ((j : Text)
        → rule_of j two_rules.rules
          ≡ (if str_eq (codes "media") j then some media else rule_of j one_rule.rules))
unfolding str_eq
allow-rule_of_example =
    allow-rule_of one_rule (codes "media") (codes "0") (codes "8000-8010/tcp,1900/udp")
      (codes "Media") two_rules allow_media

revoke-rule_of_example :
    (true ≡ true)
    × (false ≡ false)
    × ((j : Text)
        → rule_of j one_rule.rules
          ≡ (if str_eq (codes "media") j then none else rule_of j two_rules.rules))
revoke-rule_of_example = revoke-rule_of two_rules (codes "media") one_rule revoke_media

build_ruleset-ruleset_of_example : build_ruleset two_rules ≡ some (ruleset_of two_rules)
build_ruleset-ruleset_of_example = build_ruleset-ruleset_of two_rules two_rules-IsValid

abbrev short_answers : List Written
short_answers = wrote 2 ∷ interrupted ∷ wrote 3 ∷ []

two-ne-zero : ◌≢◌ {A = ℕ} 2 0
two-ne-zero h = omega arith

three-ne-zero : ◌≢◌ {A = ℕ} 3 0
three-ne-zero h = omega arith

send_all_example : send short_answers (codes "table") ≡ done (codes "table")
send_all_example =
    send_all short_answers (codes "table") (two-ne-zero, (three-ne-zero, tt)) (omega arith)

send_broken : send (wrote 3 ∷ failed ∷ []) (codes "table") ≡ done (codes "tab")
unfolding send
send_broken = refl

abbrev defaults : Options
defaults = record {
  dry_run = false;
  state_file = codes "/var/lib/singularity/firewall.conf";
  nft_path = none;
}

abbrev dry : Options
dry = record defaults { dry_run = true }

abbrev system : Env
system = record {
  overrides_allowed = false;
  files = λ path. missing;
  save = record {
    open_tmp = true;
    fdopen_tmp = true;
    fprintfs = λ i. none;
    close_tmp = true;
    flushed = 0;
    rename_tmp = true;
  };
  executable = λ path. true;
  pipe_opens = true;
  forks = true;
  writes = wrote 4096 ∷ [];
  nft_succeeds = true;
}

abbrev enabled_state : State
enabled_state = record empty_state { enabled = true }

abbrev enabled_report : Report
enabled_report = record {
  code = 0;
  printed = [];
  file = holds (state_text enabled_state);
  nft_input = some (ruleset_of enabled_state);
}

enable_runs :
    run_command system defaults missing (load_state missing) (codes "enable") []
    ≡ done enabled_report
unfolding run_command load_state singularity_shell.Firewall.Command.serve dispatch str_eq
    singularity_shell.Firewall.Command.store_and_apply singularity_shell.Firewall.State.save_state
    singularity_shell.Firewall.Command.apply build_ruleset
    singularity_shell.Firewall.Ruleset.close_chain singularity_shell.Firewall.Ruleset.all_rule_lines
    singularity_shell.Firewall.Command.load_ruleset singularity_shell.Firewall.Command.find_nft send
    ruleset_of open_rules state_text singularity_shell.Firewall.State.stream_file
    singularity_shell.Firewall.State.print_all singularity_shell.Firewall.State.prints
    singularity_shell.Firewall.State.print_some singularity_shell.Firewall.State.flag
    singularity_shell.Firewall.State.profile_name singularity_shell.Firewall.State.rules_text
enable_runs = refl

enable_asks : dispatch empty_state (codes "enable") [] ≡ store enabled_state
unfolding dispatch str_eq
enable_asks = refl

stored-run_command_example :
    (load_state (holds (state_text enabled_state)) ≡ some enabled_state)
    × ((sent : Text) × (rest : Text) × (some (ruleset_of enabled_state) ≡ some sent)
        × (ruleset_of enabled_state ≡ sent ++ rest))
stored-run_command_example =
    stored-run_command system defaults missing empty_state enabled_state (codes "enable") []
      enabled_report (λ i. refl) refl load_missing enable_asks enable_runs refl

abbrev dry_report : Report
dry_report = record { code = 0; printed = ruleset_of empty_state; file = missing; nft_input = none }

dry_runs : run_command system dry missing (load_state missing) (codes "apply") [] ≡ done dry_report
unfolding run_command load_state singularity_shell.Firewall.Command.serve dispatch str_eq
    singularity_shell.Firewall.Command.apply build_ruleset
    singularity_shell.Firewall.Command.load_ruleset ruleset_of
dry_runs = refl

abbrev refused_report : Report
refused_report = record { code = 2; printed = []; file = missing; nft_input = none }

unknown_runs :
    run_command system defaults missing (load_state missing) (codes "open") [] ≡ done refused_report
unfolding run_command load_state singularity_shell.Firewall.Command.serve dispatch str_eq
unknown_runs = refl

run_command-ne-fault_example :
    run_command system defaults
      (holds (state_text two_rules))
      (load_state (holds (state_text two_rules)))
      (codes "apply")
      []
    ≢ fault
run_command-ne-fault_example =
    run_command-ne-fault system defaults (holds (state_text two_rules)) (codes "apply") []
