-- ===== src/Firewall/State.antt =====
-- src/services/firewall-helper/main.c: `struct rule`, `struct state`, and the text that `save_state`
-- writes and `load_state` reads.
use singularity_shell.Base.{
  take, suc, map, ℕ, Bool, true, false, not, ◌&&◌, ◌||◌, Option, none, some, List, [], ◌∷◌, ◌++◌,
  ltb, if◌then◌else◌, length, drop,
}
use singularity_shell.CString.{
  Text, codes, str_eq, starts_with, before, strtok, fgets_lines, copy_into,
}
use singularity_shell.Firewall.Validate.{valid_id, valid_label, valid_ports}

abbrev pub max_rules : ℕ
max_rules = 64

pub record Rule : Type 0 where
  pub id : Text
  pub public_too : Bool
  pub ports : Text
  pub label : Text

-- `count` is the length of `rules`.
pub record State : Type 0 where
  pub enabled : Bool
  pub public_profile : Bool
  pub rules : List Rule

-- memset (st, 0, sizeof (*st))
abbrev pub empty_state : State
empty_state = record { enabled = false; public_profile = false; rules = [] }

-- The `snprintf` calls that fill a rule's buffers, of 33, 256 and 65 bytes.
unfoldable pub make_rule : Text → Text → Text → Text → Rule
unfolding copy_into
make_rule id pub' ports label = record {
  id = copy_into 33 id;
  public_too = str_eq pub' (codes "1");
  ports = copy_into 256 ports;
  label = copy_into 65 label;
}

-- A line `rule ID PUBLIC PORTS LABEL` after its keyword; `none` is `continue`. The three tokens come
-- by strtok_r, and the label is what the last call leaves in `save`.
unfoldable pub check_rule : Text → Text → Text → Text → Option Rule
check_rule id pub' ports label =
    if not (valid_id id) || not (valid_ports ports) || not (valid_label label)
    then none
    else some (make_rule id pub' ports label)

unfoldable pub ports_token : Text → Text → Option (Text × Text) → Option Rule
unfolding check_rule
ports_token id pub' none = none
ports_token id pub' (some (ports, label)) = check_rule id pub' ports label

unfoldable pub public_token : Text → Option (Text × Text) → Option Rule
unfolding ports_token
public_token id none = none
public_token id (some (pub', save)) = ports_token id pub' (strtok b' ' save)

unfoldable pub id_token : Option (Text × Text) → Option Rule
unfolding public_token
id_token none = none
id_token (some (id, save)) = public_token id (strtok b' ' save)

unfoldable pub parse_rule : Text → Option Rule
unfolding id_token
parse_rule line = id_token (strtok b' ' line)

unfoldable pub add_rule : State → Option Rule → State
add_rule st none = st
add_rule st (some r) = record st { rules = st.rules ++ r ∷ [] }

-- One round of the loop of `load_state`, on the line without its newline.
unfoldable pub load_line : State → Text → State
load_line st line =
    if starts_with (codes "enabled ") line
    then record st { enabled = str_eq (drop 8 line) (codes "1") }
    else if starts_with (codes "profile ") line
    then record st { public_profile = str_eq (drop 8 line) (codes "public") }
    else if starts_with (codes "rule ") line && ltb (length st.rules) max_rules
    then add_rule st (parse_rule (drop 5 line))
    else st

-- The string in the buffer that fgets filled, up to its newline.
unfoldable pub line_of : Text → Text
line_of buffer = before b'\n' (before 0 buffer)

unfoldable pub load_lines : State → List Text → State
load_lines st [] = st
load_lines st (buffer ∷ rest) = load_lines (load_line st (line_of buffer)) rest

-- What fopen (state_file) finds: no file (ENOENT), another error, or the bytes of the file.
pub data StateFile : Type 0 where
  missing unreadable : StateFile
  holds : Text → StateFile

unfoldable pub load_state : StateFile → Option State
load_state missing = some empty_state
load_state unreadable = none
load_state (holds file) = some (load_lines empty_state (fgets_lines 512 file))

-- "%d" of a value that is 0 or 1
unfoldable pub flag : Bool → Text
flag true = codes "1"
flag false = codes "0"

unfoldable pub rule_text : Rule → Text
unfolding flag
rule_text r =
    codes "rule "
    ++ (r.id
        ++ (b' ' ∷ (flag r.public_too ++ (b' ' ∷ (r.ports ++ (b' ' ∷ (r.label ++ b'\n' ∷ [])))))))

unfoldable pub rules_text : List Rule → Text
rules_text [] = []
rules_text (r ∷ rs) = rule_text r ++ rules_text rs

unfoldable pub profile_name : Bool → Text
profile_name public_profile = if public_profile then codes "public" else codes "home"

-- What `save_state` prints, and the command `status`.
unfoldable pub state_text : State → Text
state_text st =
    codes "enabled "
    ++ (flag st.enabled
        ++ (codes "\nprofile "
            ++ (profile_name st.public_profile ++ (codes "\n" ++ rules_text st.rules))))

-- The texts of the calls of fprintf in `save_state`, one by one.
unfoldable pub prints : State → List Text
prints st =
    (codes "enabled "
      ++ (flag st.enabled
          ++ (codes "\nprofile " ++ (profile_name st.public_profile ++ codes "\n"))))
    ∷ map rule_text st.rules

-- What the system calls of `save_state` answer: `fprintfs` is `none` for a call that puts its whole
-- text into the stream, or the bytes that a failing one still puts there; `close_tmp` is whether fclose
-- returns 0, `flushed` how many bytes of the stream reach the file where it does not.
pub record SaveEnv : Type 0 where
  pub open_tmp : Bool
  pub fdopen_tmp : Bool
  pub fprintfs : ℕ → Option ℕ
  pub close_tmp : Bool
  pub flushed : ℕ
  pub rename_tmp : Bool

unfoldable pub print_some : Option ℕ → Text → Text
print_some none text = text
print_some (some n) text = take n text

-- The stream, from the i-th call on; no result of fprintf is looked at.
unfoldable pub print_all : (ℕ → Option ℕ) → ℕ → List Text → Text
print_all fprintfs i [] = []
print_all fprintfs i (text ∷ texts) =
    print_some (fprintfs i) text ++ print_all fprintfs (suc i) texts

-- What the temporary file holds behind fclose.
unfoldable pub stream_file : SaveEnv → State → Text
stream_file env st =
    let printed = print_all env.fprintfs 0 (prints st) in
    if env.close_tmp then printed else take env.flushed printed

-- `true` is the return value 0. The state file changes by the rename alone.
unfoldable pub save_state : SaveEnv → State → StateFile → Bool × StateFile
save_state env st file =
    if not env.open_tmp || not env.fdopen_tmp || not env.close_tmp || not env.rename_tmp
    then (false, file)
    else (true, holds (stream_file env st))
