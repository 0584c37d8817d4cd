-- ===== src/Firewall/Valid.antt =====
-- What a state in memory may hold: rules that pass the checks of the helper, at most 64 of them.
use singularity_shell.Base.{
  drop, ◌≤◌, ◌<◌, ◌≡◌, true, Option, none, some, List, [], ◌∷◌, arith, length, All, All-append,
  take_of_length-le, length-append,
}
use singularity_shell.CString.{fgets_lines, Text, codes, str_eq, strtok}
use singularity_shell.Firewall.Validate.{valid_id, valid_label, valid_ports}
use singularity_shell.Firewall.State.{
  empty_state, Rule, State, StateFile, missing, unreadable, holds, max_rules, make_rule, check_rule,
  ports_token, public_token, id_token, parse_rule, add_rule, load_line, load_lines, line_of,
  load_state,
}

pub record IsValidRule (r : Rule) : Type 0 where
  pub id_ok : valid_id r.id ≡ true
  pub ports_ok : valid_ports r.ports ≡ true
  pub label_ok : valid_label r.label ≡ true

pub record IsValid (st : State) : Type 0 where
  pub rules_ok : All IsValidRule st.rules
  pub count_ok : length st.rules ≤ max_rules

pub length-valid_id : (s : Text) → valid_id s ≡ true → length s ≤ 32
unfolding valid_id
length-valid_id s h = ground arith

pub length-valid_label : (s : Text) → valid_label s ≡ true → length s ≤ 64
unfolding valid_label
length-valid_label s h = ground arith

pub length-valid_ports : (s : Text) → valid_ports s ≡ true → length s ≤ 255
unfolding valid_ports
length-valid_ports s h = ground arith

-- The buffers of a rule are large enough for what the checks let through.
pub make_rule_lem :
    (id pub' ports label : Text)
    → valid_id id ≡ true
    → valid_ports ports ≡ true
    → valid_label label ≡ true
    → make_rule id pub' ports label
      ≡ record { id = id; public_too = str_eq pub' (codes "1"); ports = ports; label = label }
unfolding make_rule
make_rule_lem id pub' ports label i p l = cc (
  take_of_length-le 32 id (length-valid_id id i),
  take_of_length-le 255 ports (length-valid_ports ports p),
  take_of_length-le 64 label (length-valid_label label l),
)

pub make_rule-IsValidRule :
    (id pub' ports label : Text)
    → valid_id id ≡ true
    → valid_ports ports ≡ true
    → valid_label label ≡ true
    → IsValidRule (make_rule id pub' ports label)
make_rule-IsValidRule id pub' ports label i p l =
    ground (arith, make_rule_lem id pub' ports label i p l)

abbrev Good : Option Rule → Type 0
Good none = Unit
Good (some r) = IsValidRule r

check_rule-Good : (id pub' ports label : Text) → Good (check_rule id pub' ports label)
unfolding check_rule
check_rule-Good id pub' ports label = ground (arith, make_rule-IsValidRule id pub' ports label)

parse_rule-Good : (line : Text) → Good (parse_rule line)
unfolding parse_rule
parse_rule-Good line = from_id (strtok b' ' line)
  where
    from_ports : (id pub' : Text) (o : Option (Text × Text)) → Good (ports_token id pub' o)
    from_ports id pub' none = tt
    from_ports id pub' (some (ports, label)) = check_rule-Good id pub' ports label

    from_public : (id : Text) (o : Option (Text × Text)) → Good (public_token id o)
    from_public id none = tt
    from_public id (some (pub', save)) = from_ports id pub' (strtok b' ' save)

    from_id : (o : Option (Text × Text)) → Good (id_token o)
    from_id none = tt
    from_id (some (id, save)) = from_public id (strtok b' ' save)

add_rule-IsValid :
    (st : State) (o : Option Rule)
    → IsValid st
    → Good o
    → length st.rules < max_rules
    → IsValid (add_rule st o)
unfolding add_rule
add_rule-IsValid st none v g h = v
add_rule-IsValid st (some r) v g h = record {
  rules_ok = All-append IsValidRule st.rules (r ∷ []) v.rules_ok (g, tt);
  count_ok = omega (arith, length-append st.rules (r ∷ []));
}

load_line-IsValid : (st : State) (line : Text) → IsValid st → IsValid (load_line st line)
unfolding load_line
load_line-IsValid st line v =
    ground (arith, add_rule-IsValid st (parse_rule (drop 5 line)) v (parse_rule-Good (drop 5 line)))

load_lines-IsValid : (st : State) (lines : List Text) → IsValid st → IsValid (load_lines st lines)
unfolding load_lines
load_lines-IsValid st [] v = v
load_lines-IsValid st (l ∷ lines) v =
    load_lines-IsValid (load_line st (line_of l)) lines (load_line-IsValid st (line_of l) v)

empty_state-IsValid : IsValid empty_state
empty_state-IsValid = record { rules_ok = tt; count_ok = omega arith }

-- Whatever the state file holds, what `load_state` makes of it is valid: no rule that fails a check,
-- and never more than 64 rules.
pub load_state-IsValid : (file : StateFile) {st : State} → load_state file ≡ some st → IsValid st
unfolding load_state
load_state-IsValid missing h = ground arith
load_state-IsValid unreadable h = cc
load_state-IsValid (holds text) h =
    ground (arith, load_lines-IsValid empty_state (fgets_lines 512 text) empty_state-IsValid)
