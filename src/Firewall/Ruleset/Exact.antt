-- ===== src/Firewall/Ruleset/Exact.antt =====
-- What `build_ruleset` writes for a valid state, with no buffer and no pointer in sight.
use singularity_shell.Base.{
  ◌+◌, ◌≤◌, ◌≡◌, refl, Bool, true, not, ◌&&◌, Option, none, some, List, [], ◌∷◌, ◌++◌, arith,
  if◌then◌else◌, length, all, All, length-append, take_of_length-le,
}
use singularity_shell.CString.{
  Text, codes, split_at, before, after, items, tokens, drop_empty, copy_into,
}
use singularity_shell.CString.Split.{Splits, split_at-Splits, split_at-before-after}
use singularity_shell.Firewall.Validate.{
  valid_ports, valid_port_item, valid_cut_item, valid_range, valid_number, is_some,
}
use singularity_shell.Firewall.State.{Rule, State}
use singularity_shell.Firewall.Plain.{valid_protocol_cases}
use singularity_shell.Firewall.Ruleset.{
  accept_line, item_line, append_line, item_lines, rule_lines, all_rule_lines, close_chain,
  build_ruleset, reset_text, chain_text, mdns_text, end_text,
}
use singularity_shell.Firewall.Valid.{IsValidRule, IsValid, length-valid_ports, length-valid_label}

-- The line that opens one item `PORT/PROTOCOL`.
unfoldable pub open_line : Text → Text → Text
open_line label item = accept_line (after b'/' item) (before b'/' item) label

unfoldable pub open_items : Text → List Text → Text
open_items label [] = []
open_items label (item ∷ rest) = open_line label item ++ open_items label rest

-- The lines of the rules that the profile lets through.
unfoldable pub open_rules : Bool → List Rule → Text
open_rules public_profile [] = []
open_rules public_profile (r ∷ rs) =
    (if public_profile && not r.public_too then [] else open_items r.label (items b',' r.ports))
    ++ open_rules public_profile rs

unfoldable pub ruleset_of : State → Text
ruleset_of st =
    if st.enabled
    then reset_text
      ++ (chain_text
          ++ ((if st.public_profile then [] else mdns_text)
              ++ (open_rules st.public_profile st.rules ++ end_text)))
    else reset_text

length-valid_number : (s : Text) → is_some (valid_number s) ≡ true → length s ≤ 5
unfolding valid_number is_some
length-valid_number s h = ground arith

length-valid_range :
    (port : Text) (cut : Option (Text × Text))
    → Splits b'-' port cut
    → valid_range port cut ≡ true
    → length port ≤ 11
unfolding valid_range
length-valid_range port none d h = ground (arith, length-valid_number port)
length-valid_range port (some (low, high)) d h =
    ground
      (arith, length-valid_number low, length-valid_number high, length-append low (b'-' ∷ high))

length-accept_line :
    (proto port label : Text)
    → length (accept_line proto port label) ≡ 28 + length proto + length port + length label
unfolding accept_line
length-accept_line proto port label = omega (
  arith,
  length-append proto
      (codes " dport " ++ (port ++ (codes " accept comment \"" ++ (label ++ codes "\"\n")))),
  length-append port (codes " accept comment \"" ++ (label ++ codes "\"\n")),
  length-append label (codes "\"\n"),
)

accept_line_fits :
    (proto port label : Text)
    → length label ≤ 64
    → valid_cut_item (some (port, proto)) ≡ true
    → length (accept_line proto port label) ≤ 511
unfolding valid_cut_item
accept_line_fits proto port label l h = ground (
  arith,
  length-valid_range port (split_at b'-' port) (split_at-Splits b'-' port),
  valid_protocol_cases proto,
  length-accept_line proto port label,
)

valid_items :
    (ports : Text) → valid_ports ports ≡ true → all valid_port_item (items b',' ports) ≡ true
unfolding valid_ports
valid_items ports h = ground arith

-- An item that passes the check has its slash, and its line fits the buffer of 512 bytes.
item_line-open_line :
    (label item : Text) (cut : Option (Text × Text))
    → length label ≤ 64
    → Splits b'/' item cut
    → valid_cut_item cut ≡ true
    → item_line label cut ≡ some (open_line label item)
unfolding item_line copy_into valid_cut_item open_line
item_line-open_line label item none l d h = cc
item_line-open_line label item (some (port, proto)) l d h =
    let (e, e') = split_at-before-after b'/' item port proto d.0 d.1 in
    rw (
      e,
      e',
      take_of_length-le 511 (accept_line proto port label) (accept_line_fits proto port label l h),
    )

item_lines-open_items :
    (label : Text) (ps : List Text)
    → length label ≤ 64
    → all valid_port_item ps ≡ true
    → item_lines label (drop_empty ps) ≡ some (open_items label ps)
unfolding item_lines open_items drop_empty append_line valid_port_item
item_lines-open_items label [] l h = refl
item_lines-open_items label ([] ∷ ps) l h = absurd (unfold split_at valid_cut_item in ground arith)
item_lines-open_items label ((x ∷ p) ∷ ps) l h = ground (
  arith,
  item_line-open_line label (x ∷ p) (split_at b'/' (x ∷ p)) l (split_at-Splits b'/' (x ∷ p)),
  item_lines-open_items label ps l,
)

rule_lines-open_rules :
    (public_profile : Bool) (rs : List Rule)
    → All IsValidRule rs
    → all_rule_lines public_profile rs ≡ some (open_rules public_profile rs)
unfolding all_rule_lines open_rules rule_lines append_line tokens copy_into
rule_lines-open_rules public_profile [] v = refl
rule_lines-open_rules public_profile (r ∷ rs) v = ground (
  arith,
  item_lines-open_items r.label (items b',' r.ports) (length-valid_label r.label v.0.label_ok)
      (valid_items r.ports v.0.ports_ok),
  take_of_length-le 255 r.ports (length-valid_ports r.ports v.0.ports_ok),
  rule_lines-open_rules public_profile rs v.1,
)

-- For a valid state the ruleset is built with no write through a null pointer and no line cut short:
-- it resets the table, and if the firewall is enabled it drops by default and opens, item by item,
-- the ports of the rules that hold under the profile.
pub build_ruleset-ruleset_of : (st : State) → IsValid st → build_ruleset st ≡ some (ruleset_of st)
unfolding build_ruleset close_chain ruleset_of
build_ruleset-ruleset_of st v =
    ground (arith, rule_lines-open_rules st.public_profile st.rules v.rules_ok)
