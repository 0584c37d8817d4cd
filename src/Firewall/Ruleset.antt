-- ===== src/Firewall/Ruleset.antt =====
-- src/services/firewall-helper/main.c: `build_ruleset`, the input for nft.
pub mod Exact
pub mod Lines
use singularity_shell.Base.{Bool, not, ◌&&◌, Option, none, some, List, [], ◌∷◌, ◌++◌, if◌then◌else◌}
use singularity_shell.CString.{Text, codes, split_at, tokens, copy_into}
use singularity_shell.Firewall.State.{Rule, State}

abbrev pub reset_text : Text
reset_text = codes "table inet singularity_firewall\ndelete table inet singularity_firewall\n"

abbrev pub chain_text : Text
chain_text =
    codes
      "table inet singularity_firewall {\n\tchain input {\n\t\ttype filter hook input priority filter; policy drop;\n\t\tct state established,related accept\n\t\tct state invalid drop\n\t\tiifname \"lo\" accept\n\t\tmeta l4proto { icmp, ipv6-icmp } accept\n\t\tudp dport 68 accept\n\t\tudp dport 546 accept\n"

abbrev pub mdns_text : Text
mdns_text = codes "\t\tudp dport 5353 accept comment \"mDNS\"\n"

abbrev pub end_text : Text
end_text = codes "\t}\n}\n"

-- The line for one item, before the buffer of 512 bytes cuts it.
unfoldable pub accept_line : Text → Text → Text → Text
accept_line proto port label =
    codes "\t\t"
    ++ (proto
        ++ (codes " dport " ++ (port ++ (codes " accept comment \"" ++ (label ++ codes "\"\n")))))

-- `none` is the write through `strchr (item, '/') == NULL`.
unfoldable pub item_line : Text → Option (Text × Text) → Option Text
item_line label none = none
item_line label (some (port, proto)) = some (copy_into 512 (accept_line proto port label))

unfoldable pub append_line : Option Text → Option Text → Option Text
append_line (some line) (some rest) = some (line ++ rest)
append_line _ _ = none

unfoldable pub item_lines : Text → List Text → Option Text
item_lines label [] = some []
item_lines label (item ∷ rest) =
    append_line (item_line label (split_at b'/' item)) (item_lines label rest)

-- One round of the loop over the rules.
unfoldable pub rule_lines : Bool → Rule → Option Text
rule_lines public_profile r =
    if public_profile && not r.public_too
    then some []
    else item_lines r.label (tokens b',' (copy_into 256 r.ports))

unfoldable pub all_rule_lines : Bool → List Rule → Option Text
all_rule_lines public_profile [] = some []
all_rule_lines public_profile (r ∷ rs) =
    append_line (rule_lines public_profile r) (all_rule_lines public_profile rs)

unfoldable pub close_chain : Bool → Option Text → Option Text
close_chain public_profile none = none
close_chain public_profile (some lines) = some (
    reset_text
    ++ (chain_text ++ ((if not public_profile then mdns_text else []) ++ (lines ++ end_text))))

unfoldable pub build_ruleset : State → Option Text
build_ruleset st =
    if not st.enabled
    then some reset_text
    else close_chain st.public_profile (all_rule_lines st.public_profile st.rules)
