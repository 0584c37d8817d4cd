-- ===== src/Firewall/RoundTrip.antt =====
-- `load_state` reads back what `save_state` writes.
use singularity_shell.Base.{
  ℕ, ◌+◌, ◌≤◌, ◌<◌, ◌≡◌, refl, ap, ◌∙◌, ◌≢◌, Bool, true, false, not, some, List, [], ◌∷◌, ◌++◌,
  append-nil, append_assoc, arith, ◌==◌, length, all, All, all-append, length-append,
}
use singularity_shell.CString.{Text, codes, str_eq, starts_with, strtok, fgets_lines}
use singularity_shell.CString.Split.{lacks, strtok-append, before-append, before-lacks}
use singularity_shell.CString.Lines.{fgets_lines-append}
use singularity_shell.Firewall.Validate.{valid_id, valid_ports}
use singularity_shell.Firewall.State.{
  Rule, State, holds, max_rules, check_rule, parse_rule, add_rule, load_line, load_lines, line_of,
  load_state, empty_state, flag, rule_text, rules_text, profile_name, state_text,
}
use singularity_shell.Firewall.Plain.{
  plain, all-plain-lacks, plain-valid_id, plain-valid_ports, label_lacks,
}
use singularity_shell.Firewall.Valid.{
  IsValidRule, IsValid, make_rule_lem, length-valid_id, length-valid_ports, length-valid_label,
}

strtok-word : (s t : Text) → all plain s ≡ true → s ≢ [] → strtok b' ' (s ++ b' ' ∷ t) ≡ some (s, t)
strtok-word [] t g ne = absurd (ne refl)
strtok-word (x ∷ s) t g ne = strtok-append b' ' x s t (all-plain-lacks b' ' (x ∷ s) (omega arith) g)

id-ne-nil : (s : Text) → valid_id s ≡ true → s ≢ []
unfolding valid_id
id-ne-nil s h = ground arith

ports-ne-nil : (s : Text) → valid_ports s ≡ true → s ≢ []
unfolding valid_ports
ports-ne-nil s h = ground arith

rule_body : Rule → Text
rule_body r = r.id ++ (b' ' ∷ (flag r.public_too ++ (b' ' ∷ (r.ports ++ (b' ' ∷ r.label)))))

flag-plain :
    (b : Bool)
    → (all plain (flag b) ≡ true)
      × (flag b ≢ [])
      × (length (flag b) ≡ 1)
      × (str_eq (flag b) (codes "1") ≡ b)
unfolding flag str_eq
flag-plain true = ground arith
flag-plain false = ground arith

parse_rule-rule_body : (r : Rule) → IsValidRule r → parse_rule (rule_body r) ≡ some r
unfolding parse_rule rule_body check_rule
parse_rule-rule_body r v =
    let (g, ne, l, e) = flag-plain r.public_too in
    ground (
      arith,
      strtok-word r.id (flag r.public_too ++ (b' ' ∷ (r.ports ++ (b' ' ∷ r.label))))
          (plain-valid_id r.id v.id_ok) (id-ne-nil r.id v.id_ok),
      strtok-word (flag r.public_too) (r.ports ++ (b' ' ∷ r.label)) g ne,
      strtok-word r.ports r.label (plain-valid_ports r.ports v.ports_ok)
          (ports-ne-nil r.ports v.ports_ok),
      make_rule_lem r.id (flag r.public_too) r.ports r.label,
      e,
    )

rule_line : Rule → Text
unfolding rule_body
rule_line r = codes "rule " ++ rule_body r

rule_text-append : (r : Rule) (rest : Text) → rule_text r ++ rest ≡ rule_line r ++ b'\n' ∷ rest
unfolding rule_text rule_line
rule_text-append r rest = simp append_assoc

lacks-rule_line : (c : ℕ) (r : Rule) → c < 0x20 → IsValidRule r → lacks c (rule_line r) ≡ true
unfolding rule_line
lacks-rule_line c r k v =
    let n = λ (x : ℕ). not (x == c) in
    ground (
      arith,
      all-plain-lacks c r.id (omega arith) (plain-valid_id r.id v.id_ok),
      all-plain-lacks c (flag r.public_too) (omega arith) (flag-plain r.public_too).0,
      all-plain-lacks c r.ports (omega arith) (plain-valid_ports r.ports v.ports_ok),
      label_lacks c r.label k v.label_ok,
      all-append n r.id (b' ' ∷ (flag r.public_too ++ (b' ' ∷ (r.ports ++ (b' ' ∷ r.label))))),
      all-append n (flag r.public_too) (b' ' ∷ (r.ports ++ (b' ' ∷ r.label))),
      all-append n r.ports (b' ' ∷ r.label),
    )

length-rule_line : (r : Rule) → IsValidRule r → length (rule_line r) < 511
unfolding rule_line
length-rule_line r v = omega (
  arith,
  length-append r.id (b' ' ∷ (flag r.public_too ++ (b' ' ∷ (r.ports ++ (b' ' ∷ r.label))))),
  length-append (flag r.public_too) (b' ' ∷ (r.ports ++ (b' ' ∷ r.label))),
  length-append r.ports (b' ' ∷ r.label),
  (flag-plain r.public_too).2,
  length-valid_id r.id v.id_ok,
  length-valid_ports r.ports v.ports_ok,
  length-valid_label r.label v.label_ok,
)

line_of-append :
    (s : Text) → lacks 0 s ≡ true → lacks b'\n' s ≡ true → line_of (s ++ b'\n' ∷ []) ≡ s
unfolding line_of
line_of-append s z n = ground (
  arith,
  before-lacks 0 (s ++ b'\n' ∷ []),
  all-append (λ x. not (x == 0)) s (b'\n' ∷ []),
  before-append b'\n' s [],
)

load_line-rule_line :
    (st : State) (r : Rule)
    → IsValidRule r
    → length st.rules < max_rules
    → load_line st (rule_line r) ≡ record st { rules = st.rules ++ r ∷ [] }
unfolding load_line rule_line add_rule starts_with
load_line-rule_line st r v h = ground (arith, parse_rule-rule_body r v)

-- A whole line that fits the buffer is one round of the loop of `load_state`.
load_lines-line :
    (st : State) (s t : Text)
    → lacks 0 s ≡ true
    → lacks b'\n' s ≡ true
    → length s < 511
    → load_lines st (fgets_lines 512 (s ++ b'\n' ∷ t))
      ≡ load_lines (load_line st s) (fgets_lines 512 t)
unfolding load_lines
load_lines-line st s t z n k =
    ground (arith, fgets_lines-append 512 s t n (omega arith), line_of-append s z n)

load_lines-rules_text :
    (st : State) (rs : List Rule)
    → All IsValidRule rs
    → length st.rules + length rs ≤ max_rules
    → load_lines st (fgets_lines 512 (rules_text rs)) ≡ record st { rules = st.rules ++ rs }
unfolding rules_text
load_lines-rules_text st [] v h = rw append-nil (unfold load_lines fgets_lines in refl)
load_lines-rules_text st (r ∷ rs) v h =
    let st' : State = record st { rules = st.rules ++ r ∷ [] } in
    ground (
      arith,
      rule_text-append r (rules_text rs),
      load_lines-line st (rule_line r) (rules_text rs) (lacks-rule_line 0 r (omega arith) v.0)
          (lacks-rule_line b'\n' r (omega arith) v.0) (length-rule_line r v.0),
      load_line-rule_line st r v.0 (omega arith),
      load_lines-rules_text st' rs v.1 (omega (arith, length-append st.rules (r ∷ []))),
      append_assoc st.rules (r ∷ []) rs,
    )

load_line_enabled :
    (st : State) (b : Bool) (t : Text)
    → load_lines st (fgets_lines 512 (codes "enabled " ++ (flag b ++ b'\n' ∷ t)))
      ≡ load_lines (record st { enabled = b }) (fgets_lines 512 t)
unfolding flag
load_line_enabled st true t =
    load_lines-line st (codes "enabled 1") t refl refl (omega arith)
    ∙ (unfold load_line starts_with str_eq in refl)
load_line_enabled st false t =
    load_lines-line st (codes "enabled 0") t refl refl (omega arith)
    ∙ (unfold load_line starts_with str_eq in refl)

load_line_profile :
    (st : State) (b : Bool) (t : Text)
    → load_lines st (fgets_lines 512 (codes "profile " ++ (profile_name b ++ b'\n' ∷ t)))
      ≡ load_lines (record st { public_profile = b }) (fgets_lines 512 t)
unfolding profile_name
load_line_profile st true t =
    load_lines-line st (codes "profile public") t refl refl (omega arith)
    ∙ (unfold load_line starts_with str_eq in refl)
load_line_profile st false t =
    load_lines-line st (codes "profile home") t refl refl (omega arith)
    ∙ (unfold load_line starts_with str_eq in refl)

-- A valid state that was saved is read back as it was: the two switches, and every rule with its
-- id, flag, ports and label, in order.
pub load_state-state_text : (st : State) → IsValid st → load_state (holds (state_text st)) ≡ some st
unfolding load_state state_text
load_state-state_text st v = ap some (
    load_line_enabled empty_state st.enabled _
    ∙ load_line_profile _ st.public_profile (rules_text st.rules)
    ∙ load_lines-rules_text (record st { rules = [] }) st.rules v.rules_ok
        (omega (arith, v.count_ok)))
