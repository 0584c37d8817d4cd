-- ===== src/Firewall/Command/Lookup.antt =====
-- The rules as a map from ids: what a lookup by id finds after `allow` and `revoke`.
use singularity_shell.Firewall.State.{make_rule}
use singularity_shell.Firewall.Valid.{make_rule_lem}
use singularity_shell.CString.Split.{str_eq_iff}
use singularity_shell.Base.{
  ℕ, suc, ◌+◌, ◌≡◌, refl, ap, ◌∙◌, inl, inr, Option, none, some, List, [], ◌∷◌, ◌++◌, arith,
  if◌then◌else◌, set, Option-cases,
}
use singularity_shell.Firewall.Command.{
  codes, str_eq, State, Rule, Text, store, find_slot, write_slot, allow, remove_id, revoke,
}

-- The last rule with the id, the one that `allow` replaces.
pub rule_of : Text → List Rule → Option Rule
rule_of id [] = none
rule_of id (r ∷ rs) =
    let rest = rule_of id rs in
    elim rest [ some x ↦ some x | none ↦ if str_eq r.id id then some r else none ]

-- The slot relative to the head of the list.
slot_of : Text → List Rule → Option ℕ
slot_of id [] = none
slot_of id (r ∷ rs) = elim (slot_of id rs) [
  | some i ↦ some (suc i)
  | none ↦ if str_eq r.id id then some 0 else none
]

shift : ℕ → Option ℕ → Option ℕ → Option ℕ
shift i slot none = slot
shift i slot (some k) = some (i + k)

find_slot-slot_of :
    (id : Text) (i : ℕ) (slot : Option ℕ) (rs : List Rule)
    → find_slot id i slot rs ≡ shift i slot (slot_of id rs)
unfolding find_slot slot_of shift
find_slot-slot_of id i slot [] = refl
find_slot-slot_of id i slot (r ∷ rs) =
    ground (arith, find_slot-slot_of id (suc i) (if str_eq r.id id then some i else slot) rs)

put : Rule → List Rule → Option ℕ → List Rule
put r rs (some i) = set rs i r
put r rs none = rs ++ r ∷ []

rule_of_no_slot : (id : Text) (rs : List Rule) → slot_of id rs ≡ none → rule_of id rs ≡ none
unfolding rule_of slot_of
rule_of_no_slot id [] h = refl
rule_of_no_slot id (r ∷ rs) h = ground (arith, rule_of_no_slot id rs)

rule_of-put :
    (j : Text) (r : Rule) (rs : List Rule)
    → rule_of j (put r rs (slot_of r.id rs)) ≡ (if str_eq r.id j then some r else rule_of j rs)
unfolding rule_of slot_of put
rule_of-put j r [] = ground arith
rule_of-put j r (x ∷ rs) = ground (
  arith,
  rule_of-put j r rs,
  rule_of_no_slot r.id rs,
  rule_of_no_slot j rs,
  str_eq_iff x.id r.id,
  str_eq_iff r.id j,
  str_eq_iff x.id j,
)

rule_of-remove_id :
    (id j : Text) (rs : List Rule)
    → rule_of j (remove_id id rs) ≡ (if str_eq id j then none else rule_of j rs)
unfolding rule_of remove_id
rule_of-remove_id id j [] = ground arith
rule_of-remove_id id j (r ∷ rs) =
    ground
      (arith, rule_of-remove_id id j rs, str_eq_iff r.id id, str_eq_iff id j, str_eq_iff r.id j)

write_slot-put :
    (st : State) (r : Rule) (slot : Option ℕ) (st' : State)
    → write_slot st r slot ≡ store st'
    → st' ≡ record st { rules = put r st.rules slot }
unfolding write_slot put
write_slot-put st r none st' h = ground arith
write_slot-put st r (some i) st' h = ground arith

find_slot_start : (id : Text) (rs : List Rule) → find_slot id 0 none rs ≡ slot_of id rs
unfolding shift
find_slot_start id rs = elim (Option-cases (slot_of id rs)) [
  | inl e ↦ ground (arith, find_slot-slot_of id 0 none rs)
  | inr (k, e) ↦ ground (arith, find_slot-slot_of id 0 none rs)
]

-- What `allow` stores has passed the checks, and stands in the slot of its id.
allow-put :
    (st : State) (id pub' ports label : Text) (st' : State)
    → allow st id pub' ports label ≡ store st'
    → let r : Rule = record {
      id = id;
      public_too = str_eq pub' (codes "1");
      ports = ports;
      label = label;
    } in
      st' ≡ record st { rules = put r st.rules (slot_of id st.rules) }
unfolding allow
allow-put st id pub' ports label st' h = ground (
  arith,
  make_rule_lem id pub' ports label,
  find_slot_start id st.rules,
  write_slot-put st (make_rule id pub' ports label) (slot_of id st.rules) st',
)

-- Where `allow` stores a state, the rule is found under its id in it, every other id keeps its rule,
-- and the two switches stay as they are.
pub allow-rule_of :
    (st : State) (id pub' ports label : Text) (st' : State)
    → allow st id pub' ports label ≡ store st'
    → (st'.enabled ≡ st.enabled)
      × (st'.public_profile ≡ st.public_profile)
      × ((j : Text)
          → rule_of j st'.rules ≡ (
              if str_eq id j
              then some (record {
                id = id;
                public_too = str_eq pub' (codes "1");
                ports = ports;
                label = label;
              })
              else rule_of j st.rules))
allow-rule_of st id pub' ports label st' h =
    let r : Rule = record {
      id = id;
      public_too = str_eq pub' (codes "1");
      ports = ports;
      label = label;
    } in
    let e = allow-put st id pub' ports label st' h in
    (
      ap State.enabled e,
      ap State.public_profile e,
      λ j. ap (λ s. rule_of j (State.rules s)) e ∙ rule_of-put j r st.rules,
    )

-- Where `revoke` stores a state, no rule of the id is left in it, every other id keeps its rule, and the
-- two switches stay as they are.
pub revoke-rule_of :
    (st : State) (id : Text) (st' : State)
    → revoke st id ≡ store st'
    → (st'.enabled ≡ st.enabled)
      × (st'.public_profile ≡ st.public_profile)
      × ((j : Text) → rule_of j st'.rules ≡ (if str_eq id j then none else rule_of j st.rules))
unfolding revoke
revoke-rule_of st id st' h =
    (ground arith, ground arith, λ j. ground (arith, rule_of-remove_id id j st.rules))
