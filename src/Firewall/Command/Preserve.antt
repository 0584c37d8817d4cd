-- ===== src/Firewall/Command/Preserve.antt =====
-- The commands keep the state valid, and change the rules as a map from ids does.
use singularity_shell.Firewall.Valid.{make_rule-IsValidRule, IsValid, IsValidRule}
use singularity_shell.Base.{
  ℕ, zero, suc, ◌≤◌, ◌≡◌, refl, ap, Option, none, some, List, [], ◌∷◌, arith, length, set, All,
  All-append, length-append,
}
use singularity_shell.Firewall.State.{Rule, State}
use singularity_shell.Firewall.Command.{
  make_rule, Text, Request, store, find_slot, write_slot, allow, remove_id, revoke, dispatch,
}

set-All :
    (rs : List Rule) (i : ℕ) (r : Rule)
    → All IsValidRule rs
    → IsValidRule r
    → All IsValidRule (set rs i r)
set-All [] i r h g = tt
set-All (x ∷ rs) zero r h g = (g, h.1)
set-All (x ∷ rs) (suc i) r h g = (h.0, set-All rs i r h.1 g)

length-set : (rs : List Rule) (i : ℕ) (r : Rule) → length (set rs i r) ≡ length rs
length-set [] i r = refl
length-set (x ∷ rs) zero r = refl
length-set (x ∷ rs) (suc i) r = ap suc (length-set rs i r)

-- What a request may carry.
abbrev pub Keeps : Request → Type 0
Keeps (store st) = IsValid st
Keeps _ = Unit

write_slot-Keeps :
    (st : State) (r : Rule) (slot : Option ℕ)
    → IsValid st
    → IsValidRule r
    → Keeps (write_slot st r slot)
unfolding write_slot
write_slot-Keeps st r (some i) v g = record {
  rules_ok = set-All st.rules i r v.rules_ok g;
  count_ok = omega (arith, length-set st.rules i r, v.count_ok);
}
write_slot-Keeps st r none v g = ground (
  arith,
  All-append IsValidRule st.rules (r ∷ []) v.rules_ok (g, tt),
  length-append st.rules (r ∷ []),
)

allow-Keeps :
    (st : State) (id pub' ports label : Text) → IsValid st → Keeps (allow st id pub' ports label)
unfolding allow
allow-Keeps st id pub' ports label v = ground (
  arith,
  make_rule-IsValidRule id pub' ports label,
  write_slot-Keeps st (make_rule id pub' ports label) (find_slot id 0 none st.rules) v,
)

remove_id-All :
    (id : Text) (rs : List Rule) → All IsValidRule rs → All IsValidRule (remove_id id rs)
unfolding remove_id
remove_id-All id [] h = tt
remove_id-All id (r ∷ rs) h = ground (arith, remove_id-All id rs h.1)

length-remove_id : (id : Text) (rs : List Rule) → length (remove_id id rs) ≤ length rs
unfolding remove_id
length-remove_id id [] = omega arith
length-remove_id id (r ∷ rs) = ground (arith, length-remove_id id rs)

revoke-Keeps : (st : State) (id : Text) → IsValid st → Keeps (revoke st id)
unfolding revoke
revoke-Keeps st id v =
    ground (arith, remove_id-All id st.rules v.rules_ok, length-remove_id id st.rules)

-- Whatever the command and its arguments, a state that it stores is valid if the loaded one is.
pub dispatch-Keeps :
    (st : State) (cmd : Text) (args : List Text) → IsValid st → Keeps (dispatch st cmd args)
unfolding dispatch
dispatch-Keeps st cmd [] v = ground arith
dispatch-Keeps st cmd (a ∷ []) v = ground (arith, revoke-Keeps st a v)
dispatch-Keeps st cmd (a ∷ b ∷ []) v = tt
dispatch-Keeps st cmd (a ∷ b ∷ c ∷ []) v = tt
dispatch-Keeps st cmd (a ∷ b ∷ c ∷ d ∷ []) v = ground (arith, allow-Keeps st a b c d v)
dispatch-Keeps st cmd (a ∷ b ∷ c ∷ d ∷ e ∷ args) v = tt
