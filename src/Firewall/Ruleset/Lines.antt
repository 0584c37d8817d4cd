-- ===== src/Firewall/Ruleset/Lines.antt =====
-- A label cannot break out of its line: the lines of the rules are as many as the items they open.
use singularity_shell.CString.Count.{count-lacks, count-append, count}
use singularity_shell.Base.{
  ℕ, ◌+◌, ◌*◌, ◌<◌, ◌≡◌, refl, Bool, true, not, ◌&&◌, List, [], ◌∷◌, ◌++◌, arith, ◌==◌,
  if◌then◌else◌, length, all, All, all_mono,
}
use singularity_shell.CString.{prepend, Text, codes, before, after, items}
use singularity_shell.Firewall.State.{Rule}
use singularity_shell.Firewall.Validate.{valid_label}
use singularity_shell.Firewall.Plain.{
  label_lacks, plain, all-plain-lacks, label_byte, all-label_byte, plain-valid_ports,
}
use singularity_shell.Firewall.Valid.{IsValidRule}
use singularity_shell.Firewall.Ruleset.{accept_line}
use singularity_shell.Firewall.Ruleset.Exact.{open_line, open_items, open_rules}

-- The items that the profile opens.
pub open_count : Bool → List Rule → ℕ
open_count public_profile [] = 0
open_count public_profile (r ∷ rs) =
    (if public_profile && not r.public_too then 0 else length (items b',' r.ports))
    + open_count public_profile rs

-- The parts of a text that passes a test pass it.
all-before : (p : ℕ → Bool) (c : ℕ) (s : Text) → all p s ≡ true → all p (before c s) ≡ true
unfolding before
all-before p c [] h = refl
all-before p c (x ∷ s) h = ground (arith, all-before p c s)

all-after : (p : ℕ → Bool) (c : ℕ) (s : Text) → all p s ≡ true → all p (after c s) ≡ true
unfolding after
all-after p c [] h = refl
all-after p c (x ∷ s) h = ground (arith, all-after p c s)

all-prepend :
    (p : ℕ → Bool) (x : ℕ) (ps : List Text)
    → p x ≡ true
    → all (all p) ps ≡ true
    → all (all p) (prepend x ps) ≡ true
unfolding prepend
all-prepend p x [] h k = ground arith
all-prepend p x (q ∷ ps) h k = ground arith

all-items : (p : ℕ → Bool) (c : ℕ) (s : Text) → all p s ≡ true → all (all p) (items c s) ≡ true
unfolding items
all-items p c [] h = refl
all-items p c (x ∷ s) h = ground (arith, all-items p c s, all-prepend p x (items c s))

count-open_line :
    (label item : Text)
    → valid_label label ≡ true
    → all plain item ≡ true
    → (count b'\n' (open_line label item) ≡ 1) × (count b'"' (open_line label item) ≡ 2)
unfolding open_line accept_line
count-open_line label item l h =
    let proto = after b'/' item in
    let port = before b'/' item in
    let n = λ (c : ℕ) (k : c < b',').
      count-lacks c proto (all-plain-lacks c proto k (all-after plain b'/' item h)) in
    let m = λ (c : ℕ) (k : c < b',').
      count-lacks c port (all-plain-lacks c port k (all-before plain b'/' item h)) in
    omega (
      arith,
      n b'\n' (omega arith),
      n b'"' (omega arith),
      m b'\n' (omega arith),
      m b'"' (omega arith),
      count-lacks b'\n' label (label_lacks b'\n' label (omega arith) l),
      count-lacks b'"' label (
          all_mono label_byte (λ x. not (x == b'"')) label (λ x g. ground arith)
            (all-label_byte label l)),
      count-append b'\n' proto
          (codes " dport " ++ (port ++ (codes " accept comment \"" ++ (label ++ codes "\"\n")))),
      count-append b'\n' port (codes " accept comment \"" ++ (label ++ codes "\"\n")),
      count-append b'\n' label (codes "\"\n"),
      count-append b'"' proto
          (codes " dport " ++ (port ++ (codes " accept comment \"" ++ (label ++ codes "\"\n")))),
      count-append b'"' port (codes " accept comment \"" ++ (label ++ codes "\"\n")),
      count-append b'"' label (codes "\"\n"),
    )

count-open_items :
    (label : Text) (ps : List Text)
    → valid_label label ≡ true
    → all (all plain) ps ≡ true
    → (count b'\n' (open_items label ps) ≡ length ps)
      × (count b'"' (open_items label ps) ≡ 2 * length ps)
unfolding open_items
count-open_items label [] l h = ground arith
count-open_items label (p ∷ ps) l h = ground (
  arith,
  count-open_line label p l,
  count-open_items label ps l,
  count-append b'\n' (open_line label p) (open_items label ps),
  count-append b'"' (open_line label p) (open_items label ps),
)

-- The lines that the rules of a valid state add: one newline for each item that the profile opens,
-- and two quotes, so no label ends its comment early or starts a line of its own.
pub count-open_rules :
    (public_profile : Bool) (rs : List Rule)
    → All IsValidRule rs
    → (count b'\n' (open_rules public_profile rs) ≡ open_count public_profile rs)
      × (count b'"' (open_rules public_profile rs) ≡ 2 * open_count public_profile rs)
unfolding open_rules open_count
count-open_rules public_profile [] v = ground arith
count-open_rules public_profile (r ∷ rs) v =
    let lines =
      if public_profile && not r.public_too then [] else open_items r.label (items b',' r.ports) in
    ground (
      arith,
      count-open_items r.label (items b',' r.ports) v.0.label_ok
          (all-items plain b',' r.ports (plain-valid_ports r.ports v.0.ports_ok)),
      count-open_rules public_profile rs v.1,
      count-append b'\n' lines (open_rules public_profile rs),
      count-append b'"' lines (open_rules public_profile rs),
    )
