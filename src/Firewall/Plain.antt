-- ===== src/Firewall/Plain.antt =====
-- Which bytes a checked rule can hold: ids and port lists are made of few letters, labels hold no
-- byte below the space, no quote and no backslash.
use singularity_shell.Base.{
  ℕ, ◌+◌, ◌-◌, ◌*◌, ◌<◌, ◌≡◌, refl, ◌⊎◌, Bool, true, not, ◌&&◌, ◌||◌, Option, none, some, List, [],
  ◌∷◌, arith, ltb, leb, ◌==◌, all, all-append, all_mono,
}
use singularity_shell.CString.{
  prepend, Text, codes, starts_with, split_at, items, is_digit, is_lower,
}
use singularity_shell.CString.Split.{lacks, Splits, split_at-Splits}
use singularity_shell.Firewall.Validate.{
  valid_id, valid_label, valid_ports, valid_port_item, valid_cut_item, valid_range, valid_protocol,
  valid_number, decimal, is_some,
}

-- A digit, a lower-case letter, or one of `,` `-` `.` `/`.
abbrev pub plain : ℕ → Bool
plain c = (leb b',' c && leb c b'9') || (leb b'a' c && leb c b'z')

pub all-plain-lacks : (c : ℕ) (s : Text) → c < b',' → all plain s ≡ true → lacks c s ≡ true
all-plain-lacks c s h = all_mono plain (λ x. not (x == c)) s (λ x g. ground arith)

pub plain-valid_id : (s : Text) → valid_id s ≡ true → all plain s ≡ true
unfolding valid_id
plain-valid_id s h =
    all_mono (λ c. is_lower c || is_digit c || c == b'-') plain s (λ x g. ground arith)
      (ground arith)

-- A byte that a label may hold.
abbrev pub label_byte : ℕ → Bool
label_byte c = not (ltb c 0x20 || c == b'"' || c == b'\\' || c == 0x7f)

pub all-label_byte : (s : Text) → valid_label s ≡ true → all label_byte s ≡ true
unfolding valid_label
all-label_byte s h = ground arith

pub label_lacks : (c : ℕ) (s : Text) → c < 0x20 → valid_label s ≡ true → lacks c s ≡ true
label_lacks c s k h =
    all_mono label_byte (λ x. not (x == c)) s (λ x g. ground arith) (all-label_byte s h)

plain-decimal : (v : ℕ) (s : Text) → is_some (decimal v s) ≡ true → all plain s ≡ true
unfolding decimal is_some
plain-decimal v [] h = refl
plain-decimal v (c ∷ s) h = ground (arith, plain-decimal (v * 10 + (c - b'0')) s)

pub plain-valid_number : (s : Text) → is_some (valid_number s) ≡ true → all plain s ≡ true
unfolding valid_number is_some
plain-valid_number s h = ground (arith, plain-decimal 0 s)

plain-valid_range :
    (port : Text) (cut : Option (Text × Text))
    → Splits b'-' port cut
    → valid_range port cut ≡ true
    → all plain port ≡ true
unfolding valid_range
plain-valid_range port none d h = ground (arith, plain-valid_number port)
plain-valid_range port (some (low, high)) d h =
    ground
      (arith, plain-valid_number low, plain-valid_number high, all-append plain low (b'-' ∷ high))

pub valid_protocol_cases :
    (proto : Text) → valid_protocol proto ≡ true → (proto ≡ codes "tcp") ⊎ (proto ≡ codes "udp")
unfolding valid_protocol starts_with
valid_protocol_cases [] h = cc
valid_protocol_cases (a ∷ []) h = cc
valid_protocol_cases (a ∷ b ∷ []) h = cc
valid_protocol_cases (a ∷ b ∷ c ∷ []) h = ground arith
valid_protocol_cases (a ∷ b ∷ c ∷ d ∷ s) h = absurd (ground arith)

plain-valid_cut_item :
    (item : Text) (cut : Option (Text × Text))
    → Splits b'/' item cut
    → valid_cut_item cut ≡ true
    → all plain item ≡ true
unfolding valid_cut_item
plain-valid_cut_item item none d h = cc
plain-valid_cut_item item (some (port, proto)) d h = ground (
  arith,
  plain-valid_range port (split_at b'-' port) (split_at-Splits b'-' port),
  valid_protocol_cases proto,
  all-append plain port (b'/' ∷ proto),
)

plain-valid_port_item : (item : Text) → valid_port_item item ≡ true → all plain item ≡ true
unfolding valid_port_item
plain-valid_port_item item =
    plain-valid_cut_item item (split_at b'/' item) (split_at-Splits b'/' item)

all-prepend :
    (p : ℕ → Bool) (x : ℕ) (ps : List Text) → all (all p) (prepend x ps) ≡ (p x && all (all p) ps)
unfolding prepend
all-prepend p x [] = ground arith
all-prepend p x (q ∷ ps) = ground arith

-- A test that holds on the separator and on every piece holds on the text.
all-items :
    (p : ℕ → Bool) (c : ℕ) (s : Text) → p c ≡ true → all (all p) (items c s) ≡ true → all p s ≡ true
unfolding items
all-items p c [] h k = refl
all-items p c (x ∷ s) h k = ground (arith, all-items p c s h, all-prepend p x (items c s))

pub plain-valid_ports : (s : Text) → valid_ports s ≡ true → all plain s ≡ true
unfolding valid_ports
plain-valid_ports s h =
    all-items plain b',' s refl
      (all_mono valid_port_item (all plain) (items b',' s) plain-valid_port_item (ground arith))
