-- ===== src/Power/Limit.antt =====
-- What a charge limit that was accepted means for the thresholds.
use singularity_shell.Base.{
  if◌then◌else◌, ℕ, zero, suc, ◌-◌, ◌≤◌, ◌≡◌, refl, sym, ap, ◌∙◌, ◌⊎◌, inl, inr, Bool, true, false,
  not, Option, none, some, [], ◌∷◌, arith, ◌==◌, all_mono, Bool-cases, Option-cases,
}
use singularity_shell.CString.{before, Text}
use singularity_shell.CString.Split.{lacks}
use singularity_shell.CString.Numbers.{print_long, Strtol, strtol}
use singularity_shell.Int.{ℤ, pos, negsuc, ltb_ℤ, ◌-ℤ◌}
use singularity_shell.Power.{
  name_byte, Battery, Sysfs, read_attr, attr_text, write_end, lower_start, set_limit, bad_percent,
  charge_limit, valid_name,
}

-- The number that a threshold file holds.
pub threshold : Option Text → Option ℤ
threshold attr = elim (read_attr attr) [
  | none ↦ none
  | some text ↦ some (Strtol.value (strtol text))
]

holds_number : Option ℤ → ℕ → Bool
holds_number (some (pos m)) n = m == n
holds_number _ n = false

holds_number_sound : (o : Option ℤ) (n : ℕ) → holds_number o n ≡ true → o ≡ some (pos n)
unfolding holds_number
holds_number_sound none n h = cc
holds_number_sound (some (pos m)) n h = ground arith
holds_number_sound (some (negsuc m)) n h = cc

zero_of-le : (m : ℕ) → m ≤ 0 → m ≡ 0
zero_of-le m small = omega arith

-- The test holds from 0 up to the bound, the bound itself included.
holds_up_to : (ℕ → Bool) → ℕ → Bool
holds_up_to test zero = test 0
holds_up_to test (suc bound) = if test (suc bound) then holds_up_to test bound else false

holds_up_to_sound :
    (test : ℕ → Bool) (bound m : ℕ) → m ≤ bound → holds_up_to test bound ≡ true → test m ≡ true
unfolding holds_up_to
holds_up_to_sound test zero m small all_hold = ap test (zero_of-le m small) ∙ all_hold
holds_up_to_sound test (suc bound) m small all_hold =
    ground (arith, holds_up_to_sound test bound m, λ (e : m ≡ suc bound). ap test e)

-- Every number up to 100 is read back from sysfs as it was written.
reads_back : ℕ → Bool
reads_back n = holds_number (threshold (some (attr_text (pos n)))) n

reads_back_table : holds_up_to reads_back 100 ≡ true
unfolding holds_up_to reads_back holds_number threshold read_attr before attr_text strtol print_long
reads_back_table = refl

threshold-attr_text : (n : ℕ) → n ≤ 100 → threshold (some (attr_text (pos n))) ≡ some (pos n)
unfolding reads_back
threshold-attr_text n h =
    holds_number_sound _ n (holds_up_to_sound reads_back 100 n h reads_back_table)

-- What a limit of `p` percent leaves.
pub record IsLimited (p : ℕ) (b b' : Battery) : Type 0 where
  pub same_kind : b'.kind ≡ b.kind
  pub end_is : threshold b'.end_threshold ≡ some (pos p)
  pub start_below : (s : ℤ) → threshold b'.start_threshold ≡ some s → ltb_ℤ s (pos p) ≡ true

write_end_lem :
    (fs : Sysfs) (b b' : Battery) (p : ℕ)
    → p ≤ 100
    → write_end fs b (pos p) ≡ (0, b')
    → (b'.kind ≡ b.kind)
      × (b'.start_threshold ≡ b.start_threshold)
      × (threshold b'.end_threshold ≡ some (pos p))
unfolding write_end
write_end_lem fs b b' p h e = ground (arith, threshold-attr_text p h)

minus_five : (p : ℕ) → 50 ≤ p → pos p -ℤ pos 5 ≡ pos (p - 5)
unfolding ◌-ℤ◌
minus_five p low = ground arith

lowered_threshold :
    (p : ℕ) → 50 ≤ p → p ≤ 100 → threshold (some (attr_text (pos p -ℤ pos 5))) ≡ some (pos (p - 5))
lowered_threshold p low h = rw (minus_five p low) (threshold-attr_text (p - 5) (omega arith))

lower_start-IsLimited :
    (fs : Sysfs) (b b' : Battery) (p : ℕ) (start : Option Text)
    → 50 ≤ p
    → p ≤ 100
    → read_attr b.start_threshold ≡ start
    → lower_start fs b (pos p) start ≡ (0, b')
    → IsLimited p b b'
unfolding lower_start threshold
lower_start-IsLimited fs b b' p none low h r e =
    let w = write_end_lem fs b b' p h e in
    record { same_kind = w.0; end_is = w.2; start_below = λ s t. absurd (ground arith) }
lower_start-IsLimited fs b b' p (some text) low h r e =
    elim (Bool-cases (ltb_ℤ (Strtol.value (strtol text)) (pos p))) [
      | inl below ↦
          let w = write_end_lem fs b b' p h (ground arith) in
          record {
            same_kind = w.0;
            end_is = w.2;
            start_below = λ s t.
                let read : threshold b.start_threshold ≡ some (Strtol.value (strtol text)) =
                  rw (r, threshold) refl in
                let number : some s ≡ some (Strtol.value (strtol text)) =
                  sym t ∙ ap threshold w.1 ∙ read in
                ground arith;
          }
      | inr above ↦
          let b1 : Battery = record b { start_threshold = some (attr_text (pos p -ℤ pos 5)) } in
          let w = write_end_lem fs b1 b' p h (ground arith) in
          record {
            same_kind = w.0;
            end_is = w.2;
            start_below = λ s t.
                let number : some s ≡ some (pos (p - 5)) =
                  sym t ∙ ap threshold w.1 ∙ lowered_threshold p low h in
                ground arith;
          }
    ]

-- A limit that is accepted (exit code 0) lies between 50 and 100, is what the end threshold then
-- holds, and the start threshold, where the battery has one, is below it.
pub charge_limit-IsLimited :
    (fs : Sysfs) (name percent_text : Text) (b b' : Battery)
    → charge_limit fs name percent_text b ≡ (0, b')
    → (p : ℕ) × (Strtol.value (strtol percent_text) ≡ pos p)
      × (50 ≤ p)
      × (p ≤ 100)
      × IsLimited p b b'
unfolding charge_limit set_limit bad_percent
charge_limit-IsLimited fs name percent_text b b' e =
    at_value (Strtol.value (strtol percent_text)) refl
  where
    at_value :
        (z : ℤ)
        → Strtol.value (strtol percent_text) ≡ z
        → (p : ℕ) × (z ≡ pos p) × (50 ≤ p) × (p ≤ 100) × IsLimited p b b'
    at_value (negsuc n) v = absurd (ground arith)
    at_value (pos p) v =
        let low : 50 ≤ p = ground arith in
        let high : p ≤ 100 = ground arith in
        let ends : lower_start fs b (pos p) (read_attr b.start_threshold) ≡ (0, b') =
          ground arith in
        (
          p,
          refl,
          low,
          high,
          lower_start-IsLimited fs b b' p (read_attr b.start_threshold) low high refl ends,
        )

lacks-valid_name : (name : Text) → valid_name name ≡ true → lacks b'/' name ≡ true
unfolding valid_name
lacks-valid_name [] h = cc
lacks-valid_name (c ∷ s) h =
    all_mono name_byte (λ x. not (x == b'/')) (c ∷ s) (λ x g. unfold name_byte in ground arith)
      (ground arith)

-- A run that exits with 2 or 3 leaves the battery as it was, and so does one for a name that could
-- leave the directory of the power supplies, such as one with a slash in it.
pub charge_limit_refused :
    (fs : Sysfs) (name percent_text : Text) (b : Battery)
    → ((charge_limit fs name percent_text b).0 ≡ 2)
      ⊎ ((charge_limit fs name percent_text b).0 ≡ 3)
      ⊎ (lacks b'/' name ≡ false)
    → (charge_limit fs name percent_text b).1 ≡ b
unfolding charge_limit set_limit lower_start write_end
charge_limit_refused fs name percent_text b why = elim (Bool-cases (valid_name name)) [
  | inl good ↦ elim (Option-cases (read_attr b.start_threshold)) [
    | inl s ↦ ground (arith, lacks-valid_name name)
    | inr (text, s) ↦ ground (arith, lacks-valid_name name)
  ]
  | inr bad ↦ ground arith
]
