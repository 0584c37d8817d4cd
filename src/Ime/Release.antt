-- ===== src/Ime/Release.antt =====
-- src/wayland/ime.c: the keys that the client holds down at the compositor, and how they are released.
use singularity_shell.Base.{
  ℕ, zero, suc, ◌+◌, ◌≤◌, ◌<◌, ◌≡◌, ap, ◌∙◌, inl, inr, Bool, true, false, ◌&&◌, ◌||◌, List, [], ◌∷◌,
  arith, ltb, leb, ◌==◌, if◌then◌else◌, Bool-cases, ==_iff,
}
use singularity_shell.Ime.Defs.{
  key_count, Request, key, create_virtual_keyboard, Ime, send, set_forwarded,
}
use singularity_shell.Ime.Keys.{
  send_forward, release_key, release_keys, clear_modifiers, release_forwarded_keys,
}

-- What a request leaves of a key's position on the present virtual keyboard.
unfoldable pub moved : ℕ → Request → Bool → Bool
moved k (key j pressed) was = if j == k then pressed else was
moved k create_virtual_keyboard was = false
moved k r was = was

-- The key's position at the compositor, on the virtual keyboard that was created last: the last key
-- request for it decides. What an earlier keyboard holds down is out of the client's reach.
unfoldable pub down : ℕ → List Request → Bool
down k [] = false
down k (r ∷ rs) = moved k r (down k rs)

-- A key that is down has a keyboard with `forward_keymap_set`, and `forwarded` has it if it covers it.
unfoldable pub tracked : ℕ → Ime → Bool
tracked k s =
    if down k s.sent
    then (leb key_count k || s.forwarded k) && (s.forward_keyboard && s.forward_ready)
    else true

unfoldable pub Tracked : Ime → Type 0
Tracked s = (k : ℕ) → tracked k s ≡ true

pub press-tracked :
    (j k : ℕ) (s : Ime)
    → tracked k s ≡ true
    → tracked k (set_forwarded j true (send_forward j true s)) ≡ true
unfolding tracked set_forwarded send_forward send down moved
press-tracked j k s h = ground arith

pub release-tracked :
    (j k : ℕ) (s : Ime)
    → tracked k s ≡ true
    → tracked k (set_forwarded j false (send_forward j false s)) ≡ true
unfolding tracked set_forwarded send_forward send down moved
release-tracked j k s h = ground arith

pub send_forward-tracked :
    (j k : ℕ) (p : Bool) (s : Ime)
    → ltb j key_count ≡ false
    → tracked k s ≡ true
    → tracked k (send_forward j p s) ≡ true
unfolding tracked send_forward send down moved
send_forward-tracked j k p s e h = ground arith

release_key-tracked : (j k : ℕ) (s : Ime) → tracked k s ≡ true → tracked k (release_key j s) ≡ true
unfolding release_key
release_key-tracked j k s h = ground (arith, release-tracked j k s h)

release_keys-tracked :
    (rounds j k : ℕ) (s : Ime) → tracked k s ≡ true → tracked k (release_keys rounds j s) ≡ true
unfolding release_keys
release_keys-tracked zero j k s h = h
release_keys-tracked (suc rounds) j k s h =
    release_keys-tracked rounds (suc j) k (release_key j s) (release_key-tracked j k s h)

clear_modifiers-tracked :
    (k : ℕ) (s : Ime) → tracked k s ≡ true → tracked k (clear_modifiers s) ≡ true
unfolding clear_modifiers tracked send down moved
clear_modifiers-tracked k s h = ground arith

pub release_forwarded_keys-tracked :
    (k : ℕ) (s : Ime) → tracked k s ≡ true → tracked k (release_forwarded_keys s) ≡ true
unfolding release_forwarded_keys
release_forwarded_keys-tracked k s h =
    clear_modifiers-tracked k (release_keys key_count 0 s) (release_keys-tracked key_count 0 k s h)

release_key-stays :
    (j k : ℕ) (s : Ime) → s.forwarded k ≡ false → (release_key j s).forwarded k ≡ false
unfolding release_key set_forwarded send_forward send
release_key-stays j k s h = ground arith

release_key-clears : (k : ℕ) (s : Ime) → (release_key k s).forwarded k ≡ false
unfolding release_key set_forwarded send_forward send
release_key-clears k s = ground arith

release_keys-stays :
    (rounds j k : ℕ) (s : Ime)
    → s.forwarded k ≡ false
    → (release_keys rounds j s).forwarded k ≡ false
unfolding release_keys
release_keys-stays zero j k s h = h
release_keys-stays (suc rounds) j k s h =
    release_keys-stays rounds (suc j) k (release_key j s) (release_key-stays j k s h)

release_keys-clears :
    (rounds j k : ℕ) (s : Ime)
    → j ≤ k
    → k < j + rounds
    → (release_keys rounds j s).forwarded k ≡ false
unfolding release_keys
release_keys-clears zero j k s low high = absurd (omega arith)
release_keys-clears (suc rounds) j k s low high = elim (Bool-cases (j == k)) [
  | inl e ↦ release_keys-stays rounds (suc j) k (release_key j s) (cleared_at j ((==_iff j k).0 e))
  | inr n ↦ release_keys-clears rounds (suc j) k (release_key j s) (ground arith) (omega arith)
]
  where
    cleared_at : (i : ℕ) → i ≡ k → (release_key i s).forwarded k ≡ false
    cleared_at i e = ap (λ i. (release_key i s).forwarded k) e ∙ release_key-clears k s

clear_modifiers-forwarded : (k : ℕ) (s : Ime) → (clear_modifiers s).forwarded k ≡ s.forwarded k
unfolding clear_modifiers send
clear_modifiers-forwarded k s = ground arith

tracked-up :
    (k : ℕ) (s : Ime)
    → tracked k s ≡ true
    → k < key_count
    → s.forwarded k ≡ false
    → down k s.sent ≡ false
unfolding tracked
tracked-up k s t small e = ground arith

release_forwarded_keys-clears :
    (k : ℕ) (s : Ime) → k < key_count → (release_forwarded_keys s).forwarded k ≡ false
unfolding release_forwarded_keys
release_forwarded_keys-clears k s small =
    clear_modifiers-forwarded k (release_keys key_count 0 s)
    ∙ release_keys-clears key_count 0 k s (omega arith) (omega arith)

-- Once the forwarded keys are released, no key below the limit is marked as forwarded, and none is down
-- on the present virtual keyboard if the keys were tracked before.
pub release_forwarded_keys_lem :
    (s : Ime)
    → Tracked s
    → (k : ℕ) → k < key_count
    → ((release_forwarded_keys s).forwarded k ≡ false)
      × (down k (release_forwarded_keys s).sent ≡ false)
unfolding Tracked
release_forwarded_keys_lem s h k small =
    let cleared = release_forwarded_keys-clears k s small in
    (
      cleared,
      tracked-up k (release_forwarded_keys s) (release_forwarded_keys-tracked k s (h k)) small
          cleared,
    )
