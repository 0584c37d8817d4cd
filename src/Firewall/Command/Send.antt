-- ===== src/Firewall/Command/Send.antt =====
-- The write loop of `apply`: what reaches nft.
use singularity_shell.Base.{
  ℕ, zero, suc, ◌+◌, ◌-◌, ◌≤◌, ◌≡◌, refl, ap, ◌≢◌, inl, inr, List, [], ◌∷◌, ◌++◌, append_assoc,
  arith, ◌==◌, length, take, drop, Bool-cases,
}
use singularity_shell.CString.{Text}
use singularity_shell.Process.{Outcome-cases, Written, wrote, interrupted, failed, done, fault}
use singularity_shell.Firewall.Command.{send}

-- Answers of a pipe that stays open: each write takes some bytes or is interrupted.
abbrev pub Steady : List Written → Type 0
Steady [] = Unit
Steady (wrote n ∷ answers) = (n ≢ 0) × Steady answers
Steady (interrupted ∷ answers) = Steady answers
Steady (failed ∷ answers) = ⊥

abbrev pub taken : List Written → ℕ
taken [] = 0
taken (wrote n ∷ answers) = n + taken answers
taken (w ∷ answers) = taken answers

take-append-drop : (n : ℕ) (xs : Text) → take n xs ++ drop n xs ≡ xs
take-append-drop zero xs = refl
take-append-drop (suc n) [] = refl
take-append-drop (suc n) (x ∷ xs) = ap (◌∷◌ x) (take-append-drop n xs)

pub length-drop : (n : ℕ) (xs : Text) → length (drop n xs) ≡ length xs - n
length-drop zero xs = omega arith
length-drop (suc n) [] = omega arith
length-drop (suc n) (x ∷ xs) = omega (arith, length-drop n xs)

-- A pipe that answers with counts above zero and interruptions alone, and that takes at least as many
-- bytes as the text has, gets all of it.
pub send_all :
    (answers : List Written) (s : Text)
    → Steady answers
    → length s ≤ taken answers
    → send answers s ≡ done s
unfolding send
send_all [] [] p h = refl
send_all (w ∷ answers) [] p h = refl
send_all [] (c ∷ s) p h = absurd (omega arith)
send_all (interrupted ∷ answers) (c ∷ s) p h = send_all answers (c ∷ s) p h
send_all (failed ∷ answers) (c ∷ s) p h = absurd p
send_all (wrote n ∷ answers) (c ∷ s) p h = ground (
  arith,
  send_all answers (drop n (c ∷ s)) p.1 (omega (arith, length-drop n (c ∷ s))),
  take-append-drop n (c ∷ s),
)

-- Whatever the pipe answers, nft gets a front part of the text and nothing else.
pub send_front :
    (answers : List Written) (s t : Text)
    → send answers s ≡ done t
    → (rest : Text) × (s ≡ t ++ rest)
unfolding send
send_front answers [] t h = ([], ground arith)
send_front [] (c ∷ s) t h = absurd (ground arith)
send_front (interrupted ∷ answers) (c ∷ s) t h = send_front answers (c ∷ s) t h
send_front (failed ∷ answers) (c ∷ s) t h = (c ∷ s, ground arith)
send_front (wrote n ∷ answers) (c ∷ s) t h = elim (Bool-cases (n == 0)) [
  | inl none_taken ↦ (c ∷ s, ground arith)
  | inr more ↦ elim (Outcome-cases (send answers (drop n (c ∷ s)))) [
    | inl (u, e) ↦
        let (rest, e') = send_front answers (drop n (c ∷ s)) u e in
        (rest, ground (arith, take-append-drop n (c ∷ s), append_assoc (take n (c ∷ s)) u rest))
    | inr (inl e) ↦ absurd (ground arith)
    | inr (inr e) ↦ absurd (ground arith)
  ]
]

-- The loop itself faults nowhere.
pub send-ne-fault : (answers : List Written) (s : Text) → send answers s ≢ fault
unfolding send
send-ne-fault answers [] h = ground arith
send-ne-fault [] (c ∷ s) h = ground arith
send-ne-fault (interrupted ∷ answers) (c ∷ s) h = send-ne-fault answers (c ∷ s) h
send-ne-fault (failed ∷ answers) (c ∷ s) h = ground arith
send-ne-fault (wrote n ∷ answers) (c ∷ s) h = elim (Outcome-cases (send answers (drop n (c ∷ s)))) [
  | inl (u, e) ↦ ground arith
  | inr (inl e) ↦ send-ne-fault answers (drop n (c ∷ s)) e
  | inr (inr e) ↦ ground arith
]
