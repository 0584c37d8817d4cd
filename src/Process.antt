-- ===== src/Process.antt =====
-- What the operating system answers to the helpers in src/services: the results of write (2), and the
-- ways a run can come out. The answers are arguments of the models, in the order of the calls.
use singularity_shell.Base.{refl, ◌≡◌, inr, inl, ◌⊎◌, ℕ, Option, none, some}

-- One call of write or read: the bytes it took, -1 with EINTR, or -1 with another error.
pub data Written : Type 0 where
  wrote : ℕ → Written
  interrupted failed : Written

-- A run ends with a value, writes through a null pointer, or still waits for an answer that the list
-- of answers does not hold.
pub data Outcome {ℓ} (A : Type ℓ) : Type ℓ where
  done : A → Outcome A
  fault waiting : Outcome A

infixl 5 ◌>>=◌
abbrev pub ◌>>=◌ {ℓ κ} : {A : Type ℓ} {B : Type κ} → Outcome A → (A → Outcome B) → Outcome B
done a >>= f = f a
fault >>= f = fault
waiting >>= f = waiting

abbrev pub from_option {ℓ} : {A : Type ℓ} → Option A → Outcome A
from_option none = fault
from_option (some a) = done a

pub Outcome-cases {ℓ} :
    {A : Type ℓ} (o : Outcome A) → ((a : A) × (o ≡ done a)) ⊎ (o ≡ fault) ⊎ (o ≡ waiting)
Outcome-cases (done a) = inl (a, refl)
Outcome-cases fault = inr (inl refl)
Outcome-cases waiting = inr (inr refl)
