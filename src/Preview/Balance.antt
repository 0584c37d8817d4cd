-- ===== src/Preview/Balance.antt =====
-- src/wayland/wayland_integration.c: what a caller hands over is given back once.
use singularity_shell.Base.{
  ℕ, ◌+◌, ◌≡◌, refl, ap, Bool, true, false, not, ◌&&◌, Option, none, some, List, [], ◌∷◌, arith,
  ◌==◌, if◌then◌else◌, if_same,
}
use singularity_shell.Preview.{
  PreviewRequest, Effect, Previews, effect, tear_down, preview_buffer_release, refused, destroyed,
  buffer_destroyed,
}
use singularity_shell.Preview.Requests.{
  find_request, put_request, free_request, refuse, run_destroy, preview_request_free_buffer, Event,
  captured,
}
use singularity_shell.Preview.Holders.{one_if, total, total-put, total-free}

-- Whether the request still has to give the data back.
abbrev pub owes : ℕ → PreviewRequest → ℕ
owes d r = one_if (r.has_destroy && (r.user_data == d))

abbrev pub is_destroyed : ℕ → Effect → Bool
is_destroyed d (destroyed e) = e == d
is_destroyed d _ = false

-- How often `destroy` was called on the data.
unfoldable pub given_back : ℕ → List Effect → ℕ
given_back d [] = 0
given_back d (e ∷ rest) = one_if (is_destroyed d e) + given_back d rest

-- How often the data was handed over with a `destroy`.
unfoldable pub handed_over : ℕ → List Event → ℕ
handed_over d [] = 0
handed_over d (captured external c has_callback has_destroy e ∷ rest) =
    one_if (has_destroy && (e == d)) + handed_over d rest
handed_over d (_ ∷ rest) = handed_over d rest

-- How many requests are still to give the data back.
unfoldable pub waiting : ℕ → List PreviewRequest → ℕ
unfolding total
waiting d rs = total (owes d) rs

abbrev pub balance : ℕ → Previews → ℕ
balance d s = given_back d s.effects + waiting d s.requests

-- A request that is completed has given its data back, and its frame is gone.
abbrev pub is_settled : PreviewRequest → Bool
is_settled r = if r.completed then not r.has_frame && not r.has_destroy else true

-- What was given back so far, and the requests.
abbrev pub account : ℕ → Previews → ℕ × List PreviewRequest
account d s = (given_back d s.effects, s.requests)

pub account-effect :
    (d : ℕ) (e : Effect) (s : Previews)
    → is_destroyed d e ≡ false
    → account d (effect e s) ≡ account d s
unfolding effect given_back
account-effect d e s h =
    let n : one_if (is_destroyed d e) + given_back d s.effects ≡ given_back d s.effects =
      ground (arith, h) in
    ap (λ x. (x, s.requests)) n

pub account-tear_down :
    (d : ℕ) (b : Option ℕ) (s : Previews) → account d (tear_down b s) ≡ account d s
unfolding tear_down
account-tear_down d none s = refl
account-tear_down d (some b) s = account-effect d (buffer_destroyed b) s refl

pub account-refuse :
    (d : ℕ) (has : Bool) (e : ℕ) (s : Previews) → account d (refuse has e s) ≡ account d s
unfolding refuse
account-refuse d has e s = if_same (account d) has (account-effect d (refused e) s refl) refl

account-free_slot :
    (d : ℕ) (slot b : Option ℕ) (s : Previews)
    → account d (elim slot [ some i ↦ preview_buffer_release (some i) s | none ↦ tear_down b s ])
      ≡ account d s
unfolding preview_buffer_release
account-free_slot d none b s = account-tear_down d b s
account-free_slot d (some i) b s = refl

pub account-free_buffer :
    (d : ℕ) (r : PreviewRequest) (s : Previews)
    → account d (preview_request_free_buffer r s) ≡ account d s
unfolding preview_request_free_buffer
account-free_buffer d r s = account-free_slot d r.slot r.buffer s

-- `destroy` gives back what was owed.
pub given_back-run_destroy :
    (d : ℕ) (has : Bool) (e : ℕ) (s : Previews)
    → given_back d (run_destroy has e s).effects ≡ one_if (has && (e == d)) + given_back d s.effects
unfolding run_destroy effect given_back
given_back-run_destroy d true e s = refl
given_back-run_destroy d false e s = omega arith

pub requests-run_destroy :
    (has : Bool) (e : ℕ) (s : Previews) → (run_destroy has e s).requests ≡ s.requests
unfolding run_destroy effect
requests-run_destroy has e s = if_same Previews.requests has refl refl

-- The end of a request: what it owed is given back, and the request owes nothing.
pub balance_ended :
    (d : ℕ) (r : PreviewRequest) (s t : Previews) (fewer : List PreviewRequest)
    → account d t ≡ account d s
    → waiting d fewer + owes d r ≡ waiting d s.requests
    → given_back d (run_destroy r.has_destroy r.user_data t).effects + waiting d fewer ≡ balance d s
balance_ended d r s t fewer a w =
    let back = given_back-run_destroy d r.has_destroy r.user_data t in
    let same = ap (λ (x : ℕ × List PreviewRequest). x.0) a in omega (arith, back, same, w)

pub waiting-free :
    (d token : ℕ) (rs : List PreviewRequest) (r : PreviewRequest)
    → find_request token rs ≡ some r
    → waiting d (free_request token rs) + owes d r ≡ waiting d rs
unfolding waiting
waiting-free d token rs r h = total-free (owes d) token rs r h

pub waiting-put :
    (d token : ℕ) (rs : List PreviewRequest) (r new : PreviewRequest)
    → find_request token rs ≡ some r
    → new.token ≡ token
    → waiting d (put_request new rs) + owes d r ≡ waiting d rs + owes d new
unfolding waiting
waiting-put d token rs r new h n = total-put (owes d) token rs r new h n
