-- ===== src/Preview/Returned.antt =====
-- src/wayland/wayland_integration.c: over all events, what callers hand over is given back once.
use singularity_shell.Base.{
  and-true, ℕ, ◌+◌, ◌≡◌, refl, sym, ap, ◌∙◌, Bool, true, false, not, ◌&&◌, ◌||◌, Option, none, some,
  List, [], ◌∷◌, arith, ◌==◌, all, if_both,
}
use singularity_shell.Preview.{
  preview_pool_max, PreviewRequest, Previews, no_previews, trim_from,
  singularity_wayland_preview_pool_trim,
}
use singularity_shell.Preview.Requests.{
  find_request, refuse, frame_handle_buffer, frame_handle_ready, frame_handle_failed, Capture,
  refuse_capture, new_request, singularity_wayland_capture_preview,
  singularity_wayland_capture_preview_cancellable, cancel, singularity_wayland_cancel_capture,
  Event, step, steps, captured, offered, ready, failed, cancel_asked, trimmed,
}
use singularity_shell.Preview.Holders.{one_if, total}
use singularity_shell.Preview.Balance.{
  given_back, handed_over, waiting, balance, is_settled, account-refuse, given_back-run_destroy,
  requests-run_destroy,
}
use singularity_shell.Preview.Account.{Kept-account}
use singularity_shell.Preview.Ends.{
  is_some, Grown, Grown-Kept, Kept-ready, Kept-failed, Kept-buffer, Kept-cancel, Kept-on_frame,
  account-trim_from,
}

Grown-refused :
    (d : ℕ) (has_callback has_destroy : Bool) (e : ℕ) (s : Previews)
    → all is_settled s.requests ≡ true
    → Grown d (one_if (has_destroy && (e == d))) (refuse_capture has_callback has_destroy e s) s
unfolding refuse_capture
Grown-refused d has_callback has_destroy e s h =
    let t = refuse has_callback e s in
    let a = account-refuse d has_callback e s in
    let same = requests-run_destroy has_destroy e t ∙ ap (λ (x : ℕ × List PreviewRequest). x.1) a in
    let back = given_back-run_destroy d has_destroy e t in
    let before = ap (λ (x : ℕ × List PreviewRequest). x.0) a in
    let waits = ap (waiting d) same in
    (ap (all is_settled) same ∙ h, omega (arith, back, before, waits))

Grown-new :
    (d : ℕ) (external has_callback has_destroy : Bool) (e : ℕ) (s : Previews)
    → all is_settled s.requests ≡ true
    → Grown d
        (one_if (has_destroy && (e == d)))
        (new_request external has_callback has_destroy e s)
        s
unfolding new_request waiting total
Grown-new d external has_callback has_destroy e s h = (h, omega arith)

Grown-capture :
    (d : ℕ) (c : Capture) (has_callback has_destroy : Bool) (e : ℕ) (s : Previews)
    → all is_settled s.requests ≡ true
    → Grown d
        (one_if (has_destroy && (e == d)))
        (singularity_wayland_capture_preview c has_callback has_destroy e s)
        s
unfolding singularity_wayland_capture_preview
Grown-capture d c has_callback has_destroy e s h =
    let P : Previews → Type 0 = λ t. Grown d (one_if (has_destroy && (e == d))) t s in
    let no = Grown-refused d has_callback has_destroy e s h in
    if_both P (not c.has_manager) no (
      if_both P (not c.has_shm) no (
        if_both P (not c.is_valid) no
          (if_both P (not c.makes_frame) no (Grown-new d false has_callback has_destroy e s h))))

Grown-cancellable :
    (d : ℕ) (c : Capture) (has_callback has_destroy : Bool) (e : ℕ) (s : Previews)
    → all is_settled s.requests ≡ true
    → Grown d
        (one_if (has_destroy && (e == d)))
        (singularity_wayland_capture_preview_cancellable c has_callback has_destroy e s).1
        s
unfolding singularity_wayland_capture_preview_cancellable
Grown-cancellable d c has_callback has_destroy e s h =
    let P : Option ℕ × Previews → Type 0 = λ r. Grown d (one_if (has_destroy && (e == d))) r.1 s in
    let no = Grown-refused d has_callback has_destroy e s h in
    if_both P (not c.has_manager || not c.has_shm || not c.is_valid) no
      (if_both P (not c.makes_frame) no (Grown-new d true has_callback has_destroy e s h))

-- What one event hands over.
abbrev handed : ℕ → Event → ℕ
handed d e = handed_over d (e ∷ [])

-- A cancellation is asked for with a token whose request is still allocated.
unfoldable pub is_live : Event → Previews → Bool
is_live (cancel_asked (some token)) s = is_some (find_request token s.requests)
is_live _ s = true

-- So is every one of a sequence of events.
unfoldable pub all_live : List Event → Previews → Bool
all_live [] s = true
all_live (e ∷ es) s = is_live e s && all_live es (step e s)

Grown-step :
    (d : ℕ) (e : Event) (s : Previews)
    → is_live e s ≡ true
    → all is_settled s.requests ≡ true
    → Grown d (handed d e) (step e s) s
unfolding is_live step handed_over singularity_wayland_cancel_capture
    singularity_wayland_preview_pool_trim
Grown-step d (captured external c has_callback has_destroy e) s live h =
    let n : one_if (has_destroy && (e == d)) + 0 ≡ one_if (has_destroy && (e == d)) = omega arith in
    let grown =
      if_both (λ (t : Previews). Grown d (one_if (has_destroy && (e == d))) t s) external
        (Grown-cancellable d c has_callback has_destroy e s h)
        (Grown-capture d c has_callback has_destroy e s h) in
    (grown.0, grown.1 ∙ ap (λ x. balance d s + x) (sym n))
Grown-step d (offered pooled single token format width height stride) s live h =
    Grown-Kept d s (step (offered pooled single token format width height stride) s) (
      Kept-on_frame d (frame_handle_buffer pooled single format width height stride) token
        (find_request token s.requests) s refl
        (λ r f. Kept-buffer d pooled single format width height stride r s f h) h)
Grown-step d (ready token) s live h = Grown-Kept d s (step (ready token) s) (
    Kept-on_frame d frame_handle_ready token (find_request token s.requests) s refl
      (λ r f. Kept-ready d r s f h) h)
Grown-step d (failed token) s live h = Grown-Kept d s (step (failed token) s) (
    Kept-on_frame d frame_handle_failed token (find_request token s.requests) s refl
      (λ r f. Kept-failed d r s f h) h)
Grown-step d (cancel_asked none) s live h = (h, omega arith)
Grown-step d (cancel_asked (some token)) s live h =
    Grown-Kept d s (cancel token (find_request token s.requests) s)
      (Kept-cancel d token (find_request token s.requests) s refl live h)
Grown-step d trimmed s live h =
    Grown-Kept d s (trim_from 0 preview_pool_max s) (
      Kept-account d s (trim_from 0 preview_pool_max s) (account-trim_from d 0 preview_pool_max s)
        h)

handed_over-first :
    (d : ℕ) (e : Event) (es : List Event) → handed_over d (e ∷ es) ≡ handed d e + handed_over d es
unfolding handed_over
handed_over-first d (captured external c has_callback has_destroy e) es = omega arith
handed_over-first d (offered pooled single token format width height stride) es = omega arith
handed_over-first d (ready token) es = omega arith
handed_over-first d (failed token) es = omega arith
handed_over-first d (cancel_asked token) es = omega arith
handed_over-first d trimmed es = omega arith

Grown-steps :
    (d : ℕ) (es : List Event) (s : Previews)
    → all_live es s ≡ true
    → all is_settled s.requests ≡ true
    → balance d (steps es s) ≡ balance d s + handed_over d es
unfolding steps handed_over all_live
Grown-steps d [] s live h = omega arith
Grown-steps d (e ∷ es) s live h =
    let parts = and-true (is_live e s) (all_live es (step e s)) live in
    let one = Grown-step d e s parts.0 h in
    let rest = Grown-steps d es (step e s) parts.1 one.0 in
    let first = handed_over-first d e es in let grown = one.1 in omega (arith, rest, first, grown)

-- Over any sequence of captures, events, cancellations and trims in which a caller cancels a request only
-- while it is allocated: how often a caller's data was given back by `destroy`, and the requests that are
-- still to give it back, add up to how often it was handed over with a `destroy`. So it is never given
-- back twice then, and once no request waits, all of it is.
pub steps-given_back :
    (es : List Event) (d : ℕ)
    → all_live es no_previews ≡ true
    → given_back d (steps es no_previews).effects + waiting d (steps es no_previews).requests
      ≡ handed_over d es
unfolding given_back waiting total
steps-given_back es d live =
    let all_of = Grown-steps d es no_previews live refl in omega (arith, all_of)
