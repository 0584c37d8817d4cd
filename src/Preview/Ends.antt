-- ===== src/Preview/Ends.antt =====
-- src/wayland/wayland_integration.c: the ends of requests keep the account.
use singularity_shell.Base.{
  false, Bool, ℕ, zero, suc, ◌+◌, ◌≡◌, refl, ap, ◌∙◌, true, not, ◌&&◌, ◌||◌, Option, none, some,
  List, arith, all, if_same, if_both, if_either,
}
use singularity_shell.Preview.{
  PreviewBuffer, preview_pool_max, PreviewRequest, Previews, Memory, effect, first_slot, has_buffer,
  fits, reuse_slot, preview_buffer_acquire, trim_slot, trim_from, delivered,
}
use singularity_shell.Preview.Requests.{
  find_request, refuse, preview_request_free_buffer, frame_with, frame_handle_buffer, complete,
  frame_handle_ready, frame_handle_failed, cancel, on_frame,
}
use singularity_shell.Preview.Holders.{token_of_found}
use singularity_shell.Preview.Balance.{
  owes, balance, is_settled, account, account-effect, account-tear_down, account-refuse,
  account-free_buffer, waiting-free,
}
use singularity_shell.Preview.Account.{
  settled-free, settled-found, Kept, Kept-account, account-acquire, Kept-trans, Kept-freed,
  Kept-frame_with, Kept-complete,
}

-- What an event adds to the account.
abbrev pub Grown : ℕ → ℕ → Previews → Previews → Type 0
Grown d n t s = (all is_settled t.requests ≡ true) × (balance d t ≡ balance d s + n)

pub Grown-Kept : (d : ℕ) (s t : Previews) → Kept d t s → Grown d 0 t s
Grown-Kept d s t k = let same = k.1 in (k.0, omega (arith, same))

pub Kept-ready :
    (d : ℕ) (r : PreviewRequest) (s : Previews)
    → find_request r.token s.requests ≡ some r
    → all is_settled s.requests ≡ true
    → Kept d (frame_handle_ready r s) s
unfolding frame_handle_ready
Kept-ready d r s f h =
    let told = effect (delivered r.width r.height r.stride r.user_data) s in
    let e = account-effect d (delivered r.width r.height r.stride r.user_data) s refl in
    if_both (λ (t : Previews). Kept d t s) (not r.cancelled && r.has_callback)
      (Kept-trans d s told (complete r told) (Kept-account d s told e h) (
        Kept-complete d r told
          (ap (λ (x : ℕ × List PreviewRequest). find_request r.token x.1) e ∙ f)
          (ap (λ (x : ℕ × List PreviewRequest). all is_settled x.1) e ∙ h)))
      (Kept-complete d r s f h)

pub Kept-failed :
    (d : ℕ) (r : PreviewRequest) (s : Previews)
    → find_request r.token s.requests ≡ some r
    → all is_settled s.requests ≡ true
    → Kept d (frame_handle_failed r s) s
unfolding frame_handle_failed
Kept-failed d r s f h =
    let told = refuse (not r.cancelled && r.has_callback) r.user_data s in
    let e = account-refuse d (not r.cancelled && r.has_callback) r.user_data s in
    Kept-trans d s told (complete r told) (Kept-account d s told e h) (
      Kept-complete d r told (ap (λ (x : ℕ × List PreviewRequest). find_request r.token x.1) e ∙ f)
        (ap (λ (x : ℕ × List PreviewRequest). all is_settled x.1) e ∙ h))

pub Kept-buffer :
    (d : ℕ) (pooled single : Memory) (format width height stride : ℕ) (r : PreviewRequest)
    (s : Previews)
    → find_request r.token s.requests ≡ some r
    → all is_settled s.requests ≡ true
    → Kept d (frame_handle_buffer pooled single format width height stride r s) s
unfolding frame_handle_buffer preview_buffer_acquire
Kept-buffer d pooled single format width height stride r s f h =
    let sized = record r { width = width; height = height; stride = stride } in
    let found = first_slot (fits format width height stride) s.pool 0 preview_pool_max in
    let acquired = reuse_slot pooled format width height stride found s in
    let e = account-acquire d pooled format width height stride found s in
    let kept = ap (λ (x : ℕ × List PreviewRequest). all is_settled x.1) e ∙ h in
    Kept-trans d s acquired.1 (frame_with single sized acquired.0 acquired.1)
      (Kept-account d s acquired.1 e h)
      (Kept-frame_with d single r sized acquired.0 acquired.1
        (ap (λ (x : ℕ × List PreviewRequest). find_request r.token x.1) e ∙ f) refl refl
        (settled-found r.token s.requests r h f) kept)

owes-completed :
    (d : ℕ) (r : PreviewRequest) → is_settled r ≡ true → r.completed ≡ true → owes d r ≡ 0
owes-completed d r k c = ground (arith, k, c)

abbrev pub is_some : Option PreviewRequest → Bool
is_some none = false
is_some (some r) = true

pub Kept-cancel :
    (d token : ℕ) (o : Option PreviewRequest) (s : Previews)
    → find_request token s.requests ≡ o
    → is_some o ≡ true
    → all is_settled s.requests ≡ true
    → Kept d (cancel token o s) s
unfolding cancel
Kept-cancel d token none s f live h = absurd (ground arith)
Kept-cancel d token (some r) s f live h =
    let named = token_of_found token s.requests r f in
    let found = ap (λ k. find_request k s.requests) named ∙ f in
    if_either (λ (t : Previews). Kept d t s) r.completed
      (λ over.
        let free = waiting-free d r.token s.requests r found in
        let nothing = owes-completed d r (settled-found token s.requests r h f) over in
        (settled-free r.token s.requests h, omega (arith, free, nothing)))
      (λ waits.
        Kept-freed d r r s (preview_request_free_buffer r s) found refl refl
          (account-free_buffer d r s) h)

pub Kept-on_frame :
    (d : ℕ) (handle : PreviewRequest → Previews → Previews) (token : ℕ) (o : Option PreviewRequest)
    (s : Previews)
    → find_request token s.requests ≡ o
    → ((r : PreviewRequest) → find_request r.token s.requests ≡ some r → Kept d (handle r s) s)
    → all is_settled s.requests ≡ true
    → Kept d (on_frame handle o s) s
unfolding on_frame
Kept-on_frame d handle token none s f k h = (h, refl)
Kept-on_frame d handle token (some r) s f k h =
    let named = token_of_found token s.requests r f in
    if_both (λ (t : Previews). Kept d t s) r.has_frame
      (k r (ap (λ x. find_request x s.requests) named ∙ f)) (h, refl)

account-trim_slot :
    (d i : ℕ) (pb : PreviewBuffer) (s : Previews) → account d (trim_slot i pb s) ≡ account d s
unfolding trim_slot
account-trim_slot d i pb s =
    if_same (account d) (pb.in_use || not (has_buffer pb)) refl (account-tear_down d pb.buffer s)

pub account-trim_from : (d i n : ℕ) (s : Previews) → account d (trim_from i n s) ≡ account d s
unfolding trim_from
account-trim_from d i zero s = refl
account-trim_from d i (suc n) s =
    account-trim_from d (suc i) n (trim_slot i (s.pool i) s) ∙ account-trim_slot d i (s.pool i) s
