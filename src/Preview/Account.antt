-- ===== src/Preview/Account.antt =====
-- src/wayland/wayland_integration.c: each event keeps the account of what callers handed over.
use singularity_shell.Base.{
  ℕ, ◌+◌, ◌≡◌, refl, sym, ap, ◌∙◌, inl, inr, true, false, not, Option, none, some, List, [], ◌∷◌,
  arith, ◌==◌, all, Bool-cases, and-true, if_same, if_both,
}
use singularity_shell.Preview.{
  PreviewBuffer, preview_pool_max, PreviewRequest, Previews, Memory, is_given, effect, put_slot,
  first_slot, is_free, tear_down, fill_slot, reuse_slot, buffer_made, copy_asked,
}
use singularity_shell.Preview.Requests.{
  find_request, put_request, free_request, refuse, run_destroy, preview_request_free_buffer,
  without_buffer, ask_copy, frame_with, complete,
}
use singularity_shell.Preview.Balance.{
  owes, waiting, balance, is_settled, account, account-effect, account-tear_down, account-refuse,
  account-free_buffer, requests-run_destroy, balance_ended, waiting-free, waiting-put,
}

settled-put :
    (new : PreviewRequest) (rs : List PreviewRequest)
    → is_settled new ≡ true
    → all is_settled rs ≡ true
    → all is_settled (put_request new rs) ≡ true
unfolding put_request
settled-put new [] n h = refl
settled-put new (r ∷ rest) n h =
    let parts = and-true (is_settled r) (all is_settled rest) h in
    let kept = settled-put new rest n parts.1 in
    if_same (all is_settled) (r.token == new.token) (rw (n, parts.1)) (rw (parts.0, kept))

pub settled-free :
    (token : ℕ) (rs : List PreviewRequest)
    → all is_settled rs ≡ true
    → all is_settled (free_request token rs) ≡ true
unfolding free_request
settled-free token [] h = refl
settled-free token (r ∷ rest) h =
    let parts = and-true (is_settled r) (all is_settled rest) h in
    let kept = settled-free token rest parts.1 in
    if_same (all is_settled) (r.token == token) parts.1 (rw (parts.0, kept))

pub settled-found :
    (token : ℕ) (rs : List PreviewRequest) (r : PreviewRequest)
    → all is_settled rs ≡ true
    → find_request token rs ≡ some r
    → is_settled r ≡ true
unfolding find_request
settled-found token [] r h f = cc
settled-found token (p ∷ rest) r h f =
    let parts = and-true (is_settled p) (all is_settled rest) h in
    elim (Bool-cases (p.token == token)) [
      | inl same ↦
          let first =
            ap (λ (x : Option PreviewRequest). elim x [ some q ↦ is_settled q | none ↦ true ])
              (rw same at f) in
          sym first ∙ parts.0
      | inr other ↦ settled-found token rest r parts.1 (rw other at f)
    ]

-- The account of one datum: the requests are settled, and what is given back or owed is as before.
abbrev pub Kept : ℕ → Previews → Previews → Type 0
Kept d t s = (all is_settled t.requests ≡ true) × (balance d t ≡ balance d s)

pub Kept-account :
    (d : ℕ) (s t : Previews)
    → account d t ≡ account d s
    → all is_settled s.requests ≡ true
    → Kept d t s
unfolding waiting
Kept-account d s t e h = (
  ap (λ (x : ℕ × List PreviewRequest). all is_settled x.1) e ∙ h,
  ap (λ (x : ℕ × List PreviewRequest). x.0 + waiting d x.1) e,
)

account-fill_slot :
    (d : ℕ) (m : Memory) (format width height stride : ℕ) (o : Option ℕ) (s : Previews)
    → account d (fill_slot m format width height stride o s).1 ≡ account d s
unfolding fill_slot
account-fill_slot d m format width height stride none s = refl
account-fill_slot d m format width height stride (some i) s =
    let pb = s.pool i in
    let t = tear_down pb.buffer s in
    let e = account-tear_down d pb.buffer s in
    let filled : PreviewBuffer = record {
      buffer = some t.next_buffer;
      width = width;
      height = height;
      stride = stride;
      format = format;
      in_use = true;
    } in
    let full = record t { pool = put_slot i filled t.pool; next_buffer = t.next_buffer + 1 } in
    if_same (λ (r : Option ℕ × Previews). account d r.1) (not (is_given m)) e
      (account-effect d (buffer_made t.next_buffer) full refl ∙ e)

pub account-acquire :
    (d : ℕ) (m : Memory) (format width height stride : ℕ) (o : Option ℕ) (s : Previews)
    → account d (reuse_slot m format width height stride o s).1 ≡ account d s
unfolding reuse_slot
account-acquire d m format width height stride none s =
    account-fill_slot d m format width height stride (first_slot is_free s.pool 0 preview_pool_max)
      s
account-acquire d m format width height stride (some i) s = refl

pub Kept-trans : (d : ℕ) (s t u : Previews) → Kept d t s → Kept d u t → Kept d u s
Kept-trans d s t u a b = (b.0, b.1 ∙ a.1)

Kept-ask_copy :
    (d : ℕ) (r new : PreviewRequest) (s : Previews)
    → find_request r.token s.requests ≡ some r
    → new.token ≡ r.token
    → owes d new ≡ owes d r
    → is_settled new ≡ true
    → all is_settled s.requests ≡ true
    → Kept d (ask_copy new s) s
unfolding ask_copy
Kept-ask_copy d r new s f n o k h =
    let put = waiting-put d r.token s.requests r new f n in
    let told =
      account-effect d (copy_asked new.token) (record s { requests = put_request new s.requests })
        refl in
    let back = ap (λ (x : ℕ × List PreviewRequest). x.0) told in
    (settled-put new s.requests k h, omega (arith, put, o, back))

-- The end of a request after a part that keeps the account.
Kept-ended :
    (d : ℕ) (r : PreviewRequest) (s t : Previews) (fewer : List PreviewRequest)
    → account d t ≡ account d s
    → all is_settled fewer ≡ true
    → waiting d fewer + owes d r ≡ waiting d s.requests
    → Kept d (record (run_destroy r.has_destroy r.user_data t) { requests = fewer }) s
Kept-ended d r s t fewer e k w = (k, balance_ended d r s t fewer e w)

-- The list of requests that such a part leaves.
requests_ended :
    (d : ℕ) (r : PreviewRequest) (s t : Previews)
    → account d t ≡ account d s
    → (run_destroy r.has_destroy r.user_data t).requests ≡ s.requests
requests_ended d r s t e =
    requests-run_destroy r.has_destroy r.user_data t ∙ ap (λ (x : ℕ × List PreviewRequest). x.1) e

pub Kept-freed :
    (d : ℕ) (r new : PreviewRequest) (s t : Previews)
    → find_request r.token s.requests ≡ some r
    → new.token ≡ r.token
    → owes d new ≡ owes d r
    → account d t ≡ account d s
    → all is_settled s.requests ≡ true
    → Kept d
        (record (run_destroy new.has_destroy new.user_data t) {
          requests = free_request new.token (run_destroy new.has_destroy new.user_data t).requests;
        })
        s
Kept-freed d r new s t f n o e h =
    let same = requests_ended d new s t e in
    let less =
      ap (λ rs. waiting d (free_request new.token rs)) same
      ∙ ap (λ k. waiting d (free_request k s.requests)) n in
    let free = waiting-free d r.token s.requests r f in
    Kept-ended d new s t
      (free_request new.token (run_destroy new.has_destroy new.user_data t).requests) e
      (ap (λ rs. all is_settled (free_request new.token rs)) same
        ∙ settled-free new.token s.requests h)
      (omega (arith, less, free, o))

pub Kept-frame_with :
    (d : ℕ) (m : Memory) (r new : PreviewRequest) (slot : Option ℕ) (s : Previews)
    → find_request r.token s.requests ≡ some r
    → new.token ≡ r.token
    → owes d new ≡ owes d r
    → is_settled new ≡ true
    → all is_settled s.requests ≡ true
    → Kept d (frame_with m new slot s) s
unfolding frame_with
Kept-frame_with d m r new (some i) s f n o k h =
    Kept-ask_copy d r (record new { slot = some i; buffer = none }) s f n o k h
Kept-frame_with d m r new none s f n o k h =
    let made = record s { next_buffer = s.next_buffer + 1 } in
    let begun = effect (buffer_made s.next_buffer) made in
    let e = account-effect d (buffer_made s.next_buffer) made refl in
    if_both (λ (t : Previews). Kept d t s) (is_given m)
      (Kept-trans d s begun (ask_copy (record new { buffer = some s.next_buffer }) begun)
        (Kept-account d s begun e h)
        (Kept-ask_copy d r (record new { buffer = some s.next_buffer }) begun
          (ap (λ (x : ℕ × List PreviewRequest). find_request r.token x.1) e ∙ f) n o k
          (ap (λ (x : ℕ × List PreviewRequest). all is_settled x.1) e ∙ h)))
      (Kept-freed d r new s (refuse new.has_callback new.user_data s) f n o
        (account-refuse d new.has_callback new.user_data s) h)

pub Kept-complete :
    (d : ℕ) (r : PreviewRequest) (s : Previews)
    → find_request r.token s.requests ≡ some r
    → all is_settled s.requests ≡ true
    → Kept d (complete r s) s
unfolding complete
Kept-complete d r s f h =
    let t = preview_request_free_buffer r s in
    let e = account-free_buffer d r s in
    let new = record (without_buffer r) {
      has_frame = false;
      has_destroy = false;
      completed = true;
    } in
    let same = requests_ended d r s t e in
    let put = waiting-put d r.token s.requests r new f refl in
    let less = ap (λ rs. waiting d (put_request new rs)) same in
    if_both (λ (u : Previews). Kept d u s) r.external
      (Kept-ended d r s t (put_request new (run_destroy r.has_destroy r.user_data t).requests) e
        (ap (λ rs. all is_settled (put_request new rs)) same ∙ settled-put new s.requests refl h)
        (omega (arith, less, put)))
      (Kept-freed d r r s t f refl refl e h)
