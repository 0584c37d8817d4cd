-- ===== src/Preview/Sharing.antt =====
-- src/wayland/wayland_integration.c: two pictures never share a buffer of the pool.
use singularity_shell.Base.{
  ℕ, ◌+◌, ◌≡◌, refl, sym, ap, ◌∙◌, Bool, true, false, not, ◌&&◌, Option, none, some, List, arith,
  if_same, if_both,
}
use singularity_shell.Preview.{
  PreviewBuffer, PreviewRequest, Previews, effect, tear_down, preview_buffer_release, delivered,
}
use singularity_shell.Preview.Requests.{
  cancel_freed, find_request, put_request, free_request, refuse, run_destroy,
  preview_request_free_buffer, without_buffer, complete, frame_handle_ready, frame_handle_failed,
  refuse_capture, new_request, cancel,
}
use mathlib.Core.Path.{subst}
use singularity_shell.Preview.Holders.{
  is_slot, one_if, holders, total, IsUnshared, token_of_found, holders-put, holders-free, let_go,
  let_go-IsUnshared, IsUnshared-fewer,
}

abbrev pub IsSafe : Previews → Type 0
IsSafe s = IsUnshared s.pool s.requests

-- What requests and pool become, by the effects too.
abbrev pub parts : Previews → (ℕ → PreviewBuffer) × List PreviewRequest
parts s = (s.pool, s.requests)

pub parts-tear_down : (b : Option ℕ) (s : Previews) → parts (tear_down b s) ≡ parts s
unfolding tear_down effect
parts-tear_down none s = refl
parts-tear_down (some b) s = refl

pub parts-refuse : (has : Bool) (d : ℕ) (s : Previews) → parts (refuse has d s) ≡ parts s
unfolding refuse effect
parts-refuse has d s = if_same parts has refl refl

pub parts-run_destroy : (has : Bool) (d : ℕ) (s : Previews) → parts (run_destroy has d s) ≡ parts s
unfolding run_destroy effect
parts-run_destroy has d s = if_same parts has refl refl

parts-free_slot :
    (slot : Option ℕ) (b : Option ℕ) (s : Previews)
    → parts (elim slot [ some i ↦ preview_buffer_release (some i) s | none ↦ tear_down b s ])
      ≡ (let_go slot s.pool, s.requests)
unfolding preview_buffer_release let_go
parts-free_slot none b s = parts-tear_down b s
parts-free_slot (some i) b s = refl

parts-free_buffer :
    (r : PreviewRequest) (s : Previews)
    → parts (preview_request_free_buffer r s) ≡ (let_go r.slot s.pool, s.requests)
unfolding preview_request_free_buffer
parts-free_buffer r s = parts-free_slot r.slot r.buffer s

pub parts-IsSafe : (s t : Previews) → parts t ≡ parts s → IsSafe s → IsSafe t
parts-IsSafe s t e h =
    subst (λ (p : (ℕ → PreviewBuffer) × List PreviewRequest). IsUnshared p.0 p.1) (sym e) h

-- The end of a request, by its completion or by its cancellation.
parts-ended :
    (r : PreviewRequest) (s : Previews)
    → parts (run_destroy r.has_destroy r.user_data (preview_request_free_buffer r s))
      ≡ (let_go r.slot s.pool, s.requests)
parts-ended r s =
    parts-run_destroy r.has_destroy r.user_data (preview_request_free_buffer r s)
    ∙ parts-free_buffer r s

pub ended-IsSafe :
    (r : PreviewRequest) (s t : Previews) (fewer : List PreviewRequest)
    → parts t ≡ (let_go r.slot s.pool, s.requests)
    → IsSafe s
    → ((i : ℕ) → holders i fewer + one_if (is_slot r.slot i) ≡ holders i s.requests)
    → IsSafe (record t { requests = fewer })
ended-IsSafe r s t fewer e h k =
    subst (λ (p : (ℕ → PreviewBuffer) × List PreviewRequest). IsUnshared p.0 fewer) (sym e)
      (let_go-IsUnshared r s.pool s.requests fewer h k)

put_away :
    (i token : ℕ) (rs : List PreviewRequest) (r new : PreviewRequest)
    → find_request token rs ≡ some r
    → new.token ≡ token
    → new.slot ≡ none
    → holders i (put_request new rs) + one_if (is_slot r.slot i) ≡ holders i rs
put_away i token rs r new f n k =
    let put = holders-put i token rs r new f n in
    let nothing = ap (λ x. one_if (is_slot x i)) k in omega (arith, put, nothing)

pub complete-IsSafe :
    (r : PreviewRequest) (s : Previews)
    → find_request r.token s.requests ≡ some r
    → IsSafe s
    → IsSafe (complete r s)
unfolding complete
complete-IsSafe r s f h =
    let t = run_destroy r.has_destroy r.user_data (preview_request_free_buffer r s) in
    let new = record (without_buffer r) {
      has_frame = false;
      has_destroy = false;
      completed = true;
    } in
    let e = parts-ended r s in
    let same = ap (λ (p : (ℕ → PreviewBuffer) × List PreviewRequest). p.1) e in
    if_both IsSafe r.external
      (ended-IsSafe r s t (put_request new t.requests) e h
        (λ i. rw same (put_away i r.token s.requests r new f refl refl)))
      (ended-IsSafe r s t (free_request r.token t.requests) e h
        (λ i. rw same (holders-free i r.token s.requests r f)))

pub frame_handle_ready-IsSafe :
    (r : PreviewRequest) (s : Previews)
    → find_request r.token s.requests ≡ some r
    → IsSafe s
    → IsSafe (frame_handle_ready r s)
unfolding frame_handle_ready effect
frame_handle_ready-IsSafe r s f h =
    if_both IsSafe (not r.cancelled && r.has_callback)
      (complete-IsSafe r (effect (delivered r.width r.height r.stride r.user_data) s) f h)
      (complete-IsSafe r s f h)

pub frame_handle_failed-IsSafe :
    (r : PreviewRequest) (s : Previews)
    → find_request r.token s.requests ≡ some r
    → IsSafe s
    → IsSafe (frame_handle_failed r s)
unfolding frame_handle_failed
frame_handle_failed-IsSafe r s f h =
    let t = refuse (not r.cancelled && r.has_callback) r.user_data s in
    let e = parts-refuse (not r.cancelled && r.has_callback) r.user_data s in
    let same = ap (λ (p : (ℕ → PreviewBuffer) × List PreviewRequest). p.1) e in
    complete-IsSafe r t (ap (find_request r.token) same ∙ f) (parts-IsSafe s t e h)

parts-cancel_freed : (o : Option PreviewRequest) (s : Previews) → parts (cancel_freed o s) ≡ parts s
unfolding cancel_freed
parts-cancel_freed none s = refl
parts-cancel_freed (some r) s = parts-run_destroy r.has_destroy r.user_data s

pub cancel-IsSafe :
    (token : ℕ) (o : Option PreviewRequest) (s : Previews)
    → find_request token s.requests ≡ o
    → IsSafe s
    → IsSafe (cancel token o s)
unfolding cancel
cancel-IsSafe token none s f h =
    let t = record s { faulted = true } in
    parts-IsSafe s (cancel_freed (find_request token s.freed) t)
      (parts-cancel_freed (find_request token s.freed) t) h
cancel-IsSafe token (some r) s f h =
    let named = token_of_found token s.requests r f in
    let found = ap (λ k. find_request k s.requests) named ∙ f in
    let t = run_destroy r.has_destroy r.user_data (preview_request_free_buffer r s) in
    let e = parts-ended r s in
    let same = ap (λ (p : (ℕ → PreviewBuffer) × List PreviewRequest). p.1) e in
    if_both IsSafe r.completed
      (IsUnshared-fewer r s.pool s.requests (free_request r.token s.requests) h
        (λ i. holders-free i r.token s.requests r found))
      (ended-IsSafe r s t (free_request r.token t.requests) e h
        (λ i. rw same (holders-free i r.token s.requests r found)))

pub refuse_capture-IsSafe :
    (has_callback has_destroy : Bool) (d : ℕ) (s : Previews)
    → IsSafe s
    → IsSafe (refuse_capture has_callback has_destroy d s)
unfolding refuse_capture
refuse_capture-IsSafe has_callback has_destroy d s h =
    parts-IsSafe s (run_destroy has_destroy d (refuse has_callback d s))
      (parts-run_destroy has_destroy d (refuse has_callback d s) ∙ parts-refuse has_callback d s) h

pub new_request-IsSafe :
    (external has_callback has_destroy : Bool) (d : ℕ) (s : Previews)
    → IsSafe s
    → IsSafe (new_request external has_callback has_destroy d s)
unfolding new_request IsUnshared holders total
new_request-IsSafe external has_callback has_destroy d s h i = let x = h i in omega (arith, x)
