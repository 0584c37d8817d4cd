-- ===== src/Clipboard/Contents.antt =====
-- src/wayland/clipboard_watch.c: what the callback is told.
use singularity_shell.Base.{
  ℕ, ◌+◌, ◌≡◌, refl, sym, ap, ◌∙◌, inl, inr, Bool, true, false, not, ◌||◌, Option, none, some, List,
  [], ◌∷◌, ◌++◌, arith, ltb, leb, ◌==◌, if◌then◌else◌, length, all, length-append, Bool-cases,
  and-true, ==_iff, ==_refl, if_same, if_both, if_either,
}
use mathlib.Core.Path.{subst}
use singularity_shell.CString.{Text}
use singularity_shell.Clipboard.{
  Offer, ReadJob, Told, Clipboard, initial, send, tell, device_data_offer, offer_mime, find_offer,
  free_offer, has_mime, pick_mime, limit_of, password_hint, read_offer, select_offer,
  device_selection, device_primary, device_finished, find_job, free_job, put_job, read_chunk,
  read_found, on_read, content, secret,
}
use singularity_shell.Clipboard.Client.{
  has_source, Env, ensure_globals, watch_start, is_own, source_cancelled, offer_all, offered,
  destroy_own, take_selection, clipboard_set, send_paste, Event, step, steps, started, offer_came,
  mime_came, selected, primary, device_gone, chunk_read, copied, source_gone, pasted,
}
use singularity_shell.Clipboard.Kept.{
  job_fits, told_fits, heard, Owned, both, both-ensure_globals, both-watch_start, both-send_paste,
  both-device_primary,
}
use singularity_shell.Clipboard.Sources.{both-offer_all}

-- The readings.
jobs_fit-free :
    (job : ℕ) (js : List ReadJob) → all job_fits js ≡ true → all job_fits (free_job job js) ≡ true
unfolding free_job
jobs_fit-free job [] h = refl
jobs_fit-free job (j ∷ rest) h =
    let parts = and-true (job_fits j) (all job_fits rest) h in
    let kept = jobs_fit-free job rest parts.1 in
    if_same (all job_fits) (j.job == job) parts.1 (rw (parts.0, kept))

jobs_fit-put :
    (new : ReadJob) (js : List ReadJob)
    → job_fits new ≡ true
    → all job_fits js ≡ true
    → all job_fits (put_job new js) ≡ true
unfolding put_job
jobs_fit-put new [] n h = refl
jobs_fit-put new (j ∷ rest) n h =
    let parts = and-true (job_fits j) (all job_fits rest) h in
    let kept = jobs_fit-put new rest n parts.1 in
    if_same (all job_fits) (j.job == new.job) (rw (n, parts.1)) (rw (parts.0, kept))

job_fits-found :
    (job : ℕ) (js : List ReadJob) (j : ReadJob)
    → all job_fits js ≡ true
    → find_job job js ≡ some j
    → job_fits j ≡ true
unfolding find_job
job_fits-found job [] j h f = cc
job_fits-found job (k ∷ rest) j h f =
    let parts = and-true (job_fits k) (all job_fits rest) h in
    elim (Bool-cases (k.job == job)) [
      | inl same ↦
          let first =
            ap (λ (x : Option ReadJob). elim x [ some i ↦ job_fits i | none ↦ true ])
              (rw same at f) in
          sym first ∙ parts.0
      | inr other ↦ job_fits-found job rest j parts.1 (rw other at f)
    ]

abbrev IsSound : Clipboard → Type 0
IsSound s = (all job_fits s.jobs ≡ true) × (all told_fits s.told ≡ true)

IsSound-heard : (s t : Clipboard) → heard t ≡ heard s → IsSound s → IsSound t
IsSound-heard s t e h =
    subst (λ (x : List ReadJob × List Told). (all job_fits x.0 ≡ true) × (all told_fits x.1 ≡ true))
      (sym e) h

IsSound-same : (s t : Clipboard) → both t ≡ both s → IsSound s → IsSound t
IsSound-same s t e h = IsSound-heard s t (ap (λ (x : (List ReadJob × List Told) × Owned). x.0) e) h

tell-IsSound : (t : Told) (s : Clipboard) → told_fits t ≡ true → IsSound s → IsSound (tell t s)
unfolding tell
tell-IsSound t s f h = let more = h.1 in if_both IsSound s.callback (h.0, rw (f, more)) h

jobs-tell : (t : Told) (s : Clipboard) → (tell t s).jobs ≡ s.jobs
unfolding tell
jobs-tell t s = if_same Clipboard.jobs s.callback refl refl

job_fits-longer :
    (j : ReadJob) (chunk : Text)
    → job_fits j ≡ true
    → ltb j.limit (length j.buf + length chunk) ≡ false
    → job_fits (record j { buf = j.buf ++ chunk }) ≡ true
unfolding job_fits
job_fits-longer j chunk h small = let n = length-append j.buf chunk in ground (arith, n)

told_fits-job :
    (j : ReadJob)
    → job_fits j ≡ true
    → ltb 0 (length j.buf) ≡ true
    → told_fits (content j.mime j.buf) ≡ true
unfolding job_fits told_fits
told_fits-job j h filled =
    let parts = and-true (leb (length j.buf) j.limit) (j.limit == limit_of j.mime) h in
    let limit = (==_iff j.limit (limit_of j.mime)).0 parts.1 in
    let below : leb (length j.buf) (limit_of j.mime) ≡ true =
      ap (leb (length j.buf)) (sym limit) ∙ parts.0 in
    rw (filled, below)

ended-IsSound :
    (j : ReadJob) (s t : Clipboard)
    → t.jobs ≡ s.jobs
    → IsSound t
    → all job_fits (free_job j.job s.jobs) ≡ true
    → IsSound (record t { jobs = free_job j.job t.jobs })
ended-IsSound j s t e h freed = (ap (λ js. all job_fits (free_job j.job js)) e ∙ freed, h.1)

read_found-IsSound :
    (job : ℕ) (chunk : Option Text) (o : Option ReadJob) (s : Clipboard)
    → find_job job s.jobs ≡ o
    → IsSound s
    → IsSound (read_found chunk o s)
unfolding read_found read_chunk
read_found-IsSound job chunk none s f h = h
read_found-IsSound job none (some j) s f h = (jobs_fit-free j.job s.jobs h.0, h.1)
read_found-IsSound job (some chunk) (some j) s f h =
    let fits = job_fits-found job s.jobs j h.0 f in
    let freed = jobs_fit-free j.job s.jobs h.0 in
    if_either IsSound (ltb 0 (length chunk))
      (λ more.
        if_either IsSound (ltb j.limit (length j.buf + length chunk)) (λ too_large. (freed, h.1))
          (λ small. (
            jobs_fit-put (record j { buf = j.buf ++ chunk }) s.jobs
                (job_fits-longer j chunk fits small) h.0,
            h.1,
          )))
      (λ over.
        ended-IsSound j s (if ltb 0 (length j.buf) then tell (content j.mime j.buf) s else s)
          (if_same Clipboard.jobs (ltb 0 (length j.buf)) (jobs-tell (content j.mime j.buf) s) refl)
          (if_either IsSound (ltb 0 (length j.buf))
            (λ filled. tell-IsSound (content j.mime j.buf) s (told_fits-job j fits filled) h)
            (λ empty. h))
          freed)

read_offer-IsSound :
    (pipes : Bool) (offer : ℕ) (mime : Option Text) (s : Clipboard)
    → IsSound s
    → IsSound (read_offer pipes offer mime s)
unfolding read_offer free_offer send job_fits
read_offer-IsSound pipes offer none s h = h
read_offer-IsSound pipes offer (some mime) s h =
    let jobs = h.0 in
    let itself = ==_refl (limit_of mime) in
    let small : leb 0 (limit_of mime) ≡ true = ground arith in
    if_both IsSound (not pipes) h (rw (itself, small, jobs), h.1)

select_offer-IsSound :
    (pipes : Bool) (o : Option Offer) (s : Clipboard) → IsSound s → IsSound (select_offer pipes o s)
unfolding select_offer free_offer told_fits
select_offer-IsSound pipes none s h = h
select_offer-IsSound pipes (some o) s h =
    if_both IsSound (has_mime o.mimes password_hint) (tell-IsSound secret s refl h)
      (read_offer-IsSound pipes o.offer (pick_mime o.mimes) s h)

device_selection-IsSound :
    (pipes : Bool) (o : Option ℕ) (s : Clipboard) → IsSound s → IsSound (device_selection pipes o s)
unfolding device_selection
device_selection-IsSound pipes none s h = h
device_selection-IsSound pipes (some offer) s h =
    select_offer-IsSound pipes (find_offer offer s.offers) s h

heard-destroy_own : (o : Option ℕ) (s : Clipboard) → heard (destroy_own o s) ≡ heard s
unfolding destroy_own send
heard-destroy_own none s = refl
heard-destroy_own (some x) s = refl

take_selection-IsSound :
    (mime bytes : Text) (s : Clipboard) → IsSound s → IsSound (take_selection mime bytes s)
unfolding take_selection send
take_selection-IsSound mime bytes s h =
    let begun = record s { next_source = s.next_source + 1; sources = s.next_source ∷ s.sources } in
    let made = offer_all s.next_source (offered mime) begun in
    let e =
      ap (λ (x : (List ReadJob × List Told) × Owned). x.0)
        (both-offer_all s.next_source (offered mime) begun) in
    IsSound-heard s (destroy_own made.own_source made) (heard-destroy_own made.own_source made ∙ e)
      h

clipboard_set-IsSound :
    (env : Env) (mime bytes : Text) (s : Clipboard)
    → IsSound s
    → IsSound (clipboard_set env mime bytes s).1
unfolding clipboard_set
clipboard_set-IsSound env mime bytes s h =
    let t = (ensure_globals env s).1 in
    let kept = IsSound-same s t (both-ensure_globals env s) h in
    if_both (λ (r : Bool × Clipboard). IsSound r.1) (not (ensure_globals env s).0 || not t.device)
      kept (take_selection-IsSound mime bytes t kept)

source_cancelled-heard : (source : ℕ) (s : Clipboard) → heard (source_cancelled source s) ≡ heard s
unfolding source_cancelled
source_cancelled-heard source s = if_same heard (is_own s.own_source source) refl refl

step-IsSound : (e : Event) (s : Clipboard) → IsSound s → IsSound (step e s)
unfolding step device_data_offer offer_mime device_finished on_read
step-IsSound (started env func) s h =
    IsSound-same s (watch_start env func s).1 (both-watch_start env func s) h
step-IsSound (offer_came offer) s h = h
step-IsSound (mime_came offer mime) s h = h
step-IsSound (selected pipes o) s h = device_selection-IsSound pipes o s h
step-IsSound (primary o) s h = IsSound-same s (device_primary o s) (both-device_primary o s) h
step-IsSound device_gone s h = h
step-IsSound (chunk_read job chunk) s h =
    read_found-IsSound job chunk (find_job job s.jobs) s refl h
step-IsSound (copied env mime bytes) s h = clipboard_set-IsSound env mime bytes s h
step-IsSound (source_gone source) s h =
    if_both IsSound (has_source source s.sources)
      (IsSound-heard s (source_cancelled source s) (source_cancelled-heard source s) h) h
step-IsSound (pasted env) s h = IsSound-same s (send_paste env s).1 (both-send_paste env s) h

steps-IsSound : (es : List Event) (s : Clipboard) → IsSound s → IsSound (steps es s)
unfolding steps
steps-IsSound [] s h = h
steps-IsSound (e ∷ es) s h = steps-IsSound es (step e s) (step-IsSound e s h)

-- Over any sequence of events, whatever the other programs offer and however their data arrives, each
-- content that the callback is told is not empty and no larger than the limit of its type.
pub steps-told : (es : List Event) → all told_fits (steps es initial).told ≡ true
steps-told es = (steps-IsSound es initial (refl, refl)).1
