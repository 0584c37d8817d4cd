-- ===== src/Clipboard/Sources.antt =====
-- src/wayland/clipboard_watch.c: the sources that are alive.
use singularity_shell.Base.{
  ℕ, ◌+◌, ◌≡◌, refl, sym, ap, ◌∙◌, inl, inr, Bool, true, false, not, ◌||◌, Option, none, some, List,
  [], ◌∷◌, arith, ltb, ◌==◌, if◌then◌else◌, length, Bool-cases, lt→ltb, ==_refl, if_same, if_both,
}
use mathlib.Core.Path.{subst}
use singularity_shell.CString.{Text}
use singularity_shell.Clipboard.{
  Offer, ReadJob, Told, Clipboard, initial, send, tell, device_data_offer, offer_mime, find_offer,
  free_offer, has_mime, pick_mime, password_hint, read_offer, select_offer, device_selection,
  device_primary, device_finished, find_job, read_chunk, read_found, on_read, offer_mime_of,
  content, secret,
}
use singularity_shell.Clipboard.Client.{
  has_source, destroy, Env, ensure_globals, watch_start, is_own, drop_source, source_cancelled,
  offer_all, offered, destroy_own, take_selection, clipboard_set, send_paste, Event, step, steps,
  started, offer_came, mime_came, selected, primary, device_gone, chunk_read, copied, source_gone,
  pasted,
}
use singularity_shell.Clipboard.Kept.{
  destroyed, occurs, Balanced, just, is_fresh, Owned, owned, IsAlone, both, IsAlone-owned,
  IsAlone-same, both-ensure_globals, both-watch_start, both-send_paste, both-device_primary,
}

-- The sources.
owned-tell : (t : Told) (s : Clipboard) → owned (tell t s) ≡ owned s
unfolding tell
owned-tell t s = if_same owned s.callback refl refl

owned-read_offer :
    (pipes : Bool) (offer : ℕ) (mime : Option Text) (s : Clipboard)
    → owned (read_offer pipes offer mime s) ≡ owned s
unfolding read_offer free_offer send
owned-read_offer pipes offer none s = refl
owned-read_offer pipes offer (some mime) s = if_same owned (not pipes) refl refl

owned-select_offer :
    (pipes : Bool) (o : Option Offer) (s : Clipboard) → owned (select_offer pipes o s) ≡ owned s
unfolding select_offer free_offer
owned-select_offer pipes none s = refl
owned-select_offer pipes (some o) s =
    if_same owned (has_mime o.mimes password_hint) (owned-tell secret s)
      (owned-read_offer pipes o.offer (pick_mime o.mimes) s)

owned-device_selection :
    (pipes : Bool) (o : Option ℕ) (s : Clipboard) → owned (device_selection pipes o s) ≡ owned s
unfolding device_selection
owned-device_selection pipes none s = refl
owned-device_selection pipes (some offer) s = owned-select_offer pipes (find_offer offer s.offers) s

owned-read_found :
    (chunk : Option Text) (j : Option ReadJob) (s : Clipboard)
    → owned (read_found chunk j s) ≡ owned s
unfolding read_found read_chunk
owned-read_found chunk none s = refl
owned-read_found none (some j) s = refl
owned-read_found (some chunk) (some j) s =
    if_same owned (ltb 0 (length chunk))
      (if_same owned (ltb j.limit (length j.buf + length chunk)) refl refl)
      (if_same owned (ltb 0 (length j.buf)) (owned-tell (content j.mime j.buf) s) refl)

has_source_just :
    (own : Option ℕ) (source : ℕ) → has_source source (just own) ≡ true → own ≡ some source
unfolding has_source
has_source_just none source h = absurd (ground arith)
has_source_just (some x) source h = ap some (ground arith)

-- The client's own source ends.
end_own :
    (own : ℕ) (next : ℕ) (gone : List ℕ)
    → Balanced (some own) next gone
    → Balanced none next (own ∷ gone)
unfolding is_own
end_own own next gone h x = ground (arith, h x)

cancelled-IsAlone :
    (source : ℕ) (s : Clipboard)
    → s.own_source ≡ some source
    → IsAlone s
    → IsAlone (source_cancelled source s)
unfolding source_cancelled destroy is_own is_fresh drop_source send
cancelled-IsAlone source s own h =
    let itself = ==_refl source in
    let before = rw own at h in
    rw (own, itself)
      (
        ap (drop_source source) before.0 ∙ rw itself,
        refl,
        end_own source s.next_source (destroyed s.sent) before.2,
      )

source_cancelled-IsAlone :
    (source : ℕ) (s : Clipboard)
    → IsAlone s
    → IsAlone (if has_source source s.sources then source_cancelled source s else s)
source_cancelled-IsAlone source s h = elim (Bool-cases (has_source source s.sources)) [
  | inl alive ↦
      let own = has_source_just s.own_source source (ap (has_source source) (sym h.0) ∙ alive) in
      rw alive (cancelled-IsAlone source s own h)
  | inr dead ↦ rw dead h
]

pub both-offer_all :
    (source : ℕ) (mimes : List Text) (s : Clipboard) → both (offer_all source mimes s) ≡ both s
unfolding offer_all send
both-offer_all source [] s = refl
both-offer_all source (mime ∷ mimes) s =
    both-offer_all source mimes (send (offer_mime_of source mime) s)

-- The own source is destroyed where there is one; the new one is left alone.
destroy_own-owned :
    (o : Option ℕ) (n : ℕ) (t : Clipboard)
    → t.sources ≡ n ∷ just o
    → is_fresh o n ≡ true
    → Balanced o n (destroyed t.sent)
    → ((destroy_own o t).sources ≡ n ∷ [])
      × ((destroy_own o t).next_source ≡ t.next_source)
      × Balanced none n (destroyed (destroy_own o t).sent)
unfolding destroy_own destroy send is_fresh drop_source
destroy_own-owned none n t h f g = (h, refl, g)
destroy_own-owned (some x) n t h f g =
    let other : (n == x) ≡ false = ground (arith, f) in
    let itself = ==_refl x in
    (ap (drop_source x) h ∙ rw (other, itself), refl, end_own x n (destroyed t.sent) g)

-- A new source is made.
begin_own :
    (next : ℕ) (gone : List ℕ) → Balanced none next gone → Balanced (some next) (next + 1) gone
unfolding is_own
begin_own next gone h x = ground (arith, h x)

take_selection-IsAlone :
    (mime bytes : Text) (s : Clipboard) → IsAlone s → IsAlone (take_selection mime bytes s)
unfolding take_selection send is_fresh
take_selection-IsAlone mime bytes s h =
    let source = s.next_source in
    let begun = record s { next_source = source + 1; sources = source ∷ s.sources } in
    let made = offer_all source (offered mime) begun in
    let e =
      ap (λ (x : (List ReadJob × List Told) × Owned). x.1)
        (both-offer_all source (offered mime) begun) in
    let own = ap (λ (x : Owned). x.1.0) e in
    let rest =
      destroy_own-owned made.own_source source made
        (ap (λ (x : Owned). x.0) e
          ∙ ap (λ xs. source ∷ xs) h.0
          ∙ ap (λ o. source ∷ just o) (sym own))
        (ap (λ o. is_fresh o source) own ∙ h.1)
        (subst (λ (x : Owned). Balanced x.1.0 source x.1.1.1) (sym e) h.2) in
    let number : (destroy_own made.own_source made).next_source ≡ source + 1 =
      rest.1 ∙ ap (λ (x : Owned). x.1.1.0) e in
    (
      rest.0,
      lt→ltb source (destroy_own made.own_source made).next_source (omega (arith, number)),
      rw number (begin_own source (destroyed (destroy_own made.own_source made).sent) rest.2),
    )

clipboard_set-IsAlone :
    (env : Env) (mime bytes : Text) (s : Clipboard)
    → IsAlone s
    → IsAlone (clipboard_set env mime bytes s).1
unfolding clipboard_set
clipboard_set-IsAlone env mime bytes s h =
    let t = (ensure_globals env s).1 in
    let kept = IsAlone-same s t (both-ensure_globals env s) h in
    if_both (λ (r : Bool × Clipboard). IsAlone r.1) (not (ensure_globals env s).0 || not t.device)
      kept (take_selection-IsAlone mime bytes t kept)

step-IsAlone : (e : Event) (s : Clipboard) → IsAlone s → IsAlone (step e s)
unfolding step device_data_offer offer_mime device_finished on_read
step-IsAlone (started env func) s h =
    IsAlone-same s (watch_start env func s).1 (both-watch_start env func s) h
step-IsAlone (offer_came offer) s h = h
step-IsAlone (mime_came offer mime) s h = h
step-IsAlone (selected pipes o) s h =
    IsAlone-owned s (device_selection pipes o s) (owned-device_selection pipes o s) h
step-IsAlone (primary o) s h = IsAlone-same s (device_primary o s) (both-device_primary o s) h
step-IsAlone device_gone s h = h
step-IsAlone (chunk_read job chunk) s h =
    IsAlone-owned s (read_found chunk (find_job job s.jobs) s)
      (owned-read_found chunk (find_job job s.jobs) s) h
step-IsAlone (copied env mime bytes) s h = clipboard_set-IsAlone env mime bytes s h
step-IsAlone (source_gone source) s h = source_cancelled-IsAlone source s h
step-IsAlone (pasted env) s h = IsAlone-same s (send_paste env s).1 (both-send_paste env s) h

steps-IsAlone : (es : List Event) (s : Clipboard) → IsAlone s → IsAlone (steps es s)
unfolding steps
steps-IsAlone [] s h = h
steps-IsAlone (e ∷ es) s h = steps-IsAlone es (step e s) (step-IsAlone e s h)

initial-IsAlone : IsAlone initial
unfolding is_fresh is_own
initial-IsAlone = (refl, refl, λ x. ground arith)

-- In every state that the clipboard client reaches, the only source that is alive is its own one, if it
-- has one; and of each source that it made, the destroy request was sent once if it is not the own one,
-- and not at all if it is.
pub steps-sources :
    (es : List Event)
    → let s = steps es initial in
      (s.sources ≡ just s.own_source)
      × ((x : ℕ)
          → occurs x (destroyed s.sent) + (if is_own s.own_source x then 1 else 0)
            ≡ (if ltb x s.next_source then 1 else 0))
steps-sources es = let h = steps-IsAlone es initial initial-IsAlone in (h.0, h.2)
