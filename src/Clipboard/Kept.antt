-- ===== src/Clipboard/Kept.antt =====
-- src/wayland/clipboard_watch.c: the readings and the sources, and the operations that touch neither.
use singularity_shell.Base.{
  ◌+◌, ℕ, ◌≡◌, refl, sym, ap, ◌∙◌, Bool, true, not, ◌&&◌, ◌||◌, Option, none, some, List, [], ◌∷◌,
  ltb, leb, ◌==◌, length, if_same, if◌then◌else◌,
}
use mathlib.Core.Path.{subst}
use singularity_shell.Clipboard.{
  Request, destroy_source, ReadJob, Told, Clipboard, send, free_offer, limit_of, device_primary,
  content, secret,
}
use singularity_shell.Clipboard.Client.{
  is_own, Env, ensure_globals, make_device, watch_start, next_time, paste_key, paste_with,
  send_paste,
}

-- A reading holds no more than the limit of its type.
unfoldable pub job_fits : ReadJob → Bool
job_fits j = leb (length j.buf) j.limit && (j.limit == limit_of j.mime)

-- A content is not empty, and no larger than the limit of its type.
unfoldable pub told_fits : Told → Bool
told_fits (content mime bytes) = ltb 0 (length bytes) && leb (length bytes) (limit_of mime)
told_fits secret = true

abbrev pub heard : Clipboard → List ReadJob × List Told
heard s = (s.jobs, s.told)

-- The sources that are alive are the client's own one.
abbrev pub just : Option ℕ → List ℕ
just none = []
just (some x) = x ∷ []

unfoldable pub is_fresh : Option ℕ → ℕ → Bool
is_fresh none n = true
is_fresh (some x) n = ltb x n

-- The sources for which the destroy request was sent.
abbrev pub destroyed : List Request → List ℕ
destroyed [] = []
destroyed (destroy_source x ∷ rest) = x ∷ destroyed rest
destroyed (_ ∷ rest) = destroyed rest

abbrev pub occurs : ℕ → List ℕ → ℕ
occurs x [] = 0
occurs x (y ∷ ys) = (if y == x then 1 else 0) + occurs x ys

-- Each source that was made is the client's own one or was destroyed once, and no other was destroyed.
abbrev pub Balanced : Option ℕ → ℕ → List ℕ → Type 0
Balanced own next gone =
    (x : ℕ) → occurs x gone + (if is_own own x then 1 else 0) ≡ (if ltb x next then 1 else 0)

abbrev pub Owned : Type 0
Owned = List ℕ × (Option ℕ × (ℕ × List ℕ))

abbrev pub owned : Clipboard → Owned
owned s = (s.sources, (s.own_source, (s.next_source, destroyed s.sent)))

abbrev Alone : Owned → Type 0
Alone (sources, (own, (next, gone))) =
    (sources ≡ just own) × (is_fresh own next ≡ true) × Balanced own next gone

abbrev pub IsAlone : Clipboard → Type 0
IsAlone s = Alone (owned s)

-- What an operation does not touch.
abbrev pub both : Clipboard → (List ReadJob × List Told) × Owned
both s = (heard s, owned s)

pub IsAlone-owned : (s t : Clipboard) → owned t ≡ owned s → IsAlone s → IsAlone t
IsAlone-owned s t e h = subst Alone (sym e) h

pub IsAlone-same : (s t : Clipboard) → both t ≡ both s → IsAlone s → IsAlone t
IsAlone-same s t e h = IsAlone-owned s t (ap (λ (x : (List ReadJob × List Told) × Owned). x.1) e) h

pub both-ensure_globals : (env : Env) (s : Clipboard) → both (ensure_globals env s).1 ≡ both s
unfolding ensure_globals
both-ensure_globals env s =
    let of : Bool × Clipboard → (List ReadJob × List Told) × Owned = λ r. both r.1 in
    if_same of s.display refl (if_same of (not env.has_display) refl refl)

both-make_device : (env : Env) (s : Clipboard) → both (make_device env s).1 ≡ both s
unfolding make_device
both-make_device env s =
    let of : Bool × Clipboard → (List ReadJob × List Told) × Owned = λ r. both r.1 in
    if_same of s.device refl (if_same of (not env.has_seat) refl refl)

pub both-watch_start :
    (env : Env) (func : Bool) (s : Clipboard) → both (watch_start env func s).1 ≡ both s
unfolding watch_start
both-watch_start env func s =
    let ensured = ensure_globals env (record s { callback = func }) in
    let e = both-ensure_globals env (record s { callback = func }) in
    if_same (λ (r : Bool × Clipboard). both r.1) (not ensured.0) e
      (both-make_device env ensured.1 ∙ e)

both-paste_with : (size : Option ℕ) (s : Clipboard) → both (paste_with size s).1 ≡ both s
unfolding paste_with paste_key next_time send
both-paste_with none s = refl
both-paste_with (some size) s = refl

pub both-send_paste : (env : Env) (s : Clipboard) → both (send_paste env s).1 ≡ both s
unfolding send_paste
both-send_paste env s =
    let t = (ensure_globals env s).1 in
    let e = both-ensure_globals env s in
    let of : Bool × Clipboard → (List ReadJob × List Told) × Owned = λ r. both r.1 in
    if_same of (not t.display || not t.vk_manager) e (
      if_same of (not t.vkbd && not env.has_seat) e
        (both-paste_with env.keymap_size (record t { vkbd = true }) ∙ e))

pub both-device_primary : (o : Option ℕ) (s : Clipboard) → both (device_primary o s) ≡ both s
unfolding device_primary free_offer
both-device_primary none s = refl
both-device_primary (some offer) s = refl
