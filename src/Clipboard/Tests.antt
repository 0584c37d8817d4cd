-- ===== src/Clipboard/Tests.antt =====
-- The clipboard client on concrete events, and its theorems applied to them.
use singularity_shell.Base.{if◌then◌else◌, ltb, ◌+◌, ℕ, ◌≡◌, refl, true, some, List, [], ◌∷◌, all}
use singularity_shell.CString.{codes}
use singularity_shell.Clipboard.{
  initial, device_data_offer, offer_mime, password_hint, device_selection, on_read, content, secret,
}
use singularity_shell.Clipboard.Client.{
  is_own, Env, watch_start, clipboard_set, Event, step, steps, started, offer_came, mime_came,
  selected, chunk_read, copied,
}
use singularity_shell.Clipboard.Kept.{destroyed, occurs, told_fits, just}
use singularity_shell.Clipboard.Sources.{steps-sources}
use singularity_shell.Clipboard.Contents.{steps-told}

abbrev desktop : Env
desktop = record {
  has_display = true;
  has_manager = true;
  has_vk_manager = true;
  has_seat = true;
  keymap_size = some 60000;
}

-- A text and a picture are offered, and the picture is read in two chunks; then the client takes the
-- selection twice, and the first source is cancelled.
abbrev copying : List Event
copying =
    started desktop true
    ∷ offer_came 9
    ∷ mime_came 9 (codes "text/plain")
    ∷ mime_came 9 (codes "image/png")
    ∷ selected true (some 9)
    ∷ chunk_read 0 (some (codes "PN"))
    ∷ chunk_read 0 (some (codes "G"))
    ∷ chunk_read 0 (some [])
    ∷ copied desktop (codes "text/plain") (codes "one")
    ∷ copied desktop (codes "text/plain") (codes "two")
    ∷ []

tells_picture : (steps copying initial).told ≡ content (codes "image/png") (codes "PNG") ∷ []
unfolding steps step clipboard_set on_read device_selection offer_mime device_data_offer
    singularity_shell.CString.str_eq watch_start
tells_picture = refl

-- A password is not read.
abbrev password_copied : List Event
password_copied =
    started desktop true
    ∷ offer_came 9
    ∷ mime_came 9 (codes "text/plain")
    ∷ mime_came 9 password_hint
    ∷ selected true (some 9)
    ∷ []

reads_no_password :
    ((steps password_copied initial).told ≡ secret ∷ [])
    × ((steps password_copied initial).sent ≡ [])
unfolding steps step device_selection offer_mime device_data_offer singularity_shell.CString.str_eq
    watch_start
reads_no_password = (refl, refl)

steps-sources_example :
    let s = steps copying initial in
    (s.sources ≡ just s.own_source)
    × ((x : ℕ)
        → occurs x (destroyed s.sent) + (if is_own s.own_source x then 1 else 0)
          ≡ (if ltb x s.next_source then 1 else 0))
steps-sources_example = steps-sources copying

steps-told_example : all told_fits (steps copying initial).told ≡ true
steps-told_example = steps-told copying
