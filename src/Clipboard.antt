-- ===== src/Clipboard.antt =====
-- src/wayland/clipboard_watch.c: the clipboard's history client. Offers, sources and readings are numbers;
-- an offer or a source is in its list as long as its protocol object is alive.
use singularity_shell.Base.{
  ℕ, ◌+◌, ◌*◌, Bool, true, false, not, ◌&&◌, Option, none, some, List, [], ◌∷◌, ◌++◌, ltb, ◌==◌,
  if◌then◌else◌, length,
}
use singularity_shell.CString.{Text, codes, str_eq}
pub mod Client
pub mod Kept
pub mod Sources
pub mod Contents
mod Tests

abbrev pub max_text : ℕ
max_text = 4 * 1024 * 1024

abbrev pub max_image : ℕ
max_image = 24 * 1024 * 1024

pub record Offer : Type 0 where
  pub offer : ℕ
  pub mimes : List Text

pub record ReadJob : Type 0 where
  pub job : ℕ
  pub mime : Text
  pub buf : Text
  pub limit : ℕ

pub data Request : Type 0 where
  receive : ℕ → Text → Request
  offer_mime_of : ℕ → Text → Request
  destroy_source set_selection : ℕ → Request
  send_keymap : ℕ → Request
  send_key : ℕ → ℕ → Bool → Request
  send_modifiers : ℕ → Request

-- What the callback is told: a type with its data, or the hint of a password.
pub data Told : Type 0 where
  content : Text → Text → Told
  secret : Told

-- The static variables, the objects that are alive, what was asked for (the last one first), and what the
-- callback was told.
pub record Clipboard : Type 0 where
  pub display : Bool
  pub manager : Bool
  pub device : Bool
  pub vk_manager : Bool
  pub vkbd : Bool
  pub callback : Bool
  pub own_source : Option ℕ
  pub own_data : Option Text
  pub own_mime : Option Text
  pub vk_time : ℕ
  pub offers : List Offer
  pub sources : List ℕ
  pub jobs : List ReadJob
  pub next_source : ℕ
  pub next_job : ℕ
  pub sent : List Request
  pub told : List Told

abbrev pub initial : Clipboard
initial = record {
  display = false;
  manager = false;
  device = false;
  vk_manager = false;
  vkbd = false;
  callback = false;
  own_source = none;
  own_data = none;
  own_mime = none;
  vk_time = 0;
  offers = [];
  sources = [];
  jobs = [];
  next_source = 0;
  next_job = 0;
  sent = [];
  told = [];
}

unfoldable pub send : Request → Clipboard → Clipboard
send r s = record s { sent = r ∷ s.sent }

unfoldable pub tell : Told → Clipboard → Clipboard
tell t s = if s.callback then record s { told = t ∷ s.told } else s

-- The offers: a new one, one more type of it, its end.
unfoldable pub device_data_offer : ℕ → Clipboard → Clipboard
device_data_offer offer s = record s { offers = record { offer = offer; mimes = [] } ∷ s.offers }

unfoldable pub add_mime : ℕ → Text → List Offer → List Offer
add_mime offer mime [] = []
add_mime offer mime (o ∷ rest) =
    let others = add_mime offer mime rest in
    if o.offer == offer then record o { mimes = o.mimes ++ (mime ∷ []) } ∷ rest else o ∷ others

unfoldable pub offer_mime : ℕ → Text → Clipboard → Clipboard
unfolding add_mime
offer_mime offer mime s = record s { offers = add_mime offer mime s.offers }

unfoldable pub find_offer : ℕ → List Offer → Option Offer
find_offer offer [] = none
find_offer offer (o ∷ rest) =
    let found = find_offer offer rest in if o.offer == offer then some o else found

unfoldable pub drop_offer : ℕ → List Offer → List Offer
drop_offer offer [] = []
drop_offer offer (o ∷ rest) =
    let others = drop_offer offer rest in if o.offer == offer then rest else o ∷ others

unfoldable pub free_offer : ℕ → Clipboard → Clipboard
unfolding drop_offer
free_offer offer s = record s { offers = drop_offer offer s.offers }

unfoldable pub has_mime : List Text → Text → Bool
has_mime [] mime = false
has_mime (m ∷ rest) mime = let found = has_mime rest mime in if str_eq m mime then true else found

-- The first of the candidates that is offered.
unfoldable pub first_mime : List Text → List Text → Option Text
unfolding has_mime
first_mime [] mimes = none
first_mime (c ∷ candidates) mimes =
    let later = first_mime candidates mimes in if has_mime mimes c then some c else later

abbrev pub images : List Text
images = codes "image/png" ∷ codes "image/jpeg" ∷ codes "image/bmp" ∷ []

abbrev pub texts : List Text
texts =
    codes "text/plain;charset=utf-8"
    ∷ codes "UTF8_STRING"
    ∷ codes "text/plain"
    ∷ codes "STRING"
    ∷ codes "TEXT"
    ∷ []

unfoldable pub pick_with : Option Text → Option Text → Bool → Option Text
pick_with none image has_list = image
pick_with (some text) none has_list = some text
pick_with (some text) (some image) has_list = if has_list then some text else some image

unfoldable pub pick_mime : List Text → Option Text
unfolding first_mime pick_with has_mime
pick_mime mimes =
    pick_with (first_mime texts mimes) (first_mime images mimes)
      (has_mime mimes (codes "text/uri-list"))

abbrev pub starts_with : Text → Text → Bool
starts_with [] text = true
starts_with (p ∷ prefix) [] = false
starts_with (p ∷ prefix) (c ∷ text) = p == c && starts_with prefix text

abbrev pub is_image : Text → Bool
is_image mime = starts_with (codes "image/") mime

unfoldable pub limit_of : Text → ℕ
limit_of mime = if is_image mime then max_image else max_text

abbrev pub password_hint : Text
password_hint = codes "x-kde-passwordManagerHint"

-- `device_selection` behind `pick_mime`, for an offer of this number; `pipes` is whether the pipe is made.
unfoldable pub read_offer : Bool → ℕ → Option Text → Clipboard → Clipboard
unfolding free_offer send limit_of
read_offer pipes offer none s = free_offer offer s
read_offer pipes offer (some mime) s =
    if not pipes
    then free_offer offer s
    else free_offer offer (
        send (receive offer mime) (record s {
          jobs = record { job = s.next_job; mime = mime; buf = []; limit = limit_of mime } ∷ s.jobs;
          next_job = s.next_job + 1;
        }))

unfoldable pub select_offer : Bool → Option Offer → Clipboard → Clipboard
unfolding has_mime tell free_offer read_offer pick_mime
select_offer pipes none s = s
select_offer pipes (some o) s =
    if has_mime o.mimes password_hint
    then free_offer o.offer (tell secret s)
    else read_offer pipes o.offer (pick_mime o.mimes) s

unfoldable pub device_selection : Bool → Option ℕ → Clipboard → Clipboard
unfolding select_offer find_offer
device_selection pipes none s = s
device_selection pipes (some offer) s = select_offer pipes (find_offer offer s.offers) s

unfoldable pub device_primary : Option ℕ → Clipboard → Clipboard
unfolding free_offer
device_primary none s = s
device_primary (some offer) s = free_offer offer s

unfoldable pub device_finished : Clipboard → Clipboard
device_finished s = record s { device = false }

-- The readings.
unfoldable pub find_job : ℕ → List ReadJob → Option ReadJob
find_job job [] = none
find_job job (j ∷ rest) = let found = find_job job rest in if j.job == job then some j else found

unfoldable pub free_job : ℕ → List ReadJob → List ReadJob
free_job job [] = []
free_job job (j ∷ rest) =
    let others = free_job job rest in if j.job == job then rest else j ∷ others

unfoldable pub put_job : ReadJob → List ReadJob → List ReadJob
put_job new [] = []
put_job new (j ∷ rest) =
    let others = put_job new rest in if j.job == new.job then new ∷ rest else j ∷ others

-- `on_read`: the chunk, `none` for an error, empty at the end.
unfoldable pub read_chunk : Option Text → ReadJob → Clipboard → Clipboard
unfolding free_job put_job tell
read_chunk none j s = record s { jobs = free_job j.job s.jobs }
read_chunk (some chunk) j s =
    if ltb 0 (length chunk)
    then if ltb j.limit (length j.buf + length chunk)
      then record s { jobs = free_job j.job s.jobs }
      else record s { jobs = put_job (record j { buf = j.buf ++ chunk }) s.jobs }
    else let t = if ltb 0 (length j.buf) then tell (content j.mime j.buf) s else s in
      record t { jobs = free_job j.job t.jobs }

unfoldable pub read_found : Option Text → Option ReadJob → Clipboard → Clipboard
unfolding read_chunk
read_found chunk none s = s
read_found chunk (some j) s = read_chunk chunk j s

unfoldable pub on_read : ℕ → Option Text → Clipboard → Clipboard
unfolding read_found find_job
on_read job chunk s = read_found chunk (find_job job s.jobs) s
