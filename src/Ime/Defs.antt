-- ===== src/Ime/Defs.antt =====
-- src/wayland/ime.c: the globals of the input method client, and what it asks of the compositor.
-- Protocol objects are numbers; a coordinate is the wl_fixed_t value that the compositor sends.
use singularity_shell.Base.{ℕ, Bool, false, Option, none, List, [], ◌∷◌, ◌==◌, if◌then◌else◌}
use singularity_shell.CString.{Text}
use singularity_shell.Int.{ℤ, pos}

abbrev pub key_count : ℕ
key_count = 1024

-- `struct ime_state`; `surrounding` is `none` for NULL.
pub record ImeState : Type 0 where
  pub active : Bool
  pub surrounding : Option Text
  pub cursor : ℕ
  pub purpose : ℕ
  pub hint : ℕ

abbrev pub no_state : ImeState
no_state = record { active = false; surrounding = none; cursor = 0; purpose = 0; hint = 0 }

-- The requests that the client sends, by the protocol functions of the source. The requests on a virtual
-- keyboard go to the one that was created last: `forward_keyboard` holds no other.
pub data Request : Type 0 where
  key : ℕ → Bool → Request
  modifiers : ℕ → ℕ → ℕ → ℕ → Request
  upload_keymap : Request
  create_virtual_keyboard : Request
  grab_keyboard : ℕ → Request
  release_grab : ℕ → Request
  set_preedit : Text → ℤ → ℤ → Request
  delete_surrounding : ℕ → ℕ → Request
  commit_string : Text → Request
  commit : ℕ → Request
  destroy_input_method : Request
  create_popup : Request
  show_popup : ℤ → ℤ → ℤ → Request
  hide_popup : Request
  get_pointer : Request
  release_pointer : Request
  flush : Request

-- The file's static variables. `forward_ready` is `forward_keymap_set`, which a
-- new keyboard does not clear; `next_id` numbers the grabs;
-- `sent` holds the requests, the last one first.
pub record Ime : Type 0 where
  pub display : Bool
  pub input_method : Bool
  pub keyboard_grab : Option ℕ
  pub forward_keyboard : Bool
  pub forward_ready : Bool
  pub xkb_state : Bool
  pub forwarded : ℕ → Bool
  pub pending : ImeState
  pub current : ImeState
  pub serial : ℕ
  pub want_grab : Bool
  pub key_depth : ℕ
  pub popup_surface : Bool
  pub pointer : Bool
  pub pointer_inside : Bool
  pub pointer_x : ℤ
  pub pointer_y : ℤ
  pub next_id : ℕ
  pub sent : List Request

abbrev pub initial : Ime
initial = record {
  display = false;
  input_method = false;
  keyboard_grab = none;
  forward_keyboard = false;
  forward_ready = false;
  xkb_state = false;
  forwarded = λ k. false;
  pending = no_state;
  current = no_state;
  serial = 0;
  want_grab = false;
  key_depth = 0;
  popup_surface = false;
  pointer = false;
  pointer_inside = false;
  pointer_x = pos 0;
  pointer_y = pos 0;
  next_id = 0;
  sent = [];
}

unfoldable pub send : Request → Ime → Ime
send r s = record s { sent = r ∷ s.sent }

-- forwarded[k] = pressed
unfoldable pub set_forwarded : ℕ → Bool → Ime → Ime
set_forwarded k pressed s = record s { forwarded = λ j. if j == k then pressed else s.forwarded j }
