-- ===== src/Lock/Lines.antt =====
-- src/lockscreen/lock_main.c: the bytes of the password buffer as a line of text.
use singularity_shell.Base.{
  ℕ, zero, suc, ◌+◌, ◌-◌, ◌≤◌, ◌≡◌, refl, sym, ap, ◌∙◌, true, not, ◌&&◌, [], ◌∷◌, ◌++◌, append-nil,
  append_assoc, arith, ltb, ◌==◌, if◌then◌else◌, length, take, ==_refl, if_cases,
}
use singularity_shell.CString.{Text}
use singularity_shell.Lock.Defs.{is_leave, Lock, World}
use singularity_shell.Lock.Auth.{password_size, bytes_from, typed, store_byte}
use singularity_shell.Lock.Input.{
  key_buf, Keysym, store_bytes, clear_status, is_printable, type_text, key_return, key_kp_enter,
  key_backspace, key_escape, other_key,
}
use singularity_shell.Lock.Events.{Event, key}
use singularity_shell.Lock.Unlock.{keys, keys-render_all, bytes_from_store}
use singularity_shell.Lock.Grants.{is_live}

unfoldable pub line_of : (ℕ → ℕ) × ℕ → Text
line_of (buffer, n) = bytes_from buffer 0 n

-- The bytes that are typed.
abbrev pub line : Lock → Text
line s = line_of (keys s)

-- What a key does to the line.
unfoldable pub edit_line : Keysym → Text → Text → Text
edit_line key_return text typed = []
edit_line key_kp_enter text typed = []
edit_line key_backspace text typed = take (length typed - 1) typed
edit_line key_escape text typed = []
edit_line other_key text typed =
    if is_printable text && ltb (length typed + length text) (password_size - 1)
    then typed ++ text
    else typed
edit_line _ text typed = typed

-- What an event does to the line: only a pressed key, with a keymap and outside of leaving, edits it.
unfoldable pub line_after : Event → Lock → Text
unfolding edit_line
line_after (key pressed k text) s =
    if pressed && not (is_leave s.phase) && is_live s.xkb_state
    then edit_line k text (line s)
    else line s
line_after _ s = line s

length-bytes_from : (n i : ℕ) (b : ℕ → ℕ) → length (bytes_from b i n) ≡ n
unfolding bytes_from
length-bytes_from zero i b = refl
length-bytes_from (suc n) i b = let others = length-bytes_from n (suc i) b in rw others

pub length-line : (s : Lock) → length (line s) ≡ s.password_len
unfolding line_of
length-line s = length-bytes_from s.password_len 0 s.password

-- The last of the bytes.
bytes_from-suc :
    (n i j : ℕ) (b : ℕ → ℕ) → i + n ≡ j → bytes_from b i (suc n) ≡ (bytes_from b i n ++ (b j ∷ []))
unfolding bytes_from
bytes_from-suc zero i j b h = ap (λ k. b k ∷ []) (omega arith)
bytes_from-suc (suc n) i j b h =
    let others = bytes_from-suc n (suc i) j b (omega arith) in ap (λ bs. b i ∷ bs) others

pub take-bytes_from : (m n i : ℕ) (b : ℕ → ℕ) → m ≤ n → take m (bytes_from b i n) ≡ bytes_from b i m
unfolding bytes_from
take-bytes_from zero n i b h = refl
take-bytes_from (suc m) zero i b h = absurd (omega arith)
take-bytes_from (suc m) (suc n) i b h =
    ap (λ bs. b i ∷ bs) (take-bytes_from m n (suc i) b (omega arith))

line_of_store :
    (n c : ℕ) (b : ℕ → ℕ)
    → line_of ((λ k. if k == n then c else b k), n + 1) ≡ (line_of (b, n) ++ (c ∷ []))
unfolding line_of
line_of_store n c b =
    let below = bytes_from_store n 0 n c b (omega arith) in
    let here : (n == n) ≡ true = ==_refl n in
    let one_more : n + 1 ≡ suc n = omega arith in
    ap (bytes_from (λ k. if k == n then c else b k) 0) one_more
    ∙ bytes_from-suc n 0 n (λ k. if k == n then c else b k) (omega arith)
    ∙ rw (here, below)

line-store_bytes : (text : Text) (s : Lock) → line (store_bytes text s) ≡ (line s ++ text)
unfolding store_bytes store_byte
line-store_bytes [] s = sym (append-nil (line s))
line-store_bytes (c ∷ text) s =
    let stored = store_byte s.password_len c s in
    line-store_bytes text (record stored { password_len = stored.password_len + 1 })
    ∙ ap (λ bs. bs ++ text) (line_of_store s.password_len c s.password)
    ∙ append_assoc (line s) (c ∷ []) text

pub line-type_text :
    (w : World) (text : Text) (s : Lock)
    → line (type_text w text s) ≡ edit_line other_key (key_buf w text) (line s)
unfolding type_text edit_line clear_status
line-type_text w text s =
    let buf = key_buf w text in
    let fits = is_printable buf && ltb (s.password_len + length buf) (password_size - 1) in
    let n = length-line s in
    rw n (
      if_cases line fits
        (λ h.
          ap line_of (keys-render_all w (clear_status (store_bytes buf s)))
          ∙ line-store_bytes buf s
          ∙ rw h)
        (λ h. rw h))
