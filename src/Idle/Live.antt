-- ===== src/Idle/Live.antt =====
-- src/wayland/idle_notify.c: the watches that are set, and the notifications that are alive for them.
use singularity_shell.Base.{
  ℕ, ◌+◌, ◌≡◌, refl, sym, ap, ◌∙◌, inl, inr, Bool, true, false, not, ◌&&◌, Option, none, some, List,
  [], ◌∷◌, arith, ltb, ◌==◌, if◌then◌else◌, Bool-cases, ==_iff,
}
use singularity_shell.Int.{ℤ, eqb_ℤ}
use singularity_shell.Idle.Watches.{
  Request, get_input_idle_notification, get_idle_notification, destroy_notification, IdleWatch,
  Idle, send, flush_display, find_watch, unlink_watch, destroy_watch, unwatch, add_watch, watch,
}

-- The notification is among the ones the compositor keeps, after a request.
unfoldable pub after_request : ℕ → Request → Bool → Bool
after_request n (get_input_idle_notification m t) was = if m == n then true else was
after_request n (get_idle_notification m t) was = if m == n then true else was
after_request n (destroy_notification m) was = if m == n then false else was
after_request n r was = was

unfoldable pub alive : ℕ → List Request → Bool
alive n [] = false
alive n (r ∷ rs) = after_request n r (alive n rs)

unfoldable pub holds : ℕ → List IdleWatch → Bool
holds n [] = false
holds n (w ∷ ws) = if w.notification == n then true else holds n ws

-- The list has no notification twice, and only ones below `bound`.
unfoldable pub distinct : ℕ → List IdleWatch → Bool
distinct bound [] = true
distinct bound (w ∷ ws) =
    let rest = distinct bound ws in
    ltb w.notification bound && not (holds w.notification ws) && rest

holds-unlink :
    (i : ℤ) (n : ℕ) (ws : List IdleWatch) → holds n (unlink_watch i ws) ≡ true → holds n ws ≡ true
unfolding unlink_watch holds
holds-unlink i n [] h = h
holds-unlink i n (w ∷ ws) h = ground (arith, holds-unlink i n ws)

distinct-unlink :
    (i : ℤ) (b : ℕ) (ws : List IdleWatch)
    → distinct b ws ≡ true
    → distinct b (unlink_watch i ws) ≡ true
unfolding unlink_watch distinct
distinct-unlink i b [] h = h
distinct-unlink i b (w ∷ ws) h =
    ground (arith, distinct-unlink i b ws, holds-unlink i w.notification ws)

pub distinct_up : (b : ℕ) (ws : List IdleWatch) → distinct b ws ≡ true → distinct (b + 1) ws ≡ true
unfolding distinct
distinct_up b [] h = h
distinct_up b (w ∷ ws) h = ground (arith, distinct_up b ws)

holds-fresh : (b : ℕ) (ws : List IdleWatch) → distinct b ws ≡ true → holds b ws ≡ false
unfolding distinct holds
holds-fresh b [] h = refl
holds-fresh b (w ∷ ws) h = ground (arith, holds-fresh b ws)

note : Option IdleWatch → ℕ
note none = 0
note (some w) = w.notification

find-holds :
    (i : ℤ) (ws : List IdleWatch) (w : IdleWatch)
    → find_watch i ws ≡ some w
    → holds w.notification ws ≡ true
unfolding find_watch holds note
find-holds i [] w e = absurd (ground arith)
find-holds i (v ∷ ws) w e = elim (Bool-cases (eqb_ℤ v.id i)) [
  | inl y ↦ ground (arith, found_first y)
  | inr n ↦ ground (arith, find-holds i ws w (found_later n))
]
  where
    found_first : eqb_ℤ v.id i ≡ true → v.notification ≡ w.notification
    found_first y = ap note (sym (ap (λ b. if b then some v else find_watch i ws) y) ∙ e)

    found_later : eqb_ℤ v.id i ≡ false → find_watch i ws ≡ some w
    found_later n = sym (ap (λ b. if b then some v else find_watch i ws) n) ∙ e

holds-same : (m n : ℕ) (ws : List IdleWatch) → (m == n) ≡ true → holds m ws ≡ holds n ws
holds-same m n ws e = ap (λ k. holds k ws) ((==_iff m n).0 e)

-- The list without the watch found holds the notifications of the list but that watch's.
holds-found :
    (i : ℤ) (n b : ℕ) (ws : List IdleWatch) (w : IdleWatch)
    → distinct b ws ≡ true
    → find_watch i ws ≡ some w
    → holds n (unlink_watch i ws) ≡ (if w.notification == n then false else holds n ws)
unfolding distinct holds find_watch unlink_watch note
holds-found i n b [] w h e = absurd (ground arith)
holds-found i n b (v ∷ ws) w h e = elim (Bool-cases (eqb_ℤ v.id i)) [
  | inl y ↦ ground (arith, found_first y, holds-same v.notification n ws)
  | inr x ↦ ground (
    arith,
    find-holds i ws w (found_later x),
    holds-found i n b ws w (ground arith) (found_later x),
    holds-same v.notification n ws,
    holds-same w.notification n ws,
  )
]
  where
    found_first : eqb_ℤ v.id i ≡ true → v.notification ≡ w.notification
    found_first y = ap note (sym (ap (λ b. if b then some v else find_watch i ws) y) ∙ e)

    found_later : eqb_ℤ v.id i ≡ false → find_watch i ws ≡ some w
    found_later n = sym (ap (λ b. if b then some v else find_watch i ws) n) ∙ e

-- The notifications alive are the ones of the list, which are distinct and numbered below `next_id`.
unfoldable pub live : ℕ → Idle → Bool
live n s =
    (if alive n s.sent then holds n s.watches else not (holds n s.watches))
    && distinct s.next_id s.watches

pub unwatch-live : (i : ℤ) (n : ℕ) (s : Idle) → live n s ≡ true → live n (unwatch i s) ≡ true
unfolding live unwatch destroy_watch flush_display send alive after_request
unwatch-live i n s h = go (find_watch i s.watches) refl
  where
    go :
        (o : Option IdleWatch)
        → find_watch i s.watches ≡ o
        → live n (destroy_watch o (unlink_watch i s.watches) s) ≡ true
    go none e = h
    go (some w) e = ground (
      arith,
      holds-found i n s.next_id s.watches w (ground arith) e,
      distinct-unlink i s.next_id s.watches,
    )

pub add_watch-live :
    (i : ℤ) (t n : ℕ) (input_only has_callback : Bool) (s : Idle)
    → live n s ≡ true
    → live n (add_watch i t input_only has_callback s) ≡ true
unfolding live add_watch send alive after_request holds distinct
add_watch-live i t n input_only has_callback s h = ground (
  arith,
  holds-fresh s.next_id s.watches,
  distinct_up s.next_id s.watches,
  holds-same s.next_id n s.watches,
)

pub watch-live :
    (allocated : Bool) (i : ℤ) (timeout_ms n : ℕ) (input_only has_callback : Bool) (s : Idle)
    → live n s ≡ true
    → live n (watch allocated i timeout_ms input_only has_callback s) ≡ true
unfolding watch
watch-live allocated i timeout_ms n input_only has_callback s h = ground (
  arith,
  unwatch-live i n s h,
  add_watch-live i timeout_ms n input_only has_callback (unwatch i s) (unwatch-live i n s h),
)
