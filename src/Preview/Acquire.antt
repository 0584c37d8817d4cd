-- ===== src/Preview/Acquire.antt =====
-- src/wayland/wayland_integration.c: a request gets its buffer.
use singularity_shell.Base.{
  ℕ, zero, suc, ◌+◌, ◌≡◌, refl, sym, ap, ◌∙◌, inl, inr, Bool, true, false, not, Option, none, some,
  List, arith, ◌==◌, Bool-cases, ==_iff, if_cases, if_both,
}
use mathlib.Core.Path.{subst}
use singularity_shell.Preview.{
  PreviewBuffer, preview_pool_max, PreviewRequest, Previews, empty_slot, Memory, is_given, effect,
  put_slot, first_slot, has_buffer, fits, is_free, tear_down, fill_slot, reuse_slot, trim_slot,
  trim_from, buffer_made,
}
use singularity_shell.Preview.Requests.{
  find_request, put_request, free_request, refuse, run_destroy, ask_copy, frame_with, on_frame,
}
use singularity_shell.Preview.Holders.{
  is_slot, one_if, IsUnshared, token_of_found, holders-put, holders-free, IsUnshared-fewer,
  IsUnshared-taken,
}
use singularity_shell.Preview.Sharing.{
  IsSafe, parts, parts-tear_down, parts-refuse, parts-run_destroy,
}

first_slot-holds :
    (p : PreviewBuffer → Bool) (pool : ℕ → PreviewBuffer) (i n j : ℕ)
    → first_slot p pool i n ≡ some j
    → p (pool j) ≡ true
unfolding first_slot
first_slot-holds p pool i zero j h = cc
first_slot-holds p pool i (suc n) j h = elim (Bool-cases (p (pool i))) [
  | inl here ↦
      let first = ap (λ x. elim x [ some k ↦ k | none ↦ i ]) (rw here at h) in
      ap (λ k. p (pool k)) (sym first) ∙ here
  | inr later ↦ first_slot-holds p pool (suc i) n j (rw later at h)
]

-- The pool keeps which of its elements are in use.
abbrev SameUse : (ℕ → PreviewBuffer) → (ℕ → PreviewBuffer) → Type 0
SameUse new pool = (i : ℕ) → PreviewBuffer.in_use (new i) ≡ PreviewBuffer.in_use (pool i)

IsUnshared-SameUse :
    (new pool : ℕ → PreviewBuffer) (rs : List PreviewRequest)
    → SameUse new pool
    → IsUnshared pool rs
    → IsUnshared new rs
unfolding IsUnshared
IsUnshared-SameUse new pool rs e h i = let x = h i in let y = e i in rw y x

put_slot-SameUse :
    (j : ℕ) (pb : PreviewBuffer) (pool : ℕ → PreviewBuffer)
    → pb.in_use ≡ PreviewBuffer.in_use (pool j)
    → SameUse (put_slot j pb pool) pool
unfolding put_slot
put_slot-SameUse j pb pool e i =
    if_cases PreviewBuffer.in_use (i == j)
      (λ same. e ∙ ap (λ k. PreviewBuffer.in_use (pool k)) (sym ((==_iff i j).0 same)))
      (λ other. refl)

trim_slot-IsSafe : (i : ℕ) (s : Previews) → IsSafe s → IsSafe (trim_slot i (s.pool i) s)
unfolding trim_slot
trim_slot-IsSafe i s h =
    let pb = s.pool i in
    let t = tear_down pb.buffer s in
    let e = parts-tear_down pb.buffer s in
    elim (Bool-cases pb.in_use) [
      | inl busy ↦ rw busy h
      | inr idle ↦ rw idle (
          if_both IsSafe (not (has_buffer pb)) h (
            subst
              (λ (p : (ℕ → PreviewBuffer) × List PreviewRequest).
                IsUnshared (put_slot i empty_slot p.0) p.1)
              (sym e)
              (IsUnshared-SameUse (put_slot i empty_slot s.pool) s.pool s.requests
                (put_slot-SameUse i empty_slot s.pool (sym idle)) h)))
    ]

pub trim_from-IsSafe : (i n : ℕ) (s : Previews) → IsSafe s → IsSafe (trim_from i n s)
unfolding trim_from
trim_from-IsSafe i zero s h = h
trim_from-IsSafe i (suc n) s h =
    trim_from-IsSafe (suc i) n (trim_slot i (s.pool i) s) (trim_slot-IsSafe i s h)

-- A request gets an element that was free.
frame_slot-IsSafe :
    (m : Memory) (r new : PreviewRequest) (j : ℕ) (pb : PreviewBuffer) (s t : Previews)
    → find_request r.token s.requests ≡ some r
    → new.token ≡ r.token
    → IsSafe s
    → PreviewBuffer.in_use (s.pool j) ≡ false
    → pb.in_use ≡ true
    → parts t ≡ (put_slot j pb s.pool, s.requests)
    → IsSafe (frame_with m new (some j) t)
unfolding frame_with ask_copy effect
frame_slot-IsSafe m r new j pb s t f n h unused used e =
    let held = record new { slot = some j; buffer = none } in
    subst (λ (p : (ℕ → PreviewBuffer) × List PreviewRequest). IsUnshared p.0 (put_request held p.1))
      (sym e)
      (IsUnshared-taken j pb s.pool s.requests (put_request held s.requests) unused used h
        (λ i. let put = holders-put i r.token s.requests r held f n in omega (arith, put)))

-- A request gets a buffer of its own, or ends.
frame_none-IsSafe :
    (m : Memory) (r new : PreviewRequest) (s : Previews)
    → find_request r.token s.requests ≡ some r
    → new.token ≡ r.token
    → new.slot ≡ r.slot
    → IsSafe s
    → IsSafe (frame_with m new none s)
unfolding frame_with ask_copy effect IsUnshared
frame_none-IsSafe m r new s f n k h =
    let held = record new { buffer = some s.next_buffer } in
    let t = refuse new.has_callback new.user_data s in
    let u = run_destroy new.has_destroy new.user_data t in
    let e =
      parts-run_destroy new.has_destroy new.user_data t
      ∙ parts-refuse new.has_callback new.user_data s in
    if_both IsSafe (is_given m)
      (λ i.
        let put = holders-put i r.token s.requests r held f n in
        let slot = ap (λ x. one_if (is_slot x i)) k in let x = h i in omega (arith, put, slot, x))
      (subst
        (λ (p : (ℕ → PreviewBuffer) × List PreviewRequest).
          IsUnshared p.0 (free_request new.token p.1))
        (sym e)
        (subst (λ x. IsUnshared s.pool (free_request x s.requests)) (sym n)
          (IsUnshared-fewer r s.pool s.requests (free_request r.token s.requests) h
            (λ i. holders-free i r.token s.requests r f))))

abbrev Outcome : Memory → PreviewRequest → Option ℕ × Previews → Type 0
Outcome m new acquired = IsSafe (frame_with m new acquired.0 acquired.1)

fill_slot-IsSafe :
    (pooled m : Memory) (format width height stride : ℕ) (o : Option ℕ) (r new : PreviewRequest)
    (s : Previews)
    → first_slot is_free s.pool 0 preview_pool_max ≡ o
    → find_request r.token s.requests ≡ some r
    → new.token ≡ r.token
    → new.slot ≡ r.slot
    → IsSafe s
    → Outcome m new (fill_slot pooled format width height stride o s)
unfolding fill_slot effect is_free
fill_slot-IsSafe pooled m format width height stride none r new s o f n k h =
    frame_none-IsSafe m r new s f n k h
fill_slot-IsSafe pooled m format width height stride (some i) r new s o f n k h =
    let pb = s.pool i in
    let t = tear_down pb.buffer s in
    let unused : pb.in_use ≡ false =
      ground (arith, first_slot-holds is_free s.pool 0 preview_pool_max i o) in
    let e = parts-tear_down pb.buffer s in
    let without = record pb { buffer = none } in
    let emptied = record t { pool = put_slot i without t.pool } in
    let filled : PreviewBuffer = record {
      buffer = some t.next_buffer;
      width = width;
      height = height;
      stride = stride;
      format = format;
      in_use = true;
    } in
    let full = record t { pool = put_slot i filled t.pool; next_buffer = t.next_buffer + 1 } in
    let same = ap (λ (p : (ℕ → PreviewBuffer) × List PreviewRequest). p.1) e in
    if_both (Outcome m new) (not (is_given pooled))
      (frame_none-IsSafe m r new emptied (ap (find_request r.token) same ∙ f) n k (
        subst
          (λ (p : (ℕ → PreviewBuffer) × List PreviewRequest).
            IsUnshared (put_slot i without p.0) p.1)
          (sym e)
          (IsUnshared-SameUse (put_slot i without s.pool) s.pool s.requests
            (put_slot-SameUse i without s.pool refl) h)))
      (frame_slot-IsSafe m r new i filled s (effect (buffer_made t.next_buffer) full) f n h unused
        refl
        (ap (λ (p : (ℕ → PreviewBuffer) × List PreviewRequest). (put_slot i filled p.0, p.1)) e))

unused_of_fits :
    (format width height stride : ℕ) (pb : PreviewBuffer)
    → fits format width height stride pb ≡ true
    → pb.in_use ≡ false
unfolding fits
unused_of_fits format width height stride pb h = ground arith

pub reuse_slot-IsSafe :
    (pooled m : Memory) (format width height stride : ℕ) (o : Option ℕ) (r new : PreviewRequest)
    (s : Previews)
    → first_slot (fits format width height stride) s.pool 0 preview_pool_max ≡ o
    → find_request r.token s.requests ≡ some r
    → new.token ≡ r.token
    → new.slot ≡ r.slot
    → IsSafe s
    → Outcome m new (reuse_slot pooled format width height stride o s)
unfolding reuse_slot
reuse_slot-IsSafe pooled m format width height stride none r new s o f n k h =
    fill_slot-IsSafe pooled m format width height stride
      (first_slot is_free s.pool 0 preview_pool_max) r new s refl f n k h
reuse_slot-IsSafe pooled m format width height stride (some i) r new s o f n k h =
    let taken = record (s.pool i) { in_use = true } in
    let match = first_slot-holds (fits format width height stride) s.pool 0 preview_pool_max i o in
    frame_slot-IsSafe m r new i taken s (record s { pool = put_slot i taken s.pool }) f n h
      (unused_of_fits format width height stride (s.pool i) match) refl refl

pub on_frame-IsSafe :
    (handle : PreviewRequest → Previews → Previews) (token : ℕ) (o : Option PreviewRequest)
    (s : Previews)
    → find_request token s.requests ≡ o
    → ((r : PreviewRequest) → find_request r.token s.requests ≡ some r → IsSafe (handle r s))
    → IsSafe s
    → IsSafe (on_frame handle o s)
unfolding on_frame
on_frame-IsSafe handle token none s f k h = h
on_frame-IsSafe handle token (some r) s f k h =
    let named = token_of_found token s.requests r f in
    if_both IsSafe r.has_frame (k r (ap (λ x. find_request x s.requests) named ∙ f)) h
