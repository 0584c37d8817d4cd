-- ===== src/Preview/Holders.antt =====
-- src/wayland/wayland_integration.c: how many requests hold an element of the pool.
use singularity_shell.Base.{
  ℕ, ◌+◌, ◌≤◌, ◌≡◌, sym, ap, ◌∙◌, inl, inr, Bool, true, false, Option, none, some, List, [], ◌∷◌,
  arith, ◌==◌, if◌then◌else◌, Bool-cases, ==_iff,
}
use singularity_shell.Preview.{PreviewBuffer, PreviewRequest, put_slot}
use singularity_shell.Preview.Requests.{find_request, put_request, free_request}

abbrev pub is_slot : Option ℕ → ℕ → Bool
is_slot none i = false
is_slot (some j) i = i == j

abbrev pub one_if : Bool → ℕ
one_if b = if b then 1 else 0

-- The sum of a number over the requests.
unfoldable pub total : (PreviewRequest → ℕ) → List PreviewRequest → ℕ
total w [] = 0
total w (r ∷ rest) = w r + total w rest

-- The number of requests that hold the element.
unfoldable pub holders : ℕ → List PreviewRequest → ℕ
unfolding total
holders i rs = total (λ (r : PreviewRequest). one_if (is_slot r.slot i)) rs

-- No element is held by two requests, and those in the pool that are not in use by none.
unfoldable pub IsUnshared : (ℕ → PreviewBuffer) → List PreviewRequest → Type 0
IsUnshared pool requests = (i : ℕ) → holders i requests ≤ one_if (PreviewBuffer.in_use (pool i))

first_request :
    (b : Bool) (p r : PreviewRequest) (found : Option PreviewRequest)
    → (if b then some p else found) ≡ some r
    → b ≡ true
    → p ≡ r
first_request true p r found h e = ap (λ x. elim x [ some q ↦ q | none ↦ p ]) h
first_request false p r found h e = cc

pub token_of_found :
    (token : ℕ) (rs : List PreviewRequest) (r : PreviewRequest)
    → find_request token rs ≡ some r
    → r.token ≡ token
unfolding find_request
token_of_found token [] r h = cc
token_of_found token (p ∷ rest) r h = elim (Bool-cases (p.token == token)) [
  | inl same ↦
      let first = first_request (p.token == token) p r (find_request token rest) h same in
      ap PreviewRequest.token (sym first) ∙ (==_iff p.token token).0 same
  | inr other ↦ token_of_found token rest r (rw other at h)
]

pub total-put :
    (w : PreviewRequest → ℕ) (token : ℕ) (rs : List PreviewRequest) (r new : PreviewRequest)
    → find_request token rs ≡ some r
    → new.token ≡ token
    → total w (put_request new rs) + w r ≡ total w rs + w new
unfolding total find_request put_request
total-put w token [] r new h n = cc
total-put w token (p ∷ rest) r new h n =
    let test = ap (λ x. p.token == x) n in
    elim (Bool-cases (p.token == token)) [
      | inl same ↦
          let first =
            ap w (first_request (p.token == token) p r (find_request token rest) h same) in
          let here = test ∙ same in rw here (omega (arith, first))
      | inr other ↦
          let others = total-put w token rest r new (rw other at h) n in
          let here = test ∙ other in rw here (omega (arith, others))
    ]

pub total-free :
    (w : PreviewRequest → ℕ) (token : ℕ) (rs : List PreviewRequest) (r : PreviewRequest)
    → find_request token rs ≡ some r
    → total w (free_request token rs) + w r ≡ total w rs
unfolding total find_request free_request
total-free w token [] r h = cc
total-free w token (p ∷ rest) r h = elim (Bool-cases (p.token == token)) [
  | inl same ↦
      let first = ap w (first_request (p.token == token) p r (find_request token rest) h same) in
      rw same (omega (arith, first))
  | inr other ↦
      let others = total-free w token rest r (rw other at h) in rw other (omega (arith, others))
]

pub holders-put :
    (i token : ℕ) (rs : List PreviewRequest) (r new : PreviewRequest)
    → find_request token rs ≡ some r
    → new.token ≡ token
    → holders i (put_request new rs) + one_if (is_slot r.slot i)
      ≡ holders i rs + one_if (is_slot new.slot i)
unfolding holders
holders-put i token rs r new h n = total-put (λ q. one_if (is_slot q.slot i)) token rs r new h n

pub holders-free :
    (i token : ℕ) (rs : List PreviewRequest) (r : PreviewRequest)
    → find_request token rs ≡ some r
    → holders i (free_request token rs) + one_if (is_slot r.slot i) ≡ holders i rs
unfolding holders
holders-free i token rs r h = total-free (λ q. one_if (is_slot q.slot i)) token rs r h

-- A request lets its element go: afterwards the element is not in use, and the others hold theirs.
unfoldable pub let_go : Option ℕ → (ℕ → PreviewBuffer) → ℕ → PreviewBuffer
unfolding put_slot
let_go none pool = pool
let_go (some i) pool = put_slot i (record (pool i) { in_use = false }) pool

let_go_at-IsUnshared :
    (slot : Option ℕ) (pool : ℕ → PreviewBuffer) (rs fewer : List PreviewRequest) (i : ℕ)
    → holders i rs ≤ one_if (PreviewBuffer.in_use (pool i))
    → holders i fewer + one_if (is_slot slot i) ≡ holders i rs
    → holders i fewer ≤ one_if (PreviewBuffer.in_use (let_go slot pool i))
unfolding let_go put_slot
let_go_at-IsUnshared none pool rs fewer i h e = omega (arith, h, e)
let_go_at-IsUnshared (some j) pool rs fewer i h e = ground (arith, h, e)

pub let_go-IsUnshared :
    (r : PreviewRequest) (pool : ℕ → PreviewBuffer) (rs fewer : List PreviewRequest)
    → IsUnshared pool rs
    → ((i : ℕ) → holders i fewer + one_if (is_slot r.slot i) ≡ holders i rs)
    → IsUnshared (let_go r.slot pool) fewer
unfolding IsUnshared
let_go-IsUnshared r pool rs fewer h e i = let_go_at-IsUnshared r.slot pool rs fewer i (h i) (e i)

pub IsUnshared-fewer :
    (r : PreviewRequest) (pool : ℕ → PreviewBuffer) (rs fewer : List PreviewRequest)
    → IsUnshared pool rs
    → ((i : ℕ) → holders i fewer + one_if (is_slot r.slot i) ≡ holders i rs)
    → IsUnshared pool fewer
unfolding IsUnshared
IsUnshared-fewer r pool rs fewer h e i = let x = h i in let y = e i in omega (arith, x, y)

-- The pool with an element in use that was free.
pub IsUnshared-taken :
    (j : ℕ) (pb : PreviewBuffer) (pool : ℕ → PreviewBuffer) (rs more : List PreviewRequest)
    → PreviewBuffer.in_use (pool j) ≡ false
    → pb.in_use ≡ true
    → IsUnshared pool rs
    → ((i : ℕ) → holders i more ≤ holders i rs + one_if (i == j))
    → IsUnshared (put_slot j pb pool) more
unfolding IsUnshared put_slot
IsUnshared-taken j pb pool rs more f u h e i =
    let x = h i in
    let y = e i in
    elim (Bool-cases (i == j)) [
      | inl same ↦
          let unused = ap (λ k. PreviewBuffer.in_use (pool k)) ((==_iff i j).0 same) ∙ f in
          let none_held : holders i rs ≤ 0 = rw unused at x in
          let one_more : holders i more ≤ holders i rs + 1 = rw same at y in
          rw (same, u) (omega (arith, none_held, one_more))
      | inr other ↦
          let no_more : holders i more ≤ holders i rs + 0 = rw other at y in
          rw other (omega (arith, x, no_more))
    ]
