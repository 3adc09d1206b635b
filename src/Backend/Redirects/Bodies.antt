-- ===== src/Backend/Redirects/Bodies.antt =====
-- transparent.go: the body of a request, of which a limited part is read first.
use mcp_oauth_gateway.Base.{
  ℕ, zero, suc, ◌≤◌, ◌<◌, Str, true, false, ◌&&◌, Option, none, some, [], ◌∷◌, ◌++◌, length, take,
  ltb, str_eq, nat_eq, ◌≡◌, refl, sym, ◌∙◌, ap, ap₂, inl, inr, arith, Bool-cases,
}
use mcp_oauth_gateway.Backend.Redirects.{Body, max_redirect_replay_body, drop, read_limited}

abbrev pub bytes_of : Option Body → Option Str
bytes_of none = none
bytes_of (some body) = some body.bytes

take-drop : (n : ℕ) (s : Str) → take n s ++ drop n s ≡ s
take-drop zero s = refl
take-drop (suc n) [] = refl
take-drop (suc n) (c ∷ s) = ap (λ t. c ∷ t) (take-drop n s)

-- What fits is taken as a whole.
take-fits : (n : ℕ) (s : Str) → length (take (suc n) s) ≤ n → take (suc n) s ≡ s
take-fits n [] h = refl
take-fits zero (c ∷ s) h = absurd (omega (arith, h))
take-fits (suc n) (c ∷ s) h = ap (λ t. c ∷ t) (take-fits n s (omega (arith, h)))

length-take : (n : ℕ) (s : Str) → length (take n s) ≤ length s
length-take zero s = omega arith
length-take (suc n) [] = omega arith
length-take (suc n) (c ∷ s) = omega (arith, length-take n s)

pub taken-large :
    (n : ℕ) (s front : Str) → take (suc n) s ≡ front → ltb n (length front) ≡ true → n < length s
taken-large n s front e h = ground (arith, h, ap length e, length-take (suc n) s)

pub taken-fits :
    (n : ℕ) (s front : Str) → take (suc n) s ≡ front → ltb n (length front) ≡ false → front ≡ s
taken-fits n s front e h =
    let short : length (take (suc n) s) ≤ n = ground (arith, h, ap length e) in
    sym e ∙ take-fits n s short

pub read_limited-none : (n : ℕ) (body : Body) → read_limited n body ≡ none → body.breaks ≡ true
unfolding read_limited
read_limited-none n body h = elim (Bool-cases (ltb (length body.bytes) n && body.breaks)) [
  | inl broken ↦ ground (arith, broken)
  | inr whole' ↦ cc (rw whole' at h)
]

pub read_limited-some :
    (n : ℕ) (body : Body) (buffered : Str) (remainder : Body)
    → read_limited n body ≡ some (buffered, remainder)
    → (take n body.bytes ≡ buffered) × (buffered ++ remainder.bytes ≡ body.bytes)
unfolding read_limited
read_limited-some n body buffered remainder h =
    elim (Bool-cases (ltb (length body.bytes) n && body.breaks)) [
      | inl broken ↦ cc (rw broken at h)
      | inr whole' ↦
          let e : ◌≡◌ {A = Str × Body}
              (take n body.bytes, record body { bytes = drop n body.bytes }) (buffered, remainder) =
            cc (rw whole' at h) in
          let front : take n body.bytes ≡ buffered = ap (λ x. x.0) e in
          let back : drop n body.bytes ≡ remainder.bytes = ap (λ x. (x.1).bytes) e in
          (front, ap₂ (λ s t. s ++ t) (sym front) (sym back) ∙ take-drop n body.bytes)
    ]

abbrev pub TooLarge : Option Body → Type 0
TooLarge o = (body : Body) × (o ≡ some body) × max_redirect_replay_body < length body.bytes

abbrev pub Broken : Option Body → Type 0
Broken o = (body : Body) × (o ≡ some body) × (body.breaks ≡ true)
