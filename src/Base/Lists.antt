-- ===== src/Base/Lists.antt =====
-- Lists measured by native numbers, and predicates on their members.
use Prim.Native.Nat.{ℕ, zero, suc, ◌+◌}
use mathlib.Core.Path.{◌≡◌, refl, ap}
use mathlib.Core.Bool.{Bool, true, false, ◌&&◌, ◌||◌}
use mathlib.Core.List.{List, [], ◌∷◌, ◌++◌}
use mathlib.Core.Logic.{◌⊎◌, inl, inr}
use mcp_oauth_gateway.Base.Tests.{Bool-cases}
use native.Mathlib.Omega.{arith}

module _ {ℓ} {A : Type ℓ} where
  abbrev pub length : List A → ℕ
  length [] = 0
  length (x ∷ xs) = suc (length xs)

  pub length-append : (xs ys : List A) → length (xs ++ ys) ≡ length xs + length ys
  length-append [] ys = omega arith
  length-append (x ∷ xs) ys = omega (arith, length-append xs ys)

  pub append_assoc : (xs ys zs : List A) → (xs ++ ys) ++ zs ≡ xs ++ (ys ++ zs)
  append_assoc [] ys zs = refl
  append_assoc (x ∷ xs) ys zs = ap (λ l. x ∷ l) (append_assoc xs ys zs)

  pub append_nil : (xs : List A) → xs ++ [] ≡ xs
  append_nil [] = refl
  append_nil (x ∷ xs) = ap (λ l. x ∷ l) (append_nil xs)

  abbrev pub take : ℕ → List A → List A
  take zero xs = []
  take (suc n) [] = []
  take (suc n) (x ∷ xs) = x ∷ take n xs

  abbrev pub any : (A → Bool) → List A → Bool
  any p [] = false
  any p (x ∷ xs) = p x || any p xs

  abbrev pub all : (A → Bool) → List A → Bool
  all p [] = true
  all p (x ∷ xs) = p x && all p xs

module _ {ℓ κ} {A : Type ℓ} (P : A → Type κ) where
  abbrev pub All : List A → Type κ
  All [] = Unit
  All (x ∷ xs) = P x × All xs

-- A member, with its place.
pub data In {ℓ} {A : Type ℓ} (x : A) : List A → Type ℓ where
  here : {l : List A} → In x (x ∷ l)
  there : {y : A} {l : List A} → In x l → In x (y ∷ l)

module _ {ℓ} {A : Type ℓ} where
  pub In-nil : {x : A} → In x [] → ⊥
  In-nil p = elim p [ ]

  pub In-cons : (x y : A) (l : List A) → In x (y ∷ l) → (y ≡ x) ⊎ In x l
  In-cons x y l here = inl refl
  In-cons x y l (there p) = inr p

  pub any-true :
      (test : A → Bool) (l : List A) → any test l ≡ true → (x : A) × In x l × (test x ≡ true)
  any-true test [] h = cc h
  any-true test (y ∷ l) h = elim (Bool-cases (test y)) [
    | inl hit ↦ (y, here, hit)
    | inr miss ↦ let (x, p, e) = any-true test l (rw miss at h) in (x, there p, e)
  ]

  pub any-In : (test : A → Bool) (l : List A) (x : A) → In x l → test x ≡ true → any test l ≡ true
  any-In test [] x p e = elim p [ ]
  any-In test (y ∷ l) x here e = rw e refl
  any-In test (y ∷ l) x (there p) e = ground (arith, any-In test l x p e)
